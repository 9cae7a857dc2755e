-- ===== src/Routes/Signatures.antt =====
-- Who may call the endpoints of src/apps/api/routes.py: `verify_slack_signature` of
-- src/packages/sdk/slack_client.py, and the webhook's signature.
use akesis.Common.{
  ℕ, ◌≤◌, String, ◌≡◌, refl, ◌↔◌, inl, inr, Bool, true, false, Option, none, some, [], ◌∷◌, arith,
  eq_iff, ◌==◌, nat_eq, string_eq, Bool-cases, Option-cases, or_else, concat, is_blank,
}
use akesis.Config.{Settings}
use akesis.Domain.{WorkflowRunConclusion, FailureContext}
use akesis.Runtime.{World, Result, ok, err, ErrorKind, Effect, continue, handle, raise}
use akesis.Routes.{
  Web, verify_slack_signature, verify_github_signature, distance, ingest, is_failure, event_of,
  WebhookPayload, WorkflowRun, Repository,
}
use akesis.Routes.Handlers.{handle_github_webhook, handle_run}

-- Slack's signature of a body, made with the secret at most 300 seconds from now.
pub record IsSigned (web : Web) (body timestamp signature secret : String) (current : ℕ)
    : Type 0 where
  pub has_timestamp : is_blank timestamp ≡ false
  pub has_signature : is_blank signature ≡ false
  pub has_secret : is_blank secret ≡ false
  pub req_time : ℕ
  pub dated : web.parse_int timestamp ≡ some req_time
  pub fresh : distance current req_time ≤ 300
  pub signed :
      concat ("v0=" ∷ web.hmac_hex secret (concat ("v0:" ∷ timestamp ∷ ":" ∷ body ∷ [])) ∷ [])
      ≡ signature

is_failure_iff :
    (c : WorkflowRunConclusion) → is_failure c ≡ true → c ≡ WorkflowRunConclusion.failure
is_failure_iff c h = ground arith

module _ (web : Web) where
  -- Slack's test accepts a timestamp and a signature exactly if they and the secret are not empty,
  -- the timestamp is a time at most 300 seconds away, and the signature is the HMAC of this
  -- timestamp and this body.
  pub verify_slack_signature-IsSigned :
      (body timestamp signature secret : String) (current : ℕ)
      → (verify_slack_signature web body (some timestamp) (some signature) secret current ≡ true)
        ↔ IsSigned web body timestamp signature secret current
  unfolding verify_slack_signature
  verify_slack_signature-IsSigned body timestamp signature secret current = (
    (λ h. elim (Option-cases (web.parse_int timestamp)) [
      | inl unread ↦ ground arith
      | inr (t, e) ↦ record {
        has_timestamp = ground arith;
        has_signature = ground arith;
        has_secret = ground arith;
        req_time = t;
        dated = e;
        fresh = ground arith;
        signed = ground (
          arith,
          eq_iff
              (concat
                ("v0=" ∷ web.hmac_hex secret (concat ("v0:" ∷ timestamp ∷ ":" ∷ body ∷ [])) ∷ []))
              signature,
        );
      }
    ]),
    (λ h. ground (
      arith,
      h.dated,
      eq_iff
          (concat ("v0=" ∷ web.hmac_hex secret (concat ("v0:" ∷ timestamp ∷ ":" ∷ body ∷ [])) ∷ []))
          signature,
    )),
  )

  module _ (settings : Settings) where
    -- The state after a delivery: as it was but for the readings, or with one more scheduled failure,
    -- of a run that failed, if the signature was accepted.
    pub data Ingests (signed : Bool) (w : World) : World → Type 0 where
      nothing : (reads : ℕ) → Ingests signed w (record w { reads = reads })
      scheduled :
          (reads : ℕ) (c : FailureContext)
          → signed ≡ true
          → c.conclusion ≡ WorkflowRunConclusion.failure
          → Ingests signed w
              (record w { reads = reads; effects = Effect.process_scheduled c ∷ w.effects })

    run-Ingests :
        (payload : WebhookPayload) (run : Option WorkflowRun) (repo : Option Repository)
        (signed : Bool) (w : World)
        → signed ≡ true
        → Ingests signed w (handle_run web settings payload run repo w).1
    unfolding handle_run ingest
    run-Ingests payload none repo signed w h = Ingests.nothing w.reads
    run-Ingests payload (some run) none signed w h = Ingests.nothing w.reads
    run-Ingests payload (some run) (some repo) signed w h =
        elim (Bool-cases (is_failure (event_of web payload run repo).conclusion)) [
          | inl failed ↦ rw failed (Ingests.scheduled _ _ h (is_failure_iff _ failed))
          | inr other ↦ rw other (Ingests.nothing w.reads)
        ]

    parsed-Ingests :
        (parsed : Result WebhookPayload) (m : String) (signed : Bool) (w : World)
        → signed ≡ true
        → Ingests signed w
            (continue (handle (parsed, w) (λ _. raise (ErrorKind.http 400) m)) (λ payload.
              handle_run web settings payload payload.workflow_run payload.repository)).1
    parsed-Ingests (ok payload) m signed w h =
        run-Ingests payload payload.workflow_run payload.repository signed w h
    parsed-Ingests (err e) m signed w h = Ingests.nothing w.reads

    -- A webhook delivery touches no table, whatever it answers. What the outside sees of it is nothing,
    -- or that the processing of one failure was scheduled: the latter only if the body's signature was
    -- accepted, and only of a run whose conclusion is `failure`.
    pub handle_github_webhook-Ingests :
        (body : String) (event signature : Option String) (w : World)
        → Ingests
            (verify_github_signature web body signature settings.github_webhook_secret)
            w
            (handle_github_webhook web settings body event signature w).1
    unfolding handle_github_webhook
    handle_github_webhook-Ingests body event signature w =
        elim (Bool-cases
          (verify_github_signature web body signature settings.github_webhook_secret)) [
            | inr bad ↦ rw bad (Ingests.nothing w.reads)
            | inl good ↦ rw good (elim (Bool-cases (or_else event "" == "workflow_run")) [
              | inl run ↦ rw run (parsed-Ingests (web.parse_webhook body) _ true w refl)
              | inr other ↦ rw other (Ingests.nothing w.reads)
            ])
          ]
