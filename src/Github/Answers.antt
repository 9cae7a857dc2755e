-- ===== src/Github/Answers.antt =====
-- What the operations of the GitHub client make of an answer.
use akesis.Common.{
  ℕ, String, ◌≡◌, refl, sym, ap, ◌∙◌, ◌≢◌, ◌⊎◌, inl, inr, true, false, some, List, [], ◌∷◌, ◌++◌,
  map, ◌==◌, nat_eq, string_eq, Bool-cases, codes, lower, has_part, All, concat, decimal,
}
use akesis.Calls.{Outcome, returned, raised, rescue, ◌>>=◌, choose}
use akesis.Calls.Post.{
  Ensures, rescue-Ensures, bind-answered, throw-Ensures, bind-finish, bind-throw, Ensures-imp,
}
use akesis.Http.{Request, Response, Exchange, responded, unreachable, is_success}
use akesis.Github.{
  GithubErrorClass, api_error, auth_error, permission_error, rate_limit_error, resource_not_found,
  conflict_error, GithubError, github_error, status_error, other_error, GithubApi, GithubClient,
  GithubCall, Steps, error_of, on_status_error, raise_for_status, exchange,
}

-- The class of an error, by the response.
abbrev pub IsClass : GithubErrorClass → Response → Type 0
IsClass auth_error res = res.status_code ≡ 401
IsClass permission_error res =
    (res.status_code ≡ 403) × (has_part (map lower (codes res.text)) (codes "permission") ≡ true)
IsClass rate_limit_error res =
    (res.status_code ≡ 429)
    ⊎ ((res.status_code ≡ 403)
        × (has_part (map lower (codes res.text)) (codes "permission") ≡ false))
IsClass resource_not_found res = res.status_code ≡ 404
IsClass conflict_error res = (res.status_code ≡ 409) ⊎ (res.status_code ≡ 422)
IsClass api_error res = All (λ n. res.status_code ≢ n) (401 ∷ 403 ∷ 404 ∷ 409 ∷ 422 ∷ 429 ∷ [])

-- The error of a response: its class, its status, and a message that begins with the context.
abbrev pub IsErrorOf : Response → String → GithubError → Type 0
IsErrorOf res context_msg (github_error class message status) =
    IsClass class res
    × (status ≡ some res.status_code)
    × ((rest : List String) × (message ≡ concat (context_msg ∷ rest)))
IsErrorOf res context_msg e = ⊥

differs : (a b : ℕ) → (a == b) ≡ false → a ≢ b
differs a b h e =
    let f : (a == b) ≡ true = (nat_eq.same_iff a b).1 e in let g : true ≡ false = sym f ∙ h in cc

error_of-IsErrorOf :
    (res : Response) (context_msg : String) → IsErrorOf res context_msg (error_of res context_msg)
unfolding error_of
error_of-IsErrorOf res context_msg =
    let n = res.status_code in
    let is : (k : ℕ) → (n == k) ≡ true → n ≡ k = λ k e. (nat_eq.same_iff n k).0 e in
    elim (Bool-cases (n == 401)) [
      | inl a ↦ rw a (is 401 a, ap some (sym (is 401 a)), (": Unauthorized (HTTP 401)" ∷ [], refl))
      | inr a ↦ elim (Bool-cases (n == 429)) [
        | inl b ↦
            rw (a, b)
              (
                inl (is 429 b),
                ap some (sym (is 429 b)),
                (": Rate limit exceeded (HTTP 429)" ∷ [], refl),
              )
        | inr b ↦ elim (Bool-cases (n == 403)) [
          | inl c ↦ elim (Bool-cases (has_part (map lower (codes res.text)) (codes "permission"))) [
            | inl p ↦
                rw (a, b, c, p)
                  (
                    (is 403 c, p),
                    ap some (sym (is 403 c)),
                    (": Permission denied (HTTP 403)" ∷ [], refl),
                  )
            | inr p ↦
                rw (a, b, c, p)
                  (
                    inr (is 403 c, p),
                    ap some (sym (is 403 c)),
                    (": Rate limit exceeded or forbidden (HTTP 403)" ∷ [], refl),
                  )
          ]
          | inr c ↦ elim (Bool-cases (n == 404)) [
            | inl d ↦
                rw (a, b, c, d)
                  (
                    is 404 d,
                    ap some (sym (is 404 d)),
                    (": Resource not found (HTTP 404)" ∷ [], refl),
                  )
            | inr d ↦ elim (Bool-cases (n == 409)) [
              | inl e ↦
                  rw (a, b, c, d, e)
                    (
                      inl (is 409 e),
                      refl,
                      (": Conflict or unprocessable entity (HTTP " ∷ decimal n ∷ ")" ∷ [], refl),
                    )
              | inr e ↦ elim (Bool-cases (n == 422)) [
                | inl f ↦
                    rw (a, b, c, d, e, f)
                      (
                        inr (is 422 f),
                        refl,
                        (": Conflict or unprocessable entity (HTTP " ∷ decimal n ∷ ")" ∷ [], refl),
                      )
                | inr f ↦
                    rw (a, b, c, d, e, f)
                      (
                        (
                          differs n 401 a,
                          (
                            differs n 403 c,
                            (
                              differs n 404 d,
                              (differs n 409 e, (differs n 422 f, (differs n 429 b, tt))),
                            ),
                          ),
                        ),
                        refl,
                        (": HTTP " ∷ decimal n ∷ [], refl),
                      )
              ]
            ]
          ]
        ]
      ]
    ]

module _ {A : Type 0} where
  -- What an operation makes of an answer: the exception of the connection, or what is read of a
  -- response of success, or the error of the response.
  abbrev pub Concludes :
      (Response → Outcome GithubError A) → String → Exchange → Outcome GithubError A → Type 0
  Concludes read context_msg answer o =
      ((m : String) × (answer ≡ unreachable m) × (o ≡ raised (other_error m)))
      ⊎ (((res : Response) × (answer ≡ responded res)
            × (is_success res.status_code ≡ true)
            × (o ≡ read res))
          ⊎ ((res : Response) × (answer ≡ responded res)
              × (is_success res.status_code ≡ false)
              × (e : GithubError) × (o ≡ raised e)
              × IsErrorOf res context_msg e))

  -- The operation sends this request, once, and concludes from its answer.
  abbrev pub Exchanges :
      Request
      → (Response → Outcome GithubError A)
      → String
      → Outcome GithubError A
      → List GithubCall
      → Type 0
  Exchanges request read context_msg o vs =
      (answer : Exchange) × (vs ≡ record { request = request; answer = answer } ∷ [])
      × Concludes read context_msg answer o

  abbrev pub IsPlain : Outcome GithubError A → Type 0
  IsPlain (raised (status_error res)) = ⊥
  IsPlain (raised (github_error class m status)) = Unit
  IsPlain (raised (other_error m)) = Unit
  IsPlain (returned a) = Unit

  -- before the errors are translated
  abbrev Answered : (Response → Outcome GithubError A) → Exchange → Outcome GithubError A → Type 0
  Answered read answer (raised (status_error res)) =
      (answer ≡ responded res) × (is_success res.status_code ≡ false)
  Answered read answer (raised (github_error class m status)) =
      (c : String) → Concludes read c answer (raised (github_error class m status))
  Answered read answer (raised (other_error m)) =
      (c : String) → Concludes read c answer (raised (other_error m))
  Answered read answer (returned a) = (c : String) → Concludes read c answer (returned a)

  plain-Answered :
      (read : Response → Outcome GithubError A) (answer : Exchange) (o : Outcome GithubError A)
      → IsPlain o
      → ((c : String) → Concludes read c answer o)
      → Answered read answer o
  plain-Answered read answer (raised (status_error res)) h k = elim h [ ]
  plain-Answered read answer (raised (github_error class m status)) h k = k
  plain-Answered read answer (raised (other_error m)) h k = k
  plain-Answered read answer (returned a) h k = k

  module _ (read : Response → Outcome GithubError A) (k : Response → Steps A)
      (reads : (res : Response)
        → Ensures (λ o ws. (ws ≡ []) × ((o ≡ read res) × IsPlain o)) (k res)) where
    abbrev Raw : Exchange → Outcome GithubError A → List GithubCall → Type 0
    Raw answer o ws = (ws ≡ []) × Answered read answer o

    after_status : (answer : Exchange) → Ensures (Raw answer) (raise_for_status answer >>= k)
    unfolding choose
    after_status (unreachable m) = bind-throw _ _ (other_error m) (refl, λ c. inl (m, refl, refl))
    after_status (responded res) = elim (Bool-cases (is_success res.status_code)) [
      | inl e ↦ rw e (
          bind-finish _ _ res (
            Ensures-imp _ _ _ (reads res) (λ o ws h. (
              h.0,
              plain-Answered read (responded res) o h.1.1 (λ c. inr (inl (res, refl, e, h.1.0))),
            ))))
      | inr e ↦ rw e (bind-throw _ _ (status_error res) (refl, (refl, e)))
    ]

    module _ (api : GithubApi) (self : GithubClient) (request : Request) (context_msg : String)
        (fallback : A) where
      abbrev Sent : Outcome GithubError A → List GithubCall → Type 0
      Sent o vs =
          (answer : Exchange) × (vs ≡ record { request = request; answer = answer } ∷ [])
          × Answered read answer o

      translated :
          (e : GithubError) (vs : List GithubCall)
          → Sent (raised e) vs
          → Ensures
              (λ o ws. Exchanges request read context_msg o (vs ++ ws))
              (on_status_error context_msg fallback e)
      translated (github_error class m status) vs (answer, e, h) =
          throw-Ensures _ _ (answer, rw e refl, h context_msg)
      translated (other_error m) vs (answer, e, h) =
          throw-Ensures _ _ (answer, rw e refl, h context_msg)
      translated (status_error res) vs (answer, e, h) = bind-throw _ _ (error_of res context_msg) (
        answer,
        rw e refl,
        inr (
            inr
              (res, h.0, h.1, error_of res context_msg, refl, error_of-IsErrorOf res context_msg)),
      )

      pub exchange-then : Ensures (Exchanges request read context_msg) (
          rescue
            (exchange api self request >>= λ answer. raise_for_status answer >>= k)
            (on_status_error context_msg fallback))
      exchange-then =
          rescue-Ensures Sent (Exchanges request read context_msg)
            (on_status_error context_msg fallback) _
            (bind-answered Sent (λ answer. record { request = request; answer = answer })
              (api.send request) _
              (λ answer.
                Ensures-imp _ _ _ (after_status answer) (λ o ws h. (answer, rw h.0 refl, h.1))))
            (λ a vs (answer, e, h). (answer, e, h context_msg)) translated
