-- ===== src/Config/Production/Secure.antt =====
-- What `_validate_production_configuration` of src/packages/shared/config.py lets through.
use akesis.Common.{
  String, ◌≡◌, ◌≢◌, refl, sym, ◌∙◌, ◌↔◌, ◌⊎◌, inl, inr, Bool, true, false, not, ◌&&◌, ◌||◌, List,
  [], ◌∷◌, map, arith, nat_eq, string_eq, if◌then◌else◌, codes, lower, has_part, same_codes,
  is_empty, any, All, contains, is_blank, ◌==◌, or_left, or_right, or_intro, refute,
}
use akesis.Config.{Settings}
use akesis.Runtime.{Error, ok, err}
use akesis.Config.Production.{
  is_production, insecure_webhook_secrets, insecure_slack_webhooks, insecure_slack_secrets,
  is_placeholder, is_development_database, is_wildcard, is_shared, production_checks, messages,
  production_errors, value_error, validate_production_configuration,
}

-- A value that is set, and is none of these.
abbrev pub IsGenuine : List String → String → Type 0
IsGenuine placeholders value =
    (is_blank value ≡ false) × All (λ placeholder. value ≢ placeholder) placeholders

abbrev pub IsExplicit : List String → Type 0
IsExplicit names =
    (is_empty names ≡ false) × All (λ name. has_part (codes name) (codes "*") ≡ false) names

-- The secrets and addresses of a production configuration.
pub record IsSecure (s : Settings) : Type 0 where
  pub has_database : is_blank s.database_url ≡ false
  pub no_default_password : has_part (codes s.database_url) (codes "postgrespassword") ≡ false
  pub no_local_port : has_part (codes s.database_url) (codes "localhost:5436") ≡ false
  pub webhook :
      IsGenuine
        ("test_webhook_secret" ∷ "your_github_webhook_secret_here" ∷ "secret" ∷ "placeholder" ∷ [])
        s.github_webhook_secret
  pub github : IsGenuine ("your_github_token_here" ∷ []) s.github_token
  pub gemini : IsGenuine ("your_gemini_api_key_here" ∷ []) s.gemini_api_key
  pub slack :
      IsGenuine
        ("https://hooks.slack.com/services/..." ∷ "your_slack_webhook_url_here" ∷ "placeholder"
          ∷ [])
        s.slack_webhook_url
  pub slack_secret :
      IsGenuine
        ("test_slack_signing_secret" ∷ "your_slack_signing_secret_here" ∷ "placeholder" ∷ [])
        s.slack_signing_secret
  pub origins : IsExplicit s.cors_allowed_origins
  pub hosts : IsExplicit s.trusted_hosts
  pub distinct :
      (is_blank s.read_api_token ≡ true)
      ⊎ ((s.read_api_token ≢ s.github_webhook_secret)
          × (s.read_api_token ≢ s.github_token)
          × (s.read_api_token ≢ s.gemini_api_key)
          × (s.read_api_token ≢ s.slack_signing_secret))

-- The environment is not `production` or `prod`, in any case.
pub record IsElsewhere (s : Settings) : Type 0 where
  pub not_production : same_codes (map lower (codes s.environment)) (codes "production") ≡ false
  pub not_prod : same_codes (map lower (codes s.environment)) (codes "prod") ≡ false

or_iff : (a b : Bool) → ((a || b) ≡ false) ↔ ((a ≡ false) × (b ≡ false))
or_iff a b = ((λ h. (or_left a b h, or_right a b h)), (λ h. or_intro a b h.0 h.1))

apart_iff : (x y : String) → ((x == y) ≡ false) ↔ (x ≢ y)
apart_iff x y = (
  (λ h e. let f : true ≡ false = sym ((string_eq.same_iff x y).1 e) ∙ h in cc),
  (λ n. refute _ (λ e. elim (n ((string_eq.same_iff x y).0 e)) [ ])),
)

contains_iff : (x : String) (ys : List String) → (contains x ys ≡ false) ↔ All (λ y. x ≢ y) ys
contains_iff x [] = ((λ _. tt), (λ _. refl))
contains_iff x (y ∷ ys) =
    let here = apart_iff x y in
    let rest = contains_iff x ys in
    (
      (λ h. (here.0 (or_left _ _ h), rest.0 (or_right _ _ h))),
      (λ (n, ns). or_intro _ _ (here.1 n) (rest.1 ns)),
    )

genuine :
    (placeholders : List String) (value : String)
    → (is_placeholder placeholders value ≡ false) ↔ IsGenuine placeholders value
unfolding is_placeholder
genuine placeholders value =
    let listed = contains_iff value placeholders in
    (
      (λ h. (or_left _ _ h, listed.0 (or_right _ _ h))),
      (λ (set, apart). or_intro _ _ set (listed.1 apart)),
    )

explicit :
    (names : List String)
    → (any is_wildcard names ≡ false)
      ↔ All (λ name. has_part (codes name) (codes "*") ≡ false) names
unfolding is_wildcard
explicit [] = ((λ _. tt), (λ _. refl))
explicit (name ∷ names) =
    let rest = explicit names in
    ((λ h. (or_left _ _ h, rest.0 (or_right _ _ h))), (λ (n, ns). or_intro _ _ n (rest.1 ns)))

unshared :
    (blank : Bool) (token : String) (secrets : List String)
    → ((not blank && contains token secrets) ≡ false)
      ↔ ((blank ≡ true) ⊎ All (λ secret. token ≢ secret) secrets)
unshared true token secrets = ((λ _. inl refl), (λ _. refl))
unshared false token secrets =
    let listed = contains_iff token secrets in
    ((λ h. inr (listed.0 h)), (λ h. elim h [ inl set ↦ ground arith | inr apart ↦ listed.1 apart ]))

elsewhere : (s : Settings) → (is_production s ≡ false) ↔ IsElsewhere s
unfolding is_production
elsewhere s = (
  (λ h. record { not_production = or_left _ _ h; not_prod = or_left _ _ (or_right _ _ h) }),
  (λ k. or_intro _ _ k.not_production (or_intro _ _ k.not_prod refl)),
)

is_empty-messages :
    (checks : List (Bool × String))
    → (is_empty (messages checks) ≡ true) ↔ All (λ c. c.0 ≡ false) checks
is_empty-messages [] = ((λ _. tt), (λ _. refl))
is_empty-messages ((true, m) ∷ checks) = ((λ h. ground arith), (λ h. ground (arith, h.0)))
is_empty-messages ((false, m) ∷ checks) =
    let rest = is_empty-messages checks in ((λ h. (refl, rest.0 h)), (λ h. rest.1 h.1))

development_alone : (a b : Bool) → a ≡ false → (not a && b) ≡ false → b ≡ false
development_alone true b ha hb = ground arith
development_alone false b ha hb = hb

development_both : (a b : Bool) → b ≡ false → (not a && b) ≡ false
development_both true b hb = refl
development_both false b hb = hb

development :
    (url : String)
    → (is_development_database url ≡ false) ↔ (
        (has_part (codes url) (codes "postgrespassword") ≡ false)
        × (has_part (codes url) (codes "localhost:5436") ≡ false))
unfolding is_development_database
development url =
    or_iff (has_part (codes url) (codes "postgrespassword"))
      (has_part (codes url) (codes "localhost:5436"))

checks-IsSecure : (s : Settings) → All (λ c. c.0 ≡ false) (production_checks s) ↔ IsSecure s
unfolding production_checks is_shared
checks-IsSecure s =
    let webhook_iff = genuine insecure_webhook_secrets s.github_webhook_secret in
    let github_iff = genuine ("your_github_token_here" ∷ []) s.github_token in
    let gemini_iff = genuine ("your_gemini_api_key_here" ∷ []) s.gemini_api_key in
    let slack_iff = genuine insecure_slack_webhooks s.slack_webhook_url in
    let secret_iff = genuine insecure_slack_secrets s.slack_signing_secret in
    let origins_iff = explicit s.cors_allowed_origins in
    let hosts_iff = explicit s.trusted_hosts in
    let token_iff =
      unshared (is_blank s.read_api_token) s.read_api_token (
        s.github_webhook_secret ∷ s.github_token ∷ s.gemini_api_key ∷ s.slack_signing_secret
        ∷ []) in
    let database_iff = development s.database_url in
    (
      (λ (
        no_url,
        (
          no_dev,
          (webhook, (github, (gemini, (slack, (secret, (has_o, (o, (has_h, (h, (d, _)))))))))),
        ),
      ).
          let url = database_iff.0 (
            development_alone (is_blank s.database_url) (is_development_database s.database_url)
              no_url no_dev) in
          record {
            has_database = no_url;
            no_default_password = url.0;
            no_local_port = url.1;
            webhook = webhook_iff.0 webhook;
            github = github_iff.0 github;
            gemini = gemini_iff.0 gemini;
            slack = slack_iff.0 slack;
            slack_secret = secret_iff.0 secret;
            origins = (has_o, origins_iff.0 o);
            hosts = (has_h, hosts_iff.0 h);
            distinct = elim (token_iff.0 d) [
              | inl unset ↦ inl unset
              | inr (a, (b, (c, (e, _)))) ↦ inr (a, b, c, e)
            ];
          }),
      (λ k. (
        k.has_database,
        (
          development_both (is_blank s.database_url) (is_development_database s.database_url)
              (database_iff.1 (k.no_default_password, k.no_local_port)),
          (
            webhook_iff.1 k.webhook,
            (
              github_iff.1 k.github,
              (
                gemini_iff.1 k.gemini,
                (
                  slack_iff.1 k.slack,
                  (
                    secret_iff.1 k.slack_secret,
                    (
                      k.origins.0,
                      (
                        origins_iff.1 k.origins.1,
                        (
                          k.hosts.0,
                          (
                            hosts_iff.1 k.hosts.1,
                            (
                              token_iff.1 (elim k.distinct [
                                | inl unset ↦ inl unset
                                | inr (a, b, c, e) ↦ inr (a, (b, (c, (e, tt))))
                              ]),
                              tt,
                            ),
                          ),
                        ),
                      ),
                    ),
                  ),
                ),
              ),
            ),
          ),
        ),
      )),
    )

production_errors-IsSecure : (s : Settings) → (is_empty (production_errors s) ≡ true) ↔ IsSecure s
unfolding production_errors
production_errors-IsSecure s =
    let listed = is_empty-messages (production_checks s) in
    let secure = checks-IsSecure s in ((λ h. secure.0 (listed.0 h)), (λ h. listed.1 (secure.1 h)))

passes :
    (production : Bool) (errors : List String) (s : Settings) (e : Error)
    → ((if not production || is_empty errors then ok s else err e) ≡ ok s)
      ↔ ((production ≡ false) ⊎ (is_empty errors ≡ true))
passes false errors s e = ((λ _. inl refl), (λ _. refl))
passes true [] s e = ((λ _. inr refl), (λ _. refl))
passes true (m ∷ errors) s e =
    ((λ h. ground arith), (λ h. elim h [ inl a ↦ ground arith | inr b ↦ ground arith ]))

-- A configuration passes, and is then kept as it is, exactly if it is not for production, or if each
-- of its secrets and addresses is set and is none of the listed placeholders, the database's address
-- has neither the default password nor the local port, origins and hosts are listed without a
-- wildcard, and the read token, if set, is none of the webhook's secret, the GitHub token, the Gemini
-- key and Slack's signing secret. It may be Slack's webhook address.
pub validate_production_configuration-IsSecure :
    (s : Settings) → (validate_production_configuration s ≡ ok s) ↔ (IsElsewhere s ⊎ IsSecure s)
unfolding validate_production_configuration
validate_production_configuration-IsSecure s =
    let outcome =
      passes (is_production s) (production_errors s) s (value_error (production_errors s)) in
    let secure = production_errors-IsSecure s in
    let other_iff = elsewhere s in
    (
      (λ h. elim (outcome.0 h) [
        | inl other ↦ inl (other_iff.0 other)
        | inr none_found ↦ inr (secure.0 none_found)
      ]),
      (λ h. outcome.1 (elim h [ inl other ↦ inl (other_iff.1 other) | inr k ↦ inr (secure.1 k) ])),
    )
