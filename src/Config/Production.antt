-- ===== src/Config/Production.antt =====
-- `_validate_production_configuration` of src/packages/shared/config.py: the errors of a configuration
-- for production.
pub mod Secure
use akesis.Common.{
  String, ◌≡◌, ◌≢◌, refl, sym, ◌∙◌, ◌↔◌, ◌⊎◌, inl, inr, Bool, true, false, not, ◌&&◌, ◌||◌, List,
  [], ◌∷◌, map, arith, nat_eq, string_eq, if◌then◌else◌, codes, lower, has_part, same_codes, length,
  is_empty, any, All, contains, concat, join, is_blank, decimal, ◌==◌, or_left, or_right, or_intro,
  refute,
}
use akesis.Config.{Settings}
use akesis.Runtime.{Error, Result, ok, err, ErrorKind}

abbrev pub production_names : List String
production_names = "production" ∷ "prod" ∷ []

-- `environment.lower() in ("production", "prod")`
unfoldable pub is_production : Settings → Bool
is_production s =
    any (λ name. same_codes (map lower (codes s.environment)) (codes name)) production_names

abbrev pub insecure_webhook_secrets : List String
insecure_webhook_secrets =
    "test_webhook_secret" ∷ "your_github_webhook_secret_here" ∷ "secret" ∷ "placeholder" ∷ []

abbrev pub insecure_slack_webhooks : List String
insecure_slack_webhooks =
    "https://hooks.slack.com/services/..." ∷ "your_slack_webhook_url_here" ∷ "placeholder" ∷ []

abbrev pub insecure_slack_secrets : List String
insecure_slack_secrets =
    "test_slack_signing_secret" ∷ "your_slack_signing_secret_here" ∷ "placeholder" ∷ []

-- `not value or value in placeholders`
unfoldable pub is_placeholder : List String → String → Bool
is_placeholder placeholders value = is_blank value || contains value placeholders

unfoldable pub is_development_database : String → Bool
is_development_database url =
    has_part (codes url) (codes "postgrespassword") || has_part (codes url) (codes "localhost:5436")

unfoldable pub is_wildcard : String → Bool
is_wildcard s = has_part (codes s) (codes "*")

-- the read token is one of the other secrets
unfoldable pub is_shared : Settings → Bool
is_shared s =
    not (is_blank s.read_api_token)
    && contains s.read_api_token
        (s.github_webhook_secret ∷ s.github_token ∷ s.gemini_api_key ∷ s.slack_signing_secret ∷ [])

-- each test that makes an error, with its message
unfoldable pub production_checks : Settings → List (Bool × String)
unfolding is_placeholder is_development_database is_wildcard is_shared
production_checks s =
    (is_blank s.database_url, "DATABASE_URL is required in production.")
    ∷ (
      not (is_blank s.database_url) && is_development_database s.database_url,
      "DATABASE_URL contains default/development credentials or localhost address.",
    )
    ∷ (
      is_placeholder insecure_webhook_secrets s.github_webhook_secret,
      "GITHUB_WEBHOOK_SECRET is missing or using an insecure test placeholder.",
    )
    ∷ (
      is_placeholder ("your_github_token_here" ∷ []) s.github_token,
      "GITHUB_TOKEN is required in production.",
    )
    ∷ (
      is_placeholder ("your_gemini_api_key_here" ∷ []) s.gemini_api_key,
      "GEMINI_API_KEY is required in production.",
    )
    ∷ (
      is_placeholder insecure_slack_webhooks s.slack_webhook_url,
      "SLACK_WEBHOOK_URL is missing or using an insecure placeholder.",
    )
    ∷ (
      is_placeholder insecure_slack_secrets s.slack_signing_secret,
      "SLACK_SIGNING_SECRET is missing or using an insecure placeholder.",
    )
    ∷ (
      is_empty s.cors_allowed_origins,
      "CORS_ALLOWED_ORIGINS must be configured with explicit origins in production.",
    )
    ∷ (
      any is_wildcard s.cors_allowed_origins,
      "CORS_ALLOWED_ORIGINS must not contain wildcard '*' in production.",
    )
    ∷ (is_empty s.trusted_hosts, "TRUSTED_HOSTS must be explicitly configured in production.")
    ∷ (
      any is_wildcard s.trusted_hosts,
      "TRUSTED_HOSTS must not contain wildcard '*' in production.",
    )
    ∷ (is_shared s, "READ_API_TOKEN must be distinct from GitHub, Gemini, and Slack credentials.")
    ∷ []

abbrev pub messages : List (Bool × String) → List String
messages [] = []
messages ((test, message) ∷ checks) =
    let rest = messages checks in if test then message ∷ rest else rest

unfoldable pub production_errors : Settings → List String
unfolding production_checks
production_errors s = messages (production_checks s)

abbrev value_error : List String → Error
value_error errors = record {
  kind = ErrorKind.unexpected;
  message = concat (
      "Production configuration validation failed with "
      ∷ decimal (length errors)
      ∷ " error(s):\n- "
      ∷ join "\n- " errors
      ∷ []);
}

-- the settings, or the ValueError
unfoldable pub validate_production_configuration : Settings → Result Settings
unfolding is_production production_errors
validate_production_configuration s =
    let errors = production_errors s in
    if not (is_production s) || is_empty errors then ok s else err (value_error errors)
