-- ===== src/Executor/Redact.antt =====
-- executor/redact.py: the mask of every output that leaves the executor, with its own table of patterns.
use ai_oncall.Prelude.{String, Option, List, [], ◌∷◌}
use ai_oncall.Memory.Redact.{Patterns, redact_with, first_match}

abbrev pub secret_patterns : List String
secret_patterns =
    "bearer" ∷ "aws_access_key" ∷ "aws_secret" ∷ "github_pat" ∷ "slack_token" ∷ "jwt"
    ∷ "aliyun_access_key" ∷ "gcp_service_account_key_id" ∷ "conn_string" ∷ "private_key_block"
    ∷ "generic_api_key" ∷ []

module _ ⦃p : Patterns⦄ where
  unfoldable pub redact_text : String → String
  redact_text text = redact_with secret_patterns text

  unfoldable pub contains_secret : String → Option String
  contains_secret text = first_match secret_patterns text
