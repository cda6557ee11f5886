-- ===== src/Memory/Redact.antt =====
-- redact.py: each pattern in turn is replaced by its mark.
use ai_oncall.Prelude.{String, ◌<>◌, Option, none, some, Bool, List, [], ◌∷◌, if◌then◌else◌}

-- The regular expressions of SECRET_PATTERNS, by the names of their marks. How one of them
-- is searched and replaced is the work of the module `re`.
pub record Patterns : Type 0 where
  -- `pattern.sub(mark, text)`
  pub sub : String → String → String → String
  -- `pattern.search(text)` finds a match
  pub matches : String → String → Bool

abbrev pub secret_patterns : List String
secret_patterns =
    "bearer" ∷ "aws_access_key" ∷ "aws_secret" ∷ "github_pat" ∷ "slack_token" ∷ "jwt"
    ∷ "conn_string" ∷ "private_key" ∷ "generic_api_key" ∷ []

module _ ⦃p : Patterns⦄ where
  unfoldable pub redact_with : List String → String → String
  redact_with [] out = out
  redact_with (name ∷ names) out =
      redact_with names (p.sub name ("<REDACTED:" <> (name <> ">")) out)

  unfoldable pub redact_text : String → String
  unfolding redact_with
  redact_text text = redact_with secret_patterns text

  unfoldable pub first_match : List String → String → Option String
  first_match [] text = none
  first_match (name ∷ names) text =
      let rest = first_match names text in if p.matches name text then some name else rest

  unfoldable pub contains_secret : String → Option String
  unfolding first_match
  contains_secret text = first_match secret_patterns text
