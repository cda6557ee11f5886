-- ===== src/Python/Texts.antt =====
-- What the program uses of `str`, `re` and `json.loads`, which stand outside it.
use ai_oncall.Prelude.{ℕ, String, ◌<>◌, Bool, Option, List, [], ◌∷◌}
use ai_oncall.Python.Json.{Json}
use ai_oncall.Python.Exec.{Exn}

pub record Texts : Type 0 where
  -- `s.strip()`, and `not s.strip()`
  pub strip : String → String
  pub is_blank : String → Bool
  pub splitlines : String → List String
  -- `s.startswith(prefix)`
  pub starts_with : String → String → Bool
  -- `s.find(sub)` and `s.rfind(sub)`, where none is -1
  pub find_text : String → String → Option ℕ
  pub rfind_text : String → String → Option ℕ
  -- `s[a:b]`
  pub slice : ℕ → ℕ → String → String
  -- `sub in s`, `s.lower()` and `s.replace(old, new)`
  pub contains : String → String → Bool
  pub lower : String → String
  pub replace : String → String → String → String
  -- `re.sub(pattern, repl, s)`
  pub re_sub : String → String → String → String
  -- `re.match(pattern, s)` finds a match
  pub re_match : String → String → Bool
  -- `str(n)`, `repr(v)`, `str(exc)`
  pub show : ℕ → String
  pub repr : Json → String
  pub message : Exn → String
  -- `f"{confidence:.2f}"` and `f"{confidence:.0%}"` of a float in units of 2 ^ -1074
  pub two_places : ℕ → String
  pub percent : ℕ → String
  -- `json.loads(s)`, none where it raises
  pub loads : String → Option Json

-- `sep.join(parts)`
abbrev pub join : String → List String → String
join sep [] = ""
join sep (x ∷ []) = x
join sep (x ∷ y ∷ ys) = x <> (sep <> join sep (y ∷ ys))
