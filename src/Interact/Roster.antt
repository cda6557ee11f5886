-- ===== src/Interact/Roster.antt =====
-- schedule/__init__.py: the roster and its escalation chain. The parser of ICS text is not modelled.
pub mod Members
use ai_oncall.Prelude.{String, ◌==◌, Bool, not, ◌&&◌, List, [], ◌∷◌, ◌++◌, any, if◌then◌else◌}

pub record Roster : Type 0 where
  pub primary : String
  pub secondary : String
  pub manager : String
  pub source : String

abbrev pub default_roster : Roster
default_roster = record {
  primary = "admin";
  secondary = "admin";
  manager = "admin";
  source = "default";
}

abbrev pub roster_from_static : String → String → String → Roster
roster_from_static primary secondary manager = record {
  primary = primary;
  secondary = secondary;
  manager = manager;
  source = "static";
}

abbrev pub is_new : String → List String → Bool
is_new who seen = not (who == "") && not (any (λ x. x == who) seen)

unfoldable pub chain_from : List String → List String → List String
chain_from seen [] = seen
chain_from seen (who ∷ rest) = chain_from (if is_new who seen then seen ++ who ∷ [] else seen) rest

unfoldable pub chain : Roster → List String
unfolding chain_from
chain r = chain_from [] (r.primary ∷ r.secondary ∷ r.manager ∷ [])
