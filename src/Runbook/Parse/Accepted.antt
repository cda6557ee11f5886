-- ===== src/Runbook/Parse/Accepted.antt =====
-- runbook/parse.py: the contract of a runbook that `parse_runbook` returns.
use ai_oncall.Prelude.{String, ◌≡◌, subst, List, length, All, ◌≤◌}
use ai_oncall.Python.Exec.{ok, and_then_ok}
use ai_oncall.Python.Json.{
  Json, Fields, null, bool, num, neg, float, non_finite, str, arr, obj, get,
}
use ai_oncall.Python.Texts.{Texts}
use ai_oncall.Brain.Validator.{as_text, filled, matching, missing}
use ai_oncall.Brain.Validator.Sound.{append_nil_iff, unless_blank-some, if_match-some}
use ai_oncall.Runbook.Model.{Runbook, RunbookStep}
use ai_oncall.Runbook.Parse.{
  name_re, prefix_of, description_of, check_all_steps, runbook_errors, parse_dict, parse_runbook,
}
use ai_oncall.Runbook.Parse.Sound.{
  IsDistinct, IsSoundStep, IsSoundRunbook, check_all_steps_sound, conclude_runbook_ok,
}

module _ ⦃x : Texts⦄ where
  IsReadable : List RunbookStep → Type 0
  IsReadable ss = (1 ≤ length ss) × All IsSoundStep ss × IsDistinct ss

  parse_dict_sound :
      (prefix : String) (fs : Fields) (r : Runbook) → parse_dict prefix fs ≡ ok r → IsSoundRunbook r
  unfolding IsReadable
  parse_dict_sound prefix fs r e =
      let (steps, read, e') = and_then_ok (check_all_steps prefix (get "steps" fs)) _ r e in
      let (none_wrong, qn, qs, same) =
        conclude_runbook_ok (runbook_errors prefix fs steps.0) (matching name_re (get "name" fs))
          (filled (get "service" fs)) (description_of (get "description" fs)) steps.1 r e' in
      let (_, m1) = append_nil_iff (missing (matching name_re (get "name" fs)) _) _ none_wrong in
      let (_, m2) = append_nil_iff (missing (filled (get "service" fs)) _) _ m1 in
      let (_, m3) = append_nil_iff (missing (description_of (get "description" fs)) _) steps.0 m2 in
      let (some_step, sound, apart) =
        subst IsReadable same (check_all_steps_sound prefix (get "steps" fs) steps read m3) in
      record {
        named = (if_match-some name_re (as_text (get "name" fs)) r.name qn).1;
        of_service = (unless_blank-some (as_text (get "service" fs)) r.service qs).1;
        has_steps = some_step;
        sound_steps = sound;
        distinct = apart;
      }

  -- A runbook that `parse_runbook` returns has a name of the required form, a service that is not blank, and
  -- at least one step; each step has a name of that form, an action that is not blank and the risk
  -- "read-only" or "mutating", and no two steps have the same name.
  pub parse_runbook_sound :
      (v : Json) (source : String) (r : Runbook) → parse_runbook v source ≡ ok r → IsSoundRunbook r
  unfolding parse_runbook
  parse_runbook_sound (obj fs) source r e = parse_dict_sound (prefix_of source) fs r e
  parse_runbook_sound null source r e = cc
  parse_runbook_sound (bool b) source r e = cc
  parse_runbook_sound (num n) source r e = cc
  parse_runbook_sound (neg n) source r e = cc
  parse_runbook_sound (float b n) source r e = cc
  parse_runbook_sound (non_finite s) source r e = cc
  parse_runbook_sound (str s) source r e = cc
  parse_runbook_sound (arr vs) source r e = cc
