-- ===== src/Tests/Reports.antt =====
-- A report that keeps its contract, checked, stored and read back.
use ai_oncall.Prelude.{◌≡◌, refl, ◌==◌, true, false, not, none, some, [], ◌∷◌, arith}
use ai_oncall.Python.Exec.{ok}
use ai_oncall.Python.Json.{obj}
use ai_oncall.Python.Texts.{Texts}
use ai_oncall.Executor.Report.{Hypothesis, SuggestedAction, TriageReport}
use ai_oncall.Brain.Validator.{one, validate_report}
use ai_oncall.Brain.Validator.Sound.{IsWellFormed, is_expected}
use ai_oncall.Brain.Validator.Contract.{validate_report_sound}
use ai_oncall.Flow.Report.{report_to_dict}
use ai_oncall.Flow.RoundTrip.{validate_report-report_to_dict}

abbrev pub restart : SuggestedAction
restart = record { action = "kubectl rollout restart"; risk = "mutating"; runbook_ref = none }

abbrev leak : Hypothesis
leak = record { cause = "memory leak"; confidence = 5; evidence = "oom" ∷ [] }

abbrev pub sound_report : TriageReport
sound_report = record {
  incident_id = "inc-1";
  hypotheses = leak ∷ [];
  suggested_actions = restart ∷ [];
  missing_context = [];
  prompt_version = "1.0.0";
  validated = true;
}

-- Services that can be computed with: every text is read as the dict of the report.
instance abbrev pub test_texts : Texts
test_texts = record {
  strip = λ s. s;
  is_blank = λ s. s == "";
  splitlines = λ s. s ∷ [];
  starts_with = λ s t. false;
  find_text = λ s t. some 0;
  rfind_text = λ s t. some 1;
  slice = λ a b s. s;
  contains = λ t s. t == s;
  lower = λ s. s;
  replace = λ old new s. s;
  re_sub = λ p r s. s;
  re_match = λ p s. not (s == "");
  show = λ n. "n";
  repr = λ v. "v";
  message = λ e. "failed";
  two_places = λ n. "0.00";
  percent = λ n. "0%";
  loads = λ s. some (obj (report_to_dict sound_report));
}

pub sound_report-IsWellFormed : IsWellFormed sound_report
unfolding one
sound_report-IsWellFormed = record {
  identified = refl;
  at_least_one = omega arith;
  at_most_five = omega arith;
  hypotheses = ((refl, ground arith), tt);
  actions = ((refl, refl), tt);
  versioned = refl;
  checked = refl;
}

read_back : validate_report (report_to_dict sound_report) (some "inc-1") ≡ ok sound_report
read_back =
    validate_report-report_to_dict sound_report (some "inc-1") sound_report-IsWellFormed refl

validate_report-report_to_dict_example :
    validate_report (report_to_dict sound_report) (some "inc-1") ≡ ok sound_report
validate_report-report_to_dict_example =
    validate_report-report_to_dict sound_report (some "inc-1") sound_report-IsWellFormed refl

validate_report_sound_example :
    IsWellFormed sound_report × (is_expected (some "inc-1") "inc-1" ≡ true)
validate_report_sound_example =
    validate_report_sound (report_to_dict sound_report) (some "inc-1") sound_report read_back
