-- ===== src/Brain/Triage/Shadow.antt =====
-- brain/triage.py: the text of a shadow report.
use ai_oncall.Prelude.{
  ℕ, suc, String, ◌<>◌, ◌==◌, Option, none, some, List, [], ◌∷◌, ◌++◌, map, if◌then◌else◌,
}
use ai_oncall.Python.Texts.{Texts, join}
use ai_oncall.Executor.Report.{Hypothesis, SuggestedAction, TriageReport}

-- ` (runbook: …)`, if there is one that is not empty
abbrev pub runbook_note : Option String → String
runbook_note none = ""
runbook_note (some r) = if r == "" then "" else " (runbook: " <> (r <> ")")

abbrev pub action_line : SuggestedAction → String
action_line a = "- [" <> (a.risk <> ("] " <> (a.action <> runbook_note a.runbook_ref)))

abbrev pub missing_lines : List String → List String
missing_lines [] = []
missing_lines (m ∷ ms) = "" ∷ "## Missing context" ∷ map (λ n. "- " <> n) (m ∷ ms)

abbrev pub review_lines : List String
review_lines =
    "" ∷ "## Review (human)" ∷ "- 原因正確: [ ] yes [ ] no" ∷ "- 建議可用: [ ] yes [ ] no"
    ∷ "- reviewer: ____" ∷ "- scored_at: ____" ∷ []

module _ ⦃x : Texts⦄ where
  abbrev pub hypothesis_lines : ℕ → List Hypothesis → List String
  hypothesis_lines i [] = []
  hypothesis_lines i (h ∷ hs) =
      (x.show i
        <> (". **" <> (h.cause <> ("** (confidence=" <> (x.two_places h.confidence <> ")")))))
      ∷ (map (λ e. "   - evidence: " <> e) h.evidence ++ hypothesis_lines (suc i) hs)

  unfoldable pub shadow_text : TriageReport → String
  shadow_text r = join "\n" (
      ("# Shadow triage report — " <> r.incident_id)
      ∷ ("- prompt_version: `" <> (r.prompt_version <> "`"))
      ∷ ""
      ∷ "## Hypotheses"
      ∷ (hypothesis_lines 1 r.hypotheses
          ++ (""
              ∷ "## Suggested actions"
              ∷ (map action_line r.suggested_actions
                  ++ (missing_lines r.missing_context ++ review_lines)))))

  abbrev pub shadow_name : String → ℕ → String
  shadow_name i seconds = i <> ("_" <> (x.show seconds <> ".md"))
