-- ===== src/Evalkit/Tally.antt =====
-- evalkit/__init__.py: what the numbers of a replay count.
use ai_oncall.Prelude.{
  ℕ, ◌+◌, ◌≤◌, String, ◌==◌, ◌≡◌, refl, sym, ap, ◌∙◌, Bool, false, ◌&&◌, none, List, [], ◌∷◌,
  length, arith, eq_iff, eq_false, if◌then◌else◌,
}
use ai_oncall.Python.Exec.{Exec, ok, next_ok, ok-injective, pure, ◌>>=◌}
use ai_oncall.Python.Ensures.{Ensures, Ensures-pure, Ensures-bind, Ensures-bind_of}
use ai_oncall.Python.Host.{Host}
use ai_oncall.Python.Texts.{Texts}
use ai_oncall.Store.Schema.{time}
use ai_oncall.Memory.Redact.{Patterns}
use ai_oncall.Brain.Budget.{budget_for}
use ai_oncall.Brain.Triage.{PipelineInput, PipelineOutcome, Pipeline, on_store, account, run}
use ai_oncall.Brain.Triage.Proper.{IsProper, reported, withheld, run-IsProper}
use ai_oncall.Evalkit.{
  ReplayCase, CaseResult, ReplayReport, EvalConfig, replay_config, count, sum_tokens,
  report_of_results, to_pipeline_input, cause_hit, action_matches, has_actions, result_of,
  ensure_cases, replay_case, replay_cases, save_replay, replay,
}

-- The outcome of a case, with the tokens that it took.
abbrev pub Trial : Type 0
Trial = PipelineOutcome × ℕ

-- How many cases satisfy a test together with the outcome at their place.
unfoldable pub tally : (ReplayCase → PipelineOutcome → Bool) → List ReplayCase → List Trial → ℕ
tally q [] ts = 0
tally q (case ∷ cases) [] = 0
tally q (case ∷ cases) ((o, n) ∷ ts) = (if q case o then 1 else 0) + tally q cases ts

unfoldable pub spent : List Trial → ℕ
spent [] = 0
spent ((o, n) ∷ ts) = n + spent ts

tally-le :
    (q t : ReplayCase → PipelineOutcome → Bool) (cases : List ReplayCase) (ts : List Trial)
    → tally (λ case o. t case o && q case o) cases ts ≤ tally t cases ts
unfolding tally
tally-le q t [] ts = omega arith
tally-le q t (case ∷ cases) [] = omega arith
tally-le q t (case ∷ cases) ((o, n) ∷ ts) = ground (arith, tally-le q t cases ts)

tally-length :
    (q : ReplayCase → PipelineOutcome → Bool) (cases : List ReplayCase) (ts : List Trial)
    → tally q cases ts ≤ length cases
unfolding tally
tally-length q [] ts = omega arith
tally-length q (case ∷ cases) [] = omega arith
tally-length q (case ∷ cases) ((o, n) ∷ ts) = ground (arith, tally-length q cases ts)

abbrev pub is_reported : ReplayCase → PipelineOutcome → Bool
is_reported case o = o.status == "report"

module _ ⦃x : Texts⦄ where
  -- A validated report came back, and one of its causes names the true one.
  abbrev pub is_hit : ReplayCase → PipelineOutcome → Bool
  is_hit case o = is_reported case o && cause_hit o.report case.ground_truth_cause

  abbrev pub is_usable : ReplayCase → PipelineOutcome → Bool
  is_usable case o =
      is_reported case o
      && (has_actions o.report && action_matches o.report case.expected_action_keyword)

  results_of : List ReplayCase → List Trial → List CaseResult
  results_of [] ts = []
  results_of (case ∷ cases) [] = []
  results_of (case ∷ cases) ((o, n) ∷ ts) = result_of case o n ∷ results_of cases ts

  -- What is judged of an outcome without a validated report is nothing.
  only_reported :
      (case : ReplayCase) (input : PipelineInput) (o : PipelineOutcome) (f : Bool)
      → IsProper input o
      → (o.report ≡ none → f ≡ false)
      → f ≡ (is_reported case o && f)
  only_reported case input o f (reported r st rep w small) z =
      let e = (eq_iff o.status "report").1 st in ground arith
  only_reported case input o f (withheld st rep small) z =
      let e = eq_false o.status "report" st in let e' = z rep in ground arith

  hit_lem :
      (case : ReplayCase) (input : PipelineInput) (o : PipelineOutcome) (n : ℕ)
      → IsProper input o
      → (result_of case o n).cause_hit ≡ is_hit case o
  unfolding cause_hit
  hit_lem case input o n w =
      only_reported case input o (cause_hit o.report case.ground_truth_cause) w
        (λ e. ap (λ t. cause_hit t case.ground_truth_cause) e)

  usable_lem :
      (case : ReplayCase) (input : PipelineInput) (o : PipelineOutcome) (n : ℕ)
      → IsProper input o
      → (result_of case o n).action_usable ≡ is_usable case o
  usable_lem case input o n w =
      only_reported case input o (result_of case o n).action_usable w
        (λ e. ap (λ t. has_actions t && action_matches t case.expected_action_keyword) e)

module _ ⦃h : Host⦄ ⦃p : Patterns⦄ ⦃x : Texts⦄ (c : EvalConfig) (v : String) where
  -- An outcome that a run of the pipeline in the given version returned for the input of a case, with a new
  -- ledger at its start: a validated report of that case or none, and the tokens that the ledger has for the
  -- case at its end.
  pub record IsTrial (case : ReplayCase) (o : PipelineOutcome) (tokens : ℕ) : Type 0 where
    pub before : Pipeline
    pub after : Pipeline
    pub fresh : before.ledger ≡ c.new_ledger
    pub ran : run (replay_config c v) (to_pipeline_input case) before ≡ (ok o, after)
    pub took : tokens ≡ (budget_for case.case_id after.ledger).0.tokens_used
    pub proper : IsProper (to_pipeline_input case) o

  -- One trial for each case, in the order of the cases.
  unfoldable pub AreTrials : List ReplayCase → List Trial → Type 0
  AreTrials [] [] = Unit
  AreTrials [] (t ∷ ts) = ⊥
  AreTrials (case ∷ cases) [] = ⊥
  AreTrials (case ∷ cases) ((o, n) ∷ ts) = IsTrial case o n × AreTrials cases ts

  -- What the numbers of a report count.
  pub record IsTally (cases : List ReplayCase) (r : ReplayReport) : Type 0 where
    pub trials : List Trial
    pub one_each : AreTrials cases trials
    pub total : r.total_cases ≡ length cases
    pub of_version : r.prompt_version ≡ v
    pub reports : r.reported_cases ≡ tally is_reported cases trials
    pub hits : r.cause_hits ≡ tally is_hit cases trials
    pub usables : r.action_usable_count ≡ tally is_usable cases trials
    pub tokens : r.total_tokens ≡ spent trials
    pub hits_reported : r.cause_hits ≤ r.reported_cases
    pub usables_reported : r.action_usable_count ≤ r.reported_cases
    pub reported_given : r.reported_cases ≤ r.total_cases

  AreResults : List ReplayCase → List CaseResult → Type 0
  AreResults cases rs = (ts : List Trial) × AreTrials cases ts × (rs ≡ results_of cases ts)

  IsResult : ReplayCase → CaseResult → Type 0
  IsResult case r = (o : PipelineOutcome) × (n : ℕ) × IsTrial case o n × (r ≡ result_of case o n)

  abbrev judge : ReplayCase → PipelineOutcome → Exec Pipeline CaseResult
  judge case o = account case.case_id >>= λ b. pure (result_of case o b.tokens_used)

  case-IsResult : (case : ReplayCase) → Ensures (IsResult case) (replay_case c v case)
  unfolding IsResult
  case-IsResult case = record {
    at = λ s r e.
        let start : Pipeline = record s { ledger = c.new_ledger } in
        let m = run (replay_config c v) (to_pipeline_input case) start in
        let (o, q, e') = next_ok m.0 m.1 (judge case) r e in
        (
          o,
          (budget_for case.case_id m.1.ledger).0.tokens_used,
          record {
            before = start;
            after = m.1;
            fresh = refl;
            ran = ap (λ a. (a, m.1)) q;
            took = refl;
            proper = run-IsProper (replay_config c v) (to_pipeline_input case) start o q;
          },
          sym (ok-injective e'),
        );
  }

  cases-AreResults : (cases : List ReplayCase) → Ensures (AreResults cases) (replay_cases c v cases)
  unfolding replay_cases AreResults AreTrials results_of IsResult
  cases-AreResults [] = Ensures-pure [] ([], tt, refl)
  cases-AreResults (case ∷ cases) =
      Ensures-bind_of (IsResult case) (replay_case c v case) _ (case-IsResult case)
        (λ r (o, n, t, e).
          Ensures-bind_of (AreResults cases) (replay_cases c v cases) _ (cases-AreResults cases)
            (λ rs (ts, ws, es).
              Ensures-pure (r ∷ rs)
                ((o, n) ∷ ts, (t, ws), ap (λ q. q ∷ rs) e ∙ ap (λ qs. result_of case o n ∷ qs) es)))

  count-results_of :
      (f : CaseResult → Bool) (q : ReplayCase → PipelineOutcome → Bool)
      → ((case : ReplayCase) (o : PipelineOutcome) (n : ℕ)
          → IsProper (to_pipeline_input case) o
          → f (result_of case o n) ≡ q case o)
      → (cases : List ReplayCase) (ts : List Trial) → AreTrials cases ts
      → count f (results_of cases ts) ≡ tally q cases ts
  unfolding AreTrials results_of tally
  count-results_of f q same [] [] w = refl
  count-results_of f q same [] (t ∷ ts) w = absurd w
  count-results_of f q same (case ∷ cases) [] w = absurd w
  count-results_of f q same (case ∷ cases) ((o, n) ∷ ts) (w, ws) =
      let rest = count-results_of f q same cases ts ws in
      let e = same case o n w.proper in ground arith

  sum_tokens-results_of :
      (cases : List ReplayCase) (ts : List Trial)
      → AreTrials cases ts
      → sum_tokens (results_of cases ts) ≡ spent ts
  unfolding AreTrials results_of sum_tokens spent
  sum_tokens-results_of [] [] w = refl
  sum_tokens-results_of [] (t ∷ ts) w = absurd w
  sum_tokens-results_of (case ∷ cases) [] w = absurd w
  sum_tokens-results_of (case ∷ cases) ((o, n) ∷ ts) (w, ws) =
      ap (λ k. n + k) (sum_tokens-results_of cases ts ws)

  report-IsTally :
      (cases : List ReplayCase) (rs : List CaseResult) (now : ℕ)
      → AreResults cases rs
      → IsTally cases (report_of_results v rs (length cases) now)
  unfolding AreResults
  report-IsTally cases rs now (ts, ws, e) =
      let as_reported =
        ap (count (λ r. r.status == "report")) e
        ∙ count-results_of (λ r. r.status == "report") is_reported (λ case o n w. refl) cases ts
            ws in
      let as_hits =
        ap (count (λ r. r.cause_hit)) e
        ∙ count-results_of (λ r. r.cause_hit) is_hit
            (λ case o n w. hit_lem case (to_pipeline_input case) o n w) cases ts ws in
      let as_usable =
        ap (count (λ r. r.action_usable)) e
        ∙ count-results_of (λ r. r.action_usable) is_usable
            (λ case o n w. usable_lem case (to_pipeline_input case) o n w) cases ts ws in
      let fewer_hits =
        tally-le (λ case o. cause_hit o.report case.ground_truth_cause) is_reported cases ts in
      let fewer_usable =
        tally-le
          (λ case o. has_actions o.report && action_matches o.report case.expected_action_keyword)
          is_reported cases ts in
      let fewer = tally-length is_reported cases ts in
      record {
        trials = ts;
        one_each = ws;
        total = refl;
        of_version = refl;
        reports = as_reported;
        hits = as_hits;
        usables = as_usable;
        tokens = ap sum_tokens e ∙ sum_tokens-results_of cases ts ws;
        hits_reported = omega arith;
        usables_reported = omega arith;
        reported_given = omega arith;
      }

  -- The report of a replay that comes to its end is of all the cases that were given, with one trial for each,
  -- in their order: the outcome of the pipeline in the given version, run on the input of that case with a
  -- new ledger, which is a validated report of that case or none. It counts a case as reported where its
  -- trial has the status `report`, as a hit where moreover that report has a cause that matches the case's
  -- true one, and as usable where moreover that report has actions and one matches the keyword. Its tokens
  -- are the sum of those of the trials; the hits and the usable cases are each at most the reported ones,
  -- and those are at most all.
  pub replay-IsTally :
      (cases : List ReplayCase) (s : Pipeline) (r : ReplayReport)
      → (replay c v cases s).0 ≡ ok r
      → IsTally cases r
  unfolding replay
  replay-IsTally cases =
      (Ensures-bind (ensure_cases c cases) _ (λ _.
        Ensures-bind_of (AreResults cases) (replay_cases c v cases) _ (cases-AreResults cases)
          (λ rs w. Ensures-bind (on_store time) _ (λ now.
            Ensures-bind (save_replay c (report_of_results v rs (length cases) now)) _ (λ path.
              Ensures-pure (report_of_results v rs (length cases) now)
                (report-IsTally cases rs now w)))))).at
