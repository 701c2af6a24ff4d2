-- ===== src/Judgment/Tests.antt =====
-- A batch with one violation and a geographic risk.
use kira_backend.Prelude.{
  String, ◌≡◌, inl, true, List, [], ◌∷◌, arith, nat_eq, string_eq, option_eq,
}
use kira_backend.Risk.{low}
use kira_backend.Judgment.{
  compliance_passed, compliance_violation, Verdicts, fail, roll_up_verdict, build_metrics,
}
use kira_backend.Judgment.RollUp.{roll_up-build_metrics}

abbrev verdicts : Verdicts
verdicts = ("EUDR", compliance_passed) ∷ ("UFLPA", compliance_violation) ∷ []

abbrev flags : List String
flags = "xinjiang" ∷ []

roll_up-build_metrics_example : roll_up_verdict verdicts true low ≡ fail
unfolding build_metrics
roll_up-build_metrics_example =
    (roll_up-build_metrics (λ fs. fs) verdicts flags true 10 low).0.1 (inl (omega arith))
