-- ===== src/Signer/Submissions/Runs.antt =====
-- The registry of submissions over any registrations and transitions.
use hyperliquid.Base.{ℕ, String}
use hyperliquid.Decimal.{Decimal}
use hyperliquid.Signer.Intent.{ApprovedExecutionIntent}
use hyperliquid.Signer.Submissions.{SubmissionState, SubmissionRegistry, register}
use hyperliquid.Signer.Submissions.Transitions.{transition_at}
use hyperliquid.Signer.Submissions.Laws.{
  IsConsistent, register-IsConsistent, transition_at-IsConsistent,
}

module _ (d : Decimal) (r : SubmissionRegistry d) where
  -- What registrations and transitions make of a registry.
  pub data Reach : SubmissionRegistry d → Type 0 where
    here : Reach r
    registering :
        {s : SubmissionRegistry d} (i : ApprovedExecutionIntent d)
        → Reach s
        → Reach (register d i s).0
    moving :
        {s : SubmissionRegistry d} (cloid : String) (state : SubmissionState d) (now : ℕ)
        → Reach s
        → Reach (transition_at d cloid state now s).0

  -- From a consistent registry, every sequence of registrations and transitions, those that are refused
  -- included, leads to a consistent one: the entries are within the capacity, under the cloids of their
  -- valid intents, in the state that the history has last.
  pub Reach-IsConsistent :
      {s : SubmissionRegistry d} → IsConsistent d r → Reach s → IsConsistent d s
  Reach-IsConsistent h here = h
  Reach-IsConsistent h (registering {s} i q) = register-IsConsistent d i s (Reach-IsConsistent h q)
  Reach-IsConsistent h (moving {s} c state now q) =
      transition_at-IsConsistent d c state now s (Reach-IsConsistent h q)
