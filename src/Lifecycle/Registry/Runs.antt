-- ===== src/Lifecycle/Registry/Runs.antt =====
-- The registry of planned actions over any calls of the methods that change it.
use hyperliquid.Base.{ℕ}
use hyperliquid.Decimal.{Decimal}
use hyperliquid.Lifecycle.{LifecycleState, LifecycleEvent, ReconciliationPolicy}
use hyperliquid.Lifecycle.Registry.{LifecycleRegistry, insert_state, apply, compact_terminal}
use hyperliquid.Lifecycle.Registry.Laws.{
  IsIndexed, insert_state-IsIndexed, apply-IsIndexed, compact_terminal-IsIndexed,
}

module _ (d : Decimal) (r : LifecycleRegistry d) where
  -- What calls make of a registry.
  pub data Reach : LifecycleRegistry d → Type 0 where
    here : Reach r
    inserting :
        {s : LifecycleRegistry d} (c : LifecycleState d) → Reach s → Reach (insert_state d c s).0
    applying :
        {s : LifecycleRegistry d} (cloid : ℕ) (e : LifecycleEvent d) (p : ReconciliationPolicy)
        → Reach s
        → Reach (apply d cloid e p s).0
    compacting : {s : LifecycleRegistry d} (n : ℕ) → Reach s → Reach (compact_terminal d n s).0

  -- From a registry whose entries are filed under the cloid and the asset of their action, and no more
  -- than its maximum, every sequence of insertions, events and compactions, those that are refused
  -- included, leads to one.
  pub Reach-IsIndexed : {s : LifecycleRegistry d} → IsIndexed d r → Reach s → IsIndexed d s
  Reach-IsIndexed h here = h
  Reach-IsIndexed h (inserting {s} c q) = insert_state-IsIndexed d c s (Reach-IsIndexed h q)
  Reach-IsIndexed h (applying {s} cloid e p q) = apply-IsIndexed d cloid e p s (Reach-IsIndexed h q)
  Reach-IsIndexed h (compacting {s} n q) = compact_terminal-IsIndexed d n s (Reach-IsIndexed h q)
