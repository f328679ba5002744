-- ===== src/Lifecycle/Runs.antt =====
-- An action over any sequence of events. An event that is refused leaves the state, as it does in
-- `LifecycleRegistry::apply`.
use hyperliquid.Base.{
  ◌≡◌, some, List, [], ◌∷◌, Result, ok, err, arith, inl, inr, Result-cases, refl, subst, sym, ◌∙◌,
}
use hyperliquid.Decimal.{Decimal}
use hyperliquid.Lifecycle.{
  PlannedAction, LifecycleState, LifecycleEvent, ReconciliationPolicy, TransitionError, validate,
}
use hyperliquid.Lifecycle.Events.{step, apply_lifecycle_event, action}
use hyperliquid.Lifecycle.Laws.{step-action}
use hyperliquid.Lifecycle.Laws.Lasting.{AtLeast, IsFinal, step-AtLeast, step-IsFinal}

module _ (d : Decimal) (p : ReconciliationPolicy) where
  -- The state after an event, and after a list of events.
  abbrev pub kept : LifecycleState d → Result TransitionError (LifecycleState d) → LifecycleState d
  kept c (ok s) = s
  kept c (err _) = c

  pub history : List (LifecycleEvent d) → LifecycleState d → LifecycleState d
  history [] c = c
  history (e ∷ es) c = history es (kept c (apply_lifecycle_event d c e p))

  -- An event that is taken is a step.
  pub apply-step :
      (c : LifecycleState d) (e : LifecycleEvent d) {s : LifecycleState d}
      → apply_lifecycle_event d c e p ≡ ok s
      → step d c e p ≡ ok s
  unfolding apply_lifecycle_event validate
  apply-step c e h = ground arith

  -- What an accepted event keeps, every event keeps.
  kept-among :
      (P : LifecycleState d → Type 0) (c : LifecycleState d) (e : LifecycleEvent d)
      → ((s : LifecycleState d) → step d c e p ≡ ok s → P s)
      → P c
      → P (kept c (apply_lifecycle_event d c e p))
  kept-among P c e f h = elim (Result-cases (apply_lifecycle_event d c e p)) [
    | inl (t, took) ↦ rw took (f t (apply-step c e took))
    | inr (x, bad) ↦ rw bad h
  ]

  history-among :
      (P : LifecycleState d → Type 0)
      → ((c s : LifecycleState d) (e : LifecycleEvent d) → P c → step d c e p ≡ ok s → P s)
      → (es : List (LifecycleEvent d)) (c : LifecycleState d) → P c
      → P (history es c)
  unfolding history
  history-among P f [] c h = h
  history-among P f (e ∷ es) c h =
      history-among P f es (kept c (apply_lifecycle_event d c e p))
        (kept-among P c e (λ s q. f c s e h q) h)

  -- Over any events, refused ones included, a planned action stays the same.
  history-action :
      (es : List (LifecycleEvent d)) (c : LifecycleState d) {a : PlannedAction d}
      → action d c ≡ some a
      → action d (history es c) ≡ some a
  history-action es c {a} h =
      history-among (λ s. action d s ≡ some a) (λ c s e q r. step-action d c e p q r) es c h

  -- Over any events a state that shows at least some filled quantity, or a cancellation, goes on to do so.
  pub history-AtLeast :
      (x : d.Value) (es : List (LifecycleEvent d)) (c : LifecycleState d)
      → AtLeast d x c
      → AtLeast d x (history es c)
  history-AtLeast x es c h =
      history-among (AtLeast d x) (λ c s e q r. step-AtLeast d x c e p q r) es c h

  -- Over any events a filled, cancelled or rejected action stays as it is.
  history-IsFinal :
      (es : List (LifecycleEvent d)) (c : LifecycleState d) → IsFinal d c → history es c ≡ c
  history-IsFinal es c h =
      history-among (λ s. s ≡ c)
        (λ b s e same r. step-IsFinal d b e p (subst (IsFinal d) (sym same) h) r ∙ same) es c refl
