-- ===== src/Lifecycle/Laws/Lasting.antt =====
-- What of the state of an action lasts over events: a filled quantity and a final state.
use hyperliquid.Base.{
  ◌≡◌, ◌≢◌, true, Option, some, String, ok, arith, inl, inr, Bool-cases, Result-cases, subst,
}
use hyperliquid.Decimal.{Decimal}
use hyperliquid.Lifecycle.{
  PlannedAction, LifecycleState, LifecycleEvent, ReconciliationObservation, ReconciliationPolicy,
  not_found, open_order, filled, cancelled, rejected, reconciliation_observed,
  reconciled_partially_filled, reconciled_filled, reconciled_cancelled, reconciled_rejected,
  positive_state, supersede, same_state,
}
use hyperliquid.Lifecycle.Events.{
  reconcile_candidate, reconcile_known_positive, observe_rejected, apply_reconciliation_observation,
  step,
}

module _ (d : Decimal) where
  -- At least the quantity x is known to be filled, or the order was cancelled since.
  abbrev pub AtLeast : d.Value → LifecycleState d → Type 0
  AtLeast x (reconciled_partially_filled _ _ y) = d.leb x y ≡ true
  AtLeast x (reconciled_filled _ _ y) = d.leb x y ≡ true
  AtLeast x (reconciled_cancelled _ _) = Unit
  AtLeast x _ = ⊥

  supersede-AtLeast :
      (x : d.Value) (c t : LifecycleState d) {s : LifecycleState d}
      → AtLeast x c
      → supersede d c t ≡ ok s
      → AtLeast x s
  unfolding supersede
  supersede-AtLeast x (reconciled_partially_filled a r y) (reconciled_partially_filled b q z) {s} h
        e =
      elim (Bool-cases (d.leb y z)) [
        | inl le ↦
            let same : reconciled_partially_filled b q z ≡ s = ground arith in
            subst (AtLeast x) same (d.leb_trans x y z h le)
        | inr more ↦ absurd (ground arith)
      ]
  supersede-AtLeast x (reconciled_partially_filled a r y) (reconciled_filled b q z) {s} h e =
      elim (Bool-cases (d.leb y z)) [
        | inl le ↦
            let same : reconciled_filled b q z ≡ s = ground arith in
            subst (AtLeast x) same (d.leb_trans x y z h le)
        | inr more ↦ absurd (ground arith)
      ]
  supersede-AtLeast x (reconciled_partially_filled a r y) (reconciled_cancelled b q) {s} h e =
      let same : reconciled_cancelled b q ≡ s = cc in subst (AtLeast x) same tt
  supersede-AtLeast x c t h e = absurd (ground arith)

  reconcile_candidate-AtLeast :
      (x : d.Value) (c : LifecycleState d) (a : PlannedAction d) (o : ReconciliationObservation d)
      {s : LifecycleState d}
      → AtLeast x c
      → reconcile_candidate d c a o ≡ ok s
      → AtLeast x s
  unfolding reconcile_candidate
  reconcile_candidate-AtLeast x c a o {s} h e = elim (Result-cases (positive_state d a o)) [
    | inl (t, made) ↦ elim (Bool-cases (same_state d t c)) [
      | inl same ↦ let kept : c ≡ s = ground arith in subst (AtLeast x) kept h
      | inr differs ↦ supersede-AtLeast x c t h (ground arith)
    ]
    | inr (y, bad) ↦ absurd (ground arith)
  ]

  reconcile_known_positive-AtLeast :
      (x : d.Value) (c : LifecycleState d) (a : PlannedAction d) (k : Option String)
      (o : ReconciliationObservation d) {s : LifecycleState d}
      → AtLeast x c
      → reconcile_known_positive d c a k o ≡ ok s
      → AtLeast x s
  unfolding reconcile_known_positive
  reconcile_known_positive-AtLeast x c a k (not_found t) {s} h e =
      let same : c ≡ s = cc in subst (AtLeast x) same h
  reconcile_known_positive-AtLeast x c a k (rejected r t) h e = absurd (cc)
  reconcile_known_positive-AtLeast x c a k (open_order r y z t) h e =
      reconcile_candidate-AtLeast x c a (open_order r y z t) h (ground arith)
  reconcile_known_positive-AtLeast x c a k (filled r y t) h e =
      reconcile_candidate-AtLeast x c a (filled r y t) h (ground arith)
  reconcile_known_positive-AtLeast x c a k (cancelled r y t) h e =
      reconcile_candidate-AtLeast x c a (cancelled r y t) h (ground arith)

  -- An accepted event never takes back a quantity that was filled.
  pub step-AtLeast :
      (x : d.Value) (c : LifecycleState d) (e : LifecycleEvent d) (p : ReconciliationPolicy)
      {s : LifecycleState d}
      → AtLeast x c
      → step d c e p ≡ ok s
      → AtLeast x s
  unfolding step apply_reconciliation_observation
  step-AtLeast x (reconciled_partially_filled a r y) (reconciliation_observed o) p h e =
      reconcile_known_positive-AtLeast x (reconciled_partially_filled a r y) a (some r) o h e
  step-AtLeast x (reconciled_filled a r y) (reconciliation_observed o) p h e =
      reconcile_known_positive-AtLeast x (reconciled_filled a r y) a (some r) o h e
  step-AtLeast x (reconciled_cancelled a r) (reconciliation_observed o) p h e =
      reconcile_known_positive-AtLeast x (reconciled_cancelled a r) a r o h e
  step-AtLeast x c ev p h e = absurd (ground arith)

  -- Filled, cancelled and rejected are final.
  abbrev pub IsFinal : LifecycleState d → Type 0
  IsFinal (reconciled_filled _ _ _) = Unit
  IsFinal (reconciled_cancelled _ _) = Unit
  IsFinal (reconciled_rejected _ _) = Unit
  IsFinal _ = ⊥

  -- The two of them that `reconcile_known_positive` starts from.
  abbrev IsSettled : LifecycleState d → Type 0
  IsSettled (reconciled_filled _ _ _) = Unit
  IsSettled (reconciled_cancelled _ _) = Unit
  IsSettled _ = ⊥

  supersede-IsSettled :
      (c t : LifecycleState d) {s : LifecycleState d} → IsSettled c → supersede d c t ≢ ok s
  unfolding supersede
  supersede-IsSettled c t h = ground arith

  reconcile_candidate-IsSettled :
      (c : LifecycleState d) (a : PlannedAction d) (o : ReconciliationObservation d)
      {s : LifecycleState d}
      → IsSettled c
      → reconcile_candidate d c a o ≡ ok s
      → s ≡ c
  unfolding reconcile_candidate
  reconcile_candidate-IsSettled c a o {s} h e = elim (Result-cases (positive_state d a o)) [
    | inl (t, made) ↦ ground (arith, supersede-IsSettled c t {s = s} h)
    | inr (y, bad) ↦ absurd (ground arith)
  ]

  reconcile_known_positive-IsFinal :
      (c : LifecycleState d) (a : PlannedAction d) (k : Option String)
      (o : ReconciliationObservation d) {s : LifecycleState d}
      → IsSettled c
      → reconcile_known_positive d c a k o ≡ ok s
      → s ≡ c
  unfolding reconcile_known_positive
  reconcile_known_positive-IsFinal c a k (not_found t) h e = cc
  reconcile_known_positive-IsFinal c a k (rejected r t) h e = absurd (cc)
  reconcile_known_positive-IsFinal c a k (open_order r y z t) h e =
      reconcile_candidate-IsSettled c a (open_order r y z t) h (ground arith)
  reconcile_known_positive-IsFinal c a k (filled r y t) h e =
      reconcile_candidate-IsSettled c a (filled r y t) h (ground arith)
  reconcile_known_positive-IsFinal c a k (cancelled r y t) h e =
      reconcile_candidate-IsSettled c a (cancelled r y t) h (ground arith)

  pub step-IsFinal :
      (c : LifecycleState d) (e : LifecycleEvent d) (p : ReconciliationPolicy)
      {s : LifecycleState d}
      → IsFinal c
      → step d c e p ≡ ok s
      → s ≡ c
  unfolding step apply_reconciliation_observation observe_rejected
  step-IsFinal (reconciled_filled a r x) (reconciliation_observed o) p h q =
      reconcile_known_positive-IsFinal (reconciled_filled a r x) a (some r) o tt q
  step-IsFinal (reconciled_cancelled a r) (reconciliation_observed o) p h q =
      reconcile_known_positive-IsFinal (reconciled_cancelled a r) a r o tt q
  step-IsFinal (reconciled_rejected a r) (reconciliation_observed o) p h q = ground arith
  step-IsFinal c e p h q = absurd (ground arith)
