-- ===== src/Lifecycle/Laws.antt =====
-- What an accepted event changes, in every state.
pub mod Lasting
use hyperliquid.Base.{
  ℕ, ◌≡◌, ◌≢◌, true, Option, some, List, String, ok, arith, inl, inr, Bool-cases, Option-cases,
  Result-cases, subst,
}
use hyperliquid.Decimal.{Decimal}
use hyperliquid.Lifecycle.{
  PlannedAction, LifecycleState, LifecycleEvent, ReconciliationObservation, ReconciliationPolicy,
  not_found, open_order, filled, cancelled, rejected, reconciliation_observed, submission_unknown,
  reconciled_not_found, reconciled_open, reconciled_partially_filled, reconciled_filled,
  reconciled_cancelled, reconciled_rejected, positive_state, supersede, same_state,
}
use hyperliquid.Lifecycle.Events.{
  reconcile_candidate, reconcile_known_positive, observe_unknown, observe_not_found,
  observe_rejected, apply_reconciliation_observation, step, action,
}

module _ (d : Decimal) where
  positive_state-action :
      (a : PlannedAction d) (o : ReconciliationObservation d) {s : LifecycleState d}
      → positive_state d a o ≡ ok s
      → action d s ≡ some a
  unfolding positive_state action
  positive_state-action a (not_found t) e = ground arith
  positive_state-action a (open_order r x y t) e = elim (Option-cases (d.checked_sub x y)) [
    | inl none_left ↦ ground arith
    | inr (z, left) ↦ ground arith
  ]
  positive_state-action a (filled r x t) e = ground arith
  positive_state-action a (cancelled r x t) e = ground arith
  positive_state-action a (rejected r t) e = ground arith

  supersede-action :
      (c s : LifecycleState d) {t : LifecycleState d} → supersede d c s ≡ ok t → t ≡ s
  unfolding supersede
  supersede-action c s e = ground arith

  reconcile_candidate-action :
      (c : LifecycleState d) (a : PlannedAction d) (o : ReconciliationObservation d)
      {s : LifecycleState d}
      → action d c ≡ some a
      → reconcile_candidate d c a o ≡ ok s
      → action d s ≡ some a
  unfolding reconcile_candidate
  reconcile_candidate-action c a o {s} h e = elim (Result-cases (positive_state d a o)) [
    | inl (t, made) ↦
        ground (arith, positive_state-action a o {s = t} made, supersede-action c t {t = s})
    | inr (x, bad) ↦ ground arith
  ]

  reconcile_known_positive-action :
      (c : LifecycleState d) (a : PlannedAction d) (k : Option String)
      (o : ReconciliationObservation d) {s : LifecycleState d}
      → action d c ≡ some a
      → reconcile_known_positive d c a k o ≡ ok s
      → action d s ≡ some a
  unfolding reconcile_known_positive
  reconcile_known_positive-action c a k (not_found t) h e = ground arith
  reconcile_known_positive-action c a k (rejected r t) h e = ground arith
  reconcile_known_positive-action c a k (open_order r x y t) {s} h e =
      ground (arith, reconcile_candidate-action c a (open_order r x y t) {s = s})
  reconcile_known_positive-action c a k (filled r x t) {s} h e =
      ground (arith, reconcile_candidate-action c a (filled r x t) {s = s})
  reconcile_known_positive-action c a k (cancelled r x t) {s} h e =
      ground (arith, reconcile_candidate-action c a (cancelled r x t) {s = s})

  observe_unknown-action :
      (p : ReconciliationPolicy) (a : PlannedAction d) (first n : ℕ) (times : List ℕ)
      (o : ReconciliationObservation d) {s : LifecycleState d}
      → observe_unknown d p a first n times o ≡ ok s
      → action d s ≡ some a
  unfolding observe_unknown action
  observe_unknown-action p a first n times (not_found t) e = ground arith
  observe_unknown-action p a first n times o e = positive_state-action a o e

  observe_not_found-action :
      (a : PlannedAction d) (o : ReconciliationObservation d) {s : LifecycleState d}
      → observe_not_found d a o ≡ ok s
      → action d s ≡ some a
  unfolding observe_not_found action
  observe_not_found-action a (not_found t) e = ground arith
  observe_not_found-action a o e = positive_state-action a o e

  observation-action :
      (c : LifecycleState d) (o : ReconciliationObservation d) (p : ReconciliationPolicy)
      {a : PlannedAction d} {s : LifecycleState d}
      → action d c ≡ some a
      → apply_reconciliation_observation d c o p ≡ ok s
      → action d s ≡ some a
  unfolding apply_reconciliation_observation observe_rejected action
  observation-action (submission_unknown b first n times) o p {a} {s} h e =
      ground (arith, observe_unknown-action p b first n times o {s = s})
  observation-action (reconciled_not_found b) o p {a} {s} h e =
      ground (arith, observe_not_found-action b o {s = s})
  observation-action (reconciled_open b r) o p {a} {s} h e =
      ground (arith, reconcile_known_positive-action (reconciled_open b r) b (some r) o {s = s})
  observation-action (reconciled_partially_filled b r x) o p {a} {s} h e = ground (
    arith,
    reconcile_known_positive-action (reconciled_partially_filled b r x) b (some r) o {s = s},
  )
  observation-action (reconciled_filled b r x) o p {a} {s} h e =
      ground (arith, reconcile_known_positive-action (reconciled_filled b r x) b (some r) o {s = s})
  observation-action (reconciled_cancelled b r) o p {a} {s} h e =
      ground (arith, reconcile_known_positive-action (reconciled_cancelled b r) b r o {s = s})
  observation-action c o p h e = ground arith

  -- Once an action is planned no accepted event changes it: the cloid, the asset, the side and the
  -- size stay those of the plan.
  pub step-action :
      (c : LifecycleState d) (e : LifecycleEvent d) (p : ReconciliationPolicy) {a : PlannedAction d}
      {s : LifecycleState d}
      → action d c ≡ some a
      → step d c e p ≡ ok s
      → action d s ≡ some a
  unfolding step
  step-action c (reconciliation_observed o) p h e = observation-action c o p h e
  step-action c ev p h e = unfold action in ground arith
