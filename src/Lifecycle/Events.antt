-- ===== src/Lifecycle/Events.antt =====
-- The events of a planned action and what they make of its state (crates/copytrade-core/src/lifecycle.rs).
use hyperliquid.Base.{
  ℕ, ◌+◌, ◌-◌, Bool, true, false, Option, none, some, List, [], ◌∷◌, ◌++◌, String, ltb, leb, ◌==◌,
  if◌then◌else◌, Result, ok, err, ◌>>=◌, ok_or, length, u32, u32_mod, checked_add,
}
use hyperliquid.Decimal.{Decimal}
use hyperliquid.Identity.{derive_planned_cloid}
use hyperliquid.Lifecycle.{
  LifecycleEvent, LifecycleState, PlannedAction, ReconciliationObservation, ReconciliationPolicy,
  TransitionError, await_future_submission, awaiting_future_submission, cancelled,
  decision_constructed, filled, future_submission_unknown, invalid_observation, invalid_transition,
  is_last, not_found, observed_at, open_order, other_order, positive_state, reconciled_cancelled,
  reconciled_filled, reconciled_not_found, reconciled_open, reconciled_partially_filled,
  reconciled_rejected, reconciliation_attempt_limit, reconciliation_conflict,
  reconciliation_observed, rejected, retry_generation_not_authorized, retry_generation_overflow,
  same_action, same_state, same_text, submission_unknown, supersede, too_soon,
  unknown_lifetime_exceeded, validate,
}

module _ (d : Decimal) where
  -- The part of `reconcile_known_positive` after its tests of the observation.
  unfoldable pub reconcile_candidate :
      LifecycleState d
      → PlannedAction d
      → ReconciliationObservation d
      → Result TransitionError (LifecycleState d)
  reconcile_candidate current a observation = do
    candidate ← positive_state d a observation
    if same_state d candidate current then ok current else supersede d current candidate

  unfoldable pub reconcile_known_positive :
      LifecycleState d
      → PlannedAction d
      → Option String
      → ReconciliationObservation d
      → Result TransitionError (LifecycleState d)
  unfolding reconcile_candidate
  reconcile_known_positive current a known (not_found _) = ok current
  reconcile_known_positive current a known (rejected _ _) = err reconciliation_conflict
  reconcile_known_positive current a known (open_order r x y t) =
      if other_order known r
      then err reconciliation_conflict
      else reconcile_candidate current a (open_order r x y t)
  reconcile_known_positive current a known (filled r x t) =
      if other_order known r
      then err reconciliation_conflict
      else reconcile_candidate current a (filled r x t)
  reconcile_known_positive current a known (cancelled r x t) =
      if other_order known r
      then err reconciliation_conflict
      else reconcile_candidate current a (cancelled r x t)

  -- A `NotFound` that is observed while the submission is unknown.
  unfoldable pub confirm_not_found :
      ReconciliationPolicy
      → PlannedAction d
      → ℕ
      → ℕ
      → List ℕ
      → ℕ
      → Result TransitionError (LifecycleState d)
  confirm_not_found p a first attempts confirmations time =
      if ltb p.maximum_unknown_lifetime_ms (time - first)
      then err unknown_lifetime_exceeded
      else if is_last confirmations time
      then ok (submission_unknown a first attempts confirmations)
      else if leb p.maximum_attempts attempts
      then err reconciliation_attempt_limit
      else if too_soon confirmations time p.minimum_confirmation_interval_ms
      then err invalid_observation
      else if leb p.required_not_found_confirmations (u32 (length (confirmations ++ time ∷ [])))
      then ok (reconciled_not_found a)
      else ok (submission_unknown a first (u32 (attempts + 1)) (confirmations ++ time ∷ []))

  unfoldable pub observe_unknown :
      ReconciliationPolicy
      → PlannedAction d
      → ℕ
      → ℕ
      → List ℕ
      → ReconciliationObservation d
      → Result TransitionError (LifecycleState d)
  unfolding confirm_not_found
  observe_unknown p a first attempts confirmations (not_found time) =
      confirm_not_found p a first attempts confirmations time
  observe_unknown p a first attempts confirmations positive = positive_state d a positive

  unfoldable pub observe_not_found :
      PlannedAction d → ReconciliationObservation d → Result TransitionError (LifecycleState d)
  observe_not_found a (not_found _) = ok (reconciled_not_found a)
  observe_not_found a positive = positive_state d a positive

  unfoldable pub observe_rejected :
      PlannedAction d
      → String
      → ReconciliationObservation d
      → Result TransitionError (LifecycleState d)
  observe_rejected a reason (rejected observed _) =
      if same_text reason observed
      then ok (reconciled_rejected a reason)
      else err reconciliation_conflict
  observe_rejected a reason (not_found _) = ok (reconciled_rejected a reason)
  observe_rejected a reason _ = err reconciliation_conflict

  unfoldable pub apply_reconciliation_observation :
      LifecycleState d
      → ReconciliationObservation d
      → ReconciliationPolicy
      → Result TransitionError (LifecycleState d)
  apply_reconciliation_observation (submission_unknown a first attempts times) o p =
      if ltb (observed_at d o) first
      then err invalid_observation
      else observe_unknown p a first attempts times o
  apply_reconciliation_observation (reconciled_not_found a) o p = observe_not_found a o
  apply_reconciliation_observation (reconciled_open a r) o p =
      reconcile_known_positive (reconciled_open a r) a (some r) o
  apply_reconciliation_observation (reconciled_partially_filled a r x) o p =
      reconcile_known_positive (reconciled_partially_filled a r x) a (some r) o
  apply_reconciliation_observation (reconciled_filled a r x) o p =
      reconcile_known_positive (reconciled_filled a r x) a (some r) o
  apply_reconciliation_observation (reconciled_cancelled a r) o p =
      reconcile_known_positive (reconciled_cancelled a r) a r o
  apply_reconciliation_observation (reconciled_rejected a reason) o p = observe_rejected a reason o
  apply_reconciliation_observation _ o p = err invalid_transition

  -- The match of `apply_lifecycle_event`, under a valid policy.
  unfoldable pub step :
      LifecycleState d
      → LifecycleEvent d
      → ReconciliationPolicy
      → Result TransitionError (LifecycleState d)
  step current (reconciliation_observed o) p = apply_reconciliation_observation current o p
  step (decision_constructed i) (LifecycleEvent.risk_validated j) p =
      if i == j then ok (LifecycleState.risk_validated i) else err invalid_transition
  step (LifecycleState.risk_validated i) (LifecycleEvent.risk_validated j) p =
      if i == j then ok (LifecycleState.risk_validated i) else err invalid_transition
  step (LifecycleState.risk_validated i) (LifecycleEvent.action_planned a) p =
      if i == a.decision_id then ok (LifecycleState.action_planned a) else err invalid_transition
  step (LifecycleState.action_planned a) (LifecycleEvent.action_planned b) p =
      if same_action d a b then ok (LifecycleState.action_planned a) else err invalid_transition
  step (LifecycleState.action_planned a) await_future_submission p =
      ok (awaiting_future_submission a)
  step (awaiting_future_submission a) await_future_submission p = ok (awaiting_future_submission a)
  step (awaiting_future_submission a) (future_submission_unknown t) p =
      ok (submission_unknown a t 0 [])
  step (submission_unknown a first attempts times) (future_submission_unknown t) p =
      if first == t then ok (submission_unknown a first attempts times) else err invalid_transition
  step _ _ p = err invalid_transition

  unfoldable pub apply_lifecycle_event :
      LifecycleState d
      → LifecycleEvent d
      → ReconciliationPolicy
      → Result TransitionError (LifecycleState d)
  apply_lifecycle_event current event p = do valid ← validate p; step current event valid

  -- `LifecycleState::action`, `LifecycleState::is_terminal`
  unfoldable pub action : LifecycleState d → Option (PlannedAction d)
  action (decision_constructed _) = none
  action (LifecycleState.risk_validated _) = none
  action (LifecycleState.action_planned a) = some a
  action (awaiting_future_submission a) = some a
  action (submission_unknown a _ _ _) = some a
  action (reconciled_not_found a) = some a
  action (reconciled_open a _) = some a
  action (reconciled_partially_filled a _ _) = some a
  action (reconciled_filled a _ _) = some a
  action (reconciled_cancelled a _) = some a
  action (reconciled_rejected a _) = some a

  unfoldable pub is_terminal : LifecycleState d → Bool
  is_terminal (reconciled_not_found _) = true
  is_terminal (reconciled_filled _ _ _) = true
  is_terminal (reconciled_cancelled _ _) = true
  is_terminal (reconciled_rejected _ _) = true
  is_terminal _ = false

  -- `sha256` is the digest of the standard, which the program takes from a library.
  unfoldable pub plan_reconciled_retry :
      (List ℕ → ℕ) → LifecycleState d → ℕ → Result TransitionError (PlannedAction d)
  plan_reconciled_retry sha256 (reconciled_not_found a) engine = do
    generation ← ok_or (checked_add u32_mod a.retry_generation 1) retry_generation_overflow
    elim (derive_planned_cloid sha256 (record {
      engine_instance_id = engine;
      decision_id = a.decision_id;
      target_version = a.target_version;
      asset = a.asset;
      side = a.side;
      reduce_only = a.reduce_only;
      action_ordinal = a.action_ordinal;
      retry_generation = generation;
    })) [
      | ok cloid ↦ ok (record a { retry_generation = generation; planned_cloid = cloid })
      | err _ ↦ err retry_generation_overflow
    ]
  plan_reconciled_retry sha256 _ engine = err retry_generation_not_authorized
