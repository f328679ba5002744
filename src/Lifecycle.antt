-- ===== src/Lifecycle.antt =====
-- The life of a planned action (crates/copytrade-core/src/lifecycle.rs). Timestamps are u64; the
-- references and reasons, which are only compared, are texts.
pub mod Events
pub mod Laws
pub mod Pacing
pub mod Runs
pub mod Registry
mod Tests
use native.Mathlib.Decide.{ℕ_discrete}
use hyperliquid.Base.{
  ℕ, ◌+◌, ◌-◌, Bool, true, false, not, ◌||◌, ◌&&◌, Option, none, some, List, [], ◌∷◌, ◌++◌, String,
  ltb, leb, ◌==◌, if◌then◌else◌, Result, ok, err, ◌>>=◌, ◌>>◌, fail_if, ok_or, length, last?, ite,
  u32, u32_mod, checked_add,
}
use hyperliquid.BTreeMap.{String-discrete}
use hyperliquid.Decimal.{Decimal, lt}
use hyperliquid.Identity.{Side, Side-discrete, PlannedCloidInput, derive_planned_cloid}

pub data TransitionError : Type 0 where
  invalid_transition identity_mismatch invalid_observation : TransitionError
  reconciliation_attempt_limit unknown_lifetime_exceeded : TransitionError
  reconciliation_conflict invalid_policy : TransitionError
  retry_generation_not_authorized retry_generation_overflow : TransitionError

pub record ReconciliationPolicy : Type 0 where
  pub required_not_found_confirmations : ℕ
  pub minimum_confirmation_interval_ms : ℕ
  pub maximum_attempts : ℕ
  pub maximum_unknown_lifetime_ms : ℕ

unfoldable pub validate : ReconciliationPolicy → Result TransitionError ReconciliationPolicy
validate p =
    if p.required_not_found_confirmations == 0
      || p.minimum_confirmation_interval_ms == 0
      || ltb p.maximum_attempts p.required_not_found_confirmations
      || p.maximum_unknown_lifetime_ms == 0
    then err invalid_policy
    else ok p

abbrev pub same_text : String → String → Bool
same_text a b = ite (String-discrete a b) true false

-- `known_ref.is_some_and(|known| known != order_ref)`
abbrev pub other_order : Option String → String → Bool
other_order none order_ref = false
other_order (some known) order_ref = not (same_text known order_ref)

-- `last() == Some(&time)`
abbrev pub is_last : List ℕ → ℕ → Bool
is_last times time = elim (last? times) [ none ↦ false | some t ↦ t == time ]

-- The interval since the last confirmation is below the minimum.
abbrev pub too_soon : List ℕ → ℕ → ℕ → Bool
too_soon times time interval = elim (last? times) [
  | none ↦ false
  | some t ↦ ltb (time - t) interval
]

module _ (d : Decimal) where
  pub record PlannedAction : Type 0 where
    pub decision_id : ℕ
    pub target_version : ℕ
    pub asset : String
    pub side : Side
    pub rounded_notional : d.Value
    pub reduce_only : Bool
    pub action_ordinal : ℕ
    pub retry_generation : ℕ
    pub planned_cloid : ℕ

  unfoldable pub PlannedAction-discrete : Discrete PlannedAction
  unfolding Side-discrete String-discrete
  PlannedAction-discrete = hlevel (d.dec, Side-discrete, String-discrete, ℕ_discrete)

  pub data LifecycleState : Type 0 where
    decision_constructed risk_validated : ℕ → LifecycleState
    action_planned awaiting_future_submission : PlannedAction → LifecycleState
    submission_unknown : PlannedAction → ℕ → ℕ → List ℕ → LifecycleState
    reconciled_not_found : PlannedAction → LifecycleState
    reconciled_open : PlannedAction → String → LifecycleState
    reconciled_partially_filled : PlannedAction → String → d.Value → LifecycleState
    reconciled_filled : PlannedAction → String → d.Value → LifecycleState
    reconciled_cancelled : PlannedAction → Option String → LifecycleState
    reconciled_rejected : PlannedAction → String → LifecycleState

  pub data ReconciliationObservation : Type 0 where
    not_found : ℕ → ReconciliationObservation
    open_order : String → d.Value → d.Value → ℕ → ReconciliationObservation
    filled : String → d.Value → ℕ → ReconciliationObservation
    cancelled : String → d.Value → ℕ → ReconciliationObservation
    rejected : String → ℕ → ReconciliationObservation

  pub data LifecycleEvent : Type 0 where
    risk_validated : ℕ → LifecycleEvent
    action_planned : PlannedAction → LifecycleEvent
    await_future_submission : LifecycleEvent
    future_submission_unknown : ℕ → LifecycleEvent
    reconciliation_observed : ReconciliationObservation → LifecycleEvent

  unfoldable pub LifecycleState-discrete : Discrete LifecycleState
  unfolding PlannedAction-discrete String-discrete
  LifecycleState-discrete = hlevel (d.dec, PlannedAction-discrete, String-discrete, ℕ_discrete)

  -- Equality tests of the derived `PartialEq`.
  abbrev pub same_action : PlannedAction → PlannedAction → Bool
  same_action a b = ite (PlannedAction-discrete a b) true false

  abbrev pub same_state : LifecycleState → LifecycleState → Bool
  same_state a b = ite (LifecycleState-discrete a b) true false

  abbrev pub observed_at : ReconciliationObservation → ℕ
  observed_at (not_found t) = t
  observed_at (open_order _ _ _ t) = t
  observed_at (filled _ _ t) = t
  observed_at (cancelled _ _ t) = t
  observed_at (rejected _ t) = t

  abbrev pub is_zero : d.Value → Bool
  is_zero v = ite (d.dec v d.zero) true false

  unfoldable pub positive_state :
      PlannedAction → ReconciliationObservation → Result TransitionError LifecycleState
  positive_state a (open_order order_ref original remaining _) = do
    fail_if (d.leb original d.zero || lt d remaining d.zero || lt d original remaining)
        invalid_observation
    done ← ok_or (d.checked_sub original remaining) invalid_observation
    ok (
        if is_zero done
        then reconciled_open a order_ref
        else reconciled_partially_filled a order_ref done)
  positive_state a (filled order_ref quantity _) = do
    fail_if (d.leb quantity d.zero) invalid_observation
    ok (reconciled_filled a order_ref quantity)
  positive_state a (cancelled order_ref quantity _) = do
    fail_if (lt d quantity d.zero) invalid_observation
    ok (reconciled_cancelled a (some order_ref))
  positive_state a (rejected reason _) = ok (reconciled_rejected a reason)
  positive_state a (not_found _) = err invalid_observation

  -- The last match of `reconcile_known_positive`: from a state to a candidate that differs.
  unfoldable pub supersede : LifecycleState → LifecycleState → Result TransitionError LifecycleState
  supersede (reconciled_open _ _) candidate = ok candidate
  supersede (reconciled_partially_filled _ _ quantity) (reconciled_partially_filled a r next) =
      if d.leb quantity next
      then ok (reconciled_partially_filled a r next)
      else err reconciliation_conflict
  supersede (reconciled_partially_filled _ _ quantity) (reconciled_filled a r next) =
      if d.leb quantity next then ok (reconciled_filled a r next) else err reconciliation_conflict
  supersede (reconciled_partially_filled _ _ _) (reconciled_cancelled a r) =
      ok (reconciled_cancelled a r)
  supersede (reconciled_partially_filled _ _ _) _ = err reconciliation_conflict
  supersede (reconciled_filled _ _ _) _ = err reconciliation_conflict
  supersede (reconciled_cancelled _ _) _ = err reconciliation_conflict
  supersede _ _ = err invalid_transition
