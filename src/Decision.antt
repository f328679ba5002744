-- ===== src/Decision.antt =====
-- Versions of the targets and the actions that a decision plans
-- (crates/copytrade-core/src/decision.rs).
pub mod Plans
mod Tests
use hyperliquid.Base.{
  ℕ, ◌==◌, Bool, true, false, not, ◌||◌, ◌&&◌, Option, none, some, List, [], ◌∷◌, ◌++◌, String,
  Result, ok, ◌>>=◌, ◌>>◌, fail_if, ok_or, if◌then◌else◌, length, ltb, checked_add, u64_mod,
  u32_mod,
}
use hyperliquid.BTreeMap.{string_ord, BTreeMap, get}
use hyperliquid.Decimal.{Decimal, lt, is_zero}
use hyperliquid.Identity.{
  Side, buy, sell, IdentityError, arithmetic_overflow, PlannedCloidInput, be_bytes, as_bytes,
  canonical_string, derive_planned_cloid,
}
use hyperliquid.Lifecycle.{PlannedAction}
use hyperliquid.Portfolio.{PortfolioProjection, or_default}
use hyperliquid.Exit.Floor.{AssetExecutionFloor}

pub record PreviousTargetState : Type 0 where
  pub version : ℕ
  pub target_hash : ℕ

pub data SlotLifecycle : Type 0 where
  exit_pending risk_reduction_pending existing_continuation : SlotLifecycle
  new_position_admitted retained_below_minimum retained_for_capacity : SlotLifecycle

unfoldable pub next_decision_sequence : ℕ → Result IdentityError ℕ
next_decision_sequence current = ok_or (checked_add u64_mod current 1) arithmetic_overflow

-- `Canonical::length`
abbrev canonical_length : ℕ → Result IdentityError (List ℕ)
canonical_length n = fail_if (not (ltb n u32_mod)) arithmetic_overflow >> ok (be_bytes 4 n)

module _ (d : Decimal) where
  pub record MicroPositionSlot : Type 0 where
    pub asset : String
    pub desired_notional : d.Value
    pub admitted_notional : d.Value
    pub filled_notional : d.Value
    pub committed_notional : d.Value
    pub residual_notional : d.Value
    pub conviction : d.Value
    pub agreement_weight : d.Value
    pub execution_floor : AssetExecutionFloor d
    pub target_version : ℕ
    pub lifecycle : SlotLifecycle

  pub record DecisionRecord : Type 0 where
    pub decision_id : ℕ
    pub decision_sequence : ℕ
    pub target_version : ℕ
    pub target_hash : ℕ
    pub config_hash : ℕ
    pub risk_policy_hash : ℕ
    pub snapshot_set_id : ℕ
    pub eligibility_hash : ℕ
    pub market_snapshot_id : ℕ
    pub consensus : BTreeMap String d.Value
    pub unconstrained_targets : BTreeMap String d.Value
    pub retained_below_minimum : BTreeMap String d.Value
    pub micro_slots : BTreeMap String MicroPositionSlot
    pub projection : PortfolioProjection d
    pub created_at_mono : ℕ

  unfoldable pub slot_lifecycle : d.Value → d.Value → d.Value → Bool → SlotLifecycle
  slot_lifecycle desired admitted filled retained =
      if retained
      then retained_below_minimum
      else if not (is_zero d filled) && is_zero d admitted
      then exit_pending
      else if not (is_zero d filled) && lt d (d.abs admitted) (d.abs filled)
      then risk_reduction_pending
      else if not (is_zero d filled)
      then existing_continuation
      else if not (is_zero d admitted)
      then new_position_admitted
      else retained_for_capacity

  -- The bytes of the entries: the text of each key, and `Canonical::decimal` of its value.
  unfoldable pub target_bytes : BTreeMap String d.Value → Result IdentityError (List ℕ)
  target_bytes [] = ok []
  target_bytes ((asset, value) ∷ targets) = canonical_string asset >>= λ name.
      target_bytes targets >>= λ rest. ok (
        name
        ++ (be_bytes 16 (d.normal_mantissa value) ++ (be_bytes 4 (d.normal_scale value) ++ rest)))

  module _ (sha256 : List ℕ → ℕ) where
    unfoldable pub canonical_target_hash : BTreeMap String d.Value → Result IdentityError ℕ
    unfolding target_bytes
    canonical_target_hash targets = do
      size ← canonical_length (length targets)
      entries ← target_bytes targets
      ok (sha256 (as_bytes "HL1E/TARGET_VECTOR/V1" ++ (size ++ entries)))

    -- The version for a hash, by the previous state.
    unfoldable pub version_for : Option PreviousTargetState → ℕ → Result IdentityError ℕ
    version_for none current_hash = ok 0
    version_for (some previous) current_hash =
        if previous.target_hash == current_hash
        then ok previous.version
        else ok_or (checked_add u64_mod previous.version 1) arithmetic_overflow

    unfoldable pub resolve_target_version :
        Option PreviousTargetState → BTreeMap String d.Value → Result IdentityError (ℕ × ℕ)
    unfolding canonical_target_hash version_for
    resolve_target_version previous targets = do
      current_hash ← canonical_target_hash targets
      version ← version_for previous current_hash
      ok (version, current_hash)

    module _ (engine_instance_id : ℕ) (decision : DecisionRecord)
        (reduce_only_by_asset : BTreeMap String Bool) where
      abbrev pub reduce_only_of : String → Bool
      reduce_only_of asset = or_default (get asset reduce_only_by_asset) false

      -- The delta that is acted on: the proposed one where a reduction was rounded to zero.
      abbrev pub actionable_delta : String → d.Value → d.Value
      actionable_delta asset delta =
          if is_zero d delta && reduce_only_of asset
          then or_default (get asset decision.projection.proposed_deltas) d.zero
          else delta

      abbrev pub side_of : d.Value → Side
      side_of delta = if lt d d.zero delta then buy else sell

      abbrev pub cloid_input : String → d.Value → ℕ → PlannedCloidInput
      cloid_input asset delta ordinal = record {
        engine_instance_id = engine_instance_id;
        decision_id = decision.decision_id;
        target_version = decision.target_version;
        asset = asset;
        side = side_of delta;
        reduce_only = reduce_only_of asset;
        action_ordinal = ordinal;
        retry_generation = 0;
      }

      -- The action for a delta that is not zero.
      unfoldable pub plan_action : String → d.Value → ℕ → Result IdentityError (PlannedAction d)
      plan_action asset delta ordinal = do
        fail_if (not (ltb ordinal u32_mod)) arithmetic_overflow
        cloid ← derive_planned_cloid sha256 (cloid_input asset delta ordinal)
        ok (record {
          decision_id = decision.decision_id;
          target_version = decision.target_version;
          asset = asset;
          side = side_of delta;
          rounded_notional = d.abs delta;
          reduce_only = reduce_only_of asset;
          action_ordinal = ordinal;
          retry_generation = 0;
          planned_cloid = cloid;
        })

      -- The loop over the entries, with the actions so far.
      unfoldable pub plan_actions :
          List (PlannedAction d)
          → BTreeMap String d.Value
          → Result IdentityError (List (PlannedAction d))
      unfolding plan_action
      plan_actions actions [] = ok actions
      plan_actions actions ((asset, delta) ∷ deltas) =
          elim (is_zero d (actionable_delta asset delta)) [
            | true ↦ plan_actions actions deltas
            | false ↦
                plan_action asset (actionable_delta asset delta) (length actions) >>= λ action.
                plan_actions (actions ++ action ∷ []) deltas
          ]

      unfoldable pub construct_planned_actions : Result IdentityError (List (PlannedAction d))
      unfolding plan_actions
      construct_planned_actions = plan_actions [] decision.projection.rounded_deltas
