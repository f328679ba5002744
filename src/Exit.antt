-- ===== src/Exit.antt =====
-- Orders that take from a filled position (crates/copytrade-core/src/exit_planning.rs), over the
-- smallest order of an asset (crates/copytrade-core/src/execution_floor.rs). The debug texts of the
-- errors that are passed on are parameters.
pub mod Floor
pub mod Laws
mod Tests
use hyperliquid.Base.{
  Bool, true, false, not, ◌||◌, Option, none, some, String, Result, ok, err, ◌>>=◌, ◌>>◌, fail_if,
  ok_or, ite, if◌then◌else◌,
}
use hyperliquid.Decimal.{Decimal, lt, max, min, is_zero, and_then}
use hyperliquid.Identity.{Side, buy, sell, is_empty}
use hyperliquid.Portfolio.{MarketRules}
use hyperliquid.Shadow.{ShadowError, ShadowMarketSnapshot}
use hyperliquid.Shadow.Pricing.{MarketableIocPlan, plan_marketable_ioc}
use hyperliquid.Exit.Floor.{
  ExecutionFloorError, ExecutionFloorPolicy, AssetExecutionFloor, execution_floor_for_asset,
}

pub data ResidualClass : Type 0 where
  full_exit risk_reduction direction_flip_close_leg exposure_increase : ResidualClass
  already_satisfied : ResidualClass

module _ (d : Decimal) where
  pub record ExitPlanningInput : Type 0 where
    pub asset : String
    pub desired_target_notional : d.Value
    pub filled_notional : d.Value
    pub filled_quantity : d.Value
    pub acknowledged_open_notional : d.Value
    pub unknown_result_notional : d.Value
    pub continuation_notional : d.Value
    pub reference_price : d.Value
    pub market_rules : MarketRules d
    pub market_snapshot : ShadowMarketSnapshot d
    pub execution_floor_policy : ExecutionFloorPolicy d
    pub execution_cushion : d.Value
    pub maximum_slippage : d.Value

  pub record ExitPlan : Type 0 where
    pub asset : String
    pub desired_target_notional : d.Value
    pub committed_notional : d.Value
    pub signed_residual_notional : d.Value
    pub residual_class : ResidualClass
    pub side : Side
    pub reduce_only : Bool
    pub quantity : d.Value
    pub planned_notional : d.Value
    pub execution_floor : AssetExecutionFloor d
    pub ioc : MarketableIocPlan d

  pub data ExitPlanningBlock : Type 0 where
    invalid_input arithmetic_overflow pricing : String → ExitPlanningBlock
    already_satisfied exposure_increasing : ExitPlanningBlock
    outstanding_exposure_requires_reconciliation : ExitPlanningBlock
    -- With the residual and the required notional.
    below_exchange_minimum : d.Value → d.Value → ExitPlanningBlock

  abbrev pub checked : Option d.Value → String → Result ExitPlanningBlock d.Value
  checked o operation = ok_or o (arithmetic_overflow operation)

  -- `map_err` to `Pricing`
  abbrev pub priced : {E A : Type 0} → (E → String) → Result E A → Result ExitPlanningBlock A
  priced text (ok a) = ok a
  priced text (err e) = err (pricing (text e))

  -- `a != b`
  abbrev pub differ : Bool → Bool → Bool
  differ true b = not b
  differ false b = b

  unfoldable pub validate : ExitPlanningInput → Result ExitPlanningBlock (Unit {0})
  validate input =
      fail_if
        (is_empty input.asset
          || d.leb input.reference_price d.zero
          || d.leb input.market_rules.size_step d.zero
          || differ (is_zero d input.filled_notional) (is_zero d input.filled_quantity))
        (invalid_input "exit planning input")

  unfoldable pub classify : d.Value → d.Value → ResidualClass
  classify committed desired =
      if ite (d.dec committed desired) true false
      then ResidualClass.already_satisfied
      else if is_zero d committed
      then exposure_increase
      else if is_zero d desired
      then full_exit
      else if differ (d.is_sign_positive committed) (d.is_sign_positive desired)
      then direction_flip_close_leg
      else if lt d (d.abs desired) (d.abs committed)
      then risk_reduction
      else exposure_increase

  unfoldable pub round_down : d.Value → d.Value → Result ExitPlanningBlock d.Value
  round_down value step = do
    units ← checked (d.checked_div value step) "quantity rounding"
    checked (d.checked_mul (d.floor units) step) "quantity rounding"

  -- The committed exposure: what is filled and what may still be.
  abbrev pub committed_of : ExitPlanningInput → Option d.Value
  committed_of input =
      and_then d (d.checked_add input.filled_notional input.acknowledged_open_notional) (λ a.
        and_then d (d.checked_add a input.unknown_result_notional)
          (λ b. d.checked_add b input.continuation_notional))

  -- The notional that an order of the class is meant for; `residual` is the signed one.
  abbrev pub intended_of :
      ResidualClass → ExitPlanningInput → d.Value → Result ExitPlanningBlock d.Value
  intended_of full_exit input residual = ok (d.abs input.filled_notional)
  intended_of direction_flip_close_leg input residual = ok (d.abs input.filled_notional)
  intended_of risk_reduction input residual =
      ok (min d (d.abs residual) (d.abs input.filled_notional))
  intended_of exposure_increase input residual = err exposure_increasing
  intended_of ResidualClass.already_satisfied input residual = err exposure_increasing

  unfoldable pub raw_quantity_of :
      ResidualClass → ExitPlanningInput → Result ExitPlanningBlock d.Value
  raw_quantity_of full_exit input = ok (d.abs input.filled_quantity)
  raw_quantity_of direction_flip_close_leg input = ok (d.abs input.filled_quantity)
  raw_quantity_of risk_reduction input = do
    destination ←
        checked (d.checked_div (d.abs input.desired_target_notional) input.reference_price)
          "destination quantity"
    reduction ←
        checked (d.checked_sub (d.abs input.filled_quantity) destination) "reduction quantity"
    ok (max d reduction d.zero)
  raw_quantity_of exposure_increase input = err exposure_increasing
  raw_quantity_of ResidualClass.already_satisfied input = err exposure_increasing

  -- The two classes that no order is planned for.
  abbrev pub check_class : ResidualClass → Result ExitPlanningBlock (Unit {0})
  check_class ResidualClass.already_satisfied = err ExitPlanningBlock.already_satisfied
  check_class exposure_increase = err exposure_increasing
  check_class full_exit = ok tt
  check_class risk_reduction = ok tt
  check_class direction_flip_close_leg = ok tt

  abbrev pub outstanding : ExitPlanningInput → Bool
  outstanding input =
      not (is_zero d input.acknowledged_open_notional)
      || not (is_zero d input.unknown_result_notional)
      || not (is_zero d input.continuation_notional)

  abbrev pub exit_side : ExitPlanningInput → Side
  exit_side input = if lt d d.zero input.filled_notional then sell else buy

  module _ (shadow_text : ShadowError → String) (floor_text : ExecutionFloorError → String) where
    -- What is planned for a class once nothing is outstanding.
    unfoldable pub plan_class :
        ResidualClass → ExitPlanningInput → d.Value → d.Value → Result ExitPlanningBlock ExitPlan
    unfolding round_down raw_quantity_of
    plan_class class input committed residual = do
      let side = exit_side input
      intended_notional ← intended_of class input residual
      raw_quantity ← raw_quantity_of class input
      rounded ← round_down raw_quantity input.market_rules.size_step
      let quantity = min d rounded (d.abs input.filled_quantity)
      floor ←
          priced floor_text
            (execution_floor_for_asset d side input.market_rules input.execution_floor_policy)
      planned_notional ← checked (d.checked_mul quantity floor.bounded_ioc_price) "exit notional"
      fail_if (is_zero d quantity || lt d planned_notional floor.minimum_order_notional)
          (below_exchange_minimum intended_notional floor.minimum_order_notional)
      ioc ← priced shadow_text (
          plan_marketable_ioc d side quantity input.market_snapshot input.reference_price
            input.execution_cushion input.maximum_slippage input.market_rules.price_tick)
      ok (record {
        asset = input.asset;
        desired_target_notional = input.desired_target_notional;
        committed_notional = committed;
        signed_residual_notional = residual;
        residual_class = class;
        side = side;
        reduce_only = true;
        quantity = quantity;
        planned_notional = planned_notional;
        execution_floor = floor;
        ioc = ioc;
      })

    unfoldable pub plan_risk_reducing_ioc : ExitPlanningInput → Result ExitPlanningBlock ExitPlan
    unfolding validate classify plan_class
    plan_risk_reducing_ioc input = do
      validate input
      committed ← checked (committed_of input) "committed exposure"
      residual ← checked (d.checked_sub input.desired_target_notional committed) "signed residual"
      let class = classify committed input.desired_target_notional
      check_class class
      fail_if (outstanding input) outstanding_exposure_requires_reconciliation
      plan_class class input committed residual
