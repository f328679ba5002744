-- ===== src/Exit/Tests.antt =====
-- The exit of a filled position, with numbers of eight decimal places.
use hyperliquid.Base.{ℕ, ◌*◌, ◌^◌, ◌≡◌, true, some, [], ◌∷◌, String, ok, err, refl}
use hyperliquid.Decimal.{fixed, pos, negsuc, ℤ, ℤ-discrete}
use native.Mathlib.Decide.{ℕ_discrete}
use hyperliquid.Identity.{sell}
use hyperliquid.Shadow.{ShadowError, ShadowMarketSnapshot}
use hyperliquid.Shadow.Pricing.{complete_visible_depth, plan_marketable_ioc}
use hyperliquid.Exit.{
  full_exit, ExitPlanningInput, ExitPlan, below_exchange_minimum, plan_risk_reducing_ioc,
}
use hyperliquid.Exit.Floor.{ExecutionFloorError, execution_floor_for_asset}
use hyperliquid.Exit.Laws.{IsExit, plan_risk_reducing_ioc-IsExit}

abbrev units : ℕ → ℤ
units n = pos (n * 10 ^ 8)

abbrev cents : ℕ → ℤ
cents n = pos (n * 10 ^ 6)

-- In place of the debug texts.
abbrev shadow_text : ShadowError → String
shadow_text e = "pricing"

abbrev floor_text : ExecutionFloorError → String
floor_text e = "floor"

abbrev snapshot : ShadowMarketSnapshot fixed
snapshot = record {
  snapshot_id = 1;
  observed_at_mono = 5;
  midpoint = cents 10050;
  bids = record { price = units 100; quantity = units 5 } ∷ [];
  asks = record { price = units 101; quantity = units 5 } ∷ [];
}

-- A position of 2 that is to be left.
abbrev input : ExitPlanningInput fixed
input = record {
  asset = "ETH";
  desired_target_notional = pos 0;
  filled_notional = units 200;
  filled_quantity = units 2;
  acknowledged_open_notional = pos 0;
  unknown_result_notional = pos 0;
  continuation_notional = pos 0;
  reference_price = units 100;
  market_rules = record { mark_price = units 100; price_tick = cents 1; size_step = cents 1 };
  market_snapshot = snapshot;
  execution_floor_policy = record {
    exchange_minimum_notional = units 10;
    rounding_buffer = units 1;
    closeability_margin = pos 0;
    maximum_slippage_fraction = cents 1;
  };
  execution_cushion = cents 1;
  maximum_slippage = cents 1;
}

abbrev plan : ExitPlan fixed
plan = record {
  asset = "ETH";
  desired_target_notional = pos 0;
  committed_notional = units 200;
  signed_residual_notional = negsuc 19999999999;
  residual_class = full_exit;
  side = sell;
  reduce_only = true;
  quantity = units 2;
  planned_notional = units 198;
  execution_floor = record {
    bounded_ioc_price = units 99;
    minimum_quantity = cents 12;
    minimum_order_notional = cents 1188;
    minimum_opening_notional = cents 1188;
  };
  ioc = record {
    limit_price = units 99;
    requested_quantity = units 2;
    visible_executable_quantity = units 2;
    worst_required_depth_price = some (units 100);
    pricing_mode = complete_visible_depth;
  };
}

planned : plan_risk_reducing_ioc fixed shadow_text floor_text input ≡ ok plan
unfolding plan_risk_reducing_ioc plan_marketable_ioc execution_floor_for_asset ℤ-discrete ℕ_discrete
planned = refl

plan_risk_reducing_ioc-IsExit_example : IsExit fixed input plan
plan_risk_reducing_ioc-IsExit_example =
    plan_risk_reducing_ioc-IsExit fixed shadow_text floor_text input planned

-- What is too small for an order of its own is not planned.
too_small :
    plan_risk_reducing_ioc fixed shadow_text floor_text (record {
      asset = "ETH";
      desired_target_notional = pos 0;
      filled_notional = units 10;
      filled_quantity = cents 10;
      acknowledged_open_notional = pos 0;
      unknown_result_notional = pos 0;
      continuation_notional = pos 0;
      reference_price = units 100;
      market_rules = input.market_rules;
      market_snapshot = snapshot;
      execution_floor_policy = input.execution_floor_policy;
      execution_cushion = cents 1;
      maximum_slippage = cents 1;
    })
    ≡ err (below_exchange_minimum (units 10) (cents 1188))
unfolding plan_risk_reducing_ioc plan_marketable_ioc execution_floor_for_asset ℤ-discrete ℕ_discrete
too_small = refl
