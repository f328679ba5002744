-- ===== src/Exit/Floor.antt =====
-- The smallest order of an asset that the exchange takes
-- (crates/copytrade-core/src/execution_floor.rs).
use hyperliquid.Base.{
  Bool, not, ◌&&◌, ◌||◌, Option, String, Result, ok, ◌>>=◌, ◌>>◌, fail_if, ok_or,
}
use hyperliquid.Decimal.{Decimal, lt}
use hyperliquid.Identity.{Side}
use hyperliquid.Portfolio.{MarketRules}
use hyperliquid.Shadow.Pricing.{factor, outward}

pub data ExecutionFloorError : Type 0 where
  invalid_input arithmetic_overflow : String → ExecutionFloorError

module _ (d : Decimal) where
  pub record ExecutionFloorPolicy : Type 0 where
    pub exchange_minimum_notional : d.Value
    pub rounding_buffer : d.Value
    pub closeability_margin : d.Value
    pub maximum_slippage_fraction : d.Value

  pub record AssetExecutionFloor : Type 0 where
    pub bounded_ioc_price : d.Value
    pub minimum_quantity : d.Value
    pub minimum_order_notional : d.Value
    pub minimum_opening_notional : d.Value

  abbrev checked : Option d.Value → String → Result ExecutionFloorError d.Value
  checked o operation = ok_or o (arithmetic_overflow operation)

  unfoldable pub validate :
      MarketRules d → ExecutionFloorPolicy → Result ExecutionFloorError (Unit {0})
  validate rules policy =
      fail_if
        (d.leb rules.mark_price d.zero
          || d.leb rules.price_tick d.zero
          || d.leb rules.size_step d.zero
          || lt d policy.exchange_minimum_notional (d.from_parts 10 0)
          || d.leb policy.rounding_buffer d.zero
          || lt d policy.closeability_margin d.zero
          || not (
              d.leb d.zero policy.maximum_slippage_fraction
              && lt d policy.maximum_slippage_fraction d.one))
        (invalid_input "execution floor policy")

  unfoldable pub round_price_outward : d.Value → d.Value → Side → Result ExecutionFloorError d.Value
  round_price_outward price tick side = do
    units ← checked (d.checked_div price tick) "price units"
    checked (d.checked_mul (outward d side units) tick) "rounded price"

  unfoldable pub quantity_for_notional :
      d.Value → d.Value → d.Value → Result ExecutionFloorError d.Value
  quantity_for_notional notional price size_step = do
    raw_quantity ← checked (d.checked_div notional price) "minimum quantity"
    units ← checked (d.checked_div raw_quantity size_step) "lot units"
    checked (d.checked_mul (d.ceil units) size_step) "rounded quantity"

  unfoldable pub execution_floor_for_asset :
      Side → MarketRules d → ExecutionFloorPolicy → Result ExecutionFloorError AssetExecutionFloor
  unfolding validate round_price_outward quantity_for_notional
  execution_floor_for_asset side rules policy = do
    validate rules policy
    raw_ioc_price ←
        checked (d.checked_mul rules.mark_price (factor d side policy.maximum_slippage_fraction))
          "bounded IOC price"
    bounded_ioc_price ← round_price_outward raw_ioc_price rules.price_tick side
    required_order ←
        checked (d.checked_add policy.exchange_minimum_notional policy.rounding_buffer)
          "order buffer"
    required_opening ←
        checked (d.checked_add required_order policy.closeability_margin) "closeability margin"
    minimum_quantity ← quantity_for_notional required_order bounded_ioc_price rules.size_step
    opening_quantity ← quantity_for_notional required_opening bounded_ioc_price rules.size_step
    minimum_order ← checked (d.checked_mul minimum_quantity bounded_ioc_price) "minimum notional"
    minimum_opening ← checked (d.checked_mul opening_quantity bounded_ioc_price) "opening notional"
    ok (record {
      bounded_ioc_price = bounded_ioc_price;
      minimum_quantity = minimum_quantity;
      minimum_order_notional = minimum_order;
      minimum_opening_notional = minimum_opening;
    })

  unfoldable pub validates_rounded_order :
      d.Value → d.Value → d.Value → Result ExecutionFloorError Bool
  validates_rounded_order quantity ioc_price exchange_minimum_notional = do
    fail_if (lt d quantity d.zero || d.leb ioc_price d.zero) (invalid_input "rounded order")
    notional ← checked (d.checked_mul quantity ioc_price) "rounded notional"
    ok (d.leb exchange_minimum_notional notional)
