-- ===== src/Shadow/Pricing.antt =====
-- The price of an order that is filled at once or cancelled
-- (crates/copytrade-core/src/shadow.rs: plan_marketable_ioc).
use hyperliquid.Base.{
  Bool, true, false, ◌||◌, Option, none, some, List, [], ◌∷◌, Result, ok, ◌>>=◌, ◌>>◌, fail_if,
}
use hyperliquid.Decimal.{Decimal, lt, min}
use hyperliquid.Identity.{Side, buy, sell}
use hyperliquid.Shadow.{
  ShadowError, invalid_input, DepthLevel, ShadowMarketSnapshot, checked, validate_book,
  is_within_limit, levels_for,
}

pub data MarketableIocPricingMode : Type 0 where
  complete_visible_depth bounded_reference_fallback : MarketableIocPricingMode

module _ (d : Decimal) where
  pub record MarketableIocPlan : Type 0 where
    pub limit_price : d.Value
    pub requested_quantity : d.Value
    pub visible_executable_quantity : d.Value
    pub worst_required_depth_price : Option d.Value
    pub pricing_mode : MarketableIocPricingMode

  -- `ONE + v` for a buy, `ONE - v` for a sell.
  abbrev pub factor : Side → d.Value → d.Value
  factor buy v = d.add d.one v
  factor sell v = d.sub d.one v

  -- `ceil` for a buy, `floor` for a sell.
  abbrev pub outward : Side → d.Value → d.Value
  outward buy units = d.ceil units
  outward sell units = d.floor units

  unfoldable pub round_price_outward : d.Value → d.Value → Side → Result ShadowError d.Value
  round_price_outward value tick side = do
    fail_if (d.leb value d.zero || d.leb tick d.zero) (invalid_input "price and tick")
    units ← checked d (d.checked_div value tick) "price units"
    checked d (d.checked_mul (outward side units) tick) "rounded IOC price"

  -- The price of the level with which the visible depth reaches the quantity.
  unfoldable pub worst_required :
      d.Value → d.Value → List (DepthLevel d) → Result ShadowError (Option d.Value)
  worst_required quantity visible [] = ok none
  worst_required quantity visible (level ∷ levels) =
      checked d (d.checked_add visible level.quantity) "visible depth" >>= λ sum.
      elim (d.leb quantity sum) [
        | true ↦ ok (some level.price)
        | false ↦ worst_required quantity sum levels
      ]

  -- The depth of the levels up to the first beyond the limit.
  unfoldable pub executable_depth :
      Side → d.Value → d.Value → List (DepthLevel d) → Result ShadowError d.Value
  executable_depth side limit sum [] = ok sum
  executable_depth side limit sum (level ∷ levels) =
      elim (is_within_limit d side level.price limit) [
        | true ↦ checked d (d.checked_add sum level.quantity) "executable visible depth" >>= λ next.
            executable_depth side limit next levels
        | false ↦ ok sum
      ]

  -- The limit of a plan, by the depth where the book has it.
  unfoldable pub limit_of :
      Side → d.Value → d.Value → d.Value → Option d.Value → Result ShadowError d.Value
  unfolding round_price_outward
  limit_of side maximum_limit execution_cushion price_tick none = ok maximum_limit
  limit_of side maximum_limit execution_cushion price_tick (some worst_price) = do
    raw ← checked d (d.checked_mul worst_price (factor side execution_cushion)) "depth IOC price"
    round_price_outward raw price_tick side

  abbrev mode_of : Option d.Value → MarketableIocPricingMode
  mode_of none = bounded_reference_fallback
  mode_of (some _) = complete_visible_depth

  abbrev pub is_bad_request : d.Value → d.Value → d.Value → d.Value → d.Value → Bool
  is_bad_request quantity reference_price execution_cushion maximum_slippage price_tick =
      d.leb quantity d.zero
      || d.leb reference_price d.zero
      || lt d execution_cushion d.zero
      || lt d maximum_slippage d.zero
      || d.leb price_tick d.zero

  unfoldable pub plan_marketable_ioc :
      Side
      → d.Value
      → ShadowMarketSnapshot d
      → d.Value
      → d.Value
      → d.Value
      → d.Value
      → Result ShadowError MarketableIocPlan
  unfolding round_price_outward worst_required executable_depth limit_of validate_book
  plan_marketable_ioc side quantity snapshot reference_price execution_cushion maximum_slippage
        price_tick =
      do
        fail_if
            (is_bad_request quantity reference_price execution_cushion maximum_slippage price_tick)
            (invalid_input "marketable IOC pricing inputs")
        validate_book d snapshot
        worst ← worst_required quantity d.zero (levels_for d side snapshot)
        maximum_raw ←
            checked d (d.checked_mul reference_price (factor side maximum_slippage))
              "maximum IOC price"
        maximum_limit ← round_price_outward maximum_raw price_tick side
        limit_price ← limit_of side maximum_limit execution_cushion price_tick worst
        depth ← executable_depth side limit_price d.zero (levels_for d side snapshot)
        ok (record {
          limit_price = limit_price;
          requested_quantity = quantity;
          visible_executable_quantity = min d depth quantity;
          worst_required_depth_price = worst;
          pricing_mode = mode_of worst;
        })
