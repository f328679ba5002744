-- ===== src/Portfolio.antt =====
-- The projection of a portfolio (crates/copytrade-core/src/portfolio_risk.rs): its input, and what the
-- functions below share. An asset is a text, a notional a decimal.
mod Tests
pub mod Targets
pub mod Collect
pub mod Outcomes
pub mod Ranges
pub mod Stage
pub mod Project
use Prim.Native.String.{◌++◌ as append}
use hyperliquid.Base.{
  ℕ, Bool, true, false, not, ◌||◌, ◌&&◌, Option, none, some, List, [], ◌∷◌, ◌++◌, String, Result,
  ok, err, ◌>>=◌, ◌>>◌, fail_if, ok_or, if◌then◌else◌, Ordering, map, filter,
}
use hyperliquid.BTreeMap.{string_ord, BTreeMap, BTreeSet, get, insert, keys, add, Ord}
use hyperliquid.Decimal.{Decimal, lt, max}

pub data OrderSide : Type 0 where
  buy sell : OrderSide

pub data OpenOrderLifecycle : Type 0 where
  acknowledged cancel_requested cancel_confirmed submission_unknown unknown : OpenOrderLifecycle

-- A loop that fills a map, a key at a time.
unfoldable pub collect {ℓ} :
    {E : Type ℓ} {V : Type 0}
    → (String → Result E V)
    → List String
    → BTreeMap String V
    → Result E (BTreeMap String V)
collect f [] m = ok m
collect f (k ∷ ks) m = do v ← f k; collect f ks (insert k v m)

-- The keys of an iterator, as a set.
unfoldable pub to_set : List String → BTreeSet String → BTreeSet String
to_set [] s = s
to_set (k ∷ ks) s = to_set ks (add k s)

abbrev pub or_default {ℓ} : {A : Type ℓ} → Option A → A → A
or_default none a = a
or_default (some b) a = b

module _ (d : Decimal) where
  pub record OpenOrderExposure : Type 0 where
    pub asset : String
    pub side : Option OrderSide
    pub notional : Option d.Value
    pub lifecycle : OpenOrderLifecycle

  pub record MarketRules : Type 0 where
    pub mark_price : d.Value
    pub price_tick : d.Value
    pub size_step : d.Value

  pub record ExposureRange : Type 0 where
    pub minimum : d.Value
    pub maximum : d.Value

  pub record PortfolioProjectionInput : Type 0 where
    pub current_equity : d.Value
    pub curve_leverage : d.Value
    pub global_risk_scale : d.Value
    pub max_single_asset_equity_pct : d.Value
    pub max_net_equity_pct : d.Value
    pub filled_positions : BTreeMap String d.Value
    pub filled_position_state_complete : Bool
    pub acknowledged_open_orders : List OpenOrderExposure
    pub open_order_state_complete : Bool
    pub unconstrained_targets : BTreeMap String d.Value
    pub market_rules : BTreeMap String MarketRules

  pub record PortfolioProjection : Type 0 where
    pub constrained_targets : BTreeMap String d.Value
    pub proposed_deltas : BTreeMap String d.Value
    pub rounded_deltas : BTreeMap String d.Value
    pub projected_ranges : BTreeMap String ExposureRange
    pub maximum_projected_gross : d.Value
    pub minimum_projected_net : d.Value
    pub maximum_projected_net : d.Value

  pub data RiskViolation : Type 0 where
    invalid_input missing_market_rules : String → RiskViolation
    incomplete_filled_position_state incomplete_open_order_state : RiskViolation
    unknown_open_order_state arithmetic_overflow asset_cap_exceeded : String → RiskViolation
    gross_cap_exceeded : d.Value → d.Value → RiskViolation
    net_cap_exceeded : RiskViolation
    existing_risk_increased : String → RiskViolation

  -- `checked_add`, `checked_sub`, `checked_mul`, `checked_div` of the file.
  abbrev pub checked : Option d.Value → String → Result RiskViolation d.Value
  checked o operation = ok_or o (arithmetic_overflow operation)

  unfoldable pub sum_from : d.Value → List d.Value → String → Result RiskViolation d.Value
  sum_from total [] operation = ok total
  sum_from total (v ∷ vs) operation = do
    next ← checked (d.checked_add total v) operation
    sum_from next vs operation

  abbrev pub sum_checked : List d.Value → String → Result RiskViolation d.Value
  sum_checked vs operation = sum_from d.zero vs operation

  abbrev pub is_cancelled : OpenOrderExposure → Bool
  is_cancelled order = elim order.lifecycle [ cancel_confirmed ↦ true | _ ↦ false ]

  unfoldable pub portfolio_assets : PortfolioProjectionInput → BTreeSet String
  unfolding to_set
  portfolio_assets input =
      to_set
        (keys input.filled_positions
          ++ (keys input.unconstrained_targets
              ++ map (λ (order : OpenOrderExposure). order.asset)
                  (filter (λ order. not (is_cancelled order)) input.acknowledged_open_orders)))
        []

  -- The value is within [0, 1].
  abbrev is_fraction : d.Value → Bool
  is_fraction v = d.leb d.zero v && d.leb v d.one

  -- The rules of every asset are there and positive.
  unfoldable pub check_rules :
      List String → BTreeMap String MarketRules → Result RiskViolation (Unit {0})
  check_rules [] market_rules = ok tt
  check_rules (asset ∷ assets) market_rules = do
    rules ← ok_or (get asset market_rules) (missing_market_rules asset)
    fail_if
        (d.leb rules.mark_price d.zero
          || d.leb rules.price_tick d.zero
          || d.leb rules.size_step d.zero)
        (invalid_input (append "invalid market rules for " asset))
    check_rules assets market_rules

  unfoldable pub validate_input : PortfolioProjectionInput → Result RiskViolation (Unit {0})
  unfolding check_rules portfolio_assets
  validate_input input = do
    fail_if (d.leb input.current_equity d.zero) (invalid_input "current_equity must be positive")
    fail_if (d.leb input.curve_leverage d.zero) (invalid_input "curve_leverage must be positive")
    fail_if
        (not (
          d.leb (d.from_parts 25 3) input.global_risk_scale
          && d.leb input.global_risk_scale (d.from_parts 10 2)))
        (invalid_input "global_risk_scale is outside the approved launch range")
    fail_if (not (is_fraction input.max_single_asset_equity_pct))
        (invalid_input "max_single_asset_equity_pct must be within [0, 1]")
    fail_if (not (is_fraction input.max_net_equity_pct))
        (invalid_input "max_net_equity_pct must be within [0, 1]")
    fail_if (not input.filled_position_state_complete) incomplete_filled_position_state
    fail_if (not input.open_order_state_complete) incomplete_open_order_state
    check_rules (keys (portfolio_assets input)) input.market_rules

  -- The open buys and sells of an asset.
  abbrev pub Sides : Type 0
  Sides = d.Value × d.Value

  -- The match of `active_open_exposure` on the side.
  unfoldable pub add_side : OrderSide → d.Value → Sides → Result RiskViolation Sides
  add_side buy notional sides = do
    buys ← checked (d.checked_add sides.0 notional) "open buys"
    ok (buys, sides.1)
  add_side sell notional sides = do
    sells ← checked (d.checked_add sides.1 notional) "open sells"
    ok (sides.0, sells)

  -- The loop of `active_open_exposure`, for an order whose lifecycle counts.
  unfoldable pub expose :
      OpenOrderExposure → BTreeMap String Sides → Result RiskViolation (BTreeMap String Sides)
  unfolding add_side
  expose order exposure = do
    side ← ok_or order.side (unknown_open_order_state order.asset)
    notional ← ok_or order.notional (unknown_open_order_state order.asset)
    fail_if (lt d notional d.zero)
        (invalid_input (append "open-order notional must be non-negative for " order.asset))
    sides ← add_side side notional (or_default (get order.asset exposure) (d.zero, d.zero))
    ok (insert order.asset sides exposure)

  unfoldable pub expose_all :
      List OpenOrderExposure → BTreeMap String Sides → Result RiskViolation (BTreeMap String Sides)
  unfolding expose
  expose_all [] exposure = ok exposure
  expose_all (order ∷ orders) exposure = elim order.lifecycle [
    | cancel_confirmed ↦ expose_all orders exposure
    | unknown ↦ err (unknown_open_order_state order.asset)
    | _ ↦ expose order exposure >>= λ next. expose_all orders next
  ]

  unfoldable pub active_open_exposure :
      PortfolioProjectionInput → Result RiskViolation (BTreeMap String Sides)
  unfolding expose_all
  active_open_exposure input = expose_all input.acknowledged_open_orders []
