-- ===== src/Shadow.antt =====
-- Modelled executions of orders that are filled at once or cancelled
-- (crates/copytrade-core/src/shadow.rs).
pub mod Pricing
use hyperliquid.Base.{
  ℕ, Bool, true, false, not, ◌||◌, Option, none, some, List, [], ◌∷◌, ◌++◌, String, Result, ok,
  ◌>>=◌, ◌>>◌, fail_if, ok_or, if◌then◌else◌, any, ltb, checked_add, u64_mod,
}
use hyperliquid.Decimal.{Decimal, lt, is_zero, min}
use hyperliquid.Identity.{Side, buy, sell, as_bytes, be_bytes}
use hyperliquid.Lifecycle.{PlannedAction}

pub data LatencyScenario : Type 0 where
  optimistic expected conservative : LatencyScenario

-- `LatencyScenario::code`
abbrev scenario_code : LatencyScenario → ℕ
scenario_code optimistic = 0
scenario_code expected = 1
scenario_code conservative = 2

pub data ShadowError : Type 0 where
  invalid_input invalid_book : String → ShadowError
  snapshot_too_early : ShadowError
  arithmetic_overflow : String → ShadowError

-- `windows(2).any(p)`
unfoldable pub any_pair {ℓ} : {A : Type ℓ} → (A → A → Bool) → List A → Bool
any_pair p [] = false
any_pair p (x ∷ []) = false
any_pair p (x ∷ y ∷ ys) = p x y || any_pair p (y ∷ ys)

module _ (d : Decimal) where
  pub record DepthLevel : Type 0 where
    pub price : d.Value
    pub quantity : d.Value

  pub record ShadowMarketSnapshot : Type 0 where
    pub snapshot_id : ℕ
    pub observed_at_mono : ℕ
    pub midpoint : d.Value
    pub bids : List DepthLevel
    pub asks : List DepthLevel

  pub record ShadowExecutionInput : Type 0 where
    pub action : PlannedAction d
    pub decision_timestamp_mono : ℕ
    pub decision_market_snapshot : ShadowMarketSnapshot
    pub evaluation_market_snapshot : ShadowMarketSnapshot
    pub latency_scenario : LatencyScenario
    pub configured_latency_ms : ℕ
    pub proposed_limit_price : d.Value
    pub rounded_quantity : d.Value
    pub taker_fee_rate : d.Value
    pub funding_attribution : d.Value
    pub position_before : d.Value

  pub record ShadowExecution : Type 0 where
    pub shadow_execution_id : ℕ
    pub action : PlannedAction d
    pub decision_timestamp_mono : ℕ
    pub decision_market_snapshot_id : ℕ
    pub evaluation_market_snapshot_id : ℕ
    pub latency_scenario : LatencyScenario
    pub configured_latency_ms : ℕ
    pub proposed_limit_price : d.Value
    pub rounded_quantity : d.Value
    pub modeled_filled_quantity : d.Value
    pub modeled_average_fill_price : Option d.Value
    pub unfilled_ioc_remainder : d.Value
    pub modeled_filled_notional : d.Value
    pub fees : d.Value
    pub funding : d.Value
    pub slippage : d.Value
    pub position_before : d.Value
    pub position_after : d.Value

  abbrev pub checked : Option d.Value → String → Result ShadowError d.Value
  checked o operation = ok_or o (arithmetic_overflow operation)

  abbrev is_bad_level : DepthLevel → Bool
  is_bad_level level = d.leb level.price d.zero || d.leb level.quantity d.zero

  unfoldable pub validate_book : ShadowMarketSnapshot → Result ShadowError (Unit {0})
  unfolding any_pair
  validate_book snapshot = do
    fail_if (any is_bad_level snapshot.bids) (invalid_book "non-positive depth")
    fail_if (any is_bad_level snapshot.asks) (invalid_book "non-positive depth")
    fail_if (any_pair (λ a b. d.leb a.price b.price) snapshot.bids)
        (invalid_book "bids must be strictly descending")
    fail_if (any_pair (λ a b. d.leb b.price a.price) snapshot.asks)
        (invalid_book "asks must be strictly ascending")

  unfoldable pub validate_input : ShadowExecutionInput → Result ShadowError (Unit {0})
  unfolding validate_book
  validate_input input = do
    fail_if
        (d.leb input.rounded_quantity d.zero
          || d.leb input.proposed_limit_price d.zero
          || lt d input.taker_fee_rate d.zero
          || d.leb input.decision_market_snapshot.midpoint d.zero)
        (invalid_input "quantity, prices, midpoint, and fee rate")
    validate_book input.decision_market_snapshot
    validate_book input.evaluation_market_snapshot

  -- The price is within the limit of an order on the side.
  abbrev pub is_within_limit : Side → d.Value → d.Value → Bool
  is_within_limit buy price limit = d.leb price limit
  is_within_limit sell price limit = d.leb limit price

  -- The levels that an order on the side takes from.
  abbrev pub levels_for : Side → ShadowMarketSnapshot → List DepthLevel
  levels_for buy snapshot = snapshot.asks
  levels_for sell snapshot = snapshot.bids

  -- The variables of the loop over the levels.
  pub record Fill : Type 0 where
    pub remaining : d.Value
    pub filled : d.Value
    pub fill_value : d.Value

  -- The body of the loop, for a level that is taken from.
  unfoldable pub fill_level : DepthLevel → Fill → Result ShadowError Fill
  fill_level level f = do
    let quantity = min d f.remaining level.quantity
    filled ← checked (d.checked_add f.filled quantity) "filled quantity"
    value ← checked (d.checked_mul quantity level.price) "fill value"
    fill_value ← checked (d.checked_add f.fill_value value) "fill value sum"
    remaining ← checked (d.checked_sub f.remaining quantity) "IOC remainder"
    ok (record { remaining = remaining; filled = filled; fill_value = fill_value })

  unfoldable pub fill_levels : Side → d.Value → List DepthLevel → Fill → Result ShadowError Fill
  unfolding fill_level
  fill_levels side limit [] f = ok f
  fill_levels side limit (level ∷ levels) f =
      elim (not (is_within_limit side level.price limit) || is_zero d f.remaining) [
        | true ↦ ok f
        | false ↦ fill_level level f >>= λ next. fill_levels side limit levels next
      ]

  -- The average price of what is filled, and the cost of it against a midpoint.
  unfoldable pub average_of : Fill → Result ShadowError (Option d.Value)
  average_of f = if is_zero d f.filled then ok none else do
    average ← checked (d.checked_div f.fill_value f.filled) "average fill price"
    ok (some average)

  -- `b - a` for a buy, `a - b` for a sell.
  abbrev pub price_cost : Side → d.Value → d.Value → Option d.Value
  price_cost buy midpoint average = d.checked_sub average midpoint
  price_cost sell midpoint average = d.checked_sub midpoint average

  unfoldable pub slippage_of :
      Side → d.Value → Option d.Value → d.Value → Result ShadowError d.Value
  slippage_of side midpoint none filled = ok d.zero
  slippage_of side midpoint (some average) filled = do
    cost ← checked (price_cost side midpoint average) "slippage price"
    checked (d.checked_mul cost filled) "slippage"

  abbrev pub signed : Side → d.Value → d.Value
  signed buy v = v
  signed sell v = d.neg v

  module _ (sha256 : List ℕ → ℕ) where
    unfoldable pub derive_shadow_execution_id : ShadowExecutionInput → ℕ
    derive_shadow_execution_id input = sha256 (
        as_bytes "HL1F/SHADOW_EXECUTION/V1"
        ++ (be_bytes 16 input.action.planned_cloid
            ++ (be_bytes 32 input.decision_market_snapshot.snapshot_id
                ++ (be_bytes 32 input.evaluation_market_snapshot.snapshot_id
                    ++ scenario_code input.latency_scenario
                      ∷ (be_bytes 8 input.configured_latency_ms
                          ++ (be_bytes 16 (d.normal_mantissa input.proposed_limit_price)
                              ++ (be_bytes 4 (d.normal_scale input.proposed_limit_price)
                                  ++ (be_bytes 16 (d.normal_mantissa input.rounded_quantity)
                                      ++ be_bytes 4 (d.normal_scale input.rounded_quantity)))))))))

    unfoldable pub execute_shadow_ioc : ShadowExecutionInput → Result ShadowError ShadowExecution
    unfolding validate_input fill_levels average_of slippage_of
    execute_shadow_ioc input = do
      let side = input.action.side
      validate_input input
      at ←
          ok_or (checked_add u64_mod input.decision_timestamp_mono input.configured_latency_ms)
            (arithmetic_overflow "latency timestamp")
      fail_if (ltb input.evaluation_market_snapshot.observed_at_mono at) snapshot_too_early
      f ←
          fill_levels side input.proposed_limit_price
            (levels_for side input.evaluation_market_snapshot)
            (record { remaining = input.rounded_quantity; filled = d.zero; fill_value = d.zero })
      average ← average_of f
      fees ← checked (d.checked_mul f.fill_value input.taker_fee_rate) "fees"
      slippage ← slippage_of side input.decision_market_snapshot.midpoint average f.filled
      position_after ←
          checked (d.checked_add input.position_before (signed side f.filled)) "position after"
      ok (record {
        shadow_execution_id = derive_shadow_execution_id input;
        action = input.action;
        decision_timestamp_mono = input.decision_timestamp_mono;
        decision_market_snapshot_id = input.decision_market_snapshot.snapshot_id;
        evaluation_market_snapshot_id = input.evaluation_market_snapshot.snapshot_id;
        latency_scenario = input.latency_scenario;
        configured_latency_ms = input.configured_latency_ms;
        proposed_limit_price = input.proposed_limit_price;
        rounded_quantity = input.rounded_quantity;
        modeled_filled_quantity = f.filled;
        modeled_average_fill_price = average;
        unfilled_ioc_remainder = f.remaining;
        modeled_filled_notional = f.fill_value;
        fees = fees;
        funding = input.funding_attribution;
        slippage = slippage;
        position_before = input.position_before;
        position_after = position_after;
      })

    -- `execute_latency_scenarios`, on the entries in the order of their keys.
    unfoldable pub execute_latency_scenarios :
        List (LatencyScenario × ShadowExecutionInput)
        → Result ShadowError (List (LatencyScenario × ShadowExecution))
    unfolding execute_shadow_ioc
    execute_latency_scenarios [] = ok []
    execute_latency_scenarios ((scenario, input) ∷ scenarios) =
        execute_shadow_ioc (record input { latency_scenario = scenario }) >>= λ execution.
        execute_latency_scenarios scenarios >>= λ executions.
        ok ((scenario, execution) ∷ executions)
