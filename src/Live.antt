-- ===== src/Live.antt =====
-- The accounting of verified fills and funding (crates/copytrade-core/src/live_trading.rs). Identities,
-- hashes and event ids are the numbers that their bytes spell.
pub mod Cursors
mod Tests
pub mod Fills
pub mod Laws
pub mod Runs
pub mod Reach
pub mod Later
pub mod Replay
pub mod Positions
use Prim.Native.String.{compare as compare_string}
use native.Mathlib.Decide.{ℕ_discrete}
use hyperliquid.Base.{
  ℕ, ◌≡◌, refl, ap, Ordering, compare, arith, ◌↔◌, Bool, true, false, not, ◌||◌, ◌&&◌, ltb, leb,
  ◌==◌, Option, none, some, List, [], ◌∷◌, ◌++◌, String, Result, ok, err, ◌>>=◌, ◌>>◌, fail_if,
  ok_or, if◌then◌else◌, ite, length, map, subst, ◌∙◌, sym,
}
use hyperliquid.BTreeMap.{
  Ord, then_with, compare_string_eq, compare_nat_eq, String-discrete, string_ord, nat_ord, BTreeMap,
  BTreeSet, get, insert, add, size, equal,
}
use hyperliquid.Decimal.{Decimal, lt, min}
use hyperliquid.Identity.{Side, buy, sell, Side-discrete}
use hyperliquid.Ledger.{LedgerError, invalid_live_event, schema_mismatch, differ}
use hyperliquid.Ledger.Dual.{DualLedger, empty_ledger, portfolio_position}

pub record ExchangeFillIdentity : Type 0 where
  pub exchange_order_id : String
  pub trade_id : String
  pub cloid : ℕ

unfoldable pub ExchangeFillIdentity-discrete : Discrete ExchangeFillIdentity
unfolding String-discrete
ExchangeFillIdentity-discrete = hlevel (String-discrete, ℕ_discrete)

-- The derived order.
abbrev pub compare_identity : ExchangeFillIdentity → ExchangeFillIdentity → Ordering
compare_identity a b =
    then_with (compare_string a.exchange_order_id b.exchange_order_id)
      (then_with (compare_string a.trade_id b.trade_id) (compare a.cloid b.cloid))

pub compare_identity_eq :
    (a b : ExchangeFillIdentity) → (compare_identity a b ≡ Ordering.eq) ↔ (a ≡ b)
compare_identity_eq a b = (
  λ h. ground (
    arith,
    compare_string_eq a.exchange_order_id b.exchange_order_id,
    compare_string_eq a.trade_id b.trade_id,
  ),
  λ h. ground (
    arith,
    compare_string_eq a.exchange_order_id b.exchange_order_id,
    compare_string_eq a.trade_id b.trade_id,
  ),
)

instance abbrev pub identity_ord : Ord ExchangeFillIdentity
identity_ord = record {
  cmp = compare_identity;
  dec = ExchangeFillIdentity-discrete;
  cmp_eq = compare_identity_eq;
}

pub data LiquidityClassification : Type 0 where
  maker taker unknown : LiquidityClassification

pub data StrategyComponent : Type 0 where
  source_only technical_only source_technical_agreement source_technical_disagreement :
      StrategyComponent

-- technical.rs
pub data SignalArchetype : Type 0 where
  trend_pullback range_mean_reversion regime_breakout : SignalArchetype

-- technical.rs
pub data MarketRegime : Type 0 where
  strong_bull transition_up range transition_down strong_bear : MarketRegime

-- `iter().map(identity).collect()`
unfoldable pub collect_set : {K : Type 0} ⦃o : Ord K⦄ → List K → BTreeSet K → BTreeSet K
collect_set [] s = s
collect_set (k ∷ ks) s = collect_set ks (add k s)

-- `==` of two sets
abbrev pub same_set : {K : Type 0} ⦃o : Ord K⦄ → BTreeSet K → BTreeSet K → Bool
same_set [] [] = true
same_set [] (_ ∷ _) = false
same_set (_ ∷ _) [] = false
same_set ((a, _) ∷ s) ((b, _) ∷ t) = equal a b && same_set s t

module _ (d : Decimal) where
  pub record StrategyComponentAttribution : Type 0 where
    pub component : StrategyComponent
    pub source_fraction : d.Value
    pub technical_fraction : d.Value
    pub archetype : Option SignalArchetype
    pub regime : Option MarketRegime
    pub side : Side

  -- `is_none_or(|total| total != Decimal::ONE)`
  abbrev pub is_not_one : Option d.Value → Bool
  is_not_one none = true
  is_not_one (some total) = differ d total d.one

  -- `StrategyComponentAttribution::validate`
  unfoldable pub validate_attribution : StrategyComponentAttribution → Result LedgerError (Unit {0})
  validate_attribution a =
      fail_if
        (lt d a.source_fraction d.zero
          || lt d a.technical_fraction d.zero
          || lt d d.one a.source_fraction
          || lt d d.one a.technical_fraction
          || is_not_one (d.checked_add a.source_fraction a.technical_fraction))
        (invalid_live_event "strategy attribution fractions must sum to one")

  pub record VerifiedExchangeFill : Type 0 where
    pub identity : ExchangeFillIdentity
    pub decision_id : ℕ
    pub target_version : ℕ
    pub root_cloid : ℕ
    pub parent_cloid : Option ℕ
    pub continuation_generation : ℕ
    pub asset : String
    pub side : Side
    pub reduce_only : Bool
    pub filled_quantity : d.Value
    pub average_fill_price : d.Value
    pub submitted_limit_price : d.Value
    pub fee_amount : d.Value
    pub exchange_closed_pnl : d.Value
    pub fee_asset : String
    pub liquidity : LiquidityClassification
    pub decision_reference_price : d.Value
    pub occurred_at : ℕ
    pub decision_timestamp : ℕ
    pub exchange_equity_after : d.Value
    pub source_hash : ℕ

  unfoldable pub VerifiedExchangeFill-discrete : Discrete VerifiedExchangeFill
  unfolding Side-discrete String-discrete ExchangeFillIdentity-discrete
  VerifiedExchangeFill-discrete =
      hlevel (d.dec, Side-discrete, String-discrete, ℕ_discrete, ExchangeFillIdentity-discrete)

  pub record VerifiedFundingEvent : Type 0 where
    pub event_id : ℕ
    pub asset : String
    pub amount : d.Value
    pub occurred_at : ℕ
    pub source_hash : ℕ

  unfoldable pub VerifiedFundingEvent-discrete : Discrete VerifiedFundingEvent
  unfolding String-discrete
  VerifiedFundingEvent-discrete = hlevel (d.dec, String-discrete, ℕ_discrete)

  pub record LiveFillAccounting : Type 0 where
    pub identity : ExchangeFillIdentity
    pub decision_id : ℕ
    pub root_cloid : ℕ
    pub parent_cloid : Option ℕ
    pub continuation_generation : ℕ
    pub asset : String
    pub side : Side
    pub filled_quantity : d.Value
    pub average_fill_price : d.Value
    pub submitted_limit_price : d.Value
    pub fee_amount : d.Value
    pub exchange_closed_pnl : d.Value
    pub fee_asset : String
    pub liquidity : LiquidityClassification
    pub decision_reference_price : d.Value
    pub decision_to_fill_slippage : d.Value
    pub position_before : d.Value
    pub position_after : d.Value
    pub current_equity : d.Value
    pub settled_equity : d.Value
    pub deployment_equity : d.Value
    pub occurred_at : ℕ
    pub strategy_attribution : Option StrategyComponentAttribution

  pub record FundingAccounting : Type 0 where
    pub event : VerifiedFundingEvent
    pub current_equity : d.Value
    pub settled_equity : d.Value
    pub deployment_equity : d.Value

  pub record LiveTradingState : Type 0 where
    pub schema_version : ℕ
    pub starting_equity : d.Value
    pub current_equity : d.Value
    pub settled_equity : d.Value
    pub deployment_equity : d.Value
    pub ledger : DualLedger d
    pub applied_fills : BTreeSet ExchangeFillIdentity
    pub applied_funding : BTreeSet ℕ
    pub fill_events : List LiveFillAccounting
    pub funding_events : List FundingAccounting
    pub verified_fills : List VerifiedExchangeFill
    pub verified_funding : List VerifiedFundingEvent
    pub exchange_gross_pnl_by_open_episode : BTreeMap String d.Value
    pub open_episode_attribution : BTreeMap String StrategyComponentAttribution
    pub closed_episode_attribution : BTreeMap ℕ StrategyComponentAttribution
    pub fill_cursor_ms : ℕ
    pub funding_cursor_ms : ℕ
