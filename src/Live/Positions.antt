-- ===== src/Live/Positions.antt =====
-- The positions that the exchange is compared with (crates/copytrade-core/src/live_trading.rs).
pub mod Laws
use hyperliquid.Base.{
  ℕ, Bool, true, false, not, Option, none, some, List, [], ◌∷◌, String, Result, fail_if, ite, last?,
  max, map,
}
use hyperliquid.BTreeMap.{BTreeMap, String-discrete, get, nat_ord}
use hyperliquid.Decimal.{Decimal}
use hyperliquid.Ledger.{LedgerError, position_divergence}
use hyperliquid.Ledger.Dual.{DualLedger, portfolio_position}
use hyperliquid.Ledger.Queries.{portfolio_assets}
use hyperliquid.Live.{StrategyComponentAttribution, LiveTradingState}

-- The later of two times that there may be.
abbrev later : Option ℕ → Option ℕ → Option ℕ
later none b = b
later (some a) none = some a
later (some a) (some b) = some (max a b)

module _ (d : Decimal) where
  abbrev pub live_position : LiveTradingState d → String → d.Value
  live_position state asset = portfolio_position d asset state.ledger

  -- Collecting keeps the entries, since the assets come in ascending order.
  unfoldable pub positions : LiveTradingState d → BTreeMap String d.Value
  positions state =
      map (λ asset. (asset, live_position state asset)) (portfolio_assets d state.ledger)

  unfoldable pub positions-discrete : Discrete (BTreeMap String d.Value)
  unfolding String-discrete
  positions-discrete = hlevel (String-discrete, d.dec)

  unfoldable pub reconcile_positions :
      BTreeMap String d.Value → LiveTradingState d → Result LedgerError (Unit {0})
  unfolding positions positions-discrete
  reconcile_positions exchange_positions state =
      fail_if (ite (positions-discrete (positions state) exchange_positions) false true)
        position_divergence

  unfoldable pub latest_exchange_event_timestamp : LiveTradingState d → Option ℕ
  latest_exchange_event_timestamp state =
      later (elim (last? state.verified_fills) [ none ↦ none | some fill ↦ some fill.occurred_at ])
        (elim (last? state.verified_funding) [ none ↦ none | some event ↦ some event.occurred_at ])

  abbrev closed_attribution : ℕ → LiveTradingState d → Option (StrategyComponentAttribution d)
  closed_attribution episode_id state = get episode_id state.closed_episode_attribution
