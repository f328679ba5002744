-- ===== src/Live/Cursors.antt =====
-- A new state, the cursors, the equities and the test of a loaded state (crates/copytrade-core/src/live_trading.rs).
use hyperliquid.Base.{ℕ, not, ◌||◌, ltb, ◌==◌, [], String, Result, ok, ◌>>◌, fail_if, length, map}
use hyperliquid.BTreeMap.{string_ord, nat_ord, BTreeSet, insert, size}
use hyperliquid.Decimal.{Decimal, min}
use hyperliquid.Ledger.{LedgerError, invalid_live_event, schema_mismatch, differ}
use hyperliquid.Ledger.Dual.{empty_ledger}
use hyperliquid.Live.{
  identity_ord, ExchangeFillIdentity, LiveTradingState, StrategyComponentAttribution, collect_set,
  same_set, validate_attribution,
}

module _ (d : Decimal) where
  -- `LiveTradingState::new`
  unfoldable pub new : d.Value → ℕ → Result LedgerError (LiveTradingState d)
  new starting_equity fill_cursor_ms = do
    fail_if (d.leb starting_equity d.zero) (invalid_live_event "starting equity must be positive")
    ok (record {
      schema_version = 1;
      starting_equity = starting_equity;
      current_equity = starting_equity;
      settled_equity = starting_equity;
      deployment_equity = starting_equity;
      ledger = empty_ledger d;
      applied_fills = [];
      applied_funding = [];
      fill_events = [];
      funding_events = [];
      verified_fills = [];
      verified_funding = [];
      exchange_gross_pnl_by_open_episode = [];
      open_episode_attribution = [];
      closed_episode_attribution = [];
      fill_cursor_ms = fill_cursor_ms;
      funding_cursor_ms = fill_cursor_ms;
    })

  unfoldable pub advance_fill_cursor :
      ℕ → LiveTradingState d → Result LedgerError (LiveTradingState d)
  advance_fill_cursor cursor_ms state = do
    fail_if (ltb cursor_ms state.fill_cursor_ms)
        (invalid_live_event "fill cursor cannot move backwards")
    ok (record state { fill_cursor_ms = cursor_ms })

  unfoldable pub advance_funding_cursor :
      ℕ → LiveTradingState d → Result LedgerError (LiveTradingState d)
  advance_funding_cursor cursor_ms state = do
    fail_if (ltb cursor_ms state.funding_cursor_ms)
        (invalid_live_event "funding cursor cannot move backwards")
    ok (record state { funding_cursor_ms = cursor_ms })

  abbrev pub recompute_deployment : LiveTradingState d → LiveTradingState d
  recompute_deployment state = record state {
    deployment_equity = min d state.current_equity state.settled_equity;
  }

  unfoldable pub reconcile_equity :
      d.Value → LiveTradingState d → Result LedgerError (LiveTradingState d)
  reconcile_equity exchange_equity state = do
    fail_if (d.leb exchange_equity d.zero) (invalid_live_event "exchange equity must be positive")
    ok (recompute_deployment (record state { current_equity = exchange_equity }))

  unfoldable pub set_strategy_attribution :
      String
      → StrategyComponentAttribution d
      → LiveTradingState d
      → Result LedgerError (LiveTradingState d)
  unfolding validate_attribution
  set_strategy_attribution asset attribution state = do
    validate_attribution d attribution
    ok (record state {
      open_episode_attribution = insert asset attribution state.open_episode_attribution;
    })

  -- What `load` tests of the state that it read.
  unfoldable pub check_loaded : LiveTradingState d → Result LedgerError (LiveTradingState d)
  unfolding collect_set
  check_loaded state = do
    fail_if
        (not (state.schema_version == 1)
          || d.leb state.starting_equity d.zero
          || d.leb state.current_equity d.zero
          || d.leb state.settled_equity d.zero
          || differ d state.deployment_equity (min d state.current_equity state.settled_equity))
        schema_mismatch
    let fill_identities : BTreeSet ExchangeFillIdentity =
        collect_set (map (λ e. e.identity) state.fill_events) []
    let funding_identities : BTreeSet ℕ =
        collect_set (map (λ e. e.event.event_id) state.funding_events) []
    fail_if
        (not (size fill_identities == length state.fill_events)
          || not (same_set fill_identities state.applied_fills)
          || not (size funding_identities == length state.funding_events)
          || not (same_set funding_identities state.applied_funding))
        schema_mismatch
    ok state
