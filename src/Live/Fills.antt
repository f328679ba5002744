-- ===== src/Live/Fills.antt =====
-- The handler of fills (`apply_exchange_fill`, crates/copytrade-core/src/live_trading.rs), which changes
-- a clone and stores it at the end.
pub mod Funding
use hyperliquid.Base.{
  ℕ, ◌-◌, Bool, true, false, not, ◌||◌, ◌&&◌, ltb, ◌==◌, Option, none, some, List, [], ◌∷◌, ◌++◌,
  Result, ok, err, ◌>>=◌, ◌>>◌, fail_if, ok_or, if◌then◌else◌, ite, length, any, last?, ◌%◌,
  u32_mod,
}
use hyperliquid.BTreeMap.{string_ord, nat_ord, get, insert, remove, contains, add, is_some}
use hyperliquid.Decimal.{Decimal}
use hyperliquid.Identity.{as_bytes, be_bytes}
use hyperliquid.Lifecycle.{same_text}
use hyperliquid.Shadow.{expected, ShadowExecution, signed}
use hyperliquid.Ledger.{
  LedgerError, position_divergence, invalid_live_event, PortfolioEpisode, or_default, checked,
}
use hyperliquid.Ledger.Dual.{
  portfolio_position, apply_portfolio_execution, reconcile_last_portfolio_gross_pnl,
  apply_portfolio_funding,
}
use hyperliquid.Live.{
  ExchangeFillIdentity, identity_ord, StrategyComponentAttribution, VerifiedExchangeFill,
  VerifiedExchangeFill-discrete, VerifiedFundingEvent, VerifiedFundingEvent-discrete,
  LiveFillAccounting, FundingAccounting, LiveTradingState,
}
use hyperliquid.Live.Cursors.{recompute_deployment}

module _ (d : Decimal) where
  pub data AppliedFillResult : Type 0 where
    applied : LiveFillAccounting d → Option (PortfolioEpisode d) → AppliedFillResult
    already_applied : AppliedFillResult

  pub data AppliedFundingResult : Type 0 where
    applied_funding : FundingAccounting d → AppliedFundingResult
    already_applied : AppliedFundingResult

  unfoldable pub validate_fill : VerifiedExchangeFill d → Result LedgerError (Unit {0})
  validate_fill fill =
      fail_if
        (same_text fill.asset ""
          || d.leb fill.filled_quantity d.zero
          || d.leb fill.average_fill_price d.zero
          || d.leb fill.submitted_limit_price d.zero
          || same_text fill.fee_asset ""
          || d.leb fill.decision_reference_price d.zero
          || d.leb fill.exchange_equity_after d.zero
          || ltb fill.occurred_at fill.decision_timestamp
          || (not (fill.identity.cloid == fill.root_cloid) && fill.continuation_generation == 0)
          || (ltb 0 fill.continuation_generation && not (is_some fill.parent_cloid)))
        (invalid_live_event "invalid verified exchange fill")

  abbrev pub same_fill : VerifiedExchangeFill d → VerifiedExchangeFill d → Bool
  same_fill a b = ite (VerifiedExchangeFill-discrete d a b) true false

  abbrev pub same_event : VerifiedFundingEvent d → VerifiedFundingEvent d → Bool
  same_event a b = ite (VerifiedFundingEvent-discrete d a b) true false

  -- The amount by which the price of a fill differs from the price of the decision, for the quantity.
  unfoldable pub slippage_of : VerifiedExchangeFill d → Result LedgerError d.Value
  slippage_of fill = do
    difference ←
        checked d (d.checked_sub fill.average_fill_price fill.decision_reference_price)
          "live slippage"
    checked d (d.checked_mul (d.abs difference) fill.filled_quantity) "live slippage"

  -- The part of the handler that makes the attribution of an episode that was closed final, and settles
  -- its result.
  unfoldable pub settle :
      Option (PortfolioEpisode d) → LiveTradingState d → Result LedgerError (LiveTradingState d)
  settle none state = ok state
  settle (some episode) state = do
    let moved : LiveTradingState d = elim (get episode.asset state.open_episode_attribution) [
      | some attribution ↦ record state {
        open_episode_attribution = remove episode.asset state.open_episode_attribution;
        closed_episode_attribution =
            insert episode.episode_id attribution state.closed_episode_attribution;
      }
      | none ↦ state
    ]
    settled ← checked d (d.checked_add moved.settled_equity episode.net_pnl) "settled equity"
    ok (record moved { settled_equity = settled })

  -- The record that the handler stores of a fill.
  abbrev pub accounting_of :
      VerifiedExchangeFill d
      → d.Value
      → d.Value
      → d.Value
      → Option (StrategyComponentAttribution d)
      → LiveTradingState d
      → LiveFillAccounting d
  accounting_of fill slippage position_before position_after strategy_attribution next = record {
    identity = fill.identity;
    decision_id = fill.decision_id;
    root_cloid = fill.root_cloid;
    parent_cloid = fill.parent_cloid;
    continuation_generation = fill.continuation_generation;
    asset = fill.asset;
    side = fill.side;
    filled_quantity = fill.filled_quantity;
    average_fill_price = fill.average_fill_price;
    submitted_limit_price = fill.submitted_limit_price;
    fee_amount = fill.fee_amount;
    exchange_closed_pnl = fill.exchange_closed_pnl;
    fee_asset = fill.fee_asset;
    liquidity = fill.liquidity;
    decision_reference_price = fill.decision_reference_price;
    decision_to_fill_slippage = slippage;
    position_before = position_before;
    position_after = position_after;
    current_equity = next.current_equity;
    settled_equity = next.settled_equity;
    deployment_equity = next.deployment_equity;
    occurred_at = fill.occurred_at;
    strategy_attribution = strategy_attribution;
  }

  module _ (sha256 : List ℕ → ℕ) where
    unfoldable pub derive_execution_id : ExchangeFillIdentity → ℕ
    derive_execution_id identity = sha256 (
        as_bytes "LIVE/EXCHANGE_FILL/V1"
        ++ (be_bytes 4 (length (as_bytes identity.exchange_order_id) % u32_mod)
            ++ (as_bytes identity.exchange_order_id
                ++ (be_bytes 4 (length (as_bytes identity.trade_id) % u32_mod)
                    ++ (as_bytes identity.trade_id ++ be_bytes 16 identity.cloid)))))

    -- The execution that stands for a fill.
    abbrev pub execution_of :
        VerifiedExchangeFill d → d.Value → d.Value → d.Value → d.Value → ShadowExecution d
    execution_of fill filled_notional slippage position_before position_after = record {
      shadow_execution_id = derive_execution_id fill.identity;
      action = record {
        decision_id = fill.decision_id;
        target_version = fill.target_version;
        asset = fill.asset;
        side = fill.side;
        rounded_notional = filled_notional;
        reduce_only = fill.reduce_only;
        action_ordinal = 0;
        retry_generation = fill.continuation_generation;
        planned_cloid = fill.identity.cloid;
      };
      decision_timestamp_mono = fill.decision_timestamp;
      decision_market_snapshot_id = fill.source_hash;
      evaluation_market_snapshot_id = fill.source_hash;
      latency_scenario = expected;
      configured_latency_ms = fill.occurred_at - fill.decision_timestamp;
      proposed_limit_price = fill.submitted_limit_price;
      rounded_quantity = fill.filled_quantity;
      modeled_filled_quantity = fill.filled_quantity;
      modeled_average_fill_price = some fill.average_fill_price;
      unfilled_ioc_remainder = d.zero;
      modeled_filled_notional = filled_notional;
      fees = fill.fee_amount;
      funding = d.zero;
      slippage = slippage;
      position_before = position_before;
      position_after = position_after;
    }

    -- The part of the handler that books the execution, sums the result that the exchange reports for the
    -- open episode, and gives it to the episode that was closed, if one was.
    unfoldable pub book_execution :
        VerifiedExchangeFill d
        → ShadowExecution d
        → LiveTradingState d
        → Result LedgerError (LiveTradingState d × Option (PortfolioEpisode d))
    unfolding apply_portfolio_execution reconcile_last_portfolio_gross_pnl
    book_execution fill execution state = do
      let closed_before = length state.ledger.portfolio.closed
      booked ← apply_portfolio_execution d sha256 execution fill.occurred_at state.ledger
      gross ←
          checked d
            (d.checked_add
              (or_default (get fill.asset state.exchange_gross_pnl_by_open_episode) d.zero)
              fill.exchange_closed_pnl)
            "exchange gross pnl"
      let grosses = insert fill.asset gross state.exchange_gross_pnl_by_open_episode
      if ltb closed_before (length booked.0.portfolio.closed)
          then (do
            reconciled_gross ← ok_or (get fill.asset grosses) position_divergence
            reconciled ← reconcile_last_portfolio_gross_pnl d fill.asset reconciled_gross booked.0
            ok (
              record state {
                ledger = reconciled;
                exchange_gross_pnl_by_open_episode = remove fill.asset grosses;
              },
              last? reconciled.portfolio.closed,
            ))
          else ok (
            record state { ledger = booked.0; exchange_gross_pnl_by_open_episode = grosses },
            none,
          )

    -- The handler from the clone on.
    unfoldable pub take_fill :
        VerifiedExchangeFill d
        → LiveTradingState d
        → Result LedgerError (LiveTradingState d × AppliedFillResult)
    unfolding slippage_of book_execution settle
    take_fill fill state = do
      let position_before = portfolio_position d fill.asset state.ledger
      let strategy_attribution = get fill.asset state.open_episode_attribution
      position_after ←
          checked d (d.checked_add position_before (signed d fill.side fill.filled_quantity))
            "live position"
      filled_notional ←
          checked d (d.checked_mul fill.filled_quantity fill.average_fill_price)
            "live filled notional"
      slippage ← slippage_of fill
      booked ←
          book_execution fill
            (execution_of fill filled_notional slippage position_before position_after) state
      settled ← settle booked.1 booked.0
      let current = record settled { current_equity = fill.exchange_equity_after }
      fail_if (d.leb current.current_equity d.zero || d.leb current.settled_equity d.zero)
          (invalid_live_event "equity became nonpositive")
      let next = recompute_deployment d current
      let accounting =
          accounting_of fill slippage position_before position_after strategy_attribution next
      ok (
        record next {
          applied_fills = add fill.identity next.applied_fills;
          fill_events = next.fill_events ++ accounting ∷ [];
          verified_fills = next.verified_fills ++ fill ∷ [];
        },
        applied accounting booked.1,
      )

    unfoldable pub apply_exchange_fill :
        VerifiedExchangeFill d
        → LiveTradingState d
        → Result LedgerError (LiveTradingState d × AppliedFillResult)
    unfolding validate_fill take_fill
    apply_exchange_fill fill state = do
      validate_fill fill
      if contains fill.identity state.applied_fills
          then if any (λ existing. same_fill existing fill) state.verified_fills
            then ok (state, already_applied)
            else err (invalid_live_event "exchange fill identity payload conflict")
          else take_fill fill state
