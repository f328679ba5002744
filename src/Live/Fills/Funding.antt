-- ===== src/Live/Fills/Funding.antt =====
-- The handler of funding (`apply_funding_event`, crates/copytrade-core/src/live_trading.rs), which changes
-- a clone and stores it at the end.
use hyperliquid.Base.{[], ◌∷◌, ◌++◌, Result, ok, err, ◌>>=◌, ◌>>◌, fail_if, if◌then◌else◌, any}
use hyperliquid.BTreeMap.{string_ord, nat_ord, contains, add}
use hyperliquid.Decimal.{Decimal}
use hyperliquid.Lifecycle.{same_text}
use hyperliquid.Ledger.{LedgerError, invalid_live_event, checked}
use hyperliquid.Ledger.Dual.{apply_portfolio_funding}
use hyperliquid.Live.{identity_ord, VerifiedFundingEvent, FundingAccounting, LiveTradingState}
use hyperliquid.Live.Cursors.{recompute_deployment}
use hyperliquid.Live.Fills.{AppliedFundingResult, already_applied, applied_funding, same_event}

module _ (d : Decimal) where
  -- The handler of funding from the clone on.
  unfoldable pub take_funding :
      VerifiedFundingEvent d
      → LiveTradingState d
      → Result LedgerError (LiveTradingState d × AppliedFundingResult d)
  unfolding apply_portfolio_funding
  take_funding event state = do
    ledger ← apply_portfolio_funding d event.asset (d.neg event.amount) state.ledger
    current ← checked d (d.checked_add state.current_equity event.amount) "funding equity"
    fail_if (d.leb current d.zero) (invalid_live_event "funding made equity nonpositive")
    let next = recompute_deployment d (record state { ledger = ledger; current_equity = current })
    let accounting : FundingAccounting d = record {
      event = event;
      current_equity = next.current_equity;
      settled_equity = next.settled_equity;
      deployment_equity = next.deployment_equity;
    }
    ok (
      record next {
        applied_funding = add event.event_id next.applied_funding;
        funding_events = next.funding_events ++ accounting ∷ [];
        verified_funding = next.verified_funding ++ event ∷ [];
      },
      applied_funding accounting,
    )

  unfoldable pub apply_funding_event :
      VerifiedFundingEvent d
      → LiveTradingState d
      → Result LedgerError (LiveTradingState d × AppliedFundingResult d)
  unfolding take_funding
  apply_funding_event event state = do
    fail_if (same_text event.asset "") (invalid_live_event "funding asset is empty")
    if contains event.event_id state.applied_funding
        then if any (λ existing. same_event d existing event) state.verified_funding
          then ok (state, already_applied)
          else err (invalid_live_event "funding event identity payload conflict")
        else take_funding event state
