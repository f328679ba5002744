-- ===== src/Live/Tests.antt =====
-- The theorems of the live accounting at one fill and one funding event.
use native.Mathlib.Decide.{ℕ_discrete}
use hyperliquid.Base.{
  ◌↔◌, ◌∷◌, String, ℕ, ◌*◌, ◌^◌, ◌≡◌, false, none, List, [], ok, unwrap_or, refl,
}
use hyperliquid.BTreeMap.{string_ord, String-discrete, get, insert, remove}
use hyperliquid.Decimal.{fixed, pos, negsuc, ℤ, ℤ-discrete}
use hyperliquid.Identity.{buy}
use hyperliquid.Ledger.Dual.{empty_ledger}
use hyperliquid.Ledger.Dual.Integrity.{validate_integrity}
use hyperliquid.Live.{
  ExchangeFillIdentity-discrete, taker, VerifiedExchangeFill, VerifiedFundingEvent,
  LiveTradingState,
}
use hyperliquid.Live.Cursors.{new, check_loaded}
use hyperliquid.Live.Fills.{AppliedFillResult, AppliedFundingResult, apply_exchange_fill}
use hyperliquid.Live.Fills.Funding.{apply_funding_event}
use hyperliquid.Live.Reach.{started, filled, funded, reached-check_loaded}
use hyperliquid.Live.Positions.{reconcile_positions}
use hyperliquid.Live.Positions.Laws.{reached-reconcile_positions}
use hyperliquid.Ledger.Books.{quantity_at}
use hyperliquid.Live.Later.{now, then_funded}
use hyperliquid.Live.Replay.{apply_exchange_fill_idempotent}

abbrev units : ℕ → ℤ
units n = pos (n * 10 ^ 8)

-- A function in place of the hash.
abbrev hash : List ℕ → ℕ
hash bytes = 7

abbrev fill : VerifiedExchangeFill fixed
fill = record {
  identity = record { exchange_order_id = "1"; trade_id = "2"; cloid = 5 };
  decision_id = 1;
  target_version = 1;
  root_cloid = 5;
  parent_cloid = none;
  continuation_generation = 0;
  asset = "ETH";
  side = buy;
  reduce_only = false;
  filled_quantity = units 2;
  average_fill_price = units 100;
  submitted_limit_price = units 101;
  fee_amount = units 1;
  exchange_closed_pnl = pos 0;
  fee_asset = "USDC";
  liquidity = taker;
  decision_reference_price = units 99;
  occurred_at = 20;
  decision_timestamp = 10;
  exchange_equity_after = units 999;
  source_hash = 3;
}

abbrev event : VerifiedFundingEvent fixed
event = record {
  event_id = 4;
  asset = "ETH";
  amount = negsuc 99999999;
  occurred_at = 30;
  source_hash = 8;
}

abbrev none_yet : LiveTradingState fixed
none_yet = record {
  schema_version = 1;
  starting_equity = units 1000;
  current_equity = units 1000;
  settled_equity = units 1000;
  deployment_equity = units 1000;
  ledger = empty_ledger fixed;
  applied_fills = [];
  applied_funding = [];
  fill_events = [];
  funding_events = [];
  verified_fills = [];
  verified_funding = [];
  exchange_gross_pnl_by_open_episode = [];
  open_episode_attribution = [];
  closed_episode_attribution = [];
  fill_cursor_ms = 0;
  funding_cursor_ms = 0;
}

new_taken : new fixed (units 1000) 0 ≡ ok none_yet
unfolding new
new_taken = refl

abbrev after_fill : LiveTradingState fixed × AppliedFillResult fixed
after_fill =
    unwrap_or (apply_exchange_fill fixed hash fill none_yet)
      (none_yet, AppliedFillResult.already_applied)

fill_taken : apply_exchange_fill fixed hash fill none_yet ≡ ok after_fill
unfolding apply_exchange_fill get insert remove String-discrete ℕ_discrete ℤ-discrete
    ExchangeFillIdentity-discrete
fill_taken = refl

abbrev after_funding : LiveTradingState fixed × AppliedFundingResult fixed
after_funding =
    unwrap_or (apply_funding_event fixed event after_fill.0)
      (after_fill.0, AppliedFundingResult.already_applied)

funding_taken : apply_funding_event fixed event after_fill.0 ≡ ok after_funding
unfolding apply_funding_event apply_exchange_fill get insert remove String-discrete ℕ_discrete
    ℤ-discrete ExchangeFillIdentity-discrete
funding_taken = refl

reached-check_loaded_example :
    (check_loaded fixed after_funding.0 ≡ ok after_funding.0)
    × (validate_integrity fixed after_funding.0.ledger ≡ ok tt)
reached-check_loaded_example = reached-check_loaded fixed hash (
    funded event after_funding
      (filled fill after_fill (started (units 1000) 0 new_taken) fill_taken) funding_taken)

apply_exchange_fill_idempotent_example :
    apply_exchange_fill fixed hash fill after_funding.0
    ≡ ok (after_funding.0, AppliedFillResult.already_applied)
apply_exchange_fill_idempotent_example =
    apply_exchange_fill_idempotent fixed hash fill none_yet fill_taken
      (then_funded event after_funding now funding_taken)

reached-reconcile_positions_example :
    let s = after_fill.0 in
    ((reconcile_positions fixed (("ETH", units 2) ∷ []) s ≡ ok tt)
      ↔ (("ETH", units 2) ∷ [] ≡ s.ledger.portfolio.positions))
    × ((a : String) → get a s.ledger.portfolio.positions ≡ quantity_at fixed a s.ledger.portfolio)
reached-reconcile_positions_example =
    reached-reconcile_positions fixed hash (("ETH", units 2) ∷ [])
      (filled fill after_fill (started (units 1000) 0 new_taken) fill_taken)
