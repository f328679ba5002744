-- ===== src/Ledger/Tests.antt =====
-- The theorems of the ledger at one position that is opened and flipped, with numbers of eight decimal
-- places.
use native.Mathlib.Decide.{ℕ_discrete}
use hyperliquid.Base.{
  ℕ, ◌*◌, ◌^◌, ◌≡◌, ◌⊎◌, false, Option, some, List, [], ◌∷◌, String, ok, err, unwrap_or, refl,
}
use hyperliquid.BTreeMap.{string_ord, String-discrete, BTreeMap, get, insert, remove}
use hyperliquid.Decimal.{and_then, fixed, pos, negsuc, ℤ, ℤ-discrete}
use hyperliquid.Identity.{buy, sell}
use hyperliquid.Lifecycle.{PlannedAction}
use hyperliquid.Shadow.{
  expected, ShadowExecution, ShadowExecutionInput, ShadowMarketSnapshot, execute_shadow_ioc,
}
use hyperliquid.Ledger.{arithmetic_overflow, EpisodeBook, PortfolioEpisode, empty_book}
use hyperliquid.Ledger.Executions.{apply}
use hyperliquid.Ledger.Apply.{IsMoved, empty-IsAligned, apply-IsMoved}
use hyperliquid.Ledger.Dual.{DualLedger, empty_ledger, newly_closed, apply_portfolio_execution}
use hyperliquid.Ledger.Dual.Integrity.{validate_integrity}
use hyperliquid.Ledger.Steps.{start, after, portfolio_execution, reached-validate_integrity}
use hyperliquid.Ledger.Modeled.{modeled-apply}
use hyperliquid.Ledger.Valuation.{equity, portfolio_equity}
use hyperliquid.Ledger.Equity.{value, portfolio_equity-equity}

abbrev units : ℕ → ℤ
units n = pos (n * 10 ^ 8)

-- A function in place of the hash.
abbrev hash : List ℕ → ℕ
hash bytes = 7

abbrev purchase : PlannedAction fixed
purchase = record {
  decision_id = 1;
  target_version = 1;
  asset = "ETH";
  side = buy;
  rounded_notional = units 200;
  reduce_only = false;
  action_ordinal = 0;
  retry_generation = 0;
  planned_cloid = 5;
}

abbrev bought : ShadowExecution fixed
bought = record {
  shadow_execution_id = 9;
  action = purchase;
  decision_timestamp_mono = 10;
  decision_market_snapshot_id = 1;
  evaluation_market_snapshot_id = 2;
  latency_scenario = expected;
  configured_latency_ms = 5;
  proposed_limit_price = units 101;
  rounded_quantity = units 2;
  modeled_filled_quantity = units 2;
  modeled_average_fill_price = some (units 100);
  unfilled_ioc_remainder = pos 0;
  modeled_filled_notional = units 200;
  fees = units 1;
  funding = pos 0;
  slippage = pos 0;
  position_before = pos 0;
  position_after = units 2;
}

-- Three are sold at a higher price: two close the position, and one opens another.
abbrev flipped : ShadowExecution fixed
flipped = record bought {
  action = record purchase { side = sell; planned_cloid = 6 };
  rounded_quantity = units 3;
  modeled_filled_quantity = units 3;
  modeled_average_fill_price = some (units 110);
  modeled_filled_notional = units 330;
  position_before = units 2;
  position_after = negsuc 99999999;
}

abbrev long_book : EpisodeBook fixed
long_book = unwrap_or (apply fixed hash bought 20 (empty_book fixed)) (empty_book fixed)

bought_taken : apply fixed hash bought 20 (empty_book fixed) ≡ ok long_book
unfolding apply get insert remove String-discrete ℕ_discrete ℤ-discrete
bought_taken = refl

apply-IsMoved_example : IsMoved fixed bought (empty_book fixed) long_book
apply-IsMoved_example =
    apply-IsMoved fixed hash bought 20 (empty_book fixed) (empty-IsAligned fixed) bought_taken

abbrev reached_ledger : DualLedger fixed
reached_ledger = record (empty_ledger fixed) { portfolio = long_book }

abbrev flipped_book : EpisodeBook fixed
flipped_book = unwrap_or (apply fixed hash flipped 30 long_book) long_book

flipped_taken : apply fixed hash flipped 30 long_book ≡ ok flipped_book
unfolding apply get insert remove String-discrete ℕ_discrete ℤ-discrete
flipped_taken = refl

-- The position is bought, and then flipped.
abbrev flipped_ledger : DualLedger fixed
flipped_ledger = record (empty_ledger fixed) { portfolio = flipped_book }

abbrev flipped_closed : Option (PortfolioEpisode fixed)
flipped_closed = newly_closed fixed long_book flipped_book

first_step :
    apply_portfolio_execution fixed hash bought 20 (empty_ledger fixed)
    ≡ ok (reached_ledger, newly_closed fixed (empty_book fixed) long_book)
unfolding apply_portfolio_execution
first_step = rw (bought_taken) refl

second_step :
    apply_portfolio_execution fixed hash flipped 30 reached_ledger
    ≡ ok (flipped_ledger, flipped_closed)
unfolding apply_portfolio_execution
second_step = rw (flipped_taken) refl

reached-validate_integrity_example : validate_integrity fixed flipped_ledger ≡ ok tt
reached-validate_integrity_example = reached-validate_integrity fixed hash (
    after
      (after start (
        portfolio_execution bought 20 (newly_closed fixed (empty_book fixed) long_book) first_step))
      (portfolio_execution flipped 30 flipped_closed second_step))

-- A book with an ask at 100 and another at 101.
abbrev snapshot : ShadowMarketSnapshot fixed
snapshot = record {
  snapshot_id = 1;
  observed_at_mono = 15;
  midpoint = units 100;
  bids = [];
  asks =
      record { price = units 100; quantity = units 1 }
      ∷ record { price = units 101; quantity = units 4 }
      ∷ [];
}

abbrev order : ShadowExecutionInput fixed
order = record {
  action = purchase;
  decision_timestamp_mono = 10;
  decision_market_snapshot = snapshot;
  evaluation_market_snapshot = snapshot;
  latency_scenario = expected;
  configured_latency_ms = 5;
  proposed_limit_price = units 101;
  rounded_quantity = units 2;
  taker_fee_rate = pos 10000;
  funding_attribution = pos 0;
  position_before = pos 0;
}

abbrev modeled : ShadowExecution fixed
modeled = unwrap_or (execute_shadow_ioc fixed hash order) bought

order_executed : execute_shadow_ioc fixed hash order ≡ ok modeled
unfolding execute_shadow_ioc ℤ-discrete ℕ_discrete
order_executed = refl

modeled-apply_example :
    ((b : EpisodeBook fixed) × (apply fixed hash modeled 20 (empty_book fixed) ≡ ok b))
    ⊎ ((s : String) × (apply fixed hash modeled 20 (empty_book fixed)
          ≡ err (arithmetic_overflow s)))
unfolding get
modeled-apply_example =
    modeled-apply fixed hash order 20 (empty_book fixed) (empty-IsAligned fixed) refl order_executed

abbrev marks : BTreeMap String ℤ
marks = ("ETH", units 105) ∷ []

portfolio_equity-equity_example :
    value fixed (portfolio_equity fixed (units 1000) marks (units 2) flipped_ledger)
    ≡ and_then fixed
        (value fixed (equity fixed (units 1000) marks flipped_book))
        (λ v. fixed.checked_sub v (units 2))
portfolio_equity-equity_example =
    portfolio_equity-equity fixed (units 1000) marks (units 2) flipped_ledger
