-- ===== src/Ledger/Valuation.antt =====
-- The equity of the portfolio and of a source (crates/copytrade-core/src/ledger.rs), which two loops
-- compute.
use hyperliquid.Base.{none, some, List, [], ◌∷◌, String, Result, ok, ◌>>=◌, ok_or, if◌then◌else◌}
use hyperliquid.BTreeMap.{string_ord, BTreeMap, get}
use hyperliquid.Decimal.{Decimal, and_then}
use hyperliquid.Ledger.{
  LedgerError, missing_mark_price, PortfolioEpisode, OpenEpisode, EpisodeBook, checked,
}
use hyperliquid.Ledger.Dual.{DualLedger}

module _ (d : Decimal) where
  -- The loop of `portfolio_equity` over the closed episodes.
  unfoldable pub add_closed : List (PortfolioEpisode d) → d.Value → Result LedgerError d.Value
  add_closed [] equity = ok equity
  add_closed (e ∷ closed) equity =
      checked d (d.checked_add equity e.net_pnl) "closed equity" >>= λ sum. add_closed closed sum

  -- The body of its loop over the open episodes.
  unfoldable pub add_open_episode :
      BTreeMap String d.Value → String → OpenEpisode d → d.Value → Result LedgerError d.Value
  add_open_episode marks asset o equity = do
    mark ← ok_or (get asset marks) missing_mark_price
    price_move ←
        checked d
          (if d.is_sign_positive o.signed_quantity
            then d.checked_sub mark o.average_entry_price
            else d.checked_sub o.average_entry_price mark)
          "unrealized pnl"
    unrealized ← checked d (d.checked_mul price_move (d.abs o.signed_quantity)) "unrealized pnl"
    checked d
        (and_then d
          (and_then d
            (and_then d (d.checked_add equity unrealized) (λ value. d.checked_sub value o.fees))
            (λ value. d.checked_sub value o.funding))
          (λ value. d.checked_sub value o.slippage))
        "open equity"

  unfoldable pub add_opened :
      BTreeMap String d.Value
      → BTreeMap String (OpenEpisode d)
      → d.Value
      → Result LedgerError d.Value
  unfolding add_open_episode
  add_opened marks [] equity = ok equity
  add_opened marks ((asset, o) ∷ opened) equity =
      add_open_episode marks asset o equity >>= λ sum. add_opened marks opened sum

  -- The loop of `EpisodeBook::equity` over the closed episodes.
  unfoldable pub add_book_closed : List (PortfolioEpisode d) → d.Value → Result LedgerError d.Value
  add_book_closed [] equity = ok equity
  add_book_closed (e ∷ closed) equity =
      checked d (d.checked_add equity e.net_pnl) "book equity" >>= λ sum. add_book_closed closed sum

  -- The body of its loop over the open episodes.
  unfoldable pub add_book_episode :
      BTreeMap String d.Value → String → OpenEpisode d → d.Value → Result LedgerError d.Value
  add_book_episode marks asset o equity = do
    mark ← ok_or (get asset marks) missing_mark_price
    movement ←
        checked d
          (if d.is_sign_positive o.signed_quantity
            then d.checked_sub mark o.average_entry_price
            else d.checked_sub o.average_entry_price mark)
          "book unrealized pnl"
    gain ← checked d (d.checked_mul movement (d.abs o.signed_quantity)) "book unrealized pnl"
    checked d
        (and_then d
          (and_then d (and_then d (d.checked_add equity gain) (λ value. d.checked_sub value o.fees))
            (λ value. d.checked_sub value o.funding))
          (λ value. d.checked_sub value o.slippage))
        "book open equity"

  unfoldable pub add_book_opened :
      BTreeMap String d.Value
      → BTreeMap String (OpenEpisode d)
      → d.Value
      → Result LedgerError d.Value
  unfolding add_book_episode
  add_book_opened marks [] equity = ok equity
  add_book_opened marks ((asset, o) ∷ opened) equity =
      add_book_episode marks asset o equity >>= λ sum. add_book_opened marks opened sum

  -- `EpisodeBook::equity`
  unfoldable pub equity :
      d.Value → BTreeMap String d.Value → EpisodeBook d → Result LedgerError d.Value
  unfolding add_book_closed add_book_opened
  equity starting_equity marks book = do
    closed ← add_book_closed book.closed starting_equity
    add_book_opened marks book.opened closed

  unfoldable pub source_equity :
      String → d.Value → BTreeMap String d.Value → DualLedger d → Result LedgerError d.Value
  unfolding equity
  source_equity candidate_id starting_equity marks ledger = elim (get candidate_id ledger.sources) [
    | some book ↦ equity starting_equity marks book
    | none ↦ ok starting_equity
  ]

  unfoldable pub portfolio_equity :
      d.Value → BTreeMap String d.Value → d.Value → DualLedger d → Result LedgerError d.Value
  unfolding add_closed add_opened
  portfolio_equity starting_equity marks unbooked_funding ledger = do
    closed ← add_closed ledger.portfolio.closed starting_equity
    total ← add_opened marks ledger.portfolio.opened closed
    checked d (d.checked_sub total unbooked_funding) "unbooked funding"

  -- The `try_fold` of `portfolio_realized_net_pnl`.
  unfoldable add_realized : List (PortfolioEpisode d) → d.Value → Result LedgerError d.Value
  add_realized [] sum = ok sum
  add_realized (e ∷ closed) sum =
      checked d (d.checked_add sum e.net_pnl) "realized net pnl" >>= λ total.
      add_realized closed total

  unfoldable pub portfolio_realized_net_pnl : DualLedger d → Result LedgerError d.Value
  unfolding add_realized
  portfolio_realized_net_pnl ledger = add_realized ledger.portfolio.closed d.zero
