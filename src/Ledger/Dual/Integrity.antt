-- ===== src/Ledger/Dual/Integrity.antt =====
-- `DualLedger::validate` and what load tests (crates/copytrade-core/src/ledger.rs).
use hyperliquid.Base.{
  Bool, true, false, not, ◌==◌, Option, none, some, List, [], ◌∷◌, String, Result, ok, ◌>>◌,
  fail_if,
}
use mathlib.Core.Option
use hyperliquid.BTreeMap.{string_ord, BTreeMap, get, values}
use hyperliquid.Decimal.{Decimal}
use hyperliquid.Ledger.{
  LedgerError, position_divergence, schema_mismatch, OpenEpisode, EpisodeBook, or_default, differ,
}
use hyperliquid.Ledger.Dual.{DualLedger}

module _ (d : Decimal) where
  -- The first loop of `validate`, over the positions of a book.
  unfoldable pub check_positions :
      EpisodeBook d → BTreeMap String d.Value → Result LedgerError (Unit {0})
  check_positions book [] = ok tt
  check_positions book ((asset, position) ∷ rest) =
      let after = check_positions book rest in
      let open_quantity =
        or_default (Option.map (λ o. o.signed_quantity) (get asset book.opened)) d.zero in
      fail_if (differ d position open_quantity) position_divergence >> after

  -- `!=` of two optional decimals
  abbrev pub differ_option : Option d.Value → Option d.Value → Bool
  differ_option none none = false
  differ_option none (some b) = true
  differ_option (some a) none = true
  differ_option (some a) (some b) = differ d a b

  -- The second loop of `validate`, over the open episodes.
  unfoldable pub check_opened :
      EpisodeBook d → BTreeMap String (OpenEpisode d) → Result LedgerError (Unit {0})
  check_opened book [] = ok tt
  check_opened book ((asset, episode) ∷ rest) =
      let after = check_opened book rest in
      fail_if (differ_option (get asset book.positions) (some episode.signed_quantity))
        position_divergence
      >> after

  unfoldable pub check_books : List (EpisodeBook d) → Result LedgerError (Unit {0})
  unfolding check_positions check_opened
  check_books [] = ok tt
  check_books (book ∷ books) =
      let after = check_books books in
      check_positions book book.positions >> (check_opened book book.opened >> after)

  unfoldable pub validate : DualLedger d → Result LedgerError (Unit {0})
  unfolding check_books
  validate ledger = check_books (ledger.portfolio ∷ values ledger.sources)

  unfoldable pub validate_integrity : DualLedger d → Result LedgerError (Unit {0})
  unfolding validate
  validate_integrity ledger =
      fail_if (not (ledger.schema_version == 2)) schema_mismatch >> validate ledger
