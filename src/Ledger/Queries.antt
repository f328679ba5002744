-- ===== src/Ledger/Queries.antt =====
-- What a ledger is asked for (crates/copytrade-core/src/ledger.rs).
use hyperliquid.Base.{ℕ, ◌+◌, true, false, none, some, List, [], ◌∷◌, ◌++◌, String, length, map}
use hyperliquid.BTreeMap.{string_ord, BTreeMap, get, insert, keys, size}
use hyperliquid.Decimal.{Decimal, is_zero}
use hyperliquid.Ledger.{EpisodeBook}
use hyperliquid.Ledger.Dual.{DualLedger, SourceEpisode, source_episode}

module _ (d : Decimal) where
  abbrev pub source_closed_count : String → DualLedger d → ℕ
  source_closed_count candidate_id ledger = elim (get candidate_id ledger.sources) [
    | some book ↦ length book.closed
    | none ↦ 0
  ]

  abbrev pub source_assets : String → DualLedger d → List String
  source_assets candidate_id ledger = elim (get candidate_id ledger.sources) [
    | some book ↦ keys book.positions
    | none ↦ []
  ]

  abbrev pub source_ids : DualLedger d → List String
  source_ids ledger = keys ledger.sources

  -- The sum of `total_source_closed`.
  unfoldable pub sum_closed : BTreeMap String (EpisodeBook d) → ℕ
  sum_closed [] = 0
  sum_closed ((candidate_id, book) ∷ sources) = length book.closed + sum_closed sources

  abbrev pub total_source_closed : DualLedger d → ℕ
  total_source_closed ledger = sum_closed ledger.sources

  abbrev pub portfolio_open_count : DualLedger d → ℕ
  portfolio_open_count ledger = size ledger.portfolio.opened

  -- The loops of `all_source_closed`.
  unfoldable pub episodes_of : BTreeMap String (EpisodeBook d) → List (SourceEpisode d)
  episodes_of [] = []
  episodes_of ((candidate_id, book) ∷ sources) =
      map (source_episode d candidate_id) book.closed ++ episodes_of sources

  abbrev pub all_source_closed : DualLedger d → List (SourceEpisode d)
  all_source_closed ledger = episodes_of ledger.sources

  -- The `filter_map` and `collect` of `source_positions_for_asset`.
  unfoldable pub positions_of :
      String → BTreeMap String (EpisodeBook d) → BTreeMap String d.Value → BTreeMap String d.Value
  positions_of asset [] found = found
  positions_of asset ((candidate, book) ∷ sources) found =
      positions_of asset sources (elim (get asset book.positions) [
        | some position ↦ elim (is_zero d position) [
          | true ↦ found
          | false ↦ insert candidate position found
        ]
        | none ↦ found
      ])

  abbrev pub source_positions_for_asset : String → DualLedger d → BTreeMap String d.Value
  source_positions_for_asset asset ledger = positions_of asset ledger.sources []

  abbrev pub portfolio_assets : DualLedger d → List String
  portfolio_assets ledger = keys ledger.portfolio.positions
