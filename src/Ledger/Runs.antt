-- ===== src/Ledger/Runs.antt =====
-- Every ledger that the operations lead to passes its own integrity check.
use hyperliquid.Base.{
  ◌≡◌, Option, some, List, [], ◌∷◌, String, ok, arith, inl, inr, Option-cases, refl, sym, ap, ◌∙◌,
  subst, All,
}
use mathlib.Core.Option
use hyperliquid.BTreeMap.{
  String-discrete, string_ord, BTreeMap, get, insert, values, insert-IsMap, get-insert-same,
  get-insert-other, All-insert, All-get,
}
use hyperliquid.Decimal.{Decimal}
use hyperliquid.Ledger.{PortfolioEpisode, OpenEpisode, EpisodeBook, empty_book, or_default}
use hyperliquid.Ledger.Books.{quantity_at}
use hyperliquid.Ledger.Apply.{IsAligned, empty-IsAligned}
use hyperliquid.Ledger.Dual.{DualLedger}
use hyperliquid.Ledger.Dual.Integrity.{
  check_positions, check_opened, check_books, validate, validate_integrity,
}

module _ (d : Decimal) where
  pub record IsSound (ledger : DualLedger d) : Type 0 where
    pub schema : ledger.schema_version ≡ 2
    pub portfolio : IsAligned d ledger.portfolio
    pub sources : All (λ e. IsAligned d e.1) ledger.sources

  check_positions-IsAligned :
      (book : EpisodeBook d) (m : BTreeMap String d.Value)
      → IsAligned d book
      → All (λ e. get e.0 book.positions ≡ some e.1) m
      → check_positions d book m ≡ ok tt
  unfolding check_positions
  check_positions-IsAligned book [] h all = refl
  check_positions-IsAligned book ((a, v) ∷ m) h all =
      let found : quantity_at d a book ≡ some v = sym (h.aligned a) ∙ all.0 in
      rw (found, check_positions-IsAligned book m h all.1) (ground arith)

  check_opened-IsAligned :
      (book : EpisodeBook d) (m : BTreeMap String (OpenEpisode d))
      → IsAligned d book
      → All (λ e. get e.0 book.opened ≡ some e.1) m
      → check_opened d book m ≡ ok tt
  unfolding check_opened
  check_opened-IsAligned book [] h all = refl
  check_opened-IsAligned book ((a, o) ∷ m) h all =
      let found : get a book.positions ≡ some o.signed_quantity =
        h.aligned a ∙ ap (Option.map (λ o. o.signed_quantity)) all.0 in
      rw (found, check_opened-IsAligned book m h all.1) (ground arith)

  check_books-IsAligned :
      (sources : BTreeMap String (EpisodeBook d))
      → All (λ e. IsAligned d e.1) sources
      → check_books d (values sources) ≡ ok tt
  unfolding check_books
  check_books-IsAligned [] h = refl
  check_books-IsAligned ((a, b) ∷ rest) h =
      rw
        (
          check_positions-IsAligned b b.positions h.0 h.0.keys,
          check_opened-IsAligned b b.opened h.0 h.0.open_keys,
          check_books-IsAligned rest h.1,
        )
        refl

  pub sound-validate_integrity :
      (ledger : DualLedger d) → IsSound ledger → validate_integrity d ledger ≡ ok tt
  unfolding validate_integrity validate check_books
  sound-validate_integrity ledger h =
      let p = h.portfolio in
      let b = ledger.portfolio in
      rw
        (
          h.schema,
          check_positions-IsAligned b b.positions p p.keys,
          check_opened-IsAligned b b.opened p p.open_keys,
          check_books-IsAligned ledger.sources h.sources,
        )
        refl

  -- The closed episodes are no part of the alignment.
  pub closed-IsAligned :
      (book : EpisodeBook d) (closed : List (PortfolioEpisode d))
      → IsAligned d book
      → IsAligned d (record book { closed = closed })
  closed-IsAligned book closed h = record {
    keys = h.keys;
    open_keys = h.open_keys;
    aligned = h.aligned;
    nonzero = h.nonzero;
  }

  pub funding-IsAligned :
      (asset : String) (o : OpenEpisode d) (funding : d.Value) (book : EpisodeBook d)
      → get asset book.opened ≡ some o
      → IsAligned d book
      → IsAligned d
          (record book { opened = insert asset (record o { funding = funding }) book.opened })
  funding-IsAligned asset o funding book found h =
      let p : OpenEpisode d = record o { funding = funding } in
      let quantity : Option (OpenEpisode d) → Option d.Value =
        Option.map (λ o. o.signed_quantity) in
      record {
        keys = h.keys;
        open_keys = insert-IsMap asset p book.opened h.open_keys;
        aligned = λ a. elim (String-discrete asset a) [
          | yes e ↦
              subst (λ i. get i book.positions ≡ quantity (get i (insert asset p book.opened))) e
                (h.aligned asset
                  ∙ ap quantity found
                  ∙ sym (ap quantity (get-insert-same asset p book.opened)))
          | no ne ↦ h.aligned a ∙ sym (ap quantity (get-insert-other asset a p book.opened ne))
        ];
        nonzero = h.nonzero;
      }

  pub source_or_default-IsAligned :
      (candidate_id : String) (ledger : DualLedger d)
      → IsSound ledger
      → IsAligned d (or_default (get candidate_id ledger.sources) (empty_book d))
  source_or_default-IsAligned candidate_id ledger h =
      elim (Option-cases (get candidate_id ledger.sources)) [
        | inl e ↦ rw (e) (empty-IsAligned d)
        | inr (b, e) ↦
            rw (e) (All-get (λ e. IsAligned d e.1) candidate_id b ledger.sources h.sources e)
      ]

  pub portfolio-IsSound :
      (ledger : DualLedger d) (book : EpisodeBook d)
      → IsSound ledger
      → IsAligned d book
      → IsSound (record ledger { portfolio = book })
  portfolio-IsSound ledger book h b = record {
    schema = h.schema;
    portfolio = b;
    sources = h.sources;
  }

  pub source-IsSound :
      (candidate_id : String) (book : EpisodeBook d) (ledger : DualLedger d)
      → IsSound ledger
      → IsAligned d book
      → IsSound (record ledger { sources = insert candidate_id book ledger.sources })
  source-IsSound candidate_id book ledger h b = record {
    schema = h.schema;
    portfolio = h.portfolio;
    sources = All-insert (λ e. IsAligned d e.1) candidate_id book ledger.sources b h.sources;
  }
