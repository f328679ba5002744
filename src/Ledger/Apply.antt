-- ===== src/Ledger/Apply.antt =====
-- The positions of a book are the quantities of its open episodes, after every `apply`.
use hyperliquid.Base.{
  ℕ, ◌≡◌, ◌≢◌, true, false, ◌||◌, some, List, String, ok, >>=-ok, ok_injective, ok_or-ok, fail_if,
  arith, inl, inr, Bool-cases, Option-cases, refl, sym, ap, ◌∙◌, subst, if◌then◌else◌,
}
use mathlib.Core.Option
use mathlib.Core.Logic.{if_neg}
use hyperliquid.BTreeMap.{
  String-discrete, string_ord, BTreeMap, get, insert, remove, IsMap, insert-IsMap, remove-IsMap,
  get-insert-same, get-insert-other, get-remove-same, get-remove-other,
}
use hyperliquid.Decimal.{Decimal, is_zero}
use hyperliquid.Identity.{Side, buy, sell}
use hyperliquid.Shadow.{ShadowExecution, signed}
use hyperliquid.Ledger.{
  position_divergence, missing_fill_price, EpisodeBook, same_sign, or_default, differ, empty_book,
}
use hyperliquid.Ledger.Executions.{book_fill, apply}
use hyperliquid.Ledger.Signs.{neg_ne_zero}
use hyperliquid.Ledger.Books.{
  quantity_at, entry, entry_zero, entry-some, quantity_some, IsBooked, checked-ok,
}
use hyperliquid.Ledger.Aligned.{add_same_direction-IsBooked}
use hyperliquid.Ledger.Closing.{close_or_flip-IsBooked}

module _ (d : Decimal) where
  -- The positions of a book are the quantities of its open episodes, and none of them is zero.
  pub record IsAligned (book : EpisodeBook d) : Type 0 where
    pub keys : IsMap book.positions
    pub open_keys : IsMap book.opened
    pub aligned : (a : String) → get a book.positions ≡ quantity_at d a book
    pub nonzero : (a : String) (v : d.Value) → get a book.positions ≡ some v → v ≢ d.zero

  -- The position of an asset, zero when there is none.
  abbrev pub position : String → EpisodeBook d → d.Value
  position a book = or_default (get a book.positions) d.zero

  -- A book has the position that an execution names, and its other positions are as before.
  pub record IsMoved (execution : ShadowExecution d) (book after : EpisodeBook d) : Type 0 where
    pub is_aligned : IsAligned after
    pub started : position execution.action.asset book ≡ execution.position_before
    pub moved : position execution.action.asset after ≡ execution.position_after
    pub others :
        (a : String) → execution.action.asset ≢ a → get a after.positions ≡ get a book.positions

  pub empty-IsAligned : IsAligned (empty_book d)
  unfolding get
  empty-IsAligned = record {
    keys = tt;
    open_keys = tt;
    aligned = λ a. refl;
    nonzero = λ a v e. absurd (cc);
  }

  pub entry-position :
      (asset : String) (book : EpisodeBook d)
      → IsAligned book
      → quantity_at d asset book ≡ entry d (position asset book)
  entry-position asset book h =
      sym (h.aligned asset) ∙ elim (Option-cases (get asset book.positions)) [
        | inl e ↦ rw (e) (sym (entry_zero d d.zero refl))
        | inr (v, e) ↦ rw (e) (sym (entry-some d v (h.nonzero asset v e)))
      ]

  signed_nonzero : (side : Side) (v : d.Value) → v ≢ d.zero → signed d side v ≢ d.zero
  signed_nonzero buy v n = n
  signed_nonzero sell v n = neg_ne_zero d v n

  -- The positions after a fill.
  abbrev settled : String → d.Value → BTreeMap String d.Value → BTreeMap String d.Value
  settled asset after m = if is_zero d after then remove asset m else insert asset after m

  settled-IsMap :
      (asset : String) (after : d.Value) (m : BTreeMap String d.Value)
      → IsMap m
      → IsMap (settled asset after m)
  settled-IsMap asset after m h = elim (Bool-cases (is_zero d after)) [
    | inl z ↦ rw (z) (remove-IsMap asset m h)
    | inr n ↦ rw (n) (insert-IsMap asset after m h)
  ]

  get-settled :
      (asset : String) (after : d.Value) (m : BTreeMap String d.Value)
      → get asset (settled asset after m) ≡ entry d after
  get-settled asset after m = elim (Bool-cases (is_zero d after)) [
    | inl z ↦ rw (z) (get-remove-same asset m)
    | inr n ↦ rw (n) (get-insert-same asset after m)
  ]

  get-settled-other :
      (asset a : String) (after : d.Value) (m : BTreeMap String d.Value)
      → asset ≢ a
      → get a (settled asset after m) ≡ get a m
  get-settled-other asset a after m ne = elim (Bool-cases (is_zero d after)) [
    | inl z ↦ rw (z) (get-remove-other asset a m ne)
    | inr n ↦ rw (n) (get-insert-other asset a after m ne)
  ]

  entry_nonzero : (v : d.Value) {w : d.Value} → entry d v ≡ some w → w ≢ d.zero
  entry_nonzero v e z = ground arith

  or_default-entry : (v : d.Value) → or_default (entry d v) d.zero ≡ v
  or_default-entry v = ground arith

  settled-IsAligned :
      (asset : String) (after : d.Value) (book booked : EpisodeBook d)
      → IsAligned book
      → IsBooked d asset (entry d after) book booked
      → IsAligned (record booked { positions = settled asset after booked.positions })
  settled-IsAligned asset after book booked h b =
      let m = booked.positions in
      let before : (a : String) → get a m ≡ get a book.positions = λ a. ap (get a) b.positions in
      record {
        keys = settled-IsMap asset after m (subst IsMap (sym b.positions) h.keys);
        open_keys = b.keys;
        aligned = λ a. elim (String-discrete asset a) [
          | yes e ↦
              subst (λ i. get i (settled asset after m) ≡ quantity_at d i booked) e
                (get-settled asset after m ∙ sym b.here)
          | no ne ↦
              get-settled-other asset a after m ne
              ∙ before a
              ∙ h.aligned a
              ∙ ap (Option.map (λ o. o.signed_quantity)) (sym (b.others a ne))
        ];
        nonzero = λ a v f. elim (String-discrete asset a) [
          | yes e ↦
              entry_nonzero after
                (sym (get-settled asset after m) ∙ ap (λ i. get i (settled asset after m)) e ∙ f)
          | no ne ↦ h.nonzero a v (sym (get-settled-other asset a after m ne ∙ before a) ∙ f)
        ];
      }

  pub differ_none : (a b : d.Value) → a ≡ b → differ d a b ≡ false
  differ_none a b e = ground arith

  same_checked :
      (a b : d.Value) {u : Unit} → fail_if (differ d a b) position_divergence ≡ ok u → a ≡ b
  same_checked a b e = elim (d.dec a b) [ yes f ↦ f | no n ↦ absurd (ground arith) ]

  settled-IsMoved :
      (execution : ShadowExecution d) (v : d.Value) (book booked : EpisodeBook d)
      → IsAligned book
      → position execution.action.asset book ≡ execution.position_before
      → v ≡ execution.position_after
      → IsBooked d execution.action.asset (entry d v) book booked
      → IsMoved execution book
          (record booked { positions = settled execution.action.asset v booked.positions })
  settled-IsMoved execution v book booked h start reached b =
      let asset = execution.action.asset in
      record {
        is_aligned = settled-IsAligned asset v book booked h b;
        started = start;
        moved =
            ap (λ o. or_default o d.zero) (get-settled asset v booked.positions)
            ∙ or_default-entry v
            ∙ reached;
        others = λ a ne. get-settled-other asset a v booked.positions ne ∙ ap (get a) b.positions;
      }

  module _ (sha256 : List ℕ → ℕ) where
    book_fill-IsBooked :
        (execution : ShadowExecution d) (price delta after : d.Value) (closed_at : ℕ)
        (book : EpisodeBook d) {c : EpisodeBook d}
        → IsAligned book
        → delta ≢ d.zero
        → d.checked_add (position execution.action.asset book) delta ≡ some after
        → book_fill d sha256 execution
            (position execution.action.asset book)
            price
            delta
            closed_at
            book
          ≡ ok c
        → IsBooked d execution.action.asset (entry d after) book c
    unfolding book_fill
    book_fill-IsBooked execution price delta after closed_at book h n sum done =
        let current = position execution.action.asset book in
        let q = entry-position execution.action.asset book h in
        elim (Bool-cases (
          is_zero d current
          || same_sign d (d.is_sign_positive current) (d.is_sign_positive delta))) [
            | inl same ↦
                add_same_direction-IsBooked d sha256 execution price delta current after book
                  h.open_keys q n sum same (rw (same, book_fill) at done)
            | inr other ↦
                let nz : current ≢ d.zero = λ z. ground arith in
                let signs : same_sign d (d.is_sign_positive current) (d.is_sign_positive delta)
                    ≡ false =
                  ground arith in
                let (o, f, v) =
                  quantity_some d execution.action.asset current book
                    (q ∙ entry-some d current nz) in
                close_or_flip-IsBooked d sha256 execution price delta after closed_at o book
                  h.open_keys f (rw (v) nz) n (rw (v) sum) (rw (v) signs)
                  (rw (other, book_fill) at done)
          ]

    -- An accepted execution starts from the position of the book and leaves the position that it names;
    -- the positions of the book are still the quantities of its open episodes.
    pub apply-IsMoved :
        (execution : ShadowExecution d) (closed_at : ℕ) (book : EpisodeBook d)
        {after : EpisodeBook d}
        → IsAligned book
        → apply d sha256 execution closed_at book ≡ ok after
        → IsMoved execution book after
    unfolding apply
    apply-IsMoved execution closed_at book {after} h done =
        let asset = execution.action.asset in
        let current = position asset book in
        let delta = signed d execution.action.side execution.modeled_filled_quantity in
        elim (d.dec current execution.position_before) [
          | no ne ↦ absurd (ground arith)
          | yes start ↦ elim (d.dec execution.modeled_filled_quantity d.zero) [
            | yes z ↦
                let same : book ≡ after = ground arith in
                let stays : current ≡ execution.position_after = ground arith in
                subst (IsMoved execution book) same
                  (record { is_aligned = h; started = start; moved = stays; others = λ a ne. refl })
            | no nz ↦
                let test = differ_none current execution.position_before start in
                let full : is_zero d execution.modeled_filled_quantity ≡ false =
                  if_neg (d.dec execution.modeled_filled_quantity d.zero) nz true false in
                let rest = rw (test, full, apply) at done in
                ok_or-ok execution.modeled_average_fill_price missing_fill_price _ rest
                  (λ price e₀ h₀.
                    checked-ok d (d.checked_add current delta) "position" _ h₀ (λ v e₁ h₁.
                      >>=-ok (fail_if (differ d v execution.position_after) position_divergence) _
                        h₁
                        (λ u e₂ h₂.
                          >>=-ok (book_fill d sha256 execution current price delta closed_at book) _
                            h₂
                            (λ booked e₃ h₃.
                              let b =
                                book_fill-IsBooked execution price delta v closed_at book h
                                  (signed_nonzero execution.action.side
                                    execution.modeled_filled_quantity nz)
                                  e₁ e₃ in
                              let reached = same_checked v execution.position_after e₂ in
                              subst (IsMoved execution book) (ok_injective h₃)
                                (settled-IsMoved execution v book booked h start reached b)))))
          ]
        ]
