-- ===== src/Ledger/Books.antt =====
-- What the branches of `EpisodeBook::apply` do to the open episode of the asset.
use hyperliquid.Base.{
  ℕ, ◌≡◌, ◌≢◌, Option, none, some, String, Result, ok, ◌>>=◌, >>=-ok, ok_injective, ok_or, ok_or-ok,
  arith, inl, inr, Option-cases, refl, sym, ap, ◌∙◌, subst, if◌then◌else◌,
}
use mathlib.Core.Option
use hyperliquid.BTreeMap.{
  string_ord, get, insert, IsMap, insert-IsMap, remove-IsMap, get-insert-same, get-insert-other,
  get-remove-same, get-remove-other,
}
use hyperliquid.Decimal.{Decimal, is_zero}
use hyperliquid.Shadow.{ShadowExecution}
use hyperliquid.Ledger.{
  LedgerError, arithmetic_overflow, OpenEpisode, EpisodeBook, price_gain, checked, add_fraction,
  add_costs, extend, reduce, net_of, finish_episode,
}

module _ (d : Decimal) where
  -- The quantity of the open episode of an asset.
  abbrev pub quantity_at : String → EpisodeBook d → Option d.Value
  quantity_at a book = Option.map (λ o. o.signed_quantity) (get a book.opened)

  -- A quantity as an entry: there is none for zero.
  abbrev pub entry : d.Value → Option d.Value
  entry v = if is_zero d v then none else some v

  pub entry_zero : (v : d.Value) → v ≡ d.zero → entry v ≡ none
  entry_zero v e = ground arith

  pub entry-some : (v : d.Value) → v ≢ d.zero → entry v ≡ some v
  entry-some v n = ground arith

  pub quantity_none :
      (a : String) (book : EpisodeBook d) → quantity_at a book ≡ none → get a book.opened ≡ none
  quantity_none a book e = elim (Option-cases (get a book.opened)) [
    | inl f ↦ f
    | inr (o, f) ↦ absurd (ground arith)
  ]

  pub quantity_some :
      (a : String) (v : d.Value) (book : EpisodeBook d)
      → quantity_at a book ≡ some v
      → (o : OpenEpisode d) × (get a book.opened ≡ some o) × (o.signed_quantity ≡ v)
  quantity_some a v book e = elim (Option-cases (get a book.opened)) [
    | inl f ↦ absurd (ground arith)
    | inr (o, f) ↦ (o, f, ground arith)
  ]

  -- The book differs in the episode of the asset, which has the quantity afterwards, and in what was
  -- closed.
  pub record IsBooked (asset : String) (after : Option d.Value) (book booked : EpisodeBook d)
      : Type 0 where
    pub positions : booked.positions ≡ book.positions
    pub keys : IsMap booked.opened
    pub others : (a : String) → asset ≢ a → get a booked.opened ≡ get a book.opened
    pub here : quantity_at asset booked ≡ after

  -- A checked operation that succeeds has a value.
  pub checked-ok {ℓ} :
      {B : Type 0} {C : Type ℓ} (o : Option d.Value) (operation : String)
      (f : d.Value → Result LedgerError B) {b : B}
      → (checked d o operation >>= f) ≡ ok b
      → ((v : d.Value) → o ≡ some v → f v ≡ ok b → C)
      → C
  checked-ok o operation f h k = ok_or-ok o (arithmetic_overflow operation) f h k

  pub add_costs-quantity :
      (o : OpenEpisode d) (execution : ShadowExecution d) (fraction : d.Value) {p : OpenEpisode d}
      → add_costs d o execution fraction ≡ ok p
      → p.signed_quantity ≡ o.signed_quantity
  unfolding add_costs
  add_costs-quantity o execution fraction h =
      >>=-ok (add_fraction d o.fees execution.fees fraction "fees") _ h (λ f e₀ h₀.
        >>=-ok (add_fraction d o.funding execution.funding fraction "funding") _ h₀ (λ g e₁ h₁.
          >>=-ok (add_fraction d o.slippage execution.slippage fraction "slippage") _ h₁
            (λ s e₂ h₂. ap (λ o. o.signed_quantity) (sym (ok_injective h₂)))))

  pub insert-IsBooked :
      (asset : String) (o : OpenEpisode d) (book : EpisodeBook d) (n : ℕ)
      → IsMap book.opened
      → IsBooked asset
          (some o.signed_quantity)
          book
          (record book { next_episode_sequence = n; opened = insert asset o book.opened })
  insert-IsBooked asset o book n keys = record {
    positions = refl;
    keys = insert-IsMap asset o book.opened keys;
    others = λ a ne. get-insert-other asset a o book.opened ne;
    here = ap (Option.map (λ o. o.signed_quantity)) (get-insert-same asset o book.opened);
  }

  pub IsBooked-trans :
      (asset : String) {p q : Option d.Value} {a b c : EpisodeBook d}
      → IsBooked asset p a b
      → IsBooked asset q b c
      → IsBooked asset q a c
  IsBooked-trans asset f g = record {
    positions = g.positions ∙ f.positions;
    keys = g.keys;
    others = λ a ne. g.others a ne ∙ f.others a ne;
    here = g.here;
  }

  pub finish_episode-IsBooked :
      (asset : String) (closed_at : ℕ) (book : EpisodeBook d) {c : EpisodeBook d}
      → IsMap book.opened
      → finish_episode d asset closed_at book ≡ ok c
      → IsBooked asset none book c
  unfolding finish_episode
  finish_episode-IsBooked asset closed_at book {c} keys h =
      >>=-ok (ok_or (get asset book.opened) _) _ h (λ o e₀ h₀.
        >>=-ok (net_of d o) _ h₀ (λ net e₁ h₁.
          subst (IsBooked asset none book) (ok_injective h₁) (record {
            positions = refl;
            keys = remove-IsMap asset book.opened keys;
            others = λ a ne. get-remove-other asset a book.opened ne;
            here = ap (Option.map (λ o. o.signed_quantity)) (get-remove-same asset book.opened);
          })))

  pub reduce-quantity :
      (o : OpenEpisode d) (execution : ShadowExecution d) (price closing fraction : d.Value)
      {p : OpenEpisode d}
      → reduce d o execution price closing fraction ≡ ok p
      → d.checked_add o.signed_quantity
          (if d.is_sign_positive o.signed_quantity then d.neg closing else closing)
        ≡ some p.signed_quantity
  unfolding reduce
  reduce-quantity o execution price closing fraction {p} h =
      let gained = price_gain d o.signed_quantity o.average_entry_price price in
      let left = if d.is_sign_positive o.signed_quantity then d.neg closing else closing in
      checked-ok gained "realized pnl" _ h (λ gain e₀ h₀.
        checked-ok (d.checked_mul gain closing) "realized pnl" _ h₀ (λ pnl e₁ h₁.
          checked-ok (d.checked_add o.realized_pnl pnl) "realized pnl" _ h₁ (λ realized e₂ h₂.
            checked-ok (d.checked_mul price closing) "exit notional" _ h₂ (λ value e₃ h₃.
              checked-ok (d.checked_add o.exit_notional value) "exit notional" _ h₃ (λ exit e₄ h₄.
                >>=-ok
                  (add_costs d (record o { realized_pnl = realized; exit_notional = exit })
                    execution fraction)
                  _ h₄
                  (λ c e₅ h₅.
                    checked-ok (d.checked_add o.signed_quantity left) "episode close" _ h₅
                      (λ q e₆ h₆. e₆ ∙ ap (λ o. some o.signed_quantity) (ok_injective h₆))))))))

  pub extend-quantity :
      (o : OpenEpisode d) (execution : ShadowExecution d) (price delta : d.Value)
      {p : OpenEpisode d}
      → extend d o execution price delta ≡ ok p
      → d.checked_add o.signed_quantity delta ≡ some p.signed_quantity
  unfolding extend
  extend-quantity o execution price delta {p} h =
      let old_quantity = d.abs o.signed_quantity in
      let added = d.abs delta in
      checked-ok (d.checked_add old_quantity added) "episode quantity" _ h (λ total e₀ h₀.
        checked-ok (d.checked_mul old_quantity o.average_entry_price) "entry value" _ h₀
          (λ old e₁ h₁. checked-ok (d.checked_mul added price) "entry value" _ h₁ (λ new e₂ h₂.
            checked-ok (d.checked_add old new) "average entry" _ h₂ (λ value e₃ h₃.
              checked-ok (d.checked_div value total) "average entry" _ h₃ (λ average e₄ h₄.
                checked-ok (d.checked_add o.signed_quantity delta) "episode quantity" _ h₄
                  (λ q e₅ h₅.
                    checked-ok (d.checked_add o.entry_notional new) "entry notional" _ h₅
                      (λ notional e₆ h₆.
                        e₅
                        ∙ ap some (
                            sym (
                              add_costs-quantity
                                (record o {
                                  average_entry_price = average;
                                  signed_quantity = q;
                                  entry_notional = notional;
                                })
                                execution d.one h₆)))))))))
