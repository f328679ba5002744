-- ===== src/Live/Positions/Laws.antt =====
-- What the exchange has when its positions agree.
use mathlib.Core.Logic.{if_pos, if_neg}
use hyperliquid.Base.{
  ℕ, ◌≡◌, ◌↔◌, true, false, some, List, [], ◌∷◌, String, ok, All, refl, sym, ap, ◌∙◌, map, fail_if,
}
use hyperliquid.BTreeMap.{string_ord, BTreeMap, get, keys}
use hyperliquid.Decimal.{Decimal}
use hyperliquid.Ledger.{or_default, position_divergence}
use hyperliquid.Ledger.Books.{quantity_at}
use hyperliquid.Live.{LiveTradingState}
use hyperliquid.Live.Reach.{Reached, reached-IsLive}
use hyperliquid.Live.Positions.{positions, positions-discrete, reconcile_positions}

module _ (d : Decimal) where
  -- Reading a map at the keys of a part of it gives the part.
  read_back :
      (m part : BTreeMap String d.Value)
      → All (λ e. get e.0 m ≡ some e.1) part
      → map (λ a. (a, or_default (get a m) d.zero)) (keys part) ≡ part
  read_back m [] h = refl
  read_back m ((a, v) ∷ part) h =
      let head : or_default (get a m) d.zero ≡ v = rw (h.0) refl in
      let tail = read_back m part h.1 in λ i. (a, head i) ∷ tail i

  reconcile_iff :
      (exchange : BTreeMap String d.Value) (s : LiveTradingState d)
      → (reconcile_positions d exchange s ≡ ok tt) ↔ (positions d s ≡ exchange)
  unfolding reconcile_positions
  reconcile_iff exchange s = elim (positions-discrete d (positions d s) exchange) [
    | yes e ↦ (
      λ h. e,
      λ _.
          ap (λ b. fail_if b position_divergence)
            (if_pos (positions-discrete d (positions d s) exchange) e false true),
    )
    | no n ↦ (
      λ h.
          absurd
            (let k = if_neg (positions-discrete d (positions d s) exchange) n false true in cc),
      λ e. absurd (n e),
    )
  ]

  -- In a state that the operations lead to, the positions agree with the exchange exactly when those of
  -- the exchange are the positions of the portfolio's book, and these are the quantities of its open
  -- episodes.
  pub reached-reconcile_positions :
      (sha256 : List ℕ → ℕ) {s : LiveTradingState d} (exchange : BTreeMap String d.Value)
      → Reached d sha256 s
      → ((reconcile_positions d exchange s ≡ ok tt) ↔ (exchange ≡ s.ledger.portfolio.positions))
        × ((a : String) → get a s.ledger.portfolio.positions ≡ quantity_at d a s.ledger.portfolio)
  unfolding positions
  reached-reconcile_positions sha256 {s} exchange r =
      let book = (reached-IsLive d sha256 r).ledger.portfolio in
      let same = read_back s.ledger.portfolio.positions s.ledger.portfolio.positions book.keys in
      let agree = reconcile_iff exchange s in
      ((λ h. sym (agree.0 h) ∙ same, λ e. agree.1 (same ∙ sym e)), book.aligned)
