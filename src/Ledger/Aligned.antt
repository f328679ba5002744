-- ===== src/Ledger/Aligned.antt =====
-- The positions of a book are the quantities of its open episodes, after every `apply`.
use hyperliquid.Base.{
  ℕ, ◌≡◌, ◌≢◌, true, ◌||◌, none, some, List, ok, >>=-ok, ok_injective, ok_or-ok, arith, ◌∙◌, subst,
  checked_add, u64_mod,
}
use hyperliquid.BTreeMap.{string_ord, get, IsMap}
use hyperliquid.Decimal.{Decimal, is_zero}
use hyperliquid.Shadow.{ShadowExecution}
use hyperliquid.Ledger.{arithmetic_overflow, OpenEpisode, EpisodeBook, same_sign, add_costs, extend}
use hyperliquid.Ledger.Executions.{derive_episode_id, open_new, add_same_direction}
use hyperliquid.Ledger.Signs.{add_same_ne_zero}
use hyperliquid.Ledger.Books.{
  quantity_at, entry, entry_zero, entry-some, quantity_none, quantity_some, IsBooked, checked-ok,
  add_costs-quantity, insert-IsBooked, extend-quantity,
}

module _ (d : Decimal) (sha256 : List ℕ → ℕ) where
  pub open_new-IsBooked :
      (execution : ShadowExecution d) (price quantity fraction : d.Value) (book : EpisodeBook d)
      {c : EpisodeBook d}
      → IsMap book.opened
      → open_new d sha256 execution price quantity fraction book ≡ ok c
      → IsBooked d execution.action.asset (some quantity) book c
  unfolding open_new
  open_new-IsBooked execution price quantity fraction book {c} keys h =
      let asset = execution.action.asset in
      let sequence = book.next_episode_sequence in
      ok_or-ok (checked_add u64_mod sequence 1) (arithmetic_overflow "episode sequence") _ h
        (λ following e₀ h₀.
          checked-ok d (d.checked_mul (d.abs quantity) price) "entry notional" _ h₀
            (λ notional e₁ h₁.
              let fresh : OpenEpisode d = record {
                episode_id =
                    derive_episode_id d sha256 asset execution.action.decision_id
                      execution.action.planned_cloid sequence;
                asset = asset;
                opened_at = execution.decision_timestamp_mono;
                opening_decision_id = execution.action.decision_id;
                signed_quantity = quantity;
                average_entry_price = price;
                entry_notional = notional;
                exit_notional = d.zero;
                realized_pnl = d.zero;
                fees = d.zero;
                funding = d.zero;
                slippage = d.zero;
              } in
              >>=-ok (add_costs d fresh execution fraction) _ h₁ (λ o e₂ h₂.
                subst (λ i. IsBooked d asset (some i) book c)
                  (add_costs-quantity d fresh execution fraction e₂)
                  (subst (IsBooked d asset (some o.signed_quantity) book) (ok_injective h₂)
                    (insert-IsBooked d asset o book following keys)))))

  opened-IsBooked :
      (execution : ShadowExecution d) (price delta : d.Value) (book : EpisodeBook d)
      {c : EpisodeBook d}
      → IsMap book.opened
      → get execution.action.asset book.opened ≡ none
      → add_same_direction d sha256 execution price delta book ≡ ok c
      → IsBooked d execution.action.asset (some delta) book c
  unfolding add_same_direction
  opened-IsBooked execution price delta book keys e h =
      open_new-IsBooked execution price delta d.one book keys (rw (e, add_same_direction) at h)

  extended-IsBooked :
      (execution : ShadowExecution d) (price delta after : d.Value) (o : OpenEpisode d)
      (book : EpisodeBook d) {c : EpisodeBook d}
      → IsMap book.opened
      → get execution.action.asset book.opened ≡ some o
      → d.checked_add o.signed_quantity delta ≡ some after
      → add_same_direction d sha256 execution price delta book ≡ ok c
      → IsBooked d execution.action.asset (some after) book c
  unfolding add_same_direction
  extended-IsBooked execution price delta after o book {c} keys e sum h =
      let made = rw (e, add_same_direction) at h in
      >>=-ok (extend d o execution price delta) _ made (λ longer e₀ h₀.
        let q : longer.signed_quantity ≡ after =
          let s = extend-quantity d o execution price delta e₀ in cc in
        subst (λ i. IsBooked d execution.action.asset (some i) book c) q
          (subst (IsBooked d execution.action.asset (some longer.signed_quantity) book)
            (ok_injective h₀)
            (insert-IsBooked d execution.action.asset longer book book.next_episode_sequence keys)))

  -- A fill of the sign of the position, or of an asset without one.
  pub add_same_direction-IsBooked :
      (execution : ShadowExecution d) (price delta current after : d.Value) (book : EpisodeBook d)
      {c : EpisodeBook d}
      → IsMap book.opened
      → quantity_at d execution.action.asset book ≡ entry d current
      → delta ≢ d.zero
      → d.checked_add current delta ≡ some after
      → (is_zero d current || same_sign d (d.is_sign_positive current) (d.is_sign_positive delta))
        ≡ true
      → add_same_direction d sha256 execution price delta book ≡ ok c
      → IsBooked d execution.action.asset (entry d after) book c
  add_same_direction-IsBooked execution price delta current after book {c} keys q n sum same h =
      elim (d.dec current d.zero) [
        | yes z ↦
            let missing =
              quantity_none d execution.action.asset book (q ∙ entry_zero d current z) in
            let moved : after ≡ delta = d.add-zero delta (
              subst (λ i. d.checked_add delta i ≡ some after) z (d.add_comm delta current ∙ sum)) in
            let nonzero : entry d after ≡ some delta = rw (moved) (entry-some d delta n) in
            rw (nonzero) (opened-IsBooked execution price delta book keys missing h)
        | no nz ↦
            let (o, f, v) =
              quantity_some d execution.action.asset current book (q ∙ entry-some d current nz) in
            let signs : same_sign d (d.is_sign_positive current) (d.is_sign_positive delta) ≡ true =
              ground arith in
            let nonzero = entry-some d after (add_same_ne_zero d current delta nz n signs sum) in
            rw (nonzero)
              (extended-IsBooked execution price delta after o book keys f (rw (v) sum) h)
      ]
