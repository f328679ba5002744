-- ===== src/Ledger/Closing.antt =====
-- A fill against the position: it closes part of it, all of it, or flips it.
use hyperliquid.Base.{
  ℕ, ◌≡◌, ◌≢◌, false, Option, none, some, List, String, ok, ◌>>=◌, >>=-ok, arith, inl, inr,
  Bool-cases, sym, ap, ◌∙◌, subst, if◌then◌else◌,
}
use hyperliquid.BTreeMap.{string_ord, get, insert, IsMap}
use hyperliquid.Decimal.{Decimal, is_zero, min}
use hyperliquid.Shadow.{ShadowExecution}
use hyperliquid.Ledger.{OpenEpisode, EpisodeBook, same_sign, checked, reduce, finish_episode}
use hyperliquid.Ledger.Executions.{open_new, flip, close_or_flip}
use hyperliquid.Ledger.Signs.{neg_ne_zero, close_part, close_all, flip_rest}
use hyperliquid.Ledger.Books.{
  entry, entry_zero, entry-some, IsBooked, checked-ok, insert-IsBooked, IsBooked-trans,
  finish_episode-IsBooked, reduce-quantity,
}
use hyperliquid.Ledger.Aligned.{open_new-IsBooked}

module _ (d : Decimal) (sha256 : List ℕ → ℕ) where
  abbrev directed : d.Value → d.Value → d.Value
  directed delta r = if d.is_sign_positive delta then r else d.neg r

  directed_zero : (delta r : d.Value) → r ≡ d.zero → directed delta r ≡ d.zero
  directed_zero delta r e = elim (Bool-cases (d.is_sign_positive delta)) [
    | inl p ↦ rw (p) e
    | inr p ↦ rw (p) (ap d.neg e ∙ d.neg-zero)
  ]

  directed_nonzero : (delta r : d.Value) → r ≢ d.zero → directed delta r ≢ d.zero
  directed_nonzero delta r n = elim (Bool-cases (d.is_sign_positive delta)) [
    | inl p ↦ rw (p) n
    | inr p ↦ rw (p) (neg_ne_zero d r n)
  ]

  -- The episode that was reduced is finished when nothing of it is left.
  settled-IsBooked :
      (asset : String) (closed_at : ℕ) (shorter : OpenEpisode d) (book : EpisodeBook d)
      {c : EpisodeBook d}
      → IsMap book.opened
      → (if is_zero d shorter.signed_quantity
          then finish_episode d asset closed_at
              (record book { opened = insert asset shorter book.opened })
          else ok (record book { opened = insert asset shorter book.opened }))
        ≡ ok c
      → IsBooked d asset (entry d shorter.signed_quantity) book c
  settled-IsBooked asset closed_at shorter book {c} keys h =
      let reduced : EpisodeBook d = record book { opened = insert asset shorter book.opened } in
      let inserted = insert-IsBooked d asset shorter book book.next_episode_sequence keys in
      elim (d.dec shorter.signed_quantity d.zero) [
        | yes z ↦
            let finished : finish_episode d asset closed_at reduced ≡ ok c = ground arith in
            let gone : entry d shorter.signed_quantity ≡ none =
              entry_zero d shorter.signed_quantity z in
            rw (gone) (
              IsBooked-trans d asset inserted
                (finish_episode-IsBooked d asset closed_at reduced inserted.keys finished))
        | no n ↦
            let same : reduced ≡ c = ground arith in
            rw (entry-some d shorter.signed_quantity n)
              (subst (IsBooked d asset _ book) same inserted)
      ]

  -- What is left opens a position of its own.
  flip-IsBooked :
      (execution : ShadowExecution d) (price delta r fraction after : d.Value) {p : Option d.Value}
      {book b c : EpisodeBook d}
      → IsBooked d execution.action.asset p book b
      → (r ≡ d.zero → p ≡ entry d after)
      → (r ≢ d.zero → directed delta r ≡ after)
      → flip d sha256 execution price delta r fraction b ≡ ok c
      → IsBooked d execution.action.asset (entry d after) book c
  unfolding flip
  flip-IsBooked execution price delta r fraction after {p} {book} {b} {c} booked done left h =
      elim (d.dec r d.zero) [
        | yes z ↦
            let same : b ≡ c = ground arith in
            rw (sym (done z)) (subst (IsBooked d execution.action.asset p book) same booked)
        | no n ↦
            let rest : (checked d (d.checked_sub d.one fraction) "residual fraction" >>= λ f.
            open_new d sha256 execution price (directed delta r) f b)
                ≡ ok c =
              ground arith in
            checked-ok d (d.checked_sub d.one fraction) "residual fraction" _ rest (λ f e₀ h₀.
              let opened =
                open_new-IsBooked d sha256 execution price (directed delta r) f b booked.keys h₀ in
              let nonzero : entry d after ≡ some (directed delta r) =
                rw (sym (left n)) (entry-some d (directed delta r) (directed_nonzero delta r n)) in
              rw (nonzero) (IsBooked-trans d execution.action.asset booked opened))
      ]

  sub_self : (a : d.Value) {r : d.Value} → d.checked_sub a a ≡ some r → r ≡ d.zero
  sub_self a h = let e = sym (d.sub-add a a ∙ d.add-neg a) ∙ h in cc

  -- The fill is at most the position: what results is what is left of the episode.
  partial_close :
      (current delta : d.Value) {shorter after : d.Value}
      → current ≢ d.zero
      → delta ≢ d.zero
      → same_sign d (d.is_sign_positive current) (d.is_sign_positive delta) ≡ false
      → d.checked_add current
          (if d.is_sign_positive current then d.neg (d.abs delta) else d.abs delta)
        ≡ some shorter
      → d.checked_add current delta ≡ some after
      → shorter ≡ after
  partial_close current delta nz n other taken sum =
      let e = rw (close_part d current delta nz n other) at taken in cc

  full_close :
      (current : d.Value) {shorter : d.Value}
      → current ≢ d.zero
      → d.checked_add current
          (if d.is_sign_positive current then d.neg (d.abs current) else d.abs current)
        ≡ some shorter
      → shorter ≡ d.zero
  full_close current nz taken =
      let e = rw (close_all d current nz) at taken in let f = d.add-neg current in cc

  pub close_or_flip-IsBooked :
      (execution : ShadowExecution d) (price delta after : d.Value) (closed_at : ℕ)
      (o : OpenEpisode d) (book : EpisodeBook d) {c : EpisodeBook d}
      → IsMap book.opened
      → get execution.action.asset book.opened ≡ some o
      → o.signed_quantity ≢ d.zero
      → delta ≢ d.zero
      → d.checked_add o.signed_quantity delta ≡ some after
      → same_sign d (d.is_sign_positive o.signed_quantity) (d.is_sign_positive delta) ≡ false
      → close_or_flip d sha256 execution price delta closed_at book ≡ ok c
      → IsBooked d execution.action.asset (entry d after) book c
  unfolding close_or_flip
  close_or_flip-IsBooked execution price delta after closed_at o book {c} keys found nz n sum other
        h =
      let asset = execution.action.asset in
      let closing = min d (d.abs delta) (d.abs o.signed_quantity) in
      let start = rw (found, close_or_flip) at h in
      checked-ok d (d.checked_div closing (d.abs delta)) "closing fraction" _ start
        (λ fraction e₀ h₀.
          >>=-ok (reduce d o execution price closing fraction) _ h₀ (λ shorter e₁ h₁.
            >>=-ok
              (if is_zero d shorter.signed_quantity
                then finish_episode d asset closed_at
                    (record book { opened = insert asset shorter book.opened })
                else ok (record book { opened = insert asset shorter book.opened }))
              _ h₁
              (λ b e₂ h₂.
                checked-ok d (d.checked_sub (d.abs delta) closing) "flip residual" _ h₂ (λ r e₃ h₃.
                  let booked = settled-IsBooked asset closed_at shorter book keys e₂ in
                  let taken = reduce-quantity d o execution price closing fraction e₁ in
                  elim (Bool-cases (d.leb (d.abs delta) (d.abs o.signed_quantity))) [
                    | inl le ↦
                        let left : shorter.signed_quantity ≡ after =
                          partial_close o.signed_quantity delta nz n other (rw (le) at taken) sum in
                        let none_left : r ≡ d.zero = sub_self (d.abs delta) (rw (le) at e₃) in
                        flip-IsBooked execution price delta r fraction after booked
                          (λ z. ap (entry d) left) (λ k. absurd (k none_left)) h₃
                    | inr gt ↦
                        let gone : shorter.signed_quantity ≡ d.zero =
                          full_close o.signed_quantity nz (rw (gt) at taken) in
                        let rest : directed delta r ≡ after =
                          flip_rest d o.signed_quantity delta nz n other (rw (gt) at e₃) sum in
                        flip-IsBooked execution price delta r fraction after booked
                          (λ z.
                            entry_zero d shorter.signed_quantity gone
                            ∙ sym (entry_zero d after (sym rest ∙ directed_zero delta r z)))
                          (λ k. rest) h₃
                  ]))))
