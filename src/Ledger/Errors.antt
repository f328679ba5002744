-- ===== src/Ledger/Errors.antt =====
-- The errors of `EpisodeBook::apply` on what `execute_shadow_ioc` made from the position of the book.
use hyperliquid.Base.{
  ℕ, ◌≡◌, Option, none, some, List, String, Result, ok, err, ◌>>=◌, ok_or, checked_add, u64_mod,
  inl, inr, Bool-cases, Option-cases, refl, ap, if◌then◌else◌,
}
use hyperliquid.BTreeMap.{string_ord, get, insert, get-insert-same}
use hyperliquid.Decimal.{Decimal, is_zero, min}
use hyperliquid.Shadow.{ShadowExecution}
use hyperliquid.Ledger.{
  LedgerError, arithmetic_overflow, OpenEpisode, EpisodeBook, checked, add_fraction, add_costs,
  price_gain, extend, reduce, net_of, finish_episode,
}
use hyperliquid.Ledger.Executions.{open_new, add_same_direction, flip, close_or_flip}

module _ (d : Decimal) where
  -- The one error is an overflow of an arithmetic operation.
  abbrev pub IsArithmetic {ℓ} : {A : Type ℓ} → Result LedgerError A → Type ℓ
  IsArithmetic r = (e : LedgerError) → r ≡ err e → (s : String) × (e ≡ arithmetic_overflow s)

  pub ok-IsArithmetic :
      {A : Type 0} (a : A) → IsArithmetic (let r : Result LedgerError A = ok a in r)
  ok-IsArithmetic a e h = absurd (cc)

  pub >>=-IsArithmetic :
      {A B : Type 0} (m : Result LedgerError A) (f : A → Result LedgerError B)
      → IsArithmetic m
      → ((a : A) → m ≡ ok a → IsArithmetic (f a))
      → IsArithmetic (m >>= f)
  >>=-IsArithmetic (ok a) f h k = k a refl
  >>=-IsArithmetic (err x) f h k = λ e q. let f : x ≡ e = cc in h e (ap err f)

  pub ok_or-IsArithmetic :
      {A B : Type 0} (o : Option A) (s : String) (f : A → Result LedgerError B)
      → ((v : A) → IsArithmetic (f v))
      → IsArithmetic (ok_or o (arithmetic_overflow s) >>= f)
  ok_or-IsArithmetic none s f k = λ e q. (s, cc)
  ok_or-IsArithmetic (some v) s f k = k v

  pub last-IsArithmetic : (o : Option d.Value) (s : String) → IsArithmetic (checked d o s)
  last-IsArithmetic none s = λ e q. (s, cc)
  last-IsArithmetic (some v) s = λ e q. absurd (cc)

  add_fraction-IsArithmetic : (a b c : d.Value) (s : String) → IsArithmetic (add_fraction d a b c s)
  unfolding add_fraction
  add_fraction-IsArithmetic a b c s =
      ok_or-IsArithmetic (d.checked_mul b c) s _ (λ v. last-IsArithmetic (d.checked_add a v) s)

  add_costs-IsArithmetic :
      (o : OpenEpisode d) (x : ShadowExecution d) (f : d.Value) → IsArithmetic (add_costs d o x f)
  unfolding add_costs
  add_costs-IsArithmetic o x f =
      >>=-IsArithmetic (add_fraction d o.fees x.fees f "fees") _
        (add_fraction-IsArithmetic o.fees x.fees f "fees")
        (λ a e.
          >>=-IsArithmetic (add_fraction d o.funding x.funding f "funding") _
            (add_fraction-IsArithmetic o.funding x.funding f "funding")
            (λ b g.
              >>=-IsArithmetic (add_fraction d o.slippage x.slippage f "slippage") _
                (add_fraction-IsArithmetic o.slippage x.slippage f "slippage")
                (λ c h. ok-IsArithmetic _)))

  extend-IsArithmetic :
      (o : OpenEpisode d) (x : ShadowExecution d) (price delta : d.Value)
      → IsArithmetic (extend d o x price delta)
  unfolding extend
  extend-IsArithmetic o x price delta =
      let old_quantity = d.abs o.signed_quantity in
      let added = d.abs delta in
      ok_or-IsArithmetic (d.checked_add old_quantity added) "episode quantity" _ (λ total.
        ok_or-IsArithmetic (d.checked_mul old_quantity o.average_entry_price) "entry value" _
          (λ old. ok_or-IsArithmetic (d.checked_mul added price) "entry value" _ (λ new.
            ok_or-IsArithmetic (d.checked_add old new) "average entry" _ (λ value.
              ok_or-IsArithmetic (d.checked_div value total) "average entry" _ (λ average.
                ok_or-IsArithmetic (d.checked_add o.signed_quantity delta) "episode quantity" _
                  (λ q.
                    ok_or-IsArithmetic (d.checked_add o.entry_notional new) "entry notional" _
                      (λ notional. add_costs-IsArithmetic _ x d.one)))))))

  reduce-IsArithmetic :
      (o : OpenEpisode d) (x : ShadowExecution d) (price closing fraction : d.Value)
      → IsArithmetic (reduce d o x price closing fraction)
  unfolding reduce
  reduce-IsArithmetic o x price closing fraction =
      let gained = price_gain d o.signed_quantity o.average_entry_price price in
      let left = if d.is_sign_positive o.signed_quantity then d.neg closing else closing in
      ok_or-IsArithmetic gained "realized pnl" _ (λ gain.
        ok_or-IsArithmetic (d.checked_mul gain closing) "realized pnl" _ (λ pnl.
          ok_or-IsArithmetic (d.checked_add o.realized_pnl pnl) "realized pnl" _ (λ realized.
            ok_or-IsArithmetic (d.checked_mul price closing) "exit notional" _ (λ value.
              ok_or-IsArithmetic (d.checked_add o.exit_notional value) "exit notional" _ (λ exit.
                >>=-IsArithmetic
                  (add_costs d (record o { realized_pnl = realized; exit_notional = exit }) x
                    fraction)
                  _ (add_costs-IsArithmetic _ x fraction)
                  (λ c e.
                    ok_or-IsArithmetic (d.checked_add o.signed_quantity left) "episode close" _
                      (λ q. ok-IsArithmetic _)))))))

  net_of-IsArithmetic : (o : OpenEpisode d) → IsArithmetic (net_of d o)
  unfolding net_of
  net_of-IsArithmetic o = ok_or-IsArithmetic (d.checked_sub o.realized_pnl o.fees) "net pnl" _ (λ a.
      ok_or-IsArithmetic (d.checked_sub a o.funding) "net pnl" _
        (λ b. last-IsArithmetic (d.checked_sub b o.slippage) "net pnl"))

  finish_episode-IsArithmetic :
      (asset : String) (closed_at : ℕ) (o : OpenEpisode d) (book : EpisodeBook d)
      → get asset book.opened ≡ some o
      → IsArithmetic (finish_episode d asset closed_at book)
  unfolding finish_episode
  finish_episode-IsArithmetic asset closed_at o book found =
      rw (found, finish_episode)
        (>>=-IsArithmetic (net_of d o) _ (net_of-IsArithmetic o) (λ net e. ok-IsArithmetic _))

  settled-IsArithmetic :
      (asset : String) (closed_at : ℕ) (o : OpenEpisode d) (book : EpisodeBook d)
      → IsArithmetic (
          if is_zero d o.signed_quantity
          then finish_episode d asset closed_at
              (record book { opened = insert asset o book.opened })
          else ok (record book { opened = insert asset o book.opened }))
  settled-IsArithmetic asset closed_at o book = elim (Bool-cases (is_zero d o.signed_quantity)) [
    | inl z ↦ rw (z) (
        finish_episode-IsArithmetic asset closed_at o
          (record book { opened = insert asset o book.opened })
          (get-insert-same asset o book.opened))
    | inr n ↦ rw (n) (ok-IsArithmetic _)
  ]

  module _ (sha256 : List ℕ → ℕ) where
    open_new-IsArithmetic :
        (x : ShadowExecution d) (price quantity fraction : d.Value) (book : EpisodeBook d)
        → IsArithmetic (open_new d sha256 x price quantity fraction book)
    unfolding open_new
    open_new-IsArithmetic x price quantity fraction book =
        ok_or-IsArithmetic (checked_add u64_mod book.next_episode_sequence 1) "episode sequence" _
          (λ following.
            ok_or-IsArithmetic (d.checked_mul (d.abs quantity) price) "entry notional" _
              (λ notional.
                >>=-IsArithmetic (add_costs d _ x fraction) _ (add_costs-IsArithmetic _ x fraction)
                  (λ o g. ok-IsArithmetic _)))

    flip-IsArithmetic :
        (x : ShadowExecution d) (price delta r fraction : d.Value) (book : EpisodeBook d)
        → IsArithmetic (flip d sha256 x price delta r fraction book)
    unfolding flip
    flip-IsArithmetic x price delta r fraction book = elim (Bool-cases (is_zero d r)) [
      | inl z ↦ rw (z, flip) (ok-IsArithmetic _)
      | inr n ↦
          rw (n, flip)
            (ok_or-IsArithmetic (d.checked_sub d.one fraction) "residual fraction" _
              (λ f. open_new-IsArithmetic x price _ f book))
    ]

    pub close_or_flip-IsArithmetic :
        (x : ShadowExecution d) (price delta : d.Value) (closed_at : ℕ) (o : OpenEpisode d)
        (book : EpisodeBook d)
        → get x.action.asset book.opened ≡ some o
        → IsArithmetic (close_or_flip d sha256 x price delta closed_at book)
    unfolding close_or_flip
    close_or_flip-IsArithmetic x price delta closed_at o book found =
        let asset = x.action.asset in
        let closing = min d (d.abs delta) (d.abs o.signed_quantity) in
        rw (found, close_or_flip)
          (ok_or-IsArithmetic (d.checked_div closing (d.abs delta)) "closing fraction" _
            (λ fraction.
              >>=-IsArithmetic (reduce d o x price closing fraction) _
                (reduce-IsArithmetic o x price closing fraction)
                (λ shorter e.
                  >>=-IsArithmetic
                    (if is_zero d shorter.signed_quantity
                      then finish_episode d asset closed_at
                          (record book { opened = insert asset shorter book.opened })
                      else ok (record book { opened = insert asset shorter book.opened }))
                    _ (settled-IsArithmetic asset closed_at shorter book)
                    (λ b g.
                      ok_or-IsArithmetic (d.checked_sub (d.abs delta) closing) "flip residual" _
                        (λ r. flip-IsArithmetic x price delta r fraction b)))))

    pub add_same_direction-IsArithmetic :
        (x : ShadowExecution d) (price delta : d.Value) (book : EpisodeBook d)
        → IsArithmetic (add_same_direction d sha256 x price delta book)
    unfolding add_same_direction
    add_same_direction-IsArithmetic x price delta book =
        elim (Option-cases (get x.action.asset book.opened)) [
          | inl e ↦ rw (e, add_same_direction) (open_new-IsArithmetic x price delta d.one book)
          | inr (o, e) ↦
              rw (e, add_same_direction)
                (>>=-IsArithmetic (extend d o x price delta) _ (extend-IsArithmetic o x price delta)
                  (λ longer f. ok-IsArithmetic _))
        ]
