-- ===== src/Ledger/Equity.antt =====
-- The two valuations of a book agree, and a book whose open episodes have marks has a value.
use hyperliquid.Base.{
  ◌≡◌, Option, none, some, List, [], ◌∷◌, String, Result, ok, err, ◌>>=◌, refl, ap, ◌∙◌,
  if◌then◌else◌, Option-cases, inl, inr, All,
}
use hyperliquid.BTreeMap.{string_ord, BTreeMap, get}
use hyperliquid.Decimal.{and_then, Decimal}
use hyperliquid.Ledger.{LedgerError, PortfolioEpisode, OpenEpisode, checked}
use hyperliquid.Ledger.Dual.{DualLedger}
use hyperliquid.Ledger.Valuation.{
  add_closed, add_open_episode, add_opened, add_book_closed, add_book_episode, add_book_opened,
  equity, portfolio_equity,
}
use hyperliquid.Ledger.Errors.{
  IsArithmetic, ok-IsArithmetic, >>=-IsArithmetic, ok_or-IsArithmetic, last-IsArithmetic,
}

module _ (d : Decimal) where
  -- `Result::ok`
  abbrev pub value : Result LedgerError d.Value → Option d.Value
  value (ok v) = some v
  value (err e) = none

  value-bind :
      (m n : Result LedgerError d.Value) (f g : d.Value → Result LedgerError d.Value)
      → value m ≡ value n
      → ((v : d.Value) → value (f v) ≡ value (g v))
      → value (m >>= f) ≡ value (n >>= g)
  value-bind (ok a) (ok b) f g h k = let e : a ≡ b = cc in ap (λ i. value (f i)) e ∙ k b
  value-bind (ok a) (err e) f g h k = absurd (cc)
  value-bind (err x) (ok b) f g h k = absurd (cc)
  value-bind (err x) (err e) f g h k = refl

  value-checked :
      (o : Option d.Value) (s t : String) → value (checked d o s) ≡ value (checked d o t)
  value-checked none s t = refl
  value-checked (some v) s t = refl

  value-checked-bind :
      (o : Option d.Value) (s t : String) (f g : d.Value → Result LedgerError d.Value)
      → ((v : d.Value) → value (f v) ≡ value (g v))
      → value (checked d o s >>= f) ≡ value (checked d o t >>= g)
  value-checked-bind none s t f g k = refl
  value-checked-bind (some v) s t f g k = k v

  value-add_closed :
      (closed : List (PortfolioEpisode d)) (a : d.Value)
      → value (add_closed d closed a) ≡ value (add_book_closed d closed a)
  unfolding add_closed add_book_closed
  value-add_closed [] a = refl
  value-add_closed (e ∷ closed) a =
      value-checked-bind (d.checked_add a e.net_pnl) "closed equity" "book equity" _ _
        (λ v. value-add_closed closed v)

  value-add_open_episode :
      (marks : BTreeMap String d.Value) (asset : String) (o : OpenEpisode d) (a : d.Value)
      → value (add_open_episode d marks asset o a) ≡ value (add_book_episode d marks asset o a)
  unfolding add_open_episode add_book_episode
  value-add_open_episode marks asset o a = elim (Option-cases (get asset marks)) [
    | inl e ↦ rw (e, add_open_episode, add_book_episode) refl
    | inr (mark, e) ↦
        rw (e, add_open_episode, add_book_episode)
          (value-checked-bind
            (if d.is_sign_positive o.signed_quantity
              then d.checked_sub mark o.average_entry_price
              else d.checked_sub o.average_entry_price mark)
            "unrealized pnl" "book unrealized pnl" _ _
            (λ v.
              value-checked-bind (d.checked_mul v (d.abs o.signed_quantity)) "unrealized pnl"
                "book unrealized pnl" _ _ (λ u. value-checked _ "open equity" "book open equity")))
  ]

  value-add_opened :
      (marks : BTreeMap String d.Value) (opened : BTreeMap String (OpenEpisode d)) (a : d.Value)
      → value (add_opened d marks opened a) ≡ value (add_book_opened d marks opened a)
  unfolding add_opened add_book_opened
  value-add_opened marks [] a = refl
  value-add_opened marks ((asset, o) ∷ opened) a =
      value-bind (add_open_episode d marks asset o a) (add_book_episode d marks asset o a) _ _
        (value-add_open_episode marks asset o a) (λ v. value-add_opened marks opened v)

  value-last :
      (m : Result LedgerError d.Value) (f : d.Value → Option d.Value) (s : String)
      → value (m >>= λ v. checked d (f v) s) ≡ and_then d (value m) f
  value-last (ok v) f s = elim (Option-cases (f v)) [
    | inl e ↦ rw (e) refl
    | inr (w, e) ↦ rw (e) refl
  ]
  value-last (err e) f s = refl

  bind_assoc :
      (m : Result LedgerError d.Value) (f g : d.Value → Result LedgerError d.Value)
      → (m >>= λ v. f v >>= g) ≡ (m >>= f >>= g)
  bind_assoc (ok v) f g = refl
  bind_assoc (err e) f g = refl

  -- The valuation of the portfolio is the valuation of its book by the loop for the sources, less the
  -- funding that is not booked; the one has a value exactly when the other and the difference have.
  pub portfolio_equity-equity :
      (starting_equity : d.Value) (marks : BTreeMap String d.Value) (unbooked_funding : d.Value)
      (ledger : DualLedger d)
      → value (portfolio_equity d starting_equity marks unbooked_funding ledger)
        ≡ and_then d
            (value (equity d starting_equity marks ledger.portfolio))
            (λ v. d.checked_sub v unbooked_funding)
  unfolding portfolio_equity equity
  portfolio_equity-equity starting_equity marks unbooked_funding ledger =
      let book = ledger.portfolio in
      let closed = add_closed d book.closed starting_equity in
      ap value (
        bind_assoc closed (add_opened d marks book.opened)
          (λ v. checked d (d.checked_sub v unbooked_funding) "unbooked funding"))
      ∙ value-last (closed >>= add_opened d marks book.opened)
          (λ v. d.checked_sub v unbooked_funding) "unbooked funding"
      ∙ ap (λ o. and_then d o (λ v. d.checked_sub v unbooked_funding))
          (value-bind closed (add_book_closed d book.closed starting_equity) _ _
            (value-add_closed book.closed starting_equity)
            (λ v. value-add_opened marks book.opened v))

  add_closed-IsArithmetic :
      (closed : List (PortfolioEpisode d)) (a : d.Value) → IsArithmetic d (add_closed d closed a)
  unfolding add_closed
  add_closed-IsArithmetic [] a = ok-IsArithmetic d a
  add_closed-IsArithmetic (e ∷ closed) a =
      ok_or-IsArithmetic d (d.checked_add a e.net_pnl) "closed equity" _
        (λ v. add_closed-IsArithmetic closed v)

  add_open_episode-IsArithmetic :
      (marks : BTreeMap String d.Value) (asset : String) (o : OpenEpisode d) (a : d.Value)
      → (v : d.Value) × (get asset marks ≡ some v)
      → IsArithmetic d (add_open_episode d marks asset o a)
  unfolding add_open_episode
  add_open_episode-IsArithmetic marks asset o a (mark, e) =
      rw (e, add_open_episode)
        (ok_or-IsArithmetic d _ "unrealized pnl" _ (λ v.
          ok_or-IsArithmetic d (d.checked_mul v (d.abs o.signed_quantity)) "unrealized pnl" _
            (λ u. last-IsArithmetic d _ "open equity")))

  add_opened-IsArithmetic :
      (marks : BTreeMap String d.Value) (opened : BTreeMap String (OpenEpisode d)) (a : d.Value)
      → All (λ e. (v : d.Value) × (get e.0 marks ≡ some v)) opened
      → IsArithmetic d (add_opened d marks opened a)
  unfolding add_opened
  add_opened-IsArithmetic marks [] a h = ok-IsArithmetic d a
  add_opened-IsArithmetic marks ((asset, o) ∷ opened) a h =
      >>=-IsArithmetic d (add_open_episode d marks asset o a) _
        (add_open_episode-IsArithmetic marks asset o a h.0)
        (λ v e. add_opened-IsArithmetic marks opened v h.1)

  -- A portfolio whose open episodes all have a mark has a value, unless an arithmetic operation
  -- overflows.
  pub portfolio_equity-IsArithmetic :
      (starting_equity : d.Value) (marks : BTreeMap String d.Value) (unbooked_funding : d.Value)
      (ledger : DualLedger d)
      → All (λ e. (v : d.Value) × (get e.0 marks ≡ some v)) ledger.portfolio.opened
      → IsArithmetic d (portfolio_equity d starting_equity marks unbooked_funding ledger)
  unfolding portfolio_equity
  portfolio_equity-IsArithmetic starting_equity marks unbooked_funding ledger h =
      let book = ledger.portfolio in
      >>=-IsArithmetic d (add_closed d book.closed starting_equity) _
        (add_closed-IsArithmetic book.closed starting_equity)
        (λ closed e.
          >>=-IsArithmetic d (add_opened d marks book.opened closed) _
            (add_opened-IsArithmetic marks book.opened closed h)
            (λ total f.
              last-IsArithmetic d (d.checked_sub total unbooked_funding) "unbooked funding"))
