-- ===== src/Live/Later.antt =====
-- A fill that a state knows is known in every later state.
use hyperliquid.Base.{
  ℕ, ◌≡◌, Bool, true, ◌||◌, List, [], ◌∷◌, ◌++◌, String, ok, >>=-ok, ok_injective, fail_if, arith,
  inl, inr, Bool-cases, refl, subst, any, ltb,
}
use hyperliquid.BTreeMap.{Ord, string_ord, nat_ord, BTreeSet, contains, add, get-insert}
use hyperliquid.Decimal.{Decimal}
use hyperliquid.Lifecycle.{same_text}
use hyperliquid.Shadow.{signed}
use hyperliquid.Ledger.{invalid_live_event}
use hyperliquid.Ledger.Books.{checked-ok}
use hyperliquid.Ledger.Dual.{portfolio_position, apply_portfolio_funding}
use hyperliquid.Live.{
  identity_ord, VerifiedExchangeFill, VerifiedFundingEvent, LiveTradingState,
  StrategyComponentAttribution, validate_attribution,
}
use hyperliquid.Live.Cursors.{
  reconcile_equity, advance_fill_cursor, advance_funding_cursor, set_strategy_attribution,
}
use hyperliquid.Live.Fills.{
  AppliedFillResult, AppliedFundingResult, validate_fill, slippage_of, settle, book_execution,
  take_fill, apply_exchange_fill, execution_of, same_fill, same_event,
}
use hyperliquid.Live.Fills.Funding.{take_funding, apply_funding_event}
use hyperliquid.Live.Laws.{settle-IsKept, book_execution-IsKept}

contains-add-other :
    {K : Type 0} ⦃o : Ord K⦄ (k j : K) (s : BTreeSet K)
    → contains j s ≡ true
    → contains j (add k s) ≡ true
contains-add-other k j s h = let i₁ = get-insert k j tt s in ground arith

any-append :
    {A : Type 0} (p : A → Bool) (xs ys : List A) → any p xs ≡ true → any p (xs ++ ys) ≡ true
any-append p [] ys h = absurd (cc)
any-append p (x ∷ xs) ys h = elim (Bool-cases (p x)) [
  | inl e ↦ rw (e) refl
  | inr n ↦ let rest = any-append p xs ys (rw (n) at h) in rw (n) rest
]

module _ (d : Decimal) (sha256 : List ℕ → ℕ) where
  -- What later operations, of which none is refused, make of a state.
  pub data Later (s₀ : LiveTradingState d) : LiveTradingState d → Type 0 where
    now : Later s₀ s₀
    then_filled :
        {s : LiveTradingState d} (f : VerifiedExchangeFill d)
        (r : LiveTradingState d × AppliedFillResult d)
        → Later s₀ s
        → apply_exchange_fill d sha256 f s ≡ ok r
        → Later s₀ r.0
    then_funded :
        {s : LiveTradingState d} (e : VerifiedFundingEvent d)
        (r : LiveTradingState d × AppliedFundingResult d)
        → Later s₀ s
        → apply_funding_event d e s ≡ ok r
        → Later s₀ r.0
    then_reconciled :
        {s t : LiveTradingState d} (v : d.Value)
        → Later s₀ s
        → reconcile_equity d v s ≡ ok t
        → Later s₀ t
    then_moved_fill_cursor :
        {s t : LiveTradingState d} (cursor : ℕ)
        → Later s₀ s
        → advance_fill_cursor d cursor s ≡ ok t
        → Later s₀ t
    then_moved_funding_cursor :
        {s t : LiveTradingState d} (cursor : ℕ)
        → Later s₀ s
        → advance_funding_cursor d cursor s ≡ ok t
        → Later s₀ t
    then_attributed :
        {s t : LiveTradingState d} (asset : String) (a : StrategyComponentAttribution d)
        → Later s₀ s
        → set_strategy_attribution d asset a s ≡ ok t
        → Later s₀ t

  module _ (fill : VerifiedExchangeFill d) where
    -- The identity of the fill is entered, and its payload kept.
    abbrev pub Knows : LiveTradingState d → Type 0
    Knows s =
        (contains fill.identity s.applied_fills ≡ true)
        × (any (λ f. same_fill d f fill) s.verified_fills ≡ true)

    take_fill-Knows :
        (f : VerifiedExchangeFill d) (s : LiveTradingState d)
        {t : LiveTradingState d × AppliedFillResult d}
        → Knows s
        → take_fill d sha256 f s ≡ ok t
        → Knows t.0
    unfolding take_fill
    take_fill-Knows f s {t} k h =
        let before = portfolio_position d f.asset s.ledger in
        checked-ok d (d.checked_add before (signed d f.side f.filled_quantity)) "live position" _ h
          (λ after e₀ h₀.
            checked-ok d (d.checked_mul f.filled_quantity f.average_fill_price)
              "live filled notional" _ h₀
              (λ notional e₁ h₁. >>=-ok (slippage_of d f) _ h₁ (λ slippage e₂ h₂.
                let x = execution_of d sha256 f notional slippage before after in
                >>=-ok (book_execution d sha256 f x s) _ h₂ (λ booked e₃ h₃.
                  >>=-ok (settle d booked.1 booked.0) _ h₃ (λ settled e₄ h₄.
                    >>=-ok
                      (fail_if
                        (d.leb f.exchange_equity_after d.zero
                          || d.leb settled.settled_equity d.zero)
                        (invalid_live_event "equity became nonpositive"))
                      _ h₄
                      (λ u e₅ h₅.
                        let b = book_execution-IsKept d sha256 f x s e₃ in
                        let q = settle-IsKept d booked.1 booked.0 e₄ in
                        subst (λ y. Knows y.0) (ok_injective h₅)
                          (
                            rw (q.applied_fills, b.applied_fills)
                                (contains-add-other f.identity fill.identity s.applied_fills k.0),
                            rw (q.verified_fills, b.verified_fills)
                                (any-append (λ f. same_fill d f fill) s.verified_fills (f ∷ [])
                                  k.1),
                          )))))))

    filled-Knows :
        (f : VerifiedExchangeFill d) (s : LiveTradingState d)
        {t : LiveTradingState d × AppliedFillResult d}
        → Knows s
        → apply_exchange_fill d sha256 f s ≡ ok t
        → Knows t.0
    unfolding apply_exchange_fill
    filled-Knows f s k h = >>=-ok (validate_fill d f) _ h (λ u e₀ h₀.
        elim (Bool-cases (contains f.identity s.applied_fills)) [
          | inr fresh ↦ take_fill-Knows f s k (rw (fresh) at h₀)
          | inl known ↦ elim (Bool-cases (any (λ g. same_fill d g f) s.verified_fills)) [
            | inl same ↦ subst (λ q. Knows q.0) (ok_injective (rw (known, same) at h₀)) k
            | inr other ↦ absurd (let z = rw (known, other) at h₀ in cc)
          ]
        ])

    take_funding-Knows :
        (event : VerifiedFundingEvent d) (s : LiveTradingState d)
        {t : LiveTradingState d × AppliedFundingResult d}
        → Knows s
        → take_funding d event s ≡ ok t
        → Knows t.0
    unfolding take_funding
    take_funding-Knows event s {t} k h =
        >>=-ok (apply_portfolio_funding d event.asset (d.neg event.amount) s.ledger) _ h
          (λ ledger e₀ h₀.
            checked-ok d (d.checked_add s.current_equity event.amount) "funding equity" _ h₀
              (λ current e₁ h₁.
                >>=-ok
                  (fail_if (d.leb current d.zero)
                    (invalid_live_event "funding made equity nonpositive"))
                  _ h₁ (λ u e₂ h₂. subst (λ q. Knows q.0) (ok_injective h₂) k)))

    funded-Knows :
        (event : VerifiedFundingEvent d) (s : LiveTradingState d)
        {t : LiveTradingState d × AppliedFundingResult d}
        → Knows s
        → apply_funding_event d event s ≡ ok t
        → Knows t.0
    unfolding apply_funding_event
    funded-Knows event s k h =
        >>=-ok (fail_if (same_text event.asset "") (invalid_live_event "funding asset is empty")) _
          h
          (λ u e₀ h₀. elim (Bool-cases (contains event.event_id s.applied_funding)) [
            | inr fresh ↦ take_funding-Knows event s k (rw (fresh) at h₀)
            | inl known ↦ elim (Bool-cases (any (λ e. same_event d e event) s.verified_funding)) [
              | inl same ↦ subst (λ q. Knows q.0) (ok_injective (rw (known, same) at h₀)) k
              | inr other ↦ absurd (let z = rw (known, other) at h₀ in cc)
            ]
          ])

    pub Later-Knows : {s t : LiveTradingState d} → Knows s → Later s t → Knows t
    unfolding reconcile_equity advance_fill_cursor advance_funding_cursor set_strategy_attribution
    Later-Knows k now = k
    Later-Knows k (then_filled {s} f r before h) = filled-Knows f s (Later-Knows k before) h
    Later-Knows k (then_funded {s} e r before h) = funded-Knows e s (Later-Knows k before) h
    Later-Knows k (then_reconciled {s} v before h) =
        let still = Later-Knows k before in
        >>=-ok (fail_if (d.leb v d.zero) (invalid_live_event "exchange equity must be positive")) _
          h (λ u e₀ h₀. subst Knows (ok_injective h₀) still)
    Later-Knows k (then_moved_fill_cursor {s} cursor before h) =
        let still = Later-Knows k before in
        >>=-ok
          (fail_if (ltb cursor s.fill_cursor_ms)
            (invalid_live_event "fill cursor cannot move backwards"))
          _ h (λ u e₀ h₀. subst Knows (ok_injective h₀) still)
    Later-Knows k (then_moved_funding_cursor {s} cursor before h) =
        let still = Later-Knows k before in
        >>=-ok
          (fail_if (ltb cursor s.funding_cursor_ms)
            (invalid_live_event "funding cursor cannot move backwards"))
          _ h (λ u e₀ h₀. subst Knows (ok_injective h₀) still)
    Later-Knows k (then_attributed {s} asset a before h) =
        let still = Later-Knows k before in
        >>=-ok (validate_attribution d a) _ h (λ u e₀ h₀. subst Knows (ok_injective h₀) still)
