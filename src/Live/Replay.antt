-- ===== src/Live/Replay.antt =====
-- A fill or a funding event that arrives again.
use hyperliquid.Base.{
  ℕ, ◌≡◌, Bool, true, false, ◌||◌, List, [], ◌∷◌, ◌++◌, ok, >>=-ok, ok_injective, fail_if, arith,
  inl, inr, Bool-cases, refl, ap, subst, any,
}
use mathlib.Core.Logic.{if_pos}
use hyperliquid.BTreeMap.{
  Ord, string_ord, nat_ord, BTreeSet, contains, add, is_some, get-insert-same,
}
use hyperliquid.Decimal.{Decimal}
use hyperliquid.Lifecycle.{same_text}
use hyperliquid.Shadow.{signed}
use hyperliquid.Ledger.{invalid_live_event}
use hyperliquid.Ledger.Books.{checked-ok}
use hyperliquid.Ledger.Dual.{portfolio_position, apply_portfolio_funding}
use hyperliquid.Live.{
  identity_ord, VerifiedExchangeFill, VerifiedExchangeFill-discrete, VerifiedFundingEvent,
  VerifiedFundingEvent-discrete, LiveTradingState,
}
use hyperliquid.Live.Fills.{
  AppliedFillResult, AppliedFundingResult, validate_fill, slippage_of, settle, book_execution,
  take_fill, apply_exchange_fill, execution_of, same_fill, same_event,
}
use hyperliquid.Live.Fills.Funding.{take_funding, apply_funding_event}
use hyperliquid.Live.Later.{Later, Knows, Later-Knows}

contains-add : {K : Type 0} ⦃o : Ord K⦄ (k : K) (s : BTreeSet K) → contains k (add k s) ≡ true
contains-add k s = ap is_some (get-insert-same k tt s)

any-append-last :
    {A : Type 0} (p : A → Bool) (xs : List A) (x : A) → p x ≡ true → any p (xs ++ x ∷ []) ≡ true
any-append-last p [] x h = rw (h) refl
any-append-last p (y ∷ xs) x h = rw (any-append-last p xs x h) (ground arith)

module _ (d : Decimal) (sha256 : List ℕ → ℕ) where
  same_fill_refl : (f : VerifiedExchangeFill d) → same_fill d f f ≡ true
  same_fill_refl f = if_pos (VerifiedExchangeFill-discrete d f f) refl true false

  same_event_refl : (e : VerifiedFundingEvent d) → same_event d e e ≡ true
  same_event_refl e = if_pos (VerifiedFundingEvent-discrete d e e) refl true false

  take_fill-known :
      (fill : VerifiedExchangeFill d) (s : LiveTradingState d)
      {t : LiveTradingState d × AppliedFillResult d}
      → take_fill d sha256 fill s ≡ ok t
      → (contains fill.identity t.0.applied_fills ≡ true)
        × (any (λ f. same_fill d f fill) t.0.verified_fills ≡ true)
  unfolding take_fill
  take_fill-known fill s {t} h =
      let before = portfolio_position d fill.asset s.ledger in
      checked-ok d (d.checked_add before (signed d fill.side fill.filled_quantity)) "live position"
        _ h
        (λ after e₀ h₀.
          checked-ok d (d.checked_mul fill.filled_quantity fill.average_fill_price)
            "live filled notional" _ h₀
            (λ notional e₁ h₁. >>=-ok (slippage_of d fill) _ h₁ (λ slippage e₂ h₂.
              let x = execution_of d sha256 fill notional slippage before after in
              >>=-ok (book_execution d sha256 fill x s) _ h₂ (λ booked e₃ h₃.
                >>=-ok (settle d booked.1 booked.0) _ h₃ (λ settled e₄ h₄.
                  >>=-ok
                    (fail_if
                      (d.leb fill.exchange_equity_after d.zero
                        || d.leb settled.settled_equity d.zero)
                      (invalid_live_event "equity became nonpositive"))
                    _ h₄
                    (λ u e₅ h₅.
                      subst
                        (λ q.
                          (contains fill.identity q.0.applied_fills ≡ true)
                          × (any (λ f. same_fill d f fill) q.0.verified_fills ≡ true))
                        (ok_injective h₅)
                        (
                          contains-add fill.identity settled.applied_fills,
                          any-append-last (λ f. same_fill d f fill) settled.verified_fills fill
                              (same_fill_refl fill),
                        )))))))

  accepted-Knows :
      (fill : VerifiedExchangeFill d) (s : LiveTradingState d)
      {t : LiveTradingState d × AppliedFillResult d}
      → apply_exchange_fill d sha256 fill s ≡ ok t
      → (validate_fill d fill ≡ ok tt) × Knows d sha256 fill t.0
  unfolding apply_exchange_fill
  accepted-Knows fill s {t} h = >>=-ok (validate_fill d fill) _ h (λ u valid h₀.
      elim (Bool-cases (contains fill.identity s.applied_fills)) [
        | inr fresh ↦ (valid, take_fill-known fill s (rw (fresh) at h₀))
        | inl known ↦ elim (Bool-cases (any (λ f. same_fill d f fill) s.verified_fills)) [
          | inl same ↦ (
            valid,
            subst (λ q. Knows d sha256 fill q.0) (ok_injective (rw (known, same) at h₀))
                (known, same),
          )
          | inr other ↦ absurd (let z = rw (known, other) at h₀ in cc)
        ]
      ])

  -- A fill that was accepted is applied once: when it arrives again, in the state that it led to or in any
  -- state that further accepted operations lead to from there, the answer is that it is applied, and the
  -- state stays.
  pub apply_exchange_fill_idempotent :
      (fill : VerifiedExchangeFill d) (s : LiveTradingState d)
      {t : LiveTradingState d × AppliedFillResult d} {u : LiveTradingState d}
      → apply_exchange_fill d sha256 fill s ≡ ok t
      → Later d sha256 t.0 u
      → apply_exchange_fill d sha256 fill u ≡ ok (u, AppliedFillResult.already_applied)
  unfolding apply_exchange_fill
  apply_exchange_fill_idempotent fill s {t} {u} h later =
      let (valid, knows) = accepted-Knows fill s h in
      let (known, same) = Later-Knows d sha256 fill knows later in rw (valid, known, same) refl

  take_funding-known :
      (event : VerifiedFundingEvent d) (s : LiveTradingState d)
      {t : LiveTradingState d × AppliedFundingResult d}
      → take_funding d event s ≡ ok t
      → (contains event.event_id t.0.applied_funding ≡ true)
        × (any (λ e. same_event d e event) t.0.verified_funding ≡ true)
  unfolding take_funding
  take_funding-known event s {t} h =
      >>=-ok (apply_portfolio_funding d event.asset (d.neg event.amount) s.ledger) _ h
        (λ ledger e₀ h₀.
          checked-ok d (d.checked_add s.current_equity event.amount) "funding equity" _ h₀
            (λ current e₁ h₁.
              >>=-ok
                (fail_if (d.leb current d.zero)
                  (invalid_live_event "funding made equity nonpositive"))
                _ h₁
                (λ u e₂ h₂.
                  subst
                    (λ q.
                      (contains event.event_id q.0.applied_funding ≡ true)
                      × (any (λ e. same_event d e event) q.0.verified_funding ≡ true))
                    (ok_injective h₂)
                    (
                      contains-add event.event_id s.applied_funding,
                      any-append-last (λ e. same_event d e event) s.verified_funding event
                          (same_event_refl event),
                    ))))

  -- A funding event that was accepted is applied once: when it arrives again, in the state that it led
  -- to, the answer is that it is applied, and the state stays.
  apply_funding_event_idempotent :
      (event : VerifiedFundingEvent d) (s : LiveTradingState d)
      {t : LiveTradingState d × AppliedFundingResult d}
      → apply_funding_event d event s ≡ ok t
      → apply_funding_event d event t.0 ≡ ok (t.0, AppliedFundingResult.already_applied)
  unfolding apply_funding_event
  apply_funding_event_idempotent event s {t} h =
      >>=-ok (fail_if (same_text event.asset "") (invalid_live_event "funding asset is empty")) _ h
        (λ u valid h₀. elim (Bool-cases (contains event.event_id s.applied_funding)) [
          | inr fresh ↦
              let (known, same) = take_funding-known event s (rw (fresh) at h₀) in
              rw (valid, known, same) refl
          | inl known ↦ elim (Bool-cases (any (λ e. same_event d e event) s.verified_funding)) [
            | inl same ↦
                let stays = ok_injective (rw (known, same) at h₀) in
                subst
                  (λ q.
                    apply_funding_event d event q.0
                    ≡ ok (q.0, AppliedFundingResult.already_applied))
                  stays (rw (valid, known, same, apply_funding_event) refl)
            | inr other ↦ absurd (let z = rw (known, other) at h₀ in cc)
          ]
        ])
