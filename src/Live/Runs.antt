-- ===== src/Live/Runs.antt =====
-- A fill and a funding event keep what `load` tests of a state.
use hyperliquid.Base.{
  ℕ, ◌≡◌, Bool, true, false, ◌||◌, List, ok, >>=-ok, ok_injective, fail_if, map, arith, inl, inr,
  Bool-cases, refl, ◌∙◌, subst, any,
}
use hyperliquid.BTreeMap.{string_ord, nat_ord, contains}
use hyperliquid.Decimal.{Decimal}
use hyperliquid.Lifecycle.{same_text}
use hyperliquid.Shadow.{signed}
use hyperliquid.Ledger.{invalid_live_event}
use hyperliquid.Ledger.Books.{checked-ok}
use hyperliquid.Ledger.Dual.{portfolio_position, apply_portfolio_funding}
use hyperliquid.Ledger.Steps.{funding-IsSound}
use hyperliquid.Live.{identity_ord, VerifiedExchangeFill, VerifiedFundingEvent, LiveTradingState}
use hyperliquid.Live.Fills.{
  AppliedFillResult, AppliedFundingResult, validate_fill, slippage_of, settle, book_execution,
  take_fill, apply_exchange_fill, execution_of, same_fill, same_event,
}
use hyperliquid.Live.Fills.Funding.{take_funding, apply_funding_event}
use hyperliquid.Live.Laws.{
  add-IsCollected, map-append, IsLive, settle-IsKept, book_execution-IsKept,
}

pub checked_test : {E : Type 0} (b : Bool) (e : E) {u : Unit {0}} → fail_if b e ≡ ok u → b ≡ false
checked_test true e h = absurd (cc)
checked_test false e h = refl

module _ (d : Decimal) (sha256 : List ℕ → ℕ) where
  take_fill-IsLive :
      (fill : VerifiedExchangeFill d) (state : LiveTradingState d)
      {r : LiveTradingState d × AppliedFillResult d}
      → IsLive d state
      → contains fill.identity state.applied_fills ≡ false
      → take_fill d sha256 fill state ≡ ok r
      → IsLive d r.0
  unfolding take_fill
  take_fill-IsLive fill state {r} live fresh h =
      let before = portfolio_position d fill.asset state.ledger in
      checked-ok d (d.checked_add before (signed d fill.side fill.filled_quantity)) "live position"
        _ h
        (λ after e₀ h₀.
          checked-ok d (d.checked_mul fill.filled_quantity fill.average_fill_price)
            "live filled notional" _ h₀
            (λ notional e₁ h₁. >>=-ok (slippage_of d fill) _ h₁ (λ slippage e₂ h₂.
              let x = execution_of d sha256 fill notional slippage before after in
              >>=-ok (book_execution d sha256 fill x state) _ h₂ (λ booked e₃ h₃.
                >>=-ok (settle d booked.1 booked.0) _ h₃ (λ settled e₄ h₄.
                  >>=-ok
                    (fail_if
                      (d.leb fill.exchange_equity_after d.zero
                        || d.leb settled.settled_equity d.zero)
                      (invalid_live_event "equity became nonpositive"))
                    _ h₄
                    (λ u e₅ h₅.
                      let b = book_execution-IsKept d sha256 fill x state e₃ in
                      let s = settle-IsKept d booked.1 booked.0 e₄ in
                      let positive = checked_test _ _ e₅ in
                      subst (λ q. IsLive d q.0) (ok_injective h₅)
                        (record {
                          schema = s.schema ∙ b.schema ∙ live.schema;
                          starting = rw (s.starting, b.starting) live.starting;
                          current = ground arith;
                          settled = ground arith;
                          deployment = refl;
                          ledger = s.ledger (b.ledger live.ledger);
                          fills =
                              rw
                                (
                                  s.fill_events,
                                  b.fill_events,
                                  s.applied_fills,
                                  b.applied_fills,
                                  map-append (λ e. e.identity) state.fill_events _,
                                )
                                (add-IsCollected (map (λ e. e.identity) state.fill_events)
                                  fill.identity state.applied_fills fresh live.fills);
                          funding =
                              rw
                                (
                                  s.funding_events, b.funding_events, s.applied_funding,
                                  b.applied_funding,
                                )
                                live.funding;
                        })))))))

  -- A fill that was applied before, or whose payload is refused, leaves the state.
  pub fill-IsLive :
      (fill : VerifiedExchangeFill d) (state : LiveTradingState d)
      {r : LiveTradingState d × AppliedFillResult d}
      → IsLive d state
      → apply_exchange_fill d sha256 fill state ≡ ok r
      → IsLive d r.0
  unfolding apply_exchange_fill
  fill-IsLive fill state live h = >>=-ok (validate_fill d fill) _ h (λ u e₀ h₀.
      elim (Bool-cases (contains fill.identity state.applied_fills)) [
        | inr fresh ↦ take_fill-IsLive fill state live fresh (rw (fresh) at h₀)
        | inl known ↦ elim (Bool-cases (any (λ f. same_fill d f fill) state.verified_fills)) [
          | inl same ↦ subst (λ q. IsLive d q.0) (ok_injective (rw (known, same) at h₀)) live
          | inr other ↦ absurd (let z = rw (known, other) at h₀ in cc)
        ]
      ])

  take_funding-IsLive :
      (event : VerifiedFundingEvent d) (state : LiveTradingState d)
      {r : LiveTradingState d × AppliedFundingResult d}
      → IsLive d state
      → contains event.event_id state.applied_funding ≡ false
      → take_funding d event state ≡ ok r
      → IsLive d r.0
  unfolding take_funding
  take_funding-IsLive event state {r} live fresh h =
      >>=-ok (apply_portfolio_funding d event.asset (d.neg event.amount) state.ledger) _ h
        (λ ledger e₀ h₀.
          checked-ok d (d.checked_add state.current_equity event.amount) "funding equity" _ h₀
            (λ current e₁ h₁.
              >>=-ok
                (fail_if (d.leb current d.zero)
                  (invalid_live_event "funding made equity nonpositive"))
                _ h₁
                (λ u e₂ h₂.
                  subst (λ q. IsLive d q.0) (ok_injective h₂)
                    (record {
                      schema = live.schema;
                      starting = live.starting;
                      current = checked_test _ _ e₂;
                      settled = live.settled;
                      deployment = refl;
                      ledger =
                          funding-IsSound d sha256 event.asset (d.neg event.amount) state.ledger
                            live.ledger e₀;
                      fills = live.fills;
                      funding = rw (map-append (λ e. e.event.event_id) state.funding_events _) (
                          add-IsCollected (map (λ e. e.event.event_id) state.funding_events)
                            event.event_id state.applied_funding fresh live.funding);
                    }))))

  pub funding-IsLive :
      (event : VerifiedFundingEvent d) (state : LiveTradingState d)
      {r : LiveTradingState d × AppliedFundingResult d}
      → IsLive d state
      → apply_funding_event d event state ≡ ok r
      → IsLive d r.0
  unfolding apply_funding_event
  funding-IsLive event state live h =
      >>=-ok (fail_if (same_text event.asset "") (invalid_live_event "funding asset is empty")) _ h
        (λ u e₀ h₀. elim (Bool-cases (contains event.event_id state.applied_funding)) [
          | inr fresh ↦ take_funding-IsLive event state live fresh (rw (fresh) at h₀)
          | inl known ↦ elim (Bool-cases (any (λ e. same_event d e event) state.verified_funding)) [
            | inl same ↦ subst (λ q. IsLive d q.0) (ok_injective (rw (known, same) at h₀)) live
            | inr other ↦ absurd (let z = rw (known, other) at h₀ in cc)
          ]
        ])
