-- ===== src/Live/Reach.antt =====
-- Runs of the live accounting: fills, funding, equities, cursors and attributions, in any order.
use hyperliquid.Base.{
  ℕ, ◌≡◌, false, List, String, ok, >>=-ok, ok_injective, fail_if, refl, subst, ltb,
}
use hyperliquid.BTreeMap.{string_ord, nat_ord, BTreeMap, insert}
use hyperliquid.Decimal.{Decimal, min}
use hyperliquid.Ledger.{invalid_live_event}
use hyperliquid.Ledger.Dual.Integrity.{validate_integrity}
use hyperliquid.Ledger.Runs.{sound-validate_integrity}
use hyperliquid.Ledger.Steps.{empty-IsSound}
use hyperliquid.Live.{
  identity_ord, StrategyComponentAttribution, VerifiedExchangeFill, VerifiedFundingEvent,
  LiveTradingState, validate_attribution, collect_set,
}
use hyperliquid.Live.Cursors.{
  new, advance_fill_cursor, advance_funding_cursor, reconcile_equity, set_strategy_attribution,
  check_loaded,
}
use hyperliquid.Live.Fills.{AppliedFillResult, AppliedFundingResult, apply_exchange_fill}
use hyperliquid.Live.Fills.Funding.{apply_funding_event}
use hyperliquid.Live.Laws.{IsLive, live-check_loaded}
use hyperliquid.Live.Runs.{checked_test, fill-IsLive, funding-IsLive}

module _ (d : Decimal) (sha256 : List ℕ → ℕ) where
  min_self : (a : d.Value) → a ≡ min d a a
  min_self a = rw (d.leb_refl a) refl

  -- A state that the operations lead to.
  pub data Reached : LiveTradingState d → Type 0 where
    started :
        {s : LiveTradingState d} (equity : d.Value) (cursor : ℕ)
        → new d equity cursor ≡ ok s
        → Reached s
    filled :
        {s : LiveTradingState d} (f : VerifiedExchangeFill d)
        (r : LiveTradingState d × AppliedFillResult d)
        → Reached s
        → apply_exchange_fill d sha256 f s ≡ ok r
        → Reached r.0
    funded :
        {s : LiveTradingState d} (e : VerifiedFundingEvent d)
        (r : LiveTradingState d × AppliedFundingResult d)
        → Reached s
        → apply_funding_event d e s ≡ ok r
        → Reached r.0
    reconciled :
        {s t : LiveTradingState d} (v : d.Value)
        → Reached s
        → reconcile_equity d v s ≡ ok t
        → Reached t
    moved_fill_cursor :
        {s t : LiveTradingState d} (cursor : ℕ)
        → Reached s
        → advance_fill_cursor d cursor s ≡ ok t
        → Reached t
    moved_funding_cursor :
        {s t : LiveTradingState d} (cursor : ℕ)
        → Reached s
        → advance_funding_cursor d cursor s ≡ ok t
        → Reached t
    attributed :
        {s t : LiveTradingState d} (asset : String) (a : StrategyComponentAttribution d)
        → Reached s
        → set_strategy_attribution d asset a s ≡ ok t
        → Reached t

  new-IsLive :
      (equity : d.Value) (cursor : ℕ) {s : LiveTradingState d}
      → new d equity cursor ≡ ok s
      → IsLive d s
  unfolding new collect_set
  new-IsLive equity cursor h =
      >>=-ok (fail_if (d.leb equity d.zero) (invalid_live_event "starting equity must be positive"))
        _ h
        (λ u e₀ h₀.
          let positive = checked_test _ _ e₀ in
          subst (IsLive d) (ok_injective h₀) (record {
            schema = refl;
            starting = positive;
            current = positive;
            settled = positive;
            deployment = min_self equity;
            ledger = empty-IsSound d sha256;
            fills = record { collected = refl; distinct = refl };
            funding = record { collected = refl; distinct = refl };
          }))

  -- The fields that only the cursors, the attributions or the equity change.
  adjusted-IsLive :
      (s : LiveTradingState d) (current : d.Value) (fill_cursor funding_cursor : ℕ)
      (opened : BTreeMap String (StrategyComponentAttribution d))
      → IsLive d s
      → d.leb current d.zero ≡ false
      → IsLive d (record s {
        current_equity = current;
        deployment_equity = min d current s.settled_equity;
        open_episode_attribution = opened;
        fill_cursor_ms = fill_cursor;
        funding_cursor_ms = funding_cursor;
      })
  adjusted-IsLive s current fill_cursor funding_cursor opened live positive = record {
    schema = live.schema;
    starting = live.starting;
    current = positive;
    settled = live.settled;
    deployment = refl;
    ledger = live.ledger;
    fills = live.fills;
    funding = live.funding;
  }

  moved-IsLive :
      (s : LiveTradingState d) (fill_cursor funding_cursor : ℕ)
      (opened : BTreeMap String (StrategyComponentAttribution d))
      → IsLive d s
      → IsLive d (record s {
        open_episode_attribution = opened;
        fill_cursor_ms = fill_cursor;
        funding_cursor_ms = funding_cursor;
      })
  moved-IsLive s fill_cursor funding_cursor opened live = record {
    schema = live.schema;
    starting = live.starting;
    current = live.current;
    settled = live.settled;
    deployment = live.deployment;
    ledger = live.ledger;
    fills = live.fills;
    funding = live.funding;
  }

  pub reached-IsLive : {s : LiveTradingState d} → Reached s → IsLive d s
  unfolding reconcile_equity advance_fill_cursor advance_funding_cursor set_strategy_attribution
  reached-IsLive (started equity cursor h) = new-IsLive equity cursor h
  reached-IsLive (filled {s} f r before h) = fill-IsLive d sha256 f s (reached-IsLive before) h
  reached-IsLive (funded {s} e r before h) = funding-IsLive d sha256 e s (reached-IsLive before) h
  reached-IsLive (reconciled {s} v before h) =
      let live = reached-IsLive before in
      >>=-ok (fail_if (d.leb v d.zero) (invalid_live_event "exchange equity must be positive")) _ h
        (λ u e₀ h₀. subst (IsLive d) (ok_injective h₀) (
          adjusted-IsLive s v s.fill_cursor_ms s.funding_cursor_ms s.open_episode_attribution live
            (checked_test _ _ e₀)))
  reached-IsLive (moved_fill_cursor {s} cursor before h) =
      let live = reached-IsLive before in
      >>=-ok
        (fail_if (ltb cursor s.fill_cursor_ms)
          (invalid_live_event "fill cursor cannot move backwards"))
        _ h
        (λ u e₀ h₀.
          subst (IsLive d) (ok_injective h₀)
            (moved-IsLive s cursor s.funding_cursor_ms s.open_episode_attribution live))
  reached-IsLive (moved_funding_cursor {s} cursor before h) =
      let live = reached-IsLive before in
      >>=-ok
        (fail_if (ltb cursor s.funding_cursor_ms)
          (invalid_live_event "funding cursor cannot move backwards"))
        _ h
        (λ u e₀ h₀.
          subst (IsLive d) (ok_injective h₀)
            (moved-IsLive s s.fill_cursor_ms cursor s.open_episode_attribution live))
  reached-IsLive (attributed {s} asset a before h) =
      let live = reached-IsLive before in
      >>=-ok (validate_attribution d a) _ h (λ u e₀ h₀. subst (IsLive d) (ok_injective h₀) (
        moved-IsLive s s.fill_cursor_ms s.funding_cursor_ms
          (insert asset a s.open_episode_attribution) live))

  -- A state that the operations lead to passes what `load` tests, so what was stored is read back, and
  -- its ledger passes its own integrity check.
  pub reached-check_loaded :
      {s : LiveTradingState d}
      → Reached s
      → (check_loaded d s ≡ ok s) × (validate_integrity d s.ledger ≡ ok tt)
  reached-check_loaded {s} r =
      let live = reached-IsLive r in
      (live-check_loaded d s live, sound-validate_integrity d s.ledger live.ledger)
