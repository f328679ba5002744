-- ===== src/Live/Laws.antt =====
-- Every state that the handlers lead to passes what `load` tests, and its ledger its own check.
use hyperliquid.Base.{
  ℕ, ◌≡◌, true, false, Option, none, some, List, [], ◌∷◌, ◌++◌, String, ok, >>=-ok, ok_injective,
  ok_or-ok, length, map, arith, inl, inr, Bool-cases, Option-cases, refl, ap, ◌∙◌, subst, ltb, ◌==◌,
  suc, length-append,
}
use hyperliquid.BTreeMap.{
  Ord, string_ord, nat_ord, BTreeMap, BTreeSet, get, insert, remove, contains, add, size,
  size-insert,
}
use hyperliquid.Decimal.{Decimal, min}
use hyperliquid.Shadow.{ShadowExecution}
use hyperliquid.Ledger.{position_divergence, PortfolioEpisode, or_default}
use hyperliquid.Ledger.Books.{checked-ok}
use hyperliquid.Ledger.Dual.{
  DualLedger, apply_portfolio_execution, reconcile_last_portfolio_gross_pnl,
}
use hyperliquid.Ledger.Apply.{differ_none}
use hyperliquid.Ledger.Runs.{IsSound}
use hyperliquid.Ledger.Steps.{portfolio_execution-IsSound, reconciliation-IsSound}
use hyperliquid.Live.{
  identity_ord, StrategyComponentAttribution, VerifiedExchangeFill, LiveTradingState, collect_set,
  same_set,
}
use hyperliquid.Live.Cursors.{check_loaded}
use hyperliquid.Live.Fills.{settle, book_execution}

-- A set is what collecting its distinct members makes.
pub record IsCollected {K : Type 0} ⦃o : Ord K⦄ (ks : List K) (s : BTreeSet K) : Type 0 where
  pub collected : collect_set ks [] ≡ s
  pub distinct : size s ≡ length ks

module _ {K : Type 0} ⦃o : Ord K⦄ where
  collect_set-append :
      (ks : List K) (k : K) (s : BTreeSet K)
      → collect_set (ks ++ k ∷ []) s ≡ add k (collect_set ks s)
  unfolding collect_set
  collect_set-append [] k s = refl
  collect_set-append (j ∷ ks) k s = collect_set-append ks k (add j s)

  pub add-IsCollected :
      (ks : List K) (k : K) (s : BTreeSet K)
      → contains k s ≡ false
      → IsCollected ks s
      → IsCollected (ks ++ k ∷ []) (add k s)
  add-IsCollected ks k s fresh h = record {
    collected = collect_set-append ks k [] ∙ ap (add k) h.collected;
    distinct = rw (length-append ks (k ∷ [])) (ground (arith, size-insert k tt s, h.distinct));
  }

  same_set_refl : (s : BTreeSet K) → same_set s s ≡ true
  same_set_refl [] = refl
  same_set_refl ((k, u) ∷ s) = elim (o.dec k k) [
    | yes e ↦ ground (arith, same_set_refl s)
    | no n ↦ absurd (n refl)
  ]

length-map : {A B : Type 0} (f : A → B) (xs : List A) → length (map f xs) ≡ length xs
length-map f [] = refl
length-map f (x ∷ xs) = ap suc (length-map f xs)

pub map-append :
    {A B : Type 0} (f : A → B) (xs ys : List A) → map f (xs ++ ys) ≡ map f xs ++ map f ys
map-append f [] ys = refl
map-append f (x ∷ xs) ys = ap (λ zs. f x ∷ zs) (map-append f xs ys)

same_number : (n : ℕ) → (n == n) ≡ true
same_number n = ground arith

module _ (d : Decimal) where
  pub record IsLive (state : LiveTradingState d) : Type 0 where
    pub schema : state.schema_version ≡ 1
    pub starting : d.leb state.starting_equity d.zero ≡ false
    pub current : d.leb state.current_equity d.zero ≡ false
    pub settled : d.leb state.settled_equity d.zero ≡ false
    pub deployment : state.deployment_equity ≡ min d state.current_equity state.settled_equity
    pub ledger : IsSound d state.ledger
    pub fills : IsCollected (map (λ e. e.identity) state.fill_events) state.applied_fills
    pub funding :
        IsCollected (map (λ e. e.event.event_id) state.funding_events) state.applied_funding

  pub live-check_loaded :
      (state : LiveTradingState d) → IsLive state → check_loaded d state ≡ ok state
  unfolding check_loaded
  live-check_loaded state h =
      let f = h.fills in
      let g = h.funding in
      rw
        (
          h.schema,
          h.starting,
          h.current,
          h.settled,
          h.deployment,
          f.collected,
          g.collected,
          same_set_refl state.applied_fills,
          same_set_refl state.applied_funding,
          f.distinct,
          g.distinct,
          length-map (λ e. e.identity) state.fill_events,
          length-map (λ e. e.event.event_id) state.funding_events,
          differ_none d (min d state.current_equity state.settled_equity) _ refl,
          same_number (length state.fill_events),
          same_number (length state.funding_events),
        )
        refl

  -- The part of a state that booking an execution leaves as it is.
  pub record IsKept (state next : LiveTradingState d) : Type 0 where
    pub schema : next.schema_version ≡ state.schema_version
    pub starting : next.starting_equity ≡ state.starting_equity
    pub applied_fills : next.applied_fills ≡ state.applied_fills
    pub verified_fills : next.verified_fills ≡ state.verified_fills
    pub applied_funding : next.applied_funding ≡ state.applied_funding
    pub fill_events : next.fill_events ≡ state.fill_events
    pub funding_events : next.funding_events ≡ state.funding_events
    pub ledger : IsSound d state.ledger → IsSound d next.ledger

  update-IsKept :
      (state : LiveTradingState d) (ledger : DualLedger d) (grosses : BTreeMap String d.Value)
      (opened : BTreeMap String (StrategyComponentAttribution d))
      (closed : BTreeMap ℕ (StrategyComponentAttribution d)) (settled : d.Value)
      → (IsSound d state.ledger → IsSound d ledger)
      → IsKept state (record state {
        ledger = ledger;
        exchange_gross_pnl_by_open_episode = grosses;
        open_episode_attribution = opened;
        closed_episode_attribution = closed;
        settled_equity = settled;
      })
  update-IsKept state ledger grosses opened closed settled f = record {
    schema = refl;
    starting = refl;
    applied_fills = refl;
    verified_fills = refl;
    applied_funding = refl;
    fill_events = refl;
    funding_events = refl;
    ledger = f;
  }

  pub settle-IsKept :
      (e : Option (PortfolioEpisode d)) (state : LiveTradingState d) {next : LiveTradingState d}
      → settle d e state ≡ ok next
      → IsKept state next
  unfolding settle
  settle-IsKept none state h = subst (IsKept state) (ok_injective h) (
      update-IsKept state state.ledger state.exchange_gross_pnl_by_open_episode
        state.open_episode_attribution state.closed_episode_attribution state.settled_equity
        (λ s. s))
  settle-IsKept (some e) state h =
      let sum = d.checked_add state.settled_equity e.net_pnl in
      let kept = update-IsKept state state.ledger state.exchange_gross_pnl_by_open_episode in
      elim (Option-cases (get e.asset state.open_episode_attribution)) [
        | inl f ↦ checked-ok d sum "settled equity" _ (rw (f, settle) at h) (λ v e₀ h₀.
            subst (IsKept state) (ok_injective h₀)
              (kept state.open_episode_attribution state.closed_episode_attribution v (λ s. s)))
        | inr (a, f) ↦ checked-ok d sum "settled equity" _ (rw (f, settle) at h) (λ v e₀ h₀.
            subst (IsKept state) (ok_injective h₀) (
              kept (remove e.asset state.open_episode_attribution)
                (insert e.episode_id a state.closed_episode_attribution) v (λ s. s)))
      ]

  module _ (sha256 : List ℕ → ℕ) where
    pub book_execution-IsKept :
        (fill : VerifiedExchangeFill d) (x : ShadowExecution d) (state : LiveTradingState d)
        {r : LiveTradingState d × Option (PortfolioEpisode d)}
        → book_execution d sha256 fill x state ≡ ok r
        → IsKept state r.0
    unfolding book_execution
    book_execution-IsKept fill x state {r} h =
        let before = or_default (get fill.asset state.exchange_gross_pnl_by_open_episode) d.zero in
        let kept : (l : DualLedger d) (g : BTreeMap String d.Value)
            → (IsSound d state.ledger → IsSound d l)
            → IsKept state (record state { ledger = l; exchange_gross_pnl_by_open_episode = g }) =
          λ l g f.
            update-IsKept state l g state.open_episode_attribution state.closed_episode_attribution
              state.settled_equity f in
        >>=-ok (apply_portfolio_execution d sha256 x fill.occurred_at state.ledger) _ h
          (λ booked e₀ h₀.
            checked-ok d (d.checked_add before fill.exchange_closed_pnl) "exchange gross pnl" _ h₀
              (λ gross e₁ h₁.
                let grosses = insert fill.asset gross state.exchange_gross_pnl_by_open_episode in
                let sound : IsSound d state.ledger → IsSound d booked.0 =
                  λ s. portfolio_execution-IsSound d sha256 x fill.occurred_at state.ledger s e₀ in
                elim (Bool-cases
                  (ltb (length state.ledger.portfolio.closed) (length booked.0.portfolio.closed))) [
                    | inl did_close ↦
                        ok_or-ok (get fill.asset grosses) position_divergence _
                          (rw (did_close) at h₁)
                          (λ g e₂ h₂.
                            >>=-ok (reconcile_last_portfolio_gross_pnl d fill.asset g booked.0) _ h₂
                              (λ l e₃ h₃.
                                subst (λ q. IsKept state q.0) (ok_injective h₃)
                                  (kept l (remove fill.asset grosses) (λ s.
                                    reconciliation-IsSound d sha256 fill.asset g booked.0 (sound s)
                                      e₃))))
                    | inr stays ↦
                        subst (λ q. IsKept state q.0) (ok_injective (rw (stays) at h₁))
                          (kept booked.0 grosses sound)
                  ]))
