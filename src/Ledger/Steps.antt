-- ===== src/Ledger/Steps.antt =====
-- Runs of a ledger: the executions, the funding and the corrections that were accepted, in any order.
use hyperliquid.Base.{
  ℕ, ◌≡◌, Option, List, String, Result, ok, ◌>>=◌, ◌>>◌, >>=-ok, ok_injective, ok_or-ok, refl, ap,
  subst, fail_if, not, ◌==◌,
}
use hyperliquid.BTreeMap.{string_ord, get, All-get}
use hyperliquid.Decimal.{Decimal}
use hyperliquid.Lifecycle.{same_text}
use hyperliquid.Shadow.{ShadowExecution}
use hyperliquid.Ledger.{LedgerError, position_divergence, PortfolioEpisode, empty_book, or_default}
use hyperliquid.Ledger.Executions.{apply}
use hyperliquid.Ledger.Books.{checked-ok}
use hyperliquid.Ledger.Apply.{IsAligned, empty-IsAligned, apply-IsMoved}
use hyperliquid.Ledger.Dual.{
  DualLedger, SourceEpisode, empty_ledger, update_last, net_after_costs,
  reconcile_last_portfolio_gross_pnl, apply_portfolio_funding, update_source,
  assign_source_attribution_residual, assign_source_episode_economic_residuals,
  apply_portfolio_execution, apply_source_execution,
}
use hyperliquid.Ledger.Dual.Integrity.{validate_integrity}
use hyperliquid.Ledger.Runs.{
  IsSound, closed-IsAligned, funding-IsAligned, source_or_default-IsAligned, portfolio-IsSound,
  source-IsSound, sound-validate_integrity,
}

module _ (d : Decimal) (sha256 : List ℕ → ℕ) where
  -- An accepted operation.
  pub data Step : DualLedger d → DualLedger d → Type 0 where
    portfolio_execution :
        {l m : DualLedger d} (execution : ShadowExecution d) (closed_at : ℕ)
        (r : Option (PortfolioEpisode d))
        → apply_portfolio_execution d sha256 execution closed_at l ≡ ok (m, r)
        → Step l m
    source_execution :
        {l m : DualLedger d} (candidate_id : String) (execution : ShadowExecution d) (closed_at : ℕ)
        (r : Option (SourceEpisode d))
        → apply_source_execution d sha256 candidate_id execution closed_at l ≡ ok (m, r)
        → Step l m
    portfolio_funding :
        {l m : DualLedger d} (asset : String) (cost : d.Value)
        → apply_portfolio_funding d asset cost l ≡ ok m
        → Step l m
    reconciliation :
        {l m : DualLedger d} (asset : String) (pnl : d.Value)
        → reconcile_last_portfolio_gross_pnl d asset pnl l ≡ ok m
        → Step l m
    attribution_residual :
        {l m : DualLedger d} (candidate_id : String) (episode_id : ℕ) (residual : d.Value)
        (r : SourceEpisode d)
        → assign_source_attribution_residual d candidate_id episode_id residual l ≡ ok (m, r)
        → Step l m
    economic_residuals :
        {l m : DualLedger d} (candidate_id : String) (episode_id : ℕ)
        (gross fees funding slippage : d.Value) (r : SourceEpisode d)
        → assign_source_episode_economic_residuals d candidate_id episode_id gross fees funding
            slippage l
          ≡ ok (m, r)
        → Step l m

  -- A ledger that operations lead to from the empty one.
  pub data Reached : DualLedger d → Type 0 where
    start : Reached (empty_ledger d)
    after : {l m : DualLedger d} → Reached l → Step l m → Reached m

  pub portfolio_execution-IsSound :
      (execution : ShadowExecution d) (closed_at : ℕ) (l : DualLedger d) {m : DualLedger d}
      {r : Option (PortfolioEpisode d)}
      → IsSound d l
      → apply_portfolio_execution d sha256 execution closed_at l ≡ ok (m, r)
      → IsSound d m
  unfolding apply_portfolio_execution
  portfolio_execution-IsSound execution closed_at l s h =
      >>=-ok (apply d sha256 execution closed_at l.portfolio) _ h (λ book e₀ h₀.
        let moved = apply-IsMoved d sha256 execution closed_at l.portfolio s.portfolio e₀ in
        subst (IsSound d) (ap (λ p. p.0) (ok_injective h₀))
          (portfolio-IsSound d l book s moved.is_aligned))

  source_execution-IsSound :
      (candidate_id : String) (execution : ShadowExecution d) (closed_at : ℕ) (l : DualLedger d)
      {m : DualLedger d} {r : Option (SourceEpisode d)}
      → IsSound d l
      → apply_source_execution d sha256 candidate_id execution closed_at l ≡ ok (m, r)
      → IsSound d m
  unfolding apply_source_execution
  source_execution-IsSound candidate_id execution closed_at l s h =
      let before = or_default (get candidate_id l.sources) (empty_book d) in
      >>=-ok (apply d sha256 execution closed_at before) _ h (λ book e₀ h₀.
        let moved =
          apply-IsMoved d sha256 execution closed_at before
            (source_or_default-IsAligned d candidate_id l s) e₀ in
        subst (IsSound d) (ap (λ p. p.0) (ok_injective h₀))
          (source-IsSound d candidate_id book l s moved.is_aligned))

  pub funding-IsSound :
      (asset : String) (cost : d.Value) (l : DualLedger d) {m : DualLedger d}
      → IsSound d l
      → apply_portfolio_funding d asset cost l ≡ ok m
      → IsSound d m
  unfolding apply_portfolio_funding
  funding-IsSound asset cost l s h =
      ok_or-ok (get asset l.portfolio.opened) position_divergence _ h (λ o e₀ h₀.
        checked-ok d (d.checked_add o.funding cost) "funding" _ h₀ (λ funding e₁ h₁.
          subst (IsSound d) (ok_injective h₁) (
            portfolio-IsSound d l _ s
              (funding-IsAligned d asset o funding l.portfolio e₀ s.portfolio))))

  pub reconciliation-IsSound :
      (asset : String) (pnl : d.Value) (l : DualLedger d) {m : DualLedger d}
      → IsSound d l
      → reconcile_last_portfolio_gross_pnl d asset pnl l ≡ ok m
      → IsSound d m
  unfolding reconcile_last_portfolio_gross_pnl
  reconciliation-IsSound asset pnl l s h =
      >>=-ok
        (update_last d
          (λ episode.
            fail_if (not (same_text episode.asset asset)) position_divergence
            >> (net_after_costs d episode pnl "exchange reconciled episode net pnl" >>= λ net.
                ok (record episode { realized_pnl = pnl; net_pnl = net })))
          l.portfolio.closed)
        _ h
        (λ r e₀ h₀.
          subst (IsSound d) (ok_injective h₀)
            (portfolio-IsSound d l _ s (closed-IsAligned d l.portfolio r.0 s.portfolio)))

  update_source-IsSound :
      (candidate_id : String) (episode_id : ℕ)
      (f : PortfolioEpisode d → Result LedgerError (PortfolioEpisode d)) (l : DualLedger d)
      {m : DualLedger d} {r : SourceEpisode d}
      → IsSound d l
      → update_source d candidate_id episode_id f l ≡ ok (m, r)
      → IsSound d m
  unfolding update_source
  update_source-IsSound candidate_id episode_id f l s h =
      ok_or-ok (get candidate_id l.sources) position_divergence _ h (λ book e₀ h₀.
        >>=-ok
          (update_last d
            (λ episode.
              fail_if (not (episode.episode_id == episode_id)) position_divergence >> f episode)
            book.closed)
          _ h₀
          (λ r e₁ h₁.
            let b = All-get (λ e. IsAligned d e.1) candidate_id book l.sources s.sources e₀ in
            subst (IsSound d) (ap (λ p. p.0) (ok_injective h₁))
              (source-IsSound d candidate_id _ l s (closed-IsAligned d book r.0 b))))

  Step-IsSound : {l m : DualLedger d} → Step l m → IsSound d l → IsSound d m
  unfolding assign_source_attribution_residual assign_source_episode_economic_residuals
  Step-IsSound {l} (portfolio_execution execution closed_at r h) s =
      portfolio_execution-IsSound execution closed_at l s h
  Step-IsSound {l} (source_execution candidate_id execution closed_at r h) s =
      source_execution-IsSound candidate_id execution closed_at l s h
  Step-IsSound {l} (portfolio_funding asset cost h) s = funding-IsSound asset cost l s h
  Step-IsSound {l} (reconciliation asset pnl h) s = reconciliation-IsSound asset pnl l s h
  Step-IsSound {l} (attribution_residual candidate_id episode_id residual r h) s =
      update_source-IsSound candidate_id episode_id _ l s h
  Step-IsSound {l} (economic_residuals candidate_id episode_id gross fees funding slippage r h) s =
      update_source-IsSound candidate_id episode_id _ l s h

  pub empty-IsSound : IsSound d (empty_ledger d)
  empty-IsSound = record { schema = refl; portfolio = empty-IsAligned d; sources = tt }

  reached-IsSound : {l : DualLedger d} → Reached l → IsSound d l
  reached-IsSound start = empty-IsSound
  reached-IsSound (after r h) = Step-IsSound h (reached-IsSound r)

  -- A ledger that operations lead to from the empty one passes its integrity check: in every book the
  -- positions are the quantities of the open episodes.
  pub reached-validate_integrity : {l : DualLedger d} → Reached l → validate_integrity d l ≡ ok tt
  reached-validate_integrity {l} r = sound-validate_integrity d l (reached-IsSound r)
