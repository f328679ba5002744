-- ===== src/Ledger/Dual.antt =====
-- The ledger of the portfolio and of each source (`DualLedger`, crates/copytrade-core/src/ledger.rs).
pub mod Integrity
use hyperliquid.Base.{
  ℕ, Bool, true, false, not, ltb, ◌==◌, Option, none, some, List, [], ◌∷◌, String, Result, ok, err,
  ◌>>=◌, ◌>>◌, fail_if, ok_or, if◌then◌else◌, length, last?,
}
use mathlib.Core.Option
use hyperliquid.BTreeMap.{string_ord, BTreeMap, get, insert, values}
use hyperliquid.Decimal.{Decimal, is_zero}
use hyperliquid.Lifecycle.{same_text}
use hyperliquid.Shadow.{ShadowExecution}
use hyperliquid.Ledger.{
  LedgerError, position_divergence, schema_mismatch, PortfolioEpisode, OpenEpisode, EpisodeBook,
  empty_book, or_default, differ, checked,
}
use hyperliquid.Ledger.Executions.{apply}

module _ (d : Decimal) where
  pub record SourceEpisode : Type 0 where
    pub candidate_id : String
    pub source_episode_id : ℕ
    pub asset : String
    pub modeled_entry : d.Value
    pub modeled_exit : d.Value
    pub modeled_fees : d.Value
    pub modeled_funding : d.Value
    pub modeled_slippage : d.Value
    pub modeled_gross_pnl : d.Value
    pub attribution_residual : d.Value
    pub modeled_net_pnl : d.Value
    pub net_return : d.Value

  pub record DualLedger : Type 0 where
    pub schema_version : ℕ
    pub portfolio : EpisodeBook d
    pub sources : BTreeMap String (EpisodeBook d)

  -- `DualLedger::default`
  abbrev pub empty_ledger : DualLedger
  empty_ledger = record { schema_version = 2; portfolio = empty_book d; sources = [] }

  -- The episode of a source, as `apply_source_execution` and the others report it.
  abbrev pub source_episode : String → PortfolioEpisode d → SourceEpisode
  source_episode candidate_id episode = record {
    candidate_id = candidate_id;
    source_episode_id = episode.episode_id;
    asset = episode.asset;
    modeled_entry = episode.entry_notional;
    modeled_exit = episode.exit_notional;
    modeled_fees = episode.fees;
    modeled_funding = episode.funding;
    modeled_slippage = episode.slippage;
    modeled_gross_pnl = episode.realized_pnl;
    attribution_residual = episode.attribution_residual;
    modeled_net_pnl = episode.net_pnl;
    net_return =
        if is_zero d episode.entry_notional
        then d.zero
        else or_default (d.checked_div episode.net_pnl episode.entry_notional) d.zero;
  }

  -- `closed.last_mut()`, an update of it that may fail, and the episode afterwards.
  unfoldable pub update_last :
      (PortfolioEpisode d → Result LedgerError (PortfolioEpisode d))
      → List (PortfolioEpisode d)
      → Result LedgerError (List (PortfolioEpisode d) × PortfolioEpisode d)
  update_last f [] = err position_divergence
  update_last f (e ∷ []) = f e >>= λ updated. ok (updated ∷ [], updated)
  update_last f (e ∷ next ∷ rest) = update_last f (next ∷ rest) >>= λ r. ok (e ∷ r.0, r.1)

  -- `checked_sub(fees).and_then(funding).and_then(slippage)`, with the one error of the chain.
  unfoldable pub net_after_costs :
      PortfolioEpisode d → d.Value → String → Result LedgerError d.Value
  net_after_costs episode gross operation = do
    less_fees ← checked d (d.checked_sub gross episode.fees) operation
    less_funding ← checked d (d.checked_sub less_fees episode.funding) operation
    checked d (d.checked_sub less_funding episode.slippage) operation

  unfoldable pub reconcile_last_portfolio_gross_pnl :
      String → d.Value → DualLedger → Result LedgerError DualLedger
  unfolding update_last net_after_costs
  reconcile_last_portfolio_gross_pnl asset exchange_realized_pnl ledger = do
    r ←
        update_last
          (λ episode. do
            fail_if (not (same_text episode.asset asset)) position_divergence
            net ←
                net_after_costs episode exchange_realized_pnl "exchange reconciled episode net pnl"
            ok (record episode { realized_pnl = exchange_realized_pnl; net_pnl = net }))
          ledger.portfolio.closed
    ok (record ledger { portfolio = record ledger.portfolio { closed = r.0 } })

  unfoldable pub apply_portfolio_funding :
      String → d.Value → DualLedger → Result LedgerError DualLedger
  apply_portfolio_funding asset funding_cost ledger = do
    episode ← ok_or (get asset ledger.portfolio.opened) position_divergence
    funding ← checked d (d.checked_add episode.funding funding_cost) "funding"
    ok (record ledger {
      portfolio = record ledger.portfolio {
        opened = insert asset (record episode { funding = funding }) ledger.portfolio.opened;
      };
    })

  -- The episode that the update of a book appended to its closed ones.
  abbrev pub newly_closed : EpisodeBook d → EpisodeBook d → Option (PortfolioEpisode d)
  newly_closed before after =
      if ltb (length before.closed) (length after.closed) then last? after.closed else none

  -- The last closed episode of a source, updated when it has the identity.
  unfoldable pub update_source :
      String
      → ℕ
      → (PortfolioEpisode d → Result LedgerError (PortfolioEpisode d))
      → DualLedger
      → Result LedgerError (DualLedger × SourceEpisode)
  unfolding update_last
  update_source candidate_id episode_id f ledger = do
    book ← ok_or (get candidate_id ledger.sources) position_divergence
    r ←
        update_last
          (λ episode. do
            fail_if (not (episode.episode_id == episode_id)) position_divergence
            f episode)
          book.closed
    ok (
      record ledger { sources = insert candidate_id (record book { closed = r.0 }) ledger.sources },
      source_episode candidate_id r.1,
    )

  unfoldable pub assign_source_attribution_residual :
      String → ℕ → d.Value → DualLedger → Result LedgerError (DualLedger × SourceEpisode)
  unfolding update_source
  assign_source_attribution_residual candidate_id episode_id residual ledger =
      update_source candidate_id episode_id
        (λ episode. do
          attribution ←
              checked d (d.checked_add episode.attribution_residual residual) "attribution residual"
          net ← checked d (d.checked_add episode.net_pnl residual) "attribution residual net pnl"
          ok (record episode { attribution_residual = attribution; net_pnl = net }))
        ledger

  -- The update of an episode in `assign_source_episode_economic_residuals`.
  unfoldable pub with_residuals :
      d.Value
      → d.Value
      → d.Value
      → d.Value
      → PortfolioEpisode d
      → Result LedgerError (PortfolioEpisode d)
  unfolding net_after_costs
  with_residuals gross_residual fees_residual funding_residual slippage_residual episode = do
    gross ←
        checked d (d.checked_add episode.realized_pnl gross_residual) "gross attribution residual"
    fees ← checked d (d.checked_add episode.fees fees_residual) "fee attribution residual"
    funding ←
        checked d (d.checked_add episode.funding funding_residual) "funding attribution residual"
    slippage ←
        checked d (d.checked_add episode.slippage slippage_residual) "slippage attribution residual"
    let assigned = record episode {
      realized_pnl = gross;
      fees = fees;
      funding = funding;
      slippage = slippage;
    }
    let operation : String = "economic attribution residual net pnl"
    less ← net_after_costs assigned gross operation
    net ← checked d (d.checked_add less episode.attribution_residual) operation
    ok (record assigned { net_pnl = net })

  unfoldable pub assign_source_episode_economic_residuals :
      String
      → ℕ
      → d.Value
      → d.Value
      → d.Value
      → d.Value
      → DualLedger
      → Result LedgerError (DualLedger × SourceEpisode)
  unfolding update_source with_residuals
  assign_source_episode_economic_residuals candidate_id episode_id gross_residual fees_residual
        funding_residual slippage_residual ledger =
      update_source candidate_id episode_id
        (with_residuals gross_residual fees_residual funding_residual slippage_residual) ledger

  module _ (sha256 : List ℕ → ℕ) where
    unfoldable pub apply_portfolio_execution :
        ShadowExecution d
        → ℕ
        → DualLedger
        → Result LedgerError (DualLedger × Option (PortfolioEpisode d))
    unfolding apply
    apply_portfolio_execution execution closed_at ledger = do
      book ← apply d sha256 execution closed_at ledger.portfolio
      ok (record ledger { portfolio = book }, newly_closed ledger.portfolio book)

    unfoldable pub apply_source_execution :
        String
        → ShadowExecution d
        → ℕ
        → DualLedger
        → Result LedgerError (DualLedger × Option SourceEpisode)
    unfolding apply
    apply_source_execution candidate_id execution closed_at ledger = do
      let before = or_default (get candidate_id ledger.sources) (empty_book d)
      book ← apply d sha256 execution closed_at before
      ok (
        record ledger { sources = insert candidate_id book ledger.sources },
        Option.map (source_episode candidate_id) (newly_closed before book),
      )

  abbrev pub source_position : String → String → DualLedger → d.Value
  source_position candidate_id asset ledger = elim (get candidate_id ledger.sources) [
    | some book ↦ or_default (get asset book.positions) d.zero
    | none ↦ d.zero
  ]

  abbrev pub portfolio_position : String → DualLedger → d.Value
  portfolio_position asset ledger = or_default (get asset ledger.portfolio.positions) d.zero
