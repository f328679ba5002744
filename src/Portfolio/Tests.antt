-- ===== src/Portfolio/Tests.antt =====
-- The theorems of the portfolio projection at small portfolios, with numbers of eight decimal places.
use native.Mathlib.Decide.{ℕ_discrete}
use hyperliquid.Base.{ℕ, ◌+◌, ◌*◌, ◌^◌, ◌≡◌, ◌≢◌, ◌⊎◌, true, none, [], ◌∷◌, String, ok, refl, All}
use hyperliquid.BTreeMap.{
  string_ord, String-discrete, BTreeMap, BTreeSet, get, insert, remove, size, keys,
}
use hyperliquid.Decimal.{fixed, pos, negsuc, ℤ, ℤ-discrete}
use hyperliquid.Portfolio.{
  PortfolioProjectionInput, PortfolioProjection, ExposureRange, Sides, validate_input,
  active_open_exposure, collect, sum_from, portfolio_assets,
}
use hyperliquid.Portfolio.Targets.{
  scale_targets_to_gross_cap, enforce_target_net_cap, min_by, round_delta,
}
use hyperliquid.Portfolio.Ranges.{
  Caps, Metrics, projected_ranges, range_metrics, exceeds, worst_net, magnitude_at,
}
use hyperliquid.Portfolio.Stage.{prune, stage_risk_reducing_deltas}
use hyperliquid.Portfolio.Stage.Laws.{prune_ends}
use hyperliquid.Portfolio.Stage.Reductions.{IsStaged, stage-IsStaged}
use hyperliquid.Portfolio.Project.{project_and_validate_portfolio, caps_of}
use hyperliquid.Portfolio.Outcomes.{MayEnd}
use hyperliquid.Portfolio.Project.Accepted.{Reduces}
use hyperliquid.Portfolio.Project.Laws.{EndsWithin, project-Reduces}

abbrev units : ℕ → ℤ
units n = pos (n * 10 ^ 8)

-- An asset that may grow within its cap.
abbrev growing : PortfolioProjectionInput fixed
growing = record {
  current_equity = units 10000;
  curve_leverage = units 1;
  global_risk_scale = pos 10000000;
  max_single_asset_equity_pct = pos 50000000;
  max_net_equity_pct = pos 80000000;
  filled_positions = ("ETH", units 100) ∷ [];
  filled_position_state_complete = true;
  acknowledged_open_orders = [];
  open_order_state_complete = true;
  unconstrained_targets = ("ETH", units 200) ∷ [];
  market_rules =
      ("ETH", record { mark_price = units 10; price_tick = pos 1000000; size_step = pos 1000000 })
      ∷ [];
}

abbrev grown : PortfolioProjection fixed
grown = record {
  constrained_targets = ("ETH", units 200) ∷ [];
  proposed_deltas = ("ETH", units 100) ∷ [];
  rounded_deltas = ("ETH", units 100) ∷ [];
  projected_ranges = ("ETH", record { minimum = units 100; maximum = units 200 }) ∷ [];
  maximum_projected_gross = units 200;
  minimum_projected_net = units 100;
  maximum_projected_net = units 200;
}

-- An asset beyond the cap on the gross, of which a part is to be closed.
abbrev shrinking : PortfolioProjectionInput fixed
shrinking = record growing { filled_positions = ("ETH", units 2000) ∷ [] }

abbrev shrunk : PortfolioProjection fixed
shrunk = record {
  constrained_targets = ("ETH", units 200) ∷ [];
  proposed_deltas = ("ETH", negsuc 179999999999) ∷ [];
  rounded_deltas = ("ETH", negsuc 179999999999) ∷ [];
  projected_ranges = ("ETH", record { minimum = units 200; maximum = units 2000 }) ∷ [];
  maximum_projected_gross = units 2000;
  minimum_projected_net = units 200;
  maximum_projected_net = units 2000;
}

shrinking_taken : project_and_validate_portfolio fixed shrinking ≡ ok shrunk
unfolding project_and_validate_portfolio validate_input get insert remove String-discrete ℕ_discrete
    ℤ-discrete active_open_exposure collect scale_targets_to_gross_cap sum_from
    enforce_target_net_cap round_delta projected_ranges range_metrics stage_risk_reducing_deltas
shrinking_taken = refl

abbrev caps : Caps fixed
caps = record { asset = units 5000; gross = units 1000; net = units 8000 }

abbrev metrics_of : ℕ → Metrics fixed
metrics_of n = record { gross = units n; minimum_net = units n; maximum_net = units n }

project-Reduces_example :
    (open_by_asset : BTreeMap String (Sides fixed)) × (baseline : BTreeMap String
      (ExposureRange fixed))
    × (before : Metrics fixed) × (active_open_exposure fixed shrinking ≡ ok open_by_asset)
    × (projected_ranges fixed shrinking (portfolio_assets fixed shrinking) open_by_asset []
        ≡ ok baseline)
    × (range_metrics fixed baseline ≡ ok before)
    × All
        (λ e. (e.1 ≡ pos 0) ⊎ Reduces fixed shrinking shrunk.projected_ranges baseline e.0 e.1)
        shrunk.rounded_deltas
    × ((outcome : String → ℤ)
        → ((a : String) → MayEnd fixed shrinking open_by_asset shrunk.rounded_deltas a (outcome a))
        → EndsWithin fixed
            (magnitude_at fixed baseline)
            before.gross
            (worst_net fixed before)
            (keys shrunk.projected_ranges)
            outcome)
unfolding caps_of range_metrics sum_from ℤ-discrete ℕ_discrete exceeds get
project-Reduces_example =
    project-Reduces fixed shrinking {p = shrunk} {caps = caps} {filled = metrics_of 2000}
      shrinking_taken refl refl refl

-- Two positions that offset each other in part: the reduction of the second would make the net worse.
abbrev hedged : PortfolioProjectionInput fixed
hedged = record growing {
  filled_positions = ("ETH", units 2000) ∷ ("SOL", negsuc 99999999999) ∷ [];
}

abbrev both : BTreeSet String
both = ("ETH", tt) ∷ ("SOL", tt) ∷ []

abbrev reductions : BTreeMap String ℤ
reductions = ("ETH", negsuc 179999999999) ∷ ("SOL", units 900) ∷ []

abbrev staged : BTreeMap String ℤ
staged = ("ETH", negsuc 179999999999) ∷ ("SOL", pos 0) ∷ []

reductions_staged : stage_risk_reducing_deltas fixed hedged both [] reductions ≡ ok staged
unfolding stage_risk_reducing_deltas get insert String-discrete ℕ_discrete ℤ-discrete collect
    projected_ranges range_metrics sum_from min_by
reductions_staged = refl

stage-IsStaged_example : IsStaged fixed hedged both [] reductions staged
stage-IsStaged_example = stage-IsStaged fixed hedged both [] reductions reductions_staged

prune_ends_example : prune fixed hedged both [] (size reductions + 1) (units 1000) reductions ≢ none
prune_ends_example = prune_ends fixed hedged both [] (units 1000) reductions
