-- ===== src/Portfolio/Stage.antt =====
-- The reductions that are staged when a vector of deltas would break a cap on the way
-- (`stage_risk_reducing_deltas` of crates/copytrade-core/src/portfolio_risk.rs).
pub mod Laws
pub mod Reductions
use hyperliquid.Base.{
  ℕ, zero, suc, Bool, true, false, not, ◌||◌, ◌&&◌, Option, none, some, List, [], ◌∷◌, String,
  Result, ok, err, ◌>>=◌, ◌>>◌, ok_or, if◌then◌else◌, filter, ◌+◌,
}
use hyperliquid.BTreeMap.{string_ord, BTreeMap, BTreeSet, get, insert, keys, size}
use hyperliquid.Decimal.{Decimal, lt, is_zero}
use hyperliquid.Portfolio.{
  PortfolioProjectionInput, ExposureRange, RiskViolation, Sides, arithmetic_overflow, or_default,
}
use hyperliquid.Portfolio.Ranges.{projected_ranges, range_metrics, magnitude_at, Metrics, worst_net}
use hyperliquid.Portfolio.Targets.{min_by, less_reduction, is_negative, is_positive}

module _ (d : Decimal) where
  -- The delta that makes the net worse: the least of its sign.
  abbrev pub offends_below : Metrics d → Bool
  offends_below m = d.leb (d.abs m.maximum_net) (d.abs m.minimum_net) && is_negative d m.minimum_net

  abbrev pub is_offending : Metrics d → String × d.Value → Bool
  is_offending m e = if offends_below m then is_negative d e.1 else is_positive d e.1

  unfoldable pub offender : Metrics d → BTreeMap String d.Value → Option (String × d.Value)
  offender m staged = min_by (less_reduction d) (filter (is_offending m) staged)

  module _ (input : PortfolioProjectionInput d) (assets : BTreeSet String)
      (open_by_asset : BTreeMap String (Sides d)) where
    -- The ranges for a vector of deltas.
    abbrev pub ranges_for :
        BTreeMap String d.Value → Result (RiskViolation d) (BTreeMap String (ExposureRange d))
    ranges_for deltas = projected_ranges d input assets open_by_asset deltas

    -- The metrics of those ranges.
    unfoldable pub metrics_for : BTreeMap String d.Value → Result (RiskViolation d) (Metrics d)
    metrics_for deltas = do ranges ← ranges_for deltas; range_metrics d ranges

    -- The body of the first loop: what is staged for an asset, and whether that is a reduction.
    unfoldable pub stage_asset :
        BTreeMap String (ExposureRange d)
        → BTreeMap String d.Value
        → String
        → Result (RiskViolation d) (d.Value × Bool)
    stage_asset baseline rounded_deltas asset =
        let delta = or_default (get asset rounded_deltas) d.zero in
        if is_zero d delta then ok (d.zero, false) else do
          with_delta ← ranges_for (insert asset delta [])
          ok (
              if d.leb (magnitude_at d with_delta asset) (magnitude_at d baseline asset)
              then (delta, true)
              else (d.zero, false))

    -- The first loop, from what is staged and whether there is a reduction.
    unfoldable pub stage_assets :
        BTreeMap String (ExposureRange d)
        → BTreeMap String d.Value
        → List String
        → BTreeMap String d.Value
        → Bool
        → Result (RiskViolation d) (BTreeMap String d.Value × Bool)
    unfolding stage_asset
    stage_assets baseline rounded_deltas [] staged has_reduction = ok (staged, has_reduction)
    stage_assets baseline rounded_deltas (asset ∷ rest) staged has_reduction = do
      step ← stage_asset baseline rounded_deltas asset
      stage_assets baseline rounded_deltas rest (insert asset step.0 staged)
          (step.1 || has_reduction)

    -- The body of the second loop: the next vector, or none where the loop is left.
    unfoldable pub prune_step :
        d.Value
        → BTreeMap String d.Value
        → Result (RiskViolation d) (Option (BTreeMap String d.Value))
    unfolding metrics_for offender
    prune_step baseline_worst_net staged = do
      candidate ← metrics_for staged
      if d.leb (worst_net d candidate) baseline_worst_net then ok none else do
        remove ←
            ok_or (offender candidate staged) (arithmetic_overflow "net-worsening staged reduction")
        ok (some (insert remove.0 d.zero staged))

    -- The second loop, on fuel: none without any left.
    unfoldable pub prune :
        ℕ
        → d.Value
        → BTreeMap String d.Value
        → Option (Result (RiskViolation d) (BTreeMap String d.Value))
    unfolding prune_step
    prune zero worst staged = none
    prune (suc fuel) worst staged = elim (prune_step worst staged) [
      | err e ↦ some (err e)
      | ok none ↦ some (ok staged)
      | ok (some next) ↦ prune fuel worst next
    ]

    -- The second loop, with one turn more than there are deltas, which is enough.
    unfoldable pub prune_all :
        d.Value → BTreeMap String d.Value → Result (RiskViolation d) (BTreeMap String d.Value)
    unfolding prune
    prune_all worst staged = or_default (prune (size staged + 1) worst staged) (ok staged)

    -- The deltas that `rounded_deltas` becomes.
    unfoldable pub stage_risk_reducing_deltas :
        BTreeMap String d.Value → Result (RiskViolation d) (BTreeMap String d.Value)
    unfolding stage_assets prune_all
    stage_risk_reducing_deltas rounded_deltas = do
      baseline ← ranges_for []
      staged ← stage_assets baseline rounded_deltas (keys assets) [] false
      if staged.1
          then (do metrics ← range_metrics d baseline; prune_all (worst_net d metrics) staged.0)
          else ok staged.0
