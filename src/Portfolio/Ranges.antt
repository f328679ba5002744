-- ===== src/Portfolio/Ranges.antt =====
-- The range in which the exposure of each asset may end (crates/copytrade-core/src/portfolio_risk.rs).
use hyperliquid.Base.{Bool, none, some, [], String, Result, ok, ◌>>=◌, map, any, ◌||◌}
use hyperliquid.BTreeMap.{string_ord, BTreeMap, BTreeSet, get, keys, values}
use hyperliquid.Decimal.{Decimal, lt, max}
use hyperliquid.Portfolio.{
  PortfolioProjectionInput, ExposureRange, RiskViolation, Sides, checked, sum_checked, collect,
  or_default,
}

module _ (d : Decimal) where
  -- The body of the loop of `projected_ranges`.
  unfoldable pub project_range :
      PortfolioProjectionInput d
      → BTreeMap String (Sides d)
      → BTreeMap String d.Value
      → String
      → Result (RiskViolation d) (ExposureRange d)
  project_range input open_by_asset rounded_deltas asset = do
    let filled = or_default (get asset input.filled_positions) d.zero
    let sides = or_default (get asset open_by_asset) (d.zero, d.zero)
    let delta = or_default (get asset rounded_deltas) d.zero
    less_open ← checked d (d.checked_sub filled sides.1) "range minimum open sells"
    minimum ←
        checked d (d.checked_sub less_open (max d (d.neg delta) d.zero))
          "range minimum proposed sells"
    with_open ← checked d (d.checked_add filled sides.0) "range maximum open buys"
    maximum ← checked d (d.checked_add with_open (max d delta d.zero)) "range maximum proposed buys"
    ok (record { minimum = minimum; maximum = maximum })

  unfoldable pub projected_ranges :
      PortfolioProjectionInput d
      → BTreeSet String
      → BTreeMap String (Sides d)
      → BTreeMap String d.Value
      → Result (RiskViolation d) (BTreeMap String (ExposureRange d))
  unfolding project_range
  projected_ranges input assets open_by_asset rounded_deltas =
      collect (project_range input open_by_asset rounded_deltas) (keys assets) []

  -- `range.minimum.abs().max(range.maximum.abs())`
  abbrev pub magnitude : ExposureRange d → d.Value
  magnitude range = max d (d.abs range.minimum) (d.abs range.maximum)

  -- The index of a map of ranges, which is there: the maps are made over the same assets.
  abbrev pub magnitude_at : BTreeMap String (ExposureRange d) → String → d.Value
  magnitude_at ranges asset = elim (get asset ranges) [
    | none ↦ d.zero
    | some range ↦ magnitude range
  ]

  pub record Metrics : Type 0 where
    pub gross : d.Value
    pub minimum_net : d.Value
    pub maximum_net : d.Value

  unfoldable pub range_metrics :
      BTreeMap String (ExposureRange d) → Result (RiskViolation d) Metrics
  range_metrics ranges = do
    gross ← sum_checked d (map magnitude (values ranges)) "projected gross"
    minimum_net ← sum_checked d (map (λ r. r.minimum) (values ranges)) "minimum net"
    maximum_net ← sum_checked d (map (λ r. r.maximum) (values ranges)) "maximum net"
    ok (record { gross = gross; minimum_net = minimum_net; maximum_net = maximum_net })

  -- `minimum_net.abs().max(maximum_net.abs())`
  abbrev pub worst_net : Metrics → d.Value
  worst_net m = max d (d.abs m.minimum_net) (d.abs m.maximum_net)

  pub record Caps : Type 0 where
    pub asset : d.Value
    pub gross : d.Value
    pub net : d.Value

  -- A range goes beyond the cap of an asset, and a vector beyond one of the caps.
  abbrev pub exceeds_asset : Caps → ExposureRange d → Bool
  exceeds_asset caps range = lt d caps.asset (magnitude range)

  abbrev pub exceeds : Caps → BTreeMap String (ExposureRange d) → Metrics → Bool
  exceeds caps ranges m =
      any (exceeds_asset caps) (values ranges)
      || lt d caps.gross m.gross
      || lt d caps.net (worst_net m)
