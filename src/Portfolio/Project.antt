-- ===== src/Portfolio/Project.antt =====
-- `validate_final_ranges` and `project_and_validate_portfolio` of
-- crates/copytrade-core/src/portfolio_risk.rs.
pub mod Accepted
pub mod Laws
use hyperliquid.Base.{
  ℕ, Bool, true, false, not, ◌||◌, ◌&&◌, Option, none, some, List, [], ◌∷◌, String, Result, ok, err,
  ◌>>=◌, ◌>>◌, fail_if, ok_or, if◌then◌else◌, Ordering, any,
}
use hyperliquid.BTreeMap.{string_ord, BTreeMap, BTreeSet, get, insert, keys, values}
use hyperliquid.Decimal.{Decimal, lt, is_zero, clamp}
use hyperliquid.Portfolio.{
  PortfolioProjectionInput, PortfolioProjection, ExposureRange, RiskViolation, Sides,
  missing_market_rules, asset_cap_exceeded, gross_cap_exceeded, net_cap_exceeded,
  existing_risk_increased, checked, collect, or_default, validate_input, portfolio_assets,
  active_open_exposure,
}
use hyperliquid.Portfolio.Ranges.{
  projected_ranges, range_metrics, magnitude, magnitude_at, Metrics, worst_net, Caps, exceeds_asset,
  exceeds,
}
use hyperliquid.Portfolio.Targets.{scale_targets_to_gross_cap, enforce_target_net_cap, round_delta}
use hyperliquid.Portfolio.Stage.{stage_risk_reducing_deltas}

-- A map with each value replaced.
abbrev pub map_values {ℓ} : {V W : Type ℓ} → (V → W) → List (String × V) → List (String × W)
map_values f [] = []
map_values f ((k, v) ∷ m) = (k, f v) ∷ map_values f m

module _ (d : Decimal) where
  -- `signum`: the sign of a number, as what it is to zero.
  abbrev pub signum : d.Value → Ordering
  signum v =
      if is_zero d v then Ordering.eq else if d.is_sign_positive v then Ordering.gt else Ordering.lt

  abbrev pub same_signum : Ordering → Ordering → Bool
  same_signum Ordering.eq Ordering.eq = true
  same_signum Ordering.lt Ordering.lt = true
  same_signum Ordering.gt Ordering.gt = true
  same_signum _ _ = false

  unfoldable pub caps_of : PortfolioProjectionInput d → Result (RiskViolation d) (Caps d)
  caps_of input = do
    asset_cap ←
        checked d (d.checked_mul input.current_equity input.max_single_asset_equity_pct)
          "single-asset cap"
    leveraged ←
        checked d (d.checked_mul input.current_equity input.curve_leverage) "leveraged equity"
    gross_cap ← checked d (d.checked_mul leveraged input.global_risk_scale) "gross cap"
    net_cap ← checked d (d.checked_mul input.current_equity input.max_net_equity_pct) "net cap"
    ok (record { asset = asset_cap; gross = gross_cap; net = net_cap })

  -- The ranges of the filled positions alone.
  abbrev pub filled_ranges : PortfolioProjectionInput d → BTreeMap String (ExposureRange d)
  filled_ranges input = map_values (λ v. record { minimum = v; maximum = v }) input.filled_positions

  -- The first range beyond the cap of an asset.
  unfoldable pub find_exceeding : Caps d → BTreeMap String (ExposureRange d) → Option String
  find_exceeding caps [] = none
  find_exceeding caps ((asset, range) ∷ ranges) =
      if exceeds_asset d caps range then some asset else find_exceeding caps ranges

  -- The tests of a vector of which the filled positions break no cap.
  unfoldable pub check_caps :
      Caps d → BTreeMap String (ExposureRange d) → Metrics d → Result (RiskViolation d) (Unit {0})
  unfolding find_exceeding
  check_caps caps ranges m = elim (find_exceeding caps ranges) [
    | some asset ↦ err (asset_cap_exceeded asset)
    | none ↦ do
      fail_if (lt d caps.gross m.gross) (gross_cap_exceeded m.gross caps.gross)
      fail_if (lt d caps.net (worst_net d m)) net_cap_exceeded
      ok tt
  ]

  -- The test of a delta where they do: it is zero, or it takes from a filled position.
  abbrev pub increases_risk :
      PortfolioProjectionInput d
      → BTreeMap String (ExposureRange d)
      → BTreeMap String (ExposureRange d)
      → String
      → d.Value
      → Bool
  increases_risk input ranges baseline asset delta =
      let filled = or_default (get asset input.filled_positions) d.zero in
      is_zero d filled
      || same_signum (signum delta) (signum filled)
      || lt d (d.abs filled) (d.abs delta)
      || lt d (magnitude_at d baseline asset) (magnitude_at d ranges asset)

  unfoldable pub check_reductions :
      PortfolioProjectionInput d
      → BTreeMap String (ExposureRange d)
      → BTreeMap String (ExposureRange d)
      → BTreeMap String d.Value
      → Result (RiskViolation d) (Unit {0})
  check_reductions input ranges baseline [] = ok tt
  check_reductions input ranges baseline ((asset, delta) ∷ deltas) = do
    fail_if (not (is_zero d delta) && increases_risk input ranges baseline asset delta)
        (existing_risk_increased asset)
    check_reductions input ranges baseline deltas

  unfoldable pub validate_final_ranges :
      PortfolioProjectionInput d
      → BTreeMap String (ExposureRange d)
      → BTreeMap String d.Value
      → Caps d
      → Metrics d
      → BTreeMap String (Sides d)
      → Result (RiskViolation d) (Unit {0})
  unfolding check_caps check_reductions
  validate_final_ranges input ranges rounded_deltas caps m open_by_asset = do
    filled ← range_metrics d (filled_ranges input)
    if not (exceeds d caps (filled_ranges input) filled) then check_caps caps ranges m else do
      baseline ← projected_ranges d input (portfolio_assets d input) open_by_asset []
      before ← range_metrics d baseline
      check_reductions input ranges baseline rounded_deltas
      fail_if (lt d before.gross m.gross || lt d (worst_net d before) (worst_net d m))
          (gross_cap_exceeded m.gross before.gross)
      ok tt

  -- The target of an asset within the cap of an asset.
  abbrev clamped : PortfolioProjectionInput d → d.Value → String → Result (RiskViolation d) d.Value
  clamped input asset_cap asset = ok (
      clamp d (or_default (get asset input.unconstrained_targets) d.zero) (d.neg asset_cap)
        asset_cap)

  unfoldable pub constrain :
      PortfolioProjectionInput d
      → BTreeSet String
      → Caps d
      → Result (RiskViolation d) (BTreeMap String d.Value)
  constrain input assets caps = do
    targets ← collect (clamped input caps.asset) (keys assets) []
    scaled ← scale_targets_to_gross_cap d targets caps.gross
    enforce_target_net_cap d scaled caps.net

  -- What is to be traded of an asset, before it is rounded.
  unfoldable pub propose :
      PortfolioProjectionInput d
      → BTreeMap String (Sides d)
      → BTreeMap String d.Value
      → String
      → Result (RiskViolation d) d.Value
  propose input open_by_asset targets asset = do
    let sides = or_default (get asset open_by_asset) (d.zero, d.zero)
    signed_open ← checked d (d.checked_sub sides.0 sides.1) "signed open exposure"
    gap ←
        checked d
          (d.checked_sub (or_default (get asset targets) d.zero)
            (or_default (get asset input.filled_positions) d.zero))
          "target less filled"
    checked d (d.checked_sub gap signed_open) "target less open exposure"

  -- The loop over the assets, which makes the proposed and the rounded deltas.
  unfoldable pub propose_all :
      PortfolioProjectionInput d
      → BTreeMap String (Sides d)
      → BTreeMap String d.Value
      → List String
      → BTreeMap String d.Value
      → BTreeMap String d.Value
      → Result (RiskViolation d) (BTreeMap String d.Value × BTreeMap String d.Value)
  unfolding propose
  propose_all input open_by_asset targets [] proposed rounded = ok (proposed, rounded)
  propose_all input open_by_asset targets (asset ∷ rest) proposed rounded = do
    delta ← propose input open_by_asset targets asset
    rules ← ok_or (get asset input.market_rules) (missing_market_rules asset)
    step ← round_delta d delta rules
    propose_all input open_by_asset targets rest (insert asset delta proposed)
        (insert asset step rounded)

  -- The deltas that are kept: staged, if the ranges of the rounded ones break a cap.
  unfoldable pub settle_deltas :
      PortfolioProjectionInput d
      → BTreeSet String
      → BTreeMap String (Sides d)
      → Caps d
      → BTreeMap String d.Value
      → Result (RiskViolation d) (BTreeMap String d.Value)
  settle_deltas input assets open_by_asset caps rounded = do
    ranges ← projected_ranges d input assets open_by_asset rounded
    m ← range_metrics d ranges
    if exceeds d caps ranges m
        then stage_risk_reducing_deltas d input assets open_by_asset rounded
        else ok rounded

  -- The ranges and their metrics are made once more for the deltas that are kept, which is the same
  -- where nothing is staged.
  unfoldable pub project_and_validate_portfolio :
      PortfolioProjectionInput d → Result (RiskViolation d) (PortfolioProjection d)
  unfolding caps_of constrain propose_all settle_deltas validate_final_ranges
  project_and_validate_portfolio input = do
    validate_input d input
    caps ← caps_of input
    let assets = portfolio_assets d input
    open_by_asset ← active_open_exposure d input
    targets ← constrain input assets caps
    deltas ← propose_all input open_by_asset targets (keys assets) [] []
    rounded ← settle_deltas input assets open_by_asset caps deltas.1
    ranges ← projected_ranges d input assets open_by_asset rounded
    m ← range_metrics d ranges
    validate_final_ranges input ranges rounded caps m open_by_asset
    ok (record {
      constrained_targets = targets;
      proposed_deltas = deltas.0;
      rounded_deltas = rounded;
      projected_ranges = ranges;
      maximum_projected_gross = m.gross;
      minimum_projected_net = m.minimum_net;
      maximum_projected_net = m.maximum_net;
    })
