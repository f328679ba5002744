-- ===== src/Portfolio/Project/Accepted.antt =====
-- The parts that an accepted projection went through, and what its tests say.
use hyperliquid.Base.{
  ◌≡◌, true, false, none, [], ◌∷◌, String, ok, >>=-ok, ok_injective, arith, ◌⊎◌, inl, inr,
  Bool-cases, Option-cases, subst, All,
}
use hyperliquid.BTreeMap.{string_ord, BTreeMap, get, keys}
use hyperliquid.Decimal.{Decimal, is_zero}
use hyperliquid.Portfolio.{
  PortfolioProjectionInput, PortfolioProjection, ExposureRange, Sides, or_default, validate_input,
  portfolio_assets, active_open_exposure,
}
use hyperliquid.Portfolio.Ranges.{
  projected_ranges, range_metrics, magnitude, magnitude_at, Metrics, worst_net, Caps,
}
use hyperliquid.Portfolio.Project.{
  caps_of, find_exceeding, check_caps, check_reductions, increases_risk, signum, same_signum,
  validate_final_ranges, constrain, propose_all, settle_deltas, project_and_validate_portfolio,
}

module _ (d : Decimal) where
  -- Every range ends within the cap of an asset, the sum of the worst cases within the gross cap, and
  -- the least and the greatest sum within the net cap.
  pub record IsWithin (caps : Caps d) (ranges : BTreeMap String (ExposureRange d)) (m : Metrics d)
      : Type 0 where
    pub assets : All (λ e. d.leb (magnitude d e.1) caps.asset ≡ true) ranges
    pub gross : d.leb m.gross caps.gross ≡ true
    pub net : d.leb (worst_net d m) caps.net ≡ true

  -- A delta is zero, or it is of the other sign than the filled position, at most its size, and leaves
  -- the worst exposure of the asset no larger than without any delta.
  pub record Reduces (input : PortfolioProjectionInput d)
      (ranges baseline : BTreeMap String (ExposureRange d)) (asset : String) (delta : d.Value)
      : Type 0 where
    pub opposite :
        same_signum d
          (signum d delta)
          (signum d (or_default (get asset input.filled_positions) d.zero))
        ≡ false
    pub part :
        d.leb (d.abs delta) (d.abs (or_default (get asset input.filled_positions) d.zero)) ≡ true
    pub smaller : d.leb (magnitude_at d ranges asset) (magnitude_at d baseline asset) ≡ true

  find_exceeding-All :
      (caps : Caps d) (ranges : BTreeMap String (ExposureRange d))
      → find_exceeding d caps ranges ≡ none
      → All (λ e. d.leb (magnitude d e.1) caps.asset ≡ true) ranges
  unfolding find_exceeding
  find_exceeding-All caps [] h = tt
  find_exceeding-All caps ((a, r) ∷ ranges) h =
      (ground arith, find_exceeding-All caps ranges (ground arith))

  pub check_caps-IsWithin :
      (caps : Caps d) (ranges : BTreeMap String (ExposureRange d)) (m : Metrics d)
      → check_caps d caps ranges m ≡ ok tt
      → IsWithin caps ranges m
  unfolding check_caps
  check_caps-IsWithin caps ranges m h = elim (Option-cases (find_exceeding d caps ranges)) [
    | inl e ↦ record {
      assets = find_exceeding-All caps ranges e;
      gross = ground arith;
      net = ground arith;
    }
    | inr (a, e) ↦ absurd (ground arith)
  ]

  pub check_reductions-All :
      (input : PortfolioProjectionInput d) (ranges baseline : BTreeMap String (ExposureRange d))
      (deltas : BTreeMap String d.Value)
      → check_reductions d input ranges baseline deltas ≡ ok tt
      → All (λ e. (e.1 ≡ d.zero) ⊎ Reduces input ranges baseline e.0 e.1) deltas
  unfolding check_reductions
  check_reductions-All input ranges baseline [] h = tt
  check_reductions-All input ranges baseline ((a, v) ∷ deltas) h = (
    elim (Bool-cases (is_zero d v)) [
      | inl z ↦ inl (ground arith)
      | inr nz ↦
          let passed : increases_risk d input ranges baseline a v ≡ false = ground arith in
          inr (record { opposite = ground arith; part = ground arith; smaller = ground arith })
    ],
    check_reductions-All input ranges baseline deltas (ground arith),
  )

  -- The parts that an accepted projection went through.
  pub record IsProjected (input : PortfolioProjectionInput d) (p : PortfolioProjection d)
      : Type 0 where
    pub caps : Caps d
    pub open_by_asset : BTreeMap String (Sides d)
    pub has_caps : caps_of d input ≡ ok caps
    pub open_orders : active_open_exposure d input ≡ ok open_by_asset
    pub ranges :
        projected_ranges d input (portfolio_assets d input) open_by_asset p.rounded_deltas
        ≡ ok p.projected_ranges
    pub metrics :
        range_metrics d p.projected_ranges
        ≡ ok (record {
          gross = p.maximum_projected_gross;
          minimum_net = p.minimum_projected_net;
          maximum_net = p.maximum_projected_net;
        })
    pub final :
        validate_final_ranges d input p.projected_ranges p.rounded_deltas caps
          (record {
            gross = p.maximum_projected_gross;
            minimum_net = p.minimum_projected_net;
            maximum_net = p.maximum_projected_net;
          })
          open_by_asset
        ≡ ok tt

  pub project-IsProjected :
      (input : PortfolioProjectionInput d) {p : PortfolioProjection d}
      → project_and_validate_portfolio d input ≡ ok p
      → IsProjected input p
  unfolding project_and_validate_portfolio
  project-IsProjected input {p} h = >>=-ok (validate_input d input) _ h (λ u e₀ h₀.
      >>=-ok (caps_of d input) _ h₀ (λ caps e₁ h₁.
        >>=-ok (active_open_exposure d input) _ h₁ (λ open_by_asset e₂ h₂.
          >>=-ok (constrain d input (portfolio_assets d input) caps) _ h₂ (λ targets e₃ h₃.
            >>=-ok
              (propose_all d input open_by_asset targets (keys (portfolio_assets d input)) [] []) _
              h₃
              (λ deltas e₄ h₄.
                >>=-ok
                  (settle_deltas d input (portfolio_assets d input) open_by_asset caps deltas.1) _
                  h₄
                  (λ rounded e₅ h₅.
                    >>=-ok
                      (projected_ranges d input (portfolio_assets d input) open_by_asset rounded) _
                      h₅
                      (λ ranges e₆ h₆. >>=-ok (range_metrics d ranges) _ h₆ (λ m e₇ h₇.
                        >>=-ok (validate_final_ranges d input ranges rounded caps m open_by_asset) _
                          h₇
                          (λ v e₈ h₈.
                            let made : PortfolioProjection d = record {
                              constrained_targets = targets;
                              proposed_deltas = deltas.0;
                              rounded_deltas = rounded;
                              projected_ranges = ranges;
                              maximum_projected_gross = m.gross;
                              minimum_projected_net = m.minimum_net;
                              maximum_projected_net = m.maximum_net;
                            } in
                            let same : made ≡ p = ok_injective h₈ in
                            subst (IsProjected input) same (record {
                              caps = caps;
                              open_by_asset = open_by_asset;
                              has_caps = e₁;
                              open_orders = e₂;
                              ranges = e₆;
                              metrics = e₇;
                              final = e₈;
                            }))))))))))
