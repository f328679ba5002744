-- ===== src/Portfolio/Project/Laws.antt =====
-- What an accepted projection promises of the exposure that may result.
use hyperliquid.Base.{
  some, sym, refl, ap, List, map, All-mono, ◌∙◌, ◌≡◌, true, none, [], String, ok, >>=-ok,
  ok_injective, arith, ◌⊎◌, inl, inr, Option-cases, subst, All,
}
use hyperliquid.BTreeMap.{string_ord, contains_key, All-get, values, BTreeMap, get, keys}
use hyperliquid.Portfolio.Collect.{collect-All, member, member-keys, collect-keys, nothing_more}
use hyperliquid.Portfolio.Outcomes.{
  Contains, MayEnd, projected_ranges-Contains, sum_from-le, sum_from-ge, abs_between,
}
use hyperliquid.Decimal.{Decimal}
use hyperliquid.Portfolio.{
  sum_checked, PortfolioProjectionInput, PortfolioProjection, ExposureRange, Sides, or_default,
  portfolio_assets, active_open_exposure,
}
use hyperliquid.Portfolio.Ranges.{
  project_range, projected_ranges, range_metrics, magnitude, magnitude_at, Metrics, worst_net, Caps,
  exceeds,
}
use hyperliquid.Portfolio.Project.{
  caps_of, filled_ranges, check_reductions, validate_final_ranges, project_and_validate_portfolio,
}
use hyperliquid.Portfolio.Project.Accepted.{project-IsProjected, Reduces, check_reductions-All}

module _ (d : Decimal) where
  ranged_assets :
      (input : PortfolioProjectionInput d) (opens : BTreeMap String (Sides d))
      (deltas : BTreeMap String d.Value) {ranges : BTreeMap String (ExposureRange d)}
      → projected_ranges d input (portfolio_assets d input) opens deltas ≡ ok ranges
      → (a : String) → contains_key a ranges ≡ contains_key a (portfolio_assets d input)
  unfolding projected_ranges
  ranged_assets input opens deltas h a =
      collect-keys (project_range d input opens deltas) a (keys (portfolio_assets d input)) [] h
      ∙ nothing_more (ExposureRange d) a (member a (keys (portfolio_assets d input)))
      ∙ member-keys a (portfolio_assets d input)

  -- The positions in which the assets end are within the bounds: each of them, the sum of their sizes and
  -- their sum.
  pub record EndsWithin (asset_bound : String → d.Value) (gross_bound net_bound : d.Value)
      (assets : List String) (outcome : String → d.Value) : Type 0 where
    pub each :
        (a : String) → member a assets ≡ true → d.leb (d.abs (outcome a)) (asset_bound a) ≡ true
    pub gross :
        {g : d.Value}
        → sum_checked d (map (λ a. d.abs (outcome a)) assets) "gross" ≡ ok g
        → d.leb g gross_bound ≡ true
    pub net :
        {n : d.Value}
        → sum_checked d (map outcome assets) "net" ≡ ok n
        → d.leb (d.abs n) net_bound ≡ true

  -- The sums of what lies in the ranges are within their metrics.
  contained-sums :
      (ranges : BTreeMap String (ExposureRange d)) (m : Metrics d) (outcome : String → d.Value)
      → range_metrics d ranges ≡ ok m
      → All (λ e. Contains d e.1 (outcome e.0)) ranges
      → ((g : d.Value)
          → sum_checked d (map (λ a. d.abs (outcome a)) (keys ranges)) "gross" ≡ ok g
          → d.leb g m.gross ≡ true)
        × ((n : d.Value)
            → sum_checked d (map outcome (keys ranges)) "net" ≡ ok n
            → d.leb (d.abs n) (worst_net d m) ≡ true)
  unfolding range_metrics
  contained-sums ranges m outcome h inside =
      >>=-ok (sum_checked d (map (magnitude d) (values ranges)) "projected gross") _ h (λ g e₀ h₀.
        >>=-ok (sum_checked d (map (λ r. r.minimum) (values ranges)) "minimum net") _ h₀
          (λ low e₁ h₁.
            >>=-ok (sum_checked d (map (λ r. r.maximum) (values ranges)) "maximum net") _ h₁
              (λ high e₂ h₂.
                subst
                  (λ (k : Metrics d).
                    ((g : d.Value)
                      → sum_checked d (map (λ a. d.abs (outcome a)) (keys ranges)) "gross" ≡ ok g
                      → d.leb g k.gross ≡ true)
                    × ((n : d.Value)
                        → sum_checked d (map outcome (keys ranges)) "net" ≡ ok n
                        → d.leb (d.abs n) (worst_net d k) ≡ true))
                  (ok_injective h₂)
                  (
                    λ x s.
                        sum_from-le d (λ a. d.abs (outcome a)) (magnitude d) ranges d.zero d.zero
                          "gross" "projected gross"
                          (All-mono ranges
                            (λ e c. abs_between d e.1.minimum (outcome e.0) e.1.maximum c.0 c.1)
                            inside)
                          (d.leb_refl d.zero) s e₀,
                    λ x s.
                        abs_between d low x high
                          (sum_from-ge d outcome (λ r. r.minimum) ranges d.zero d.zero "net"
                            "minimum net" (All-mono ranges (λ e c. c.0) inside) (d.leb_refl d.zero)
                            s e₁)
                          (sum_from-le d outcome (λ r. r.maximum) ranges d.zero d.zero "net"
                            "maximum net" (All-mono ranges (λ e c. c.1) inside) (d.leb_refl d.zero)
                            s e₂),
                  ))))

  project_range-zero :
      (input : PortfolioProjectionInput d) (opens : BTreeMap String (Sides d))
      (deltas : BTreeMap String d.Value) (a : String)
      → or_default (get a deltas) d.zero ≡ d.zero
      → project_range d input opens deltas a ≡ project_range d input opens [] a
  unfolding project_range get
  project_range-zero input opens deltas a e = rw (e) refl

  found :
      {V : Type 0} (P : String × V → Type 0) (m : BTreeMap String V) (a : String)
      → All P m
      → contains_key a m ≡ true
      → (v : V) × (get a m ≡ some v) × P (a, v)
  found P m a h c = elim (Option-cases (get a m)) [
    | inl e ↦ absurd (let k = rw (e) at c in cc)
    | inr (v, e) ↦ (v, e, All-get P a v m h e)
  ]

  magnitude_at-get :
      (m : BTreeMap String (ExposureRange d)) (a : String) {range : ExposureRange d}
      → get a m ≡ some range
      → magnitude_at d m a ≡ magnitude d range
  magnitude_at-get m a e =
      ap {B = d.Value} (λ q. elim q [ none ↦ d.zero | some r ↦ magnitude d r ]) e

  -- No asset's worst case is larger than without any delta.
  no_larger :
      (input : PortfolioProjectionInput d) (opens : BTreeMap String (Sides d))
      (deltas : BTreeMap String d.Value) (ranges baseline : BTreeMap String (ExposureRange d))
      (a : String)
      → projected_ranges d input (portfolio_assets d input) opens deltas ≡ ok ranges
      → projected_ranges d input (portfolio_assets d input) opens [] ≡ ok baseline
      → All (λ e. (e.1 ≡ d.zero) ⊎ Reduces d input ranges baseline e.0 e.1) deltas
      → contains_key a ranges ≡ true
      → d.leb (magnitude_at d ranges a) (magnitude_at d baseline a) ≡ true
  unfolding projected_ranges
  no_larger input opens deltas ranges baseline a h₀ h₁ reduces c =
      let assets = portfolio_assets d input in
      let c' : contains_key a baseline ≡ true =
        ranged_assets input opens [] h₁ a ∙ sym (ranged_assets input opens deltas h₀ a) ∙ c in
      let (range, e₀, made₀) =
        found (λ e. project_range d input opens deltas e.0 ≡ ok e.1) ranges a
          (collect-All (λ e. project_range d input opens deltas e.0 ≡ ok e.1)
            (project_range d input opens deltas) (keys assets) [] (λ k v e. e) tt h₀)
          c in
      let (base, e₁, made₁) =
        found (λ e. project_range d input opens [] e.0 ≡ ok e.1) baseline a
          (collect-All (λ e. project_range d input opens [] e.0 ≡ ok e.1)
            (project_range d input opens []) (keys assets) [] (λ k v e. e) tt h₁)
          c' in
      let unmoved : or_default (get a deltas) d.zero ≡ d.zero
          → d.leb (magnitude_at d ranges a) (magnitude_at d baseline a) ≡ true =
        λ z.
          let same : range ≡ base =
            ok_injective (sym made₀ ∙ project_range-zero input opens deltas a z ∙ made₁) in
          subst (λ b. d.leb (magnitude_at d ranges a) b ≡ true)
            (sym (magnitude_at-get baseline a e₁))
            (subst (λ b. d.leb b (magnitude d base) ≡ true)
              (sym (magnitude_at-get ranges a e₀ ∙ ap (magnitude d) same))
              (d.leb_refl (magnitude d base))) in
      elim (Option-cases (get a deltas)) [
        | inl none_there ↦ unmoved (rw (none_there) refl)
        | inr (v, there) ↦ elim (All-get _ a v deltas reduces there) [
          | inl zero ↦ unmoved (rw (there) zero)
          | inr less ↦ less.smaller
        ]
      ]

  -- What is accepted although the filled positions break a cap only takes from them: each delta that is
  -- not zero is against the filled position of its asset and no larger than it. However it fills, no asset
  -- ends beyond its worst case without any delta, and neither does the sum of the sizes nor the size of
  -- the sum, where these do not overflow.
  pub project-Reduces :
      (input : PortfolioProjectionInput d) {p : PortfolioProjection d} {caps : Caps d}
      {filled : Metrics d}
      → project_and_validate_portfolio d input ≡ ok p
      → caps_of d input ≡ ok caps
      → range_metrics d (filled_ranges d input) ≡ ok filled
      → exceeds d caps (filled_ranges d input) filled ≡ true
      → (open_by_asset : BTreeMap String (Sides d)) × (baseline : BTreeMap String (ExposureRange d))
        × (before : Metrics d) × (active_open_exposure d input ≡ ok open_by_asset)
        × (projected_ranges d input (portfolio_assets d input) open_by_asset [] ≡ ok baseline)
        × (range_metrics d baseline ≡ ok before)
        × All
            (λ e. (e.1 ≡ d.zero) ⊎ Reduces d input p.projected_ranges baseline e.0 e.1)
            p.rounded_deltas
        × ((outcome : String → d.Value)
            → ((a : String) → MayEnd d input open_by_asset p.rounded_deltas a (outcome a))
            → EndsWithin
                (magnitude_at d baseline)
                before.gross
                (worst_net d before)
                (keys p.projected_ranges)
                outcome)
  unfolding validate_final_ranges
  project-Reduces input {p} {caps} {filled} h c f breaks =
      let g = project-IsProjected d input h in
      let same : g.caps ≡ caps = let k = g.has_caps in cc in
      let final = g.final in
      let m : Metrics d = record {
        gross = p.maximum_projected_gross;
        minimum_net = p.minimum_projected_net;
        maximum_net = p.maximum_projected_net;
      } in
      let rest = rw (f, same, breaks, validate_final_ranges) at final in
      >>=-ok (projected_ranges d input (portfolio_assets d input) g.open_by_asset []) _ rest
        (λ baseline e₀ h₀. >>=-ok (range_metrics d baseline) _ h₀ (λ before e₁ h₁.
          >>=-ok (check_reductions d input p.projected_ranges baseline p.rounded_deltas) _ h₁
            (λ u e₂ h₂.
              let reduces =
                check_reductions-All d input p.projected_ranges baseline p.rounded_deltas e₂ in
              let gross_le : d.leb m.gross before.gross ≡ true = ground arith in
              let net_le : d.leb (worst_net d m) (worst_net d before) ≡ true = ground arith in
              (
                g.open_by_asset,
                baseline,
                before,
                g.open_orders,
                e₀,
                e₁,
                reduces,
                λ outcome ends.
                    let inside =
                      projected_ranges-Contains d input g.open_by_asset p.rounded_deltas
                        (portfolio_assets d input) outcome ends g.ranges in
                    let sums = contained-sums p.projected_ranges m outcome g.metrics inside in
                    record {
                      each = λ a there.
                          let c = sym (member-keys a p.projected_ranges) ∙ there in
                          let (range, e, held) =
                            found (λ e. Contains d e.1 (outcome e.0)) p.projected_ranges a inside
                              c in
                          let size : d.leb (d.abs (outcome a)) (magnitude_at d p.projected_ranges a)
                              ≡ true =
                            subst (λ b. d.leb (d.abs (outcome a)) b ≡ true)
                              (sym (magnitude_at-get p.projected_ranges a e))
                              (abs_between d range.minimum (outcome a) range.maximum held.0
                                held.1) in
                          d.leb_trans _ _ _ size (
                            no_larger input g.open_by_asset p.rounded_deltas p.projected_ranges
                              baseline a g.ranges e₀ reduces c);
                      gross = λ {g = x} s. d.leb_trans x m.gross before.gross (sums.0 x s) gross_le;
                      net = λ {n = x} s.
                          d.leb_trans (d.abs x) (worst_net d m) (worst_net d before) (sums.1 x s)
                            net_le;
                    },
              ))))
