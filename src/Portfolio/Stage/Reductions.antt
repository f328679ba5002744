-- ===== src/Portfolio/Stage/Reductions.antt =====
-- What is staged: reductions of the worst case of their asset, and no worse a net.
use mathlib.Core.Path.{fun_ext}
use hyperliquid.Base.{
  ◌+◌, ◌≡◌, Bool, true, false, some, List, [], ◌∷◌, String, Result, ok, arith, ◌⊎◌, inl, inr,
  Bool-cases, Option-cases, Result-cases, refl, sym, ap, ◌∙◌, subst, ◌||◌,
}
use hyperliquid.BTreeMap.{string_ord, BTreeMap, BTreeSet, get, get-insert, insert, size, keys}
use hyperliquid.Decimal.{Decimal, is_zero}
use hyperliquid.Portfolio.{PortfolioProjectionInput, ExposureRange, RiskViolation, Sides, collect}
use hyperliquid.Portfolio.Ranges.{
  range_metrics, Metrics, worst_net, projected_ranges, project_range, magnitude_at,
}
use hyperliquid.Portfolio.Stage.{
  ranges_for, metrics_for, stage_asset, stage_assets, prune, prune_all, stage_risk_reducing_deltas,
}
use hyperliquid.Portfolio.Stage.Laws.{Kept, prune-ne-none, prune_lem, nonzeros-le}

module _ (d : Decimal) where
  module _ (input : PortfolioProjectionInput d) (assets : BTreeSet String)
      (open_by_asset : BTreeMap String (Sides d)) where
    -- The delta is the one of the asset, and alone it makes the asset's worst exposure no larger.
    pub record Reduces (baseline : BTreeMap String (ExposureRange d))
        (deltas : BTreeMap String d.Value) (a : String) (v : d.Value) : Type 0 where
      pub delta : get a deltas ≡ some v
      pub alone : BTreeMap String (ExposureRange d)
      pub ranges : ranges_for d input assets open_by_asset (insert a v []) ≡ ok alone
      pub smaller : d.leb (magnitude_at d alone a) (magnitude_at d baseline a) ≡ true

    -- Each delta is zero or such a reduction.
    abbrev pub Staged :
        BTreeMap String (ExposureRange d)
        → BTreeMap String d.Value
        → BTreeMap String d.Value
        → Type 0
    Staged baseline deltas staged =
        (a : String) (v : d.Value)
        → get a staged ≡ some v
        → (v ≡ d.zero) ⊎ Reduces baseline deltas a v

    abbrev AllZero : BTreeMap String d.Value → Type 0
    AllZero staged = (a : String) (v : d.Value) → get a staged ≡ some v → v ≡ d.zero

    module _ (baseline : BTreeMap String (ExposureRange d)) (deltas : BTreeMap String d.Value) where
      stage_asset_lem :
          (a : String) {v : d.Value} {b : Bool}
          → stage_asset d input assets open_by_asset baseline deltas a ≡ ok (v, b)
          → ((v ≡ d.zero) ⊎ Reduces baseline deltas a v) × (b ≡ false → v ≡ d.zero)
      unfolding stage_asset
      stage_asset_lem a {v} {b} h = elim (Option-cases (get a deltas)) [
        | inl missing ↦ (inl (ground arith), λ q. ground arith)
        | inr (w, found) ↦ elim (Bool-cases (is_zero d w)) [
          | inl zero ↦ (inl (ground arith), λ q. ground arith)
          | inr nonzero ↦
              elim (Result-cases (ranges_for d input assets open_by_asset (insert a w []))) [
                | inl (r, e) ↦
                    elim (Bool-cases (d.leb (magnitude_at d r a) (magnitude_at d baseline a))) [
                      | inl le ↦
                          let same : w ≡ v = ground arith in
                          (
                            inr (
                                subst (Reduces baseline deltas a) same
                                  (record { delta = found; alone = r; ranges = e; smaller = le })),
                            λ q. ground arith,
                          )
                      | inr gt ↦ (inl (ground arith), λ q. ground arith)
                    ]
                | inr (x, e) ↦ absurd (ground arith)
              ]
        ]
      ]

      Staged-insert :
          (k : String) (w : d.Value) (m : BTreeMap String d.Value)
          → (w ≡ d.zero) ⊎ Reduces baseline deltas k w
          → Staged baseline deltas m
          → Staged baseline deltas (insert k w m)
      Staged-insert k w m h s a v e = elim (string_ord.dec k a) [
        | yes q ↦
            let same : w ≡ v = let g = get-insert k a w m in ground arith in
            subst (λ t. (t ≡ d.zero) ⊎ Reduces baseline deltas a t) same
              (subst (λ x. (w ≡ d.zero) ⊎ Reduces baseline deltas x w) q h)
        | no q ↦ s a v (let g = get-insert k a w m in ground arith)
      ]

      AllZero-insert :
          (k : String) (m : BTreeMap String d.Value) → AllZero m → AllZero (insert k d.zero m)
      AllZero-insert k m z a v e = elim (string_ord.dec k a) [
        | yes q ↦ let g = get-insert k a d.zero m in ground arith
        | no q ↦ z a v (let g = get-insert k a d.zero m in ground arith)
      ]

      stage_assets_lem :
          (rest : List String) (m : BTreeMap String d.Value) (b : Bool)
          {m' : BTreeMap String d.Value} {b' : Bool}
          → stage_assets d input assets open_by_asset baseline deltas rest m b ≡ ok (m', b')
          → Staged baseline deltas m
          → (b ≡ false → AllZero m)
          → Staged baseline deltas m' × (b' ≡ false → AllZero m')
      unfolding stage_assets
      stage_assets_lem [] m b {m'} h s z =
          let same : m ≡ m' = ground arith in
          (subst (Staged baseline deltas) same s, λ q. subst AllZero same (z (ground arith)))
      stage_assets_lem (a ∷ rest) m b h s z =
          elim (Result-cases (stage_asset d input assets open_by_asset baseline deltas a)) [
            | inl ((v, c), e) ↦
                let one = stage_asset_lem a e in
                stage_assets_lem rest (insert a v m) (c || b) (ground arith)
                  (Staged-insert a v m one.0 s)
                  (λ q.
                    let zero : v ≡ d.zero = one.1 (ground arith) in
                    subst (λ t. AllZero (insert a t m)) (sym zero)
                      (AllZero-insert a m (z (ground arith))))
            | inr (x, e) ↦ absurd (ground arith)
          ]

    collect-cong :
        {f g : String → Result (RiskViolation d) (ExposureRange d)}
        → ((a : String) → f a ≡ g a)
        → (rest : List String) (m : BTreeMap String (ExposureRange d))
        → collect f rest m ≡ collect g rest m
    collect-cong h rest m = rw (fun_ext h) refl

    -- Deltas that are all zero project like none.
    ranges_for-AllZero :
        (m : BTreeMap String d.Value)
        → AllZero m
        → ranges_for d input assets open_by_asset m ≡ ranges_for d input assets open_by_asset []
    unfolding projected_ranges project_range get
    ranges_for-AllZero m z = collect-cong (λ a. same a) (keys assets) []
      where
        same :
            (a : String)
            → project_range d input open_by_asset m a ≡ project_range d input open_by_asset [] a
        same a = elim (Option-cases (get a m)) [
          | inl e ↦ rw (e, project_range) refl
          | inr (v, e) ↦ let q = z a v e in rw (e, q, project_range) refl
        ]

    prune_all_lem :
        (worst : d.Value) (staged : BTreeMap String d.Value) {after : BTreeMap String d.Value}
        → prune_all d input assets open_by_asset worst staged ≡ ok after
        → ((m : Metrics d) × (metrics_for d input assets open_by_asset after ≡ ok m)
            × (d.leb (worst_net d m) worst ≡ true))
          × Kept d staged after
    unfolding prune_all
    prune_all_lem worst staged {after} h =
        elim (Option-cases (prune d input assets open_by_asset (size staged + 1) worst staged)) [
          | inl e ↦ absurd (
              prune-ne-none d input assets open_by_asset worst (size staged + 1) staged
                (omega (arith, nonzeros-le d staged)) e)
          | inr (r, e) ↦
              prune_lem d input assets open_by_asset worst (size staged + 1) staged
                (let q : r ≡ ok after = ground arith in e ∙ ap some q)
        ]

    Staged-Kept :
        (baseline : BTreeMap String (ExposureRange d))
        (deltas staged after : BTreeMap String d.Value)
        → Staged baseline deltas staged
        → Kept d staged after
        → Staged baseline deltas after
    Staged-Kept baseline deltas staged after s k a v e = elim (k a v e) [
      | inl z ↦ inl z
      | inr q ↦ s a v q
    ]

    -- What the staging leaves for a delta is zero, or the delta of its asset, which alone makes the
    -- worst exposure of the asset no larger; and the worst net exposure is no larger than without any.
    pub record IsStaged (deltas staged : BTreeMap String d.Value) : Type 0 where
      pub baseline : BTreeMap String (ExposureRange d)
      pub from : ranges_for d input assets open_by_asset [] ≡ ok baseline
      pub reductions : Staged baseline deltas staged
      pub net :
          (m : Metrics d)
          → range_metrics d baseline ≡ ok m
          → (n : Metrics d) × (metrics_for d input assets open_by_asset staged ≡ ok n)
            × (d.leb (worst_net d n) (worst_net d m) ≡ true)

    -- The second loop, after the first.
    pruned :
        (baseline : BTreeMap String (ExposureRange d))
        (deltas first staged : BTreeMap String d.Value) (mb : Metrics d)
        → ranges_for d input assets open_by_asset [] ≡ ok baseline
        → range_metrics d baseline ≡ ok mb
        → Staged baseline deltas first
        → prune_all d input assets open_by_asset (worst_net d mb) first ≡ ok staged
        → IsStaged deltas staged
    pruned baseline deltas first staged mb e q s h =
        let after = prune_all_lem (worst_net d mb) first h in
        record {
          baseline = baseline;
          from = e;
          reductions = Staged-Kept baseline deltas first staged s after.1;
          net = λ m r.
              let same : mb ≡ m = ground arith in
              subst
                (λ t.
                  (n : Metrics d) × (metrics_for d input assets open_by_asset staged ≡ ok n)
                  × (d.leb (worst_net d n) (worst_net d t) ≡ true))
                same after.0;
        }

    -- No reduction is staged: the vector is zero.
    unreduced :
        (baseline : BTreeMap String (ExposureRange d)) (deltas staged : BTreeMap String d.Value)
        → ranges_for d input assets open_by_asset [] ≡ ok baseline
        → Staged baseline deltas staged
        → AllZero staged
        → IsStaged deltas staged
    unfolding metrics_for
    unreduced baseline deltas staged e s z = record {
      baseline = baseline;
      from = e;
      reductions = s;
      net = λ m r. (m, rw (ranges_for-AllZero staged z, e) r, d.leb_refl (worst_net d m));
    }

    -- What is staged is reductions, and makes the net no worse.
    pub stage-IsStaged :
        (deltas : BTreeMap String d.Value) {staged : BTreeMap String d.Value}
        → stage_risk_reducing_deltas d input assets open_by_asset deltas ≡ ok staged
        → IsStaged deltas staged
    unfolding stage_risk_reducing_deltas
    stage-IsStaged deltas {staged} h =
        elim (Result-cases (ranges_for d input assets open_by_asset [])) [
          | inl (baseline, e) ↦
              elim (Result-cases (
                stage_assets d input assets open_by_asset baseline deltas (keys assets) [] false)) [
                  | inl ((first, true), f) ↦ elim (Result-cases (range_metrics d baseline)) [
                    | inl (mb, q) ↦
                        pruned baseline deltas first staged mb e q
                          (stage_assets_lem baseline deltas (keys assets) [] false f
                            (λ a v g. unfold get in absurd (cc))
                            (λ g a v k. unfold get in absurd (cc))).0
                          (ground arith)
                    | inr (x, q) ↦ absurd (ground arith)
                  ]
                  | inl ((first, false), f) ↦
                      let facts =
                        stage_assets_lem baseline deltas (keys assets) [] false f
                          (λ a v g. unfold get in absurd (cc))
                          (λ g a v k. unfold get in absurd (cc)) in
                      let same : first ≡ staged = ground arith in
                      subst (IsStaged deltas) same
                        (unreduced baseline deltas first e facts.0 (facts.1 refl))
                  | inr (x, f) ↦ absurd (ground arith)
                ]
          | inr (x, e) ↦ absurd (ground arith)
        ]
