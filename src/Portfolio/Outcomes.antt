-- ===== src/Portfolio/Outcomes.antt =====
-- The positions in which the open orders and the deltas may end lie in the projected ranges.
use hyperliquid.Base.{
  ◌≡◌, ◌⊎◌, inl, inr, true, some, [], ◌∷◌, String, ok, ok_or-ok, ok_injective, sym, ap, ◌∙◌, subst,
  arith, All, map,
}
use mathlib.Core.Option
use hyperliquid.BTreeMap.{string_ord, BTreeMap, BTreeSet, get, keys, values}
use hyperliquid.Decimal.{Decimal, max}
use hyperliquid.Portfolio.{PortfolioProjectionInput, ExposureRange, Sides, or_default, sum_from}
use hyperliquid.Portfolio.Collect.{collect-All}
use hyperliquid.Portfolio.Ranges.{project_range, projected_ranges}

module _ (d : Decimal) where
  abbrev Le : d.Value → d.Value → Type 0
  Le a b = d.leb a b ≡ true

  -- A part of a delta of either sign.
  abbrev pub IsPart : d.Value → d.Value → Type 0
  IsPart x delta = (Le d.zero x × Le x delta) ⊎ (Le x d.zero × Le delta x)

  -- A position that results from the filled one when parts of its open buys and sells and a part of its
  -- delta are filled.
  pub record IsOutcome (filled : d.Value) (sides : Sides d) (delta v : d.Value) : Type 0 where
    pub bought : d.Value
    pub sold : d.Value
    pub traded : d.Value
    pub after_buys : d.Value
    pub after_sells : d.Value
    pub some_bought : Le d.zero bought
    pub at_most_bought : Le bought sides.0
    pub some_sold : Le d.zero sold
    pub at_most_sold : Le sold sides.1
    pub traded_part : IsPart traded delta
    pub buys : d.checked_add filled bought ≡ some after_buys
    pub sells : d.checked_sub after_buys sold ≡ some after_sells
    pub trade : d.checked_add after_sells traded ≡ some v

  left_max : (a b : d.Value) → Le a (max d a b)
  left_max a b = ground (arith, d.leb_total a b, d.leb_refl a)

  right_max : (a b : d.Value) → Le b (max d a b)
  right_max a b = ground (arith, d.leb_total a b, d.leb_refl b)

  max_le : (a b c : d.Value) → Le a c → Le b c → Le (max d a b) c
  max_le a b c h k = ground arith

  sub_mono :
      (a b c e : d.Value) {x y : d.Value}
      → Le a c
      → Le e b
      → d.checked_sub a b ≡ some x
      → d.checked_sub c e ≡ some y
      → Le x y
  sub_mono a b c e h k p q =
      d.add_mono a (d.neg b) c (d.neg e) h (d.leb-neg e b k) (sym (d.sub-add a b) ∙ p)
        (sym (d.sub-add c e) ∙ q)

  sub_le : (a b : d.Value) {x : d.Value} → Le d.zero b → d.checked_sub a b ≡ some x → Le x a
  sub_le a b {x} h p =
      let sum : d.checked_add a (d.neg b) ≡ some x = sym (d.sub-add a b) ∙ p in
      let mirrored : d.checked_add (d.neg a) b ≡ some (d.neg x) =
        ap (d.checked_add (d.neg a)) (sym (d.neg-neg b))
        ∙ d.neg_add a (d.neg b)
        ∙ ap (Option.map d.neg) sum in
      let le = d.leb-neg (d.neg a) (d.neg x) (d.add_nonneg (d.neg a) b h mirrored) in
      subst (λ y. Le y a) (d.neg-neg x) (subst (Le (d.neg (d.neg x))) (d.neg-neg a) le)

  neg_nonpos : (a : d.Value) → Le d.zero a → Le (d.neg a) d.zero
  neg_nonpos a h = subst (Le (d.neg a)) d.neg-zero (d.leb-neg d.zero a h)

  neg_nonneg : (a : d.Value) → Le a d.zero → Le d.zero (d.neg a)
  neg_nonneg a h = subst (λ z. Le z (d.neg a)) d.neg-zero (d.leb-neg a d.zero h)

  part-max : (x delta : d.Value) → IsPart x delta → Le x (max d delta d.zero)
  part-max x delta (inl p) = d.leb_trans x delta _ p.1 (left_max delta d.zero)
  part-max x delta (inr p) = d.leb_trans x d.zero _ p.0 (right_max delta d.zero)

  neg-part-max : (x delta : d.Value) → IsPart x delta → Le (d.neg (max d (d.neg delta) d.zero)) x
  neg-part-max x delta (inl p) =
      d.leb_trans _ d.zero x
        (neg_nonpos (max d (d.neg delta) d.zero) (right_max (d.neg delta) d.zero)) p.0
  neg-part-max x delta (inr p) =
      let le =
        d.leb-neg (d.neg delta) (max d (d.neg delta) d.zero) (left_max (d.neg delta) d.zero) in
      d.leb_trans _ delta x (subst (Le (d.neg (max d (d.neg delta) d.zero))) (d.neg-neg delta) le)
        p.1

  le-abs : (a : d.Value) → Le a (d.abs a)
  le-abs a = elim (d.leb_total d.zero a) [
    | inl h ↦ subst (Le a) (sym (d.abs_nonneg a h)) (d.leb_refl a)
    | inr h ↦
        subst (Le a) (sym (d.abs_nonpos a h)) (d.leb_trans a d.zero (d.neg a) h (neg_nonneg a h))
  ]

  neg-abs : (a : d.Value) → Le (d.neg a) (d.abs a)
  neg-abs a = elim (d.leb_total d.zero a) [
    | inl h ↦
        subst (Le (d.neg a)) (sym (d.abs_nonneg a h))
          (d.leb_trans (d.neg a) d.zero a (neg_nonpos a h) h)
    | inr h ↦ subst (Le (d.neg a)) (sym (d.abs_nonpos a h)) (d.leb_refl (d.neg a))
  ]

  -- What lies between two numbers is no larger than the larger of them.
  pub abs_between :
      (low v high : d.Value) → Le low v → Le v high → Le (d.abs v) (max d (d.abs low) (d.abs high))
  abs_between low v high h k = elim (d.leb_total d.zero v) [
    | inl pos ↦
        subst (λ a. Le a (max d (d.abs low) (d.abs high))) (sym (d.abs_nonneg v pos))
          (d.leb_trans v high _ k
            (d.leb_trans high (d.abs high) _ (le-abs high) (right_max (d.abs low) (d.abs high))))
    | inr neg ↦
        subst (λ a. Le a (max d (d.abs low) (d.abs high))) (sym (d.abs_nonpos v neg))
          (d.leb_trans (d.neg v) (d.neg low) _ (d.leb-neg low v h) (
            d.leb_trans (d.neg low) (d.abs low) _ (neg-abs low)
              (left_max (d.abs low) (d.abs high))))
  ]

  abbrev pub Contains : ExposureRange d → d.Value → Type 0
  Contains range v = Le range.minimum v × Le v range.maximum

  outcome-range :
      (filled delta v minimum maximum less_open with_open : d.Value) (sides : Sides d)
      → d.checked_sub filled sides.1 ≡ some less_open
      → d.checked_sub less_open (max d (d.neg delta) d.zero) ≡ some minimum
      → d.checked_add filled sides.0 ≡ some with_open
      → d.checked_add with_open (max d delta d.zero) ≡ some maximum
      → IsOutcome filled sides delta v
      → Contains (record { minimum = minimum; maximum = maximum }) v
  outcome-range filled delta v minimum maximum less_open with_open sides e₀ e₁ e₂ e₃ o =
      let y = o.after_buys in
      let z = o.after_sells in
      let below : Le less_open z =
        sub_mono filled sides.1 y o.sold (d.add_nonneg filled o.bought o.some_bought o.buys)
          o.at_most_sold e₀ o.sells in
      let above : Le z with_open = d.leb_trans z y with_open (sub_le y o.sold o.some_sold o.sells) (
        d.add_mono filled o.bought filled sides.0 (d.leb_refl filled) o.at_most_bought o.buys e₂) in
      (
        d.add_mono less_open (d.neg (max d (d.neg delta) d.zero)) z o.traded below
            (neg-part-max o.traded delta o.traded_part)
            (sym (d.sub-add less_open (max d (d.neg delta) d.zero)) ∙ e₁) o.trade,
        d.add_mono z o.traded with_open (max d delta d.zero) above
            (part-max o.traded delta o.traded_part) o.trade e₃,
      )

  module _ (input : PortfolioProjectionInput d) (opens : BTreeMap String (Sides d))
      (deltas : BTreeMap String d.Value) where
    -- An asset may end in the position.
    abbrev pub MayEnd : String → d.Value → Type 0
    MayEnd asset v =
        IsOutcome (or_default (get asset input.filled_positions) d.zero)
          (or_default (get asset opens) (d.zero, d.zero)) (or_default (get asset deltas) d.zero) v

    project_range-Contains :
        (asset : String) (v : d.Value) (range : ExposureRange d)
        → MayEnd asset v
        → project_range d input opens deltas asset ≡ ok range
        → Contains range v
    unfolding project_range
    project_range-Contains asset v range o h =
        let filled = or_default (get asset input.filled_positions) d.zero in
        let sides = or_default (get asset opens) (d.zero, d.zero) in
        let delta = or_default (get asset deltas) d.zero in
        ok_or-ok (d.checked_sub filled sides.1) _ _ h (λ less_open e₀ h₀.
          ok_or-ok (d.checked_sub less_open (max d (d.neg delta) d.zero)) _ _ h₀ (λ minimum e₁ h₁.
            ok_or-ok (d.checked_add filled sides.0) _ _ h₁ (λ with_open e₂ h₂.
              ok_or-ok (d.checked_add with_open (max d delta d.zero)) _ _ h₂ (λ maximum e₃ h₃.
                subst (λ q. Contains q v) (ok_injective h₃)
                  (outcome-range filled delta v minimum maximum less_open with_open sides e₀ e₁ e₂
                    e₃ o)))))

    -- Every asset ends within its range.
    pub projected_ranges-Contains :
        (assets : BTreeSet String) (outcome : String → d.Value)
        {ranges : BTreeMap String (ExposureRange d)}
        → ((asset : String) → MayEnd asset (outcome asset))
        → projected_ranges d input assets opens deltas ≡ ok ranges
        → All (λ e. Contains e.1 (outcome e.0)) ranges
    unfolding projected_ranges
    projected_ranges-Contains assets outcome ends h =
        collect-All (λ e. Contains e.1 (outcome e.0)) (project_range d input opens deltas)
          (keys assets) [] (λ a range. project_range-Contains a (outcome a) range (ends a)) tt h

  -- Sums of smaller numbers are smaller.
  pub sum_from-le :
      (f : String → d.Value) (g : ExposureRange d → d.Value)
      (ranges : BTreeMap String (ExposureRange d)) (s t : d.Value) (p q : String) {x y : d.Value}
      → All (λ e. Le (f e.0) (g e.1)) ranges
      → Le s t
      → sum_from d s (map f (keys ranges)) p ≡ ok x
      → sum_from d t (map g (values ranges)) q ≡ ok y
      → Le x y
  unfolding sum_from
  sum_from-le f g [] s t p q {x} {y} h k e₀ e₁ =
      subst (λ a. Le a y) (ok_injective e₀) (subst (Le s) (ok_injective e₁) k)
  sum_from-le f g ((a, range) ∷ ranges) s t p q h k e₀ e₁ =
      ok_or-ok (d.checked_add s (f a)) _ _ e₀ (λ u i₀ h₀.
        ok_or-ok (d.checked_add t (g range)) _ _ e₁ (λ w i₁ h₁.
          sum_from-le f g ranges u w p q h.1 (d.add_mono s (f a) t (g range) k h.0 i₀ i₁) h₀ h₁))

  pub sum_from-ge :
      (f : String → d.Value) (g : ExposureRange d → d.Value)
      (ranges : BTreeMap String (ExposureRange d)) (s t : d.Value) (p q : String) {x y : d.Value}
      → All (λ e. Le (g e.1) (f e.0)) ranges
      → Le t s
      → sum_from d s (map f (keys ranges)) p ≡ ok x
      → sum_from d t (map g (values ranges)) q ≡ ok y
      → Le y x
  unfolding sum_from
  sum_from-ge f g [] s t p q {x} {y} h k e₀ e₁ =
      subst (λ a. Le a x) (ok_injective e₁) (subst (Le t) (ok_injective e₀) k)
  sum_from-ge f g ((a, range) ∷ ranges) s t p q h k e₀ e₁ =
      ok_or-ok (d.checked_add s (f a)) _ _ e₀ (λ u i₀ h₀.
        ok_or-ok (d.checked_add t (g range)) _ _ e₁ (λ w i₁ h₁.
          sum_from-ge f g ranges u w p q h.1 (d.add_mono t (g range) s (f a) k h.0 i₁ i₀) h₀ h₁))
