-- ===== src/Portfolio/Targets.antt =====
-- The targets of a projection under the caps on gross and net exposure
-- (crates/copytrade-core/src/portfolio_risk.rs).
use hyperliquid.Base.{
  Bool, true, false, not, ◌||◌, ◌&&◌, Option, none, some, List, [], ◌∷◌, String, Result, ok, ◌>>=◌,
  ◌>>◌, fail_if, ok_or, if◌then◌else◌, map, filter, Ordering,
}
use hyperliquid.BTreeMap.{string_ord, BTreeMap, get, insert, values, then_with}
use hyperliquid.Decimal.{Decimal, lt, is_zero}
use hyperliquid.Portfolio.{MarketRules, RiskViolation, arithmetic_overflow, checked, sum_checked}

-- `min_by`, the first least element, and `max_by`, the last greatest, for an order's strict test.
unfoldable pub min_by {ℓ} : {A : Type ℓ} → (A → A → Bool) → List A → Option A
min_by less [] = none
min_by less (x ∷ xs) = elim (min_by less xs) [
  | none ↦ some x
  | some y ↦ if less y x then some y else some x
]

unfoldable pub max_by {ℓ} : {A : Type ℓ} → (A → A → Bool) → List A → Option A
max_by less [] = none
max_by less (x ∷ xs) = elim (max_by less xs) [
  | none ↦ some x
  | some y ↦ if less y x then some x else some y
]

-- A loop over `values_mut`, on the values that pass a test.
unfoldable pub try_update {ℓ} :
    {E : Type ℓ} {V : Type 0}
    → (V → Bool)
    → (V → Result E V)
    → BTreeMap String V
    → Result E (BTreeMap String V)
try_update test f [] = ok []
try_update test f ((k, v) ∷ m) = do
  w ← if test v then f v else ok v
  rest ← try_update test f m
  ok ((k, w) ∷ rest)

abbrev is_lt : Ordering → Bool
is_lt Ordering.lt = true
is_lt _ = false

module _ (d : Decimal) where
  -- `cmp` of two decimals
  abbrev pub cmp : d.Value → d.Value → Ordering
  cmp a b = if d.leb a b then if d.leb b a then Ordering.eq else Ordering.lt else Ordering.gt

  -- The order of `trim_gross_residual`: by size, then by the asset, downwards.
  abbrev pub less_residual : String × d.Value → String × d.Value → Bool
  less_residual x y = is_lt (then_with (cmp (d.abs x.1) (d.abs y.1)) (string_ord.cmp y.0 x.0))

  -- The order of the reductions that are staged: by size, then by the asset.
  abbrev pub less_reduction : String × d.Value → String × d.Value → Bool
  less_reduction x y = is_lt (then_with (cmp (d.abs x.1) (d.abs y.1)) (string_ord.cmp x.0 y.0))

  -- The residual taken from a target.
  unfoldable pub trim : d.Value → d.Value → Result (RiskViolation d) d.Value
  trim target residual = do
    fail_if (lt d (d.abs target) residual) (arithmetic_overflow "gross residual exceeds target")
    if d.is_sign_positive target
        then checked d (d.checked_sub target residual) "positive gross residual"
        else checked d (d.checked_add target residual) "negative gross residual"

  unfoldable pub trim_gross_residual :
      BTreeMap String d.Value → d.Value → Result (RiskViolation d) (BTreeMap String d.Value)
  unfolding trim
  trim_gross_residual targets gross_cap = do
    scaled_gross ← sum_checked d (map d.abs (values targets)) "scaled target gross"
    if d.leb scaled_gross gross_cap then ok targets else do
      residual ← checked d (d.checked_sub scaled_gross gross_cap) "gross scaling residual"
      entry ←
          ok_or (max_by less_residual (filter (λ e. not (is_zero d e.1)) targets))
            (arithmetic_overflow "gross residual target")
      target ← ok_or (get entry.0 targets) (arithmetic_overflow "gross residual lookup")
      trimmed ← trim target residual
      ok (insert entry.0 trimmed targets)

  unfoldable pub scale_targets_to_gross_cap :
      BTreeMap String d.Value → d.Value → Result (RiskViolation d) (BTreeMap String d.Value)
  unfolding trim_gross_residual
  scale_targets_to_gross_cap targets gross_cap = do
    gross ← sum_checked d (map d.abs (values targets)) "target gross"
    if d.leb gross gross_cap || is_zero d gross then ok targets else do
      scale ← checked d (d.checked_div gross_cap gross) "gross scaling"
      scaled ←
          try_update (λ v. true) (λ v. checked d (d.checked_mul v scale) "scaled target") targets
      trim_gross_residual scaled gross_cap

  abbrev pub is_positive : d.Value → Bool
  is_positive v = lt d d.zero v

  abbrev pub is_negative : d.Value → Bool
  is_negative v = lt d v d.zero

  unfoldable pub enforce_target_net_cap :
      BTreeMap String d.Value → d.Value → Result (RiskViolation d) (BTreeMap String d.Value)
  enforce_target_net_cap targets net_cap = do
    positive ← sum_checked d (filter is_positive (values targets)) "positive targets"
    negative ← sum_checked d (map d.abs (filter is_negative (values targets))) "negative targets"
    net ← checked d (d.checked_sub positive negative) "target net"
    if lt d net_cap net && not (is_zero d positive)
        then (do
          allowed ← checked d (d.checked_add negative net_cap) "allowed positive target"
          scale ← checked d (d.checked_div allowed positive) "positive net scaling"
          try_update is_positive
              (λ v. checked d (d.checked_mul v scale) "net-scaled positive target") targets)
        else if lt d net (d.neg net_cap) && not (is_zero d negative)
        then (do
          allowed ← checked d (d.checked_add positive net_cap) "allowed negative target"
          scale ← checked d (d.checked_div allowed negative) "negative net scaling"
          try_update is_negative
              (λ v. checked d (d.checked_mul v scale) "net-scaled negative target") targets)
        else ok targets

  unfoldable pub round_down_to_step : d.Value → d.Value → Result (RiskViolation d) d.Value
  round_down_to_step value step = do
    units ← checked d (d.checked_div value step) "round-down units"
    checked d (d.checked_mul (d.floor units) step) "round-down result"

  unfoldable pub round_up_to_step : d.Value → d.Value → Result (RiskViolation d) d.Value
  round_up_to_step value step = do
    units ← checked d (d.checked_div value step) "round-up units"
    checked d (d.checked_mul (d.ceil units) step) "round-up result"

  unfoldable pub round_delta : d.Value → MarketRules d → Result (RiskViolation d) d.Value
  unfolding round_down_to_step round_up_to_step
  round_delta delta rules = if is_zero d delta then ok d.zero else do
    rounded_price ←
        if is_positive delta
        then round_up_to_step rules.mark_price rules.price_tick
        else round_down_to_step rules.mark_price rules.price_tick
    quantity ← checked d (d.checked_div (d.abs delta) rounded_price) "unrounded quantity"
    rounded_quantity ← round_down_to_step quantity rules.size_step
    notional ← checked d (d.checked_mul rounded_quantity rounded_price) "rounded notional"
    ok (if is_positive delta then notional else d.neg notional)
