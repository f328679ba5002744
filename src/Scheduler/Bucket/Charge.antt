-- ===== src/Scheduler/Bucket/Charge.antt =====
-- When a charge is made, and what it changes.
use native.Mathlib.Nat.{mul-le-mul_right}
use hyperliquid.Base.{ℕ, ◌+◌, ◌*◌, ◌/◌, ◌≤◌, ◌<◌, ◌≡◌, ◌≢◌, ◌⊎◌, ◌↔◌, inl, inr, false, arith, u32}
use hyperliquid.Scheduler.Request.{BudgetClass, source_polling}
use hyperliquid.Scheduler.Bucket.{
  WeightedTokenBucket, refill, charge, try_charge, charged, debit, is_overweight, is_window_full,
  is_short_of_units, passes_capacity,
}
use hyperliquid.Scheduler.Bucket.Sound.{IsBudget, IsSound, refill-IsSound, capacity_weight-eq-rate}

-- One budget can bear a weight: in the units left and in the window's weight.
abbrev pub Bears : ℕ → ℕ → ℕ → ℕ → ℕ → Type 0
Bears window units rate consumed weight = (weight * window ≤ units) × (consumed + weight ≤ rate)

abbrev pub BearsTotal : ℕ → WeightedTokenBucket → Type 0
BearsTotal w b = Bears b.window_ms b.total_units b.total_refill_per_ms b.total_consumed_in_window w

abbrev pub BearsNormal : ℕ → WeightedTokenBucket → Type 0
BearsNormal w b =
    Bears b.window_ms b.normal_units b.normal_refill_per_ms b.normal_consumed_in_window w

abbrev pub BearsSource : ℕ → WeightedTokenBucket → Type 0
BearsSource w b =
    Bears b.window_ms b.source_units b.source_refill_per_ms b.source_consumed_in_window w

abbrev pub BearsEnrichment : ℕ → WeightedTokenBucket → Type 0
BearsEnrichment w b =
    Bears b.window_ms b.enrichment_units b.enrichment_refill_per_ms b.enrichment_consumed_in_window
      w

-- The budgets that a request of a class draws on can bear it.
abbrev pub Affords : BudgetClass → ℕ → WeightedTokenBucket → Type 0
Affords BudgetClass.critical w b = BearsTotal w b
Affords source_polling w b = BearsTotal w b × BearsNormal w b × BearsSource w b
Affords BudgetClass.normal w b = BearsTotal w b × BearsNormal w b × BearsEnrichment w b

bears_window :
    (window capacity units rate consumed w : ℕ)
    → 0 < window
    → IsBudget window capacity units rate consumed
    → (passes_capacity consumed w (u32 (capacity / window)) ≡ false) ↔ (consumed + w ≤ rate)
bears_window window capacity units rate consumed w p h = (
  λ t. ground (arith, capacity_weight-eq-rate window capacity units rate consumed p h),
  λ t. ground (arith, capacity_weight-eq-rate window capacity units rate consumed p h),
)

-- What fits the window's weight is not overweight.
bears_capacity :
    (window capacity units rate consumed w : ℕ)
    → IsBudget window capacity units rate consumed
    → consumed + w ≤ rate
    → w * window ≤ capacity
bears_capacity window capacity units rate consumed w h t =
    rw h.capacity_eq (mul-le-mul_right window (omega arith))

-- The tests on one budget, together.
abbrev Agrees : ℕ → ℕ → ℕ → ℕ → ℕ → ℕ → Type 0
Agrees window capacity units rate consumed w =
    (Bears window units rate consumed w → w * window ≤ capacity)
    × ((passes_capacity consumed w (u32 (capacity / window)) ≡ false) ↔ (consumed + w ≤ rate))

budget-Agrees :
    (window capacity units rate consumed w : ℕ)
    → 0 < window
    → IsBudget window capacity units rate consumed
    → Agrees window capacity units rate consumed w
budget-Agrees window capacity units rate consumed w p h = (
  λ t. bears_capacity window capacity units rate consumed w h t.1,
  bears_window window capacity units rate consumed w p h,
)

module _ (w : ℕ) (b : WeightedTokenBucket) (h : IsSound b) where
  total-Agrees :
      Agrees b.window_ms b.total_capacity_units b.total_units b.total_refill_per_ms
        b.total_consumed_in_window w
  total-Agrees = budget-Agrees _ _ _ _ _ w h.window_pos h.total

  normal-Agrees :
      Agrees b.window_ms b.normal_capacity_units b.normal_units b.normal_refill_per_ms
        b.normal_consumed_in_window w
  normal-Agrees = budget-Agrees _ _ _ _ _ w h.window_pos h.normal

  source-Agrees :
      Agrees b.window_ms b.source_capacity_units b.source_units b.source_refill_per_ms
        b.source_consumed_in_window w
  source-Agrees = budget-Agrees _ _ _ _ _ w h.window_pos h.source

  enrichment-Agrees :
      Agrees b.window_ms b.enrichment_capacity_units b.enrichment_units b.enrichment_refill_per_ms
        b.enrichment_consumed_in_window w
  enrichment-Agrees = budget-Agrees _ _ _ _ _ w h.window_pos h.enrichment

  pub charge_iff : (class : BudgetClass) → ((charge class w b).1 ≡ charged) ↔ Affords class w b
  unfolding charge is_overweight is_window_full is_short_of_units
  charge_iff BudgetClass.critical =
      (λ t. ground (arith, total-Agrees), λ t. ground (arith, total-Agrees))
  charge_iff source_polling = (
    λ t. ground (arith, total-Agrees, normal-Agrees, source-Agrees),
    λ t. ground (arith, total-Agrees, normal-Agrees, source-Agrees),
  )
  charge_iff BudgetClass.normal = (
    λ t. ground (arith, total-Agrees, normal-Agrees, enrichment-Agrees),
    λ t. ground (arith, total-Agrees, normal-Agrees, enrichment-Agrees),
  )

-- A request is charged exactly when each budget that its class draws on, as refilled to the present,
-- has the units for it and room for its weight in the window.
pub try_charge_iff :
    (class : BudgetClass) (w now_ms : ℕ) (b : WeightedTokenBucket)
    → IsSound b
    → ((try_charge class w now_ms b).1 ≡ charged) ↔ Affords class w (refill now_ms b)
unfolding try_charge
try_charge_iff class w now_ms b h = charge_iff w (refill now_ms b) (refill-IsSound now_ms h) class

-- A charge that is refused leaves the refilled bucket as it is; one that is made is the debit.
pub charge-cases :
    (class : BudgetClass) (w : ℕ) (b : WeightedTokenBucket)
    → ((charge class w b).1 ≡ charged) × ((charge class w b).0 ≡ debit class w (w * b.window_ms) b)
      ⊎ ((charge class w b).1 ≢ charged) × ((charge class w b).0 ≡ b)
unfolding charge
charge-cases class w b = ground arith

pub debit-IsSound :
    (class : BudgetClass) (w : ℕ) (b : WeightedTokenBucket)
    → IsSound b
    → Affords class w b
    → IsSound (debit class w (w * b.window_ms) b)
unfolding debit
debit-IsSound BudgetClass.critical w b h a = ground arith
debit-IsSound source_polling w b h a = ground arith
debit-IsSound BudgetClass.normal w b h a = ground arith

-- A charge keeps the invariant, whatever its class, weight and time, and whether it is made or not.
pub try_charge-IsSound :
    (class : BudgetClass) (w now_ms : ℕ) {b : WeightedTokenBucket}
    → IsSound b
    → IsSound (try_charge class w now_ms b).0
unfolding try_charge
try_charge-IsSound class w now_ms {b} h =
    let r = refill now_ms b in
    let s = refill-IsSound now_ms h in
    elim (charge-cases class w r) [
      | inl (made, e) ↦ rw e (debit-IsSound class w r s ((charge_iff w r s class).0 made))
      | inr (_, e) ↦ rw e s
    ]
