-- ===== src/Scheduler/Bucket.antt =====
-- `WeightedTokenBucket` (crates/copytrade-core/src/scheduler.rs): four budgets, each a capacity, the
-- units left, a refill rate and the weight consumed in the current window. A `&mut self` method
-- returns the new bucket. Divisions are by `window_ms`, which `new` refuses to be 0.
pub mod Sound
pub mod Charge
pub mod Reserve
use hyperliquid.Base.{
  ℕ, ◌+◌, ◌-◌, ◌*◌, ◌/◌, min, Bool, true, false, not, ◌&&◌, ◌||◌, Option, none, some, ltb, leb,
  ◌==◌, if◌then◌else◌, Result, ok, ◌>>=◌, ◌>>◌, ok_or, u32, u32_mod, u128_mod, u128_max,
  checked_add, checked_mul, checked_sub, saturating_add, saturating_mul,
}
use hyperliquid.Scheduler.Request.{
  BudgetClass, is_critical_class, is_source_class, is_normal_class, source_polling,
}
use hyperliquid.Scheduler.Policy.{
  ReadApiPolicy, PolicyError, validate, normal_underflow, budget_overflow, enrichment_underflow,
}

pub data BudgetDecision : Type 0 where
  charged insufficient overweight : BudgetDecision

pub record WeightedTokenBucket : Type 0 where
  pub total_capacity_units : ℕ
  pub normal_capacity_units : ℕ
  pub source_capacity_units : ℕ
  pub enrichment_capacity_units : ℕ
  pub total_units : ℕ
  pub normal_units : ℕ
  pub source_units : ℕ
  pub enrichment_units : ℕ
  pub total_refill_per_ms : ℕ
  pub normal_refill_per_ms : ℕ
  pub source_refill_per_ms : ℕ
  pub enrichment_refill_per_ms : ℕ
  pub window_ms : ℕ
  pub last_refill_ms : ℕ
  pub accounting_window_started_ms : ℕ
  pub total_consumed_in_window : ℕ
  pub normal_consumed_in_window : ℕ
  pub source_consumed_in_window : ℕ
  pub enrichment_consumed_in_window : ℕ

-- The budgets of `new`, full, with the products that it takes.
unfoldable pub full_bucket : ReadApiPolicy → ℕ → ℕ → ℕ → WeightedTokenBucket
full_bucket policy normal_weight enrichment_weight now_ms = record {
  total_capacity_units = policy.total_weight_per_window * policy.window_ms;
  normal_capacity_units = normal_weight * policy.window_ms;
  source_capacity_units = policy.source_polling_weight_per_window * policy.window_ms;
  enrichment_capacity_units = enrichment_weight * policy.window_ms;
  total_units = policy.total_weight_per_window * policy.window_ms;
  normal_units = normal_weight * policy.window_ms;
  source_units = policy.source_polling_weight_per_window * policy.window_ms;
  enrichment_units = enrichment_weight * policy.window_ms;
  total_refill_per_ms = policy.total_weight_per_window;
  normal_refill_per_ms = normal_weight;
  source_refill_per_ms = policy.source_polling_weight_per_window;
  enrichment_refill_per_ms = enrichment_weight;
  window_ms = policy.window_ms;
  last_refill_ms = now_ms;
  accounting_window_started_ms = now_ms;
  total_consumed_in_window = 0;
  normal_consumed_in_window = 0;
  source_consumed_in_window = 0;
  enrichment_consumed_in_window = 0;
}

-- A product that must fit 128 bits; its value is what `full_bucket` writes.
abbrev pub fits_window : ℕ → ℕ → Result PolicyError ℕ
fits_window weight window = ok_or (checked_mul u128_mod weight window) budget_overflow

unfoldable pub new : ReadApiPolicy → ℕ → Result PolicyError WeightedTokenBucket
new policy now_ms = do
  validate policy
  normal_weight ←
      ok_or (checked_sub policy.total_weight_per_window policy.reserved_weight_per_window)
        normal_underflow
  fits_window policy.total_weight_per_window policy.window_ms
  fits_window normal_weight policy.window_ms
  enrichment_weight ←
      ok_or (checked_sub normal_weight policy.source_polling_weight_per_window) enrichment_underflow
  fits_window policy.source_polling_weight_per_window policy.window_ms
  fits_window enrichment_weight policy.window_ms
  ok (full_bucket policy normal_weight enrichment_weight now_ms)

-- The refill of one budget.
unfoldable pub refill_units : ℕ → ℕ → ℕ → ℕ → ℕ
refill_units elapsed units rate capacity =
    min (saturating_add u128_max units (saturating_mul u128_max elapsed rate)) capacity

-- The new accounting window, once the old one is over.
unfoldable pub reset_window : ℕ → WeightedTokenBucket → WeightedTokenBucket
reset_window now_ms b =
    if leb b.window_ms (now_ms - b.accounting_window_started_ms)
    then record b {
      accounting_window_started_ms = now_ms;
      total_consumed_in_window = 0;
      normal_consumed_in_window = 0;
      source_consumed_in_window = 0;
      enrichment_consumed_in_window = 0;
    }
    else b

unfoldable pub refill : ℕ → WeightedTokenBucket → WeightedTokenBucket
unfolding reset_window
refill now_ms b =
    let elapsed = now_ms - b.last_refill_ms in
    if elapsed == 0
    then b
    else reset_window now_ms (record b {
      total_units = refill_units elapsed b.total_units b.total_refill_per_ms b.total_capacity_units;
      normal_units =
          refill_units elapsed b.normal_units b.normal_refill_per_ms b.normal_capacity_units;
      source_units =
          refill_units elapsed b.source_units b.source_refill_per_ms b.source_capacity_units;
      enrichment_units =
          refill_units elapsed b.enrichment_units b.enrichment_refill_per_ms
            b.enrichment_capacity_units;
      last_refill_ms = now_ms;
    })

-- The tests that a class has to pass: on the total, on all but `Critical` on the nonreserved
-- budget, and on its own share.
abbrev pub any_budget : BudgetClass → Bool → Bool → Bool → Bool → Bool
any_budget class total normal source enrichment =
    total
    || not (is_critical_class class) && normal
    || is_source_class class && source
    || is_normal_class class && enrichment

-- `capacity / window as u32`
abbrev pub capacity_weight : ℕ → WeightedTokenBucket → ℕ
capacity_weight capacity b = u32 (capacity / b.window_ms)

-- `consumed.checked_add(weight).is_none_or(|consumed| consumed > capacity)`
abbrev pub passes_capacity : ℕ → ℕ → ℕ → Bool
passes_capacity consumed weight capacity = elim (checked_add u32_mod consumed weight) [
  | none ↦ true
  | some sum ↦ ltb capacity sum
]

unfoldable pub is_overweight : BudgetClass → ℕ → WeightedTokenBucket → Bool
is_overweight class requested b =
    any_budget class (ltb b.total_capacity_units requested) (ltb b.normal_capacity_units requested)
      (ltb b.source_capacity_units requested) (ltb b.enrichment_capacity_units requested)

unfoldable pub is_window_full : BudgetClass → ℕ → WeightedTokenBucket → Bool
is_window_full class weight b =
    any_budget class
      (passes_capacity b.total_consumed_in_window weight (capacity_weight b.total_capacity_units b))
      (passes_capacity b.normal_consumed_in_window weight
        (capacity_weight b.normal_capacity_units b))
      (passes_capacity b.source_consumed_in_window weight
        (capacity_weight b.source_capacity_units b))
      (passes_capacity b.enrichment_consumed_in_window weight
        (capacity_weight b.enrichment_capacity_units b))

unfoldable pub is_short_of_units : BudgetClass → ℕ → WeightedTokenBucket → Bool
is_short_of_units class requested b =
    any_budget class (ltb b.total_units requested) (ltb b.normal_units requested)
      (ltb b.source_units requested) (ltb b.enrichment_units requested)

-- The subtractions and sums of a charge; a sum that passes u32 would wrap.
unfoldable pub debit : BudgetClass → ℕ → ℕ → WeightedTokenBucket → WeightedTokenBucket
debit BudgetClass.critical weight requested b = record b {
  total_units = b.total_units - requested;
  total_consumed_in_window = u32 (b.total_consumed_in_window + weight);
}
debit source_polling weight requested b = record b {
  total_units = b.total_units - requested;
  total_consumed_in_window = u32 (b.total_consumed_in_window + weight);
  normal_units = b.normal_units - requested;
  normal_consumed_in_window = u32 (b.normal_consumed_in_window + weight);
  source_units = b.source_units - requested;
  source_consumed_in_window = u32 (b.source_consumed_in_window + weight);
}
debit BudgetClass.normal weight requested b = record b {
  total_units = b.total_units - requested;
  total_consumed_in_window = u32 (b.total_consumed_in_window + weight);
  normal_units = b.normal_units - requested;
  normal_consumed_in_window = u32 (b.normal_consumed_in_window + weight);
  enrichment_units = b.enrichment_units - requested;
  enrichment_consumed_in_window = u32 (b.enrichment_consumed_in_window + weight);
}

-- What `try_charge` does after the refill.
unfoldable pub charge : BudgetClass → ℕ → WeightedTokenBucket → WeightedTokenBucket × BudgetDecision
charge class weight b = elim (checked_mul u128_mod weight b.window_ms) [
  | none ↦ (b, overweight)
  | some requested ↦
      if is_overweight class requested b
      then (b, overweight)
      else if is_window_full class weight b || is_short_of_units class requested b
      then (b, insufficient)
      else (debit class weight requested b, charged)
]

unfoldable pub try_charge :
    BudgetClass → ℕ → ℕ → WeightedTokenBucket → WeightedTokenBucket × BudgetDecision
try_charge class weight now_ms b = charge class weight (refill now_ms b)

unfoldable pub available_total_weight : ℕ → WeightedTokenBucket → WeightedTokenBucket × ℕ
available_total_weight now_ms b =
    let r = refill now_ms b in
    (
      r,
      min (u32 (r.total_units / r.window_ms))
          (capacity_weight r.total_capacity_units r - r.total_consumed_in_window),
    )

unfoldable pub available_normal_weight : ℕ → WeightedTokenBucket → WeightedTokenBucket × ℕ
available_normal_weight now_ms b =
    let r = refill now_ms b in
    (
      r,
      min (u32 (r.normal_units / r.window_ms))
          (capacity_weight r.normal_capacity_units r - r.normal_consumed_in_window),
    )
