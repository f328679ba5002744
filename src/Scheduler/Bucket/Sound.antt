-- ===== src/Scheduler/Bucket/Sound.antt =====
-- The invariant of a bucket, which every method keeps.
use native.Mathlib.Nat.{mul-div_cancel}
use hyperliquid.Base.{ℕ, ◌+◌, ◌-◌, ◌*◌, ◌/◌, ◌≤◌, ◌<◌, ◌≡◌, ok, arith, u32_mod, u128_mod, u32}
use hyperliquid.Scheduler.Policy.{ReadApiPolicy, validate}
use hyperliquid.Scheduler.Policy.Laws.{IsValid, validate_sound}
use hyperliquid.Scheduler.Bucket.{
  WeightedTokenBucket, new, refill, refill_units, reset_window, full_bucket,
}

-- One budget: the capacity is the rate over one window, the units fit it, and the weight consumed
-- in the window does not pass the rate.
pub record IsBudget (window capacity units rate consumed : ℕ) : Type 0 where
  pub capacity_eq : capacity ≡ rate * window
  pub capacity_lt : capacity < u128_mod
  pub units_le : units ≤ capacity
  pub consumed_le : consumed ≤ rate
  pub rate_lt : rate < u32_mod

pub record IsSound (b : WeightedTokenBucket) : Type 0 where
  pub window_pos : 0 < b.window_ms
  pub total :
      IsBudget b.window_ms b.total_capacity_units b.total_units b.total_refill_per_ms
        b.total_consumed_in_window
  pub normal :
      IsBudget b.window_ms b.normal_capacity_units b.normal_units b.normal_refill_per_ms
        b.normal_consumed_in_window
  pub source :
      IsBudget b.window_ms b.source_capacity_units b.source_units b.source_refill_per_ms
        b.source_consumed_in_window
  pub enrichment :
      IsBudget b.window_ms b.enrichment_capacity_units b.enrichment_units b.enrichment_refill_per_ms
        b.enrichment_consumed_in_window
  pub rates_split : b.normal_refill_per_ms ≡ b.source_refill_per_ms + b.enrichment_refill_per_ms
  pub rates_below : b.normal_refill_per_ms ≤ b.total_refill_per_ms
  pub consumed_split :
      b.normal_consumed_in_window ≡ b.source_consumed_in_window + b.enrichment_consumed_in_window
  pub consumed_below : b.normal_consumed_in_window ≤ b.total_consumed_in_window

-- The capacity of a budget, counted in weight, is its rate.
pub capacity_weight-eq-rate :
    (window capacity units rate consumed : ℕ)
    → 0 < window
    → IsBudget window capacity units rate consumed
    → u32 (capacity / window) ≡ rate
capacity_weight-eq-rate window capacity units rate consumed w h =
    let e : capacity / window ≡ rate = rw h.capacity_eq (mul-div_cancel rate w) in
    rw e (omega (arith, h.rate_lt))

refill_units-le : (e u r c : ℕ) → refill_units e u r c ≤ c
unfolding refill_units
refill_units-le e u r c = omega arith

reset_window-IsSound :
    (now_ms : ℕ) {b : WeightedTokenBucket} → IsSound b → IsSound (reset_window now_ms b)
unfolding reset_window
reset_window-IsSound now_ms {b} h = ground arith

-- Every method refills first: a refill keeps the invariant.
pub refill-IsSound : (now_ms : ℕ) {b : WeightedTokenBucket} → IsSound b → IsSound (refill now_ms b)
unfolding refill
refill-IsSound now_ms {b} h =
    let e = now_ms - b.last_refill_ms in
    ground (
      arith,
      refill_units-le e b.total_units b.total_refill_per_ms b.total_capacity_units,
      refill_units-le e b.normal_units b.normal_refill_per_ms b.normal_capacity_units,
      refill_units-le e b.source_units b.source_refill_per_ms b.source_capacity_units,
      refill_units-le e b.enrichment_units b.enrichment_refill_per_ms b.enrichment_capacity_units,
    )

full_bucket-IsSound :
    (policy : ReadApiPolicy) (n e now_ms : ℕ)
    → IsValid policy
    → policy.total_weight_per_window < u32_mod
    → n + policy.reserved_weight_per_window ≡ policy.total_weight_per_window
    → e + policy.source_polling_weight_per_window ≡ n
    → IsSound (full_bucket policy n e now_ms)
unfolding full_bucket
full_bucket-IsSound policy n e now_ms v w hn he = grind (arith, v.no_overflow)

share_fits : (a t w : ℕ) → a ≤ t → t * w < u128_mod → a * w < u128_mod
share_fits a t w h k = grind arith

-- The weights of the bucket that a policy gives.
abbrev pub policy_bucket : ReadApiPolicy → ℕ → WeightedTokenBucket
policy_bucket policy now_ms =
    let n = policy.total_weight_per_window - policy.reserved_weight_per_window in
    full_bucket policy n (n - policy.source_polling_weight_per_window) now_ms

pub new-eq :
    (policy : ReadApiPolicy) (now_ms : ℕ)
    → validate policy ≡ ok tt
    → new policy now_ms ≡ ok (policy_bucket policy now_ms)
unfolding new
new-eq policy now_ms valid =
    let v = validate_sound policy valid in
    let n = policy.total_weight_per_window - policy.reserved_weight_per_window in
    let t = policy.total_weight_per_window in
    ground (
      arith,
      share_fits n t policy.window_ms,
      share_fits (n - policy.source_polling_weight_per_window) t policy.window_ms,
      share_fits policy.source_polling_weight_per_window t policy.window_ms,
    )

pub policy_bucket-IsSound :
    (policy : ReadApiPolicy) (now_ms : ℕ)
    → policy.total_weight_per_window < u32_mod
    → validate policy ≡ ok tt
    → IsSound (policy_bucket policy now_ms)
policy_bucket-IsSound policy now_ms w valid =
    let v = validate_sound policy valid in
    let n = policy.total_weight_per_window - policy.reserved_weight_per_window in
    full_bucket-IsSound policy n (n - policy.source_polling_weight_per_window) now_ms v w
      (omega arith) (omega arith)

-- `new` never fails on a policy that passes `validate` and whose total weight is a u32, and the
-- bucket that it makes satisfies the invariant.
pub new-IsSound :
    (policy : ReadApiPolicy) (now_ms : ℕ)
    → policy.total_weight_per_window < u32_mod
    → validate policy ≡ ok tt
    → (b : WeightedTokenBucket) × (new policy now_ms ≡ ok b) × IsSound b
new-IsSound policy now_ms w valid = (
  policy_bucket policy now_ms,
  new-eq policy now_ms valid,
  policy_bucket-IsSound policy now_ms w valid,
)
