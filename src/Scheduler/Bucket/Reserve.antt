-- ===== src/Scheduler/Bucket/Reserve.antt =====
-- The reserve: what noncritical traffic leaves to critical requests.
use native.Mathlib.Nat.{mul-le-mul_left, mul-le-mul_right}
use hyperliquid.Base.{
  ℕ, ◌+◌, ◌-◌, ◌*◌, ◌≤◌, ◌≡◌, ◌<◌, List, [], ◌∷◌, ok, arith, u32_mod, u128_mod, inl, inr, All,
  false, ap, subst, refl,
}
use hyperliquid.Scheduler.Request.{BudgetClass, source_polling, is_critical_class}
use hyperliquid.Scheduler.Policy.{ReadApiPolicy, validate}
use hyperliquid.Scheduler.Bucket.{
  WeightedTokenBucket, new, full_bucket, refill, refill_units, try_charge, charged, debit,
}
use hyperliquid.Scheduler.Bucket.Sound.{
  IsSound, refill-IsSound, policy_bucket, policy_bucket-IsSound, new-eq,
}
use hyperliquid.Scheduler.Policy.Laws.{validate_sound}
use hyperliquid.Scheduler.Bucket.Charge.{
  Affords, try_charge_iff, charge-cases, charge_iff, debit-IsSound,
}

-- Nothing but noncritical requests has drawn on the total: no more units are missing from it than
-- from the nonreserved budget, and no more weight is counted in the window.
pub record IsUntouched (reserved : ℕ) (b : WeightedTokenBucket) : Type 0 where
  pub sound : IsSound b
  pub units : b.total_capacity_units + b.normal_units ≤ b.total_units + b.normal_capacity_units
  pub consumed : b.total_consumed_in_window ≡ b.normal_consumed_in_window
  pub rates : b.normal_refill_per_ms + reserved ≡ b.total_refill_per_ms

-- The refill keeps two budgets' deficits in order, where the first is refilled as fast.
refill_units_deficit :
    (e u r c u' r' c' : ℕ)
    → r' ≤ r
    → c < u128_mod
    → u' ≤ c'
    → c + u' ≤ u + c'
    → c + refill_units e u' r' c' ≤ refill_units e u r c + c'
unfolding refill_units
refill_units_deficit e u r c u' r' c' h k l d = omega (arith, mul-le-mul_left e h)

-- The units that are left to the reserve.
reserve_left :
    (reserved w : ℕ) (b : WeightedTokenBucket)
    → w ≤ reserved
    → IsUntouched reserved b
    → w * b.window_ms ≤ b.total_units
reserve_left reserved w b le h = omega (
  arith,
  mul-le-mul_right b.window_ms le,
  ap (λ (t : ℕ). t * b.window_ms) h.rates,
  h.sound.total.capacity_eq,
  h.sound.normal.capacity_eq,
)

module _ (reserved : ℕ) where
  refill-IsUntouched :
      (now_ms : ℕ) {b : WeightedTokenBucket}
      → IsUntouched reserved b
      → IsUntouched reserved (refill now_ms b)
  unfolding refill
  refill-IsUntouched now_ms {b} h = record {
    sound = refill-IsSound now_ms h.sound;
    units =
        let e = now_ms - b.last_refill_ms in
        ground (
          arith,
          refill_units_deficit e b.total_units b.total_refill_per_ms b.total_capacity_units
              b.normal_units b.normal_refill_per_ms b.normal_capacity_units,
        );
    consumed = ground arith;
    rates = ground arith;
  }

  debit-IsUntouched :
      (class : BudgetClass) (w : ℕ) (b : WeightedTokenBucket)
      → is_critical_class class ≡ false
      → IsUntouched reserved b
      → Affords class w b
      → IsSound (debit class w (w * b.window_ms) b)
      → IsUntouched reserved (debit class w (w * b.window_ms) b)
  unfolding debit
  debit-IsUntouched BudgetClass.critical w b n h a s = cc
  debit-IsUntouched source_polling w b n h a s = record {
    sound = s;
    units = ground arith;
    consumed = ground arith;
    rates = h.rates;
  }
  debit-IsUntouched BudgetClass.normal w b n h a s = record {
    sound = s;
    units = ground arith;
    consumed = ground arith;
    rates = h.rates;
  }

  try_charge-IsUntouched :
      (class : BudgetClass) (w now_ms : ℕ) {b : WeightedTokenBucket}
      → is_critical_class class ≡ false
      → IsUntouched reserved b
      → IsUntouched reserved (try_charge class w now_ms b).0
  unfolding try_charge
  try_charge-IsUntouched class w now_ms {b} n h =
      let r = refill now_ms b in
      let u = refill-IsUntouched now_ms h in
      elim (charge-cases class w r) [
        | inl (made, e) ↦
            let a = (charge_iff w r u.sound class).0 made in
            rw e (debit-IsUntouched class w r n u a (debit-IsSound class w r u.sound a))
        | inr (_, e) ↦ rw e u
      ]

  -- A critical request of at most the reserved weight is charged.
  untouched_affords :
      (w now_ms : ℕ) (b : WeightedTokenBucket)
      → w ≤ reserved
      → IsUntouched reserved b
      → (try_charge BudgetClass.critical w now_ms b).1 ≡ charged
  untouched_affords w now_ms b le h =
      let r = refill now_ms b in
      let u = refill-IsUntouched now_ms h in
      (try_charge_iff BudgetClass.critical w now_ms b h.sound).1
        (reserve_left reserved w r le u, omega (arith, u.consumed, u.rates, u.sound.normal))

-- The charges of a sequence of requests: class, weight and time of each.
pub traffic : List (BudgetClass × ℕ × ℕ) → WeightedTokenBucket → WeightedTokenBucket
traffic [] b = b
traffic ((class, w, now_ms) ∷ cs) b = traffic cs (try_charge class w now_ms b).0

traffic-IsUntouched :
    (reserved : ℕ) (cs : List (BudgetClass × ℕ × ℕ)) (b : WeightedTokenBucket)
    → All (λ c. is_critical_class c.0 ≡ false) cs
    → IsUntouched reserved b
    → IsUntouched reserved (traffic cs b)
unfolding traffic
traffic-IsUntouched reserved [] b n h = h
traffic-IsUntouched reserved ((class, w, now_ms) ∷ cs) b n h =
    traffic-IsUntouched reserved cs (try_charge class w now_ms b).0 n.1
      (try_charge-IsUntouched reserved class w now_ms n.0 h)

policy_bucket-IsUntouched :
    (policy : ReadApiPolicy) (now_ms : ℕ)
    → policy.total_weight_per_window < u32_mod
    → validate policy ≡ ok tt
    → IsUntouched policy.reserved_weight_per_window (policy_bucket policy now_ms)
unfolding full_bucket
policy_bucket-IsUntouched policy now_ms w valid = record {
  sound = policy_bucket-IsSound policy now_ms w valid;
  units = omega arith;
  consumed = refl;
  rates = omega (arith, validate_sound policy valid);
}

new-IsUntouched :
    (policy : ReadApiPolicy) (now_ms : ℕ) {b : WeightedTokenBucket}
    → policy.total_weight_per_window < u32_mod
    → validate policy ≡ ok tt
    → new policy now_ms ≡ ok b
    → IsUntouched policy.reserved_weight_per_window b
new-IsUntouched policy now_ms {b} w valid made =
    let e : policy_bucket policy now_ms ≡ b = cc (new-eq policy now_ms valid) in
    subst (IsUntouched policy.reserved_weight_per_window) e
      (policy_bucket-IsUntouched policy now_ms w valid)

-- However much noncritical traffic a new bucket has met, at whatever times, it charges a critical
-- request of at most the reserved weight, at any time.
pub reserve_serves_critical :
    (policy : ReadApiPolicy) (start : ℕ) {b : WeightedTokenBucket} (cs : List (BudgetClass × ℕ × ℕ))
    (w now_ms : ℕ)
    → policy.total_weight_per_window < u32_mod
    → validate policy ≡ ok tt
    → new policy start ≡ ok b
    → All (λ c. is_critical_class c.0 ≡ false) cs
    → w ≤ policy.reserved_weight_per_window
    → (try_charge BudgetClass.critical w now_ms (traffic cs b)).1 ≡ charged
reserve_serves_critical policy start {b} cs w now_ms fits valid made n le =
    let reserved = policy.reserved_weight_per_window in
    untouched_affords reserved w now_ms (traffic cs b) le
      (traffic-IsUntouched reserved cs b n (new-IsUntouched policy start fits valid made))
