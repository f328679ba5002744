-- ===== src/Lifecycle/Pacing.antt =====
-- How long a submission stays unknown before the program takes it for not found.
use native.Mathlib.Nat.{mul-le-mul_right}
use hyperliquid.Base.{
  ℕ, zero, suc, ◌+◌, ◌-◌, ◌*◌, ◌≤◌, ◌<◌, ◌≡◌, ◌≢◌, false, some, List, [], ◌∷◌, ◌++◌, ok, err, arith,
  inl, inr, Bool-cases, length, last?, refl, u32_mod, u32, length-append,
}
use hyperliquid.Decimal.{Decimal}
use hyperliquid.Lifecycle.{
  PlannedAction, ReconciliationPolicy, submission_unknown, reconciled_not_found, validate, is_last,
  too_soon, reconciliation_attempt_limit,
}
use hyperliquid.Lifecycle.Events.{confirm_not_found}

last?-append : (times : List ℕ) (t : ℕ) → last? (times ++ t ∷ []) ≡ some t
last?-append [] t = refl
last?-append (x ∷ []) t = refl
last?-append (x ∷ y ∷ times) t = last?-append (y ∷ times) t

-- The confirmations are paced: the last is at least one interval per earlier confirmation after the
-- first unknown result.
pub data IsPaced (interval first : ℕ) (times : List ℕ) : Type 0 where
  fresh : times ≡ [] → IsPaced interval first times
  paced :
      (t : ℕ)
      → last? times ≡ some t
      → 0 < length times
      → first + (length times - 1) * interval ≤ t
      → IsPaced interval first times

-- The record of an unknown submission: every confirmation counts as an attempt, they are paced, and
-- there are fewer than are required.
pub record IsCounted (p : ReconciliationPolicy) (first attempts : ℕ) (times : List ℕ) : Type 0 where
  pub counted : attempts ≡ length times
  pub paced : IsPaced p.minimum_confirmation_interval_ms first times
  pub short : length times < p.required_not_found_confirmations

one_more : (n i : ℕ) → 0 < n → n * i ≡ (n - 1) * i + i
one_more zero i h = absurd (omega arith)
one_more (suc n) i h = let e : suc n - 1 ≡ n = omega arith in rw e (omega arith)

-- One more confirmation keeps the pace.
next-IsPaced :
    (interval first : ℕ) (times : List ℕ) (t : ℕ)
    → IsPaced interval first times
    → 0 < interval
    → first ≤ t
    → too_soon times t interval ≡ false
    → first + length times * interval ≤ t
next-IsPaced interval first times t (fresh e) pos le s = rw e (omega arith)
next-IsPaced interval first times t (paced u e some_time h) pos le s =
    let gap : u + interval ≤ t = ground arith in
    omega (arith, one_more (length times) interval some_time)

IsCounted-eq :
    {p : ReconciliationPolicy} {f f' n n' : ℕ} {l l' : List ℕ}
    → IsCounted p f n l
    → f ≡ f'
    → n ≡ n'
    → l ≡ l'
    → IsCounted p f' n' l'
IsCounted-eq h e₁ e₂ e₃ = rw (← e₁, ← e₂, ← e₃) h

module _ (p : ReconciliationPolicy) (valid : validate p ≡ ok p)
    (fits : p.maximum_attempts < u32_mod) where
  interval_pos : 0 < p.minimum_confirmation_interval_ms
  unfolding validate
  interval_pos = ground (arith, valid)

  required-le : p.required_not_found_confirmations ≤ p.maximum_attempts
  unfolding validate
  required-le = ground (arith, valid)

  module _ (d : Decimal) (a : PlannedAction d) (first attempts : ℕ) (times : List ℕ) (t : ℕ) where
    -- Under a valid policy a further `NotFound` that leaves the submission unknown leaves a record in
    -- which every confirmation counts as an attempt, the last confirmation is an interval per earlier one
    -- after the first unknown result, and there are fewer than are required.
    pub confirm-IsCounted :
        {b : PlannedAction d} {first' attempts' : ℕ} {times' : List ℕ}
        → IsCounted p first attempts times
        → first ≤ t
        → confirm_not_found d p a first attempts times t
          ≡ ok (submission_unknown b first' attempts' times')
        → IsCounted p first' attempts' times'
    unfolding confirm_not_found
    confirm-IsCounted {b} {first'} {attempts'} {times'} h le e =
        elim (Bool-cases (is_last times t)) [
          | inl repeated ↦ IsCounted-eq h (ground arith) (ground arith) (ground arith)
          | inr new ↦
              let more : IsCounted p first (u32 (attempts + 1)) (times ++ t ∷ []) = record {
                counted = omega (arith, size, h.counted, h.short, required-le);
                paced = paced t (last?-append times t) (omega (arith, size)) (
                    paced_sum (length times) size (
                      next-IsPaced p.minimum_confirmation_interval_ms first times t h.paced
                        interval_pos le (ground arith)));
                short = ground (arith, size, required-le);
              } in
              IsCounted-eq more (ground arith) (ground arith) (ground arith)
        ]
      where
        size : length (times ++ t ∷ []) ≡ length times + 1
        size = rw (length-append times (t ∷ [])) (omega arith)

        paced_sum :
            (n : ℕ)
            → length (times ++ t ∷ []) ≡ n + 1
            → first + n * p.minimum_confirmation_interval_ms ≤ t
            → first + (length (times ++ t ∷ []) - 1) * p.minimum_confirmation_interval_ms ≤ t
        paced_sum n q k = rw q (let z : n + 1 - 1 ≡ n = omega arith in rw z k)

    -- Under a valid policy, from such a record, a submission is only taken for not found when at least the
    -- interval between confirmations, once per required confirmation but one, and at most the lifetime
    -- has passed since the result became unknown.
    pub confirm_elapsed :
        {b : PlannedAction d}
        → IsCounted p first attempts times
        → first ≤ t
        → confirm_not_found d p a first attempts times t ≡ ok (reconciled_not_found b)
        → (first + (p.required_not_found_confirmations - 1) * p.minimum_confirmation_interval_ms
            ≤ t)
          × (t ≤ first + p.maximum_unknown_lifetime_ms)
    unfolding confirm_not_found
    confirm_elapsed {b} h le e =
        let new : is_last times t ≡ false = ground arith in
        let gap : too_soon times t p.minimum_confirmation_interval_ms ≡ false = ground arith in
        let size : length (times ++ t ∷ []) ≡ length times + 1 =
          rw (length-append times (t ∷ [])) (omega arith) in
        let enough : p.required_not_found_confirmations ≤ length times + 1 = ground arith in
        let sum =
          next-IsPaced p.minimum_confirmation_interval_ms first times t h.paced interval_pos le
            gap in
        (
          omega (
            arith,
            sum,
            mul-le-mul_right p.minimum_confirmation_interval_ms
                (let k : p.required_not_found_confirmations - 1 ≤ length times = omega arith in k),
          ),
          ground arith,
        )

    -- Under a valid policy, from such a record, no observation meets the limit on the attempts.
    pub confirm_no_limit :
        IsCounted p first attempts times
        → confirm_not_found d p a first attempts times t ≢ err reconciliation_attempt_limit
    unfolding confirm_not_found
    confirm_no_limit h e = ground (arith, required-le, h.counted, h.short)
