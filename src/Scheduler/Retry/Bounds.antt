-- ===== src/Scheduler/Retry/Bounds.antt =====
-- The bounds of the delay before a retry.
use native.Mathlib.Nat.{mod-lt, one-le-pow}
use hyperliquid.Base.{
  ℕ, ◌+◌, ◌-◌, ◌*◌, ◌/◌, ◌%◌, ◌^◌, ◌≤◌, ◌<◌, ◌≡◌, List, ok, arith, min, u64_mod, u32,
}
use hyperliquid.Scheduler.Request.{RequestKey, ScheduledReadRequest}
use hyperliquid.Scheduler.Retry.{
  RetryPolicy, validate, exponential, jittered, backoff_delay, stable_request_hash,
}

exponential-le : (p : RetryPolicy) (attempt : ℕ) → exponential p attempt ≤ p.maximum_backoff_ms
unfolding exponential
exponential-le p attempt = omega arith

jittered_bounds :
    (backoff span hash : ℕ)
    → backoff < u64_mod
    → span ≤ backoff
    → (backoff - span ≤ jittered backoff span hash) × (jittered backoff span hash ≤ backoff + span)
unfolding jittered
jittered_bounds backoff span hash h k =
    let r : hash % (span * 2 + 1) < span * 2 + 1 = mod-lt hash (omega arith) in omega arith

span-le : (backoff bps : ℕ) → bps ≤ 10000 → backoff * bps / 10000 ≤ backoff
span-le backoff bps h = grind arith

exponential-pos :
    (p : RetryPolicy) (attempt : ℕ)
    → 0 < p.initial_backoff_ms
    → 0 < p.maximum_backoff_ms
    → 0 < exponential p attempt
unfolding exponential
exponential-pos p attempt h k =
    let power : 1 ≤ 2 ^ min attempt 63 = one-le-pow (min attempt 63) 2 (omega arith) in
    let product : 0 < p.initial_backoff_ms * 2 ^ min attempt 63 = grind arith in ground arith

-- Under a valid policy whose backoff is a u64, the delay before a retry is positive unless the jitter
-- is the whole backoff, lies within the jitter of the exponential backoff, and is at most twice the
-- maximum backoff.
backoff_delay_bounds :
    (debug_bytes : RequestKey → ℕ → List ℕ) (p : RetryPolicy) (request : ScheduledReadRequest)
    → validate p ≡ ok tt
    → p.maximum_backoff_ms < u64_mod
    → let backoff = exponential p request.attempt in
      let span = backoff * p.jitter_bps / 10000 in
      let delay = backoff_delay debug_bytes p request in
      (backoff - span ≤ delay) × (delay ≤ backoff + span) × (delay ≤ 2 * p.maximum_backoff_ms)
unfolding backoff_delay validate
backoff_delay_bounds debug_bytes p request v w =
    let e = exponential p request.attempt in
    let span = e * p.jitter_bps / 10000 in
    let hash =
      stable_request_hash debug_bytes request.key (u32 (request.attempt + 1))
        p.deterministic_seed in
    let le = exponential-le p request.attempt in
    let j : p.jitter_bps ≤ 10000 = ground arith in
    let i : 0 < p.initial_backoff_ms = ground arith in
    let m : 0 < p.maximum_backoff_ms = ground arith in
    let pos = exponential-pos p request.attempt i m in
    let s = span-le e p.jitter_bps j in
    let b = jittered_bounds e span hash (omega arith) s in
    (ground arith, ground arith, ground arith)
