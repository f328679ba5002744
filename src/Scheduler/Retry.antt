-- ===== src/Scheduler/Retry.antt =====
-- `RetryPolicy` and the delay before a retry (crates/copytrade-core/src/scheduler.rs).
pub mod Bounds
use Prim.Native.Nat.{bit_xor}
use hyperliquid.Base.{
  ℕ, ◌+◌, ◌-◌, ◌*◌, ◌/◌, ◌%◌, ◌^◌, min, max, Bool, true, false, ◌||◌, Option, none, some, List, [],
  ◌∷◌, ltb, ◌==◌, if◌then◌else◌, Result, ok, err, fail_if, u32, u64_mod, u64_max, u128_max,
  checked_mul, saturating_add, saturating_mul,
}
use mathlib.Core.Option.{get_or}
use hyperliquid.Scheduler.Request.{RequestKey, ScheduledReadRequest}
use hyperliquid.Scheduler.Policy.{PolicyError, invalid_retry}

pub record RetryPolicy : Type 0 where
  pub initial_backoff_ms : ℕ
  pub maximum_backoff_ms : ℕ
  pub maximum_attempts : ℕ
  pub maximum_lifetime_ms : ℕ
  pub jitter_bps : ℕ
  pub deterministic_seed : ℕ

unfoldable pub validate : RetryPolicy → Result PolicyError (Unit {0})
validate p =
    fail_if
      (p.initial_backoff_ms == 0
        || ltb p.maximum_backoff_ms p.initial_backoff_ms
        || p.maximum_attempts == 0
        || p.maximum_lifetime_ms == 0
        || ltb 10000 p.jitter_bps)
      invalid_retry

pub data ReadFailure : Type 0 where
  rate_limited : Option ℕ → ReadFailure
  timeout transport server invalid_response permanent : ReadFailure

-- The loop of `stable_request_hash` over the bytes of the text.
unfoldable pub hash_bytes : List ℕ → ℕ → ℕ
hash_bytes [] hash = hash
hash_bytes (byte ∷ bytes) hash = hash_bytes bytes (bit_xor hash byte * 0x100000001b3 % u64_mod)

-- `debug_bytes key attempt` is the text `{key:?}:{attempt}`, which the standard library formats.
unfoldable pub stable_request_hash : (RequestKey → ℕ → List ℕ) → RequestKey → ℕ → ℕ → ℕ
stable_request_hash debug_bytes key attempt seed =
    hash_bytes (debug_bytes key attempt) (bit_xor 0xcbf29ce484222325 seed)

-- The backoff of an attempt, which doubles up to the maximum.
unfoldable pub exponential : RetryPolicy → ℕ → ℕ
exponential p attempt =
    min (get_or (checked_mul u64_mod p.initial_backoff_ms (2 ^ min attempt 63)) u64_max)
      p.maximum_backoff_ms

-- The backoff moved by at most `span` to either side.
unfoldable pub jittered : ℕ → ℕ → ℕ → ℕ
jittered backoff span hash =
    let width = saturating_add u128_max (saturating_mul u128_max span 2) 1 in
    min (saturating_add u128_max (backoff - span) (hash % width)) u64_max

unfoldable pub backoff_delay : (RequestKey → ℕ → List ℕ) → RetryPolicy → ScheduledReadRequest → ℕ
backoff_delay debug_bytes p request =
    let backoff = exponential p request.attempt in
    let span = backoff * p.jitter_bps / 10000 in
    if span == 0
    then max backoff 1
    else jittered backoff span (
        stable_request_hash debug_bytes request.key (u32 (request.attempt + 1))
          p.deterministic_seed)

unfoldable pub delay_ms :
    (RequestKey → ℕ → List ℕ) → RetryPolicy → ScheduledReadRequest → ReadFailure → Option ℕ
delay_ms debug_bytes p request invalid_response = none
delay_ms debug_bytes p request permanent = none
delay_ms debug_bytes p request (rate_limited (some delay)) =
    if ltb 0 delay then some delay else none
delay_ms debug_bytes p request failure = some (backoff_delay debug_bytes p request)
