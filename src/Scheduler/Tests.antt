-- ===== src/Scheduler/Tests.antt =====
-- The theorems of the scheduler at the policy of config/read-api-policy.json.
use hyperliquid.Base.{ℕ, ◌+◌, ◌≤◌, ◌<◌, ◌≡◌, ◌↔◌, true, some, ok, refl, List, [], ◌∷◌, ◌++◌, arith}
use hyperliquid.BTreeMap.{
  values, get, insert, remove, insert_new, replace, retain, contains_key, String-discrete,
}
use hyperliquid.Scheduler.Request.{
  RequestKey, ScheduledReadRequest, BudgetClass, source_polling, active, key_ord, kind_ord,
  tier_ord, ReadRequestKind-discrete, SourceTier-discrete, RequestKey-discrete,
}
use hyperliquid.Scheduler.Policy
use hyperliquid.Scheduler.Bucket
use hyperliquid.Scheduler.Bucket.{WeightedTokenBucket, refill, try_charge, charged}
use hyperliquid.Scheduler.Bucket.Sound.{
  IsSound, new-IsSound, new-eq, policy_bucket, policy_bucket-IsSound,
}
use hyperliquid.Scheduler.Bucket.Charge.{Affords, try_charge_iff}
use hyperliquid.Scheduler.Bucket.Reserve.{traffic, reserve_serves_critical}
use hyperliquid.Scheduler.Retry
use hyperliquid.Scheduler.Retry.{ReadFailure, rate_limited, exponential, backoff_delay}
use hyperliquid.Scheduler.Queue.{
  QueueState, empty, purge_expired, make_queue_room, sort_by, insert_sorted, count_expired,
}
use hyperliquid.Scheduler.Methods.{
  RequestScheduler, ReadResponse, schedule, validate_request, is_malformed, is_overweight_for,
  enqueue, roll_window, record_pending, superseded,
}
use hyperliquid.Scheduler.Methods.Execution.{begin_next, finish, choose, retry_request}
use hyperliquid.Scheduler.Methods.Safe.{IsSafeScheduler}
use hyperliquid.Scheduler.Methods.Safe.Calls.{schedule-IsSafe}
use hyperliquid.Scheduler.Methods.Dispatch.{Dispatched, begin_next_dispatches}
use hyperliquid.Scheduler.Methods.Runs.{
  here, next, scheduling, beginning, Reach-IsSafe, idle, idle-IsSafe, finish_superseded,
  retry_request_bounds,
}
use hyperliquid.Scheduler.Methods.Health.{oldest_pending_age, ages_of}
use hyperliquid.Scheduler.Methods.Health.Ages.{IsOldest, oldest_pending_age-IsOldest}
use hyperliquid.Scheduler.Samples.{policy, retry_policy, mids_key, mids_request, wallet_request}

policy_valid : Policy.validate policy ≡ ok tt
unfolding Policy.validate Policy.check_targets Policy.check_weights get ReadRequestKind-discrete
    SourceTier-discrete
policy_valid = refl

retry_valid : Retry.validate retry_policy ≡ ok tt
unfolding Retry.validate
retry_valid = refl

new-IsSound_example : (b : WeightedTokenBucket) × (Bucket.new policy 5 ≡ ok b) × IsSound b
new-IsSound_example = new-IsSound policy 5 (omega arith) policy_valid

abbrev full : WeightedTokenBucket
full = policy_bucket policy 5

full-IsSound : IsSound full
full-IsSound = policy_bucket-IsSound policy 5 (omega arith) policy_valid

try_charge_iff_example :
    ((try_charge source_polling 2 70 full).1 ≡ charged) ↔ Affords source_polling 2 (refill 70 full)
try_charge_iff_example = try_charge_iff source_polling 2 70 full full-IsSound

abbrev busy : List (BudgetClass × ℕ × ℕ)
busy = (source_polling, 750, 6) ∷ (BudgetClass.normal, 90, 7) ∷ (BudgetClass.normal, 20, 8) ∷ []

reserve_serves_critical_example :
    (try_charge BudgetClass.critical 360 9 (traffic busy full)).1 ≡ charged
reserve_serves_critical_example =
    reserve_serves_critical policy 5 busy 360 9 (omega arith) policy_valid
      (new-eq policy 5 policy_valid) (refl, (refl, (refl, tt))) (omega arith)

-- The scheduler at rest, with one request queued, and with that request running.
abbrev resting : RequestScheduler
resting = idle policy retry_policy 5

resting-IsSafe : IsSafeScheduler resting
resting-IsSafe = idle-IsSafe policy retry_policy 5 (omega arith) policy_valid

abbrev waiting : RequestScheduler
waiting = (schedule mids_request 200 resting).0

waiting-IsSafe : IsSafeScheduler waiting
waiting-IsSafe = schedule-IsSafe mids_request 200 resting resting-IsSafe

abbrev running : RequestScheduler
running = (begin_next 250 waiting).0

dispatch_example : (begin_next 250 waiting).1 ≡ some mids_request
unfolding begin_next schedule validate_request is_malformed is_overweight_for enqueue roll_window
    record_pending choose get insert insert_new replace remove purge_expired make_queue_room
    try_charge refill sort_by insert_sorted count_expired retain Bucket.charge Bucket.debit
    Bucket.is_overweight Bucket.is_window_full Bucket.is_short_of_units Bucket.full_bucket
    Bucket.refill_units ReadRequestKind-discrete RequestKey-discrete String-discrete
dispatch_example = refl

started : begin_next 250 waiting ≡ (running, some mids_request)
started = λ i. (running, dispatch_example i)

begin_next_dispatches_example : Dispatched 250 waiting mids_request running
begin_next_dispatches_example = begin_next_dispatches 250 waiting waiting-IsSafe started

Reach-IsSafe_example : IsSafeScheduler running
Reach-IsSafe_example =
    Reach-IsSafe resting-IsSafe
      (next (next here (scheduling mids_request 200 refl)) (beginning 250 refl))

-- Any text of a key and an attempt serves.
abbrev bytes : RequestKey → ℕ → List ℕ
bytes key attempt = 107 ∷ attempt ∷ []

abbrev late : ReadResponse
late = record { received_at = 300; valid_until = 700; payload_valid = true }

finish_superseded_example :
    (((finish bytes mids_request (ok late) 600 601 running).1 ≡ superseded)
      ↔ (contains_key mids_key running.queue.successors ≡ true))
    × ((contains_key mids_key running.queue.successors ≡ true)
        → get mids_key (finish bytes mids_request (ok late) 600 601 running).0.queue.pending
          ≡ get mids_key running.queue.successors)
finish_superseded_example = finish_superseded bytes mids_request (ok late) 600 601 running

abbrev retried : ScheduledReadRequest
retried = record mids_request { attempt = 1; not_before = 1600 }

retry_made :
    retry_request bytes retry_policy mids_request (rate_limited (some 1000)) 600 ≡ ok retried
unfolding retry_request Retry.delay_ms
retry_made = refl

retry_request_bounds_example :
    (retried ≡ record mids_request { attempt = mids_request.attempt + 1; not_before = 1600 })
    × (mids_request.attempt + 1 < retry_policy.maximum_attempts)
    × (600 < retried.not_before)
    × (retried.not_before < mids_request.expires_at)
    × (retried.not_before ≤ mids_request.created_at + retry_policy.maximum_lifetime_ms)
retry_request_bounds_example =
    retry_request_bounds bytes retry_policy mids_request (rate_limited (some 1000)) 600 retry_made

-- Two sources wait, one of them since earlier.
abbrev two_wait : QueueState
two_wait = record empty {
  pending = (wallet_request.key, wallet_request) ∷ [];
  successors = (mids_key, record mids_request { source_tier = some active; created_at = 50 }) ∷ [];
}

oldest_pending_age-IsOldest_example :
    IsOldest 700 active
      (values two_wait.pending ++ values two_wait.successors)
      (get active (oldest_pending_age two_wait 700))
oldest_pending_age-IsOldest_example = oldest_pending_age-IsOldest 700 active two_wait

-- The older of the two is reported.
age_reported : get active (oldest_pending_age two_wait 700) ≡ some 650
unfolding get insert insert_new replace oldest_pending_age ages_of SourceTier-discrete
age_reported = refl
