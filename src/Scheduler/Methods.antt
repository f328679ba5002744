-- ===== src/Scheduler/Methods.antt =====
-- `RequestScheduler` (crates/copytrade-core/src/scheduler.rs). A method takes the clock's reading at
-- each place that reads it, and returns the new scheduler. The semaphore is the number of its free
-- permits.
pub mod Execution
pub mod Safe
pub mod Ready
pub mod Dispatch
pub mod Health
pub mod Runs
use hyperliquid.Base.{
  ℕ, zero, suc, ◌+◌, ◌-◌, Bool, true, false, not, ◌&&◌, ◌||◌, Option, none, some, List, [], ◌∷◌,
  ltb, leb, ◌==◌, if◌then◌else◌, filter, Result, ok, err, ◌>>=◌, ◌>>◌, ok_or, fail_if, String, ite,
  checked_add, u32_mod, u64_mod,
}
use hyperliquid.BTreeMap.{
  BTreeMap, get, insert, remove, values, contains_key, contains, add, is_some, equal, string_ord,
}
use hyperliquid.Scheduler.Request.{
  RequestKey, ScheduledReadRequest, BudgetClass, key_ord, kind_ord, permits_reserved_budget,
  is_source_state, subject_candidate, is_critical_class, is_source_class,
}
use hyperliquid.Scheduler.Policy
use hyperliquid.Scheduler.Policy.{ReadApiPolicy, PolicyError, differ}
use hyperliquid.Scheduler.Bucket
use hyperliquid.Scheduler.Bucket.{
  WeightedTokenBucket, BudgetDecision, charged, insufficient, overweight, try_charge,
}
use hyperliquid.Scheduler.Queue.{
  QueueState, empty, bump_tier, purge_expired, release, is_newer, make_queue_room,
  dispatch_order_with_fairness, sort_by,
}
use hyperliquid.Scheduler.Retry
use hyperliquid.Scheduler.Retry.{
  RetryPolicy, ReadFailure, rate_limited, timeout, transport, server, delay_ms,
}

pub data ScheduleOutcome : Type 0 where
  enqueued replaced_older successor_recorded rejected_older : ScheduleOutcome
  rejected_queue_full rejected_invalid rejected_overweight expired : ScheduleOutcome

pub data ExecutionOutcome : Type 0 where
  completed_fresh completed_but_stale superseded retry_scheduled : ExecutionOutcome
  retry_exhausted invalid_response permanent_failure : ExecutionOutcome

pub record ReadResponse : Type 0 where
  pub received_at : ℕ
  pub valid_until : ℕ
  pub payload_valid : Bool

pub record RequestScheduler : Type 0 where
  pub policy : ReadApiPolicy
  pub budget : WeightedTokenBucket
  pub permits : ℕ
  pub queue : QueueState
  pub retry_policy : RetryPolicy

unfoldable pub new : ReadApiPolicy → RetryPolicy → ℕ → Result PolicyError RequestScheduler
new policy retry_policy now_ms = do
  Policy.validate policy
  Retry.validate retry_policy
  budget ← Bucket.new policy now_ms
  ok (record {
    policy = policy;
    budget = budget;
    permits = policy.max_concurrency;
    queue = empty;
    retry_policy = retry_policy;
  })

-- `a == b` on two candidates
abbrev pub same_candidate : Option String → Option String → Bool
same_candidate none none = true
same_candidate (some a) (some b) = equal a b
same_candidate _ _ = false

-- The tests of `validate_request` for `RejectedInvalid`.
unfoldable pub is_malformed : ℕ → ScheduledReadRequest → Bool
is_malformed policy_weight r =
    not (equal r.kind r.key.kind)
    || r.weight == 0
    || not (r.weight == policy_weight)
    || ltb r.not_before r.created_at
    || leb r.expires_at r.created_at
    || is_critical_class r.budget_class && not (permits_reserved_budget r.kind)
    || differ (is_source_state r.kind) (is_source_class r.budget_class)
    || not (same_candidate r.candidate_id (subject_candidate r.key.subject))
    || differ (is_source_state r.kind) (is_some r.source_tier)

-- The tests for `RejectedOverweight`; the difference is a u32's, of a validated policy.
unfoldable pub is_overweight_for : ReadApiPolicy → ScheduledReadRequest → Bool
is_overweight_for p r =
    ltb p.total_weight_per_window r.weight
    || not (is_critical_class r.budget_class)
      && ltb (p.total_weight_per_window - p.reserved_weight_per_window) r.weight

unfoldable pub validate_request : ReadApiPolicy → ScheduledReadRequest → ℕ → Option ScheduleOutcome
validate_request p r now_ms = elim (get r.kind p.endpoint_weights) [
  | none ↦ some rejected_invalid
  | some policy_weight ↦
      if is_malformed policy_weight r
      then some rejected_invalid
      else if leb r.expires_at now_ms
      then some expired
      else if is_overweight_for p r
      then some rejected_overweight
      else none
]

-- The dispatch counts start anew, once the window is over.
unfoldable pub roll_window : ℕ → ℕ → QueueState → QueueState
roll_window window_ms now_ms q =
    if leb window_ms (now_ms - q.dispatch_window_started_ms)
    then record q { dispatch_window_started_ms = now_ms; dispatch_window_count = [] }
    else q

-- The insertion of a request whose key is running: it becomes the successor.
unfoldable pub record_successor :
    ℕ → ScheduledReadRequest → QueueState → QueueState × ScheduleOutcome
record_successor capacity r q = elim (get r.key q.successors) [
  | some existing ↦
      if is_newer r existing
      then (
        record q {
          successors = insert r.key r q.successors;
          superseded_in_flight = bump_tier existing.source_tier q.superseded_in_flight;
        },
        successor_recorded,
      )
      else (q, rejected_older)
  | none ↦ elim (make_queue_room capacity r q) [
    | none ↦ (q, rejected_queue_full)
    | some q' ↦ (
      record q' {
        superseded_in_flight = bump_tier r.source_tier q'.superseded_in_flight;
        successors = insert r.key r q'.successors;
      },
      successor_recorded,
    )
  ]
]

-- The insertion of a request whose key is not running.
unfoldable pub record_pending : ℕ → ScheduledReadRequest → QueueState → QueueState × ScheduleOutcome
record_pending capacity r q = elim (get r.key q.pending) [
  | some existing ↦
      if is_newer r existing
      then (
        record q {
          pending = insert r.key r q.pending;
          superseded_pending = bump_tier existing.source_tier q.superseded_pending;
        },
        replaced_older,
      )
      else (q, rejected_older)
  | none ↦ elim (make_queue_room capacity r q) [
    | none ↦ (q, rejected_queue_full)
    | some q' ↦ (record q' { pending = insert r.key r q'.pending }, enqueued)
  ]
]

-- `schedule` on the queue, after `validate_request`.
unfoldable pub enqueue :
    ReadApiPolicy → ℕ → ScheduledReadRequest → QueueState → QueueState × ScheduleOutcome
enqueue p now_ms r q =
    let q' = roll_window p.window_ms now_ms (purge_expired now_ms q) in
    if contains r.key q'.in_flight
    then record_successor p.queue_capacity r q'
    else record_pending p.queue_capacity r q'

unfoldable pub schedule :
    ScheduledReadRequest → ℕ → RequestScheduler → RequestScheduler × ScheduleOutcome
schedule r now_ms s = elim (validate_request s.policy r now_ms) [
  | some outcome ↦ (s, outcome)
  | none ↦ let (q, outcome) = enqueue s.policy now_ms r s.queue in (record s { queue = q }, outcome)
]
