-- ===== src/Scheduler/Methods/Health.antt =====
-- The health report of the scheduler (`health`, crates/copytrade-core/src/scheduler.rs). It refills the
-- budget, so it returns the scheduler too.
pub mod Ages
use hyperliquid.Base.{ℕ, ◌-◌, max, Option, none, some, List, [], ◌∷◌, ◌++◌}
use hyperliquid.BTreeMap.{BTreeMap, values, size, get, insert}
use hyperliquid.Scheduler.Request.{SourceTier, ScheduledReadRequest, key_ord, tier_ord}
use hyperliquid.Scheduler.Bucket.{refill, available_total_weight, available_normal_weight}
use hyperliquid.Scheduler.Bucket.Sound.{refill-IsSound}
use hyperliquid.Scheduler.Queue.{QueueState}
use hyperliquid.Scheduler.Methods.{RequestScheduler}
use hyperliquid.Scheduler.Methods.Safe.{IsSafeScheduler}

pub record SchedulerHealth : Type 0 where
  pub pending : ℕ
  pub successors : ℕ
  pub in_flight : ℕ
  pub queue_capacity : ℕ
  pub available_total : ℕ
  pub available_normal : ℕ
  pub available_concurrency : ℕ
  pub expired_in_queue_by_tier : BTreeMap SourceTier ℕ
  pub superseded_pending_by_tier : BTreeMap SourceTier ℕ
  pub superseded_in_flight_by_tier : BTreeMap SourceTier ℕ
  pub dispatch_count_by_tier : BTreeMap SourceTier ℕ
  pub oldest_pending_age_ms_by_tier : BTreeMap SourceTier ℕ

-- `ages.entry(tier).and_modify(..).or_insert(age)`
abbrev pub older : Option ℕ → ℕ → ℕ
older none age = age
older (some current) age = max current age

-- The loop of `oldest_pending_age`.
unfoldable pub ages_of :
    ℕ → List ScheduledReadRequest → BTreeMap SourceTier ℕ → BTreeMap SourceTier ℕ
ages_of now_ms [] ages = ages
ages_of now_ms (r ∷ rs) ages = ages_of now_ms rs (elim r.source_tier [
  | none ↦ ages
  | some tier ↦ insert tier (older (get tier ages) (now_ms - r.created_at)) ages
])

unfoldable pub oldest_pending_age : QueueState → ℕ → BTreeMap SourceTier ℕ
oldest_pending_age queue now_ms =
    ages_of now_ms (values queue.pending ++ values queue.successors) []

unfoldable pub health : ℕ → RequestScheduler → RequestScheduler × SchedulerHealth
health now_ms s =
    let (b, total) = available_total_weight now_ms s.budget in
    let (b', normal) = available_normal_weight now_ms b in
    (
      record s { budget = b' },
      record {
        pending = size s.queue.pending;
        successors = size s.queue.successors;
        in_flight = size s.queue.in_flight;
        queue_capacity = s.policy.queue_capacity;
        available_total = total;
        available_normal = normal;
        available_concurrency = s.permits;
        expired_in_queue_by_tier = s.queue.expired_in_queue;
        superseded_pending_by_tier = s.queue.superseded_pending;
        superseded_in_flight_by_tier = s.queue.superseded_in_flight;
        dispatch_count_by_tier = s.queue.dispatch_count;
        oldest_pending_age_ms_by_tier = oldest_pending_age s.queue now_ms;
      },
    )

pub health-IsSafe :
    (now_ms : ℕ) (s : RequestScheduler) → IsSafeScheduler s → IsSafeScheduler (health now_ms s).0
unfolding health available_total_weight available_normal_weight
health-IsSafe now_ms s h = record {
  queue = h.queue;
  budget = refill-IsSound now_ms (refill-IsSound now_ms h.budget);
  concurrency = h.concurrency;
}
