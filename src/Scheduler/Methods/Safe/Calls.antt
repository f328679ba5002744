-- ===== src/Scheduler/Methods/Safe/Calls.antt =====
-- The methods of the scheduler keep its invariant.
use hyperliquid.Base.{
  ℕ, ◌≡◌, true, List, [], ◌∷◌, arith, inl, inr, Option-cases, Bool-cases, refl, ◌⊎◌,
}
use hyperliquid.BTreeMap.{All-remove}
use hyperliquid.BTreeMap.{
  contains_key, contains, get-insert, get-remove, size-remove-le, size-remove-lt,
}
use hyperliquid.Scheduler.Request.{ScheduledReadRequest, key_ord}
use hyperliquid.Scheduler.Policy.{ReadApiPolicy}
use hyperliquid.Scheduler.Bucket.{
  WeightedTokenBucket, try_charge, charged, insufficient, overweight, BudgetDecision,
}
use hyperliquid.Scheduler.Bucket.Sound.{IsSound}
use hyperliquid.Scheduler.Bucket.Charge.{try_charge-IsSound}
use hyperliquid.Scheduler.Queue.{QueueState, purge_expired, make_queue_room}
use hyperliquid.Scheduler.Queue.Safe.{
  IsKeyed, IsSafe, purge_expired-IsSafe, release-IsSafe, release-in_flight,
  make_queue_room-in_flight,
}
use hyperliquid.Scheduler.Methods.{
  RequestScheduler, roll_window, record_successor, record_pending, enqueue, validate_request,
  schedule,
}
use hyperliquid.Scheduler.Methods.Execution.{choose, start, release_dispatch}
use hyperliquid.Scheduler.Methods.Safe.{
  record_successor-IsSafe, record_pending-IsSafe, IsSafeScheduler, roll_window-IsSafe,
}

enqueue-IsSafe :
    (p : ReadApiPolicy) (now_ms : ℕ) (r : ScheduledReadRequest) (q : QueueState)
    → IsSafe p.queue_capacity q
    → IsSafe p.queue_capacity (enqueue p now_ms r q).0
unfolding enqueue
enqueue-IsSafe p now_ms r q h =
    let c = p.queue_capacity in
    let q' = roll_window p.window_ms now_ms (purge_expired now_ms q) in
    let h' =
      roll_window-IsSafe c p.window_ms now_ms (purge_expired now_ms q)
        (purge_expired-IsSafe c now_ms q h) in
    elim (Bool-cases (contains r.key q'.in_flight)) [
      | inl running ↦ rw running (record_successor-IsSafe c r q' running h')
      | inr waiting ↦ rw waiting (record_pending-IsSafe c r q' waiting h')
    ]

record_successor-in_flight :
    (c : ℕ) (r : ScheduledReadRequest) (q : QueueState)
    → (record_successor c r q).0.in_flight ≡ q.in_flight
unfolding record_successor
record_successor-in_flight c r q = elim (Option-cases (make_queue_room c r q)) [
  | inl full ↦ ground arith
  | inr (q', made) ↦ ground (arith, make_queue_room-in_flight c r q q')
]

record_pending-in_flight :
    (c : ℕ) (r : ScheduledReadRequest) (q : QueueState)
    → (record_pending c r q).0.in_flight ≡ q.in_flight
unfolding record_pending
record_pending-in_flight c r q = elim (Option-cases (make_queue_room c r q)) [
  | inl full ↦ ground arith
  | inr (q', made) ↦ ground (arith, make_queue_room-in_flight c r q q')
]

-- Nothing that `enqueue` does touches the running requests.
pub enqueue-in_flight :
    (p : ReadApiPolicy) (now_ms : ℕ) (r : ScheduledReadRequest) (q : QueueState)
    → (enqueue p now_ms r q).0.in_flight ≡ q.in_flight
unfolding enqueue roll_window purge_expired
enqueue-in_flight p now_ms r q =
    let q' = roll_window p.window_ms now_ms (purge_expired now_ms q) in
    ground (
      arith,
      record_successor-in_flight p.queue_capacity r q',
      record_pending-in_flight p.queue_capacity r q',
    )

pub schedule-IsSafe :
    (r : ScheduledReadRequest) (now_ms : ℕ) (s : RequestScheduler)
    → IsSafeScheduler s
    → IsSafeScheduler (schedule r now_ms s).0
unfolding schedule
schedule-IsSafe r now_ms s h = elim (Option-cases (validate_request s.policy r now_ms)) [
  | inl valid ↦
      rw (valid, schedule)
        (record {
          queue = enqueue-IsSafe s.policy now_ms r s.queue h.queue;
          budget = h.budget;
          concurrency = rw (enqueue-in_flight s.policy now_ms r s.queue) h.concurrency;
        })
  | inr (outcome, refused) ↦ rw (refused, schedule) h
]

pub decision_cases : (d : BudgetDecision) → (d ≡ charged) ⊎ ((d ≡ insufficient) ⊎ (d ≡ overweight))
decision_cases charged = inl refl
decision_cases insufficient = inr (inl refl)
decision_cases overweight = inr (inr refl)

-- Every request that the loop tries is one of its list, and the budget stays sound.
pub choose-IsSound :
    (now_ms : ℕ) (rs : List ScheduledReadRequest) {b : WeightedTokenBucket}
    → IsSound b
    → IsSound (choose now_ms rs b).0
unfolding choose
choose-IsSound now_ms [] h = h
choose-IsSound now_ms (r ∷ rs) {b} h =
    let h' = try_charge-IsSound r.budget_class r.weight now_ms h in
    let rest = choose-IsSound now_ms rs h' in
    elim (decision_cases (try_charge r.budget_class r.weight now_ms b).1) [
      | inl made ↦ rw (made, choose) h'
      | inr (inl short) ↦ rw (short, choose) rest
      | inr (inr heavy) ↦ rw (heavy, choose) rest
    ]

pub start-IsSafe :
    (capacity : ℕ) (r : ScheduledReadRequest) (q : QueueState)
    → contains_key r.key q.pending ≡ true
    → IsSafe capacity q
    → IsSafe capacity (start r q)
unfolding start
start-IsSafe capacity r q waits h = record {
  apart = λ k p.
      ground (arith, h.apart k, get-remove r.key k q.pending, get-insert r.key k tt q.in_flight);
  covered = λ k p. ground (arith, h.covered k, get-insert r.key k tt q.in_flight);
  bounded = omega (arith, h.bounded, size-remove-le r.key q.pending);
  pending_keyed = All-remove IsKeyed r.key q.pending h.pending_keyed;
  successors_keyed = h.successors_keyed;
}

-- The end of a running request's dispatch.
pub release_dispatch-IsSafe :
    (r : ScheduledReadRequest) (s : RequestScheduler)
    → contains r.key s.queue.in_flight ≡ true
    → IsSafeScheduler s
    → IsSafeScheduler (release_dispatch r s).0
unfolding release_dispatch
release_dispatch-IsSafe r s runs h = record {
  queue = release-IsSafe s.policy.queue_capacity r.key s.queue h.queue;
  budget = h.budget;
  concurrency =
      let fewer = size-remove-lt r.key s.queue.in_flight runs in
      let same = release-in_flight r.key s.queue in ground arith;
}
