-- ===== src/Scheduler/Methods/Safe.antt =====
-- The scheduler's invariant: the queue's, the budget's, and that no more requests run than there
-- are permits. Here the parts that change the queue keep it.
pub mod Calls
use hyperliquid.Base.{
  ℕ, ◌+◌, ◌≤◌, ◌≡◌, true, false, List, [], ◌∷◌, arith, inl, inr, Option-cases, Bool-cases, refl,
  ◌⊎◌,
}
use hyperliquid.BTreeMap.{All-insert, All-remove}
use hyperliquid.BTreeMap.{
  get, insert, size, contains_key, contains, get-insert, get-remove, size-insert, size-remove-le,
  size-remove-lt,
}
use hyperliquid.Scheduler.Request.{ScheduledReadRequest, key_ord}
use hyperliquid.Scheduler.Policy.{ReadApiPolicy}
use hyperliquid.Scheduler.Bucket.{
  WeightedTokenBucket, try_charge, charged, insufficient, overweight, BudgetDecision,
}
use hyperliquid.Scheduler.Bucket.Sound.{IsSound}
use hyperliquid.Scheduler.Bucket.Charge.{try_charge-IsSound}
use hyperliquid.Scheduler.Queue.{QueueState, purge_expired, is_newer, make_queue_room}
use hyperliquid.Scheduler.Queue.Safe.{
  IsKeyed, IsSafe, MadeRoom, purge_expired-IsSafe, release-IsSafe, release-in_flight,
  make_queue_room-MadeRoom, make_queue_room-in_flight,
}
use hyperliquid.Scheduler.Methods.{
  RequestScheduler, roll_window, record_successor, record_pending, enqueue, validate_request,
  schedule,
}
use hyperliquid.Scheduler.Methods.Execution.{choose, start, release_dispatch}

module _ (capacity : ℕ) where
  pub roll_window-IsSafe :
      (window_ms now_ms : ℕ) (q : QueueState)
      → IsSafe capacity q
      → IsSafe capacity (roll_window window_ms now_ms q)
  unfolding roll_window
  roll_window-IsSafe window_ms now_ms q h = record {
    apart = λ k p. ground (arith, h.apart k);
    covered = λ k p. ground (arith, h.covered k);
    bounded = ground (arith, h.bounded);
    pending_keyed = ground (arith, h.pending_keyed);
    successors_keyed = ground (arith, h.successors_keyed);
  }

  room-IsSafe :
      (q q' : QueueState) → IsSafe capacity q → MadeRoom capacity q q' → IsSafe capacity q'
  room-IsSafe q q' h m = record {
    apart = λ k p. ground (arith, h.apart k, m.pending k, m.in_flight);
    covered = λ k p. ground (arith, h.covered k, m.successors k, m.in_flight);
    bounded = omega (arith, m.room);
    pending_keyed = m.pending_keyed h.pending_keyed;
    successors_keyed = m.successors_keyed h.successors_keyed;
  }

  -- A successor put in for a running key.
  successor-IsSafe :
      (r : ScheduledReadRequest) (q : QueueState)
      → contains r.key q.in_flight ≡ true
      → size (insert r.key r q.successors) + size q.pending ≤ capacity
      → IsSafe capacity q
      → IsSafe capacity (record q { successors = insert r.key r q.successors })
  successor-IsSafe r q running fits h = record {
    apart = h.apart;
    covered = λ k p. ground (arith, h.covered k, get-insert r.key k r q.successors);
    bounded = omega arith;
    pending_keyed = h.pending_keyed;
    successors_keyed = All-insert IsKeyed r.key r q.successors refl h.successors_keyed;
  }

  -- A pending request put in for a key that does not run.
  pending-IsSafe :
      (r : ScheduledReadRequest) (q : QueueState)
      → contains r.key q.in_flight ≡ false
      → size (insert r.key r q.pending) + size q.successors ≤ capacity
      → IsSafe capacity q
      → IsSafe capacity (record q { pending = insert r.key r q.pending })
  pending-IsSafe r q waiting fits h = record {
    apart = λ k p. ground (arith, h.apart k, get-insert r.key k r q.pending);
    covered = h.covered;
    bounded = omega arith;
    pending_keyed = All-insert IsKeyed r.key r q.pending refl h.pending_keyed;
    successors_keyed = h.successors_keyed;
  }

  pub record_successor-IsSafe :
      (r : ScheduledReadRequest) (q : QueueState)
      → contains r.key q.in_flight ≡ true
      → IsSafe capacity q
      → IsSafe capacity (record_successor capacity r q).0
  unfolding record_successor
  record_successor-IsSafe r q running h = elim (Option-cases (get r.key q.successors)) [
    | inr (existing, e) ↦ elim (Bool-cases (is_newer r existing)) [
      | inl newer ↦
          rw (e, record_successor)
            (rw newer (
              successor-IsSafe r q running
                (ground (arith, size-insert r.key r q.successors, h.bounded)) h))
      | inr older ↦ rw (e, record_successor) (rw older h)
    ]
    | inl e ↦ elim (Option-cases (make_queue_room capacity r q)) [
      | inl full ↦ rw (e, record_successor) (rw (full, record_successor) h)
      | inr (q', made) ↦
          let m = make_queue_room-MadeRoom capacity r h.bounded made in
          let running' : contains r.key q'.in_flight ≡ true = ground (arith, m.in_flight) in
          rw (e, record_successor)
            (rw (made, record_successor)
              (successor-IsSafe r q' running'
                (ground (arith, size-insert r.key r q'.successors, m.room)) (room-IsSafe q q' h m)))
    ]
  ]

  pub record_pending-IsSafe :
      (r : ScheduledReadRequest) (q : QueueState)
      → contains r.key q.in_flight ≡ false
      → IsSafe capacity q
      → IsSafe capacity (record_pending capacity r q).0
  unfolding record_pending
  record_pending-IsSafe r q waiting h = elim (Option-cases (get r.key q.pending)) [
    | inr (existing, e) ↦ elim (Bool-cases (is_newer r existing)) [
      | inl newer ↦
          rw (e, record_pending)
            (rw newer (
              pending-IsSafe r q waiting (ground (arith, size-insert r.key r q.pending, h.bounded))
                h))
      | inr older ↦ rw (e, record_pending) (rw older h)
    ]
    | inl e ↦ elim (Option-cases (make_queue_room capacity r q)) [
      | inl full ↦ rw (e, record_pending) (rw (full, record_pending) h)
      | inr (q', made) ↦
          let m = make_queue_room-MadeRoom capacity r h.bounded made in
          let waiting' : contains r.key q'.in_flight ≡ false = ground (arith, m.in_flight) in
          rw (e, record_pending)
            (rw (made, record_pending)
              (pending-IsSafe r q' waiting' (ground (arith, size-insert r.key r q'.pending, m.room))
                (room-IsSafe q q' h m)))
    ]
  ]

-- A scheduler satisfies the invariant when its queue and its budget do, and the running requests
-- and the free permits are together no more than the permits of the policy.
pub record IsSafeScheduler (s : RequestScheduler) : Type 0 where
  pub queue : IsSafe s.policy.queue_capacity s.queue
  pub budget : IsSound s.budget
  pub concurrency : size s.queue.in_flight + s.permits ≤ s.policy.max_concurrency
