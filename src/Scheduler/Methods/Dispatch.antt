-- ===== src/Scheduler/Methods/Dispatch.antt =====
-- What `begin_next` dispatches, and that it keeps the invariant.
use hyperliquid.Base.{
  ℕ, ◌+◌, ◌-◌, ◌≤◌, ◌<◌, ◌≡◌, true, false, Option, none, some, arith, inl, inr, Option-cases,
  Bool-cases, refl, subst, sym, ◌==◌, ap, ◌∙◌,
}
use hyperliquid.BTreeMap.{
  size, contains_key, contains, size-insert, get-insert, get-remove, contains_key-retain,
}
use hyperliquid.Scheduler.Request.{ScheduledReadRequest, key_ord}
use hyperliquid.Scheduler.Bucket.{WeightedTokenBucket, try_charge, charged}
use hyperliquid.Scheduler.Queue.{QueueState, purge_expired, is_live}
use hyperliquid.Scheduler.Queue.Safe.{purge_expired-IsSafe}
use hyperliquid.Scheduler.Methods.{RequestScheduler}
use hyperliquid.Scheduler.Methods.Execution.{choose, ordered, start, begin_next}
use hyperliquid.Scheduler.Methods.Safe.{IsSafeScheduler}
use hyperliquid.Scheduler.Methods.Safe.Calls.{choose-IsSound, start-IsSafe}
use hyperliquid.Scheduler.Methods.Ready.{IsReady, ordered-IsReady, choose-among, choose_charges}

-- What a dispatch does: a permit is taken, the request was ready, and it moves from the waiting to the
-- running requests, and its weight is charged to the budget that there was.
pub record Dispatched (now_ms : ℕ) (s : RequestScheduler) (r : ScheduledReadRequest)
    (s' : RequestScheduler) : Type 0 where
  pub was_ready : IsReady now_ms s.queue r
  pub permit : s'.permits + 1 ≡ s.permits
  pub was_idle : contains r.key s.queue.in_flight ≡ false
  pub runs : contains r.key s'.queue.in_flight ≡ true
  pub left : contains_key r.key s'.queue.pending ≡ false
  pub charge : try_charge r.budget_class r.weight now_ms s.budget ≡ (s'.budget, charged)

-- The two ways in which `begin_next` ends, where there is a permit.
module _ (now_ms : ℕ) (s : RequestScheduler) where
  abbrev purged : QueueState
  purged = purge_expired now_ms s.queue

  abbrev choice : WeightedTokenBucket × Option ScheduledReadRequest
  choice = choose now_ms (ordered s.policy now_ms purged) s.budget

  abbrev after : ScheduledReadRequest → RequestScheduler
  after r = record s { queue = start r purged; budget = choice.0; permits = s.permits - 1 }

  chosen-IsReady :
      {r : ScheduledReadRequest} → IsSafeScheduler s → choice.1 ≡ some r → IsReady now_ms purged r
  chosen-IsReady h e =
      choose-among (IsReady now_ms purged) now_ms (ordered s.policy now_ms purged) s.budget
        (ordered-IsReady s.policy.queue_capacity s.policy now_ms s.queue h.queue) e

  started_size :
      (r : ScheduledReadRequest)
      → IsSafeScheduler s
      → 0 < s.permits
      → contains r.key purged.in_flight ≡ false
      → size (start r purged).in_flight + (s.permits - 1) ≤ s.policy.max_concurrency
  unfolding start purge_expired
  started_size r h free idle = ground (arith, h.concurrency, size-insert r.key tt s.queue.in_flight)

  after-IsSafe :
      (r : ScheduledReadRequest)
      → IsSafeScheduler s
      → 0 < s.permits
      → choice.1 ≡ some r
      → IsSafeScheduler (after r)
  after-IsSafe r h free e =
      let c = s.policy.queue_capacity in
      let safe = purge_expired-IsSafe c now_ms s.queue h.queue in
      let is_ready = chosen-IsReady h e in
      record {
        queue = start-IsSafe c r purged is_ready.waits safe;
        budget = choose-IsSound now_ms (ordered s.policy now_ms purged) h.budget;
        concurrency = started_size r h free (safe.apart r.key is_ready.waits);
      }

  after-Dispatched :
      (r : ScheduledReadRequest)
      → IsSafeScheduler s
      → 0 < s.permits
      → choice.1 ≡ some r
      → Dispatched now_ms s r (after r)
  unfolding start purge_expired
  after-Dispatched r h free e =
      let q = purged in
      let is_ready = chosen-IsReady h e in
      record {
        was_ready = record {
          waits = contains_key-retain (is_live now_ms) r.key s.queue.pending is_ready.waits;
          due = is_ready.due;
          live = is_ready.live;
        };
        permit = omega arith;
        was_idle =
            (purge_expired-IsSafe s.policy.queue_capacity now_ms s.queue h.queue).apart r.key
              is_ready.waits;
        runs = ground (arith, get-insert r.key r.key tt s.queue.in_flight);
        left = ground (arith, get-remove r.key r.key purged.pending);
        charge = choose_charges now_ms (ordered s.policy now_ms purged) s.budget e;
      }

-- `begin_next` keeps the invariant.
pub begin_next-IsSafe :
    (now_ms : ℕ) (s : RequestScheduler)
    → IsSafeScheduler s
    → IsSafeScheduler (begin_next now_ms s).0
unfolding begin_next
begin_next-IsSafe now_ms s h = elim (Bool-cases (s.permits == 0)) [
  | inl full ↦ rw full h
  | inr free ↦ elim (Option-cases (choice now_ms s).1) [
    | inl e ↦
        rw (free, e, begin_next)
          (record {
            queue = purge_expired-IsSafe s.policy.queue_capacity now_ms s.queue h.queue;
            budget = choose-IsSound now_ms (ordered s.policy now_ms (purged now_ms s)) h.budget;
            concurrency = unfold purge_expired in h.concurrency;
          })
    | inr (r, e) ↦ rw (free, e, begin_next) (after-IsSafe now_ms s r h (ground arith) e)
  ]
]

-- How `begin_next` ends, in its three cases.
begin_next_full :
    (now_ms : ℕ) (s : RequestScheduler) → (s.permits == 0) ≡ true → (begin_next now_ms s).1 ≡ none
unfolding begin_next
begin_next_full now_ms s full = rw full

begin_next_idle :
    (now_ms : ℕ) (s : RequestScheduler)
    → (s.permits == 0) ≡ false
    → (choice now_ms s).1 ≡ none
    → (begin_next now_ms s).1 ≡ none
unfolding begin_next
begin_next_idle now_ms s free nothing = rw (free, nothing, begin_next) refl

begin_next_started :
    (now_ms : ℕ) (s : RequestScheduler) {r : ScheduledReadRequest}
    → (s.permits == 0) ≡ false
    → (choice now_ms s).1 ≡ some r
    → begin_next now_ms s ≡ (after now_ms s r, some r)
unfolding begin_next
begin_next_started now_ms s free found = rw (free, found, begin_next) refl

-- Only a due and live request that waits and whose key does not run is dispatched. It takes a
-- permit and its charge from the budget as it was, and moves to the running requests.
pub begin_next_dispatches :
    (now_ms : ℕ) (s : RequestScheduler) {s' : RequestScheduler} {r : ScheduledReadRequest}
    → IsSafeScheduler s
    → begin_next now_ms s ≡ (s', some r)
    → Dispatched now_ms s r s'
begin_next_dispatches now_ms s {s'} {r} h e =
    let second : (begin_next now_ms s).1 ≡ some r = ap (λ t. t.1) e in
    let first : (begin_next now_ms s).0 ≡ s' = ap (λ t. t.0) e in
    elim (Bool-cases (s.permits == 0)) [
      | inl full ↦ absurd (cc (begin_next_full now_ms s full))
      | inr free ↦ elim (Option-cases (choice now_ms s).1) [
        | inl nothing ↦ absurd (cc (begin_next_idle now_ms s free nothing))
        | inr (x, found) ↦
            let started = begin_next_started now_ms s free found in
            let same : x ≡ r = cc (ap (λ t. t.1) started) in
            let moved : after now_ms s x ≡ s' = sym (ap (λ t. t.0) started) ∙ first in
            subst (λ y. Dispatched now_ms s y s') same
              (subst (Dispatched now_ms s x) moved
                (after-Dispatched now_ms s x h (ground arith) found))
      ]
    ]
