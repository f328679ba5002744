-- ===== src/Scheduler/Methods/Runs.antt =====
-- The scheduler over any interleaving of its methods, and what ends a dispatch.
use hyperliquid.Base.{
  ℕ, ◌+◌, ◌≤◌, ◌<◌, ◌≡◌, true, false, some, none, ok, err, Result, arith, u32_mod, refl, List, inl,
  inr, Bool-cases, Option-cases, Result-cases, ◌≢◌, ◌↔◌,
}
use hyperliquid.BTreeMap.{get, contains, contains_key, insert, remove, get-insert}
use hyperliquid.Scheduler.Request.{RequestKey, ScheduledReadRequest, key_ord}
use hyperliquid.Scheduler.Policy
use hyperliquid.Scheduler.Policy.{ReadApiPolicy}
use hyperliquid.Scheduler.Bucket.Sound.{new-eq, policy_bucket, policy_bucket-IsSound}
use hyperliquid.Scheduler.Queue.{QueueState, empty, release}
use hyperliquid.Scheduler.Retry
use hyperliquid.Scheduler.Retry.{RetryPolicy, ReadFailure, delay_ms}
use hyperliquid.Scheduler.Methods.{
  RequestScheduler, ReadResponse, new, schedule, completed_fresh, superseded,
}
use hyperliquid.Scheduler.Methods.Execution.{
  begin_next, release_dispatch, retry_request, schedule_retry, judge, conclude, finish,
}
use hyperliquid.Scheduler.Methods.Safe.{IsSafeScheduler}
use hyperliquid.Scheduler.Methods.Safe.Calls.{schedule-IsSafe, release_dispatch-IsSafe}
use hyperliquid.Scheduler.Methods.Dispatch.{begin_next-IsSafe}
use hyperliquid.Scheduler.Methods.Health.{health, health-IsSafe}

-- The scheduler of a policy, with nothing queued.
abbrev pub idle : ReadApiPolicy → RetryPolicy → ℕ → RequestScheduler
idle policy retry_policy now_ms = record {
  policy = policy;
  budget = policy_bucket policy now_ms;
  permits = policy.max_concurrency;
  queue = empty;
  retry_policy = retry_policy;
}

new-eq-idle :
    (policy : ReadApiPolicy) (retry_policy : RetryPolicy) (now_ms : ℕ)
    → Policy.validate policy ≡ ok tt
    → Retry.validate retry_policy ≡ ok tt
    → new policy retry_policy now_ms ≡ ok (idle policy retry_policy now_ms)
unfolding new
new-eq-idle policy retry_policy now_ms v w = ground (arith, new-eq policy now_ms v)

pub idle-IsSafe :
    (policy : ReadApiPolicy) (retry_policy : RetryPolicy) (now_ms : ℕ)
    → policy.total_weight_per_window < u32_mod
    → Policy.validate policy ≡ ok tt
    → IsSafeScheduler (idle policy retry_policy now_ms)
unfolding get
idle-IsSafe policy retry_policy now_ms fits v = record {
  queue = record {
    apart = λ k p. cc;
    covered = λ k p. cc;
    bounded = omega arith;
    pending_keyed = tt;
    successors_keyed = tt;
  };
  budget = policy_bucket-IsSound policy now_ms fits v;
  concurrency = omega arith;
}

-- On valid policies whose total weight is a u32, `new` makes a scheduler that satisfies the invariant.
pub new-IsSafe :
    (policy : ReadApiPolicy) (retry_policy : RetryPolicy) (now_ms : ℕ)
    → policy.total_weight_per_window < u32_mod
    → Policy.validate policy ≡ ok tt
    → Retry.validate retry_policy ≡ ok tt
    → (s : RequestScheduler) × (new policy retry_policy now_ms ≡ ok s) × IsSafeScheduler s
new-IsSafe policy retry_policy now_ms fits v w = (
  idle policy retry_policy now_ms,
  new-eq-idle policy retry_policy now_ms v w,
  idle-IsSafe policy retry_policy now_ms fits v,
)

release_alone :
    (key : RequestKey) (q : QueueState)
    → get key q.successors ≡ none
    → release key q ≡ (record q { in_flight = remove key q.in_flight }, false)
unfolding release
release_alone key q e = rw (e, release) refl

release_waiting :
    (key : RequestKey) (q : QueueState) {x : ScheduledReadRequest}
    → get key q.successors ≡ some x
    → ((release key q).1 ≡ true) × ((release key q).0.pending ≡ insert key x q.pending)
unfolding release
release_waiting key q e = (rw (e, release) refl, rw (e, release) refl)

-- One locked step of some thread: any request at any time is scheduled, a dispatch begins, a running
-- dispatch is released, or the health is reported. A `finish` is a release, and then perhaps the scheduling of a retry.
pub data Step (s t : RequestScheduler) : Type 0 where
  scheduling : (r : ScheduledReadRequest) (now_ms : ℕ) → t ≡ (schedule r now_ms s).0 → Step s t
  beginning : (now_ms : ℕ) → t ≡ (begin_next now_ms s).0 → Step s t
  releasing :
      (r : ScheduledReadRequest)
      → contains r.key s.queue.in_flight ≡ true
      → t ≡ (release_dispatch r s).0
      → Step s t
  reporting : (now_ms : ℕ) → t ≡ (health now_ms s).0 → Step s t

pub data Reach (s : RequestScheduler) : RequestScheduler → Type 0 where
  here : Reach s s
  next : {t u : RequestScheduler} → Reach s t → Step t u → Reach s u

pub Step-IsSafe : (s t : RequestScheduler) → Step s t → IsSafeScheduler s → IsSafeScheduler t
Step-IsSafe s t (scheduling r now_ms e) h = rw e (schedule-IsSafe r now_ms s h)
Step-IsSafe s t (beginning now_ms e) h = rw e (begin_next-IsSafe now_ms s h)
Step-IsSafe s t (releasing r runs e) h = rw e (release_dispatch-IsSafe r s runs h)
Step-IsSafe s t (reporting now_ms e) h = rw e (health-IsSafe now_ms s h)

-- Whatever the threads do, in whatever order and at whatever times, the queue stays within its capacity,
-- no key waits while it runs, a successor waits only for a running key, the budgets stay within
-- their capacities, and the running requests and the free permits are at most the permits.
pub Reach-IsSafe : {s t : RequestScheduler} → IsSafeScheduler s → Reach s t → IsSafeScheduler t
Reach-IsSafe h here = h
Reach-IsSafe h (next {t} {u} r st) = Step-IsSafe t u st (Reach-IsSafe h r)

module _ (debug_bytes : RequestKey → ℕ → List ℕ) where
  -- A retry that is scheduled is the same request with one attempt more, below the maximum, that is due
  -- after the present, before it expires, and within the lifetime from its creation.
  pub retry_request_bounds :
      (p : RetryPolicy) (r : ScheduledReadRequest) (failure : ReadFailure) (now_ms : ℕ)
      {r' : ScheduledReadRequest}
      → retry_request debug_bytes p r failure now_ms ≡ ok r'
      → (r' ≡ record r { attempt = r.attempt + 1; not_before = r'.not_before })
        × (r.attempt + 1 < p.maximum_attempts)
        × (now_ms < r'.not_before)
        × (r'.not_before < r.expires_at)
        × (r'.not_before ≤ r.created_at + p.maximum_lifetime_ms)
  unfolding retry_request
  retry_request_bounds p r failure now_ms {r'} e =
      elim (Option-cases (delay_ms debug_bytes p r failure)) [
        | inl never ↦ ground arith
        | inr (delay, after) ↦ ground arith
      ]

  schedule_retry-IsSafe :
      (r : ScheduledReadRequest) (failure : ReadFailure) (now_ms later_ms : ℕ)
      (s : RequestScheduler)
      → IsSafeScheduler s
      → IsSafeScheduler (schedule_retry debug_bytes r failure now_ms later_ms s).0
  unfolding schedule_retry
  schedule_retry-IsSafe r failure now_ms later_ms s h =
      elim (Result-cases (retry_request debug_bytes s.retry_policy r failure now_ms)) [
        | inl (retry, e) ↦ rw (e, schedule_retry) (schedule-IsSafe retry later_ms s h)
        | inr (outcome, e) ↦ rw (e, schedule_retry) h
      ]

  conclude-IsSafe :
      (r : ScheduledReadRequest) (result : Result ReadFailure ReadResponse) (now_ms later_ms : ℕ)
      (s : RequestScheduler)
      → IsSafeScheduler s
      → IsSafeScheduler (conclude debug_bytes r result now_ms later_ms s).0
  unfolding conclude
  conclude-IsSafe r (ok response) now_ms later_ms s h = h
  conclude-IsSafe r (err Retry.invalid_response) now_ms later_ms s h = h
  conclude-IsSafe r (err Retry.permanent) now_ms later_ms s h = h
  conclude-IsSafe r (err failure) now_ms later_ms s h =
      schedule_retry-IsSafe r failure now_ms later_ms s h

  -- The end of a running dispatch keeps the invariant, whatever the result.
  pub finish-IsSafe :
      (r : ScheduledReadRequest) (result : Result ReadFailure ReadResponse) (now_ms later_ms : ℕ)
      (s : RequestScheduler)
      → contains r.key s.queue.in_flight ≡ true
      → IsSafeScheduler s
      → IsSafeScheduler (finish debug_bytes r result now_ms later_ms s).0
  unfolding finish
  finish-IsSafe r result now_ms later_ms s runs h =
      let h' = release_dispatch-IsSafe r s runs h in
      elim (Bool-cases (release_dispatch r s).1) [
        | inl successor ↦ rw successor h'
        | inr free ↦ rw free (conclude-IsSafe r result now_ms later_ms (release_dispatch r s).0 h')
      ]

  not_superseded :
      (r : ScheduledReadRequest) (result : Result ReadFailure ReadResponse) (now_ms later_ms : ℕ)
      (s : RequestScheduler)
      → (conclude debug_bytes r result now_ms later_ms s).1 ≢ superseded
  unfolding conclude judge schedule_retry retry_request
  not_superseded r (ok response) now_ms later_ms s = ground arith
  not_superseded r (err Retry.invalid_response) now_ms later_ms s = ground arith
  not_superseded r (err Retry.permanent) now_ms later_ms s = ground arith
  not_superseded r (err failure) now_ms later_ms s = ground arith

  abbrev IsFresh : ScheduledReadRequest → ReadResponse → ℕ → Type 0
  IsFresh r response now_ms =
      (response.payload_valid ≡ true)
      × (r.created_at ≤ response.received_at)
      × (response.received_at ≤ response.valid_until)
      × (now_ms ≤ response.valid_until)
      × (now_ms < r.expires_at)

  conclude-IsFresh :
      (r : ScheduledReadRequest) (result : Result ReadFailure ReadResponse) (now_ms later_ms : ℕ)
      (s : RequestScheduler)
      → (conclude debug_bytes r result now_ms later_ms s).1 ≡ completed_fresh
      → (response : ReadResponse) × (result ≡ ok response) × IsFresh r response now_ms
  unfolding conclude judge schedule_retry retry_request
  conclude-IsFresh r (ok response) now_ms later_ms s e = (response, refl, ground arith)
  conclude-IsFresh r (err Retry.invalid_response) now_ms later_ms s e = absurd (ground arith)
  conclude-IsFresh r (err Retry.permanent) now_ms later_ms s e = absurd (ground arith)
  conclude-IsFresh r (err failure) now_ms later_ms s e = absurd (ground arith)

  -- The scheduler after the end of a dispatch for which no successor waits.
  abbrev freed : ScheduledReadRequest → RequestScheduler → RequestScheduler
  freed r s = record s {
    queue = record s.queue { in_flight = remove r.key s.queue.in_flight };
    permits = s.permits + 1;
  }

  module _ (r : ScheduledReadRequest) (result : Result ReadFailure ReadResponse)
      (now_ms later_ms : ℕ) (s : RequestScheduler) where
    finish_alone :
        get r.key s.queue.successors ≡ none
        → finish debug_bytes r result now_ms later_ms s
          ≡ conclude debug_bytes r result now_ms later_ms (freed r s)
    unfolding finish release_dispatch
    finish_alone e = ground (arith, release_alone r.key s.queue e)

    finish_replaced :
        {x : ScheduledReadRequest}
        → get r.key s.queue.successors ≡ some x
        → ((finish debug_bytes r result now_ms later_ms s).1 ≡ superseded)
          × ((finish debug_bytes r result now_ms later_ms s).0.queue.pending
              ≡ insert r.key x s.queue.pending)
    unfolding finish release_dispatch
    finish_replaced {x} e = (
      ground (arith, release_waiting r.key s.queue e),
      ground (arith, release_waiting r.key s.queue e),
    )

    -- A dispatch ends as superseded exactly when a successor waits for its key; its result is then
    -- dropped, and the successor waits in its place.
    pub finish_superseded :
        (((finish debug_bytes r result now_ms later_ms s).1 ≡ superseded)
          ↔ (contains_key r.key s.queue.successors ≡ true))
        × ((contains_key r.key s.queue.successors ≡ true)
            → get r.key (finish debug_bytes r result now_ms later_ms s).0.queue.pending
              ≡ get r.key s.queue.successors)
    finish_superseded = elim (Option-cases (get r.key s.queue.successors)) [
      | inl nothing ↦
          let other = not_superseded r result now_ms later_ms (freed r s) in
          let alone = finish_alone nothing in
          ((λ h. absurd (other (rw alone at h)), λ h. ground arith), λ h. ground arith)
      | inr (x, waits) ↦
          let replaced = finish_replaced waits in
          (
            (λ h. ground arith, λ h. replaced.0),
            λ h. ground (arith, get-insert r.key r.key x s.queue.pending),
          )
    ]

    -- A dispatch ends as fresh only when no successor waits, and the response is valid, was received
    -- after the request was made, and neither it nor the request has expired.
    finish_fresh :
        (finish debug_bytes r result now_ms later_ms s).1 ≡ completed_fresh
        → (response : ReadResponse) × (result ≡ ok response)
          × (contains_key r.key s.queue.successors ≡ false)
          × (response.payload_valid ≡ true)
          × (r.created_at ≤ response.received_at)
          × (response.received_at ≤ response.valid_until)
          × (now_ms ≤ response.valid_until)
          × (now_ms < r.expires_at)
    finish_fresh e = elim (Option-cases (get r.key s.queue.successors)) [
      | inl nothing ↦
          let (response, is, facts) =
            conclude-IsFresh r result now_ms later_ms (freed r s)
              (rw (finish_alone nothing) at e) in
          (response, is, ground arith, facts.0, facts.1, facts.2, facts.3, facts.4)
      | inr (x, waits) ↦ absurd (cc (finish_replaced waits).0)
    ]
