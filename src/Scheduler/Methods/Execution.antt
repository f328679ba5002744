-- ===== src/Scheduler/Methods/Execution.antt =====
-- The dispatch, the retries and the end of a request (crates/copytrade-core/src/scheduler.rs).
-- `debug_bytes` is the text that the standard library formats for a key and an attempt.
use hyperliquid.Base.{
  ℕ, ◌+◌, ◌-◌, Bool, ◌&&◌, ◌||◌, Option, none, some, List, [], ◌∷◌, ltb, leb, ◌==◌, if◌then◌else◌,
  filter, Result, ok, err, ◌>>=◌, ◌>>◌, ok_or, fail_if, checked_add, u32_mod, u64_mod,
}
use hyperliquid.BTreeMap.{remove, values, add, string_ord}
use hyperliquid.Scheduler.Request.{RequestKey, ScheduledReadRequest, key_ord, kind_ord}
use hyperliquid.Scheduler.Policy.{ReadApiPolicy}
use hyperliquid.Scheduler.Bucket.{
  WeightedTokenBucket, charged, insufficient, overweight, try_charge,
}
use hyperliquid.Scheduler.Queue.{
  QueueState, bump_tier, purge_expired, release, dispatch_order_with_fairness, sort_by,
}
use hyperliquid.Scheduler.Retry
use hyperliquid.Scheduler.Retry.{
  RetryPolicy, ReadFailure, rate_limited, timeout, transport, server, delay_ms,
}
use hyperliquid.Scheduler.Methods.{
  ExecutionOutcome, ReadResponse, RequestScheduler, ScheduleOutcome, completed_but_stale,
  completed_fresh, enqueued, invalid_response, permanent_failure, replaced_older, retry_exhausted,
  retry_scheduled, schedule, successor_recorded, superseded,
}

-- The loop over the ordered requests: the first that the budget charges. Each try refills it.
unfoldable pub choose :
    ℕ
    → List ScheduledReadRequest
    → WeightedTokenBucket
    → WeightedTokenBucket × Option ScheduledReadRequest
choose now_ms [] b = (b, none)
choose now_ms (r ∷ rs) b =
    let attempt = try_charge r.budget_class r.weight now_ms b in
    let rest = choose now_ms rs attempt.0 in
    elim attempt.1 [ charged ↦ (attempt.0, some r) | insufficient ↦ rest | overweight ↦ rest ]

abbrev pub is_due : ℕ → ScheduledReadRequest → Bool
is_due now_ms r = leb r.not_before now_ms

-- The pending requests that are due, in the order of dispatch.
unfoldable pub ordered : ReadApiPolicy → ℕ → QueueState → List ScheduledReadRequest
ordered p now_ms q =
    sort_by
      (dispatch_order_with_fairness q.dispatch_window_count
        p.source_tier_dispatch_targets_per_window)
      (filter (is_due now_ms) (values q.pending))

-- The queue after the dispatch of a request.
unfoldable pub start : ScheduledReadRequest → QueueState → QueueState
start r q = record q {
  pending = remove r.key q.pending;
  in_flight = add r.key q.in_flight;
  dispatch_count = bump_tier r.source_tier q.dispatch_count;
  dispatch_window_count = bump_tier r.source_tier q.dispatch_window_count;
}

-- `begin_next`: the request of the dispatch. Without one, the permit goes back.
unfoldable pub begin_next : ℕ → RequestScheduler → RequestScheduler × Option ScheduledReadRequest
unfolding ordered start
begin_next now_ms s =
    if s.permits == 0
    then (s, none)
    else let q = purge_expired now_ms s.queue in
      let (b, chosen) = choose now_ms (ordered s.policy now_ms q) s.budget in
      elim chosen [
        | none ↦ (record s { queue = q; budget = b }, none)
        | some r ↦ (record s { queue = start r q; budget = b; permits = s.permits - 1 }, some r)
      ]

-- `ScheduledDispatch::release`, of an active dispatch: the flag says whether a successor waits.
unfoldable pub release_dispatch : ScheduledReadRequest → RequestScheduler → RequestScheduler × Bool
release_dispatch r s =
    let (q, successor) = release r.key s.queue in
    (record s { queue = q; permits = s.permits + 1 }, successor)

abbrev pub retry_outcome : ScheduleOutcome → ExecutionOutcome
retry_outcome enqueued = retry_scheduled
retry_outcome replaced_older = retry_scheduled
retry_outcome successor_recorded = retry_scheduled
retry_outcome _ = retry_exhausted

module _ (debug_bytes : RequestKey → ℕ → List ℕ) where
  -- The request that `schedule_retry` schedules, or the outcome without one.
  unfoldable pub retry_request :
      RetryPolicy
      → ScheduledReadRequest
      → ReadFailure
      → ℕ
      → Result ExecutionOutcome ScheduledReadRequest
  retry_request p r failure now_ms = do
    attempt ← ok_or (checked_add u32_mod r.attempt 1) retry_exhausted
    fail_if (leb p.maximum_attempts attempt) retry_exhausted
    fail_if (leb p.maximum_lifetime_ms (now_ms - r.created_at)) retry_exhausted
    delay ←
        ok_or (delay_ms debug_bytes p r failure)
          (elim failure [ Retry.invalid_response ↦ invalid_response | _ ↦ permanent_failure ])
    not_before ← ok_or (checked_add u64_mod now_ms delay) retry_exhausted
    fail_if
        (leb not_before now_ms
          || leb r.expires_at not_before
          || ltb p.maximum_lifetime_ms (not_before - r.created_at))
        retry_exhausted
    ok (record r { attempt = attempt; not_before = not_before })

  -- `now_ms` is the caller's reading, `later_ms` the one that `schedule` makes.
  unfoldable pub schedule_retry :
      ScheduledReadRequest
      → ReadFailure
      → ℕ
      → ℕ
      → RequestScheduler
      → RequestScheduler × ExecutionOutcome
  unfolding retry_request
  schedule_retry r failure now_ms later_ms s =
      elim (retry_request s.retry_policy r failure now_ms) [
        | err outcome ↦ (s, outcome)
        | ok retry ↦ let (s', outcome) = schedule retry later_ms s in (s', retry_outcome outcome)
      ]

  -- What `finish` says of a response.
  unfoldable pub judge : ScheduledReadRequest → ReadResponse → ℕ → ExecutionOutcome
  judge r response now_ms =
      if response.payload_valid
      then if leb r.created_at response.received_at
          && leb response.received_at response.valid_until
          && leb now_ms response.valid_until
          && ltb now_ms r.expires_at
        then completed_fresh
        else completed_but_stale
      else invalid_response

  -- What `finish` does once the dispatch is released and no successor has taken its place.
  unfoldable pub conclude :
      ScheduledReadRequest
      → Result ReadFailure ReadResponse
      → ℕ
      → ℕ
      → RequestScheduler
      → RequestScheduler × ExecutionOutcome
  unfolding judge
  conclude r (ok response) now_ms later_ms s = (s, judge r response now_ms)
  conclude r (err Retry.invalid_response) now_ms later_ms s = (s, invalid_response)
  conclude r (err Retry.permanent) now_ms later_ms s = (s, permanent_failure)
  conclude r (err failure) now_ms later_ms s = schedule_retry r failure now_ms later_ms s

  unfoldable pub finish :
      ScheduledReadRequest
      → Result ReadFailure ReadResponse
      → ℕ
      → ℕ
      → RequestScheduler
      → RequestScheduler × ExecutionOutcome
  finish r result now_ms later_ms s =
      let (s', successor) = release_dispatch r s in
      if successor then (s', superseded) else conclude r result now_ms later_ms s'

  -- `data_source` is what a call of it answers, and what the other threads make of the scheduler
  -- before it does.
  unfoldable pub execute_next :
      (ScheduledReadRequest → RequestScheduler → RequestScheduler × Result ReadFailure ReadResponse)
      → ℕ
      → ℕ
      → ℕ
      → RequestScheduler
      → RequestScheduler × Option ExecutionOutcome
  execute_next data_source now_ms finish_ms later_ms s =
      let (begun, chosen) = begin_next now_ms s in
      elim chosen [
        | none ↦ (begun, none)
        | some r ↦
            let (answered, result) = data_source r begun in
            let (ended, outcome) = finish r result finish_ms later_ms answered in
            (ended, some outcome)
      ]
