-- ===== src/Scheduler/Methods/Ready.antt =====
-- What `begin_next` finds in a queue: the requests that are ready, and the charge of the chosen one.
use hyperliquid.Base.{
  refl, ◌≢◌, ◌∙◌, ℕ, ◌≤◌, ◌<◌, ◌≡◌, Bool, true, some, List, [], ◌∷◌, arith, inl, inr, Bool-cases,
  All, All-mono, subst, sym, Ordering, filter,
}
use hyperliquid.BTreeMap.{BTreeMap, values, contains_key, keys_found, retain_test}
use hyperliquid.Scheduler.Request.{BudgetClass, RequestKey, ScheduledReadRequest, key_ord}
use hyperliquid.Scheduler.Policy.{ReadApiPolicy}
use hyperliquid.Scheduler.Bucket.{
  reset_window, charge, refill, WeightedTokenBucket, try_charge, charged,
}
use hyperliquid.Scheduler.Queue.{
  QueueState, purge_expired, is_live, insert_sorted, sort_by, dispatch_order_with_fairness,
}
use hyperliquid.Scheduler.Queue.Safe.{IsKeyed, IsSafe, purge_expired-IsSafe}
use hyperliquid.Scheduler.Methods.Execution.{choose, is_due, ordered}
use hyperliquid.Scheduler.Methods.Safe.Calls.{decision_cases}

module _ {ℓ} {A : Type ℓ} (cmp : A → A → Ordering) (P : A → Type ℓ) where
  All-insert_sorted : (x : A) (xs : List A) → P x → All P xs → All P (insert_sorted cmp x xs)
  unfolding insert_sorted
  All-insert_sorted x [] h k = (h, tt)
  All-insert_sorted x (y ∷ ys) h k = place (cmp x y) (All-insert_sorted x ys h k.1)
    where
      place :
          (c : Ordering)
          → All P (insert_sorted cmp x ys)
          → All P (elim c [ Ordering.gt ↦ y ∷ insert_sorted cmp x ys | _ ↦ x ∷ y ∷ ys ])
      place Ordering.gt r = (k.0, r)
      place Ordering.eq r = (h, k)
      place Ordering.lt r = (h, k)

  All-sort_by : (xs : List A) → All P xs → All P (sort_by cmp xs)
  unfolding sort_by
  All-sort_by [] h = tt
  All-sort_by (x ∷ xs) h = All-insert_sorted x (sort_by cmp xs) h.0 (All-sort_by xs h.1)

module _ {ℓ} {A : Type ℓ} (P : A → Type ℓ) where
  All-filter : (p : A → Bool) (xs : List A) → All P xs → All (λ x. P x × (p x ≡ true)) (filter p xs)
  All-filter p [] h = tt
  All-filter p (x ∷ xs) h = elim (Bool-cases (p x)) [
    | inl e ↦ rw e ((h.0, e), All-filter p xs h.1)
    | inr e ↦ rw e (All-filter p xs h.1)
  ]

-- A request that may be dispatched: it waits under its own key, is due and has not expired.
pub record IsReady (now_ms : ℕ) (q : QueueState) (r : ScheduledReadRequest) : Type 0 where
  pub waits : contains_key r.key q.pending ≡ true
  pub due : r.not_before ≤ now_ms
  pub live : now_ms < r.expires_at

-- What waits in a purged queue.
abbrev Waits : ℕ → QueueState → ScheduledReadRequest → Type 0
Waits now_ms q r = (contains_key r.key q.pending ≡ true) × (is_live now_ms r ≡ true)

values-Waits :
    (now_ms : ℕ) (q : QueueState) (m : BTreeMap RequestKey ScheduledReadRequest)
    → All (λ e. contains_key e.0 q.pending ≡ true) m
    → All IsKeyed m
    → All (λ e. is_live now_ms e.1 ≡ true) m
    → All (Waits now_ms q) (values m)
values-Waits now_ms q [] found keyed live = tt
values-Waits now_ms q ((k, r) ∷ m) found keyed live = (
  (subst (λ j. contains_key j q.pending ≡ true) (sym keyed.0) found.0, live.0),
  values-Waits now_ms q m found.1 keyed.1 live.1,
)

pub ready :
    (now_ms : ℕ) (q : QueueState) (r : ScheduledReadRequest)
    → Waits now_ms q r × (is_due now_ms r ≡ true)
    → IsReady now_ms q r
ready now_ms q r h = record { waits = h.0.0; due = ground arith; live = ground arith }

-- Every request in the order of dispatch of a purged queue is ready.
pub ordered-IsReady :
    (capacity : ℕ) (p : ReadApiPolicy) (now_ms : ℕ) (q : QueueState)
    → IsSafe capacity q
    → let q' = purge_expired now_ms q in All (IsReady now_ms q') (ordered p now_ms q')
unfolding ordered purge_expired
ordered-IsReady capacity p now_ms q h =
    let q' = purge_expired now_ms q in
    let h' = purge_expired-IsSafe capacity now_ms q h in
    let waiting =
      values-Waits now_ms q' q'.pending (keys_found q'.pending) h'.pending_keyed
        (retain_test (is_live now_ms) q.pending) in
    let due = All-filter (Waits now_ms q') (is_due now_ms) (values q'.pending) waiting in
    All-sort_by
      (dispatch_order_with_fairness q'.dispatch_window_count
        p.source_tier_dispatch_targets_per_window)
      (IsReady now_ms q') (filter (is_due now_ms) (values q'.pending))
      (All-mono (filter (is_due now_ms) (values q'.pending)) (λ r w. ready now_ms q' r w) due)

-- The request that the loop chooses is one of its list.
pub choose-among :
    (P : ScheduledReadRequest → Type 0) (now_ms : ℕ) (rs : List ScheduledReadRequest)
    (b : WeightedTokenBucket) {r : ScheduledReadRequest}
    → All P rs
    → (choose now_ms rs b).1 ≡ some r
    → P r
unfolding choose
choose-among P now_ms [] b h e = cc
choose-among P now_ms (x ∷ rs) b {r} h e =
    let attempt = try_charge x.budget_class x.weight now_ms b in
    let rest = choose-among P now_ms rs attempt.0 {r = r} h.1 in
    elim (decision_cases attempt.1) [
      | inl made ↦ let same : x ≡ r = ground arith in subst P same h.0
      | inr (inl short) ↦ rest (ground arith)
      | inr (inr heavy) ↦ rest (ground arith)
    ]

-- A second refill at the same time does nothing.
refill_twice :
    (now_ms : ℕ) (b : WeightedTokenBucket) → refill now_ms (refill now_ms b) ≡ refill now_ms b
unfolding refill reset_window
refill_twice now_ms b = ground arith

-- A try that charges nothing only refills.
uncharged-refill :
    (class : BudgetClass) (weight now_ms : ℕ) (b : WeightedTokenBucket)
    → (try_charge class weight now_ms b).1 ≢ charged
    → (try_charge class weight now_ms b).0 ≡ refill now_ms b
unfolding try_charge charge
uncharged-refill class weight now_ms b n = ground arith

-- So the next try charges what it would have charged before.
charge-again :
    (x r : ScheduledReadRequest) (now_ms : ℕ) (b : WeightedTokenBucket)
    → (try_charge x.budget_class x.weight now_ms b).1 ≢ charged
    → try_charge r.budget_class r.weight now_ms (try_charge x.budget_class x.weight now_ms b).0
      ≡ try_charge r.budget_class r.weight now_ms b
charge-again x r now_ms b n =
    rw (uncharged-refill x.budget_class x.weight now_ms b n)
      (unfold try_charge in rw (refill_twice now_ms b) refl)

-- The chosen request is charged to the bucket that there was.
pub choose_charges :
    (now_ms : ℕ) (rs : List ScheduledReadRequest) (b : WeightedTokenBucket)
    {r : ScheduledReadRequest}
    → (choose now_ms rs b).1 ≡ some r
    → try_charge r.budget_class r.weight now_ms b ≡ ((choose now_ms rs b).0, charged)
unfolding choose
choose_charges now_ms [] b e = cc
choose_charges now_ms (x ∷ rs) b {r} e =
    let attempt = try_charge x.budget_class x.weight now_ms b in
    let rest = choose_charges now_ms rs attempt.0 {r = r} in
    elim (decision_cases attempt.1) [
      | inl made ↦
          let same : x ≡ r = cc (rw (made, choose) at e) in
          rw (made, choose) (rw (← same) (λ i. (attempt.0, made i)))
      | inr (inl short) ↦
          rw (short, choose)
            (sym (charge-again x r now_ms b (λ k. absurd (cc))) ∙ rest (rw (short, choose) at e))
      | inr (inr heavy) ↦
          rw (heavy, choose)
            (sym (charge-again x r now_ms b (λ k. absurd (cc))) ∙ rest (rw (heavy, choose) at e))
    ]
