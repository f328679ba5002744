-- ===== src/Scheduler/Queue/Safe.antt =====
-- The invariant of the queue, and that each step on it keeps the invariant.
use hyperliquid.Base.{
  ◌+◌, ℕ, ◌≤◌, ◌<◌, ◌≡◌, true, false, some, List, [], ◌∷◌, ◌++◌, arith, inl, inr, All, All-append,
  Option-cases, Bool-cases, ltb, refl, subst,
}
use hyperliquid.BTreeMap.{All-retain, All-insert, All-remove, All-get}
use hyperliquid.BTreeMap.{
  remove, BTreeMap, BTreeSet, size, get, contains_key, contains, get-insert, get-remove,
  size-insert, size-remove-lt, size-retain-le, contains_key-retain, keys_found,
}
use hyperliquid.Scheduler.Request.{RequestKey, ScheduledReadRequest, key_ord, is_critical_priority}
use hyperliquid.Scheduler.Queue.{
  QueueState, queued_len, is_live, purge_expired, release, Candidate, evictable, min_by_value,
  lowest, evict, make_queue_room, compare_value, is_greater, lesser,
}

-- The entry of a request stands under the request's own key.
abbrev pub IsKeyed : RequestKey × ScheduledReadRequest → Type 0
IsKeyed (k, r) = r.key ≡ k

-- A key is in one place at most among the pending and the running requests, a successor waits
-- for a running request of its key, and the queued requests fit the capacity.
pub record IsSafeMaps (capacity : ℕ) (pending : BTreeMap RequestKey ScheduledReadRequest)
    (in_flight : BTreeSet RequestKey) (successors : BTreeMap RequestKey ScheduledReadRequest)
    : Type 0 where
  pub apart : (k : RequestKey) → contains_key k pending ≡ true → contains k in_flight ≡ false
  pub covered : (k : RequestKey) → contains_key k successors ≡ true → contains k in_flight ≡ true
  pub bounded : size pending + size successors ≤ capacity
  pub pending_keyed : All IsKeyed pending
  pub successors_keyed : All IsKeyed successors

abbrev pub IsSafe : ℕ → QueueState → Type 0
IsSafe capacity q = IsSafeMaps capacity q.pending q.in_flight q.successors

module _ (capacity : ℕ) where
  pub purge_expired-IsSafe :
      (now_ms : ℕ) (q : QueueState) → IsSafe capacity q → IsSafe capacity (purge_expired now_ms q)
  unfolding purge_expired
  purge_expired-IsSafe now_ms q h = record {
    apart = λ k p. h.apart k (contains_key-retain (is_live now_ms) k q.pending p);
    covered = λ k p. h.covered k (contains_key-retain (is_live now_ms) k q.successors p);
    bounded = omega (
      arith,
      h.bounded,
      size-retain-le (is_live now_ms) q.pending,
      size-retain-le (is_live now_ms) q.successors,
    );
    pending_keyed = All-retain IsKeyed (is_live now_ms) q.pending h.pending_keyed;
    successors_keyed = All-retain IsKeyed (is_live now_ms) q.successors h.successors_keyed;
  }

  -- The end of a dispatch keeps the invariant, also of a key that is not running.
  pub release-IsSafe :
      (key : RequestKey) (q : QueueState) → IsSafe capacity q → IsSafe capacity (release key q).0
  unfolding release
  release-IsSafe key q h = elim (Option-cases (get key q.successors)) [
    | inl e ↦
        rw (e, release)
          (record {
            apart = λ k p. ground (arith, h.apart k, get-remove key k q.in_flight);
            covered = λ k p. ground (arith, h.covered k, get-remove key k q.in_flight);
            bounded = h.bounded;
            pending_keyed = h.pending_keyed;
            successors_keyed = h.successors_keyed;
          })
    | inr (s, e) ↦
        rw (e, release)
          (record {
            apart = λ k p.
                ground
                  (arith, h.apart k, get-remove key k q.in_flight, get-insert key k s q.pending);
            covered = λ k p.
                ground
                  (arith, h.covered k, get-remove key k q.in_flight, get-remove key k q.successors);
            bounded =
                ground
                  (arith, h.bounded, size-insert key s q.pending, size-remove-lt key q.successors);
            pending_keyed =
                All-insert IsKeyed key s q.pending
                  (All-get IsKeyed key s q.successors h.successors_keyed e) h.pending_keyed;
            successors_keyed = All-remove IsKeyed key q.successors h.successors_keyed;
          })
  ]

-- A candidate stands in the map that it names, and is not critical.
abbrev pub Evictable : QueueState → Candidate → Type 0
Evictable q (true, k, r) =
    (contains_key k q.successors ≡ true) × (is_critical_priority r.priority ≡ false)
Evictable q (false, k, r) =
    (contains_key k q.pending ≡ true) × (is_critical_priority r.priority ≡ false)

All-evictable_pending :
    (q : QueueState) (m : BTreeMap RequestKey ScheduledReadRequest)
    → All (λ e. contains_key e.0 q.pending ≡ true) m
    → All (Evictable q) (evictable false m)
unfolding evictable
All-evictable_pending q [] h = tt
All-evictable_pending q ((k, r) ∷ m) h = ground (arith, All-evictable_pending q m h.1)

All-evictable_successors :
    (q : QueueState) (m : BTreeMap RequestKey ScheduledReadRequest)
    → All (λ e. contains_key e.0 q.successors ≡ true) m
    → All (Evictable q) (evictable true m)
unfolding evictable
All-evictable_successors q [] h = tt
All-evictable_successors q ((k, r) ∷ m) h = ground (arith, All-evictable_successors q m h.1)

lesser-among : (P : Candidate → Type 0) (best c : Candidate) → P best → P c → P (lesser best c)
unfolding lesser
lesser-among P best c h k = elim (Bool-cases (is_greater (compare_value best.2 c.2))) [
  | inl e ↦ rw e k
  | inr e ↦ rw e h
]

min_by_value-among :
    (P : Candidate → Type 0) (best : Candidate) (cs : List Candidate)
    → P best
    → All P cs
    → P (min_by_value best cs)
unfolding min_by_value
min_by_value-among P best [] h k = h
min_by_value-among P best (c ∷ cs) h k =
    min_by_value-among P (lesser best c) cs (lesser-among P best c h k.0) k.1

lowest-among :
    (P : Candidate → Type 0) (cs : List Candidate) {c : Candidate}
    → All P cs
    → lowest cs ≡ some c
    → P c
unfolding lowest
lowest-among P [] h e = cc
lowest-among P (c ∷ cs) h e = subst P (cc) (min_by_value-among P c cs h.0 h.1)

-- The candidates of `make_queue_room`.
abbrev candidates : QueueState → List Candidate
candidates q = evictable false q.pending ++ evictable true q.successors

candidates-Evictable : (q : QueueState) → All (Evictable q) (candidates q)
candidates-Evictable q =
    All-append (Evictable q) (evictable false q.pending) (evictable true q.successors)
      (All-evictable_pending q q.pending (keys_found q.pending))
      (All-evictable_successors q q.successors (keys_found q.successors))

-- What making room may change: it starts nothing, adds no key, and leaves a free place.
pub record MadeRoom (capacity : ℕ) (q q' : QueueState) : Type 0 where
  pub in_flight : q'.in_flight ≡ q.in_flight
  pub pending :
      (k : RequestKey) → contains_key k q'.pending ≡ true → contains_key k q.pending ≡ true
  pub successors :
      (k : RequestKey) → contains_key k q'.successors ≡ true → contains_key k q.successors ≡ true
  pub room : queued_len q' < capacity
  pub pending_keyed : All IsKeyed q.pending → All IsKeyed q'.pending
  pub successors_keyed : All IsKeyed q.successors → All IsKeyed q'.successors

evict-MadeRoom :
    (capacity : ℕ) (c : Candidate) (q : QueueState)
    → Evictable q c
    → queued_len q ≤ capacity
    → MadeRoom capacity q (evict c q)
unfolding evict
evict-MadeRoom capacity (true, key, r) q e b = record {
  in_flight = refl;
  pending = λ k p. p;
  successors = λ k p. ground (arith, get-remove key k q.successors);
  room = omega (arith, size-remove-lt key q.successors e.0);
  pending_keyed = λ h. h;
  successors_keyed = All-remove IsKeyed key q.successors;
}
evict-MadeRoom capacity (false, key, r) q e b = record {
  in_flight = refl;
  pending = λ k p. ground (arith, get-remove key k q.pending);
  successors = λ k p. p;
  room = omega (arith, size-remove-lt key q.pending e.0);
  pending_keyed = All-remove IsKeyed key q.pending;
  successors_keyed = λ h. h;
}

-- If room is made, at most one request is lost, and it is not critical.
pub make_queue_room-MadeRoom :
    (capacity : ℕ) (incoming : ScheduledReadRequest) {q q' : QueueState}
    → queued_len q ≤ capacity
    → make_queue_room capacity incoming q ≡ some q'
    → MadeRoom capacity q q'
unfolding make_queue_room
make_queue_room-MadeRoom capacity incoming {q} {q'} b e =
    elim (Bool-cases (ltb (queued_len q) capacity)) [
      | inl fits ↦
          let same : q ≡ q' = ground arith in
          subst (MadeRoom capacity q) same (record {
            in_flight = refl;
            pending = λ k p. p;
            successors = λ k p. p;
            room = ground arith;
            pending_keyed = λ h. h;
            successors_keyed = λ h. h;
          })
      | inr full ↦ elim (Option-cases (lowest (candidates q))) [
        | inl nothing ↦ ground arith
        | inr (c, found) ↦
            let evicted : evict c q ≡ q' = ground arith in
            subst (MadeRoom capacity q) evicted (
              evict-MadeRoom capacity c q
                (lowest-among (Evictable q) (candidates q) (candidates-Evictable q) found) b)
      ]
    ]

evict-in_flight : (c : Candidate) (q : QueueState) → (evict c q).in_flight ≡ q.in_flight
unfolding evict
evict-in_flight (true, k, r) q = refl
evict-in_flight (false, k, r) q = refl

-- The running requests after making room, where there is room.
pub make_queue_room-in_flight :
    (capacity : ℕ) (incoming : ScheduledReadRequest) (q q' : QueueState)
    → make_queue_room capacity incoming q ≡ some q'
    → q'.in_flight ≡ q.in_flight
unfolding make_queue_room
make_queue_room-in_flight capacity incoming q q' e = elim (Option-cases (lowest (candidates q))) [
  | inl nothing ↦ ground arith
  | inr (c, found) ↦ ground (arith, evict-in_flight c q)
]

pub release-in_flight :
    (key : RequestKey) (q : QueueState) → (release key q).0.in_flight ≡ remove key q.in_flight
unfolding release
release-in_flight key q = ground arith
