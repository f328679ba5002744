-- ===== src/Scheduler/Queue.antt =====
-- `QueueState`, and the functions that choose among its requests (scheduler.rs). The queue is
-- locked for the whole of each method, so a method is a function on it.
pub mod Safe
use hyperliquid.Base.{
  ℕ, zero, suc, ◌+◌, ◌-◌, ◌*◌, min, Bool, true, false, not, ◌&&◌, ◌||◌, Option, none, some, List,
  [], ◌∷◌, ◌++◌, ltb, leb, ◌==◌, if◌then◌else◌, filter, compare, Ordering, u64, u64_max,
  saturating_mul,
}
use mathlib.Core.Option.{get_or}
use hyperliquid.BTreeMap.{
  BTreeMap, BTreeSet, get, insert, remove, retain, values, size, contains_key, contains, add,
  then_with,
}
use hyperliquid.Scheduler.Request.{
  RequestKey, ScheduledReadRequest, SourceTier, key_ord, tier_ord, compare_key, priority_rank,
  is_critical_priority,
}

pub record QueueState : Type 0 where
  pub pending : BTreeMap RequestKey ScheduledReadRequest
  pub in_flight : BTreeSet RequestKey
  pub successors : BTreeMap RequestKey ScheduledReadRequest
  pub expired_in_queue : BTreeMap SourceTier ℕ
  pub superseded_pending : BTreeMap SourceTier ℕ
  pub superseded_in_flight : BTreeMap SourceTier ℕ
  pub dispatch_count : BTreeMap SourceTier ℕ
  pub dispatch_window_count : BTreeMap SourceTier ℕ
  pub dispatch_window_started_ms : ℕ

-- `QueueState::default()`
abbrev pub empty : QueueState
empty = record {
  pending = [];
  in_flight = [];
  successors = [];
  expired_in_queue = [];
  superseded_pending = [];
  superseded_in_flight = [];
  dispatch_count = [];
  dispatch_window_count = [];
  dispatch_window_started_ms = 0;
}

abbrev pub queued_len : QueueState → ℕ
queued_len q = size q.pending + size q.successors

-- `*counts.entry(tier).or_default() += 1`
unfoldable pub bump : SourceTier → BTreeMap SourceTier ℕ → BTreeMap SourceTier ℕ
bump tier counts = insert tier (u64 (get_or (get tier counts) 0 + 1)) counts

-- The same, where there is a tier.
unfoldable pub bump_tier : Option SourceTier → BTreeMap SourceTier ℕ → BTreeMap SourceTier ℕ
bump_tier none counts = counts
bump_tier (some tier) counts = bump tier counts

-- The counts after the expired requests of a list.
unfoldable pub count_expired :
    ℕ → List ScheduledReadRequest → BTreeMap SourceTier ℕ → BTreeMap SourceTier ℕ
count_expired now_ms [] counts = counts
count_expired now_ms (r ∷ rs) counts =
    count_expired now_ms rs
      (if leb r.expires_at now_ms then bump_tier r.source_tier counts else counts)

abbrev pub is_live : ℕ → ScheduledReadRequest → Bool
is_live now_ms r = ltb now_ms r.expires_at

unfoldable pub purge_expired : ℕ → QueueState → QueueState
purge_expired now_ms q = record q {
  expired_in_queue =
      count_expired now_ms (values q.pending ++ values q.successors) q.expired_in_queue;
  pending = retain (is_live now_ms) q.pending;
  successors = retain (is_live now_ms) q.successors;
}

-- The queue after the end of a dispatch, and whether a successor took its place.
unfoldable pub release : RequestKey → QueueState → QueueState × Bool
release key q = elim (get key q.successors) [
  | none ↦ (record q { in_flight = remove key q.in_flight }, false)
  | some successor ↦ (
    record q {
      in_flight = remove key q.in_flight;
      successors = remove key q.successors;
      pending = insert key successor q.pending;
    },
    true,
  )
]

-- `is_newer(incoming, existing)`
unfoldable pub is_newer : ScheduledReadRequest → ScheduledReadRequest → Bool
is_newer incoming existing =
    ltb existing.created_at incoming.created_at
    || incoming.created_at == existing.created_at && ltb existing.attempt incoming.attempt

unfoldable pub compare_value : ScheduledReadRequest → ScheduledReadRequest → Ordering
compare_value left right =
    then_with (compare (priority_rank left.priority) (priority_rank right.priority)) (
      then_with (compare right.expires_at left.expires_at)
        (compare right.created_at left.created_at))

-- A request that may be evicted: whether it is a successor, its key, and the request.
abbrev pub Candidate : Type 0
Candidate = Bool × RequestKey × ScheduledReadRequest

-- The requests of one map that are not critical.
unfoldable pub evictable : Bool → BTreeMap RequestKey ScheduledReadRequest → List Candidate
evictable is_successor [] = []
evictable is_successor ((k, r) ∷ m) =
    let rest = evictable is_successor m in
    if is_critical_priority r.priority then rest else (is_successor, k, r) ∷ rest

abbrev pub is_greater : Ordering → Bool
is_greater Ordering.gt = true
is_greater _ = false

unfoldable pub lesser : Candidate → Candidate → Candidate
lesser best c = if is_greater (compare_value best.2 c.2) then c else best

-- `min_by`: the first of the least.
unfoldable pub min_by_value : Candidate → List Candidate → Candidate
min_by_value best [] = best
min_by_value best (c ∷ cs) = min_by_value (lesser best c) cs

unfoldable pub lowest : List Candidate → Option Candidate
lowest [] = none
lowest (c ∷ cs) = some (min_by_value c cs)

unfoldable pub evict : Candidate → QueueState → QueueState
evict (true, k, _) q = record q { successors = remove k q.successors }
evict (false, k, _) q = record q { pending = remove k q.pending }

-- The queue with room for `incoming`, or `none` where no room can be made.
unfoldable pub make_queue_room : ℕ → ScheduledReadRequest → QueueState → Option QueueState
unfolding lowest evictable evict
make_queue_room capacity incoming q =
    if ltb (queued_len q) capacity
    then some q
    else elim (lowest (evictable false q.pending ++ evictable true q.successors)) [
      | none ↦ none
      | some candidate ↦
          if is_greater (compare_value incoming candidate.2) then some (evict candidate q) else none
    ]

-- `targets[&tier]`, which panics without the tier; `validate` asks for both.
abbrev pub target_of : SourceTier → BTreeMap SourceTier ℕ → ℕ
target_of tier targets = get_or (get tier targets) 0

abbrev pub fairness :
    BTreeMap SourceTier ℕ → BTreeMap SourceTier ℕ → Option SourceTier → Option SourceTier → Ordering
fairness counts targets (some l) (some r) =
    compare (saturating_mul u64_max (get_or (get l counts) 0) (target_of r targets))
      (saturating_mul u64_max (get_or (get r counts) 0) (target_of l targets))
fairness counts targets _ _ = Ordering.eq

unfoldable pub dispatch_order_with_fairness :
    BTreeMap SourceTier ℕ
    → BTreeMap SourceTier ℕ
    → ScheduledReadRequest
    → ScheduledReadRequest
    → Ordering
dispatch_order_with_fairness counts targets left right =
    then_with (compare (priority_rank right.priority) (priority_rank left.priority)) (
      then_with (fairness counts targets left.source_tier right.source_tier) (
        then_with (compare left.expires_at right.expires_at)
          (then_with (compare left.created_at right.created_at) (compare_key left.key right.key))))

-- `sort_by`, which is stable: an element goes before the first one that is greater.
module _ {ℓ} {A : Type ℓ} (cmp : A → A → Ordering) where
  unfoldable pub insert_sorted : A → List A → List A
  insert_sorted x [] = x ∷ []
  insert_sorted x (y ∷ ys) =
      let rest = insert_sorted x ys in elim (cmp x y) [ Ordering.gt ↦ y ∷ rest | _ ↦ x ∷ y ∷ ys ]

  unfoldable pub sort_by : List A → List A
  sort_by [] = []
  sort_by (x ∷ xs) = insert_sorted x (sort_by xs)
