-- ===== src/Scheduler/Snapshots.antt =====
-- The accepted snapshots of the sources
-- (crates/copytrade-core/src/scheduler.rs: SnapshotStore, FreshnessPolicy).
pub mod Laws
mod Tests
use hyperliquid.Base.{
  ℕ, ◌-◌, ◌==◌, Bool, true, false, not, ◌||◌, ◌&&◌, Option, none, some, [], String, Result, ok, err,
  ◌>>=◌, if◌then◌else◌, ltb, leb, checked_add, u64_mod, fail_if, ◌>>◌,
}
use hyperliquid.BTreeMap.{string_ord, BTreeMap, get, insert}

pub record FreshnessPolicy : Type 0 where
  pub configured_max_age_ms : ℕ
  pub maximum_future_skew_ms : ℕ

pub data SnapshotAcceptance : Type 0 where
  accepted invalid_payload invalid_timestamps expired future_dated out_of_order : SnapshotAcceptance

-- `PolicyError` stands by its text.
abbrev validate_freshness : FreshnessPolicy → Result String FreshnessPolicy
validate_freshness p =
    fail_if (p.configured_max_age_ms == 0) "snapshot maximum age must be positive" >> ok p

-- `<` of options, in which `None` is the least.
abbrev pub option_ltb : Option ℕ → Option ℕ → Bool
option_ltb none none = false
option_ltb none (some b) = true
option_ltb (some a) none = false
option_ltb (some a) (some b) = ltb a b

-- The tests of the time at which the source was observed.
abbrev pub observed_dated : ℕ → Option ℕ → Bool
observed_dated maximum_future none = false
observed_dated maximum_future (some t) = ltb maximum_future t

abbrev pub observed_expired : ℕ → ℕ → Option ℕ → Bool
observed_expired now_ms max_age none = false
observed_expired now_ms max_age (some t) = ltb max_age (now_ms - t)

module _ (T : Type 0) where
  pub record SourceSnapshot : Type 0 where
    pub candidate_id : String
    pub payload : T
    pub requested_at : ℕ
    pub received_at : ℕ
    pub source_observed_at : Option ℕ
    pub valid_until : ℕ
    pub sequence : ℕ

  pub record SnapshotStore : Type 0 where
    pub policy : FreshnessPolicy
    pub accepted_snapshots : BTreeMap String SourceSnapshot

  unfoldable pub new : FreshnessPolicy → Result String SnapshotStore
  new policy =
      validate_freshness policy >>= λ p. ok (record { policy = p; accepted_snapshots = [] })

  abbrev pub is_behind : SourceSnapshot → Option SourceSnapshot → Bool
  is_behind snapshot none = false
  is_behind snapshot (some current) =
      leb snapshot.sequence current.sequence
      || ltb snapshot.received_at current.received_at
      || option_ltb snapshot.source_observed_at current.source_observed_at

  -- The tests that follow the one of the overflow.
  unfoldable pub accept_until :
      ℕ → SourceSnapshot → ℕ → SnapshotStore → SnapshotStore × SnapshotAcceptance
  accept_until maximum_future snapshot now_ms store =
      if ltb maximum_future snapshot.requested_at || ltb maximum_future snapshot.received_at
      then (store, future_dated)
      else if observed_dated maximum_future snapshot.source_observed_at
      then (store, future_dated)
      else if observed_expired now_ms store.policy.configured_max_age_ms snapshot.source_observed_at
      then (store, expired)
      else if is_behind snapshot (get snapshot.candidate_id store.accepted_snapshots)
      then (store, out_of_order)
      else (
        record store {
          accepted_snapshots = insert snapshot.candidate_id snapshot store.accepted_snapshots;
        },
        accepted,
      )

  unfoldable pub accept :
      SourceSnapshot → ℕ → Bool → SnapshotStore → SnapshotStore × SnapshotAcceptance
  unfolding accept_until
  accept snapshot now_ms payload_valid store =
      if not payload_valid
      then (store, invalid_payload)
      else if ltb snapshot.received_at snapshot.requested_at
          || ltb snapshot.valid_until snapshot.received_at
      then (store, invalid_timestamps)
      else if ltb snapshot.valid_until now_ms
          || ltb store.policy.configured_max_age_ms (now_ms - snapshot.received_at)
      then (store, expired)
      else elim (checked_add u64_mod now_ms store.policy.maximum_future_skew_ms) [
        | none ↦ (store, invalid_timestamps)
        | some maximum_future ↦ accept_until maximum_future snapshot now_ms store
      ]

  abbrev pub is_fresh : FreshnessPolicy → ℕ → SourceSnapshot → Bool
  is_fresh policy now_ms snapshot =
      leb now_ms snapshot.valid_until
      && leb (now_ms - snapshot.received_at) policy.configured_max_age_ms

  abbrev pub if_fresh : FreshnessPolicy → ℕ → Option SourceSnapshot → Option SourceSnapshot
  if_fresh policy now_ms none = none
  if_fresh policy now_ms (some snapshot) =
      if is_fresh policy now_ms snapshot then some snapshot else none

  unfoldable pub fresh : String → ℕ → SnapshotStore → Option SourceSnapshot
  fresh candidate_id now_ms store =
      if_fresh store.policy now_ms (get candidate_id store.accepted_snapshots)
