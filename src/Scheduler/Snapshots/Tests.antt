-- ===== src/Scheduler/Snapshots/Tests.antt =====
-- Snapshots of one source.
use hyperliquid.Base.{ℕ, ◌≡◌, true, some, [], refl}
use hyperliquid.BTreeMap.{string_ord, String-discrete, get, insert}
use hyperliquid.Scheduler.Snapshots.{accepted, out_of_order, SourceSnapshot, SnapshotStore, accept}
use hyperliquid.Scheduler.Snapshots.Laws.{IsLater, here, accepting, Reach-IsLater}

abbrev store : SnapshotStore ℕ
store = record {
  policy = record { configured_max_age_ms = 100; maximum_future_skew_ms = 10 };
  accepted_snapshots = [];
}

abbrev snapshot : ℕ → SourceSnapshot ℕ
snapshot n = record {
  candidate_id = "a";
  payload = 7;
  requested_at = 20;
  received_at = 30;
  source_observed_at = some 25;
  valid_until = 90;
  sequence = n;
}

abbrev stored : SnapshotStore ℕ
stored = (accept ℕ (snapshot 2) 40 true store).0

first_accepted : (accept ℕ (snapshot 2) 40 true store).1 ≡ accepted
unfolding accept get insert String-discrete
first_accepted = refl

older_refused : (accept ℕ (snapshot 1) 50 true stored).1 ≡ out_of_order
unfolding accept get insert String-discrete
older_refused = refl

second_found : get "a" stored.accepted_snapshots ≡ some (snapshot 2)
unfolding accept get insert String-discrete
second_found = refl

Reach-IsLater_example :
    IsLater (snapshot 2) (get "a" (accept ℕ (snapshot 3) 50 true stored).0.accepted_snapshots)
Reach-IsLater_example =
    Reach-IsLater "a" (snapshot 2) (accepting (snapshot 3) 50 true here) second_found
