-- ===== src/Signer/Tests.antt =====
-- The theorems of the signer at one intent, with whole numbers for decimals.
use hyperliquid.Base.{
  ℕ, ◌+◌, ◌≤◌, ◌<◌, ◌≡◌, ◌≢◌, true, false, Option, none, some, List, [], ◌∷◌, String, ok, refl,
  arith, All, map,
}
use hyperliquid.BTreeMap.{get, string_ord, String-discrete}
use hyperliquid.Decimal.{fixed, pos}
use hyperliquid.Identity.{as_bytes, utf8}
use hyperliquid.Signer.Intent.{
  ApprovedExecutionIntent, validate, is_malformed, is_lower_hex, valid_cloid,
}
use hyperliquid.Signer.Nonce
use hyperliquid.Signer.Nonce.{
  NonceAllocator, attempt, attempts, Ascending, attempts-Ascending, calls, nonces_from, next_after,
  calls-return,
}
use hyperliquid.Signer.Submissions.{
  SubmissionState, SubmissionRegistry, submission_started, unknown_result, filled, register,
  is_refused, state_order_id, valid_transition, SubmissionState-discrete,
}
use hyperliquid.Signer.Submissions.Transitions.{
  transition_at, permits_increase, next_nonce_floor, confirm_not_found, confirm,
}
use hyperliquid.Signer.Submissions.Laws.{IsConsistent, unknown_result_blocks}
use hyperliquid.Signer.Submissions.Restore.{check_restored, expected_unknown, last_state}
use hyperliquid.Signer.Submissions.Durable.{
  Bears, next_nonce_floor_fresh, consistent_restores, IsRestored, check_restored-IsRestored,
  confirm_not_found_unrestored,
}
use hyperliquid.Signer.Outbox
use hyperliquid.Signer.Outbox.{
  DurableReconciliationOutbox, append_once, acknowledge, load, canonical_payload_hash,
}
use hyperliquid.Signer.Submissions.Runs.{here, registering, moving, Reach-IsConsistent}
use hyperliquid.Signer.Outbox.Runs.{here, appending, acknowledging, Reach-IsSound, reached-load}
use hyperliquid.Signer.Outbox.Laws.{IsSound, IsStored}

-- Three threads: the second has loaded a value that is stale.
abbrev turns : List (ℕ × ℕ)
turns = (5, 9) ∷ (5, 9) ∷ (10, 9) ∷ []

attempts-Ascending_example :
    Ascending (attempts turns (Nonce.new 5)).1 × All (λ n. 5 ≤ n) (attempts turns (Nonce.new 5)).1
attempts-Ascending_example = attempts-Ascending 5 turns

-- The second call comes at a time that is behind.
calls-return_example : calls (12 ∷ 9 ∷ []) (record { next = 10 }) ≡ (
  record { next = next_after 10 (12 ∷ 9 ∷ []) },
  map (λ n. some (ok n)) (nonces_from 10 (12 ∷ 9 ∷ [])),
)
calls-return_example =
    calls-return (12 ∷ 9 ∷ []) (record { next = 10 }) (omega arith, (omega arith, tt))

abbrev hash : String
hash = "00112233445566778899aabbccddeeff00112233445566778899aabbccddeeff"

abbrev cloid : String
cloid = "0x00112233445566778899aabbccddeeff"

abbrev intent : ApprovedExecutionIntent fixed
intent = record {
  decision_id = hash;
  target_version = 1;
  root_cloid = cloid;
  cloid = cloid;
  parent_cloid = none;
  continuation_generation = 0;
  asset = "BTC";
  asset_index = 0;
  is_buy = true;
  reduce_only = false;
  limit_price = pos 100;
  limit_price_scale = 8;
  quantity = pos 2;
  quantity_scale = 8;
  risk_projection_hash = hash;
  risk_policy_hash = hash;
  configuration_hash = hash;
  release_manifest_hash = hash;
  decision_reference_price = pos 101;
  decision_timestamp_ms = 5;
  expires_at_mono = 900;
  canonical_intent_hash = hash;
}

intent_valid : validate fixed intent ≡ ok tt
unfolding validate is_malformed is_lower_hex valid_cloid as_bytes utf8
intent_valid = refl

abbrev empty : SubmissionRegistry fixed
empty = record {
  by_cloid = [];
  unknown_assets = [];
  not_found_confirmations = [];
  maximum_entries = 2;
  history = [];
}

empty-IsConsistent : IsConsistent fixed empty
empty-IsConsistent = record { bounded = omega arith; keyed = tt; logged = tt }

-- The intent is registered and started.
Reach-IsConsistent_example :
    IsConsistent fixed
      (transition_at fixed cloid (submission_started 8) 41 (register fixed intent empty).0).0
Reach-IsConsistent_example =
    Reach-IsConsistent fixed empty empty-IsConsistent
      (moving cloid (submission_started 8) 41 (registering intent here))

-- The intent alone, in a state that the history records.
abbrev holding : SubmissionState fixed → SubmissionRegistry fixed
holding state = record {
  by_cloid = (cloid, (intent, state)) ∷ [];
  unknown_assets = [];
  not_found_confirmations = [];
  maximum_entries = 2;
  history = record { cloid = cloid; state = state; recorded_at_ms = 40 } ∷ [];
}

abbrev started : SubmissionRegistry fixed
started = holding (submission_started 8)

holding-IsConsistent : (s : SubmissionState fixed) → IsConsistent fixed (holding s)
unfolding last_state String-discrete
holding-IsConsistent s = record {
  bounded = omega arith;
  keyed = (record { valid = intent_valid; key = refl }, tt);
  logged = (refl, tt);
}

abbrev settled : SubmissionRegistry fixed
settled = holding (filled "77" (pos 2))

unknown_result_blocks_example :
    let after = (transition_at fixed cloid (unknown_result 8) 41 started).0 in
    (permits_increase fixed "BTC" after ≡ false) × ((register fixed intent after).0 ≡ after)
unfolding get String-discrete SubmissionState-discrete transition_at is_refused state_order_id
    valid_transition
unknown_result_blocks_example =
    unknown_result_blocks fixed cloid 8 41 started intent refl refl refl refl refl

next_nonce_floor_fresh_example : All (λ e. (n : ℕ) → Bears fixed e.state n → n < 9) started.history
unfolding next_nonce_floor
next_nonce_floor_fresh_example = next_nonce_floor_fresh fixed started refl

restored : check_restored fixed started ≡ ok started
unfolding expected_unknown
restored =
    consistent_restores fixed started (holding-IsConsistent (submission_started 8)) (omega arith)
      refl

check_restored-IsRestored_example : (started ≡ started) × IsRestored fixed started
check_restored-IsRestored_example = check_restored-IsRestored fixed started restored

-- The intent with an unknown result, and one confirmation that it was not found.
abbrev doubtful : SubmissionRegistry fixed
doubtful = record (holding (unknown_result 8)) {
  unknown_assets = ("BTC", tt) ∷ [];
  not_found_confirmations = (cloid, 50 ∷ []) ∷ [];
}

doubtful-IsConsistent : IsConsistent fixed doubtful
unfolding last_state String-discrete
doubtful-IsConsistent = record {
  bounded = omega arith;
  keyed = (record { valid = intent_valid; key = refl }, tt);
  logged = (refl, tt);
}

confirm_not_found_unrestored_example :
    check_restored fixed (confirm_not_found fixed cloid 70 2 10 doubtful).0 ≢ ok doubtful
unfolding confirm_not_found confirm get String-discrete
confirm_not_found_unrestored_example =
    confirm_not_found_unrestored fixed cloid 70 2 10 doubtful doubtful-IsConsistent refl

-- Numbers for payloads, each encoded as itself, and a digest that is the successor of the first byte.
abbrev to_vec : ℕ → Option (List ℕ)
to_vec n = some (n ∷ [])

abbrev digest : List ℕ → ℕ
digest [] = 0
digest (n ∷ _) = n + 1

abbrev outbox : DurableReconciliationOutbox ℕ to_vec digest
outbox = record {
  schema_version = 1;
  signer_instance_id = 3;
  next_sequence = 2;
  highest_acknowledged_sequence = 0;
  source_keys = ("a", tt) ∷ [];
  events =
      record {
        identity = record { signer_instance_id = 3; sequence = 1; event_hash = 7 };
        payload = 6;
      }
      ∷ [];
  maximum_events = 4;
}

outbox-IsSound : IsSound ℕ to_vec digest outbox
unfolding canonical_payload_hash
outbox-IsSound = record {
  stored = record {
    version = refl;
    positive = omega arith;
    bounded = omega arith;
    numbered = (refl, refl, tt);
  };
  next = refl;
  acknowledged = omega arith;
}

Reach-IsSound_example :
    IsSound ℕ to_vec digest
      (acknowledge ℕ to_vec digest 1 (append_once ℕ to_vec digest "b" 8 outbox).0).0
unfolding canonical_payload_hash
Reach-IsSound_example =
    Reach-IsSound ℕ to_vec digest outbox outbox-IsSound
      (acknowledging 1 (appending "b" 8 9 refl here))

abbrev begun : DurableReconciliationOutbox ℕ to_vec digest
begun = record {
  schema_version = 1;
  signer_instance_id = 3;
  next_sequence = 1;
  highest_acknowledged_sequence = 0;
  source_keys = [];
  events = [];
  maximum_events = 4;
}

begun_made : Outbox.new ℕ to_vec digest 3 4 ≡ ok begun
unfolding Outbox.new
begun_made = refl

reached-load_example :
    let s = (append_once ℕ to_vec digest "b" 8 begun).0 in
    (load ℕ to_vec digest s ≡ ok s)
    × ((t x : DurableReconciliationOutbox ℕ to_vec digest)
        → load ℕ to_vec digest t ≡ ok x
        → (t ≡ x) × IsStored ℕ to_vec digest t)
unfolding canonical_payload_hash
reached-load_example = reached-load ℕ to_vec digest 3 4 begun_made (appending "b" 8 9 refl here)
