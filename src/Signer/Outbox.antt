-- ===== src/Signer/Outbox.antt =====
-- The outbox of reconciliation events (crates/copytrade-signer/src/outbox.rs). What is stored and read
-- back is the record itself. `Payload`, its encoding, which may fail, and the digest are parameters.
pub mod Laws
pub mod Runs
use mathlib.Core.Option
use hyperliquid.Base.{
  ℕ, suc, ◌+◌, ◌-◌, ◌≤◌, ◌<◌, ◌≡◌, ◌≢◌, Bool, true, false, not, ◌||◌, ◌&&◌, Option, none, some,
  List, [], ◌∷◌, ◌++◌, String, Result, ok, err, leb, ltb, ◌==◌, arith, inl, inr, Result-cases,
  Option-cases, Bool-cases, refl, sym, subst, ◌>>=◌, ◌>>◌, fail_if, length, filter, if◌then◌else◌,
  ok_or, checked_add, u32_mod, u64_mod, length-append, All, All-mono, All-append, ◌∙◌, ap,
}
use hyperliquid.BTreeMap.{string_ord, BTreeSet, get, insert, contains, add, get-insert, size}

pub record ReconciliationEventIdentity : Type 0 where
  pub signer_instance_id : ℕ
  pub sequence : ℕ
  pub event_hash : ℕ

abbrev outbox_schema_version : ℕ
outbox_schema_version = 1

-- The texts of the errors.
pub data OutboxError : Type 0 where
  zero_capacity capacity_exhausted sequence_overflow hash_failed : OutboxError
  invalid_acknowledgment invalid_outbox : OutboxError

module _ (Payload : Type 0) (to_vec : Payload → Option (List ℕ)) (sha256 : List ℕ → ℕ) where
  -- `canonical_payload_hash` of crates/copytrade-core/src/ipc.rs, on the type of the payloads.
  unfoldable pub canonical_payload_hash : Payload → Option ℕ
  canonical_payload_hash payload = Option.map sha256 (to_vec payload)

  pub record VerifiedReconciliationEvent : Type 0 where
    pub identity : ReconciliationEventIdentity
    pub payload : Payload

  pub record DurableReconciliationOutbox : Type 0 where
    pub schema_version : ℕ
    pub signer_instance_id : ℕ
    pub next_sequence : ℕ
    pub highest_acknowledged_sequence : ℕ
    pub source_keys : BTreeSet String
    pub events : List VerifiedReconciliationEvent
    pub maximum_events : ℕ

  unfoldable pub new : ℕ → ℕ → Result OutboxError DurableReconciliationOutbox
  new signer_instance_id maximum_events = do
    fail_if (maximum_events == 0) zero_capacity
    ok (record {
      schema_version = outbox_schema_version;
      signer_instance_id = signer_instance_id;
      next_sequence = 1;
      highest_acknowledged_sequence = 0;
      source_keys = [];
      events = [];
      maximum_events = maximum_events;
    })

  -- The event of a payload with the hash, put at the end.
  unfoldable pub push_event :
      String → Payload → ℕ → ℕ → DurableReconciliationOutbox → DurableReconciliationOutbox
  push_event source_key payload following hash o = record o {
    next_sequence = following;
    events =
        o.events
        ++ record {
          identity = record {
            signer_instance_id = o.signer_instance_id;
            sequence = o.next_sequence;
            event_hash = hash;
          };
          payload = payload;
        }
          ∷ [];
    source_keys = add source_key o.source_keys;
  }

  -- The outbox after a call stands beside its result: where the hash fails, the sequence has advanced.
  unfoldable pub append_once :
      String
      → Payload
      → DurableReconciliationOutbox
      → DurableReconciliationOutbox × Result OutboxError (Option ℕ)
  unfolding push_event
  append_once source_key payload o =
      if contains source_key o.source_keys
      then (o, ok none)
      else if leb o.maximum_events (length o.events)
      then (o, err capacity_exhausted)
      else elim (checked_add u64_mod o.next_sequence 1) [
        | none ↦ (o, err sequence_overflow)
        | some following ↦ elim (canonical_payload_hash payload) [
          | none ↦ (record o { next_sequence = following }, err hash_failed)
          | some hash ↦ (push_event source_key payload following hash o, ok (some o.next_sequence))
        ]
      ]

  unfoldable pub events_after : ℕ → DurableReconciliationOutbox → List VerifiedReconciliationEvent
  events_after sequence o = filter (λ e. ltb sequence e.identity.sequence) o.events

  unfoldable pub highest_sequence : DurableReconciliationOutbox → ℕ
  highest_sequence o = o.next_sequence - 1

  unfoldable pub acknowledge :
      ℕ → DurableReconciliationOutbox → DurableReconciliationOutbox × Result OutboxError (Unit {0})
  acknowledge sequence o =
      if ltb sequence o.highest_acknowledged_sequence || ltb (o.next_sequence - 1) sequence
      then (o, err invalid_acknowledgment)
      else (record o { highest_acknowledged_sequence = sequence }, ok tt)

  -- The hash of the payload is the one of the identity.
  abbrev pub is_hashed : VerifiedReconciliationEvent → Bool
  is_hashed e = elim (canonical_payload_hash e.payload) [
    | none ↦ false
    | some h ↦ h == e.identity.event_hash
  ]

  -- The enumeration of `load`: the events from the given index on.
  unfoldable pub are_numbered : ℕ → List VerifiedReconciliationEvent → Bool
  are_numbered index [] = true
  are_numbered index (e ∷ es) =
      e.identity.sequence == index + 1 && is_hashed e && are_numbered (index + 1) es

  -- `load`, of what was read.
  unfoldable pub load : DurableReconciliationOutbox → Result OutboxError DurableReconciliationOutbox
  load state = do
    fail_if
        (not (state.schema_version == outbox_schema_version)
          || state.maximum_events == 0
          || ltb state.maximum_events (length state.events)
          || not (are_numbered 0 state.events))
        invalid_outbox
    ok state
