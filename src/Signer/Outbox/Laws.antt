-- ===== src/Signer/Outbox/Laws.antt =====
-- What holds of the outbox of reconciliation events after every call.
use hyperliquid.Base.{
  false, ◌==◌, ap, ℕ, ◌+◌, ◌-◌, ◌≤◌, ◌<◌, ◌≡◌, true, ◌||◌, Option, none, some, List, [], ◌∷◌, ◌++◌,
  String, ok, leb, ltb, arith, inl, inr, Option-cases, Bool-cases, refl, length, checked_add,
  u64_mod, length-append,
}
use hyperliquid.BTreeMap.{string_ord, contains, get-insert}
use hyperliquid.Signer.Outbox.{
  canonical_payload_hash, VerifiedReconciliationEvent, DurableReconciliationOutbox, push_event,
  append_once, acknowledge, is_hashed, are_numbered, load,
}

is_hashed_lem :
    (o : Option ℕ) (n : ℕ) → elim o [ none ↦ false | some h ↦ h == n ] ≡ true → o ≡ some n
is_hashed_lem none n e = absurd (cc)
is_hashed_lem (some h) n e = let same : h ≡ n = ground arith in ap some same

hashed_lem : (o : Option ℕ) (n : ℕ) → o ≡ some n → elim o [ none ↦ false | some h ↦ h == n ] ≡ true
hashed_lem none n e = absurd (cc)
hashed_lem (some h) n e = let same : h ≡ n = cc in ground arith

module _ (Payload : Type 0) (to_vec : Payload → Option (List ℕ)) (sha256 : List ℕ → ℕ) where
  -- The events are numbered on from one more than the given number, each with the hash of its payload.
  abbrev pub Numbered : ℕ → List (VerifiedReconciliationEvent Payload to_vec sha256) → Type 0
  Numbered n [] = Unit
  Numbered n (e ∷ es) =
      (e.identity.sequence ≡ n + 1)
      × (canonical_payload_hash Payload to_vec sha256 e.payload ≡ some e.identity.event_hash)
      × Numbered (n + 1) es

  -- What holds of an outbox that is stored: the schema is the current one, the events are no more than the
  -- positive maximum, and they are numbered from one, each with the hash of its payload.
  pub record IsStored (o : DurableReconciliationOutbox Payload to_vec sha256) : Type 0 where
    pub version : o.schema_version ≡ 1
    pub positive : 0 < o.maximum_events
    pub bounded : length o.events ≤ o.maximum_events
    pub numbered : Numbered 0 o.events

  -- What holds of an outbox: it may be stored, its next sequence is one more than the number of its events,
  -- and no more is acknowledged than there is.
  pub record IsSound (o : DurableReconciliationOutbox Payload to_vec sha256) : Type 0 where
    pub stored : IsStored o
    pub next : o.next_sequence ≡ length o.events + 1
    pub acknowledged : o.highest_acknowledged_sequence < o.next_sequence

  are_numbered-Numbered :
      (n : ℕ) (es : List (VerifiedReconciliationEvent Payload to_vec sha256))
      → are_numbered Payload to_vec sha256 n es ≡ true
      → Numbered n es
  unfolding are_numbered
  are_numbered-Numbered n [] h = tt
  are_numbered-Numbered n (e ∷ es) h =
      let hashed : is_hashed Payload to_vec sha256 e ≡ true = ground arith in
      (
        ground arith,
        is_hashed_lem (canonical_payload_hash Payload to_vec sha256 e.payload) e.identity.event_hash
            hashed,
        are_numbered-Numbered (n + 1) es (ground arith),
      )

  Numbered-are_numbered :
      (n : ℕ) (es : List (VerifiedReconciliationEvent Payload to_vec sha256))
      → Numbered n es
      → are_numbered Payload to_vec sha256 n es ≡ true
  unfolding are_numbered
  Numbered-are_numbered n [] h = refl
  Numbered-are_numbered n (e ∷ es) h =
      let hashed : is_hashed Payload to_vec sha256 e ≡ true =
        hashed_lem (canonical_payload_hash Payload to_vec sha256 e.payload) e.identity.event_hash
          h.1 in
      let rest = Numbered-are_numbered (n + 1) es h.2 in let q = h.0 in ground arith

  Numbered-append :
      (n : ℕ) (es : List (VerifiedReconciliationEvent Payload to_vec sha256))
      (e : VerifiedReconciliationEvent Payload to_vec sha256)
      → Numbered n es
      → e.identity.sequence ≡ n + length es + 1
      → canonical_payload_hash Payload to_vec sha256 e.payload ≡ some e.identity.event_hash
      → Numbered n (es ++ e ∷ [])
  Numbered-append n [] e h q k = (omega (arith, q), k, tt)
  Numbered-append n (x ∷ es) e h q k =
      (h.0, h.1, Numbered-append (n + 1) es e h.2 (omega (arith, q)) k)

  push_event-IsSound :
      (key : String) (p : Payload) (following hash : ℕ)
      (o : DurableReconciliationOutbox Payload to_vec sha256)
      → IsSound o
      → length o.events < o.maximum_events
      → following ≡ o.next_sequence + 1
      → canonical_payload_hash Payload to_vec sha256 p ≡ some hash
      → IsSound (push_event Payload to_vec sha256 key p following hash o)
  unfolding push_event
  push_event-IsSound key p following hash o h room step hashed =
      let e : VerifiedReconciliationEvent Payload to_vec sha256 = record {
        identity = record {
          signer_instance_id = o.signer_instance_id;
          sequence = o.next_sequence;
          event_hash = hash;
        };
        payload = p;
      } in
      record {
        stored = record {
          version = h.stored.version;
          positive = h.stored.positive;
          bounded = omega (arith, length-append o.events (e ∷ []), room);
          numbered = Numbered-append 0 o.events e h.stored.numbered (omega (arith, h.next)) hashed;
        };
        next = omega (arith, length-append o.events (e ∷ []), step, h.next);
        acknowledged = omega (arith, h.acknowledged, step);
      }

  -- An outbox that is sound stays so over a call of `append_once` whose payload can be hashed.
  pub append_once-IsSound :
      (key : String) (p : Payload) {hash : ℕ}
      (o : DurableReconciliationOutbox Payload to_vec sha256)
      → canonical_payload_hash Payload to_vec sha256 p ≡ some hash
      → IsSound o
      → IsSound (append_once Payload to_vec sha256 key p o).0
  unfolding append_once
  append_once-IsSound key p {hash} o hashed h = elim (Bool-cases (contains key o.source_keys)) [
    | inl known ↦ rw (known, append_once) h
    | inr fresh ↦ elim (Bool-cases (leb o.maximum_events (length o.events))) [
      | inl full ↦ rw (fresh, full, append_once) h
      | inr room ↦ elim (Option-cases (checked_add u64_mod o.next_sequence 1)) [
        | inl over ↦ rw (fresh, room, over, append_once) h
        | inr (following, more) ↦
            rw (fresh, room, more, hashed, append_once)
              (push_event-IsSound key p following hash o h (ground arith) (ground arith) hashed)
      ]
    ]
  ]

  -- A call of `acknowledge` keeps it sound, and never takes an acknowledgment back.
  pub acknowledge-IsSound :
      (n : ℕ) (o : DurableReconciliationOutbox Payload to_vec sha256)
      → IsSound o
      → IsSound (acknowledge Payload to_vec sha256 n o).0
        × (o.highest_acknowledged_sequence
            ≤ (acknowledge Payload to_vec sha256 n o).0.highest_acknowledged_sequence)
  unfolding acknowledge
  acknowledge-IsSound n o h =
      elim (Bool-cases (ltb n o.highest_acknowledged_sequence || ltb (o.next_sequence - 1) n)) [
        | inl bad ↦ rw (bad, acknowledge) (h, omega arith)
        | inr good ↦
            rw (good, acknowledge)
              (
                record {
                  stored = record {
                    version = h.stored.version;
                    positive = h.stored.positive;
                    bounded = h.stored.bounded;
                    numbered = h.stored.numbered;
                  };
                  next = h.next;
                  acknowledged = let k = h.next in ground arith;
                },
                ground arith,
              )
      ]

  pub load-IsStored :
      (o : DurableReconciliationOutbox Payload to_vec sha256)
      {x : DurableReconciliationOutbox Payload to_vec sha256}
      → load Payload to_vec sha256 o ≡ ok x
      → (o ≡ x) × IsStored o
  unfolding load
  load-IsStored o h =
      let numbers : are_numbered Payload to_vec sha256 0 o.events ≡ true = ground arith in
      (
        ground arith,
        record {
          version = ground arith;
          positive = ground arith;
          bounded = ground arith;
          numbered = are_numbered-Numbered 0 o.events numbers;
        },
      )

  pub IsStored-load :
      (o : DurableReconciliationOutbox Payload to_vec sha256)
      → IsStored o
      → load Payload to_vec sha256 o ≡ ok o
  unfolding load
  IsStored-load o h =
      let a = h.version in
      let b = h.positive in
      let c = h.bounded in let e = Numbered-are_numbered 0 o.events h.numbered in ground arith

  -- Appending with the same source key again changes nothing and gives no second sequence.
  append_once_idempotent :
      (key : String) (p q : Payload) (o : DurableReconciliationOutbox Payload to_vec sha256)
      {n : Option ℕ}
      → (append_once Payload to_vec sha256 key p o).1 ≡ ok n
      → append_once Payload to_vec sha256 key q (append_once Payload to_vec sha256 key p o).0
        ≡ ((append_once Payload to_vec sha256 key p o).0, ok none)
  append_once_idempotent key p q o {n} h =
      let known : contains key (append_once Payload to_vec sha256 key p o).0.source_keys ≡ true =
        unfold append_once in
        unfold push_event in ground (arith, get-insert key key tt o.source_keys) in
      again (append_once Payload to_vec sha256 key p o).0 known
    where
      again :
          (x : DurableReconciliationOutbox Payload to_vec sha256)
          → contains key x.source_keys ≡ true
          → append_once Payload to_vec sha256 key q x ≡ (x, ok none)
      again x k = unfold append_once in rw (k, append_once) refl
