-- ===== src/Signer/Outbox/Runs.antt =====
-- The outbox over any appends and acknowledgments.
use hyperliquid.Base.{
  refl, subst, ok, ok_injective, fail_if-ok, ◌==◌, arith, List, ℕ, ◌≡◌, Option, some, String,
}
use hyperliquid.Signer.Outbox.{
  new, load, canonical_payload_hash, DurableReconciliationOutbox, append_once, acknowledge,
}
use hyperliquid.Signer.Outbox.Laws.{
  IsStored, IsStored-load, load-IsStored, IsSound, append_once-IsSound, acknowledge-IsSound,
}

module _ (Payload : Type 0) (to_vec : Payload → Option (List ℕ)) (sha256 : List ℕ → ℕ)
    (o : DurableReconciliationOutbox Payload to_vec sha256) where
  -- What appends of payloads that can be hashed and acknowledgments make of an outbox.
  pub data Reach : DurableReconciliationOutbox Payload to_vec sha256 → Type 0 where
    here : Reach o
    appending :
        {s : DurableReconciliationOutbox Payload to_vec sha256} (key : String) (p : Payload)
        (hash : ℕ)
        → canonical_payload_hash Payload to_vec sha256 p ≡ some hash
        → Reach s
        → Reach (append_once Payload to_vec sha256 key p s).0
    acknowledging :
        {s : DurableReconciliationOutbox Payload to_vec sha256} (n : ℕ)
        → Reach s
        → Reach (acknowledge Payload to_vec sha256 n s).0

  -- From a sound outbox, every sequence of appends of payloads that can be hashed and of acknowledgments,
  -- those that are refused included, leads to a sound one.
  pub Reach-IsSound :
      {s : DurableReconciliationOutbox Payload to_vec sha256}
      → IsSound Payload to_vec sha256 o
      → Reach s
      → IsSound Payload to_vec sha256 s
  Reach-IsSound h here = h
  Reach-IsSound h (appending {s} key p hash hashed q) =
      append_once-IsSound Payload to_vec sha256 key p s hashed (Reach-IsSound h q)
  Reach-IsSound h (acknowledging {s} n q) =
      (acknowledge-IsSound Payload to_vec sha256 n s (Reach-IsSound h q)).0

module _ (Payload : Type 0) (to_vec : Payload → Option (List ℕ)) (sha256 : List ℕ → ℕ) where
  new-IsSound :
      (instance_id maximum : ℕ) {o : DurableReconciliationOutbox Payload to_vec sha256}
      → new Payload to_vec sha256 instance_id maximum ≡ ok o
      → IsSound Payload to_vec sha256 o
  unfolding new
  new-IsSound instance_id maximum {o} h = fail_if-ok (maximum == 0) _ _ h (λ e₀ h₀.
      subst (IsSound Payload to_vec sha256) (ok_injective h₀) (record {
        stored = record {
          version = refl;
          positive = ground arith;
          bounded = omega arith;
          numbered = tt;
        };
        next = refl;
        acknowledged = omega arith;
      }))

  -- What appends of payloads that can be hashed and acknowledgments make of a new outbox is loaded as it
  -- was stored. What is loaded, whoever stored it, is what was read, with the events within the maximum
  -- and numbered from one, each with the hash of its payload.
  pub reached-load :
      (instance_id maximum : ℕ) {o s : DurableReconciliationOutbox Payload to_vec sha256}
      → new Payload to_vec sha256 instance_id maximum ≡ ok o
      → Reach Payload to_vec sha256 o s
      → (load Payload to_vec sha256 s ≡ ok s)
        × ((t x : DurableReconciliationOutbox Payload to_vec sha256)
            → load Payload to_vec sha256 t ≡ ok x
            → (t ≡ x) × IsStored Payload to_vec sha256 t)
  reached-load instance_id maximum {o} {s} h q = (
    IsStored-load Payload to_vec sha256 s
        (Reach-IsSound Payload to_vec sha256 o (new-IsSound instance_id maximum h) q).stored,
    λ t x. load-IsStored Payload to_vec sha256 t,
  )
