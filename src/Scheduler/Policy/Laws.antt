-- ===== src/Scheduler/Policy/Laws.antt =====
-- What a validated policy promises.
use hyperliquid.Base.{
  ℕ, ◌+◌, ◌-◌, ◌*◌, ◌≤◌, ◌<◌, ◌≡◌, some, List, [], ◌∷◌, ok, arith, All, u128_mod, inl, inr,
  Option-cases,
}
use hyperliquid.BTreeMap.{BTreeMap, get}
use hyperliquid.Scheduler.Request.{
  ReadRequestKind, SourceTier, required, active, inactive, kind_ord, tier_ord,
}
use hyperliquid.Scheduler.Policy.{ReadApiPolicy, check_targets, check_weights, validate}

-- A weight is listed for the kind, is positive, and fits the capacity.
abbrev pub HasWeight : BTreeMap ReadRequestKind ℕ → ℕ → ReadRequestKind → Type 0
HasWeight weights normal_capacity k =
    (w : ℕ) × (get k weights ≡ some w) × (0 < w) × (w ≤ normal_capacity)

abbrev pub HasTarget : BTreeMap SourceTier ℕ → SourceTier → Type 0
HasTarget targets t = (n : ℕ) × (get t targets ≡ some n) × (0 < n)

check_targets_sound :
    (targets : BTreeMap SourceTier ℕ) (ts : List SourceTier)
    → check_targets targets ts ≡ ok tt
    → All (HasTarget targets) ts
unfolding check_targets
check_targets_sound targets [] h = tt
check_targets_sound targets (t ∷ ts) h = elim (Option-cases (get t targets)) [
  | inl e ↦ ground arith
  | inr (n, e) ↦ ((n, e, ground arith), check_targets_sound targets ts (ground arith))
]

check_weights_sound :
    (weights : BTreeMap ReadRequestKind ℕ) (c : ℕ) (ks : List ReadRequestKind)
    → check_weights weights c ks ≡ ok tt
    → All (HasWeight weights c) ks
unfolding check_weights
check_weights_sound weights c [] h = tt
check_weights_sound weights c (k ∷ ks) h = elim (Option-cases (get k weights)) [
  | inl e ↦ ground arith
  | inr (w, e) ↦
      ((w, e, ground arith, ground arith), check_weights_sound weights c ks (ground arith))
]

pub record IsValid (p : ReadApiPolicy) : Type 0 where
  pub reserved_below : p.reserved_weight_per_window < p.total_weight_per_window
  pub window_pos : 0 < p.window_ms
  pub concurrency_pos : 0 < p.max_concurrency
  pub queue_pos : 0 < p.queue_capacity
  pub source_pos : 0 < p.source_polling_weight_per_window
  pub source_below :
      p.source_polling_weight_per_window + p.reserved_weight_per_window < p.total_weight_per_window
  pub targets : All (HasTarget p.source_tier_dispatch_targets_per_window) (active ∷ inactive ∷ [])
  pub weights :
      All
        (HasWeight p.endpoint_weights (p.total_weight_per_window - p.reserved_weight_per_window))
        required
  pub no_overflow : p.total_weight_per_window * p.window_ms < u128_mod

-- A policy that passes `validate` has positive dimensions, a reserve below the total, a source
-- share strictly inside the nonreserved share, a positive target for each tier, a weight within
-- the nonreserved share for each of the six kinds, and a window that fits 128 bits.
pub validate_sound : (p : ReadApiPolicy) → validate p ≡ ok tt → IsValid p
unfolding validate
validate_sound p h = record {
  reserved_below = ground arith;
  window_pos = ground arith;
  concurrency_pos = ground arith;
  queue_pos = ground arith;
  source_pos = ground arith;
  source_below = ground arith;
  targets =
      check_targets_sound p.source_tier_dispatch_targets_per_window (active ∷ inactive ∷ [])
        (ground arith);
  weights =
      check_weights_sound p.endpoint_weights
        (p.total_weight_per_window - p.reserved_weight_per_window) required (ground arith);
  no_overflow = ground arith;
}
