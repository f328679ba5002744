-- ===== src/Scheduler/Policy.antt =====
-- `ReadApiPolicy` and its checks (crates/copytrade-core/src/scheduler.rs).
pub mod Laws
use hyperliquid.Base.{
  ℕ, ◌-◌, Bool, true, false, not, ◌||◌, ◌&&◌, Option, none, some, List, [], ◌∷◌, ltb, leb, ◌==◌,
  Result, ok, err, ◌>>=◌, ◌>>◌, fail_if, ok_or, checked_sub, checked_mul, u128_mod, if◌then◌else◌,
}
use mathlib.Core.Option.{get_or}
use hyperliquid.BTreeMap.{BTreeMap, get, is_some}
use hyperliquid.Scheduler.Request.{
  ReadRequestKind, RequestKey, RequestPriority, BudgetClass, SourceTier, ScheduledReadRequest,
  active, inactive, required, permits_reserved_budget, is_source_state, subject_candidate,
  is_critical_class, is_source_class, kind_ord, tier_ord,
}

-- One constructor for each message of `PolicyError`.
pub data PolicyError : Type 0 where
  total_not_positive reserved_not_below_total dimension_not_positive : PolicyError
  normal_underflow source_not_below_normal window_overflow budget_overflow : PolicyError
  enrichment_underflow reserved_not_permitted source_needs_source_class : PolicyError
  source_needs_tier invalid_retry age_not_positive : PolicyError
  missing_target : SourceTier → PolicyError
  missing_weight weight_not_positive exceeds_normal : ReadRequestKind → PolicyError

pub record ReadApiPolicy : Type 0 where
  pub total_weight_per_window : ℕ
  pub reserved_weight_per_window : ℕ
  pub source_polling_weight_per_window : ℕ
  pub window_ms : ℕ
  pub max_concurrency : ℕ
  pub queue_capacity : ℕ
  pub endpoint_weights : BTreeMap ReadRequestKind ℕ
  pub source_tier_dispatch_targets_per_window : BTreeMap SourceTier ℕ

-- The loop over the two tiers.
unfoldable pub check_targets :
    BTreeMap SourceTier ℕ → List SourceTier → Result PolicyError (Unit {0})
check_targets targets [] = ok tt
check_targets targets (t ∷ ts) = do
  fail_if (get_or (get t targets) 0 == 0) (missing_target t)
  check_targets targets ts

-- The loop over the required kinds.
unfoldable pub check_weights :
    BTreeMap ReadRequestKind ℕ → ℕ → List ReadRequestKind → Result PolicyError (Unit {0})
check_weights weights normal_capacity [] = ok tt
check_weights weights normal_capacity (k ∷ ks) = do
  weight ← ok_or (get k weights) (missing_weight k)
  fail_if (weight == 0) (weight_not_positive k)
  fail_if (ltb normal_capacity weight) (exceeds_normal k)
  check_weights weights normal_capacity ks

unfoldable pub validate : ReadApiPolicy → Result PolicyError (Unit {0})
validate p = do
  fail_if (p.total_weight_per_window == 0) total_not_positive
  fail_if (leb p.total_weight_per_window p.reserved_weight_per_window) reserved_not_below_total
  fail_if (p.window_ms == 0 || p.max_concurrency == 0 || p.queue_capacity == 0)
      dimension_not_positive
  normal_capacity ←
      ok_or (checked_sub p.total_weight_per_window p.reserved_weight_per_window) normal_underflow
  fail_if
      (p.source_polling_weight_per_window == 0
        || leb normal_capacity p.source_polling_weight_per_window)
      source_not_below_normal
  check_targets p.source_tier_dispatch_targets_per_window (active ∷ inactive ∷ [])
  check_weights p.endpoint_weights normal_capacity required
  ok_or (checked_mul u128_mod p.total_weight_per_window p.window_ms) window_overflow
  ok tt

-- `a != b` on Booleans
abbrev pub differ : Bool → Bool → Bool
differ true b = not b
differ false b = b

unfoldable pub request :
    ReadApiPolicy
    → RequestKey
    → RequestPriority
    → BudgetClass
    → Option SourceTier
    → ℕ
    → ℕ
    → ℕ
    → ℕ
    → Result PolicyError ScheduledReadRequest
request p key priority budget_class source_tier created_at not_before expires_at attempt = do
  fail_if (is_critical_class budget_class && not (permits_reserved_budget key.kind))
      reserved_not_permitted
  fail_if (differ (is_source_state key.kind) (is_source_class budget_class))
      source_needs_source_class
  weight ← ok_or (get key.kind p.endpoint_weights) (missing_weight key.kind)
  fail_if (differ (is_source_state key.kind) (is_some source_tier)) source_needs_tier
  ok (record {
    key = key;
    kind = key.kind;
    candidate_id = subject_candidate key.subject;
    source_tier = source_tier;
    weight = weight;
    priority = priority;
    budget_class = budget_class;
    created_at = created_at;
    not_before = not_before;
    expires_at = expires_at;
    attempt = attempt;
  })
