-- ===== src/Lifecycle/Registry.antt =====
-- The registry of planned actions (`LifecycleRegistry` of crates/copytrade-core/src/lifecycle.rs). A
-- method that changes it returns the registry after the call beside its result.
pub mod Laws
pub mod Runs
use hyperliquid.Base.{
  ℕ, zero, suc, Bool, true, false, ◌||◌, Option, none, some, List, [], ◌∷◌, String, Result, ok, err,
  leb, if◌then◌else◌, length, filter, ◌==◌, take, any,
}
use hyperliquid.BTreeMap.{
  nat_ord, string_ord, BTreeMap, BTreeSet, get, insert, remove, contains_key, contains, add, size,
  keys,
}
use hyperliquid.Decimal.{Decimal}
use hyperliquid.Lifecycle.{
  PlannedAction, LifecycleState, LifecycleEvent, ReconciliationPolicy, TransitionError,
  reconciliation_conflict, submission_unknown,
}
use hyperliquid.Lifecycle.Events.{apply_lifecycle_event, action, is_terminal}

pub data RiskAuthorization : Type 0 where
  no_increase_permitted reduce_only_permitted normal_planning_permitted : RiskAuthorization

pub data RegistryError : Type 0 where
  duplicate_cloid capacity_exhausted missing_cloid : RegistryError
  transition : TransitionError → RegistryError

-- The cloids of an asset, none for an asset without an entry.
abbrev pub cloids_of : String → BTreeMap String (BTreeSet ℕ) → BTreeSet ℕ
cloids_of asset m = elim (get asset m) [ none ↦ [] | some s ↦ s ]

module _ (d : Decimal) where
  pub record LifecycleRegistry : Type 0 where
    pub by_cloid : BTreeMap ℕ (LifecycleState d)
    pub by_asset : BTreeMap String (BTreeSet ℕ)
    pub blocked_assets : BTreeSet String
    pub maximum_entries : ℕ

  unfoldable pub new : ℕ → Result RegistryError LifecycleRegistry
  new maximum_entries =
      if maximum_entries == 0
      then err capacity_exhausted
      else ok (record {
        by_cloid = [];
        by_asset = [];
        blocked_assets = [];
        maximum_entries = maximum_entries;
      })

  -- The two inserts of `insert`: `entry(asset).or_default().insert(cloid)`, then the state.
  unfoldable pub file : PlannedAction d → LifecycleState d → LifecycleRegistry → LifecycleRegistry
  file a state r = record r {
    by_asset = insert a.asset (add a.planned_cloid (cloids_of a.asset r.by_asset)) r.by_asset;
    by_cloid = insert a.planned_cloid state r.by_cloid;
  }

  unfoldable pub insert_state :
      LifecycleState d → LifecycleRegistry → LifecycleRegistry × Result RegistryError (Unit {0})
  unfolding file
  insert_state state r = elim (action d state) [
    | none ↦ (r, err missing_cloid)
    | some a ↦
        if contains_key a.planned_cloid r.by_cloid
        then (r, err duplicate_cloid)
        else if leb r.maximum_entries (size r.by_cloid)
        then (r, err capacity_exhausted)
        else (file a state r, ok tt)
  ]

  -- The match of `apply` on the outcome of the event, for an action of the given asset.
  unfoldable pub take_outcome :
      ℕ
      → String
      → Result TransitionError (LifecycleState d)
      → LifecycleRegistry
      → LifecycleRegistry × Result RegistryError (LifecycleState d)
  take_outcome cloid asset (ok next) r =
      (record r { by_cloid = insert cloid next r.by_cloid }, ok next)
  take_outcome cloid asset (err reconciliation_conflict) r = (
    record r { blocked_assets = add asset r.blocked_assets },
    err (transition reconciliation_conflict),
  )
  take_outcome cloid asset (err e) r = (r, err (transition e))

  unfoldable pub apply :
      ℕ
      → LifecycleEvent d
      → ReconciliationPolicy
      → LifecycleRegistry
      → LifecycleRegistry × Result RegistryError (LifecycleState d)
  unfolding take_outcome
  apply cloid event policy r = elim (get cloid r.by_cloid) [
    | none ↦ (r, err missing_cloid)
    | some current ↦ elim (action d current) [
      | none ↦ (r, err missing_cloid)
      | some a ↦ take_outcome cloid a.asset (apply_lifecycle_event d current event policy) r
    ]
  ]

  abbrev pub is_unknown : LifecycleState d → Bool
  is_unknown (submission_unknown _ _ _ _) = true
  is_unknown _ = false

  -- `matches!(self.by_cloid.get(cloid), Some(SubmissionUnknown { .. }))`
  abbrev pub is_unknown_in : BTreeMap ℕ (LifecycleState d) → ℕ → Bool
  is_unknown_in m cloid = elim (get cloid m) [ none ↦ false | some s ↦ is_unknown s ]

  unfoldable pub authorization_for_asset : String → LifecycleRegistry → RiskAuthorization
  authorization_for_asset asset r =
      if contains asset r.blocked_assets
        || any (is_unknown_in r.by_cloid) (keys (cloids_of asset r.by_asset))
      then no_increase_permitted
      else normal_planning_permitted

  -- What the loop of `compact_terminal` does to the assets of a removed entry.
  abbrev pub forget :
      ℕ → LifecycleState d → BTreeMap String (BTreeSet ℕ) → BTreeMap String (BTreeSet ℕ)
  forget cloid state m = elim (action d state) [
    | none ↦ m
    | some a ↦ elim (get a.asset m) [
      | none ↦ m
      | some s ↦ elim (remove cloid s) [
        | [] ↦ remove a.asset m
        | e ∷ left ↦ insert a.asset (e ∷ left) m
      ]
    ]
  ]

  unfoldable pub remove_entry : ℕ → LifecycleRegistry → LifecycleRegistry
  remove_entry cloid r = elim (get cloid r.by_cloid) [
    | none ↦ r
    | some state ↦ record r {
      by_cloid = remove cloid r.by_cloid;
      by_asset = forget cloid state r.by_asset;
    }
  ]

  unfoldable pub remove_entries : List ℕ → LifecycleRegistry → LifecycleRegistry
  remove_entries [] r = r
  remove_entries (cloid ∷ cloids) r = remove_entries cloids (remove_entry cloid r)

  abbrev terminal_entry : ℕ × LifecycleState d → Bool
  terminal_entry e = is_terminal d e.1

  unfoldable pub compact_terminal : ℕ → LifecycleRegistry → LifecycleRegistry × ℕ
  compact_terminal maximum_to_remove r =
      let removable = take maximum_to_remove (keys (filter terminal_entry r.by_cloid)) in
      (remove_entries removable r, length removable)

  -- `len`
  abbrev pub len : LifecycleRegistry → ℕ
  len r = size r.by_cloid
