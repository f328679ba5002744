-- ===== src/Lifecycle/Registry/Laws.antt =====
-- What holds of the registry of planned actions after every call.
use hyperliquid.Base.{
  ℕ, ◌≤◌, ◌≡◌, ◌≢◌, Bool, true, some, List, [], ◌∷◌, String, Result, ok, err, arith, inl, inr,
  Option-cases, Bool-cases, All, All-mono, refl, sym, subst, leb, any,
}
use hyperliquid.BTreeMap.{
  nat_ord, string_ord, BTreeMap, BTreeSet, get, insert, remove, contains, contains_key, add, size,
  keys, get-insert, get-remove, size-insert, size-remove-le, All-insert, All-remove-other, All-get,
}
use hyperliquid.Decimal.{Decimal}
use hyperliquid.Lifecycle.{
  PlannedAction, LifecycleState, LifecycleEvent, ReconciliationPolicy, TransitionError,
  reconciliation_conflict, submission_unknown,
}
use hyperliquid.Lifecycle.Events.{apply_lifecycle_event, action}
use hyperliquid.Lifecycle.Laws.{step-action}
use hyperliquid.Lifecycle.Runs.{apply-step}
use hyperliquid.Lifecycle.Registry.{
  no_increase_permitted, transition, LifecycleRegistry, cloids_of, file, insert_state, take_outcome,
  apply, forget, remove_entry, remove_entries, compact_terminal, authorization_for_asset,
  is_unknown_in,
}

cloids_of-insert :
    (a b : String) (c k : ℕ) (m : BTreeMap String (BTreeSet ℕ))
    → contains k (cloids_of b m) ≡ true
    → contains k (cloids_of b (insert a (add c (cloids_of a m)) m)) ≡ true
cloids_of-insert a b c k m h =
    ground (arith, get-insert a b (add c (cloids_of a m)) m, get-insert c k tt (cloids_of a m))

cloids_of-add :
    (a : String) (c : ℕ) (m : BTreeMap String (BTreeSet ℕ))
    → contains c (cloids_of a (insert a (add c (cloids_of a m)) m)) ≡ true
cloids_of-add a c m =
    ground (arith, get-insert a a (add c (cloids_of a m)) m, get-insert c c tt (cloids_of a m))

any-contains :
    (p : ℕ → Bool) (k : ℕ) (s : BTreeSet ℕ)
    → contains k s ≡ true
    → p k ≡ true
    → any p (keys s) ≡ true
unfolding get
any-contains p k [] h q = h
any-contains p k ((j, t) ∷ s) h q = ground (arith, any-contains p k s)

module _ (d : Decimal) where
  -- An entry stands under the cloid of its action, which is filed under the asset of its action.
  pub record IsFiled (m : BTreeMap String (BTreeSet ℕ)) (e : ℕ × LifecycleState d) : Type 0 where
    pub planned : PlannedAction d
    pub of : action d e.1 ≡ some planned
    pub key : planned.planned_cloid ≡ e.0
    pub filed : contains e.0 (cloids_of planned.asset m) ≡ true

  pub record IsIndexed (r : LifecycleRegistry d) : Type 0 where
    pub bounded : size r.by_cloid ≤ r.maximum_entries
    pub all : All (IsFiled r.by_asset) r.by_cloid

  file-IsIndexed :
      (a : PlannedAction d) (s : LifecycleState d) (r : LifecycleRegistry d)
      → action d s ≡ some a
      → size r.by_cloid ≢ r.maximum_entries
      → IsIndexed r
      → IsIndexed (file d a s r)
  unfolding file
  file-IsIndexed a s r e room h = record {
    bounded = ground (arith, size-insert a.planned_cloid s r.by_cloid, h.bounded);
    all =
        All-insert (IsFiled (file d a s r).by_asset) a.planned_cloid s r.by_cloid
          (record {
            planned = a;
            of = e;
            key = refl;
            filed = cloids_of-add a.asset a.planned_cloid r.by_asset;
          })
          (All-mono r.by_cloid
            (λ x q. record {
              planned = q.planned;
              of = q.of;
              key = q.key;
              filed =
                  cloids_of-insert a.asset q.planned.asset a.planned_cloid x.0 r.by_asset q.filed;
            })
            h.all);
  }

  -- A call of `insert` keeps every entry filed under the cloid and the asset of its action, and the
  -- number of entries within the maximum.
  pub insert_state-IsIndexed :
      (s : LifecycleState d) (r : LifecycleRegistry d)
      → IsIndexed r
      → IsIndexed (insert_state d s r).0
  unfolding insert_state
  insert_state-IsIndexed s r h = elim (Option-cases (action d s)) [
    | inl e ↦ rw (e, insert_state) h
    | inr (a, e) ↦ elim (Bool-cases (contains_key a.planned_cloid r.by_cloid)) [
      | inl there ↦ rw (e, there, insert_state) h
      | inr new ↦ elim (Bool-cases (leb r.maximum_entries (size r.by_cloid))) [
        | inl full ↦ rw (e, new, full, insert_state) h
        | inr room ↦ rw (e, new, room, insert_state) (file-IsIndexed a s r e (ground arith) h)
      ]
    ]
  ]

  take_outcome-IsIndexed :
      (cloid : ℕ) (asset : String) (o : Result TransitionError (LifecycleState d))
      (r : LifecycleRegistry d)
      → contains_key cloid r.by_cloid ≡ true
      → ((next : LifecycleState d) → o ≡ ok next → IsFiled r.by_asset (cloid, next))
      → IsIndexed r
      → IsIndexed (take_outcome d cloid asset o r).0
  unfolding take_outcome
  take_outcome-IsIndexed cloid asset (ok next) r there filed h = record {
    bounded = ground (arith, size-insert cloid next r.by_cloid, h.bounded);
    all = All-insert (IsFiled r.by_asset) cloid next r.by_cloid (filed next refl) h.all;
  }
  take_outcome-IsIndexed cloid asset (err reconciliation_conflict) r there filed h = record {
    bounded = h.bounded;
    all = h.all;
  }
  take_outcome-IsIndexed cloid asset (err _) r there filed h = h

  -- A call of `apply` keeps every entry filed under the cloid and the asset of its action, and the number
  -- of entries within the maximum.
  pub apply-IsIndexed :
      (cloid : ℕ) (e : LifecycleEvent d) (p : ReconciliationPolicy) (r : LifecycleRegistry d)
      → IsIndexed r
      → IsIndexed (apply d cloid e p r).0
  unfolding apply
  apply-IsIndexed cloid e p r h = elim (Option-cases (get cloid r.by_cloid)) [
    | inl missing ↦ rw (missing, apply) h
    | inr (c, found) ↦ elim (Option-cases (action d c)) [
      | inl unplanned ↦ rw (found, unplanned, apply) h
      | inr (a, of) ↦
          let k = All-get (IsFiled r.by_asset) cloid c r.by_cloid h.all found in
          rw (found, of, apply)
            (take_outcome-IsIndexed cloid a.asset (apply_lifecycle_event d c e p) r (ground arith)
              (λ next q. record {
                planned = k.planned;
                of = step-action d c e p k.of (apply-step d p c e q);
                key = k.key;
                filed = k.filed;
              })
              h)
    ]
  ]

  forget-keeps :
      (cloid k : ℕ) (s : LifecycleState d) (b : String) (m : BTreeMap String (BTreeSet ℕ))
      → cloid ≢ k
      → contains k (cloids_of b m) ≡ true
      → contains k (cloids_of b (forget d cloid s m)) ≡ true
  forget-keeps cloid k s b m ne h = elim (Option-cases (action d s)) [
    | inl e ↦ rw (e, forget) h
    | inr (a, e) ↦ elim (Option-cases (get a.asset m)) [
      | inl q ↦ rw (e, q, forget) h
      | inr (t, q) ↦ rw (e, q, forget) (drop (remove cloid t) a t q refl)
    ]
  ]
    where
      drop :
          (left : BTreeSet ℕ) (a : PlannedAction d) (t : BTreeSet ℕ)
          → get a.asset m ≡ some t
          → remove cloid t ≡ left
          → contains k
              (cloids_of b (elim left [ [] ↦ remove a.asset m | e ∷ l ↦ insert a.asset (e ∷ l) m ]))
            ≡ true
      drop [] a t q e = unfold get in ground (arith, get-remove a.asset b m, get-remove cloid k t)
      drop (x ∷ left) a t q e =
          ground (arith, get-insert a.asset b (x ∷ left) m, get-remove cloid k t)

  remove_entry-IsIndexed :
      (cloid : ℕ) (r : LifecycleRegistry d) → IsIndexed r → IsIndexed (remove_entry d cloid r)
  unfolding remove_entry
  remove_entry-IsIndexed cloid r h = elim (Option-cases (get cloid r.by_cloid)) [
    | inl missing ↦ rw (missing, remove_entry) h
    | inr (s, found) ↦
        rw (found, remove_entry)
          (record {
            bounded = omega (arith, size-remove-le cloid r.by_cloid, h.bounded);
            all =
                All-mono (remove cloid r.by_cloid)
                  (λ x q. record {
                    planned = q.0.planned;
                    of = q.0.of;
                    key = q.0.key;
                    filed =
                        forget-keeps cloid x.0 s q.0.planned.asset r.by_asset (λ z. q.1 (sym z))
                          q.0.filed;
                  })
                  (All-remove-other (IsFiled r.by_asset) cloid r.by_cloid h.all);
          })
  ]

  remove_entries-IsIndexed :
      (cloids : List ℕ) (r : LifecycleRegistry d)
      → IsIndexed r
      → IsIndexed (remove_entries d cloids r)
  unfolding remove_entries
  remove_entries-IsIndexed [] r h = h
  remove_entries-IsIndexed (c ∷ cs) r h =
      remove_entries-IsIndexed cs (remove_entry d c r) (remove_entry-IsIndexed c r h)

  -- A call of `compact_terminal` keeps every entry filed under the cloid and the asset of its action, and
  -- the number of entries within the maximum.
  pub compact_terminal-IsIndexed :
      (n : ℕ) (r : LifecycleRegistry d) → IsIndexed r → IsIndexed (compact_terminal d n r).0
  unfolding compact_terminal
  compact_terminal-IsIndexed n r h = remove_entries-IsIndexed _ r h

  -- As long as the submission of an action that is filed is unknown, its asset gets no increase.
  pub unknown_blocks :
      (r : LifecycleRegistry d) (cloid : ℕ) {a : PlannedAction d} {first attempts : ℕ}
      {times : List ℕ}
      → IsIndexed r
      → get cloid r.by_cloid ≡ some (submission_unknown a first attempts times)
      → authorization_for_asset d a.asset r ≡ no_increase_permitted
  unfolding authorization_for_asset action
  unknown_blocks r cloid {a} {first} {attempts} {times} h found =
      let k =
        All-get (IsFiled r.by_asset) cloid (submission_unknown a first attempts times) r.by_cloid
          h.all found in
      let same : k.planned ≡ a = unfold action in let o = k.of in ground arith in
      let filed : contains cloid (cloids_of a.asset r.by_asset) ≡ true =
        subst (λ x. contains cloid (cloids_of x.asset r.by_asset) ≡ true) same k.filed in
      let seen : is_unknown_in d r.by_cloid cloid ≡ true = rw (found, is_unknown_in) refl in
      ground (
        arith,
        any-contains (is_unknown_in d r.by_cloid) cloid (cloids_of a.asset r.by_asset) filed seen,
      )

  -- A conflict that `apply` reports leaves the asset of the action without increases.
  conflict_blocks :
      (cloid : ℕ) (e : LifecycleEvent d) (p : ReconciliationPolicy) (r : LifecycleRegistry d)
      {c : LifecycleState d} {a : PlannedAction d}
      → get cloid r.by_cloid ≡ some c
      → action d c ≡ some a
      → apply_lifecycle_event d c e p ≡ err reconciliation_conflict
      → ((apply d cloid e p r).1 ≡ err (transition reconciliation_conflict))
        × (authorization_for_asset d a.asset (apply d cloid e p r).0 ≡ no_increase_permitted)
  unfolding apply take_outcome authorization_for_asset
  conflict_blocks cloid e p r {c} {a} found of bad =
      let outcome : apply d cloid e p r ≡ (
        record r { blocked_assets = add a.asset r.blocked_assets },
        err (transition reconciliation_conflict),
      ) =
        rw (found, of, bad, apply) refl in
      rw outcome (refl, ground (arith, get-insert a.asset a.asset tt r.blocked_assets))
