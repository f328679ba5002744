-- ===== src/Portfolio/Stage/Laws.antt =====
-- The staging ends, and what it leaves.
use hyperliquid.Base.{
  Among, ℕ, zero, suc, ◌+◌, ◌≤◌, ◌<◌, ◌≡◌, ◌≢◌, Bool, true, false, not, none, some, List, [], ◌∷◌,
  String, ok, arith, ◌⊎◌, inl, inr, Bool-cases, Option-cases, Result-cases, ap, ◌∙◌, subst, filter,
  length, length-filter-le,
}
use hyperliquid.BTreeMap.{
  string_ord, BTreeMap, BTreeSet, get, get-insert, insert, replace, size, contains_key,
}
use hyperliquid.Decimal.{Decimal, is_zero}
use hyperliquid.Portfolio.{PortfolioProjectionInput, Sides}
use hyperliquid.Portfolio.Ranges.{Metrics, worst_net}
use hyperliquid.Portfolio.Targets.{min_by, less_reduction}
use hyperliquid.Portfolio.Stage.{metrics_for, offender, is_offending, prune_step, prune}

min_by-Among :
    {A : Type 0} (less : A → A → Bool) (xs : List A) {x : A} → min_by less xs ≡ some x → Among x xs
unfolding min_by
min_by-Among less [] h = absurd (cc)
min_by-Among less (y ∷ ys) {x} h = elim (Option-cases (min_by less ys)) [
  | inl e ↦ inl (ground arith)
  | inr (z, e) ↦ elim (Bool-cases (less z y)) [
    | inl below ↦ inr (min_by-Among less ys (let q : z ≡ x = ground arith in e ∙ ap some q))
    | inr above ↦ inl (ground arith)
  ]
]

Among-filter :
    {A : Type 0} (p : A → Bool) (xs : List A) {x : A}
    → Among x (filter p xs)
    → Among x xs × (p x ≡ true)
Among-filter p [] h = absurd h
Among-filter p (y ∷ ys) {x} h = elim (Bool-cases (p y)) [
  | inl e ↦
      let split : (x ≡ y) ⊎ Among x (filter p ys) = rw e at h in
      elim split [
        | inl q ↦ (inl q, ap p q ∙ e)
        | inr k ↦ let r = Among-filter p ys k in (inr r.0, r.1)
      ]
  | inr e ↦
      let rest : Among x (filter p ys) = rw e at h in
      let r = Among-filter p ys rest in (inr r.0, r.1)
]

module _ (d : Decimal) where
  -- How many of the deltas are not zero.
  abbrev pub nonzeros : BTreeMap String d.Value → ℕ
  nonzeros m = length (filter (λ e. not (is_zero d e.1)) m)

  pub nonzeros-le : (m : BTreeMap String d.Value) → nonzeros m ≤ size m
  nonzeros-le m = length-filter-le (λ e. not (is_zero d e.1)) m

  nonzeros-replace-le :
      (k : String) (m : BTreeMap String d.Value) → nonzeros (replace k d.zero m) ≤ nonzeros m
  unfolding replace
  nonzeros-replace-le k [] = omega arith
  nonzeros-replace-le k ((j, w) ∷ m) = ground (arith, nonzeros-replace-le k m)

  nonzeros-replace-lt :
      (k : String) (v : d.Value) (m : BTreeMap String d.Value)
      → Among (k, v) m
      → is_zero d v ≡ false
      → nonzeros (replace k d.zero m) < nonzeros m
  unfolding replace
  nonzeros-replace-lt k v [] h q = absurd h
  nonzeros-replace-lt k v ((j, w) ∷ m) (inl e) q =
      let here : k ≡ j = ap (λ x. x.0) e in
      let same : v ≡ w = ap (λ x. x.1) e in ground (arith, nonzeros-replace-le k m)
  nonzeros-replace-lt k v ((j, w) ∷ m) (inr h) q = ground (arith, nonzeros-replace-lt k v m h q)

  Among-contains_key :
      (k : String) (v : d.Value) (m : BTreeMap String d.Value)
      → Among (k, v) m
      → contains_key k m ≡ true
  unfolding get
  Among-contains_key k v [] h = absurd h
  Among-contains_key k v ((j, w) ∷ m) (inl e) = let here : k ≡ j = ap (λ x. x.0) e in ground arith
  Among-contains_key k v ((j, w) ∷ m) (inr h) = ground (arith, Among-contains_key k v m h)

  nonzeros-insert-lt :
      (k : String) (v : d.Value) (m : BTreeMap String d.Value)
      → Among (k, v) m
      → is_zero d v ≡ false
      → nonzeros (insert k d.zero m) < nonzeros m
  unfolding insert
  nonzeros-insert-lt k v m h q = elim (Option-cases (get k m)) [
    | inl e ↦ absurd (let c = Among-contains_key k v m h in ground arith)
    | inr (w, e) ↦ rw (e, insert) (nonzeros-replace-lt k v m h q)
  ]

  is_offending-is_zero :
      (m : Metrics d) (e : String × d.Value) → is_offending d m e ≡ true → is_zero d e.1 ≡ false
  is_offending-is_zero m e h = let r = d.leb_refl d.zero in ground arith

  -- Each delta is zero or the one that it was.
  abbrev pub Kept : BTreeMap String d.Value → BTreeMap String d.Value → Type 0
  Kept before after =
      (a : String) (v : d.Value) → get a after ≡ some v → (v ≡ d.zero) ⊎ (get a before ≡ some v)

  Kept-insert : (k : String) (m : BTreeMap String d.Value) → Kept m (insert k d.zero m)
  Kept-insert k m a v h = ground (arith, get-insert k a d.zero m)

  module _ (input : PortfolioProjectionInput d) (assets : BTreeSet String)
      (open_by_asset : BTreeMap String (Sides d)) (worst : d.Value) where
    prune_step-lt :
        (staged : BTreeMap String d.Value) {next : BTreeMap String d.Value}
        → prune_step d input assets open_by_asset worst staged ≡ ok (some next)
        → (nonzeros next < nonzeros staged) × Kept staged next
    unfolding prune_step
    prune_step-lt staged {next} h =
        elim (Result-cases (metrics_for d input assets open_by_asset staged)) [
          | inl (m, e) ↦ elim (Option-cases (offender d m staged)) [
            | inl missing ↦ absurd (ground arith)
            | inr (x, found) ↦
                let same : insert x.0 d.zero staged ≡ next = ground arith in
                subst (λ n. (nonzeros n < nonzeros staged) × Kept staged n) same
                  (let member = Among-filter (is_offending d m) staged (
                      min_by-Among (less_reduction d) (filter (is_offending d m) staged)
                        (unfold offender in found)) in
                    (
                      nonzeros-insert-lt x.0 x.1 staged member.0
                          (is_offending-is_zero m x member.1),
                      Kept-insert x.0 staged,
                    ))
          ]
          | inr (x, e) ↦ absurd (ground arith)
        ]

    prune_step_done :
        (staged : BTreeMap String d.Value)
        → prune_step d input assets open_by_asset worst staged ≡ ok none
        → (m : Metrics d) × (metrics_for d input assets open_by_asset staged ≡ ok m)
          × (d.leb (worst_net d m) worst ≡ true)
    unfolding prune_step
    prune_step_done staged h =
        elim (Result-cases (metrics_for d input assets open_by_asset staged)) [
          | inl (m, e) ↦ (
            m,
            e,
            elim (Option-cases (offender d m staged)) [
              | inl missing ↦ ground arith
              | inr (x, found) ↦ ground arith
            ],
          )
          | inr (x, e) ↦ absurd (ground arith)
        ]

    -- With more turns than there are deltas that are not zero the loop ends.
    pub prune-ne-none :
        (fuel : ℕ) (staged : BTreeMap String d.Value)
        → nonzeros staged < fuel
        → prune d input assets open_by_asset fuel worst staged ≢ none
    unfolding prune
    prune-ne-none zero staged h e = absurd (omega arith)
    prune-ne-none (suc fuel) staged h q =
        elim (Result-cases (prune_step d input assets open_by_asset worst staged)) [
          | inl (none, e) ↦ absurd (ground arith)
          | inl (some next, e) ↦
              prune-ne-none fuel next (let k = (prune_step-lt staged e).0 in omega (arith, k, h))
                (ground arith)
          | inr (x, e) ↦ absurd (ground arith)
        ]

    Kept-trans : (a b c : BTreeMap String d.Value) → Kept a b → Kept b c → Kept a c
    Kept-trans a b c h k x v e = elim (k x v e) [ inl z ↦ inl z | inr q ↦ h x v q ]

    -- The loop that takes reductions back ends: with one turn more than there are deltas it does not run
    -- out of turns, whatever bound on the net it is to meet.
    pub prune_ends :
        (staged : BTreeMap String d.Value)
        → prune d input assets open_by_asset (size staged + 1) worst staged ≢ none
    prune_ends staged = prune-ne-none (size staged + 1) staged (omega (arith, nonzeros-le staged))

    -- What the loop leaves: the net is no worse, and each delta is zero or what it was.
    pub prune_lem :
        (fuel : ℕ) (staged : BTreeMap String d.Value) {after : BTreeMap String d.Value}
        → prune d input assets open_by_asset fuel worst staged ≡ some (ok after)
        → ((m : Metrics d) × (metrics_for d input assets open_by_asset after ≡ ok m)
            × (d.leb (worst_net d m) worst ≡ true))
          × Kept staged after
    unfolding prune
    prune_lem zero staged h = absurd (cc)
    prune_lem (suc fuel) staged {after} h =
        elim (Result-cases (prune_step d input assets open_by_asset worst staged)) [
          | inl (none, e) ↦
              let same : staged ≡ after = ground arith in
              subst
                (λ t.
                  ((m : Metrics d) × (metrics_for d input assets open_by_asset t ≡ ok m)
                    × (d.leb (worst_net d m) worst ≡ true))
                  × Kept staged t)
                same (prune_step_done staged e, λ a v q. inr q)
          | inl (some next, e) ↦
              let rest = prune_lem fuel next (let q = h in ground arith) in
              (rest.0, Kept-trans staged next after (prune_step-lt staged e).1 rest.1)
          | inr (x, e) ↦ absurd (ground arith)
        ]
