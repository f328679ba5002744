-- ===== src/Scheduler/Snapshots/Laws.antt =====
-- What is accepted is fresh, and a candidate's snapshot only gives way to a newer one.
use hyperliquid.Base.{
  ℕ, ◌-◌, ◌≤◌, ◌≡◌, ◌≢◌, ◌⊎◌, Bool, true, false, not, ◌||◌, Option, none, some, String, refl, sym,
  ap, ◌∙◌, subst, arith, ltb, inl, inr, if_both, if◌then◌else◌, Option-cases, checked_add, u64_mod,
}
use hyperliquid.BTreeMap.{string_ord, get, insert, get-insert-same, get-insert-other}
use hyperliquid.Scheduler.Snapshots.{
  SnapshotAcceptance, accepted, SourceSnapshot, SnapshotStore, option_ltb, observed_dated,
  observed_expired, is_behind, accept_until, accept, is_fresh, if_fresh, fresh,
}

option_ltb_irrefl : (o : Option ℕ) → option_ltb o o ≡ false
option_ltb_irrefl o = ground arith

option_ltb_trans :
    (a b c : Option ℕ) → option_ltb b a ≡ false → option_ltb c b ≡ false → option_ltb c a ≡ false
option_ltb_trans a b c h k = ground arith

module _ {T : Type 0} where
  abbrev with_snapshot : SourceSnapshot T → SnapshotStore T → SnapshotStore T
  with_snapshot s store = record store {
    accepted_snapshots = insert s.candidate_id s store.accepted_snapshots;
  }

  -- The snapshot is stored: it is in time and ahead of the one before.
  record IsTaken (s : SourceSnapshot T) (now : ℕ) (store : SnapshotStore T)
      (p : SnapshotStore T × SnapshotAcceptance) : Type 0 where
    stored : p.0 ≡ with_snapshot s store
    outcome : p.1 ≡ accepted
    in_time : is_fresh T store.policy now s ≡ true
    ahead : is_behind T s (get s.candidate_id store.accepted_snapshots) ≡ false

  abbrev IsHandled :
      SourceSnapshot T → ℕ → SnapshotStore T → SnapshotStore T × SnapshotAcceptance → Type 0
  IsHandled s now store p = ((p.0 ≡ store) × (p.1 ≢ accepted)) ⊎ IsTaken s now store p

  accept_until-IsHandled :
      (maximum_future : ℕ) (s : SourceSnapshot T) (now : ℕ) (store : SnapshotStore T)
      → is_fresh T store.policy now s ≡ true
      → IsHandled s now store (accept_until T maximum_future s now store)
  unfolding accept_until
  accept_until-IsHandled maximum_future s now store f =
      let P = IsHandled s now store in
      if_both P (ltb maximum_future s.requested_at || ltb maximum_future s.received_at)
        (λ _. inl (refl, λ e. absurd (cc)))
        (λ _.
          if_both P (observed_dated maximum_future s.source_observed_at)
            (λ _. inl (refl, λ e. absurd (cc)))
            (λ _.
              if_both P
                (observed_expired now store.policy.configured_max_age_ms s.source_observed_at)
                (λ _. inl (refl, λ e. absurd (cc)))
                (λ _.
                  if_both P (is_behind T s (get s.candidate_id store.accepted_snapshots))
                    (λ _. inl (refl, λ e. absurd (cc)))
                    (λ e. inr (record { stored = refl; outcome = refl; in_time = f; ahead = e })))))

  accept-IsHandled :
      (s : SourceSnapshot T) (now : ℕ) (valid : Bool) (store : SnapshotStore T)
      → IsHandled s now store (accept T s now valid store)
  unfolding accept
  accept-IsHandled s now valid store =
      let P = IsHandled s now store in
      if_both P (not valid) (λ _. inl (refl, λ e. absurd (cc)))
        (λ _.
          if_both P (ltb s.received_at s.requested_at || ltb s.valid_until s.received_at)
            (λ _. inl (refl, λ e. absurd (cc)))
            (λ _.
              if_both P
                (ltb s.valid_until now
                  || ltb store.policy.configured_max_age_ms (now - s.received_at))
                (λ _. inl (refl, λ e. absurd (cc)))
                (λ late.
                  elim (Option-cases
                    (checked_add u64_mod now store.policy.maximum_future_skew_ms)) [
                      | inl e ↦ rw (e) (inl (refl, λ e. absurd (cc)))
                      | inr (future, e) ↦
                          rw (e) (accept_until-IsHandled future s now store (ground arith))
                    ])))

  -- A snapshot that is accepted is the fresh one of its candidate at once, and a refused one leaves the
  -- store as it was.
  taken_or_refused :
      (s : SourceSnapshot T) (now : ℕ) (valid : Bool) (store : SnapshotStore T)
      → let (after, outcome) = accept T s now valid store in
        ((outcome ≡ accepted) × (fresh T s.candidate_id now after ≡ some s))
        ⊎ ((outcome ≢ accepted) × (after ≡ store))
  unfolding fresh
  taken_or_refused s now valid store = elim (accept-IsHandled s now valid store) [
    | inl h ↦ inr (h.1, h.0)
    | inr h ↦ inl (
      h.outcome,
      ap (fresh T s.candidate_id now) h.stored
          ∙ ap (if_fresh T store.policy now)
              (get-insert-same s.candidate_id s store.accepted_snapshots)
          ∙ ap (λ b. if b then some s else none) h.in_time,
    )
  ]

  -- There is a snapshot that is not behind the given one in its sequence, its time of receipt or its
  -- time of observation.
  abbrev pub IsLater : SourceSnapshot T → Option (SourceSnapshot T) → Type 0
  IsLater a none = ⊥
  IsLater a (some b) =
      (a.sequence ≤ b.sequence)
      × (a.received_at ≤ b.received_at)
      × (option_ltb b.source_observed_at a.source_observed_at ≡ false)

  not_behind_self : (a : SourceSnapshot T) → IsLater a (some a)
  not_behind_self a = (omega arith, omega arith, option_ltb_irrefl a.source_observed_at)

  not_behind_chain :
      (a : SourceSnapshot T) (o p : Option (SourceSnapshot T))
      → IsLater a o
      → ((b : SourceSnapshot T) → o ≡ some b → IsLater b p)
      → IsLater a p
  not_behind_chain a none p h k = absurd h
  not_behind_chain a (some b) none h k = k b refl
  not_behind_chain a (some b) (some c) h k =
      let later = k b refl in
      (
        omega (arith, h.0, later.0),
        omega (arith, h.1, later.1),
        option_ltb_trans a.source_observed_at b.source_observed_at c.source_observed_at h.2 later.2,
      )

  taken-IsLater :
      (s : SourceSnapshot T) (store : SnapshotStore T) (id : String) (a : SourceSnapshot T)
      → is_behind T s (get s.candidate_id store.accepted_snapshots) ≡ false
      → get id store.accepted_snapshots ≡ some a
      → IsLater a (get id (insert s.candidate_id s store.accepted_snapshots))
  taken-IsLater s store id a ahead e = elim (string_ord.dec s.candidate_id id) [
    | yes same ↦
        let found : get s.candidate_id store.accepted_snapshots ≡ some a =
          subst (λ j. get j store.accepted_snapshots ≡ some a) (sym same) e in
        let behind : is_behind T s (some a) ≡ false = sym (ap (is_behind T s) found) ∙ ahead in
        subst (λ j. IsLater a (get j (insert s.candidate_id s store.accepted_snapshots))) same
          (subst (IsLater a) (sym (get-insert-same s.candidate_id s store.accepted_snapshots))
            (ground arith, ground arith, ground arith))
    | no n ↦
        subst (IsLater a)
          (sym (get-insert-other s.candidate_id id s store.accepted_snapshots n ∙ e))
          (not_behind_self a)
  ]

  pub data Reach (start : SnapshotStore T) : SnapshotStore T → Type 0 where
    here : Reach start start
    accepting :
        {store : SnapshotStore T} (s : SourceSnapshot T) (now : ℕ) (valid : Bool)
        → Reach start store
        → Reach start (accept T s now valid store).0

  -- Over any snapshots that come, at any times, a candidate with a snapshot keeps one, and it only gives
  -- way to one with no smaller sequence that was not received earlier, nor observed earlier.
  pub Reach-IsLater :
      {start store : SnapshotStore T} (id : String) (a : SourceSnapshot T)
      → Reach start store
      → get id start.accepted_snapshots ≡ some a
      → IsLater a (get id store.accepted_snapshots)
  Reach-IsLater id a here e = subst (IsLater a) (sym e) (not_behind_self a)
  Reach-IsLater id a (accepting {store} s now valid q) e =
      let before = Reach-IsLater id a q e in
      elim (accept-IsHandled s now valid store) [
        | inl h ↦ rw (h.0) before
        | inr h ↦ not_behind_chain a (get id store.accepted_snapshots) _ before (λ b found.
            subst (λ t. IsLater b (get id t.accepted_snapshots)) (sym h.stored)
              (taken-IsLater s store id b h.ahead found))
      ]
