-- ===== src/Signer/Submissions/Durable.antt =====
-- What the durable history of the submissions is good for: the floor of the nonces, and the restoring of
-- the registry.
use hyperliquid.Base.{
  false, not, ◌||◌, ltb, ◌==◌, ite, ◌++◌, ◌↔◌, Among, ap, sym, >>=-ok, fail_if-ok, ok_injective,
  Bool-cases, ℕ, ◌≤◌, ◌<◌, ◌≡◌, ◌≢◌, true, Option, none, some, List, [], ◌∷◌, String, ok, arith,
  inl, inr, Option-cases, All, All-mono, refl, subst, max, ok_or, checked_add, u64_mod,
}
use hyperliquid.BTreeMap.{
  get-insert-same, get-insert-other, String-discrete, is_some, size, contains, string_ord, get,
  get-insert, All-get,
}
use hyperliquid.Decimal.{Decimal}
use hyperliquid.Signer.Intent.{nonce_overflow, validate}
use hyperliquid.Signer.Submissions.{
  SubmissionState, SubmissionRegistry, SubmissionTransitionRecord, reconciled_not_found, larger,
  authorized, authorized_not_submitted, nonce_allocated, signed, submission_started, unknown_result,
  acknowledged, partially_filled, filled, cancelled, rejected, same_text,
}
use hyperliquid.Signer.Submissions.Transitions.{
  is_unknown, event_nonce, largest_nonce, next_nonce_floor, confirm_not_found, confirm,
}
use hyperliquid.Signer.Submissions.Laws.{IsConsistent, IsKeyed, IsLogged, Entry}
use hyperliquid.Signer.Submissions.Restore.{
  BTreeSet-discrete, check_entries, check_history, check_restored, expected_unknown, last_state,
}

-- Every nonce that is there is at most the largest.
abbrev AtMost : Option ℕ → Option ℕ → Type 0
AtMost none best = Unit
AtMost (some n) none = ⊥
AtMost (some n) (some m) = n ≤ m

AtMost-larger : (a b c : Option ℕ) → AtMost a c → AtMost a (larger b c)
AtMost-larger none b c h = tt
AtMost-larger (some n) none c h = h
AtMost-larger (some n) (some m) none h = absurd h
AtMost-larger (some n) (some m) (some k) h = let le : n ≤ max m k = omega (arith, h) in le

larger-AtMost : (a c : Option ℕ) → AtMost a (larger a c)
larger-AtMost none c = tt
larger-AtMost (some n) none = omega arith
larger-AtMost (some n) (some m) = omega arith

module _ (d : Decimal) where
  largest_nonce-AtMost :
      (h : List (SubmissionTransitionRecord d))
      → All (λ e. AtMost (event_nonce d e.state) (largest_nonce d h)) h
  largest_nonce-AtMost [] = tt
  largest_nonce-AtMost (e ∷ es) = (
    larger-AtMost (event_nonce d e.state) (largest_nonce d es),
    All-mono es
        (λ x k.
          AtMost-larger (event_nonce d x.state) (event_nonce d e.state) (largest_nonce d es) k)
        (largest_nonce-AtMost es),
  )

  -- The states that bear a nonce: it was allocated, signed with, sent with, or sent with an unknown result.
  pub data Bears : SubmissionState d → ℕ → Type 0 where
    when_allocated : (n : ℕ) → Bears (nonce_allocated n) n
    when_signed : (n : ℕ) → Bears (signed n) n
    when_started : (n : ℕ) → Bears (submission_started n) n
    when_unknown : (n : ℕ) → Bears (unknown_result n) n

  Bears-event_nonce : {s : SubmissionState d} {n : ℕ} → Bears s n → event_nonce d s ≡ some n
  Bears-event_nonce (when_allocated n) = refl
  Bears-event_nonce (when_signed n) = refl
  Bears-event_nonce (when_started n) = refl
  Bears-event_nonce (when_unknown n) = refl

  -- Every nonce that a record of the history bears, allocated, signed, started or of an unknown result, is
  -- below the floor of the next nonces.
  pub next_nonce_floor_fresh :
      (r : SubmissionRegistry d) {floor : ℕ}
      → next_nonce_floor d r ≡ ok floor
      → All (λ e. (n : ℕ) → Bears e.state n → n < floor) r.history
  unfolding next_nonce_floor
  next_nonce_floor_fresh r {floor} h =
      All-mono r.history
        (λ e k n q.
          below (event_nonce d e.state) (largest_nonce d r.history) n k (Bears-event_nonce q) h)
        (largest_nonce-AtMost r.history)
    where
      below :
          (a best : Option ℕ) (n : ℕ)
          → AtMost a best
          → a ≡ some n
          → (elim best [
            | none ↦ ok 0
            | some nonce ↦ ok_or (checked_add u64_mod nonce 1) nonce_overflow
          ])
            ≡ ok floor
          → n < floor
      below none best n k q h = absurd (cc)
      below (some m) none n k q h = absurd k
      below (some m) (some b) n k q h = let le : m ≤ b = k in ground arith

  check_entries-IsKeyed : (m : List (Entry d)) → All (IsKeyed d) m → check_entries d m ≡ ok tt
  unfolding check_entries
  check_entries-IsKeyed [] h = refl
  check_entries-IsKeyed ((c, (i, s)) ∷ m) h =
      let valid = h.0.valid in
      let key = h.0.key in rw (valid, check_entries-IsKeyed m h.1) (ground arith)

  check_history-IsLogged :
      (h : List (SubmissionTransitionRecord d)) (m : List (Entry d))
      → All (IsLogged d h) m
      → check_history d h m ≡ ok tt
  unfolding check_history
  check_history-IsLogged h [] k = refl
  check_history-IsLogged h ((c, (i, s)) ∷ m) k =
      let logged : last_state d c h ≡ some s = k.0 in
      rw (check_history-IsLogged h m k.1) (ground arith)

  IsLogged-check_history :
      (h : List (SubmissionTransitionRecord d)) (m : List (Entry d))
      → check_history d h m ≡ ok tt
      → All (IsLogged d h) m
  unfolding check_history
  IsLogged-check_history h [] e = tt
  IsLogged-check_history h ((c, (i, s)) ∷ m) e =
      (ground arith, IsLogged-check_history h m (ground arith))

  -- A consistent registry passes what restoring tests, if its assets of unknown results are those of its
  -- entries.
  pub consistent_restores :
      (r : SubmissionRegistry d)
      → IsConsistent d r
      → 0 < r.maximum_entries
      → r.unknown_assets ≡ expected_unknown d r.by_cloid
      → check_restored d r ≡ ok r
  unfolding check_restored
  consistent_restores r h pos same =
      let a = check_entries-IsKeyed r.by_cloid h.keyed in
      let b = check_history-IsLogged r.history r.by_cloid h.logged in
      let c = h.bounded in ground arith

  -- The last record of the cloid has the state.
  pub record IsLast (cloid : String) (state : SubmissionState d)
      (history : List (SubmissionTransitionRecord d)) : Type 0 where
    pub before : List (SubmissionTransitionRecord d)
    pub last : SubmissionTransitionRecord d
    pub after : List (SubmissionTransitionRecord d)
    pub parts : history ≡ before ++ last ∷ after
    pub same_cloid : last.cloid ≡ cloid
    pub same_state : last.state ≡ state
    pub others : All (λ e. e.cloid ≢ cloid) after

  -- The result of a submission of the asset is unknown.
  abbrev pub HasUnknown : String → List (Entry d) → Type 0
  HasUnknown asset m =
      (e : Entry d) × (nonce : ℕ) × (Among e m
        × (e.1.0.asset ≡ asset)
        × (e.1.1 ≡ unknown_result nonce))

  -- What restoring promises of a registry: its entries are within the positive capacity, under the cloids
  -- of their valid intents, and in the states that the history has last; and its blocked assets are those
  -- of the submissions whose result is unknown.
  pub record IsRestored (r : SubmissionRegistry d) : Type 0 where
    pub positive : 0 < r.maximum_entries
    pub bounded : size r.by_cloid ≤ r.maximum_entries
    pub keyed : All (IsKeyed d) r.by_cloid
    pub logged : All (λ e. IsLast e.0 e.1.1 r.history) r.by_cloid
    pub blocked :
        (asset : String) → (contains asset r.unknown_assets ≡ true) ↔ HasUnknown asset r.by_cloid

  last_state-none :
      (c : String) (h : List (SubmissionTransitionRecord d))
      → last_state d c h ≡ none
      → All (λ e. e.cloid ≢ c) h
  unfolding last_state
  last_state-none c [] e = tt
  last_state-none c (x ∷ h) e = elim (Option-cases (last_state d c h)) [
    | inl q ↦ (ground arith, last_state-none c h q)
    | inr (s, q) ↦ absurd (ground arith)
  ]

  last_state-IsLast :
      (c : String) (h : List (SubmissionTransitionRecord d)) {s : SubmissionState d}
      → last_state d c h ≡ some s
      → IsLast c s h
  unfolding last_state
  last_state-IsLast c [] e = absurd (cc)
  last_state-IsLast c (x ∷ h) {s} e = elim (Option-cases (last_state d c h)) [
    | inl q ↦ record {
      before = [];
      last = x;
      after = h;
      parts = refl;
      same_cloid = ground arith;
      same_state = ground arith;
      others = last_state-none c h q;
    }
    | inr (t, q) ↦
        let found : last_state d c h ≡ some s = ground arith in
        let rest = last_state-IsLast c h {s = s} found in
        record {
          before = x ∷ rest.before;
          last = rest.last;
          after = rest.after;
          parts = ap (λ l. x ∷ l) rest.parts;
          same_cloid = rest.same_cloid;
          same_state = rest.same_state;
          others = rest.others;
        }
  ]

  check_entries_sound : (m : List (Entry d)) → check_entries d m ≡ ok tt → All (IsKeyed d) m
  unfolding check_entries
  check_entries_sound [] h = tt
  check_entries_sound ((c, (i, s)) ∷ m) h = >>=-ok (validate d i) _ h (λ u valid h₀.
      fail_if-ok (not (same_text c i.cloid)) _ _ h₀
        (λ named h₁. (record { valid = valid; key = ground arith }, check_entries_sound m h₁)))

  unknown_nonce : (s : SubmissionState d) → is_unknown d s ≡ true → (n : ℕ) × (s ≡ unknown_result n)
  unknown_nonce (unknown_result n) h = (n, refl)
  unknown_nonce authorized h = absurd (cc)
  unknown_nonce authorized_not_submitted h = absurd (cc)
  unknown_nonce (nonce_allocated n) h = absurd (cc)
  unknown_nonce (signed n) h = absurd (cc)
  unknown_nonce (submission_started n) h = absurd (cc)
  unknown_nonce (acknowledged o) h = absurd (cc)
  unknown_nonce (partially_filled o v) h = absurd (cc)
  unknown_nonce (filled o v) h = absurd (cc)
  unknown_nonce (cancelled o v) h = absurd (cc)
  unknown_nonce (rejected why) h = absurd (cc)
  unknown_nonce reconciled_not_found h = absurd (cc)

  HasUnknown-tail :
      (asset : String) (m : List (Entry d)) (x : Entry d)
      → HasUnknown asset m
      → HasUnknown asset (x ∷ m)
  HasUnknown-tail asset m x (e, n, (a, q, k)) = (e, n, (inr a, q, k))

  expected_unknown_sound :
      (asset : String) (m : List (Entry d))
      → contains asset (expected_unknown d m) ≡ true
      → HasUnknown asset m
  unfolding expected_unknown
  expected_unknown_sound asset [] h = absurd (unfold get in cc)
  expected_unknown_sound asset ((c, (i, s)) ∷ m) h = elim (Bool-cases (is_unknown d s)) [
    | inr known ↦
        HasUnknown-tail asset m (c, (i, s))
          (expected_unknown_sound asset m (rw (known, expected_unknown) at h))
    | inl unknown ↦
        let k = rw (unknown, expected_unknown) at h in
        elim (String-discrete i.asset asset) [
          | yes same ↦ let (n, e) = unknown_nonce s unknown in ((c, (i, s)), n, (inl refl, same, e))
          | no other ↦
              let kept = get-insert-other i.asset asset tt (expected_unknown d m) other in
              HasUnknown-tail asset m (c, (i, s)) (expected_unknown_sound asset m (rw (kept) at k))
        ]
  ]

  expected_unknown_complete :
      (asset : String) (m : List (Entry d)) (e : Entry d) (n : ℕ)
      → Among e m
      → e.1.0.asset ≡ asset
      → e.1.1 ≡ unknown_result n
      → contains asset (expected_unknown d m) ≡ true
  unfolding expected_unknown
  expected_unknown_complete asset [] e n a q k = absurd a
  expected_unknown_complete asset ((c, (i, s)) ∷ m) e n (inl here) q k =
      let state : s ≡ unknown_result n = cc in
      let there : i.asset ≡ asset = cc in
      rw (state, there) (ap is_some (get-insert-same asset tt (expected_unknown d m)))
  expected_unknown_complete asset ((c, (i, s)) ∷ m) e n (inr later) q k =
      let rest = expected_unknown_complete asset m e n later q k in
      elim (Bool-cases (is_unknown d s)) [
        | inr known ↦ rw (known, expected_unknown) rest
        | inl unknown ↦
            rw (unknown, expected_unknown)
              (let i₁ = get-insert i.asset asset tt (expected_unknown d m) in ground arith)
      ]

  -- What restoring accepts is the registry that was read, with its entries within the positive capacity,
  -- under the cloids of their valid intents, each in the state of the last record of its cloid; and the
  -- assets that it blocks are exactly those of its submissions with an unknown result.
  pub check_restored-IsRestored :
      (r : SubmissionRegistry d) {x : SubmissionRegistry d}
      → check_restored d r ≡ ok x
      → (r ≡ x) × IsRestored r
  unfolding check_restored
  check_restored-IsRestored r {x} h =
      fail_if-ok (r.maximum_entries == 0 || ltb r.maximum_entries (size r.by_cloid)) _ _ h (λ e₀ h₀.
        >>=-ok (check_entries d r.by_cloid) _ h₀ (λ u e₁ h₁.
          fail_if-ok
            (not
              (ite (BTreeSet-discrete r.unknown_assets (expected_unknown d r.by_cloid)) true false))
            _ _ h₁
            (λ e₂ h₂. >>=-ok (check_history d r.history r.by_cloid) _ h₂ (λ v e₃ h₃.
              let same : r.unknown_assets ≡ expected_unknown d r.by_cloid = ground arith in
              (
                ok_injective h₃,
                record {
                  positive = ground arith;
                  bounded = ground arith;
                  keyed = check_entries_sound r.by_cloid e₁;
                  logged =
                      All-mono r.by_cloid (λ e. last_state-IsLast e.0 r.history)
                        (IsLogged-check_history r.history r.by_cloid e₃);
                  blocked = λ asset. (
                    λ c.
                        expected_unknown_sound asset r.by_cloid
                          (subst (λ b. contains asset b ≡ true) same c),
                    λ u.
                        subst (λ b. contains asset b ≡ true) (sym same)
                          (expected_unknown_complete asset r.by_cloid u.0 u.1 u.2.0 u.2.1 u.2.2),
                  );
                },
              )))))

  -- A submission that `confirm_not_found` resolves is not in the history, so what is then stored does not
  -- pass what restoring tests.
  pub confirm_not_found_unrestored :
      (c : String) (t required interval : ℕ) (r : SubmissionRegistry d) {x : SubmissionRegistry d}
      → IsConsistent d r
      → (confirm_not_found d c t required interval r).1 ≡ ok true
      → check_restored d (confirm_not_found d c t required interval r).0 ≢ ok x
  confirm_not_found_unrestored c t required interval r {x} h resolved restored =
      elim (Option-cases (get c r.by_cloid)) [
        | inl missing ↦ absurd (unfold confirm_not_found in unfold confirm in ground arith)
        | inr ((i, s), found) ↦
            let logged : last_state d c r.history ≡ some s =
              All-get (IsLogged d r.history) c (i, s) r.by_cloid h.logged found in
            let unknown : is_unknown d s ≡ true =
              unfold confirm_not_found in unfold confirm in ground arith in
            let after = (confirm_not_found d c t required interval r).0 in
            let there : get c after.by_cloid ≡ some (i, reconciled_not_found) =
              unfold confirm_not_found in
              unfold confirm in
              ground (arith, get-insert c c (i, reconciled_not_found) r.by_cloid) in
            let history : after.history ≡ r.history =
              unfold confirm_not_found in unfold confirm in ground arith in
            let passed : check_history d after.history after.by_cloid ≡ ok tt =
              unfold check_restored in ground arith in
            let again : last_state d c after.history ≡ some reconciled_not_found =
              All-get (IsLogged d after.history) c (i, reconciled_not_found) after.by_cloid
                (IsLogged-check_history after.history after.by_cloid passed) there in
            let differs : last_state d c r.history ≡ some reconciled_not_found =
              subst (λ k. last_state d c k ≡ some reconciled_not_found) history again in
            ground arith
      ]
