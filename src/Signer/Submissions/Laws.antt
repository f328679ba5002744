-- ===== src/Signer/Submissions/Laws.antt =====
-- What holds of the registry of submissions after every call.
use hyperliquid.Base.{
  ℕ, ◌≤◌, ◌<◌, ◌≡◌, ◌≢◌, true, false, some, List, [], ◌∷◌, ◌++◌, String, Result, ok, err, arith,
  inl, inr, Result-cases, Option-cases, Bool-cases, All, All-mono, refl, sym, ◌∙◌, subst,
  if◌then◌else◌,
}
use hyperliquid.BTreeMap.{
  string_ord, get, contains_key, size, get-insert, size-insert, All-insert, All-get,
  All-insert-other,
}
use hyperliquid.Decimal.{Decimal}
use hyperliquid.Signer.Intent.{
  SignerError, ApprovedExecutionIntent, validate, invalid_transition, unknown_cloid,
}
use hyperliquid.Signer.Submissions.{
  SubmissionState, SubmissionRegistry, SubmissionTransitionRecord, authorized, unknown_result,
  check_registration, register, write, is_refused, valid_transition, same_text, same_state,
}
use hyperliquid.Signer.Submissions.Transitions.{
  mark, transition_at, is_settled, is_unknown, permits_increase,
}
use hyperliquid.Signer.Submissions.Restore.{last_state}

module _ (d : Decimal) where
  abbrev pub Entry : Type 0
  Entry = String × (ApprovedExecutionIntent d × SubmissionState d)

  last_state-append :
      (c : String) (h : List (SubmissionTransitionRecord d)) (e : SubmissionTransitionRecord d)
      → last_state d c (h ++ e ∷ [])
        ≡ (if same_text e.cloid c then some e.state else last_state d c h)
  unfolding last_state
  last_state-append c [] e = ground arith
  last_state-append c (x ∷ h) e = ground (arith, last_state-append c h e)

  -- An entry stands under the cloid of its intent, which is valid.
  pub record IsKeyed (e : Entry) : Type 0 where
    pub valid : validate d e.1.0 ≡ ok tt
    pub key : e.1.0.cloid ≡ e.0

  -- Its state is the last that the history has for its cloid.
  abbrev pub IsLogged : List (SubmissionTransitionRecord d) → Entry → Type 0
  IsLogged h e = last_state d e.0 h ≡ some e.1.1

  pub record IsConsistent (r : SubmissionRegistry d) : Type 0 where
    pub bounded : size r.by_cloid ≤ r.maximum_entries
    pub keyed : All IsKeyed r.by_cloid
    pub logged : All (IsLogged r.history) r.by_cloid

  -- A write keeps what is logged.
  write-IsLogged :
      (c : String) (i : ApprovedExecutionIntent d) (s : SubmissionState d) (t : ℕ)
      (r : SubmissionRegistry d)
      → All (IsLogged r.history) r.by_cloid
      → All (IsLogged (write d c i s t r).history) (write d c i s t r).by_cloid
  unfolding write
  write-IsLogged c i s t r h =
      All-insert-other (IsLogged (write d c i s t r).history) c (i, s) r.by_cloid
        (let q =
            last_state-append c r.history (record { cloid = c; state = s; recorded_at_ms = t }) in
          ground arith)
        (All-mono r.by_cloid
          (λ e k ne.
            let q =
              last_state-append e.0 r.history
                (record { cloid = c; state = s; recorded_at_ms = t }) in
            ground arith)
          h)

  check_registration_valid :
      (i : ApprovedExecutionIntent d) (r : SubmissionRegistry d)
      → check_registration d i r ≡ ok tt
      → (validate d i ≡ ok tt)
        × (contains_key i.cloid r.by_cloid ≡ false)
        × (size r.by_cloid < r.maximum_entries)
        × (i.reduce_only ≡ false → permits_increase d i.asset r ≡ true)
  unfolding check_registration permits_increase
  check_registration_valid i r h = elim (Result-cases (validate d i)) [
    | inl (u, e) ↦ (e, ground arith, ground arith, λ q. ground arith)
    | inr (x, e) ↦ absurd (ground arith)
  ]

  -- The outcome of `register`, with the tests done or not.
  register_cases :
      (P : SubmissionRegistry d × Result SignerError (Unit {0}) → Type 0)
      (i : ApprovedExecutionIntent d) (r : SubmissionRegistry d)
      → (check_registration d i r ≡ ok tt → P (write d i.cloid i authorized 0 r, ok tt))
      → ((e : SignerError) → P (r, err e))
      → P (register d i r)
  unfolding register
  register_cases P i r f g = elim (Result-cases (check_registration d i r)) [
    | inl (tt, e) ↦ rw (e, register) (f e)
    | inr (x, e) ↦ rw (e, register) (g x)
  ]

  -- A call of `register` keeps the entries within the capacity, each under the cloid of its intent, which
  -- is valid, and with the state that the history has last for the cloid.
  pub register-IsConsistent :
      (i : ApprovedExecutionIntent d) (r : SubmissionRegistry d)
      → IsConsistent r
      → IsConsistent (register d i r).0
  register-IsConsistent i r h =
      register_cases (λ x. IsConsistent x.0) i r
        (λ e.
          let checked = check_registration_valid i r e in
          unfold write in
          record {
            bounded = ground (arith, size-insert i.cloid (i, authorized) r.by_cloid);
            keyed =
                All-insert IsKeyed i.cloid (i, authorized) r.by_cloid
                  (record { valid = checked.0; key = refl }) h.keyed;
            logged = write-IsLogged i.cloid i authorized 0 r h.logged;
          })
        (λ e. h)

  -- The outcome of `transition_at` on a cloid that is there.
  transition_at_cases :
      (P : SubmissionRegistry d × Result SignerError (Unit {0}) → Type 0) (c : String)
      (s : SubmissionState d) (t : ℕ) (r : SubmissionRegistry d)
      → ((e : Result SignerError (Unit {0})) → P (r, e))
      → ((i : ApprovedExecutionIntent d) (current : SubmissionState d)
          → get c r.by_cloid ≡ some (i, current)
          → is_refused d c current s ≡ false
          → P (write d c i s t (mark d c i.asset s r), ok tt))
      → P (transition_at d c s t r)
  unfolding transition_at
  transition_at_cases P c s t r f g = elim (Option-cases (get c r.by_cloid)) [
    | inl e ↦ rw (e, transition_at) (f (err unknown_cloid))
    | inr ((i, current), e) ↦ elim (Bool-cases (same_state d current s)) [
      | inl same ↦ rw (e, same, transition_at) (f (ok tt))
      | inr new ↦ elim (Bool-cases (is_refused d c current s)) [
        | inl refused ↦ rw (e, new, refused, transition_at) (f (err invalid_transition))
        | inr taken ↦ rw (e, new, taken, transition_at) (g i current e taken)
      ]
    ]
  ]

  -- Marking changes neither the entries nor the history.
  mark-IsConsistent :
      (c a : String) (s : SubmissionState d) (r : SubmissionRegistry d)
      → IsConsistent r
      → IsConsistent (mark d c a s r)
  unfolding mark
  mark-IsConsistent c a s r h = elim (Bool-cases (is_unknown d s)) [
    | inl e ↦ rw (e, mark) (record { bounded = h.bounded; keyed = h.keyed; logged = h.logged })
    | inr e ↦ elim (Bool-cases (is_settled d s)) [
      | inl q ↦ rw (e, q, mark) (record { bounded = h.bounded; keyed = h.keyed; logged = h.logged })
      | inr q ↦ rw (e, q, mark) h
    ]
  ]

  mark-by_cloid :
      (c a : String) (s : SubmissionState d) (r : SubmissionRegistry d)
      → (mark d c a s r).by_cloid ≡ r.by_cloid
  unfolding mark
  mark-by_cloid c a s r = ground arith

  write-IsConsistent :
      (c : String) (i : ApprovedExecutionIntent d) (s : SubmissionState d) (t : ℕ)
      (r : SubmissionRegistry d)
      → contains_key c r.by_cloid ≡ true
      → IsKeyed (c, (i, s))
      → IsConsistent r
      → IsConsistent (write d c i s t r)
  unfolding write
  write-IsConsistent c i s t r there k h = record {
    bounded = ground (arith, size-insert c (i, s) r.by_cloid, h.bounded);
    keyed = All-insert IsKeyed c (i, s) r.by_cloid k h.keyed;
    logged = write-IsLogged c i s t r h.logged;
  }

  -- A call of `transition_at` keeps the entries within the capacity, each under the cloid of its intent,
  -- which is valid, and with the state that the history has last for the cloid.
  pub transition_at-IsConsistent :
      (c : String) (s : SubmissionState d) (t : ℕ) (r : SubmissionRegistry d)
      → IsConsistent r
      → IsConsistent (transition_at d c s t r).0
  transition_at-IsConsistent c s t r h =
      transition_at_cases (λ x. IsConsistent x.0) c s t r (λ e. h)
        (λ i current found taken.
          let k = All-get IsKeyed c (i, current) r.by_cloid h.keyed found in
          write-IsConsistent c i s t (mark d c i.asset s r)
            (ground (arith, mark-by_cloid c i.asset s r)) (record { valid = k.valid; key = k.key })
            (mark-IsConsistent c i.asset s r h))

  -- A filled, cancelled, rejected or not found submission never changes again.
  transition_at_settled :
      (c : String) (s : SubmissionState d) (t : ℕ) (r : SubmissionRegistry d)
      {i : ApprovedExecutionIntent d} {current : SubmissionState d}
      → get c r.by_cloid ≡ some (i, current)
      → is_settled d current ≡ true
      → (transition_at d c s t r).0 ≡ r
  transition_at_settled c s t r {i} {current} found settled =
      transition_at_cases (λ x. x.0 ≡ r) c s t r (λ e. refl)
        (λ j now here taken.
          let same : now ≡ current = ground arith in
          absurd (settled_refused c now s (rw same settled) taken))
    where
      settled_refused :
          (c : String) (now s : SubmissionState d)
          → is_settled d now ≡ true
          → is_refused d c now s ≢ false
      settled_refused c now s h = unfold is_refused in unfold valid_transition in ground arith

  -- When `transition_at` has made the result of a submission unknown that was not, its asset permits no
  -- increase, and an intent for the asset that may increase a position is not registered.
  pub unknown_result_blocks :
      (c : String) (n t : ℕ) (r : SubmissionRegistry d) (j : ApprovedExecutionIntent d)
      {i : ApprovedExecutionIntent d} {current : SubmissionState d}
      → get c r.by_cloid ≡ some (i, current)
      → same_state d current (unknown_result n) ≡ false
      → (transition_at d c (unknown_result n) t r).1 ≡ ok tt
      → j.asset ≡ i.asset
      → j.reduce_only ≡ false
      → let after = (transition_at d c (unknown_result n) t r).0 in
        (permits_increase d i.asset after ≡ false) × ((register d j after).0 ≡ after)
  unknown_result_blocks c n t r j {i} {current} found new done same increases = (
    blocked,
    register_cases (λ x. x.0 ≡ after) j after
        (λ e.
          let allowed = (check_registration_valid j after e).3 increases in
          let free = subst (λ a. permits_increase d a after ≡ true) same allowed in
          absurd (let b = blocked in let q : true ≡ false = sym free ∙ b in cc))
        (λ e. refl),
  )
    where
      after : SubmissionRegistry d
      after = (transition_at d c (unknown_result n) t r).0

      blocked : permits_increase d i.asset after ≡ false
      blocked =
          unfold permits_increase in
          unfold transition_at in
          unfold write in
          unfold mark in ground (arith, get-insert i.asset i.asset tt r.unknown_assets)
