-- ===== src/Consensus/Bounds.antt =====
-- The consensus lies between -1 and 1, and counts each candidate that qualifies once.
use mathlib.Core.Logic.{if_pos, if_neg}
use hyperliquid.Base.{
  ℕ, ◌≡◌, ◌==◌, true, not, ◌||◌, Option, none, some, List, [], ◌∷◌, String, ok, inl, inr, refl, sym,
  ap, ◌∙◌, subst, arith, ite, Bool-cases, Option-cases, if◌then◌else◌, fail_if-ok, ok_or-ok,
  ok_injective, >>=-ok,
}
use hyperliquid.BTreeMap.{string_ord, BTreeMap, get, insert, contains_key, get-insert, values}
use hyperliquid.Float.{Float, clamp}
use hyperliquid.Consensus.{
  ConsensusInput, ConsensusResult, is_skipped, contribution_of, check_input, add_contribution,
  add_contributions, sum_finite, conclude, bounded_additive_consensus,
}

abbrev or_else : {A : Type 0} → Option A → Option A → Option A
or_else none o = o
or_else (some a) o = some a

or_else-none : {A : Type 0} (o : Option A) → o ≡ or_else o none
or_else-none none = refl
or_else-none (some a) = refl

or_else-insert :
    {V : Type 0} (k id : String) (v : V) (m : BTreeMap String V) (o : Option V)
    → get k m ≡ none
    → or_else (get id (insert k v m)) o ≡ or_else (get id m) (ite (string_ord.dec k id) (some v) o)
or_else-insert k id v m o h = elim (string_ord.dec k id) [
  | yes e ↦
      let missing : get id m ≡ none = subst (λ j. get j m ≡ none) e h in
      rw
        (
          get-insert k id v m,
          if_pos (string_ord.dec k id) e (some v) (get id m),
          missing,
          if_pos (string_ord.dec k id) e (some v) o,
        )
        refl
  | no n ↦
      rw
        (
          get-insert k id v m,
          if_neg (string_ord.dec k id) n (some v) (get id m),
          if_neg (string_ord.dec k id) n (some v) o,
        )
        refl
]

module _ (f : Float) where
  -- The contribution of the first input of the candidate that is not skipped.
  unfoldable pub find_contribution : f.Value → ℕ → String → List (ConsensusInput f) → Option f.Value
  find_contribution max_exposure max_age id [] = none
  find_contribution max_exposure max_age id (input ∷ inputs) =
      let rest = find_contribution max_exposure max_age id inputs in
      if is_skipped f max_age input
      then rest
      else ite (string_ord.dec input.candidate_id id) (some (contribution_of f max_exposure input))
          rest

  add_contribution-ok :
      (max_exposure : f.Value) (input : ConsensusInput f) (m : BTreeMap String f.Value)
      {next : BTreeMap String f.Value}
      → add_contribution f max_exposure input m ≡ ok next
      → (get input.candidate_id m ≡ none)
        × (insert input.candidate_id (contribution_of f max_exposure input) m ≡ next)
  unfolding add_contribution
  add_contribution-ok max_exposure input m h =
      fail_if-ok (contains_key input.candidate_id m) _ _ h (λ e₀ h₀.
        fail_if-ok (not (f.is_finite (contribution_of f max_exposure input))) _ _ h₀ (λ e₁ h₁. (
          elim (Option-cases (get input.candidate_id m)) [
            | inl e ↦ e
            | inr (v, e) ↦ let k = rw (e) at e₀ in absurd (cc)
          ],
          ok_injective h₁,
        )))

  add_contributions-find :
      (max_exposure : f.Value) (max_age : ℕ) (inputs : List (ConsensusInput f))
      (m : BTreeMap String f.Value) {contributions : BTreeMap String f.Value} (id : String)
      → add_contributions f max_exposure max_age inputs m ≡ ok contributions
      → get id contributions ≡ or_else (get id m) (find_contribution max_exposure max_age id inputs)
  unfolding add_contributions find_contribution
  add_contributions-find max_exposure max_age [] m id h =
      ap (get id) (sym (ok_injective h)) ∙ or_else-none (get id m)
  add_contributions-find max_exposure max_age (input ∷ inputs) m id h =
      >>=-ok (check_input f input) _ h (λ u e₀ h₀. elim (Bool-cases (is_skipped f max_age input)) [
        | inl skip ↦
            let k = rw (skip) at h₀ in
            rw (skip) (add_contributions-find max_exposure max_age inputs m id k)
        | inr taken ↦
            let k = rw (taken) at h₀ in
            >>=-ok (add_contribution f max_exposure input m) _ k (λ next e₁ h₁.
              let added = add_contribution-ok max_exposure input m e₁ in
              let later = add_contributions-find max_exposure max_age inputs next id h₁ in
              rw (taken) (
                later
                ∙ ap (λ n. or_else (get id n) (find_contribution max_exposure max_age id inputs))
                    (sym added.1)
                ∙ or_else-insert input.candidate_id id (contribution_of f max_exposure input) m
                    (find_contribution max_exposure max_age id inputs) added.0))
      ])

  clamp-bounds :
      (v : f.Value)
      → f.is_finite v ≡ true
      → let e = clamp f v (f.neg (f.of_ℕ 1)) (f.of_ℕ 1) in
        (f.leb (f.neg (f.of_ℕ 1)) e ≡ true) × (f.leb e (f.of_ℕ 1) ≡ true)
  clamp-bounds v h =
      let one = f.finite-of_ℕ 1 (omega arith) in
      let minus = f.finite-neg (f.of_ℕ 1) one in
      let span =
        f.leb_trans (f.neg (f.of_ℕ 1)) (f.of_ℕ 0) (f.of_ℕ 1) (f.leb-neg 1 (omega arith))
          (f.leb-of_ℕ 0 1 (omega arith) (omega arith)) in
      ground (
        arith,
        span,
        f.leb_refl _ one,
        f.leb_refl _ minus,
        f.leb-lt (f.neg (f.of_ℕ 1)) v minus h,
        f.leb-lt v (f.of_ℕ 1) h one,
      )

  sum_finite-finite :
      (vs : List f.Value) (sum : f.Value) {v : f.Value}
      → f.is_finite sum ≡ true
      → sum_finite f sum vs ≡ some v
      → f.is_finite v ≡ true
  unfolding sum_finite
  sum_finite-finite [] sum h e = ground arith
  sum_finite-finite (v ∷ vs) sum h e = elim (Bool-cases (f.is_finite (f.add sum v))) [
    | inl n ↦ sum_finite-finite vs (f.add sum v) n (let k = rw (n) at e in k)
    | inr n ↦ let k = rw (n) at e in absurd (cc)
  ]

  -- The exposure is within one of zero; the contribution that a candidate has is that of its input.
  pub record IsConsensus (inputs : List (ConsensusInput f)) (max_exposure : f.Value) (max_age : ℕ)
      (r : ConsensusResult f) : Type 0 where
    pub at_least : f.leb (f.neg (f.of_ℕ 1)) r.exposure ≡ true
    pub at_most : f.leb r.exposure (f.of_ℕ 1) ≡ true
    pub contributed :
        (id : String)
        → get id r.contribution_by_candidate ≡ find_contribution max_exposure max_age id inputs

  conclude-bounds :
      (m : BTreeMap String f.Value) {r : ConsensusResult f}
      → conclude f m ≡ ok r
      → (f.leb (f.neg (f.of_ℕ 1)) r.exposure ≡ true)
        × (f.leb r.exposure (f.of_ℕ 1) ≡ true)
        × (r.contribution_by_candidate ≡ m)
  unfolding conclude
  conclude-bounds [] h =
      subst
        (λ r.
          (f.leb (f.neg (f.of_ℕ 1)) r.exposure ≡ true)
          × (f.leb r.exposure (f.of_ℕ 1) ≡ true)
          × (r.contribution_by_candidate ≡ []))
        (ok_injective h)
        (f.leb-neg 1 (omega arith), f.leb-of_ℕ 0 1 (omega arith) (omega arith), refl)
  conclude-bounds (e ∷ m) h =
      ok_or-ok (sum_finite f (f.of_ℕ 0) (values (e ∷ m))) "consensus exposure is non-finite" _ h
        (λ sum e₀ h₀.
          let bounds =
            clamp-bounds sum
              (sum_finite-finite (values (e ∷ m)) (f.of_ℕ 0) (f.finite-of_ℕ 0 (omega arith)) e₀) in
          subst
            (λ r.
              (f.leb (f.neg (f.of_ℕ 1)) r.exposure ≡ true)
              × (f.leb r.exposure (f.of_ℕ 1) ≡ true)
              × (r.contribution_by_candidate ≡ e ∷ m))
            (ok_injective h₀) (bounds.0, bounds.1, refl))

  -- A consensus lies between -1 and 1. The contribution that it names for a candidate is that of the
  -- first input of the candidate that is not skipped, and it names none for any other candidate.
  pub bounded_additive_consensus-IsConsensus :
      (inputs : List (ConsensusInput f)) (max_exposure : f.Value) (max_age : ℕ)
      {r : ConsensusResult f}
      → bounded_additive_consensus f inputs max_exposure max_age ≡ ok r
      → IsConsensus inputs max_exposure max_age r
  unfolding bounded_additive_consensus get
  bounded_additive_consensus-IsConsensus inputs max_exposure max_age {r} h =
      fail_if-ok (not (f.is_finite max_exposure) || f.lt max_exposure (f.of_ℕ 0)) _ _ h (λ e₀ h₀.
        fail_if-ok (max_age == 0) _ _ h₀ (λ e₁ h₁.
          >>=-ok (add_contributions f max_exposure max_age inputs []) _ h₁ (λ m e₂ h₂.
            let parts = conclude-bounds m h₂ in
            record {
              at_least = parts.0;
              at_most = parts.1;
              contributed = λ id.
                  ap (get id) parts.2 ∙ add_contributions-find max_exposure max_age inputs [] id e₂;
            })))
