-- ===== src/Confidence/Rungs.antt =====
-- The levels of confidence are distinct, and which of them each operation gives.
use native.Mathlib.Decide.{ℕ_discrete}
use mathlib.Core.Logic.{if_pos, if_neg}
use hyperliquid.Base.{
  ℕ, zero, suc, ◌≤◌, ◌<◌, ◌≡◌, ◌≢◌, true, false, not, Option, none, some, List, [], ◌∷◌, map, refl,
  sym, ◌∙◌, subst, arith, ltb, ite, inl, inr, Bool-cases, Option-cases, length, if◌then◌else◌,
}
use hyperliquid.Decimal.{Decimal, is_zero}
use hyperliquid.Confidence.{
  levels, nth, level, position, confidence_index, state_for_confidence, is_contributing_state,
  CandidateState, decayed,
}

-- The levels in thousandths.
abbrev thousandths : List ℕ
thousandths = 0 ∷ 25 ∷ 50 ∷ 100 ∷ 250 ∷ 500 ∷ 1000 ∷ []

abbrev position_ℕ : List ℕ → ℕ → Option ℕ
position_ℕ [] m = none
position_ℕ (n ∷ ns) m =
    let rest = position_ℕ ns m in
    ite (ℕ_discrete n m) (some 0) (elim rest [ none ↦ none | some i ↦ some (suc i) ])

abbrev shifted : Option ℕ → Option ℕ
shifted none = none
shifted (some i) = some (suc i)

module _ (d : Decimal) where
  abbrev part : ℕ → d.Value
  part m = d.from_parts m 3

  part-lt : (m n : ℕ) → m < n → part m ≢ part n
  part-lt m n h e =
      let below = d.from_parts_lt m n h in
      let same : d.leb (part n) (part m) ≡ true = rw (e) (d.leb_refl (part n)) in absurd (cc)

  part_injective : (m n : ℕ) → m ≢ n → part m ≢ part n
  part_injective m n h e = elim (Bool-cases (ltb m n)) [
    | inl below ↦ part-lt m n (ground arith) e
    | inr above ↦ part-lt n m (ground arith) (sym e)
  ]

  position-map : (ms : List ℕ) (m : ℕ) → position d (map part ms) (part m) ≡ position_ℕ ms m
  unfolding position
  position-map [] m = refl
  position-map (n ∷ ns) m = elim (ℕ_discrete n m) [
    | yes e ↦
        rw (e) (if_pos (d.dec (part m) (part m)) refl _ _ ∙ sym (if_pos (ℕ_discrete m m) refl _ _))
    | no h ↦
        if_neg (d.dec (part n) (part m)) (part_injective n m h) _ _
        ∙ rw (position-map ns m) (sym (if_neg (ℕ_discrete n m) h _ _))
  ]

  abbrev thousandth : ℕ → ℕ
  thousandth zero = 0
  thousandth (suc zero) = 25
  thousandth (suc (suc zero)) = 50
  thousandth (suc (suc (suc zero))) = 100
  thousandth (suc (suc (suc (suc zero)))) = 250
  thousandth (suc (suc (suc (suc (suc zero))))) = 500
  thousandth (suc (suc (suc (suc (suc (suc n)))))) = 1000

  one-part : d.one ≡ part 1000
  one-part =
      sym d.from_parts_one
      ∙ sym (d.from_parts_scale 1 0)
      ∙ sym (d.from_parts_scale 10 1)
      ∙ sym (d.from_parts_scale 100 2)

  levels-map : levels d ≡ map part thousandths
  levels-map =
      let scale = d.from_parts_scale in
      rw
        (
          sym (d.from_parts_zero 3),
          sym (scale 5 2),
          sym (scale 10 2),
          sym (scale 25 2),
          sym (scale 50 2),
          one-part,
        )
        refl

  level-part : (i : ℕ) → level d i ≡ part (thousandth i)
  level-part zero = sym (d.from_parts_zero 3)
  level-part (suc zero) = refl
  level-part (suc (suc zero)) = sym (d.from_parts_scale 5 2)
  level-part (suc (suc (suc zero))) = sym (d.from_parts_scale 10 2)
  level-part (suc (suc (suc (suc zero)))) = sym (d.from_parts_scale 25 2)
  level-part (suc (suc (suc (suc (suc zero))))) = sym (d.from_parts_scale 50 2)
  level-part (suc (suc (suc (suc (suc (suc zero)))))) = one-part
  level-part (suc (suc (suc (suc (suc (suc (suc n))))))) = one-part

  position-thousandth : (i : ℕ) → i ≤ 6 → position_ℕ thousandths (thousandth i) ≡ some i
  unfolding ℕ_discrete
  position-thousandth zero h = refl
  position-thousandth (suc zero) h = refl
  position-thousandth (suc (suc zero)) h = refl
  position-thousandth (suc (suc (suc zero))) h = refl
  position-thousandth (suc (suc (suc (suc zero)))) h = refl
  position-thousandth (suc (suc (suc (suc (suc zero))))) h = refl
  position-thousandth (suc (suc (suc (suc (suc (suc zero)))))) h = refl
  position-thousandth (suc (suc (suc (suc (suc (suc (suc n))))))) h = absurd (omega arith)

  thousandth-pos : (i : ℕ) → 0 < thousandth (suc i)
  thousandth-pos zero = omega arith
  thousandth-pos (suc zero) = omega arith
  thousandth-pos (suc (suc zero)) = omega arith
  thousandth-pos (suc (suc (suc zero))) = omega arith
  thousandth-pos (suc (suc (suc (suc zero)))) = omega arith
  thousandth-pos (suc (suc (suc (suc (suc n))))) = omega arith

  -- A level stands at its own index.
  pub confidence_index-level : (i : ℕ) → i ≤ 6 → confidence_index d (level d i) ≡ some i
  confidence_index-level i h =
      rw (level-part i, levels-map, position-map thousandths (thousandth i))
        (position-thousandth i h)

  -- All but the first are positive.
  leb-level : (i : ℕ) → d.leb (level d (suc i)) d.zero ≡ false
  leb-level i =
      rw (level-part (suc i), sym (d.from_parts_zero 3))
        (d.from_parts_lt 0 (thousandth (suc i)) (thousandth-pos i))

  is_zero-level : (i : ℕ) → is_zero d (level d (suc i)) ≡ false
  is_zero-level i =
      if_neg (d.dec (level d (suc i)) d.zero)
        (λ e.
          let below = leb-level i in
          let same : d.leb (level d (suc i)) d.zero ≡ true = rw (e) (d.leb_refl d.zero) in
          absurd (cc))
        true false

  zero-not_one : d.zero ≢ d.one
  zero-not_one e = part-lt 0 1000 (omega arith) (d.from_parts_zero 3 ∙ e ∙ one-part)

  state-zero : is_contributing_state d (state_for_confidence d d.zero) ≡ false
  state-zero =
      let n = if_neg (d.dec d.zero d.one) zero-not_one true false in
      let z = if_pos (d.dec d.zero d.zero) refl true false in rw (n, z) refl

  state-suc : (i : ℕ) → is_contributing_state d (state_for_confidence d (level d (suc i))) ≡ true
  state-suc i = elim (d.dec (level d (suc i)) d.one) [
    | yes e ↦ rw (if_pos (d.dec (level d (suc i)) d.one) e true false) refl
    | no n ↦ rw (if_neg (d.dec (level d (suc i)) d.one) n true false, is_zero-level i) refl
  ]

  pub level_positive : (i : ℕ) → not (d.leb (level d i) d.zero) ≡ ltb 0 i
  level_positive zero = rw (d.leb_refl d.zero) (refl)
  level_positive (suc i) = rw (leb-level i) (ground arith)

  -- The state that a level is given, and the one that it is given when it is reached from above.
  pub state-level : (i : ℕ) → is_contributing_state d (state_for_confidence d (level d i)) ≡ ltb 0 i
  state-level zero = state-zero
  state-level (suc i) = state-suc i ∙ ground arith

  pub reduced_state-level :
      (i : ℕ)
      → is_contributing_state d
          (if is_zero d (level d i) then CandidateState.quarantined else decayed)
        ≡ ltb 0 i
  reduced_state-level zero = rw (if_pos (d.dec d.zero d.zero) refl true false) refl
  reduced_state-level (suc i) = rw (is_zero-level i) (ground arith)

  position-nth :
      (ws : List d.Value) (v : d.Value) (i : ℕ)
      → position d ws v ≡ some i
      → (nth d ws i ≡ v) × (i < length ws)
  unfolding position
  position-nth [] v i h = absurd (cc)
  position-nth (w ∷ ws) v i h = elim (d.dec w v) [
    | yes e ↦
        let first = if_pos {C = Option ℕ} (d.dec w v) e (some 0) (shifted (position d ws v)) in
        let same : 0 ≡ i = cc in
        subst (λ j. (nth d (w ∷ ws) j ≡ v) × (j < length (w ∷ ws))) same (e, omega arith)
    | no n ↦
        let later = if_neg {C = Option ℕ} (d.dec w v) n (some 0) (shifted (position d ws v)) in
        elim (Option-cases (position d ws v)) [
          | inl q ↦ let k = rw (q) at later in absurd (cc)
          | inr (j, q) ↦
              let k = rw (q) at later in
              let same : suc j ≡ i = cc in
              let found = position-nth ws v j q in
              subst (λ j. (nth d (w ∷ ws) j ≡ v) × (j < length (w ∷ ws))) same
                (found.0, omega (arith, found.1))
        ]
  ]

  -- A value with an index is the level there, above the lowest if it is not zero.
  pub confidence_index-known :
      (v : d.Value) (i : ℕ)
      → confidence_index d v ≡ some i
      → is_zero d v ≡ false
      → (v ≡ level d i) × (i ≤ 6) × (1 ≤ i)
  confidence_index-known v zero h n =
      let found = position-nth (levels d) v zero h in
      let zero_too = if_pos (d.dec v d.zero) (sym found.0) true false in absurd (cc)
  confidence_index-known v (suc i) h n =
      let found = position-nth (levels d) v (suc i) h in
      (sym found.0, omega (arith, found.1), omega arith)
