-- ===== src/Ledger/Signs.antt =====
-- The arithmetic of signed quantities behind the ledger's branches.
use hyperliquid.Base.{
  ◌≡◌, ◌≢◌, true, false, some, arith, inl, inr, Bool-cases, refl, sym, ap, ◌∙◌, subst,
  if◌then◌else◌,
}
use mathlib.Core.Option
use hyperliquid.Decimal.{Decimal}
use hyperliquid.Ledger.{same_sign}

module _ (d : Decimal) where
  pub neg_ne_zero : (a : d.Value) → a ≢ d.zero → d.neg a ≢ d.zero
  neg_ne_zero a n e = n (sym (d.neg-neg a) ∙ ap d.neg e ∙ d.neg-zero)

  nonpos : (a : d.Value) → d.leb d.zero a ≡ false → d.leb a d.zero ≡ true
  nonpos a e = elim (d.leb_total d.zero a) [ inl t ↦ cc | inr t ↦ t ]

  -- The size of a quantity, by its sign.
  pub abs_lem : (a : d.Value) → a ≢ d.zero → d.abs a ≡ (if d.is_sign_positive a then a else d.neg a)
  abs_lem a n = rw (d.sign_lem a n) (elim (Bool-cases (d.leb d.zero a)) [
    | inl e ↦ rw (e) (d.abs_nonneg a e)
    | inr e ↦ rw (e) (d.abs_nonpos a (nonpos a e))
  ])

  add_positive :
      (a b : d.Value) {c : d.Value}
      → a ≢ d.zero
      → d.leb d.zero a ≡ true
      → d.leb d.zero b ≡ true
      → d.checked_add a b ≡ some c
      → c ≢ d.zero
  add_positive a b n p q s z =
      n (d.leb_antisymm a d.zero (subst (λ i. d.leb a i ≡ true) z (d.add_nonneg a b q s)) p)

  neg_nonneg : (a : d.Value) → d.leb a d.zero ≡ true → d.leb d.zero (d.neg a) ≡ true
  neg_nonneg a e = subst (λ i. d.leb i (d.neg a) ≡ true) d.neg-zero (d.leb-neg a d.zero e)

  -- Two quantities of one sign do not cancel.
  pub add_same_ne_zero :
      (a b : d.Value) {c : d.Value}
      → a ≢ d.zero
      → b ≢ d.zero
      → same_sign d (d.is_sign_positive a) (d.is_sign_positive b) ≡ true
      → d.checked_add a b ≡ some c
      → c ≢ d.zero
  add_same_ne_zero a b {c} n m same s =
      let signs = rw (d.sign_lem a n, d.sign_lem b m) at same in
      elim (Bool-cases (d.leb d.zero a)) [
        | inl p ↦ add_positive a b n p (ground arith) s
        | inr p ↦
            let q : d.leb d.zero b ≡ false = ground arith in
            let sum : d.checked_add (d.neg a) (d.neg b) ≡ some (d.neg c) =
              d.neg_add a b ∙ ap (Option.map d.neg) s in
            λ z.
              add_positive (d.neg a) (d.neg b) (neg_ne_zero a n) (neg_nonneg a (nonpos a p))
                (neg_nonneg b (nonpos b q)) sum (ap d.neg z ∙ d.neg-zero)
      ]

  -- What a close takes from a position of the other sign.
  pub close_part :
      (a b : d.Value)
      → a ≢ d.zero
      → b ≢ d.zero
      → same_sign d (d.is_sign_positive a) (d.is_sign_positive b) ≡ false
      → (if d.is_sign_positive a then d.neg (d.abs b) else d.abs b) ≡ b
  close_part a b n m other = rw (abs_lem b m) (elim (Bool-cases (d.is_sign_positive a)) [
    | inl p ↦ let q : d.is_sign_positive b ≡ false = ground arith in rw (p, q) (d.neg-neg b)
    | inr p ↦ let q : d.is_sign_positive b ≡ true = ground arith in rw (p, q) refl
  ])

  pub close_all :
      (a : d.Value)
      → a ≢ d.zero
      → (if d.is_sign_positive a then d.neg (d.abs a) else d.abs a) ≡ d.neg a
  close_all a n =
      rw (abs_lem a n)
        (elim (Bool-cases (d.is_sign_positive a)) [ inl p ↦ rw (p) refl | inr p ↦ rw (p) refl ])

  -- What is left of a fill that flips a position is the position that results.
  pub flip_rest :
      (a b : d.Value) {r c : d.Value}
      → a ≢ d.zero
      → b ≢ d.zero
      → same_sign d (d.is_sign_positive a) (d.is_sign_positive b) ≡ false
      → d.checked_sub (d.abs b) (d.abs a) ≡ some r
      → d.checked_add a b ≡ some c
      → (if d.is_sign_positive b then r else d.neg r) ≡ c
  flip_rest a b {r} {c} n m other rest sum =
      let less = sym (d.sub-add (d.abs b) (d.abs a)) ∙ rest in
      let sizes = rw (abs_lem a n, abs_lem b m) at less in
      elim (Bool-cases (d.is_sign_positive b)) [
        | inl p ↦
            let q : d.is_sign_positive a ≡ false = ground arith in
            let r_sum : d.checked_add b a ≡ some r = rw (p, q, d.neg-neg a) at sizes in
            rw (p) (let e = sym r_sum ∙ d.add_comm b a ∙ sum in cc)
        | inr p ↦
            let q : d.is_sign_positive a ≡ true = ground arith in
            let r_sum : d.checked_add (d.neg b) (d.neg a) ≡ some r = rw (p, q) at sizes in
            let e : some r ≡ some (d.neg c) =
              sym r_sum ∙ d.neg_add b a ∙ ap (Option.map d.neg) (d.add_comm b a ∙ sum) in
            let f : r ≡ d.neg c = cc in rw (p, f) (d.neg-neg c)
      ]
