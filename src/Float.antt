-- ===== src/Float.antt =====
-- What the program uses of `f64`: tests and arithmetic as IEEE 754 documents them, on values of which
-- some are not finite. `fixed_float` is one instance, which shows that the laws can be met.
use hyperliquid.Base.{
  ℕ, ◌*◌, ◌^◌, ◌≤◌, ◌<◌, ◌≡◌, none, some, Bool, true, not, ◌&&◌, if◌then◌else◌, refl, arith,
}
use hyperliquid.Decimal.{fixed, pos, ℤ}

pub record Float : Type 1 where
  pub Value : Type 0
  -- `<`, `<=`, `==`, which are false where a side is not a number.
  pub lt : Value → Value → Bool
  pub leb : Value → Value → Bool
  pub eq : Value → Value → Bool
  pub is_finite : Value → Bool
  -- A literal that is a whole number.
  pub of_ℕ : ℕ → Value
  pub neg : Value → Value
  pub add : Value → Value → Value
  pub mul : Value → Value → Value
  pub finite-of_ℕ : (n : ℕ) → n < 2 ^ 53 → is_finite (of_ℕ n) ≡ true
  pub finite-neg : (a : Value) → is_finite a ≡ true → is_finite (neg a) ≡ true
  -- Finite values are ordered, whole numbers below 2 ^ 53 as those.
  pub leb-lt : (a b : Value) → is_finite a ≡ true → is_finite b ≡ true → leb a b ≡ not (lt b a)
  pub leb_trans : (a b c : Value) → leb a b ≡ true → leb b c ≡ true → leb a c ≡ true
  pub leb-of_ℕ : (m n : ℕ) → m ≤ n → n < 2 ^ 53 → leb (of_ℕ m) (of_ℕ n) ≡ true
  pub leb-neg : (n : ℕ) → n < 2 ^ 53 → leb (neg (of_ℕ n)) (of_ℕ 0) ≡ true
  pub leb_refl : (a : Value) → is_finite a ≡ true → leb a a ≡ true

module _ (f : Float) where
  -- `clamp`
  abbrev pub clamp : f.Value → f.Value → f.Value → f.Value
  clamp v low high = if f.lt v low then low else if f.lt high v then high else v

-- Numbers of eight decimal places, all of them finite.
abbrev pub fixed_float : Float
fixed_float = record {
  Value = ℤ;
  lt = λ a b. not (fixed.leb b a);
  leb = fixed.leb;
  eq = λ a b. fixed.leb a b && fixed.leb b a;
  is_finite = λ _. true;
  of_ℕ = λ n. pos (n * 10 ^ 8);
  neg = fixed.neg;
  add = fixed.add;
  mul = λ a b. elim (fixed.checked_mul a b) [ none ↦ pos 0 | some c ↦ c ];
  finite-of_ℕ = λ n h. refl;
  finite-neg = λ a h. refl;
  leb-lt = λ a b h k. ground arith;
  leb_trans = fixed.leb_trans;
  leb-of_ℕ = λ m n h k. ground arith;
  leb-neg = λ n h. ground arith;
  leb_refl = λ a h. fixed.leb_refl a;
}
