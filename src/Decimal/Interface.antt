-- ===== src/Decimal/Interface.antt =====
-- What the program uses of `rust_decimal::Decimal`.
use hyperliquid.Base.{
  ℕ, suc, ◌*◌, ◌<◌, Bool, true, false, not, Option, none, some, ◌≡◌, ◌≢◌, ◌⊎◌, if◌then◌else◌, ite,
}
use mathlib.Core.Option
use mathlib.Core.Logic.{if_neg}

pub record Decimal : Type 1 where
  pub Value : Type 0
  pub dec : Discrete Value
  pub zero : Value
  pub leb : Value → Value → Bool
  pub checked_add : Value → Value → Option Value
  pub checked_sub : Value → Value → Option Value
  pub checked_mul : Value → Value → Option Value
  pub checked_div : Value → Value → Option Value
  -- `+` and `-`, which panic where the checked operations have no value.
  pub add : Value → Value → Value
  pub sub : Value → Value → Value
  -- `ONE`; `from_parts` of a mantissa below 2 ^ 32 and a scale; `from` of a u32.
  pub one : Value
  pub from_parts : ℕ → ℕ → Value
  pub floor : Value → Value
  pub ceil : Value → Value
  -- `normalize().mantissa()`, as the number that its 16 bytes spell, and `normalize().scale()`.
  pub normal_mantissa : Value → ℕ
  pub normal_scale : Value → ℕ
  -- Unary `-`, `abs`, `is_sign_positive`
  pub neg : Value → Value
  pub abs : Value → Value
  pub is_sign_positive : Value → Bool
  -- `Ord`: a total order that agrees with `==`.
  pub leb_refl : (a : Value) → leb a a ≡ true
  pub leb_trans : (a b c : Value) → leb a b ≡ true → leb b c ≡ true → leb a c ≡ true
  pub leb_antisymm : (a b : Value) → leb a b ≡ true → leb b a ≡ true → a ≡ b
  pub leb_total : (a b : Value) → (leb a b ≡ true) ⊎ (leb b a ≡ true)
  pub add_checked : (a b : Value) {c : Value} → checked_add a b ≡ some c → add a b ≡ c
  pub sub_checked : (a b : Value) {c : Value} → checked_sub a b ≡ some c → sub a b ≡ c
  -- A mantissa and a scale: zero, one, one number at two scales, the order of thousandths.
  pub from_parts_zero : (s : ℕ) → from_parts 0 s ≡ zero
  pub from_parts_one : from_parts 1 0 ≡ one
  pub from_parts_scale : (m s : ℕ) → from_parts (10 * m) (suc s) ≡ from_parts m s
  pub from_parts_lt : (m n : ℕ) → m < n → leb (from_parts n 3) (from_parts m 3) ≡ false
  -- A sum rounds alike on both sides of zero, and does not depend on the order.
  pub add_comm : (a b : Value) → checked_add a b ≡ checked_add b a
  pub neg_add : (a b : Value) → checked_add (neg a) (neg b) ≡ Option.map neg (checked_add a b)
  pub sub-add : (a b : Value) → checked_sub a b ≡ checked_add a (neg b)
  pub add-neg : (a : Value) → checked_add a (neg a) ≡ some zero
  pub add-zero : (a : Value) {b : Value} → checked_add a zero ≡ some b → b ≡ a
  pub add_nonneg :
      (a b : Value) {c : Value} → leb zero b ≡ true → checked_add a b ≡ some c → leb a c ≡ true
  -- The sum of larger numbers rounds to no smaller one.
  pub add_mono :
      (a b c e : Value) {x y : Value}
      → leb a c ≡ true
      → leb b e ≡ true
      → checked_add a b ≡ some x
      → checked_add c e ≡ some y
      → leb x y ≡ true
  pub leb-neg : (a b : Value) → leb a b ≡ true → leb (neg b) (neg a) ≡ true
  pub neg-neg : (a : Value) → neg (neg a) ≡ a
  pub neg-zero : neg zero ≡ zero
  pub abs_nonneg : (a : Value) → leb zero a ≡ true → abs a ≡ a
  pub abs_nonpos : (a : Value) → leb a zero ≡ true → abs a ≡ neg a
  -- Zero may carry either sign.
  pub sign_lem : (a : Value) → a ≢ zero → is_sign_positive a ≡ leb zero a

module _ (d : Decimal) where
  -- `a < b`
  abbrev pub lt : d.Value → d.Value → Bool
  lt a b = not (d.leb b a)

  -- `max` of `Ord` takes the second of equals, `min` the first.
  abbrev pub max : d.Value → d.Value → d.Value
  max a b = if d.leb a b then b else a

  abbrev pub min : d.Value → d.Value → d.Value
  min a b = if d.leb a b then a else b

  abbrev pub is_zero : d.Value → Bool
  is_zero v = ite (d.dec v d.zero) true false

  -- `clamp`
  abbrev pub clamp : d.Value → d.Value → d.Value → d.Value
  clamp v low high = if lt v low then low else if lt high v then high else v

  -- `and_then`
  abbrev pub and_then : Option d.Value → (d.Value → Option d.Value) → Option d.Value
  and_then none f = none
  and_then (some v) f = f v

  pub zero_of : (v : d.Value) → is_zero v ≡ true → v ≡ d.zero
  zero_of v h = elim (d.dec v d.zero) [
    | yes e ↦ e
    | no n ↦ let no_zero = if_neg (d.dec v d.zero) n true false in absurd (cc)
  ]
