-- ===== src/Decimal/Fixed.antt =====
-- An instance of the interface: numbers of eight decimal places, as integers of absolute value below
-- 2 ^ 96, the range of the type's mantissa, with operations that fail beyond it.
use native.Mathlib.Decide.{ℕ_discrete}
use native.Mathlib.Nat.{zero-div, mul-div-mul_left, pow-succ'}
use hyperliquid.Base.{
  ℕ, suc, ◌+◌, ◌-◌, ◌*◌, ◌/◌, ◌^◌, ◌<◌, ◌≡◌, ◌⊎◌, ◌&&◌, refl, ap, Bool, true, false, Option, none,
  some, ltb, leb, if◌then◌else◌, arith,
}
use mathlib.Core.Option
use hyperliquid.Decimal.Interface.{Decimal}

-- `negsuc n` is -(n + 1).
pub data ℤ : Type 0 where
  pos negsuc : ℕ → ℤ

abbrev pub pos_part : ℤ → ℕ
pos_part (pos n) = n
pos_part (negsuc _) = 0

abbrev pub neg_part : ℤ → ℕ
neg_part (pos _) = 0
neg_part (negsuc n) = suc n

abbrev sub_ℕ : ℕ → ℕ → ℤ
sub_ℕ a b = if leb b a then pos (a - b) else negsuc (b - a - 1)

abbrev mantissa : ℕ
mantissa = 2 ^ 96

abbrev within : ℤ → Option ℤ
within a = if ltb (pos_part a + neg_part a) mantissa then some a else none

-- The value of an operation, zero where it has none.
abbrev unwrapped : Option ℤ → ℤ
unwrapped none = pos 0
unwrapped (some a) = a

abbrev leb_ℤ : ℤ → ℤ → Bool
leb_ℤ a b = leb (pos_part a + neg_part b) (pos_part b + neg_part a)

unfoldable pub ℤ-discrete : Discrete ℤ
ℤ-discrete = hlevel ℕ_discrete

pub leb_ℤ_refl : (a : ℤ) → leb_ℤ a a ≡ true
leb_ℤ_refl a = ground arith

pub leb_ℤ_trans : (a b c : ℤ) → leb_ℤ a b ≡ true → leb_ℤ b c ≡ true → leb_ℤ a c ≡ true
leb_ℤ_trans a b c h k = ground arith

pub leb_ℤ_antisymm : (a b : ℤ) → leb_ℤ a b ≡ true → leb_ℤ b a ≡ true → a ≡ b
leb_ℤ_antisymm a b h k = ground arith

pub leb_ℤ_total : (a b : ℤ) → (leb_ℤ a b ≡ true) ⊎ (leb_ℤ b a ≡ true)
leb_ℤ_total a b = ground arith

-- Numbers of eight decimal places.
abbrev unit : ℕ
unit = 10 ^ 8

abbrev neg_ℤ : ℤ → ℤ
neg_ℤ a = sub_ℕ (neg_part a) (pos_part a)

abbrev abs_ℤ : ℤ → ℤ
abs_ℤ a = pos (pos_part a + neg_part a)

abbrev add_ℤ : ℤ → ℤ → ℤ
add_ℤ a b = sub_ℕ (pos_part a + pos_part b) (neg_part a + neg_part b)

-- Products and quotients are cut off after the last place.
abbrev mul_ℤ : ℤ → ℤ → ℤ
mul_ℤ a b =
    sub_ℕ ((pos_part a * pos_part b + neg_part a * neg_part b) / unit)
      ((pos_part a * neg_part b + neg_part a * pos_part b) / unit)

abbrev div_ℤ : ℤ → ℤ → ℤ
div_ℤ a b =
    let m = pos_part b + neg_part b in
    sub_ℕ ((if leb 1 (pos_part b) then pos_part a else neg_part a) * unit / m)
      ((if leb 1 (pos_part b) then neg_part a else pos_part a) * unit / m)

abbrev floor_ℤ : ℤ → ℤ
floor_ℤ a = sub_ℕ (pos_part a / unit * unit) ((neg_part a + (unit - 1)) / unit * unit)

abbrev ceil_ℤ : ℤ → ℤ
ceil_ℤ a = sub_ℕ ((pos_part a + (unit - 1)) / unit * unit) (neg_part a / unit * unit)

pub add_ℤ_comm : (a b : ℤ) → within (add_ℤ a b) ≡ within (add_ℤ b a)
add_ℤ_comm a b = ground arith

pub neg_ℤ_add :
    (a b : ℤ) → within (add_ℤ (neg_ℤ a) (neg_ℤ b)) ≡ Option.map neg_ℤ (within (add_ℤ a b))
neg_ℤ_add a b = ground arith

pub sub_ℤ-add :
    (a b : ℤ)
    → within (sub_ℕ (pos_part a + neg_part b) (neg_part a + pos_part b))
      ≡ within (add_ℤ a (neg_ℤ b))
sub_ℤ-add a b = ground arith

pub add-neg_ℤ : (a : ℤ) → within (add_ℤ a (neg_ℤ a)) ≡ some (pos 0)
add-neg_ℤ a = ground arith

pub neg_ℤ-neg_ℤ : (a : ℤ) → neg_ℤ (neg_ℤ a) ≡ a
neg_ℤ-neg_ℤ a = ground arith

pub abs_ℤ_nonneg : (a : ℤ) → leb_ℤ (pos 0) a ≡ true → abs_ℤ a ≡ a
abs_ℤ_nonneg a h = ground arith

pub abs_ℤ_nonpos : (a : ℤ) → leb_ℤ a (pos 0) ≡ true → abs_ℤ a ≡ neg_ℤ a
abs_ℤ_nonpos a h = ground arith

pub add_ℤ-zero : (a : ℤ) {b : ℤ} → within (add_ℤ a (pos 0)) ≡ some b → b ≡ a
add_ℤ-zero a e = ground arith

pub add_ℤ_nonneg :
    (a b : ℤ) {c : ℤ} → leb_ℤ (pos 0) b ≡ true → within (add_ℤ a b) ≡ some c → leb_ℤ a c ≡ true
add_ℤ_nonneg a b h e = ground arith

pub add_ℤ_mono :
    (a b c e : ℤ) {x y : ℤ}
    → leb_ℤ a c ≡ true
    → leb_ℤ b e ≡ true
    → within (add_ℤ a b) ≡ some x
    → within (add_ℤ c e) ≡ some y
    → leb_ℤ x y ≡ true
add_ℤ_mono a b c e h k p q = ground arith

pub leb_ℤ-neg_ℤ : (a b : ℤ) → leb_ℤ a b ≡ true → leb_ℤ (neg_ℤ b) (neg_ℤ a) ≡ true
leb_ℤ-neg_ℤ a b h = ground arith

abbrev pub from_parts_ℤ : ℕ → ℕ → ℤ
from_parts_ℤ m s = pos (m * unit / 10 ^ s)

pub from_parts_ℤ_zero : (s : ℕ) → from_parts_ℤ 0 s ≡ pos 0
from_parts_ℤ_zero s = ap pos (zero-div (10 ^ s))

pub from_parts_ℤ_scale : (m s : ℕ) → from_parts_ℤ (10 * m) (suc s) ≡ from_parts_ℤ m s
from_parts_ℤ_scale m s =
    let pull : 10 * m * unit ≡ 10 * (m * unit) = omega arith in
    let grow : 10 ^ suc s ≡ 10 * 10 ^ s = pow-succ' 10 s in
    rw (pull, grow) (ap pos (mul-div-mul_left (m * unit) (10 ^ s) (omega arith)))

pub from_parts_ℤ_lt : (m n : ℕ) → m < n → leb_ℤ (from_parts_ℤ n 3) (from_parts_ℤ m 3) ≡ false
from_parts_ℤ_lt m n h = ground arith

abbrev pub fixed : Decimal
fixed = record {
  Value = ℤ;
  dec = ℤ-discrete;
  zero = pos 0;
  leb = leb_ℤ;
  checked_add = λ a b. within (add_ℤ a b);
  checked_sub = λ a b. within (sub_ℕ (pos_part a + neg_part b) (neg_part a + pos_part b));
  checked_mul = λ a b. within (mul_ℤ a b);
  checked_div = λ a b. if leb_ℤ b (pos 0) && leb_ℤ (pos 0) b then none else within (div_ℤ a b);
  add = λ a b. unwrapped (within (add_ℤ a b));
  sub = λ a b. unwrapped (within (sub_ℕ (pos_part a + neg_part b) (neg_part a + pos_part b)));
  one = pos unit;
  from_parts = from_parts_ℤ;
  floor = floor_ℤ;
  ceil = ceil_ℤ;
  normal_mantissa = λ a. if leb (neg_part a) 0 then pos_part a else 2 ^ 128 - neg_part a;
  normal_scale = λ _. 8;
  neg = neg_ℤ;
  abs = abs_ℤ;
  is_sign_positive = leb_ℤ (pos 0);
  leb_refl = leb_ℤ_refl;
  leb_trans = leb_ℤ_trans;
  leb_antisymm = leb_ℤ_antisymm;
  leb_total = leb_ℤ_total;
  add_checked = λ a b h. ap unwrapped h;
  sub_checked = λ a b h. ap unwrapped h;
  from_parts_zero = from_parts_ℤ_zero;
  from_parts_one = refl;
  from_parts_scale = from_parts_ℤ_scale;
  from_parts_lt = from_parts_ℤ_lt;
  add_comm = add_ℤ_comm;
  neg_add = neg_ℤ_add;
  sub-add = sub_ℤ-add;
  add-neg = add-neg_ℤ;
  add-zero = add_ℤ-zero;
  add_nonneg = add_ℤ_nonneg;
  add_mono = add_ℤ_mono;
  leb-neg = leb_ℤ-neg_ℤ;
  neg-neg = neg_ℤ-neg_ℤ;
  neg-zero = refl;
  abs_nonneg = abs_ℤ_nonneg;
  abs_nonpos = abs_ℤ_nonpos;
  sign_lem = λ a h. refl;
}
