-- ===== src/BTreeMap/Order.antt =====
-- The orders of the keys: `Ord` as the standard library derives it.
use Prim.Native.String.{compare as compare_string}
use native.Mathlib.Decide.{ℕ_discrete}
use text.Mathlib.TextEquality.{path_by_compare}
use text.Mathlib.TextPositions.{compare_refl}
use hyperliquid.Base.{
  ℕ, ◌≡◌, refl, Ordering, compare, String, arith, subst, ◌↔◌, Bool, true, false, ite,
}

pub record Ord {ℓ} (K : Type ℓ) : Type ℓ where
  pub cmp : K → K → Ordering
  pub dec : Discrete K
  pub cmp_eq : (a b : K) → (cmp a b ≡ Ordering.eq) ↔ (a ≡ b)

-- `then_with`
abbrev pub then_with : Ordering → Ordering → Ordering
then_with Ordering.eq o = o
then_with Ordering.lt _ = Ordering.lt
then_with Ordering.gt _ = Ordering.gt

pub compare_nat_eq : (a b : ℕ) → (compare a b ≡ Ordering.eq) ↔ (a ≡ b)
compare_nat_eq a b = (λ h. ground arith, λ h. ground arith)

instance abbrev pub nat_ord : Ord ℕ
nat_ord = record { cmp = compare; dec = ℕ_discrete; cmp_eq = compare_nat_eq }

pub compare_string_eq : (a b : String) → (compare_string a b ≡ Ordering.eq) ↔ (a ≡ b)
compare_string_eq a b =
    (path_by_compare a b, λ h. subst (λ s. compare_string a s ≡ Ordering.eq) h (compare_refl a))

ordering_dec : (o : Ordering) → Dec (o ≡ Ordering.eq)
ordering_dec Ordering.eq = yes refl
ordering_dec Ordering.lt = no (λ h. cc)
ordering_dec Ordering.gt = no (λ h. cc)

unfoldable pub String-discrete : Discrete String
unfolding ordering_dec
String-discrete a b = elim (ordering_dec (compare_string a b)) [
  | yes h ↦ yes (path_by_compare a b h)
  | no h ↦ no (λ e. h ((compare_string_eq a b).1 e))
]

instance abbrev pub string_ord : Ord String
string_ord = record { cmp = compare_string; dec = String-discrete; cmp_eq = compare_string_eq }

-- `==` of a type with a derived order.
abbrev pub equal {ℓ} : {K : Type ℓ} ⦃o : Ord K⦄ → K → K → Bool
equal ⦃o⦄ a b = ite (o.dec a b) true false
