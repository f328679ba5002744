-- ===== src/Portfolio/Collect.antt =====
-- What `collect` makes of what holds of every value.
use hyperliquid.Base.{
  Bool, true, false, any, ite, ◌||◌, ◌++◌, refl, sym, ap, arith, ◌≡◌, List, [], ◌∷◌, String, Result,
  ok, >>=-ok, ok_injective, All, subst,
}
use hyperliquid.BTreeMap.{
  string_ord, String-discrete, BTreeMap, get, keys, contains_key, insert, get-insert, All-insert,
}
use hyperliquid.Portfolio.{collect}

pub collect-All :
    {E V : Type 0} (P : String × V → Type 0) (f : String → Result E V) (ks : List String)
    (m : BTreeMap String V) {r : BTreeMap String V}
    → ((k : String) (v : V) → f k ≡ ok v → P (k, v))
    → All P m
    → collect f ks m ≡ ok r
    → All P r
unfolding collect
collect-All P f [] m step h done = subst (All P) (ok_injective done) h
collect-All P f (k ∷ ks) m step h done =
    >>=-ok (f k) _ done
      (λ v e₀ h₀. collect-All P f ks (insert k v m) step (All-insert P k v m (step k v e₀) h) h₀)

-- A text is one of a list.
abbrev pub member : String → List String → Bool
member a ks = any (λ k. ite (String-discrete k a) true false) ks

pub member-append :
    (a : String) (xs ys : List String) → member a (xs ++ ys) ≡ member a xs || member a ys
member-append a [] ys = refl
member-append a (x ∷ xs) ys = let rest = member-append a xs ys in ground arith

pub member-keys :
    {V : Type 0} (a : String) (m : BTreeMap String V) → member a (keys m) ≡ contains_key a m
unfolding get
member-keys a [] = refl
member-keys a ((j, v) ∷ m) = let rest = member-keys a m in ground arith

pub contains_key-insert :
    {V : Type 0} (k a : String) (v : V) (m : BTreeMap String V)
    → contains_key a (insert k v m) ≡ ite (String-discrete k a) true false || contains_key a m
contains_key-insert k a v m = let i₁ = get-insert k a v m in ground arith

pub collect-keys :
    {E V : Type 0} (f : String → Result E V) (a : String) (ks : List String) (m : BTreeMap String V)
    {r : BTreeMap String V}
    → collect f ks m ≡ ok r
    → contains_key a r ≡ member a ks || contains_key a m
unfolding collect
collect-keys f a [] m h = ap (contains_key a) (sym (ok_injective h))
collect-keys f a (k ∷ ks) m {r} h = >>=-ok (f k) _ h (λ v e₀ h₀.
    let rest = collect-keys f a ks (insert k v m) {r = r} h₀ in
    let first = contains_key-insert k a v m in ground arith)

-- The empty map has no key.
pub nothing_more : (V : Type 0) (a : String) (b : Bool) → (b || contains_key {V = V} a []) ≡ b
unfolding get
nothing_more V a true = refl
nothing_more V a false = refl
