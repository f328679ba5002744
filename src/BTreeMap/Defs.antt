-- ===== src/BTreeMap/Defs.antt =====
-- `BTreeMap` and `BTreeSet` of the standard library, as lists in ascending order of the keys.
use hyperliquid.Base.{
  ℕ, Bool, true, false, Option, none, some, List, [], ◌∷◌, ite, Ordering, length, if◌then◌else◌,
}
use hyperliquid.BTreeMap.Order.{Ord}

abbrev pub BTreeMap {ℓ} : Type ℓ → Type ℓ → Type ℓ
BTreeMap K V = List (K × V)

abbrev pub BTreeSet : Type 0 → Type 0
BTreeSet K = BTreeMap K (Unit {0})

abbrev pub is_some {ℓ} : {A : Type ℓ} → Option A → Bool
is_some none = false
is_some (some _) = true

module _ {ℓ} {K V : Type ℓ} where
  abbrev pub size : BTreeMap K V → ℕ
  size = length

  -- `values`, `keys`
  abbrev pub values : BTreeMap K V → List V
  values [] = []
  values ((_, v) ∷ m) = v ∷ values m

  abbrev pub keys : BTreeMap K V → List K
  keys [] = []
  keys ((k, _) ∷ m) = k ∷ keys m

  -- `retain(|_, v| p(v))`
  unfoldable pub retain : (V → Bool) → BTreeMap K V → BTreeMap K V
  retain p [] = []
  retain p ((k, v) ∷ m) = let rest = retain p m in if p v then (k, v) ∷ rest else rest

module _ {ℓ} {K V : Type ℓ} ⦃o : Ord K⦄ where
  unfoldable pub get : K → BTreeMap K V → Option V
  get k [] = none
  get k ((j, v) ∷ m) = ite (o.dec j k) (some v) (get k m)

  abbrev pub contains_key : K → BTreeMap K V → Bool
  contains_key k m = is_some (get k m)

  -- The value of a key that is there.
  unfoldable pub replace : K → V → BTreeMap K V → BTreeMap K V
  replace k v [] = []
  replace k v ((j, w) ∷ m) =
      let rest = replace k v m in ite (o.dec j k) ((j, v) ∷ rest) ((j, w) ∷ rest)

  -- A key that is not there, before the first larger one.
  unfoldable pub insert_new : K → V → BTreeMap K V → BTreeMap K V
  insert_new k v [] = (k, v) ∷ []
  insert_new k v ((j, w) ∷ m) =
      let rest = insert_new k v m in
      elim (o.cmp k j) [ Ordering.lt ↦ (k, v) ∷ (j, w) ∷ m | _ ↦ (j, w) ∷ rest ]

  unfoldable pub insert : K → V → BTreeMap K V → BTreeMap K V
  unfolding get replace insert_new
  insert k v m = elim (get k m) [ some _ ↦ replace k v m | none ↦ insert_new k v m ]

  unfoldable pub remove : K → BTreeMap K V → BTreeMap K V
  remove k [] = []
  remove k ((j, v) ∷ m) = ite (o.dec j k) (remove k m) ((j, v) ∷ remove k m)

module _ {K : Type 0} ⦃o : Ord K⦄ where
  -- `BTreeSet::contains`, `BTreeSet::insert`
  abbrev pub contains : K → BTreeSet K → Bool
  contains k s = contains_key k s

  abbrev pub add : K → BTreeSet K → BTreeSet K
  add k s = insert k tt s
