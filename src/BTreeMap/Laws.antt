-- ===== src/BTreeMap/Laws.antt =====
-- What reads and sizes are after each update of a map.
use hyperliquid.Base.{
  ◌+◌, ◌≤◌, ◌≡◌, refl, true, none, some, [], ◌∷◌, ite, arith, Option-cases, inl, inr, suc,
  if◌then◌else◌, Bool, All, All-mono,
}
use hyperliquid.BTreeMap.Order.{Ord}
use hyperliquid.BTreeMap.Defs.{
  BTreeMap, size, get, replace, insert_new, insert, remove, retain, contains_key,
}

module _ {ℓ} {K V : Type ℓ} ⦃o : Ord K⦄ where
  get-replace :
      (k j : K) (v : V) (m : BTreeMap K V)
      → get j (replace k v m)
        ≡ ite (o.dec k j) (if contains_key k m then some v else none) (get j m)
  unfolding get replace
  get-replace k j v [] = ground arith
  get-replace k j v ((i, w) ∷ m) = ground (arith, get-replace k j v m)

  get-insert_new :
      (k j : K) (v : V) (m : BTreeMap K V)
      → get k m ≡ none
      → get j (insert_new k v m) ≡ ite (o.dec k j) (some v) (get j m)
  unfolding get insert_new
  get-insert_new k j v [] h = refl
  get-insert_new k j v ((i, w) ∷ m) h = ground (arith, get-insert_new k j v m)

  pub get-insert :
      (k j : K) (v : V) (m : BTreeMap K V)
      → get j (insert k v m) ≡ ite (o.dec k j) (some v) (get j m)
  unfolding insert
  get-insert k j v m = elim (Option-cases (get k m)) [
    | inl e ↦ ground (arith, get-insert_new k j v m)
    | inr (w, e) ↦ ground (arith, get-replace k j v m)
  ]

  pub get-remove :
      (k j : K) (m : BTreeMap K V) → get j (remove k m) ≡ ite (o.dec k j) none (get j m)
  unfolding get remove
  get-remove k j [] = ground arith
  get-remove k j ((i, w) ∷ m) = ground (arith, get-remove k j m)

  size-replace : (k : K) (v : V) (m : BTreeMap K V) → size (replace k v m) ≡ size m
  unfolding replace
  size-replace k v [] = refl
  size-replace k v ((i, w) ∷ m) = ground (arith, size-replace k v m)

  size-insert_new : (k : K) (v : V) (m : BTreeMap K V) → size (insert_new k v m) ≡ suc (size m)
  unfolding insert_new
  size-insert_new k v [] = refl
  size-insert_new k v ((i, w) ∷ m) = ground (arith, size-insert_new k v m)

  pub size-insert :
      (k : K) (v : V) (m : BTreeMap K V)
      → size (insert k v m) ≡ (if contains_key k m then size m else suc (size m))
  unfolding insert
  size-insert k v m = ground (arith, size-replace k v m, size-insert_new k v m)

  pub size-remove-le : (k : K) (m : BTreeMap K V) → size (remove k m) ≤ size m
  unfolding remove
  size-remove-le k [] = omega arith
  size-remove-le k ((i, w) ∷ m) = ground (arith, size-remove-le k m)

  -- A key that is there is taken away.
  pub size-remove-lt :
      (k : K) (m : BTreeMap K V) → contains_key k m ≡ true → size (remove k m) + 1 ≤ size m
  unfolding get remove
  size-remove-lt k [] h = cc
  size-remove-lt k ((i, w) ∷ m) h = ground (arith, size-remove-lt k m, size-remove-le k m)

  -- Each entry of a map is found in it.
  pub keys_found : (m : BTreeMap K V) → All (λ e. contains_key e.0 m ≡ true) m
  unfolding get
  keys_found [] = tt
  keys_found ((k, v) ∷ m) = (ground arith, All-mono m (λ e h. ground arith) (keys_found m))

  pub contains_key-retain :
      (p : V → Bool) (k : K) (m : BTreeMap K V)
      → contains_key k (retain p m) ≡ true
      → contains_key k m ≡ true
  unfolding get retain
  contains_key-retain p k [] h = h
  contains_key-retain p k ((j, v) ∷ m) h = ground (arith, contains_key-retain p k m)

  -- What is found and passes the test is kept.
  pub get-retain :
      (p : V → Bool) (k : K) (v : V) (m : BTreeMap K V)
      → get k m ≡ some v
      → p v ≡ true
      → get k (retain p m) ≡ some v
  unfolding get retain
  get-retain p k v [] h t = h
  get-retain p k v ((j, w) ∷ m) h t = ground (arith, get-retain p k v m)

module _ {ℓ} {K V : Type ℓ} where
  pub size-retain-le : (p : V → Bool) (m : BTreeMap K V) → size (retain p m) ≤ size m
  unfolding retain
  size-retain-le p [] = omega arith
  size-retain-le p ((k, v) ∷ m) = ground (arith, size-retain-le p m)
