-- ===== src/BTreeMap/Entries.antt =====
-- What holds of every entry of a map, after each update.
use hyperliquid.Base.{
  Bool, true, ◌≡◌, ◌≢◌, none, some, [], ◌∷◌, arith, All, Bool-cases, Option-cases, inl, inr,
  Ordering, subst, sym,
}
use mathlib.Core.Logic.{if_pos, if_neg}
use hyperliquid.BTreeMap.Order.{Ord}
use hyperliquid.BTreeMap.Defs.{BTreeMap, get, replace, insert_new, insert, remove, retain}

module _ {ℓ} {K V : Type ℓ} (P : K × V → Type ℓ) where
  pub All-retain : (p : V → Bool) (m : BTreeMap K V) → All P m → All P (retain p m)
  unfolding retain
  All-retain p [] h = tt
  All-retain p ((k, v) ∷ m) h = elim (Bool-cases (p v)) [
    | inl e ↦ rw (e, retain) (h.0, All-retain p m h.1)
    | inr e ↦ rw (e, retain) (All-retain p m h.1)
  ]

  module _ ⦃o : Ord K⦄ where
    All-replace : (k : K) (v : V) (m : BTreeMap K V) → P (k, v) → All P m → All P (replace k v m)
    unfolding replace
    All-replace k v [] t h = tt
    All-replace k v ((j, w) ∷ m) t h = elim (o.dec j k) [
      | yes e ↦ rw (if_pos _ e) (subst (λ i. P (i, v)) (sym e) t, All-replace k v m t h.1)
      | no e ↦ rw (if_neg _ e) (h.0, All-replace k v m t h.1)
    ]

    -- The two places where `insert_new` may put the entry.
    All-place :
        (c : Ordering) (k j : K) (v w : V) (m rest : BTreeMap K V)
        → P (k, v)
        → All P ((j, w) ∷ m)
        → All P rest
        → All P (elim c [ Ordering.lt ↦ (k, v) ∷ (j, w) ∷ m | _ ↦ (j, w) ∷ rest ])
    All-place Ordering.lt k j v w m rest t h r = (t, h)
    All-place Ordering.eq k j v w m rest t h r = (h.0, r)
    All-place Ordering.gt k j v w m rest t h r = (h.0, r)

    All-insert_new :
        (k : K) (v : V) (m : BTreeMap K V) → P (k, v) → All P m → All P (insert_new k v m)
    unfolding insert_new
    All-insert_new k v [] t h = (t, tt)
    All-insert_new k v ((j, w) ∷ m) t h =
        All-place (o.cmp k j) k j v w m (insert_new k v m) t h (All-insert_new k v m t h.1)

    pub All-insert : (k : K) (v : V) (m : BTreeMap K V) → P (k, v) → All P m → All P (insert k v m)
    unfolding insert
    All-insert k v m t h = elim (Option-cases (get k m)) [
      | inl e ↦ rw (e, insert) (All-insert_new k v m t h)
      | inr (w, e) ↦ rw (e, insert) (All-replace k v m t h)
    ]

    pub All-remove : (k : K) (m : BTreeMap K V) → All P m → All P (remove k m)
    unfolding remove
    All-remove k [] h = tt
    All-remove k ((j, w) ∷ m) h = elim (o.dec j k) [
      | yes e ↦ rw (if_pos _ e) (All-remove k m h.1)
      | no e ↦ rw (if_neg _ e) (h.0, All-remove k m h.1)
    ]

    -- The entries of other keys may be shown by that.
    All-replace-other :
        (k : K) (v : V) (m : BTreeMap K V)
        → P (k, v)
        → All (λ e. k ≢ e.0 → P e) m
        → All P (replace k v m)
    unfolding replace
    All-replace-other k v [] t h = tt
    All-replace-other k v ((j, w) ∷ m) t h = elim (o.dec j k) [
      | yes e ↦ rw (if_pos _ e) (subst (λ i. P (i, v)) (sym e) t, All-replace-other k v m t h.1)
      | no e ↦ rw (if_neg _ e) (h.0 (λ q. e (sym q)), All-replace-other k v m t h.1)
    ]

    All-missing : (k : K) (m : BTreeMap K V) → get k m ≡ none → All (λ e. k ≢ e.0 → P e) m → All P m
    unfolding get
    All-missing k [] e h = tt
    All-missing k ((j, w) ∷ m) e h = elim (o.dec j k) [
      | yes q ↦ absurd (ground arith)
      | no q ↦ (h.0 (λ z. q (sym z)), All-missing k m (ground arith) h.1)
    ]

    pub All-insert-other :
        (k : K) (v : V) (m : BTreeMap K V)
        → P (k, v)
        → All (λ e. k ≢ e.0 → P e) m
        → All P (insert k v m)
    unfolding insert
    All-insert-other k v m t h = elim (Option-cases (get k m)) [
      | inl e ↦ rw (e, insert) (All-insert_new k v m t (All-missing k m e h))
      | inr (w, e) ↦ rw (e, insert) (All-replace-other k v m t h)
    ]

    -- What is left has another key.
    pub All-remove-other :
        (k : K) (m : BTreeMap K V) → All P m → All (λ e. P e × (e.0 ≢ k)) (remove k m)
    unfolding remove
    All-remove-other k [] h = tt
    All-remove-other k ((j, w) ∷ m) h = elim (o.dec j k) [
      | yes e ↦ rw (if_pos _ e) (All-remove-other k m h.1)
      | no e ↦ rw (if_neg _ e) ((h.0, e), All-remove-other k m h.1)
    ]

    pub All-get : (k : K) (v : V) (m : BTreeMap K V) → All P m → get k m ≡ some v → P (k, v)
    unfolding get
    All-get k v [] h e = cc
    All-get k v ((j, w) ∷ m) h e = elim (o.dec j k) [
      | yes q ↦
          let here : w ≡ v = ground arith in
          subst (λ i. P (i, v)) q (subst (λ u. P (j, u)) here h.0)
      | no q ↦ All-get k v m h.1 (ground arith)
    ]

module _ {ℓ} {K V : Type ℓ} where
  -- What is retained passes the test.
  pub retain_test : (p : V → Bool) (m : BTreeMap K V) → All (λ e. p e.1 ≡ true) (retain p m)
  unfolding retain
  retain_test p [] = tt
  retain_test p ((k, v) ∷ m) = elim (Bool-cases (p v)) [
    | inl e ↦ rw (e, retain) (e, retain_test p m)
    | inr e ↦ rw (e, retain) (retain_test p m)
  ]
