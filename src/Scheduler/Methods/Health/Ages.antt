-- ===== src/Scheduler/Methods/Health/Ages.antt =====
-- The ages that the health report gives.
use hyperliquid.Base.{
  ℕ, ◌-◌, ◌≤◌, ◌≡◌, ◌⊎◌, inl, inr, Option, none, some, List, [], ◌∷◌, ◌++◌, Among, Option-cases,
  arith, refl, ◌∙◌, ap, sym, subst,
}
use hyperliquid.BTreeMap.{BTreeMap, values, get, insert, get-insert-same, get-insert-other}
use hyperliquid.Scheduler.Request.{
  SourceTier, SourceTier-discrete, ScheduledReadRequest, key_ord, tier_ord,
}
use hyperliquid.Scheduler.Queue.{QueueState}
use hyperliquid.Scheduler.Methods.Health.{older, ages_of, oldest_pending_age}

older-ge : (o : Option ℕ) (age : ℕ) → age ≤ older o age
older-ge none age = omega arith
older-ge (some a) age = ground arith

older-either : (o : Option ℕ) (x age : ℕ) → some (older o x) ≡ some age → (o ≡ some age) ⊎ (x ≡ age)
older-either none x age e = inr (cc)
older-either (some a) x age e = ground arith

module _ (now_ms : ℕ) (tier : SourceTier) where
  -- The age is that of a request of the tier, and no request of the tier is older.
  pub record IsOldest (rs : List ScheduledReadRequest) (reported : Option ℕ) : Type 0 where
    pub none_older :
        (r : ScheduledReadRequest)
        → Among r rs
        → r.source_tier ≡ some tier
        → (age : ℕ) × (reported ≡ some age) × (now_ms - r.created_at ≤ age)
    pub attained :
        {age : ℕ}
        → reported ≡ some age
        → (r : ScheduledReadRequest) × (Among r rs
            × ((r.source_tier ≡ some tier) × (now_ms - r.created_at ≡ age)))

  abbrev entered : SourceTier → ScheduledReadRequest → BTreeMap SourceTier ℕ → BTreeMap SourceTier ℕ
  entered u r ages = insert u (older (get u ages) (now_ms - r.created_at)) ages

  -- What the request adds to the ages.
  entered-same :
      (u : SourceTier) (r : ScheduledReadRequest) (ages : BTreeMap SourceTier ℕ)
      → u ≡ tier
      → get tier (entered u r ages) ≡ some (older (get tier ages) (now_ms - r.created_at))
  entered-same u r ages e =
      rw e (get-insert-same tier (older (get tier ages) (now_ms - r.created_at)) ages)

  ages_grow :
      (rs : List ScheduledReadRequest) (ages : BTreeMap SourceTier ℕ) {a : ℕ}
      → get tier ages ≡ some a
      → (age : ℕ) × (get tier (ages_of now_ms rs ages) ≡ some age) × (a ≤ age)
  unfolding ages_of
  ages_grow [] ages {a} e = (a, e, omega arith)
  ages_grow (r ∷ rs) ages {a} e = elim (Option-cases r.source_tier) [
    | inl n ↦ rw n (ages_grow rs ages e)
    | inr (u, p) ↦ elim (SourceTier-discrete u tier) [
      | yes same ↦
          let (age, got, le) =
            ages_grow rs (entered u r ages)
              (entered-same u r ages same ∙ ap (λ o. some (older o (now_ms - r.created_at))) e) in
          rw p (age, got, omega arith)
      | no other ↦ rw p (ages_grow rs (entered u r ages) (get-insert-other u tier _ ages other ∙ e))
    ]
  ]

  ages_bound :
      (rs : List ScheduledReadRequest) (ages : BTreeMap SourceTier ℕ) (r : ScheduledReadRequest)
      → Among r rs
      → r.source_tier ≡ some tier
      → (age : ℕ) × (get tier (ages_of now_ms rs ages) ≡ some age) × (now_ms - r.created_at ≤ age)
  unfolding ages_of
  ages_bound [] ages r m e = absurd m
  ages_bound (x ∷ rs) ages r (inl same) e =
      let p : x.source_tier ≡ some tier = subst (λ y. y.source_tier ≡ some tier) same e in
      let (age, got, le) = ages_grow rs (entered tier x ages) (entered-same tier x ages refl) in
      let least = older-ge (get tier ages) (now_ms - x.created_at) in
      let made = subst (λ y. now_ms - y.created_at ≤ age) (sym same) (omega arith) in
      rw p (age, got, made)
  ages_bound (x ∷ rs) ages r (inr m) e = elim (Option-cases x.source_tier) [
    | inl n ↦ rw n (ages_bound rs ages r m e)
    | inr (u, p) ↦ rw p (ages_bound rs (entered u x ages) r m e)
  ]

  ages_attained :
      (rs : List ScheduledReadRequest) (ages : BTreeMap SourceTier ℕ) {age : ℕ}
      → get tier (ages_of now_ms rs ages) ≡ some age
      → (get tier ages ≡ some age)
        ⊎ ((r : ScheduledReadRequest) × (Among r rs
              × ((r.source_tier ≡ some tier) × (now_ms - r.created_at ≡ age))))
  unfolding ages_of
  ages_attained [] ages e = inl e
  ages_attained (r ∷ rs) ages {age} e = elim (Option-cases r.source_tier) [
    | inl n ↦ elim (ages_attained rs ages {age = age} (rw n at e)) [
      | inl before ↦ inl before
      | inr (x, (m, h)) ↦ inr (x, (inr m, h))
    ]
    | inr (u, p) ↦ elim (ages_attained rs (entered u r ages) {age = age} (rw p at e)) [
      | inl now ↦ elim (SourceTier-discrete u tier) [
        | yes same ↦
            elim (older-either (get tier ages) (now_ms - r.created_at) age
              (sym (entered-same u r ages same) ∙ now)) [
                | inl before ↦ inl before
                | inr this ↦ inr (r, (inl refl, (p ∙ ap some same, this)))
              ]
        | no other ↦ inl (sym (get-insert-other u tier _ ages other) ∙ now)
      ]
      | inr (x, (m, h)) ↦ inr (x, (inr m, h))
    ]
  ]

  -- For each tier the report gives the age of its oldest request among those that wait and the
  -- successors, and none where there is no such request.
  pub oldest_pending_age-IsOldest :
      (queue : QueueState)
      → IsOldest
          (values queue.pending ++ values queue.successors)
          (get tier (oldest_pending_age queue now_ms))
  unfolding oldest_pending_age get
  oldest_pending_age-IsOldest queue =
      let rs = values queue.pending ++ values queue.successors in
      record {
        none_older = λ r m e. ages_bound rs [] r m e;
        attained = λ {age} e. elim (ages_attained rs [] {age = age} e) [
          | inl none_yet ↦ absurd (cc)
          | inr found ↦ found
        ];
      }
