-- ===== src/Consensus/Book.antt =====
-- The book keeps the newest exposures of each candidate, whatever the order in which they come.
use hyperliquid.Base.{
  ℕ, ◌≤◌, ◌≡◌, ◌≢◌, Option, none, some, List, [], ◌∷◌, String, inl, inr, All, All-mono, Among,
  All-Among, refl, sym, ap, ◌∙◌, subst, arith, leb, ◌==◌, Bool-cases,
}
use hyperliquid.BTreeMap.{
  string_ord, BTreeMap, get, insert, get-insert-same, get-insert-other, get-remove-other, remove,
}
use hyperliquid.Decimal.{Decimal}
use hyperliquid.Consensus.{
  SourceExposureState, SourceExposureBook, accept, accept_source_exposure_state,
}

module _ (d : Decimal) where
  -- A call of `accept`.
  abbrev pub Call : Type 0
  Call = String × SourceExposureState d

  -- The book after the calls, of which the last one comes first.
  unfoldable pub accept_all : List Call → SourceExposureBook d
  unfolding accept
  accept_all [] = []
  accept_all ((k, s) ∷ earlier) = (accept d k s (accept_all earlier)).0

  -- The state is the one of a call for the candidate, and none of them has a later sequence.
  abbrev pub IsNewest : String → List Call → Option (SourceExposureState d) → Type 0
  IsNewest id calls none = All (λ e. e.0 ≢ id) calls
  IsNewest id calls (some s) =
      Among (id, s) calls × All (λ e. e.0 ≡ id → e.1.accepted_sequence ≤ s.accepted_sequence) calls

  module _ (content : ℕ → BTreeMap String d.Value) where
    -- The exposures are those that the hash of the payload stands for.
    abbrev pub IsHashed : Call → Type 0
    IsHashed e = e.1.exposures ≡ content e.1.payload_hash

    accept-other :
        (k id : String) (s : SourceExposureState d) (calls : List Call)
        (o : Option (SourceExposureState d))
        → k ≢ id
        → IsNewest id calls o
        → IsNewest id ((k, s) ∷ calls) o
    accept-other k id s calls none n h = (n, h)
    accept-other k id s calls (some t) n h = (inr h.0, ((λ e. absurd (n e)), h.1))

    accept-same :
        (k : String) (s : SourceExposureState d) (calls : List Call)
        (o : Option (SourceExposureState d))
        → All IsHashed calls
        → IsHashed (k, s)
        → IsNewest k calls o
        → IsNewest k ((k, s) ∷ calls) (some (accept_source_exposure_state d o s).0)
    unfolding accept_source_exposure_state
    accept-same k s calls none hs h new =
        (inl refl, ((λ e. omega arith), All-mono calls (λ e n q. absurd (n q)) new))
    accept-same k s calls (some t) hs h new =
        let P : SourceExposureState d → Type 0 = λ u. IsNewest k ((k, s) ∷ calls) (some u) in
        elim (Bool-cases (leb s.accepted_sequence t.accepted_sequence)) [
          | inl e ↦
              let kept : (accept_source_exposure_state d (some t) s).0 ≡ t = rw (e) refl in
              subst P (sym kept) (inr new.0, ((λ _. ground arith), new.1))
          | inr e ↦
              let newer : IsNewest k ((k, s) ∷ calls) (some s) = (
                inl refl,
                (
                  (λ _. omega arith),
                  All-mono calls
                      (λ c (q : c.0 ≡ k → c.1.accepted_sequence ≤ t.accepted_sequence) p.
                        let below = q p in ground arith)
                      new.1,
                ),
              ) in
              elim (Bool-cases (s.payload_hash == t.payload_hash)) [
                | inl same ↦
                    let hash : t.payload_hash ≡ s.payload_hash = ground arith in
                    let content_too : t.exposures ≡ s.exposures =
                      All-Among IsHashed calls hs new.0 ∙ ap content hash ∙ sym h in
                    let fresh : (accept_source_exposure_state d (some t) s).0 ≡ s =
                      rw (e, same)
                        (λ i. record {
                          accepted_sequence = s.accepted_sequence;
                          payload_hash = hash i;
                          exposures = content_too i;
                        }) in
                    subst P (sym fresh) newer
                | inr other ↦
                    let taken : (accept_source_exposure_state d (some t) s).0 ≡ s =
                      rw (e, other) refl in
                    subst P (sym taken) newer
              ]
        ]

    -- After any calls, in any order, the book holds for each candidate the exposures of a call for it
    -- that none exceeds in its sequence, or nothing where there was no call, if the hash of a payload
    -- tells its exposures.
    pub accept_all-IsNewest :
        (calls : List Call) (id : String)
        → All IsHashed calls
        → IsNewest id calls (get id (accept_all calls))
    unfolding accept_all get
    accept_all-IsNewest [] id h = tt
    accept_all-IsNewest ((k, s) ∷ earlier) id h =
        let before = accept_all earlier in
        let next = (accept_source_exposure_state d (get k before) s).0 in
        elim (string_ord.dec k id) [
          | yes e ↦
              subst (λ j. IsNewest j ((k, s) ∷ earlier) (get j (insert k next (remove k before)))) e
                (rw (get-insert-same k next (remove k before)) (
                  accept-same k s earlier (get k before) h.1 h.0
                    (accept_all-IsNewest earlier k h.1)))
          | no n ↦
              rw (get-insert-other k id next (remove k before) n, get-remove-other k id before n)
                (accept-other k id s earlier (get id before) n (accept_all-IsNewest earlier id h.1))
        ]
