-- ===== src/Confidence/Runs.antt =====
-- A candidate over any calls: its confidence is a rung that rises by one per 25 closed episodes at most.
use hyperliquid.Base.{
  ℕ, ◌≡◌, true, false, some, refl, subst, arith, ltb, ok, ok_injective, inl, inr, Bool-cases,
}
use hyperliquid.Float.{Float}
use hyperliquid.Decimal.{Decimal, is_zero}
use hyperliquid.Confidence.{
  CandidateState, CandidateConfidence, ConfidenceReview, confidence_index, is_blocked,
  is_quarantined, contributes_to_consensus, new, apply_confidence_review,
  observe_quarantine_reentry_window, block_integrity, manual_denylist_candidate,
}
use hyperliquid.Confidence.Rungs.{confidence_index-known}
use hyperliquid.Confidence.Rated.{IsRated, contributes-rung, blocked-IsRated}
use hyperliquid.Confidence.Rated.Reviews.{apply_confidence_review-IsRated, observe-IsRated}

unquarantined : (s : CandidateState) → is_blocked s ≡ true → is_quarantined s ≡ false
unquarantined s h = ground arith

module _ (d : Decimal) (f : Float) where
  -- What calls make of a candidate, whatever they answer.
  pub data Reach (c₀ : CandidateConfidence d) : CandidateConfidence d → Type 0 where
    here : Reach c₀ c₀
    reviewing :
        {c : CandidateConfidence d} (r : ConfidenceReview d f)
        → Reach c₀ c
        → Reach c₀ (apply_confidence_review d f r c).0
    observing :
        {c : CandidateConfidence d} (sharpe : f.Value)
        → Reach c₀ c
        → Reach c₀ (observe_quarantine_reentry_window d f sharpe c).0
    blocking : {c : CandidateConfidence d} → Reach c₀ c → Reach c₀ (block_integrity d c).0
    denying : {c : CandidateConfidence d} → Reach c₀ c → Reach c₀ (manual_denylist_candidate d c).0

  Reach-IsRated :
      {base : ℕ} {c₀ c : CandidateConfidence d} → IsRated d base c₀ → Reach c₀ c → IsRated d base c
  unfolding block_integrity manual_denylist_candidate
  Reach-IsRated h here = h
  Reach-IsRated h (reviewing {c} r q) = apply_confidence_review-IsRated d f r c (Reach-IsRated h q)
  Reach-IsRated h (observing {c} sharpe q) = observe-IsRated d f sharpe c (Reach-IsRated h q)
  Reach-IsRated h (blocking {c} q) = blocked-IsRated d c _ refl (Reach-IsRated h q)
  Reach-IsRated h (denying {c} q) = blocked-IsRated d c _ refl (Reach-IsRated h q)

  new-IsRated :
      (v : d.Value) (base : ℕ) {c : CandidateConfidence d}
      → confidence_index d v ≡ some base
      → new d v ≡ ok c
      → IsRated d base c
  unfolding new
  new-IsRated v base {c} e h = elim (Bool-cases (is_zero d v)) [
    | inl z ↦ let k = rw (e, z) at h in absurd (cc)
    | inr z ↦
        let k = rw (e, z) at h in
        let known = confidence_index-known d v base e z in
        subst (IsRated d base) (ok_injective k) (record {
          rung = base;
          known = known.1;
          modifier = known.0;
          contributing = ground (arith, known.2);
          changed = omega arith;
          paced = omega arith;
          windows = omega arith;
          risen = known.2;
        })
  ]

  -- A candidate that starts at a level contributes, over any reviews, windows, blocks and denials,
  -- refused ones included, exactly while its confidence is above the lowest level. The confidence is
  -- always one of the levels, and at most one level higher than the first per 25 closed episodes.
  pub reached-IsRated :
      (v : d.Value) (base : ℕ) {c₀ c : CandidateConfidence d}
      → confidence_index d v ≡ some base
      → new d v ≡ ok c₀
      → Reach c₀ c
      → (h : IsRated d base c) × (contributes_to_consensus d c ≡ ltb 0 h.rung)
  reached-IsRated v base {c = c} e h q =
      let rated = Reach-IsRated (new-IsRated v base e h) q in (rated, contributes-rung d c rated)

  stays :
      {c₀ c : CandidateConfidence d}
      → is_blocked c₀.state ≡ true
      → Reach c₀ c
      → is_blocked c.state ≡ true
  unfolding apply_confidence_review observe_quarantine_reentry_window block_integrity
      manual_denylist_candidate
  stays b here = b
  stays b (reviewing {c} r q) = rw (stays b q) (stays b q)
  stays b (observing {c} sharpe q) = let still = stays b q in rw (unquarantined c.state still) still
  stays b (blocking q) = refl
  stays b (denying q) = refl

  -- A candidate that was blocked or denied stays so over any calls, and never contributes again.
  blocked_stays :
      {c₀ c : CandidateConfidence d}
      → is_blocked c₀.state ≡ true
      → Reach c₀ c
      → (is_blocked c.state ≡ true) × (contributes_to_consensus d c ≡ false)
  unfolding contributes_to_consensus
  blocked_stays b q = let still = stays b q in (still, rw (still) refl)
