-- ===== src/Confidence/Rated/Reviews.antt =====
-- The reviews and the reentry windows keep the confidence on a rung.
use hyperliquid.Base.{
  if_both, ℕ, ◌-◌, ◌≡◌, true, not, refl, arith, ltb, leb, Result, inl, inr, Option-cases,
  checked_add, u32_mod, ◌&&◌, ◌||◌,
}
use hyperliquid.Float.{Float}
use hyperliquid.Decimal.{Decimal}
use hyperliquid.Confidence.{
  ConfidenceOutcome, ConfidenceError, CandidateConfidence, ConfidenceReview, is_blocked,
  is_quarantined, is_contributing_state, review_rung, apply_confidence_review, conclude_windows,
  observe_quarantine_reentry_window,
}
use hyperliquid.Confidence.Rated.{
  IsRated, hold-IsRated, increase-IsRated, quarantine-IsRated, reduce-IsRated, warmup-IsRated,
}

module _ (d : Decimal) where
  module _ (f : Float) where
    review_rung-IsRated :
        {base : ℕ} (r : ConfidenceReview d f) (c : CandidateConfidence d)
        → is_contributing_state d c.state ≡ true
        → IsRated d base c
        → IsRated d base (review_rung d f r c).0
    unfolding review_rung
    review_rung-IsRated {base} r c up h =
        let P : CandidateConfidence d × ConfidenceOutcome → Type 0 = λ p. IsRated d base p.0 in
        let gap = leb 25 (c.closed_episodes - c.last_rung_change_episode) in
        if_both P (ltb c.closed_episodes 50) (λ _. warmup-IsRated d c up h)
          (λ _.
            if_both P (ltb c.closed_episodes 100 || ltb c.active_days 14)
              (λ _.
                if_both P (f.lt r.net_expectancy (f.of_ℕ 0) && gap) (λ _. reduce-IsRated d c h)
                  (λ _. hold-IsRated d c h))
              (λ _.
                if_both P (f.lt r.annualized_sharpe (f.of_ℕ 0)) (λ _. quarantine-IsRated d c h)
                  (λ _.
                    if_both P (not gap) (λ _. hold-IsRated d c h)
                      (λ e.
                        if_both P (f.leb (f.of_ℕ 15) r.annualized_sharpe)
                          (λ _. increase-IsRated d c (ground arith) h)
                          (λ _.
                            if_both P (f.lt r.annualized_sharpe (f.of_ℕ 10))
                              (λ _. reduce-IsRated d c h) (λ _. hold-IsRated d c h))))))

    pub apply_confidence_review-IsRated :
        {base : ℕ} (r : ConfidenceReview d f) (c : CandidateConfidence d)
        → IsRated d base c
        → IsRated d base (apply_confidence_review d f r c).0
    unfolding apply_confidence_review
    apply_confidence_review-IsRated {base} r c h =
        let Q : CandidateConfidence d × Result ConfidenceError ConfidenceOutcome → Type 0 =
          λ p. IsRated d base p.0 in
        let counted : CandidateConfidence d = record c {
          closed_episodes = r.closed_episodes;
          active_days = r.active_days;
        } in
        if_both Q (is_blocked c.state) (λ _. h)
          (λ free.
            if_both Q (not (f.is_finite r.net_expectancy) || not (f.is_finite r.annualized_sharpe))
              (λ _. h)
              (λ _.
                if_both Q (ltb r.closed_episodes c.closed_episodes) (λ _. h)
                  (λ e.
                    let kept : IsRated d base counted = record {
                      rung = h.rung;
                      known = h.known;
                      modifier = h.modifier;
                      contributing = h.contributing;
                      changed = ground (arith, h.changed);
                      paced = h.paced;
                      windows = h.windows;
                      risen = h.risen;
                    } in
                    if_both Q (is_quarantined c.state) (λ _. kept)
                      (λ u. review_rung-IsRated r counted (rw (free, u) refl) kept))))

    conclude_windows-IsRated :
        {base : ℕ} (n : ℕ) (c : CandidateConfidence d)
        → IsRated d base c
        → IsRated d base (conclude_windows d f (record c { consecutive_reentry_windows = n })).0
    conclude_windows-IsRated {base} n c h =
        if_both {A = CandidateConfidence d × Result ConfidenceError ConfidenceOutcome}
          (λ p. IsRated d base p.0) (leb 3 n)
          (λ _. record {
            rung = 1;
            known = omega arith;
            modifier = refl;
            contributing = ground arith;
            changed = omega arith;
            paced = omega (arith, h.risen);
            windows = omega arith;
            risen = h.risen;
          })
          (λ e. record {
            rung = h.rung;
            known = h.known;
            modifier = h.modifier;
            contributing = h.contributing;
            changed = h.changed;
            paced = h.paced;
            windows = ground arith;
            risen = h.risen;
          })

    pub observe-IsRated :
        {base : ℕ} (sharpe : f.Value) (c : CandidateConfidence d)
        → IsRated d base c
        → IsRated d base (observe_quarantine_reentry_window d f sharpe c).0
    unfolding observe_quarantine_reentry_window
    observe-IsRated {base} sharpe c h =
        let Q : CandidateConfidence d × Result ConfidenceError ConfidenceOutcome → Type 0 =
          λ p. IsRated d base p.0 in
        if_both Q (not (is_quarantined c.state)) (λ _. h)
          (λ _.
            if_both Q (not (f.is_finite sharpe)) (λ _. h)
              (λ _.
                if_both Q (f.leb (f.of_ℕ 15) sharpe)
                  (λ _. elim (Option-cases (checked_add u32_mod c.consecutive_reentry_windows 1)) [
                    | inl e ↦ rw (e) h
                    | inr (n, e) ↦ rw (e) (conclude_windows-IsRated n c h)
                  ])
                  (λ _. conclude_windows-IsRated 0 c h)))
