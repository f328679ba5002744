-- ===== src/Confidence/Rated.antt =====
-- A candidate whose confidence is a rung, and the moves between the rungs.
pub mod Reviews
use hyperliquid.Base.{
  if_both, ℕ, ◌+◌, ◌-◌, ◌/◌, ◌≤◌, ◌<◌, ◌≡◌, Bool, true, false, not, refl, sym, ap, ◌∙◌, subst,
  arith, ltb, leb, Result, inl, inr, Option-cases, if◌then◌else◌, min, checked_add, u32_mod, ◌&&◌,
  ◌||◌,
}
use hyperliquid.Float.{Float}
use hyperliquid.Decimal.{Decimal, is_zero}
use hyperliquid.Confidence.{
  state_for_confidence, ConfidenceOutcome, ConfidenceError, warmup, decayed, CandidateState,
  CandidateConfidence, ConfidenceReview, level, confidence_index, index_or, is_blocked,
  is_quarantined, is_contributing_state, contributes_to_consensus, increase_one_rung,
  reduce_one_rung, hold, quarantine, mark_change, review_rung, apply_confidence_review,
  conclude_windows, observe_quarantine_reentry_window,
}
use hyperliquid.Confidence.Rungs.{
  confidence_index-level, level_positive, state-level, reduced_state-level,
}

both : (b : Bool) → (b && b) ≡ b
both true = refl
both false = refl

module _ (d : Decimal) where
  -- The confidence is the level of a rung, which is above the lowest exactly while the state lets the
  -- candidate contribute. From the first rung it has risen by at most one per 25 episodes.
  pub record IsRated (base : ℕ) (c : CandidateConfidence d) : Type 0 where
    pub rung : ℕ
    pub known : rung ≤ 6
    pub modifier : c.confidence_modifier ≡ level d rung
    pub contributing : is_contributing_state d c.state ≡ ltb 0 rung
    pub changed : c.last_rung_change_episode ≤ c.closed_episodes
    pub paced : rung ≤ base + c.last_rung_change_episode / 25
    pub risen : 1 ≤ base
    pub windows : c.consecutive_reentry_windows < 3

  pub contributes-rung :
      {base : ℕ} (c : CandidateConfidence d) (h : IsRated base c)
      → contributes_to_consensus d c ≡ ltb 0 h.rung
  unfolding contributes_to_consensus
  contributes-rung c h =
      rw (h.contributing, h.modifier, level_positive d h.rung) (both (ltb 0 h.rung))

  pub hold-IsRated :
      {base : ℕ} (c : CandidateConfidence d) → IsRated base c → IsRated base (hold d c)
  hold-IsRated c h = record {
    rung = h.rung;
    known = h.known;
    modifier = h.modifier;
    contributing =
        ap (λ v. is_contributing_state d (state_for_confidence d v)) h.modifier
        ∙ state-level d h.rung;
    changed = h.changed;
    paced = h.paced;
    windows = h.windows;
    risen = h.risen;
  }

  pub warmup-IsRated :
      {base : ℕ} (c : CandidateConfidence d)
      → is_contributing_state d c.state ≡ true
      → IsRated base c
      → IsRated base (record c { state = warmup })
  warmup-IsRated c up h = record {
    rung = h.rung;
    known = h.known;
    modifier = h.modifier;
    contributing = sym up ∙ h.contributing;
    changed = h.changed;
    paced = h.paced;
    windows = h.windows;
    risen = h.risen;
  }

  -- What a review that changes the rung makes of a candidate, for the rung and the state that it gives.
  moved-IsRated :
      {base : ℕ} (c : CandidateConfidence d) (n : ℕ) (s : CandidateState)
      → IsRated base c
      → n ≤ 6
      → n ≤ base + c.closed_episodes / 25
      → is_contributing_state d s ≡ ltb 0 n
      → IsRated base (mark_change d (record c { confidence_modifier = level d n; state = s }))
  moved-IsRated c n s h known paced state = record {
    rung = n;
    known = known;
    modifier = refl;
    contributing = state;
    changed = omega arith;
    paced = paced;
    windows = h.windows;
    risen = h.risen;
  }

  index-rung :
      {base : ℕ} (c : CandidateConfidence d) (h : IsRated base c) (i : ℕ)
      → index_or d (confidence_index d c.confidence_modifier) i ≡ h.rung
  index-rung c h i =
      ap (λ v. index_or d (confidence_index d v) i) h.modifier
      ∙ ap (λ o. index_or d o i) (confidence_index-level d h.rung h.known)

  pub reduce-IsRated :
      {base : ℕ} (c : CandidateConfidence d)
      → IsRated base c
      → IsRated base (mark_change d (reduce_one_rung d c))
  unfolding reduce_one_rung
  reduce-IsRated {base} c h =
      subst
        (λ i. IsRated base (
          mark_change d (record c {
            confidence_modifier = level d (i - 1);
            state = if is_zero d (level d (i - 1)) then CandidateState.quarantined else decayed;
          })))
        (sym (index-rung c h 1))
        (moved-IsRated c (h.rung - 1) _ h (omega (arith, h.known))
          (omega (arith, h.paced, h.changed)) (reduced_state-level d (h.rung - 1)))

  pub increase-IsRated :
      {base : ℕ} (c : CandidateConfidence d)
      → 25 ≤ c.closed_episodes - c.last_rung_change_episode
      → IsRated base c
      → IsRated base (mark_change d (increase_one_rung d c))
  unfolding increase_one_rung
  increase-IsRated {base} c gap h =
      subst
        (λ i. IsRated base (
          mark_change d (record c {
            confidence_modifier = level d (min (i + 1) 6);
            state = state_for_confidence d (level d (min (i + 1) 6));
          })))
        (sym (index-rung c h 0))
        (moved-IsRated c (min (h.rung + 1) 6) _ h (omega arith) (omega (arith, h.paced, gap))
          (state-level d (min (h.rung + 1) 6)))

  pub quarantine-IsRated :
      {base : ℕ} (c : CandidateConfidence d)
      → IsRated base c
      → IsRated base (mark_change d (quarantine d c))
  quarantine-IsRated c h = record {
    rung = 0;
    known = omega arith;
    modifier = refl;
    contributing = ground arith;
    changed = omega arith;
    paced = omega arith;
    windows = omega arith;
    risen = h.risen;
  }

  -- A block or a denial, of a state that does not contribute.
  pub blocked-IsRated :
      {base : ℕ} (c : CandidateConfidence d) (s : CandidateState)
      → is_contributing_state d s ≡ false
      → IsRated base c
      → IsRated base (record c { state = s; confidence_modifier = d.zero })
  blocked-IsRated c s down h = record {
    rung = 0;
    known = omega arith;
    modifier = refl;
    contributing = down ∙ ground arith;
    changed = h.changed;
    paced = omega arith;
    windows = h.windows;
    risen = h.risen;
  }
