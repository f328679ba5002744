-- ===== src/Confidence/Tests.antt =====
-- The theorems of the confidence at one candidate, with numbers of eight decimal places.
use native.Mathlib.Decide.{ℕ_discrete}
use hyperliquid.Base.{◌≡◌, some, ok, ltb, refl}
use hyperliquid.Float.{fixed_float}
use hyperliquid.Decimal.{fixed, pos, ℤ-discrete}
use hyperliquid.Confidence.{
  CandidateConfidence, ConfidenceReview, warmup, position, new, apply_confidence_review,
  contributes_to_consensus, confidence_index,
}
use hyperliquid.Confidence.Rated.{IsRated}
use hyperliquid.Confidence.Runs.{here, reviewing, reached-IsRated}

abbrev begun : CandidateConfidence fixed
begun = record {
  state = warmup;
  confidence_modifier = pos 25000000;
  closed_episodes = 0;
  active_days = 0;
  last_rung_change_episode = 0;
  consecutive_reentry_windows = 0;
}

abbrev good : ConfidenceReview fixed fixed_float
good = record {
  closed_episodes = 120;
  active_days = 20;
  net_expectancy = pos 100000000;
  annualized_sharpe = pos 1600000000;
}

quarter : confidence_index fixed (pos 25000000) ≡ some 4
unfolding position ℤ-discrete ℕ_discrete
quarter = refl

begins : new fixed (pos 25000000) ≡ ok begun
unfolding new ℤ-discrete ℕ_discrete
begins = refl

abbrev raised : CandidateConfidence fixed
raised = (apply_confidence_review fixed fixed_float good begun).0

-- A good review takes the candidate one level higher.
raised_once : raised.confidence_modifier ≡ pos 50000000
unfolding apply_confidence_review ℤ-discrete ℕ_discrete
raised_once = refl

reached-IsRated_example :
    (h : IsRated fixed 4 raised) × (contributes_to_consensus fixed raised ≡ ltb 0 h.rung)
reached-IsRated_example =
    reached-IsRated fixed fixed_float (pos 25000000) 4 quarter begins (reviewing good here)
