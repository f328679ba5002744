-- ===== src/Confidence.antt =====
-- The confidence that a candidate is given, which rises and falls by rungs
-- (crates/copytrade-core/src/confidence.rs).
pub mod Rungs
pub mod Rated
pub mod Runs
mod Tests
use hyperliquid.Base.{
  ℕ, ◌+◌, ◌-◌, Bool, true, false, not, ◌||◌, ◌&&◌, Option, none, some, List, [], ◌∷◌, Result, ok,
  err, if◌then◌else◌, ite, ltb, leb, min, checked_add, u32_mod, map,
}
use hyperliquid.Float.{Float}
use hyperliquid.Decimal.{Decimal, is_zero}

pub data CandidateState : Type 0 where
  warmup active decayed quarantined integrity_blocked manual_denylist : CandidateState

pub data ConfidenceOutcome : Type 0 where
  gathering_data held increased_one_rung reduced_one_rung quarantined : ConfidenceOutcome
  reentered_warmup integrity_blocked manual_denylisted : ConfidenceOutcome

pub data ConfidenceError : Type 0 where
  invalid_confidence_level non_finite_metric : ConfidenceError
  episode_count_regressed permanently_blocked : ConfidenceError

abbrev pub is_blocked : CandidateState → Bool
is_blocked CandidateState.integrity_blocked = true
is_blocked manual_denylist = true
is_blocked warmup = false
is_blocked active = false
is_blocked decayed = false
is_blocked CandidateState.quarantined = false

abbrev pub is_quarantined : CandidateState → Bool
is_quarantined CandidateState.quarantined = true
is_quarantined CandidateState.integrity_blocked = false
is_quarantined manual_denylist = false
is_quarantined warmup = false
is_quarantined active = false
is_quarantined decayed = false

module _ (d : Decimal) where
  pub record CandidateConfidence : Type 0 where
    pub state : CandidateState
    pub confidence_modifier : d.Value
    pub closed_episodes : ℕ
    pub active_days : ℕ
    pub last_rung_change_episode : ℕ
    pub consecutive_reentry_windows : ℕ

  -- `CONFIDENCE_LEVELS`, and what is at an index: the last beyond the end, where the code does not read.
  abbrev pub levels : List d.Value
  levels =
      d.zero
      ∷ d.from_parts 25 3
      ∷ d.from_parts 5 2
      ∷ d.from_parts 10 2
      ∷ d.from_parts 25 2
      ∷ d.from_parts 50 2
      ∷ d.one
      ∷ []

  abbrev pub nth : List d.Value → ℕ → d.Value
  nth [] i = d.one
  nth (v ∷ vs) ℕ.zero = v
  nth (v ∷ vs) (ℕ.suc i) = nth vs i

  abbrev pub level : ℕ → d.Value
  level i = nth levels i

  -- `position`
  unfoldable pub position : List d.Value → d.Value → Option ℕ
  position [] v = none
  position (w ∷ ws) v =
      let rest = position ws v in
      ite (d.dec w v) (some 0) (elim rest [ none ↦ none | some i ↦ some (ℕ.suc i) ])

  abbrev pub confidence_index : d.Value → Option ℕ
  confidence_index v = position levels v

  abbrev pub index_or : Option ℕ → ℕ → ℕ
  index_or none i = i
  index_or (some i) j = i

  abbrev pub state_for_confidence : d.Value → CandidateState
  state_for_confidence v =
      if ite (d.dec v d.one) true false
      then active
      else if is_zero d v
      then CandidateState.quarantined
      else decayed

  abbrev contains_level : Option ℕ → Bool
  contains_level none = false
  contains_level (some _) = true

  unfoldable pub new : d.Value → Result ConfidenceError CandidateConfidence
  unfolding position
  new base =
      if not (contains_level (confidence_index base)) || is_zero d base
      then err invalid_confidence_level
      else ok (record {
        state = warmup;
        confidence_modifier = base;
        closed_episodes = 0;
        active_days = 0;
        last_rung_change_episode = 0;
        consecutive_reentry_windows = 0;
      })

  abbrev pub is_contributing_state : CandidateState → Bool
  is_contributing_state s = not (is_blocked s || is_quarantined s)

  unfoldable pub contributes_to_consensus : CandidateConfidence → Bool
  contributes_to_consensus c =
      is_contributing_state c.state && not (d.leb c.confidence_modifier d.zero)

  unfoldable pub increase_one_rung : CandidateConfidence → CandidateConfidence
  unfolding position
  increase_one_rung c =
      let v = level (min (index_or (confidence_index c.confidence_modifier) 0 + 1) 6) in
      record c { confidence_modifier = v; state = state_for_confidence v }

  unfoldable pub reduce_one_rung : CandidateConfidence → CandidateConfidence
  unfolding position
  reduce_one_rung c =
      let v = level (index_or (confidence_index c.confidence_modifier) 1 - 1) in
      record c {
        confidence_modifier = v;
        state = if is_zero d v then CandidateState.quarantined else decayed;
      }

  unfoldable pub block_integrity : CandidateConfidence → CandidateConfidence × ConfidenceOutcome
  block_integrity c = (
    record c { state = CandidateState.integrity_blocked; confidence_modifier = d.zero },
    ConfidenceOutcome.integrity_blocked,
  )

  unfoldable pub manual_denylist_candidate :
      CandidateConfidence → CandidateConfidence × ConfidenceOutcome
  manual_denylist_candidate c =
      (record c { state = manual_denylist; confidence_modifier = d.zero }, manual_denylisted)

  -- `candidate.last_rung_change_episode = review.closed_episodes`, after the counts were taken over.
  abbrev pub mark_change : CandidateConfidence → CandidateConfidence
  mark_change c = record c { last_rung_change_episode = c.closed_episodes }

  abbrev pub hold : CandidateConfidence → CandidateConfidence
  hold c = record c { state = state_for_confidence c.confidence_modifier }

  abbrev pub quarantine : CandidateConfidence → CandidateConfidence
  quarantine c = record c {
    state = CandidateState.quarantined;
    confidence_modifier = d.zero;
    consecutive_reentry_windows = 0;
  }

  module _ (f : Float) where
    pub record ConfidenceReview : Type 0 where
      pub closed_episodes : ℕ
      pub active_days : ℕ
      pub net_expectancy : f.Value
      pub annualized_sharpe : f.Value

    -- The review of a candidate that is not quarantined, after its counts were taken over.
    unfoldable pub review_rung :
        ConfidenceReview → CandidateConfidence → CandidateConfidence × ConfidenceOutcome
    unfolding increase_one_rung reduce_one_rung
    review_rung r c =
        let rung_eligible = leb 25 (c.closed_episodes - c.last_rung_change_episode) in
        if ltb c.closed_episodes 50
        then (record c { state = warmup }, gathering_data)
        else if ltb c.closed_episodes 100 || ltb c.active_days 14
        then if f.lt r.net_expectancy (f.of_ℕ 0) && rung_eligible
          then (mark_change (reduce_one_rung c), reduced_one_rung)
          else (hold c, held)
        else if f.lt r.annualized_sharpe (f.of_ℕ 0)
        then (mark_change (quarantine c), ConfidenceOutcome.quarantined)
        else if not rung_eligible
        then (hold c, held)
        else if f.leb (f.of_ℕ 15) r.annualized_sharpe
        then (mark_change (increase_one_rung c), increased_one_rung)
        else if f.lt r.annualized_sharpe (f.of_ℕ 10)
        then (mark_change (reduce_one_rung c), reduced_one_rung)
        else (hold c, held)

    unfoldable pub apply_confidence_review :
        ConfidenceReview
        → CandidateConfidence
        → CandidateConfidence × Result ConfidenceError ConfidenceOutcome
    unfolding review_rung
    apply_confidence_review r c =
        let counted : CandidateConfidence = record c {
          closed_episodes = r.closed_episodes;
          active_days = r.active_days;
        } in
        let reviewed = review_rung r counted in
        if is_blocked c.state
        then (c, err permanently_blocked)
        else if not (f.is_finite r.net_expectancy) || not (f.is_finite r.annualized_sharpe)
        then (c, err non_finite_metric)
        else if ltb r.closed_episodes c.closed_episodes
        then (c, err episode_count_regressed)
        else if is_quarantined c.state
        then (counted, ok ConfidenceOutcome.quarantined)
        else (reviewed.0, ok reviewed.1)

    -- What follows from the number of windows in a row.
    abbrev pub conclude_windows :
        CandidateConfidence → CandidateConfidence × Result ConfidenceError ConfidenceOutcome
    conclude_windows c =
        if leb 3 c.consecutive_reentry_windows
        then (
          record c {
            state = warmup;
            confidence_modifier = level 1;
            consecutive_reentry_windows = 0;
            last_rung_change_episode = c.closed_episodes;
          },
          ok reentered_warmup,
        )
        else (c, ok ConfidenceOutcome.quarantined)

    unfoldable pub observe_quarantine_reentry_window :
        f.Value
        → CandidateConfidence
        → CandidateConfidence × Result ConfidenceError ConfidenceOutcome
    observe_quarantine_reentry_window sharpe c =
        if not (is_quarantined c.state)
        then (c, ok held)
        else if not (f.is_finite sharpe)
        then (c, err non_finite_metric)
        else if f.leb (f.of_ℕ 15) sharpe
        then elim (checked_add u32_mod c.consecutive_reentry_windows 1) [
          | none ↦ (c, err episode_count_regressed)
          | some n ↦ conclude_windows (record c { consecutive_reentry_windows = n })
        ]
        else conclude_windows (record c { consecutive_reentry_windows = 0 })
