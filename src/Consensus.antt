-- ===== src/Consensus.antt =====
-- What the sources say together, and the latest exposures of each of them
-- (crates/copytrade-core/src/consensus.rs).
pub mod Book
pub mod Bounds
mod Tests
use Prim.Native.String.{◌++◌ as append}
use hyperliquid.Base.{
  ℕ, ◌==◌, Bool, true, false, not, ◌||◌, ◌&&◌, Option, none, some, List, [], ◌∷◌, String, Result,
  ok, err, ◌>>=◌, ◌>>◌, fail_if, ok_or, if◌then◌else◌, leb, ltb,
}
use hyperliquid.BTreeMap.{string_ord, BTreeMap, get, insert, remove, contains_key, values}
use hyperliquid.Float.{Float, clamp}
use hyperliquid.Decimal.{Decimal}

pub data SourceExposureUpdate : Type 0 where
  inserted freshness_only replaced rejected_older_or_equal : SourceExposureUpdate

module _ (d : Decimal) where
  pub record SourceExposureState : Type 0 where
    pub accepted_sequence : ℕ
    pub payload_hash : ℕ
    pub exposures : BTreeMap String d.Value

  -- `SourceExposureBook`, by its one field.
  abbrev pub SourceExposureBook : Type 0
  SourceExposureBook = BTreeMap String SourceExposureState

  unfoldable pub accept_source_exposure_state :
      Option SourceExposureState → SourceExposureState → SourceExposureState × SourceExposureUpdate
  accept_source_exposure_state none incoming = (incoming, inserted)
  accept_source_exposure_state (some existing) incoming =
      if leb incoming.accepted_sequence existing.accepted_sequence
      then (existing, rejected_older_or_equal)
      else if incoming.payload_hash == existing.payload_hash
      then (record existing { accepted_sequence = incoming.accepted_sequence }, freshness_only)
      else (incoming, replaced)

  unfoldable pub accept :
      String → SourceExposureState → SourceExposureBook → SourceExposureBook × SourceExposureUpdate
  unfolding accept_source_exposure_state
  accept candidate_id incoming book =
      let (state, outcome) = accept_source_exposure_state (get candidate_id book) incoming in
      (insert candidate_id state (remove candidate_id book), outcome)

module _ (f : Float) where
  pub record ConsensusInput : Type 0 where
    pub candidate_id : String
    pub allocation_weight : f.Value
    pub confidence_modifier : f.Value
    pub source_exposure : f.Value
    pub enabled : Bool
    pub quarantined : Bool
    pub snapshot_age_ms : ℕ

  pub record ConsensusResult : Type 0 where
    pub exposure : f.Value
    pub contribution_by_candidate : BTreeMap String f.Value

  -- `ConsensusError`, by its text.
  abbrev pub ConsensusError : Type 0
  ConsensusError = String

  unfoldable pub check_input : ConsensusInput → Result ConsensusError (Unit {0})
  check_input input = do
    fail_if (not (f.is_finite input.allocation_weight) || f.lt input.allocation_weight (f.of_ℕ 0))
        (append "invalid allocation_weight for " input.candidate_id)
    fail_if
        (not (f.is_finite input.confidence_modifier)
          || not (
              f.leb (f.of_ℕ 0) input.confidence_modifier
              && f.leb input.confidence_modifier (f.of_ℕ 1)))
        (append "invalid confidence_modifier for " input.candidate_id)
    fail_if (not (f.is_finite input.source_exposure))
        (append "non-finite source exposure for " input.candidate_id)

  abbrev pub is_skipped : ℕ → ConsensusInput → Bool
  is_skipped max_age input =
      not input.enabled
      || input.quarantined
      || ltb max_age input.snapshot_age_ms
      || f.eq input.allocation_weight (f.of_ℕ 0)

  abbrev pub contribution_of : f.Value → ConsensusInput → f.Value
  contribution_of max_exposure input =
      f.mul (f.mul input.allocation_weight input.confidence_modifier)
        (clamp f input.source_exposure (f.neg max_exposure) max_exposure)

  -- The contribution of an input that counts.
  unfoldable pub add_contribution :
      f.Value
      → ConsensusInput
      → BTreeMap String f.Value
      → Result ConsensusError (BTreeMap String f.Value)
  add_contribution max_exposure input contributions = do
    fail_if (contains_key input.candidate_id contributions)
        (append "duplicate candidate contribution for " input.candidate_id)
    let contribution = contribution_of max_exposure input
    fail_if (not (f.is_finite contribution))
        (append "non-finite source contribution for " input.candidate_id)
    ok (insert input.candidate_id contribution contributions)

  unfoldable pub add_contributions :
      f.Value
      → ℕ
      → List ConsensusInput
      → BTreeMap String f.Value
      → Result ConsensusError (BTreeMap String f.Value)
  unfolding check_input add_contribution
  add_contributions max_exposure max_age [] contributions = ok contributions
  add_contributions max_exposure max_age (input ∷ inputs) contributions = check_input input >>= λ _.
      elim (is_skipped max_age input) [
        | true ↦ add_contributions max_exposure max_age inputs contributions
        | false ↦ add_contribution max_exposure input contributions >>= λ next.
            add_contributions max_exposure max_age inputs next
      ]

  -- `try_fold`, none where a partial sum is not finite.
  unfoldable pub sum_finite : f.Value → List f.Value → Option f.Value
  sum_finite sum [] = some sum
  sum_finite sum (v ∷ vs) =
      let rest = sum_finite (f.add sum v) vs in if f.is_finite (f.add sum v) then rest else none

  -- The result for the contributions.
  unfoldable pub conclude : BTreeMap String f.Value → Result ConsensusError ConsensusResult
  unfolding sum_finite
  conclude [] = ok (record { exposure = f.of_ℕ 0; contribution_by_candidate = [] })
  conclude (e ∷ contributions) = do
    sum ←
        ok_or (sum_finite (f.of_ℕ 0) (values (e ∷ contributions)))
          "consensus exposure is non-finite"
    ok (record {
      exposure = clamp f sum (f.neg (f.of_ℕ 1)) (f.of_ℕ 1);
      contribution_by_candidate = e ∷ contributions;
    })

  unfoldable pub bounded_additive_consensus :
      List ConsensusInput → f.Value → ℕ → Result ConsensusError ConsensusResult
  unfolding add_contributions conclude
  bounded_additive_consensus inputs max_source_exposure source_snapshot_max_age_ms = do
    fail_if (not (f.is_finite max_source_exposure) || f.lt max_source_exposure (f.of_ℕ 0))
        "max_source_exposure must be finite and non-negative"
    fail_if (source_snapshot_max_age_ms == 0) "source_snapshot_max_age_ms must be positive"
    contributions ← add_contributions max_source_exposure source_snapshot_max_age_ms inputs []
    conclude contributions
