-- ===== src/Consensus/Tests.antt =====
-- The theorems of the consensus at concrete sources, with numbers of eight decimal places.
use native.Mathlib.Decide.{ℕ_discrete}
use hyperliquid.Base.{ℕ, ◌*◌, ◌^◌, ◌≡◌, true, false, some, [], ◌∷◌, List, String, ok, err, refl}
use hyperliquid.BTreeMap.{string_ord, String-discrete, BTreeMap, get, insert, remove}
use hyperliquid.Float.{fixed_float}
use hyperliquid.Decimal.{fixed, pos, ℤ}
use hyperliquid.Consensus.{
  ConsensusInput, ConsensusResult, SourceExposureState, accept, bounded_additive_consensus,
}
use hyperliquid.Consensus.Book.{Call, accept_all, IsNewest, accept_all-IsNewest}
use hyperliquid.Consensus.Bounds.{IsConsensus, bounded_additive_consensus-IsConsensus}

abbrev units : ℕ → ℤ
units n = pos (n * 10 ^ 8)

abbrev source : String → ConsensusInput fixed_float
source id = record {
  candidate_id = id;
  allocation_weight = units 1;
  confidence_modifier = units 1;
  source_exposure = units 3;
  enabled = true;
  quarantined = false;
  snapshot_age_ms = 5;
}

abbrev agreed : ConsensusResult fixed_float
agreed = record {
  exposure = units 1;
  contribution_by_candidate = ("a", units 1) ∷ ("b", units 1) ∷ [];
}

-- Two sources that agree saturate.
saturated :
    bounded_additive_consensus fixed_float (source "b" ∷ source "a" ∷ []) (units 1) 10 ≡ ok agreed
unfolding bounded_additive_consensus insert get String-discrete
saturated = refl

duplicate :
    bounded_additive_consensus fixed_float (source "a" ∷ source "a" ∷ []) (units 1) 10
    ≡ err "duplicate candidate contribution for a"
unfolding bounded_additive_consensus insert get String-discrete
duplicate = refl

bounded_additive_consensus-IsConsensus_example :
    IsConsensus fixed_float (source "b" ∷ source "a" ∷ []) (units 1) 10 agreed
bounded_additive_consensus-IsConsensus_example =
    bounded_additive_consensus-IsConsensus fixed_float (source "b" ∷ source "a" ∷ []) (units 1) 10
      saturated

-- The exposures that a hash stands for.
abbrev content : ℕ → BTreeMap String ℤ
content hash = ("ETH", units hash) ∷ []

abbrev state : ℕ → ℕ → SourceExposureState fixed
state sequence hash = record {
  accepted_sequence = sequence;
  payload_hash = hash;
  exposures = content hash;
}

-- The call that comes last is late.
abbrev calls : List (Call fixed)
calls = ("a", state 2 4) ∷ ("b", state 9 4) ∷ ("a", state 3 6) ∷ ("a", state 1 6) ∷ []

late : get "a" (accept_all fixed calls) ≡ some (state 3 6)
unfolding accept_all accept get insert remove String-discrete ℕ_discrete
late = refl

accept_all-IsNewest_example : IsNewest fixed "a" calls (get "a" (accept_all fixed calls))
accept_all-IsNewest_example =
    accept_all-IsNewest fixed content calls "a" (refl, (refl, (refl, (refl, tt))))
