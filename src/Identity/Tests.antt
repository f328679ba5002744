-- ===== src/Identity/Tests.antt =====
-- The bytes of one planned action.
use hyperliquid.Base.{ℕ, ◌≡◌, true, List, ok, refl, arith, unwrap_or, []}
use hyperliquid.Identity.{buy, PlannedCloidInput, as_bytes, canonical_string, cloid_bytes}
use hyperliquid.Identity.Injective.{IsSized, cloid_bytes_injective}

abbrev sample : PlannedCloidInput
sample = record {
  engine_instance_id = 1;
  decision_id = 2;
  target_version = 3;
  asset = "ETH";
  side = buy;
  reduce_only = true;
  action_ordinal = 4;
  retry_generation = 5;
}

abbrev sample_bytes : List ℕ
sample_bytes = unwrap_or (cloid_bytes sample) []

sample-bytes : cloid_bytes sample ≡ ok sample_bytes
unfolding cloid_bytes canonical_string as_bytes
sample-bytes = refl

sample-IsSized : IsSized sample
sample-IsSized = record {
  engine = omega arith;
  decision = omega arith;
  version = omega arith;
  ordinal = omega arith;
  generation = omega arith;
}

cloid_bytes_injective_example : sample ≡ sample
cloid_bytes_injective_example =
    cloid_bytes_injective sample sample sample-IsSized sample-IsSized sample-bytes sample-bytes
