-- ===== src/Decision/Tests.antt =====
-- The planned actions of one decision, with numbers of eight decimal places.
use hyperliquid.Base.{ℕ, ◌*◌, ◌^◌, true, false, List, [], ◌∷◌, Bool, String}
use hyperliquid.BTreeMap.{string_ord, BTreeMap}
use hyperliquid.Decimal.{fixed, pos, negsuc, ℤ}
use hyperliquid.Identity.{buy, sell}
use hyperliquid.Lifecycle.{PlannedAction}
use hyperliquid.Decision.{DecisionRecord}
use hyperliquid.Decision.Plans.{Plans}

abbrev units : ℕ → ℤ
units n = pos (n * 10 ^ 8)

-- A function in place of the hash.
abbrev hash : List ℕ → ℕ
hash bytes = 7 * 2 ^ 128

-- "BTC" is to be left, but its delta was rounded to zero.
abbrev decision : DecisionRecord fixed
decision = record {
  decision_id = 1;
  decision_sequence = 2;
  target_version = 3;
  target_hash = 4;
  config_hash = 5;
  risk_policy_hash = 6;
  snapshot_set_id = 7;
  eligibility_hash = 8;
  market_snapshot_id = 9;
  consensus = [];
  unconstrained_targets = [];
  retained_below_minimum = [];
  micro_slots = [];
  projection = record {
    constrained_targets = [];
    proposed_deltas = ("BTC", negsuc 41) ∷ ("ETH", units 5) ∷ [];
    rounded_deltas = ("BTC", pos 0) ∷ ("ETH", units 5) ∷ ("SOL", pos 0) ∷ [];
    projected_ranges = [];
    maximum_projected_gross = pos 0;
    minimum_projected_net = pos 0;
    maximum_projected_net = pos 0;
  };
  created_at_mono = 10;
}

abbrev reduce_only : BTreeMap String Bool
reduce_only = ("BTC", true) ∷ []

abbrev actions : List (PlannedAction fixed)
actions =
    record {
      decision_id = 1;
      target_version = 3;
      asset = "BTC";
      side = sell;
      rounded_notional = pos 42;
      reduce_only = true;
      action_ordinal = 0;
      retry_generation = 0;
      planned_cloid = 7;
    }
    ∷ record {
      decision_id = 1;
      target_version = 3;
      asset = "ETH";
      side = buy;
      rounded_notional = units 5;
      reduce_only = false;
      action_ordinal = 1;
      retry_generation = 0;
      planned_cloid = 7;
    }
    ∷ []
