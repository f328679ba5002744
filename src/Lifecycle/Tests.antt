-- ===== src/Lifecycle/Tests.antt =====
-- The theorems of the planned actions at one action, with whole numbers for decimals.
use native.Mathlib.Decide.{ℕ_discrete}
use hyperliquid.Base.{
  ◌+◌, ◌-◌, ◌*◌, ◌≤◌, ◌≡◌, ◌≢◌, false, some, List, [], ◌∷◌, ok, err, refl, arith,
}
use hyperliquid.BTreeMap.{get, string_ord, String-discrete}
use hyperliquid.Decimal.{fixed, pos}
use hyperliquid.Identity.{buy}
use hyperliquid.Lifecycle.{
  PlannedAction, LifecycleState, LifecycleEvent, ReconciliationPolicy, awaiting_future_submission,
  submission_unknown, reconciled_not_found, reconciled_filled, reconciled_partially_filled,
  future_submission_unknown, reconciliation_observed, filled, not_found, rejected, validate,
  reconciliation_attempt_limit,
}
use hyperliquid.Lifecycle.Events.{confirm_not_found, action}
use hyperliquid.Lifecycle.Laws.Lasting.{AtLeast}
use hyperliquid.Lifecycle.Pacing.{IsCounted, paced, confirm_elapsed, confirm_no_limit}
use hyperliquid.Lifecycle.Runs.{history, history-AtLeast}
use hyperliquid.Lifecycle.Registry.{
  LifecycleRegistry, insert_state, apply, compact_terminal, authorization_for_asset,
  no_increase_permitted,
}
use hyperliquid.Lifecycle.Registry.Runs.{here, inserting, applying, compacting, Reach-IsIndexed}
use hyperliquid.Lifecycle.Registry.Laws.{IsIndexed, unknown_blocks}

abbrev policy : ReconciliationPolicy
policy = record {
  required_not_found_confirmations = 2;
  minimum_confirmation_interval_ms = 10;
  maximum_attempts = 3;
  maximum_unknown_lifetime_ms = 100;
}

policy_valid : validate policy ≡ ok policy
unfolding validate
policy_valid = refl

abbrev plan : PlannedAction fixed
plan = record {
  decision_id = 4;
  target_version = 1;
  asset = "BTC";
  side = buy;
  rounded_notional = pos 50;
  reduce_only = false;
  action_ordinal = 0;
  retry_generation = 0;
  planned_cloid = 7;
}

abbrev events : List (LifecycleEvent fixed)
events =
    future_submission_unknown 20
    ∷ reconciliation_observed (filled "9" (pos 5) 25)
    ∷ reconciliation_observed (rejected "late" 26)
    ∷ []

abbrev part : LifecycleState fixed
part = reconciled_partially_filled plan "9" (pos 4)

history-AtLeast_example : AtLeast fixed (pos 3) (history fixed policy events part)
history-AtLeast_example = history-AtLeast fixed policy (pos 3) events part refl

abbrev whole : LifecycleState fixed
whole = reconciled_filled plan "9" (pos 5)

counted : IsCounted policy 20 1 (31 ∷ [])
counted = record {
  counted = refl;
  paced = paced 31 refl (omega arith) (omega arith);
  short = omega arith;
}

confirm_made :
    confirm_not_found fixed policy plan 20 1 (31 ∷ []) 45 ≡ ok (reconciled_not_found plan)
unfolding confirm_not_found
confirm_made = refl

confirm_elapsed_example : (20 + (2 - 1) * 10 ≤ 45) × (45 ≤ 20 + 100)
confirm_elapsed_example =
    confirm_elapsed policy policy_valid (omega arith) fixed plan 20 1 (31 ∷ []) 45 {b = plan}
      counted (omega arith) confirm_made

confirm_repeated :
    confirm_not_found fixed policy plan 20 1 (31 ∷ []) 31
    ≡ ok (submission_unknown plan 20 1 (31 ∷ []))
unfolding confirm_not_found
confirm_repeated = refl

confirm_no_limit_example :
    confirm_not_found fixed policy plan 20 1 (31 ∷ []) 45 ≢ err reconciliation_attempt_limit
confirm_no_limit_example =
    confirm_no_limit policy policy_valid (omega arith) fixed plan 20 1 (31 ∷ []) 45 counted

-- A registry with the action, whose submission is unknown.
abbrev registry : LifecycleState fixed → LifecycleRegistry fixed
registry state = record {
  by_cloid = (7, state) ∷ [];
  by_asset = ("BTC", (7, tt) ∷ []) ∷ [];
  blocked_assets = [];
  maximum_entries = 2;
}

registry-IsIndexed :
    (s : LifecycleState fixed) → action fixed s ≡ some plan → IsIndexed fixed (registry s)
unfolding get String-discrete ℕ_discrete
registry-IsIndexed s e = record {
  bounded = omega arith;
  all = (record { planned = plan; of = e; key = refl; filed = refl }, tt);
}

abbrev unknown : LifecycleState fixed
unknown = submission_unknown plan 20 1 (31 ∷ [])

unknown-IsIndexed : IsIndexed fixed (registry unknown)
unfolding action
unknown-IsIndexed = registry-IsIndexed unknown refl

whole-IsIndexed : IsIndexed fixed (registry whole)
unfolding action
whole-IsIndexed = registry-IsIndexed whole refl

abbrev later : LifecycleState fixed
later = awaiting_future_submission (record plan { planned_cloid = 8 })

-- An insertion, an observation and a compaction.
Reach-IsIndexed_example :
    IsIndexed fixed
      (compact_terminal fixed 5
        (apply fixed 7
          (reconciliation_observed (not_found 45))
          policy
          (insert_state fixed later (registry unknown)).0).0).0
Reach-IsIndexed_example = Reach-IsIndexed fixed (registry unknown) unknown-IsIndexed (
    compacting 5
      (applying 7 (reconciliation_observed (not_found 45)) policy (inserting later here)))

unknown_blocks_example :
    authorization_for_asset fixed "BTC" (registry unknown) ≡ no_increase_permitted
unfolding get ℕ_discrete
unknown_blocks_example = unknown_blocks fixed (registry unknown) 7 unknown-IsIndexed refl

abbrev late_rejection : LifecycleEvent fixed
late_rejection = reconciliation_observed (rejected "late" 26)
