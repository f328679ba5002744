-- ===== src/Decision/Plans.antt =====
-- The actions of a decision are those of its deltas, in their order and numbered from zero.
use hyperliquid.Base.{ℕ, suc, ◌<◌, ◌≡◌, ◌⊎◌, Bool, true, false, List, [], ◌∷◌, String, ok, u32_mod}
use hyperliquid.BTreeMap.{string_ord, BTreeMap, get}
use hyperliquid.Ledger.{or_default}
use hyperliquid.Decimal.{Decimal, lt}
use hyperliquid.Identity.{buy, sell, derive_planned_cloid}
use hyperliquid.Lifecycle.{PlannedAction}
use hyperliquid.Decision.{DecisionRecord, actionable_delta}

module _ (d : Decimal) (sha256 : List ℕ → ℕ) (engine : ℕ) (decision : DecisionRecord d)
    (reduce : BTreeMap String Bool) where
  -- The action trades the delta of the asset, under the identity of the decision and its own number, and
  -- its cloid is derived from its own fields.
  pub record IsActionFor (asset : String) (delta : d.Value) (n : ℕ) (a : PlannedAction d)
      : Type 0 where
    pub decided : a.decision_id ≡ decision.decision_id
    pub versioned : a.target_version ≡ decision.target_version
    pub same_asset : a.asset ≡ asset
    pub direction :
        ((lt d d.zero delta ≡ true) × (a.side ≡ buy))
        ⊎ ((lt d delta d.zero ≡ true) × (a.side ≡ sell))
    pub notional : a.rounded_notional ≡ d.abs delta
    pub reducing : a.reduce_only ≡ or_default (get asset reduce) false
    pub numbered : a.action_ordinal ≡ n
    pub first_try : a.retry_generation ≡ 0
    pub fits : n < u32_mod
    pub identified :
        derive_planned_cloid sha256 (record {
          engine_instance_id = engine;
          decision_id = a.decision_id;
          target_version = a.target_version;
          asset = a.asset;
          side = a.side;
          reduce_only = a.reduce_only;
          action_ordinal = a.action_ordinal;
          retry_generation = a.retry_generation;
        })
        ≡ ok a.planned_cloid

  -- The actions for the deltas from a number on: one for each delta that is acted on, none for the others.
  pub data Plans : ℕ → BTreeMap String d.Value → List (PlannedAction d) → Type 0 where
    done : {n : ℕ} → Plans n [] []
    skipped :
        {n : ℕ} {asset : String} {delta : d.Value} {deltas : BTreeMap String d.Value}
        {acts : List (PlannedAction d)}
        → actionable_delta d sha256 engine decision reduce asset delta ≡ d.zero
        → Plans n deltas acts
        → Plans n ((asset, delta) ∷ deltas) acts
    planned :
        {n : ℕ} {asset : String} {delta : d.Value} {deltas : BTreeMap String d.Value}
        {a : PlannedAction d} {acts : List (PlannedAction d)}
        → IsActionFor asset (actionable_delta d sha256 engine decision reduce asset delta) n a
        → Plans (suc n) deltas acts
        → Plans n ((asset, delta) ∷ deltas) (a ∷ acts)
