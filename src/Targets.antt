-- ===== src/Targets.antt =====
-- The ledger of virtual targets (crates/copytrade-core/src/target_state.rs).
mod Tests
pub mod Laws
use hyperliquid.Base.{
  ℕ, Bool, true, false, not, ◌&&◌, ◌==◌, Option, none, some, List, [], ◌∷◌, ◌++◌, String, Result,
  ok, err, ◌>>=◌, ◌>>◌, fail_if, ok_or, if◌then◌else◌, ite, all, map,
}
use hyperliquid.BTreeMap.{string_ord, BTreeMap, get, insert, keys, values, is_some}
use hyperliquid.Decimal.{Decimal, lt, is_zero}
use hyperliquid.Ledger.{differ}
use hyperliquid.Portfolio.{collect, to_set, or_default}

pub data TargetStateError : Type 0 where
  arithmetic_overflow persistence : String → TargetStateError
  schema_mismatch : TargetStateError

module _ (d : Decimal) where
  pub record VirtualTargetState : Type 0 where
    pub raw_desired_notional : d.Value
    pub admitted_target_notional : d.Value
    pub filled_notional : d.Value
    pub acknowledged_open_notional : d.Value
    pub unknown_result_notional : d.Value
    pub executable_residual : d.Value
    pub target_version : ℕ
    pub latest_source_set_id : ℕ

  pub record VirtualTargetLedger : Type 0 where
    pub schema_version : ℕ
    pub assets : BTreeMap String VirtualTargetState

  -- `VirtualTargetLedger::default`
  abbrev pub no_targets : VirtualTargetLedger
  no_targets = record { schema_version = 1; assets = [] }

  -- The five vectors that `replace_absolute_targets` takes.
  pub record Exposures : Type 0 where
    pub raw_desired : BTreeMap String d.Value
    pub admitted_targets : BTreeMap String d.Value
    pub filled : BTreeMap String d.Value
    pub acknowledged_open : BTreeMap String d.Value
    pub unknown_result : BTreeMap String d.Value

  abbrev pub at : String → BTreeMap String d.Value → d.Value
  at asset m = or_default (get asset m) d.zero

  -- What is filled, open or unknown, and the target less that.
  unfoldable pub residual_of :
      d.Value → d.Value → d.Value → d.Value → Result TargetStateError d.Value
  residual_of admitted filled acknowledged unknown = do
    known ← ok_or (d.checked_add filled acknowledged) (arithmetic_overflow "committed exposure")
    committed ← ok_or (d.checked_add known unknown) (arithmetic_overflow "committed exposure")
    ok_or (d.checked_sub admitted committed) (arithmetic_overflow "target residual")

  -- The body of the loop over the assets.
  unfoldable pub target_of : Exposures → ℕ → ℕ → String → Result TargetStateError VirtualTargetState
  unfolding residual_of
  target_of e target_version source_set_id asset = do
    let admitted = at asset e.admitted_targets
    let filled = at asset e.filled
    let acknowledged = at asset e.acknowledged_open
    let unknown = at asset e.unknown_result
    residual ← residual_of admitted filled acknowledged unknown
    ok (record {
      raw_desired_notional = at asset e.raw_desired;
      admitted_target_notional = admitted;
      filled_notional = filled;
      acknowledged_open_notional = acknowledged;
      unknown_result_notional = unknown;
      executable_residual = residual;
      target_version = target_version;
      latest_source_set_id = source_set_id;
    })

  -- The assets that the ledger had and those of the vectors.
  unfoldable pub all_assets : Exposures → VirtualTargetLedger → List String
  unfolding to_set
  all_assets e ledger = keys (
      to_set
        (keys ledger.assets
          ++ (keys e.raw_desired
              ++ (keys e.admitted_targets
                  ++ (keys e.filled ++ (keys e.acknowledged_open ++ keys e.unknown_result)))))
        [])

  unfoldable pub replace_absolute_targets :
      Exposures → ℕ → ℕ → VirtualTargetLedger → Result TargetStateError VirtualTargetLedger
  unfolding collect target_of all_assets
  replace_absolute_targets e target_version source_set_id ledger = do
    replacement ← collect (target_of e target_version source_set_id) (all_assets e ledger) []
    ok (record ledger { assets = replacement })

  -- `admitted_targets`
  abbrev pub admitted_of : VirtualTargetLedger → BTreeMap String d.Value
  admitted_of ledger = map (λ e. (e.0, e.1.admitted_target_notional)) ledger.assets

  -- The version that all states have.
  unfoldable pub common_version : List VirtualTargetState → Option ℕ
  common_version [] = none
  common_version (s ∷ states) =
      if all (λ t. t.target_version == s.target_version) states then some s.target_version else none

  abbrev pub latest_target_version : VirtualTargetLedger → Option ℕ
  latest_target_version ledger = common_version (values ledger.assets)

  -- The `filter_map` of `retained_below_minimum`, for a state.
  unfoldable pub raw_gap : VirtualTargetState → Option d.Value
  raw_gap s = elim (d.checked_add s.filled_notional s.acknowledged_open_notional) [
    | some known ↦ elim (d.checked_add known s.unknown_result_notional) [
      | some committed ↦ d.checked_sub s.raw_desired_notional committed
      | none ↦ none
    ]
    | none ↦ none
  ]

  unfoldable pub retained_below_minimum :
      d.Value → BTreeMap String VirtualTargetState → BTreeMap String d.Value
  unfolding raw_gap
  retained_below_minimum minimum_notional [] = []
  retained_below_minimum minimum_notional ((asset, s) ∷ rest) =
      let after = retained_below_minimum minimum_notional rest in
      elim (raw_gap s) [
        | some gap ↦
            if not (is_zero d gap) && lt d (d.abs gap) minimum_notional
            then (asset, gap) ∷ after
            else after
        | none ↦ after
      ]

  -- The loop of `validate_integrity`.
  unfoldable pub check_states : List VirtualTargetState → Result TargetStateError (Unit {0})
  unfolding residual_of
  check_states [] = ok tt
  check_states (s ∷ states) =
      let after = check_states states in
      residual_of s.admitted_target_notional s.filled_notional s.acknowledged_open_notional
        s.unknown_result_notional
      >>= λ expected.
          fail_if (differ d expected s.executable_residual)
            (persistence "target residual invariant mismatch")
          >> after

  unfoldable pub validate_integrity : VirtualTargetLedger → Result TargetStateError (Unit {0})
  unfolding check_states common_version
  validate_integrity ledger = do
    fail_if (not (ledger.schema_version == 1)) schema_mismatch
    check_states (values ledger.assets)
    elim ledger.assets [
      | [] ↦ ok tt
      | _ ∷ _ ↦
          fail_if (not (is_some (latest_target_version ledger)))
            (persistence "target versions are inconsistent")
    ]
