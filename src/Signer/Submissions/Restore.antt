-- ===== src/Signer/Submissions/Restore.antt =====
-- What `SubmissionRegistry::restore` of crates/copytrade-signer/src/lib.rs tests of a registry that was
-- read back.
use hyperliquid.Base.{
  Bool, true, false, not, ◌||◌, Option, none, some, List, [], ◌∷◌, String, Result, ok, ltb, ◌==◌,
  ◌>>◌, fail_if, if◌then◌else◌, ite,
}
use hyperliquid.BTreeMap.{string_ord, String-discrete, BTreeMap, BTreeSet, add, size}
use hyperliquid.Decimal.{Decimal}
use hyperliquid.Signer.Intent.{
  SignerError, ApprovedExecutionIntent, invalid_configuration, cloid_mismatch,
  invalid_exchange_state, validate,
}
use hyperliquid.Signer.Submissions.{
  SubmissionState, SubmissionRegistry, SubmissionTransitionRecord, same_state, same_text,
}
use hyperliquid.Signer.Submissions.Transitions.{is_unknown}

unfoldable pub BTreeSet-discrete : Discrete (BTreeSet String)
unfolding String-discrete
BTreeSet-discrete = hlevel String-discrete

module _ (d : Decimal) where
  abbrev Entries : Type 0
  Entries = BTreeMap String (ApprovedExecutionIntent d × SubmissionState d)

  -- The first loop.
  unfoldable pub check_entries : Entries → Result SignerError (Unit {0})
  check_entries [] = ok tt
  check_entries ((cloid, (i, _)) ∷ m) = do
    validate d i
    fail_if (not (same_text cloid i.cloid)) cloid_mismatch
    check_entries m

  unfoldable pub expected_unknown : Entries → BTreeSet String
  expected_unknown [] = []
  expected_unknown ((_, (i, state)) ∷ m) =
      let rest = expected_unknown m in if is_unknown d state then add i.asset rest else rest

  -- `history.iter().rev().find(|event| &event.cloid == cloid)`, and its state
  unfoldable pub last_state :
      String → List (SubmissionTransitionRecord d) → Option (SubmissionState d)
  last_state cloid [] = none
  last_state cloid (e ∷ es) = elim (last_state cloid es) [
    | some state ↦ some state
    | none ↦ if same_text e.cloid cloid then some e.state else none
  ]

  -- The history does not end with the state.
  abbrev pub is_unlogged : List (SubmissionTransitionRecord d) → String → SubmissionState d → Bool
  is_unlogged history cloid state = elim (last_state cloid history) [
    | none ↦ true
    | some last ↦ not (same_state d last state)
  ]

  -- The second loop.
  unfoldable pub check_history :
      List (SubmissionTransitionRecord d) → Entries → Result SignerError (Unit {0})
  check_history history [] = ok tt
  check_history history ((cloid, (_, state)) ∷ m) = do
    fail_if (is_unlogged history cloid state) invalid_exchange_state
    check_history history m

  unfoldable pub check_restored : SubmissionRegistry d → Result SignerError (SubmissionRegistry d)
  check_restored r = do
    fail_if (r.maximum_entries == 0 || ltb r.maximum_entries (size r.by_cloid))
        invalid_configuration
    check_entries r.by_cloid
    fail_if
        (not (ite (BTreeSet-discrete r.unknown_assets (expected_unknown r.by_cloid)) true false))
        invalid_exchange_state
    check_history r.history r.by_cloid
    ok r
