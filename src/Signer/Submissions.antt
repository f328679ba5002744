-- ===== src/Signer/Submissions.antt =====
-- The registry of submissions (`SubmissionRegistry` of crates/copytrade-signer/src/lib.rs). A method
-- that changes it returns the registry after the call beside its result.
pub mod Transitions
pub mod Laws
pub mod Runs
pub mod Restore
pub mod Durable
use native.Mathlib.Decide.{ℕ_discrete}
use hyperliquid.Base.{
  ℕ, ◌+◌, max, Bool, true, false, not, ◌||◌, ◌&&◌, Option, none, some, List, [], ◌∷◌, ◌++◌, String,
  Result, ok, err, leb, ltb, ◌==◌, ◌>>=◌, ◌>>◌, fail_if, length, filter, last?, ite, if◌then◌else◌,
  checked_add, saturating_add, u64_mod, u64_max, ok_or,
}
use hyperliquid.BTreeMap.{
  nat_ord, string_ord, String-discrete, BTreeMap, BTreeSet, get, insert, remove, contains_key,
  contains, add, size, values,
}
use hyperliquid.Decimal.{Decimal, lt}
use hyperliquid.Signer.Intent.{
  SignerError, ApprovedExecutionIntent, invalid_configuration, duplicate_cloid, unknown_cloid,
  asset_blocked_by_unknown_result, invalid_transition, nonce_overflow, confirmation_too_soon,
  cloid_mismatch, registry_capacity_exhausted, invalid_exchange_state, validate,
}

abbrev pub same_text : String → String → Bool
same_text a b = ite (String-discrete a b) true false

-- The larger of a nonce, where there is one, and the largest of the rest.
abbrev pub larger : Option ℕ → Option ℕ → Option ℕ
larger none best = best
larger (some n) none = some n
larger (some n) (some m) = some (max n m)

module _ (d : Decimal) where
  pub data SubmissionState : Type 0 where
    authorized authorized_not_submitted : SubmissionState
    nonce_allocated signed submission_started : ℕ → SubmissionState
    acknowledged : String → SubmissionState
    partially_filled filled : String → d.Value → SubmissionState
    cancelled : Option String → d.Value → SubmissionState
    rejected : String → SubmissionState
    unknown_result : ℕ → SubmissionState
    reconciled_not_found : SubmissionState

  unfoldable pub SubmissionState-discrete : Discrete SubmissionState
  unfolding String-discrete
  SubmissionState-discrete = hlevel (d.dec, String-discrete, ℕ_discrete)

  -- `==` of the derived `PartialEq`
  abbrev pub same_state : SubmissionState → SubmissionState → Bool
  same_state a b = ite (SubmissionState-discrete a b) true false

  unfoldable pub unresolved : SubmissionState → Bool
  unresolved (filled _ _) = false
  unresolved (cancelled _ _) = false
  unresolved (rejected _) = false
  unresolved reconciled_not_found = false
  unresolved _ = true

  pub record SubmissionTransitionRecord : Type 0 where
    pub cloid : String
    pub state : SubmissionState
    pub recorded_at_ms : ℕ

  pub record SubmissionRegistry : Type 0 where
    pub by_cloid : BTreeMap String (ApprovedExecutionIntent d × SubmissionState)
    pub unknown_assets : BTreeSet String
    pub not_found_confirmations : BTreeMap String (List ℕ)
    pub maximum_entries : ℕ
    pub history : List SubmissionTransitionRecord

  unfoldable pub with_capacity : ℕ → Result SignerError SubmissionRegistry
  with_capacity maximum_entries = do
    fail_if (maximum_entries == 0) invalid_configuration
    ok (record {
      by_cloid = [];
      unknown_assets = [];
      not_found_confirmations = [];
      maximum_entries = maximum_entries;
      history = [];
    })

  -- The tests of `register`, in the order of its returns.
  unfoldable pub check_registration :
      ApprovedExecutionIntent d → SubmissionRegistry → Result SignerError (Unit {0})
  check_registration i r = do
    validate d i
    fail_if (contains_key i.cloid r.by_cloid) duplicate_cloid
    fail_if (not i.reduce_only && contains i.asset r.unknown_assets) asset_blocked_by_unknown_result
    fail_if (leb r.maximum_entries (size r.by_cloid)) registry_capacity_exhausted
    ok tt

  -- The state of a cloid, and the record of it at the end of the history.
  unfoldable pub write :
      String
      → ApprovedExecutionIntent d
      → SubmissionState
      → ℕ
      → SubmissionRegistry
      → SubmissionRegistry
  write cloid i state time r = record r {
    by_cloid = insert cloid (i, state) r.by_cloid;
    history = r.history ++ record { cloid = cloid; state = state; recorded_at_ms = time } ∷ [];
  }

  unfoldable pub register :
      ApprovedExecutionIntent d
      → SubmissionRegistry
      → SubmissionRegistry × Result SignerError (Unit {0})
  unfolding check_registration write
  register i r = elim (check_registration i r) [
    | ok _ ↦ (write i.cloid i authorized 0 r, ok tt)
    | err e ↦ (r, err e)
  ]

  unfoldable pub approved_intent :
      String → SubmissionRegistry → Result SignerError (ApprovedExecutionIntent d)
  approved_intent cloid r = elim (get cloid r.by_cloid) [
    | none ↦ err unknown_cloid
    | some (i, authorized) ↦ ok i
    | some (i, authorized_not_submitted) ↦ ok i
    | some (i, _) ↦ err invalid_transition
  ]

  unfoldable pub state_order_id : SubmissionState → Option String
  state_order_id (acknowledged order_id) = some order_id
  state_order_id (partially_filled order_id _) = some order_id
  state_order_id (filled order_id _) = some order_id
  state_order_id (cancelled order_id _) = order_id
  state_order_id _ = none

  unfoldable pub valid_transition : SubmissionState → SubmissionState → Bool
  valid_transition authorized (nonce_allocated _) = true
  valid_transition authorized authorized_not_submitted = true
  valid_transition authorized (rejected _) = true
  valid_transition authorized_not_submitted (nonce_allocated _) = true
  valid_transition authorized_not_submitted authorized = true
  valid_transition authorized_not_submitted (rejected _) = true
  valid_transition (nonce_allocated _) authorized_not_submitted = true
  valid_transition (nonce_allocated _) (rejected _) = true
  valid_transition (nonce_allocated _) (signed _) = true
  valid_transition (signed _) authorized_not_submitted = true
  valid_transition (signed _) (rejected _) = true
  valid_transition (signed _) (submission_started _) = true
  valid_transition (submission_started _) (acknowledged _) = true
  valid_transition (submission_started _) (unknown_result _) = true
  valid_transition (submission_started _) (filled _ _) = true
  valid_transition (submission_started _) (rejected _) = true
  valid_transition (acknowledged _) (acknowledged _) = true
  valid_transition (acknowledged _) (partially_filled _ _) = true
  valid_transition (acknowledged _) (filled _ _) = true
  valid_transition (acknowledged _) (cancelled _ _) = true
  valid_transition (acknowledged _) (rejected _) = true
  valid_transition (partially_filled _ _) (partially_filled _ _) = true
  valid_transition (partially_filled _ _) (filled _ _) = true
  valid_transition (partially_filled _ _) (cancelled _ _) = true
  valid_transition (unknown_result _) (acknowledged _) = true
  valid_transition (unknown_result _) (partially_filled _ _) = true
  valid_transition (unknown_result _) (filled _ _) = true
  valid_transition (unknown_result _) (cancelled _ _) = true
  valid_transition (unknown_result _) (rejected _) = true
  valid_transition _ _ = false

  -- The first three tests of `transition_at`, of a cloid and the states before and after.
  abbrev pub other_order : String → Option String → Option String → Bool
  other_order cloid (some current) (some next) =
      not (same_text current cloid) && not (same_text current next)
  other_order cloid _ _ = false

  abbrev pub repeats_acknowledgment : String → SubmissionState → SubmissionState → Bool
  repeats_acknowledgment cloid (acknowledged current) (acknowledged next) =
      not (same_text current cloid) || same_text next cloid
  repeats_acknowledgment cloid _ _ = false

  abbrev pub takes_back : SubmissionState → SubmissionState → Bool
  takes_back (partially_filled current quantity) (partially_filled next next_quantity) =
      not (same_text current next) || lt d next_quantity quantity
  takes_back _ _ = false

  unfoldable pub is_refused : String → SubmissionState → SubmissionState → Bool
  is_refused cloid current next =
      other_order cloid (state_order_id current) (state_order_id next)
      || repeats_acknowledgment cloid current next
      || takes_back current next
      || not (valid_transition current next)
