-- ===== src/Signer/Submissions/Transitions.antt =====
-- The transitions of the registry of submissions (crates/copytrade-signer/src/lib.rs).
use hyperliquid.Base.{
  ℕ, Bool, true, false, not, ◌||◌, Option, none, some, List, [], ◌∷◌, ◌++◌, String, Result, ok, err,
  ltb, ◌==◌, length, filter, last?, if◌then◌else◌, checked_add, saturating_add, u64_mod, u64_max,
  ok_or,
}
use hyperliquid.BTreeMap.{nat_ord, string_ord, get, insert, remove, contains, add, values}
use hyperliquid.Decimal.{Decimal}
use hyperliquid.Signer.Intent.{
  SignerError, ApprovedExecutionIntent, invalid_configuration, unknown_cloid, invalid_transition,
  nonce_overflow, confirmation_too_soon,
}
use hyperliquid.Signer.Submissions.{
  SubmissionRegistry, SubmissionState, SubmissionTransitionRecord, cancelled, filled, is_refused,
  larger, nonce_allocated, reconciled_not_found, rejected, same_state, signed, submission_started,
  unknown_result, unresolved, write,
}

module _ (d : Decimal) where
  abbrev pub is_unknown : SubmissionState d → Bool
  is_unknown (unknown_result _) = true
  is_unknown _ = false

  abbrev pub is_settled : SubmissionState d → Bool
  is_settled (filled _ _) = true
  is_settled (cancelled _ _) = true
  is_settled (rejected _) = true
  is_settled reconciled_not_found = true
  is_settled _ = false

  -- What the new state of an action of the asset does to the assets and confirmations.
  unfoldable pub mark :
      String → String → SubmissionState d → SubmissionRegistry d → SubmissionRegistry d
  mark cloid asset next r =
      if is_unknown next
      then record r { unknown_assets = add asset r.unknown_assets }
      else if is_settled next
      then record r {
        unknown_assets = remove asset r.unknown_assets;
        not_found_confirmations = remove cloid r.not_found_confirmations;
      }
      else r

  unfoldable pub transition_at :
      String
      → SubmissionState d
      → ℕ
      → SubmissionRegistry d
      → SubmissionRegistry d × Result SignerError (Unit {0})
  unfolding mark write is_refused
  transition_at cloid next recorded_at_ms r = elim (get cloid r.by_cloid) [
    | none ↦ (r, err unknown_cloid)
    | some (i, current) ↦
        if same_state d current next
        then (r, ok tt)
        else if is_refused d cloid current next
        then (r, err invalid_transition)
        else (write d cloid i next recorded_at_ms (mark cloid i.asset next r), ok tt)
  ]

  unfoldable pub transition :
      String
      → SubmissionState d
      → SubmissionRegistry d
      → SubmissionRegistry d × Result SignerError (Unit {0})
  unfolding transition_at
  transition cloid next r = transition_at cloid next 0 r

  unfoldable pub unresolved_count : SubmissionRegistry d → ℕ
  unresolved_count r = length (filter (λ e. unresolved d e.1) (values r.by_cloid))

  unfoldable pub permits_increase : String → SubmissionRegistry d → Bool
  permits_increase asset r = not (contains asset r.unknown_assets)

  -- `next_nonce_floor`: the nonce of an event, the largest of the history, and the one after it.
  abbrev pub event_nonce : SubmissionState d → Option ℕ
  event_nonce (nonce_allocated nonce) = some nonce
  event_nonce (signed nonce) = some nonce
  event_nonce (submission_started nonce) = some nonce
  event_nonce (unknown_result nonce) = some nonce
  event_nonce _ = none

  abbrev pub largest_nonce : List (SubmissionTransitionRecord d) → Option ℕ
  largest_nonce [] = none
  largest_nonce (e ∷ es) = larger (event_nonce e.state) (largest_nonce es)

  unfoldable pub next_nonce_floor : SubmissionRegistry d → Result SignerError ℕ
  next_nonce_floor r = elim (largest_nonce r.history) [
    | none ↦ ok 0
    | some nonce ↦ ok_or (checked_add u64_mod nonce 1) nonce_overflow
  ]

  abbrev or_empty : Option (List ℕ) → List ℕ
  or_empty none = []
  or_empty (some times) = times

  -- The last confirmation is less than an interval old.
  abbrev pub too_soon : List ℕ → ℕ → ℕ → Bool
  too_soon times time interval = elim (last? times) [
    | none ↦ false
    | some last ↦ ltb time (saturating_add u64_max last interval)
  ]

  -- The part of `confirm_not_found` after its tests, for the confirmations with the new one.
  unfoldable pub confirm :
      String
      → ApprovedExecutionIntent d
      → List ℕ
      → ℕ
      → SubmissionRegistry d
      → SubmissionRegistry d × Result SignerError Bool
  confirm cloid i times required r =
      if ltb (length times) required
      then (
        record r { not_found_confirmations = insert cloid times r.not_found_confirmations },
        ok false,
      )
      else (
        record r {
          by_cloid = insert cloid (i, reconciled_not_found) r.by_cloid;
          unknown_assets = remove i.asset r.unknown_assets;
          not_found_confirmations = remove cloid r.not_found_confirmations;
        },
        ok true,
      )

  unfoldable pub confirm_not_found :
      String → ℕ → ℕ → ℕ → SubmissionRegistry d → SubmissionRegistry d × Result SignerError Bool
  unfolding confirm
  confirm_not_found cloid observed_at_ms required interval r =
      if ltb required 2 || interval == 0
      then (r, err invalid_configuration)
      else elim (get cloid r.by_cloid) [
        | none ↦ (r, err unknown_cloid)
        | some (i, state) ↦
            let times = or_empty (get cloid r.not_found_confirmations) in
            if not (is_unknown state)
            then (r, err invalid_transition)
            else if too_soon times observed_at_ms interval
            then (r, err confirmation_too_soon)
            else confirm cloid i (times ++ observed_at_ms ∷ []) required r
      ]
