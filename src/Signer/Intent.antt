-- ===== src/Signer/Intent.antt =====
-- Approved intents and their check (`ApprovedExecutionIntent` of crates/copytrade-signer/src/lib.rs).
use hyperliquid.Base.{
  ℕ, Bool, false, not, ◌||◌, ◌&&◌, Option, none, some, List, ◌∷◌, String, Result, ok, leb, ltb,
  ◌==◌, ◌>>◌, fail_if, length, all,
}
use hyperliquid.BTreeMap.{is_some}
use hyperliquid.Decimal.{Decimal}
use hyperliquid.Identity.{as_bytes, is_empty}

pub data SignerError : Type 0 where
  invalid_intent invalid_continuation invalid_decimal invalid_configuration : SignerError
  duplicate_cloid unknown_cloid asset_blocked_by_unknown_result : SignerError
  invalid_transition nonce_overflow unsafe_secret_permissions invalid_secret : SignerError
  secret_io encode signing transport : String → SignerError
  exchange_http : ℕ → SignerError
  decode : String → SignerError
  unknown_submission_result : ℕ → SignerError
  unexpected_exchange_response : SignerError
  ioc_unexpectedly_resting : ℕ → SignerError
  confirmation_too_soon cloid_mismatch registry_capacity_exhausted : SignerError
  registry_io : String → SignerError
  startup_not_reconciled : SignerError
  authorization reconciliation : String → SignerError
  missing_market_rules invalid_exchange_state : SignerError
  ledger : String → SignerError
  exchange_fill_mismatch ambiguous_exchange_event_ordering : SignerError

-- `'0'..='9'` or `'a'..='f'`
abbrev hex_digit : ℕ → Bool
hex_digit b = (leb 48 b && leb b 57) || (leb 97 b && leb b 102)

unfoldable pub is_lower_hex : String → Bool
is_lower_hex value = all hex_digit (as_bytes value)

-- What follows "0x".
abbrev hex_after_0x : List ℕ → Bool
hex_after_0x (a ∷ b ∷ rest) = a == 48 && b == 120 && all hex_digit rest
hex_after_0x _ = false

unfoldable pub valid_cloid : String → Bool
valid_cloid value = length (as_bytes value) == 34 && hex_after_0x (as_bytes value)

-- `value.len() != 64 || !is_lower_hex(value)`
abbrev pub not_hash : String → Bool
not_hash value = not (length (as_bytes value) == 64) || not (is_lower_hex value)

module _ (d : Decimal) where
  pub record ApprovedExecutionIntent : Type 0 where
    pub decision_id : String
    pub target_version : ℕ
    pub root_cloid : String
    pub cloid : String
    pub parent_cloid : Option String
    pub continuation_generation : ℕ
    pub asset : String
    pub asset_index : ℕ
    pub is_buy : Bool
    pub reduce_only : Bool
    pub limit_price : d.Value
    -- `scale` of the price, and of the quantity: equal decimals may differ in it.
    pub limit_price_scale : ℕ
    pub quantity : d.Value
    pub quantity_scale : ℕ
    pub risk_projection_hash : String
    pub risk_policy_hash : String
    pub configuration_hash : String
    pub release_manifest_hash : String
    pub decision_reference_price : d.Value
    pub decision_timestamp_ms : ℕ
    pub expires_at_mono : ℕ
    pub canonical_intent_hash : String

  -- `parent_cloid.is_some_and(|value| !valid_cloid(value))`
  abbrev bad_parent : Option String → Bool
  bad_parent none = false
  bad_parent (some parent) = not (valid_cloid parent)

  -- The first test of `validate`.
  unfoldable pub is_malformed : ApprovedExecutionIntent → Bool
  is_malformed i =
      not_hash i.decision_id
      || not_hash i.risk_projection_hash
      || not_hash i.risk_policy_hash
      || not_hash i.configuration_hash
      || not_hash i.release_manifest_hash
      || not_hash i.canonical_intent_hash
      || not (valid_cloid i.root_cloid)
      || not (valid_cloid i.cloid)
      || bad_parent i.parent_cloid
      || is_empty i.asset
      || d.leb i.limit_price d.zero
      || d.leb i.quantity d.zero
      || d.leb i.decision_reference_price d.zero
      || i.expires_at_mono == 0
      || ltb 8 i.limit_price_scale
      || ltb 8 i.quantity_scale

  unfoldable pub validate : ApprovedExecutionIntent → Result SignerError (Unit {0})
  unfolding is_malformed
  validate i = do
    fail_if (is_malformed i) invalid_intent
    fail_if (i.continuation_generation == 0 && is_some i.parent_cloid) invalid_continuation
    fail_if (ltb 0 i.continuation_generation && not (is_some i.parent_cloid)) invalid_continuation
    ok tt
