-- ===== src/Targets/Tests.antt =====
-- The replacement of targets at one asset.
use native.Mathlib.Decide.{ℕ_discrete}
use hyperliquid.Base.{◌≡◌, [], ◌∷◌, String, ok, unwrap_or, refl, All}
use hyperliquid.BTreeMap.{string_ord, String-discrete, contains_key, get, insert}
use hyperliquid.Decimal.{fixed, pos, ℤ-discrete}
use hyperliquid.Targets.{
  Exposures, VirtualTargetLedger, no_targets, replace_absolute_targets, validate_integrity,
}
use hyperliquid.Targets.Laws.{is_named, IsReplaced, replace_absolute_targets-IsReplaced}

abbrev vectors : Exposures fixed
vectors = record {
  raw_desired = ("ETH", pos 12) ∷ [];
  admitted_targets = ("ETH", pos 10) ∷ [];
  filled = ("ETH", pos 3) ∷ [];
  acknowledged_open = [];
  unknown_result = ("SOL", pos 1) ∷ [];
}

abbrev replaced : VirtualTargetLedger fixed
replaced =
    unwrap_or (replace_absolute_targets fixed vectors 4 5 (no_targets fixed)) (no_targets fixed)

replacement_taken : replace_absolute_targets fixed vectors 4 5 (no_targets fixed) ≡ ok replaced
unfolding replace_absolute_targets get insert String-discrete ℕ_discrete ℤ-discrete
replacement_taken = refl

replace_absolute_targets-IsReplaced_example :
    All (λ s. IsReplaced fixed vectors 4 5 s.0 s.1) replaced.assets
    × (((a : String)
          → contains_key a replaced.assets ≡ is_named fixed vectors 4 5 a (no_targets fixed))
        × (validate_integrity fixed replaced ≡ ok tt))
replace_absolute_targets-IsReplaced_example =
    replace_absolute_targets-IsReplaced fixed vectors 4 5 (no_targets fixed) refl replacement_taken
