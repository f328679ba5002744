-- ===== src/Targets/Laws.antt =====
-- A replacement of the targets, whatever the ledger held before.
use hyperliquid.Base.{
  Bool, true, Option, none, ◌||◌, ◌++◌, ◌∙◌, ap, ok_or, ok_or-ok, ℕ, ◌≡◌, ◌==◌, some, List, [], ◌∷◌,
  String, ok, >>=-ok, ok_injective, all, All, arith, refl, subst,
}
use hyperliquid.BTreeMap.{string_ord, BTreeMap, BTreeSet, keys, add, contains_key, values}
use hyperliquid.Decimal.{Decimal}
use hyperliquid.Ledger.Apply.{differ_none}
use hyperliquid.Portfolio.Collect.{
  collect-All, collect-keys, member, member-append, member-keys, contains_key-insert, nothing_more,
}
use hyperliquid.Portfolio.{collect, to_set}
use hyperliquid.Targets.{
  VirtualTargetState, VirtualTargetLedger, Exposures, at, residual_of, target_of,
  replace_absolute_targets, all_assets, common_version, check_states, validate_integrity,
}

contains_key-to_set :
    (a : String) (ks : List String) (s : BTreeSet String)
    → contains_key a (to_set ks s) ≡ member a ks || contains_key a s
unfolding to_set
contains_key-to_set a [] s = refl
contains_key-to_set a (k ∷ ks) s =
    let rest = contains_key-to_set a ks (add k s) in
    let first = contains_key-insert k a tt s in ground arith

six_or : (a b c e f g : Bool) → (a || (b || (c || (e || (f || g))))) ≡ (a || b || c || e || f || g)
six_or a b c e f g = ground arith

ok_or-some : {E A : Type 0} (o : Option A) (e : E) {a : A} → ok_or o e ≡ ok a → o ≡ some a
ok_or-some none e h = absurd (cc)
ok_or-some (some b) e h = ap some (ok_injective h)

module _ (d : Decimal) where
  -- A target is the one of the vectors, and the version. Its residual is what is left of the admitted one
  -- after what is filled, acknowledged or unknown.
  pub record IsReplaced (e : Exposures d) (target_version source_set_id : ℕ) (asset : String)
      (s : VirtualTargetState d) : Type 0 where
    pub raw : s.raw_desired_notional ≡ at d asset e.raw_desired
    pub admitted : s.admitted_target_notional ≡ at d asset e.admitted_targets
    pub filled : s.filled_notional ≡ at d asset e.filled
    pub acknowledged : s.acknowledged_open_notional ≡ at d asset e.acknowledged_open
    pub unknown : s.unknown_result_notional ≡ at d asset e.unknown_result
    pub known : d.Value
    pub committed : d.Value
    pub known_sum : d.checked_add s.filled_notional s.acknowledged_open_notional ≡ some known
    pub committed_sum : d.checked_add known s.unknown_result_notional ≡ some committed
    pub residual : d.checked_sub s.admitted_target_notional committed ≡ some s.executable_residual
    pub version : s.target_version ≡ target_version
    pub source_set : s.latest_source_set_id ≡ source_set_id

  residual_of-parts :
      (admitted filled acknowledged unknown : d.Value) {r : d.Value}
      → residual_of d admitted filled acknowledged unknown ≡ ok r
      → (known committed : d.Value) × (d.checked_add filled acknowledged ≡ some known)
        × (d.checked_add known unknown ≡ some committed)
        × (d.checked_sub admitted committed ≡ some r)
  unfolding residual_of
  residual_of-parts admitted filled acknowledged unknown h =
      ok_or-ok (d.checked_add filled acknowledged) _ _ h (λ known e₀ h₀.
        ok_or-ok (d.checked_add known unknown) _ _ h₀ (λ committed e₁ h₁.
          (known, committed, e₀, e₁, ok_or-some (d.checked_sub admitted committed) _ h₁)))

  parts-residual_of :
      (e : Exposures d) (v set : ℕ) (asset : String) (s : VirtualTargetState d)
      → IsReplaced e v set asset s
      → residual_of d s.admitted_target_notional s.filled_notional s.acknowledged_open_notional
          s.unknown_result_notional
        ≡ ok s.executable_residual
  unfolding residual_of
  parts-residual_of e v set asset s h = rw (h.known_sum, h.committed_sum, h.residual) refl

  target_of-IsReplaced :
      (e : Exposures d) (v set : ℕ) (asset : String) {s : VirtualTargetState d}
      → target_of d e v set asset ≡ ok s
      → IsReplaced e v set asset s
  unfolding target_of
  target_of-IsReplaced e v set asset h =
      >>=-ok
        (residual_of d (at d asset e.admitted_targets) (at d asset e.filled)
          (at d asset e.acknowledged_open) (at d asset e.unknown_result))
        _ h
        (λ r e₀ h₀.
          let parts =
            residual_of-parts (at d asset e.admitted_targets) (at d asset e.filled)
              (at d asset e.acknowledged_open) (at d asset e.unknown_result) e₀ in
          subst (IsReplaced e v set asset) (ok_injective h₀) (record {
            raw = refl;
            admitted = refl;
            filled = refl;
            acknowledged = refl;
            unknown = refl;
            known = parts.0;
            committed = parts.1;
            known_sum = parts.2;
            committed_sum = parts.3;
            residual = parts.4;
            version = refl;
            source_set = refl;
          }))

  module _ (e : Exposures d) (v set : ℕ) where
    check_states-ok :
        (states : BTreeMap String (VirtualTargetState d))
        → All (λ s. IsReplaced e v set s.0 s.1) states
        → check_states d (values states) ≡ ok tt
    unfolding check_states
    check_states-ok [] h = refl
    check_states-ok ((a, s) ∷ states) h =
        let first = h.0 in
        rw
          (
            parts-residual_of e v set a s first,
            check_states-ok states h.1,
            differ_none d s.executable_residual s.executable_residual refl,
          )
          refl

    same_versions :
        (states : BTreeMap String (VirtualTargetState d))
        → All (λ s. IsReplaced e v set s.0 s.1) states
        → all (λ t. t.target_version == v) (values states) ≡ true
    same_versions [] h = refl
    same_versions ((a, s) ∷ states) h =
        let first = h.0 in rw (first.version, same_versions states h.1) (ground arith)

    common_version-replaced :
        (a : String) (s : VirtualTargetState d) (states : BTreeMap String (VirtualTargetState d))
        → All (λ t. IsReplaced e v set t.0 t.1) ((a, s) ∷ states)
        → common_version d (s ∷ values states) ≡ some v
    unfolding common_version
    common_version-replaced a s states h =
        let first = h.0 in rw (first.version, same_versions states h.1) refl

    replaced-validate :
        (n : ℕ) (states : BTreeMap String (VirtualTargetState d))
        → n ≡ 1
        → All (λ s. IsReplaced e v set s.0 s.1) states
        → validate_integrity d (record { schema_version = n; assets = states }) ≡ ok tt
    unfolding validate_integrity check_states
    replaced-validate n [] q h = rw (q) refl
    replaced-validate n ((a, s) ∷ states) q h =
        rw (q, check_states-ok ((a, s) ∷ states) h, common_version-replaced a s states h) refl

    -- An asset that the ledger had or that one of the vectors has.
    abbrev pub is_named : String → VirtualTargetLedger d → Bool
    is_named a ledger =
        contains_key a ledger.assets
        || contains_key a e.raw_desired
        || contains_key a e.admitted_targets
        || contains_key a e.filled
        || contains_key a e.acknowledged_open
        || contains_key a e.unknown_result

    all_assets-member :
        (a : String) (ledger : VirtualTargetLedger d)
        → member a (all_assets d e ledger) ≡ is_named a ledger
    unfolding all_assets
    all_assets-member a ledger =
        let c = keys e.acknowledged_open ++ keys e.unknown_result in
        let b = keys e.filled ++ c in
        let q = keys e.admitted_targets ++ b in
        let w = keys e.raw_desired ++ q in
        let listed : member a (keys ledger.assets ++ w) ≡ is_named a ledger =
          rw
            (
              member-append a (keys ledger.assets) w,
              member-append a (keys e.raw_desired) q,
              member-append a (keys e.admitted_targets) b,
              member-append a (keys e.filled) c,
              member-append a (keys e.acknowledged_open) (keys e.unknown_result),
              member-keys a ledger.assets,
              member-keys a e.raw_desired,
              member-keys a e.admitted_targets,
              member-keys a e.filled,
              member-keys a e.acknowledged_open,
              member-keys a e.unknown_result,
            )
            (six_or (contains_key a ledger.assets) (contains_key a e.raw_desired)
              (contains_key a e.admitted_targets) (contains_key a e.filled)
              (contains_key a e.acknowledged_open) (contains_key a e.unknown_result)) in
        member-keys a (to_set (keys ledger.assets ++ w) [])
        ∙ contains_key-to_set a (keys ledger.assets ++ w) []
        ∙ ap (λ z. z || contains_key {V = Unit {0}} a []) listed
        ∙ nothing_more (Unit {0}) a (is_named a ledger)

    -- The targets after a replacement are of exactly the assets that the ledger had or that one of the
    -- vectors has, and each is that of the vectors: its residual is the admitted target less what is
    -- filled, acknowledged and unknown, and its version is that of the call. A ledger of the current
    -- schema then passes its integrity check.
    pub replace_absolute_targets-IsReplaced :
        (ledger : VirtualTargetLedger d) {after : VirtualTargetLedger d}
        → ledger.schema_version ≡ 1
        → replace_absolute_targets d e v set ledger ≡ ok after
        → All (λ s. IsReplaced e v set s.0 s.1) after.assets
          × (((a : String) → contains_key a after.assets ≡ is_named a ledger)
              × (validate_integrity d after ≡ ok tt))
    unfolding replace_absolute_targets
    replace_absolute_targets-IsReplaced ledger {after} schema h =
        >>=-ok (collect (target_of d e v set) (all_assets d e ledger) []) _ h (λ states e₀ h₀.
          let made =
            collect-All (λ s. IsReplaced e v set s.0 s.1) (target_of d e v set)
              (all_assets d e ledger) [] (λ k s. target_of-IsReplaced e v set k) tt e₀ in
          let named : (a : String) → contains_key a states ≡ is_named a ledger = λ a.
            collect-keys (target_of d e v set) a (all_assets d e ledger) [] e₀
            ∙ nothing_more (VirtualTargetState d) a (member a (all_assets d e ledger))
            ∙ all_assets-member a ledger in
          subst
            (λ l.
              All (λ s. IsReplaced e v set s.0 s.1) l.assets
              × (((a : String) → contains_key a l.assets ≡ is_named a ledger)
                  × (validate_integrity d l ≡ ok tt)))
            (ok_injective h₀)
            (made, (named, replaced-validate ledger.schema_version states schema made)))
