-- ===== src/Identity.antt =====
-- Identities of planned actions (crates/copytrade-core/src/decision.rs). An identifier of n bytes is the
-- number that its bytes spell, the most significant first: so its derived order is the order of numbers.
pub mod Injective
mod Tests
use Prim.Native.Char.{code}
use hyperliquid.Base.{
  ℕ, zero, suc, ◌+◌, ◌/◌, ◌%◌, ◌^◌, Bool, true, false, List, [], ◌∷◌, ◌++◌, String, ltb,
  if◌then◌else◌, Result, ok, ◌>>=◌, ◌>>◌, fail_if, length, u32_mod,
}

pub data Side : Type 0 where
  buy sell : Side

unfoldable pub Side-discrete : Discrete Side
Side-discrete = hlevel

-- `Side::code`
abbrev pub side_code : Side → ℕ
side_code buy = 0
side_code sell = 1

pub data IdentityError : Type 0 where
  invalid_input arithmetic_overflow : IdentityError

pub record PlannedCloidInput : Type 0 where
  pub engine_instance_id : ℕ
  pub decision_id : ℕ
  pub target_version : ℕ
  pub asset : String
  pub side : Side
  pub reduce_only : Bool
  pub action_ordinal : ℕ
  pub retry_generation : ℕ

-- `to_be_bytes` of a number of n bytes.
unfoldable pub be_bytes : ℕ → ℕ → List ℕ
be_bytes zero x = []
be_bytes (suc n) x = (x / 256 ^ n % 256) ∷ be_bytes n x

-- The UTF-8 bytes of a code point.
unfoldable pub utf8 : ℕ → List ℕ
utf8 c =
    if ltb c 0x80
    then c ∷ []
    else if ltb c 0x800
    then (0xc0 + c / 64) ∷ (0x80 + c % 64) ∷ []
    else if ltb c 0x10000
    then (0xe0 + c / 4096) ∷ (0x80 + c / 64 % 64) ∷ (0x80 + c % 64) ∷ []
    else (0xf0 + c / 262144) ∷ (0x80 + c / 4096 % 64) ∷ (0x80 + c / 64 % 64) ∷ (0x80 + c % 64) ∷ []

-- `as_bytes`
unfoldable pub as_bytes : String → List ℕ
unfolding utf8
as_bytes String.[] = []
as_bytes (String.◌∷◌ c s) = utf8 (code c) ++ as_bytes s

-- `Canonical::string`
unfoldable pub canonical_string : String → Result IdentityError (List ℕ)
canonical_string s = do
  let bytes = as_bytes s
  fail_if (if ltb (length bytes) u32_mod then false else true) arithmetic_overflow
  ok (be_bytes 4 (length bytes) ++ bytes)

abbrev pub bool_code : Bool → ℕ
bool_code true = 1
bool_code false = 0

abbrev pub is_empty : String → Bool
is_empty String.[] = true
is_empty (String.◌∷◌ _ _) = false

-- The bytes that `derive_planned_cloid` hashes, after the domain.
unfoldable pub cloid_bytes : PlannedCloidInput → Result IdentityError (List ℕ)
cloid_bytes input = do
  asset ← canonical_string input.asset
  ok (
      be_bytes 16 input.engine_instance_id
      ++ (be_bytes 32 input.decision_id
          ++ (be_bytes 8 input.target_version
              ++ (asset
                  ++ side_code input.side
                    ∷ bool_code input.reduce_only
                    ∷ (be_bytes 4 input.action_ordinal ++ be_bytes 4 input.retry_generation)))))

-- `CLOID_DOMAIN`
abbrev pub cloid_domain : String
cloid_domain = "HL1E/PLANNED_CLOID/V1"

module _ (sha256 : List ℕ → ℕ) where
  -- `sha256` gives the digest as a number of 32 bytes, whose first 16 are the cloid.
  unfoldable pub derive_planned_cloid : PlannedCloidInput → Result IdentityError ℕ
  derive_planned_cloid input = do
    fail_if (is_empty input.asset) invalid_input
    bytes ← cloid_bytes input
    ok (sha256 (as_bytes cloid_domain ++ bytes) / 2 ^ 128)
