-- ===== src/Identity/Injective.antt =====
-- The bytes that a cloid is hashed from tell the planned action.
use native.Mathlib.Nat.{
  div-add-mod, div-div-eq-div-mul, mod-eq_of_lt, mul_comm, mul_assoc, mul-add, pow-succ',
}
use text.Mathlib.TextEquality.{Char-path}
use mathlib.Core.List.{append_assoc, append-nil}
use Prim.Native.Char.{code}
use hyperliquid.Base.{
  ℕ, zero, suc, ◌+◌, ◌-◌, ◌*◌, ◌/◌, ◌%◌, ◌^◌, ◌<◌, ◌≡◌, Bool, true, false, Option, none, some, List,
  [], ◌∷◌, ◌++◌, String, ltb, if◌then◌else◌, length, refl, sym, ap, ◌∙◌, arith, ok, >>=-ok,
  fail_if-ok, ok_injective, u32_mod,
}
use hyperliquid.Identity.{
  Side, side_code, bool_code, PlannedCloidInput, be_bytes, utf8, as_bytes, canonical_string,
  cloid_bytes,
}

abbrev two : ℕ → List ℕ → Option (ℕ × List ℕ)
two b (c ∷ r) = some ((b - 0xc0) * 64 + (c - 0x80), r)
two b [] = none

abbrev three : ℕ → List ℕ → Option (ℕ × List ℕ)
three b (c ∷ e ∷ r) = some ((b - 0xe0) * 4096 + (c - 0x80) * 64 + (e - 0x80), r)
three b (c ∷ []) = none
three b [] = none

abbrev four : ℕ → List ℕ → Option (ℕ × List ℕ)
four b (c ∷ e ∷ f ∷ r) =
    some ((b - 0xf0) * 262144 + (c - 0x80) * 4096 + (e - 0x80) * 64 + (f - 0x80), r)
four b (c ∷ e ∷ []) = none
four b (c ∷ []) = none
four b [] = none

-- The code point that UTF-8 starts with, by its first byte, and the rest.
abbrev decode : List ℕ → Option (ℕ × List ℕ)
decode [] = none
decode (b ∷ r) =
    if ltb b 0x80
    then some (b, r)
    else if ltb b 0xe0
    then two b r
    else if ltb b 0xf0
    then three b r
    else four b r

decode-utf8 : (c : ℕ) (r : List ℕ) → decode (utf8 c ++ r) ≡ some (c, r)
unfolding utf8
decode-utf8 c r = ground arith

append_split :
    (xs ys r q : List ℕ) → length xs ≡ length ys → xs ++ r ≡ ys ++ q → (xs ≡ ys) × (r ≡ q)
append_split [] [] r q h e = (refl, e)
append_split [] (y ∷ ys) r q h e = absurd (omega arith)
append_split (x ∷ xs) [] r q h e = absurd (omega arith)
append_split (x ∷ xs) (y ∷ ys) r q h e =
    let head : x ≡ y = cc in
    let tail : xs ++ r ≡ ys ++ q = cc in
    let rest = append_split xs ys r q (omega arith) tail in (λ i. head i ∷ rest.0 i, rest.1)

as_bytes_injective : (s t : String) → as_bytes s ≡ as_bytes t → s ≡ t
unfolding as_bytes
as_bytes_injective String.[] String.[] e = refl
as_bytes_injective String.[] (String.◌∷◌ c t) e =
    let k = ap decode e ∙ decode-utf8 (code c) (as_bytes t) in absurd (cc)
as_bytes_injective (String.◌∷◌ c s) String.[] e =
    let k = sym (decode-utf8 (code c) (as_bytes s)) ∙ ap decode e in absurd (cc)
as_bytes_injective (String.◌∷◌ c s) (String.◌∷◌ b t) e =
    let k =
      sym (decode-utf8 (code c) (as_bytes s)) ∙ ap decode e ∙ decode-utf8 (code b) (as_bytes t) in
    let first : code c ≡ code b = cc in
    let rest : as_bytes s ≡ as_bytes t = cc in
    let head = Char-path c b first in
    let tail = as_bytes_injective s t rest in λ i. String.◌∷◌ (head i) (tail i)

-- The remainder by a larger power takes one digit more.
mod-next : (x m : ℕ) → x % (m * 256) ≡ m * (x / m % 256) + x % m
mod-next x m =
    let whole = div-add-mod x m in
    let digit = div-add-mod (x / m) 256 in
    let larger = div-add-mod x (m * 256) in
    let twice = div-div-eq-div-mul x m 256 in
    let spread : m * (x / m) ≡ m * 256 * (x / m / 256) + m * (x / m % 256) =
      ap (λ k. m * k) (sym digit)
      ∙ mul-add m (256 * (x / m / 256)) (x / m % 256)
      ∙ ap (λ k. k + m * (x / m % 256)) (sym (mul_assoc m 256 (x / m / 256))) in
    let same = ap (λ k. m * 256 * k) twice in omega arith

be_bytes-mod :
    (n x y : ℕ) (r q : List ℕ)
    → be_bytes n x ++ r ≡ be_bytes n y ++ q
    → (x % 256 ^ n ≡ y % 256 ^ n) × (r ≡ q)
unfolding be_bytes
be_bytes-mod zero x y r q e = (omega arith, e)
be_bytes-mod (suc n) x y r q e =
    let head : x / 256 ^ n % 256 ≡ y / 256 ^ n % 256 = cc in
    let tail : be_bytes n x ++ r ≡ be_bytes n y ++ q = cc in
    let rest = be_bytes-mod n x y r q tail in
    let grow : 256 ^ suc n ≡ 256 ^ n * 256 = pow-succ' 256 n ∙ mul_comm 256 (256 ^ n) in
    (rw (grow, mod-next x (256 ^ n), mod-next y (256 ^ n), head, rest.0) refl, rest.1)

be_bytes_injective :
    (n x y : ℕ) (r q : List ℕ)
    → x < 256 ^ n
    → y < 256 ^ n
    → be_bytes n x ++ r ≡ be_bytes n y ++ q
    → (x ≡ y) × (r ≡ q)
be_bytes_injective n x y r q h k e =
    let same = be_bytes-mod n x y r q e in (sym (mod-eq_of_lt h) ∙ same.0 ∙ mod-eq_of_lt k, same.1)

length-be_bytes : (n x : ℕ) → length (be_bytes n x) ≡ n
unfolding be_bytes
length-be_bytes zero x = refl
length-be_bytes (suc n) x = ap suc (length-be_bytes n x)

canonical_string_injective :
    (s t : String) {b c : List ℕ} (r q : List ℕ)
    → canonical_string s ≡ ok b
    → canonical_string t ≡ ok c
    → b ++ r ≡ c ++ q
    → (s ≡ t) × (r ≡ q)
unfolding canonical_string
canonical_string_injective s t {b} {c} r q h k e =
    fail_if-ok (if ltb (length (as_bytes s)) u32_mod then false else true) _ _ h (λ fits h₀.
      fail_if-ok (if ltb (length (as_bytes t)) u32_mod then false else true) _ _ k (λ fits_too k₀.
        let split : be_bytes 4 (length (as_bytes s)) ++ (as_bytes s ++ r)
            ≡ be_bytes 4 (length (as_bytes t)) ++ (as_bytes t ++ q) =
          sym (append_assoc (be_bytes 4 (length (as_bytes s))) (as_bytes s) r)
          ∙ ap (λ l. l ++ r) (ok_injective h₀)
          ∙ e
          ∙ ap (λ l. l ++ q) (sym (ok_injective k₀))
          ∙ append_assoc (be_bytes 4 (length (as_bytes t))) (as_bytes t) q in
        let size =
          be_bytes_injective 4 (length (as_bytes s)) (length (as_bytes t)) _ _ (ground arith)
            (ground arith) split in
        let bytes = append_split (as_bytes s) (as_bytes t) r q size.0 size.1 in
        (as_bytes_injective s t bytes.0, bytes.1)))

abbrev head_or : ℕ → List ℕ → ℕ
head_or x [] = x
head_or x (y ∷ ys) = y

abbrev tail_of : List ℕ → List ℕ
tail_of [] = []
tail_of (x ∷ xs) = xs

side_code_injective : (a b : Side) → side_code a ≡ side_code b → a ≡ b
side_code_injective a b e = ground arith

bool_code_injective : (a b : Bool) → bool_code a ≡ bool_code b → a ≡ b
bool_code_injective a b e = ground arith

-- Each number fits its bytes.
pub record IsSized (i : PlannedCloidInput) : Type 0 where
  pub engine : i.engine_instance_id < 256 ^ 16
  pub decision : i.decision_id < 256 ^ 32
  pub version : i.target_version < 256 ^ 8
  pub ordinal : i.action_ordinal < 256 ^ 4
  pub generation : i.retry_generation < 256 ^ 4

-- Two planned actions with numbers that fit their types, whose cloids are hashed from the same bytes, are
-- the same action: equal cloids of different actions are collisions of the hash.
pub cloid_bytes_injective :
    (i j : PlannedCloidInput) {b : List ℕ}
    → IsSized i
    → IsSized j
    → cloid_bytes i ≡ ok b
    → cloid_bytes j ≡ ok b
    → i ≡ j
unfolding cloid_bytes
cloid_bytes_injective i j h k p q = >>=-ok (canonical_string i.asset) _ p (λ a e₀ h₀.
    >>=-ok (canonical_string j.asset) _ q (λ c e₁ h₁.
      let whole = ok_injective h₀ ∙ sym (ok_injective h₁) in
      let engine =
        be_bytes_injective 16 i.engine_instance_id j.engine_instance_id _ _ h.engine k.engine
          whole in
      let decision =
        be_bytes_injective 32 i.decision_id j.decision_id _ _ h.decision k.decision engine.1 in
      let version =
        be_bytes_injective 8 i.target_version j.target_version _ _ h.version k.version decision.1 in
      let asset = canonical_string_injective i.asset j.asset _ _ e₀ e₁ version.1 in
      let side : side_code i.side ≡ side_code j.side = ap (head_or 0) asset.1 in
      let flag : bool_code i.reduce_only ≡ bool_code j.reduce_only =
        ap (λ l. head_or 0 (tail_of l)) asset.1 in
      let rest = ap (λ l. tail_of (tail_of l)) asset.1 in
      let ordinal =
        be_bytes_injective 4 i.action_ordinal j.action_ordinal _ _ h.ordinal k.ordinal rest in
      let generation =
        be_bytes_injective 4 i.retry_generation j.retry_generation [] [] h.generation k.generation
          (append-nil _ ∙ ordinal.1 ∙ sym (append-nil _)) in
      λ n. record {
        engine_instance_id = engine.0 n;
        decision_id = decision.0 n;
        target_version = version.0 n;
        asset = asset.0 n;
        side = side_code_injective i.side j.side side n;
        reduce_only = bool_code_injective i.reduce_only j.reduce_only flag n;
        action_ordinal = ordinal.0 n;
        retry_generation = generation.0 n;
      }))
