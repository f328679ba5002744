-- ===== src/Base/Fallible.antt =====
-- Rust's `Result`, with `?` as the bind of a `do` block, and what turns an `Option` into one.
use mathlib.Core.Path.{◌≡◌, refl}
use mathlib.Core.Logic.{◌⊎◌, inl, inr}
use mathlib.Core.Bool.{Bool, true, false}
use mathlib.Core.Option.{Option, none, some}

pub data Result {ℓ κ} (E : Type ℓ) (A : Type κ) : Type (ℓ ⊔ κ) where
  ok : A → Result E A
  err : E → Result E A

infixl 5 ◌>>=◌ ◌>>◌
abbrev pub ◌>>=◌ {ℓ κ ι} :
    {E : Type ℓ} {A : Type κ} {B : Type ι} → Result E A → (A → Result E B) → Result E B
ok a >>= f = f a
err e >>= f = err e

abbrev pub ◌>>◌ {ℓ κ ι} :
    {E : Type ℓ} {A : Type κ} {B : Type ι} → Result E A → Result E B → Result E B
m >> k = m >>= λ _. k

-- `if test { return Err(e) }`
abbrev pub fail_if {ℓ} : {E : Type ℓ} → Bool → E → Result E (Unit {0})
fail_if true e = err e
fail_if false e = ok tt

abbrev pub ok_or {ℓ κ} : {E : Type ℓ} {A : Type κ} → Option A → E → Result E A
ok_or none e = err e
ok_or (some a) e = ok a

abbrev pub is_ok {ℓ κ} : {E : Type ℓ} {A : Type κ} → Result E A → Bool
is_ok (ok _) = true
is_ok (err _) = false

pub Result-cases {ℓ κ} :
    {E : Type ℓ} {A : Type κ} (r : Result E A) → ((a : A) × (r ≡ ok a)) ⊎ ((e : E) × (r ≡ err e))
Result-cases (ok a) = inl (a, refl)
Result-cases (err e) = inr (e, refl)

-- What follows from the parts of a bind that succeeds follows from the bind.
pub >>=-ok {ℓ κ ι μ} :
    {E : Type ℓ} {A : Type κ} {B : Type ι} {C : Type μ} (m : Result E A) (f : A → Result E B)
    {b : B}
    → (m >>= f) ≡ ok b
    → ((a : A) → m ≡ ok a → f a ≡ ok b → C)
    → C
>>=-ok (ok a) f h k = k a refl h
>>=-ok (err e) f h k = absurd (cc)

pub ok_injective {ℓ κ} :
    {E : Type ℓ} {A : Type κ} {a b : A} → (let r : Result E A = ok a in r) ≡ ok b → a ≡ b
ok_injective h = cc

-- The same for `ok_or`, with the value.
pub ok_or-ok {ℓ κ ι μ} :
    {E : Type ℓ} {A : Type κ} {B : Type ι} {C : Type μ} (o : Option A) (e : E) (f : A → Result E B)
    {b : B}
    → (ok_or o e >>= f) ≡ ok b
    → ((a : A) → o ≡ some a → f a ≡ ok b → C)
    → C
ok_or-ok none e f h k = absurd (cc)
ok_or-ok (some a) e f h k = k a refl h

-- The same for `fail_if`, with the test.
pub fail_if-ok {ℓ κ ι} :
    {E : Type ℓ} {B : Type κ} {C : Type ι} (b : Bool) (e : E) (f : Unit {0} → Result E B) {x : B}
    → (fail_if b e >>= f) ≡ ok x
    → (b ≡ false → f tt ≡ ok x → C)
    → C
fail_if-ok true e f h k = absurd (cc)
fail_if-ok false e f h k = k refl h

-- `unwrap_or`
abbrev pub unwrap_or {ℓ κ} : {E : Type ℓ} {A : Type κ} → Result E A → A → A
unwrap_or (ok a) b = a
unwrap_or (err e) b = b
