-- ===== src/Base/Results.antt =====
-- The results of fallible code. A Rust panic (an `unwrap` of nothing, an index or a slice out of
-- range) is a third outcome beside `Ok` and `Err`.
use mathlib.Core.Bool.{Bool, true, false}
use qhttp.Base.Tests.{if◌then◌else◌}
use mathlib.Core.Option.{Option, none, some}
use mathlib.Core.Path.{◌≡◌, refl}
use mathlib.Core.Logic.{◌≢◌, ◌⊎◌, inl, inr}

pub data Result {ℓ κ} (E : Type ℓ) (A : Type κ) : Type (ℓ ⊔ κ) where
  ok : A → Result E A
  err : E → Result E A
  panic : Result E A

infixl 5 ◌>>=◌ ◌>>◌
abbrev pub ◌>>=◌ {ℓ κ ρ} :
    {E : Type ℓ} {A : Type κ} {B : Type ρ} → Result E A → (A → Result E B) → Result E B
ok a >>= f = f a
err e >>= f = err e
panic >>= f = panic

abbrev pub ◌>>◌ {ℓ κ} : {E : Type ℓ} {B : Type κ} → Result E (Unit {0}) → Result E B → Result E B
m >> k = m >>= λ _. k

-- `if test { return Err(e) }`
abbrev pub refuse_if {ℓ} : {E : Type ℓ} → Bool → E → Result E (Unit {0})
refuse_if true e = err e
refuse_if false e = ok tt

-- `.unwrap()` of an option
abbrev pub or_panic {ℓ κ} : {E : Type ℓ} {A : Type κ} → Option A → Result E A
or_panic none = panic
or_panic (some a) = ok a

-- `.ok_or_else(|| e)?`
abbrev pub or_err {ℓ κ} : {E : Type ℓ} {A : Type κ} → Option A → E → Result E A
or_err none e = err e
or_err (some a) e = ok a

-- What a result is that is no panic.
pub Result-cases {ℓ κ} :
    {E : Type ℓ} {A : Type κ} (outcome : Result E A)
    → outcome ≢ panic
    → ((value : A) × (outcome ≡ ok value)) ⊎ ((error : E) × (outcome ≡ err error))
Result-cases panic safe = absurd (safe refl)
Result-cases (err error) safe = inr (error, refl)
Result-cases (ok value) safe = inl (value, refl)

-- A chain that succeeds has both of its parts succeed.
pub >>=-ok {ℓ κ ρ} :
    {E : Type ℓ} {A : Type κ} {B : Type ρ} (m : Result E A) (f : A → Result E B) {b : B}
    → m >>= f ≡ ok b
    → (a : A) × (m ≡ ok a) × (f a ≡ ok b)
>>=-ok (ok a) f h = (a, refl, h)
>>=-ok (err e) f h = cc
>>=-ok panic f h = cc

-- What an `if` is equal to, one of its branches is.
pub if-cases {ℓ} :
    {A : Type ℓ} (b : Bool) (m n : A) {r : A}
    → (if b then m else n) ≡ r
    → ((b ≡ true) × (m ≡ r)) ⊎ ((b ≡ false) × (n ≡ r))
if-cases true m n h = inl (refl, h)
if-cases false m n h = inr (refl, h)

-- A chain panics where one of its parts does.
pub >>=-panic {ℓ κ ρ} :
    {E : Type ℓ} {A : Type κ} {B : Type ρ} (m : Result E A) (f : A → Result E B)
    → m >>= f ≡ panic
    → (m ≡ panic) ⊎ ((a : A) × (m ≡ ok a) × (f a ≡ panic))
>>=-panic (ok a) f h = inr (a, refl, h)
>>=-panic (err e) f h = cc
>>=-panic panic f h = inl refl
