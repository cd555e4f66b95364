-- ===== src/Prelude/Results.antt =====
-- Go's (value, error) pair: a value or the error it was refused with.
use mathlib.Core.Path.{◌≡◌, refl}
use mathlib.Core.Logic.{◌⊎◌, inl, inr}
use mathlib.Core.Bool.{Bool, true, false}

pub data Result {ℓ} (Refusal : Type 0) (Value : Type ℓ) : Type ℓ where
  ok : Value → Result Refusal Value
  err : Refusal → Result Refusal Value

-- `if bad { return err }`
abbrev pub refuse_if : {E : Type 0} → Bool → E → Result E (Unit {0})
refuse_if true refusal = err refusal
refuse_if false refusal = ok tt

infixl 5 ◌>>=◌ ◌>>◌
-- The code behind `if err != nil { return err }`.
abbrev pub ◌>>=◌ {ℓ κ} :
    {E : Type 0} {A : Type ℓ} {B : Type κ} → Result E A → (A → Result E B) → Result E B
err refusal >>= rest = err refusal
ok value >>= rest = rest value

abbrev pub ◌>>◌ {κ} : {E : Type 0} {B : Type κ} → Result E (Unit {0}) → Result E B → Result E B
first >> second = first >>= λ done. second

-- `if err != nil { return fmt.Errorf("...%w", err) }` with another sentinel
abbrev pub map_err {ℓ} : {E F : Type 0} {A : Type ℓ} → (E → F) → Result E A → Result F A
map_err f (ok a) = ok a
map_err f (err e) = err (f e)

pub Result-cases {ℓ} :
    {E : Type 0} {A : Type ℓ} (r : Result E A) → ((a : A) × (r ≡ ok a)) ⊎ ((e : E) × (r ≡ err e))
Result-cases (ok a) = inl (a, refl)
Result-cases (err e) = inr (e, refl)

-- A chain that succeeds has a first step that succeeds, and goes on from its value.
pub >>=-eq-ok {ℓ κ} :
    {E : Type 0} {A : Type ℓ} {B : Type κ} (first : Result E A) (rest : A → Result E B) {v : B}
    → (first >>= rest) ≡ ok v
    → (value : A) × (first ≡ ok value) × (rest value ≡ ok v)
>>=-eq-ok (err refusal) rest returned = cc
>>=-eq-ok (ok value) rest returned = (value, refl, returned)

-- What a passed guard says.
pub refuse_if-eq-ok {ℓ} :
    {E : Type 0} {B : Type ℓ} (c : Bool) (e : E) (m : Result E B) {v : B}
    → (refuse_if c e >> m) ≡ ok v
    → (c ≡ false) × (m ≡ ok v)
refuse_if-eq-ok true e m h = cc
refuse_if-eq-ok false e m h = (refl, h)

pub ok-injective {ℓ} :
    {E : Type 0} {A : Type ℓ} {a b : A} → ◌≡◌ {A = Result E A} (ok a) (ok b) → a ≡ b
ok-injective h = cc
