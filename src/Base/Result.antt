-- ===== src/Base/Result.antt =====
-- Fallible results of the services: a value, or the exception that is thrown. A service that throws
-- inside a transaction rolls it back, and the others throw before they write, so an error carries
-- no state.
use mathlib.Core.Path.{◌≡◌, refl}
use mathlib.Core.Bool.{Bool, true, false}
use mathlib.Core.Option.{Option, none, some}
-- The exceptions of NestJS that the services throw, with the HTTP status that they stand for. The
-- number tells the throw statements of one operation apart, in their order in the source.
use Prim.Native.Nat.{ℕ}

pub data Error : Type 0 where
  bad_request : ℕ → Error
  not_found : ℕ → Error
  forbidden : ℕ → Error
  conflict : ℕ → Error
  unauthorized : ℕ → Error

pub data Result {ℓ} (Value : Type ℓ) : Type ℓ where
  ok : Value → Result Value
  err : Error → Result Value

-- An exception skips what follows it.
infixl 5 ◌>>=◌
abbrev pub ◌>>=◌ {ℓ κ} :
    {Value : Type ℓ} {Next : Type κ} (first : Result Value) (next : Value → Result Next)
    → Result Next
err thrown >>= next = err thrown
ok value >>= next = next value

-- A check has no value.
infixl 5 ◌>>◌
abbrev pub ◌>>◌ {κ} : {Next : Type κ} (check : Result (Unit {0})) (next : Result Next) → Result Next
check >> next = check >>= λ _. next

-- `if (c) throw e;`
abbrev pub throw_if : Bool → Error → Result (Unit {0})
throw_if true e = err e
throw_if false e = ok tt

-- `if (!o) throw e;`
abbrev pub or_throw {ℓ} : {A : Type ℓ} → Option A → Error → Result A
or_throw none e = err e
or_throw (some a) e = ok a

-- Inversion of a successful chain.
pub >>=-eq-ok {ℓ κ} :
    {Value : Type ℓ} {Next : Type κ} (first : Result Value) (next : Value → Result Next)
    {end : Next}
    → (first >>= next) ≡ ok end
    → (value : Value) × (first ≡ ok value) × (next value ≡ ok end)
>>=-eq-ok (err thrown) next h = cc
>>=-eq-ok (ok value) next h = (value, refl, h)

pub throw_if-eq-ok {ℓ} :
    {B : Type ℓ} (c : Bool) (e : Error) (k : Result B) {b : B}
    → (throw_if c e >> k) ≡ ok b
    → (c ≡ false) × (k ≡ ok b)
throw_if-eq-ok true e k h = cc
throw_if-eq-ok false e k h = (refl, h)

pub or_throw-eq-ok {ℓ κ} :
    {A : Type ℓ} {B : Type κ} (o : Option A) (e : Error) (f : A → Result B) {b : B}
    → (or_throw o e >>= f) ≡ ok b
    → (a : A) × (o ≡ some a) × (f a ≡ ok b)
or_throw-eq-ok none e f h = cc
or_throw-eq-ok (some a) e f h = (a, refl, h)

pub ok-injective {ℓ} : {A : Type ℓ} (a b : A) → ok a ≡ ok b → a ≡ b
ok-injective a b h = cc
