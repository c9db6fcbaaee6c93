-- ===== src/Prelude/Exceptions.antt =====
-- Python's exceptions: a call returns a value, or raises one of the exceptions that the code uses.
-- The text is the source's message without the values that it quotes.
use Prim.Native.String.{String}
use mathlib.Core.Bool.{Bool, true, false}
use mathlib.Core.Path.{◌≡◌, refl, ap}
use mathlib.Core.Logic.{◌⊎◌, inl, inr}

pub data Error : Type 0 where
  value_error runtime_error file_not_found file_exists malformed_lease stop_iteration key_error :
      String → Error

-- What a call gives.
pub data Result {ℓ} (R : Type ℓ) : Type ℓ where
  err : (raised : Error) → Result R
  ok : (returned : R) → Result R

infixl 5 ◌>>=◌ ◌>>◌
-- The next call runs only if this one returns.
abbrev pub ◌>>=◌ {ℓ κ} :
    {R : Type ℓ} {S : Type κ} (call : Result R) (next : R → Result S) → Result S
err raised >>= next = err raised
ok returned >>= next = next returned

abbrev pub ◌>>◌ {ℓ} : {S : Type ℓ} (check : Result (Unit {0})) (next : Result S) → Result S
check >> next = check >>= λ _. next

-- `if failed: raise error`
abbrev pub raise_if : Bool → Error → Result (Unit {0})
raise_if true e = err e
raise_if false e = ok tt

-- What is known when a sequence of two calls has returned.
pub >>=-eq-ok {ℓ κ} :
    {R : Type ℓ} {S : Type κ} (call : Result R) (next : R → Result S) {last : S}
    → (call >>= next) ≡ ok last
    → (first : R) × (call ≡ ok first) × (next first ≡ ok last)
>>=-eq-ok (err raised) next h = cc
>>=-eq-ok (ok returned) next h = (returned, refl, h)

-- A first call that returns is followed by the next.
pub >>=-ok {ℓ κ} :
    {R : Type ℓ} {S : Type κ} {call : Result R} {first : R} (next : R → Result S)
    → call ≡ ok first
    → (call >>= next) ≡ next first
>>=-ok next h = ap (λ c. c >>= next) h

pub ok_injective {ℓ} : {A : Type ℓ} (a b : A) → ok a ≡ ok b → a ≡ b
ok_injective a b h = cc

-- A check that was passed.
pub passed {ℓ} :
    {A : Type ℓ} (failed : Bool) (e : Error) (rest : Result A) {a : A}
    → (raise_if failed e >> rest) ≡ ok a
    → (failed ≡ false) × (rest ≡ ok a)
passed true e rest h = cc
passed false e rest h = (refl, h)

-- A call that may write before it raises gives back the store beside its result.
abbrev pub continue {ℓ κ μ} :
    {A : Type ℓ} {B : Type κ} {S : Type μ} → Result A × S → (S → Result B × S) → Result B × S
continue (ok a, s) f = f s
continue (err e, s) f = (err e, s)

pub Result-cases {ℓ} :
    {A : Type ℓ} (r : Result A) → ((e : Error) × (r ≡ err e)) ⊎ ((a : A) × (r ≡ ok a))
Result-cases (ok a) = inr (a, refl)
Result-cases (err e) = inl (e, refl)
