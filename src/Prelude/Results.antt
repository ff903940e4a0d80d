-- ===== src/Prelude/Results.antt =====
-- A call that throws an error or returns a value.
use mathlib.Core.Path.{◌≡◌, refl}
use mathlib.Core.Bool.{Bool, true, false}

pub data Result {ℓ κ} (Err : Type ℓ) (Val : Type κ) : Type (ℓ ⊔ κ) where
  err : Err → Result Err Val
  ok : Val → Result Err Val

-- `guard` is `if (!condition) throw error`.
module _ {ℓ} {Err : Type ℓ} where
  abbrev pub guard : Bool → Err → Result Err (Unit {0})
  guard false thrown = err thrown
  guard true thrown = ok tt

  pub guard-eq-ok :
      (condition : Bool) (thrown : Err) {u : Unit {0}}
      → guard condition thrown ≡ ok u
      → condition ≡ true
  guard-eq-ok false thrown passed = cc
  guard-eq-ok true thrown passed = refl

-- What follows a call runs only if the call has not thrown.
module _ {ℓ κ μ} {Err : Type ℓ} {Val : Type κ} {Next : Type μ} where
  infixl 5 ◌>>=◌
  abbrev pub ◌>>=◌ : Result Err Val → (Val → Result Err Next) → Result Err Next
  err thrown >>= next = err thrown
  ok value >>= next = next value

  pub >>=-eq-ok :
      (call : Result Err Val) (next : Val → Result Err Next) {end : Next}
      → (call >>= next) ≡ ok end
      → (value : Val) × (call ≡ ok value) × (next value ≡ ok end)
  >>=-eq-ok (err thrown) next passed = cc
  >>=-eq-ok (ok value) next passed = (value, refl, passed)

infixl 5 ◌>>◌
abbrev pub ◌>>◌ {ℓ μ} :
    {Err : Type ℓ} {Next : Type μ} → Result Err (Unit {0}) → Result Err Next → Result Err Next
call >> next = call >>= λ _. next
