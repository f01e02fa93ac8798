-- ===== src/Prelude/Results.antt =====
-- What a call gives back: a value, or the message of the `Error` that it throws.
use Prim.Native.String.{String}
use mathlib.Core.Path.{◌≡◌, refl}
use mathlib.Core.Bool.{Bool, true, false}

pub data Result {ℓ} (A : Type ℓ) : Type ℓ where
  throw : (message : String) → Result A
  ok : (value : A) → Result A

module _ {ℓ κ} {B : Type κ} where
  -- `await`: what follows a call that threw does not run.
  infixl 5 ◌>>=◌
  abbrev pub ◌>>=◌ : {A : Type ℓ} → Result A → (A → Result B) → Result B
  throw message >>= next = throw message
  ok value >>= next = next value

  pub >>=-eq-ok :
      {A : Type ℓ} (call : Result A) (next : A → Result B) {answer : B}
      → (call >>= next) ≡ ok answer
      → (value : A) × (call ≡ ok value) × (next value ≡ ok answer)
  >>=-eq-ok (throw message) next e = cc
  >>=-eq-ok (ok value) next e = (value, refl, e)

infixl 5 ◌>>◌
abbrev pub ◌>>◌ {κ} : {B : Type κ} → Result (Unit {0}) → Result B → Result B
call >> rest = call >>= λ done. rest

-- `if (failed) throw new Error(message)`
abbrev pub throw_if : Bool → String → Result (Unit {0})
throw_if failed message = elim failed [ true ↦ throw message | false ↦ ok tt ]
