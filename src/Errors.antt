-- ===== src/Errors.antt =====
-- include/d_gen/Position.h, include/d_gen/BuildError.h, src/BuildError.cpp and src/utils/assert.h:
-- source positions, build errors, and how a function of the front end ends.
pub mod Ends
pub mod Passes
use d_gen.Prelude.{ℕ, String, List, [], ◌∷◌, ◌≡◌, refl}

-- `line` and `col` come from the tokens of the parser, so they are no negative numbers.
pub record Position : Type 0 where
  pub line : ℕ
  pub col : ℕ

pub record Err : Type 0 where
  pub pos : Position
  pub msg : String

-- A thrown `BuildError` is the list of its errors. `crash` is what no caller can catch: a failed
-- ASSERT (`std::terminate`) or the dereference of a null pointer.
pub data Outcome {ℓ} (A : Type ℓ) : Type ℓ where
  ok : A → Outcome A
  err : List Err → Outcome A
  crash : Outcome A

module _ {ℓ κ} {A : Type ℓ} {B : Type κ} where
  -- What comes after a call that threw or crashed is not run.
  infixl 5 ◌>>=◌
  abbrev pub ◌>>=◌ : Outcome A → (A → Outcome B) → Outcome B
  crash >>= rest = crash
  err thrown >>= rest = err thrown
  ok value >>= rest = rest value

  pub >>=-eq-ok :
      (first : Outcome A) (rest : A → Outcome B) {b : B}
      → first >>= rest ≡ ok b
      → (a : A) × (first ≡ ok a) × (rest a ≡ ok b)
  >>=-eq-ok crash _ q = cc
  >>=-eq-ok (err _) _ q = cc
  >>=-eq-ok (ok value) _ q = (value, refl, q)

infixl 5 ◌>>◌
abbrev pub ◌>>◌ {ℓ} : {A : Type ℓ} → Outcome (Unit {0}) → Outcome A → Outcome A
first >> rest = first >>= λ _. rest

-- `throw BuildError(Err{pos, msg})`
abbrev pub throw {ℓ} : {A : Type ℓ} → Position → String → Outcome A
throw p m = err (record { pos = p; msg = m } ∷ [])

pub ok_injective {ℓ} : {A : Type ℓ} {a b : A} → ok a ≡ ok b → a ≡ b
ok_injective h = cc
