-- ===== src/Prelude/Results.antt =====
-- Fallible code: `Result<A, E>`, the `?` operator as bind, and early returns as guards.
use mathlib.Core.Path.{◌≡◌, refl}
use mathlib.Core.Bool.{Bool, true, false}

pub data Result {ℓ κ} (E : Type ℓ) (A : Type κ) : Type (ℓ ⊔ κ) where
  err : E → Result E A
  ok : A → Result E A

module _ {ℓ} {E : Type ℓ} where
  infixl 5 ◌>>=◌ ◌>>◌
  abbrev pub ◌>>=◌ {κ ι} : {A : Type κ} {B : Type ι} → Result E A → (A → Result E B) → Result E B
  ◌>>=◌ m next = elim m [ err e ↦ err e | ok a ↦ next a ]

  abbrev pub ◌>>◌ {ι} : {B : Type ι} → Result E (Unit {0}) → Result E B → Result E B
  ◌>>◌ m next = elim m [ err e ↦ err e | ok _ ↦ next ]

  -- `if bad { return Err(e) }`.
  abbrev pub fail_if : Bool → E → Result E (Unit {0})
  fail_if bad e = elim bad [ true ↦ err e | false ↦ ok tt ]

  abbrev pub Accepts : Result E (Unit {0}) → Type ℓ
  Accepts r = r ≡ ok tt

  -- What follows a step that succeeds, and the step's value.
  pub >>=-succeeds {κ ι} :
      {A : Type κ} {B : Type ι} {b : B} (m : Result E A) (next : A → Result E B)
      → (m >>= next) ≡ ok b
      → (a : A) × (m ≡ ok a) × (next a ≡ ok b)
  >>=-succeeds (err e) next h = cc
  >>=-succeeds (ok a) next h = (a, refl, h)
