-- ===== src/Base/Result.antt =====
-- A computation that may raise: its value, or the error.
use mathlib.Core.Path.{◌≡◌, refl, ap, ◌∙◌}
use mathlib.Core.Bool.{Bool, true, false}
use mathlib.Core.Logic.{◌⊎◌, inl, inr}

pub data Result {ℓ κ} (E : Type κ) (A : Type ℓ) : Type (ℓ ⊔ κ) where
  ok : A → Result E A
  err : E → Result E A

abbrev pub is_ok {ℓ κ} : {E : Type κ} {A : Type ℓ} → Result E A → Bool
is_ok (ok a) = true
is_ok (err e) = false

-- What follows an error does not run.
infixl 5 ◌>>=◌
abbrev pub ◌>>=◌ {a b e} :
    {E : Type e} {A : Type a} {B : Type b} → Result E A → (A → Result E B) → Result E B
err raised >>= next = err raised
ok value >>= next = next value

module _ {a b e} {E : Type e} {A : Type a} {B : Type b} where
  -- A successful block has a successful first part.
  pub >>=-eq-ok :
      (first : Result E A) (next : A → Result E B) {out : B}
      → (first >>= next) ≡ ok out
      → (value : A) × (first ≡ ok value) × (next value ≡ ok out)
  >>=-eq-ok (err raised) next same = cc
  >>=-eq-ok (ok value) next same = (value, refl, same)

  -- A block whose first part gives a value is what follows.
  pub >>=-ok-next :
      (first : Result E A) (next : A → Result E B) {value : A} {out : Result E B}
      → first ≡ ok value
      → next value ≡ out
      → (first >>= next) ≡ out
  >>=-ok-next first next given follows = ap (λ r. r >>= next) given ∙ follows

pub ok-injective {ℓ κ} :
    {E : Type κ} {A : Type ℓ} {x y : A} → ◌≡◌ {A = Result E A} (ok x) (ok y) → x ≡ y
ok-injective same = cc

pub Result-cases {ℓ κ} :
    {E : Type κ} {A : Type ℓ} (m : Result E A) → ((a : A) × (m ≡ ok a)) ⊎ ((e : E) × (m ≡ err e))
Result-cases (ok a) = inl (a, refl)
Result-cases (err e) = inr (e, refl)
