-- ===== src/Base/Res.antt =====
-- Rust's `Result` and its `?` operator.
use mathlib.Core.Path.{◌≡◌, refl}
use mathlib.Core.Logic.{◌⊎◌, inl, inr}
use mathlib.Core.Bool.{Bool, true, false}
use mathlib.Core.Option.{Option, none, some}

pub data Result {ℓ κ} (E : Type ℓ) (A : Type κ) : Type (ℓ ⊔ κ) where
  ok : A → Result E A
  err : E → Result E A

module _ {ℓ} {E : Type ℓ} where
  -- `ok_or(why)?`
  abbrev pub ok_or {κ} : {A : Type κ} → Option A → E → Result E A
  ok_or (some x) why = ok x
  ok_or none why = err why

  -- `if !test { return Err(why) }`
  abbrev pub guard : Bool → E → Result E (Unit {0})
  guard false why = err why
  guard true why = ok tt

  pub Result-cases : (r : Result E (Unit {0})) → ((why : E) × (r ≡ err why)) ⊎ (r ≡ ok tt)
  Result-cases (err why) = inl (why, refl)
  Result-cases (ok tt) = inr refl

  pub ok-injective {κ} : {A : Type κ} {x y : A} → ◌≡◌ {A = Result E A} (ok x) (ok y) → x ≡ y
  ok-injective h = cc

  pub ok_or-eq-ok {κ} :
      {A : Type κ} (o : Option A) (why : E) {a : A} → ok_or o why ≡ ok a → o ≡ some a
  ok_or-eq-ok none why h = cc
  ok_or-eq-ok (some b) why h = cc

module _ {ℓ μ} {E : Type ℓ} {B : Type μ} where
  infixl 5 ◌>>=◌ ◌>>◌
  abbrev pub ◌>>=◌ {κ} : {A : Type κ} → Result E A → (A → Result E B) → Result E B
  err why >>= g = err why
  ok x >>= g = g x

  abbrev pub ◌>>◌ : Result E (Unit {0}) → Result E B → Result E B
  r >> rest = r >>= λ u. rest

  -- A chain that succeeds has succeeded at its first step.
  pub >>=-eq-ok {κ} :
      {A : Type κ} (r : Result E A) (g : A → Result E B) {y : B}
      → (r >>= g) ≡ ok y
      → (x : A) × (r ≡ ok x) × (g x ≡ ok y)
  >>=-eq-ok (err why) g h = cc
  >>=-eq-ok (ok x) g h = (x, refl, h)

  -- Nor does it fail at a guard.
  pub guard-eq-ok :
      (t : Bool) (why : E) {r : Result E B} {y : B}
      → guard t why >> r ≡ ok y
      → (t ≡ true) × (r ≡ ok y)
  guard-eq-ok true why h = (refl, h)
  guard-eq-ok false why h = cc
