-- ===== src/Prelude/Result.antt =====
-- A transaction that can throw: on `err` nothing is committed.
use mathlib.Core.Path.{◌≡◌, refl}
use mathlib.Core.Bool.{Bool, true, false}

pub data Result {ℓ κ} (E : Type ℓ) (A : Type κ) : Type (ℓ ⊔ κ) where
  ok : A → Result E A
  err : E → Result E A

-- `if (test) throw error`
abbrev pub throw_if {ℓ} : {E : Type ℓ} → Bool → E → Result E (Unit {0})
throw_if true e = err e
throw_if false e = ok tt

infixl 5 ◌>>=◌
abbrev pub ◌>>=◌ {ℓ κ μ} :
    {E : Type ℓ} {A : Type κ} {B : Type μ} → Result E A → (A → Result E B) → Result E B
err thrown >>= next = err thrown
ok value >>= next = next value

infixl 5 ◌>>◌
abbrev pub ◌>>◌ {ℓ κ} : {E : Type ℓ} {B : Type κ} → Result E (Unit {0}) → Result E B → Result E B
first >> second = first >>= λ _. second

module _ {ℓ κ μ} {E : Type ℓ} {A : Type κ} {B : Type μ} where
  -- A bind that succeeds has both of its parts succeed.
  pub >>=-eq-ok :
      (action : Result E A) (next : A → Result E B) {last : B}
      → (action >>= next) ≡ ok last
      → (result : A) × (action ≡ ok result) × (next result ≡ ok last)
  >>=-eq-ok (err thrown) next succeeds = cc
  >>=-eq-ok (ok result) next succeeds = (result, refl, succeeds)

module _ {ℓ κ} {E : Type ℓ} {B : Type κ} where
  -- What follows a check that succeeds.
  pub throw_if-eq-ok :
      (test : Bool) (e : E) (k : Result E B) {b : B}
      → (throw_if test e >> k) ≡ ok b
      → (test ≡ false) × (k ≡ ok b)
  throw_if-eq-ok true e k h = cc
  throw_if-eq-ok false e k h = (refl, h)

  pub >>-eq-ok :
      (m : Result E (Unit {0})) (k : Result E B) {b : B}
      → (m >> k) ≡ ok b
      → (m ≡ ok tt) × (k ≡ ok b)
  >>-eq-ok (ok u) k h = (refl, h)
  >>-eq-ok (err e) k h = cc

pub ok-injective {ℓ κ} :
    {E : Type ℓ} {A : Type κ} (a b : A) → ◌≡◌ {A = Result E A} (ok a) (ok b) → a ≡ b
ok-injective a b h = cc
