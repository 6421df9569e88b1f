-- ===== src/Common/Results.antt =====
-- Calls that may throw. The error carries the message's text.
use mathlib.Core.Bool.{Bool, true, false}
use mathlib.Core.Path.{◌≡◌, refl}
use rift_lift.Common.Bytes.{Text}

pub data Result {ℓ} (A : Type ℓ) : Type ℓ where
  ok : A → Result A
  err : Text → Result A

module _ {ℓ κ} {A : Type ℓ} {B : Type κ} where
  infixl 5 ◌>>=◌
  -- What follows a call that may have thrown.
  abbrev pub ◌>>=◌ : Result A → (A → Result B) → Result B
  r >>= next = elim r [ err message ↦ err message | ok a ↦ next a ]

-- `if (!test) throw ...(message)`
abbrev pub require : Bool → Text → Result (Unit {0})
require test message = elim test [ false ↦ err message | true ↦ ok tt ]

module _ {ℓ} {B : Type ℓ} where
  infixl 5 ◌>>◌
  abbrev pub ◌>>◌ : Result (Unit {0}) → Result B → Result B
  check >> rest = elim check [ err message ↦ err message | ok _ ↦ rest ]

pub ok-injective {ℓ} : {A : Type ℓ} {a b : A} → ok a ≡ ok b → a ≡ b
ok-injective h = cc

pub err-injective {ℓ} : {A : Type ℓ} {a b : Text} → ◌≡◌ {A = Result A} (err a) (err b) → a ≡ b
err-injective h = cc

-- A call that returned, and what followed it.
pub bind-eq_ok {ℓ κ} :
    {A : Type ℓ} {B : Type κ} (r : Result A) (next : A → Result B) (b : B)
    → (r >>= next) ≡ ok b
    → (a : A) × (r ≡ ok a) × (next a ≡ ok b)
bind-eq_ok (err message) next b h = absurd cc
bind-eq_ok (ok a) next b h = (a, refl, h)

pub then-eq_ok {ℓ} :
    {B : Type ℓ} (r : Result (Unit {0})) (rest : Result B) (b : B)
    → (r >> rest) ≡ ok b
    → (r ≡ ok tt) × (rest ≡ ok b)
then-eq_ok (err message) rest b h = absurd cc
then-eq_ok (ok tt) rest b h = (refl, h)

pub require-eq_ok : (test : Bool) (message : Text) → require test message ≡ ok tt → test ≡ true
require-eq_ok true message h = refl
require-eq_ok false message h = absurd cc
