-- ===== src/Common/Without.antt =====
-- Searching for a name that is not taken: the names that are taken, but one of them.
use Prim.Native.Nat.{◌≤◌, ◌<◌}
use mathlib.Core.Path.{◌≡◌, refl, sym, subst}
use mathlib.Core.Logic.{inl, inr}
use mathlib.Core.Bool.{true, false, not}
use mathlib.Core.List.{List, [], ◌∷◌}
use native.Mathlib.Omega.{arith}
use rift_lift.Common.Tests.{Bool-cases}
use rift_lift.Common.Lists.{length, keep}
use rift_lift.Common.Bytes.{Text, text_eq, text_eq_iff, contains}

-- The names but one of them.
abbrev pub without : Text → List Text → List Text
without k = keep (λ x. not (text_eq x k))

pub contains-without :
    (k x : Text) (names : List Text)
    → text_eq k x ≡ false
    → contains (without k names) x ≡ contains names x
contains-without k x [] h = refl
contains-without k x (y ∷ ys) h = elim (Bool-cases (text_eq y k)) [
  | inl same ↦
      let other : text_eq y x ≡ false =
        subst (λ z. text_eq z x ≡ false) (sym ((text_eq_iff y k).0 same)) h in
      rw (same, other) (contains-without k x ys h)
  | inr apart ↦ rw apart (ground (arith, contains-without k x ys h))
]

length-without_le : (k : Text) (names : List Text) → length (without k names) ≤ length names
length-without_le k [] = omega arith
length-without_le k (y ∷ ys) = ground (arith, length-without_le k ys)

pub length-without :
    (k : Text) (names : List Text)
    → contains names k ≡ true
    → length (without k names) < length names
length-without k [] h = absurd cc
length-without k (y ∷ ys) h = elim (Bool-cases (text_eq y k)) [
  | inl same ↦ rw same (omega (arith, length-without_le k ys))
  | inr apart ↦ rw apart (omega (arith, length-without k ys (rw apart at h)))
]
