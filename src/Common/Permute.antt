-- ===== src/Common/Permute.antt =====
-- Exchanging two elements of a list, and counting up to order.
use mathlib.Core.List.Perm
use mathlib.Core.List.{List, [], ◌∷◌, Perm, Permᴰ}
use mathlib.Core.Logic.{∥∥₁_elim, inl, inr}
use mathlib.Core.Bool.{Bool}
use mathlib.Core.Option.{none, some}
use mathlib.Core.Path.{◌≡◌, refl, sym}
use native.Mathlib.Nat.{ℕ_set}
use native.Mathlib.Omega.{arith}
use Prim.Native.Nat.{ℕ, zero, suc}
use rift_lift.Common.Tests.{Option-cases}
use rift_lift.Common.Lists.{get_elem?, count_if}

module _ {ℓ} {A : Type ℓ} where
  -- A write out of bounds changes nothing.
  abbrev pub set : List A → ℕ → A → List A
  set [] i v = []
  set (x ∷ xs) zero v = v ∷ xs
  set (x ∷ xs) (suc i) v = x ∷ set xs i v

  -- `std::swap(xs[i], xs[j])`
  unfoldable pub swap : List A → ℕ → ℕ → List A
  swap xs i j = elim (get_elem? xs i) [
    | none ↦ xs
    | some a ↦ elim (get_elem? xs j) [ none ↦ xs | some b ↦ set (set xs i b) j a ]
  ]

  set-perm :
      (xs : List A) (i : ℕ) (a b : A) → get_elem? xs i ≡ some a → Perm (a ∷ set xs i b) (b ∷ xs)
  set-perm [] i a b h = cc
  set-perm (x ∷ xs) zero a b h =
      Perm.trans (Perm.swap b a xs) (Perm.cons' refl (Perm.cons' (sym (some_eq h)) Perm.rfl))
    where
      some_eq : some x ≡ some a → x ≡ a
      some_eq e = cc
  set-perm (x ∷ xs) (suc i) a b h =
      Perm.trans (Perm.swap x a _)
        (Perm.trans (Perm.cons x (set-perm xs i a b h)) (Perm.swap b x xs))

  -- At `j` the new list holds `b`, whether `j` is the written place or another one that held it.
  get_elem?-set_same :
      (xs : List A) (i j : ℕ) (a b : A)
      → get_elem? xs i ≡ some a
      → get_elem? xs j ≡ some b
      → get_elem? (set xs i b) j ≡ some b
  get_elem?-set_same [] i j a b h k = cc
  get_elem?-set_same (x ∷ xs) zero zero a b h k = refl
  get_elem?-set_same (x ∷ xs) zero (suc j) a b h k = k
  get_elem?-set_same (x ∷ xs) (suc i) zero a b h k = k
  get_elem?-set_same (x ∷ xs) (suc i) (suc j) a b h k = get_elem?-set_same xs i j a b h k

  pub swap_lem :
      (xs : List A) (i j : ℕ) {a b : A}
      → get_elem? xs i ≡ some a
      → get_elem? xs j ≡ some b
      → swap xs i j ≡ set (set xs i b) j a
  unfolding swap
  swap_lem xs i j h k = rw (h, k, swap)

  pub swap-perm : (xs : List A) (i j : ℕ) → Perm (swap xs i j) xs
  unfolding swap
  swap-perm xs i j = elim (Option-cases (get_elem? xs i)) [
    | inl e ↦ rw (e, swap) Perm.rfl
    | inr (a, e) ↦ elim (Option-cases (get_elem? xs j)) [
      | inl k ↦ rw (e, k, swap) Perm.rfl
      | inr (b, k) ↦
          rw (e, k, swap)
            (Perm.cons_inv {a = b} (
              Perm.trans (set-perm (set xs i b) j b a (get_elem?-set_same xs i j a b e k))
                (set-perm xs i a b e)))
    ]
  ]

  count_if-permᴰ : (p : A → Bool) {xs ys : List A} → Permᴰ xs ys → count_if p xs ≡ count_if p ys
  count_if-permᴰ p Permᴰ.nil = refl
  count_if-permᴰ p (Permᴰ.cons {a} {b} e d) = rw e (omega (arith, count_if-permᴰ p d))
  count_if-permᴰ p (Permᴰ.swap {a} {b} {a'} {b'} e f) = rw (e, f) (omega arith)
  count_if-permᴰ p (Permᴰ.trans d e) = omega (arith, count_if-permᴰ p d, count_if-permᴰ p e)

  pub count_if-perm : (p : A → Bool) {xs ys : List A} → Perm xs ys → count_if p xs ≡ count_if p ys
  count_if-perm p d = ∥∥₁_elim d (ℕ_set _ _) (count_if-permᴰ p)
