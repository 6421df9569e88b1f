-- ===== src/Steam/Indices.antt =====
-- The index keys that `sync` of src/common/steam_library.cpp gives to the games' entries.
use rift_lift.Common.{
  ℕ, zero, suc, ◌+◌, ◌≤◌, ◌<◌, max, false, List, some, Text, text_eq, text_eq_iff, contains,
  without, contains-without, length-without, length, if◌then◌else◌, ◌≡◌, refl, ap, sym, ◌∙◌, subst,
  arith, Bool-cases, inl, inr,
}
use rift_lift.Options.Decimal.{to_string, from_chars, from_chars-to_string}
use rift_lift.Steam.Draft.{free_index}

to_string-injective : (m n : ℕ) → to_string m ≡ to_string n → m ≡ n
to_string-injective m n e = some-injective (
    sym (from_chars-to_string (max m n) m (omega arith))
    ∙ ap (from_chars (max m n)) e
    ∙ from_chars-to_string (max m n) n (omega arith))
  where
    some-injective : {a b : ℕ} → some a ≡ some b → a ≡ b
    some-injective e = cc

apart_later : (n m : ℕ) → n < m → text_eq (to_string n) (to_string m) ≡ false
apart_later n m h = elim (Bool-cases (text_eq (to_string n) (to_string m))) [
  | inr apart ↦ apart
  | inl same ↦
      absurd
        (less n m h (to_string-injective n m ((text_eq_iff (to_string n) (to_string m)).0 same)))
]
  where
    less : (n m : ℕ) → n < m → n ≡ m → ⊥
    less n m h e = omega arith

pub free_index-later : (fuel : ℕ) (keys : List Text) (n : ℕ) → n ≤ free_index fuel keys n
unfolding free_index
free_index-later zero keys n = omega arith
free_index-later (suc fuel) keys n = ground (arith, free_index-later fuel keys (n + 1))

-- Earlier indices make no difference.
free_index-without :
    (fuel : ℕ) (keys : List Text) (k n : ℕ)
    → k < n
    → free_index fuel (without (to_string k) keys) n ≡ free_index fuel keys n
unfolding free_index
free_index-without zero keys k n h = refl
free_index-without (suc fuel) keys k n h =
    rw (contains-without (to_string k) (to_string n) keys (apart_later k n h)) (
      ap (λ later. if contains keys (to_string n) then later else n)
        (free_index-without fuel keys k (n + 1) (omega arith)))

-- The search ends at an index that no key names.
pub free_index-Free :
    (fuel : ℕ) (keys : List Text) (n : ℕ)
    → length keys < fuel
    → contains keys (to_string (free_index fuel keys n)) ≡ false
unfolding free_index
free_index-Free zero keys n h = absurd (omega arith)
free_index-Free (suc fuel) keys n h = elim (Bool-cases (contains keys (to_string n))) [
  | inr free ↦ rw (free, free_index) free
  | inl taken ↦
      let others = without (to_string n) keys in
      let i = free_index fuel others (n + 1) in
      let same : i ≡ free_index fuel keys (n + 1) =
        free_index-without fuel keys n (n + 1) (omega arith) in
      let fresh : contains others (to_string i) ≡ false =
        free_index-Free fuel others (n + 1)
          (omega (arith, length-without (to_string n) keys taken)) in
      let later : n < i = omega (arith, free_index-later fuel others (n + 1)) in
      rw (taken, free_index)
        (subst (λ j. contains keys (to_string j) ≡ false) same
          (sym (contains-without (to_string n) (to_string i) keys (apart_later n i later)) ∙ fresh))
]
