-- ===== src/Rules/VesselText.antt =====
-- The tests of names and paths, and the loop over "%command%", in `parse_pressure_vessel_line` of
-- src/runtime/rules.cpp.
use rift_lift.Common.{
  ℕ, zero, suc, ◌≤◌, ◌<◌, Bool, true, ◌&&◌, ◌||◌, List, [], ◌∷◌, Option, none, some, Text, codes,
  starts_with, length, drop, all, ◌==◌, ◌≡◌, refl, ap, ◌∙◌, subst, arith, Bool-cases, and_left,
  and_right, Option-cases, inl, inr,
}
use rift_lift.Rules.Strings.{split, first_part}
use rift_lift.Rules.Vessel.{
  command, before, erase_first, erase_from, is_key, key_char, path_char, is_path,
}

-- A character that no shell takes apart.
abbrev pub is_plain : ℕ → Bool
is_plain c = path_char c || c == b':'

pub all-split :
    (value : Text) → all (all path_char) (split b':' value) ≡ true → all is_plain value ≡ true
unfolding split
all-split [] h = refl
all-split (c ∷ cs) h = elim (Bool-cases (c == b':')) [
  | inl colon ↦ ground (arith, colon, all-split cs (rw (colon, split) at h))
  | inr other ↦ here (split b':' cs) refl (rw (other, split) at h) (all-split cs)
]
  where
    here :
        (parts : List Text)
        → split b':' cs ≡ parts
        → all (all path_char) (first_part c parts) ≡ true
        → (all (all path_char) (split b':' cs) ≡ true → all is_plain cs ≡ true)
        → (is_plain c && all is_plain cs) ≡ true
    here [] e k rest = ground (arith, k, rest (ap (all (all path_char)) e))
    here (p ∷ ps) e k rest =
        ground (arith, k, rest (ap (all (all path_char)) e ∙ ground (arith, k)))

pub is_path-chars : (part : Text) → is_path part ≡ true → all path_char part ≡ true
unfolding is_path path_char
is_path-chars [] h = absurd cc
is_path-chars (c ∷ cs) h = ground (arith, h)

pub is_path-slash : (part : Text) → is_path part ≡ true → starts_with part (codes "/") ≡ true
unfolding is_path starts_with
is_path-slash [] h = absurd cc
is_path-slash (c ∷ cs) h = ground (arith, h)

pub is_key-parts :
    (name : Text)
    → is_key name ≡ true
    → (starts_with name (codes "PRESSURE_VESSEL_") ≡ true) × (all key_char (drop 16 name) ≡ true)
unfolding is_key
is_key-parts name h = (and_left _ _ (and_left _ _ h), and_right _ _ h)

length-drop_le : (n : ℕ) (s : Text) → length (drop n s) ≤ length s
length-drop_le zero s = omega arith
length-drop_le (suc n) [] = omega arith
length-drop_le (suc n) (c ∷ s) = omega (arith, length-drop_le n s)

-- The text gets shorter with every round.
erase_first-length : (s s' : Text) → erase_first s ≡ some s' → length s' < length s
unfolding erase_first
erase_first-length [] s' h = absurd cc
erase_first-length (c ∷ cs) s' h = elim (Bool-cases (starts_with (c ∷ cs) command)) [
  | inl found ↦
      subst (λ t. length t < suc (length cs)) (some-injective (rw (found, erase_first) at h))
        (fewer cs)
  | inr other ↦ later (erase_first cs) refl (rw (other, erase_first) at h) (erase_first-length cs)
]
  where
    some-injective : {a b : Text} → some a ≡ some b → a ≡ b
    some-injective e = cc

    fewer : (cs : Text) → length (drop 8 cs) < suc (length cs)
    fewer cs = omega (arith, length-drop_le 8 cs)

    later :
        (o : Option Text)
        → erase_first cs ≡ o
        → before c o ≡ some s'
        → ((t : Text) → erase_first cs ≡ some t → length t < length cs)
        → length s' < suc (length cs)
    later none e k f = absurd cc
    later (some t) e k f =
        subst (λ t. length t < suc (length cs)) (some-injective k) (omega (arith, f t e))

pub erase_from-done :
    (fuel : ℕ) (s : Text) → length s ≤ fuel → erase_first (erase_from fuel s) ≡ none
unfolding erase_from erase_first
erase_from-done zero [] h = refl
erase_from-done zero (c ∷ s) h = absurd (omega arith)
erase_from-done (suc fuel) s h = elim (Option-cases (erase_first s)) [
  | inl gone ↦ rw (gone, erase_from) gone
  | inr (s', e) ↦
      rw (e, erase_from) (erase_from-done fuel s' (omega (arith, erase_first-length s s' e)))
]
