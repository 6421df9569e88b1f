-- ===== src/Diagnosis/Words.antt =====
-- `error_line` of src/launcher/diagnosis.cpp finds the words that stand by themselves.
use rift_lift.Common.{
  ℕ, ◌≤◌, Bool, true, false, not, ◌&&◌, ◌||◌, [], ◌∷◌, Option, some, Text, starts_with, length,
  drop, if◌then◌else◌, ◌≡◌, refl, sym, subst, arith, and_left, and_right,
}
use rift_lift.Diagnosis.Lines.{starts_here, ends_here, stands_here, search}

-- The word stands by itself at some place of the text.
abbrev pub whole : Text → Option ℕ → Text → Bool
whole word before [] = false
whole word before (c ∷ cs) = stands_here word before (c ∷ cs) || whole word (some c) cs

-- A part of the word that starts it again stands behind a character of a word.
abbrev pub tame : Text → Option ℕ → Text → Bool
tame word before [] = true
tame word before (c ∷ cs) =
    not (starts_with word (c ∷ cs) && starts_here before) && tame word (some c) cs

starts_with-both :
    (text short long : Text)
    → length short ≤ length long
    → starts_with text short ≡ true
    → starts_with text long ≡ true
    → starts_with long short ≡ true
unfolding starts_with
starts_with-both text [] long h s l = refl
starts_with-both text (x ∷ xs) [] h s l = absurd (omega (arith, h))
starts_with-both [] (x ∷ xs) (y ∷ ys) h s l = absurd cc
starts_with-both (c ∷ cs) (x ∷ xs) (y ∷ ys) h s l =
    ground (arith, s, l, starts_with-both cs xs ys (omega (arith, h)))

starts_with-cons :
    (c d : ℕ) (cs part : Text)
    → starts_with (c ∷ cs) (d ∷ part) ≡ true
    → (c ≡ d) × (starts_with cs part ≡ true)
unfolding starts_with
starts_with-cons c d cs part h = (ground (arith, h), and_right _ _ h)

pub starts_with-nil : (text : Text) → starts_with text [] ≡ true
unfolding starts_with
starts_with-nil text = refl

nothing_starts : (d : ℕ) (part : Text) → starts_with [] (d ∷ part) ≡ true → ⊥
unfolding starts_with
nothing_starts d part h = cc

-- The branches of the loop against the definition of the places.
branches :
    (found starts ends behind next later : Bool)
    → (found ≡ true → behind ≡ later)
    → (found ≡ false → next ≡ later)
    → (if found then (if found && starts && ends then true else behind) else next)
      ≡ (found && starts && ends || later)
branches true true true behind next later b n = refl
branches true true false behind next later b n = b refl
branches true false ends behind next later b n = b refl
branches false starts ends behind next later b n = n refl

not_there :
    (text word part : Text) (before : Option ℕ)
    → length part ≤ length word
    → starts_with text part ≡ true
    → not (starts_with word part && starts_here before) ≡ true
    → stands_here word before text ≡ false
not_there text word part before h s n = ground (arith, n, starts_with-both text part word h s)

pub search-whole :
    (x : ℕ) (xs rest : Text) (before : Option ℕ) (text : Text)
    → tame (x ∷ xs) (some x) xs ≡ true
    → tame (x ∷ xs) before rest ≡ true
    → starts_with text rest ≡ true
    → length rest ≤ length xs
    → search (x ∷ xs) (length rest) before text ≡ whole (x ∷ xs) before text
unfolding search
search-whole x xs [] before [] t r s h = refl
search-whole x xs (d ∷ rest) before [] t r s h = refl
search-whole x xs (d ∷ rest) before (c ∷ cs) t r s h =
    let (same, s') = starts_with-cons c d cs rest s in
    rw (not_there (c ∷ cs) (x ∷ xs) (d ∷ rest) before (omega (arith, h)) s (and_left _ _ r)) (
      search-whole x xs rest (some c) cs t
        (subst (λ e. tame (x ∷ xs) (some e) rest ≡ true) (sym same) (and_right _ _ r)) s'
        (omega (arith, h)))
search-whole x xs [] before (c ∷ cs) t r s h =
    branches (starts_with (c ∷ cs) (x ∷ xs)) (starts_here before)
      (ends_here (drop (length (x ∷ xs)) (c ∷ cs))) _ _ _
      (λ yes.
        let (same, s') = starts_with-cons c x cs xs yes in
        search-whole x xs xs (some c) cs t
          (subst (λ e. tame (x ∷ xs) (some e) xs ≡ true) (sym same) t) s' (omega arith))
      (λ no. search-whole x xs [] (some c) cs t refl (starts_with-nil cs) (omega arith))
