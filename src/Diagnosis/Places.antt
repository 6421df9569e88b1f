-- ===== src/Diagnosis/Places.antt =====
-- What `error_line` of src/launcher/diagnosis.cpp finds, as a statement about the line.
use rift_lift.Common.{
  ℕ, Bool, true, false, ◌||◌, List, [], ◌∷◌, ◌++◌, Option, none, some, Text, text_eq, text_eq_iff,
  text_eq_refl, contains, starts_with, length, drop, any, all, ◌≡◌, ◌↔◌, refl, ap, sym, ◌∙◌, subst,
  arith, and_left, and_right, Bool-cases, inl, inr,
}
use rift_lift.Rules.Strings.{lower}
use rift_lift.Diagnosis.Lines.{
  word_char, starts_here, ends_here, stands_here, search, error_words, error_line,
}
use rift_lift.Diagnosis.Words.{whole, tame, starts_with-nil, search-whole}

abbrev pub last_of : Option ℕ → Text → Option ℕ
last_of before [] = before
last_of before (c ∷ cs) = last_of (some c) cs

-- The word is a part of the text, and neither the character before it nor the one behind it goes on a
-- word.
pub record Stands (word : Text) (first : Option ℕ) (text : Text) : Type 0 where
  pub before : Text
  pub after : Text
  pub parts : text ≡ before ++ (word ++ after)
  pub starts : starts_here (last_of first before) ≡ true
  pub ends : ends_here after ≡ true

pub starts_with-parts :
    (text word : Text) → starts_with text word ≡ true → text ≡ word ++ drop (length word) text
unfolding starts_with
starts_with-parts text [] h = refl
starts_with-parts [] (x ∷ xs) h = absurd cc
starts_with-parts (c ∷ cs) (x ∷ xs) h =
    let same : c ≡ x = ground (arith, h) in
    ap (λ d. d ∷ cs) same ∙ ap (λ r. x ∷ r) (starts_with-parts cs xs (and_right _ _ h))

pub parts-starts_with : (word after : Text) → starts_with (word ++ after) word ≡ true
unfolding starts_with
parts-starts_with [] after = refl
parts-starts_with (x ∷ xs) after = ground (arith, parts-starts_with xs after)

drop-parts : (word after : Text) → drop (length word) (word ++ after) ≡ after
drop-parts [] after = refl
drop-parts (x ∷ xs) after = drop-parts xs after

whole-Stands :
    (word : Text) (first : Option ℕ) (text : Text)
    → whole word first text ≡ true
    → Stands word first text
whole-Stands word first [] h = absurd cc
whole-Stands word first (c ∷ cs) h = elim (Bool-cases (stands_here word first (c ∷ cs))) [
  | inl here ↦ record {
    before = [];
    after = drop (length word) (c ∷ cs);
    parts = starts_with-parts (c ∷ cs) word (and_left _ _ (and_left _ _ here));
    starts = and_right _ _ (and_left _ _ here);
    ends = and_right _ _ here;
  }
  | inr later ↦
      let there = whole-Stands word (some c) cs (rw later at h) in
      record {
        before = c ∷ there.before;
        after = there.after;
        parts = ap (λ r. c ∷ r) there.parts;
        starts = there.starts;
        ends = there.ends;
      }
]

parts-whole :
    (x : ℕ) (xs : Text) (first : Option ℕ) (before after : Text)
    → starts_here (last_of first before) ≡ true
    → ends_here after ≡ true
    → whole (x ∷ xs) first (before ++ ((x ∷ xs) ++ after)) ≡ true
parts-whole x xs first [] after s e =
    rw (parts-starts_with (x ∷ xs) after, s, drop-parts (x ∷ xs) after, e) refl
parts-whole x xs first (c ∷ before) after s e =
    or_right _ _ (parts-whole x xs (some c) before after s e)
  where
    or_right : (a b : Bool) → b ≡ true → (a || b) ≡ true
    or_right a b h = ground (arith, h)

abbrev tame_word : Text → Bool
tame_word [] = false
tame_word (x ∷ xs) = tame (x ∷ xs) (some x) xs

error_words-tame : all tame_word error_words ≡ true
unfolding starts_with word_char
error_words-tame = refl

all-contains :
    (p : Text → Bool) (ws : List Text) (w : Text)
    → all p ws ≡ true
    → contains ws w ≡ true
    → p w ≡ true
all-contains p [] w a h = absurd cc
all-contains p (v ∷ ws) w a h = elim (Bool-cases (text_eq v w)) [
  | inl same ↦ subst (λ u. p u ≡ true) ((text_eq_iff v w).0 same) (and_left _ _ a)
  | inr other ↦ all-contains p ws w (and_right _ _ a) (rw other at h)
]

pub any-contains :
    (p : Text → Bool) (ws : List Text)
    → any p ws ≡ true
    → (w : Text) × (contains ws w ≡ true) × (p w ≡ true)
any-contains p [] a = absurd cc
any-contains p (v ∷ ws) a = elim (Bool-cases (p v)) [
  | inl here ↦ (v, rw (text_eq_refl v) refl, here)
  | inr later ↦ let (w, c, h) = any-contains p ws (rw later at a) in (w, ground (arith, c), h)
]

contains-any :
    (p : Text → Bool) (ws : List Text) (w : Text)
    → contains ws w ≡ true
    → p w ≡ true
    → any p ws ≡ true
contains-any p [] w c h = absurd cc
contains-any p (v ∷ ws) w c h = elim (Bool-cases (text_eq v w)) [
  | inl same ↦ rw (subst (λ u. p u ≡ true) (sym ((text_eq_iff v w).0 same)) h) refl
  | inr other ↦ ground (arith, contains-any p ws w (rw other at c) h)
]

-- A line reports a failure exactly where one of the words is a part of it, in any case, and no word
-- goes on before or behind that part.
pub error_line-Stands :
    (line : Text)
    → error_line line ≡ true
      ↔ ((word : Text) × (contains error_words word ≡ true) × Stands word none (lower line))
unfolding error_line
error_line-Stands line = (finds, found)
  where
    found_by :
        (word : Text)
        → tame_word word ≡ true
        → search word 0 none (lower line) ≡ whole word none (lower line)
    found_by [] t = absurd cc
    found_by (x ∷ xs) t =
        search-whole x xs [] none (lower line) t refl (starts_with-nil _) (omega arith)

    tame_of : (word : Text) → contains error_words word ≡ true → tame_word word ≡ true
    tame_of word c = all-contains tame_word error_words word error_words-tame c

    finds :
        error_line line ≡ true
        → (word : Text) × (contains error_words word ≡ true) × Stands word none (lower line)
    finds h =
        let (word, c, s) = any-contains (λ word. search word 0 none (lower line)) error_words h in
        (word, c, whole-Stands word none (lower line) (sym (found_by word (tame_of word c)) ∙ s))

    stands :
        (word : Text)
        → tame_word word ≡ true
        → Stands word none (lower line)
        → whole word none (lower line) ≡ true
    stands [] t s = absurd cc
    stands (x ∷ xs) t s =
        ap (whole (x ∷ xs) none) s.parts ∙ parts-whole x xs none s.before s.after s.starts s.ends

    found :
        ((word : Text) × (contains error_words word ≡ true) × Stands word none (lower line))
        → error_line line ≡ true
    found (word, c, s) =
        contains-any (λ word. search word 0 none (lower line)) error_words word c
          (found_by word (tame_of word c) ∙ stands word (tame_of word c) s)
