-- ===== src/Build/Contained.antt =====
-- Where the names that `safe_relative` (src/common/meta/store.cpp) lets pass lead to.
use rift_lift.Common.{
  ℕ, ◌==◌, ==_iff, ◌≢◌, Bool-cases, inl, inr, Bool, true, false, not, ◌||◌, List, [], ◌∷◌, ◌++◌,
  Option, none, some, Text, codes, text_eq, is_empty, all, ok, require, ◌≡◌, refl, ap, sym, ◌∙◌,
  arith, then-eq_ok, require-eq_ok, ok-injective, subst, append_assoc, append-nil, if◌then◌else◌,
}
use mathlib.Core.List.{reverse, reverse-append, reverse-reverse}
use rift_lift.Rules.Strings.{split, join, first_part}
use rift_lift.Build.Names.{safe_name, safe_part, is_reserved, safe_relative}

-- What the parts of a path lead to from a folder: the folders and the file below it, the innermost
-- first, or nothing once the path has left the folder.
unfoldable pub walk : List Text → List Text → Option (List Text)
walk below [] = some below
walk below (part ∷ parts) = elim (is_empty part || text_eq part (codes ".")) [
  | true ↦ walk below parts
  | false ↦ elim (text_eq part (codes "..")) [
    | false ↦ walk (part ∷ below) parts
    | true ↦ elim below [ [] ↦ none | last ∷ rest ↦ walk rest parts ]
  ]
]

safe_part_lem :
    (part : Text)
    → safe_part part ≡ true
    → (is_empty part ≡ false)
      × (text_eq part (codes ".") ≡ false)
      × (text_eq part (codes "..") ≡ false)
unfolding safe_name
safe_part_lem part h = ground arith

reverse-cons :
    (x : Text) (xs below : List Text) → reverse xs ++ x ∷ below ≡ reverse (x ∷ xs) ++ below
reverse-cons x xs below =
    sym (append_assoc (reverse xs) (x ∷ []) below)
    ∙ ap (λ ys. ys ++ below) (sym (reverse-append (x ∷ []) xs))

walk-safe :
    (below parts : List Text)
    → all safe_part parts ≡ true
    → walk below parts ≡ some (reverse parts ++ below)
unfolding walk
walk-safe below [] h = refl
walk-safe below (part ∷ parts) h =
    let (nonempty, no_dot, no_dots) = safe_part_lem part (ground (arith, h)) in
    let rest = walk-safe (part ∷ below) parts (ground (arith, h)) in
    rw (walk, nonempty, no_dot, no_dots) (rest ∙ ap some (reverse-cons part parts below))

join-first_part :
    (separator c : ℕ) (parts : List Text)
    → parts ≢ []
    → join (separator ∷ []) (first_part c parts) ≡ c ∷ join (separator ∷ []) parts
unfolding join
join-first_part separator c [] h = absurd (h refl)
join-first_part separator c (p ∷ []) h = refl
join-first_part separator c (p ∷ q ∷ ps) h = refl

split_some : (separator : ℕ) (s : Text) → split separator s ≢ []
unfolding split
split_some separator [] = λ e. cc
split_some separator (c ∷ s) = by_test (c == separator) (split separator s)
  where
    by_test :
        (test : Bool) (parts : List Text) → (if test then [] ∷ parts else first_part c parts) ≢ []
    by_test true parts = λ e. cc
    by_test false [] = λ e. cc
    by_test false (p ∷ ps) = λ e. cc

join-empty :
    (separator : ℕ) (parts : List Text)
    → parts ≢ []
    → join (separator ∷ []) ([] ∷ parts) ≡ separator ∷ join (separator ∷ []) parts
unfolding join
join-empty separator [] h = absurd (h refl)
join-empty separator (p ∷ parts) h = refl

pub join-split : (separator : ℕ) (s : Text) → join (separator ∷ []) (split separator s) ≡ s
unfolding split join
join-split separator [] = refl
join-split separator (c ∷ s) = elim (Bool-cases (c == separator)) [
  | inl is_separator ↦
      rw (is_separator, split)
        (join-empty separator (split separator s) (split_some separator s)
          ∙ ap (λ t. separator ∷ t) (join-split separator s)
          ∙ ap (λ d. d ∷ s) (sym ((==_iff c separator).0 is_separator)))
  | inr other ↦
      rw (other, split)
        (join-first_part separator c (split separator s) (split_some separator s)
          ∙ ap (λ t. c ∷ t) (join-split separator s))
]

pub safe_relative-walk :
    (name relative : Text)
    → safe_relative name ≡ ok relative
    → (walk [] (split b'/' relative) ≡ some (reverse (split b'/' relative)))
      × (is_reserved relative ≡ false)
unfolding safe_relative
safe_relative-walk name relative h =
    let (_, h1) = then-eq_ok (require _ _) _ _ h in
    let (parts, h2) = then-eq_ok (require _ _) _ _ h1 in
    let (free, h3) = then-eq_ok (require _ _) _ _ h2 in
    let same = ok-injective h3 in
    subst (λ r. (walk [] (split b'/' r) ≡ some (reverse (split b'/' r))) × (is_reserved r ≡ false))
      same
      (
        walk-safe [] (split b'/' _) (require-eq_ok _ _ parts) ∙ ap some (append-nil _),
        not_true (require-eq_ok _ _ free),
      )
  where
    not_true : {b : Bool} → not b ≡ true → b ≡ false
    not_true e = ground arith

-- Names of a build manifest that are let pass lead to files inside the game's folder, by exactly
-- their own parts, and two of them lead to the same file only if they are the same name. None is a
-- name that is kept for files in progress.
pub safe_relative_lem :
    (name other relative relative' : Text)
    → safe_relative name ≡ ok relative
    → safe_relative other ≡ ok relative'
    → (walk [] (split b'/' relative) ≡ some (reverse (split b'/' relative)))
      × (is_reserved relative ≡ false)
      × (walk [] (split b'/' relative) ≡ walk [] (split b'/' relative') → relative ≡ relative')
safe_relative_lem name other relative relative' h h' =
    let (leads, free) = safe_relative-walk name relative h in
    let (leads', _) = safe_relative-walk other relative' h' in
    (
      leads,
      free,
      λ e.
          let parts = some-injective (sym leads ∙ e ∙ leads') in
          sym (join-split b'/' relative)
          ∙ ap (join (b'/' ∷ [])) (sym (reverse-reverse _) ∙ ap reverse parts ∙ reverse-reverse _)
          ∙ join-split b'/' relative',
    )
  where
    some-injective : {A : Type 0} {x y : A} → some x ≡ some y → x ≡ y
    some-injective e = cc
