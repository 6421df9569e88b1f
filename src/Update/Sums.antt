-- ===== src/Update/Sums.antt =====
-- The file that `fetch` of src/launcher/updater.cpp returns has a digest that the release lists.
use rift_lift.Common.{
  ℕ, zero, suc, ◌≤◌, Bool, true, false, not, ◌&&◌, ◌||◌, List, [], ◌∷◌, ◌++◌, Option, none, some,
  Text, codes, is_empty, text_eq, text_eq_iff, text_eq_refl, contains, ltb, length, take, drop, all,
  Result, ok, if◌then◌else◌, ◌≡◌, refl, ap, sym, ◌∙◌, subst, arith, and_left, and_right, Bool-cases,
  inl, inr,
}
use rift_lift.Rules.Strings.{lower, split, drop_while_end}
use rift_lift.Exec.{pure, throw, lift, gets, modify, ◌>>=◌, ◌>>◌, failed, bind-run, check-run}
use rift_lift.Update.Release.{
  is_xdigit, trailing, without_mark, sum_of_trimmed, sum_of, or_later, first_sum, expected_sum,
}
use rift_lift.Update.Fetch.{Network, compare_sum, remove_file, mismatch_error, fetch}

-- A line "<64 hex>  <name>" or "<64 hex> *<name>" that gives the digest `sum`.
pub record Lists (name line sum : Text) : Type 0 where
  pub sum_digits : Text
  pub rest : Text
  pub parts : line ≡ sum_digits ++ b' ' ∷ rest
  pub long : length sum_digits ≡ 64
  pub hexadecimal : all is_xdigit sum_digits ≡ true
  pub digest : lower sum_digits ≡ sum
  pub named : without_mark rest ≡ name

take-drop : (n : ℕ) (line : Text) → line ≡ take n line ++ drop n line
take-drop zero line = refl
take-drop (suc n) [] = refl
take-drop (suc n) (c ∷ cs) = ap (λ r. c ∷ r) (take-drop n cs)

length-take_le : (n : ℕ) (line : Text) → n ≤ length line → length (take n line) ≡ n
length-take_le zero line h = refl
length-take_le (suc n) [] h = absurd (omega (arith, h))
length-take_le (suc n) (c ∷ cs) h = ap suc (length-take_le n cs (omega (arith, h)))

first_char : {c d : ℕ} → d ∷ [] ≡ c ∷ [] → d ≡ c
first_char h = cc

drop-next :
    (n : ℕ) (line : Text) (c : ℕ)
    → take 1 (drop n line) ≡ c ∷ []
    → drop n line ≡ c ∷ drop (suc n) line
drop-next zero [] c h = absurd cc
drop-next zero (d ∷ cs) c h = ap (λ e. e ∷ cs) (first_char h)
drop-next (suc n) [] c h = absurd cc
drop-next (suc n) (d ∷ cs) c h = drop-next n cs c h

sum_of_trimmed-Lists :
    (name line sum : Text) → sum_of_trimmed name line ≡ some sum → Lists name line sum
sum_of_trimmed-Lists name line sum h =
    elim (Bool-cases (ltb (length line) 66 || not (text_eq (take 1 (drop 64 line)) (codes " ")))) [
      | inl short ↦ absurd (no_sum (rw short at h))
      | inr long ↦
          elim (Bool-cases
            (text_eq (without_mark (drop 65 line)) name && all is_xdigit (take 64 line))) [
              | inl fits ↦ record {
                sum_digits = take 64 line;
                rest = drop 65 line;
                parts =
                    take-drop 64 line
                    ∙ ap (λ r. take 64 line ++ r)
                        (drop-next 64 line b' ' ((text_eq_iff _ _).0 (ground (arith, long))));
                long = length-take_le 64 line (ground (arith, long));
                hexadecimal = and_right _ _ fits;
                digest = some-injective (rw (long, fits) at h);
                named = (text_eq_iff _ _).0 (and_left _ _ fits);
              }
              | inr other ↦ absurd (no_sum (rw (long, other) at h))
            ]
    ]
  where
    no_sum : {s : Text} → none ≡ some s → ⊥
    no_sum e = cc

    some-injective : {s t : Text} → some s ≡ some t → s ≡ t
    some-injective e = cc

-- The digest that is expected stands in a line for the name.
pub first_sum-Lists :
    (name : Text) (lines : List Text)
    → is_empty (first_sum name lines) ≡ false
    → (line : Text) × (contains lines line ≡ true)
      × Lists name (drop_while_end trailing line) (first_sum name lines)
first_sum-Lists name [] h = absurd cc
first_sum-Lists name (l ∷ lines) h = went (sum_of name l) refl (first_sum-Lists name lines) h
  where
    went :
        (o : Option Text)
        → sum_of name l ≡ o
        → (is_empty (first_sum name lines) ≡ false
            → (line : Text) × (contains lines line ≡ true)
              × Lists name (drop_while_end trailing line) (first_sum name lines))
        → is_empty (or_later o (first_sum name lines)) ≡ false
        → (line : Text) × (contains (l ∷ lines) line ≡ true)
          × Lists name (drop_while_end trailing line) (or_later o (first_sum name lines))
    went none e later h =
        let (line, listed, lists) = later h in (line, ground (arith, listed), lists)
    went (some sum) e later h = (
      l,
      rw (text_eq_refl l) refl,
      sum_of_trimmed-Lists name (drop_while_end trailing l) sum (unfold sum_of in e),
    )

compare_sum-eq_ok :
    (net : Network) (expected : Text) (before after : Option Text)
    → compare_sum net expected before ≡ (ok tt, after)
    → lower (net.sha256 after) ≡ expected
unfolding gets modify pure throw ◌>>=◌
compare_sum-eq_ok net expected before after e =
    went (text_eq (lower (net.sha256 before)) expected) refl e
  where
    went :
        (b : Bool)
        → text_eq (lower (net.sha256 before)) expected ≡ b
        → (if b then pure tt else (modify (remove_file net) >> throw mismatch_error)) before
          ≡ (ok tt, after)
        → lower (net.sha256 after) ≡ expected
    went true h e =
        ap (λ r. lower (net.sha256 r.1)) (sym e)
        ∙ (text_eq_iff (lower (net.sha256 before)) expected).0 h
    went false h e = absurd (failed e)

lifted : (text : Text) (r : Result Text) (s t : Option Text) → lift r s ≡ (ok text, t) → r ≡ ok text
unfolding lift
lifted text r s t e = ap (λ p. p.0) e

-- A file that `fetch` returns has the digest that a line of the release's sums gives for its name.
pub fetch-Lists :
    (net : Network) (name : Text) (before after : Option Text)
    → fetch net name before ≡ (ok tt, after)
    → (text : Text) × (net.sums_text ≡ ok text)
      × (line : Text) × (contains (split b'\n' text) line ≡ true)
      × Lists name (drop_while_end trailing line) (lower (net.sha256 after))
unfolding fetch expected_sum
fetch-Lists net name before after e =
    bind-run _ before tt after (lift net.sums_text) e λ text s1 e1 r1.
      check-run _ _ _ s1 tt after r1 λ listed r2.
        bind-run _ s1 tt after (lift net.folder) r2 λ u s2 e2 r3.
          bind-run _ s2 tt after net.download r3 λ u' s3 e3 r4.
            let (line, there, lists) =
              first_sum-Lists name (split b'\n' text) (ground (arith, listed)) in
            (
              text,
              lifted text net.sums_text before s1 e1,
              line,
              there,
              subst (Lists name (drop_while_end trailing line))
                  (sym (compare_sum-eq_ok net (expected_sum text name) s3 after r4)) lists,
            )
