-- ===== src/Diagnosis/Causes.antt =====
-- Which cause `diagnose` of src/launcher/diagnosis.cpp names.
use rift_lift.Common.{
  Bool, true, false, not, ◌&&◌, List, [], ◌∷◌, ◌++◌, Option, none, some, Text, is_empty,
  starts_with, any, contains, find, find-none, ◌≡◌, refl, ap, sym, subst, and_right, Bool-cases,
  ◌⊎◌, inl, inr,
}
use rift_lift.Rules.Strings.{lower, split}
use rift_lift.Diagnosis.Lines.{has_part}
use rift_lift.Diagnosis.Places.{starts_with-parts, any-contains}
use rift_lift.Diagnosis.Known.{
  Cause, Rule, known_rules, matches, failed_start, vr_cause, last_resort, diagnose,
}

-- `part` is in the text.
pub record Holds (part text : Text) : Type 0 where
  pub before : Text
  pub after : Text
  pub parts : text ≡ before ++ (part ++ after)

has_part-Holds : (text part : Text) → has_part text part ≡ true → Holds part text
unfolding has_part
has_part-Holds [] part h = record { before = []; after = _; parts = starts_with-parts [] part h }
has_part-Holds (c ∷ cs) part h = elim (Bool-cases (starts_with (c ∷ cs) part)) [
  | inl here ↦ record { before = []; after = _; parts = starts_with-parts (c ∷ cs) part here }
  | inr later ↦
      let there = has_part-Holds cs part (rw later at h) in
      record { before = c ∷ there.before; after = there.after; parts = ap (λ r. c ∷ r) there.parts }
]

-- The first of the rules of which a signature is in the text.
pub record First (text : Text) (rules : List Rule) (d : Cause) : Type 0 where
  pub earlier : List Rule
  pub chosen : Rule
  pub later : List Rule
  pub signature : Text
  pub order : rules ≡ earlier ++ chosen ∷ later
  pub none_before : any (matches text) earlier ≡ false
  pub signed : contains chosen.signatures signature ≡ true
  pub held : Holds signature text
  pub named : d ≡ chosen.names

some-injective : {A : Type 0} {a b : A} → some a ≡ some b → a ≡ b
some-injective e = cc

nothing : {d : Cause} → ◌≡◌ {A = Option Cause} none (some d) → ⊥
nothing e = cc

something : {d : Cause} → ◌≡◌ {A = Option Cause} (some d) none → ⊥
something e = cc

matches-signature :
    (text : Text) (r : Rule)
    → matches text r ≡ true
    → (s : Text) × (contains r.signatures s ≡ true) × ((not (is_empty s) && has_part text s) ≡ true)
unfolding matches
matches-signature text r h = any-contains (λ s. not (is_empty s) && has_part text s) r.signatures h

find-First :
    (text : Text) (rules : List Rule) (r : Rule)
    → find (matches text) rules ≡ some r
    → First text rules r.names
find-First text [] r h = absurd cc
find-First text (q ∷ rules) r h = elim (Bool-cases (matches text q)) [
  | inl here ↦
      let same : q ≡ r = some-injective (rw here at h) in
      let (signature, listed, ok_signature) = matches-signature text q here in
      record {
        earlier = [];
        chosen = q;
        later = rules;
        signature = signature;
        order = refl;
        none_before = refl;
        signed = listed;
        held = has_part-Holds text signature (and_right _ _ ok_signature);
        named = ap (λ q. q.names) (sym same);
      }
  | inr passed ↦
      let first = find-First text rules r (rw passed at h) in
      record {
        earlier = q ∷ first.earlier;
        chosen = first.chosen;
        later = first.later;
        signature = first.signature;
        order = ap (λ rs. q ∷ rs) first.order;
        none_before = rw (passed, first.none_before) refl;
        signed = first.signed;
        held = first.held;
        named = first.named;
      }
]

-- The cause is that of the first rule of which a signature is in the evidence, in any case; where no
-- rule has one, it is that of a line of the game that says that VR did not start. Nothing is named only
-- where there is no such signature and no such line.
pub diagnose_lem :
    (vr_failed : Text → Bool) (evidence : Text)
    → ((d : Cause)
        → diagnose vr_failed evidence ≡ some d
        → First (lower evidence) known_rules d
          ⊎ ((any (matches (lower evidence)) known_rules ≡ false)
              × (d ≡ vr_cause)
              × (line : Text) × (contains (split b'\n' (lower evidence)) line ≡ true)
              × (failed_start vr_failed line ≡ true)))
      × (diagnose vr_failed evidence ≡ none
          → (any (matches (lower evidence)) known_rules ≡ false)
            × (any (failed_start vr_failed) (split b'\n' (lower evidence)) ≡ false))
unfolding diagnose
diagnose_lem vr_failed evidence = (
  λ d h. some_cause d (find (matches lowered) known_rules) refl h,
  λ h. no_cause (find (matches lowered) known_rules) refl h,
)
  where
    lowered : Text
    lowered = lower evidence

    some_cause :
        (d : Cause) (found : Option Rule)
        → find (matches lowered) known_rules ≡ found
        → last_resort vr_failed lowered found ≡ some d
        → First lowered known_rules d
          ⊎ ((any (matches lowered) known_rules ≡ false)
              × (d ≡ vr_cause)
              × (line : Text) × (contains (split b'\n' lowered) line ≡ true)
              × (failed_start vr_failed line ≡ true))
    some_cause d (some r) e h =
        inl (
          subst (First lowered known_rules) (some-injective h) (find-First lowered known_rules r e))
    some_cause d none e h = elim (Bool-cases (any (failed_start vr_failed) (split b'\n' lowered))) [
      | inl there ↦
          let (line, c, f) = any-contains (failed_start vr_failed) (split b'\n' lowered) there in
          inr (
            find-none (matches lowered) known_rules e,
            sym (some-injective (rw there at h)),
            line,
            c,
            f,
          )
      | inr nowhere ↦ absurd (nothing (rw nowhere at h))
    ]

    no_cause :
        (found : Option Rule)
        → find (matches lowered) known_rules ≡ found
        → last_resort vr_failed lowered found ≡ none
        → (any (matches lowered) known_rules ≡ false)
          × (any (failed_start vr_failed) (split b'\n' lowered) ≡ false)
    no_cause (some r) e h = absurd cc
    no_cause none e h = elim (Bool-cases (any (failed_start vr_failed) (split b'\n' lowered))) [
      | inl there ↦ absurd (something (rw there at h))
      | inr nowhere ↦ (find-none (matches lowered) known_rules e, nowhere)
    ]
