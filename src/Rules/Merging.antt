-- ===== src/Rules/Merging.antt =====
-- What the merging of DLL overrides in src/runtime/rules.cpp promises.
use rift_lift.Common.{
  cut, true, false, not, List, [], ◌∷◌, ◌++◌, ◌≡◌, ◌≢◌, refl, ap, ◌∙◌, inl, inr, ◌⊎◌, Option, none,
  some, Text, codes, text_eq, text_eq_refl, contains, all, all-keep, keep, Result, ok, err,
  ok-injective, if◌then◌else◌, All, Bool-cases, arith, subst,
}
use rift_lift.Rules.Strings.{split, join, dll_name}
use rift_lift.Rules.Env.{
  Env, get, erase_all, lookup, lookup-insert, lookup-erase_all, contains_other, value_or_empty,
}
use rift_lift.Rules.Overrides.{
  given_rules, chosen_names, remaining, retained, retain_parts, rejoined, wine_overrides,
  merge_rules, apply_dll_overrides, validate_dll_overrides, openxr_names, trim_semicolons,
  behind_semicolon, disable_openxr_for_direct_openvr,
}

result_cases : (r : Result (Unit {0})) → (r ≡ ok tt) ⊎ ((e : Text) × (r ≡ err e))
result_cases (ok tt) = inl refl
result_cases (err e) = inr (e, refl)

-- A rule that names some DLLs, none of which is chosen.
pub record Avoids (chosen : List Text) (rule : Text) : Type 0 where
  pub names : List Text
  pub order : Text
  pub reads : rule ≡ join (b',' ∷ []) names ++ (b'=' ∷ order)
  pub some_names : names ≢ []
  pub none_chosen : all (λ name. not (contains chosen (dll_name name))) names ≡ true

All-append : (P : Text → Type 0) (xs ys : List Text) → All P xs → All P ys → All P (xs ++ ys)
All-append P [] ys h k = k
All-append P (x ∷ xs) ys h k = (h.0, All-append P xs ys h.1 k)

rejoined-Avoids :
    (chosen names : List Text) (order : Text)
    → all (λ name. not (contains chosen (dll_name name))) names ≡ true
    → All (Avoids chosen) (rejoined names order)
rejoined-Avoids chosen [] order h = tt
rejoined-Avoids chosen (name ∷ names) order h = (
  record {
    names = name ∷ names;
    order = order;
    reads = refl;
    some_names = λ e. cc;
    none_chosen = h;
  },
  tt,
)

retain_parts-Avoids :
    (chosen : List Text) (parts : Option (Text × Text))
    → All (Avoids chosen) (retain_parts chosen parts)
retain_parts-Avoids chosen none = tt
retain_parts-Avoids chosen (some (names, order)) = elim (Bool-cases (contains chosen (codes "*"))) [
  | inl every ↦ rw every tt
  | inr some_only ↦ rw some_only (
      rejoined-Avoids chosen (remaining chosen names) order
        (all-keep (λ name. not (contains chosen (dll_name name))) (split b',' names)))
]

retained-Avoids :
    (chosen : List Text) (rules : List Text) → All (Avoids chosen) (retained chosen rules)
unfolding retained
retained-Avoids chosen [] = tt
retained-Avoids chosen (rule ∷ rules) =
    All-append (Avoids chosen) (retain_parts chosen (cut b'=' rule)) (retained chosen rules)
      (retain_parts-Avoids chosen (cut b'=' rule)) (retained-Avoids chosen rules)

retain_parts_star :
    (chosen : List Text) (parts : Option (Text × Text))
    → contains chosen (codes "*") ≡ true
    → retain_parts chosen parts ≡ []
retain_parts_star chosen none h = refl
retain_parts_star chosen (some (names, order)) h = rw h refl

retained_star :
    (chosen rules : List Text) → contains chosen (codes "*") ≡ true → retained chosen rules ≡ []
unfolding retained
retained_star chosen [] h = refl
retained_star chosen (rule ∷ rules) h =
    ap (λ xs. xs ++ retained chosen rules) (retain_parts_star chosen (cut b'=' rule) h)
    ∙ retained_star chosen rules h

-- What is left of each inherited rule, in their order: a text without `=` goes, and so does a rule
-- whose DLLs are all chosen; any other keeps its order and the DLLs that are not.
pub data Kept (chosen : List Text) : List Text → List Text → Type 0 where
  ended : Kept chosen [] []
  no_rule :
      {rule : Text} {rules kept : List Text}
      → cut b'=' rule ≡ none
      → Kept chosen rules kept
      → Kept chosen (rule ∷ rules) kept
  dropped :
      {rule names order : Text} {rules kept : List Text}
      → cut b'=' rule ≡ some (names, order)
      → all (λ name. contains chosen (dll_name name)) (split b',' names) ≡ true
      → Kept chosen rules kept
      → Kept chosen (rule ∷ rules) kept
  shortened :
      {rule names order : Text} {rules kept : List Text} (name : Text) (left : List Text)
      → cut b'=' rule ≡ some (names, order)
      → keep (λ name. not (contains chosen (dll_name name))) (split b',' names) ≡ name ∷ left
      → Kept chosen rules kept
      → Kept chosen (rule ∷ rules) ((join (b',' ∷ []) (name ∷ left) ++ (b'=' ∷ order)) ∷ kept)

keep-none :
    (chosen names : List Text)
    → keep (λ name. not (contains chosen (dll_name name))) names ≡ []
    → all (λ name. contains chosen (dll_name name)) names ≡ true
keep-none chosen [] h = refl
keep-none chosen (name ∷ names) h = elim (Bool-cases (contains chosen (dll_name name))) [
  | inl is_chosen ↦ rw is_chosen (keep-none chosen names (rw is_chosen at h))
  | inr stays ↦ absurd (not_empty (rw stays at h))
]
  where
    not_empty : {x : Text} {xs : List Text} → x ∷ xs ≡ [] → ⊥
    not_empty e = cc

retained-Kept :
    (chosen rules : List Text)
    → contains chosen (codes "*") ≡ false
    → Kept chosen rules (retained chosen rules)
unfolding retained
retained-Kept chosen [] h = ended
retained-Kept chosen (rule ∷ rules) h = by_parts (cut b'=' rule) refl (retained-Kept chosen rules h)
  where
    by_left :
        (names order : Text) (left : List Text)
        → cut b'=' rule ≡ some (names, order)
        → remaining chosen names ≡ left
        → Kept chosen rules (retained chosen rules)
        → Kept chosen (rule ∷ rules) (rejoined left order ++ retained chosen rules)
    by_left names order [] e l k = dropped e (keep-none chosen (split b',' names) l) k
    by_left names order (name ∷ left) e l k = shortened name left e l k

    by_parts :
        (parts : Option (Text × Text))
        → cut b'=' rule ≡ parts
        → Kept chosen rules (retained chosen rules)
        → Kept chosen (rule ∷ rules) (retain_parts chosen parts ++ retained chosen rules)
    by_parts none e k = no_rule e k
    by_parts (some (names, order)) e k =
        rw h (by_left names order (remaining chosen names) e refl k)

-- What `apply_dll_overrides` makes of an environment: the rules that are given stand last, behind
-- what is left of the inherited rules, which name none of the DLLs that the given ones name; no
-- inherited rule is left where one of the given ones is for `*`; all other variables are as they were.
pub record Merged (env : Env) (rules : List Text) (env' : Env) : Type 0 where
  pub kept : List Text
  pub value : get env' wine_overrides ≡ join (b';' ∷ []) (kept ++ rules)
  pub avoids : All (Avoids (chosen_names rules)) kept
  pub follows :
      contains (chosen_names rules) (codes "*") ≡ false
      → Kept (chosen_names rules) (split b';' (get env wine_overrides)) kept
  pub star : contains (chosen_names rules) (codes "*") ≡ true → kept ≡ []
  pub others :
      (name : Text) → text_eq wine_overrides name ≡ false → lookup name env' ≡ lookup name env

merge_rules-Merged :
    (env : Env) (rule : Text) (rules : List Text)
    → Merged env (rule ∷ rules) (merge_rules env (rule ∷ rules))
unfolding get
merge_rules-Merged env rule rules =
    let inherited = split b';' (get env wine_overrides) in
    let chosen = chosen_names (rule ∷ rules) in
    let value = join (b';' ∷ []) (retained chosen inherited ++ rule ∷ rules) in
    record {
      kept = retained chosen inherited;
      value = ap value_or_empty (
          lookup-insert wine_overrides value wine_overrides env
          ∙ ap (λ b. if b then some value else lookup wine_overrides env)
              (text_eq_refl wine_overrides));
      avoids = retained-Avoids chosen inherited;
      follows = retained-Kept chosen inherited;
      star = retained_star chosen inherited;
      others = λ name h.
          lookup-insert wine_overrides value name env
          ∙ ap (λ b. if b then some value else lookup name env) h;
    }

-- Where the overrides are valid and hold a rule, they are merged into the environment so that each
-- DLL that they name is ruled by them alone; every inherited rule that names another DLL stays for
-- those others with its order and its place, unless one of the given rules is for `*`.
pub apply_dll_overrides-Merged :
    (env env' : Env) (overrides : Text)
    → apply_dll_overrides env overrides ≡ ok env'
    → given_rules overrides ≢ []
    → Merged env (given_rules overrides) env'
unfolding apply_dll_overrides
apply_dll_overrides-Merged env env' overrides h ne =
    elim (result_cases (validate_dll_overrides overrides)) [
      | inl valid ↦
          subst (Merged env (given_rules overrides)) (ok-injective (rw valid at h))
            (merged (given_rules overrides) ne)
      | inr (e, bad) ↦ absurd (ground arith)
    ]
  where
    merged : (rules : List Text) → rules ≢ [] → Merged env rules (merge_rules env rules)
    merged [] none_given = absurd (none_given refl)
    merged (rule ∷ rules) _ = merge_rules-Merged env rule rules

wine_overrides_apart : contains openxr_names wine_overrides ≡ false
unfolding text_eq
wine_overrides_apart = refl

-- The environment for a direct OpenVR runtime has no variable of an OpenXR runtime, and all others
-- but the DLL overrides are as they were; for XRizer, an OpenXR client itself, nothing changes.
pub disable_openxr_lem :
    (env : Env) (kind name : Text)
    → let env' = disable_openxr_for_direct_openvr env kind in
      (text_eq kind (codes "xrizer") ≡ true → env' ≡ env)
      × (text_eq kind (codes "xrizer") ≡ false
          → contains openxr_names name ≡ true
          → lookup name env' ≡ none)
      × (contains openxr_names name ≡ false
          → text_eq wine_overrides name ≡ false
          → lookup name env' ≡ lookup name env)
unfolding disable_openxr_for_direct_openvr
disable_openxr_lem env kind name =
    let value =
      codes "wineopenxr=d"
      ++ behind_semicolon (trim_semicolons (get (erase_all openxr_names env) wine_overrides)) in
    let inserted = lookup-insert wine_overrides value name (erase_all openxr_names env) in
    let erased = lookup-erase_all openxr_names name env in
    (
      λ x. rw x refl,
      λ x h.
          rw
            (
              x,
              inserted,
              contains_other openxr_names wine_overrides name h wine_overrides_apart,
              erased,
              h,
            )
            refl,
      λ h w. elim (Bool-cases (text_eq kind (codes "xrizer"))) [
        | inl x ↦ rw x refl
        | inr x ↦ rw (x, inserted, w, erased, h) refl
      ],
    )
