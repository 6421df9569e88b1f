-- ===== src/Rules/LoaderRules.antt =====
-- The rules that `configure_mod_loaders` of src/runtime/rules.cpp adds to those of the user.
use rift_lift.Common.{
  Bool, true, false, not, ◌&&◌, ◌||◌, List, [], ◌∷◌, ◌++◌, map, some, Text, codes, text_eq,
  text_eq_iff, text_eq_refl, contains, any, if◌then◌else◌, ◌≡◌, refl, ap, ◌∙◌, subst, arith,
  Bool-cases, inl, inr, ◌⊎◌,
}
use rift_lift.Rules.Strings.{split, join}
use rift_lift.Rules.Env.{
  Env, get, insert, lookup, lookup-insert, lookup-insert_other, value_or_empty,
}
use rift_lift.Rules.ModLoaders.{
  Listing, find_entry, is_folder, has_dll, insert_name, insert_names, proxies_of, loaders,
  explicit_names, overrides, trimmed, native_first, added, with_rules, no_names,
  configure_mod_loaders, comes_before,
}

-- A loader's folder and one of its DLLs lie beside the game.
abbrev pub beside : Listing → Text → Bool
beside entries name =
    has_dll entries name
    && any (λ l. is_folder (find_entry l.0 entries) && contains l.1 name) loaders

same_test : (p : Text → Bool) (m n : Text) → text_eq m n ≡ true → p m ≡ p n
same_test p m n h = ap p ((text_eq_iff m n).0 h)

contains-insert_name :
    (name : Text) (ns : List Text) (n : Text)
    → contains (insert_name name ns) n ≡ (text_eq name n || contains ns n)
unfolding insert_name
contains-insert_name name [] n = refl
contains-insert_name name (m ∷ ms) n = elim (Bool-cases (text_eq m name)) [
  | inl same ↦
      let e = (text_eq_iff m name).0 same in
      rw same (
        subst
          (λ k. (text_eq m n || contains ms n) ≡ (text_eq k n || (text_eq m n || contains ms n))) e
          twice)
  | inr apart ↦ elim (Bool-cases (comes_before name m)) [
    | inl first ↦ rw (apart, first) refl
    | inr later ↦ rw (apart, later) (ground (arith, contains-insert_name name ms n))
  ]
]
  where
    twice : (text_eq m n || contains ms n) ≡ (text_eq m n || (text_eq m n || contains ms n))
    twice = ground arith

contains-insert_names :
    (entries : Listing) (names proxies : List Text) (n : Text)
    → contains (insert_names entries names proxies) n
      ≡ ((contains names n && has_dll entries n) || contains proxies n)
unfolding insert_names
contains-insert_names entries [] proxies n = refl
contains-insert_names entries (name ∷ names) proxies n = elim (Bool-cases (has_dll entries name)) [
  | inl has ↦ rw has (
      contains-insert_names entries names (insert_name name proxies) n
      ∙ ground
          (arith, contains-insert_name name proxies n, same_test (has_dll entries) name n, has))
  | inr lacks ↦ rw lacks (
      contains-insert_names entries names proxies n
      ∙ ground (arith, same_test (has_dll entries) name n, lacks))
]

contains-proxies_of :
    (entries : Listing) (ls : List (Text × List Text)) (proxies : List Text) (n : Text)
    → contains (proxies_of entries ls proxies) n ≡ (
        (has_dll entries n && any (λ l. is_folder (find_entry l.0 entries) && contains l.1 n) ls)
        || contains proxies n)
unfolding proxies_of
contains-proxies_of entries [] proxies n = ground arith
contains-proxies_of entries ((loader, names) ∷ ls) proxies n =
    elim (Bool-cases (is_folder (find_entry loader entries))) [
      | inl there ↦ rw there (
          contains-proxies_of entries ls (insert_names entries names proxies) n
          ∙ ground (arith, contains-insert_names entries names proxies n))
      | inr absent ↦ rw absent (contains-proxies_of entries ls proxies n)
    ]

contains-added :
    (explicit ns : List Text) (n : Text)
    → contains (added explicit ns) n ≡ (contains ns n && not (contains explicit n))
contains-added explicit [] n = refl
contains-added explicit (m ∷ ms) n = elim (Bool-cases (contains explicit m)) [
  | inl named ↦
      rw named
        (contains-added explicit ms n ∙ ground (arith, same_test (contains explicit) m n, named))
  | inr free ↦
      rw free
        (ground (arith, contains-added explicit ms n, same_test (contains explicit) m n, free))
]

module _ (entries : Listing) (env : Env) where
  abbrev pub existing : Text
  existing = get env overrides

  abbrev pub explicit : List Text
  explicit = explicit_names (split b';' existing)

  -- Either nothing is changed, since the user has ruled on all DLLs or on all that a loader needs, or
  -- just the proxies that the user has left open get rules behind those of the user.
  abbrev pub Configured : Env → Type 0
  Configured r =
      ((r ≡ env)
        × ((contains explicit (codes "*") ≡ true)
            ⊎ ((n : Text) → beside entries n ≡ true → contains explicit n ≡ true)))
      ⊎ ((ns : List Text) × (get r overrides
            ≡ join (codes ";") (trimmed existing ++ map native_first ns))
          × (contains explicit (codes "*") ≡ false)
          × ((n : Text) → contains ns n ≡ (beside entries n && not (contains explicit n))))

  abbrev pub Others : Env → Type 0
  Others r = (name : Text) → text_eq overrides name ≡ false → lookup name r ≡ lookup name env

  with_rules-Configured :
      (ns : List Text)
      → contains explicit (codes "*") ≡ false
      → ((n : Text) → contains ns n ≡ (beside entries n && not (contains explicit n)))
      → Others (with_rules env existing ns) × Configured (with_rules env existing ns)
  unfolding get
  with_rules-Configured [] s h = (λ name other. refl, inl (refl, inr λ n b. ground (arith, h n, b)))
  with_rules-Configured (m ∷ ms) s h =
      let value = join (codes ";") (trimmed existing ++ map native_first (m ∷ ms)) in
      (
        λ name other. lookup-insert_other overrides value name env other,
        inr (m ∷ ms, here value, s, h),
      )
    where
      here : (value : Text) → get (insert overrides value env) overrides ≡ value
      here value = ap value_or_empty (
          lookup-insert overrides value overrides env
          ∙ ap (λ b. if b then some value else lookup overrides env) (text_eq_refl overrides))

  decided :
      (proxies : List Text) (star : Bool)
      → contains explicit (codes "*") ≡ star
      → ((n : Text) → contains proxies n ≡ beside entries n)
      → let r =
          if no_names proxies || star
          then env
          else with_rules env existing (added explicit proxies) in
        Others r × Configured r
  decided [] star e h =
      (λ name other. refl, inl (refl, inr λ n b. absurd (nothing (beside entries n) b (h n))))
    where
      nothing : (b : Bool) → b ≡ true → false ≡ b → ⊥
      nothing true e k = absurd cc
      nothing false e k = absurd cc
  decided (m ∷ ms) true e h = (λ name other. refl, inl (refl, inl e))
  decided (m ∷ ms) false e h =
      with_rules-Configured (added explicit (m ∷ ms)) e
        (λ n. contains-added explicit (m ∷ ms) n ∙ ap (λ b. b && not (contains explicit n)) (h n))

  -- Of the DLLs that lie beside a game with the folder of their loader, exactly those get a rule that
  -- the user's rules do not name, behind the rules that there are; a rule for "*" leaves all to the
  -- user. No other variable changes.
  pub configure_mod_loaders_lem :
      Others (configure_mod_loaders (some entries) env)
      × Configured (configure_mod_loaders (some entries) env)
  unfolding configure_mod_loaders
  configure_mod_loaders_lem =
      decided (proxies_of entries loaders []) (contains explicit (codes "*")) refl
        (λ n. contains-proxies_of entries loaders [] n ∙ or_false (beside entries n))
    where
      or_false : (b : Bool) → (b || false) ≡ b
      or_false b = ground arith
