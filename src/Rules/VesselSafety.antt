-- ===== src/Rules/VesselSafety.antt =====
-- What `parse_pressure_vessel_line` of src/runtime/rules.cpp lets pass.
use rift_lift.Common.{
  Bool, true, ◌&&◌, List, [], ◌∷◌, Option, none, some, Text, codes, text_eq, text_eq_iff,
  starts_with, cut, length, drop, all, All, if◌then◌else◌, ◌≡◌, ◌≢◌, refl, ap, sym, ◌∙◌, subst,
  arith, Bool-cases, and_left, Option-cases, inl, inr, ◌⊎◌,
}
use rift_lift.Names.{is_digit, is_lower}
use rift_lift.Rules.Env.{Env, insert}
use rift_lift.Rules.Strings.{split}
use rift_lift.Rules.Vessel.{
  marker, find_behind, erase_first, erase_commands, tokens_of, is_key, key_char, path_char, is_path,
  is_value, parse_token, parse_tokens, unless_empty, parse_pressure_vessel_line, is_upper,
}
use rift_lift.Rules.VesselText.{
  is_plain, all-split, is_path-chars, is_path-slash, is_key-parts, erase_from-done,
}

-- A variable that may be set: its name and value have only characters that no shell takes apart, and
-- each directory that the value lists exists.
abbrev pub AcceptedPair : (Text → Bool) → Text × Text → Type 0
AcceptedPair is_directory (name, value) =
    (starts_with name (codes "PRESSURE_VESSEL_") ≡ true)
    × (all key_char (drop 16 name) ≡ true)
    × (all is_plain value ≡ true)
    × ((value ≡ codes "0")
        ⊎ ((value ≡ codes "1")
            ⊎ All (λ part. (starts_with part (codes "/") ≡ true) × (is_directory part ≡ true))
                (split b':' value)))

module _ (is_directory : Text → Bool) where
  is_value-Accepted :
      (value : Text)
      → is_value is_directory value ≡ true
      → (all is_plain value ≡ true)
        × ((value ≡ codes "0")
            ⊎ ((value ≡ codes "1")
                ⊎ All
                    (λ part. (starts_with part (codes "/") ≡ true) × (is_directory part ≡ true))
                    (split b':' value)))
  unfolding is_value path_char is_upper is_lower is_digit
  is_value-Accepted value h = elim (Bool-cases (text_eq value (codes "0"))) [
    | inl zero_only ↦
        let e = (text_eq_iff value (codes "0")).0 zero_only in
        (subst (λ v. all is_plain v ≡ true) (sym e) digit_plain0, inl e)
    | inr not_0 ↦ elim (Bool-cases (text_eq value (codes "1"))) [
      | inl one_only ↦
          let e = (text_eq_iff value (codes "1")).0 one_only in
          (subst (λ v. all is_plain v ≡ true) (sym e) digit_plain1, inr (inl e))
      | inr not_1 ↦
          let k = rw (not_0, not_1) at h in
          (all-split value (chars (split b':' value) k), inr (inr (parts (split b':' value) k)))
    ]
  ]
    where
      digit_plain0 : all is_plain (codes "0") ≡ true
      digit_plain0 = refl

      digit_plain1 : all is_plain (codes "1") ≡ true
      digit_plain1 = refl

      chars :
          (ps : List Text)
          → all (λ part. is_path part && is_directory part) ps ≡ true
          → all (all path_char) ps ≡ true
      chars [] k = refl
      chars (p ∷ ps) k = ground (arith, k, is_path-chars p, chars ps)

      parts :
          (ps : List Text)
          → all (λ part. is_path part && is_directory part) ps ≡ true
          → All (λ part. (starts_with part (codes "/") ≡ true) × (is_directory part ≡ true)) ps
      parts [] k = tt
      parts (p ∷ ps) k =
          ((is_path-slash p (ground (arith, k)), ground (arith, k)), parts ps (ground (arith, k)))

  insert-All :
      (P : Text × Text → Type 0) (name value : Text) (env : Env)
      → P (name, value)
      → All P env
      → All P (insert name value env)
  unfolding insert
  insert-All P name value [] p ps = (p, tt)
  insert-All P name value ((n, v) ∷ env) p (q, qs) = elim (Bool-cases (text_eq n name)) [
    | inl same ↦ rw same (subst (λ m. P (m, value)) (sym ((text_eq_iff n name).0 same)) p, qs)
    | inr other ↦ rw other (q, insert-All P name value env p qs)
  ]

  parse_token-Accepted :
      (token : Text) (pair : Text × Text)
      → parse_token is_directory token ≡ some pair
      → AcceptedPair is_directory pair
  unfolding parse_token
  parse_token-Accepted token pair h = parsed (cut b'=' token) h
    where
      some-injective : {a b : Text × Text} → some a ≡ some b → a ≡ b
      some-injective e = cc

      none_some : {a : Text × Text} → none ≢ some a
      none_some e = absurd cc

      parsed :
          (o : Option (Text × Text))
          → (elim o [
            | none ↦ none
            | some (name, value) ↦
                if is_key name && is_value is_directory value then some (name, value) else none
          ])
            ≡ some pair
          → AcceptedPair is_directory pair
      parsed none k = absurd cc
      parsed (some (name, value)) k =
          elim (Bool-cases (is_key name && is_value is_directory value)) [
            | inr refused ↦ absurd (none_some (rw refused at k))
            | inl let_pass ↦
                let (plain, listed) = is_value-Accepted value (ground (arith, let_pass)) in
                let (named, chars) = is_key-parts name (and_left _ _ let_pass) in
                let accepted : AcceptedPair is_directory (name, value) =
                  (named, chars, plain, listed) in
                subst (AcceptedPair is_directory) (some-injective (rw let_pass at k)) accepted
          ]

  parse_tokens-Accepted :
      (tokens : List Text) (env pairs : Env)
      → All (AcceptedPair is_directory) env
      → parse_tokens is_directory tokens env ≡ some pairs
      → All (AcceptedPair is_directory) pairs
  unfolding parse_tokens
  parse_tokens-Accepted [] env pairs a h =
      subst (All (AcceptedPair is_directory)) (some-injective h) a
    where
      some-injective : {a b : Env} → some a ≡ some b → a ≡ b
      some-injective e = cc
  parse_tokens-Accepted (token ∷ tokens) env pairs a h =
      elim (Option-cases (parse_token is_directory token)) [
        | inl refused ↦ absurd (none_some (rw (refused, parse_tokens) at h))
        | inr ((name, value), e) ↦
            parse_tokens-Accepted tokens (insert name value env) pairs
              (insert-All (AcceptedPair is_directory) name value env
                (parse_token-Accepted token (name, value) e) a)
              (rw (e, parse_tokens) at h)
      ]
    where
      none_some : {a : Env} → none ≢ some a
      none_some e = absurd cc

  -- What a line may set for a game: there is a variable at least; each name starts with
  -- "PRESSURE_VESSEL_" and goes on with capital letters, digits and underscores; each value is 0, 1
  -- or a list of absolute paths of folders that exist, in characters that no shell takes apart. No
  -- "%command%" is left in the text that is read.
  pub parse_pressure_vessel_line-Accepted :
      (line : Text) (pairs : Env)
      → parse_pressure_vessel_line is_directory line ≡ some pairs
      → All (AcceptedPair is_directory) pairs
        × (pairs ≢ [])
        × ((remainder : Text) × (find_behind marker line ≡ some remainder)
            × (erase_first (erase_commands remainder) ≡ none))
  unfolding parse_pressure_vessel_line erase_commands
  parse_pressure_vessel_line-Accepted line pairs h = elim (Option-cases (find_behind marker line)) [
    | inl no_marker ↦ absurd (none_some (rw (no_marker, parse_pressure_vessel_line) at h))
    | inr (remainder, e) ↦
        let k = rw (e, parse_pressure_vessel_line) at h in
        let (parsed, some_pair) =
          not_empty (parse_tokens is_directory (tokens_of (erase_commands remainder)) []) k in
        (
          parse_tokens-Accepted (tokens_of (erase_commands remainder)) [] pairs tt parsed,
          some_pair,
          (remainder, e, erase_from-done (length remainder) remainder (omega arith)),
        )
  ]
    where
      none_some : {a : Env} → none ≢ some a
      none_some e = absurd cc

      filled : (q : Text × Text) (qs : Env) → some (q ∷ qs) ≢ some []
      filled q qs e = absurd cc

      not_empty :
          (o : Option Env)
          → unless_empty is_directory o ≡ some pairs
          → (o ≡ some pairs) × (pairs ≢ [])
      not_empty none k = absurd cc
      not_empty (some []) k = absurd cc
      not_empty (some (q ∷ qs)) k = (k, λ e. filled q qs (k ∙ ap some e))
