-- ===== src/Rules/Kept.antt =====
-- What the environment rules of src/runtime/rules.cpp change, and what they keep.
use rift_lift.Common.{
  Bool, true, false, not, List, [], ◌∷◌, Option, none, some, Text, codes, text_eq, text_eq_iff, all,
  subst, contains, if◌then◌else◌, ◌≡◌, refl, ◌∙◌, arith, Bool-cases, Option-cases, inl, inr,
}
use rift_lift.Rules.Env.{
  Env, lookup, insert, erase_all, lookup-insert, lookup-insert_other, lookup-erase,
  lookup-erase_all,
}
use rift_lift.Rules.Environment.{
  configure_openvr_environment, insert_all, insert_default, insert_defaults, ProtonSettings,
  cleared_names, debug_environment, proton_environment, proton_assignments, log_assignments,
  level_defaults, openvr_assignments,
}

abbrev names_of : List (Text × Text) → List Text
names_of [] = []
names_of ((name, value) ∷ rest) = name ∷ names_of rest

lookup-insert_all :
    (name : Text) (pairs : List (Text × Text)) (env : Env)
    → contains (names_of pairs) name ≡ false
    → lookup name (insert_all pairs env) ≡ lookup name env
unfolding insert_all
lookup-insert_all name [] env h = refl
lookup-insert_all name ((n, v) ∷ pairs) env h =
    lookup-insert_all name pairs (insert n v env) (ground (arith, h))
    ∙ lookup-insert_other n v name env (ground (arith, h))

-- A default leaves what is set, and all other names.
lookup-insert_default_set :
    (name fallback other value : Text) (env : Env)
    → lookup other env ≡ some value
    → lookup other (insert_default name fallback env) ≡ some value
unfolding insert_default
lookup-insert_default_set name fallback other value env h = elim (Option-cases (lookup name env)) [
  | inl absent ↦
      rw (absent, insert_default)
        (ground (arith, h, absent, lookup-insert name fallback other env, text_eq_iff name other))
  | inr (v, present) ↦ rw (present, insert_default) h
]

lookup-insert_default_other :
    (name fallback other : Text) (env : Env)
    → text_eq name other ≡ false
    → lookup other (insert_default name fallback env) ≡ lookup other env
unfolding insert_default
lookup-insert_default_other name fallback other env h = elim (Option-cases (lookup name env)) [
  | inl absent ↦ rw (absent, insert_default) (lookup-insert_other name fallback other env h)
  | inr (v, present) ↦ rw (present, insert_default) refl
]

lookup-insert_defaults_set :
    (pairs : List (Text × Text)) (other value : Text) (env : Env)
    → lookup other env ≡ some value
    → lookup other (insert_defaults pairs env) ≡ some value
unfolding insert_defaults
lookup-insert_defaults_set [] other value env h = h
lookup-insert_defaults_set ((n, v) ∷ pairs) other value env h =
    lookup-insert_defaults_set pairs other value (insert_default n v env)
      (lookup-insert_default_set n v other value env h)

lookup-insert_defaults_other :
    (name : Text) (pairs : List (Text × Text)) (env : Env)
    → contains (names_of pairs) name ≡ false
    → lookup name (insert_defaults pairs env) ≡ lookup name env
unfolding insert_defaults
lookup-insert_defaults_other name [] env h = refl
lookup-insert_defaults_other name ((n, v) ∷ pairs) env h =
    lookup-insert_defaults_other name pairs (insert_default n v env) (ground (arith, h))
    ∙ lookup-insert_default_other n v name env (ground (arith, h))

-- The names that the part for debug logging assigns whatever stood there.
abbrev pub debug_names : List Text
debug_names =
    codes "PROTON_LOG_DIR"
    ∷ codes "PROTON_CRASH_REPORT_DIR"
    ∷ codes "DXVK_LOG_PATH"
    ∷ codes "RUST_LOG"
    ∷ codes "XRIZER_LOG_DIR"
    ∷ []

-- The names that it sets where they are not set.
abbrev pub default_names : List Text
default_names =
    codes "DXVK_LOG_LEVEL"
    ∷ codes "VKD3D_DEBUG"
    ∷ codes "VKD3D_SHADER_DEBUG"
    ∷ codes "VK_LOADER_DEBUG"
    ∷ codes "XR_LOADER_DEBUG"
    ∷ []

-- The names that are assigned in every launch.
abbrev pub assigned_names : List Text
assigned_names =
    codes "STEAM_COMPAT_DATA_PATH"
    ∷ codes "STEAM_COMPAT_CLIENT_INSTALL_PATH"
    ∷ codes "STEAM_COMPAT_INSTALL_PATH"
    ∷ codes "STEAM_COMPAT_LIBRARY_PATHS"
    ∷ codes "SteamAppId"
    ∷ codes "SteamGameId"
    ∷ codes "PROTON_LOG"
    ∷ codes "WINEDEBUG"
    ∷ []

-- A name of the first list is not in the second, where no name of the first is.
apart :
    (xs ys : List Text) (name : Text)
    → all (λ x. not (contains ys x)) xs ≡ true
    → contains xs name ≡ true
    → contains ys name ≡ false
apart [] ys name h k = absurd cc
apart (x ∷ xs) ys name h k = elim (Bool-cases (text_eq x name)) [
  | inl same ↦ subst (λ n. contains ys n ≡ false) ((text_eq_iff x name).0 same) (ground (arith, h))
  | inr other ↦ apart xs ys name (ground (arith, h)) (ground (arith, k, other))
]

cleared_apart : all (λ x. not (contains default_names x)) cleared_names ≡ true
unfolding text_eq
cleared_apart = refl

none_either : (b : Bool) {o : Option Text} → o ≡ none → (if b then none else o) ≡ none
none_either true e = refl
none_either false e = e

module _ (join_path : Text → Text → Text) where
  debug_environment_other :
      (s : ProtonSettings) (env : Env) (name : Text)
      → contains debug_names name ≡ false
      → contains default_names name ≡ false
      → lookup name (debug_environment join_path s env) ≡ lookup name env
  unfolding debug_environment
  debug_environment_other s env name h k =
      let env1 = insert_all (log_assignments join_path s) env in
      let env2 = insert_default (codes "DXVK_LOG_LEVEL") (codes "debug") env1 in
      let env3 = insert (codes "DXVK_LOG_PATH") s.graphics_logs env2 in
      let env4 = insert_defaults (level_defaults join_path) env3 in
      lookup-insert_all name (openvr_assignments join_path s env4) env4 (ground (arith, h))
      ∙ lookup-insert_defaults_other name (level_defaults join_path) env3 (ground (arith, k))
      ∙ lookup-insert_other (codes "DXVK_LOG_PATH") s.graphics_logs name env2 (ground (arith, h))
      ∙ lookup-insert_default_other (codes "DXVK_LOG_LEVEL") (codes "debug") name env1
          (ground (arith, k))
      ∙ lookup-insert_all name (log_assignments join_path s) env (ground (arith, h))

  debug_environment_set :
      (s : ProtonSettings) (env : Env) (name value : Text)
      → contains debug_names name ≡ false
      → lookup name env ≡ some value
      → lookup name (debug_environment join_path s env) ≡ some value
  unfolding debug_environment
  debug_environment_set s env name value h k =
      let env1 = insert_all (log_assignments join_path s) env in
      let env2 = insert_default (codes "DXVK_LOG_LEVEL") (codes "debug") env1 in
      let env3 = insert (codes "DXVK_LOG_PATH") s.graphics_logs env2 in
      let env4 = insert_defaults (level_defaults join_path) env3 in
      let set1 = lookup-insert_all name (log_assignments join_path s) env (ground (arith, h)) ∙ k in
      let set2 =
        lookup-insert_default_set (codes "DXVK_LOG_LEVEL") (codes "debug") name value env1 set1 in
      let set3 =
        lookup-insert_other (codes "DXVK_LOG_PATH") s.graphics_logs name env2 (ground (arith, h))
        ∙ set2 in
      let set4 = lookup-insert_defaults_set (level_defaults join_path) name value env3 set3 in
      lookup-insert_all name (openvr_assignments join_path s env4) env4 (ground (arith, h)) ∙ set4

  assigned :
      (s : ProtonSettings) (env : Env) (name : Text)
      → contains assigned_names name ≡ false
      → lookup name (
          insert_all
            (proton_assignments join_path s (erase_all cleared_names env))
            (erase_all cleared_names env))
        ≡ (if contains cleared_names name then none else lookup name env)
  assigned s env name h =
      lookup-insert_all name (proton_assignments join_path s (erase_all cleared_names env))
        (erase_all cleared_names env) (ground (arith, h))
      ∙ lookup-erase_all cleared_names name env

  maybe_debug_none :
      (b : Bool) (s : ProtonSettings) (env : Env) (name : Text)
      → contains debug_names name ≡ false
      → contains default_names name ≡ false
      → lookup name env ≡ none
      → lookup name (if b then debug_environment join_path s env else env) ≡ none
  maybe_debug_none true s env name h k e = debug_environment_other s env name h k ∙ e
  maybe_debug_none false s env name h k e = e

  maybe_debug_set :
      (b : Bool) (s : ProtonSettings) (env : Env) (name value : Text)
      → contains debug_names name ≡ false
      → lookup name env ≡ some value
      → lookup name (if b then debug_environment join_path s env else env) ≡ some value
  maybe_debug_set true s env name value h e = debug_environment_set s env name value h e
  maybe_debug_set false s env name value h e = e

  -- Proton's environment against the one that it is made from, at a name that is neither assigned
  -- in every launch nor one of the places of debug logs: a variable that chooses a VR runtime is
  -- gone; any other that is set keeps its value, a log level too; and one that is not set stays so,
  -- unless it is a log level.
  pub proton_environment_lem :
      (env : Env) (s : ProtonSettings) (name : Text)
      → contains assigned_names name ≡ false
      → contains debug_names name ≡ false
      → (contains cleared_names name ≡ true
          → lookup name (proton_environment join_path env s) ≡ none)
        × ((value : Text)
            → contains cleared_names name ≡ false
            → lookup name env ≡ some value
            → lookup name (proton_environment join_path env s) ≡ some value)
        × (contains default_names name ≡ false
            → lookup name env ≡ none
            → lookup name (proton_environment join_path env s) ≡ none)
  unfolding proton_environment
  proton_environment_lem env s name h k =
      let env1 = erase_all cleared_names env in
      let env2 = insert_all (proton_assignments join_path s env1) env1 in
      let at_name = assigned s env name h in
      (
        λ cleared.
            maybe_debug_none s.debug s env2 name k
              (apart cleared_names default_names name cleared_apart cleared)
              (at_name ∙ rw cleared refl),
        λ value kept set. maybe_debug_set s.debug s env2 name value k (at_name ∙ rw kept set),
        λ other unset.
            maybe_debug_none s.debug s env2 name k other
              (at_name ∙ none_either (contains cleared_names name) unset),
      )

module _ (join_path : Text → Text → Text) (linux_to_windows : Text → Text) where
  -- Where an OpenVR runtime is chosen, games find it and its registry, and the variables of XRizer
  -- are there for XRizer alone, whatever was in the environment before.
  pub configure_openvr_environment_lem :
      (env : Env) (config_dir rift_runtime runtime registry kind : Text)
      → let env' =
          configure_openvr_environment join_path linux_to_windows env config_dir rift_runtime
            runtime registry kind in
        (lookup (codes "VR_OVERRIDE") env' ≡ some runtime)
        × (lookup (codes "VR_PATHREG_OVERRIDE") env' ≡ some registry)
        × (text_eq kind (codes "xrizer") ≡ true
            → lookup (codes "RIFTLIFT_XRIZER") env' ≡ some (codes "1"))
        × (text_eq kind (codes "xrizer") ≡ false
            → (lookup (codes "RIFTLIFT_XRIZER") env' ≡ none)
              × (lookup (codes "XRIZER_LOG_DIR") env' ≡ none))
  unfolding configure_openvr_environment insert_all text_eq
  configure_openvr_environment_lem env config_dir rift_runtime runtime registry kind =
      elim (Bool-cases (text_eq kind (codes "xrizer"))) [
        | inl x ↦
            rw (x, configure_openvr_environment)
              (simp lookup-insert (refl, refl, λ e. refl, λ e. absurd cc))
        | inr x ↦
            rw (x, configure_openvr_environment)
              (simp (lookup-insert, lookup-erase) (refl, refl, λ e. absurd cc, λ e. (refl, refl)))
      ]
