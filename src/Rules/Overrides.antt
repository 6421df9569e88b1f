-- ===== src/Rules/Overrides.antt =====
-- DLL overrides: `validate_dll_overrides` of src/common/rift/game.cpp; `apply_dll_overrides`,
-- `disable_openxr_for_direct_openvr` and `apply_openxr_environment` of src/runtime/rules.cpp.
use rift_lift.Common.{
  ℕ, Bool, false, not, ◌&&◌, ◌||◌, List, [], ◌∷◌, ◌++◌, map, Option, none, some, Text, codes,
  text_eq, contains, cut, is_empty, leb, ◌==◌, all, keep, Result, ok, require, ◌>>◌, if◌then◌else◌,
}
use rift_lift.Rules.Strings.{drop_while, drop_while_end, strip, split, join, lower, dll_name}
use rift_lift.Rules.Env.{Env, get, insert, erase_all}
use rift_lift.Names.{is_digit, is_lower}

-- `[a-zA-Z0-9_.-]`
is_name_char : ℕ → Bool
unfolding is_lower is_digit
is_name_char c =
    is_lower c || (leb b'A' c && leb c b'Z') || is_digit c || c == b'_' || c == b'.' || c == b'-'

abbrev some_name : Text → Bool
some_name s = not (is_empty s) && all is_name_char s

-- `\*?[a-zA-Z0-9_.-]+|\*`
is_dll_name : Text → Bool
is_dll_name [] = false
is_dll_name (c ∷ cs) = if c == b'*' then is_empty cs || some_name cs else some_name (c ∷ cs)

abbrev is_blank : ℕ → Bool
is_blank c = c == b' ' || c == b'\t'

abbrev trim_blanks : Text → Text
trim_blanks s = drop_while_end is_blank (drop_while is_blank s)

abbrev is_order : Text → Bool
is_order order =
    is_empty order
    || text_eq order (codes "n")
    || text_eq order (codes "b")
    || text_eq order (codes "n,b")
    || text_eq order (codes "b,n")

abbrev valid_rule_parts : Option (Text × Text) → Bool
valid_rule_parts none = false
valid_rule_parts (some (names, order)) =
    all (λ part. is_dll_name (trim_blanks part)) (split b',' names)
    && is_order (lower (keep (λ c. not (c == b' ')) order))

-- A rule of blanks is skipped.
valid_rule : Text → Bool
unfolding is_dll_name
valid_rule rule = all is_blank rule || valid_rule_parts (cut b'=' rule)

unfoldable pub validate_dll_overrides : Text → Result (Unit {0})
unfolding valid_rule is_name_char
validate_dll_overrides value =
    require (all valid_rule (split b';' value))
      (codes "Use DLL overrides such as version=n,b;winhttp=n,b")

-- The rules that are given, without those of white space.
unfoldable pub given_rules : Text → List Text
given_rules overrides = keep (λ rule. not (is_empty rule)) (map strip (split b';' overrides))

abbrev before_equals : Text → Text
before_equals rule = elim (cut b'=' rule) [ none ↦ rule | some (names, order) ↦ names ]

-- The DLLs that some rule names.
unfoldable pub chosen_names : List Text → List Text
chosen_names [] = []
chosen_names (rule ∷ rules) = map dll_name (split b',' (before_equals rule)) ++ chosen_names rules

abbrev pub remaining : List Text → Text → List Text
remaining chosen names = keep (λ name. not (contains chosen (dll_name name))) (split b',' names)

abbrev pub rejoined : List Text → Text → List Text
rejoined [] order = []
rejoined (name ∷ names) order = (join (b',' ∷ []) (name ∷ names) ++ (b'=' ∷ order)) ∷ []

abbrev pub retain_parts : List Text → Option (Text × Text) → List Text
retain_parts chosen none = []
retain_parts chosen (some (names, order)) =
    if contains chosen (codes "*") then [] else rejoined (remaining chosen names) order

-- What is kept of the inherited rules.
unfoldable pub retained : List Text → List Text → List Text
retained chosen [] = []
retained chosen (rule ∷ rules) = retain_parts chosen (cut b'=' rule) ++ retained chosen rules

abbrev pub wine_overrides : Text
wine_overrides = codes "WINEDLLOVERRIDES"

abbrev pub merge_rules : Env → List Text → Env
merge_rules env [] = env
merge_rules env (rule ∷ rules) =
    let chosen = chosen_names (rule ∷ rules) in
    let kept = retained chosen (split b';' (get env wine_overrides)) in
    insert wine_overrides (join (b';' ∷ []) (kept ++ rule ∷ rules)) env

unfoldable pub apply_dll_overrides : Env → Text → Result Env
apply_dll_overrides env overrides = do
  validate_dll_overrides overrides
  ok (merge_rules env (given_rules overrides))

abbrev is_semicolon : ℕ → Bool
is_semicolon c = c == b';'

-- Without semicolons at either end.
unfoldable pub trim_semicolons : Text → Text
trim_semicolons s = drop_while_end is_semicolon (drop_while is_semicolon s)

abbrev pub behind_semicolon : Text → Text
behind_semicolon [] = []
behind_semicolon (c ∷ cs) = b';' ∷ c ∷ cs

abbrev pub openxr_names : List Text
openxr_names =
    codes "XR_RUNTIME_JSON"
    ∷ codes "PRESSURE_VESSEL_IMPORT_OPENXR_1_RUNTIMES"
    ∷ codes "PRESSURE_VESSEL_FILESYSTEMS_RW"
    ∷ codes "OXR_ZERO_TIME_IS_NOW"
    ∷ []

unfoldable pub disable_openxr_for_direct_openvr : Env → Text → Env
disable_openxr_for_direct_openvr env openvr_kind =
    if text_eq openvr_kind (codes "xrizer")
    then env
    else insert wine_overrides
        (codes "wineopenxr=d"
          ++ behind_semicolon (trim_semicolons (get (erase_all openxr_names env) wine_overrides)))
        (erase_all openxr_names env)

unfoldable pub apply_openxr_environment : Env → Text → Env
apply_openxr_environment env runtime_json =
    insert wine_overrides
      (codes "d3d11=n;dxgi=n"
        ++ behind_semicolon (trim_semicolons (strip (get env wine_overrides))))
      (insert (codes "RIFTLIFT_OVR_COMPAT") (codes "1") (
        insert (codes "OXR_ZERO_TIME_IS_NOW") (codes "1") (
          insert (codes "PRESSURE_VESSEL_IMPORT_OPENXR_1_RUNTIMES") (codes "1")
            (insert (codes "XR_RUNTIME_JSON") runtime_json env))))
