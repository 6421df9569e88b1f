-- ===== src/Rules/Tests.antt =====
-- The launch rules on small inputs, and their theorems at them.
use rift_lift.Common.{cut, true, List, [], ◌∷◌, ◌++◌, ◌≡◌, refl, Text, codes, ok, text_eq, ◌≢◌}
use rift_lift.Rules.Strings.{lower, strip, split, join, dll_name, drop_while_end}
use rift_lift.Rules.Env.{Env, lookup, insert, get}
use rift_lift.Rules.Overrides.{
  given_rules, chosen_names, retained, wine_overrides, apply_dll_overrides, validate_dll_overrides,
}
use rift_lift.Rules.Environment.{ProtonSettings}
use rift_lift.Rules.Merging.{Merged, apply_dll_overrides-Merged}
use rift_lift.Rules.Shell.{shell_split}
use rift_lift.Rules.Quoting.{
  Style, double, single, backslashed, command_line, words_of, shell_split-command_line,
}

abbrev quoted : List (Style × Text)
quoted = (double, codes "a \"b\"") ∷ (single, []) ∷ (backslashed, codes "c d") ∷ []

shell_split-command_line_example : shell_split (command_line quoted) ≡ ok (words_of quoted)
shell_split-command_line_example = shell_split-command_line quoted refl

abbrev game_arguments : List Text
game_arguments = codes "-VRMode" ∷ codes "OpenVR" ∷ codes "-OpenXR" ∷ codes "-level" ∷ []

abbrev inherited : Env
inherited =
    (wine_overrides, codes "winhttp,dxgi=b;version=n;;d3d11=n")
    ∷ (codes "XR_RUNTIME_JSON", codes "/opt/openxr.json")
    ∷ (codes "HOME", codes "/root")
    ∷ []

abbrev overrides : Text
overrides = codes "winhttp=n,b; ;*version = n"

merged : Env
merged =
    (wine_overrides, codes "dxgi=b;d3d11=n;winhttp=n,b;*version = n")
    ∷ (codes "XR_RUNTIME_JSON", codes "/opt/openxr.json")
    ∷ (codes "HOME", codes "/root")
    ∷ []

apply_dll_overrides-inherited : apply_dll_overrides inherited overrides ≡ ok merged
unfolding apply_dll_overrides merged validate_dll_overrides given_rules chosen_names retained cut
    split get lookup insert text_eq join dll_name drop_while_end lower strip
    rift_lift.Rules.Strings.ends_with rift_lift.Common.starts_with
apply_dll_overrides-inherited = refl

given_rules-overrides : given_rules overrides ≡ codes "winhttp=n,b" ∷ codes "*version = n" ∷ []
unfolding given_rules split strip drop_while_end
given_rules-overrides = refl

not_empty : {rules rest : List Text} → {rule : Text} → rules ≡ rule ∷ rest → rules ≢ []
not_empty h = λ e. cc

apply_dll_overrides-Merged_example : Merged inherited (given_rules overrides) merged
apply_dll_overrides-Merged_example =
    apply_dll_overrides-Merged inherited merged overrides apply_dll_overrides-inherited
      (not_empty given_rules-overrides)

abbrev user_environment : Env
user_environment = (codes "VKD3D_DEBUG", codes "trace") ∷ (codes "VR_OVERRIDE", codes "/opt") ∷ []

abbrev settings : ProtonSettings
settings = record {
  prefix = codes "/p";
  steam_root = codes "/s";
  install_path = codes "/g";
  debug = true;
  proton_logs = codes "/l";
  crash_logs = codes "/c";
  graphics_logs = codes "/d";
  openvr_logs = codes "/o";
}

abbrev join_with_slash : Text → Text → Text
join_with_slash a b = a ++ b'/' ∷ b
