-- ===== src/Rules/Environment.antt =====
-- The environment rules of src/runtime/rules.cpp: `proton_environment`, `configure_proton_identity`
-- and `configure_openvr_environment`. Paths are texts; joining them and `linux_to_windows`, which
-- resolves symbolic links, are parameters.
use rift_lift.Common.{
  ℕ, Bool, not, ◌&&◌, List, [], ◌∷◌, ◌++◌, Option, none, some, Text, codes, text_eq, is_empty, ◌==◌,
  if◌then◌else◌,
}
use rift_lift.Options.Decimal.{to_string}
use rift_lift.Rules.Env.{Env, get, lookup, insert, erase, erase_all}

-- Assignments, one after another.
unfoldable pub insert_all : List (Text × Text) → Env → Env
insert_all [] env = env
insert_all ((name, value) ∷ rest) env = insert_all rest (insert name value env)

-- `keep`: a variable that is set stays.
unfoldable pub insert_default : Text → Text → Env → Env
insert_default name fallback env = elim (lookup name env) [
  | none ↦ insert name fallback env
  | some value ↦ env
]

unfoldable pub insert_defaults : List (Text × Text) → Env → Env
insert_defaults [] env = env
insert_defaults ((name, fallback) ∷ rest) env =
    insert_defaults rest (insert_default name fallback env)

pub record ProtonSettings : Type 0 where
  pub prefix : Text
  pub steam_root : Text
  pub install_path : Text
  pub debug : Bool
  pub proton_logs : Text
  pub crash_logs : Text
  pub graphics_logs : Text
  pub openvr_logs : Text

abbrev debug_wine_channels : Text
debug_wine_channels =
    codes
      "+timestamp,+pid,+tid,+seh,+unwind,+threadname,+debugstr,+loaddll,+mscoree,+process,+wintrust,+crypt,+chain,+openxr,+vrclient,+steamclient"

abbrev pub cleared_names : List Text
cleared_names =
    codes "VR_OVERRIDE"
    ∷ codes "VR_PATHREG_OVERRIDE"
    ∷ codes "XR_RUNTIME_JSON"
    ∷ codes "PRESSURE_VESSEL_IMPORT_OPENXR_1_RUNTIMES"
    ∷ codes "OXR_ZERO_TIME_IS_NOW"
    ∷ codes "RIFTLIFT_XRIZER"
    ∷ []

abbrev wine_debug : ProtonSettings → Text → Text
wine_debug s chosen =
    if is_empty chosen then (if s.debug then debug_wine_channels else codes "-all") else chosen

module _ (join_path : Text → Text → Text) where
  abbrev pub proton_assignments : ProtonSettings → Env → List (Text × Text)
  proton_assignments s env =
      (codes "STEAM_COMPAT_DATA_PATH", s.prefix)
      ∷ (codes "STEAM_COMPAT_CLIENT_INSTALL_PATH", s.steam_root)
      ∷ (codes "STEAM_COMPAT_INSTALL_PATH", s.install_path)
      ∷ (codes "STEAM_COMPAT_LIBRARY_PATHS", join_path s.steam_root (codes "steamapps"))
      ∷ (codes "SteamAppId", codes "0")
      ∷ (codes "SteamGameId", codes "0")
      ∷ (codes "PROTON_LOG", if s.debug then codes "1" else codes "0")
      ∷ (codes "WINEDEBUG", wine_debug s (get env (codes "RIFTLIFT_WINEDEBUG")))
      ∷ []

  abbrev pub log_assignments : ProtonSettings → List (Text × Text)
  log_assignments s =
      (codes "PROTON_LOG_DIR", s.proton_logs) ∷ (codes "PROTON_CRASH_REPORT_DIR", s.crash_logs) ∷ []

  abbrev pub level_defaults : List (Text × Text)
  level_defaults =
      (codes "VKD3D_DEBUG", codes "info")
      ∷ (codes "VKD3D_SHADER_DEBUG", codes "warn")
      ∷ (codes "VK_LOADER_DEBUG", codes "error,warn,info")
      ∷ (codes "XR_LOADER_DEBUG", codes "all")
      ∷ []

  abbrev rust_log : Option Text → Text
  rust_log none = codes "info,xrizer_tracking=debug"
  rust_log (some level) = level

  abbrev pub openvr_assignments : ProtonSettings → Env → List (Text × Text)
  openvr_assignments s env =
      (codes "RUST_LOG", rust_log (lookup (codes "RIFTLIFT_RUST_LOG") env))
      ∷ (codes "XRIZER_LOG_DIR", s.openvr_logs)
      ∷ []

  -- The part for debug logging.
  unfoldable pub debug_environment : ProtonSettings → Env → Env
  debug_environment s env0 =
      let env1 = insert_all (log_assignments s) env0 in
      let env2 = insert_default (codes "DXVK_LOG_LEVEL") (codes "debug") env1 in
      let env3 = insert (codes "DXVK_LOG_PATH") s.graphics_logs env2 in
      let env4 = insert_defaults level_defaults env3 in insert_all (openvr_assignments s env4) env4

  unfoldable pub proton_environment : Env → ProtonSettings → Env
  proton_environment env0 s =
      let env1 = erase_all cleared_names env0 in
      let env2 = insert_all (proton_assignments s env1) env1 in
      if s.debug then debug_environment s env2 else env2

unfoldable pub configure_proton_identity : Env → Text → ℕ → Env
configure_proton_identity env source steam_app_id = insert (codes "UMU_USE_STEAM") (codes "0") (
    if text_eq source (codes "steam") && not (steam_app_id == 0)
    then insert_all
        ((codes "SteamAppId", to_string steam_app_id)
          ∷ (codes "SteamGameId", to_string steam_app_id)
          ∷ (codes "UMU_ID", codes "umu-" ++ to_string steam_app_id)
          ∷ [])
        env
    else insert (codes "UMU_ID") (codes "umu-default") env)

module _ (join_path : Text → Text → Text) (linux_to_windows : Text → Text) where
  unfoldable pub configure_openvr_environment : Env → Text → Text → Text → Text → Text → Env
  configure_openvr_environment env config_dir rift_runtime openvr_runtime openvr_registry
        openvr_kind =
      let manifest = join_path rift_runtime (codes "Input/action_manifest.json") in
      let is_xrizer = text_eq openvr_kind (codes "xrizer") in
      let set =
        insert_all
          ((
            codes "RIFTLIFT_ACTION_MANIFEST",
            if is_xrizer then manifest else linux_to_windows manifest,
          )
            ∷ (codes "VR_OVERRIDE", openvr_runtime)
            ∷ (codes "VR_PATHREG_OVERRIDE", openvr_registry)
            ∷ (codes "XDG_CONFIG_HOME", config_dir)
            ∷ [])
          env in
      if is_xrizer
      then insert (codes "RIFTLIFT_XRIZER") (codes "1") set
      else erase (codes "XRIZER_LOG_DIR") (erase (codes "RIFTLIFT_XRIZER") set)
