-- ===== src/Rules/LoaderTests.antt =====
-- A game with the folder of MelonLoader and two DLLs, of which a rule of the user names one.
use rift_lift.Common.{[], ◌∷◌, some, codes, text_eq, cut, starts_with, ◌≡◌, refl}
use rift_lift.Rules.Strings.{
  split, join, lower, dll_name, strip, ends_with, drop_while, drop_while_end, is_space, to_lower,
}
use rift_lift.Rules.Env.{Env, get, insert, lookup}
use rift_lift.Rules.ModLoaders.{
  Listing, folder, file, find_entry, insert_name, insert_names, proxies_of, comes_before,
  explicit_names, configure_mod_loaders,
}
use rift_lift.Rules.LoaderRules.{Others, Configured, configure_mod_loaders_lem}

abbrev listing : Listing
listing =
    (codes "MelonLoader", folder)
    ∷ (codes "Version.dll", file)
    ∷ (codes "winhttp.dll", file)
    ∷ (codes "BepInEx", file)
    ∷ []

abbrev environment : Env
environment =
    (codes "HOME", codes "/root") ∷ (codes "WINEDLLOVERRIDES", codes "WinHTTP.dll=b;") ∷ []

configured :
    configure_mod_loaders (some listing) environment
    ≡ (codes "HOME", codes "/root")
      ∷ (codes "WINEDLLOVERRIDES", codes "WinHTTP.dll=b;version=n,b")
      ∷ []
unfolding configure_mod_loaders proxies_of find_entry text_eq lower insert_names insert_name
    comes_before explicit_names split get cut dll_name ends_with starts_with strip insert join
    lookup drop_while drop_while_end is_space to_lower
configured = refl

configure_mod_loaders_lem_example :
    Others listing environment (configure_mod_loaders (some listing) environment)
    × Configured listing environment (configure_mod_loaders (some listing) environment)
configure_mod_loaders_lem_example = configure_mod_loaders_lem listing environment
