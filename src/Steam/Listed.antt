-- ===== src/Steam/Listed.antt =====
-- `listed` of src/common/steam_library.cpp: whether Steam's shortcuts have what `sync` would write. It
-- decides, while the Steam client runs, whether a restart is asked for.
use rift_lift.Common.{
  Bool, true, false, not, ◌||◌, List, [], ◌∷◌, Option, none, some, Text, codes, is_empty, text_eq,
  any, all, All, contains, Result, ok, err, ◌>>=◌, if◌then◌else◌, ◌≡◌, refl, ap, sym, ◌∙◌, subst,
  Bool-cases, inl, inr, bind-eq_ok, ok-injective,
}
use rift_lift.Build.Names.{safe_package}
use rift_lift.Steam.Vdf.{Vdf, read_vdf}
use rift_lift.Steam.Fields.{field, text}
use rift_lift.Steam.Shortcut.{Game, owned_package, quoted}
use rift_lift.Steam.Draft.{Owned, emplace, list_key}
use rift_lift.Steam.Terminated.{TerminatedNode, read_vdf-Terminated, owned_package-none}
use rift_lift.Steam.Synced.{entries_of, All-entries}

unfoldable pub owned_entries : List Vdf → Owned → Result Owned
owned_entries [] owned = ok owned
owned_entries (e ∷ es) owned = do
  p ← owned_package e
  elim (is_empty p) [ true ↦ owned_entries es owned | false ↦ owned_entries es (emplace p e owned) ]

unfoldable pub find_owned : Text → Owned → Option Vdf
find_owned k [] = none
find_owned k ((k', e) ∷ rest) = if text_eq k' k then some e else find_owned k rest

abbrev pub all_listed : List Text → Owned → Bool
all_listed packages = all (λ o. contains packages o.0)

module _ (executable folder : Text) where
  unfoldable pub is_current : Game → Vdf → Result Bool
  is_current g e = do
    name ← text e (codes "appname")
    elim (text_eq name g.name) [
      | false ↦ ok false
      | true ↦ do
        exe ← text e (codes "exe")
        elim (text_eq exe (quoted executable)) [
          | false ↦ ok false
          | true ↦ do start ← text e (codes "StartDir"); ok (text_eq start (quoted folder))
        ]
    ]

  -- The loop over the games, and the last test; `packages` are those that have been seen.
  unfoldable pub games_listed : Owned → List Game → List Text → Result Bool
  games_listed owned [] packages = ok (all_listed packages owned)
  games_listed owned (g ∷ gs) packages =
      elim (not (safe_package g.package_name) || contains packages g.package_name) [
        | true ↦ games_listed owned gs packages
        | false ↦ elim (find_owned g.package_name owned) [
          | none ↦ ok false
          | some e ↦ do
            current ← is_current g e
            elim current [
              | false ↦ ok false
              | true ↦ games_listed owned gs (g.package_name ∷ packages)
            ]
        ]
      ]

  unfoldable pub check_list : List Game → Text → Result Bool
  check_list games bytes = do
    doc ← read_vdf bytes
    found ← field doc list_key
    owned ← owned_entries (entries_of found) []
    games_listed owned games []

  abbrev pub caught : Result Bool → Bool
  caught (err what) = false
  caught (ok b) = b

  abbrev pub no_games : List Game → Bool
  no_games [] = true
  no_games (g ∷ gs) = false

  -- What the file holds, if it exists.
  unfoldable pub listed : List Game → Option Text → Bool
  listed games none = no_games games
  listed games (some bytes) = caught (check_list games bytes)

owned_entries-none :
    (es : List Vdf) (owned r : Owned)
    → All TerminatedNode es
    → owned_entries es owned ≡ ok r
    → r ≡ owned
unfolding owned_entries
owned_entries-none [] owned r t h = sym (ok-injective h)
owned_entries-none (e ∷ es) owned r (t, ts) h =
    let (p, none_of_ours, h1) = bind-eq_ok (owned_package e) _ _ h in
    let foreign : is_empty p ≡ true = ap is_empty (owned_package-none e p t none_of_ours) in
    owned_entries-none es owned r ts (rw foreign at h1)

module _ (executable folder : Text) (games : List Game) where
  games_listed-false :
      (gs : List Game)
      → any (λ g. safe_package g.package_name) gs ≡ true
      → games_listed executable folder [] gs [] ≡ ok false
  unfolding games_listed find_owned
  games_listed-false [] h = absurd cc
  games_listed-false (g ∷ gs) h = elim (Bool-cases (safe_package g.package_name)) [
    | inl safe ↦ rw (safe, games_listed) refl
    | inr skipped ↦ rw (skipped, games_listed) (games_listed-false gs (rw skipped at h))
  ]

  check_list-false :
      (bytes : Text) (b : Bool)
      → any (λ g. safe_package g.package_name) games ≡ true
      → check_list executable folder games bytes ≡ ok b
      → b ≡ false
  unfolding check_list
  check_list-false bytes b some_safe h =
      let (doc, read, h1) = bind-eq_ok (read_vdf bytes) _ _ h in
      let (found, list_found, h2) = bind-eq_ok (field doc list_key) _ _ h1 in
      let (owned, collected, h3) = bind-eq_ok (owned_entries (entries_of found) []) _ _ h2 in
      let ended = All-entries doc found (read_vdf-Terminated bytes doc read) list_found in
      let no_owned = owned_entries-none (entries_of found) [] owned ended collected in
      ok-injective (
        sym (subst (λ o. games_listed executable folder o games [] ≡ ok b) no_owned h3)
        ∙ games_listed-false games some_safe)

  -- Where the file exists and a game has a package that may be listed, `listed` is false, also if
  -- an earlier `sync` has just written every game: a pending change is always reported.
  pub listed-false :
      (bytes : Text)
      → any (λ g. safe_package g.package_name) games ≡ true
      → listed executable folder games (some bytes) ≡ false
  unfolding listed
  listed-false bytes some_safe =
      answered (check_list executable folder games bytes)
        λ b e. check_list-false bytes b some_safe e
    where
      answered :
          (r : Result Bool)
          → ((b : Bool) → r ≡ ok b → b ≡ false)
          → caught executable folder r ≡ false
      answered (err what) f = refl
      answered (ok b) f = f b refl
