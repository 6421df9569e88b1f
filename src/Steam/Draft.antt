-- ===== src/Steam/Draft.antt =====
-- The entries that `sync` of src/common/steam_library.cpp puts together for the games.
use rift_lift.Common.{
  ℕ, zero, suc, ◌+◌, Bool, true, false, not, ◌&&◌, ◌||◌, List, [], ◌∷◌, ◌++◌, Option, none, some,
  Text, codes, is_empty, text_eq, cut, map, length, contains, ◌==◌, Result, ok, require, ◌>>=◌,
  ◌>>◌, if◌then◌else◌,
}
use rift_lift.Build.Names.{safe_package}
use rift_lift.Options.Decimal.{to_string}
use rift_lift.Steam.Vdf.{Vdf, vdf, nil}
use rift_lift.Steam.Fields.{
  type_of, key, value, children, with_children, with_key, empty, field, put,
}
use rift_lift.Steam.Shortcut.{Game, owned_package, id_of, fill}

-- `try_emplace` keeps the first entry of a package.
abbrev pub Owned : Type 0
Owned = List (Text × Vdf)

unfoldable pub emplace : Text → Vdf → Owned → Owned
emplace k e [] = (k, e) ∷ []
emplace k e ((k', e') ∷ rest) =
    if text_eq k' k then (k', e') ∷ rest else (k', e') ∷ emplace k e rest

-- `prior.contains(k) ? prior.at(k) : Vdf{}`
unfoldable pub prior_entry : Text → Owned → Vdf
prior_entry k [] = empty
prior_entry k ((k', e) ∷ rest) = if text_eq k' k then e else prior_entry k rest

-- The entries that are kept as they are, and those that are ours, `retained` and `prior`.
unfoldable pub split_entries : List Vdf → List Vdf → Owned → Result (List Vdf × Owned)
split_entries [] retained prior = ok (retained, prior)
split_entries (e ∷ es) retained prior = do
  p ← owned_package e
  elim (is_empty p) [
    | true ↦ split_entries es (retained ++ e ∷ []) prior
    | false ↦ split_entries es retained (emplace p e prior)
  ]

-- `while (keys.contains(std::to_string(next))) ++next`. There is one more number in reach than there
-- are keys.
unfoldable pub free_index : ℕ → List Text → ℕ → ℕ
free_index zero keys next = next
free_index (suc fuel) keys next =
    let later = free_index fuel keys (next + 1) in
    if contains keys (to_string next) then later else next

pub data Kind : Type 0 where
  portrait : Kind
  hero : Kind
  logo : Kind
  header : Kind
  icon : Kind

abbrev pub is_icon : Kind → Bool
is_icon icon = true
is_icon other = false

abbrev pub suffix : Kind → Text
suffix portrait = codes "p"
suffix hero = codes "_hero"
suffix logo = codes "_logo"
suffix header = []
suffix icon = codes "_icon"

unfoldable pub artwork_name : ℕ → Kind → Text
artwork_name id kind = to_string id ++ suffix kind ++ codes ".png"

-- A picture to be installed, and the index of its entry.
pub record Art : Type 0 where
  pub source : Text
  pub destination : Text
  pub index : ℕ
  pub is_for_icon : Bool

-- What the loop over the games changes.
pub record Progress : Type 0 where
  pub packages : List Text
  pub keys : List Text
  pub next : ℕ
  pub retained : List Vdf
  pub artwork : List Art

-- What `sync` asks the file system: the path of a file in config/grid; whether a picture's path stays in the account's folder; the
-- picture that is at a place already, or nothing; the file that an icon's value names exists; the
-- picture that is cached of a game and a kind, or nothing.
pub record Pictures : Type 0 where
  pub path_of : Text → Text
  pub is_inside : Text → Bool
  pub present : Text → Text
  pub exists : Text → Bool
  pub best_art : Text → Kind → Text

abbrev pub c_string : Text → Text
c_string s = elim (cut 0 s) [ none ↦ s | some (characters, rest) ↦ characters ]

abbrev pub has_icon : Pictures → Option Vdf → Bool
has_icon pictures none = false
has_icon pictures (some n) = not (is_empty (value n)) && pictures.exists (c_string (value n))

abbrev pub icon_field : Kind → Vdf → Result (Option Vdf)
icon_field icon entry = field entry (codes "icon")
icon_field other entry = ok none

abbrev pub put_icon : Kind → Text → Vdf → Result Vdf
put_icon icon path entry = put (codes "icon") path 1 entry
put_icon other path entry = ok entry

module _ (executable folder : Text) (pictures : Pictures) where
  abbrev pub art_of : Game → ℕ → ℕ → Kind → Art
  art_of g id index kind = record {
    source = pictures.best_art g.art_id kind;
    destination = pictures.path_of (artwork_name id kind);
    index = index;
    is_for_icon = is_icon kind;
  }

  -- The body of the loop over the kinds of a game's pictures, behind the check of the path.
  unfoldable pub choose_art :
      Game → ℕ → ℕ → Kind → Option Vdf → Vdf → List Art → Result (Vdf × List Art)
  choose_art g id index kind own entry artwork =
      let path = pictures.present (pictures.path_of (artwork_name id kind)) in
      if has_icon pictures own
      then ok (entry, artwork)
      else if not (is_empty path)
      then (do entry' ← put_icon kind path entry; ok (entry', artwork))
      else if is_empty (pictures.best_art g.art_id kind)
      then ok (entry, artwork)
      else ok (entry, artwork ++ art_of g id index kind ∷ [])

  unfoldable pub add_arts : Game → ℕ → ℕ → List Kind → Vdf → List Art → Result (Vdf × List Art)
  add_arts g id index [] entry artwork = ok (entry, artwork)
  add_arts g id index (kind ∷ kinds) entry artwork = do
    require (pictures.is_inside (pictures.path_of (artwork_name id kind)))
        (codes "Steam output path escapes account config.")
    own ← icon_field kind entry
    (entry', artwork') ← choose_art g id index kind own entry artwork
    add_arts g id index kinds entry' artwork'

  -- The entry of one game, with the index and the pictures that the loop has found so far.
  unfoldable pub add_game : Owned → Game → Progress → Result Progress
  add_game prior g s = do
    let old = prior_entry g.package_name prior
    appid_field ← field old (codes "appid")
    let id = id_of executable folder g appid_field
    let index = free_index (suc (length s.keys)) s.keys s.next
    filled ← fill executable folder g id (with_key (to_string index) old)
    (entry, artwork) ←
        add_arts g id (length s.retained) (portrait ∷ hero ∷ logo ∷ header ∷ icon ∷ []) filled
          s.artwork
    ok (record {
      packages = g.package_name ∷ s.packages;
      keys = to_string index ∷ s.keys;
      next = index + 1;
      retained = s.retained ++ entry ∷ [];
      artwork = artwork;
    })

  unfoldable pub add_games : Owned → List Game → Progress → Result Progress
  add_games prior [] s = ok s
  add_games prior (g ∷ gs) s =
      elim (not (safe_package g.package_name) || contains s.packages g.package_name) [
        | true ↦ add_games prior gs s
        | false ↦ do s' ← add_game prior g s; add_games prior gs s'
      ]

abbrev pub list_key : Text
list_key = codes "shortcuts"

-- The list of shortcuts, which is added where the file has none.
abbrev pub with_list : Option Vdf → Vdf → Vdf × Vdf
with_list (some list) doc = (list, doc)
with_list none doc =
    let list = vdf 0 list_key [] nil 8 in (list, with_children (children doc ++ list ∷ []) doc)

-- The file's object, and the entries of its list, as the loop over the games leaves them.
abbrev pub Draft : Type 0
Draft = Vdf × Vdf × Progress

abbrev pub first_progress : List Vdf → Progress
first_progress retained = record {
  packages = [];
  keys = map key retained;
  next = 0;
  retained = retained;
  artwork = [];
}

unfoldable pub draft_list : Text → Text → Pictures → List Game → Vdf → Vdf → Result Draft
draft_list executable folder pictures games doc list = do
  require (type_of list == 0) (codes "Steam shortcuts is not an object.")
  (retained, prior) ← split_entries (children list) [] []
  s ← add_games executable folder pictures prior games (first_progress retained)
  ok (doc, list, s)

unfoldable pub draft : Text → Text → Pictures → List Game → Vdf → Result Draft
draft executable folder pictures games doc = do
  found ← field doc list_key
  draft_list executable folder pictures games (with_list found doc).1 (with_list found doc).0
