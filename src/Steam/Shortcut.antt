-- ===== src/Steam/Shortcut.antt =====
-- The entry of one game in Steam's shortcuts: `owned_package` and the body of the loop over the games
-- in `sync` (src/common/steam_library.cpp).
use rift_lift.Common.{
  ℕ, Bool, not, ◌&&◌, ◌||◌, [], ◌∷◌, ◌++◌, Option, none, some, Text, codes, text_eq, starts_with,
  any, drop, ◌==◌, Result, ok, ◌>>=◌, if◌then◌else◌,
}
use rift_lift.Build.Names.{safe_package}
use rift_lift.Steam.Vdf.{Vdf, vdf, nil, cons}
use rift_lift.Steam.Fields.{
  type_of, value, children, with_children, node, field, text, put, integer, number, appid,
}

abbrev pub our_tag : Text
our_tag = codes "RiftLift"

abbrev pub launch : Text
launch = codes "--launch "

-- The tag is compared without the zero that ends a string's payload, `std::string("RiftLift\0", 8)`.
abbrev pub is_tag : Vdf → Bool
is_tag n = type_of n == 1 && text_eq (value n) our_tag

abbrev pub is_ours : Vdf → Bool
is_ours tags = any is_tag (children tags)

-- The package of an entry that is ours and starts it.
abbrev pub launched : Bool → Text → Text
launched ours options =
    if not ours || not (starts_with options launch)
    then []
    else if safe_package (drop 9 options)
    then drop 9 options
    else []

unfoldable pub owned_package : Vdf → Result Text
owned_package entry = do
  tags ← field entry (codes "tags")
  elim tags [
    | none ↦ ok []
    | some t ↦
        if not (type_of t == 0)
        then ok []
        else do options ← text entry (codes "LaunchOptions"); ok (launched (is_ours t) options)
  ]

pub record Game : Type 0 where
  pub package_name : Text
  pub name : Text
  pub art_id : Text

abbrev pub quoted : Text → Text
quoted s = b'"' ∷ s ++ b'"' ∷ []

abbrev pub tags_node : Vdf
tags_node = vdf 0 (codes "tags") [] (cons (node (codes "0") our_tag 1) nil) 8

abbrev pub add_tags : Option Vdf → Vdf → Vdf
add_tags none entry = with_children (children entry ++ tags_node ∷ []) entry
add_tags (some tags) entry = entry

-- The paths of the launcher and of its folder.
module _ (executable folder : Text) where
  -- `id`, where an entry without one gets the checksum of the path and the name.
  unfoldable pub id_of : Game → Option Vdf → ℕ
  id_of g n = let id = number n in if id == 0 then appid (quoted executable) g.name else id

  unfoldable pub fill : Game → ℕ → Vdf → Result Vdf
  fill g id entry = do
    e1 ← put (codes "appid") (integer id) 2 entry
    e2 ← put (codes "appname") g.name 1 e1
    e3 ← put (codes "exe") (quoted executable) 1 e2
    e4 ← put (codes "StartDir") (quoted folder) 1 e3
    e5 ← put (codes "LaunchOptions") (launch ++ g.package_name) 1 e4
    e6 ← put (codes "OpenVR") (integer 1) 2 e5
    e7 ← put (codes "AllowOverlay") (integer 1) 2 e6
    e8 ← put (codes "AllowDesktopConfig") (integer 1) 2 e7
    tags ← field e8 (codes "tags")
    ok (add_tags tags e8)
