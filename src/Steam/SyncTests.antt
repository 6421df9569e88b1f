-- ===== src/Steam/SyncTests.antt =====
-- A file with the shortcut of another program, and two games of which one has no safe name.
use rift_lift.Common.{
  any, true, ℕ, Bool, true, false, [], ◌∷◌, ◌++◌, some, Text, codes, starts_with, cut, ok, text_eq,
  ◌≡◌, refl,
}
use rift_lift.Rules.Strings.{lower, ends_with}
use rift_lift.Names.{is_digit, is_lower}
use rift_lift.Build.Names.{safe_name, safe_package}
use rift_lift.Options.Decimal.{to_string, digits_before}
use rift_lift.Steam.Vdf.{
  read_vdf, write_vdf, encode, encode_children, encode_node, members, node_of, take_bytes, string,
  scalar, key_of, wide_from, wide,
}
use rift_lift.Steam.Fields.{
  field, field_from, text, text_of, replace, put, integer, number, shift_out, crc_bytes, appid,
}
use rift_lift.Steam.Shortcut.{Game, owned_package, id_of, fill}
use rift_lift.Steam.Draft.{
  Art, Pictures, emplace, prior_entry, split_entries, free_index, artwork_name, choose_art,
  add_arts, add_game, add_games, draft_list, draft,
}
use rift_lift.Steam.Sync.{written, assemble, put_at, install_arts, finish_sync, finish_draft, sync}
use rift_lift.Steam.Listed.{listed, listed-false}
use rift_lift.Steam.Synced.{Appended, sync-appends}

abbrev closed : ℕ → Bool
closed call = false

abbrev no_art : Art → Bool
no_art a = false

abbrev pictures : Pictures
pictures = record {
  path_of = λ name. codes "/c/grid/" ++ name;
  is_inside = λ name. true;
  present = λ name. [];
  exists = λ name. false;
  best_art = λ id kind. [];
}

abbrev game : Game
game = record { package_name = codes "g"; name = codes "G"; art_id = [] }

abbrev unsafe : Game
unsafe = record { package_name = codes "../g"; name = codes "H"; art_id = [] }

abbrev entry : ℕ → Text
entry index =
    (0 ∷ index ∷ 0 ∷ 2 ∷ codes "appid")
    ++ (0 ∷ 0x3c ∷ 0x1a ∷ 0x0d ∷ 0x9d ∷ 1 ∷ codes "appname")
    ++ (0 ∷ codes "G")
    ++ (0 ∷ 1 ∷ codes "exe")
    ++ (0 ∷ codes "\"/r\"")
    ++ (0 ∷ 1 ∷ codes "StartDir")
    ++ (0 ∷ codes "\"/\"")
    ++ (0 ∷ 1 ∷ codes "LaunchOptions")
    ++ (0 ∷ codes "--launch g")
    ++ (0 ∷ 2 ∷ codes "OpenVR")
    ++ (0 ∷ 1 ∷ 0 ∷ 0 ∷ 0 ∷ 2 ∷ codes "AllowOverlay")
    ++ (0 ∷ 1 ∷ 0 ∷ 0 ∷ 0 ∷ 2 ∷ codes "AllowDesktopConfig")
    ++ (0 ∷ 1 ∷ 0 ∷ 0 ∷ 0 ∷ 0 ∷ codes "tags")
    ++ (0 ∷ 1 ∷ b'0' ∷ 0 ∷ codes "RiftLift")
    ++ (0 ∷ 8 ∷ 8 ∷ [])

abbrev other_program : Text
other_program =
    (0 ∷ codes "shortcuts")
    ++ (0 ∷ 0 ∷ b'0' ∷ 0 ∷ 1 ∷ codes "AppName")
    ++ (0 ∷ codes "Other")
    ++ (0 ∷ 8 ∷ [])

abbrev old : Text
old = other_program ++ 8 ∷ 8 ∷ []

abbrev new : Text
new = other_program ++ entry b'1' ++ 8 ∷ 8 ∷ []

-- A second run with the same game adds it again.
abbrev newer : Text
newer = other_program ++ entry b'1' ++ entry b'2' ++ 8 ∷ 8 ∷ []

first_sync :
    sync closed no_art (codes "/r") (codes "/") pictures (game ∷ unsafe ∷ []) (some old) (some old)
    ≡ ok (written new 1)
unfolding sync read_vdf take_bytes key_of string cut scalar draft field field_from text_eq
    draft_list split_entries owned_package add_games safe_package safe_name ends_with starts_with
    is_digit is_lower digits_before to_string appid crc_bytes integer number put replace shift_out
    text text_of fill id_of add_arts add_game artwork_name assemble choose_art emplace finish_draft
    finish_sync free_index install_arts prior_entry put_at encode encode_children encode_node
    members node_of wide wide_from write_vdf lower
first_sync = refl

second_sync :
    sync closed no_art (codes "/r") (codes "/") pictures (game ∷ []) (some new) (some new)
    ≡ ok (written newer 1)
unfolding sync read_vdf take_bytes key_of string cut scalar draft field field_from text_eq
    draft_list split_entries owned_package add_games safe_package safe_name ends_with starts_with
    is_digit is_lower digits_before to_string appid crc_bytes integer number put replace shift_out
    text text_of fill id_of add_arts add_game artwork_name assemble choose_art emplace finish_draft
    finish_sync free_index install_arts prior_entry put_at encode encode_children encode_node
    members node_of wide wide_from write_vdf lower
second_sync = refl

sync-appends_example :
    Appended closed no_art
      (codes "/r")
      (codes "/")
      pictures
      (game ∷ unsafe ∷ [])
      (some old)
      (some old)
      new
      1
sync-appends_example =
    sync-appends closed no_art (codes "/r") (codes "/") pictures (game ∷ unsafe ∷ []) (some old)
      (some old) new 1 first_sync

game-IsSafe : any (λ g. safe_package g.package_name) (unsafe ∷ game ∷ []) ≡ true
unfolding safe_package safe_name ends_with starts_with is_digit is_lower lower cut text_eq
game-IsSafe = refl

-- The file has just been written with both of the game's entries.
listed-false_example : listed (codes "/r") (codes "/") (unsafe ∷ game ∷ []) (some newer) ≡ false
listed-false_example = listed-false (codes "/r") (codes "/") (unsafe ∷ game ∷ []) newer game-IsSafe
