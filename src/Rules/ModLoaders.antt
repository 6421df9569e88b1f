-- ===== src/Rules/ModLoaders.antt =====
-- `configure_mod_loaders` of src/runtime/rules.cpp: the DLLs beside a game through which a mod loader
-- is started.
use rift_lift.Common.{
  Bool, true, false, not, ◌&&◌, ◌||◌, List, [], ◌∷◌, ◌++◌, map, Option, none, some, Text, codes,
  text_eq, contains, cut, is_empty, ltb, ◌==◌, keep, if◌then◌else◌,
}
use rift_lift.Rules.Strings.{drop_while_end, split, join, lower, dll_name}
use rift_lift.Rules.Env.{Env, get, insert}

-- What `directory_iterator` says of an entry.
pub data EntryKind : Type 0 where
  folder : EntryKind
  file : EntryKind
  other : EntryKind

abbrev pub Listing : Type 0
Listing = List (Text × EntryKind)

-- `entries.find(name)`, where `emplace` has kept the first entry whose name is this in lower case.
unfoldable pub find_entry : Text → Listing → EntryKind
find_entry name [] = other
find_entry name ((n, kind) ∷ entries) =
    if text_eq (lower n) name then kind else find_entry name entries

abbrev pub is_folder : EntryKind → Bool
is_folder folder = true
is_folder _ = false

abbrev pub is_file : EntryKind → Bool
is_file file = true
is_file _ = false

abbrev pub has_dll : Listing → Text → Bool
has_dll entries name = is_file (find_entry (name ++ codes ".dll") entries)

-- The order of `std::set<std::string>`.
unfoldable pub comes_before : Text → Text → Bool
comes_before [] [] = false
comes_before [] (y ∷ ys) = true
comes_before (x ∷ xs) [] = false
comes_before (x ∷ xs) (y ∷ ys) = ltb x y || (x == y && comes_before xs ys)

-- `proxies.insert(name)`
unfoldable pub insert_name : Text → List Text → List Text
insert_name name [] = name ∷ []
insert_name name (n ∷ ns) =
    if text_eq n name
    then n ∷ ns
    else if comes_before name n
    then name ∷ n ∷ ns
    else n ∷ insert_name name ns

unfoldable pub insert_names : Listing → List Text → List Text → List Text
insert_names entries [] proxies = proxies
insert_names entries (name ∷ names) proxies =
    insert_names entries names (if has_dll entries name then insert_name name proxies else proxies)

abbrev pub loaders : List (Text × List Text)
loaders =
    (codes "melonloader", codes "version" ∷ codes "winhttp" ∷ codes "winmm" ∷ [])
    ∷ (codes "bepinex", codes "winhttp" ∷ [])
    ∷ []

unfoldable pub proxies_of : Listing → List (Text × List Text) → List Text → List Text
proxies_of entries [] proxies = proxies
proxies_of entries ((loader, names) ∷ rest) proxies =
    proxies_of entries rest (
      if is_folder (find_entry loader entries) then insert_names entries names proxies else proxies)

abbrev pub named_by : Option (Text × Text) → List Text
named_by none = []
named_by (some (names, order)) = map dll_name (split b',' names)

-- The DLLs that the user's rules name.
unfoldable pub explicit_names : List Text → List Text
explicit_names [] = []
explicit_names (rule ∷ rules) = named_by (cut b'=' rule) ++ explicit_names rules

abbrev pub overrides : Text
overrides = codes "WINEDLLOVERRIDES"

abbrev pub trimmed : Text → List Text
trimmed existing = if is_empty existing then [] else drop_while_end (λ c. c == b';') existing ∷ []

abbrev pub native_first : Text → Text
native_first name = name ++ codes "=n,b"

-- The proxies that the user's rules leave open.
abbrev pub added : List Text → List Text → List Text
added explicit proxies = keep (λ name. not (contains explicit name)) proxies

abbrev pub with_rules : Env → Text → List Text → Env
with_rules env existing [] = env
with_rules env existing (n ∷ ns) =
    insert overrides (join (codes ";") (trimmed existing ++ map native_first (n ∷ ns))) env

abbrev pub no_names : List Text → Bool
no_names [] = true
no_names (n ∷ ns) = false

-- Nothing is done where the folder cannot be listed.
unfoldable pub configure_mod_loaders : Option Listing → Env → Env
configure_mod_loaders none env = env
configure_mod_loaders (some entries) env =
    let proxies = proxies_of entries loaders [] in
    let existing = get env overrides in
    let explicit = explicit_names (split b';' existing) in
    if no_names proxies || contains explicit (codes "*")
    then env
    else with_rules env existing (added explicit proxies)
