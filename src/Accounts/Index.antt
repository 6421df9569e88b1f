-- ===== src/Accounts/Index.antt =====
-- `AccountVault::read_index`, `write_index` and `reconcile_locked` of src/common/meta/accounts.cpp.
use rift_lift.Common.{
  ℕ, ◌-◌, ◌^◌, Bool, true, false, not, ◌&&◌, ◌||◌, List, [], ◌∷◌, ◌++◌, map, Option, none, some,
  Text, codes, is_empty, text_eq, ◌==◌, leb, any, find, count_if, contains, Result, ok, err,
  if◌then◌else◌,
}
use rift_lift.Names.{digits, valid_account_key}
use rift_lift.Options.Decimal.{from_chars}
use rift_lift.Exec.{Exec, pure, gets, ◌>>=◌, ◌>>◌}
use rift_lift.Accounts.Vault.{
  Session, Account, AccountIndex, Slot, IndexJson, IndexFile, missing, damaged, stored, Vault,
  slot_of, World, secret_load,
}

abbrev starts_with_zero : Text → Bool
starts_with_zero [] = false
starts_with_zero (c ∷ cs) = c == b'0'

-- `number` of src/common/json.h gives 0 where the text is no `uint64_t`.
abbrev number : Text → ℕ
number s = elim (from_chars (2 ^ 64 - 1) s) [ none ↦ 0 | some n ↦ n ]

unfoldable pub account_id : Text → Bool
account_id id = digits id 1 20 && not (starts_with_zero id) && not (number id == 0)

abbrev pub has_key : Text → Account → Bool
has_key k a = text_eq a.key k

abbrev pub has_id : Text → Account → Bool
has_id id a = text_eq a.account_id id

abbrev pub signed : Account → Bool
signed a = a.signed_in

unfoldable pub find_account : Text → List Account → Option Account
find_account k accounts = find (has_key k) accounts

abbrev pub found : Text → List Account → Bool
found k accounts = any (has_key k) accounts

-- The loop over the rows of the file, with the keys and ids that have been seen.
unfoldable pub check_rows : List Text → List Text → List Account → Bool
check_rows keys ids [] = true
check_rows keys ids (a ∷ rows) =
    valid_account_key a.key
    && account_id a.account_id
    && not (contains keys a.key)
    && not (contains ids a.account_id)
    && check_rows (a.key ∷ keys) (a.account_id ∷ ids) rows

abbrev pub selected : Text → List Account → Bool
selected k accounts = is_empty k || found k accounts

abbrev pub parse_rows : IndexJson → List Account → Result AccountIndex
parse_rows j rows =
    if not (check_rows [] [] rows)
    then err (codes "Account index contains invalid entries. Credentials have been retained.")
    else if not (selected j.primary rows && selected j.active rows)
    then err (codes "Account index selection is invalid. Credentials have been retained.")
    else ok (record { primary = j.primary; active = j.active; accounts = rows })

abbrev pub parse_json : IndexJson → Option (List Account) → Result AccountIndex
parse_json j none = err (codes "Account index is unreadable. Credentials have been retained.")
parse_json j (some rows) =
    if not (j.version == 2)
    then err (codes "Account index is unreadable. Credentials have been retained.")
    else parse_rows j rows

unfoldable pub parse_index : IndexFile → Result AccountIndex
parse_index missing = ok (record { primary = []; active = []; accounts = [] })
parse_index (damaged what) = err what
parse_index (stored j) = parse_json j j.rows

unfoldable pub read_index : Exec Vault AccountIndex
read_index v = (parse_index v.index, v)

abbrev pub json_of : AccountIndex → IndexJson
json_of index = record {
  version = 2;
  primary = index.primary;
  active = index.active;
  rows = some index.accounts;
}

abbrev pub write_as : Bool → AccountIndex → Exec Vault (Unit {0})
write_as true index v = (ok tt, record v { index = stored (json_of index) })
write_as false index v = (err (codes "Could not write the account index."), v)

unfoldable pub write_index : World → AccountIndex → Exec Vault (Unit {0})
write_index world index = write_as (world.writes index) index

-- An account whose credential has gone has to sign in again.
abbrev pub lost : Vault → Account → Bool
lost v a = a.signed_in && not (slot_of a.key v.slots).marker

unfoldable pub refresh : Vault → Account → Account
refresh v a = if lost v a then record a { needs_reauth = true } else a

abbrev pub newly_lost : Vault → Account → Bool
newly_lost v a = lost v a && not a.needs_reauth

abbrev pub selected_or : Text → Text → Text
selected_or k old = if is_empty old then k else old

abbrev pub adopted : Text → Session → AccountIndex → AccountIndex
adopted k s index = record {
  primary = selected_or k index.primary;
  active = selected_or k index.active;
  accounts =
      index.accounts
      ++ record {
        key = k;
        account_id = s.account_id;
        added_at = s.saved_at;
        last_used_at = s.saved_at;
        signed_in = true;
        needs_reauth = false;
      }
        ∷ [];
}

abbrev pub full : AccountIndex → Bool
full index = leb 4 (count_if signed index.accounts)

abbrev pub adopt_session :
    Text → Result (Option Session) → AccountIndex × Bool → AccountIndex × Bool
adopt_session k (ok (some s)) (index, changed) =
    if not (account_id s.account_id) || any (has_id s.account_id) index.accounts || full index
    then (index, changed)
    else (adopted k s index, true)
adopt_session k other r = r

-- The body of the loop over the folders: an orphan whose session names its account is adopted.
unfoldable pub adopt : Text → Slot → AccountIndex × Bool → AccountIndex × Bool
adopt k slot (index, changed) =
    if not (valid_account_key k) || found k index.accounts
    then (index, changed)
    else adopt_session k (secret_load k slot) (index, changed)

unfoldable pub adopt_all : List (Text × Slot) → AccountIndex × Bool → AccountIndex × Bool
adopt_all [] r = r
adopt_all ((k, slot) ∷ slots) r = adopt_all slots (adopt k slot r)

unfoldable pub reconciled : Vault → AccountIndex → AccountIndex × Bool
reconciled v index =
    adopt_all v.slots (
      record index { accounts = map (refresh v) index.accounts },
      any (newly_lost v) index.accounts,
    )

abbrev pub write_if : World → AccountIndex × Bool → Exec Vault AccountIndex
write_if world (index, true) = write_index world index >> pure index
write_if world (index, false) = pure index

unfoldable pub reconcile_locked : World → AccountIndex → Exec Vault AccountIndex
reconcile_locked world index = do r ← gets (λ v. reconciled v index); write_if world r
