-- ===== src/Accounts/Migration.antt =====
-- `AccountVault::migrate_v1`, `load_compatible` and `update_profile` of
-- src/common/meta/accounts.cpp: the credentials of version 1, and the names of an account.
use rift_lift.Common.{
  Bool, true, false, not, ◌&&◌, ◌||◌, List, [], ◌∷◌, Option, none, some, Text, codes, is_empty,
  text_eq, find, update_first, Result, ok, err, if◌then◌else◌,
}
use rift_lift.Exec.{Exec, pure, throw, lift, gets, check, ◌>>=◌, ◌>>◌}
use rift_lift.Accounts.Vault.{
  Session, Account, AccountIndex, Vault, slot_of, World, secret_load, load_secret, save_secret,
  load_legacy, clear_legacy,
}
use rift_lift.Accounts.Index.{
  account_id, has_id, find_account, found, read_index, write_index, reconcile_locked,
}
use rift_lift.Accounts.Requests.{check_key, usable, bound, verified, upsert_locked}

pub data Migration : Type 0 where
  absent : Migration
  migrated : Migration
  needs_identity : Migration

abbrev pub marked : Vault → Account → Bool
marked v a = (slot_of a.key v.slots).marker

abbrev pub revived : Session → AccountIndex → AccountIndex
revived s idx = record idx {
  accounts =
      update_first (has_id s.account_id) (λ a. record a { signed_in = true; needs_reauth = false })
        idx.accounts;
}

abbrev pub stored_error : Text
stored_error = codes "Existing account verification failed. Legacy credentials have been retained."

abbrev pub has_session : Session → Option Session → Bool
has_session s none = false
has_session s (some t) = text_eq t.account_id s.account_id && not (is_empty t.access_token)

abbrev pub same_session : Option Session → Option Session → Bool
same_session (some s) t = verified s t
same_session none t = false

-- The slot of the account is there: it is verified, and left as it is.
unfoldable pub adopt_slot : World → Session → AccountIndex → Account → Exec Vault Migration
adopt_slot world s idx a = do
  stored ← load_secret a.key
  check (has_session s stored) stored_error
  write_index world (revived s idx)
  idx' ← read_index
  again ← load_secret a.key
  check (found a.key idx'.accounts && same_session stored again) stored_error
  clear_legacy world
  pure migrated

unfoldable pub move_legacy : World → Session → AccountIndex → Exec Vault Migration
move_legacy world s idx = do
  k ← upsert_locked world idx s
  idx' ← read_index
  stored ← load_secret k
  check (found k idx'.accounts && verified s stored)
      (codes "Migrated account verification failed. Legacy credentials have been retained.")
  clear_legacy world
  pure migrated

abbrev pub migrate_into : World → Session → AccountIndex → Option Account → Exec Vault Migration
migrate_into world s idx none = move_legacy world s idx
migrate_into world s idx (some a) = gets (λ v. marked v a) >>= λ there.
    if there then adopt_slot world s idx a else move_legacy world s idx

unfoldable pub migrate_session : World → Session → Exec Vault Migration
migrate_session world s = do
  idx ← read_index
  idx' ← reconcile_locked world idx
  migrate_into world s idx' (find (has_id s.account_id) idx'.accounts)

-- `resolve` asks the store for the account of a session, and may throw or be absent.
abbrev pub ask : World → Option (Session → Result Session) → Session → Exec Vault Migration
ask world none s = pure needs_identity
ask world (some f) s = lift (f s) >>= λ t.
    if account_id t.account_id then migrate_session world t else pure needs_identity

abbrev pub identify : World → Option (Session → Result Session) → Session → Exec Vault Migration
identify world resolve s =
    if account_id s.account_id then migrate_session world s else ask world resolve s

abbrev pub migrate_loaded :
    World → Option (Session → Result Session) → Option Session → Exec Vault Migration
migrate_loaded world resolve none = pure absent
migrate_loaded world resolve (some s) = identify world resolve s

unfoldable pub migrate_v1 : World → Option (Session → Result Session) → Exec Vault Migration
migrate_v1 world resolve = load_legacy >>= migrate_loaded world resolve

-- What a slot gives for an account, or the exception that is kept for later.
abbrev pub slot_session : Account → Result (Option Session) → Result (Option Session)
slot_session a (err what) = err what
slot_session a (ok none) = ok none
slot_session a (ok (some s)) =
    if text_eq s.account_id a.account_id
    then ok (some s)
    else err (codes "Account credential does not match its slot.")

abbrev pub rethrow : Result (Option Session) → Exec Vault (Option Session)
rethrow (err what) = throw what
rethrow (ok s) = pure none

abbrev pub legacy_for :
    Account → Result (Option Session) → Option Session → Exec Vault (Option Session)
legacy_for a tried none = rethrow tried
legacy_for a tried (some s) =
    if text_eq s.account_id a.account_id then pure (some s) else rethrow tried

abbrev pub or_legacy : Account → Result (Option Session) → Exec Vault (Option Session)
or_legacy a (ok (some s)) = pure (some s)
or_legacy a tried = load_legacy >>= legacy_for a tried

abbrev pub try_slot : Account → Vault → Result (Option Session)
try_slot a v =
    if a.needs_reauth then ok none else slot_session a (secret_load a.key (slot_of a.key v.slots))

abbrev pub load_selected : Option Account → Exec Vault (Option Session)
load_selected none = pure none
load_selected (some a) =
    if not a.signed_in then pure none else gets (λ v. try_slot a v) >>= or_legacy a

abbrev pub no_accounts : List Account → Bool
no_accounts [] = true
no_accounts (a ∷ rest) = false

-- Without an account that is selected, the session of version 1 is given only where no account has
-- been added.
abbrev pub load_chosen : AccountIndex → Text → Exec Vault (Option Session)
load_chosen idx chosen =
    if text_eq chosen (codes "local")
    then pure none
    else if is_empty chosen
    then (if no_accounts idx.accounts then load_legacy else pure none)
    else (check_key chosen >> load_selected (find_account chosen idx.accounts))

-- The reader of the time between the versions.
unfoldable pub load_compatible : Text → Exec Vault (Option Session)
load_compatible k = do idx ← read_index; load_chosen idx (if is_empty k then idx.active else k)

abbrev pub named : Text → Text → Text
named given old = if is_empty old then given else old

abbrev pub renames : Text → Text → Session → Bool
renames alias display_name s =
    (is_empty s.alias && not (is_empty alias))
    || (is_empty s.display_name && not (is_empty display_name))

abbrev pub rename : World → Text → Text → Text → Session → Exec Vault (Unit {0})
rename world k alias display_name s =
    if renames alias display_name s
    then save_secret world k
        (record s { alias = named alias s.alias; display_name = named display_name s.display_name })
    else pure tt

abbrev pub rename_account : World → Text → Text → Text → Option Account → Exec Vault (Unit {0})
rename_account world k alias display_name none = pure tt
rename_account world k alias display_name (some a) =
    if usable a
    then (do s ← load_secret k; bound a s >>= rename world k alias display_name)
    else pure tt

unfoldable pub update_profile : World → Text → Text → Text → Exec Vault (Unit {0})
update_profile world k alias display_name = do
  check_key k
  idx ← read_index
  rename_account world k alias display_name (find_account k idx.accounts)
