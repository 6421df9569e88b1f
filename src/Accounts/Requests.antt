-- ===== src/Accounts/Requests.antt =====
-- The requests of `AccountVault` (src/common/meta/accounts.cpp), each with the lock held. `FileLock`
-- keeps them apart, so that they follow one another.
use rift_lift.Common.{
  ℕ, zero, suc, ◌+◌, ◌-◌, ◌/◌, ◌%◌, ltb, Bool, true, false, not, ◌&&◌, ◌||◌, List, [], ◌∷◌, ◌++◌,
  Option, none, some, Text, codes, is_empty, text_eq, length, any, find, keep, update_first,
  if◌then◌else◌,
}
use rift_lift.Names.{valid_account_key}
use rift_lift.Exec.{Exec, pure, throw, gets, check, ◌>>=◌, ◌>>◌}
use rift_lift.Accounts.Vault.{
  Session, Account, AccountIndex, Vault, World, load_secret, save_secret, clear_secret,
}
use rift_lift.Accounts.Index.{
  account_id, has_key, has_id, find_account, found, read_index, write_index, reconcile_locked,
  selected_or, full,
}

unfoldable pub index : Exec Vault AccountIndex
index = read_index

unfoldable pub reconcile : World → Exec Vault AccountIndex
reconcile world = do idx ← read_index; reconcile_locked world idx

abbrev pub check_key : Text → Exec Vault (Unit {0})
check_key k = check (valid_account_key k) (codes "Invalid account key.")

abbrev pub slot_error : Text
slot_error = codes "Account credential does not match its slot."

abbrev pub usable : Account → Bool
usable a = a.signed_in && not a.needs_reauth

-- The session that a slot gives, if it is bound to the account.
abbrev pub bound : Account → Option Session → Exec Vault Session
bound a none = throw slot_error
bound a (some s) = if text_eq s.account_id a.account_id then pure s else throw slot_error

abbrev pub load_account : Text → Option Account → Exec Vault (Option Session)
load_account k none = pure none
load_account k (some a) =
    if usable a then (do s ← load_secret k; bound a s >>= λ t. pure (some t)) else pure none

unfoldable pub load : Text → Exec Vault (Option Session)
load k = do check_key k; idx ← read_index; load_account k (find_account k idx.accounts)

abbrev pub hex : ℕ → ℕ
hex n = if ltb n 10 then b'0' + n else b'a' + (n - 10)

-- The two digits of an `unsigned char`.
abbrev pub hex_byte : ℕ → Text → Text
hex_byte b rest = hex (b % 256 / 16) ∷ hex (b % 16) ∷ rest

unfoldable pub random_account_key : (ℕ → ℕ) → Text
random_account_key bytes = hex_byte (bytes 0) (
    hex_byte (bytes 1)
      (hex_byte (bytes 2) (hex_byte (bytes 3) (hex_byte (bytes 4) (hex_byte (bytes 5) [])))))

-- `random_account_key` until a key is free.
abbrev pub taken : AccountIndex → Vault → Text → Bool
taken idx v k = found k idx.accounts || any (λ s. text_eq s.0 k) v.slots

unfoldable pub free_key : (ℕ → Text) → (Text → Bool) → ℕ → ℕ → Option Text
free_key random is_taken zero n = none
free_key random is_taken (suc fuel) n =
    let later = free_key random is_taken fuel (n + 1) in
    if is_taken (random n) then later else some (random n)

abbrev pub tries : AccountIndex → Vault → ℕ
tries idx v = suc (length idx.accounts + length v.slots)

abbrev pub or_no_key : Option Text → Exec Vault Text
or_no_key none = throw (codes "Could not generate an account key.")
or_no_key (some k) = pure k

abbrev pub new_key : World → AccountIndex → Option Account → Exec Vault Text
new_key world idx (some a) = pure a.key
new_key world idx none =
    gets (λ v. free_key (λ n. random_account_key (world.random n)) (taken idx v) (tries idx v) 0)
    >>= or_no_key

abbrev pub signs_in_new : Option Account → Bool
signs_in_new none = true
signs_in_new (some a) = not a.signed_in

abbrev pub verified : Session → Option Session → Bool
verified s none = false
verified s (some t) = text_eq t.account_id s.account_id && text_eq t.access_token s.access_token

abbrev pub sign_in : Text → Account → Account
sign_in now a = record a { signed_in = true; needs_reauth = false; last_used_at = now }

abbrev pub with_account : World → Text → Session → Option Account → List Account → List Account
with_account world k s none accounts =
    accounts
    ++ record {
      key = k;
      account_id = s.account_id;
      added_at = world.now;
      last_used_at = world.now;
      signed_in = true;
      needs_reauth = false;
    }
      ∷ []
with_account world k s (some a) accounts =
    update_first (has_id s.account_id) (sign_in world.now) accounts

abbrev pub upserted : World → Text → Session → Option Account → AccountIndex → AccountIndex
upserted world k s it idx = record {
  primary = selected_or k idx.primary;
  active = k;
  accounts = with_account world k s it idx.accounts;
}

unfoldable pub upsert_locked : World → AccountIndex → Session → Exec Vault Text
upsert_locked world idx s =
    let it = find (has_id s.account_id) idx.accounts in
    do
      check (account_id s.account_id && not (is_empty s.access_token))
          (codes "Sign-in did not return a stable Meta account.")
      check (not (signs_in_new it && full idx))
          (codes "Sign out an account before adding another (maximum four).")
      k ← new_key world idx it
      save_secret world k s
      verify ← load_secret k
      check (verified s verify)
          (codes "Account credential verification failed. Credentials have been retained.")
      write_index world (upserted world k s it idx)
      pure k

unfoldable pub upsert : World → Session → Exec Vault Text
upsert world s = do idx ← read_index; idx' ← reconcile_locked world idx; upsert_locked world idx' s

abbrev pub known : Text → AccountIndex → Exec Vault (Unit {0})
known k idx = check (found k idx.accounts) (codes "Unknown account.")

abbrev pub cleared_if : Text → Text → Text
cleared_if k active = if text_eq active k then [] else active

abbrev pub signed_out : Text → AccountIndex → AccountIndex
signed_out k idx = record idx {
  active = cleared_if k idx.active;
  accounts =
      update_first (has_key k) (λ a. record a { signed_in = false; needs_reauth = true })
        idx.accounts;
}

unfoldable pub sign_out : World → Text → Exec Vault (Unit {0})
sign_out world k = do
  check_key k
  idx ← read_index
  known k idx
  clear_secret world k
  write_index world (signed_out k idx)

abbrev pub front_key : List Account → Text
front_key [] = []
front_key (a ∷ accounts) = a.key

abbrev pub removed : Text → AccountIndex → AccountIndex
removed k idx =
    let left = keep (λ a. not (has_key k a)) idx.accounts in
    record {
      primary = if text_eq idx.primary k then front_key left else idx.primary;
      active = cleared_if k idx.active;
      accounts = left;
    }

unfoldable pub remove : World → Text → Exec Vault (Unit {0})
remove world k = do
  check_key k
  idx ← read_index
  known k idx
  clear_secret world k
  write_index world (removed k idx)

abbrev pub usable_in : Option Account → Bool
usable_in none = false
usable_in (some a) = usable a

abbrev pub activated : World → Text → AccountIndex → AccountIndex
activated world k idx = record idx {
  active = k;
  accounts = update_first (has_key k) (λ a. record a { last_used_at = world.now }) idx.accounts;
}

unfoldable pub set_active : World → Text → Exec Vault (Unit {0})
set_active world k = do
  check_key k
  idx ← read_index
  check (usable_in (find_account k idx.accounts)) (codes "Reconnect this account before switching.")
  write_index world (activated world k idx)

unfoldable pub set_primary : World → Text → Exec Vault (Unit {0})
set_primary world k = do
  check_key k
  idx ← read_index
  known k idx
  write_index world (record idx { primary = k })

unfoldable pub set_app_sharing : Bool → Exec Vault (Unit {0})
set_app_sharing enabled =
    check (not enabled) (codes "App Sharing is not supported. Each account must own the game.")
