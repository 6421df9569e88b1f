-- ===== src/Accounts/Tests.antt =====
-- Runs of the account vault of src/common/meta/accounts.cpp on small vaults.
use rift_lift.Common.{
  ℕ, Bool, Result, err, ◌++◌, drop, count_if, text_eq, true, false, [], ◌∷◌, none, Text, codes,
  ◌==◌, if◌then◌else◌, ok, ◌≡◌, refl, ap, arith,
}
use rift_lift.Options.Decimal.{from_chars, value_from}
use rift_lift.Names.{is_digit, digits, valid_account_key}
use rift_lift.Exec.{pure, throw, gets, check, ◌>>=◌}
use rift_lift.Accounts.Vault.{
  Session, Account, AccountIndex, Slot, no_slot, plain, Vault, missing, stored, slot_of, set_slot,
  change_slot, saved, cleared, World, mismatch, secret_load, save_secret, secret_clear,
  clear_secret, load_secret, load_legacy, clear_legacy,
}
use rift_lift.Accounts.Index.{
  account_id, find_account, check_rows, parse_index, read_index, write_index, adopt_all, adopt,
  refresh, signed, json_of, reconciled, reconcile_locked,
}
use rift_lift.Accounts.Requests.{
  random_account_key, free_key, new_key, upsert_locked, upsert, sign_out, remove,
}
use rift_lift.Accounts.Migration.{migrate_session, move_legacy, adopt_slot, migrate_v1}
use rift_lift.Accounts.Valid.{Valid, Consistent}
use rift_lift.Accounts.History.{History, first, steps, migrates, upserts, signs_out, History-Valid}
use rift_lift.Accounts.Loading.{Loads, upsert-Loads}
use rift_lift.Accounts.Migrated.{Migrated, migrate_v1-Migrated}
use rift_lift.Accounts.Keys.{Distinct, new_key-Found}

abbrev calm : World
calm = record {
  saving = λ k. saved;
  clearing = λ k. cleared;
  writes = λ index. true;
  now = codes "now";
  random = λ n i. if i == 0 then n else 0;
}

abbrev alice : Session
alice = record {
  access_token = codes "token";
  account_id = codes "42";
  alias = [];
  saved_at = [];
  source = [];
  profile_id = [];
  display_name = [];
}

abbrev old_slot : Slot
old_slot = record {
  marker = true;
  content = plain (record { version = 1; key = []; session = alice });
}

abbrev fresh : Vault
fresh = record { index = missing; slots = []; legacy = old_slot }

abbrev key : Text
key = codes "000000000000"

-- The vault once the session of version 1 has been saved again.
abbrev signed_in : Vault
signed_in = (upsert calm alice fresh).1

abbrev after_sign_out : Vault
after_sign_out = (sign_out calm key signed_in).1

upsert-fresh : upsert calm alice fresh ≡ (ok key, signed_in)
unfolding upsert read_index parse_index reconcile_locked reconciled adopt_all upsert_locked ◌>>=◌
    pure throw gets check account_id free_key random_account_key save_secret set_slot load_secret
    slot_of secret_load mismatch write_index is_digit find_account digits from_chars value_from
    text_eq
upsert-fresh = ap (λ r. (r, signed_in)) (upsert_ok)
  where
    upsert_ok : (upsert calm alice fresh).0 ≡ ok key
    upsert_ok = refl

abbrev remove_out : Vault
remove_out = (remove calm key signed_in).1

remove-fresh : remove calm key signed_in ≡ (ok tt, remove_out)
unfolding remove upsert read_index parse_index reconcile_locked reconciled adopt_all upsert_locked
    ◌>>=◌ pure throw gets check account_id free_key random_account_key save_secret set_slot
    load_secret slot_of secret_load mismatch write_index is_digit find_account check_rows
    valid_account_key clear_secret secret_clear change_slot digits from_chars value_from text_eq
remove-fresh = ap (λ r. (r, remove_out)) ok_out
  where
    ok_out : (remove calm key signed_in).0 ≡ ok tt
    ok_out = refl

fresh-Consistent : Consistent 4 fresh
fresh-Consistent = tt

signed_in-History : History 4 signed_in
signed_in-History = steps (first [] old_slot) (upserts calm alice fresh)

History-Valid_example :
    (idx : AccountIndex) × (parse_index (migrate_v1 calm none after_sign_out).1.index ≡ ok idx)
    × Valid 5 idx
History-Valid_example =
    History-Valid 5 (migrate_v1 calm none after_sign_out).1
      (migrates calm none (steps signed_in-History (signs_out calm key signed_in)))

upsert-Loads_example : Loads alice key fresh signed_in
upsert-Loads_example =
    upsert-Loads 4 calm alice key fresh signed_in (omega arith) fresh-Consistent upsert-fresh

-- The session of version 1 has been removed, since its account has a slot.
migrated-fresh : (migrate_v1 calm none fresh).1.legacy ≡ no_slot
unfolding migrate_v1 migrate_session move_legacy load_legacy clear_legacy upsert read_index
    parse_index reconcile_locked reconciled adopt_all upsert_locked ◌>>=◌ pure throw gets check
    account_id free_key random_account_key save_secret set_slot load_secret slot_of secret_load
    mismatch write_index is_digit find_account check_rows valid_account_key clear_secret
    secret_clear change_slot digits from_chars value_from text_eq
migrated-fresh = refl

migrate_v1-Migrated_example : Migrated none old_slot (migrate_v1 calm none fresh).1
migrate_v1-Migrated_example = migrate_v1-Migrated calm none fresh

-- One account has the first key that is made.
abbrev one_account : AccountIndex
one_account = record {
  primary = [];
  active = [];
  accounts =
      record {
        key = key;
        account_id = codes "42";
        added_at = [];
        last_used_at = [];
        signed_in = true;
        needs_reauth = false;
      }
      ∷ [];
}

two_keys : Distinct (λ n. random_account_key (calm.random n)) 2
unfolding random_account_key text_eq
two_keys i j a b =
    let first_i : i ≡ 0 = omega (arith, a, b) in
    let first_j : j ≡ 1 = omega (arith, a, b) in rw (first_i, first_j) refl

new_key-Found_example : (k : Text) × (new_key calm one_account none fresh ≡ (ok k, fresh))
new_key-Found_example = new_key-Found calm one_account fresh two_keys

-- Four accounts are signed in and a fifth is not, but its slot is there: a migration signs it in.
abbrev account_of : Text → Bool → Account
account_of k there = record {
  key = k;
  account_id = 52 ∷ drop 11 k;
  added_at = [];
  last_used_at = [];
  signed_in = there;
  needs_reauth = false;
}

abbrev last_digit : ℕ → Text
last_digit c = codes "00000000000" ++ c ∷ []

abbrev kept_slot : Text → Slot
kept_slot k = record {
  marker = true;
  content = plain (record { version = 2; key = k; session = alice });
}

abbrev full_vault : Vault
full_vault = record {
  index = stored (
      json_of (record {
        primary = [];
        active = [];
        accounts =
            account_of (last_digit 49) true
            ∷ account_of (last_digit 51) true
            ∷ account_of (last_digit 52) true
            ∷ account_of (last_digit 53) true
            ∷ account_of (last_digit 50) false
            ∷ [];
      }));
  slots = (last_digit 50, kept_slot (last_digit 50)) ∷ [];
  legacy = old_slot;
}

abbrev signed_accounts : Result AccountIndex → ℕ
signed_accounts (ok idx) = count_if signed idx.accounts
signed_accounts (err what) = 0

fifth_account : signed_accounts (parse_index (migrate_v1 calm none full_vault).1.index) ≡ 5
unfolding migrate_v1 migrate_session adopt_slot load_legacy clear_legacy read_index parse_index
    reconcile_locked reconciled adopt_all adopt refresh ◌>>=◌ pure throw gets check account_id
    load_secret slot_of secret_load mismatch write_index is_digit find_account check_rows
    valid_account_key secret_clear digits from_chars value_from text_eq
fifth_account = refl
