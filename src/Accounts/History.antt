-- ===== src/Accounts/History.antt =====
-- What the account vault of src/common/meta/accounts.cpp goes through: requests one after the other,
-- each with the lock held, and what happens to the credentials outside of it.
use rift_lift.Common.{ℕ, suc, ◌≤◌, Bool, List, Option, Text, Result, ok, ◌≡◌, arith}
use rift_lift.Accounts.Vault.{Session, AccountIndex, Slot, missing, Vault, World}
use rift_lift.Accounts.Index.{parse_index}
use rift_lift.Accounts.Requests.{
  index, reconcile, load, upsert, sign_out, remove, set_active, set_primary, set_app_sharing,
}
use rift_lift.Accounts.Migration.{load_compatible, update_profile, migrate_v1}
use rift_lift.Accounts.Valid.{Valid, Consistent, parse_index-Valid}
use rift_lift.Accounts.Readable.{
  index-Keeps, reconcile-Keeps, load-Keeps, load_compatible-Keeps, upsert-Keeps,
  update_profile-Keeps, sign_out-Keeps, remove-Keeps, set_active-Keeps, set_primary-Keeps,
  set_app_sharing-Keeps,
}
use rift_lift.Accounts.Migrating.{migrate_v1-Becomes}

-- A request other than `migrate_v1`, or a change from outside.
pub data Step : Vault → Vault → Type 0 where
  reads : (v : Vault) → Step v (index v).1
  reconciles : (world : World) (v : Vault) → Step v (reconcile world v).1
  loads : (k : Text) (v : Vault) → Step v (load k v).1
  loads_compatible : (k : Text) (v : Vault) → Step v (load_compatible k v).1
  upserts : (world : World) (s : Session) (v : Vault) → Step v (upsert world s v).1
  updates_profile :
      (world : World) (k alias display_name : Text) (v : Vault)
      → Step v (update_profile world k alias display_name v).1
  signs_out : (world : World) (k : Text) (v : Vault) → Step v (sign_out world k v).1
  removes : (world : World) (k : Text) (v : Vault) → Step v (remove world k v).1
  sets_active : (world : World) (k : Text) (v : Vault) → Step v (set_active world k v).1
  sets_primary : (world : World) (k : Text) (v : Vault) → Step v (set_primary world k v).1
  sets_app_sharing : (enabled : Bool) (v : Vault) → Step v (set_app_sharing enabled v).1
  -- The keyring is locked or emptied, files are removed, or an old copy is restored.
  outside :
      (slots : List (Text × Slot)) (legacy : Slot) (v : Vault)
      → Step v (record v { slots = slots; legacy = legacy })

-- The histories of a vault that has no index at first, and how many accounts may be signed in then:
-- four, and one for each migration.
pub data History : ℕ → Vault → Type 0 where
  first :
      (slots : List (Text × Slot)) (legacy : Slot)
      → History 4 (record { index = missing; slots = slots; legacy = legacy })
  steps : {limit : ℕ} {v w : Vault} → History limit v → Step v w → History limit w
  migrates :
      {limit : ℕ} {v : Vault} (world : World) (resolve : Option (Session → Result Session))
      → History limit v
      → History (suc limit) (migrate_v1 world resolve v).1

Step-Consistent :
    (limit : ℕ) {v w : Vault} → 4 ≤ limit → Step v w → Consistent limit v → Consistent limit w
Step-Consistent limit room (reads v) c = ((index-Keeps limit).at v c).0
Step-Consistent limit room (reconciles world v) c = ((reconcile-Keeps limit world room).at v c).0
Step-Consistent limit room (loads k v) c = ((load-Keeps limit k).at v c).0
Step-Consistent limit room (loads_compatible k v) c = ((load_compatible-Keeps limit k).at v c).0
Step-Consistent limit room (upserts world s v) c = ((upsert-Keeps limit world s room).at v c).0
Step-Consistent limit room (updates_profile world k alias display_name v) c =
    ((update_profile-Keeps limit world k alias display_name).at v c).0
Step-Consistent limit room (signs_out world k v) c = ((sign_out-Keeps limit world k).at v c).0
Step-Consistent limit room (removes world k v) c = ((remove-Keeps limit world k).at v c).0
Step-Consistent limit room (sets_active world k v) c = ((set_active-Keeps limit world k).at v c).0
Step-Consistent limit room (sets_primary world k v) c = ((set_primary-Keeps limit world k).at v c).0
Step-Consistent limit room (sets_app_sharing enabled v) c =
    ((set_app_sharing-Keeps limit enabled).at v c).0
Step-Consistent limit room (outside slots legacy v) c = c

pub History-Consistent :
    (limit : ℕ) (v : Vault) → History limit v → (4 ≤ limit) × Consistent limit v
History-Consistent limit v (first slots legacy) = (omega arith, tt)
History-Consistent limit w (steps {v = v} h s) =
    let (room, c) = History-Consistent limit v h in (room, Step-Consistent limit room s c)
History-Consistent limit w (migrates {limit = l} {v} world resolve h) =
    let (room, c) = History-Consistent l v h in
    (omega (arith, room), (migrate_v1-Becomes l world room resolve).at v c)

-- After any requests, whether they returned or threw, and any changes of the credentials from outside,
-- the index can be read, its keys and account ids are valid and differ, the accounts that it selects are
-- there, and not more than four, and one for each migration, are signed in.
pub History-Valid :
    (limit : ℕ) (v : Vault)
    → History limit v
    → (idx : AccountIndex) × (parse_index v.index ≡ ok idx) × Valid limit idx
History-Valid limit v h = parse_index-Valid limit v.index (History-Consistent limit v h).1
