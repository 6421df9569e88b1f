-- ===== src/Accounts/Vault.antt =====
-- The state behind `AccountVault` (src/common/meta/accounts.h), and `SecretStore` of
-- src/common/secret_store.h and src/common/platform/posix/secret_store.cpp: where a session is kept.
use rift_lift.Common.{
  ℕ, Bool, true, false, not, ◌&&◌, ◌||◌, List, [], ◌∷◌, Option, none, some, Text, codes, is_empty,
  text_eq, ◌==◌, Result, ok, err, if◌then◌else◌,
}
use rift_lift.Exec.{Exec}

pub record Session : Type 0 where
  pub access_token : Text
  pub account_id : Text
  pub alias : Text
  pub saved_at : Text
  pub source : Text
  pub profile_id : Text
  pub display_name : Text

pub record Account : Type 0 where
  pub key : Text
  pub account_id : Text
  pub added_at : Text
  pub last_used_at : Text
  pub signed_in : Bool
  pub needs_reauth : Bool

pub record AccountIndex : Type 0 where
  pub primary : Text
  pub active : Text
  pub accounts : List Account

-- The JSON object that `SecretStore::save` protects.
pub record Plain : Type 0 where
  pub version : ℕ
  pub key : Text
  pub session : Session

-- What the keyring or the sealed file gives for a slot: nothing, an exception (it is locked, cannot be
-- decrypted or is no JSON), or the object.
pub data Content : Type 0 where
  nothing : Content
  locked : Text → Content
  plain : Plain → Content

-- A slot's folder; `marker` says that its session.dpapi exists.
pub record Slot : Type 0 where
  pub marker : Bool
  pub content : Content

abbrev pub no_slot : Slot
no_slot = record { marker = false; content = nothing }

-- accounts/index.json: there is none, it cannot be read, or its values as `str`, `number` and `field`
-- give them; `rows` is absent where "accounts" is no array.
pub record IndexJson : Type 0 where
  pub version : ℕ
  pub primary : Text
  pub active : Text
  pub rows : Option (List Account)

pub data IndexFile : Type 0 where
  missing : IndexFile
  damaged : Text → IndexFile
  stored : IndexJson → IndexFile

-- The folders in accounts/ in the order of `directory_iterator`, links left out; `legacy` is the slot
-- of version 1, whose key is empty.
pub record Vault : Type 0 where
  pub index : IndexFile
  pub slots : List (Text × Slot)
  pub legacy : Slot

unfoldable pub slot_of : Text → List (Text × Slot) → Slot
slot_of k [] = no_slot
slot_of k ((j, s) ∷ rest) = if text_eq j k then s else slot_of k rest

unfoldable pub set_slot : Text → Slot → List (Text × Slot) → List (Text × Slot)
set_slot k slot [] = (k, slot) ∷ []
set_slot k slot ((j, s) ∷ rest) =
    if text_eq j k then (j, slot) ∷ rest else (j, s) ∷ set_slot k slot rest

unfoldable pub change_slot : Text → Slot → List (Text × Slot) → List (Text × Slot)
change_slot k slot [] = []
change_slot k slot ((j, s) ∷ rest) =
    if text_eq j k then (j, slot) ∷ rest else (j, s) ∷ change_slot k slot rest

-- What saving a slot does: it is saved; the keyring refuses; the session is kept but the marker is not
-- written; or something else is kept than was given.
pub data Saving : Type 0 where
  saved : Saving
  refused : Saving
  unmarked : Saving
  garbled : Content → Saving

-- What clearing it does: all is removed; the keyring refuses; the marker cannot be removed; or the
-- keyring cannot be reached, which is no error: the sealed file and the marker go, and what the
-- keyring has stays there.
pub data Clearing : Type 0 where
  cleared : Clearing
  denied : Clearing
  stuck : Clearing
  unreached : Content → Clearing

-- The environment of one request: the keyring and the disk, the time, and the six bytes that each
-- call of `random_account_key` reads from /dev/urandom.
pub record World : Type 0 where
  pub saving : Text → Saving
  pub clearing : Text → Clearing
  pub writes : AccountIndex → Bool
  pub now : Text
  pub random : ℕ → ℕ → ℕ

unfoldable pub mismatch : Text → Plain → Bool
mismatch k p =
    not (p.version == (if is_empty k then 1 else 2))
    || is_empty p.session.access_token
    || (not (is_empty k) && not (text_eq p.key k))

-- `SecretStore::load`
unfoldable pub secret_load : Text → Slot → Result (Option Session)
secret_load k slot = elim slot.content [
  | nothing ↦ ok none
  | locked what ↦ err what
  | plain p ↦
      if mismatch k p
      then err (codes "Account credential does not match its slot.")
      else ok (some p.session)
]

abbrev pub plain_of : World → Text → Session → Content
plain_of world k s = plain (record {
  version = if is_empty k then 1 else 2;
  key = k;
  session = record s { saved_at = world.now };
})

abbrev pub save_error : Text
save_error = codes "Could not save Meta session securely."

abbrev pub clear_error : Text
clear_error = codes "Could not clear Meta session securely."

abbrev pub clear_as : Clearing → Slot → Result (Unit {0}) × Slot
clear_as cleared slot = (ok tt, no_slot)
clear_as denied slot = (err clear_error, slot)
clear_as stuck slot = (err clear_error, record slot { content = nothing })
clear_as (unreached kept) slot = (ok tt, record { marker = false; content = kept })

-- `SecretStore::clear`
unfoldable pub secret_clear : World → Text → Slot → Result (Unit {0}) × Slot
secret_clear world k slot = clear_as (world.clearing k) slot

unfoldable pub load_secret : Text → Exec Vault (Option Session)
load_secret k v = (secret_load k (slot_of k v.slots), v)

abbrev pub put_slot : Text → Slot → Vault → Vault
put_slot k slot v = record v { slots = set_slot k slot v.slots }

abbrev pub save_as : Saving → Text → Content → Exec Vault (Unit {0})
save_as saved k sealed v = (ok tt, put_slot k (record { marker = true; content = sealed }) v)
save_as refused k sealed v = (err save_error, v)
save_as unmarked k sealed v =
    (err save_error, put_slot k (record (slot_of k v.slots) { content = sealed }) v)
save_as (garbled other) k sealed v =
    (ok tt, put_slot k (record { marker = true; content = other }) v)

-- `SecretStore::save`
unfoldable pub save_secret : World → Text → Session → Exec Vault (Unit {0})
save_secret world k s = save_as (world.saving k) k (plain_of world k s)

-- Clearing makes no folder.
abbrev pub with_slot : Text → Result (Unit {0}) × Slot → Exec Vault (Unit {0})
with_slot k (r, slot) v = (r, record v { slots = change_slot k slot v.slots })

unfoldable pub clear_secret : World → Text → Exec Vault (Unit {0})
clear_secret world k v = with_slot k (secret_clear world k (slot_of k v.slots)) v

unfoldable pub load_legacy : Exec Vault (Option Session)
load_legacy v = (secret_load [] v.legacy, v)

abbrev pub with_legacy : Result (Unit {0}) × Slot → Exec Vault (Unit {0})
with_legacy (r, slot) v = (r, record v { legacy = slot })

unfoldable pub clear_legacy : World → Exec Vault (Unit {0})
clear_legacy world v = with_legacy (secret_clear world [] v.legacy) v
