-- ===== src/Accounts/Migrated.antt =====
-- `AccountVault::migrate_v1` of src/common/meta/accounts.cpp loses no session.
use rift_lift.Common.{
  true, ◌&&◌, [], Option, none, some, text_eq_iff, find, Result, ok, ◌≡◌, refl, ap, sym, ◌∙◌,
  and_left, and_right, ◌⊎◌, inl, inr,
}
use rift_lift.Exec.{
  Exec, pure, lift, gets, check, Ensures, Ensures-gets, Ensures-check, Ensures-lift, Leads,
  Leads-if, Leads-bind,
}
use rift_lift.Accounts.Vault.{
  Session, Account, AccountIndex, Slot, Vault, World, secret_load, load_secret, load_legacy,
}
use rift_lift.Accounts.Index.{account_id, has_id, found, read_index, write_index, reconcile_locked}
use rift_lift.Accounts.Requests.{verified, upsert_locked}
use rift_lift.Accounts.Migration.{
  Migration, absent, needs_identity, marked, revived, has_session, same_session, adopt_slot,
  move_legacy, migrate_into, migrate_session, ask, migrate_loaded, migrate_v1,
}
use rift_lift.Accounts.Confirming.{
  Stored, Untouched, Safe, confirm-Safe, read_index-Leaves, load_secret-Leaves, write_index-Leaves,
  reconcile_locked-Leaves, upsert_locked-Leaves,
}

-- The session that a migration is about: that of version 1, or what the store makes of it where it
-- names no account.
pub data Identified (resolve : Option (Session → Result Session)) (old : Slot)
    : Session → Type 0 where
  as_read : (s : Session) → secret_load [] old ≡ ok (some s) → Identified resolve old s
  resolved :
      (s t : Session) (f : Session → Result Session)
      → secret_load [] old ≡ ok (some s)
      → resolve ≡ some f
      → f s ≡ ok t
      → Identified resolve old t

verified-means :
    (s : Session) (t : Option Session)
    → verified s t ≡ true
    → (t' : Session) × (t ≡ some t') × (t'.account_id ≡ s.account_id)
verified-means s none h = absurd cc
verified-means s (some t) h = (t, refl, (text_eq_iff t.account_id s.account_id).0 (and_left _ _ h))

same_session-means :
    (s : Session) (first again : Option Session)
    → has_session s first ≡ true
    → same_session first again ≡ true
    → (t : Session) × (again ≡ some t) × (t.account_id ≡ s.account_id)
same_session-means s none again h e = absurd cc
same_session-means s (some u) again h e =
    let (t, is_t, same) = verified-means u again e in
    (t, is_t, same ∙ (text_eq_iff u.account_id s.account_id).0 (and_left _ _ h))

module _ (old : Slot) (world : World) (s : Session) where
  early : (v : Vault) → Untouched old v → Safe old s v
  early v h = inl h

  adopt_slot-Safe :
      (idx : AccountIndex) (a : Account)
      → Leads (Untouched old) (Safe old s) (adopt_slot world s idx a)
  unfolding adopt_slot
  adopt_slot-Safe idx a =
      Leads-bind (load_secret a.key) _ early (load_secret-Leaves old a.key) λ session _.
        Leads-bind (check _ _) _ early (Ensures-check _ _) λ _ there.
          Leads-bind (write_index world (revived s idx)) _ early (write_index-Leaves old world _)
            λ _ _.
              confirm-Safe old s world a.key
                (λ idx' again. found a.key idx'.accounts && same_session session again) _
                λ idx' again h.
                  let (t, is_t, same) =
                    same_session-means s session again there (and_right _ _ h) in
                  (and_left _ _ h, t, is_t, same)

  move_legacy-Safe :
      (idx : AccountIndex) → Leads (Untouched old) (Safe old s) (move_legacy world s idx)
  unfolding move_legacy
  move_legacy-Safe idx =
      Leads-bind (upsert_locked world idx s) _ early (upsert_locked-Leaves old world idx s) λ k _.
        confirm-Safe old s world k (λ idx' session. found k idx'.accounts && verified s session) _
          λ idx' session h.
            let (t, is_t, same) = verified-means s session (and_right _ _ h) in
            (and_left _ _ h, t, is_t, same)

  migrate_session-Safe : Leads (Untouched old) (Safe old s) (migrate_session world s)
  unfolding migrate_session
  migrate_session-Safe = Leads-bind read_index _ early (read_index-Leaves old) λ idx _.
      Leads-bind (reconcile_locked world idx) _ early (reconcile_locked-Leaves old world idx)
        λ idx' _. into idx' (find (has_id s.account_id) idx'.accounts)
    where
      into :
          (idx : AccountIndex) (it : Option Account)
          → Leads (Untouched old) (Safe old s) (migrate_into world s idx it)
      into idx none = move_legacy-Safe idx
      into idx (some a) =
          Leads-bind {Q = λ _. Unit {0}} (gets (λ v. marked v a)) _ early (Ensures-gets _ λ _ _. tt)
            λ there _. Leads-if there _ _ (adopt_slot-Safe idx a) (move_legacy-Safe idx)

-- What a migration leaves: the session of version 1 as it was, or a key that gives a session of its
-- account.
abbrev pub Migrated : Option (Session → Result Session) → Slot → Vault → Type 0
Migrated resolve old v = Untouched old v ⊎ ((s : Session) × Identified resolve old s × Stored s v)

module _ (old : Slot) (world : World) (resolve : Option (Session → Result Session)) where
  abbrev Ends : Exec Vault Migration → Type 0
  Ends m = Leads (Untouched old) (Migrated resolve old) m

  about : (s : Session) → Identified resolve old s → Ends (migrate_session world s)
  about s which = record {
    at = λ v h. elim ((migrate_session-Safe old world s).at v h) [
      | inl same ↦ inl same
      | inr stored ↦ inr (s, which, stored)
    ];
  }

  as_before : (v : Vault) → Untouched old v → Migrated resolve old v
  as_before v h = inl h

  stays : (m : Migration) → Ends (pure m)
  unfolding pure
  stays m = record { at = λ v h. inl h }

  asked :
      (f : Option (Session → Result Session)) (s : Session)
      → resolve ≡ f
      → secret_load [] old ≡ ok (some s)
      → Ends (ask world f s)
  asked none s is_f read = stays needs_identity
  asked (some f) s is_f read =
      Leads-bind {Q = λ t. f s ≡ ok t} (lift (f s)) _ as_before (Ensures-lift (f s) λ t e. e) λ t e.
        Leads-if (account_id t.account_id) _ _ (about t (resolved s t f read is_f e))
          (stays needs_identity)

  loaded : (s : Option Session) → secret_load [] old ≡ ok s → Ends (migrate_loaded world resolve s)
  loaded none read = stays absent
  loaded (some s) read =
      Leads-if (account_id s.account_id) _ _ (about s (as_read s read)) (asked resolve s refl read)

  legacy : Ensures (Untouched old) (λ s. secret_load [] old ≡ ok s) load_legacy
  unfolding load_legacy
  legacy = record { at = λ v h. (h, λ s e. ap (secret_load []) (sym h) ∙ e) }

-- Whether `migrate_v1` returns or throws, and whatever the keyring and the disk do meanwhile, the
-- session of version 1 is as it was, or the index has a key whose slot gives a session of its account.
pub migrate_v1-Migrated :
    (world : World) (resolve : Option (Session → Result Session)) (v : Vault)
    → Migrated resolve v.legacy (migrate_v1 world resolve v).1
unfolding migrate_v1
migrate_v1-Migrated world resolve v =
    (Leads-bind load_legacy _ (as_before v.legacy world resolve) (legacy v.legacy world resolve)
        λ s read. loaded v.legacy world resolve s read).at
      v refl
