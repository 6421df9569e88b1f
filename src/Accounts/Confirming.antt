-- ===== src/Accounts/Confirming.antt =====
-- The last steps of `AccountVault::migrate_v1` of src/common/meta/accounts.cpp: the session of version 1
-- is removed once the account's slot gives a session.
use rift_lift.Common.{
  Bool, true, false, Option, some, Text, Result, ok, err, ◌≡◌, refl, ap, sym, ◌∙◌, subst, ◌⊎◌, inl,
  inr,
}
use rift_lift.Exec.{
  Exec, pure, throw, check, continue, ◌>>=◌, ◌>>◌, Ensures, Ensures-pure, Ensures-gets,
  Ensures-bind, Ensures-check, Leads,
}
use rift_lift.Accounts.Vault.{
  Session, AccountIndex, Slot, Vault, slot_of, World, secret_load, Saving, saved, refused, unmarked,
  garbled, save_as, plain_of, save_secret, load_secret, load_legacy, clear_legacy,
}
use rift_lift.Accounts.Index.{
  found, parse_index, read_index, write_as, write_index, write_if, reconcile_locked,
}
use rift_lift.Accounts.Requests.{new_key, upsert_locked}
use rift_lift.Accounts.Migration.{migrated}
use rift_lift.Accounts.Joining.{new_key-Fits}

-- A key of the index whose slot gives a session of the account of `s`.
pub record Stored (s : Session) (v : Vault) : Type 0 where
  pub key : Text
  pub index : AccountIndex
  pub session : Session
  pub read : parse_index v.index ≡ ok index
  pub listed : found key index.accounts ≡ true
  pub loaded : secret_load key (slot_of key v.slots) ≡ ok (some session)
  pub same_account : session.account_id ≡ s.account_id

-- The session of version 1 is as it was.
abbrev pub Untouched : Slot → Vault → Type 0
Untouched old v = v.legacy ≡ old

abbrev pub Safe : Slot → Session → Vault → Type 0
Safe old s v = Untouched old v ⊎ Stored s v

-- `clear_legacy` changes neither the index nor the slots.
Stored-clear_legacy :
    (world : World) (s : Session) (v : Vault) → Stored s v → Stored s (clear_legacy world v).1
unfolding clear_legacy
Stored-clear_legacy world s v h = record {
  key = h.key;
  index = h.index;
  session = h.session;
  read = h.read;
  listed = h.listed;
  loaded = h.loaded;
  same_account = h.same_account;
}

-- What is returned makes no difference to the state.
state-pure :
    {A B : Type 0} (m : Exec Vault A) (b : B) (v : Vault) → ((m >>= λ _. pure b) v).1 ≡ (m v).1
unfolding ◌>>=◌ pure
state-pure {A = A} m b v = ends (m v).0 (m v).1
  where
    ends : (r : Result A) (v : Vault) → (continue r (λ _. pure b) v).1 ≡ v
    ends (ok a) v = refl
    ends (err what) v = refl

pub confirm-Safe :
    (old : Slot) (s : Session) (world : World) (k : Text)
    (test : AccountIndex → Option Session → Bool) (what : Text)
    → ((idx : AccountIndex) (t : Option Session)
        → test idx t ≡ true
        → (found k idx.accounts ≡ true)
          × (t' : Session) × (t ≡ some t')
          × (t'.account_id ≡ s.account_id))
    → Leads (Untouched old) (Safe old s) (do
      idx ← read_index
      session ← load_secret k
      check (test idx session) what
      clear_legacy world
      pure migrated)
unfolding read_index load_secret check throw pure ◌>>=◌
confirm-Safe old s world k test what means = record {
  at = λ v h. read v h (parse_index v.index) refl;
}
  where
    confirmed :
        (v : Vault) (idx : AccountIndex) (t : Option Session) (b : Bool)
        → Untouched old v
        → parse_index v.index ≡ ok idx
        → secret_load k (slot_of k v.slots) ≡ ok t
        → test idx t ≡ b
        → Safe old s ((check b what >>= λ _. clear_legacy world >>= λ _. pure migrated) v).1
    confirmed v idx t false h ei et eb = inl h
    confirmed v idx t true h ei et eb =
        let (there, t', some_t, same) = means idx t eb in
        inr (
          subst (Stored s) (sym (state-pure (clear_legacy world) migrated v)) (
            Stored-clear_legacy world s v (record {
              key = k;
              index = idx;
              session = t';
              read = ei;
              listed = there;
              loaded = et ∙ ap ok some_t;
              same_account = same;
            })))

    slot :
        (v : Vault) (idx : AccountIndex) (r : Result (Option Session))
        → Untouched old v
        → parse_index v.index ≡ ok idx
        → secret_load k (slot_of k v.slots) ≡ r
        → Safe old s
            (continue r
              (λ t. check (test idx t) what >>= λ _. clear_legacy world >>= λ _. pure migrated)
              v).1
    slot v idx (err why) h ei et = inl h
    slot v idx (ok t) h ei et = confirmed v idx t (test idx t) h ei et refl

    read :
        (v : Vault)
        → Untouched old v
        → (r : Result AccountIndex) → parse_index v.index ≡ r
        → Safe old s
            (continue r
              (λ idx. load_secret k >>= λ t.
                check (test idx t) what >>= λ _. clear_legacy world >>= λ _. pure migrated)
              v).1
    read v h (err why) ei = inl h
    read v h (ok idx) ei = slot v idx (secret_load k (slot_of k v.slots)) h ei refl

-- What the other steps leave alone.
module _ (old : Slot) where
  abbrev pub Leaves : {A : Type 0} → Exec Vault A → Type 0
  Leaves m = Ensures (Untouched old) (λ _. Unit {0}) m

  pub read_index-Leaves : Leaves read_index
  unfolding read_index
  read_index-Leaves = record { at = λ v h. (h, λ _ _. tt) }

  pub load_legacy-Leaves : Leaves load_legacy
  unfolding load_legacy
  load_legacy-Leaves = record { at = λ v h. (h, λ _ _. tt) }

  pub load_secret-Leaves : (k : Text) → Leaves (load_secret k)
  unfolding load_secret
  load_secret-Leaves k = record { at = λ v h. (h, λ _ _. tt) }

  pub write_index-Leaves : (world : World) (idx : AccountIndex) → Leaves (write_index world idx)
  unfolding write_index
  write_index-Leaves world idx = record { at = λ v h. (went v h (world.writes idx), λ _ _. tt) }
    where
      went : (v : Vault) → Untouched old v → (b : Bool) → Untouched old (write_as b idx v).1
      went v h true = h
      went v h false = h

  save_secret-Leaves : (world : World) (k : Text) (s : Session) → Leaves (save_secret world k s)
  unfolding save_secret
  save_secret-Leaves world k s = record { at = λ v h. (went (world.saving k) v h, λ _ _. tt) }
    where
      went :
          (saving : Saving) (v : Vault)
          → Untouched old v
          → Untouched old (save_as saving k (plain_of world k s) v).1
      went saved v h = h
      went refused v h = h
      went unmarked v h = h
      went (garbled other) v h = h

  pub reconcile_locked-Leaves :
      (world : World) (idx : AccountIndex) → Leaves (reconcile_locked world idx)
  unfolding reconcile_locked
  reconcile_locked-Leaves world idx =
      Ensures-bind {Q = λ _. Unit {0}} _ (write_if world) (Ensures-gets _ λ v h. tt)
        λ r _. went r.0 r.1
    where
      went : (idx : AccountIndex) (changed : Bool) → Leaves (write_if world (idx, changed))
      went idx false = Ensures-pure idx tt
      went idx true =
          Ensures-bind (write_index world idx) _ (write_index-Leaves world idx)
            λ _ _. Ensures-pure idx tt

  pub upsert_locked-Leaves :
      (world : World) (idx : AccountIndex) (s : Session) → Leaves (upsert_locked world idx s)
  unfolding upsert_locked
  upsert_locked-Leaves world idx s = Ensures-bind (check _ _) _ (Ensures-check _ _) λ _ _.
      Ensures-bind (check _ _) _ (Ensures-check _ _) λ _ _.
        Ensures-bind (new_key world idx _) _ (new_key-Fits (Untouched old) world idx _) λ k _.
          Ensures-bind (save_secret world k s) _ (save_secret-Leaves world k s) λ _ _.
            Ensures-bind (load_secret k) _ (load_secret-Leaves k) λ verify _.
              Ensures-bind (check _ _) _ (Ensures-check _ _) λ _ _.
                Ensures-bind (write_index world _) _ (write_index-Leaves world _)
                  λ _ _. Ensures-pure k tt
