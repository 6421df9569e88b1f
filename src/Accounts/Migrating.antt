-- ===== src/Accounts/Migrating.antt =====
-- `AccountVault::migrate_v1` of src/common/meta/accounts.cpp leaves an account index that can be read,
-- in which one account more may be signed in.
use rift_lift.Common.{
  ℕ, suc, ◌≤◌, Bool, true, false, ◌&&◌, Option, none, some, Text, find, Result, refl, arith,
}
use rift_lift.Exec.{
  Exec, Ensures-pure, Ensures-gets, Ensures-lift, Ensures-bind, Ensures-check, Ensures-if, Leads,
  Leads-if, Leads-late, Leads-bind, lift, pure, check, ◌>>=◌, ◌>>◌,
}
use rift_lift.Accounts.Vault.{
  Session, Account, AccountIndex, IndexFile, missing, damaged, stored, Vault, World, load_secret,
  load_legacy, clear_legacy,
}
use rift_lift.Accounts.Index.{account_id, has_id, found, read_index, write_index, reconcile_locked}
use rift_lift.Accounts.Requests.{verified, upsert_locked}
use rift_lift.Accounts.Migration.{
  absent, migrated, needs_identity, marked, revived, has_session, same_session, adopt_slot,
  move_legacy, migrate_into, migrate_session, ask, migrate_loaded, migrate_v1,
}
use rift_lift.Accounts.Rows.{Same-update_first, count_signed-update}
use rift_lift.Accounts.Valid.{
  Valid, ConsistentFile, Consistent, Same-Valid, read_index-Valid, write_index-Consistent,
}
use rift_lift.Accounts.Adopting.{reconcile_locked-Valid}
use rift_lift.Accounts.Keeping.{load_secret-Consistent}
use rift_lift.Accounts.Joining.{upsert_locked-Consistent}
use rift_lift.Accounts.Readable.{Keeps, load_legacy-Keeps}

pub Valid-suc : (limit : ℕ) (index : AccountIndex) → Valid limit index → Valid (suc limit) index
Valid-suc limit index valid = record {
  rows = valid.rows;
  has_primary = valid.has_primary;
  has_active = valid.has_active;
  few = omega (arith, valid.few);
}

pub Consistent-suc : (limit : ℕ) (v : Vault) → Consistent limit v → Consistent (suc limit) v
Consistent-suc limit v = file v.index
  where
    file : (f : IndexFile) → ConsistentFile limit f → ConsistentFile (suc limit) f
    file missing c = c
    file (damaged what) c = c
    file (stored j) (index, e, valid) = (index, e, Valid-suc limit index valid)

revived-Valid :
    (limit : ℕ) (s : Session) (index : AccountIndex)
    → Valid limit index
    → Valid (suc limit) (revived s index)
revived-Valid limit s index valid =
    Same-Valid limit (suc limit) index index.primary index.active _ valid
      (Same-update_first (has_id s.account_id)
        (λ a. record a { signed_in = true; needs_reauth = false }) (λ a. (refl, refl))
        index.accounts)
      valid.has_primary valid.has_active
      (omega (
        arith,
        valid.few,
        count_signed-update (has_id s.account_id)
            (λ a. record a { signed_in = true; needs_reauth = false }) index.accounts,
      ))

-- `m` leaves a file that can be read, perhaps with one account more that is signed in.
abbrev pub Becomes : {A : Type 0} → ℕ → Exec Vault A → Type 0
Becomes limit m = Leads (Consistent limit) (Consistent (suc limit)) m

module _ (limit : ℕ) (world : World) where
  clear_legacy-Keeps : Keeps limit (clear_legacy world)
  unfolding clear_legacy
  clear_legacy-Keeps = record { at = λ v c. (c, λ a e. tt) }

  -- What follows once the session is stored: it is read again, and the old one is removed.
  confirm-Keeps :
      (k : Text) (test : AccountIndex → Option Session → Bool) (what : Text)
      → Keeps limit (do
        idx ← read_index
        session ← load_secret k
        check (test idx session) what
        clear_legacy world
        pure migrated)
  confirm-Keeps k test what = Ensures-bind read_index _ (read_index-Valid limit) λ idx _.
      Ensures-bind (load_secret k) _ (load_secret-Consistent limit k) λ session _.
        Ensures-bind (check _ _) _ (Ensures-check _ _) λ _ _.
          Ensures-bind (clear_legacy world) _ clear_legacy-Keeps λ _ _. Ensures-pure migrated tt

  adopt_slot-Keeps :
      (s : Session) (idx : AccountIndex) (a : Account)
      → Valid limit (revived s idx)
      → Keeps limit (adopt_slot world s idx a)
  unfolding adopt_slot
  adopt_slot-Keeps s idx a valid =
      Ensures-bind (load_secret a.key) _ (load_secret-Consistent limit a.key) λ session _.
        Ensures-bind (check (has_session s session) _) _ (Ensures-check _ _) λ _ _.
          Ensures-bind (write_index world (revived s idx)) _
            (write_index-Consistent limit world (revived s idx) valid)
            λ _ _.
              confirm-Keeps a.key
                (λ idx' again. found a.key idx'.accounts && same_session session again) _

  move_legacy-Keeps :
      (s : Session) (idx : AccountIndex)
      → 4 ≤ limit
      → Valid limit idx
      → Keeps limit (move_legacy world s idx)
  unfolding move_legacy
  move_legacy-Keeps s idx room valid =
      Ensures-bind (upsert_locked world idx s) _
        (upsert_locked-Consistent limit world idx s room valid)
        λ k _. confirm-Keeps k (λ idx' session. found k idx'.accounts && verified s session) _

module _ (limit : ℕ) (world : World) (room : 4 ≤ limit) where
  late : (v : Vault) → Consistent limit v → Consistent (suc limit) v
  late = Consistent-suc limit

  migrate_session-Becomes : (s : Session) → Becomes limit (migrate_session world s)
  unfolding migrate_session
  migrate_session-Becomes s = Leads-bind read_index _ late (read_index-Valid limit) λ idx valid.
      Leads-bind (reconcile_locked world idx) _ late
        (reconcile_locked-Valid limit world idx room valid)
        λ idx' valid'.
          Leads-late _ late (into idx' valid' (find (has_id s.account_id) idx'.accounts))
    where
      moved : (idx : AccountIndex) → Valid limit idx → Keeps (suc limit) (move_legacy world s idx)
      moved idx valid =
          move_legacy-Keeps (suc limit) world s idx (omega (arith, room))
            (Valid-suc limit idx valid)

      into :
          (idx : AccountIndex)
          → Valid limit idx
          → (it : Option Account) → Keeps (suc limit) (migrate_into world s idx it)
      into idx valid none = moved idx valid
      into idx valid (some a) =
          Ensures-bind {Q = λ _. Unit {0}} _ _ (Ensures-gets (λ v. marked v a) λ v c. tt) λ there _.
            Ensures-if there _ _
              (λ _. adopt_slot-Keeps (suc limit) world s idx a (revived-Valid limit s idx valid))
              λ _. moved idx valid

  pub migrate_v1-Becomes :
      (resolve : Option (Session → Result Session)) → Becomes limit (migrate_v1 world resolve)
  unfolding migrate_v1
  migrate_v1-Becomes resolve =
      Leads-bind load_legacy _ late (load_legacy-Keeps limit) λ s _. loaded s
    where
      needs : Becomes limit (pure needs_identity)
      needs = Leads-late _ late (Ensures-pure {Q = λ _. Unit {0}} needs_identity tt)

      asked : (f : Option (Session → Result Session)) (s : Session) → Becomes limit (ask world f s)
      asked none s = needs
      asked (some f) s =
          Leads-bind {Q = λ _. Unit {0}} (lift (f s)) _ late (Ensures-lift (f s) λ _ _. tt)
            λ t _. Leads-if (account_id t.account_id) _ _ (migrate_session-Becomes t) needs

      loaded : (s : Option Session) → Becomes limit (migrate_loaded world resolve s)
      loaded none = Leads-late _ late (Ensures-pure {Q = λ _. Unit {0}} absent tt)
      loaded (some s) =
          Leads-if (account_id s.account_id) _ _ (migrate_session-Becomes s) (asked resolve s)
