-- ===== src/Accounts/Readable.antt =====
-- Every request of src/common/meta/accounts.cpp but `migrate_v1` leaves an account index that can be
-- read, whether it returns or throws.
use rift_lift.Common.{
  ℕ, ◌≤◌, Bool, true, not, Option, none, some, Text, codes, is_empty, text_eq, Result, ok, err,
  if◌then◌else◌, ◌≡◌, refl, arith,
}
use rift_lift.Exec.{
  Exec, Ensures, Ensures-pure, Ensures-forget, Ensures-gets, Ensures-throw, Ensures-bind,
  Ensures-check, Ensures-if, check, ◌>>=◌, ◌>>◌,
}
use rift_lift.Accounts.Vault.{
  Session, Account, AccountIndex, Vault, World, load_secret, clear_secret, load_legacy,
}
use rift_lift.Accounts.Index.{found, find_account, read_index, reconcile_locked}
use rift_lift.Accounts.Requests.{
  index, reconcile, check_key, bound, load_account, load, usable, known, upsert, sign_out, remove,
  usable_in, set_active, set_primary, set_app_sharing,
}
use rift_lift.Accounts.Migration.{
  rethrow, legacy_for, or_legacy, try_slot, load_selected, load_chosen, load_compatible,
  no_accounts, renames, rename, rename_account, update_profile,
}
use rift_lift.Accounts.Rows.{find-found}
use rift_lift.Accounts.Valid.{Valid, Consistent, read_index-Valid, write_index-Consistent}
use rift_lift.Accounts.Adopting.{reconcile_locked-Valid}
use rift_lift.Accounts.Keeping.{
  load_secret-Consistent, save_secret-Consistent, clear_secret-Consistent, signed_out-Valid,
  removed-Valid, activated-Valid,
}
use rift_lift.Accounts.Joining.{upsert_locked-Consistent}

-- `m` leaves a file that can be read.
abbrev pub Keeps : {A : Type 0} → ℕ → Exec Vault A → Type 0
Keeps limit m = Ensures (Consistent limit) (λ _. Unit {0}) m

module _ (limit : ℕ) where
  -- Most requests check the key and read the index.
  checked :
      {A : Type 0} (k : Text) (f : AccountIndex → Exec Vault A)
      → ((idx : AccountIndex) → Valid limit idx → Keeps limit (f idx))
      → Keeps limit (do check_key k; idx ← read_index; f idx)
  checked k f h =
      Ensures-bind (check_key k) _ (Ensures-check _ _)
        λ _ _. Ensures-bind read_index f (read_index-Valid limit) h

  pub index-Keeps : Keeps limit index
  unfolding index
  index-Keeps = Ensures-forget read_index (read_index-Valid limit)

  pub reconcile-Keeps : (world : World) → 4 ≤ limit → Keeps limit (reconcile world)
  unfolding reconcile
  reconcile-Keeps world room = Ensures-bind read_index _ (read_index-Valid limit) λ idx valid.
      Ensures-forget (reconcile_locked world idx)
        (reconcile_locked-Valid limit world idx room valid)

  bound-Keeps : (a : Account) (s : Option Session) → Keeps limit (bound a s)
  bound-Keeps a none = Ensures-throw _
  bound-Keeps a (some s) =
      Ensures-if (text_eq s.account_id a.account_id) _ _ (λ _. Ensures-pure s tt)
        λ _. Ensures-throw _

  pub load-Keeps : (k : Text) → Keeps limit (load k)
  unfolding load
  load-Keeps k = checked k _ λ idx valid. account (find_account k idx.accounts)
    where
      account : (it : Option Account) → Keeps limit (load_account k it)
      account none = Ensures-pure none tt
      account (some a) =
          Ensures-if (usable a) _ _
            (λ _.
              Ensures-bind (load_secret k) _ (load_secret-Consistent limit k)
                λ s _. Ensures-bind (bound a s) _ (bound-Keeps a s) λ t _. Ensures-pure (some t) tt)
            λ _. Ensures-pure none tt

  pub upsert-Keeps : (world : World) (s : Session) → 4 ≤ limit → Keeps limit (upsert world s)
  unfolding upsert
  upsert-Keeps world s room = Ensures-bind read_index _ (read_index-Valid limit) λ idx valid.
      Ensures-bind (reconcile_locked world idx) _
        (reconcile_locked-Valid limit world idx room valid)
        λ idx' valid'. upsert_locked-Consistent limit world idx' s room valid'

  pub sign_out-Keeps : (world : World) (k : Text) → Keeps limit (sign_out world k)
  unfolding sign_out
  sign_out-Keeps world k = checked k _ λ idx valid.
      Ensures-bind (known k idx) _ (Ensures-check _ _) λ _ _.
        Ensures-bind (clear_secret world k) _ (clear_secret-Consistent limit world k)
          λ _ _. write_index-Consistent limit world _ (signed_out-Valid limit k idx valid)

  pub remove-Keeps : (world : World) (k : Text) → Keeps limit (remove world k)
  unfolding remove
  remove-Keeps world k = checked k _ λ idx valid.
      Ensures-bind (known k idx) _ (Ensures-check _ _) λ _ _.
        Ensures-bind (clear_secret world k) _ (clear_secret-Consistent limit world k)
          λ _ _. write_index-Consistent limit world _ (removed-Valid limit k idx valid)

  pub set_active-Keeps : (world : World) (k : Text) → Keeps limit (set_active world k)
  unfolding set_active
  set_active-Keeps world k = checked k _ λ idx valid.
      Ensures-bind (check (usable_in (find_account k idx.accounts)) _) _ (Ensures-check _ _)
        λ _ usable. write_index-Consistent limit world _ (
          activated-Valid limit world k idx (there idx (find_account k idx.accounts) refl usable)
            valid)
    where
      there :
          (idx : AccountIndex) (it : Option Account)
          → find_account k idx.accounts ≡ it
          → usable_in it ≡ true
          → found k idx.accounts ≡ true
      there idx none e h = absurd cc
      there idx (some a) e h = find-found k idx.accounts a e

  pub set_primary-Keeps : (world : World) (k : Text) → Keeps limit (set_primary world k)
  unfolding set_primary
  set_primary-Keeps world k = checked k _ λ idx valid.
      Ensures-bind (known k idx) _ (Ensures-check _ _) λ _ there.
        write_index-Consistent limit world _ (record {
          rows = valid.rows;
          has_primary = ground (arith, there);
          has_active = valid.has_active;
          few = valid.few;
        })

  pub set_app_sharing-Keeps : (enabled : Bool) → Keeps limit (set_app_sharing enabled)
  unfolding set_app_sharing
  set_app_sharing-Keeps enabled = Ensures-forget _ (Ensures-check _ _)

  pub update_profile-Keeps :
      (world : World) (k alias display_name : Text)
      → Keeps limit (update_profile world k alias display_name)
  unfolding update_profile
  update_profile-Keeps world k alias display_name =
      checked k _ λ idx valid. account (find_account k idx.accounts)
    where
      renamed : (s : Session) → Keeps limit (rename world k alias display_name s)
      renamed s =
          Ensures-if (renames alias display_name s) _ _
            (λ _. save_secret-Consistent limit world k _) λ _. Ensures-pure tt tt

      account : (it : Option Account) → Keeps limit (rename_account world k alias display_name it)
      account none = Ensures-pure tt tt
      account (some a) =
          Ensures-if (usable a) _ _
            (λ _.
              Ensures-bind (load_secret k) _ (load_secret-Consistent limit k)
                λ s _. Ensures-bind (bound a s) _ (bound-Keeps a s) λ t _. renamed t)
            λ _. Ensures-pure tt tt

  pub load_legacy-Keeps : Keeps limit load_legacy
  unfolding load_legacy
  load_legacy-Keeps = record { at = λ v c. (c, λ a e. tt) }

  pub load_compatible-Keeps : (k : Text) → Keeps limit (load_compatible k)
  unfolding load_compatible
  load_compatible-Keeps k =
      Ensures-bind read_index _ (read_index-Valid limit)
        λ idx valid. chosen idx (if is_empty k then idx.active else k)
    where
      kept : (tried : Result (Option Session)) → Keeps limit (rethrow tried)
      kept (err what) = Ensures-throw what
      kept (ok s) = Ensures-pure none tt

      legacy :
          (a : Account) (tried : Result (Option Session)) (s : Option Session)
          → Keeps limit (legacy_for a tried s)
      legacy a tried none = kept tried
      legacy a tried (some s) =
          Ensures-if (text_eq s.account_id a.account_id) _ _ (λ _. Ensures-pure (some s) tt)
            λ _. kept tried

      fallback : (a : Account) (tried : Result (Option Session)) → Keeps limit (or_legacy a tried)
      fallback a (ok (some s)) = Ensures-pure (some s) tt
      fallback a (ok none) =
          Ensures-bind load_legacy _ load_legacy-Keeps λ s _. legacy a (ok none) s
      fallback a (err what) =
          Ensures-bind load_legacy _ load_legacy-Keeps λ s _. legacy a (err what) s

      account : (it : Option Account) → Keeps limit (load_selected it)
      account none = Ensures-pure none tt
      account (some a) =
          Ensures-if (not a.signed_in) _ _ (λ _. Ensures-pure none tt)
            λ _.
              Ensures-bind {Q = λ _. Unit {0}} _ (or_legacy a) (Ensures-gets (try_slot a) λ v c. tt)
                λ tried _. fallback a tried

      chosen : (idx : AccountIndex) (key : Text) → Keeps limit (load_chosen idx key)
      chosen idx key =
          Ensures-if (text_eq key (codes "local")) _ _ (λ _. Ensures-pure none tt)
            λ _.
              Ensures-if (is_empty key) _ _
                (λ _.
                  Ensures-if (no_accounts idx.accounts) _ _ (λ _. load_legacy-Keeps)
                    λ _. Ensures-pure none tt)
                λ _.
                  Ensures-bind (check_key key) _ (Ensures-check _ _)
                    λ _ _. account (find_account key idx.accounts)
