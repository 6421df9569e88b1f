-- ===== src/Accounts/Adopting.antt =====
-- `AccountVault::reconcile_locked` of src/common/meta/accounts.cpp keeps the index valid.
use rift_lift.Common.{
  ℕ, suc, ◌≤◌, Bool, true, false, not, ◌||◌, List, [], ◌∷◌, ◌++◌, map, Option, none, some, Text,
  is_empty, text_eq_refl, any, any-append, count_if, Result, ok, err, ◌≡◌, refl, arith, Bool-cases,
  inl, inr,
}
use rift_lift.Names.{valid_account_key}
use rift_lift.Exec.{Ensures, Ensures-pure, Ensures-gets, Ensures-bind}
use rift_lift.Accounts.Vault.{Session, Account, AccountIndex, Slot, Vault, World, secret_load}
use rift_lift.Accounts.Index.{
  account_id, has_key, has_id, signed, found, selected, refresh, selected_or, full, adopt_session,
  adopt, adopt_all, reconciled, write_if, reconcile_locked, write_index,
}
use rift_lift.Accounts.Rows.{Same-map, check_rows-append, count_signed-append, count_signed-map}
use rift_lift.Accounts.Valid.{Valid, Consistent, Same-Valid, write_index-Consistent}

-- A selection among more accounts, or of the one that is added.
pub selected-append :
    (k : Text) (rows : List Account) (a : Account)
    → selected k rows ≡ true
    → selected (selected_or a.key k) (rows ++ a ∷ []) ≡ true
selected-append k rows a h = elim (Bool-cases (is_empty k)) [
  | inl nobody ↦
      rw (nobody, any-append (has_key a.key) rows (a ∷ []), text_eq_refl a.key) (or_true _ _)
  | inr somebody ↦ rw (somebody, any-append (has_key k) rows (a ∷ [])) (ground (arith, h, somebody))
]
  where
    or_true : (b c : Bool) → (b || (c || true)) ≡ true
    or_true b c = ground arith

-- An account with a new key and a new id is added.
pub append-Valid :
    (limit : ℕ) (index : AccountIndex) (a : Account) (active : Text)
    → Valid limit index
    → valid_account_key a.key ≡ true
    → account_id a.account_id ≡ true
    → found a.key index.accounts ≡ false
    → any (has_id a.account_id) index.accounts ≡ false
    → suc (count_if signed index.accounts) ≤ limit
    → selected active (index.accounts ++ a ∷ []) ≡ true
    → Valid limit (record {
      primary = selected_or a.key index.primary;
      active = active;
      accounts = index.accounts ++ a ∷ [];
    })
append-Valid limit index a active valid k i f g few h = record {
  rows = check_rows-append [] [] index.accounts a valid.rows k i refl refl f g;
  has_primary = selected-append index.primary index.accounts a valid.has_primary;
  has_active = h;
  few = omega (arith, few, count_signed-append index.accounts a);
}

adopt-Valid :
    (limit : ℕ) (k : Text) (slot : Slot) (index : AccountIndex) (changed : Bool)
    → 4 ≤ limit
    → Valid limit index
    → Valid limit (adopt k slot (index, changed)).0
unfolding adopt
adopt-Valid limit k slot index changed room valid =
    elim (Bool-cases (not (valid_account_key k) || found k index.accounts)) [
      | inl skipped ↦ rw skipped valid
      | inr orphan ↦ rw orphan (session (secret_load k slot) orphan)
    ]
  where
    session :
        (r : Result (Option Session))
        → (not (valid_account_key k) || found k index.accounts) ≡ false
        → Valid limit (adopt_session k r (index, changed)).0
    session (err what) orphan = valid
    session (ok none) orphan = valid
    session (ok (some s)) orphan =
        elim (Bool-cases (
          not (account_id s.account_id)
          || any (has_id s.account_id) index.accounts
          || full index)) [
            | inl refused ↦ rw refused valid
            | inr new ↦ rw new (
                append-Valid limit index _ (selected_or k index.active) valid (ground arith)
                  (ground arith) (ground arith) (ground arith) (ground arith)
                  (selected-append index.active index.accounts _ valid.has_active))
          ]

adopt_all-Valid :
    (limit : ℕ) (slots : List (Text × Slot)) (r : AccountIndex × Bool)
    → 4 ≤ limit
    → Valid limit r.0
    → Valid limit (adopt_all slots r).0
unfolding adopt_all
adopt_all-Valid limit [] r room valid = valid
adopt_all-Valid limit ((k, slot) ∷ slots) r room valid =
    adopt_all-Valid limit slots (adopt k slot r) room (adopt-Valid limit k slot r.0 r.1 room valid)

refresh-names :
    (v : Vault) (a : Account)
    → ((refresh v a).key ≡ a.key) × ((refresh v a).account_id ≡ a.account_id)
unfolding refresh
refresh-names v a = (ground arith, ground arith)

refresh-signed : (v : Vault) (a : Account) → (refresh v a).signed_in ≡ a.signed_in
unfolding refresh
refresh-signed v a = ground arith

reconciled-Valid :
    (limit : ℕ) (v : Vault) (index : AccountIndex)
    → 4 ≤ limit
    → Valid limit index
    → Valid limit (reconciled v index).0
unfolding reconciled
reconciled-Valid limit v index room valid = adopt_all-Valid limit v.slots _ room (
    Same-Valid limit limit index index.primary index.active (map (refresh v) index.accounts) valid
      (Same-map (refresh v) (refresh-names v) index.accounts) valid.has_primary valid.has_active
      (rw (count_signed-map (refresh v) (refresh-signed v) index.accounts) valid.few))

pub reconcile_locked-Valid :
    (limit : ℕ) (world : World) (index : AccountIndex)
    → 4 ≤ limit
    → Valid limit index
    → Ensures (Consistent limit) (Valid limit) (reconcile_locked world index)
unfolding reconcile_locked
reconcile_locked-Valid limit world index room valid =
    Ensures-bind _ (write_if world)
      (Ensures-gets _ λ v c. reconciled-Valid limit v index room valid)
      λ r valid'. write_if-Valid r.0 r.1 valid'
  where
    write_if-Valid :
        (index : AccountIndex) (changed : Bool)
        → Valid limit index
        → Ensures (Consistent limit) (Valid limit) (write_if world (index, changed))
    write_if-Valid index false valid = Ensures-pure index valid
    write_if-Valid index true valid =
        Ensures-bind (write_index world index) _ (write_index-Consistent limit world index valid)
          λ _ _. Ensures-pure index valid
