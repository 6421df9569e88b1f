-- ===== src/Accounts/Keeping.antt =====
-- Every request of src/common/meta/accounts.cpp leaves an account index that can be read.
use rift_lift.Common.{
  ℕ, Bool, true, false, not, ◌||◌, List, [], ◌∷◌, Text, is_empty, text_eq, text_eq_iff,
  text_eq_refl, keep, ◌≡◌, refl, arith, Bool-cases, inl, inr,
}
use rift_lift.Exec.{Ensures}
use rift_lift.Accounts.Vault.{
  Session, Account, AccountIndex, Vault, World, Saving, saved, refused, unmarked, garbled,
  load_secret, save_as, plain_of, save_secret, clear_secret,
}
use rift_lift.Accounts.Index.{has_key, found, selected}
use rift_lift.Accounts.Requests.{signed_out, removed, front_key, activated, cleared_if}
use rift_lift.Accounts.Rows.{
  Same-update_first, check_rows-keep, count_signed-keep, count_signed-update_le,
}
use rift_lift.Accounts.Valid.{Valid, Consistent, Same-Valid}

-- Actions on the credentials leave the file alone.
pub load_secret-Consistent :
    (limit : ℕ) (k : Text) → Ensures (Consistent limit) (λ _. Unit {0}) (load_secret k)
unfolding load_secret
load_secret-Consistent limit k = record { at = λ v c. (c, λ a e. tt) }

pub save_secret-Consistent :
    (limit : ℕ) (world : World) (k : Text) (s : Session)
    → Ensures (Consistent limit) (λ _. Unit {0}) (save_secret world k s)
unfolding save_secret
save_secret-Consistent limit world k s = record {
  at = λ v c. (kept (world.saving k) v c, λ a e. tt);
}
  where
    kept :
        (saving : Saving) (v : Vault)
        → Consistent limit v
        → Consistent limit (save_as saving k (plain_of world k s) v).1
    kept saved v c = c
    kept refused v c = c
    kept unmarked v c = c
    kept (garbled other) v c = c

pub clear_secret-Consistent :
    (limit : ℕ) (world : World) (k : Text)
    → Ensures (Consistent limit) (λ _. Unit {0}) (clear_secret world k)
unfolding clear_secret
clear_secret-Consistent limit world k = record { at = λ v c. (c, λ a e. tt) }

-- A selection that stays, or is taken back.
cleared_if-selected :
    (k active : Text) (rows rows' : List Account)
    → selected active rows ≡ true
    → (text_eq active k ≡ false → found active rows ≡ true → found active rows' ≡ true)
    → selected (cleared_if k active) rows' ≡ true
cleared_if-selected k active rows rows' h f = elim (Bool-cases (text_eq active k)) [
  | inl same ↦ rw same refl
  | inr other ↦ rw other (ground (arith, h, f other))
]

pub signed_out-Valid :
    (limit : ℕ) (k : Text) (index : AccountIndex)
    → Valid limit index
    → Valid limit (signed_out k index)
signed_out-Valid limit k index valid =
    let same =
      Same-update_first (has_key k) (λ a. record a { signed_in = false; needs_reauth = true })
        (λ a. (refl, refl)) index.accounts in
    Same-Valid limit limit index index.primary (cleared_if k index.active) _ valid same
      valid.has_primary
      (cleared_if-selected k index.active index.accounts index.accounts valid.has_active λ o f. f)
      (omega (
        arith,
        valid.few,
        count_signed-update_le (has_key k)
            (λ a. record a { signed_in = false; needs_reauth = true }) index.accounts
            (λ a e h. absurd cc),
      ))

pub activated-Valid :
    (limit : ℕ) (world : World) (k : Text) (index : AccountIndex)
    → found k index.accounts ≡ true
    → Valid limit index
    → Valid limit (activated world k index)
activated-Valid limit world k index there valid =
    Same-Valid limit limit index index.primary k _ valid
      (Same-update_first (has_key k) (λ a. record a { last_used_at = world.now })
        (λ a. (refl, refl)) index.accounts)
      valid.has_primary (ground (arith, there))
      (omega (
        arith,
        valid.few,
        count_signed-update_le (has_key k) (λ a. record a { last_used_at = world.now })
            index.accounts (λ a e h. h),
      ))

found-keep :
    (k j : Text) (rows : List Account)
    → text_eq j k ≡ false
    → found j rows ≡ true
    → found j (keep (λ a. not (has_key k a)) rows) ≡ true
found-keep k j [] h f = absurd cc
found-keep k j (a ∷ rows) h f =
    ground (
      arith,
      h,
      f,
      text_eq_iff a.key j,
      text_eq_iff a.key k,
      text_eq_iff j k,
      found-keep k j rows h,
    )

front_key-selected : (rows : List Account) → selected (front_key rows) rows ≡ true
front_key-selected [] = refl
front_key-selected (a ∷ rows) = rw (text_eq_refl a.key) (or_true (is_empty a.key))
  where
    or_true : (b : Bool) → (b || true) ≡ true
    or_true b = ground arith

pub removed-Valid :
    (limit : ℕ) (k : Text) (index : AccountIndex)
    → Valid limit index
    → Valid limit (removed k index)
removed-Valid limit k index valid = record {
  rows =
      check_rows-keep (λ a. not (has_key k a)) [] [] [] [] index.accounts (λ t h. h) (λ t h. h)
        valid.rows;
  has_primary = elim (Bool-cases (text_eq index.primary k)) [
    | inl gone ↦ rw gone (front_key-selected (keep (λ a. not (has_key k a)) index.accounts))
    | inr other ↦
        rw other
          (ground (arith, valid.has_primary, found-keep k index.primary index.accounts other))
  ];
  has_active =
      cleared_if-selected k index.active index.accounts
        (keep (λ a. not (has_key k a)) index.accounts) valid.has_active
        (λ o f. found-keep k index.active index.accounts o f);
  few = omega (arith, valid.few, count_signed-keep (λ a. not (has_key k a)) index.accounts);
}
