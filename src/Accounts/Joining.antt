-- ===== src/Accounts/Joining.antt =====
-- `AccountVault::upsert_locked` of src/common/meta/accounts.cpp keeps the index valid.
use rift_lift.Common.{
  ℕ, zero, suc, ◌+◌, ◌/◌, ◌%◌, ◌≤◌, ◌<◌, Bool, true, false, List, [], ◌∷◌, Option, none, some, Text,
  text_eq_refl, find, find-none, count_if, update_first, ◌≡◌, refl, sym, subst, arith, and_left,
  Bool-cases, inl, inr,
}
use rift_lift.Names.{valid_account_key, is_hex, is_digit}
use rift_lift.Exec.{
  Ensures, Ensures-pure, Ensures-gets, Ensures-throw, Ensures-bind, Ensures-check, check,
}
use rift_lift.Accounts.Vault.{
  Session, Account, AccountIndex, Vault, World, load_secret, save_secret,
}
use rift_lift.Accounts.Index.{account_id, has_id, signed, found, selected, selected_or, write_index}
use rift_lift.Accounts.Requests.{
  signs_in_new, sign_in, random_account_key, hex, free_key, taken, tries, or_no_key, new_key,
  upserted, upsert_locked,
}
use rift_lift.Accounts.Rows.{Same-update_first, count_signed-update, count_signed-update_le}
use rift_lift.Accounts.Valid.{Valid, Consistent, Same-Valid, write_index-Consistent}
use rift_lift.Accounts.Adopting.{selected-append, append-Valid}
use rift_lift.Accounts.Keeping.{load_secret-Consistent, save_secret-Consistent}

pub found-find :
    (p : Account → Bool) (rows : List Account) (a : Account)
    → find p rows ≡ some a
    → found a.key rows ≡ true
found-find p (b ∷ rows) a h = elim (Bool-cases (p b)) [
  | inl here ↦ ground (arith, h, here, text_eq_refl a.key)
  | inr later ↦ ground (arith, h, later, found-find p rows a)
]
found-find p [] a h = absurd cc

selected-found :
    (k old : Text) (rows : List Account)
    → found k rows ≡ true
    → selected old rows ≡ true
    → selected (selected_or k old) rows ≡ true
selected-found k old rows f h = ground (arith, f, h)

joined-few :
    (limit : ℕ) (now : Text) (p : Account → Bool) (rows : List Account) (a : Account)
    → find p rows ≡ some a
    → (signs_in_new (some a) ≡ true → suc (count_if signed rows) ≤ limit)
    → count_if signed rows ≤ limit
    → count_if signed (update_first p (sign_in now) rows) ≤ limit
joined-few limit now p rows a e few h = elim (Bool-cases a.signed_in) [
  | inl already ↦ omega (arith, h, count_signed-update_le p (sign_in now) rows λ b e' _. cc)
  | inr new ↦ omega (arith, few (rw new refl), count_signed-update p (sign_in now) rows)
]

-- The row of the account that signs in, or a new one.
pub upserted-Valid :
    (limit : ℕ) (world : World) (k : Text) (s : Session) (index : AccountIndex)
    (it : Option Account)
    → find (has_id s.account_id) index.accounts ≡ it
    → account_id s.account_id ≡ true
    → ((a : Account) → it ≡ some a → k ≡ a.key)
    → (it ≡ none → (valid_account_key k ≡ true) × (found k index.accounts ≡ false))
    → (signs_in_new it ≡ true → suc (count_if signed index.accounts) ≤ limit)
    → Valid limit index
    → Valid limit (upserted world k s it index)
upserted-Valid limit world k s index none e id old new few valid =
    append-Valid limit index _ k valid (new refl).0 id (new refl).1
      (find-none (has_id s.account_id) index.accounts e) (few refl)
      (selected-append [] index.accounts _ refl)
upserted-Valid limit world k s index (some a) e id old new few valid =
    let here =
      subst (λ k. found k index.accounts ≡ true) (sym (old a refl))
        (found-find (has_id s.account_id) index.accounts a e) in
    Same-Valid limit limit index (selected_or k index.primary) k _ valid
      (Same-update_first (has_id s.account_id) (sign_in world.now) (λ a. (refl, refl))
        index.accounts)
      (selected-found k index.primary index.accounts here valid.has_primary)
      (selected-found k [] index.accounts here refl)
      (joined-few limit world.now (has_id s.account_id) index.accounts a e few valid.few)

-- The keys that are made are valid, and the one that is taken is new.
hex-is_hex : (n : ℕ) → n < 16 → is_hex (hex n) ≡ true
unfolding is_hex is_digit
hex-is_hex n h = ground (arith, h)

high-is_hex : (b : ℕ) → is_hex (hex (b % 256 / 16)) ≡ true
high-is_hex b = hex-is_hex (b % 256 / 16) (omega arith)

low-is_hex : (b : ℕ) → is_hex (hex (b % 16)) ≡ true
low-is_hex b = hex-is_hex (b % 16) (omega arith)

pub random_account_key-valid : (bytes : ℕ → ℕ) → valid_account_key (random_account_key bytes) ≡ true
unfolding valid_account_key random_account_key is_hex
random_account_key-valid bytes =
    rw
      (
        high-is_hex (bytes 0),
        low-is_hex (bytes 0),
        high-is_hex (bytes 1),
        low-is_hex (bytes 1),
        high-is_hex (bytes 2),
        low-is_hex (bytes 2),
        high-is_hex (bytes 3),
        low-is_hex (bytes 3),
        high-is_hex (bytes 4),
        low-is_hex (bytes 4),
        high-is_hex (bytes 5),
        low-is_hex (bytes 5),
      )
      refl

pub free_key-fresh :
    (random : ℕ → Text) (is_taken : Text → Bool) (fuel n : ℕ) (k : Text)
    → free_key random is_taken fuel n ≡ some k
    → (is_taken k ≡ false) × (m : ℕ) × (k ≡ random m)
unfolding free_key
free_key-fresh random is_taken zero n k h = absurd cc
free_key-fresh random is_taken (suc fuel) n k h = elim (Bool-cases (is_taken (random n))) [
  | inl skipped ↦ free_key-fresh random is_taken fuel (n + 1) k (rw skipped at h)
  | inr free ↦
      subst (λ j. (is_taken j ≡ false) × (m : ℕ) × (j ≡ random m)) (some-injective (rw free at h))
        (free, n, refl)
]
  where
    some-injective : {A : Type 0} {a b : A} → some a ≡ some b → a ≡ b
    some-injective e = cc

-- What `upsert_locked` needs of a key.
abbrev pub Fits : AccountIndex → Option Account → Text → Type 0
Fits index it k =
    ((a : Account) → it ≡ some a → k ≡ a.key)
    × (it ≡ none → (valid_account_key k ≡ true) × (found k index.accounts ≡ false))

pub new_key-Fits :
    (P : Vault → Type 0) (world : World) (index : AccountIndex) (it : Option Account)
    → Ensures P (Fits index it) (new_key world index it)
new_key-Fits P world index (some a) = Ensures-pure a.key ((λ b e. cc), λ e. absurd cc)
new_key-Fits P world index none =
    Ensures-bind _ or_no_key (Ensures-gets _ λ v c k e. fresh v k e) ends
  where
    keys : ℕ → Text
    keys n = random_account_key (world.random n)

    fresh :
        (v : Vault) (k : Text)
        → free_key keys (taken index v) (tries index v) 0 ≡ some k
        → Fits index none k
    fresh v k e =
        let (free, n, made) = free_key-fresh keys (taken index v) (tries index v) 0 k e in
        (
          (λ a e. absurd cc),
          λ e. (
            subst (λ k. valid_account_key k ≡ true) (sym made)
                (random_account_key-valid (world.random n)),
            ground (arith, free),
          ),
        )

    ends :
        (o : Option Text)
        → ((k : Text) → o ≡ some k → Fits index none k)
        → Ensures P (Fits index none) (or_no_key o)
    ends none h = Ensures-throw _
    ends (some k) h = Ensures-pure k (h k refl)

pub upsert_locked-Consistent :
    (limit : ℕ) (world : World) (index : AccountIndex) (s : Session)
    → 4 ≤ limit
    → Valid limit index
    → Ensures (Consistent limit) (λ _. Unit {0}) (upsert_locked world index s)
unfolding upsert_locked
upsert_locked-Consistent limit world index s room valid =
    let it = find (has_id s.account_id) index.accounts in
    Ensures-bind (check _ _) _ (Ensures-check _ _) λ _ stable.
      Ensures-bind (check _ _) _ (Ensures-check _ _) λ _ space.
        Ensures-bind (new_key world index it) _ (new_key-Fits (Consistent limit) world index it)
          λ k fits.
            Ensures-bind (save_secret world k s) _ (save_secret-Consistent limit world k s) λ _ _.
              Ensures-bind (load_secret k) _ (load_secret-Consistent limit k) λ verify _.
                Ensures-bind (check _ _) _ (Ensures-check _ _) λ _ _.
                  Ensures-bind (write_index world _) _
                    (write_index-Consistent limit world _ (
                      upserted-Valid limit world k s index it refl (and_left _ _ stable) fits.0
                        fits.1 (λ new. ground (arith, space, new, room)) valid))
                    λ _ _. Ensures-pure k tt
