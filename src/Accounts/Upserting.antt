-- ===== src/Accounts/Upserting.antt =====
-- What `AccountVault::upsert_locked` of src/common/meta/accounts.cpp changes, and the account of its key.
use rift_lift.Common.{
  ℕ, Bool, true, false, List, [], ◌∷◌, ◌++◌, Option, none, some, Text, text_eq, text_eq_iff,
  text_eq_refl, find, find-holds, contains, update_first, ok, ◌≡◌, refl, ap, sym, ◌∙◌, subst, arith,
  and_right, Bool-cases, inl, inr,
}
use rift_lift.Names.{valid_account_key}
use rift_lift.Exec.{Exec, pure, ◌>>=◌, failed, bind-run, gets-run}
use rift_lift.Accounts.Vault.{
  Session, Account, AccountIndex, Slot, Vault, slot_of, set_slot, Saving, saved, refused, unmarked,
  garbled, World, save_secret, save_as, plain_of,
}
use rift_lift.Accounts.Index.{
  has_key, has_id, found, find_account, check_rows, write_index, reconciled, write_if,
  reconcile_locked,
}
use rift_lift.Accounts.Requests.{usable, new_key, sign_in, with_account}
use rift_lift.Accounts.Valid.{Valid}
use rift_lift.Accounts.Joining.{Fits, new_key-Fits}
use rift_lift.Accounts.Runs.{write_index-eq_ok}

slot_of-set_slot :
    (j k : Text) (slot : Slot) (slots : List (Text × Slot))
    → text_eq j k ≡ false
    → slot_of j (set_slot k slot slots) ≡ slot_of j slots
unfolding slot_of set_slot
slot_of-set_slot j k slot [] h =
    let other : text_eq k j ≡ false = ground (arith, h, text_eq_iff k j, text_eq_iff j k) in
    rw other refl
slot_of-set_slot j k slot ((i, s) ∷ rest) h = elim (Bool-cases (text_eq i k)) [
  | inl same ↦
      let other : text_eq i j ≡ false =
        ground (arith, h, same, text_eq_iff i k, text_eq_iff i j, text_eq_iff j k) in
      rw (same, other) refl
  | inr apart ↦ rw (apart, slot_of-set_slot j k slot rest h) refl
]

-- What saving and reconciling leave as it is.
pub save_secret-eq_ok :
    (world : World) (k : Text) (s : Session) (v w : Vault) (a : Unit {0})
    → save_secret world k s v ≡ (ok a, w)
    → (w.legacy ≡ v.legacy)
      × ((j : Text) → text_eq j k ≡ false → slot_of j w.slots ≡ slot_of j v.slots)
unfolding save_secret
save_secret-eq_ok world k s v w a e = went (world.saving k) e
  where
    went :
        (saving : Saving)
        → save_as saving k (plain_of world k s) v ≡ (ok a, w)
        → (w.legacy ≡ v.legacy)
          × ((j : Text) → text_eq j k ≡ false → slot_of j w.slots ≡ slot_of j v.slots)
    went saved e = (
      sym (ap (λ r. r.1.legacy) e),
      λ j h. ap (λ r. slot_of j r.1.slots) (sym e) ∙ slot_of-set_slot j k _ v.slots h,
    )
    went refused e = absurd (failed e)
    went unmarked e = absurd (failed e)
    went (garbled other) e = (
      sym (ap (λ r. r.1.legacy) e),
      λ j h. ap (λ r. slot_of j r.1.slots) (sym e) ∙ slot_of-set_slot j k _ v.slots h,
    )

pub reconcile_locked-eq_ok :
    (world : World) (idx idx' : AccountIndex) (v w : Vault)
    → reconcile_locked world idx v ≡ (ok idx', w)
    → (w.slots ≡ v.slots) × (w.legacy ≡ v.legacy)
unfolding reconcile_locked pure
reconcile_locked-eq_ok world idx idx' v w e =
    went (reconciled v idx).0 (reconciled v idx).1 (gets-run _ (write_if world) v idx' w e)
  where
    went :
        (index : AccountIndex) (changed : Bool)
        → write_if world (index, changed) v ≡ (ok idx', w)
        → (w.slots ≡ v.slots) × (w.legacy ≡ v.legacy)
    went index false e = (sym (ap (λ r. r.1.slots) e), sym (ap (λ r. r.1.legacy) e))
    went index true e = bind-run _ v idx' w (write_index world index) e λ a u eu r.
        let made = write_index-eq_ok world index v u a eu in
        (
          sym (ap (λ r. r.1.slots) r) ∙ ap (λ u. u.slots) made,
          sym (ap (λ r. r.1.legacy) r) ∙ ap (λ u. u.legacy) made,
        )

-- The row of the account that has signed in.
later_key :
    (p : Account → Bool) (keys ids : List Text) (rows : List Account) (a : Account)
    → check_rows keys ids rows ≡ true
    → find p rows ≡ some a
    → contains keys a.key ≡ false
unfolding check_rows
later_key p keys ids [] a h e = absurd cc
later_key p keys ids (b ∷ rows) a h e = elim (Bool-cases (p b)) [
  | inl here ↦ ground (arith, h, e, here)
  | inr later ↦
      let other : contains (b.key ∷ keys) a.key ≡ false =
        later_key p (b.key ∷ keys) (b.account_id ∷ ids) rows a (and_right _ _ h) (rw later at e) in
      ground (arith, other)
]

find_account-sign_in :
    (p : Account → Bool) (now : Text) (keys ids : List Text) (rows : List Account) (a : Account)
    → check_rows keys ids rows ≡ true
    → find p rows ≡ some a
    → find_account a.key (update_first p (sign_in now) rows) ≡ some (sign_in now a)
unfolding check_rows find_account
find_account-sign_in p now keys ids [] a h e = absurd cc
find_account-sign_in p now keys ids (b ∷ rows) a h e = elim (Bool-cases (p b)) [
  | inl here ↦
      let same : b ≡ a = some-injective (rw here at e) in
      let key : has_key a.key b ≡ true = ap (λ c. text_eq c.key a.key) same ∙ text_eq_refl a.key in
      rw (here, key) (ap (λ c. some (sign_in now c)) same)
  | inr later ↦
      let seen : contains (b.key ∷ keys) a.key ≡ false =
        later_key p (b.key ∷ keys) (b.account_id ∷ ids) rows a (and_right _ _ h) (rw later at e) in
      let other : has_key a.key b ≡ false = ground (arith, seen) in
      rw (later, other)
        (find_account-sign_in p now (b.key ∷ keys) (b.account_id ∷ ids) rows a (and_right _ _ h)
          (rw later at e))
]
  where
    some-injective : {a b : Account} → some a ≡ some b → a ≡ b
    some-injective e = cc

find_account-append :
    (rows : List Account) (a : Account)
    → found a.key rows ≡ false
    → find_account a.key (rows ++ a ∷ []) ≡ some a
unfolding find_account
find_account-append [] a h = rw (text_eq_refl a.key) refl
find_account-append (b ∷ rows) a h = ground (arith, h, find_account-append rows a)

-- The account of the key in the new index.
pub upserted-usable :
    (limit : ℕ) (world : World) (k : Text) (s : Session) (index : AccountIndex)
    (it : Option Account)
    → find (has_id s.account_id) index.accounts ≡ it
    → Fits index it k
    → Valid limit index
    → (a : Account) × (find_account k (with_account world k s it index.accounts) ≡ some a)
      × (usable a ≡ true)
      × (a.account_id ≡ s.account_id)
upserted-usable limit world k s index none e fits valid =
    (_, find_account-append index.accounts _ (fits.1 refl).1, refl, refl)
upserted-usable limit world k s index (some a) e fits valid = (
  sign_in world.now a,
  ap (λ k. find_account k (update_first (has_id s.account_id) (sign_in world.now) index.accounts))
        (fits.0 a refl)
      ∙ find_account-sign_in (has_id s.account_id) world.now [] [] index.accounts a valid.rows e,
  refl,
  (text_eq_iff a.account_id s.account_id).0 (find-holds (has_id s.account_id) index.accounts a e),
)

found-account_key :
    (p : Account → Bool) (keys ids : List Text) (rows : List Account) (a : Account)
    → check_rows keys ids rows ≡ true
    → find p rows ≡ some a
    → valid_account_key a.key ≡ true
unfolding check_rows
found-account_key p keys ids [] a h e = absurd cc
found-account_key p keys ids (b ∷ rows) a h e = elim (Bool-cases (p b)) [
  | inl here ↦ ground (arith, h, rw here at e)
  | inr later ↦
      found-account_key p (b.key ∷ keys) (b.account_id ∷ ids) rows a (and_right _ _ h)
        (rw later at e)
]

pub upserted-account_key :
    (limit : ℕ) (k : Text) (s : Session) (index : AccountIndex) (it : Option Account)
    → find (has_id s.account_id) index.accounts ≡ it
    → Fits index it k
    → Valid limit index
    → valid_account_key k ≡ true
upserted-account_key limit k s index none e fits valid = (fits.1 refl).0
upserted-account_key limit k s index (some a) e fits valid =
    subst (λ k. valid_account_key k ≡ true) (sym (fits.0 a refl))
      (found-account_key (has_id s.account_id) [] [] index.accounts a valid.rows e)

pub new_key-run :
    {B C : Type 0} (world : World) (index : AccountIndex) (it : Option Account)
    (f : Text → Exec Vault B) (v w : Vault) (b : B)
    → (new_key world index it >>= f) v ≡ (ok b, w)
    → ((k : Text) → Fits index it k → f k v ≡ (ok b, w) → C)
    → C
new_key-run world index it f v w b e h = bind-run f v b w (new_key world index it) e λ k u eu r.
    let (same, fits) = (new_key-Fits (λ u. u ≡ v) world index it).at v refl in
    h k (fits k (ap (λ r. r.0) eu))
      (subst (λ u. f k u ≡ (ok b, w)) (sym (ap (λ r. r.1) eu) ∙ same) r)
