-- ===== src/Accounts/Runs.antt =====
-- How the requests of src/common/meta/accounts.cpp run when they return, and what `load` gives.
use rift_lift.Common.{
  ◌⊎◌, inl, inr, sym, false, refl, false, List, [], ◌∷◌, Option, none, some, Text, codes, text_eq,
  text_eq_iff, Result, ok, err, if◌then◌else◌, ◌≡◌, refl, ap, sym, subst, arith, Bool-cases, inl,
  inr,
}
use rift_lift.Names.{valid_account_key}
use rift_lift.Exec.{Exec, pure, throw, check, continue, ◌>>=◌, failed, bind-run}
use rift_lift.Accounts.Vault.{
  cleared, unreached, denied, stuck, Content, Slot, Session, Account, AccountIndex, Slot, no_slot,
  Clearing, cleared, denied, stuck, clear_as, with_slot, stored, Vault, slot_of, change_slot, World,
  secret_load, secret_clear, load_secret, clear_secret,
}
use rift_lift.Accounts.Index.{find_account, parse_index, read_index, json_of, write_index}
use rift_lift.Accounts.Requests.{slot_error, usable, bound, load_account, load}

-- What `load` gives, from the account of the key and what its slot gives.
abbrev pub bound_session : Account → Result (Option Session) → Result (Option Session)
bound_session a (err what) = err what
bound_session a (ok none) = err slot_error
bound_session a (ok (some s)) =
    if text_eq s.account_id a.account_id then ok (some s) else err slot_error

abbrev pub session_for : Option Account → Result (Option Session) → Result (Option Session)
session_for none r = ok none
session_for (some a) r = if usable a then bound_session a r else ok none

pub load-eq :
    (k : Text) (v : Vault) (idx : AccountIndex)
    → parse_index v.index ≡ ok idx
    → (load k v).0 ≡ (
        if valid_account_key k
        then session_for (find_account k idx.accounts) (secret_load k (slot_of k v.slots))
        else err (codes "Invalid account key."))
unfolding load ◌>>=◌ check pure throw read_index load_secret
load-eq k v idx e = elim (Bool-cases (valid_account_key k)) [
  | inr invalid ↦ rw invalid refl
  | inl valid ↦ rw (valid, e) (account (find_account k idx.accounts))
]
  where
    session :
        (a : Account) (r : Result (Option Session))
        → (continue r (λ s. bound a s >>= λ t. pure (some t)) v).0 ≡ bound_session a r
    session a (err what) = refl
    session a (ok none) = refl
    session a (ok (some s)) = elim (Bool-cases (text_eq s.account_id a.account_id)) [
      | inl same ↦ rw same refl
      | inr other ↦ rw other refl
    ]

    account :
        (it : Option Account)
        → (load_account k it v).0 ≡ session_for it (secret_load k (slot_of k v.slots))
    account none = refl
    account (some a) = elim (Bool-cases (usable a)) [
      | inl there ↦ rw there (session a (secret_load k (slot_of k v.slots)))
      | inr gone ↦ rw gone refl
    ]

pub write_index-eq_ok :
    (world : World) (idx : AccountIndex) (v w : Vault) (a : Unit {0})
    → write_index world idx v ≡ (ok a, w)
    → w ≡ record v { index = stored (json_of idx) }
unfolding write_index
write_index-eq_ok world idx v w a e = elim (Bool-cases (world.writes idx)) [
  | inl written ↦ sym (ap (λ r. r.1) (rw written at e))
  | inr unwritten ↦ absurd (failed (rw unwritten at e))
]

-- The slots of the other keys.
pub slot_of-change_slot :
    (j k : Text) (slot : Slot) (slots : List (Text × Slot))
    → text_eq j k ≡ false
    → slot_of j (change_slot k slot slots) ≡ slot_of j slots
unfolding slot_of change_slot
slot_of-change_slot j k slot [] h = refl
slot_of-change_slot j k slot ((i, s) ∷ rest) h = elim (Bool-cases (text_eq i k)) [
  | inl same ↦
      let other : text_eq i j ≡ false =
        ground (arith, h, same, text_eq_iff i k, text_eq_iff i j, text_eq_iff j k) in
      rw (same, other) refl
  | inr apart ↦ rw (apart, slot_of-change_slot j k slot rest h) refl
]

module _ {B C : Type 0} where
  pub read-run :
      (f : AccountIndex → Exec Vault B) (v w : Vault) (b : B)
      → (read_index >>= f) v ≡ (ok b, w)
      → ((idx : AccountIndex) → parse_index v.index ≡ ok idx → f idx v ≡ (ok b, w) → C)
      → C
  unfolding read_index
  read-run f v w b e h = bind-run f v b w read_index e λ idx v' e' r.
      h idx (ap (λ r. r.0) e') (subst (λ u. f idx u ≡ (ok b, w)) (sym (ap (λ r. r.1) e')) r)

  pub load_secret-run :
      (k : Text) (f : Option Session → Exec Vault B) (v w : Vault) (b : B)
      → (load_secret k >>= f) v ≡ (ok b, w)
      → ((t : Option Session) → secret_load k (slot_of k v.slots) ≡ ok t → f t v ≡ (ok b, w) → C)
      → C
  unfolding load_secret
  load_secret-run k f v w b e h = bind-run f v b w (load_secret k) e λ t v' e' r.
      h t (ap (λ r. r.0) e') (subst (λ u. f t u ≡ (ok b, w)) (sym (ap (λ r. r.1) e')) r)

  pub clear_secret-run :
      (world : World) (k : Text) (f : Unit {0} → Exec Vault B) (v w : Vault) (b : B)
      → (clear_secret world k >>= f) v ≡ (ok b, w)
      → ((left : Slot)
          → left.marker ≡ false
          → (left ≡ no_slot) ⊎ ((kept : Content) × (world.clearing k ≡ unreached kept))
          → f tt (record v { slots = change_slot k left v.slots }) ≡ (ok b, w)
          → C)
      → C
  unfolding clear_secret secret_clear ◌>>=◌
  clear_secret-run world k f v w b e h = went (world.clearing k) refl e
    where
      went :
          (c : Clearing)
          → world.clearing k ≡ c
          → (with_slot k (clear_as c (slot_of k v.slots)) >>= f) v ≡ (ok b, w)
          → C
      went cleared c e = h no_slot refl (inl refl) e
      went denied c e = absurd (failed e)
      went stuck c e = absurd (failed e)
      went (unreached kept) c e =
          h (record { marker = false; content = kept }) refl (inr (kept, c)) e
