-- ===== src/Accounts/Leaving.antt =====
-- `AccountVault::sign_out` and `remove` of src/common/meta/accounts.cpp: the account gives no session
-- any more, and the other accounts stay as they are.
use rift_lift.Common.{
  ap, ℕ, true, false, not, List, [], ◌∷◌, Option, none, some, Text, text_eq, text_eq_iff, keep,
  Result, ok, ◌≡◌, refl, sym, ◌∙◌, subst, arith, Bool-cases, inl, inr, ◌⊎◌,
}
use rift_lift.Names.{valid_account_key}
use rift_lift.Exec.{◌>>=◌, ◌>>◌, check-run}
use rift_lift.Accounts.Vault.{
  Session, Account, AccountIndex, Slot, no_slot, stored, Vault, slot_of, change_slot, World,
  clear_secret, Content, unreached,
}
use rift_lift.Accounts.Index.{has_key, find_account, parse_index, read_index, json_of, write_index}
use rift_lift.Accounts.Requests.{check_key, usable_in, load, known, removed, remove}
use rift_lift.Accounts.Valid.{Valid, Consistent, parse-json_of, read-Valid}
use rift_lift.Accounts.Keeping.{removed-Valid}
use rift_lift.Accounts.Runs.{
  session_for, load-eq, write_index-eq_ok, read-run, clear_secret-run, slot_of-change_slot,
}

-- What `w` is after the account of `k` has left `v`.
abbrev pub Left : World → Text → Vault → Vault → Type 0
Left world k v w =
    ((load k w).0 ≡ ok none)
    × ((slot_of k w.slots).marker ≡ false)
    × ((slot_of k w.slots ≡ no_slot) ⊎ ((kept : Content) × (world.clearing k ≡ unreached kept)))
    × ((j : Text) → text_eq j k ≡ false → (load j w).0 ≡ (load j v).0)

find_account-keep :
    (j k : Text) (rows : List Account)
    → text_eq j k ≡ false
    → find_account j (keep (λ a. not (has_key k a)) rows) ≡ find_account j rows
unfolding find_account
find_account-keep j k [] h = refl
find_account-keep j k (a ∷ rows) h = elim (Bool-cases (has_key k a)) [
  | inl gone ↦
      let other : text_eq a.key j ≡ false =
        ground (arith, h, gone, text_eq_iff a.key k, text_eq_iff a.key j, text_eq_iff j k) in
      rw (gone, other) (find_account-keep j k rows h)
  | inr stays ↦ rw (stays, find_account-keep j k rows h) refl
]

find_account-gone :
    (k : Text) (rows : List Account) → find_account k (keep (λ a. not (has_key k a)) rows) ≡ none
unfolding find_account
find_account-gone k [] = refl
find_account-gone k (a ∷ rows) = elim (Bool-cases (has_key k a)) [
  | inl gone ↦ rw gone (find_account-gone k rows)
  | inr stays ↦ rw (stays, stays) (find_account-gone k rows)
]

-- Of a slot that is changed either what was given is there, or there was no slot and is none.
slot_of-changed :
    (k : Text) (s : Slot) (slots : List (Text × Slot))
    → (slot_of k (change_slot k s slots) ≡ s) ⊎ (slot_of k (change_slot k s slots) ≡ no_slot)
unfolding slot_of change_slot
slot_of-changed k s [] = inr refl
slot_of-changed k s ((j, s') ∷ rest) = elim (Bool-cases (text_eq j k)) [
  | inl here ↦ inl (rw (here, here) refl)
  | inr later ↦ rw (later, later) (slot_of-changed k s rest)
]

changed-marker :
    (k : Text) (s : Slot) (slots : List (Text × Slot))
    → s.marker ≡ false
    → (slot_of k (change_slot k s slots)).marker ≡ false
changed-marker k s slots h = elim (slot_of-changed k s slots) [
  | inl e ↦ ap (λ t. t.marker) e ∙ h
  | inr e ↦ ap (λ t. t.marker) e
]

changed-no_slot :
    (k : Text) (s : Slot) (slots : List (Text × Slot))
    → s ≡ no_slot
    → slot_of k (change_slot k s slots) ≡ no_slot
changed-no_slot k s slots h = elim (slot_of-changed k s slots) [ inl e ↦ e ∙ h | inr e ↦ e ]

session_for-unusable :
    (it : Option Account) (r : Result (Option Session))
    → usable_in it ≡ false
    → session_for it r ≡ ok none
session_for-unusable none r h = refl
session_for-unusable (some a) r h = rw h refl

-- The account of `k` cannot be used in the new index, and the others are found as before.
left :
    (limit : ℕ) (world : World) (k : Text) (v w : Vault) (idx idx' : AccountIndex) (slot : Slot)
    → parse_index v.index ≡ ok idx
    → Valid limit idx'
    → valid_account_key k ≡ true
    → usable_in (find_account k idx'.accounts) ≡ false
    → ((j : Text)
        → text_eq j k ≡ false
        → find_account j idx'.accounts ≡ find_account j idx.accounts)
    → slot.marker ≡ false
    → (slot ≡ no_slot) ⊎ ((kept : Content) × (world.clearing k ≡ unreached kept))
    → w ≡ record {
      index = stored (json_of idx');
      slots = change_slot k slot v.slots;
      legacy = v.legacy;
    }
    → Left world k v w
left limit world k v w idx idx' slot e valid key gone others unmarked emptied made =
    subst (Left world k v) (sym made) (
      load-eq k _ idx' read ∙ rw key (session_for-unusable _ _ gone),
      changed-marker k slot v.slots unmarked,
      elim emptied [ inl e ↦ inl (changed-no_slot k slot v.slots e) | inr kept ↦ inr kept ],
      λ j h.
          load-eq j _ idx' read
          ∙ rw (others j h, slot_of-change_slot j k slot v.slots h) refl
          ∙ sym (load-eq j v idx e),
    )
  where
    read : parse_index (stored (json_of idx')) ≡ ok idx'
    read = parse-json_of limit idx' valid

-- Both requests check the key, read the index, clear the credential and write the new index.
leave-Left :
    (limit : ℕ) (world : World) (k : Text) (v w : Vault) (change : AccountIndex → AccountIndex)
    → ((idx : AccountIndex) → Valid limit idx → Valid limit (change idx))
    → ((idx : AccountIndex) → usable_in (find_account k (change idx).accounts) ≡ false)
    → ((idx : AccountIndex) (j : Text)
        → text_eq j k ≡ false
        → find_account j (change idx).accounts ≡ find_account j idx.accounts)
    → Consistent limit v
    → (do
      check_key k
      idx ← read_index
      known k idx
      clear_secret world k
      write_index world (change idx))
        v
      ≡ (ok tt, w)
    → Left world k v w
leave-Left limit world k v w change valid gone others c e = check-run _ _ _ v tt w e λ key r1.
    read-run _ v w tt r1 λ idx read r2. check-run _ _ _ v tt w r2 λ _ r3.
      clear_secret-run world k _ v w tt r3 λ slot unmarked emptied r4.
        left limit world k v w idx (change idx) slot read
          (valid idx (read-Valid limit v c idx read)) key (gone idx) (others idx) unmarked emptied
          (write_index-eq_ok world (change idx) _ w tt r4)

-- `remove` does the same, and takes the account out of the index.
pub remove-Left :
    (limit : ℕ) (world : World) (k : Text) (v w : Vault)
    → Consistent limit v
    → remove world k v ≡ (ok tt, w)
    → Left world k v w
unfolding remove
remove-Left limit world k v w c e =
    leave-Left limit world k v w (removed k) (removed-Valid limit k)
      (λ idx. rw (find_account-gone k idx.accounts) refl)
      (λ idx j h. find_account-keep j k idx.accounts h) c e
