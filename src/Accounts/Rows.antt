-- ===== src/Accounts/Rows.antt =====
-- The rows of the account index under the changes that the requests of
-- src/common/meta/accounts.cpp make.
use rift_lift.Common.{
  suc, ◌≤◌, Bool, true, false, not, ◌&&◌, List, [], ◌∷◌, ◌++◌, map, some, Text, any, find, keep,
  count_if, update_first, contains, ◌≡◌, refl, ap, arith, and_right, Bool-cases, inl, inr,
}
use rift_lift.Names.{valid_account_key}
use rift_lift.Accounts.Vault.{Account}
use rift_lift.Accounts.Index.{account_id, has_id, signed, found, check_rows, find_account}

-- The same keys and account ids, in the same order.
pub data Same : List Account → List Account → Type 0 where
  done : Same [] []
  next :
      {a b : Account} {rows rows' : List Account}
      → b.key ≡ a.key
      → b.account_id ≡ a.account_id
      → Same rows rows'
      → Same (a ∷ rows) (b ∷ rows')

pub Same-refl : (rows : List Account) → Same rows rows
Same-refl [] = done
Same-refl (a ∷ rows) = next refl refl (Same-refl rows)

pub Same-map :
    (f : Account → Account)
    → ((a : Account) → ((f a).key ≡ a.key) × ((f a).account_id ≡ a.account_id))
    → (rows : List Account) → Same rows (map f rows)
Same-map f h [] = done
Same-map f h (a ∷ rows) = next (h a).0 (h a).1 (Same-map f h rows)

pub Same-update_first :
    (p : Account → Bool) (f : Account → Account)
    → ((a : Account) → ((f a).key ≡ a.key) × ((f a).account_id ≡ a.account_id))
    → (rows : List Account) → Same rows (update_first p f rows)
Same-update_first p f h [] = done
Same-update_first p f h (a ∷ rows) = elim (Bool-cases (p a)) [
  | inl here ↦ rw here (next (h a).0 (h a).1 (Same-refl rows))
  | inr later ↦ rw later (next refl refl (Same-update_first p f h rows))
]

pub check_rows-Same :
    (keys ids : List Text) {rows rows' : List Account}
    → Same rows rows'
    → check_rows keys ids rows' ≡ check_rows keys ids rows
unfolding check_rows
check_rows-Same keys ids done = refl
check_rows-Same keys ids (next {a} {b} k i s) =
    rw (k, i)
      (ap
        (λ r.
          valid_account_key a.key
          && account_id a.account_id
          && not (contains keys a.key)
          && not (contains ids a.account_id)
          && r)
        (check_rows-Same (a.key ∷ keys) (a.account_id ∷ ids) s))

pub found-Same :
    (k : Text) {rows rows' : List Account} → Same rows rows' → found k rows' ≡ found k rows
found-Same k done = refl
found-Same k (next e i s) = cc (e, found-Same k s)

pub check_rows-append :
    (keys ids : List Text) (rows : List Account) (a : Account)
    → check_rows keys ids rows ≡ true
    → valid_account_key a.key ≡ true
    → account_id a.account_id ≡ true
    → contains keys a.key ≡ false
    → contains ids a.account_id ≡ false
    → found a.key rows ≡ false
    → any (has_id a.account_id) rows ≡ false
    → check_rows keys ids (rows ++ a ∷ []) ≡ true
unfolding check_rows
check_rows-append keys ids [] a h v i k j f g = rw (v, i, k, j) refl
check_rows-append keys ids (b ∷ rows) a h v i k j f g =
    ground (arith, h, k, j, f, g, check_rows-append (b.key ∷ keys) (b.account_id ∷ ids) rows a)

-- What is no longer among the names that have been seen.
abbrev Fewer : List Text → List Text → Type 0
Fewer fewer names = (t : Text) → contains names t ≡ false → contains fewer t ≡ false

Fewer-cons :
    (fewer names : List Text) (t : Text) → Fewer fewer names → Fewer (t ∷ fewer) (t ∷ names)
Fewer-cons fewer names t f u h = ground (arith, h, f u)

Fewer-skip : (fewer names : List Text) (t : Text) → Fewer fewer names → Fewer fewer (t ∷ names)
Fewer-skip fewer names t f u h = f u (ground (arith, h))

pub check_rows-keep :
    (p : Account → Bool) (keys ids keys' ids' : List Text) (rows : List Account)
    → Fewer keys' keys
    → Fewer ids' ids
    → check_rows keys ids rows ≡ true
    → check_rows keys' ids' (keep p rows) ≡ true
unfolding check_rows
check_rows-keep p keys ids keys' ids' [] f g h = refl
check_rows-keep p keys ids keys' ids' (a ∷ rows) f g h = elim (Bool-cases (p a)) [
  | inl kept ↦
      rw (kept, check_rows)
        (ground (
          arith,
          h,
          f a.key,
          g a.account_id,
          check_rows-keep p (a.key ∷ keys) (a.account_id ∷ ids) (a.key ∷ keys')
              (a.account_id ∷ ids') rows (Fewer-cons keys' keys a.key f)
              (Fewer-cons ids' ids a.account_id g),
        ))
  | inr left_out ↦ rw left_out (
      check_rows-keep p (a.key ∷ keys) (a.account_id ∷ ids) keys' ids' rows
        (Fewer-skip keys' keys a.key f) (Fewer-skip ids' ids a.account_id g) (and_right _ _ h))
]

-- Counting those that are signed in.
pub count_signed-append :
    (rows : List Account) (a : Account)
    → count_if signed (rows ++ a ∷ []) ≤ suc (count_if signed rows)
count_signed-append [] a = ground arith
count_signed-append (b ∷ rows) a = ground (arith, count_signed-append rows a)

pub count_signed-map :
    (f : Account → Account)
    → ((a : Account) → (f a).signed_in ≡ a.signed_in)
    → (rows : List Account) → count_if signed (map f rows) ≡ count_if signed rows
count_signed-map f h [] = refl
count_signed-map f h (a ∷ rows) = ground (arith, h a, count_signed-map f h rows)

pub count_signed-keep :
    (p : Account → Bool) (rows : List Account)
    → count_if signed (keep p rows) ≤ count_if signed rows
count_signed-keep p [] = omega arith
count_signed-keep p (a ∷ rows) = ground (arith, count_signed-keep p rows)

-- One account more can be signed in by the change of a row.
pub count_signed-update :
    (p : Account → Bool) (f : Account → Account) (rows : List Account)
    → count_if signed (update_first p f rows) ≤ suc (count_if signed rows)
count_signed-update p f [] = omega arith
count_signed-update p f (a ∷ rows) = ground (arith, count_signed-update p f rows)

-- None is signed in more where the change signs none in, or where the row that changes is signed in.
pub count_signed-update_le :
    (p : Account → Bool) (f : Account → Account) (rows : List Account)
    → ((a : Account) → find p rows ≡ some a → (f a).signed_in ≡ true → a.signed_in ≡ true)
    → count_if signed (update_first p f rows) ≤ count_if signed rows
count_signed-update_le p f [] h = omega arith
count_signed-update_le p f (a ∷ rows) h = elim (Bool-cases (p a)) [
  | inl here ↦ rw here (ground (arith, h a (rw here refl)))
  | inr later ↦ rw later (omega (arith, count_signed-update_le p f rows λ b e. h b (rw later e)))
]

pub find-found :
    (k : Text) (rows : List Account) (a : Account)
    → find_account k rows ≡ some a
    → found k rows ≡ true
unfolding find_account
find-found k [] a h = absurd cc
find-found k (b ∷ rows) a h = ground (arith, find-found k rows a)
