-- ===== src/Accounts/Valid.antt =====
-- Which account indexes src/common/meta/accounts.cpp reads, and that what it writes is one of them.
use rift_lift.Common.{
  ℕ, ◌≤◌, true, ◌||◌, List, [], Text, is_empty, count_if, ok, ◌≡◌, refl, ap, sym, ◌∙◌, subst, arith,
  Bool-cases, inl, inr, ok-injective,
}
use rift_lift.Exec.{Ensures}
use rift_lift.Accounts.Vault.{
  Account, AccountIndex, IndexFile, missing, damaged, stored, Vault, World,
}
use rift_lift.Accounts.Index.{
  signed, check_rows, selected, parse_index, read_index, json_of, write_index,
}
use rift_lift.Accounts.Rows.{Same, check_rows-Same, found-Same}

-- The keys and the ids are valid and differ, the accounts that are selected are there, and not more
-- accounts than the limit are signed in.
pub record Valid (limit : ℕ) (index : AccountIndex) : Type 0 where
  pub rows : check_rows [] [] index.accounts ≡ true
  pub has_primary : selected index.primary index.accounts ≡ true
  pub has_active : selected index.active index.accounts ≡ true
  pub few : count_if signed index.accounts ≤ limit

-- The file is not there, or is a valid index.
abbrev pub ConsistentFile : ℕ → IndexFile → Type 0
ConsistentFile limit missing = Unit
ConsistentFile limit (damaged what) = ⊥
ConsistentFile limit (stored j) = (index : AccountIndex) × (j ≡ json_of index) × Valid limit index

abbrev pub Consistent : ℕ → Vault → Type 0
Consistent limit v = ConsistentFile limit v.index

-- A valid index is read as it was written.
pub parse-json_of :
    (limit : ℕ) (index : AccountIndex)
    → Valid limit index
    → parse_index (stored (json_of index)) ≡ ok index
unfolding parse_index
parse-json_of limit index valid = rw (valid.rows, valid.has_primary, valid.has_active) refl

Valid-none : (limit : ℕ) → Valid limit (record { primary = []; active = []; accounts = [] })
unfolding check_rows
Valid-none limit = record { rows = refl; has_primary = refl; has_active = refl; few = omega arith }

pub parse_index-Valid :
    (limit : ℕ) (f : IndexFile)
    → ConsistentFile limit f
    → (index : AccountIndex) × (parse_index f ≡ ok index) × Valid limit index
parse_index-Valid limit missing c = (
  record { primary = []; active = []; accounts = [] },
  unfold parse_index in refl,
  Valid-none limit,
)
parse_index-Valid limit (damaged what) c = absurd c
parse_index-Valid limit (stored j) (index, e, valid) =
    (index, ap (λ j. parse_index (stored j)) e ∙ parse-json_of limit index valid, valid)

-- What is read from a consistent file.
pub read-Valid :
    (limit : ℕ) (v : Vault)
    → Consistent limit v
    → (index : AccountIndex) → parse_index v.index ≡ ok index
    → Valid limit index
read-Valid limit v c index e =
    let (index', e', valid) = parse_index-Valid limit v.index c in
    subst (Valid limit) (ok-injective (sym e' ∙ e)) valid

pub read_index-Valid : (limit : ℕ) → Ensures (Consistent limit) (Valid limit) read_index
unfolding read_index
read_index-Valid limit = record { at = λ v c. (c, λ index e. read-Valid limit v c index e) }

pub write_index-Consistent :
    (limit : ℕ) (world : World) (index : AccountIndex)
    → Valid limit index
    → Ensures (Consistent limit) (λ _. Unit {0}) (write_index world index)
unfolding write_index
write_index-Consistent limit world index valid = record {
  at = λ v c. elim (Bool-cases (world.writes index)) [
    | inl written ↦ rw written ((index, refl, valid), λ a e. tt)
    | inr failed ↦ rw failed (c, λ a e. tt)
  ];
}

-- Changes that leave keys and ids as they are.
pub Same-Valid :
    (limit limit' : ℕ) (index : AccountIndex) (primary active : Text) (rows : List Account)
    → Valid limit index
    → Same index.accounts rows
    → selected primary index.accounts ≡ true
    → selected active index.accounts ≡ true
    → count_if signed rows ≤ limit'
    → Valid limit' (record { primary = primary; active = active; accounts = rows })
Same-Valid limit limit' index primary active rows valid same p a few = record {
  rows = check_rows-Same [] [] same ∙ valid.rows;
  has_primary = selected-Same primary p;
  has_active = selected-Same active a;
  few = few;
}
  where
    selected-Same : (k : Text) → selected k index.accounts ≡ true → selected k rows ≡ true
    selected-Same k h = ap (λ b. is_empty k || b) (found-Same k same) ∙ h
