-- ===== src/Accounts/Keys.antt =====
-- The loop over `random_account_key` in `AccountVault::upsert_locked` of src/common/meta/accounts.cpp
-- ends.
use rift_lift.Common.{
  ℕ, zero, suc, ◌+◌, ◌≤◌, ◌<◌, Bool, false, ◌||◌, List, [], ◌∷◌, ◌++◌, map, none, some, Text,
  text_eq, any, length, contains, without, contains-without, length-without, ok, if◌then◌else◌, ◌≡◌,
  refl, ap, sym, ◌∙◌, arith, Bool-cases, inl, inr,
}
use rift_lift.Exec.{pure, gets, ◌>>=◌}
use rift_lift.Accounts.Vault.{Account, AccountIndex, Slot, Vault, World}
use rift_lift.Accounts.Index.{found}
use rift_lift.Accounts.Requests.{random_account_key, free_key, taken, tries, or_no_key, new_key}

-- The first `fuel` keys that are made differ.
abbrev pub Distinct : (ℕ → Text) → ℕ → Type 0
Distinct random fuel = (i j : ℕ) → i < j → j < fuel → text_eq (random i) (random j) ≡ false

-- The search depends on the keys that it tries.
free_key-agree :
    (random : ℕ → Text) (p q : Text → Bool) (fuel n : ℕ)
    → ((j : ℕ) → n ≤ j → j < n + fuel → p (random j) ≡ q (random j))
    → free_key random p fuel n ≡ free_key random q fuel n
unfolding free_key
free_key-agree random p q zero n h = refl
free_key-agree random p q (suc fuel) n h = rw (h n (omega arith) (omega arith)) (
    ap (λ later. if q (random n) then later else some (random n))
      (free_key-agree random p q fuel (n + 1) λ j a b. h j (omega (arith, a)) (omega (arith, b))))

free_key-Found :
    (random : ℕ → Text) (names : List Text) (fuel n : ℕ)
    → Distinct random (n + fuel)
    → length names < fuel
    → (k : Text) × (free_key random (contains names) fuel n ≡ some k)
unfolding free_key
free_key-Found random names zero n d h = absurd (omega (arith, h))
free_key-Found random names (suc fuel) n d h = elim (Bool-cases (contains names (random n))) [
  | inr free ↦ (random n, rw free refl)
  | inl met ↦
      let (k, e) =
        free_key-Found random (without (random n) names) fuel (n + 1)
          (λ i j a b. d i j a (omega (arith, b)))
          (omega (arith, h, length-without (random n) names met)) in
      (
        k,
        rw met (
            free_key-agree random (contains names) (contains (without (random n) names)) fuel
              (n + 1)
              (λ j a b. sym (
                contains-without (random n) (random j) names
                  (d n j (omega (arith, a)) (omega (arith, b)))))
            ∙ e),
      )
]

-- The keys of the index and the folders' names.
abbrev names_of : AccountIndex → Vault → List Text
names_of idx v = map (λ a. a.key) idx.accounts ++ map (λ s. s.0) v.slots

taken-names :
    (rows : List Account) (slots : List (Text × Slot)) (k : Text)
    → (found k rows || any (λ s. text_eq s.0 k) slots)
      ≡ contains (map (λ a. a.key) rows ++ map (λ s. s.0) slots) k
taken-names [] [] k = refl
taken-names [] ((j, s) ∷ slots) k = ap (λ b. text_eq j k || b) (taken-names [] slots k)
taken-names (a ∷ rows) slots k = ground (arith, taken-names rows slots k)

length-names :
    (rows : List Account) (slots : List (Text × Slot))
    → length (map (λ a. a.key) rows ++ map (λ s. s.0) slots) ≡ length rows + length slots
length-names [] [] = omega arith
length-names [] (s ∷ slots) = omega (arith, length-names [] slots)
length-names (a ∷ rows) slots = omega (arith, length-names rows slots)

-- Where the keys that are made differ, one of the first `tries` is free, so that a new account gets a
-- key: the loop has ended by then.
pub new_key-Found :
    (world : World) (idx : AccountIndex) (v : Vault)
    → Distinct (λ n. random_account_key (world.random n)) (tries idx v)
    → (k : Text) × (new_key world idx none v ≡ (ok k, v))
unfolding gets pure ◌>>=◌
new_key-Found world idx v d =
    let keys : ℕ → Text = λ n. random_account_key (world.random n) in
    let (k, e) =
      free_key-Found keys (names_of idx v) (tries idx v) 0 (λ i j a b. d i j a (omega (arith, b)))
        (omega (arith, length-names idx.accounts v.slots)) in
    (
      k,
      ap (λ o. or_no_key o v)
          (free_key-agree keys (taken idx v) (contains (names_of idx v)) (tries idx v) 0
              (λ j a b. taken-names idx.accounts v.slots (keys j))
            ∙ e),
    )
