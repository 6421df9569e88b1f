-- ===== src/Steam/Icons.antt =====
-- The last part of `sync` (src/common/steam_library.cpp): the icons of installed pictures, and whether
-- the file is written.
use rift_lift.Common.{
  false, ℕ, zero, suc, ◌+◌, ◌≤◌, Bool, true, ◌&&◌, List, [], ◌∷◌, ◌++◌, Option, none, some, Text,
  codes, text_eq, map, length, ok, err, ◌≡◌, ◌≢◌, refl, ap, sym, ◌∙◌, subst, arith, Bool-cases, inl,
  inr, bind-eq_ok, ok-injective,
}
use rift_lift.Steam.Vdf.{Vdf}
use rift_lift.Steam.Fields.{put}
use rift_lift.Steam.Draft.{Art}
use rift_lift.Steam.Sync.{
  unchanged, written, put_at, install_icon, install_arts, same_file, bytes_of, finish_sync,
}
use rift_lift.Steam.Options.{options_key, face, face-put}
use rift_lift.Steam.Appended.{From}

-- An icon is put into an entry behind those that the list had.
put_at-behind :
    (i : ℕ) (k v : Text) (old added r : List Vdf)
    → text_eq k options_key ≡ false
    → length old ≤ i
    → put_at i k v (old ++ added) ≡ ok r
    → (added' : List Vdf) × (r ≡ old ++ added')
      × (map face added' ≡ map face added)
      × (length added' ≡ length added)
unfolding put_at
put_at-behind i k v [] [] r other l h = ([], sym (ok-injective h), refl, refl)
put_at-behind zero k v [] (n ∷ ns) r other l h =
    let (n', p, h1) = bind-eq_ok (put k v 1 n) _ _ h in
    (n' ∷ ns, sym (ok-injective h1), ap (λ x. x ∷ map face ns) (face-put k v 1 n n' other p), refl)
put_at-behind (suc i) k v [] (n ∷ ns) r other l h =
    let (ns', p, h1) = bind-eq_ok (put_at i k v ns) _ _ h in
    let (added', same, keys, count) = put_at-behind i k v [] ns ns' other (omega arith) p in
    (
      n ∷ added',
      sym (ok-injective h1) ∙ ap (λ ms. n ∷ ms) same,
      ap (λ ks. face n ∷ ks) keys,
      ap suc count,
    )
put_at-behind zero k v (m ∷ ms) added r other l h = absurd (omega arith)
put_at-behind (suc i) k v (m ∷ ms) added r other l h =
    let (rest, p, h1) = bind-eq_ok (put_at i k v (ms ++ added)) _ _ h in
    let (added', same, keys, count) = put_at-behind i k v ms added rest other (omega arith) p in
    (added', sym (ok-injective h1) ∙ ap (λ ns. m ∷ ns) same, keys, count)

icon_key : text_eq (codes "icon") options_key ≡ false
unfolding text_eq
icon_key = refl

module _ (probe : ℕ → Bool) (installs : Art → Bool) where
  install_icon-behind :
      (a : Art) (old added r : List Vdf)
      → length old ≤ a.index
      → install_icon probe installs a (old ++ added) ≡ ok r
      → (added' : List Vdf) × (r ≡ old ++ added')
        × (map face added' ≡ map face added)
        × (length added' ≡ length added)
  install_icon-behind a old added r l h = elim (Bool-cases (installs a && a.is_for_icon)) [
    | inl set ↦
        put_at-behind a.index (codes "icon") a.destination old added r icon_key l (rw set at h)
    | inr not_set ↦ (added, sym (ok-injective (rw not_set at h)), refl, refl)
  ]

  pub install_arts-behind :
      (call : ℕ) (arts : List Art) (old added r : List Vdf)
      → From (length old) arts
      → install_arts probe installs call arts (old ++ added) ≡ ok (some r)
      → (added' : List Vdf) × (r ≡ old ++ added')
        × (map face added' ≡ map face added)
        × (length added' ≡ length added)
  unfolding install_arts
  install_arts-behind call [] old added r f h =
      (added, sym (some-injective (ok-injective h)), refl, refl)
    where
      some-injective : {a b : List Vdf} → some a ≡ some b → a ≡ b
      some-injective e = cc
  install_arts-behind call (a ∷ arts) old added r (l, f) h = elim (Bool-cases (probe call)) [
    | inl running ↦ absurd (not_some (rw (running, install_arts) at h))
    | inr closed ↦
        let (next, p, h1) =
          bind-eq_ok (install_icon probe installs a (old ++ added)) _ _
            (rw (closed, install_arts) at h) in
        let (added', same, keys, count) = install_icon-behind a old added next l p in
        let (added2, same2, keys2, count2) =
          install_arts-behind (call + 1) arts old added' r f
            (subst (λ es. install_arts probe installs (call + 1) arts es ≡ ok (some r)) same h1) in
        (added2, same2, keys2 ∙ keys, count2 ∙ count)
  ]
    where
      not_some : ok none ≢ ok (some r)
      not_some e = absurd cc

  pub finish_sync-written :
      (bytes : Text) (count : ℕ) (old now : Option Text) (new : Text) (n : ℕ)
      → finish_sync probe installs bytes count old now ≡ ok (written new n)
      → (bytes ≡ new) × (count ≡ n) × (same_file probe installs old now ≡ true)
  unfolding finish_sync
  finish_sync-written bytes count old now new n h =
      elim (Bool-cases (text_eq bytes (bytes_of probe installs old))) [
        | inl same ↦ absurd (not_written (rw same at h))
        | inr differ ↦ elim (Bool-cases (same_file probe installs old now)) [
          | inr changed ↦ absurd (not_ok (rw (differ, changed) at h))
          | inl still ↦
              let e = ok-injective (rw (differ, still) at h) in
              (first_injective e, second_injective e, still)
        ]
      ]
    where
      not_written : ok (unchanged count) ≢ ok (written new n)
      not_written e = absurd cc

      not_ok : {what : Text} → err what ≢ ok (written new n)
      not_ok e = absurd cc

      first_injective : written bytes count ≡ written new n → bytes ≡ new
      first_injective e = cc

      second_injective : written bytes count ≡ written new n → count ≡ n
      second_injective e = cc
