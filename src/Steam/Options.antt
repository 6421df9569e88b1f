-- ===== src/Steam/Options.antt =====
-- The launch options of an entry that `sync` (src/common/steam_library.cpp) adds: which game the entry
-- starts.
use rift_lift.Common.{
  ℕ, false, List, [], ◌∷◌, ◌++◌, Option, none, some, Text, codes, text_eq, text_eq_refl,
  text_eq_iff, Result, ok, err, ◌≡◌, refl, ap, sym, ◌∙◌, subst, Bool-cases, inl, inr, bind-eq_ok,
  ok-injective, if◌then◌else◌, map,
}
use rift_lift.Steam.Vdf.{Vdf, vdf}
use rift_lift.Steam.Fields.{
  key, value, children, to_list, of_list, field, field_from, put, node, replace, with_children,
  replace_or_add,
}
use rift_lift.Steam.Shortcut.{Game, launch, fill, add_tags}
use rift_lift.Steam.Keys.{key-put}

abbrev pub options_key : Text
options_key = codes "LaunchOptions"

-- The value of the first of some fields that has the key.
unfoldable pub value_at : Text → List Vdf → Option Text
value_at k [] = none
value_at k (n ∷ ns) = if text_eq (key n) k then some (value n) else value_at k ns

-- The entry's LaunchOptions, with the zero at its end.
abbrev pub options : Vdf → Option Text
options n = value_at options_key (children n)

-- The key and the launch options of an entry.
abbrev pub face : Vdf → Text × Option Text
face n = (key n, options n)

-- What an entry that starts the package has there.
abbrev pub starts : Text → Option Text
starts p = some ((launch ++ p) ++ 0 ∷ [])

to_list-of_list : (ns : List Vdf) → to_list (of_list ns) ≡ ns
to_list-of_list [] = refl
to_list-of_list (n ∷ ns) = ap (λ ms. n ∷ ms) (to_list-of_list ns)

options-with_children :
    (ns : List Vdf) (n : Vdf) → options (with_children ns n) ≡ value_at options_key ns
options-with_children ns (vdf type k v old end) = ap (value_at options_key) (to_list-of_list ns)

value_at-append :
    (k : Text) (n : Vdf) (ns : List Vdf)
    → text_eq (key n) k ≡ false
    → value_at k (ns ++ n ∷ []) ≡ value_at k ns
unfolding value_at
value_at-append k n [] h = rw h refl
value_at-append k n (m ∷ ms) h = elim (Bool-cases (text_eq (key m) k)) [
  | inl here ↦ rw here refl
  | inr later ↦ rw later (value_at-append k n ms h)
]

value_at-replace :
    (k : Text) (n : Vdf) (ns : List Vdf)
    → text_eq (key n) k ≡ false
    → value_at k (replace n ns) ≡ value_at k ns
unfolding value_at replace
value_at-replace k n [] h = refl
value_at-replace k n (m ∷ ms) h = elim (Bool-cases (text_eq (key m) (key n))) [
  | inl same ↦
      let other : text_eq (key m) k ≡ false =
        subst (λ x. text_eq x k ≡ false) (sym ((text_eq_iff (key m) (key n)).0 same)) h in
      rw (same, h, other) refl
  | inr other ↦ elim (Bool-cases (text_eq (key m) k)) [
    | inl here ↦ rw (other, here) refl
    | inr later ↦ rw (other, later) (value_at-replace k n ms h)
  ]
]

value_at-other :
    (k : Text) (old : Option Vdf) (n : Vdf) (ns : List Vdf)
    → text_eq (key n) k ≡ false
    → value_at k (replace_or_add old n ns) ≡ value_at k ns
value_at-other k none n ns h = value_at-append k n ns h
value_at-other k (some old) n ns h = value_at-replace k n ns h

value_at-added :
    (n : Vdf) (ns : List Vdf)
    → field_from none (key n) ns ≡ ok none
    → value_at (key n) (ns ++ n ∷ []) ≡ some (value n)
unfolding value_at field_from
value_at-added n [] h = rw (text_eq_refl (key n)) refl
value_at-added n (m ∷ ms) h = elim (Bool-cases (text_eq (key m) (key n))) [
  | inl here ↦ absurd (found_stays m ms (rw here at h))
  | inr later ↦ rw later (value_at-added n ms (rw later at h))
]
  where
    refused : {what : Text} → ◌≡◌ {A = Result (Option Vdf)} (err what) (ok none) → ⊥
    refused h = cc

    found_stays : (m : Vdf) (ms : List Vdf) → field_from (some m) (key n) ms ≡ ok none → ⊥
    found_stays m [] h = cc
    found_stays m (x ∷ xs) h = elim (Bool-cases (text_eq (key x) (key n))) [
      | inl twice ↦ refused (rw twice at h)
      | inr once ↦ found_stays m xs (rw once at h)
    ]

value_at-replaced :
    (n old : Vdf) (ns : List Vdf)
    → field_from none (key n) ns ≡ ok (some old)
    → value_at (key n) (replace n ns) ≡ some (value n)
unfolding value_at field_from replace
value_at-replaced n old [] h = absurd cc
value_at-replaced n old (m ∷ ms) h = elim (Bool-cases (text_eq (key m) (key n))) [
  | inl here ↦ rw (here, text_eq_refl (key n)) refl
  | inr later ↦ rw (later, later) (value_at-replaced n old ms (rw later at h))
]

value_at-put :
    (old : Option Vdf) (n : Vdf) (ns : List Vdf)
    → field_from none (key n) ns ≡ ok old
    → value_at (key n) (replace_or_add old n ns) ≡ some (value n)
value_at-put none n ns h = value_at-added n ns h
value_at-put (some old) n ns h = value_at-replaced n old ns h

options-put : (v : Text) (n m : Vdf) → put options_key v 1 n ≡ ok m → options m ≡ some (v ++ 0 ∷ [])
unfolding put field
options-put v n m h =
    let (old, found, h1) = bind-eq_ok (field n options_key) _ _ h in
    ap options (sym (ok-injective h1))
    ∙ options-with_children (replace_or_add old (node options_key v 1) (children n)) n
    ∙ value_at-put old (node options_key v 1) (children n) found

-- Another field of an entry leaves its key and its options.
pub face-put :
    (k v : Text) (type : ℕ) (n m : Vdf)
    → text_eq k options_key ≡ false
    → put k v type n ≡ ok m
    → face m ≡ face n
unfolding put
face-put k v type n m other h =
    let (old, found, h1) = bind-eq_ok (field n k) _ _ h in
    let same : options m ≡ options n =
      ap options (sym (ok-injective h1))
      ∙ options-with_children (replace_or_add old (node k v type) (children n)) n
      ∙ value_at-other options_key old (node k v type) (children n) other in
    ap (λ x. (x, options m)) (key-put k v type n m h) ∙ ap (λ o. (key n, o)) same

options-add_tags : (tags : Option Vdf) (n : Vdf) → options (add_tags tags n) ≡ options n
unfolding text_eq
options-add_tags (some t) n = refl
options-add_tags none n =
    options-with_children _ n ∙ value_at-append options_key _ (children n) refl

-- A filled entry starts its game.
pub options-fill :
    (executable folder : Text) (g : Game) (id : ℕ) (n m : Vdf)
    → fill executable folder g id n ≡ ok m
    → options m ≡ starts g.package_name
unfolding fill text_eq
options-fill executable folder g id n m h =
    let (e1, p1, h1) = bind-eq_ok (put _ _ _ n) _ _ h in
    let (e2, p2, h2) = bind-eq_ok (put _ _ _ e1) _ _ h1 in
    let (e3, p3, h3) = bind-eq_ok (put _ _ _ e2) _ _ h2 in
    let (e4, p4, h4) = bind-eq_ok (put _ _ _ e3) _ _ h3 in
    let (e5, p5, h5) = bind-eq_ok (put _ _ _ e4) _ _ h4 in
    let (e6, p6, h6) = bind-eq_ok (put _ _ _ e5) _ _ h5 in
    let (e7, p7, h7) = bind-eq_ok (put _ _ _ e6) _ _ h6 in
    let (e8, p8, h8) = bind-eq_ok (put _ _ _ e7) _ _ h7 in
    let (tags, _, h9) = bind-eq_ok (field e8 _) _ _ h8 in
    ap options (sym (ok-injective h9))
    ∙ options-add_tags tags e8
    ∙ ap (λ f. f.1) (face-put _ _ _ e7 e8 refl p8)
    ∙ ap (λ f. f.1) (face-put _ _ _ e6 e7 refl p7)
    ∙ ap (λ f. f.1) (face-put _ _ _ e5 e6 refl p6)
    ∙ options-put _ e4 e5 p5

-- Entries with the same faces have the same keys and the same options.
pub map-face-key : (xs ys : List Vdf) → map face xs ≡ map face ys → map key xs ≡ map key ys
map-face-key xs ys h = keys xs ∙ ap (map (λ f. f.0)) h ∙ sym (keys ys)
  where
    keys : (xs : List Vdf) → map key xs ≡ map (λ f. f.0) (map face xs)
    keys [] = refl
    keys (x ∷ xs) = ap (λ ks. key x ∷ ks) (keys xs)

pub map-face-options :
    (xs ys : List Vdf) → map face xs ≡ map face ys → map options xs ≡ map options ys
map-face-options xs ys h = all_options xs ∙ ap (map (λ f. f.1)) h ∙ sym (all_options ys)
  where
    all_options : (xs : List Vdf) → map options xs ≡ map (λ f. f.1) (map face xs)
    all_options [] = refl
    all_options (x ∷ xs) = ap (λ os. options x ∷ os) (all_options xs)
