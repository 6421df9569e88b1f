-- ===== src/Steam/Appended.antt =====
-- What `sync` of src/common/steam_library.cpp does to the list of Steam's shortcuts.
use rift_lift.Common.{
  text_eq, ℕ, suc, ◌+◌, ◌≤◌, false, not, ◌||◌, List, [], ◌∷◌, ◌++◌, Option, Text, codes, is_empty,
  All, map, length, length-append, append_assoc, append-nil, ok, require, keep, contains,
  if◌then◌else◌, true, ◌≡◌, refl, ap, sym, ◌∙◌, subst, arith, Bool-cases, inl, inr, bind-eq_ok,
  then-eq_ok, ok-injective,
}
use rift_lift.Build.Names.{safe_package}
use rift_lift.Options.Decimal.{to_string}
use rift_lift.Steam.Vdf.{Vdf}
use rift_lift.Steam.Fields.{key, field, with_key}
use rift_lift.Steam.Shortcut.{Game, fill, id_of}
use rift_lift.Steam.Draft.{
  Owned, Kind, portrait, hero, logo, header, icon, Art, Progress, Pictures, free_index, prior_entry,
  put_icon, icon_field, has_icon, choose_art, add_arts, add_game, add_games, art_of, artwork_name,
}
use rift_lift.Steam.Keys.{Fresh, key-fill, key-with_key}
use rift_lift.Steam.Options.{options, starts, face, face-put, options-fill}
use rift_lift.Steam.Indices.{free_index-Free}

-- The pictures that are to be installed belong to entries from an index on.
abbrev pub From : ℕ → List Art → Type 0
From i = All (λ a. i ≤ a.index)

From-add : (i : ℕ) (arts : List Art) (a : Art) → From i arts → i ≤ a.index → From i (arts ++ a ∷ [])
From-add i [] a h k = (k, tt)
From-add i (b ∷ bs) a (h, hs) k = (h, From-add i bs a hs k)

Fresh-same : (keys : List Text) {ks ls : List Text} → ks ≡ ls → Fresh keys ks → Fresh keys ls
Fresh-same keys e h = subst (Fresh keys) e h

-- The packages of some games that may be launched.
abbrev pub safe_packages : List Game → List Text
safe_packages gs = keep safe_package (map (λ g. g.package_name) gs)

-- Each name of a list once, without those that have been seen before.
unfoldable pub firsts : List Text → List Text → List Text
firsts seen [] = []
firsts seen (p ∷ ps) = if contains seen p then firsts seen ps else p ∷ firsts (p ∷ seen) ps

firsts-skipped :
    (seen : List Text) (g : Game) (gs : List Game)
    → (not (safe_package g.package_name) || contains seen g.package_name) ≡ true
    → firsts seen (safe_packages (g ∷ gs)) ≡ firsts seen (safe_packages gs)
unfolding firsts
firsts-skipped seen g gs h = elim (Bool-cases (safe_package g.package_name)) [
  | inr refused ↦ rw refused refl
  | inl safe ↦ rw (safe, rw safe at h) refl
]

firsts-taken :
    (seen : List Text) (g : Game) (gs : List Game)
    → (not (safe_package g.package_name) || contains seen g.package_name) ≡ false
    → firsts seen (safe_packages (g ∷ gs))
      ≡ g.package_name ∷ firsts (g.package_name ∷ seen) (safe_packages gs)
unfolding firsts
firsts-taken seen g gs h = elim (Bool-cases (safe_package g.package_name)) [
  | inr refused ↦ absurd (no (rw refused at h))
  | inl safe ↦ rw (safe, rw safe at h) refl
]
  where
    no : true ≡ false → ⊥
    no e = cc

-- What the loop over games adds to the entries, with keys that were free.
abbrev pub Added : ℕ → List Game → Progress → Progress → Type 0
Added i gs s t =
    (added : List Vdf) × (t.retained ≡ s.retained ++ added)
    × Fresh s.keys (map key added)
    × (length t.packages ≡ length s.packages + length added)
    × (map options added ≡ map starts (firsts s.packages (safe_packages gs)))
    × From i t.artwork

module _ (executable folder : Text) (pictures : Pictures) where
  choose_art-keeps :
      (g : Game) (id index : ℕ) (kind : Kind) (own : Option Vdf) (e : Vdf) (arts : List Art) (i : ℕ)
      (r : Vdf × List Art)
      → i ≤ index
      → From i arts
      → choose_art executable folder pictures g id index kind own e arts ≡ ok r
      → (face r.0 ≡ face e) × From i r.1
  unfolding choose_art text_eq
  choose_art-keeps g id index kind own e arts i r l f h =
      elim (Bool-cases (has_icon pictures own)) [
        | inl custom ↦ stays (rw custom at h)
        | inr none_set ↦
            elim (Bool-cases
              (not (is_empty (pictures.present (pictures.path_of (artwork_name id kind)))))) [
                | inl there ↦
                    let (e', p, h1) =
                      bind-eq_ok (put_icon kind _ e) _ _ (rw (none_set, there) at h) in
                    subst (λ r. (face r.0 ≡ face e) × From i r.1) (ok-injective h1)
                      (icon_key kind _ e' p, f)
                | inr missing ↦ elim (Bool-cases (is_empty (pictures.best_art g.art_id kind))) [
                  | inl nothing ↦ stays (rw (none_set, missing, nothing) at h)
                  | inr source ↦
                      subst (λ r. (face r.0 ≡ face e) × From i r.1)
                        (ok-injective (rw (none_set, missing, source) at h))
                        (
                          refl,
                          From-add i arts (art_of executable folder pictures g id index kind) f l,
                        )
                ]
              ]
      ]
    where
      stays : ok (e, arts) ≡ ok r → (face r.0 ≡ face e) × From i r.1
      stays k = subst (λ r. (face r.0 ≡ face e) × From i r.1) (ok-injective k) (refl, f)

      icon_key :
          (kind : Kind) (path : Text) (e' : Vdf) → put_icon kind path e ≡ ok e' → face e' ≡ face e
      icon_key icon path e' p = face-put _ _ _ e e' refl p
      icon_key portrait path e' p = ap face (sym (ok-injective p))
      icon_key hero path e' p = ap face (sym (ok-injective p))
      icon_key logo path e' p = ap face (sym (ok-injective p))
      icon_key header path e' p = ap face (sym (ok-injective p))

  add_arts-keeps :
      (g : Game) (id index : ℕ) (kinds : List Kind) (e : Vdf) (arts : List Art) (i : ℕ)
      (r : Vdf × List Art)
      → i ≤ index
      → From i arts
      → add_arts executable folder pictures g id index kinds e arts ≡ ok r
      → (face r.0 ≡ face e) × From i r.1
  unfolding add_arts
  add_arts-keeps g id index [] e arts i r l f h =
      subst (λ r. (face r.0 ≡ face e) × From i r.1) (ok-injective h) (refl, f)
  add_arts-keeps g id index (kind ∷ kinds) e arts i r l f h =
      let (_, h1) =
        then-eq_ok (require (pictures.is_inside (pictures.path_of (artwork_name id kind))) _) _ _
          h in
      let (own, _, h2) = bind-eq_ok (icon_field kind e) _ _ h1 in
      let ((e', arts'), p, h3) =
        bind-eq_ok (choose_art executable folder pictures g id index kind own e arts) _ _ h2 in
      let (same, from) = choose_art-keeps g id index kind own e arts i (e', arts') l f p in
      let (same', from') = add_arts-keeps g id index kinds e' arts' i r l from h3 in
      (same' ∙ same, from')

  -- What a game's entry adds.
  add_game-adds :
      (prior : Owned) (g : Game) (s t : Progress) (i : ℕ)
      → i ≤ length s.retained
      → From i s.artwork
      → add_game executable folder pictures prior g s ≡ ok t
      → (e : Vdf) × (t.retained ≡ s.retained ++ e ∷ [])
        × (contains s.keys (key e) ≡ false)
        × (t.keys ≡ key e ∷ s.keys)
        × (t.packages ≡ g.package_name ∷ s.packages)
        × (options e ≡ starts g.package_name)
        × From i t.artwork
  unfolding add_game
  add_game-adds prior g s t i l f h =
      let old = prior_entry g.package_name prior in
      let (n, _, h1) = bind-eq_ok (field old (codes "appid")) _ _ h in
      let id = id_of executable folder g n in
      let index = free_index (suc (length s.keys)) s.keys s.next in
      let (filled, p, h2) =
        bind-eq_ok (fill executable folder g id (with_key (to_string index) old)) _ _ h1 in
      let ((e, arts), q, h3) =
        bind-eq_ok (add_arts executable folder pictures _ _ _ _ _ _) _ _ h2 in
      let (same, from) =
        add_arts-keeps g id (length s.retained) _ filled s.artwork i (e, arts) l f q in
      let named : key e ≡ to_string index =
        ap (λ f. f.0) same
        ∙ key-fill executable folder g id _ filled p
        ∙ key-with_key (to_string index) old in
      let is_t = ok-injective h3 in
      (
        e,
        sym (ap (λ t. t.retained) is_t),
        subst (λ k. contains s.keys k ≡ false) (sym named)
            (free_index-Free (suc (length s.keys)) s.keys s.next (omega arith)),
        sym (ap (λ t. t.keys) is_t) ∙ ap (λ k. k ∷ s.keys) (sym named),
        sym (ap (λ t. t.packages) is_t),
        ap (λ f. f.1) same
            ∙ options-fill executable folder g id (with_key (to_string index) old) filled p,
        subst (λ t. From i t.artwork) is_t from,
      )

  pub add_games-Added :
      (prior : Owned) (gs : List Game) (s t : Progress) (i : ℕ)
      → i ≤ length s.retained
      → From i s.artwork
      → add_games executable folder pictures prior gs s ≡ ok t
      → Added i gs s t
  unfolding add_games firsts
  add_games-Added prior [] s t i l f h =
      subst (Added i [] s) (ok-injective h)
        ([], sym (append-nil s.retained), tt, omega arith, refl, f)
  add_games-Added prior (g ∷ gs) s t i l f h =
      elim (Bool-cases (not (safe_package g.package_name) || contains s.packages g.package_name)) [
        | inl skipped ↦
            let (added, kept, fresh, count, started, from) =
              add_games-Added prior gs s t i l f (rw (skipped, add_games) at h) in
            (
              added,
              kept,
              fresh,
              count,
              started ∙ ap (map starts) (sym (firsts-skipped s.packages g gs skipped)),
              from,
            )
        | inr wanted ↦
            let (s', p, h1) =
              bind-eq_ok (add_game executable folder pictures prior g s) _ _
                (rw (wanted, add_games) at h) in
            let (e, kept, free, keyed, packed, starts_it, from) =
              add_game-adds prior g s s' i l f p in
            let (added, kept', fresh, count, started, from') =
              add_games-Added prior gs s' t i
                (omega (arith, ap length kept, length-append s.retained (e ∷ []))) from h1 in
            (
              e ∷ added,
              kept' ∙ ap (λ es. es ++ added) kept ∙ append_assoc s.retained (e ∷ []) added,
              (free, subst (λ ks. Fresh ks (map key added)) keyed fresh),
              omega (arith, count, ap length packed),
              ap (λ o. o ∷ map options added) starts_it
                  ∙ ap (λ os. starts g.package_name ∷ os)
                      (started ∙ ap (λ ps. map starts (firsts ps (safe_packages gs))) packed)
                  ∙ ap (map starts) (sym (firsts-taken s.packages g gs wanted)),
              from',
            )
      ]
