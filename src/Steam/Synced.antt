-- ===== src/Steam/Synced.antt =====
-- The bytes that `sync` of src/common/steam_library.cpp writes.
use rift_lift.Common.{
  ℕ, ◌+◌, Bool, true, false, List, [], ◌++◌, Option, none, some, Text, All, map, length, Result, ok,
  require, ◌>>=◌, ◌==◌, ◌≡◌, ◌≢◌, refl, ap, sym, ◌∙◌, subst, arith, bind-eq_ok, then-eq_ok,
  ok-injective,
}
use rift_lift.Steam.Vdf.{Vdf, write_vdf}
use rift_lift.Steam.Fields.{key, children, field, type_of, empty}
use rift_lift.Steam.Shortcut.{Game}
use rift_lift.Steam.Draft.{
  Art, Pictures, Progress, list_key, with_list, first_progress, draft_list, draft, split_entries,
  add_games,
}
use rift_lift.Steam.Sync.{
  assemble, Outcome, deferred, written, install_arts, same_file, finish_sync, finish_draft,
  open_file, sync,
}
use rift_lift.Steam.Terminated.{
  TerminatedNode, Terminated, read_vdf-Terminated, children-All, field-Terminated,
}
use rift_lift.Steam.Keys.{Fresh, split_entries-keeps}
use rift_lift.Steam.Options.{options, starts, map-face-key, map-face-options}
use rift_lift.Steam.Icons.{install_arts-behind, finish_sync-written}
use rift_lift.Steam.Appended.{From, Added, safe_packages, firsts, add_games-Added}

-- What the list had.
abbrev pub entries_of : Option Vdf → List Vdf
entries_of none = []
entries_of (some list) = children list

with_list-entries :
    (found : Option Vdf) (doc : Vdf) → children (with_list found doc).0 ≡ entries_of found
with_list-entries none doc = refl
with_list-entries (some list) doc = refl

pub All-entries :
    (doc : Vdf) (found : Option Vdf)
    → TerminatedNode doc
    → field doc list_key ≡ ok found
    → All TerminatedNode (entries_of found)
All-entries doc none t e = tt
All-entries doc (some list) t e = children-All list (field-Terminated doc list_key list t e)

module _ (probe : ℕ → Bool) (installs : Art → Bool) (executable folder : Text) (pictures : Pictures)
    (games : List Game) where
  open_file-Terminated :
      (old : Option Text) (doc : Vdf)
      → open_file probe installs executable folder pictures games old ≡ ok doc
      → TerminatedNode doc
  unfolding TerminatedNode Terminated
  open_file-Terminated (some bytes) doc h = read_vdf-Terminated bytes doc h
  open_file-Terminated none doc h = subst TerminatedNode (ok-injective h) blank
    where
      blank : TerminatedNode empty
      blank = ((λ one. absurd cc), tt)

  -- What is drafted for a list with these entries.
  abbrev Drafted : List Vdf → Progress → Type 0
  Drafted entries s =
      (added : List Vdf) × (s.retained ≡ entries ++ added)
      × Fresh (map key entries) (map key added)
      × (length s.packages ≡ length added)
      × (map options added ≡ map starts (firsts [] (safe_packages games)))
      × From (length entries) s.artwork

  Added-Drafted :
      (entries : List Vdf) (s : Progress)
      → Added (length entries) games (first_progress entries) s
      → Drafted entries s
  Added-Drafted entries s (added, retained, fresh, count, started, from) =
      (added, retained, fresh, omega (arith, count), started, from)

  draft_list-Drafted :
      (doc list : Vdf) (d : Vdf × Vdf × Progress)
      → All TerminatedNode (children list)
      → draft_list executable folder pictures games doc list ≡ ok d
      → (d.0 ≡ doc) × (d.1 ≡ list) × Drafted (children list) d.2
  unfolding draft_list
  draft_list-Drafted doc list d t h =
      let entries = children list in
      let (_, h1) = then-eq_ok (require (type_of list == 0) _) _ _ h in
      let (r, split, h2) = bind-eq_ok (split_entries entries [] []) _ _ h1 in
      let (s, p, h3) =
        bind-eq_ok (add_games executable folder pictures r.1 games (first_progress r.0)) _ _ h2 in
      let parts : r.0 ≡ entries = ap (λ r. r.0) (split_entries-keeps entries [] [] r t split) in
      let added : Added (length entries) games (first_progress r.0) s =
        add_games-Added executable folder pictures r.1 games (first_progress r.0) s (length entries)
          (omega (arith, ap length parts)) tt p in
      let is_d = ok-injective h3 in
      (
        ap (λ d. d.0) (sym is_d),
        ap (λ d. d.1) (sym is_d),
        subst (Drafted entries) (ap (λ d. d.2) is_d) (
            Added-Drafted entries s
              (subst (λ es. Added (length entries) games (first_progress es) s) parts added)),
      )

  after_probe :
      (b : Bool) (r : Result Outcome) (new : Text) (n : ℕ)
      → (elim b [ true ↦ ok deferred | false ↦ r ]) ≡ ok (written new n)
      → r ≡ ok (written new n)
  after_probe true r new n h = absurd (not_written h)
    where
      not_written : ok deferred ≢ ok (written new n)
      not_written e = absurd cc
  after_probe false r new n h = h

  abbrev Finished : Vdf → Vdf → List Vdf → Option Text → Option Text → Text → ℕ → Type 0
  Finished doc list entries old now new n =
      (added : List Vdf) × (write_vdf (assemble doc list (entries ++ added)) ≡ ok new)
      × (length added ≡ n)
      × (map options added ≡ map starts (firsts [] (safe_packages games)))
      × Fresh (map key entries) (map key added)
      × (same_file probe installs old now ≡ true)

  finish_draft-Finished :
      (doc list : Vdf) (entries : List Vdf) (s : Progress) (old now : Option Text) (new : Text)
      (n : ℕ)
      → Drafted entries s
      → finish_draft probe installs executable folder pictures games doc list s old now
        ≡ ok (written new n)
      → Finished doc list entries old now new n
  unfolding finish_draft
  finish_draft-Finished doc list entries s old now new n
        (added, retained, fresh, count, started, from) h =
      let (_, _, h1) = bind-eq_ok (write_vdf (assemble doc list s.retained)) _ _ h in
      let (installed, put_in, h2) =
        bind-eq_ok (install_arts probe installs 2 s.artwork s.retained) _ _
          (after_probe (probe 1) _ new n h1) in
      with_icons installed put_in h2
    where
      not_written : ok deferred ≢ ok (written new n)
      not_written e = absurd cc

      with_icons :
          (installed : Option (List Vdf))
          → install_arts probe installs 2 s.artwork s.retained ≡ ok installed
          → (elim installed [
            | none ↦ ok deferred
            | some es ↦ do
              bytes ← write_vdf (assemble doc list es)
              elim (probe (2 + length s.artwork)) [
                | true ↦ ok deferred
                | false ↦ finish_sync probe installs bytes (length s.packages) old now
              ]
          ])
            ≡ ok (written new n)
          → Finished doc list entries old now new n
      with_icons none e k = absurd (not_written k)
      with_icons (some es) e k =
          let (bytes, encoded, k1) = bind-eq_ok (write_vdf (assemble doc list es)) _ _ k in
          let (is_new, is_n, still) =
            finish_sync-written probe installs bytes (length s.packages) old now new n
              (after_probe (probe (2 + length s.artwork)) _ new n k1) in
          let (added', is_es, faces, as_many) =
            install_arts-behind probe installs 2 s.artwork entries added es from
              (subst (λ r. install_arts probe installs 2 s.artwork r ≡ ok (some es)) retained e) in
          (
            added',
            ap (λ es. write_vdf (assemble doc list es)) (sym is_es) ∙ encoded ∙ ap ok is_new,
            as_many ∙ sym count ∙ is_n,
            map-face-options added' added faces ∙ started,
            subst (Fresh (map key entries)) (sym (map-face-key added' added faces)) fresh,
            still,
          )

  -- What `sync` writes, and the file it is based on.
  pub Appended : Option Text → Option Text → Text → ℕ → Type 0
  Appended old now new n =
      (doc : Vdf) × (found : Option Vdf) × (open_file probe installs executable folder pictures
          games old
        ≡ ok doc)
      × (field doc list_key ≡ ok found)
      × Finished (with_list found doc).1 (with_list found doc).0 (entries_of found) old now new n

  -- Where `sync` writes the file, it was still what had been read, and the new bytes are its object
  -- with new entries behind those of its list: every entry is kept with its place, its key and its
  -- bytes. The new entries are, in the games' order, one for each different package that may be
  -- launched, and their LaunchOptions are "--launch " and this package; their number is the one that
  -- is returned; their keys differ from those that there were and from each other. Entries of an
  -- earlier `sync` are kept too.
  pub sync-appends :
      (old now : Option Text) (new : Text) (n : ℕ)
      → sync probe installs executable folder pictures games old now ≡ ok (written new n)
      → Appended old now new n
  unfolding sync draft Appended
  sync-appends old now new n h =
      let h1 = after_probe (probe 0) _ new n h in
      let (doc, opened, h2) =
        bind-eq_ok (open_file probe installs executable folder pictures games old) _ _ h1 in
      let (d, drafted, h3) = bind-eq_ok (draft executable folder pictures games doc) _ _ h2 in
      let (found, list_found, list_drafted) = bind-eq_ok (field doc list_key) _ _ drafted in
      let entries = entries_of found in
      let ended =
        subst (All TerminatedNode) (sym (with_list-entries found doc))
          (All-entries doc found (open_file-Terminated old doc opened) list_found) in
      let (is_doc, is_list, drafting) =
        draft_list-Drafted (with_list found doc).1 (with_list found doc).0 d ended list_drafted in
      (
        doc,
        found,
        opened,
        list_found,
        finished d (with_list found doc).1 (with_list found doc).0 is_doc is_list found
            (subst (λ es. Drafted es d.2) (with_list-entries found doc) drafting) h3,
      )
    where
      finished :
          (d : Vdf × Vdf × Progress) (doc list : Vdf)
          → d.0 ≡ doc
          → d.1 ≡ list
          → (found : Option Vdf) → Drafted (entries_of found) d.2
          → finish_draft probe installs executable folder pictures games d.0 d.1 d.2 old now
            ≡ ok (written new n)
          → Finished doc list (entries_of found) old now new n
      finished d doc list is_doc is_list found drafting k =
          subst (λ x. Finished x list (entries_of found) old now new n) is_doc
            (subst (λ y. Finished d.0 y (entries_of found) old now new n) is_list
              (finish_draft-Finished d.0 d.1 (entries_of found) d.2 old now new n drafting k))
