-- ===== src/Install/Verified.antt =====
-- What is on the disk when `Manager::install` (src/common/download/manager.cpp) has returned.
use rift_lift.Common.{
  Bool, true, false, not, List, [], ◌∷◌, ◌++◌, map, none, some, Text, codes, text_eq, text_eq_iff,
  text_eq_refl, All, keep, starts_with, if◌then◌else◌, ◌≡◌, ◌≢◌, refl, ap, sym, ◌∙◌, subst, arith,
  Bool-cases, inl, inr,
}
use mathlib.Core.List.{reverse, reverse-append, map-append}
use rift_lift.Rules.Env.{
  Env, lookup, insert, erase, lookup-insert, lookup-insert_other, lookup-erase_other,
}
use rift_lift.Rules.Strings.{lower, to_lower, ends_with}
use rift_lift.Build.Names.{is_reserved}
use rift_lift.Build.Manifest.{File}
use rift_lift.Build.Accepted.{Distinct}
use rift_lift.Install.Planning.{Disk, is_right, is_there}
use rift_lift.Install.Assembly.{
  Outcome, done, failed, part_name, join_segments, rename_part, finish_file, assemble_file,
  assemble_all,
}

pub apart_text : (a b : Text) → a ≢ b → text_eq a b ≡ false
apart_text a b h = elim (Bool-cases (text_eq a b)) [
  | inl same ↦ absurd (h ((text_eq_iff a b).0 same))
  | inr other ↦ other
]

starts_with-append : (s t : Text) → starts_with (s ++ t) s ≡ true
unfolding starts_with
starts_with-append [] [] = refl
starts_with-append [] (c ∷ t) = refl
starts_with-append (x ∷ s) t = ground (arith, starts_with-append s t)

ends_with-part : (name : Text) → ends_with (lower (part_name name)) (codes ".part") ≡ true
unfolding ends_with lower
ends_with-part name =
    let dot_part = reverse (codes ".part") in
    ap (λ s. starts_with (reverse s) dot_part) (map-append to_lower name (codes ".part"))
    ∙ ap (λ s. starts_with s dot_part) (reverse-append (map to_lower name) (codes ".part"))
    ∙ starts_with-append dot_part (reverse (map to_lower name))

part_name-reserved : (name : Text) → is_reserved (part_name name) ≡ true
part_name-reserved name = ground (arith, ends_with-part name)

-- A name that is not reserved is not that of a part.
pub not_part :
    (name other : Text) → is_reserved name ≡ false → text_eq (part_name other) name ≡ false
not_part name other h =
    apart_text (part_name other) name
      λ e. reserved (subst (λ n. is_reserved n ≡ true) e (part_name-reserved other))
  where
    reserved : is_reserved name ≡ true → ⊥
    reserved t = cc

pub not_done : {disk end : Disk} {what : Text} → failed disk what ≡ done end → ⊥
not_done e = cc

pub done-injective : {disk end : Disk} → done disk ≡ done end → disk ≡ end
done-injective e = cc

abbrev pub Unreserved : List File → Type 0
Unreserved = All (λ f. is_reserved f.name ≡ false)

apart_names :
    (f : File) (fs : List File)
    → All (λ g. lower f.name ≢ lower g.name) fs
    → All (λ g. text_eq g.name f.name ≡ false) fs
apart_names f [] h = tt
apart_names f (g ∷ gs) (h, hs) =
    (apart_text g.name f.name λ e. h (ap lower (sym e)), apart_names f gs hs)

pub All-keep : (P : File → Type 0) (p : File → Bool) (fs : List File) → All P fs → All P (keep p fs)
All-keep P p [] h = tt
All-keep P p (f ∷ fs) (h, hs) = kept (p f) (All-keep P p fs hs)
  where
    kept : (b : Bool) → All P (keep p fs) → All P (if b then f ∷ keep p fs else keep p fs)
    kept true k = (h, k)
    kept false k = k

module _ (sha256 : Text → Text) (within : Text → Bool)
    (stops writable removes drops : Text → Bool) where
  -- A file in its place, and all others but those in progress as before.
  abbrev Placed : File → Disk → Disk → Type 0
  Placed f disk next =
      (is_there sha256 within f next.dir ≡ true)
      × ((name : Text)
          → text_eq f.name name ≡ false
          → is_reserved name ≡ false
          → lookup name next.dir ≡ lookup name disk.dir)

  rename_part-Placed :
      (f : File) (contents : Text) (disk : Disk)
      → is_right sha256 within f contents ≡ true
      → Placed f disk (
          rename_part sha256 within stops writable removes drops f contents
            (record disk { dir = insert (part_name f.name) contents disk.dir }))
  rename_part-Placed f contents disk right =
      let part = part_name f.name in
      let written = insert part contents disk.dir in
      let placed : lookup f.name (insert f.name contents (erase part written)) ≡ some contents =
        rw (lookup-insert f.name contents f.name (erase part written), text_eq_refl f.name) refl in
      (
        ap (λ o. elim o [ none ↦ false | some c ↦ is_right sha256 within f c ]) placed ∙ right,
        λ name other free.
            let apart = not_part name f.name free in
            lookup-insert_other f.name contents name (erase part written) other
            ∙ lookup-erase_other part name written apart
            ∙ lookup-insert_other part contents name disk.dir apart,
      )

  finish_file-done :
      (f : File) (disk next : Disk) (joined : Text × Bool)
      → finish_file sha256 within stops writable removes drops f disk joined ≡ done next
      → Placed f disk next
  finish_file-done f disk next (contents, false) e = absurd cc
  finish_file-done f disk next (contents, true) e = elim (Bool-cases (writable f.name)) [
    | inr full ↦ absurd (not_done (rw full at e))
    | inl written ↦
        let e1 = rw written at e in
        elim (Bool-cases (is_right sha256 within f contents)) [
          | inr wrong ↦ absurd (not_done (rw wrong at e1))
          | inl right ↦
              subst (Placed f disk) (done-injective (rw right at e1))
                (rename_part-Placed f contents disk right)
        ]
  ]

  assemble_file-done :
      (f : File) (disk next : Disk)
      → assemble_file sha256 within stops writable removes drops f disk ≡ done next
      → Placed f disk next
  unfolding assemble_file
  assemble_file-done f disk next h =
      finish_file-done f disk next (join_segments disk.cache f.segments) h

  -- A run over several files, taken apart at the first.
  assemble_all-step :
      (f : File) (fs : List File) (disk end : Disk)
      → assemble_all sha256 within stops writable removes drops (f ∷ fs) disk ≡ done end
      → (next : Disk) × (assemble_file sha256 within stops writable removes drops f disk
          ≡ done next)
        × (assemble_all sha256 within stops writable removes drops fs next ≡ done end)
  unfolding assemble_all
  assemble_all-step f fs disk end h = elim (Bool-cases (stops f.name)) [
    | inl stopped ↦ absurd (not_done (rw (stopped, assemble_all) at h))
    | inr goes_on ↦
        after (assemble_file sha256 within stops writable removes drops f disk) refl
          (rw (goes_on, assemble_all) at h)
  ]
    where
      after :
          (o : Outcome)
          → assemble_file sha256 within stops writable removes drops f disk ≡ o
          → (elim o [
            | done next ↦ assemble_all sha256 within stops writable removes drops fs next
            | failed disk' what ↦ failed disk' what
          ])
            ≡ done end
          → (next : Disk) × (assemble_file sha256 within stops writable removes drops f disk
              ≡ done next)
            × (assemble_all sha256 within stops writable removes drops fs next ≡ done end)
      after (done next) e k = (next, e, k)
      after (failed disk' what) e k = absurd (not_done k)

  -- A name that none of the files has stays as it is.
  pub assemble_all-other :
      (fs : List File) (disk end : Disk) (name : Text)
      → assemble_all sha256 within stops writable removes drops fs disk ≡ done end
      → All (λ g. text_eq g.name name ≡ false) fs
      → is_reserved name ≡ false
      → lookup name end.dir ≡ lookup name disk.dir
  unfolding assemble_all
  assemble_all-other [] disk end name h apart free =
      ap (λ d. lookup name d.dir) (sym (done-injective h))
  assemble_all-other (f ∷ fs) disk end name h (a, apart) free =
      let (next, e, k) = assemble_all-step f fs disk end h in
      assemble_all-other fs next end name k apart free
      ∙ (assemble_file-done f disk next e).1 name a free

  pub is_there-same :
      (f : File) (a b : Env)
      → lookup f.name a ≡ lookup f.name b
      → is_there sha256 within f b ≡ true
      → is_there sha256 within f a ≡ true
  is_there-same f a b e h =
      ap (λ o. elim o [ none ↦ false | some c ↦ is_right sha256 within f c ]) e ∙ h

  -- Names that the file leaves alone stay the same through its assembly.
  Placed-others :
      (f : File) (fs : List File) (disk next : Disk) (before : Env)
      → Placed f disk next
      → All (λ g. lower f.name ≢ lower g.name) fs
      → Unreserved fs
      → All (λ g. lookup g.name disk.dir ≡ lookup g.name before) fs
      → All (λ g. lookup g.name next.dir ≡ lookup g.name before) fs
  Placed-others f [] disk next before placed apart free same = tt
  Placed-others f (g ∷ gs) disk next before placed (a, apart) (free, frees) (same, sames) = (
    placed.1 g.name (apart_text f.name g.name λ e. a (ap lower e)) free ∙ same,
    Placed-others f gs disk next before placed apart frees sames,
  )

  -- The same files, those found right before left out: each of them is right in the end.
  pub assemble_all-verified :
      (before : Env) (fs : List File) (disk end : Disk)
      → Distinct fs
      → Unreserved fs
      → All (λ f. lookup f.name disk.dir ≡ lookup f.name before) fs
      → assemble_all sha256 within stops writable removes drops
          (keep (λ f. not (is_there sha256 within f before)) fs)
          disk
        ≡ done end
      → All (λ f. is_there sha256 within f end.dir ≡ true) fs
  assemble_all-verified before [] disk end distinct free same h = tt
  assemble_all-verified before (f ∷ fs) disk end (apart, distinct) (free, frees) (same_f, same) h =
      let needs : File → Bool = λ f. not (is_there sha256 within f before) in
      let others =
        All-keep (λ g. text_eq g.name f.name ≡ false) needs fs (apart_names f fs apart) in
      elim (Bool-cases (is_there sha256 within f before)) [
        | inl there ↦
            let h' = rw there at h in
            (
              is_there-same f end.dir before
                  (assemble_all-other (keep needs fs) disk end f.name h' others free ∙ same_f)
                  there,
              assemble_all-verified before fs disk end distinct frees same h',
            )
        | inr missing ↦
            let (next, e, k) = assemble_all-step f (keep needs fs) disk end (rw missing at h) in
            let placed = assemble_file-done f disk next e in
            (
              is_there-same f end.dir next.dir
                  (assemble_all-other (keep needs fs) next end f.name k others free) placed.0,
              assemble_all-verified before fs next end distinct frees
                  (Placed-others f fs disk next before placed apart frees same) k,
            )
      ]
