-- ===== src/Install/Untouched.antt =====
-- What `Manager::install` (src/common/download/manager.cpp) leaves as it is, also where it throws.
use rift_lift.Common.{
  Bool, true, false, not, List, [], ◌∷◌, Text, text_eq, All, Result, ok, err, if◌then◌else◌, ◌≡◌,
  refl, ◌∙◌, Bool-cases, inl, inr, ◌⊎◌, some,
}
use rift_lift.Rules.Env.{Env, lookup, insert, erase, lookup-insert_other, lookup-erase_other}
use rift_lift.Build.Names.{is_reserved}
use rift_lift.Build.Manifest.{File}
use rift_lift.Install.Planning.{Disk, Prepared, is_right}
use rift_lift.Install.Assembly.{
  remove_as, tell_installed, manifest_placed, Outcome, done, failed, marker, manifest_name,
  part_name, join_segments, finish_file, assemble_file, assemble_all, complete, build,
}
use rift_lift.Install.Verified.{not_part}
use rift_lift.Install.Complete.{lookup-remove_as, final_manifest}

-- The disk, whether `install` has returned or thrown.
abbrev pub disk_of : Outcome → Disk
disk_of (done disk) = disk
disk_of (failed disk what) = disk

abbrev pub Failed : Outcome → Type 0
Failed (done disk) = ⊥
Failed (failed disk what) = Unit

module _ (sha256 : Text → Text) (within : Text → Bool)
    (stops writable removes drops : Text → Bool) where
  -- The name is as it was before.
  abbrev pub Same : Text → Disk → Outcome → Type 0
  Same name disk o = lookup name (disk_of o).dir ≡ lookup name disk.dir

  by_test :
      (name : Text) (disk : Disk) (a b : Outcome) (test : Bool)
      → Same name disk a
      → Same name disk b
      → Same name disk (if test then a else b)
  by_test name disk a b true x y = x
  by_test name disk a b false x y = y

  finish_file-other :
      (f : File) (disk : Disk) (joined : Text × Bool) (name : Text)
      → text_eq f.name name ≡ false
      → is_reserved name ≡ false
      → Same name disk (finish_file sha256 within stops writable removes drops f disk joined)
  finish_file-other f disk (contents, complete) name other free =
      by_test name disk _ _ (not complete) started (
        by_test name disk _ _ (not (writable f.name)) started
          (by_test name disk _ _ (is_right sha256 within f contents) placed removed))
    where
      written : Env
      written = insert (part_name f.name) contents disk.dir

      started : lookup name written ≡ lookup name disk.dir
      started =
          lookup-insert_other (part_name f.name) contents name disk.dir (not_part name f.name free)

      removed : lookup name (remove_as removes (part_name f.name) written) ≡ lookup name disk.dir
      removed =
          lookup-remove_as removes (part_name f.name) name written (not_part name f.name free)
          ∙ started

      placed :
          lookup name (insert f.name contents (erase (part_name f.name) written))
          ≡ lookup name disk.dir
      placed =
          lookup-insert_other f.name contents name (erase (part_name f.name) written) other
          ∙ lookup-erase_other (part_name f.name) name written (not_part name f.name free)
          ∙ started

  assemble_file-Same :
      (f : File) (disk : Disk) (name : Text)
      → text_eq f.name name ≡ false
      → is_reserved name ≡ false
      → Same name disk (assemble_file sha256 within stops writable removes drops f disk)
  unfolding assemble_file
  assemble_file-Same f disk name other free =
      finish_file-other f disk (join_segments disk.cache f.segments) name other free

  assemble_all-Same :
      (fs : List File) (disk : Disk) (name : Text)
      → All (λ f. text_eq f.name name ≡ false) fs
      → is_reserved name ≡ false
      → Same name disk (assemble_all sha256 within stops writable removes drops fs disk)
  unfolding assemble_all
  assemble_all-Same [] disk name apart free = refl
  assemble_all-Same (f ∷ fs) disk name (other, apart) free = elim (Bool-cases (stops f.name)) [
    | inl stopped ↦ rw (stopped, assemble_all) refl
    | inr goes_on ↦
        rw (goes_on, assemble_all)
          (after (assemble_file sha256 within stops writable removes drops f disk)
            (assemble_file-Same f disk name other free)
            λ next. assemble_all-Same fs next name apart free)
  ]
    where
      after :
          (o : Outcome)
          → Same name disk o
          → ((next : Disk)
              → Same name next (assemble_all sha256 within stops writable removes drops fs next))
          → Same name disk (elim o [
            | done next ↦ assemble_all sha256 within stops writable removes drops fs next
            | failed disk' what ↦ failed disk' what
          ])
      after (done next) e rest = rest next ∙ e
      after (failed disk' what) e rest = e

  -- Nothing of ours is changed, or only the client's callback has failed.
  abbrev pub OursSame : Text → Result Text → Result (Unit {0}) → Prepared → Disk → Type 0
  OursSame name manifest installed p disk =
      let end = build sha256 within stops writable removes drops manifest installed p disk in
      Same name disk end
      ⊎ ((next : Disk) × (text : Text) × (what : Text) × (assemble_all sha256 within stops writable
              removes drops p.needed disk
            ≡ done next)
          × (manifest ≡ ok text)
          × (installed ≡ err what)
          × (lookup manifest_name (disk_of end).dir ≡ some text))

  complete-Same :
      (manifest : Result Text) (installed : Result (Unit {0})) (p : Prepared) (disk : Disk)
      (name : Text)
      → text_eq manifest_name name ≡ false
      → text_eq marker name ≡ false
      → Same name disk
          (complete sha256 within stops writable removes drops manifest installed p disk)
  unfolding complete
  complete-Same (err what) installed p disk name a b = refl
  complete-Same (ok text) installed p disk name a b =
      by_test name disk
        (tell_installed sha256 within stops writable removes drops installed p
          (manifest_placed sha256 within stops writable removes drops text disk))
        _ (writable manifest_name) (told installed) refl
    where
      told :
          (r : Result (Unit {0}))
          → Same name disk (
              tell_installed sha256 within stops writable removes drops r p
                (manifest_placed sha256 within stops writable removes drops text disk))
      told (err what) =
          lookup-remove_as removes marker name (insert manifest_name text disk.dir) b
          ∙ lookup-insert_other manifest_name text name disk.dir a
      told (ok u) =
          lookup-remove_as removes marker name (insert manifest_name text disk.dir) b
          ∙ lookup-insert_other manifest_name text name disk.dir a

  -- Where the end throws, nothing of it is done or only the callback has failed.
  complete-Failed :
      (manifest : Result Text) (installed : Result (Unit {0})) (p : Prepared) (disk : Disk)
      (name : Text)
      → let end = complete sha256 within stops writable removes drops manifest installed p disk in
        Failed end
        → Same name disk end
          ⊎ ((text : Text) × (what : Text) × (manifest ≡ ok text)
              × (installed ≡ err what)
              × (lookup manifest_name (disk_of end).dir ≡ some text))
  unfolding complete
  complete-Failed (err what) installed p disk name f = inl refl
  complete-Failed (ok text) installed p disk name f = elim (Bool-cases (writable manifest_name)) [
    | inr full ↦ inl (rw full refl)
    | inl room ↦ rw room (told installed (rw room at f))
  ]
    where
      told :
          (r : Result (Unit {0}))
          → let end =
              tell_installed sha256 within stops writable removes drops r p
                (manifest_placed sha256 within stops writable removes drops text disk) in
            Failed end
            → Same name disk end
              ⊎ ((text' : Text) × (what : Text) × (ok text ≡ ok text')
                  × (r ≡ err what)
                  × (lookup manifest_name (disk_of end).dir ≡ some text'))
      told (err what) k = inr (text, what, refl, refl, final_manifest removes text disk.dir)
      told (ok u) k = absurd k

  -- The assembly touches no file that the build does not name, but for those in progress and, at the
  -- very end, the manifest and the mark of an unfinished download. Where it throws, these two are
  -- as they were too, unless every file had been put together and the manifest was in its place
  -- when the callback `services_.installed` threw: a folder is never taken for a complete install,
  -- nor its mark lost, before all of its files are right.
  pub build_leaves :
      (manifest : Result Text) (installed : Result (Unit {0})) (p : Prepared) (disk : Disk)
      (name : Text)
      → All (λ f. text_eq f.name name ≡ false) p.needed
      → is_reserved name ≡ false
      → let end = build sha256 within stops writable removes drops manifest installed p disk in
        (text_eq manifest_name name ≡ false → text_eq marker name ≡ false → Same name disk end)
        × (Failed end → OursSame name manifest installed p disk)
  unfolding build
  build_leaves manifest installed p disk name apart free =
      after (assemble_all sha256 within stops writable removes drops p.needed disk) refl
        (assemble_all-Same p.needed disk name apart free)
    where
      after :
          (o : Outcome)
          → assemble_all sha256 within stops writable removes drops p.needed disk ≡ o
          → Same name disk o
          → let end : Outcome = elim o [
            | done next ↦
                complete sha256 within stops writable removes drops manifest installed p next
            | failed disk' what ↦ failed disk' what
          ] in
            (text_eq manifest_name name ≡ false → text_eq marker name ≡ false → Same name disk end)
            × (Failed end
                → Same name disk end
                  ⊎ ((next : Disk) × (text : Text) × (what : Text) × (assemble_all sha256 within
                          stops writable removes drops p.needed disk
                        ≡ done next)
                      × (manifest ≡ ok text)
                      × (installed ≡ err what)
                      × (lookup manifest_name (disk_of end).dir ≡ some text)))
      after (failed disk' what) e same = (λ a b. same, λ f. inl same)
      after (done next) e same = (
        λ a b. complete-Same manifest installed p next name a b ∙ same,
        λ f. elim (complete-Failed manifest installed p next name f) [
          | inl unchanged ↦ inl (unchanged ∙ same)
          | inr (text, what, sent, threw, there) ↦ inr (next, text, what, e, sent, threw, there)
        ],
      )
