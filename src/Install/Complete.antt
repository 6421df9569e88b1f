-- ===== src/Install/Complete.antt =====
-- What is on the disk when `Manager::install` (src/common/download/manager.cpp) has returned or
-- thrown.
use rift_lift.Common.{
  Bool, true, false, List, [], ◌∷◌, none, some, Text, text_eq, text_eq_refl, All, Result, ok, err,
  if◌then◌else◌, ◌≡◌, refl, ap, sym, ◌∙◌, subst, ok-injective, Bool-cases, inl, inr, ◌⊎◌,
}
use rift_lift.Rules.Env.{
  Env, lookup, insert, erase, lookup-insert, lookup-insert_other, lookup-erase, lookup-erase_other,
}
use rift_lift.Build.Contained.{safe_relative-walk}
use rift_lift.Build.Manifest.{File, Plan, ManifestJson, parse_manifest}
use rift_lift.Build.Accepted.{AcceptedFile, parse_manifest-Accepted}
use rift_lift.Install.Planning.{Disk, Space, Prepared, is_there, prepare}
use rift_lift.Install.Needs.{prepare-covers}
use rift_lift.Install.Assembly.{
  remove_as, tell_installed, manifest_placed, Outcome, done, failed, marker, manifest_name, mark,
  assemble_all, complete, build,
}
use rift_lift.Install.Verified.{
  not_done, done-injective, Unreserved, is_there-same, assemble_all-verified,
}

All-Unreserved : (fs : List File) → All AcceptedFile fs → Unreserved fs
All-Unreserved [] h = tt
All-Unreserved (f ∷ fs) (h, hs) =
    ((safe_relative-walk h.listed_as f.name h.safe).1, All-Unreserved fs hs)

-- No file has the name of the manifest or of the marker.
abbrev pub NotOurs : List File → Type 0
NotOurs = All (λ f. (text_eq manifest_name f.name ≡ false) × (text_eq marker f.name ≡ false))

All-same : (fs : List File) (files : Env) → All (λ f. lookup f.name files ≡ lookup f.name files) fs
All-same [] files = tt
All-same (f ∷ fs) files = (refl, All-same fs files)

marker_unlike_manifest : text_eq marker manifest_name ≡ false
unfolding text_eq
marker_unlike_manifest = refl

erased : (name : Text) (files : Env) → lookup name (erase name files) ≡ none
erased name files = rw (lookup-erase name name files, text_eq_refl name) refl

pub lookup-remove_as :
    (can : Text → Bool) (k name : Text) (files : Env)
    → text_eq k name ≡ false
    → lookup name (remove_as can k files) ≡ lookup name files
lookup-remove_as can k name files h = elim (Bool-cases (can k)) [
  | inl goes ↦ rw goes (lookup-erase_other k name files h)
  | inr stays ↦ rw stays refl
]

removed :
    (can : Text → Bool) (k : Text) (files : Env)
    → can k ≡ true
    → lookup k (remove_as can k files) ≡ none
removed can k files h = rw h (erased k files)

pub final_manifest :
    (can : Text → Bool) (text : Text) (dir : Env)
    → lookup manifest_name (remove_as can marker (insert manifest_name text dir)) ≡ some text
final_manifest can text dir =
    lookup-remove_as can marker manifest_name (insert manifest_name text dir) marker_unlike_manifest
    ∙ lookup-insert manifest_name text manifest_name dir
    ∙ ap (λ b. if b then some text else lookup manifest_name dir) (text_eq_refl manifest_name)

module _ (sha256 : Text → Text) (within : Text → Bool)
    (stops writable removes drops : Text → Bool) where
  -- `complete` returns only with the manifest in place.
  complete-done :
      (manifest : Result Text) (installed : Result (Unit {0})) (p : Prepared) (disk end : Disk)
      → complete sha256 within stops writable removes drops manifest installed p disk ≡ done end
      → (text : Text) × (manifest ≡ ok text)
        × (end.dir ≡ remove_as removes marker (insert manifest_name text disk.dir))
  unfolding complete
  complete-done (err what) installed p disk end h = absurd (not_done h)
  complete-done (ok text) installed p disk end h = elim (Bool-cases (writable manifest_name)) [
    | inr full ↦ absurd (not_done (rw full at h))
    | inl room ↦ told installed (rw room at h)
  ]
    where
      told :
          (r : Result (Unit {0}))
          → tell_installed sha256 within stops writable removes drops r p
              (manifest_placed sha256 within stops writable removes drops text disk)
            ≡ done end
          → (text' : Text) × (ok text ≡ ok text')
            × (end.dir ≡ remove_as removes marker (insert manifest_name text' disk.dir))
      told (err what) k = absurd (not_done k)
      told (ok u) k = (text, refl, ap (λ d. d.dir) (sym (done-injective k)))

  build-step :
      (manifest : Result Text) (installed : Result (Unit {0})) (p : Prepared) (disk end : Disk)
      → build sha256 within stops writable removes drops manifest installed p disk ≡ done end
      → (next : Disk) × (assemble_all sha256 within stops writable removes drops p.needed disk
          ≡ done next)
        × (complete sha256 within stops writable removes drops manifest installed p next ≡ done end)
  unfolding build
  build-step manifest installed p disk end h =
      after (assemble_all sha256 within stops writable removes drops p.needed disk) refl h
    where
      after :
          (o : Outcome)
          → assemble_all sha256 within stops writable removes drops p.needed disk ≡ o
          → (elim o [
            | done next ↦
                complete sha256 within stops writable removes drops manifest installed p next
            | failed disk' what ↦ failed disk' what
          ])
            ≡ done end
          → (next : Disk) × (assemble_all sha256 within stops writable removes drops p.needed disk
              ≡ done next)
            × (complete sha256 within stops writable removes drops manifest installed p next
                ≡ done end)
      after (failed disk' what) e k = absurd (not_done k)
      after (done next) e k = (next, e, k)

  -- The two names of ours that are written last are none of the plan's.
  All-there-still :
      (fs : List File) (text : Text) (dir : Env)
      → NotOurs fs
      → All (λ f. is_there sha256 within f dir ≡ true) fs
      → All
          (λ f.
            is_there sha256 within f (remove_as removes marker (insert manifest_name text dir))
            ≡ true)
          fs
  All-there-still [] text dir ours h = tt
  All-there-still (f ∷ fs) text dir ((a, b), ours) (h, hs) = (
    is_there-same sha256 within stops writable removes drops f
        (remove_as removes marker (insert manifest_name text dir)) dir
        (lookup-remove_as removes marker f.name (insert manifest_name text dir) b
          ∙ lookup-insert_other manifest_name text f.name dir a)
        h,
    All-there-still fs text dir ours hs,
  )

  module _ (app_id binary_id : Text) (m : ManifestJson) (plan : Plan) (disk : Disk)
      (games cache : Space) where
    -- When `install` returns for a manifest that was accepted, every file of the build lies in the
    -- game's folder with the size and the hash that the manifest gives, whether it was there before
    -- or was rebuilt from whatever the transfer has left in the cache; the manifest is there, and
    -- the mark of an unfinished download is gone if it could be removed: an error of that removal
    -- is passed over. No file of the build may have the name of the manifest or of the mark.
    pub install_verified :
        (p : Prepared) (transferred : Env) (manifest : Result Text) (installed : Result (Unit {0}))
        (end : Disk)
        → parse_manifest app_id binary_id m ≡ ok plan
        → NotOurs plan.files
        → prepare sha256 within (mark plan disk) plan games cache ≡ ok p
        → build sha256 within stops writable removes drops manifest installed p
            (record (mark plan disk) { cache = transferred })
          ≡ done end
        → All (λ f. is_there sha256 within f end.dir ≡ true) plan.files
          × ((text : Text) → manifest ≡ ok text → lookup manifest_name end.dir ≡ some text)
          × ((lookup marker end.dir ≡ none) ⊎ (removes marker ≡ false))
    install_verified p transferred manifest installed end parsed ours prepared built =
        let (accepted, distinct) = parse_manifest-Accepted app_id binary_id m plan parsed in
        let marked = mark plan disk in
        let start = record marked { cache = transferred } in
        let (next, assembled, completed) = build-step manifest installed p start end built in
        let (text, sent, is_end) = complete-done manifest installed p next end completed in
        let (_, needed, _) = prepare-covers sha256 within marked plan games cache p prepared in
        let verified =
          assemble_all-verified sha256 within stops writable removes drops marked.dir plan.files
            (record marked { cache = transferred }) next distinct
            (All-Unreserved plan.files accepted) (All-same plan.files marked.dir)
            (subst
              (λ fs.
                assemble_all sha256 within stops writable removes drops fs
                  (record marked { cache = transferred })
                ≡ done next)
              needed assembled) in
        (
          subst (λ dir. All (λ f. is_there sha256 within f dir ≡ true) plan.files) (sym is_end)
              (All-there-still plan.files text next.dir ours verified),
          λ text' sent'.
              ap (lookup manifest_name) is_end
              ∙ final_manifest removes text next.dir
              ∙ ap some (ok-injective (sym sent ∙ sent')),
          elim (Bool-cases (removes marker)) [
            | inl can ↦ inl (
                ap (lookup marker) is_end
                ∙ removed removes marker (insert manifest_name text next.dir) can)
            | inr stays ↦ inr stays
          ],
        )
