-- ===== src/Update/Replaced.antt =====
-- `apply` of src/launcher/updater.cpp replaces an AppImage as a whole.
use rift_lift.Common.{
  Bool, true, false, Option, none, some, Text, is_empty, Result, ok, err, ◌≡◌, refl, Bool-cases,
  ◌⊎◌, inl, inr,
}
use rift_lift.Exec.{throw, lift, modify, continue, ◌>>=◌}
use rift_lift.Update.Release.{appimage}
use rift_lift.Update.Fetch.{
  Images, Machine, rename_staged, remove_download, start_detached, apply_image, apply,
}

-- The launcher's file is as it was or the new one, and it is the new one and has been started where the
-- update returns.
abbrev pub Whole : Images → Result (Unit {0}) × Images → Type 0
Whole s (r, w) =
    ((w.target ≡ s.target) ⊎ (w.target ≡ s.file))
    × (r ≡ ok tt → (w.target ≡ s.file) × (w.started ≡ true))

abbrev stops :
    (s : Images) (what : Text) (staged : Option Text)
    → Whole s (err what, record s { staged = staged })
stops s what staged = (inl refl, λ e. absurd cc)

-- A copy that succeeds has the content of the file. Then the launcher's file is as it was or the new
-- one, wherever the update ends, and it is the new one and has been started where the update returns.
pub apply-Whole :
    (disk : Machine) (s : Images)
    → ((copy : Option Text) → disk.copy_leaves s.file ≡ (ok tt, copy) → copy ≡ s.file)
    → Whole s (apply disk appimage s)
unfolding apply throw lift modify ◌>>=◌
apply-Whole disk s faithful = image disk.image
  where
    replaced :
        (copy : Option Text)
        → copy ≡ s.file
        → (p r : Result (Unit {0})) (b : Bool) (st : Result (Unit {0}))
        → Whole s (
            (lift p >>= λ _.
            rename_staged r >>= λ _. modify (remove_download b) >>= λ _. start_detached st)
              (record s { staged = copy }))
    replaced copy same (err what) r b st = stops s what copy
    replaced copy same (ok u) (err what) b st = stops s what copy
    replaced copy same (ok u) (ok u') true (ok u'') = (inr same, λ e. (same, refl))
    replaced copy same (ok u) (ok u') false (ok u'') = (inr same, λ e. (same, refl))
    replaced copy same (ok u) (ok u') true (err what) = (inr same, λ e. absurd cc)
    replaced copy same (ok u) (ok u') false (err what) = (inr same, λ e. absurd cc)

    copied :
        (r : Result (Unit {0})) (copy : Option Text)
        → disk.copy_leaves s.file ≡ (r, copy)
        → Whole s (
            continue r
              (λ _. lift disk.permits >>= λ _. rename_staged disk.renamed >>= λ _.
                modify (remove_download disk.removes) >>= λ _. start_detached disk.starts)
              (record s { staged = copy }))
    copied (err what) copy e = stops s what copy
    copied (ok u) copy e =
        replaced copy (faithful copy e) disk.permits disk.renamed disk.removes disk.starts

    image : (i : Option Text) → Whole s (apply_image disk i s)
    image none = stops s _ s.staged
    image (some i) = elim (Bool-cases (is_empty i)) [
      | inl nameless ↦ rw nameless (stops s _ s.staged)
      | inr named ↦ rw named (copied (disk.copy_leaves s.file).0 (disk.copy_leaves s.file).1 refl)
    ]
