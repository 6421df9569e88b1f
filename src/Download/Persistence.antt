-- ===== src/Download/Persistence.antt =====
-- downloads.json: after each step it holds the queue, and reading it back restores the queue.
use rift_lift.Common.{
  ℕ, ◌+◌, ◌≡◌, refl, sym, ◌∙◌, inl, inr, Bool, true, false, List, [], ◌∷◌, some, Text, Bool-cases,
  arith, subst, find, find-holds, Option-cases, update_first, All, ok, ok-injective, ◌==◌,
}
use rift_lift.Names.{valid_account_key}
use rift_lift.Download.Job.{Job, Entry}
use rift_lift.Download.Manager.{
  Platform, Manager, save_entry, is_saved, saved_jobs, save_locked, wake, acceptable, load_entry,
  load_jobs, discard_files,
}
use rift_lift.Download.Worker.{
  claim, next, eligible, start_entry, progress, Progress, progress_entry, after_progress, finish,
  release, release_entry, held_entry,
}
use rift_lift.Download.Requests.{
  cancel, remove, take_same, move, move_indices, cancel_all, cancel_account, set_account,
  adopt_legacy, set_parallel, enqueue_found, Search, discard_if,
}
use rift_lift.Download.Safety.{enqueue_job-eq_ok}
use rift_lift.Download.Steps.{Step, Transfers}

-- The file lists the queue as it stands.
pub record IsCurrent (m : Manager) : Type 0 where
  pub persistent : m.persistent ≡ true
  pub current : m.saved ≡ saved_jobs m.jobs

save_locked-IsCurrent :
    (m : Manager) → m.persistent ≡ true → m.writable ≡ true → IsCurrent (save_locked m)
unfolding save_locked
save_locked-IsCurrent m p w = record { persistent = ground arith; current = ground arith }

saved_jobs-update_first :
    (t : Entry → Bool) (f : Entry → Entry) (es : List Entry) (x : Entry)
    → find t es ≡ some x
    → is_saved (f x) ≡ is_saved x
    → save_entry (f x) ≡ save_entry x
    → saved_jobs (update_first t f es) ≡ saved_jobs es
unfolding saved_jobs
saved_jobs-update_first t f [] x h s e = cc
saved_jobs-update_first t f (y ∷ ys) x h s e = ground (arith, saved_jobs-update_first t f ys x)

discard_if-IsCurrent :
    (p : Platform) (b : Bool) (m : Manager) (job : Job)
    → IsCurrent m
    → IsCurrent (discard_if p b m job)
unfolding discard_if discard_files
discard_if-IsCurrent p true m job c = record { persistent = c.persistent; current = c.current }
discard_if-IsCurrent p false m job c = c

end_IsCurrent :
    {m n : Manager}
    → m.persistent ≡ n.persistent
    → m.saved ≡ n.saved
    → saved_jobs m.jobs ≡ saved_jobs n.jobs
    → IsCurrent m
    → IsCurrent n
end_IsCurrent a b d c = record {
  persistent = sym a ∙ c.persistent;
  current = sym b ∙ c.current ∙ d;
}

-- A transfer begins and goes on without a change to what is saved.
start_saved :
    (e : Entry) (jobs : List Entry)
    → eligible jobs e ≡ true
    → (is_saved (start_entry e) ≡ is_saved e) × (save_entry (start_entry e) ≡ save_entry e)
unfolding start_entry
start_saved e jobs h = (ground arith, refl)

module _ {m : Manager} (c : IsCurrent m) where
  set_account-IsCurrent : {n : Manager} (key : Text) → set_account m key ≡ ok n → IsCurrent n
  unfolding set_account
  set_account-IsCurrent key h = ground (arith, c)

  set_parallel-IsCurrent : (jobs : ℕ) → IsCurrent (set_parallel m jobs)
  unfolding set_parallel
  set_parallel-IsCurrent jobs = end_IsCurrent refl refl refl c

module _ {m : Manager} (c : IsCurrent m) (w : m.writable ≡ true) where
  saves-IsCurrent : (es : List Entry) → IsCurrent (save_locked (record m { jobs = es }))
  saves-IsCurrent es = save_locked-IsCurrent _ c.persistent w

  adopt_legacy-IsCurrent : {n : Manager} (key : Text) → adopt_legacy m key ≡ ok n → IsCurrent n
  unfolding adopt_legacy
  adopt_legacy-IsCurrent key h = elim (Bool-cases (valid_account_key key)) [
    | inl k ↦ subst IsCurrent (ok-injective (rw k at h)) (saves-IsCurrent _)
    | inr k ↦ absurd (ground arith)
  ]

  claim-IsCurrent :
      {n : Manager} (q : ℕ) (token : Text) → claim m ≡ some (q, token, n) → IsCurrent n
  unfolding claim next
  claim-IsCurrent {n} q token h = elim (Option-cases (find (eligible m.jobs) m.jobs)) [
    | inl e ↦ absurd (ground arith)
    | inr (x, e) ↦
        let (s, t) = start_saved x m.jobs (find-holds (eligible m.jobs) m.jobs x e) in
        let same_saved = saved_jobs-update_first (eligible m.jobs) start_entry m.jobs x e s t in
        record {
          persistent = ground (arith, c.persistent);
          current = ground (arith, same_saved, c.current);
        }
  ]

  progress-IsCurrent : (q : ℕ) (s : Progress) → Transfers m q → IsCurrent (progress m q s)
  unfolding progress after_progress progress_entry
  progress-IsCurrent q (Progress.planned a b) t = saves-IsCurrent _
  progress-IsCurrent q s (e, h, r) = record {
    persistent = c.persistent;
    current =
        c.current
        ∙ sym (
            saved_jobs-update_first (λ x. x.ptr == q) (progress_entry s) m.jobs e h (ground arith)
              refl);
  }

  remove-IsCurrent :
      (p : Platform) (job : Job) (discard : Bool) → IsCurrent (remove p m job discard)
  unfolding remove
  remove-IsCurrent p job discard = elim (Option-cases (take_same job discard m.jobs)) [
    | inl e ↦ rw (e, remove) c
    | inr (r, e) ↦
        rw (e, remove)
          (end_IsCurrent refl refl refl
            (discard_if-IsCurrent p _ _ _ (save_locked-IsCurrent _ c.persistent w)))
  ]

  release-IsCurrent : (p : Platform) (q : ℕ) → IsCurrent (release p m q)
  unfolding release release_entry
  release-IsCurrent p q = elim (Option-cases (held_entry m q)) [
    | inl h ↦ rw (h, release) (end_IsCurrent refl refl refl c)
    | inr (e, h) ↦ elim (Bool-cases e.removed) [
      | inl r ↦
          rw (h, release, r, release_entry)
            (end_IsCurrent refl refl refl
              (discard_if-IsCurrent p _ _ _ (save_locked-IsCurrent _ c.persistent w)))
      | inr r ↦ rw (h, release, r, release_entry) (end_IsCurrent refl refl refl c)
    ]
  ]

  move-IsCurrent : (job : Job) (step : _) → IsCurrent (move m job step)
  unfolding move
  move-IsCurrent job step = elim (Option-cases (move_indices m job step)) [
    | inl e ↦ rw (e, move) c
    | inr (ij, e) ↦ rw (e, move) (end_IsCurrent refl refl refl (saves-IsCurrent _))
  ]

  enqueue_found-IsCurrent :
      {n : Manager} (job : Job) (token : Text) (r : Search)
      → enqueue_found m job token r ≡ ok n
      → IsCurrent n
  unfolding enqueue_found
  enqueue_found-IsCurrent job token Search.stopping h = cc
  enqueue_found-IsCurrent job token Search.active h = subst IsCurrent (ok-injective h) c
  enqueue_found-IsCurrent job token Search.absent h =
      subst IsCurrent (ok-injective h)
        (end_IsCurrent refl refl refl (save_locked-IsCurrent _ c.persistent w))
  enqueue_found-IsCurrent job token (Search.again es) h =
      subst IsCurrent (ok-injective h)
        (end_IsCurrent refl refl refl (save_locked-IsCurrent _ c.persistent w))

  quiet-IsCurrent : (es : List Entry) → IsCurrent (wake (save_locked (record m { jobs = es })))
  quiet-IsCurrent es = end_IsCurrent refl refl refl (saves-IsCurrent es)

-- While the file can be written, every step leaves it listing exactly the jobs of the queue that
-- are neither complete nor being removed, in the queue's order.
pub Step-IsCurrent :
    {p : Platform} {m n : Manager} → Step p m n → m.writable ≡ true → IsCurrent m → IsCurrent n
unfolding cancel cancel_all cancel_account finish
Step-IsCurrent {p} {m} {n} (Step.enqueues job token h) w c =
    enqueue_found-IsCurrent c w job token _ (enqueue_job-eq_ok p m n job token h).1
Step-IsCurrent (Step.cancels app) w c = quiet-IsCurrent c w _
Step-IsCurrent {p} (Step.removes job discard) w c = remove-IsCurrent c w p job discard
Step-IsCurrent (Step.moves job step) w c = move-IsCurrent c w job step
Step-IsCurrent Step.cancels_all w c = quiet-IsCurrent c w _
Step-IsCurrent (Step.cancels_account key) w c = quiet-IsCurrent c w _
Step-IsCurrent (Step.sets_account key h) w c = set_account-IsCurrent c key h
Step-IsCurrent (Step.adopts key h) w c = adopt_legacy-IsCurrent c w key h
Step-IsCurrent (Step.sets_parallel jobs) w c = set_parallel-IsCurrent c jobs
Step-IsCurrent (Step.claims q token h) w c = claim-IsCurrent c w q token h
Step-IsCurrent (Step.progresses q s t) w c = progress-IsCurrent c w q s t
Step-IsCurrent (Step.finishes q token o) w c = quiet-IsCurrent c w _
Step-IsCurrent {p} (Step.releases q) w c = release-IsCurrent c w p q
Step-IsCurrent (Step.disk_changes writable) w c = end_IsCurrent refl refl refl c

load_entry_saved :
    (p : Platform) (e : Entry) (n : ℕ)
    → (save_entry (load_entry p (save_entry e) n n) ≡ save_entry e)
      × (is_saved (load_entry p (save_entry e) n n) ≡ true)
unfolding load_entry
load_entry_saved p e n = (refl, refl)

-- Reading the file back after a restart gives, in the same order, the jobs that were saved (game,
-- name, account, folder, build, slug and whether the version was chosen), if each passes the
-- constructor's checks. Written again they give the same file.
pub saved_jobs-load_jobs :
    (p : Platform) (es : List Entry) (n : ℕ)
    → All (λ j. acceptable p j ≡ true) (saved_jobs es)
    → saved_jobs (load_jobs p (saved_jobs es) n) ≡ saved_jobs es
unfolding saved_jobs load_jobs
saved_jobs-load_jobs p [] n h = refl
saved_jobs-load_jobs p (e ∷ es) n h = elim (Bool-cases (is_saved e)) [
  | inl k ↦ ground (arith, load_entry_saved p e n, saved_jobs-load_jobs p es (n + 1))
  | inr k ↦ rw k (saved_jobs-load_jobs p es n (rw k at h))
]
