-- ===== src/Download/Safety.antt =====
-- The steps that start something, and the invariant after every history.
use rift_lift.Common.{
  ℕ, ◌+◌, ◌<◌, ◌≡◌, refl, inl, inr, Bool, true, false, List, [], ◌∷◌, ◌++◌, some, subst, Text,
  is_empty, text_eq, text_eq_iff, ltb, count_if, find, Bool-cases, Option-cases, count_if-append,
  arith, update_first, count_if_none, count_if-update_first, find-holds, ok,
}
use rift_lift.Download.Job.{Job, Entry, running}
use rift_lift.Download.Manager.{Platform, Manager, notify, wake}
use rift_lift.Download.Requests.{
  Search, absent, stopping, active, again, search_same, new_entry, enqueue_found, enqueue_job,
  saved_notify_wake,
}
use rift_lift.Download.Worker.{
  running_app, eligible, next, start_entry, claim, erase_ptr, release_entry, held_entry, release,
}
use rift_lift.Download.Steps.{Step, Reach}
use rift_lift.Download.Quieter.{unready, Quieter-keep, Quieter-search_same}
use rift_lift.Download.Invariant.{
  Inv, InvOf, from_parts, to_parts, Quieter-InvOf, saving, cancel-Inv, cancel_all-Inv,
  cancel_account-Inv, adopt_legacy-Inv, finish-Inv, set_account-Inv, set_parallel-Inv, move-Inv,
  remove-Inv, progress-Inv,
}

release_entry-Inv : (p : Platform) (m : Manager) (e : Entry) → Inv m → Inv (release_entry p m e)
unfolding release_entry erase_ptr
release_entry-Inv p m e v = elim (Bool-cases e.removed) [
  | inl r ↦
      rw r
        (from_parts _ (simp saving (Quieter-InvOf m.parallel (Quieter-keep _ m.jobs) (to_parts v))))
  | inr r ↦ rw r v
]

release-Inv : {m : Manager} → Inv m → (p : Platform) (q : ℕ) → Inv (release p m q)
unfolding release
release-Inv {m} v p q = elim (Option-cases (held_entry m q)) [
  | inl h ↦ rw (h, release) (from_parts _ (to_parts v))
  | inr (e, h) ↦ rw (h, release) (release_entry-Inv p (notify m) e (from_parts _ (to_parts v)))
]

-- A new entry is queued with a token, and runs nothing.
new_entry-InvOf :
    (m : Manager) (job : Job) (token : Text)
    → is_empty token ≡ false
    → InvOf m.parallel m.jobs
    → InvOf m.parallel (m.jobs ++ new_entry m job token ∷ [])
unfolding new_entry
new_entry-InvOf m job token t (a, b, c, d, e) =
    let more = λ (f : Entry → Bool). count_if-append f m.jobs (new_entry m job token ∷ []) in
    (
      a,
      b,
      ground (arith, more running),
      λ app. ground (arith, d app, more (running_app app)),
      ground (arith, more unready),
    )

enqueue_found-Inv :
    (m n : Manager) (job : Job) (token : Text) (r : Search)
    → Inv m
    → is_empty token ≡ false
    → search_same job token m.next_generation m.jobs ≡ r
    → enqueue_found m job token r ≡ ok n
    → Inv n
unfolding enqueue_found
enqueue_found-Inv m n job token stopping v t s h = cc
enqueue_found-Inv m n job token active v t s h = ground (arith, v)
enqueue_found-Inv m n job token (again es) v t s h = subst Inv (ground arith) (
    from_parts (saved_notify_wake (record m { jobs = es; next_generation = m.next_generation + 1 }))
      (simp saving (
        Quieter-InvOf m.parallel (Quieter-search_same job token m.next_generation m.jobs es t s)
          (to_parts v))))
enqueue_found-Inv m n job token absent v t s h = subst Inv (ground arith) (
    from_parts
      (saved_notify_wake (record m {
        jobs = m.jobs ++ new_entry m job token ∷ [];
        next_generation = m.next_generation + 1;
        next_ptr = m.next_ptr + 1;
      }))
      (simp saving (new_entry-InvOf m job token t (to_parts v))))

-- What `enqueue_job` has checked when it returns.
pub enqueue_job-eq_ok :
    (p : Platform) (m n : Manager) (job : Job) (token : Text)
    → enqueue_job p m job token ≡ ok n
    → (is_empty token ≡ false)
      × (enqueue_found m job token (search_same job token m.next_generation m.jobs) ≡ ok n)
unfolding enqueue_job
enqueue_job-eq_ok p m n job token h = ground arith

enqueue_job-Inv :
    {m n : Manager}
    → Inv m
    → (p : Platform) (job : Job) (token : Text) → enqueue_job p m job token ≡ ok n
    → Inv n
enqueue_job-Inv {m} {n} v p job token h =
    let (t, f) = enqueue_job-eq_ok p m n job token h in enqueue_found-Inv m n job token _ v t refl f

-- Starting an eligible job: one more runs, and none of its game ran.
start-InvOf :
    (k : ℕ) (es : List Entry) (x : Entry)
    → count_if running es < k
    → find (eligible es) es ≡ some x
    → InvOf k es
    → InvOf k (update_first (eligible es) start_entry es)
unfolding start_entry
start-InvOf k es x room f (a, b, c, d, e) =
    let can : eligible es x ≡ true = find-holds (eligible es) es x f in
    let one = λ (t : Entry → Bool). count_if-update_first t (eligible es) start_entry es x f in
    (
      a,
      b,
      ground (arith, one running),
      λ app. elim (Bool-cases (text_eq x.job.app_id app)) [
        | inl same_game ↦
            let idle : count_if (running_app app) es ≡ 0 =
              subst (λ a. count_if (running_app a) es ≡ 0)
                ((text_eq_iff x.job.app_id app).0 same_game)
                (count_if_none (running_app x.job.app_id) es (ground arith)) in
            ground (arith, idle, one (running_app app))
        | inr other_game ↦ ground (arith, d app, one (running_app app))
      ],
      ground (arith, one unready),
    )

claim-Inv : {m n : Manager} → Inv m → (q : ℕ) (token : Text) → claim m ≡ some (q, token, n) → Inv n
unfolding claim next
claim-Inv {m} {n} v q token h = elim (Bool-cases (ltb (count_if running m.jobs) m.parallel)) [
  | inr full ↦ absurd (ground arith)
  | inl room ↦ elim (Option-cases (find (eligible m.jobs) m.jobs)) [
    | inl e ↦ absurd (ground arith)
    | inr (x, e) ↦ subst Inv (ground arith) (
        from_parts (wake (record m { jobs = update_first (eligible m.jobs) start_entry m.jobs }))
          (start-InvOf m.parallel m.jobs x (ground arith) e (to_parts v)))
  ]
]

-- Every step keeps the invariant.
pub Step-Inv : {p : Platform} {m n : Manager} → Step p m n → Inv m → Inv n
Step-Inv {p} (Step.enqueues job token h) v = enqueue_job-Inv v p job token h
Step-Inv (Step.cancels app) v = cancel-Inv v app
Step-Inv {p} (Step.removes job discard) v = remove-Inv v p job discard
Step-Inv (Step.moves job step) v = move-Inv v job step
Step-Inv Step.cancels_all v = cancel_all-Inv v
Step-Inv (Step.cancels_account key) v = cancel_account-Inv v key
Step-Inv (Step.sets_account key h) v = set_account-Inv v key h
Step-Inv (Step.adopts key h) v = adopt_legacy-Inv v key h
Step-Inv (Step.sets_parallel jobs) v = set_parallel-Inv v jobs
Step-Inv (Step.claims q token h) v = claim-Inv v q token h
Step-Inv (Step.progresses q s t) v = progress-Inv v q s t
Step-Inv (Step.finishes q token o) v = finish-Inv v q token o
Step-Inv {p} (Step.releases q) v = release-Inv v p q
Step-Inv (Step.disk_changes writable) v = from_parts _ (to_parts v)

pub Reach-Inv : {p : Platform} {m n : Manager} → Reach p m n → Inv m → Inv n
Reach-Inv Reach.here v = v
Reach-Inv (Reach.then r s) v = Step-Inv s (Reach-Inv r v)
