-- ===== src/Download/Invariant.antt =====
-- What holds of the queue after every history of requests and worker steps.
use rift_lift.Common.{
  ℤ, ℕ, ◌≤◌, ◌≡◌, refl, inl, inr, Bool, true, List, map, subst, Text, count_if, Bool-cases,
  Option-cases, count_if-perm, swap-perm, swap, arith, ok,
}
use rift_lift.Names.{valid_account_key}
use rift_lift.Download.Job.{Job, Entry, running}
use rift_lift.Download.Manager.{Platform, Manager, max_parallel, save_locked, wake, discard_files}
use rift_lift.Download.Requests.{
  cancel, remove, move_indices, move, cancel_all, cancel_account, set_account, adopt_legacy,
  set_parallel, discard_if, take_same, adopt_entry,
}
use rift_lift.Download.Worker.{
  running_app, Progress, progress, after_progress, Outcome, outcome_of, finish,
}
use rift_lift.Download.Steps.{Transfers}
use rift_lift.Download.Quieter.{
  unready, Calm, Quieter, count_if-Quieter, Quieter-map, Quieter-at_ptr, Quieter-progress,
  Quieter-take_same, cancel_entry-Calm, stop_entry-Calm, stop_account-Calm, adopt_entry-Calm,
  end_entry-Calm,
}

-- `parallel` is from 1 to 4; no more jobs transfer than that limit can be; of one game at most one
-- job transfers; and every queued job has its token and is not being removed.
pub record Inv (m : Manager) : Type 0 where
  pub some_parallel : 1 ≤ m.parallel
  pub few_parallel : m.parallel ≤ max_parallel
  pub few_running : count_if running m.jobs ≤ max_parallel
  pub exclusive : (app : Text) → count_if (running_app app) m.jobs ≤ 1
  pub ready : count_if unready m.jobs ≡ 0

-- The invariant of a state with these jobs and this limit: all that the steps have to show.
abbrev pub InvOf : ℕ → List Entry → Type 0
InvOf parallel jobs =
    (1 ≤ parallel)
    × (parallel ≤ max_parallel)
    × (count_if running jobs ≤ max_parallel)
    × ((app : Text) → count_if (running_app app) jobs ≤ 1)
    × (count_if unready jobs ≡ 0)

pub from_parts : (m : Manager) → InvOf m.parallel m.jobs → Inv m
from_parts m (a, b, c, d, e) = record {
  some_parallel = a;
  few_parallel = b;
  few_running = c;
  exclusive = d;
  ready = e;
}

pub to_parts : {m : Manager} → Inv m → InvOf m.parallel m.jobs
to_parts v = (v.some_parallel, v.few_parallel, v.few_running, v.exclusive, v.ready)

running_app-Calm :
    (app : Text) (e f : Entry) → Calm e f → running_app app f ≡ true → running_app app e ≡ true
running_app-Calm app e f c h = ground (arith, c.app, c.runs)

pub Quieter-InvOf : (k : ℕ) {es fs : List Entry} → Quieter es fs → InvOf k es → InvOf k fs
Quieter-InvOf k q (a, b, c, d, e) = (
  a,
  b,
  omega (arith, count_if-Quieter running (λ e f c. c.runs) q),
  λ app. omega (arith, d app, count_if-Quieter (running_app app) (running_app-Calm app) q),
  omega (arith, count_if-Quieter unready (λ e f c. c.ready) q),
)

-- Saving, waking and discarding change neither the jobs nor the limit.
pub save_locked-jobs : (m : Manager) → (save_locked m).jobs ≡ m.jobs
unfolding save_locked
save_locked-jobs m = ground arith

pub save_locked-parallel : (m : Manager) → (save_locked m).parallel ≡ m.parallel
unfolding save_locked
save_locked-parallel m = ground arith

pub discard_if-jobs :
    (p : Platform) (b : Bool) (m : Manager) (job : Job) → (discard_if p b m job).jobs ≡ m.jobs
unfolding discard_if discard_files
discard_if-jobs p b m job = ground arith

pub discard_if-parallel :
    (p : Platform) (b : Bool) (m : Manager) (job : Job)
    → (discard_if p b m job).parallel ≡ m.parallel
unfolding discard_if discard_files
discard_if-parallel p b m job = ground arith

pub after_progress-jobs : (s : Progress) (m : Manager) → (after_progress s m).jobs ≡ m.jobs
unfolding after_progress
after_progress-jobs (Progress.planned a b) m = save_locked-jobs m
after_progress-jobs _ m = refl

pub after_progress-parallel :
    (s : Progress) (m : Manager) → (after_progress s m).parallel ≡ m.parallel
unfolding after_progress
after_progress-parallel (Progress.planned a b) m = save_locked-parallel m
after_progress-parallel _ m = refl

swap-InvOf : (k i j : ℕ) (es : List Entry) → InvOf k es → InvOf k (swap es i j)
swap-InvOf k i j es (a, b, c, d, e) =
    let same_count = λ (t : Entry → Bool). count_if-perm t (swap-perm es i j) in
    (
      a,
      b,
      omega (arith, same_count running),
      λ app. omega (arith, d app, same_count (running_app app)),
      omega (arith, same_count unready),
    )

pub ruleset saving = (
  save_locked-jobs, save_locked-parallel, discard_if-jobs, discard_if-parallel, after_progress-jobs,
  after_progress-parallel,
)

-- Steps that only quieten the queue.
module _ {m : Manager} (v : Inv m) where
  pub quiet-Inv :
      {es : List Entry} → Quieter m.jobs es → Inv (wake (save_locked (record m { jobs = es })))
  quiet-Inv q = from_parts _ (simp saving (Quieter-InvOf m.parallel q (to_parts v)))

  pub cancel-Inv : (app : Text) → Inv (cancel m app)
  unfolding cancel
  cancel-Inv app = quiet-Inv (Quieter-map _ (cancel_entry-Calm m app) m.jobs)

  pub cancel_all-Inv : Inv (cancel_all m)
  unfolding cancel_all
  cancel_all-Inv = quiet-Inv (Quieter-map _ stop_entry-Calm m.jobs)

  pub cancel_account-Inv : (key : Text) → Inv (cancel_account m key)
  unfolding cancel_account
  cancel_account-Inv key = quiet-Inv (Quieter-map _ (stop_account-Calm key) m.jobs)

  pub adopt_legacy-Inv : {n : Manager} (key : Text) → adopt_legacy m key ≡ ok n → Inv n
  unfolding adopt_legacy
  adopt_legacy-Inv key h = elim (Bool-cases (valid_account_key key)) [
    | inl k ↦ subst Inv (ground arith) (
        from_parts (save_locked (record m { jobs = map (adopt_entry key) m.jobs })) (
          simp saving
            (Quieter-InvOf m.parallel (Quieter-map _ (adopt_entry-Calm key) m.jobs) (to_parts v))))
    | inr k ↦ absurd (ground arith)
  ]

  pub finish-Inv : (q : ℕ) (token : Text) (o : Outcome) → Inv (finish m q token o)
  unfolding finish
  finish-Inv q token o = quiet-Inv (Quieter-at_ptr q _ (end_entry-Calm (outcome_of token o)) m.jobs)

  pub set_account-Inv : {n : Manager} (key : Text) → set_account m key ≡ ok n → Inv n
  unfolding set_account
  set_account-Inv key h = ground (arith, v)

  pub set_parallel-Inv : (jobs : ℕ) → Inv (set_parallel m jobs)
  unfolding set_parallel
  set_parallel-Inv jobs =
      from_parts _ (omega arith, omega arith, v.few_running, v.exclusive, v.ready)

  pub move-Inv : (job : Job) (step : ℤ) → Inv (move m job step)
  unfolding move
  move-Inv job step = elim (Option-cases (move_indices m job step)) [
    | inl e ↦ rw (e, move) v
    | inr ((i, j), e) ↦
        rw (e, move) (from_parts _ (simp saving (swap-InvOf m.parallel i j m.jobs (to_parts v))))
  ]

  pub remove-Inv : (p : Platform) (job : Job) (discard : Bool) → Inv (remove p m job discard)
  unfolding remove
  remove-Inv p job discard = elim (Option-cases (take_same job discard m.jobs)) [
    | inl e ↦ rw (e, remove) v
    | inr (r, e) ↦
        rw (e, remove)
          (from_parts _ (
            simp saving
              (Quieter-InvOf m.parallel (Quieter-take_same job discard m.jobs r e) (to_parts v))))
  ]

  pub progress-Inv : (q : ℕ) (s : Progress) → Transfers m q → Inv (progress m q s)
  unfolding progress
  progress-Inv q s (e, h, r) =
      from_parts _
        (simp saving (Quieter-InvOf m.parallel (Quieter-progress q s m.jobs e h r) (to_parts v)))
