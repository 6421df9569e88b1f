-- ===== src/Download/Steps.antt =====
-- The histories of a `Manager` (src/common/download/manager.cpp): every request, and every step
-- of a worker thread, in any order. A step is one critical section of the mutex, with what its
-- caller does before it takes the next one.
use rift_lift.Common.{ℤ, ℕ, Bool, true, some, Text, ◌≡◌, ◌==◌, find, ok}
use rift_lift.Download.Job.{Job, Entry, running}
use rift_lift.Download.Manager.{Platform, Manager}
use rift_lift.Download.Requests.{
  enqueue_job, cancel, remove, move, cancel_all, cancel_account, set_account, adopt_legacy,
  set_parallel,
}
use rift_lift.Download.Worker.{claim, Progress, progress, Outcome, finish, release}

-- The job at address `q` is in the queue and a worker transfers it.
abbrev pub Transfers : Manager → ℕ → Type 0
Transfers m q = (e : Entry) × (find (λ x. x.ptr == q) m.jobs ≡ some e) × (running e ≡ true)

module _ (p : Platform) where
  pub data Step : Manager → Manager → Type 0 where
    enqueues :
        {m n : Manager} (job : Job) (token : Text) → enqueue_job p m job token ≡ ok n → Step m n
    cancels : {m : Manager} (app : Text) → Step m (cancel m app)
    removes : {m : Manager} (job : Job) (discard : Bool) → Step m (remove p m job discard)
    moves : {m : Manager} (job : Job) (step : ℤ) → Step m (move m job step)
    cancels_all : {m : Manager} → Step m (cancel_all m)
    cancels_account : {m : Manager} (key : Text) → Step m (cancel_account m key)
    sets_account : {m n : Manager} (key : Text) → set_account m key ≡ ok n → Step m n
    adopts : {m n : Manager} (primary : Text) → adopt_legacy m primary ≡ ok n → Step m n
    sets_parallel : {m : Manager} (jobs : ℕ) → Step m (set_parallel m jobs)
    claims : {m n : Manager} (q : ℕ) (token : Text) → claim m ≡ some (q, token, n) → Step m n
    progresses : {m : Manager} (q : ℕ) (s : Progress) → Transfers m q → Step m (progress m q s)
    finishes : {m : Manager} (q : ℕ) (token : Text) (o : Outcome) → Step m (finish m q token o)
    releases : {m : Manager} (q : ℕ) → Step m (release p m q)
    -- The disk fills up, or has room again.
    disk_changes : {m : Manager} (writable : Bool) → Step m (record m { writable = writable })

  pub data Reach (m : Manager) : Manager → Type 0 where
    here : Reach m m
    then : {n o : Manager} → Reach m n → Step n o → Reach m o
