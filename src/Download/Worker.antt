-- ===== src/Download/Worker.antt =====
-- The worker loop `Manager::run` of src/common/download/manager.cpp: choosing a job, the state it
-- passes through while `install` runs, how the run ends, and `release`.
use rift_lift.Common.{
  ℕ, Bool, not, ◌&&◌, List, [], Option, none, some, Text, codes, text_eq, is_empty, ltb,
  update_first, ◌==◌, any, keep, count_if, find, if◌then◌else◌,
}
use rift_lift.Download.Job.{Job, Entry, State, is_queued, running}
use rift_lift.Download.Manager.{Platform, Manager, notify, wake, save_locked}
use rift_lift.Download.Requests.{discard_if}

abbrev pub running_app : Text → Entry → Bool
running_app app e = running e && text_eq e.job.app_id app

abbrev pub eligible : List Entry → Entry → Bool
eligible jobs x = is_queued x.job.state && not (any (running_app x.job.app_id) jobs)

-- `next`: the first queued job in list order whose game has no running job, while fewer than
-- `parallel` run.
unfoldable pub next : Manager → Option Entry
next m = if ltb (count_if running m.jobs) m.parallel then find (eligible m.jobs) m.jobs else none

abbrev pub set_state : Entry → State → Entry
set_state e s = record e { job = record e.job { state = s } }

unfoldable pub start_entry : Entry → Entry
start_entry e = record e { job = record e.job { state = State.checking; phase = [] }; token = [] }

-- The worker's writes through its pointer.
abbrev pub at_ptr : ℕ → (Entry → Entry) → List Entry → List Entry
at_ptr q = update_first (λ e. e.ptr == q)

-- What a worker takes with it: the entry's address and the token.
unfoldable pub claim : Manager → Option (ℕ × Text × Manager)
unfolding start_entry
claim m = elim (next m) [
  | none ↦ none
  | some x ↦
      some (
        x.ptr,
        x.token,
        wake (record m { jobs = update_first (eligible m.jobs) start_entry m.jobs }),
      )
]

-- What `install` does to the job as it goes: it names it from the plan, begins to download, counts
-- what it has received, begins to assemble, takes up a file, and counts what is assembled.
pub data Progress : Type 0 where
  planned : Text → Text → Progress
  download : ℕ → Progress
  received : ℕ → ℕ → Progress
  assemble : ℕ → Progress
  take_up : Text → Progress
  assembled : ℕ → Progress

abbrev pub or_else : Text → Text → Text
or_else s t = if is_empty s then t else s

unfoldable pub progress_job : Progress → Job → Job
progress_job (planned package_name name) j = record j {
  package_name = or_else j.package_name package_name;
  name = or_else j.name name;
}
progress_job (download total) j = record j {
  state = State.downloading;
  phase = codes "Downloading";
  total = total;
  done = 0;
}
progress_job (received done rate) j = record j { done = done; bytes_per_second = rate }
progress_job (assemble remaining) j = record j {
  phase = codes "Assembling files";
  total = remaining;
  done = 0;
  bytes_per_second = 0;
}
progress_job (take_up file) j = record j { file = file }
progress_job (assembled done) j = record j { done = done }

-- Naming the job saves the queue; the larger steps wake the window.
unfoldable pub after_progress : Progress → Manager → Manager
after_progress (planned package_name name) m = save_locked m
after_progress (take_up file) m = m
after_progress _ m = wake m

unfoldable pub progress_entry : Progress → Entry → Entry
unfolding progress_job
progress_entry s e = record e { job = progress_job s e.job }

unfoldable pub progress : Manager → ℕ → Progress → Manager
unfolding progress_entry after_progress
progress m q s = after_progress s (record m { jobs = at_ptr q (progress_entry s) m.jobs })

-- How `install` ended: it returned, or it threw one of the three kinds of exception.
pub data Outcome : Type 0 where
  installed filesystem_error json_exception : Outcome
  exception : Text → Outcome

abbrev pub stopped_state : Entry → State
stopped_state e = if e.stopped then State.paused else State.failed

unfoldable pub end_entry : Outcome → Entry → Entry
end_entry installed e = record e {
  job = record e.job {
    state = State.complete;
    done = e.job.total;
    bytes_per_second = 0;
    file = [];
  };
}
end_entry filesystem_error e = record e {
  job = record e.job {
    state = stopped_state e;
    error =
        codes
          "Could not access the download folder. Check free space and permissions, then resume.";
  };
}
end_entry json_exception e = record e {
  job = record e.job {
    state = State.failed;
    error = codes "Meta returned unexpected build details. Refresh the library and retry.";
  };
}
end_entry (exception what) e = record e {
  job = record e.job {
    state = stopped_state e;
    error = if e.stopped then codes "Downloaded segments saved. Resume to continue." else what;
    bytes_per_second = 0;
  };
}

-- An empty token throws before `install` is called.
abbrev pub outcome_of : Text → Outcome → Outcome
outcome_of token o =
    if is_empty token then exception (codes "Sign in before resuming downloads.") else o

unfoldable pub finish : Manager → ℕ → Text → Outcome → Manager
unfolding end_entry
finish m q token o =
    wake (save_locked (record m { jobs = at_ptr q (end_entry (outcome_of token o)) m.jobs }))

-- `std::erase(jobs_, e)`
unfoldable pub erase_ptr : ℕ → List Entry → List Entry
erase_ptr q es = keep (λ e. not (e.ptr == q)) es

unfoldable pub release_entry : Platform → Manager → Entry → Manager
unfolding erase_ptr
release_entry p m e =
    if e.removed
    then wake
        (discard_if p e.discard (save_locked (record m { jobs = erase_ptr e.ptr m.jobs })) e.job)
    else m

-- The entry is in the queue, or left it while the worker held it.
unfoldable pub held_entry : Manager → ℕ → Option Entry
held_entry m q = elim (find (λ e. e.ptr == q) m.jobs) [
  | none ↦ find (λ e. e.ptr == q) m.detached
  | some e ↦ some e
]

unfoldable pub release : Platform → Manager → ℕ → Manager
unfolding release_entry held_entry
release p m q = elim (held_entry m q) [ none ↦ notify m | some e ↦ release_entry p (notify m) e ]
