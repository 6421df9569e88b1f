-- ===== src/Download/Requests.antt =====
-- The requests of src/common/download/manager.cpp: `enqueue_job`, `enqueue`, `enqueue_version`,
-- `cancel`, `remove`, `release`, `move`, `resume`, `cancel_all`, `cancel_account`, `set_account`,
-- `adopt_legacy`, `set_parallel`, `snapshot` and `busy`. Each is one critical section.
use rift_lift.Common.{
  ℤ, pos, negsuc, ℕ, suc, ◌+◌, ◌-◌, Bool, true, false, not, ◌&&◌, ◌||◌, List, [], ◌∷◌, ◌++◌, map,
  Option, none, some, Text, codes, text_eq, is_empty, leb, min, max, get_elem?, any, keep, Result,
  ok, err, require, ◌>>◌, swap, if◌then◌else◌,
}
use rift_lift.Names.{digits, valid_slug, valid_account_key}
use rift_lift.Download.Job.{Job, Entry, State, default_job, same, is_queued, is_active, running}
use rift_lift.Download.Manager.{
  Platform, Manager, max_parallel, notify, wake, save_locked, discard_files,
}

abbrev pub visible : Manager → Job → Bool
visible m job = text_eq job.account m.active_account

-- How the loop of `enqueue_job` ends: no job is the same, the same one is being removed, it is
-- already under way, or it is queued again.
pub data Search : Type 0 where
  absent stopping active : Search
  again : List Entry → Search

unfoldable pub requeue : Entry → Job → Text → ℕ → Entry
requeue e job token generation = record e {
  job = record e.job {
    state = State.queued;
    generation = generation;
    error = [];
    done = 0;
    total = 0;
    bytes_per_second = 0;
    root = job.root;
    name = job.name;
  };
  token = token;
  stopped = false;
}

unfoldable pub behind : Entry → Search → Search
behind e (again es) = again (e ∷ es)
behind e other = other

unfoldable pub search_same : Job → Text → ℕ → List Entry → Search
search_same job token generation [] = absent
search_same job token generation (e ∷ es) =
    if same e.job job
    then (if e.removed
        then stopping
        else if is_active e.job.state
        then active
        else again (requeue e job token generation ∷ es))
    else behind e (search_same job token generation es)

unfoldable pub new_entry : Manager → Job → Text → Entry
new_entry m job token = record {
  ptr = m.next_ptr;
  job = record job { generation = m.next_generation; state = State.queued };
  token = token;
  stopped = false;
  removed = false;
  discard = false;
}

abbrev pub saved_notify_wake : Manager → Manager
saved_notify_wake m = wake (notify (save_locked m))

unfoldable pub enqueue_found : Manager → Job → Text → Search → Result Manager
unfolding new_entry
enqueue_found m job token stopping =
    err (codes "The cancelled download is still stopping. Try again shortly.")
enqueue_found m job token active = ok m
enqueue_found m job token (again es) =
    ok (saved_notify_wake (record m { jobs = es; next_generation = m.next_generation + 1 }))
enqueue_found m job token absent = ok (
    saved_notify_wake (record m {
      jobs = m.jobs ++ new_entry m job token ∷ [];
      next_generation = m.next_generation + 1;
      next_ptr = m.next_ptr + 1;
    }))

unfoldable pub enqueue_job : Platform → Manager → Job → Text → Result Manager
enqueue_job p m job token = do
  require (valid_account_key job.account) (codes "Select a signed-in account before downloading.")
  require (not (is_empty token)) (codes "Sign in before resuming downloads.")
  require (digits job.app_id 5 30 && p.is_absolute job.root) (codes "Invalid download destination.")
  enqueue_found m job token (search_same job token m.next_generation m.jobs)

-- `enqueue` with an account; without one the caller passes `m.active_account` (`active_key`).
unfoldable pub enqueue : Platform → Manager → Text → Text → Text → Text → Text → Result Manager
enqueue p m app name root token account =
    enqueue_job p m
      (record default_job { app_id = app; name = name; root = root; account = account }) token

unfoldable pub enqueue_version :
    Platform → Manager → Text → Text → Text → Text → Text → Text → Text → Result Manager
enqueue_version p m app binary_id package_name name root token account = do
  require (digits binary_id 1 30 && valid_slug package_name) (codes "Invalid version to download.")
  enqueue_job p m
      (record default_job {
        app_id = app;
        binary_id = binary_id;
        package_name = package_name;
        name = name;
        root = root;
        account = account;
        pinned = true;
      })
      token

unfoldable pub resume : Platform → Manager → Job → Text → Result Manager
resume p m job token =
    if job.pinned
    then enqueue_version p m job.app_id job.binary_id job.package_name job.name job.root token
        m.active_account
    else enqueue p m job.app_id job.name job.root token m.active_account

-- `if (e->job.state == State::queued) e->job.state = State::paused`
abbrev pub pause_queued : Job → Job
pause_queued job = if is_queued job.state then record job { state = State.paused } else job

unfoldable pub cancel_entry : Manager → Text → Entry → Entry
cancel_entry m app e =
    if text_eq e.job.app_id app && not e.job.pinned && visible m e.job
    then record e {
      stopped = true;
      job = pause_queued e.job;
      token = if is_queued e.job.state then [] else e.token;
    }
    else e

unfoldable pub cancel : Manager → Text → Manager
cancel m app = wake (save_locked (record m { jobs = map (cancel_entry m app) m.jobs }))

unfoldable pub stop_entry : Entry → Entry
stop_entry e = record e { stopped = true; job = pause_queued e.job; token = [] }

unfoldable pub cancel_all : Manager → Manager
cancel_all m = wake (save_locked (record m { jobs = map stop_entry m.jobs }))

unfoldable pub stop_account : Text → Entry → Entry
unfolding stop_entry
stop_account key e = if text_eq e.job.account key then stop_entry e else e

unfoldable pub cancel_account : Manager → Text → Manager
cancel_account m key = wake (save_locked (record m { jobs = map (stop_account key) m.jobs }))

unfoldable pub mark_removed : Bool → Entry → Entry
mark_removed discard e = record e { stopped = true; token = []; removed = true; discard = discard }

-- `remove`'s target, the entries after it is taken out or marked, and whether it was taken out.
pub record Removal : Type 0 where
  pub left : List Entry
  pub target : Entry
  pub gone : Bool

abbrev pub left_behind : Entry → Option Removal → Option Removal
left_behind e none = none
left_behind e (some r) = some (record r { left = e ∷ r.left })

unfoldable pub take_same : Job → Bool → List Entry → Option Removal
unfolding mark_removed
take_same job discard [] = none
take_same job discard (e ∷ es) =
    if not e.removed && same e.job job
    then some (record {
      left = if running e then mark_removed discard e ∷ es else es;
      target = mark_removed discard e;
      gone = not (running e);
    })
    else left_behind e (take_same job discard es)

unfoldable pub discard_if : Platform → Bool → Manager → Job → Manager
discard_if p b m job = if b then discard_files p m job else m

unfoldable pub remove : Platform → Manager → Job → Bool → Manager
unfolding discard_if
remove p m job discard = elim (take_same job discard m.jobs) [
  | none ↦ m
  | some r ↦ wake (
      discard_if p (r.gone && r.target.discard)
        (save_locked (record m {
          jobs = r.left;
          detached = if r.gone then r.target ∷ m.detached else m.detached;
        }))
        r.target.job)
]

-- The visible position `at + step`; `negsuc n` is -(n + 1).
unfoldable pub shifted : ℕ → ℤ → Option ℕ
shifted at (pos n) = some (at + n)
shifted at (negsuc n) = if leb (n + 1) at then some (at - (n + 1)) else none

abbrev pub is_shown : Manager → Entry → Bool
is_shown m e = visible m e.job && not e.removed

-- `shown`: the indices of the shown jobs, `i` being that of the first entry.
unfoldable pub shown_from : Manager → ℕ → List Entry → List ℕ
shown_from m i [] = []
shown_from m i (e ∷ es) =
    if is_shown m e then i ∷ shown_from m (suc i) es else shown_from m (suc i) es

-- `at`: the place among the shown jobs of the last one that is the same; `k` counts those before.
unfoldable pub place_of : Manager → Job → ℕ → Option ℕ → List Entry → Option ℕ
place_of m job k at [] = at
place_of m job k at (e ∷ es) =
    place_of m job (if is_shown m e then k + 1 else k)
      (if is_shown m e && same e.job job then some k else at) es

-- The two indices that `move` exchanges.
unfoldable pub move_indices : Manager → Job → ℤ → Option (ℕ × ℕ)
unfolding shifted
move_indices m job step =
    let shown = shown_from m 0 m.jobs in
    elim (place_of m job 0 none m.jobs) [
      | none ↦ none
      | some at ↦ elim (shifted at step) [
        | none ↦ none
        | some to ↦ elim (get_elem? shown at) [
          | none ↦ none
          | some i ↦ elim (get_elem? shown to) [ none ↦ none | some j ↦ some (i, j) ]
        ]
      ]
    ]

unfoldable pub move : Manager → Job → ℤ → Manager
move m job step = elim (move_indices m job step) [
  | none ↦ m
  | some (i, j) ↦ wake (save_locked (record m { jobs = swap m.jobs i j }))
]

unfoldable pub snapshot : Manager → Text → List Job
snapshot m account =
    map (λ e. e.job) (keep (λ e. text_eq e.job.account account && not e.removed) m.jobs)

unfoldable pub set_account : Manager → Text → Result Manager
set_account m key = do
  require (is_empty key || valid_account_key key) (codes "Invalid account key.")
  ok (record m { active_account = key })

unfoldable pub adopt_entry : Text → Entry → Entry
adopt_entry primary e =
    if is_empty e.job.account then record e { job = record e.job { account = primary } } else e

unfoldable pub adopt_legacy : Manager → Text → Result Manager
adopt_legacy m primary = do
  require (valid_account_key primary) (codes "Invalid primary account key.")
  ok (save_locked (record m { jobs = map (adopt_entry primary) m.jobs }))

-- `std::clamp(jobs, 1u, max_parallel)`
unfoldable pub set_parallel : Manager → ℕ → Manager
set_parallel m jobs = notify (record m { parallel = min (max jobs 1) max_parallel })

unfoldable pub busy : Manager → Bool
busy m = any (λ e. is_active e.job.state) m.jobs
