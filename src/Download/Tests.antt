-- ===== src/Download/Tests.antt =====
-- The download queue on small inputs, and its theorems at them.
use rift_lift.Common.{
  ℤ, ℕ, zero, suc, List, ◌≤◌, ◌<◌, ◌≡◌, refl, true, false, [], ◌∷◌, ◌++◌, none, some, Text, codes,
  text_eq, is_empty, count_if, arith, Result, ok, err, starts_with, swap,
}
use rift_lift.Names.{digits, valid_account_key}
use rift_lift.Download.Job.{Job, Entry, same, default_job, running}
use rift_lift.Download.Manager.{
  Platform, Manager, max_parallel, saved_jobs, acceptable, construct, load_jobs, save_locked,
}
use rift_lift.Download.Requests.{behind, shifted, enqueue_job, search_same, enqueue_found, move}
use rift_lift.Download.Worker.{claim, next, running_app, eligible, start_entry}
use rift_lift.Download.Steps.{Step, Reach}
use rift_lift.Download.Opening.{transfers_bounded, claim_has_token}
use rift_lift.Download.Order.{Splits, Free, claim_first, claim_progress}
use rift_lift.Download.Asked.{shown, Asked}
use rift_lift.Download.Moves.{shown-move}
use rift_lift.Download.Persistence.{IsCurrent, Step-IsCurrent, saved_jobs-load_jobs}

abbrev slash : ℕ
slash = b'/'

abbrev host : Platform
host = record {
  is_absolute = λ path. starts_with path (slash ∷ []);
  join = λ a b. a ++ slash ∷ b;
  within = λ root target. starts_with target root;
  remove_tree = λ root target files. some [];
}

abbrev key : Text
key = codes "0123456789ab"

abbrev echo : Job
echo = record default_job {
  app_id = codes "12345";
  name = codes "Echo";
  root = codes "/games";
  account = key;
}

abbrev storm : Job
storm = record default_job {
  app_id = codes "67890";
  name = codes "Storm";
  root = codes "/games";
  account = key;
}

abbrev value : Manager → Result Manager → Manager
value m (ok n) = n
value m (err e) = m

abbrev claimed : Manager → Manager
claimed m = elim (claim m) [ none ↦ m | some c ↦ c.2 ]

-- A new manager, with one job, with two, and with the first one started.
empty_queue : Manager
unfolding construct load_jobs save_locked
empty_queue = construct host true (some key) (some []) [] []

one_job : Manager
unfolding empty_queue enqueue_job valid_account_key digits starts_with enqueue_found search_same
    same behind text_eq
one_job = value empty_queue (enqueue_job host empty_queue echo (codes "t"))

two_jobs : Manager
unfolding one_job
two_jobs = value one_job (enqueue_job host one_job storm (codes "u"))

one_started : Manager
unfolding two_jobs claim next text_eq
one_started = claimed two_jobs

first_claim : claim two_jobs ≡ some (1, codes "t", one_started)
unfolding one_started
first_claim = refl

started : Reach host empty_queue one_started
unfolding one_started
started =
    Reach.then
      (Reach.then (Reach.then Reach.here (Step.enqueues echo (codes "t") refl))
        (Step.enqueues storm (codes "u") refl))
      (Step.claims 1 (codes "t") refl)

waiting : Reach host empty_queue two_jobs
unfolding two_jobs
waiting =
    Reach.then (Reach.then Reach.here (Step.enqueues echo (codes "t") refl))
      (Step.enqueues storm (codes "u") refl)

transfers_bounded_example :
    (count_if running one_started.jobs ≤ max_parallel)
    × ((app : Text) → count_if (running_app app) one_started.jobs ≤ 1)
    × (1 ≤ one_started.parallel)
    × (one_started.parallel ≤ max_parallel)
unfolding empty_queue
transfers_bounded_example =
    transfers_bounded host true (some key) (some []) [] [] one_started started

claim_has_token_example : is_empty (codes "t") ≡ false
unfolding empty_queue
claim_has_token_example =
    claim_has_token host true (some key) (some []) [] [] two_jobs one_started 1 (codes "t") waiting
      first_claim

claim_first_example :
    (x : Entry) × (1 ≡ x.ptr)
    × (codes "t" ≡ x.token)
    × (count_if running two_jobs.jobs < two_jobs.parallel)
    × Splits (eligible two_jobs.jobs) start_entry two_jobs.jobs one_started.jobs x
claim_first_example = claim_first two_jobs one_started 1 (codes "t") first_claim

abbrev nth : ℕ → List Entry → Entry
nth k [] = record {
  ptr = 0;
  job = default_job;
  token = [];
  stopped = false;
  removed = false;
  discard = false;
}
nth zero (x ∷ xs) = x
nth (suc k) (x ∷ xs) = nth k xs

echo_entry : Entry
unfolding two_jobs
echo_entry = nth 0 two_jobs.jobs

storm_entry : Entry
unfolding two_jobs
storm_entry = nth 1 two_jobs.jobs

echo_is_Free : Free (codes "12345") two_jobs.jobs
unfolding two_jobs text_eq
echo_is_Free = (λ h. ((λ e. absurd cc), λ e. absurd cc), ((λ h. absurd cc), tt))

claim_progress_example :
    (q : ℕ) × (token : Text) × (n : Manager) × (claim two_jobs ≡ some (q, token, n))
unfolding two_jobs echo_entry storm_entry
claim_progress_example =
    claim_progress two_jobs [] (storm_entry ∷ []) echo_entry refl (omega arith) refl echo_is_Free

storm-Asked : Asked storm_entry.job storm
unfolding storm_entry two_jobs
storm-Asked = record { app_id = refl; account = refl; pinned = refl; binary_id = λ h. refl }

shown-move_example :
    shown two_jobs (move two_jobs storm (ℤ.negsuc 0)).jobs ≡ swap (shown two_jobs two_jobs.jobs) 1 0
unfolding two_jobs echo_entry storm_entry shifted
shown-move_example =
    shown-move two_jobs storm (ℤ.negsuc 0) (echo_entry ∷ []) [] storm_entry 0 refl storm-Asked tt
      refl (omega arith)

Step-IsCurrent_example : IsCurrent one_started
unfolding one_started
Step-IsCurrent_example =
    Step-IsCurrent {p = host} {m = two_jobs} (Step.claims 1 (codes "t") refl) refl
      (record { persistent = refl; current = refl })

saved_jobs-load_jobs_example :
    saved_jobs (load_jobs host (saved_jobs two_jobs.jobs) 1) ≡ saved_jobs two_jobs.jobs
unfolding two_jobs saved_jobs acceptable
saved_jobs-load_jobs_example = saved_jobs-load_jobs host two_jobs.jobs 1 (refl, (refl, tt))
