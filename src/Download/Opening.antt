-- ===== src/Download/Opening.antt =====
-- A manager that has just been constructed, and what holds from then on.
use rift_lift.Common.{
  ℕ, ◌+◌, ◌≤◌, ◌≡◌, refl, inl, inr, Bool, false, List, [], ◌∷◌, Option, none, some, Text, is_empty,
  count_if, arith, find, find-holds, Option-cases,
}
use rift_lift.Download.Job.{Entry, running, is_queued}
use rift_lift.Download.Manager.{
  Platform, Manager, Saved, max_parallel, load_entry, load_jobs, construct,
}
use rift_lift.Download.Worker.{running_app, next, claim, eligible}
use rift_lift.Download.Steps.{Reach}
use rift_lift.Download.Quieter.{unready}
use rift_lift.Download.Invariant.{Inv, InvOf, from_parts, saving}
use rift_lift.Download.Safety.{Reach-Inv}

load_entry_rests :
    (p : Platform) (j : Saved) (g q : ℕ)
    → (running (load_entry p j g q) ≡ false) × (is_queued (load_entry p j g q).job.state ≡ false)
unfolding load_entry
load_entry_rests p j g q = (refl, refl)

-- Restored jobs are paused: no test that fails for every resting entry counts any.
count_if-load_jobs :
    (p : Platform) (t : Entry → Bool)
    → ((e : Entry) → running e ≡ false → is_queued e.job.state ≡ false → t e ≡ false)
    → (js : List Saved) (n : ℕ) → count_if t (load_jobs p js n) ≡ 0
unfolding load_jobs
count_if-load_jobs p t h [] n = omega arith
count_if-load_jobs p t h (j ∷ js) n =
    let (r, q) = load_entry_rests p j n n in
    ground (
      arith,
      h (load_entry p j n n) r q,
      count_if-load_jobs p t h js (n + 1),
      count_if-load_jobs p t h js n,
    )

load_jobs-InvOf : (p : Platform) (js : List Saved) (n : ℕ) → InvOf 1 (load_jobs p js n)
load_jobs-InvOf p js n = (
  omega arith,
  omega arith,
  omega (arith, count_if-load_jobs p running (λ e r q. r) js n),
  λ app. omega (arith, count_if-load_jobs p (running_app app) (λ e r q. ground arith) js n),
  omega (arith, count_if-load_jobs p unready (λ e r q. ground arith) js n),
)

construct-Inv :
    (p : Platform) (persistent : Bool) (index : Option Text) (stored : Option (List Saved))
    (old : List Saved) (files : List Text)
    → Inv (construct p persistent index stored old files)
unfolding construct load_jobs
construct-Inv p persistent none stored old files =
    from_parts _ (simp saving (load_jobs-InvOf p [] 1))
construct-Inv p persistent (some a) none old files =
    from_parts _ (simp saving (load_jobs-InvOf p [] 1))
construct-Inv p persistent (some a) (some js) old files =
    from_parts _ (simp saving (load_jobs-InvOf p js 1))

-- After any history of requests and worker steps from a manager that was just constructed, at most
-- four jobs of the queue transfer, of each game at most one job of the queue does, and the limit on
-- parallel transfers is from 1 to 4. A job that `release` has taken out of the queue while another
-- worker runs it is not counted: it is no longer in the manager's state.
pub transfers_bounded :
    (p : Platform) (persistent : Bool) (index : Option Text) (stored : Option (List Saved))
    (old : List Saved) (files : List Text) (m : Manager)
    → Reach p (construct p persistent index stored old files) m
    → (count_if running m.jobs ≤ max_parallel)
      × ((app : Text) → count_if (running_app app) m.jobs ≤ 1)
      × (1 ≤ m.parallel)
      × (m.parallel ≤ max_parallel)
transfers_bounded p persistent index stored old files m r =
    let v = Reach-Inv r (construct-Inv p persistent index stored old files) in
    (v.few_running, v.exclusive, v.some_parallel, v.few_parallel)

count_if-zero :
    (t s : Entry → Bool) (es : List Entry) (x : Entry)
    → count_if t es ≡ 0
    → find s es ≡ some x
    → t x ≡ false
count_if-zero t s [] x h f = cc
count_if-zero t s (e ∷ es) x h f = ground (arith, count_if-zero t s es x)

-- After any such history, a job that a worker takes up comes with a token: the worker's own check
-- for an empty token never fires.
pub claim_has_token :
    (p : Platform) (persistent : Bool) (index : Option Text) (stored : Option (List Saved))
    (old : List Saved) (files : List Text) (m n : Manager) (q : ℕ) (token : Text)
    → Reach p (construct p persistent index stored old files) m
    → claim m ≡ some (q, token, n)
    → is_empty token ≡ false
unfolding claim next
claim_has_token p persistent index stored old files m n q token r h =
    let v = Reach-Inv r (construct-Inv p persistent index stored old files) in
    elim (Option-cases (find (eligible m.jobs) m.jobs)) [
      | inl e ↦ absurd (ground arith)
      | inr (x, e) ↦ ground (
        arith,
        find-holds (eligible m.jobs) m.jobs x e,
        count_if-zero unready (eligible m.jobs) m.jobs x v.ready e,
      )
    ]
