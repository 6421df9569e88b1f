-- ===== src/Install/Transfer.antt =====
-- The parallel part of `Manager::install` (src/common/download/manager.cpp): the workers that fetch
-- the missing segments, in every order of their steps. A step is one access to what they share: the
-- counter, the request to stop, the cache or the first failure. The cache shows the segments that
-- have their final name; the progress shown for the job has only `received`.
use rift_lift.Common.{
  get_elem?, ℕ, ◌+◌, min, Bool, true, false, not, ◌&&◌, List, [], ◌∷◌, none, some, Text, codes,
  is_empty, length, replicate, Result, ok, err, if◌then◌else◌, ◌≡◌, ◌≢◌,
}
use rift_lift.Rules.Env.{Env, insert}
use rift_lift.Install.Retry.{Answer, fetch_segment}

-- Where a worker is in its loop: before `next++`, after it with the index it got, fetching that
-- segment, in the handler of its exception, or out of the loop.
pub data Worker : Type 0 where
  looking : Worker
  took : ℕ → Worker
  fetching : ℕ → Worker
  throwing : Worker
  ended : Worker

-- What the workers share: `next`, `received`, whether `stop` and `abort` are requested, `failure`,
-- and the cache of segments.
pub record Transfer : Type 0 where
  pub next : ℕ
  pub received : ℕ
  pub stopped : Bool
  pub aborted : Bool
  pub failure : Text
  pub cache : Env
  pub workers : List Worker

-- The threads are `count`, or one for each segment if those are fewer.
unfoldable pub start : ℕ → List (Text × ℕ) → Env → Bool → Transfer
start count fetch cache stopped = record {
  next = 0;
  received = 0;
  stopped = stopped;
  aborted = stopped;
  failure = [];
  cache = cache;
  workers = replicate (min count (length fetch)) looking;
}

-- One of the workers goes from one place to another.
pub data Turn (v w : Worker) : List Worker → List Worker → Type 0 where
  first : {ws : List Worker} → Turn v w (v ∷ ws) (w ∷ ws)
  later : {x : Worker} {vs ws : List Worker} → Turn v w vs ws → Turn v w (x ∷ vs) (x ∷ ws)

-- The failure that is kept is the first, unless a stop was requested.
unfoldable pub first_failure : Text → Transfer → Text
first_failure what t = if is_empty t.failure && not t.stopped then what else t.failure

unfoldable pub weight : Bool → ℕ → ℕ
weight sized compressed = if sized then compressed else 1

-- `digest::sha256`, the list of the segments to fetch, and whether all sizes are known. An
-- exception's message is not empty, as those that this code throws are not.
module _ (sha256 : Text → Text) (fetch : List (Text × ℕ)) (sized : Bool) where
  pub data Step : Transfer → Transfer → Type 0 where
    stops : {t : Transfer} → Step t (record t { stopped = true })
    forwards : {t : Transfer} → t.stopped ≡ true → Step t (record t { aborted = true })
    takes :
        {t : Transfer} {ws : List Worker}
        → Turn looking (took t.next) t.workers ws
        → Step t (record t { next = t.next + 1; workers = ws })
    runs_out :
        {t : Transfer} {ws : List Worker} {i : ℕ}
        → Turn (took i) ended t.workers ws
        → get_elem? fetch i ≡ none
        → Step t (record t { workers = ws })
    gives_up :
        {t : Transfer} {ws : List Worker} {i : ℕ}
        → Turn (took i) ended t.workers ws
        → t.aborted ≡ true
        → Step t (record t { workers = ws })
    begins :
        {t : Transfer} {ws : List Worker} {i : ℕ} {x : Text × ℕ}
        → Turn (took i) (fetching i) t.workers ws
        → get_elem? fetch i ≡ some x
        → t.aborted ≡ false
        → Step t (record t { workers = ws })
    -- The segment is renamed to its place in the cache.
    stores :
        {t : Transfer} {ws : List Worker} {i : ℕ} {sha clear : Text} {compressed : ℕ}
        (answer : ℕ → Answer) (aborted_at : ℕ → Bool) (waits : List ℕ)
        → Turn (fetching i) looking t.workers ws
        → get_elem? fetch i ≡ some (sha, compressed)
        → fetch_segment sha256 answer aborted_at sha ≡ (ok clear, waits)
        → Step t (record t {
          workers = ws;
          cache = insert sha clear t.cache;
          received = t.received + weight sized compressed;
        })
    fails :
        {t : Transfer} {ws : List Worker} {i : ℕ} (what : Text)
        → Turn (fetching i) throwing t.workers ws
        → what ≢ []
        → Step t (record t { workers = ws; failure = first_failure what t })
    aborts :
        {t : Transfer} {ws : List Worker}
        → Turn throwing looking t.workers ws
        → Step t (record t { workers = ws; aborted = true })

  pub data Reach (t : Transfer) : Transfer → Type 0 where
    here : Reach t t
    onward : {u v : Transfer} → Reach t u → Step u v → Reach t v

-- What `install` finds when the threads are joined: the cache, or an exception.
unfoldable pub joined : Transfer → Result Env
joined t =
    if t.stopped
    then err (codes "Transfer paused.")
    else if not (is_empty t.failure)
    then err t.failure
    else ok t.cache

-- No thread is left.
abbrev pub is_ended : Worker → Bool
is_ended ended = true
is_ended other = false
