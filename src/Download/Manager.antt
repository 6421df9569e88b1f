-- ===== src/Download/Manager.antt =====
-- The state of `Manager` (src/common/download/manager.h), `save_locked`, the constructor's reading
-- of downloads.json, `install_dir` and `discard_files` (manager.cpp).
use rift_lift.Common.{
  length, true, ℕ, ◌+◌, Bool, false, not, ◌&&◌, ◌||◌, List, [], ◌∷◌, map, Option, none, some, Text,
  codes, is_empty, contains, Result, ok, err, keep, if◌then◌else◌,
}
use rift_lift.Names.{digits, valid_slug, valid_account_key}
use rift_lift.Download.Job.{Job, Entry, State, default_job, is_complete}

-- What the manager uses of the file system: `fs::path::is_absolute` and `operator/`,
-- `paths::within`, and `remove_tree`, which throws (`none`) or leaves other files behind.
pub record Platform : Type 0 where
  pub is_absolute : Text → Bool
  pub join : Text → Text → Text
  pub within : Text → Text → Bool
  pub remove_tree : Text → Text → List Text → Option (List Text)

-- One object of "jobs" in downloads.json.
pub record Saved : Type 0 where
  pub app_id : Text
  pub name : Text
  pub account : Text
  pub root : Text
  pub binary_id : Text
  pub package_name : Text
  pub pinned : Bool

-- `detached` holds the entries that left `jobs` while a worker may still hold them. `saved` is
-- the contents of downloads.json, `writable` whether the next write of it succeeds, `files` the
-- files that exist. `signals` and `wakes` count the calls of `cv_.notify_all` and `wake_`.
pub record Manager : Type 0 where
  pub jobs : List Entry
  pub detached : List Entry
  pub active_account : Text
  pub next_generation : ℕ
  pub next_ptr : ℕ
  pub discarded : ℕ
  pub parallel : ℕ
  pub persistent : Bool
  pub writable : Bool
  pub saved : List Saved
  pub files : List Text
  pub signals : ℕ
  pub wakes : ℕ

abbrev pub max_parallel : ℕ
max_parallel = 4

abbrev pub notify : Manager → Manager
notify m = record m { signals = m.signals + 1 }

abbrev pub wake : Manager → Manager
wake m = record m { wakes = m.wakes + 1 }

abbrev pub save_entry : Entry → Saved
save_entry e = record {
  app_id = e.job.app_id;
  name = e.job.name;
  account = e.job.account;
  root = e.job.root;
  binary_id = e.job.binary_id;
  package_name = e.job.package_name;
  pinned = e.job.pinned;
}

abbrev pub is_saved : Entry → Bool
is_saved e = not (is_complete e.job.state) && not e.removed

-- The "jobs" array that is written.
unfoldable pub saved_jobs : List Entry → List Saved
saved_jobs es = map save_entry (keep is_saved es)

-- A failed write is logged and leaves the old file.
unfoldable pub save_locked : Manager → Manager
save_locked m = if m.persistent && m.writable then record m { saved = saved_jobs m.jobs } else m

module _ (p : Platform) where
  unfoldable pub install_dir : Text → Text → Result Text
  install_dir root slug =
      if not (valid_slug slug && p.is_absolute root)
      then err (codes "Invalid game installation path.")
      else if not (p.within root (p.join root slug))
      then err (codes "Game path escapes the games directory.")
      else ok (p.join root slug)

  abbrev marker : Text
  marker = codes ".riftlift-download"

  -- Deletes the folder only while it is marked as unfinished. What is thrown is caught and logged.
  discard_dir : List Text → Text → Result Text → List Text
  discard_dir files root (err e) = files
  discard_dir files root (ok dir) =
      if contains files (p.join dir marker)
        && not (contains files (p.join dir (codes "manifest.json")))
      then elim (p.remove_tree root dir files) [ none ↦ files | some left ↦ left ]
      else files

  unfoldable pub discard_files : Manager → Job → Manager
  unfolding discard_dir install_dir
  discard_files m job = record m {
    files =
        if valid_slug job.package_name
        then discard_dir m.files job.root (install_dir job.root job.package_name)
        else m.files;
    discarded = m.discarded + 1;
  }

  -- The checks that the constructor makes of one saved job.
  unfoldable pub acceptable : Saved → Bool
  acceptable j =
      digits j.app_id 5 30
      && p.is_absolute j.root
      && (is_empty j.package_name || valid_slug j.package_name)
      && (not j.pinned || (digits j.binary_id 1 30 && not (is_empty j.package_name)))
      && (is_empty j.account || valid_account_key j.account)

  unfoldable pub load_entry : Saved → ℕ → ℕ → Entry
  load_entry j generation ptr = record {
    ptr = ptr;
    job = record default_job {
      app_id = j.app_id;
      name = j.name;
      root = j.root;
      binary_id = j.binary_id;
      package_name = j.package_name;
      pinned = j.pinned;
      account = j.account;
      state = State.paused;
      generation = generation;
    };
    token = [];
    stopped = false;
    removed = false;
    discard = false;
  }

  -- The constructor's loop over the saved jobs, which skips those that fail a check.
  unfoldable pub load_jobs : List Saved → ℕ → List Entry
  load_jobs [] n = []
  load_jobs (j ∷ js) n =
      let more = load_jobs js (n + 1) in
      let skipped = load_jobs js n in if acceptable j then load_entry j n n ∷ more else skipped

  -- The constructor. `index` is the account index's active account and `stored` the saved jobs;
  -- what cannot be read is `none`, which is caught and leaves the queue empty. A list that is not
  -- persistent reads no saved jobs: its caller passes `some []`.
  unfoldable pub construct :
      Bool → Option Text → Option (List Saved) → List Saved → List Text → Manager
  construct persistent index stored old files = save_locked (record {
    jobs = jobs;
    detached = [];
    active_account = elim index [ none ↦ [] | some active ↦ active ];
    next_generation = length jobs + 1;
    next_ptr = length jobs + 1;
    discarded = 0;
    parallel = 1;
    persistent = persistent;
    writable = true;
    saved = old;
    files = files;
    signals = 0;
    wakes = 0;
  })
    where
      jobs : List Entry
      jobs = elim index [
        | none ↦ []
        | some active ↦ elim stored [ none ↦ [] | some js ↦ load_jobs js 1 ]
      ]
