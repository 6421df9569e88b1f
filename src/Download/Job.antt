-- ===== src/Download/Job.antt =====
-- src/common/download/manager.h: `State`, `Job`, `Manager::Entry`; manager.cpp: `same`, `label`,
-- `base_job`.
use rift_lift.Common.{
  ℕ, Bool, true, false, not, ◌&&◌, ◌||◌, List, [], Option, Text, codes, text_eq, find,
}

pub data State : Type 0 where
  queued checking downloading paused failed complete : State

-- `fs::path` is its text. `bytes_per_second` is a number of whole bytes.
pub record Job : Type 0 where
  pub app_id : Text
  pub name : Text
  pub file : Text
  pub error : Text
  pub root : Text
  pub state : State
  pub done : ℕ
  pub total : ℕ
  pub bytes_per_second : ℕ
  pub binary_id : Text
  pub pinned : Bool
  pub account : Text
  pub package_name : Text
  pub phase : Text
  pub generation : ℕ

-- `Job job;`
abbrev pub default_job : Job
default_job = record {
  app_id = [];
  name = [];
  file = [];
  error = [];
  root = [];
  state = paused;
  done = 0;
  total = 0;
  bytes_per_second = 0;
  binary_id = [];
  pinned = false;
  account = [];
  package_name = [];
  phase = [];
  generation = 1;
}

-- `std::shared_ptr<Entry>`: `ptr` is the object's address, `stopped` whether a stop was requested
-- of `cancel`.
pub record Entry : Type 0 where
  pub ptr : ℕ
  pub job : Job
  pub token : Text
  pub stopped : Bool
  pub removed : Bool
  pub discard : Bool

unfoldable pub label : State → Text
label queued = codes "Queued"
label checking = codes "Checking ownership and build"
label downloading = codes "Downloading"
label paused = codes "Paused"
label failed = codes "Needs attention"
label complete = codes "Installed"

abbrev pub bool_eq : Bool → Bool → Bool
bool_eq true b = b
bool_eq false b = not b

unfoldable pub same : Job → Job → Bool
same a b =
    text_eq a.app_id b.app_id
    && text_eq a.account b.account
    && bool_eq a.pinned b.pinned
    && (not a.pinned || text_eq a.binary_id b.binary_id)

unfoldable pub base_job : List Job → Text → Option Job
base_job jobs app = find (λ job. text_eq job.app_id app && not job.pinned) jobs

abbrev pub is_queued : State → Bool
is_queued queued = true
is_queued _ = false

abbrev pub is_complete : State → Bool
is_complete complete = true
is_complete _ = false

-- `running`: a worker transfers the job.
abbrev pub is_running : State → Bool
is_running checking = true
is_running downloading = true
is_running _ = false

abbrev pub is_active : State → Bool
is_active s = is_queued s || is_running s

abbrev pub running : Entry → Bool
running e = is_running e.job.state
