-- ===== src/Download/Quieter.antt =====
-- What most steps do to the queue: entries leave it or change in ways that start no transfer and
-- queue nothing without a token.
use rift_lift.Common.{
  ℕ, ◌≤◌, ◌≡◌, refl, inl, inr, Bool, true, false, not, ◌&&◌, ◌||◌, List, [], ◌∷◌, Option, none,
  some, map, subst, Text, is_empty, ◌==◌, count_if, keep, find, Bool-cases, arith,
}
use rift_lift.Download.Job.{Job, Entry, is_queued, running, same}
use rift_lift.Download.Requests.{
  Search, absent, stopping, active, again, requeue, behind, search_same, Removal, left_behind,
  take_same, mark_removed, cancel_entry, stop_entry, stop_account, adopt_entry,
}
use rift_lift.Download.Manager.{Manager}
use rift_lift.Download.Worker.{at_ptr, end_entry, Outcome, Progress, progress_entry}

-- A queued entry that no worker could take up: it has no token, or is marked as removed.
abbrev pub unready : Entry → Bool
unready e = is_queued e.job.state && (is_empty e.token || e.removed)

-- `f` becomes `e`: the same game, not newly running, not newly unready.
pub record Calm (e f : Entry) : Type 0 where
  pub app : f.job.app_id ≡ e.job.app_id
  pub runs : running f ≡ true → running e ≡ true
  pub ready : unready f ≡ true → unready e ≡ true

pub data Quieter : List Entry → List Entry → Type 0 where
  done : Quieter [] []
  change : {e f : Entry} {es fs : List Entry} → Calm e f → Quieter es fs → Quieter (e ∷ es) (f ∷ fs)
  leave : {e : Entry} {es fs : List Entry} → Quieter es fs → Quieter (e ∷ es) fs

-- What a test that calm changes do not make true counts, there is no more of.
pub count_if-Quieter :
    (t : Entry → Bool)
    → ((e f : Entry) → Calm e f → t f ≡ true → t e ≡ true)
    → {es fs : List Entry} → Quieter es fs
    → count_if t fs ≤ count_if t es
count_if-Quieter t h done = omega arith
count_if-Quieter t h (change {e} {f} c q) = ground (arith, h e f c, count_if-Quieter t h q)
count_if-Quieter t h (leave {e} q) = ground (arith, count_if-Quieter t h q)

pub Calm-refl : (e : Entry) → Calm e e
Calm-refl e = record { app = refl; runs = λ h. h; ready = λ h. h }

pub Quieter-refl : (es : List Entry) → Quieter es es
Quieter-refl [] = done
Quieter-refl (e ∷ es) = change (Calm-refl e) (Quieter-refl es)

pub Quieter-map :
    (f : Entry → Entry) → ((e : Entry) → Calm e (f e)) → (es : List Entry) → Quieter es (map f es)
Quieter-map f h [] = done
Quieter-map f h (e ∷ es) = change (h e) (Quieter-map f h es)

pub Quieter-keep : (t : Entry → Bool) (es : List Entry) → Quieter es (keep t es)
Quieter-keep t [] = done
Quieter-keep t (e ∷ es) = elim (Bool-cases (t e)) [
  | inl h ↦ rw h (change (Calm-refl e) (Quieter-keep t es))
  | inr h ↦ rw h (leave (Quieter-keep t es))
]

pub Quieter-at_ptr :
    (q : ℕ) (f : Entry → Entry)
    → ((e : Entry) → Calm e (f e))
    → (es : List Entry) → Quieter es (at_ptr q f es)
Quieter-at_ptr q f h [] = done
Quieter-at_ptr q f h (e ∷ es) = elim (Bool-cases (e.ptr == q)) [
  | inl k ↦ rw k (change (h e) (Quieter-refl es))
  | inr k ↦ rw k (change (Calm-refl e) (Quieter-at_ptr q f h es))
]

pub cancel_entry-Calm : (m : Manager) (app : Text) (e : Entry) → Calm e (cancel_entry m app e)
unfolding cancel_entry
cancel_entry-Calm m app e = ground arith

pub stop_entry-Calm : (e : Entry) → Calm e (stop_entry e)
unfolding stop_entry
stop_entry-Calm e = ground arith

pub stop_account-Calm : (key : Text) (e : Entry) → Calm e (stop_account key e)
unfolding stop_account
stop_account-Calm key e = ground arith

pub adopt_entry-Calm : (key : Text) (e : Entry) → Calm e (adopt_entry key e)
unfolding adopt_entry
adopt_entry-Calm key e = ground arith

pub end_entry-Calm : (o : Outcome) (e : Entry) → Calm e (end_entry o e)
unfolding end_entry
end_entry-Calm Outcome.installed e = ground arith
end_entry-Calm _ e = ground arith

-- Progress on a job that runs already.
pub progress_entry-Calm :
    (s : Progress) (e : Entry) → running e ≡ true → Calm e (progress_entry s e)
unfolding progress_entry
progress_entry-Calm (Progress.download n) e h = ground arith
progress_entry-Calm _ e h = ground arith

mark_removed-Calm :
    (discard : Bool) (e : Entry) → running e ≡ true → Calm e (mark_removed discard e)
unfolding mark_removed
mark_removed-Calm discard e h = ground arith

pub Quieter-progress :
    (q : ℕ) (s : Progress) (es : List Entry) (x : Entry)
    → find (λ e. e.ptr == q) es ≡ some x
    → running x ≡ true
    → Quieter es (at_ptr q (progress_entry s) es)
Quieter-progress q s [] x h r = cc
Quieter-progress q s (e ∷ es) x h r = elim (Bool-cases (e.ptr == q)) [
  | inl k ↦ rw k (change (progress_entry-Calm s e (ground arith)) (Quieter-refl es))
  | inr k ↦ rw k (change (Calm-refl e) (Quieter-progress q s es x (ground arith) r))
]

requeue-Calm :
    (e : Entry) (job : Job) (token : Text) (g : ℕ)
    → same e.job job ≡ true
    → is_empty token ≡ false
    → e.removed ≡ false
    → Calm e (requeue e job token g)
unfolding requeue
requeue-Calm e job token g s t r = ground arith

behind-eq_again :
    (e : Entry) (r : Search) (fs : List Entry)
    → behind e r ≡ again fs
    → (gs : List Entry) × (r ≡ again gs) × (fs ≡ e ∷ gs)
unfolding behind
behind-eq_again e absent fs h = cc
behind-eq_again e stopping fs h = cc
behind-eq_again e active fs h = cc
behind-eq_again e (again gs) fs h = (gs, refl, ground arith)

-- A job that is queued again in place.
pub Quieter-search_same :
    (job : Job) (token : Text) (g : ℕ) (es fs : List Entry)
    → is_empty token ≡ false
    → search_same job token g es ≡ again fs
    → Quieter es fs
unfolding search_same
Quieter-search_same job token g [] fs t h = cc
Quieter-search_same job token g (e ∷ es) fs t h = elim (Bool-cases (same e.job job)) [
  | inl k ↦
      subst (Quieter (e ∷ es)) (ground arith)
        (change (requeue-Calm e job token g k t (ground arith)) (Quieter-refl es))
  | inr k ↦
      let (gs, r, eq) = behind-eq_again e (search_same job token g es) fs (ground arith) in
      rw eq (change (Calm-refl e) (Quieter-search_same job token g es gs t r))
]

left_behind-eq_some :
    (e : Entry) (o : Option Removal) (r : Removal)
    → left_behind e o ≡ some r
    → (r' : Removal) × (o ≡ some r') × (r.left ≡ e ∷ r'.left)
left_behind-eq_some e none r h = cc
left_behind-eq_some e (some r') r h = (r', refl, ground arith)

-- What `remove` leaves.
pub Quieter-take_same :
    (job : Job) (discard : Bool) (es : List Entry) (r : Removal)
    → take_same job discard es ≡ some r
    → Quieter es r.left
unfolding take_same
Quieter-take_same job discard [] r h = cc
Quieter-take_same job discard (e ∷ es) r h = elim (Bool-cases (not e.removed && same e.job job)) [
  | inl k ↦ elim (Bool-cases (running e)) [
    | inl runs ↦
        subst (Quieter (e ∷ es)) (ground arith)
          (change (mark_removed-Calm discard e runs) (Quieter-refl es))
    | inr rests ↦ subst (Quieter (e ∷ es)) (ground arith) (leave (Quieter-refl es))
  ]
  | inr k ↦
      let (r', o, eq) = left_behind-eq_some e (take_same job discard es) r (ground arith) in
      rw eq (change (Calm-refl e) (Quieter-take_same job discard es r' o))
]
