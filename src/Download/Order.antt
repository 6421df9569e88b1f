-- ===== src/Download/Order.antt =====
-- The order of the queue: which job a worker takes up, and what `move` does.
use rift_lift.Common.{
  ℕ, ◌&&◌, All, text_eq, ◌||◌, ◌≢◌, ◌∙◌, ◌<◌, ◌≡◌, refl, ap, inl, inr, Bool, true, false, List, [],
  ◌∷◌, ◌++◌, some, Text, count_if, any, Bool-cases, arith, subst, find, Option-cases, update_first,
  ltb,
}
use rift_lift.Download.Job.{
  State, queued, checking, downloading, paused, failed, complete, Entry, running, is_running,
}
use rift_lift.Download.Manager.{Manager, wake}
use rift_lift.Download.Worker.{claim, next, eligible, running_app, start_entry}

-- `x` stands in the list, nothing before it passes the test, and `ys` is the list with `x` changed.
pub record Splits (t : Entry → Bool) (f : Entry → Entry) (xs ys : List Entry) (x : Entry)
    : Type 0 where
  pub before : List Entry
  pub after : List Entry
  pub splits : xs ≡ before ++ x ∷ after
  pub skipped : any t before ≡ false
  pub passes : t x ≡ true
  pub changed : ys ≡ before ++ f x ∷ after

find-Splits :
    (t : Entry → Bool) (f : Entry → Entry) (xs : List Entry) (x : Entry)
    → find t xs ≡ some x
    → Splits t f xs (update_first t f xs) x
find-Splits t f [] x h = cc
find-Splits t f (y ∷ ys) x h = elim (Bool-cases (t y)) [
  | inl k ↦ record {
    before = [];
    after = ys;
    splits = ground arith;
    skipped = refl;
    passes = ground arith;
    changed = ground arith;
  }
  | inr k ↦
      let s = find-Splits t f ys x (ground arith) in
      record {
        before = y ∷ s.before;
        after = s.after;
        splits = ap (◌∷◌ y) s.splits;
        skipped = ground (arith, s.skipped);
        passes = s.passes;
        changed = ground (arith, s.changed);
      }
]

-- A worker that takes up a job takes the first queued one of a game that is not being transferred,
-- while fewer jobs than `parallel` run; it starts that job and leaves all others as they are.
pub claim_first :
    (m n : Manager) (q : ℕ) (token : Text)
    → claim m ≡ some (q, token, n)
    → (x : Entry) × (q ≡ x.ptr)
      × (token ≡ x.token)
      × (count_if running m.jobs < m.parallel)
      × Splits (eligible m.jobs) start_entry m.jobs n.jobs x
unfolding claim next
claim_first m n q token h = elim (Bool-cases (ltb (count_if running m.jobs) m.parallel)) [
  | inr full ↦ absurd (ground arith)
  | inl room ↦ elim (Option-cases (find (eligible m.jobs) m.jobs)) [
    | inl e ↦ absurd (ground arith)
    | inr (x, e) ↦ (
      x,
      ground arith,
      ground arith,
      ground arith,
      subst (λ js. Splits (eligible m.jobs) start_entry m.jobs js x) (ground arith)
          (find-Splits (eligible m.jobs) start_entry m.jobs x e),
    )
  ]
]

-- No job of the game is being checked or downloaded.
abbrev pub Free : Text → List Entry → Type 0
Free app =
    All (λ y.
      text_eq y.job.app_id app ≡ true → (y.job.state ≢ checking) × (y.job.state ≢ downloading))

is_running-idle : (s : State) → s ≢ checking → s ≢ downloading → is_running s ≡ false
is_running-idle queued h k = refl
is_running-idle checking h k = absurd (h refl)
is_running-idle downloading h k = absurd (k refl)
is_running-idle paused h k = refl
is_running-idle failed h k = refl
is_running-idle complete h k = refl

Free-none : (app : Text) (es : List Entry) → Free app es → any (running_app app) es ≡ false
Free-none app [] h = refl
Free-none app (y ∷ es) (h, hs) = none_of (running_app app y) _ idle (Free-none app es hs)
  where
    none_of : (a b : Bool) → a ≡ false → b ≡ false → (a || b) ≡ false
    none_of a b e f = rw (e, f) refl

    and_false : (a : Bool) → (a && false) ≡ false
    and_false a = ground arith

    idle : running_app app y ≡ false
    idle = elim (Bool-cases (text_eq y.job.app_id app)) [
      | inl same ↦ let (a, b) = h same in rw (is_running-idle y.job.state a b) refl
      | inr other ↦ rw other (and_false (is_running y.job.state))
    ]

find-some :
    (t : Entry → Bool) (before after : List Entry) (x : Entry)
    → t x ≡ true
    → (y : Entry) × (find t (before ++ x ∷ after) ≡ some y)
find-some t [] after x h = (x, rw h refl)
find-some t (b ∷ before) after x h = elim (Bool-cases (t b)) [
  | inl here ↦ (b, rw here refl)
  | inr later ↦ let (y, e) = find-some t before after x h in (y, rw later e)
]

next-room :
    (m : Manager) (y : Entry)
    → count_if running m.jobs < m.parallel
    → find (eligible m.jobs) m.jobs ≡ some y
    → next m ≡ some y
unfolding next
next-room m y room found = ground (arith, room, found)

claim-some :
    (m : Manager) (y : Entry)
    → next m ≡ some y
    → (q : ℕ) × (token : Text) × (n : Manager) × (claim m ≡ some (q, token, n))
unfolding claim
claim-some m y e = (
  y.ptr,
  y.token,
  wake (record m { jobs = update_first (eligible m.jobs) start_entry m.jobs }),
  rw (e, claim) refl,
)

-- While fewer jobs than `parallel` are being transferred, and a job is queued of whose game none is
-- being transferred, a worker that asks takes up a job: it is not left waiting.
pub claim_progress :
    (m : Manager) (before after : List Entry) (x : Entry)
    → m.jobs ≡ before ++ x ∷ after
    → count_if running m.jobs < m.parallel
    → x.job.state ≡ queued
    → Free x.job.app_id m.jobs
    → (q : ℕ) × (token : Text) × (n : Manager) × (claim m ≡ some (q, token, n))
claim_progress m before after x split room waits free =
    let el : eligible m.jobs x ≡ true = rw (waits, Free-none x.job.app_id m.jobs free) refl in
    let (y, e) = find-some (eligible m.jobs) before after x el in
    claim-some m y (next-room m y room (ap (find (eligible m.jobs)) split ∙ e))
