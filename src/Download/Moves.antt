-- ===== src/Download/Moves.antt =====
-- `move` on the queue: it exchanges two of the jobs that the window shows, and nothing else.
use rift_lift.Common.{
  ℤ, ◌++◌, All, ℕ, zero, suc, ◌+◌, ◌≤◌, ◌<◌, ◌≡◌, refl, sym, ap, ◌∙◌, inl, inr, ◌⊎◌, true, false,
  List, [], ◌∷◌, Option, none, some, Bool-cases, arith, subst, Option-cases, get_elem?, length, set,
  swap, swap-perm, swap_lem,
}
use mathlib.Core.List.{Perm}
use mathlib.Core.List.Perm
use rift_lift.Download.Job.{Job, Entry}
use rift_lift.Download.Manager.{Manager}
use rift_lift.Download.Requests.{is_shown, shown_from, place_of, shifted, move_indices, move}
use rift_lift.Download.Asked.{shown, Asked, place_of-Asked}
use rift_lift.Download.Invariant.{save_locked-jobs}

-- The `k`th shown job of `es` stands at index `d`: reading and writing agree.
record Stands (m : Manager) (es : List Entry) (k d : ℕ) (e : Entry) : Type 0 where
  entry : get_elem? es d ≡ some e
  is_it : is_shown m e ≡ true
  reads : get_elem? (shown m es) k ≡ some e
  writes : (b : Entry) → is_shown m b ≡ true → shown m (set es d b) ≡ set (shown m es) k b

module _ {m : Manager} {es : List Entry} {k d : ℕ} {e : Entry} where
  Stands-hidden :
      (x : Entry) → is_shown m x ≡ false → Stands m es k d e → Stands m (x ∷ es) k (suc d) e
  Stands-hidden x h s = record {
    entry = s.entry;
    is_it = s.is_it;
    reads = rw h s.reads;
    writes = λ b v. rw h (s.writes b v);
  }

  Stands-seen :
      (x : Entry) → is_shown m x ≡ true → Stands m es k d e → Stands m (x ∷ es) (suc k) (suc d) e
  Stands-seen x h s = record {
    entry = s.entry;
    is_it = s.is_it;
    reads = rw h s.reads;
    writes = λ b v. rw h (ap (◌∷◌ x) (s.writes b v));
  }

Stands-first :
    (m : Manager) (x : Entry) (es : List Entry) → is_shown m x ≡ true → Stands m (x ∷ es) 0 0 x
Stands-first m x es h = record { entry = refl; is_it = h; reads = rw h; writes = λ b v. rw (h, v) }

shown_from-Stands :
    (m : Manager) (i : ℕ) (es : List Entry) (k j : ℕ)
    → get_elem? (shown_from m i es) k ≡ some j
    → (d : ℕ) × (e : Entry) × (j ≡ i + d) × Stands m es k d e
unfolding shown_from
shown_from-Stands m i [] k j h = cc
shown_from-Stands m i (x ∷ es) zero j h = elim (Bool-cases (is_shown m x)) [
  | inr hidden ↦
      let (d, e, eq, s) = shown_from-Stands m (suc i) es zero j (rw hidden at h) in
      (suc d, e, omega arith, Stands-hidden x hidden s)
  | inl seen ↦ (0, x, ground arith, Stands-first m x es seen)
]
shown_from-Stands m i (x ∷ es) (suc k) j h = elim (Bool-cases (is_shown m x)) [
  | inr hidden ↦
      let (d, e, eq, s) = shown_from-Stands m (suc i) es (suc k) j (rw hidden at h) in
      (suc d, e, omega arith, Stands-hidden x hidden s)
  | inl seen ↦
      let (d, e, eq, s) = shown_from-Stands m (suc i) es k j (rw seen at h) in
      (suc d, e, omega arith, Stands-seen x seen s)
]

-- Writing a shown job over a shown one moves no index.
shown_from-set :
    (m : Manager) (i d : ℕ) (es : List Entry) (e b : Entry)
    → get_elem? es d ≡ some e
    → is_shown m e ≡ true
    → is_shown m b ≡ true
    → shown_from m i (set es d b) ≡ shown_from m i es
unfolding shown_from
shown_from-set m i d [] e b h v w = cc
shown_from-set m i zero (x ∷ es) e b h v w = ground arith
shown_from-set m i (suc d) (x ∷ es) e b h v w =
    ground (arith, shown_from-set m (suc i) d es e b h v w)

length-shown_from :
    (m : Manager) (i : ℕ) (es : List Entry) → length (shown_from m i es) ≡ length (shown m es)
unfolding shown_from
length-shown_from m i [] = refl
length-shown_from m i (x ∷ es) = ground (arith, length-shown_from m (suc i) es)

get_elem?_below {ℓ} :
    {A : Type ℓ} (xs : List A) (k : ℕ) → k < length xs → (x : A) × (get_elem? xs k ≡ some x)
get_elem?_below [] k h = absurd (omega arith)
get_elem?_below (x ∷ xs) zero h = (x, refl)
get_elem?_below (x ∷ xs) (suc k) h = get_elem?_below xs k (omega arith)

get_elem?_beyond {ℓ} : {A : Type ℓ} (xs : List A) (k : ℕ) → length xs ≤ k → get_elem? xs k ≡ none
get_elem?_beyond [] k h = refl
get_elem?_beyond (x ∷ xs) zero h = absurd (omega arith)
get_elem?_beyond (x ∷ xs) (suc k) h = get_elem?_beyond xs k (omega arith)

-- The place that is found is among the shown jobs.
place_of-lt :
    (m : Manager) (job : Job) (k : ℕ) (at : Option ℕ) (es : List Entry) (r : ℕ)
    → place_of m job k at es ≡ some r
    → (at ≡ some r) ⊎ (r < k + length (shown m es))
unfolding place_of
place_of-lt m job k at [] r h = inl h
place_of-lt m job k at (e ∷ es) r h = ground (
  arith,
  place_of-lt m job (k + 1) (some k) es r,
  place_of-lt m job (k + 1) at es r,
  place_of-lt m job k at es r,
)

Stands-at :
    (m : Manager) (es : List Entry) (k j : ℕ)
    → get_elem? (shown_from m 0 es) k ≡ some j
    → (e : Entry) × Stands m es k j e
Stands-at m es k j h =
    let (d, e, eq, s) = shown_from-Stands m 0 es k j h in
    (e, subst (λ n. Stands m es k n e) (omega arith) s)

swap-shown :
    (m : Manager) (es : List Entry) (at to i j : ℕ)
    → get_elem? (shown_from m 0 es) at ≡ some i
    → get_elem? (shown_from m 0 es) to ≡ some j
    → shown m (swap es i j) ≡ swap (shown m es) at to
swap-shown m es at to i j h k =
    let (a, s) = Stands-at m es at i h in
    let (b, s') = Stands-at m es to j k in
    let same_places = shown_from-set m 0 i es a b s.entry s.is_it s'.is_it in
    let (c, s'') = Stands-at m (set es i b) to j (rw same_places k) in
    ap (shown m) (swap_lem es i j s.entry s'.entry)
    ∙ s''.writes a s.is_it
    ∙ ap (λ js. set js to a) (s.writes b s'.is_it)
    ∙ sym (swap_lem (shown m es) at to s.reads s'.reads)

-- The job that is asked for, the last of them where there are more, changes places with the one that
-- stands `step` places further in the list that is shown, if there is one, and nothing else of that
-- list changes.
pub shown-move :
    (m : Manager) (job : Job) (step : ℤ) (before after : List Entry) (x : Entry) (to : ℕ)
    → shown m m.jobs ≡ before ++ x ∷ after
    → Asked x.job job
    → All (λ y. Asked y.job job → ⊥) after
    → shifted (length before) step ≡ some to
    → to < length (shown m m.jobs)
    → shown m (move m job step).jobs ≡ swap (shown m m.jobs) (length before) to
unfolding move move_indices
shown-move m job step before after x to split it last k bound =
    let at = length before in
    let few = length-shown_from m 0 m.jobs in
    let h : place_of m job 0 none m.jobs ≡ some at =
      place_of-Asked m job 0 none m.jobs before after x split it last ∙ ap some (omega arith) in
    let (i, hi) =
      get_elem?_below (shown_from m 0 m.jobs) at
        (ground (arith, few, place_of-lt m job 0 none m.jobs at h)) in
    let (j, hj) = get_elem?_below (shown_from m 0 m.jobs) to (ground (arith, few)) in
    rw (h, k, hi, hj, move, move_indices, save_locked-jobs) (swap-shown m m.jobs at to i j hi hj)

-- Whatever is asked of it, `move` loses no job and adds none.
pub move-perm : (m : Manager) (job : Job) (step : ℤ) → Perm (move m job step).jobs m.jobs
unfolding move
move-perm m job step = elim (Option-cases (move_indices m job step)) [
  | inl e ↦ rw (e, move) Perm.rfl
  | inr ((i, j), e) ↦ rw (e, move, save_locked-jobs) (swap-perm m.jobs i j)
]

-- Where the place is not among the shown jobs nothing changes: no job is found, or `step` leads out
-- of the list.
pub move_nothing :
    (m : Manager) (job : Job) (step : ℤ)
    → (place_of m job 0 none m.jobs ≡ none)
      ⊎ ((at : ℕ) × (place_of m job 0 none m.jobs ≡ some at)
          × ((shifted at step ≡ none)
              ⊎ ((to : ℕ) × (shifted at step ≡ some to) × (length (shown m m.jobs) ≤ to))))
    → move m job step ≡ m
unfolding move move_indices
move_nothing m job step (inl h) = rw (h, move, move_indices)
move_nothing m job step (inr (at, h, inl k)) = rw (h, k, move, move_indices)
move_nothing m job step (inr (at, h, inr (to, k, l))) =
    let few = length-shown_from m 0 m.jobs in
    let nowhere = get_elem?_beyond (shown_from m 0 m.jobs) to (omega (arith, few)) in
    elim (Option-cases (get_elem? (shown_from m 0 m.jobs) at)) [
      | inl e ↦ rw (h, k, e, move, move_indices)
      | inr (i, e) ↦ rw (h, k, e, nowhere, move, move_indices)
    ]
