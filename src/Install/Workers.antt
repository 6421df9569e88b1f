-- ===== src/Install/Workers.antt =====
-- What holds at each moment of the parallel transfer of `Manager::install`
-- (src/common/download/manager.cpp) while nothing has failed.
use rift_lift.Common.{
  get_elem?, ℕ, zero, suc, ◌+◌, ◌≤◌, min, Bool, true, false, not, ◌&&◌, ◌||◌, List, [], ◌∷◌, none,
  some, Text, text_eq, text_eq_iff, text_eq_refl, is_empty, any, length, replicate, All, ok, ◌==◌,
  if◌then◌else◌, ◌≡◌, ◌≢◌, refl, ap, sym, ◌∙◌, subst, arith, Bool-cases, inl, inr, ◌⊎◌,
}
use rift_lift.Rules.Env.{Env, lookup, insert, lookup-insert}
use rift_lift.Install.Planning.{present_at}
use rift_lift.Install.Retry.{Answer, fetch_segment, fetch_segment_lem}
use rift_lift.Install.Transfer.{
  Worker, looking, took, fetching, Transfer, start, Turn, first_failure, Step, stops, forwards,
  takes, runs_out, gives_up, begins, stores, fails, aborts,
}
use rift_lift.Install.Turns.{
  excused, works_on, Calm, Calm-grows, Turn-All, Turn-was, Turn-loses, Turn-gains, same_index,
  past_end,
}

module _ (sha256 : Text → Text) (fetch : List (Text × ℕ)) (sized : Bool) (before : Env) where
  -- The segment has been stored, with the right contents.
  abbrev pub Stored : Env → Text → Type 0
  Stored cache sha = (clear : Text) × (lookup sha cache ≡ some clear) × (sha256 clear ≡ sha)

  abbrev pub Settled : Transfer → ℕ → Text × ℕ → Type 0
  Settled t i x = (t.next ≤ i) ⊎ ((any (works_on i) t.workers ≡ true) ⊎ Stored t.cache x.0)

  pub record Facts (t : Transfer) : Type 0 where
    pub goes_on : t.aborted ≡ false
    pub settled : (i : ℕ) (x : Text × ℕ) → get_elem? fetch i ≡ some x → Settled t i x
    pub calm : All (Calm (length fetch) t.next) t.workers
    pub keeps : (sha : Text) → present_at sha before ≡ true → present_at sha t.cache ≡ true

  insert-Stored :
      (cache : Env) (sha clear other : Text)
      → sha256 clear ≡ sha
      → Stored cache other
      → Stored (insert sha clear cache) other
  insert-Stored cache sha clear other right (c, e, h) = elim (Bool-cases (text_eq sha other)) [
    | inl same ↦ (
      clear,
      lookup-insert sha clear other cache ∙ rw same refl,
      right ∙ (text_eq_iff sha other).0 same,
    )
    | inr apart ↦ (c, lookup-insert sha clear other cache ∙ (rw apart e), h)
  ]

  insert-present :
      (cache : Env) (sha clear other : Text)
      → present_at other cache ≡ true
      → present_at other (insert sha clear cache) ≡ true
  insert-present cache sha clear other h =
      ap (λ o. elim o [ none ↦ false | some c ↦ true ]) (lookup-insert sha clear other cache)
      ∙ either (text_eq sha other)
    where
      either :
          (b : Bool)
          → (elim (if b then some clear else lookup other cache) [ none ↦ false | some c ↦ true ])
            ≡ true
      either true = refl
      either false = h

  stored_right :
      (sha clear : Text) (waits : List ℕ) (answer : ℕ → Answer) (aborted_at : ℕ → Bool)
      → fetch_segment sha256 answer aborted_at sha ≡ (ok clear, waits)
      → sha256 clear ≡ sha
  stored_right sha clear waits answer aborted_at h =
      (fetch_segment_lem sha256 answer aborted_at sha).0 clear (ap (λ r. r.0) h)

  -- A failure or an earlier reason not to go on.
  fails_excused :
      (what : Text) (s : Transfer)
      → what ≢ []
      → (s.stopped || not (is_empty (first_failure what s))) ≢ false
  unfolding first_failure
  fails_excused what s k h = kept what s.stopped s.failure k h
    where
      kept :
          (what : Text) (stopped : Bool) (failure : Text)
          → what ≢ []
          → (stopped || not (is_empty (if is_empty failure && not stopped then what else failure)))
            ≢ false
      kept what true failure k h = absurd cc
      kept [] false [] k h = k refl
      kept (c ∷ what) false [] k h = absurd cc
      kept what false (c ∷ failure) k h = absurd cc

  pub excused-Step :
      {s t : Transfer} → Step sha256 fetch sized s t → excused t ≡ false → excused s ≡ false
  unfolding first_failure
  excused-Step stops h = absurd cc
  excused-Step (forwards e) h = h
  excused-Step (takes u) h = h
  excused-Step (runs_out u e) h = h
  excused-Step (gives_up u e) h = h
  excused-Step (begins u e g) h = h
  excused-Step (stores answer aborted_at waits u e g) h = h
  excused-Step {s} (fails what u k) h = absurd (fails_excused what s k h)
  excused-Step (aborts u) h = h

  pub start-Facts :
      (count : ℕ) (stopped : Bool) → stopped ≡ false → Facts (start count fetch before stopped)
  unfolding start
  start-Facts count stopped h = record {
    goes_on = h;
    settled = λ i x e. inl (omega arith);
    calm = idle (min count (length fetch));
    keeps = λ sha k. k;
  }
    where
      idle : (n : ℕ) → All (Calm (length fetch) 0) (replicate n looking)
      idle zero = tt
      idle (suc n) = (tt, idle n)

  -- The index that the moving worker had is kept, or its segment is stored.
  moved :
      {v w : Worker} {vs ws : List Worker} (i : ℕ) (cache cache' : Env) (sha : Text)
      → Turn v w vs ws
      → (works_on i v ≡ true → (works_on i w ≡ true) ⊎ Stored cache' sha)
      → (Stored cache sha → Stored cache' sha)
      → (any (works_on i) vs ≡ true) ⊎ Stored cache sha
      → (any (works_on i) ws ≡ true) ⊎ Stored cache' sha
  moved i cache cache' sha u g keep (inr stored) = inr (keep stored)
  moved i cache cache' sha u g keep (inl held) = elim (Turn-loses (works_on i) u held) [
    | inl still ↦ inl still
    | inr was ↦ elim (g was) [
      | inl now ↦ inl (Turn-gains (works_on i) u now)
      | inr stored ↦ inr stored
    ]
  ]

  -- A step that only moves a worker, to where it holds what it held.
  move-Facts :
      {v w : Worker} (s : Transfer) (ws : List Worker)
      → Turn v w s.workers ws
      → (Calm (length fetch) s.next v → Calm (length fetch) s.next w)
      → ((i : ℕ) (x : Text × ℕ)
          → get_elem? fetch i ≡ some x
          → works_on i v ≡ true
          → works_on i w ≡ true)
      → Facts s
      → Facts (record s { workers = ws })
  move-Facts s ws u c g k = record {
    goes_on = k.goes_on;
    settled = λ i x e. elim (k.settled i x e) [
      | inl ahead ↦ inl ahead
      | inr rest ↦ inr (moved i s.cache s.cache x.0 u (λ h. inl (g i x e h)) (λ h. h) rest)
    ];
    calm = Turn-All _ _ u (λ w c. c) c k.calm;
    keeps = k.keeps;
  }

  takes-Facts :
      (s : Transfer) (ws : List Worker)
      → Turn looking (took s.next) s.workers ws
      → Facts s
      → Facts (record s { next = s.next + 1; workers = ws })
  takes-Facts s ws u k = record {
    goes_on = k.goes_on;
    settled = λ i x e. elim (k.settled i x e) [
      | inl ahead ↦ elim (Bool-cases (s.next == i)) [
        | inl now ↦ inr (inl (Turn-gains (works_on i) u now))
        | inr other ↦ inl (ground (arith, other))
      ]
      | inr rest ↦ inr (moved i s.cache s.cache x.0 u (λ h. absurd cc) (λ h. h) rest)
    ];
    calm =
        Turn-All _ _ u (Calm-grows (length fetch) s.next (s.next + 1) (omega arith))
          (λ t. omega arith) k.calm;
    keeps = k.keeps;
  }

  stores-Facts :
      (s : Transfer) (ws : List Worker) (i : ℕ) (sha clear : Text) (compressed received : ℕ)
      → Turn (fetching i) looking s.workers ws
      → get_elem? fetch i ≡ some (sha, compressed)
      → sha256 clear ≡ sha
      → Facts s
      → Facts (record s { workers = ws; cache = insert sha clear s.cache; received = received })
  stores-Facts s ws i sha clear compressed received u e right k = record {
    goes_on = k.goes_on;
    settled = λ j x f. elim (k.settled j x f) [
      | inl ahead ↦ inl ahead
      | inr rest ↦ inr (
          moved j s.cache (insert sha clear s.cache) x.0 u (λ h. inr (now j x f h))
            (insert-Stored s.cache sha clear x.0 right) rest)
    ];
    calm = Turn-All _ _ u (λ w c. c) (λ t. tt) k.calm;
    keeps = λ other h. insert-present s.cache sha clear other (k.keeps other h);
  }
    where
      now :
          (j : ℕ) (x : Text × ℕ)
          → get_elem? fetch j ≡ some x
          → (i == j) ≡ true
          → Stored (insert sha clear s.cache) x.0
      now j x f h =
          let same : x.0 ≡ sha =
            ap (λ o. elim o [ none ↦ sha | some y ↦ y.0 ])
              (sym f ∙ ap (get_elem? fetch) (sym (same_index i j h)) ∙ e) in
          subst (Stored (insert sha clear s.cache)) (sym same)
            (clear, lookup-insert sha clear sha s.cache ∙ rw (text_eq_refl sha) refl, right)

  pub Facts-Step :
      {s t : Transfer} → Step sha256 fetch sized s t → excused t ≡ false → Facts s → Facts t
  Facts-Step stops h k = absurd cc
  Facts-Step {s} (forwards e) h k = absurd (on s.stopped e h)
    where
      on : (b : Bool) → b ≡ true → (b || not (is_empty s.failure)) ≡ false → ⊥
      on true e h = absurd cc
      on false e h = absurd cc
  Facts-Step {s} (takes {ws = ws} u) h k = takes-Facts s ws u k
  Facts-Step {s} (runs_out {ws = ws} {i = i} u e) h k =
      move-Facts s ws u (λ c. past_end fetch i s.next e c)
        (λ j x f h. absurd (none_some (sym e ∙ ap (get_elem? fetch) (same_index i j h) ∙ f))) k
    where
      none_some : {x : Text × ℕ} → none ≢ some x
      none_some e = absurd cc
  Facts-Step (gives_up u e) h k = absurd (ended_early (sym e ∙ k.goes_on))
    where
      ended_early : true ≡ false → ⊥
      ended_early e = absurd cc
  Facts-Step {s} (begins {ws = ws} u e g) h k = move-Facts s ws u (λ c. c) (λ j x f h. h) k
  Facts-Step {s}
        (stores {ws = ws} {i = i} {sha = sha} {clear = clear} {compressed = c} answer aborted_at
          waits u e g)
        h k =
      stores-Facts s ws i sha clear c _ u e (stored_right sha clear waits answer aborted_at g) k
  Facts-Step {s} (fails what u n) h k = absurd (fails_excused what s n h)
  Facts-Step (aborts u) h k = absurd (Turn-was _ u k.calm)
