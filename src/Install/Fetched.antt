-- ===== src/Install/Fetched.antt =====
-- What the parallel transfer of `Manager::install` (src/common/download/manager.cpp) leaves in the
-- cache once its threads are joined.
use rift_lift.Common.{
  get_elem?, ℕ, suc, ◌≤◌, ◌<◌, min, Bool, true, false, not, ◌||◌, List, [], ◌∷◌, Option, none, some,
  Text, is_empty, any, all, length, length-replicate, All, contains, text_eq, text_eq_iff, ok, err,
  ◌≡◌, ◌≢◌, refl, ap, ◌∙◌, subst, arith, Bool-cases, inl, inr, ok-injective,
}
use rift_lift.Rules.Env.{Env, lookup}
use rift_lift.Build.Manifest.{File, Segment, Plan}
use rift_lift.Install.Planning.{Disk, Space, Prepared, present_at, prepare}
use rift_lift.Install.Needs.{Available, keys, prepare-covers}
use rift_lift.Install.Transfer.{
  Worker, looking, took, fetching, throwing, ended, Transfer, start, Step, stops, forwards, takes,
  runs_out, gives_up, begins, stores, fails, aborts, Reach, here, onward, joined, is_ended,
}
use rift_lift.Install.Turns.{excused, works_on, Calm, Turn-length}
use rift_lift.Install.Workers.{Stored, Facts, excused-Step, start-Facts, Facts-Step}
use rift_lift.Install.Assembly.{join_segments}

-- No ended worker works on anything.
none_works : (i : ℕ) (ws : List Worker) → all is_ended ws ≡ true → any (works_on i) ws ≢ true
none_works i [] h k = absurd cc
none_works i (ended ∷ ws) h k = none_works i ws h k
none_works i (looking ∷ ws) h k = absurd cc
none_works i (took j ∷ ws) h k = absurd cc
none_works i (fetching j ∷ ws) h k = absurd cc
none_works i (throwing ∷ ws) h k = absurd cc

-- Where a worker has ended, all indices were handed out.
all_handed_out :
    (size next : ℕ) (ws : List Worker)
    → 0 < length ws
    → all is_ended ws ≡ true
    → All (Calm size next) ws
    → size ≤ next
all_handed_out size next [] l h c = omega arith
all_handed_out size next (ended ∷ ws) l h (c, cs) = c
all_handed_out size next (looking ∷ ws) l h c = absurd cc
all_handed_out size next (took j ∷ ws) l h c = absurd cc
all_handed_out size next (fetching j ∷ ws) l h c = absurd cc
all_handed_out size next (throwing ∷ ws) l h c = absurd cc

get_elem-All :
    (P : Text × ℕ → Type 0) (fetch : List (Text × ℕ))
    → ((i : ℕ) (x : Text × ℕ) → get_elem? fetch i ≡ some x → i < length fetch → P x)
    → All P fetch
get_elem-All P [] h = tt
get_elem-All P (x ∷ fetch) h =
    (h 0 x refl (omega arith), get_elem-All P fetch λ i y e l. h (suc i) y e (omega arith))

joined-ok :
    (t : Transfer) (cache : Env) → joined t ≡ ok cache → (excused t ≡ false) × (t.cache ≡ cache)
unfolding joined
joined-ok t cache h = elim (Bool-cases t.stopped) [
  | inl stopped ↦ absurd (not_ok (rw stopped at h))
  | inr on ↦ elim (Bool-cases (not (is_empty t.failure))) [
    | inl failed ↦ absurd (not_ok (rw (on, failed) at h))
    | inr well ↦ (rw (on, well) refl, ok-injective (rw (on, well) at h))
  ]
]
  where
    not_ok : {what : Text} → err what ≢ ok cache
    not_ok e = absurd cc

module _ (sha256 : Text → Text) (fetch : List (Text × ℕ)) (sized : Bool) (before : Env) where
  Step-length : {s t : Transfer} → Step sha256 fetch sized s t → length t.workers ≡ length s.workers
  Step-length stops = refl
  Step-length (forwards e) = refl
  Step-length (takes u) = Turn-length u
  Step-length (runs_out u e) = Turn-length u
  Step-length (gives_up u e) = Turn-length u
  Step-length (begins u e g) = Turn-length u
  Step-length (stores answer aborted_at waits u e g) = Turn-length u
  Step-length (fails what u n) = Turn-length u
  Step-length (aborts u) = Turn-length u

  Reach-length :
      {s t : Transfer} → Reach sha256 fetch sized s t → length t.workers ≡ length s.workers
  Reach-length here = refl
  Reach-length (onward r u) = Step-length u ∙ Reach-length r

  Reach-Facts :
      (count : ℕ) (stopped : Bool) {t : Transfer}
      → Reach sha256 fetch sized (start count fetch before stopped) t
      → excused t ≡ false
      → Facts sha256 fetch sized before t
  unfolding start
  Reach-Facts count stopped here h =
      start-Facts sha256 fetch sized before count stopped (off stopped h)
    where
      off : (b : Bool) → (b || false) ≡ false → b ≡ false
      off b h = ground arith
  Reach-Facts count stopped (onward r u) h =
      Facts-Step sha256 fetch sized before u h
        (Reach-Facts count stopped r (excused-Step sha256 fetch sized before u h))

  -- When every thread has ended, and `install` goes on, each segment that was to be fetched is in
  -- the cache with contents of its hash, in whatever order the threads went and whatever the store
  -- answered, and what the cache had before is still there.
  pub transfer_complete :
      (count : ℕ) (stopped : Bool) (t : Transfer) (cache : Env)
      → 0 < count
      → Reach sha256 fetch sized (start count fetch before stopped) t
      → all is_ended t.workers ≡ true
      → joined t ≡ ok cache
      → All (λ x. Stored sha256 fetch sized before cache x.0) fetch
        × ((sha : Text) → present_at sha before ≡ true → present_at sha cache ≡ true)
  unfolding start
  transfer_complete count stopped t cache positive reach done h =
      let (on, same) = joined-ok t cache h in
      let threads : length t.workers ≡ min count (length fetch) =
        Reach-length reach ∙ length-replicate (min count (length fetch)) looking in
      let facts = Reach-Facts count stopped reach on in
      (
        get_elem-All _ fetch λ i x e l. elim (facts.settled i x e) [
          | inl ahead ↦ absurd (
              beyond i t.next (length fetch) ahead l (
                all_handed_out (length fetch) t.next t.workers (some_thread i threads l positive)
                  done facts.calm))
          | inr (inl held) ↦ absurd (none_works i t.workers done held)
          | inr (inr stored) ↦ subst (λ c. Stored sha256 fetch sized before c x.0) same stored
        ],
        λ sha k. subst (λ c. present_at sha c ≡ true) same (facts.keeps sha k),
      )
    where
      beyond : (i next size : ℕ) → next ≤ i → i < size → size ≤ next → ⊥
      beyond i next size a b c = omega arith

      some_thread :
          (i : ℕ)
          → length t.workers ≡ min count (length fetch)
          → i < length fetch
          → 0 < count
          → 0 < length t.workers
      some_thread i e l p = ground arith

module _ (sha256 : Text → Text) (within : Text → Bool) (disk : Disk) (plan : Plan)
    (games cache : Space) where
  -- A segment that was in the cache or was fetched.
  found :
      (fetch : List (Text × ℕ)) (sized : Bool) (after : Env) (sha : Text)
      → All (λ x. Stored sha256 fetch sized disk.cache after x.0) fetch
      → ((sha : Text) → present_at sha disk.cache ≡ true → present_at sha after ≡ true)
      → (present_at sha disk.cache || contains (keys fetch) sha) ≡ true
      → present_at sha after ≡ true
  found fetch sized after sha stored kept h = elim (Bool-cases (present_at sha disk.cache)) [
    | inl there ↦ kept sha there
    | inr absent ↦ listed fetch stored (rw absent at h)
  ]
    where
      listed :
          (xs : List (Text × ℕ))
          → All (λ x. Stored sha256 fetch sized disk.cache after x.0) xs
          → contains (keys xs) sha ≡ true
          → present_at sha after ≡ true
      listed [] t h = absurd cc
      listed ((k, c) ∷ xs) ((clear, e, right), t) h = elim (Bool-cases (text_eq k sha)) [
        | inl same ↦
            subst (λ n. present_at n after ≡ true) ((text_eq_iff k sha).0 same)
              (ap (λ o. elim o [ none ↦ false | some c ↦ true ]) e)
        | inr other ↦ listed xs t (rw other at h)
      ]

  joins :
      (after : Env) (ss : List Segment)
      → All (λ s. present_at s.sha256 after ≡ true) ss
      → (join_segments after ss).1 ≡ true
  unfolding join_segments
  joins after [] h = refl
  joins after (s ∷ ss) (h, hs) = there (lookup s.sha256 after) refl h (joins after ss hs)
    where
      there :
          (o : Option Text)
          → lookup s.sha256 after ≡ o
          → (elim o [ none ↦ false | some c ↦ true ]) ≡ true
          → (join_segments after ss).1 ≡ true
          → (join_segments after (s ∷ ss)).1 ≡ true
      there none e k rest = absurd cc
      there (some c) e k rest = rw (join_segments, e) rest

  -- When every thread has ended and `install` goes on, no segment of a file that is rebuilt is
  -- missing from the cache, and each that was fetched has its hash there, in whatever order the
  -- threads took their steps and whatever the store answered. No other job changes the cache
  -- meanwhile.
  pub transfer_enough :
      (p : Prepared) (count : ℕ) (stopped : Bool) (t : Transfer) (after : Env)
      → prepare sha256 within disk plan games cache ≡ ok p
      → 0 < count
      → Reach sha256 p.fetch p.sized (start count p.fetch disk.cache stopped) t
      → all is_ended t.workers ≡ true
      → joined t ≡ ok after
      → All (λ f. (join_segments after f.segments).1 ≡ true) p.needed
        × All (λ x. Stored sha256 p.fetch p.sized disk.cache after x.0) p.fetch
  transfer_enough p count stopped t after prepared positive reach done h =
      let (stored, kept) =
        transfer_complete sha256 p.fetch p.sized disk.cache count stopped t after positive reach
          done h in
      let (_, _, available) = prepare-covers sha256 within disk plan games cache p prepared in
      (files p.needed available stored kept, stored)
    where
      segments :
          (ss : List Segment)
          → All (Available disk.cache (keys p.fetch)) ss
          → All (λ x. Stored sha256 p.fetch p.sized disk.cache after x.0) p.fetch
          → ((sha : Text) → present_at sha disk.cache ≡ true → present_at sha after ≡ true)
          → All (λ s. present_at s.sha256 after ≡ true) ss
      segments [] h a b = tt
      segments (s ∷ ss) (h, hs) a b =
          (found p.fetch p.sized after s.sha256 a b h, segments ss hs a b)

      files :
          (fs : List File)
          → All (λ f. All (Available disk.cache (keys p.fetch)) f.segments) fs
          → All (λ x. Stored sha256 p.fetch p.sized disk.cache after x.0) p.fetch
          → ((sha : Text) → present_at sha disk.cache ≡ true → present_at sha after ≡ true)
          → All (λ f. (join_segments after f.segments).1 ≡ true) fs
      files [] h a b = tt
      files (f ∷ fs) (h, hs) a b =
          (joins after f.segments (segments f.segments h a b), files fs hs a b)
