-- ===== src/Install/Needs.antt =====
-- What the first part of `Manager::install` (src/common/download/manager.cpp) has found out when it
-- goes on.
use rift_lift.Common.{
  ℕ, ◌+◌, Bool, true, false, not, ◌||◌, List, [], ◌∷◌, Text, text_eq, text_eq_iff, text_eq_refl,
  all, keep, All, contains, ok, require, if◌then◌else◌, ◌≡◌, refl, ap, sym, ◌∙◌, subst, arith,
  Bool-cases, inl, inr, bind-eq_ok, then-eq_ok, require-eq_ok, ok-injective,
}
use rift_lift.Rules.Env.{Env}
use rift_lift.Build.Manifest.{File, Segment, Plan}
use rift_lift.Install.Planning.{
  Disk, Space, Prepared, present_at, add_segment, add_segments, segments_of_files, to_fetch,
  total_of, remaining_of, check_space, is_there, is_sized, needed_files, prepare,
}

abbrev pub keys : List (Text × ℕ) → List Text
keys [] = []
keys ((sha, compressed) ∷ rest) = sha ∷ keys rest

-- The segment is in the cache, or it is one of those that are fetched.
abbrev pub Available : Env → List Text → Segment → Type 0
Available cache fetched s = (present_at s.sha256 cache || contains fetched s.sha256) ≡ true

-- Listing a segment keeps those that are listed.
add_segment-keeps :
    (s : Segment) (map : List (Text × ℕ)) (sha : Text)
    → (contains (keys map) sha ≡ true → contains (keys (add_segment s map)) sha ≡ true)
      × (contains (keys (add_segment s map)) s.sha256 ≡ true)
unfolding add_segment
add_segment-keeps s [] sha = (λ h. absurd cc, ground (arith, text_eq_refl s.sha256))
add_segment-keeps s ((k, c) ∷ map) sha = ground (arith, add_segment-keeps s map sha)

add_segments-keeps :
    (ss : List Segment) (map : List (Text × ℕ)) (sha : Text)
    → contains (keys map) sha ≡ true
    → contains (keys (add_segments ss map)) sha ≡ true
unfolding add_segments
add_segments-keeps [] map sha h = h
add_segments-keeps (s ∷ ss) map sha h =
    add_segments-keeps ss (add_segment s map) sha ((add_segment-keeps s map sha).0 h)

abbrev Listed : List (Text × ℕ) → List Segment → Type 0
Listed map = All (λ s. contains (keys map) s.sha256 ≡ true)

add_segments-Listed : (ss : List Segment) (map : List (Text × ℕ)) → Listed (add_segments ss map) ss
unfolding add_segments
add_segments-Listed [] map = tt
add_segments-Listed (s ∷ ss) map = (
  add_segments-keeps ss (add_segment s map) s.sha256 (add_segment-keeps s map s.sha256).1,
  add_segments-Listed ss (add_segment s map),
)

segments_of_files-keeps :
    (fs : List File) (map : List (Text × ℕ)) (sha : Text)
    → contains (keys map) sha ≡ true
    → contains (keys (segments_of_files fs map)) sha ≡ true
unfolding segments_of_files
segments_of_files-keeps [] map sha h = h
segments_of_files-keeps (f ∷ fs) map sha h =
    segments_of_files-keeps fs (add_segments f.segments map) sha
      (add_segments-keeps f.segments map sha h)

Listed-grow :
    (map map' : List (Text × ℕ)) (ss : List Segment)
    → ((sha : Text) → contains (keys map) sha ≡ true → contains (keys map') sha ≡ true)
    → Listed map ss
    → Listed map' ss
Listed-grow map map' [] g h = tt
Listed-grow map map' (s ∷ ss) g (h, hs) = (g s.sha256 h, Listed-grow map map' ss g hs)

segments_of_files-Listed :
    (fs : List File) (map : List (Text × ℕ))
    → All (λ f. Listed (segments_of_files fs map) f.segments) fs
unfolding segments_of_files
segments_of_files-Listed [] map = tt
segments_of_files-Listed (f ∷ fs) map = (
  Listed-grow (add_segments f.segments map) (segments_of_files fs (add_segments f.segments map))
      f.segments (segments_of_files-keeps fs (add_segments f.segments map))
      (add_segments-Listed f.segments map),
  segments_of_files-Listed fs (add_segments f.segments map),
)

to_fetch-covers :
    (cache : Env) (map : List (Text × ℕ)) (sha : Text)
    → contains (keys map) sha ≡ true
    → (present_at sha cache || contains (keys (to_fetch cache map)) sha) ≡ true
unfolding to_fetch
to_fetch-covers cache [] sha h = absurd cc
to_fetch-covers cache ((k, c) ∷ map) sha h = elim (Bool-cases (present_at k cache)) [
  | inl present ↦
      rw (present, to_fetch)
        (elim (Bool-cases (text_eq k sha)) [
          | inl same ↦
              let there : present_at sha cache ≡ true =
                subst (λ n. present_at n cache ≡ true) ((text_eq_iff k sha).0 same) present in
              rw there refl
          | inr other ↦ to_fetch-covers cache map sha (rw other at h)
        ])
  | inr absent ↦
      rw (absent, to_fetch)
        (elim (Bool-cases (text_eq k sha)) [
          | inl same ↦ rw same (or_true (present_at sha cache))
          | inr other ↦ rw other (to_fetch-covers cache map sha (rw other at h))
        ])
]
  where
    or_true : (b : Bool) → (b || true) ≡ true
    or_true b = ground arith

All-Available :
    (cache : Env) (map : List (Text × ℕ)) (ss : List Segment)
    → Listed map ss
    → All (Available cache (keys (to_fetch cache map))) ss
All-Available cache map [] h = tt
All-Available cache map (s ∷ ss) (h, hs) =
    (to_fetch-covers cache map s.sha256 h, All-Available cache map ss hs)

All-files-Available :
    (cache : Env) (map : List (Text × ℕ)) (fs : List File)
    → All (λ f. Listed map f.segments) fs
    → All (λ f. All (Available cache (keys (to_fetch cache map))) f.segments) fs
All-files-Available cache map [] h = tt
All-files-Available cache map (f ∷ fs) (h, hs) =
    (All-Available cache map f.segments h, All-files-Available cache map fs hs)

-- The sizes without wrap-around.
abbrev pub sizes : List File → ℕ
sizes [] = 0
sizes (f ∷ fs) = f.size + sizes fs

abbrev pub transfers : List (Text × ℕ) → ℕ
transfers [] = 0
transfers ((sha, compressed) ∷ rest) = compressed + transfers rest

module _ (sha256 : Text → Text) (within : Text → Bool) where
  needed_files-keep :
      (dir : Env) (fs needed : List File)
      → needed_files sha256 within dir fs ≡ ok needed
      → (needed ≡ keep (λ f. not (is_there sha256 within f dir)) fs)
        × (all (λ f. within f.name) fs ≡ true)
  unfolding needed_files
  needed_files-keep dir [] needed h = (sym (ok-injective h), refl)
  needed_files-keep dir (f ∷ fs) needed h =
      let (inside, h1) = then-eq_ok (require (within f.name) _) _ _ h in
      let (rest, e, h2) = bind-eq_ok (needed_files sha256 within dir fs) _ _ h1 in
      let (same, all_inside) = needed_files-keep dir fs rest e in
      (
        sym (ok-injective h2) ∙ kept (is_there sha256 within f dir) rest _ same,
        rw (require-eq_ok (within f.name) _ inside) all_inside,
      )
    where
      kept :
          (b : Bool) (rest rest' : List File)
          → rest ≡ rest'
          → (if b then rest else f ∷ rest) ≡ (if not b then f ∷ rest' else rest')
      kept true rest rest' e = e
      kept false rest rest' e = ap (λ fs. f ∷ fs) e

  module _ (disk : Disk) (plan : Plan) (games cache : Space) where
    -- The steps of `prepare` that did not throw.
    record Passed (p : Prepared) : Type 0 where
      needs : needed_files sha256 within disk.dir plan.files ≡ ok p.needed
      lists : p.segments ≡ segments_of_files p.needed []
      fetches : p.fetch ≡ to_fetch disk.cache (segments_of_files p.needed [])
      sizing : p.sized ≡ is_sized (segments_of_files p.needed [])
      room :
          check_space games cache
            (remaining_of p.needed)
            (if p.sized then total_of p.sized p.fetch else 0)
          ≡ ok tt

    prepare-Passed : (p : Prepared) → prepare sha256 within disk plan games cache ≡ ok p → Passed p
    unfolding prepare
    prepare-Passed p h =
        let (needed, e, h1) = bind-eq_ok (needed_files sha256 within disk.dir plan.files) _ _ h in
        let (room, h2) = then-eq_ok (check_space games cache _ _) _ _ h1 in
        subst Passed (ok-injective h2)
          (record { needs = e; lists = refl; fetches = refl; sizing = refl; room = room })

    -- Where `install` goes on, every file of the plan lies in the game's folder, the files to be
    -- rebuilt are exactly those that are not there with the right size and hash, and each of their
    -- segments is in the cache or is going to be fetched.
    pub prepare-covers :
        (p : Prepared)
        → prepare sha256 within disk plan games cache ≡ ok p
        → (all (λ f. within f.name) plan.files ≡ true)
          × (p.needed ≡ keep (λ f. not (is_there sha256 within f disk.dir)) plan.files)
          × All (λ f. All (Available disk.cache (keys p.fetch)) f.segments) p.needed
    prepare-covers p h =
        let passed = prepare-Passed p h in
        let (same, inside) = needed_files-keep disk.dir plan.files p.needed passed.needs in
        let map = segments_of_files p.needed [] in
        (
          inside,
          same,
          subst (λ fetch. All (λ f. All (Available disk.cache (keys fetch)) f.segments) p.needed)
              (sym passed.fetches)
              (All-files-Available disk.cache map p.needed (segments_of_files-Listed p.needed [])),
        )
