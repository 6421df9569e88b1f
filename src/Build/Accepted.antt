-- ===== src/Build/Accepted.antt =====
-- What holds of a plan that `parse_manifest` (src/common/meta/store.cpp) accepts.
use rift_lift.Common.{
  ℕ, Bool, true, false, not, ◌&&◌, List, [], ◌∷◌, Option, none, some, Text, text_eq_iff, contains,
  all, ok, require, ◌≡◌, ◌≢◌, refl, sym, subst, arith, bind-eq_ok, then-eq_ok, require-eq_ok,
  ok-injective, and_left, All, ◌==◌,
}
use rift_lift.Rules.Strings.{lower}
use rift_lift.Build.Names.{sha256_hex, safe_relative}
use rift_lift.Build.Manifest.{
  segment_of, segments_of, no_list, or_zero, Segment, File, Plan, SegmentJson, FileJson,
  ManifestJson, parse_segments, parse_file, parse_files, files_of, parse_manifest,
}

pub record AcceptedFile (f : File) : Type 0 where
  pub listed_as : Text
  pub safe : safe_relative listed_as ≡ ok f.name
  pub hash : sha256_hex f.sha256 ≡ true
  pub segment_hashes : all (λ s. sha256_hex s.sha256) f.segments ≡ true
  pub some_segments : f.size ≢ 0 → f.segments ≢ []

-- No two names are the same, not even in lower case.
abbrev pub Distinct : List File → Type 0
Distinct [] = Unit
Distinct (f ∷ fs) = All (λ g. lower f.name ≢ lower g.name) fs × Distinct fs

abbrev Fresh : List Text → List File → Type 0
Fresh names = All (λ f. contains names (lower f.name) ≡ false)

Fresh-tail :
    (name : Text) (names : List Text) (fs : List File) → Fresh (name ∷ names) fs → Fresh names fs
Fresh-tail name names [] h = tt
Fresh-tail name names (f ∷ fs) (h, hs) = (ground (arith, h), Fresh-tail name names fs hs)

Fresh-apart :
    (name : Text) (names : List Text) (fs : List File)
    → Fresh (name ∷ names) fs
    → All (λ g. name ≢ lower g.name) fs
Fresh-apart name names [] h = tt
Fresh-apart name names (f ∷ fs) (h, hs) = (
  λ e. absurd (ground (arith, h, (text_eq_iff name (lower f.name)).1 e)),
  Fresh-apart name names fs hs,
)

parse_segments-hashes :
    (name : Text) (js : List SegmentJson) (segments : List Segment)
    → parse_segments name js ≡ ok segments
    → all (λ s. sha256_hex s.sha256) segments ≡ true
unfolding parse_segments
parse_segments-hashes name [] segments h =
    subst (λ ss. all (λ s. sha256_hex s.sha256) ss ≡ true) (ok-injective h) refl
parse_segments-hashes name (j ∷ js) segments h =
    let (segment, e, h1) = bind-eq_ok (segment_of name j j.sha256) _ _ h in
    let (rest, e', h2) = bind-eq_ok (parse_segments name js) _ _ h1 in
    let hashes = parse_segments-hashes name js rest e' in
    subst (λ ss. all (λ s. sha256_hex s.sha256) ss ≡ true) (ok-injective h2)
      (rw (segment_hash j.sha256 segment e) hashes)
  where
    segment_hash :
        (sha : Option Text) (s : Segment)
        → segment_of name j sha ≡ ok s
        → sha256_hex s.sha256 ≡ true
    segment_hash none s e = absurd cc
    segment_hash (some sha) s e =
        let (hex, e1) = then-eq_ok (require (sha256_hex sha) _) _ _ e in
        subst (λ s. sha256_hex s.sha256 ≡ true) (ok-injective e1) (require-eq_ok _ _ hex)

segments_of-hashes :
    (name : Text) (js : Option (List SegmentJson)) (segments : List Segment)
    → segments_of name js ≡ ok segments
    → all (λ s. sha256_hex s.sha256) segments ≡ true
segments_of-hashes name none segments h = absurd cc
segments_of-hashes name (some js) segments h = parse_segments-hashes name js segments h

-- A file of some bytes has segments.
some_segments_lem :
    (n : ℕ) (segments : List Segment)
    → not (not (n == 0) && no_list segments) ≡ true
    → n ≢ 0
    → segments ≢ []
some_segments_lem n [] h k = absurd (ground (arith, h))
some_segments_lem n (s ∷ ss) h k = λ e. cc

parse_file-Accepted :
    (listed name : Text) (j : FileJson) (f : File)
    → safe_relative listed ≡ ok name
    → parse_file name j ≡ ok f
    → (f.name ≡ name) × AcceptedFile f
unfolding parse_file
parse_file-Accepted listed name j f safe h =
    let (details, h1) = then-eq_ok (require _ _) _ _ h in
    let (segments, e, h2) = bind-eq_ok (segments_of name j.segments) _ _ h1 in
    let (enough, h3) = then-eq_ok (require _ _) _ _ h2 in
    let hash : sha256_hex j.sha256 ≡ true = and_left _ _ (require-eq_ok _ _ details) in
    subst (λ f. (f.name ≡ name) × AcceptedFile f) (ok-injective h3)
      (
        refl,
        record {
          listed_as = listed;
          safe = safe;
          hash = hash;
          segment_hashes = segments_of-hashes name j.segments segments e;
          some_segments = some_segments_lem (or_zero j.size) segments (require-eq_ok _ _ enough);
        },
      )

not-true : {b : Bool} → not b ≡ true → b ≡ false
not-true h = ground arith

abbrev Parsed : List Text → List File → Type 0
Parsed names fs = All AcceptedFile fs × Distinct fs × Fresh names fs

parse_files-Parsed :
    (names : List Text) (items : List (Text × FileJson)) (fs : List File)
    → parse_files names items ≡ ok fs
    → Parsed names fs
unfolding parse_files
parse_files-Parsed names [] fs h = subst (Parsed names) (ok-injective h) (tt, tt, tt)
parse_files-Parsed names ((listed, j) ∷ items) fs h =
    let (name, safe, h1) = bind-eq_ok (safe_relative listed) _ _ h in
    let (new, h2) = then-eq_ok (require _ _) _ _ h1 in
    let (f, e, h3) = bind-eq_ok (parse_file name j) _ _ h2 in
    let (rest, e', h4) = bind-eq_ok (parse_files (lower name ∷ names) items) _ _ h3 in
    let (named, accepted) = parse_file-Accepted listed name j f safe e in
    let (all_accepted, distinct, fresh) = parse_files-Parsed (lower name ∷ names) items rest e' in
    let fresh_name = not-true (require-eq_ok (not (contains names (lower name))) _ new) in
    subst (Parsed names) (ok-injective h4) (
      (accepted, all_accepted),
      (
        subst (λ n. All (λ g. lower n ≢ lower g.name) rest) (sym named)
            (Fresh-apart (lower name) names rest fresh),
        distinct,
      ),
      (
        subst (λ n. contains names (lower n) ≡ false) (sym named) fresh_name,
        Fresh-tail (lower name) names rest fresh,
      ),
    )

-- Every file of a build manifest that is accepted has a name that was let pass, hashes of 64
-- hexadecimal digits for itself and for each segment, and segments unless it is empty; and no two
-- files have the same name, whatever the case of its letters.
pub parse_manifest-Accepted :
    (app_id binary_id : Text) (m : ManifestJson) (plan : Plan)
    → parse_manifest app_id binary_id m ≡ ok plan
    → All AcceptedFile plan.files × Distinct plan.files
unfolding parse_manifest
parse_manifest-Accepted app_id binary_id m plan h =
    let (fs, e, h1) = bind-eq_ok (files_of m.files) _ _ h in
    subst (λ p. All AcceptedFile p.files × Distinct p.files) (ok-injective h1) (listed m.files fs e)
  where
    listed :
        (items : Option (List (Text × FileJson))) (fs : List File)
        → files_of items ≡ ok fs
        → All AcceptedFile fs × Distinct fs
    listed none fs e = absurd cc
    listed (some items) fs e =
        let (accepted, distinct, _) = parse_files-Parsed [] items fs e in (accepted, distinct)
