-- ===== src/Download/Asked.antt =====
-- The place of the job that `move` of src/common/download/manager.cpp is asked to move, among those
-- that the window shows.
use rift_lift.Common.{
  Bool, not, ◌&&◌, ◌||◌, ◌++◌, All, text_eq, text_eq_iff, if◌then◌else◌, ℕ, ◌+◌, ◌≡◌, refl, sym, ap,
  ◌∙◌, inl, inr, true, false, List, [], ◌∷◌, Option, some, Bool-cases, arith, subst, keep, length,
}
use rift_lift.Download.Job.{Job, Entry, same, bool_eq}
use rift_lift.Download.Manager.{Manager}
use rift_lift.Download.Requests.{is_shown, place_of}

-- The jobs that the window shows, in order.
abbrev pub shown : Manager → List Entry → List Entry
shown m es = keep (is_shown m) es

-- The job is the one that is asked for: the game, the account and, of a pinned job, the build.
pub record Asked (job asked : Job) : Type 0 where
  pub app_id : job.app_id ≡ asked.app_id
  pub account : job.account ≡ asked.account
  pub pinned : job.pinned ≡ asked.pinned
  pub binary_id : job.pinned ≡ true → job.binary_id ≡ asked.binary_id

bool_eq_refl : (b : Bool) → bool_eq b b ≡ true
bool_eq_refl true = refl
bool_eq_refl false = refl

bool_eq-same : (a b : Bool) → bool_eq a b ≡ true → a ≡ b
bool_eq-same true true h = refl
bool_eq-same false false h = refl
bool_eq-same true false h = cc
bool_eq-same false true h = cc

and_both : (a b : Bool) → (a && b) ≡ true → (a ≡ true) × (b ≡ true)
and_both true b h = (refl, h)
and_both false b h = cc

same-Asked : (a b : Job) → Asked a b → same a b ≡ true
unfolding same
same-Asked a b h =
    rw
      (
        (text_eq_iff a.app_id b.app_id).1 h.app_id,
        (text_eq_iff a.account b.account).1 h.account,
        h.pinned,
        bool_eq_refl b.pinned,
      )
      (builds b.pinned λ e. (text_eq_iff a.binary_id b.binary_id).1 (h.binary_id (h.pinned ∙ e)))
  where
    builds :
        (p : Bool)
        → (p ≡ true → text_eq a.binary_id b.binary_id ≡ true)
        → (not p || text_eq a.binary_id b.binary_id) ≡ true
    builds true f = f refl
    builds false f = refl

Asked-same : (a b : Job) → same a b ≡ true → Asked a b
unfolding same
Asked-same a b h =
    let two = text_eq a.app_id b.app_id && text_eq a.account b.account in
    let three = two && bool_eq a.pinned b.pinned in
    let (h1, build) = and_both three (not a.pinned || text_eq a.binary_id b.binary_id) h in
    let (h2, pinned) = and_both two (bool_eq a.pinned b.pinned) h1 in
    let (game, account) = and_both (text_eq a.app_id b.app_id) (text_eq a.account b.account) h2 in
    record {
      app_id = (text_eq_iff a.app_id b.app_id).0 game;
      account = (text_eq_iff a.account b.account).0 account;
      pinned = bool_eq-same a.pinned b.pinned pinned;
      binary_id = λ e. (text_eq_iff a.binary_id b.binary_id).0 (pinned_build a.pinned e build);
    }
  where
    pinned_build :
        (p : Bool)
        → p ≡ true
        → (not p || text_eq a.binary_id b.binary_id) ≡ true
        → text_eq a.binary_id b.binary_id ≡ true
    pinned_build true e k = k
    pinned_build false e k = cc

not_Asked : (a b : Job) → (Asked a b → ⊥) → same a b ≡ false
not_Asked a b h = elim (Bool-cases (same a b)) [
  | inl it ↦ absurd (h (Asked-same a b it))
  | inr other ↦ other
]

-- The last shown job that is asked for gives the place.
place_of-after :
    (m : Manager) (job : Job) (k : ℕ) (at : Option ℕ) (es : List Entry)
    → All (λ x. Asked x.job job → ⊥) (shown m es)
    → place_of m job k at es ≡ at
unfolding place_of
place_of-after m job k at [] h = refl
place_of-after m job k at (e ∷ es) h = elim (Bool-cases (is_shown m e)) [
  | inr hidden ↦ rw hidden (place_of-after m job k at es (rw hidden at h))
  | inl seen ↦
      let h' = rw seen at h in
      rw (seen, not_Asked e.job job h'.0) (place_of-after m job (k + 1) at es h'.1)
]

no_first : (before after : List Entry) (x : Entry) → [] ≡ before ++ x ∷ after → ⊥
no_first [] after x h = cc
no_first (b ∷ before) after x h = cc

pub place_of-Asked :
    (m : Manager) (job : Job) (k : ℕ) (at : Option ℕ) (es before after : List Entry) (x : Entry)
    → shown m es ≡ before ++ x ∷ after
    → Asked x.job job
    → All (λ y. Asked y.job job → ⊥) after
    → place_of m job k at es ≡ some (k + length before)
unfolding place_of
place_of-Asked m job k at [] before after x split it last = absurd (no_first before after x split)
place_of-Asked m job k at (e ∷ es) before after x split it last = elim (Bool-cases (is_shown m e)) [
  | inr hidden ↦
      rw hidden (place_of-Asked m job k at es before after x (rw hidden at split) it last)
  | inl seen ↦ rw seen (
      at_front before (rw seen at split)
        λ at' tail s. place_of-Asked m job (k + 1) at' es tail after x s it last)
]
  where
    at_front :
        (before : List Entry)
        → e ∷ shown m es ≡ before ++ x ∷ after
        → ((at' : Option ℕ) (tail : List Entry)
            → shown m es ≡ tail ++ x ∷ after
            → place_of m job (k + 1) at' es ≡ some (k + 1 + length tail))
        → place_of m job (k + 1) (if same e.job job then some k else at) es
          ≡ some (k + length before)
    at_front [] s rest =
        let first : e ≡ x = cc in
        let others : shown m es ≡ after = cc in
        let it' : same e.job job ≡ true =
          same-Asked e.job job (subst (λ y. Asked y.job job) (sym first) it) in
        rw it' (
          place_of-after m job (k + 1) (some k) es
            (subst (All (λ y. Asked y.job job → ⊥)) (sym others) last)
          ∙ ap some (omega arith))
    at_front (b ∷ before) s rest =
        let others : shown m es ≡ before ++ x ∷ after = cc in
        rest (if same e.job job then some k else at) before others ∙ ap some (omega arith)
