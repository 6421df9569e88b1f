-- ===== src/Install/Retry.antt =====
-- The loop of attempts for one segment in `Manager::install` (src/common/download/manager.cpp).
use rift_lift.Common.{
  ℕ, zero, suc, ◌+◌, ◌^◌, ◌≤◌, min, Bool, true, false, not, ◌&&◌, ◌||◌, List, [], ◌∷◌, Text, codes,
  text_eq, text_eq_iff, ltb, ◌==◌, length, Result, ok, err, if◌then◌else◌, ◌≡◌, refl, arith, subst,
  ok-injective, Bool-cases, inl, inr, ◌⊎◌,
}

-- What an attempt gives: `inflate_segment` of what the store sends, the store's error with a
-- status, or another exception, a hash that is wrong among them.
pub data Answer : Type 0 where
  inflated : Text → Answer
  request_error : ℕ → Text → Answer
  exception : Text → Answer

-- `sha256` is `digest::sha256`; `answer` is what the store and its network give for the segment at
-- each attempt, and `aborted` whether the transfer has been aborted by the attempt's end.
module _ (sha256 : Text → Text) (answer : ℕ → Answer) (aborted : ℕ → Bool) where
  abbrev check_hash : Text → Answer → Answer
  check_hash sha (inflated clear) =
      if text_eq (sha256 clear) sha
      then inflated clear
      else exception (codes "Segment failed its hash check.")
  check_hash sha other = other

  abbrev pub is_final : ℕ → Bool
  is_final status = not (status == 429) && ltb status 500

  -- The end of a segment's attempts, and the seconds waited in between, the first wait first.
  abbrev pub Fetched : Type 0
  Fetched = Result Text × List ℕ

  abbrev waited : ℕ → Fetched → Fetched
  waited seconds (r, waits) = (r, seconds ∷ waits)

  -- `left` is 4 less the attempts before this one, and `attempt` their number.
  unfoldable pub attempts_from : Text → ℕ → ℕ → Fetched
  attempts_from sha zero attempt = elim (check_hash sha (answer attempt)) [
    | inflated clear ↦ (ok clear, [])
    | request_error status what ↦ (err what, [])
    | exception what ↦ (err what, [])
  ]
  attempts_from sha (suc left) attempt =
      let again = waited (min (2 ^ attempt) 30) (attempts_from sha left (attempt + 1)) in
      elim (check_hash sha (answer attempt)) [
        | inflated clear ↦ (ok clear, [])
        | request_error status what ↦
            if is_final status || aborted attempt then (err what, []) else again
        | exception what ↦ if aborted attempt then (err what, []) else again
      ]

  unfoldable pub fetch_segment : Text → Fetched
  fetch_segment sha = attempts_from sha 4 0

  -- Why the attempts end without the segment: the fifth has failed, the transfer was aborted, or
  -- the store has refused the request for good.
  abbrev pub GivesUp : ℕ → Type 0
  GivesUp attempt =
      (attempt ≡ 4)
      ⊎ ((aborted attempt ≡ true)
          ⊎ ((status : ℕ) × (what : Text) × (answer attempt ≡ request_error status what)
              × (is_final status ≡ true)))

  abbrev Ended : Text → ℕ → ℕ → Fetched → Type 0
  Ended sha left attempt (r, waits) =
      ((clear : Text) → r ≡ ok clear → sha256 clear ≡ sha)
      × (length waits ≤ left)
      × ((what : Text) → r ≡ err what → GivesUp (attempt + length waits))

  waited-Ended :
      (sha : Text) (left attempt : ℕ) (seconds : ℕ) (f : Fetched)
      → Ended sha left (attempt + 1) f
      → Ended sha (suc left) attempt (waited seconds f)
  waited-Ended sha left attempt seconds (r, waits) (right, few, reason) =
      (right, omega arith, λ what e. subst GivesUp (omega arith) (reason what e))

  ok-Ended :
      (sha clear : Text) (left attempt : ℕ)
      → sha256 clear ≡ sha
      → Ended sha left attempt (ok clear, [])
  ok-Ended sha clear left attempt h =
      (λ c e. subst (λ c. sha256 c ≡ sha) (ok-injective e) h, omega arith, λ what e. absurd cc)

  err-Ended :
      (sha what : Text) (left attempt : ℕ) → GivesUp attempt → Ended sha left attempt (err what, [])
  err-Ended sha what left attempt h =
      (λ c e. absurd cc, omega arith, λ w e. subst GivesUp (omega arith) h)

  -- The answer of an attempt, with its hash checked.
  checked_cases :
      (sha : Text) (a : Answer)
      → ((clear : Text) × (check_hash sha a ≡ inflated clear) × (sha256 clear ≡ sha))
        ⊎ (((status : ℕ) × (what : Text) × (check_hash sha a ≡ request_error status what)
              × (a ≡ request_error status what))
            ⊎ ((what : Text) × (check_hash sha a ≡ exception what)))
  checked_cases sha (inflated clear) = elim (Bool-cases (text_eq (sha256 clear) sha)) [
    | inl same ↦ inl (clear, rw same refl, (text_eq_iff (sha256 clear) sha).0 same)
    | inr other ↦ inr (inr (codes "Segment failed its hash check.", rw other refl))
  ]
  checked_cases sha (request_error status what) = inr (inl (status, what, refl, refl))
  checked_cases sha (exception what) = inr (inr (what, refl))

  either-Ended :
      (sha what : Text) (left attempt : ℕ) (last : Bool) (again : Fetched)
      → (last ≡ true → GivesUp attempt)
      → Ended sha left attempt again
      → Ended sha left attempt (if last then (err what, []) else again)
  either-Ended sha what left attempt true again h k = err-Ended sha what left attempt (h refl)
  either-Ended sha what left attempt false again h k = k

  either_reason :
      (attempt status : ℕ) (what : Text)
      → answer attempt ≡ request_error status what
      → (is_final status || aborted attempt) ≡ true
      → GivesUp attempt
  either_reason attempt status what e h = elim (Bool-cases (is_final status)) [
    | inl final ↦ inr (inr (status, what, e, final))
    | inr retried ↦ inr (inl (ground (arith, h, retried)))
  ]

  attempts_from-Ended :
      (sha : Text) (left attempt : ℕ)
      → attempt + left ≡ 4
      → Ended sha left attempt (attempts_from sha left attempt)
  unfolding attempts_from
  attempts_from-Ended sha zero attempt h = elim (checked_cases sha (answer attempt)) [
    | inl (clear, e, right) ↦ rw (attempts_from, e) (ok-Ended sha clear 0 attempt right)
    | inr (inl (status, what, e, _)) ↦
        rw (attempts_from, e) (err-Ended sha what 0 attempt (inl (omega arith)))
    | inr (inr (what, e)) ↦ rw (attempts_from, e) (err-Ended sha what 0 attempt (inl (omega arith)))
  ]
  attempts_from-Ended sha (suc left) attempt h =
      let again =
        waited-Ended sha left attempt (min (2 ^ attempt) 30) (attempts_from sha left (attempt + 1))
          (attempts_from-Ended sha left (attempt + 1) (omega arith)) in
      elim (checked_cases sha (answer attempt)) [
        | inl (clear, e, right) ↦
            rw (attempts_from, e) (ok-Ended sha clear (suc left) attempt right)
        | inr (inl (status, what, e, a)) ↦
            rw (attempts_from, e)
              (either-Ended sha what (suc left) attempt (is_final status || aborted attempt) _
                (either_reason attempt status what a) again)
        | inr (inr (what, e)) ↦
            rw (attempts_from, e)
              (either-Ended sha what (suc left) attempt (aborted attempt) _ (λ t. inr (inl t))
                again)
      ]

  -- What is fetched for a segment has the segment's hash. There are at most five attempts, and the
  -- fetching fails only at the fifth, when the transfer is aborted, or when the store refuses it
  -- with a status below 500 that is not 429.
  pub fetch_segment_lem :
      (sha : Text)
      → let (r, waits) = fetch_segment sha in
        ((clear : Text) → r ≡ ok clear → sha256 clear ≡ sha)
        × (length waits ≤ 4)
        × ((what : Text) → r ≡ err what → GivesUp (length waits))
  unfolding fetch_segment
  fetch_segment_lem sha =
      let (right, few, reason) = attempts_from-Ended sha 4 0 (omega arith) in
      (right, few, λ what e. subst GivesUp (omega arith) (reason what e))
