-- ===== src/Install/Turns.antt =====
-- One worker's move in the parallel transfer of `Manager::install`
-- (src/common/download/manager.cpp), and what the workers have and leave by it.
use rift_lift.Common.{
  get_elem?, ℕ, zero, suc, ◌≤◌, ◌<◌, Bool, true, false, not, ◌||◌, List, [], ◌∷◌, none, Text,
  is_empty, any, length, All, ◌==◌, ◌≡◌, refl, ap, arith, Bool-cases, inl, inr, ◌⊎◌,
}
use rift_lift.Install.Transfer.{
  Worker, looking, took, fetching, throwing, ended, Transfer, Turn, first, later,
}

-- The transfer is going to end with an exception.
abbrev pub excused : Transfer → Bool
excused t = t.stopped || not (is_empty t.failure)

abbrev pub works_on : ℕ → Worker → Bool
works_on i looking = false
works_on i (took j) = j == i
works_on i (fetching j) = j == i
works_on i throwing = false
works_on i ended = false

-- A worker's index was handed out; none has failed; one ends only when all are handed out.
abbrev pub Calm : ℕ → ℕ → Worker → Type 0
Calm size next looking = Unit
Calm size next (took i) = i < next
Calm size next (fetching i) = i < next
Calm size next throwing = ⊥
Calm size next ended = size ≤ next

pub Calm-grows :
    (size next next' : ℕ) → next ≤ next' → (w : Worker) → Calm size next w → Calm size next' w
Calm-grows size next next' h looking k = tt
Calm-grows size next next' h (took i) k = omega arith
Calm-grows size next next' h (fetching i) k = omega arith
Calm-grows size next next' h throwing k = k
Calm-grows size next next' h ended k = omega arith

pub All-map :
    (P Q : Worker → Type 0) → ((x : Worker) → P x → Q x) → (xs : List Worker) → All P xs → All Q xs
All-map P Q g [] t = tt
All-map P Q g (x ∷ xs) (q, qs) = (g x q, All-map P Q g xs qs)

pub Turn-All :
    (P Q : Worker → Type 0) {v w : Worker} {vs ws : List Worker}
    → Turn v w vs ws
    → ((x : Worker) → P x → Q x)
    → (P v → Q w)
    → All P vs
    → All Q ws
Turn-All P Q (first {ws}) g h (p, ps) = (h p, All-map P Q g ws ps)
Turn-All P Q (later {x} t) g h (p, ps) = (g x p, Turn-All P Q t g h ps)

-- What was true of the worker that moves.
pub Turn-was :
    (P : Worker → Type 0) {v w : Worker} {vs ws : List Worker} → Turn v w vs ws → All P vs → P v
Turn-was P first (p, ps) = p
Turn-was P (later t) (p, ps) = Turn-was P t ps

pub Turn-loses :
    {v w : Worker} {vs ws : List Worker} (p : Worker → Bool)
    → Turn v w vs ws
    → any p vs ≡ true
    → (any p ws ≡ true) ⊎ (p v ≡ true)
Turn-loses {v} {w} p (first {ws}) h = ground arith
Turn-loses p (later {x} t) h = elim (Bool-cases (p x)) [
  | inl has ↦ inl (rw has refl)
  | inr lacks ↦ elim (Turn-loses p t (rw lacks at h)) [
    | inl still ↦ inl (rw lacks still)
    | inr was ↦ inr was
  ]
]

pub Turn-gains :
    {v w : Worker} {vs ws : List Worker} (p : Worker → Bool)
    → Turn v w vs ws
    → p w ≡ true
    → any p ws ≡ true
Turn-gains p (first {ws}) h = rw h refl
Turn-gains p (later {x} t) h = ground (arith, Turn-gains p t h)

pub same_index : (i j : ℕ) → (i == j) ≡ true → i ≡ j
same_index i j h = ground arith

pub past_end :
    (fetch : List (Text × ℕ)) (i next : ℕ)
    → get_elem? fetch i ≡ none
    → i < next
    → length fetch ≤ next
past_end [] i next e h = omega arith
past_end (x ∷ fetch) zero next e h = absurd cc
past_end (x ∷ fetch) (suc i) zero e h = omega arith
past_end (x ∷ fetch) (suc i) (suc next) e h = omega (arith, past_end fetch i next e (omega arith))

pub Turn-length : {v w : Worker} {vs ws : List Worker} → Turn v w vs ws → length ws ≡ length vs
Turn-length first = refl
Turn-length (later t) = ap suc (Turn-length t)
