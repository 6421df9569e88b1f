-- ===== src/Rules/Env.antt =====
-- src/runtime/child.h: `Env`, `std::map<std::string, std::string, EnvLess>` with the order of its
-- names left out (on Linux names differ by case), and `get`.
use rift_lift.Common.{
  ◌∙◌, true, false, Bool-cases, inl, inr, subst, sym, List, [], ◌∷◌, Option, none, some, Text,
  text_eq, text_eq_iff, if◌then◌else◌, ◌≡◌, refl, arith, contains,
}

abbrev pub Env : Type 0
Env = List (Text × Text)

-- `env.find(name)`
unfoldable pub lookup : Text → Env → Option Text
lookup name [] = none
lookup name ((n, v) ∷ env) = if text_eq n name then some v else lookup name env

abbrev pub value_or_empty : Option Text → Text
value_or_empty none = []
value_or_empty (some v) = v

unfoldable pub get : Env → Text → Text
unfolding lookup
get env name = value_or_empty (lookup name env)

-- `env[name] = value`
unfoldable pub insert : Text → Text → Env → Env
insert name value [] = (name, value) ∷ []
insert name value ((n, v) ∷ env) =
    if text_eq n name then (n, value) ∷ env else (n, v) ∷ insert name value env

-- `env.erase(name)`
unfoldable pub erase : Text → Env → Env
erase name [] = []
erase name ((n, v) ∷ env) =
    let rest = erase name env in if text_eq n name then rest else (n, v) ∷ rest

-- `for (auto name : names) env.erase(name)`
unfoldable pub erase_all : List Text → Env → Env
erase_all [] env = env
erase_all (name ∷ names) env = erase_all names (erase name env)

pub lookup-insert :
    (name value other : Text) (env : Env)
    → lookup other (insert name value env)
      ≡ (if text_eq name other then some value else lookup other env)
unfolding lookup insert
lookup-insert name value other [] = refl
lookup-insert name value other ((n, v) ∷ env) = ground (
  arith,
  lookup-insert name value other env,
  text_eq_iff n name,
  text_eq_iff n other,
  text_eq_iff name other,
)

pub lookup-erase :
    (k j : Text) (env : Env) → lookup j (erase k env) ≡ (if text_eq k j then none else lookup j env)
unfolding lookup erase
lookup-erase k j [] = ground arith
lookup-erase k j ((i, w) ∷ env) =
    ground (arith, text_eq_iff k j, text_eq_iff i k, text_eq_iff i j, lookup-erase k j env)

pub lookup-insert_other :
    (name value other : Text) (env : Env)
    → text_eq name other ≡ false
    → lookup other (insert name value env) ≡ lookup other env
lookup-insert_other name value other env h = lookup-insert name value other env ∙ rw h refl

pub lookup-erase_other :
    (name other : Text) (env : Env)
    → text_eq name other ≡ false
    → lookup other (erase name env) ≡ lookup other env
lookup-erase_other name other env h = lookup-erase name other env ∙ rw h refl

pub lookup-erase_all :
    (ks : List Text) (j : Text) (env : Env)
    → lookup j (erase_all ks env) ≡ (if contains ks j then none else lookup j env)
unfolding erase_all
lookup-erase_all [] j env = refl
lookup-erase_all (k ∷ ks) j env =
    ground (arith, lookup-erase_all ks j (erase k env), lookup-erase k j env)

-- A name of the list is not one that the list lacks.
pub contains_other :
    (names : List Text) (other name : Text)
    → contains names name ≡ true
    → contains names other ≡ false
    → text_eq other name ≡ false
contains_other names other name h k = elim (Bool-cases (text_eq other name)) [
  | inl e ↦
      absurd (lacks (subst (λ n. contains names n ≡ true) (sym ((text_eq_iff other name).0 e)) h))
  | inr e ↦ e
]
  where
    lacks : contains names other ≡ true → ⊥
    lacks t = cc
