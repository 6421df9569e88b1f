-- ===== src/Exec.antt =====
-- Actions on a state that may throw. What was written before an exception stays written.
use rift_lift.Common.{
  Bool, true, false, Text, Result, ok, err, ok-injective, if◌then◌else◌, ◌≡◌, refl, ap, subst,
}

abbrev pub Exec : Type 0 → Type 0 → Type 0
Exec S A = S → Result A × S

module _ {S A : Type 0} where
  unfoldable pub pure : A → Exec S A
  pure a s = (ok a, s)

  unfoldable pub throw : Text → Exec S A
  throw what s = (err what, s)

  unfoldable pub lift : Result A → Exec S A
  lift r s = (r, s)

  unfoldable pub gets : (S → A) → Exec S A
  gets f s = (ok (f s), s)

module _ {S : Type 0} where
  unfoldable pub modify : (S → S) → Exec S (Unit {0})
  modify f s = (ok tt, f s)

module _ {S A B : Type 0} where
  abbrev pub continue : Result A → (A → Exec S B) → Exec S B
  continue (ok a) f s = f a s
  continue (err what) f s = (err what, s)

  infixl 5 ◌>>=◌ ◌>>◌
  unfoldable pub ◌>>=◌ : Exec S A → (A → Exec S B) → Exec S B
  unfolding pure throw lift gets modify
  ◌>>=◌ m f s = let (r, s') = m s in continue r f s'

  abbrev pub ◌>>◌ : Exec S A → Exec S B → Exec S B
  m >> n = m >>= λ _. n

module _ {S : Type 0} where
  -- `if (!test) throw ...(what)`
  unfoldable pub check : Bool → Text → Exec S (Unit {0})
  unfolding pure throw
  check true what = pure tt
  check false what = throw what

-- `m` keeps `P`, whether it returns or throws, and what it returns has `Q`.
pub record Ensures {S A : Type 0} (P : S → Type 0) (Q : A → Type 0) (m : Exec S A) : Type 0 where
  pub at : (s : S) → P s → P (m s).1 × ((a : A) → (m s).0 ≡ ok a → Q a)

module _ {S A : Type 0} {P : S → Type 0} {Q : A → Type 0} where
  pub Ensures-pure : (a : A) → Q a → Ensures P Q (pure a)
  unfolding pure
  Ensures-pure a q = record { at = λ s h. (h, λ b e. subst Q (ok-injective e) q) }

  pub Ensures-forget : (m : Exec S A) → Ensures P Q m → Ensures P (λ _. Unit {0}) m
  Ensures-forget m k = record { at = λ s h. ((k.at s h).0, λ a e. tt) }

  pub Ensures-throw : (what : Text) → Ensures P Q (throw what)
  unfolding throw
  Ensures-throw what = record { at = λ s h. (h, λ b e. absurd cc) }

  pub Ensures-gets : (f : S → A) → ((s : S) → P s → Q (f s)) → Ensures P Q (gets f)
  unfolding gets
  Ensures-gets f q = record { at = λ s h. (h, λ b e. subst Q (ok-injective e) (q s h)) }

  pub Ensures-lift : (r : Result A) → ((a : A) → r ≡ ok a → Q a) → Ensures P Q (lift r)
  unfolding lift
  Ensures-lift r q = record { at = λ s h. (h, q) }

  pub Ensures-if :
      (b : Bool) (m n : Exec S A)
      → (b ≡ true → Ensures P Q m)
      → (b ≡ false → Ensures P Q n)
      → Ensures P Q (if b then m else n)
  Ensures-if true m n km kn = km refl
  Ensures-if false m n km kn = kn refl

module _ {S : Type 0} {P : S → Type 0} where
  pub Ensures-check : (b : Bool) (what : Text) → Ensures {S = S} P (λ _. b ≡ true) (check b what)
  unfolding check
  Ensures-check true what = Ensures-pure tt refl
  Ensures-check false what = Ensures-throw what

module _ {S A B : Type 0} {P : S → Type 0} {Q : A → Type 0} {R : B → Type 0} where
  Ensures-continue :
      (r : Result A) (f : A → Exec S B)
      → ((a : A) → Q a → Ensures P R (f a))
      → (s : S) → P s
      → ((a : A) → r ≡ ok a → Q a)
      → P (continue r f s).1 × ((b : B) → (continue r f s).0 ≡ ok b → R b)
  Ensures-continue (ok a) f k s h q = (k a (q a refl)).at s h
  Ensures-continue (err what) f k s h q = (h, λ b e. absurd cc)

  pub Ensures-bind :
      (m : Exec S A) (f : A → Exec S B)
      → Ensures P Q m
      → ((a : A) → Q a → Ensures P R (f a))
      → Ensures P R (m >>= f)
  unfolding ◌>>=◌
  Ensures-bind m f km kf = record {
    at = λ s h. let (p, q) = km.at s h in let (r, s') = m s in Ensures-continue r f kf s' p q;
  }

-- `m` leads from `P` to `P'`, whether it returns or throws.
pub record Leads {S A : Type 0} (P P' : S → Type 0) (m : Exec S A) : Type 0 where
  pub at : (s : S) → P s → P' (m s).1

module _ {S A : Type 0} {P P' : S → Type 0} where
  pub Leads-if :
      (b : Bool) (m n : Exec S A) → Leads P P' m → Leads P P' n → Leads P P' (if b then m else n)
  Leads-if true m n km kn = km
  Leads-if false m n km kn = kn

  pub Leads-late :
      {Q : A → Type 0} (m : Exec S A) → ((s : S) → P s → P' s) → Ensures P' Q m → Leads P P' m
  Leads-late m late k = record { at = λ s h. (k.at s (late s h)).0 }

module _ {S A B : Type 0} {P P' : S → Type 0} {Q : A → Type 0} where
  pub Leads-bind :
      (m : Exec S A) (f : A → Exec S B)
      → ((s : S) → P s → P' s)
      → Ensures P Q m
      → ((a : A) → Q a → Leads P P' (f a))
      → Leads P P' (m >>= f)
  unfolding ◌>>=◌
  Leads-bind m f late km kf = record {
    at = λ s h. let (p, q) = km.at s h in let (r, s') = m s in ends r s' p q;
  }
    where
      ends : (r : Result A) (s : S) → P s → ((a : A) → r ≡ ok a → Q a) → P' (continue r f s).1
      ends (ok a) s h q = (kf a (q a refl)).at s h
      ends (err what) s h q = late s h

-- How a run that returns went.
module _ {S A : Type 0} where
  pub failed : {what : Text} {a : A} {s t : S} → ◌≡◌ {A = Result A × S} (err what, s) (ok a, t) → ⊥
  failed e = cc

module _ {S A B : Type 0} {C : Type 0} (f : A → Exec S B) (s : S) (b : B) (t : S) where
  continue-run :
      (r : Result A) (s' : S)
      → continue r f s' ≡ (ok b, t)
      → ((a : A) → r ≡ ok a → f a s' ≡ (ok b, t) → C)
      → C
  continue-run (ok a) s' e h = h a refl e
  continue-run (err what) s' e h = absurd cc

  pub bind-run :
      (m : Exec S A)
      → (m >>= f) s ≡ (ok b, t)
      → ((a : A) (s' : S) → m s ≡ (ok a, s') → f a s' ≡ (ok b, t) → C)
      → C
  unfolding ◌>>=◌
  bind-run m e h =
      continue-run (m s).0 (m s).1 e λ a ea ef. h a (m s).1 (ap (λ r. (r, (m s).1)) ea) ef

module _ {S A B : Type 0} where
  pub gets-run :
      (g : S → A) (f : A → Exec S B) (s : S) (b : B) (t : S)
      → (gets g >>= f) s ≡ (ok b, t)
      → f (g s) s ≡ (ok b, t)
  unfolding ◌>>=◌ gets
  gets-run g f s b t e = e

module _ {S B : Type 0} {C : Type 0} where
  pub check-run :
      (test : Bool) (what : Text) (f : Unit {0} → Exec S B) (s : S) (b : B) (t : S)
      → (check test what >>= f) s ≡ (ok b, t)
      → (test ≡ true → f tt s ≡ (ok b, t) → C)
      → C
  unfolding ◌>>=◌ check pure throw
  check-run true what f s b t e h = h refl e
  check-run false what f s b t e h = absurd (failed e)
