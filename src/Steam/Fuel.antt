-- ===== src/Steam/Fuel.antt =====
-- The fuel of `members`: a file of n bytes needs no more than n + 1.
use rift_lift.Common.{
  ℕ, zero, suc, ◌+◌, Bool, true, false, [], ◌∷◌, ◌++◌, Text, is_empty, leb, ltb, ◌==◌, length, drop,
  Result, ok, err, require, ◌>>=◌, ◌>>◌, ◌≡◌, ◌≢◌, refl, ap, err-injective, arith, Bool-cases,
  Option-cases, cut, sym, ◌∙◌, append_assoc, ◌||◌, inl, inr, ◌≤◌, ◌<◌, length-append, if◌then◌else◌,
}
use rift_lift.Steam.Vdf.{
  Nodes, Reader, take_bytes, first_byte, is_end, count_field, key_of, node_of, members, both_zero,
  check_depth, max_fields, limit, scalar, read_vdf, string, wide, wide_from, longer,
}
use rift_lift.Steam.Reading.{wide_passes, cut-some}

-- A call that returns with at most n bytes left to read, or throws with a message.
abbrev Answers {ℓ} : {A : Type ℓ} → ℕ → Result (A × Reader) → Type 0
Answers n (ok (a, r)) = length r.rest ≤ n
Answers n (err message) = message ≢ []

Answers-le {ℓ} :
    {A : Type ℓ} (m : Result (A × Reader)) {k n : ℕ} → k ≤ n → Answers k m → Answers n m
Answers-le (ok (a, r)) h x = omega arith
Answers-le (err message) h x = x

bind-Answers {ℓ κ} :
    {A : Type ℓ} {B : Type κ} (n k : ℕ) (m : Result (A × Reader))
    (next : A × Reader → Result (B × Reader))
    → Answers n m
    → ((a : A) (r : Reader) → length r.rest ≤ n → Answers k (next (a, r)))
    → Answers k (m >>= next)
bind-Answers n k (ok (a, r)) next h f = f a r h
bind-Answers n k (err message) next h f = h

then-Answers {ℓ} :
    {B : Type ℓ} (k : ℕ) (m : Result (Unit {0})) (rest : Result (B × Reader))
    → m ≢ err []
    → Answers k rest
    → Answers k (m >> rest)
then-Answers k (ok tt) rest h a = a
then-Answers k (err message) rest h a = λ e. h (rw e refl)

a_message : (c : ℕ) (message : Text) → c ∷ message ≢ []
a_message c message = λ e. cc

require_answers : (test : Bool) (c : ℕ) (message : Text) → require test (c ∷ message) ≢ err []
require_answers true c message = λ e. cc
require_answers false c message = λ e. cc

length-drop : (n : ℕ) (s : Text) → length (drop n s) ≤ length s
length-drop zero s = omega arith
length-drop (suc n) [] = omega arith
length-drop (suc n) (c ∷ s) = omega (arith, length-drop n s)

take_bytes-Answers : (n : ℕ) (r : Reader) → Answers (length r.rest) (take_bytes n r)
unfolding take_bytes
take_bytes-Answers n r = elim (Bool-cases (ltb (length r.rest) n)) [
  | inl short ↦ rw short (a_message _ _)
  | inr enough ↦ rw enough (length-drop n r.rest)
]

-- A byte that is taken is gone.
take_byte-Answers : (n : ℕ) (r : Reader) → length r.rest ≤ n + 1 → Answers n (take_bytes 1 r)
unfolding take_bytes
take_byte-Answers n r h = go r.rest r.fields h
  where
    go :
        (s : Text) (fields : ℕ)
        → length s ≤ n + 1
        → Answers n (take_bytes 1 (record { rest = s; fields = fields }))
    go [] fields h = a_message _ _
    go (c ∷ s) fields h =
        let enough : ltb (suc (length s)) 1 ≡ false = ground arith in rw enough (omega arith)

length_of_rest : (s t u : Text) → s ≡ t ++ u → length u ≤ length s
length_of_rest s t u e = rw (e, length-append t u) (omega arith)

-- A call that passes what it returns and throws no empty message.
passes-Answers :
    (r : Reader) (m : Result (Text × Reader))
    → ((s : Text) (r' : Reader) → m ≡ ok (s, r') → r.rest ≡ s ++ r'.rest)
    → m ≢ err []
    → Answers (length r.rest) m
passes-Answers r (ok (s, r')) passes h = length_of_rest r.rest s r'.rest (passes s r' refl)
passes-Answers r (err message) passes h = λ e. h (rw e refl)

err_message :
    {A : Type 0} (c : ℕ) (message : Text) → ◌≢◌ {A = Result A} (err (c ∷ message)) (err [])
err_message c message = λ e. cc

longer_message :
    (test : Bool) (a b : ℕ) (s : Text × Text) (m : Result (Text × Text))
    → m ≢ err []
    → (if test then ok s else longer a b m) ≢ err []
longer_message true a b s m h = λ e. cc
longer_message false a b s (ok _) h = λ e. cc
longer_message false a b s (err message) h = h

wide_from_message : (cs : Text) → wide_from cs ≢ err []
unfolding wide_from
wide_from_message [] = err_message _ _
wide_from_message (a ∷ []) = err_message _ _
wide_from_message (a ∷ b ∷ cs) =
    longer_message (both_zero a b) a b _ (wide_from cs) (wide_from_message cs)

string-Answers : (r : Reader) → Answers (length r.rest) (string r)
unfolding string
string-Answers r = elim (Option-cases (cut 0 r.rest)) [
  | inl n ↦ rw (n, Answers, string) (a_message _ _)
  | inr ((t, after), e) ↦
      rw (e, Answers, string)
        (length_of_rest r.rest (t ++ 0 ∷ []) after
          ((cut-some 0 r.rest t after e).0 ∙ sym (append_assoc t (0 ∷ []) after)))
]

after_message :
    {A B : Type 0} (m : Result A) (f : A → B) → m ≢ err [] → (m >>= (λ a. ok (f a))) ≢ err []
after_message (ok a) f h = λ e. cc
after_message (err message) f h = λ e. h (ap err (err-injective e))

wide-Answers : (r : Reader) → Answers (length r.rest) (wide r)
unfolding wide
wide-Answers r =
    passes-Answers r (wide r) (λ s r'. wide_passes r r' s)
      (after_message (wide_from r.rest) _ (wide_from_message r.rest))

by_test-Answers :
    (n : ℕ) (test : Bool) (a b : Result (Text × Reader))
    → Answers n a
    → Answers n b
    → Answers n (if test then a else b)
by_test-Answers n true a b x y = x
by_test-Answers n false a b x y = y

scalar-Answers : (type : ℕ) (r : Reader) → Answers (length r.rest) (scalar type r)
unfolding scalar
scalar-Answers type r = by_test-Answers (length r.rest) (type == 1) _ _ (string-Answers r) (
    by_test-Answers (length r.rest) (type == 5) _ _ (wide-Answers r) (
      by_test-Answers (length r.rest) (type == 2 || type == 3 || type == 4 || type == 6) _ _
        (take_bytes-Answers 4 r)
        (by_test-Answers (length r.rest) (type == 7 || type == 10) _ _ (take_bytes-Answers 8 r) (
          by_test-Answers (length r.rest) (type == 9) _ _ (take_bytes-Answers 1 r)
            (a_message _ _)))))

key_of-Answers : (r : Reader) → Answers (length r.rest) (key_of r)
unfolding key_of
key_of-Answers r =
    bind-Answers (length r.rest) (length r.rest) (string r) _ (string-Answers r) (λ s r' h. h)

-- What is asked of the reading of an object.
abbrev Reads : ℕ → (ℕ → Reader → Result ((Nodes × ℕ) × Reader)) → Type 0
Reads fuel object =
    (depth : ℕ) (r : Reader) (n : ℕ) → length r.rest ≤ n → n < fuel → Answers n (object depth r)

node_of-Answers :
    (fuel : ℕ) (object : ℕ → Reader → Result ((Nodes × ℕ) × Reader)) (depth type : ℕ) (key : Text)
    (r : Reader) (n : ℕ)
    → Reads fuel object
    → length r.rest ≤ n
    → n < fuel
    → Answers n (node_of object depth type key r)
unfolding node_of
node_of-Answers fuel object depth type key r n reads h enough = elim (Bool-cases (type == 0)) [
  | inl is_object ↦
      rw (is_object, node_of)
        (then-Answers n (check_depth (depth + 1)) _ (require_answers _ _ _) (
          bind-Answers n n (object (depth + 1) r) _ (reads (depth + 1) r n h enough) (λ p r' k. k)))
  | inr other ↦
      rw (other, node_of)
        (bind-Answers (length r.rest) n (scalar type r) _ (scalar-Answers type r)
          (λ v r' k. omega arith))
]

count_field-Answers {ℓ} :
    {B : Type ℓ} (k : ℕ) (r : Reader) (next : Reader → Result (B × Reader))
    → ((r' : Reader) → length r'.rest ≤ length r.rest → Answers k (next r'))
    → Answers k (count_field r >>= next)
count_field-Answers k r next f = elim (Bool-cases (leb (r.fields + 1) max_fields)) [
  | inl few ↦ rw few (f (record r { fields = r.fields + 1 }) (omega arith))
  | inr many ↦ rw many (a_message _ _)
]

-- No bytes are left.
no_byte-Answers {ℓ} :
    {B : Type ℓ} (k : ℕ) (r : Reader) (next : Text × Reader → Result (B × Reader))
    → length r.rest ≤ 0
    → Answers k (take_bytes 1 r >>= next)
unfolding take_bytes
no_byte-Answers k r next h =
    let short : ltb (length r.rest) 1 ≡ true = ground arith in rw short (a_message _ _)

members-Reads : (fuel : ℕ) → Reads fuel (members fuel)
unfolding members
members-Reads zero depth r n h enough = absurd (omega arith)
members-Reads (suc fuel) depth r zero h enough = no_byte-Answers 0 r _ h
members-Reads (suc fuel) depth r (suc n) h enough =
    bind-Answers n (suc n) (take_bytes 1 r) _ (take_byte-Answers n r (omega arith)) (λ byte r1 h1.
      elim (Bool-cases (is_end (first_byte byte))) [
        | inl is_last ↦ rw is_last (omega arith)
        | inr more ↦ rw more (
            count_field-Answers (suc n) r1 _ (λ r2 h2.
              bind-Answers n (suc n) (key_of r2) _
                (Answers-le (key_of r2) (omega arith) (key_of-Answers r2))
                (λ key r3 h3.
                  bind-Answers n (suc n) (node_of (members fuel) depth (first_byte byte) key r3) _
                    (node_of-Answers fuel (members fuel) depth (first_byte byte) key r3 n
                      (members-Reads fuel) h3 (omega arith))
                    (λ node r4 h4.
                      bind-Answers n (suc n) (members fuel depth r4) _
                        (members-Reads fuel depth r4 n h4 (omega arith))
                        (λ p r5 h5. omega arith)))))
      ])

then_message :
    {A : Type 0} (m : Result (Unit {0})) (rest : Result A)
    → m ≢ err []
    → rest ≢ err []
    → (m >> rest) ≢ err []
then_message (ok tt) rest h k = k
then_message (err message) rest h k = λ e. h (ap err (err-injective e))

bind_message :
    {A B : Type 0} (n : ℕ) (m : Result (A × Reader)) (next : A × Reader → Result B)
    → Answers n m
    → ((p : A × Reader) → next p ≢ err [])
    → (m >>= next) ≢ err []
bind_message n (ok p) next h k = k p
bind_message n (err message) next h k = λ e. h (err-injective e)

-- The fuel that `read_vdf` starts with is always enough: the reading ends with an object or with
-- one of the errors of the source, never without a message.
pub read_vdf_answers : (bytes : Text) → read_vdf bytes ≢ err []
unfolding read_vdf
read_vdf_answers bytes = then_message _ _ (require_answers (leb (length bytes) limit) _ _) (
    bind_message (length bytes) (members (suc (length bytes)) 0 _) _
      (members-Reads (suc (length bytes)) 0 _ (length bytes) (omega arith) (omega arith))
      (λ (_, r). then_message _ _ (require_answers (is_empty r.rest) _ _) (λ e. cc)))
