-- ===== src/Steam/Reading.antt =====
-- What the parts of `Reader` leave unread: the bytes that a part returns are those it has passed.
use rift_lift.Common.{
  ℕ, zero, suc, Bool, true, false, ◌||◌, [], ◌∷◌, ◌++◌, some, Text, ◌==◌, any, take, drop, cut,
  Result, ok, err, if◌then◌else◌, ◌≡◌, refl, ap, sym, ◌∙◌, bind-eq_ok, then-eq_ok, arith,
  Bool-cases, Option-cases, inl, inr, subst, append_assoc, ok-injective,
}
use rift_lift.Steam.Vdf.{
  Vdf, Nodes, nil, cons, first_byte, is_end, head_of, members, node_of, Reader, take_bytes, string,
  wide_from, wide, scalar, pop_back, key_of, count_field, valid_key, both_zero, longer,
}

take-drop : (n : ℕ) (s : Text) → take n s ++ drop n s ≡ s
take-drop zero s = refl
take-drop (suc n) [] = refl
take-drop (suc n) (c ∷ s) = ap (λ t. c ∷ t) (take-drop n s)

pub take_bytes_passes :
    (n : ℕ) (r r' : Reader) (s : Text) → take_bytes n r ≡ ok (s, r') → r.rest ≡ s ++ r'.rest
unfolding take_bytes
take_bytes_passes n r r' s h = ground (arith, take-drop n r.rest)

pub cut-some :
    (c : ℕ) (s before after : Text)
    → cut c s ≡ some (before, after)
    → (s ≡ before ++ c ∷ after) × (any (λ x. x == c) before ≡ false)
unfolding cut
cut-some c [] before after h = absurd cc
cut-some c (x ∷ s) before after h = elim (Bool-cases (x == c)) [
  | inl e ↦ ground arith
  | inr e ↦ elim (Option-cases (cut c s)) [
    | inl n ↦ absurd (ground (arith, n))
    | inr ((b, a), f) ↦ ground (arith, f, cut-some c s b a f)
  ]
]

pub string_passes :
    (r r' : Reader) (s : Text)
    → string r ≡ ok (s, r')
    → (t : Text) × (s ≡ t ++ 0 ∷ []) × (valid_key t ≡ true) × (r.rest ≡ t ++ 0 ∷ r'.rest)
unfolding string
string_passes r r' s h = elim (Option-cases (cut 0 r.rest)) [
  | inl n ↦ absurd (ground (arith, n))
  | inr ((t, after), e) ↦
      let c = cut-some 0 r.rest t after e in
      (t, ground (arith, e), ground (arith, e, c), ground (arith, e, c))
]

pop_back_snoc : (s : Text) (c : ℕ) → pop_back (s ++ c ∷ []) ≡ s
pop_back_snoc [] c = refl
pop_back_snoc (x ∷ []) c = refl
pop_back_snoc (x ∷ y ∷ s) c = ap (λ t. x ∷ t) (pop_back_snoc (y ∷ s) c)

pub key_of_passes :
    (r r' : Reader) (key : Text)
    → key_of r ≡ ok (key, r')
    → (valid_key key ≡ true) × (r.rest ≡ key ++ 0 ∷ r'.rest)
unfolding key_of
key_of_passes r r' key h =
    let ((s, r1), e, k) = bind-eq_ok (string r) _ _ h in
    let (t, is_t, valid, rest) = string_passes r r1 s e in
    let p = pop_back_snoc t 0 in (ground (arith, p, is_t, valid), ground (arith, p, is_t, rest))

pub wide_from_passes : (cs s after : Text) → wide_from cs ≡ ok (s, after) → cs ≡ s ++ after
unfolding wide_from
wide_from_passes [] s after h = absurd cc
wide_from_passes (a ∷ []) s after h = absurd cc
wide_from_passes (a ∷ b ∷ cs) s after h = elim (Bool-cases (both_zero a b)) [
  | inl z ↦ ground (arith, z)
  | inr z ↦ longer_passes (wide_from cs) (λ s' after'. wide_from_passes cs s' after') (rw z at h)
]
  where
    longer_passes :
        (m : Result (Text × Text))
        → ((s' after' : Text) → m ≡ ok (s', after') → cs ≡ s' ++ after')
        → longer a b m ≡ ok (s, after)
        → a ∷ b ∷ cs ≡ s ++ after
    longer_passes (err message) f k = absurd cc
    longer_passes (ok (s', after')) f k = ground (arith, f s' after' refl)

pub wide_passes : (r r' : Reader) (s : Text) → wide r ≡ ok (s, r') → r.rest ≡ s ++ r'.rest
unfolding wide
wide_passes r r' s h =
    let ((s', after), e, k) = bind-eq_ok (wide_from r.rest) _ _ h in
    ground (arith, wide_from_passes r.rest s' after e)

-- What follows from the equation of either branch follows from that of the test.
by_test {ℓ κ} :
    {A : Type ℓ} {P : Type κ} {x y z : A} (test : Bool)
    → (x ≡ z → P)
    → (y ≡ z → P)
    → (if test then x else y) ≡ z
    → P
by_test true f g h = f h
by_test false f g h = g h

pub scalar_passes :
    (type : ℕ) (r r' : Reader) (s : Text) → scalar type r ≡ ok (s, r') → r.rest ≡ s ++ r'.rest
unfolding scalar
scalar_passes type r r' s = by_test (type == 1) string_passes_bytes (
    by_test (type == 5) (wide_passes r r' s) (
      by_test (type == 2 || type == 3 || type == 4 || type == 6) (take_bytes_passes 4 r r' s) (
        by_test (type == 7 || type == 10) (take_bytes_passes 8 r r' s)
          (by_test (type == 9) (take_bytes_passes 1 r r' s) (λ e. absurd cc)))))
  where
    string_passes_bytes : string r ≡ ok (s, r') → r.rest ≡ s ++ r'.rest
    string_passes_bytes h =
        let (t, is_t, valid, rest) = string_passes r r' s h in
        rest ∙ sym (append_assoc t (0 ∷ []) r'.rest) ∙ ap (λ u. u ++ r'.rest) (sym is_t)

pub first_byte_passes :
    (r r' : Reader) (s : Text) → take_bytes 1 r ≡ ok (s, r') → r.rest ≡ first_byte s ∷ r'.rest
unfolding take_bytes
first_byte_passes r r' s h = go r.rest refl
  where
    go : (cs : Text) → r.rest ≡ cs → r.rest ≡ first_byte s ∷ r'.rest
    go [] e = absurd (ground (arith, e))
    go (c ∷ cs) e = ground (arith, e)

-- How the loop of `object` returns: at an end byte, or behind a node and those that follow it.
pub data View (fuel depth : ℕ) (r : Reader) : (Nodes × ℕ) × Reader → Type 0 where
  ends :
      (type : ℕ) (r1 : Reader)
      → is_end type ≡ true
      → r.rest ≡ type ∷ r1.rest
      → View fuel depth r ((nil, type), r1)
  goes_on :
      (type : ℕ) (key : Text) (r3 : Reader) (node : Vdf) (r4 : Reader) (nodes : Nodes) (end : ℕ)
      (r5 : Reader)
      → r.rest ≡ head_of type key ++ r3.rest
      → valid_key key ≡ true
      → node_of (members fuel) depth type key r3 ≡ ok (node, r4)
      → members fuel depth r4 ≡ ok ((nodes, end), r5)
      → View fuel depth r ((cons node nodes, end), r5)

head_passes :
    (type : ℕ) (key : Text) (r r1 r2 r3 : Reader)
    → r.rest ≡ type ∷ r1.rest
    → count_field r1 ≡ ok r2
    → r2.rest ≡ key ++ 0 ∷ r3.rest
    → r.rest ≡ head_of type key ++ r3.rest
head_passes type key r r1 r2 r3 rest count rest2 =
    rest
    ∙ ap (λ t. type ∷ t)
        (ap (λ x. x.rest) (ok-injective (then-eq_ok _ _ r2 count).1)
          ∙ rest2
          ∙ sym (append_assoc key (0 ∷ []) r3.rest))

pub members-View :
    (fuel depth : ℕ) (r : Reader) (p : (Nodes × ℕ) × Reader)
    → members (suc fuel) depth r ≡ ok p
    → View fuel depth r p
unfolding members
members-View fuel depth r p h =
    let ((byte, r1), e1, h1) = bind-eq_ok (take_bytes 1 r) _ _ h in
    let rest1 = first_byte_passes r r1 byte e1 in
    elim (Bool-cases (is_end (first_byte byte))) [
      | inl is_last ↦
          subst (View fuel depth r) (ok-injective (rw is_last at h1))
            (ends (first_byte byte) r1 is_last rest1)
      | inr more ↦
          let (r2, e2, h2) = bind-eq_ok (count_field r1) _ _ (rw more at h1) in
          let ((key, r3), e3, h3) = bind-eq_ok (key_of r2) _ _ h2 in
          let (valid, rest3) = key_of_passes r2 r3 key e3 in
          let ((node, r4), e4, h4) =
            bind-eq_ok (node_of (members fuel) depth (first_byte byte) key r3) _ _ h3 in
          let (((nodes, end), r5), e5, h5) = bind-eq_ok (members fuel depth r4) _ _ h4 in
          subst (View fuel depth r) (ok-injective h5) (
            goes_on (first_byte byte) key r3 node r4 nodes end r5
              (head_passes (first_byte byte) key r r1 r2 r3 rest1 e2 rest3) valid e4 e5)
    ]
