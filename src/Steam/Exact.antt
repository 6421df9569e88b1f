-- ===== src/Steam/Exact.antt =====
-- Reading a file of `read_vdf` and writing what was read.
use rift_lift.Common.{
  ℕ, zero, suc, ◌+◌, true, [], ◌∷◌, ◌++◌, Text, is_empty, leb, ◌==◌, length, Result, ok, require,
  ◌≡◌, refl, ap, sym, ◌∙◌, subst, bind-eq_ok, then-eq_ok, require-eq_ok, arith, Bool-cases, inl,
  inr, append_assoc, append-nil, length-append, ok-injective, ◌≤◌,
}
use rift_lift.Steam.Vdf.{
  Vdf, Nodes, vdf, cons, Reader, limit, node_of, members, check_depth, scalar, head_of, valid_key,
  encode_children, encode_node, encode, read_vdf, write_vdf,
}
use rift_lift.Steam.Reading.{View, ends, goes_on, members-View, scalar_passes}

-- What `object` has read is encoded as the bytes it has passed, where they fit.
abbrev Encoded : ℕ → Reader → Text → (Nodes × ℕ) × Reader → Type 0
Encoded depth r out ((children, end), r') =
    (s : Text) × (r.rest ≡ s ++ end ∷ r'.rest)
    × (encode_children children depth out ≡ ok (out ++ s))

abbrev Exact : (ℕ → Reader → Result ((Nodes × ℕ) × Reader)) → Type 0
Exact object =
    (depth : ℕ) (r : Reader) (p : (Nodes × ℕ) × Reader)
    → object depth r ≡ ok p
    → (out : Text) → length out + length r.rest ≤ limit
    → Encoded depth r out p

-- The node that is read behind a head is encoded as that head and the bytes that were passed.
abbrev Written : ℕ → ℕ → Text → Reader → Text → Vdf × Reader → Type 0
Written depth type key r out (node, r') =
    (s : Text) × (r.rest ≡ s ++ r'.rest)
    × (encode_node node depth out ≡ ok ((out ++ head_of type key) ++ s))

node_of-Exact :
    (object : ℕ → Reader → Result ((Nodes × ℕ) × Reader)) (depth type : ℕ) (key : Text) (r : Reader)
    (p : Vdf × Reader)
    → Exact object
    → valid_key key ≡ true
    → node_of object depth type key r ≡ ok p
    → (out : Text) → length (out ++ head_of type key) + length r.rest ≤ limit
    → Written depth type key r out p
unfolding node_of encode_children
node_of-Exact object depth type key r p exact valid h out fits = elim (Bool-cases (type == 0)) [
  | inl is_object ↦
      let (shallow, h1) = then-eq_ok (check_depth (depth + 1)) _ p (rw (is_object, node_of) at h) in
      let (((children, end), r1), e, k) = bind-eq_ok (object (depth + 1) r) _ p h1 in
      let (s, rest, encodes) =
        exact (depth + 1) r ((children, end), r1) e (out ++ head_of type key) fits in
      subst (Written depth type key r out) (ok-injective k) (
        s ++ end ∷ [],
        rest ∙ sym (append_assoc s (end ∷ []) r1.rest),
        rw (valid, is_object, shallow, encodes)
            (ap ok (append_assoc (out ++ head_of type key) s (end ∷ []))),
      )
  | inr other ↦
      let ((value, r1), e, k) = bind-eq_ok (scalar type r) _ p (rw (other, node_of) at h) in
      subst (Written depth type key r out) (ok-injective k)
        (value, scalar_passes type r r1 value e, rw (valid, other) refl)
]

length_of_passed :
    (r r' : Reader) (s : Text) → r.rest ≡ s ++ r'.rest → length r.rest ≡ length s + length r'.rest
length_of_passed r r' s e = ap length e ∙ length-append s r'.rest

-- Two pieces passed leave room for the third.
fits_behind :
    (out s : Text) (r r' : Reader)
    → r.rest ≡ s ++ r'.rest
    → length out + length r.rest ≤ limit
    → length (out ++ s) + length r'.rest ≤ limit
fits_behind out s r r' e fits = omega (arith, length-append out s, length_of_passed r r' s e)

-- The encoding of a node and of those behind it, put together.
cons-Encoded :
    (depth type : ℕ) (key : Text) (r r3 r4 r5 : Reader) (node : Vdf) (nodes : Nodes) (end : ℕ)
    (out : Text)
    → r.rest ≡ head_of type key ++ r3.rest
    → length out + length r.rest ≤ limit
    → (w : Written depth type key r3 out (node, r4))
    → Encoded depth r4 ((out ++ head_of type key) ++ w.0) ((nodes, end), r5)
    → Encoded depth r out ((cons node nodes, end), r5)
unfolding encode_children
cons-Encoded depth type key r r3 r4 r5 node nodes end out rest fits (s, rest3, node_encoded)
      (t, rest4, encoded) =
    let fits3 = fits_behind out (head_of type key) r r3 rest fits in
    let fits4 = fits_behind (out ++ head_of type key) s r3 r4 rest3 fits3 in
    let small : leb (length ((out ++ head_of type key) ++ s)) limit ≡ true = ground arith in
    (
      (head_of type key ++ s) ++ t,
      simp (rest, rest3, rest4, append_assoc),
      rw (node_encoded, small, encoded) simp append_assoc,
    )

View-Encoded :
    (fuel depth : ℕ) (r : Reader) (p : (Nodes × ℕ) × Reader)
    → Exact (members fuel)
    → View fuel depth r p
    → (out : Text) → length out + length r.rest ≤ limit
    → Encoded depth r out p
unfolding encode_children
View-Encoded fuel depth r _ exact (ends type r1 is_last rest) out fits =
    ([], rest, ap ok (sym (append-nil out)))
View-Encoded fuel depth r _ exact
      (goes_on type key r3 node r4 nodes end r5 rest valid read_node read_nodes) out fits =
    let fits3 = fits_behind out (head_of type key) r r3 rest fits in
    let w =
      node_of-Exact (members fuel) depth type key r3 (node, r4) exact valid read_node out fits3 in
    cons-Encoded depth type key r r3 r4 r5 node nodes end out rest fits w (
      exact depth r4 ((nodes, end), r5) read_nodes ((out ++ head_of type key) ++ w.0)
        (fits_behind (out ++ head_of type key) w.0 r3 r4 w.1 fits3))

members-Exact : (fuel : ℕ) → Exact (members fuel)
unfolding members
members-Exact zero depth r p h out fits = absurd cc
members-Exact (suc fuel) depth r p h out fits =
    View-Encoded fuel depth r p (members-Exact fuel) (members-View fuel depth r p h) out fits

abbrev pub start : Text → Reader
start bytes = record { rest = bytes; fields = 0 }

pub read_children :
    (bytes : Text) (obj : Vdf)
    → read_vdf bytes ≡ ok obj
    → (p : (Nodes × ℕ) × Reader) × (members (suc (length bytes)) 0 (start bytes) ≡ ok p)
      × (p.1.rest ≡ [])
      × (leb (length bytes) limit ≡ true)
      × (obj ≡ vdf 0 [] [] p.0.0 p.0.1)
unfolding read_vdf
read_children bytes obj h =
    let (short, h1) = then-eq_ok (require (leb (length bytes) limit) _) _ _ h in
    let (p, e, h2) = bind-eq_ok (members (suc (length bytes)) 0 (start bytes)) _ _ h1 in
    let (all_read, h3) = then-eq_ok (require (is_empty p.1.rest) _) _ _ h2 in
    (
      p,
      e,
      empty p.1.rest (require-eq_ok _ _ all_read),
      require-eq_ok _ _ short,
      sym (ok-injective h3),
    )
  where
    empty : (s : Text) → is_empty s ≡ true → s ≡ []
    empty s t = ground arith

-- A file that is read without an error is written again byte for byte: what Steam or another
-- program stored in it is lost nowhere, and writing does not fail.
pub read_vdf-write_vdf :
    (bytes : Text) (obj : Vdf) → read_vdf bytes ≡ ok obj → write_vdf obj ≡ ok bytes
unfolding write_vdf encode
read_vdf-write_vdf bytes obj h =
    let (p, e, all_read, short, is_obj) = read_children bytes obj h in
    let (s, passed, encoded) =
      members-Exact (suc (length bytes)) 0 (start bytes) p e [] (ground arith) in
    let whole : s ++ p.0.1 ∷ [] ≡ bytes = sym (passed ∙ ap (λ rest. s ++ p.0.1 ∷ rest) all_read) in
    rw (is_obj, encoded, whole, h) refl
