-- ===== src/Steam/Terminated.antt =====
-- The payloads of the strings that `Reader::string` of src/common/steam_library.cpp reads, and what
-- `owned_package` there makes of them.
use rift_lift.Common.{
  ℕ, zero, suc, ◌+◌, true, false, not, List, [], ◌∷◌, ◌++◌, Option, none, some, Text, text_eq,
  text_eq_iff, any, All, length, ◌==◌, Result, ok, err, ◌>>=◌, if◌then◌else◌, ◌≡◌, ◌≢◌, refl, ap,
  sym, subst, arith, bind-eq_ok, then-eq_ok, ok-injective, Bool-cases, inl, inr, codes,
}
use rift_lift.Steam.Vdf.{Vdf, vdf, Nodes, nil, cons, Reader, members, node_of, scalar, read_vdf}
use rift_lift.Steam.Reading.{string_passes, View, ends, goes_on, members-View}
use rift_lift.Steam.Exact.{start, read_children}
use rift_lift.Steam.Fields.{type_of, key, value, children, to_list, field, field_from, text}
use rift_lift.Steam.Shortcut.{our_tag, is_tag, is_ours, launched, owned_package}

-- Every string's payload ends with its zero, at all depths.
unfoldable mutual
  pub Terminated : Nodes → Type 0
  Terminated nil = Unit
  Terminated (cons n ns) = TerminatedNode n × Terminated ns

  pub TerminatedNode : Vdf → Type 0
  TerminatedNode (vdf type key value children end) =
      (type ≡ 1 → (s : Text) × (value ≡ s ++ 0 ∷ [])) × Terminated children

scalar-zero :
    (type : ℕ) (r r' : Reader) (s : Text)
    → scalar type r ≡ ok (s, r')
    → type ≡ 1
    → (t : Text) × (s ≡ t ++ 0 ∷ [])
unfolding scalar
scalar-zero type r r' s h e =
    let is_one : (type == 1) ≡ true = ground (arith, e) in
    let (t, is_t, _, _) = string_passes r r' s (rw is_one at h) in (t, is_t)

node_of-Terminated :
    (object : ℕ → Reader → Result ((Nodes × ℕ) × Reader)) (depth type : ℕ) (key : Text) (r : Reader)
    (p : Vdf × Reader)
    → ((depth : ℕ) (r : Reader) (q : (Nodes × ℕ) × Reader)
        → object depth r ≡ ok q
        → Terminated q.0.0)
    → node_of object depth type key r ≡ ok p
    → TerminatedNode p.0
unfolding node_of Terminated TerminatedNode
node_of-Terminated object depth type key r p f h = elim (Bool-cases (type == 0)) [
  | inl is_object ↦
      let (_, h1) = then-eq_ok _ _ _ (rw (is_object, node_of) at h) in
      let (((ns, end), r'), e, h2) = bind-eq_ok (object (depth + 1) r) _ _ h1 in
      let ended : TerminatedNode (vdf type key [] ns end) =
        ((λ one. absurd (ground (arith, one, is_object))), f (depth + 1) r ((ns, end), r') e) in
      subst (λ q. TerminatedNode q.0) (ok-injective h2) ended
  | inr is_scalar ↦
      let ((s, r'), e, h1) = bind-eq_ok (scalar type r) _ _ (rw (is_scalar, node_of) at h) in
      let ended : TerminatedNode (vdf type key s nil 8) = (scalar-zero type r r' s e, tt) in
      subst (λ q. TerminatedNode q.0) (ok-injective h1) ended
]

members-Terminated :
    (fuel depth : ℕ) (r : Reader) (p : (Nodes × ℕ) × Reader)
    → members fuel depth r ≡ ok p
    → Terminated p.0.0
unfolding members Terminated
members-Terminated zero depth r p h = absurd cc
members-Terminated (suc fuel) depth r p h =
    viewed p (members-View fuel depth r p h) (members-Terminated fuel)
  where
    viewed :
        (p : (Nodes × ℕ) × Reader)
        → View fuel depth r p
        → ((depth : ℕ) (r : Reader) (q : (Nodes × ℕ) × Reader)
            → members fuel depth r ≡ ok q
            → Terminated q.0.0)
        → Terminated p.0.0
    viewed _ (ends type r1 last rest) f = tt
    viewed _ (goes_on type key r3 node r4 nodes end r5 rest valid read_node read_nodes) f = (
      node_of-Terminated (members fuel) depth type key r3 (node, r4) f read_node,
      f depth r4 ((nodes, end), r5) read_nodes,
    )

pub read_vdf-Terminated : (bytes : Text) (obj : Vdf) → read_vdf bytes ≡ ok obj → TerminatedNode obj
unfolding TerminatedNode
read_vdf-Terminated bytes obj h =
    let (p, e, _, _, is_obj) = read_children bytes obj h in
    let ended : TerminatedNode (vdf 0 [] [] p.0.0 p.0.1) =
      ((λ one. absurd cc), members-Terminated (suc (length bytes)) 0 (start bytes) p e) in
    subst TerminatedNode (sym is_obj) ended

pub Terminated-All : (ns : Nodes) → Terminated ns → All TerminatedNode (to_list ns)
unfolding Terminated
Terminated-All nil t = tt
Terminated-All (cons n ns) (h, hs) = (h, Terminated-All ns hs)

pub children-All : (n : Vdf) → TerminatedNode n → All TerminatedNode (children n)
unfolding TerminatedNode
children-All (vdf type key value ns end) (h, hs) = Terminated-All ns hs

-- A field is one of the children.
pub field_from-All :
    (P : Vdf → Type 0) (found : Option Vdf) (k : Text) (ns : List Vdf) (n : Vdf)
    → ((m : Vdf) → found ≡ some m → P m)
    → All P ns
    → field_from found k ns ≡ ok (some n)
    → P n
unfolding field_from
field_from-All P found k [] n f t h = f n (ok-injective h)
field_from-All P none k (m ∷ ms) n f (p, ps) h = elim (Bool-cases (text_eq (key m) k)) [
  | inl same ↦
      field_from-All P (some m) k ms n (λ x e. subst P (some-injective e) p) ps (rw same at h)
  | inr other ↦ field_from-All P none k ms n f ps (rw other at h)
]
  where
    some-injective : {a b : Vdf} → some a ≡ some b → a ≡ b
    some-injective e = cc
field_from-All P (some o) k (m ∷ ms) n f (p, ps) h = elim (Bool-cases (text_eq (key m) k)) [
  | inl same ↦ absurd (not_ok (rw same at h))
  | inr other ↦ field_from-All P (some o) k ms n f ps (rw other at h)
]
  where
    not_ok : {what : Text} → err what ≢ ok (some n)
    not_ok e = absurd cc

ends_in_zero : (s : Text) → text_eq (s ++ 0 ∷ []) our_tag ≡ false
ends_in_zero s = elim (Bool-cases (text_eq (s ++ 0 ∷ []) our_tag)) [
  | inr other ↦ other
  | inl same ↦
      absurd (has_zero s (ap (any (λ c. c == 0)) ((text_eq_iff (s ++ 0 ∷ []) our_tag).0 same)))
]
  where
    has_zero : (s : Text) → any (λ c. c == 0) (s ++ 0 ∷ []) ≡ false → ⊥
    has_zero [] h = absurd cc
    has_zero (c ∷ s) h = has_zero s (ground (arith, h))

is_tag-false : (n : Vdf) → TerminatedNode n → is_tag n ≡ false
unfolding TerminatedNode
is_tag-false (vdf type key value ns end) (ended, t) = elim (Bool-cases (type == 1)) [
  | inr other ↦ rw other refl
  | inl one ↦ let (s, e) = ended (ground (arith, one)) in rw (one, e) (ends_in_zero s)
]

none_tagged : (ns : List Vdf) → All TerminatedNode ns → any is_tag ns ≡ false
none_tagged [] t = refl
none_tagged (n ∷ ns) (h, hs) = rw (is_tag-false n h) (none_tagged ns hs)

pub field-Terminated :
    (e : Vdf) (k : Text) (n : Vdf) → TerminatedNode e → field e k ≡ ok (some n) → TerminatedNode n
unfolding field
field-Terminated e k n t f =
    field_from-All TerminatedNode none k (children e) n (λ m x. absurd cc) (children-All e t) f

-- No entry of a file is taken for one of RiftLift's: `owned_package` is empty or throws for each.
pub owned_package-none : (e : Vdf) (p : Text) → TerminatedNode e → owned_package e ≡ ok p → p ≡ []
unfolding owned_package
owned_package-none e p t h =
    let (tags, found, h1) = bind-eq_ok (field e (codes "tags")) _ _ h in tagged tags found h1
  where
    tagged :
        (tags : Option Vdf)
        → field e (codes "tags") ≡ ok tags
        → (elim tags [
          | none ↦ ok []
          | some t ↦
              if not (type_of t == 0)
              then ok []
              else do options ← text e (codes "LaunchOptions"); ok (launched (is_ours t) options)
        ])
          ≡ ok p
        → p ≡ []
    tagged none f k = sym (ok-injective k)
    tagged (some tags) f k = elim (Bool-cases (type_of tags == 0)) [
      | inr other ↦ sym (ok-injective (rw other at k))
      | inl object ↦
          let (options, _, k1) = bind-eq_ok (text e (codes "LaunchOptions")) _ _ (rw object at k) in
          let ended : TerminatedNode tags = field-Terminated e (codes "tags") tags t f in
          let unmarked : is_ours tags ≡ false =
            none_tagged (children tags) (children-All tags ended) in
          sym (ok-injective (rw unmarked at k1))
    ]
