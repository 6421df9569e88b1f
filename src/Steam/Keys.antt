-- ===== src/Steam/Keys.antt =====
-- What the steps of `sync` (src/common/steam_library.cpp) leave of the entries and of their keys.
use rift_lift.Common.{
  ℕ, true, false, List, [], ◌∷◌, ◌++◌, Option, none, some, Text, is_empty, All, contains,
  append_assoc, append-nil, ok, ◌≡◌, refl, ap, sym, ◌∙◌, bind-eq_ok, ok-injective,
}
use rift_lift.Steam.Vdf.{Vdf, vdf}
use rift_lift.Steam.Fields.{
  key, children, field, put, node, with_children, with_key, replace_or_add,
}
use rift_lift.Steam.Shortcut.{Game, owned_package, fill, add_tags}
use rift_lift.Steam.Draft.{Owned, split_entries}
use rift_lift.Steam.Terminated.{TerminatedNode, owned_package-none}

-- Each of the added keys is none of those that there are, and none of those added before it.
abbrev pub Fresh : List Text → List Text → Type 0
Fresh keys [] = Unit
Fresh keys (k ∷ ks) = (contains keys k ≡ false) × Fresh (k ∷ keys) ks

-- All entries are kept, those that RiftLift has added among them.
pub split_entries-keeps :
    (es retained : List Vdf) (prior : Owned) (r : List Vdf × Owned)
    → All TerminatedNode es
    → split_entries es retained prior ≡ ok r
    → r ≡ (retained ++ es, prior)
unfolding split_entries
split_entries-keeps [] retained prior r t h =
    sym (ok-injective h) ∙ ap (λ es. (es, prior)) (sym (append-nil retained))
split_entries-keeps (e ∷ es) retained prior r (t, ts) h =
    let (p, owned, h1) = bind-eq_ok (owned_package e) _ _ h in
    let foreign : is_empty p ≡ true = ap is_empty (owned_package-none e p t owned) in
    split_entries-keeps es (retained ++ e ∷ []) prior r ts (rw foreign at h1)
    ∙ ap (λ es. (es, prior)) (append_assoc retained (e ∷ []) es)

key-with_children : (ns : List Vdf) (n : Vdf) → key (with_children ns n) ≡ key n
key-with_children ns (vdf type k v old end) = refl

pub key-with_key : (k : Text) (n : Vdf) → key (with_key k n) ≡ k
key-with_key k (vdf type old v ns end) = refl

pub key-put : (k v : Text) (type : ℕ) (n m : Vdf) → put k v type n ≡ ok m → key m ≡ key n
unfolding put
key-put k v type n m h =
    let (old, _, h1) = bind-eq_ok (field n k) _ _ h in
    ap key (sym (ok-injective h1))
    ∙ key-with_children (replace_or_add old (node k v type) (children n)) n

key-add_tags : (tags : Option Vdf) (n : Vdf) → key (add_tags tags n) ≡ key n
key-add_tags none n = key-with_children _ n
key-add_tags (some t) n = refl

pub key-fill :
    (executable folder : Text) (g : Game) (id : ℕ) (n m : Vdf)
    → fill executable folder g id n ≡ ok m
    → key m ≡ key n
unfolding fill
key-fill executable folder g id n m h =
    let (e1, p1, h1) = bind-eq_ok (put _ _ _ n) _ _ h in
    let (e2, p2, h2) = bind-eq_ok (put _ _ _ e1) _ _ h1 in
    let (e3, p3, h3) = bind-eq_ok (put _ _ _ e2) _ _ h2 in
    let (e4, p4, h4) = bind-eq_ok (put _ _ _ e3) _ _ h3 in
    let (e5, p5, h5) = bind-eq_ok (put _ _ _ e4) _ _ h4 in
    let (e6, p6, h6) = bind-eq_ok (put _ _ _ e5) _ _ h5 in
    let (e7, p7, h7) = bind-eq_ok (put _ _ _ e6) _ _ h6 in
    let (e8, p8, h8) = bind-eq_ok (put _ _ _ e7) _ _ h7 in
    let (tags, _, h9) = bind-eq_ok (field e8 _) _ _ h8 in
    ap key (sym (ok-injective h9))
    ∙ key-add_tags tags e8
    ∙ key-put _ _ _ e7 e8 p8
    ∙ key-put _ _ _ e6 e7 p7
    ∙ key-put _ _ _ e5 e6 p6
    ∙ key-put _ _ _ e4 e5 p5
    ∙ key-put _ _ _ e3 e4 p4
    ∙ key-put _ _ _ e2 e3 p3
    ∙ key-put _ _ _ e1 e2 p2
    ∙ key-put _ _ _ n e1 p1
