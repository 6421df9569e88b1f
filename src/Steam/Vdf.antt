-- ===== src/Steam/Vdf.antt =====
-- `Vdf`, `Reader`, `encode`, `read_vdf` and `write_vdf` of src/common/steam_library.cpp: binary
-- KeyValues. `Reader.pos` is modelled by the bytes that are still to be read.
use rift_lift.Common.{
  ℕ, zero, suc, ◌+◌, ◌*◌, Bool, true, false, not, ◌&&◌, ◌||◌, [], ◌∷◌, ◌++◌, none, some, Text,
  codes, is_empty, leb, ltb, ◌==◌, any, length, take, drop, cut, Result, ok, err, require, ◌>>=◌,
  ◌>>◌, if◌then◌else◌,
}

-- `vdf type key value children end`
mutual
  pub data Vdf : Type 0 where
    vdf : ℕ → Text → Text → Nodes → ℕ → Vdf

  pub data Nodes : Type 0 where
    nil : Nodes
    cons : Vdf → Nodes → Nodes

abbrev pub limit : ℕ
limit = 16 * 1024 * 1024

abbrev pub max_depth : ℕ
max_depth = 64

abbrev pub max_fields : ℕ
max_fields = 200000

pub record Reader : Type 0 where
  pub rest : Text
  pub fields : ℕ

unfoldable pub take_bytes : ℕ → Reader → Result (Text × Reader)
take_bytes n r =
    if ltb (length r.rest) n
    then err (codes "Truncated Steam VDF.")
    else ok (take n r.rest, record r { rest = drop n r.rest })

abbrev pub first_byte : Text → ℕ
first_byte [] = 0
first_byte (c ∷ cs) = c

unfoldable pub string : Reader → Result (Text × Reader)
string r = elim (cut 0 r.rest) [
  | none ↦ err (codes "Unterminated Steam VDF string.")
  | some (s, after) ↦ ok (s ++ 0 ∷ [], record r { rest = after })
]

abbrev pub both_zero : ℕ → ℕ → Bool
both_zero a b = a == 0 && b == 0

-- The loop that takes two bytes up to and including two zeros; `taken` stands before the result.
abbrev pub longer : ℕ → ℕ → Result (Text × Text) → Result (Text × Text)
longer a b (err message) = err message
longer a b (ok (s, after)) = ok (a ∷ b ∷ s, after)

unfoldable pub wide_from : Text → Result (Text × Text)
wide_from (a ∷ b ∷ cs) =
    let more = wide_from cs in if both_zero a b then ok (a ∷ b ∷ [], cs) else longer a b more
wide_from _ = err (codes "Truncated Steam VDF.")

unfoldable pub wide : Reader → Result (Text × Reader)
wide r = do (s, after) ← wide_from r.rest; ok (s, record r { rest = after })

-- The payload of a node that is no object.
unfoldable pub scalar : ℕ → Reader → Result (Text × Reader)
scalar type r =
    if type == 1
    then string r
    else if type == 5
    then wide r
    else if type == 2 || type == 3 || type == 4 || type == 6
    then take_bytes 4 r
    else if type == 7 || type == 10
    then take_bytes 8 r
    else if type == 9
    then take_bytes 1 r
    else err (codes "Unsupported Steam VDF wire type; leaving file unchanged.")

abbrev pub check_depth : ℕ → Result (Unit {0})
check_depth depth = require (leb depth max_depth) (codes "Steam VDF nesting exceeds 64.")

abbrev pub is_end : ℕ → Bool
is_end type = type == 8 || type == 11

abbrev pub pop_back : Text → Text
pop_back [] = []
pop_back (c ∷ []) = []
pop_back (c ∷ d ∷ cs) = c ∷ pop_back (d ∷ cs)

-- `node.key = string(); node.key.pop_back();`
unfoldable pub key_of : Reader → Result (Text × Reader)
key_of r = do (s, r') ← string r; ok (pop_back s, r')

-- `++fields` with its check
abbrev pub count_field : Reader → Result Reader
count_field r =
    require (leb (r.fields + 1) max_fields) (codes "Steam VDF field count exceeds limit.")
    >> ok (record r { fields = r.fields + 1 })

-- A node behind its type and its key, where `object` reads the children of one and their end.
unfoldable pub node_of :
    (ℕ → Reader → Result ((Nodes × ℕ) × Reader)) → ℕ → ℕ → Text → Reader → Result (Vdf × Reader)
node_of object depth type key r = elim (type == 0) [
  | true ↦ do
    check_depth (depth + 1)
    ((children, end), r') ← object (depth + 1) r
    ok (vdf type key [] children end, r')
  | false ↦ do (value, r') ← scalar type r; ok (vdf type key value nil 8, r')
]

-- The loop of `Reader::object`: the children and the byte that ends them. A file of n bytes is read
-- with the fuel n + 1; without fuel the error has no message.
unfoldable pub members : ℕ → ℕ → Reader → Result ((Nodes × ℕ) × Reader)
unfolding node_of
members zero depth r = err []
members (suc fuel) depth r = do
  (byte, r1) ← take_bytes 1 r
  elim (is_end (first_byte byte)) [
    | true ↦ ok ((nil, first_byte byte), r1)
    | false ↦ do
      r2 ← count_field r1
      (key, r3) ← key_of r2
      (node, r4) ← node_of (members fuel) depth (first_byte byte) key r3
      ((nodes, end), r5) ← members fuel depth r4
      ok ((cons node nodes, end), r5)
  ]

unfoldable pub read_vdf : Text → Result Vdf
unfolding members
read_vdf bytes = do
  require (leb (length bytes) limit) (codes "Steam VDF exceeds size limit.")
  check_depth 0
  ((children, end), r) ← members (suc (length bytes)) 0 (record { rest = bytes; fields = 0 })
  require (is_empty r.rest) (codes "Trailing Steam VDF bytes.")
  ok (vdf 0 [] [] children end)

abbrev pub valid_key : Text → Bool
valid_key key = not (any (λ c. c == 0) key)

abbrev pub head_of : ℕ → Text → Text
head_of type key = type ∷ key ++ 0 ∷ []

-- The loop of `encode`; `depth` is that of the object whose children these are.
unfoldable mutual
  pub encode_children : Nodes → ℕ → Text → Result Text
  encode_children nil depth out = ok out
  encode_children (cons n ns) depth out = do
    out' ← encode_node n depth out
    require (leb (length out') limit) (codes "Steam VDF exceeds size limit.")
    encode_children ns depth out'

  pub encode_node : Vdf → ℕ → Text → Result Text
  encode_node (vdf type key value children end) depth out = do
    require (valid_key key) (codes "Invalid Steam VDF key.")
    elim (type == 0) [
      | true ↦ do
        check_depth (depth + 1)
        out' ← encode_children children (depth + 1) (out ++ head_of type key)
        ok (out' ++ end ∷ [])
      | false ↦ ok ((out ++ head_of type key) ++ value)
    ]

unfoldable pub encode : Vdf → ℕ → Text → Result Text
encode (vdf type key value children end) depth out = do
  check_depth depth
  out' ← encode_children children depth out
  ok (out' ++ end ∷ [])

unfoldable pub write_vdf : Vdf → Result Text
write_vdf obj = do out ← encode obj 0 []; _ ← read_vdf out; ok out
