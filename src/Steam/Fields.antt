-- ===== src/Steam/Fields.antt =====
-- The fields of binary KeyValues objects in src/common/steam_library.cpp: `field`, `text`, `put`,
-- `integer`, `number` and `appid`. A vector of children is a List here.
use Prim.Native.Nat.{bit_or, bit_xor}
use rift_lift.Common.{
  ℕ, zero, suc, ◌+◌, ◌*◌, ◌/◌, ◌%◌, not, ◌&&◌, List, [], ◌∷◌, ◌++◌, Option, none, some, Text, codes,
  is_empty, text_eq, ◌==◌, Result, ok, err, ◌>>=◌, if◌then◌else◌,
}
use rift_lift.Steam.Vdf.{Vdf, vdf, Nodes, nil, cons, pop_back}

abbrev pub to_list : Nodes → List Vdf
to_list nil = []
to_list (cons n ns) = n ∷ to_list ns

abbrev pub of_list : List Vdf → Nodes
of_list [] = nil
of_list (n ∷ ns) = cons n (of_list ns)

abbrev pub type_of : Vdf → ℕ
type_of (vdf type k v ns end) = type

abbrev pub key : Vdf → Text
key (vdf type k v ns end) = k

abbrev pub value : Vdf → Text
value (vdf type k v ns end) = v

abbrev pub children : Vdf → List Vdf
children (vdf type k v ns end) = to_list ns

abbrev pub with_children : List Vdf → Vdf → Vdf
with_children ns (vdf type k v old end) = vdf type k v (of_list ns) end

abbrev pub with_key : Text → Vdf → Vdf
with_key k (vdf type old v ns end) = vdf type k v ns end

-- `Vdf{}`
abbrev pub empty : Vdf
empty = vdf 0 [] [] nil 8

unfoldable pub field_from : Option Vdf → Text → List Vdf → Result (Option Vdf)
field_from found k [] = ok found
field_from found k (n ∷ ns) =
    if text_eq (key n) k
    then elim found [
      | none ↦ field_from (some n) k ns
      | some earlier ↦ err (codes "Duplicate Steam VDF field; leaving file unchanged.")
    ]
    else field_from found k ns

unfoldable pub field : Vdf → Text → Result (Option Vdf)
field obj k = field_from none k (children obj)

-- The characters of a string node, without the zero at its end.
unfoldable pub text_of : Option Vdf → Text
text_of none = []
text_of (some n) = if type_of n == 1 && not (is_empty (value n)) then pop_back (value n) else []

unfoldable pub text : Vdf → Text → Result Text
text obj k = do n ← field obj k; ok (text_of n)

-- `*old = n`, where `old` is the field with this key.
unfoldable pub replace : Vdf → List Vdf → List Vdf
replace n [] = []
replace n (m ∷ ms) = if text_eq (key m) (key n) then n ∷ ms else m ∷ replace n ms

abbrev pub replace_or_add : Option Vdf → Vdf → List Vdf → List Vdf
replace_or_add none n ns = ns ++ n ∷ []
replace_or_add (some old) n ns = replace n ns

abbrev pub node : Text → Text → ℕ → Vdf
node k v type = vdf type k (if type == 1 then v ++ 0 ∷ [] else v) nil 8

unfoldable pub put : Text → Text → ℕ → Vdf → Result Vdf
put k v type obj = do
  old ← field obj k
  ok (with_children (replace_or_add old (node k v type) (children obj)) obj)

unfoldable pub integer : ℕ → Text
integer n = n % 256 ∷ n / 256 % 256 ∷ n / 65536 % 256 ∷ n / 16777216 % 256 ∷ []

abbrev pub four_bytes : Text → ℕ
four_bytes (a ∷ b ∷ c ∷ d ∷ []) = a + 256 * (b + 256 * (c + 256 * d))
four_bytes _ = 0

unfoldable pub number : Option Vdf → ℕ
number none = 0
number (some n) = if type_of n == 2 then four_bytes (value n) else 0

-- Eight times `crc = (crc >> 1) ^ ((crc & 1) ? 0xedb88320u : 0)`
unfoldable pub shift_out : ℕ → ℕ → ℕ
shift_out zero crc = crc
shift_out (suc n) crc = shift_out n (bit_xor (crc / 2) (if crc % 2 == 1 then 0xedb88320 else 0))

unfoldable pub crc_bytes : Text → ℕ → ℕ
crc_bytes [] crc = crc
crc_bytes (c ∷ cs) crc = crc_bytes cs (shift_out 8 (bit_xor crc c))

unfoldable pub appid : Text → Text → ℕ
appid exe name = bit_or (bit_xor (crc_bytes name (crc_bytes exe 0xffffffff)) 0xffffffff) 0x80000000
