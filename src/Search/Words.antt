-- ===== src/Search/Words.antt =====
-- `next`, `words` and `matches` of src/common/search.cpp. A byte is a number below 256.
use Prim.Native.String.{String}
use rift_lift.Common.{
  ℕ, zero, suc, ◌+◌, ◌-◌, ◌*◌, ◌/◌, ◌%◌, Bool, not, ◌&&◌, ◌||◌, List, [], ◌∷◌, ◌++◌, Option, none,
  some, Text, codes, is_empty, ltb, leb, ◌==◌, length, take, get_elem?, all, if◌then◌else◌,
}
use rift_lift.Names.{is_digit, is_lower}
use rift_lift.Diagnosis.Lines.{has_part}
use rift_lift.Search.Latin.{latin}

-- The bytes that follow the first one of a sequence.
unfoldable pub extra_of : ℕ → ℕ
extra_of b = if leb 0xf0 b then 3 else if leb 0xe0 b then 2 else if leb 0xc0 b then 1 else 0

-- `b & (0x3F >> extra)`
unfoldable pub first_bits : ℕ → ℕ → ℕ
first_bits b extra =
    if extra == 3
    then b % 8
    else if extra == 2
    then b % 16
    else if extra == 1
    then b % 32
    else b % 64

-- The loop over the bytes that follow: the code point, and how many bytes have been read.
unfoldable pub follow : ℕ → ℕ → ℕ → ℕ → Text → ℕ × ℕ
follow b zero cp size cs = (cp, size)
follow b (suc k) cp size [] = (b, size)
follow b (suc k) cp size (c ∷ cs) =
    let more = follow b k (cp * 64 + c % 64) (size + 1) cs in
    if c / 64 == 2 then more else (b, size)

-- The code point of the sequence that starts with `b`, and its size.
unfoldable pub next : ℕ → Text → ℕ × ℕ
next b cs =
    let extra = extra_of b in
    if ltb b 0x80 || leb 0xf8 b || ltb (length cs) extra
    then (b, 1)
    else follow b extra (first_bits b extra) 1 cs

unfoldable pub apostrophe : ℕ → Bool
apostrophe cp = cp == b'\'' || cp == 0x2018 || cp == 0x2019 || cp == 0x2bc

unfoldable pub combining : ℕ → Bool
combining cp = leb 0x300 cp && leb cp 0x36f

unfoldable pub separator : ℕ → Bool
separator cp =
    if ltb cp 0x80
    then not (is_digit cp || is_lower cp || (leb b'A' cp && leb cp b'Z'))
    else ltb cp 0xc0
      || cp == 0xd7
      || cp == 0xf7
      || (leb 0x2000 cp && leb cp 0x2bff)
      || (leb 0x3000 cp && leb cp 0x303f)
      || (leb 0xfe10 cp && leb cp 0xfe6f)
      || (leb 0xff01 cp && leb cp 0xff0f)

abbrev pub plain_or : Text → Option (Option String) → Text
plain_or bytes none = bytes
plain_or bytes (some none) = bytes
plain_or bytes (some (some plain)) = codes plain

-- What a letter adds to its word.
unfoldable pub spelled : ℕ → Text → Text
spelled cp bytes =
    if leb b'A' cp && leb cp b'Z'
    then (cp - b'A' + b'a') ∷ []
    else if leb 0xc0 cp && ltb cp 0x250
    then plain_or bytes (get_elem? latin (cp - 0xc0))
    else bytes

abbrev pub flush : Text → List Text → List Text
flush word rest = if is_empty word then rest else word ∷ rest

abbrev pub silent : ℕ → Bool
silent cp = apostrophe cp || combining cp

abbrev pub word_behind : Text → ℕ → Text → Text
word_behind word cp bytes =
    if silent cp then word else if separator cp then [] else word ++ spelled cp bytes

-- The loop over the text with the word so far; the bytes of a sequence behind the first are passed over.
unfoldable pub collect : ℕ → Text → Text → List Text
collect skip word [] = flush word []
collect (suc skip) word (c ∷ cs) = collect skip word cs
collect zero word (c ∷ cs) =
    let (cp, size) = next c cs in
    let rest = collect (size - 1) (word_behind word cp (take size (c ∷ cs))) cs in
    if not (silent cp) && separator cp then flush word rest else rest

unfoldable pub words : Text → List Text
words text = collect 0 [] text

abbrev pub joined : List Text → Text
joined [] = []
joined (w ∷ ws) = b' ' ∷ (w ++ joined ws)

unfoldable pub matches : Text → Text → Bool
matches query title = all (has_part (joined (words title))) (words query)
