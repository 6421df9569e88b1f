-- ===== src/Rules/Strings.antt =====
-- The text helpers of src/runtime/rules.cpp: `whitespace`, `split`, `join`, `lower`, `strip` and
-- `dll_name`, and the members of `std::string` that they call.
use rift_lift.Common.{
  ℕ, ◌+◌, ◌-◌, Bool, ◌&&◌, ◌||◌, List, [], ◌∷◌, ◌++◌, map, Text, codes, text_eq, starts_with, leb,
  ◌==◌, if◌then◌else◌, length, take,
}
use mathlib.Core.List.{reverse}

-- `whitespace.find(c) != npos`, of " \t\r\n\f\v"
unfoldable pub is_space : ℕ → Bool
is_space c = c == b' ' || c == b'\t' || c == b'\r' || c == b'\n' || c == 0x0c || c == 0x0b

-- `std::tolower` in the C locale
unfoldable pub to_lower : ℕ → ℕ
to_lower c = if leb b'A' c && leb c b'Z' then c + 32 else c

unfoldable pub lower : Text → Text
unfolding to_lower
lower = map to_lower

unfoldable pub drop_while : (ℕ → Bool) → Text → Text
drop_while p [] = []
drop_while p (c ∷ cs) = let rest = drop_while p cs in if p c then rest else c ∷ cs

-- `text.erase(text.find_last_not_of(p) + 1)`, or a loop over `ends_with` and `pop_back`
unfoldable pub drop_while_end : (ℕ → Bool) → Text → Text
unfolding drop_while
drop_while_end p s = reverse (drop_while p (reverse s))

unfoldable pub strip : Text → Text
unfolding drop_while drop_while_end is_space
strip s = drop_while_end is_space (drop_while is_space s)

abbrev pub first_part : ℕ → List Text → List Text
first_part c [] = (c ∷ []) ∷ []
first_part c (p ∷ ps) = (c ∷ p) ∷ ps

-- The parts of a text between its separators; there is always one more than separators.
unfoldable pub split : ℕ → Text → List Text
split separator [] = [] ∷ []
split separator (c ∷ cs) =
    let rest = split separator cs in if c == separator then [] ∷ rest else first_part c rest

unfoldable pub join : Text → List Text → Text
join separator [] = []
join separator (p ∷ []) = p
join separator (p ∷ q ∷ ps) = p ++ (separator ++ join separator (q ∷ ps))

-- `text.ends_with(suffix)`
unfoldable pub ends_with : Text → Text → Bool
ends_with s suffix = starts_with (reverse s) (reverse suffix)

-- "*Foo.DLL" becomes "foo"; a lone "*" stays.
unfoldable pub dll_name : Text → Text
dll_name value =
    let name = lower (strip value) in
    let base = if ends_with name (codes ".dll") then take (length name - 4) name else name in
    if text_eq base (codes "*") then base else drop_while (λ c. c == b'*') base
