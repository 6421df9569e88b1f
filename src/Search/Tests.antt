-- ===== src/Search/Tests.antt =====
-- Searches with src/common/search.cpp.
use rift_lift.Common.{List, [], ◌∷◌, ◌++◌, Text, codes, ◌≡◌, refl}
use rift_lift.Names.{is_digit, is_lower}
use rift_lift.Search.Words.{
  extra_of, first_bits, follow, next, apostrophe, combining, separator, spelled, collect, words,
}

-- "Lucky's Tale: Rêve" and "REVE luckys"
abbrev title : Text
title = codes "Lucky's Tale: R" ++ (0xc3 ∷ 0xaa ∷ codes "ve")

abbrev query : Text
query = codes "REVE  luckys"

words-title : words title ≡ codes "luckys" ∷ codes "tale" ∷ codes "reve" ∷ []
unfolding words collect next extra_of first_bits follow apostrophe combining separator spelled
    is_digit is_lower
words-title = refl

words-query : words query ≡ codes "reve" ∷ codes "luckys" ∷ []
unfolding words collect next extra_of first_bits follow apostrophe combining separator spelled
    is_digit is_lower
words-query = refl

-- A byte that follows none, here 0xb5, is not read as itself but as its low bits, a digit.
next-stray : (next 0xb5 []).0 ≡ b'5'
unfolding next extra_of first_bits follow
next-stray = refl

abbrev rift_words : List Text
rift_words = codes "Rift" ∷ codes "S" ∷ []

abbrev title_words : List Text
title_words = codes "Oculus" ∷ codes "RIFTS" ∷ codes "2" ∷ []
