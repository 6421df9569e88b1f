-- ===== src/Search/Latin.antt =====
-- `kLatin` of src/common/search.cpp: the plain spelling of the letters from U+00C0 to U+024F.
use Prim.Native.String.{String}
use rift_lift.Common.{List, [], ◌∷◌, Option, none, some}

abbrev pub latin : List (Option String)
latin =
    some "a"
    ∷ some "a"
    ∷ some "a"
    ∷ some "a"
    ∷ some "a"
    ∷ some "a"
    ∷ some "ae"
    ∷ some "c"
    ∷ some "e"
    ∷ some "e"
    ∷ some "e"
    ∷ some "e"
    ∷ some "i"
    ∷ some "i"
    ∷ some "i"
    ∷ some "i"
    ∷ none
    ∷ some "n"
    ∷ some "o"
    ∷ some "o"
    ∷ some "o"
    ∷ some "o"
    ∷ some "o"
    ∷ none
    ∷ some "o"
    ∷ some "u"
    ∷ some "u"
    ∷ some "u"
    ∷ some "u"
    ∷ some "y"
    ∷ none
    ∷ some "ss"
    ∷ some "a"
    ∷ some "a"
    ∷ some "a"
    ∷ some "a"
    ∷ some "a"
    ∷ some "a"
    ∷ some "ae"
    ∷ some "c"
    ∷ some "e"
    ∷ some "e"
    ∷ some "e"
    ∷ some "e"
    ∷ some "i"
    ∷ some "i"
    ∷ some "i"
    ∷ some "i"
    ∷ none
    ∷ some "n"
    ∷ some "o"
    ∷ some "o"
    ∷ some "o"
    ∷ some "o"
    ∷ some "o"
    ∷ none
    ∷ some "o"
    ∷ some "u"
    ∷ some "u"
    ∷ some "u"
    ∷ some "u"
    ∷ some "y"
    ∷ none
    ∷ some "y"
    ∷ some "a"
    ∷ some "a"
    ∷ some "a"
    ∷ some "a"
    ∷ some "a"
    ∷ some "a"
    ∷ some "c"
    ∷ some "c"
    ∷ some "c"
    ∷ some "c"
    ∷ some "c"
    ∷ some "c"
    ∷ some "c"
    ∷ some "c"
    ∷ some "d"
    ∷ some "d"
    ∷ some "d"
    ∷ some "d"
    ∷ some "e"
    ∷ some "e"
    ∷ some "e"
    ∷ some "e"
    ∷ some "e"
    ∷ some "e"
    ∷ some "e"
    ∷ some "e"
    ∷ some "e"
    ∷ some "e"
    ∷ some "g"
    ∷ some "g"
    ∷ some "g"
    ∷ some "g"
    ∷ some "g"
    ∷ some "g"
    ∷ some "g"
    ∷ some "g"
    ∷ some "h"
    ∷ some "h"
    ∷ none
    ∷ none
    ∷ some "i"
    ∷ some "i"
    ∷ some "i"
    ∷ some "i"
    ∷ some "i"
    ∷ some "i"
    ∷ some "i"
    ∷ some "i"
    ∷ some "i"
    ∷ none
    ∷ some "ij"
    ∷ some "ij"
    ∷ some "j"
    ∷ some "j"
    ∷ some "k"
    ∷ some "k"
    ∷ none
    ∷ some "l"
    ∷ some "l"
    ∷ some "l"
    ∷ some "l"
    ∷ some "l"
    ∷ some "l"
    ∷ none
    ∷ none
    ∷ some "l"
    ∷ some "l"
    ∷ some "n"
    ∷ some "n"
    ∷ some "n"
    ∷ some "n"
    ∷ some "n"
    ∷ some "n"
    ∷ none
    ∷ none
    ∷ none
    ∷ some "o"
    ∷ some "o"
    ∷ some "o"
    ∷ some "o"
    ∷ some "o"
    ∷ some "o"
    ∷ some "oe"
    ∷ some "oe"
    ∷ some "r"
    ∷ some "r"
    ∷ some "r"
    ∷ some "r"
    ∷ some "r"
    ∷ some "r"
    ∷ some "s"
    ∷ some "s"
    ∷ some "s"
    ∷ some "s"
    ∷ some "s"
    ∷ some "s"
    ∷ some "s"
    ∷ some "s"
    ∷ some "t"
    ∷ some "t"
    ∷ some "t"
    ∷ some "t"
    ∷ none
    ∷ none
    ∷ some "u"
    ∷ some "u"
    ∷ some "u"
    ∷ some "u"
    ∷ some "u"
    ∷ some "u"
    ∷ some "u"
    ∷ some "u"
    ∷ some "u"
    ∷ some "u"
    ∷ some "u"
    ∷ some "u"
    ∷ some "w"
    ∷ some "w"
    ∷ some "y"
    ∷ some "y"
    ∷ some "y"
    ∷ some "z"
    ∷ some "z"
    ∷ some "z"
    ∷ some "z"
    ∷ some "z"
    ∷ some "z"
    ∷ some "s"
    ∷ none
    ∷ none
    ∷ none
    ∷ none
    ∷ none
    ∷ none
    ∷ none
    ∷ none
    ∷ none
    ∷ none
    ∷ none
    ∷ none
    ∷ none
    ∷ none
    ∷ none
    ∷ none
    ∷ none
    ∷ none
    ∷ none
    ∷ none
    ∷ none
    ∷ none
    ∷ none
    ∷ none
    ∷ none
    ∷ none
    ∷ none
    ∷ none
    ∷ none
    ∷ none
    ∷ none
    ∷ none
    ∷ some "o"
    ∷ some "o"
    ∷ none
    ∷ none
    ∷ none
    ∷ none
    ∷ none
    ∷ none
    ∷ none
    ∷ none
    ∷ none
    ∷ none
    ∷ none
    ∷ none
    ∷ none
    ∷ some "u"
    ∷ some "u"
    ∷ none
    ∷ none
    ∷ none
    ∷ none
    ∷ none
    ∷ none
    ∷ none
    ∷ none
    ∷ none
    ∷ none
    ∷ none
    ∷ none
    ∷ none
    ∷ none
    ∷ none
    ∷ none
    ∷ none
    ∷ none
    ∷ none
    ∷ some "dz"
    ∷ some "dz"
    ∷ some "dz"
    ∷ some "lj"
    ∷ some "lj"
    ∷ some "lj"
    ∷ some "nj"
    ∷ some "nj"
    ∷ some "nj"
    ∷ some "a"
    ∷ some "a"
    ∷ some "i"
    ∷ some "i"
    ∷ some "o"
    ∷ some "o"
    ∷ some "u"
    ∷ some "u"
    ∷ some "u"
    ∷ some "u"
    ∷ some "u"
    ∷ some "u"
    ∷ some "u"
    ∷ some "u"
    ∷ some "u"
    ∷ some "u"
    ∷ none
    ∷ some "a"
    ∷ some "a"
    ∷ some "a"
    ∷ some "a"
    ∷ none
    ∷ none
    ∷ none
    ∷ none
    ∷ some "g"
    ∷ some "g"
    ∷ some "k"
    ∷ some "k"
    ∷ some "o"
    ∷ some "o"
    ∷ some "o"
    ∷ some "o"
    ∷ none
    ∷ none
    ∷ some "j"
    ∷ some "dz"
    ∷ some "dz"
    ∷ some "dz"
    ∷ some "g"
    ∷ some "g"
    ∷ none
    ∷ none
    ∷ some "n"
    ∷ some "n"
    ∷ some "a"
    ∷ some "a"
    ∷ none
    ∷ none
    ∷ none
    ∷ none
    ∷ some "a"
    ∷ some "a"
    ∷ some "a"
    ∷ some "a"
    ∷ some "e"
    ∷ some "e"
    ∷ some "e"
    ∷ some "e"
    ∷ some "i"
    ∷ some "i"
    ∷ some "i"
    ∷ some "i"
    ∷ some "o"
    ∷ some "o"
    ∷ some "o"
    ∷ some "o"
    ∷ some "r"
    ∷ some "r"
    ∷ some "r"
    ∷ some "r"
    ∷ some "u"
    ∷ some "u"
    ∷ some "u"
    ∷ some "u"
    ∷ some "s"
    ∷ some "s"
    ∷ some "t"
    ∷ some "t"
    ∷ none
    ∷ none
    ∷ some "h"
    ∷ some "h"
    ∷ none
    ∷ none
    ∷ none
    ∷ none
    ∷ none
    ∷ none
    ∷ some "a"
    ∷ some "a"
    ∷ some "e"
    ∷ some "e"
    ∷ some "o"
    ∷ some "o"
    ∷ some "o"
    ∷ some "o"
    ∷ some "o"
    ∷ some "o"
    ∷ some "o"
    ∷ some "o"
    ∷ some "y"
    ∷ some "y"
    ∷ none
    ∷ none
    ∷ none
    ∷ none
    ∷ none
    ∷ none
    ∷ none
    ∷ none
    ∷ none
    ∷ none
    ∷ none
    ∷ none
    ∷ none
    ∷ none
    ∷ none
    ∷ none
    ∷ none
    ∷ none
    ∷ none
    ∷ none
    ∷ none
    ∷ none
    ∷ none
    ∷ none
    ∷ none
    ∷ none
    ∷ none
    ∷ none
    ∷ []
