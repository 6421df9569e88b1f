-- ===== src/Steam/Tests.antt =====
-- A small shortcuts.vdf, read and written.
use rift_lift.Common.{[], ◌∷◌, ◌++◌, Text, codes, ok, err, ◌≡◌, ◌≢◌, refl}
use rift_lift.Steam.Vdf.{
  Vdf, vdf, nil, cons, read_vdf, write_vdf, members, node_of, scalar, key_of, string, take_bytes,
  wide, wide_from,
}
use rift_lift.Steam.Exact.{read_vdf-write_vdf}
use rift_lift.Steam.Fuel.{read_vdf_answers}
use rift_lift.Common.{cut}

shortcuts : Text
shortcuts =
    0 ∷ codes "shortcuts"
    ++ 0 ∷ 0 ∷ codes "0"
    ++ 0 ∷ 2 ∷ codes "id"
    ++ 0 ∷ 7 ∷ 0 ∷ 0 ∷ 128 ∷ 1 ∷ codes "exe"
    ++ 0 ∷ codes "a"
    ++ 0 ∷ 5 ∷ codes "w"
    ++ 0 ∷ 65 ∷ 0 ∷ 0 ∷ 0 ∷ 11 ∷ 8 ∷ 8 ∷ []

document : Vdf
document =
    vdf 0 [] []
      (cons
        (vdf 0 (codes "shortcuts") []
          (cons
            (vdf 0 (codes "0") []
              (cons (vdf 2 (codes "id") (7 ∷ 0 ∷ 0 ∷ 128 ∷ []) nil 8) (
                cons (vdf 1 (codes "exe") (codes "a" ++ 0 ∷ []) nil 8)
                  (cons (vdf 5 (codes "w") (65 ∷ 0 ∷ 0 ∷ 0 ∷ []) nil 8) nil)))
              11)
            nil)
          8)
        nil)
      8

read_vdf-shortcuts : read_vdf shortcuts ≡ ok document
unfolding read_vdf shortcuts document members node_of scalar key_of string take_bytes wide wide_from
    cut
read_vdf-shortcuts = refl

read_vdf-write_vdf_example : write_vdf document ≡ ok shortcuts
read_vdf-write_vdf_example = read_vdf-write_vdf shortcuts document read_vdf-shortcuts

read_vdf_answers_example : read_vdf shortcuts ≢ err []
read_vdf_answers_example = read_vdf_answers shortcuts
