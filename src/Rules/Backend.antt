-- ===== src/Rules/Backend.antt =====
-- `select_backend` of src/runtime/rules.cpp.
use rift_lift.Common.{
  Bool, true, false, not, ◌&&◌, ◌||◌, List, [], ◌∷◌, ◌≡◌, ◌↔◌, ◌⊎◌, Text, codes, text_eq,
  text_eq_iff, is_empty, contains, any, Result, ok, err, if◌then◌else◌, arith,
}
use rift_lift.Rules.Strings.{lower, strip}

abbrev pub openvr : Text
openvr = codes "openvr"

abbrev pub openxr : Text
openxr = codes "openxr"

-- An argument that asks for the legacy presentation.
abbrev pub is_legacy : Text → Bool
is_legacy a = text_eq (lower a) (codes "-ovr") || text_eq (lower a) (codes "-vr_presentation")

-- The direct bridge implements none of these.
abbrev pub needs_openvr : List Text → Bool
needs_openvr capabilities =
    contains capabilities openvr
    || contains capabilities (codes "unity-oculus-plugin")
    || contains capabilities (codes "d3d12")

chosen : Text → Bool → Bool → Result Text
chosen value needs legacy =
    if not (is_empty value)
    then (if not (text_eq value openxr) && not (text_eq value openvr)
        then err (codes "RIFTLIFT_RUNTIME_BACKEND must be 'openxr' or 'openvr'")
        else ok value)
    else if needs
    then ok openvr
    else if legacy
    then ok openvr
    else ok openxr

unfoldable pub select_backend : Text → List Text → List Text → Result Text
unfolding chosen
select_backend override_value arguments capabilities =
    chosen (lower (strip override_value)) (needs_openvr capabilities) (any is_legacy arguments)

chosen_known :
    (value : Text) (needs legacy : Bool) (b : Text)
    → chosen value needs legacy ≡ ok b
    → (b ≡ openxr) ⊎ (b ≡ openvr)
unfolding chosen
chosen_known [] needs legacy b h = ground arith
chosen_known (c ∷ cs) needs legacy b h =
    ground (arith, text_eq_iff (c ∷ cs) openxr, text_eq_iff (c ∷ cs) openvr)

chosen_set :
    (value : Text) (needs legacy : Bool) (b : Text)
    → is_empty value ≡ false
    → chosen value needs legacy ≡ ok b
    → b ≡ value
unfolding chosen
chosen_set [] needs legacy b e h = cc
chosen_set (c ∷ cs) needs legacy b e h = ground arith

chosen_unset :
    (value : Text) (needs legacy : Bool)
    → is_empty value ≡ true
    → (chosen value needs legacy ≡ ok openxr) ↔ ((needs ≡ false) × (legacy ≡ false))
unfolding chosen
chosen_unset [] needs legacy e = ground arith
chosen_unset (c ∷ cs) needs legacy e = cc

chosen_refused :
    (value : Text) (needs legacy : Bool) (e : Text)
    → chosen value needs legacy ≡ err e
    → (is_empty value ≡ false) × (text_eq value openxr ≡ false) × (text_eq value openvr ≡ false)
unfolding chosen
chosen_refused [] needs legacy e h = ground arith
chosen_refused (c ∷ cs) needs legacy e h = ground arith

-- The backend is `openxr` or `openvr`. A value of the setting decides alone; without one, OpenXR is
-- chosen exactly when the game needs nothing that only OpenVR has and no argument asks for the
-- legacy presentation. When an error is thrown, the setting has another value.
pub select_backend_lem :
    (override_value : Text) (arguments capabilities : List Text)
    → let value = lower (strip override_value) in
      let r = select_backend override_value arguments capabilities in
      ((b : Text) → r ≡ ok b → (b ≡ openxr) ⊎ (b ≡ openvr))
      × ((b : Text) → is_empty value ≡ false → r ≡ ok b → b ≡ value)
      × (is_empty value ≡ true
          → (r ≡ ok openxr)
            ↔ ((needs_openvr capabilities ≡ false) × (any is_legacy arguments ≡ false)))
      × ((e : Text)
          → r ≡ err e
          → (is_empty value ≡ false)
            × (text_eq value openxr ≡ false)
            × (text_eq value openvr ≡ false))
unfolding select_backend
select_backend_lem override_value arguments capabilities =
    (chosen_known _ _ _, chosen_set _ _ _, chosen_unset _ _ _, chosen_refused _ _ _)
