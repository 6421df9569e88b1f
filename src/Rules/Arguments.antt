-- ===== src/Rules/Arguments.antt =====
-- `oculus_launch_arguments` and `launcher_arguments` of src/runtime/rules.cpp.
use rift_lift.Common.{
  Bool, true, false, not, ◌||◌, List, [], ◌∷◌, ◌++◌, ◌≡◌, refl, ap, Text, codes, text_eq, any, all,
  keep, all-keep, keep-all, any-append, all-append, append-nil, if◌then◌else◌, arith,
}
use rift_lift.Rules.Strings.{lower}

pub data Engine : Type 0 where
  other unreal unity : Engine

-- Unreal's other runtime selectors.
abbrev pub is_selector : Text → Bool
is_selector a =
    text_eq (lower a) (codes "-openvr")
    || text_eq (lower a) (codes "-steamvr")
    || text_eq (lower a) (codes "-openxr")

abbrev pub has : List Text → Text → Bool
has arguments flag = any (λ a. text_eq (lower a) flag) arguments

abbrev pub vr_flag : Text
vr_flag = codes "-vr"

abbrev pub oculus_flag : Text
oculus_flag = codes "-oculus"

-- `if (!has(flag)) push_back(flag)`; both flags are looked up before either is added.
abbrev flag_if : Bool → Text → List Text
flag_if true flag = []
flag_if false flag = flag ∷ []

unreal_arguments : List Text → List Text
unreal_arguments arguments =
    let left = keep (λ a. not (is_selector a)) arguments in
    (left ++ flag_if (has left vr_flag) vr_flag) ++ flag_if (has left oculus_flag) oculus_flag

abbrev pub is_vrmode : Text → Bool
is_vrmode a = text_eq (lower a) (codes "-vrmode")

-- The loop that drops each "-vrmode" and the argument behind it.
normalized : List Text → List Text
normalized [] = []
normalized (a ∷ []) = if is_vrmode a then [] else a ∷ []
normalized (a ∷ b ∷ rest) =
    let dropped = normalized rest in
    let kept = a ∷ normalized (b ∷ rest) in if is_vrmode a then dropped else kept

abbrev pub unity_mode : List Text
unity_mode = codes "-vrmode" ∷ codes "Oculus" ∷ []

unfoldable pub oculus_launch_arguments : Engine → List Text → List Text
unfolding unreal_arguments normalized
oculus_launch_arguments unreal arguments = unreal_arguments arguments
oculus_launch_arguments unity arguments = normalized arguments ++ unity_mode
oculus_launch_arguments other arguments = arguments

unfoldable pub launcher_arguments : Text → Text → Text → Text → Text → List Text → List Text
launcher_arguments launcher backend app_key cwd executable arguments =
    (launcher
      ∷ codes "/wait"
      ∷ (codes "/" ++ backend)
      ∷ codes "/app"
      ∷ app_key
      ∷ codes "/cwd"
      ∷ cwd
      ∷ executable
      ∷ [])
    ++ arguments

normalized_clean : (xs : List Text) → any is_vrmode (normalized xs) ≡ false
unfolding normalized
normalized_clean [] = refl
normalized_clean (a ∷ []) = ground arith
normalized_clean (a ∷ b ∷ rest) = ground (arith, normalized_clean rest, normalized_clean (b ∷ rest))

vrmode_is : is_vrmode (codes "-vrmode") ≡ true
unfolding lower text_eq
vrmode_is = refl

normalized-append : (xs : List Text) → any is_vrmode xs ≡ false → normalized (xs ++ unity_mode) ≡ xs
unfolding normalized
normalized-append [] h = rw vrmode_is refl
normalized-append (a ∷ []) h =
    let other_flag : is_vrmode a ≡ false = ground arith in rw (other_flag, vrmode_is) refl
normalized-append (a ∷ b ∷ rest) h =
    let other_flag : is_vrmode a ≡ false = ground arith in
    rw other_flag (ap (◌∷◌ a) (normalized-append (b ∷ rest) (ground arith)))

-- Adding a flag that is missing: afterwards it is there.
has-flag_if :
    (xs : List Text) (flag : Text)
    → text_eq (lower flag) flag ≡ true
    → has (xs ++ flag_if (has xs flag) flag) flag ≡ true
has-flag_if xs flag h = rw (any-append _ xs (flag_if (has xs flag) flag)) (added (has xs flag))
  where
    added : (b : Bool) → (b || has (flag_if b flag) flag) ≡ true
    added true = refl
    added false = rw h refl

flags : (text_eq (lower vr_flag) vr_flag ≡ true) × (text_eq (lower oculus_flag) oculus_flag ≡ true)
unfolding lower text_eq
flags = (refl, refl)

flags_select_nothing : (is_selector vr_flag ≡ false) × (is_selector oculus_flag ≡ false)
unfolding lower text_eq
flags_select_nothing = (refl, refl)

all-flag_if :
    (b : Bool) (flag : Text)
    → is_selector flag ≡ false
    → all (λ a. not (is_selector a)) (flag_if b flag) ≡ true
all-flag_if true flag h = refl
all-flag_if false flag h = rw h refl

has-append : (xs ys : List Text) (flag : Text) → has xs flag ≡ true → has (xs ++ ys) flag ≡ true
has-append xs ys flag h = rw (any-append _ xs ys, h) refl

or_middle : (a b c : Bool) → (a || c) ≡ true → ((a || b) || c) ≡ true
or_middle a b c h = ground arith

-- The arguments for Unreal contain both flags and no other runtime's selector.
pub unreal_arguments_lem :
    (arguments : List Text)
    → let result = oculus_launch_arguments unreal arguments in
      (has result vr_flag ≡ true)
      × (has result oculus_flag ≡ true)
      × (all (λ a. not (is_selector a)) result ≡ true)
unfolding oculus_launch_arguments
unreal_arguments_lem arguments =
    let left = keep (λ a. not (is_selector a)) arguments in
    let v = flag_if (has left vr_flag) vr_flag in
    let o = flag_if (has left oculus_flag) oculus_flag in
    (
      has-append (left ++ v) o vr_flag (has-flag_if left vr_flag flags.0),
      rw (any-append _ (left ++ v) o, any-append _ left v)
          (or_middle (has left oculus_flag) (has v oculus_flag) (has o oculus_flag)
            (rw (any-append _ left o) at (has-flag_if left oculus_flag flags.1))),
      rw
          (
            all-append _ (left ++ v) o,
            all-append _ left v,
            all-keep (λ a. not (is_selector a)) arguments,
            all-flag_if (has left vr_flag) vr_flag flags_select_nothing.0,
            all-flag_if (has left oculus_flag) oculus_flag flags_select_nothing.1,
          )
          refl,
    )

unreal_unchanged :
    (xs : List Text)
    → has xs vr_flag ≡ true
    → has xs oculus_flag ≡ true
    → all (λ a. not (is_selector a)) xs ≡ true
    → oculus_launch_arguments unreal xs ≡ xs
unfolding oculus_launch_arguments
unreal_unchanged xs v o n = rw (keep-all (λ a. not (is_selector a)) xs n, v, o) (simp append-nil)

-- Selecting the Oculus mode once more changes nothing, for every engine.
pub oculus_launch_arguments_twice :
    (engine : Engine) (arguments : List Text)
    → oculus_launch_arguments engine (oculus_launch_arguments engine arguments)
      ≡ oculus_launch_arguments engine arguments
oculus_launch_arguments_twice other arguments = unfold oculus_launch_arguments in refl
oculus_launch_arguments_twice unity arguments =
    unfold oculus_launch_arguments in
    ap (λ xs. xs ++ unity_mode)
      (normalized-append (normalized arguments) (normalized_clean arguments))
oculus_launch_arguments_twice unreal arguments =
    let (v, o, n) = unreal_arguments_lem arguments in
    unreal_unchanged (oculus_launch_arguments unreal arguments) v o n
