-- ===== src/Options/Parse.antt =====
-- `Options` and `parse_options` of src/runtime/options.h and options.cpp.
use rift_lift.Common.{
  ℕ, zero, suc, ◌-◌, ◌^◌, Bool, true, false, not, ◌&&◌, ◌||◌, List, [], ◌∷◌, ◌++◌, Option, none,
  some, Text, codes, text_eq, is_empty, ◌==◌, Result, ok, err, require, ◌>>=◌, ◌>>◌, if◌then◌else◌,
}
use rift_lift.Options.Decimal.{from_chars}

pub record Options : Type 0 where
  pub game : Text
  pub log : Text
  pub account : Text
  pub parent_pid : ℕ
  pub console : Bool
  pub run_seconds : ℕ
  pub credential_read : ℕ
  pub credential_write : ℕ
  pub check : Bool
  pub probe_openvr : Text
  pub ignored : List Text

abbrev pub default_options : Options
default_options = record {
  game = [];
  log = [];
  account = codes "local";
  parent_pid = 0;
  console = false;
  run_seconds = 0;
  credential_read = 0;
  credential_write = 0;
  check = false;
  probe_openvr = [];
  ignored = [];
}

-- The branches of the loop; `flag` stands for an option that is only kept.
pub data Branch : Type 0 where
  game log account parent_pid console run_seconds check probe_openvr : Branch
  credential_read credential_write package_name flag : Branch

unfoldable pub branch_of : Text → Branch
branch_of option =
    if text_eq option (codes "--game")
    then game
    else if text_eq option (codes "--log")
    then log
    else if text_eq option (codes "--account")
    then account
    else if text_eq option (codes "--parent-pid")
    then parent_pid
    else if text_eq option (codes "--console")
    then console
    else if text_eq option (codes "--run-seconds")
    then run_seconds
    else if text_eq option (codes "--check")
    then check
    else if text_eq option (codes "--probe-openvr")
    then probe_openvr
    else if text_eq option (codes "--credential-read")
    then credential_read
    else if text_eq option (codes "--credential-write")
    then credential_write
    else if text_eq option (codes "--package")
    then package_name
    else flag

-- The branches that call `value`.
unfoldable pub takes_value : Branch → Bool
takes_value console = false
takes_value check = false
takes_value flag = false
takes_value _ = true

-- The largest `std::uint32_t` and, on a 64-bit system, the largest `std::uintptr_t`.
abbrev pub max_number : ℕ
max_number = 2 ^ 32 - 1

abbrev pub max_handle : ℕ
max_handle = 2 ^ 64 - 1

abbrev pub needs : Text → Text → Text → Text
needs option what value = option ++ (what ++ (value ++ codes "'."))

unfoldable pub number : Text → Text → Result ℕ
number option value = elim (from_chars max_number value) [
  | none ↦ err (needs option (codes " needs a number, not '") value)
  | some n ↦ ok n
]

unfoldable pub handle : Text → Text → Result ℕ
handle option value = elim (from_chars max_handle value) [
  | none ↦ err (needs option (codes " needs a handle, not '") value)
  | some zero ↦ err (needs option (codes " needs a handle, not '") value)
  | some (suc n) ↦ ok (suc n)
]

-- What a branch does with its option's value.
unfoldable pub set_value : Branch → Text → Text → Options → Result Options
set_value game option value o = ok (record o { game = value })
set_value log option value o = ok (record o { log = value })
set_value account option value o = ok (record o { account = value })
set_value parent_pid option value o =
    number option value >>= (λ n. ok (record o { parent_pid = n }))
set_value run_seconds option value o =
    number option value >>= (λ n. ok (record o { run_seconds = n }))
set_value probe_openvr option value o = ok (record o { probe_openvr = value })
set_value credential_read option value o =
    handle option value >>= (λ n. ok (record o { credential_read = n }))
set_value credential_write option value o =
    handle option value >>= (λ n. ok (record o { credential_write = n }))
set_value package_name option value o =
    ok (record o { ignored = o.ignored ++ (option ++ b' ' ∷ value) ∷ [] })
set_value _ option value o = ok o

-- What a branch without a value does.
unfoldable pub set_flag : Branch → Text → Options → Options
set_flag console option o = record o { console = true }
set_flag check option o = record o { check = true }
set_flag _ option o = record o { ignored = o.ignored ++ option ∷ [] }

-- The loop over the arguments; the first argument of the function is the option whose value comes
-- next.
unfoldable pub parse_from : Option Text → List Text → Options → Result Options
parse_from none [] o = ok o
parse_from (some option) [] o = err (option ++ codes " needs a value.")
parse_from none (option ∷ args) o = elim (takes_value (branch_of option)) [
  | true ↦ parse_from (some option) args o
  | false ↦ parse_from none args (set_flag (branch_of option) option o)
]
parse_from (some option) (value ∷ args) o =
    set_value (branch_of option) option value o >>= (λ o'. parse_from none args o')

-- The checks behind the loop.
unfoldable pub complete : Options → Result Options
complete o = do
  require
      ((o.credential_read == 0 && o.credential_write == 0)
        || (not (o.credential_read == 0) && not (o.credential_write == 0)))
      (codes "Both credential channel handles are required.")
  require (not (is_empty o.game && is_empty o.probe_openvr && not o.check))
      (codes "--game is required.")
  ok o

unfoldable pub parse_options : List Text → Result Options
parse_options args = parse_from none args default_options >>= complete
