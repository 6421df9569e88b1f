-- ===== src/Options/Launch.antt =====
-- The command line that the launcher gives the runtime: the argument vector of
-- src/launcher/core.cpp with the handles that `spawn` of src/common/platform/posix/process.cpp adds.
use rift_lift.Common.{
  ℕ, zero, suc, ◌≤◌, Bool, true, false, List, [], ◌∷◌, ◌++◌, none, some, Text, codes, text_eq,
  is_empty, ok, ◌>>=◌, if◌then◌else◌, ◌≡◌, refl, ap, ◌∙◌, append_assoc,
}
use rift_lift.Names.{is_digit}
use rift_lift.Options.Decimal.{value_from, to_string, from_chars, from_chars-to_string}
use rift_lift.Options.Parse.{
  Options, Branch, default_options, parse_from, parse_options, complete, branch_of, takes_value,
  set_value, set_flag, number, handle, max_number,
}

-- What the launcher knows of a launch: the game's package, the log, the account's key or nothing, its own
-- process id, the setting of a console, and the seconds of a smoke test.
pub record Launch : Type 0 where
  pub game : Text
  pub log : Text
  pub account_key : Text
  pub pid : ℕ
  pub console : Bool
  pub smoke_seconds : ℕ

abbrev pub account_of : Text → Text
account_of key = if is_empty key then codes "local" else key

abbrev pub console_arguments : Bool → List Text
console_arguments console = if console then codes "--console" ∷ [] else []

abbrev pub seconds_arguments : ℕ → List Text
seconds_arguments zero = []
seconds_arguments (suc n) = codes "--run-seconds" ∷ to_string (suc n) ∷ []

unfoldable pub launch_arguments : Launch → List Text
launch_arguments l =
    codes "--game"
    ∷ l.game
    ∷ codes "--log"
    ∷ l.log
    ∷ codes "--account"
    ∷ account_of l.account_key
    ∷ codes "--parent-pid"
    ∷ to_string l.pid
    ∷ (console_arguments l.console ++ seconds_arguments l.smoke_seconds)

-- With a broker the child finds its two handles at 64 and 65.
unfoldable pub spawn_arguments : List Text → Bool → List Text
spawn_arguments args broker =
    args
    ++ (if broker
        then codes "--credential-read" ∷ codes "64" ∷ codes "--credential-write" ∷ codes "65" ∷ []
        else [])

abbrev pub options_of : Launch → Bool → Options
options_of l broker = record default_options {
  game = l.game;
  log = l.log;
  account = account_of l.account_key;
  parent_pid = l.pid;
  console = l.console;
  run_seconds = l.smoke_seconds;
  credential_read = if broker then 64 else 0;
  credential_write = if broker then 65 else 0;
}

parse_from-value :
    (option value : Text) (args : List Text) (o o' : Options)
    → takes_value (branch_of option) ≡ true
    → set_value (branch_of option) option value o ≡ ok o'
    → parse_from none (option ∷ value ∷ args) o ≡ parse_from none args o'
unfolding parse_from
parse_from-value option value args o o' takes set =
    by_value (branch_of option) takes ∙ ap (λ r. r >>= (λ o'. parse_from none args o')) set
  where
    by_value :
        (b : Branch)
        → takes_value b ≡ true
        → (elim (takes_value b) [
          | true ↦ parse_from (some option) (value ∷ args) o
          | false ↦ parse_from none (value ∷ args) (set_flag b option o)
        ])
          ≡ parse_from (some option) (value ∷ args) o
    by_value b e = rw e refl

parse_from-flag :
    (option : Text) (args : List Text) (o : Options)
    → takes_value (branch_of option) ≡ false
    → parse_from none (option ∷ args) o
      ≡ parse_from none args (set_flag (branch_of option) option o)
unfolding parse_from
parse_from-flag option args o takes = by_flag (branch_of option) takes
  where
    by_flag :
        (b : Branch)
        → takes_value b ≡ false
        → (elim (takes_value b) [
          | true ↦ parse_from (some option) args o
          | false ↦ parse_from none args (set_flag b option o)
        ])
          ≡ parse_from none args (set_flag b option o)
    by_flag b e = rw e refl

number-to_string : (option : Text) (n : ℕ) → n ≤ max_number → number option (to_string n) ≡ ok n
unfolding number
number-to_string option n h = rw (from_chars-to_string max_number n h, number) refl

parse_from-console :
    (console : Bool) (args : List Text) (o : Options)
    → o.console ≡ false
    → parse_from none (console_arguments console ++ args) o
      ≡ parse_from none args (record o { console = console })
unfolding branch_of takes_value set_flag text_eq
parse_from-console true args o h = parse_from-flag (codes "--console") args o refl
parse_from-console false args o h = ap (λ b. parse_from none args (record o { console = b })) h

parse_from-seconds :
    (n : ℕ) (args : List Text) (o : Options)
    → n ≤ max_number
    → o.run_seconds ≡ 0
    → parse_from none (seconds_arguments n ++ args) o
      ≡ parse_from none args (record o { run_seconds = n })
unfolding branch_of takes_value set_value text_eq
parse_from-seconds zero args o h e = ap (λ n. parse_from none args (record o { run_seconds = n })) e
parse_from-seconds (suc n) args o h e =
    parse_from-value (codes "--run-seconds") (to_string (suc n)) args o
      (record o { run_seconds = suc n }) refl
      (ap (λ r. r >>= (λ n. ok (record o { run_seconds = n })))
        (number-to_string (codes "--run-seconds") (suc n) h))

abbrev handles_of : Bool → Options → Options
handles_of broker o = record o {
  credential_read = if broker then 64 else 0;
  credential_write = if broker then 65 else 0;
}

parse_from-broker :
    (broker : Bool) (o : Options)
    → o.credential_read ≡ 0
    → o.credential_write ≡ 0
    → parse_from none (spawn_arguments [] broker) o ≡ ok (handles_of broker o)
unfolding parse_from branch_of takes_value set_value text_eq handle from_chars spawn_arguments
    is_digit value_from
parse_from-broker true o r w = refl
parse_from-broker false o r w =
    ap (λ p. ok (record o { credential_read = p.0; credential_write = p.1 })) (pair_path r w)
  where
    pair_path : {a b c d : ℕ} → a ≡ b → c ≡ d → ◌≡◌ {A = ℕ × ℕ} (a, c) (b, d)
    pair_path e f = rw (e, f) refl

-- The first four options.
abbrev named_options : Launch → Options
named_options l = record default_options {
  game = l.game;
  log = l.log;
  account = account_of l.account_key;
  parent_pid = l.pid;
}

parse_from-named :
    (l : Launch) (args : List Text)
    → l.pid ≤ max_number
    → parse_from none
        (codes "--game"
          ∷ l.game
          ∷ codes "--log"
          ∷ l.log
          ∷ codes "--account"
          ∷ account_of l.account_key
          ∷ codes "--parent-pid"
          ∷ to_string l.pid
          ∷ args)
        default_options
      ≡ parse_from none args (named_options l)
unfolding branch_of takes_value set_value text_eq
parse_from-named l args h =
    let o1 = record default_options { game = l.game } in
    let o2 = record o1 { log = l.log } in
    let o3 = record o2 { account = account_of l.account_key } in
    parse_from-value (codes "--game") l.game _ default_options o1 refl refl
    ∙ parse_from-value (codes "--log") l.log _ o1 o2 refl refl
    ∙ parse_from-value (codes "--account") (account_of l.account_key) _ o2 o3 refl refl
    ∙ parse_from-value (codes "--parent-pid") (to_string l.pid) args o3 (named_options l) refl (
        ap (λ r. r >>= (λ n. ok (record o3 { parent_pid = n })))
          (number-to_string (codes "--parent-pid") l.pid h))

complete-handles :
    (broker : Bool) (o : Options)
    → is_empty o.game ≡ false
    → complete (handles_of broker o) ≡ ok (handles_of broker o)
unfolding complete
complete-handles true o named = rw named refl
complete-handles false o named = rw named refl

-- The runtime reads back from its command line what the launcher has put there: for every game,
-- log and account, also with blanks, quotes or leading dashes in them, for process ids and times of
-- 32 bits, with and without a console and a broker. No option is ignored and none is refused.
pub parse_options-spawn_arguments :
    (l : Launch) (broker : Bool)
    → is_empty l.game ≡ false
    → l.pid ≤ max_number
    → l.smoke_seconds ≤ max_number
    → parse_options (spawn_arguments (launch_arguments l) broker) ≡ ok (options_of l broker)
unfolding parse_options launch_arguments spawn_arguments
parse_options-spawn_arguments l broker named pid seconds =
    let handles = spawn_arguments [] broker in
    let o1 = record (named_options l) { console = l.console } in
    let o2 = record o1 { run_seconds = l.smoke_seconds } in
    let parsed =
      parse_from-named l
        ((console_arguments l.console ++ seconds_arguments l.smoke_seconds) ++ handles) pid
      ∙ ap (λ args. parse_from none args (named_options l))
          (append_assoc (console_arguments l.console) (seconds_arguments l.smoke_seconds) handles)
      ∙ parse_from-console l.console (seconds_arguments l.smoke_seconds ++ handles)
          (named_options l) refl
      ∙ parse_from-seconds l.smoke_seconds handles o1 seconds refl
      ∙ parse_from-broker broker o2 refl refl in
    ap (λ r. r >>= complete) parsed ∙ complete-handles broker o2 named
