-- ===== src/Options/Tests.antt =====
-- A launch with a console, a smoke test and a broker.
use rift_lift.Common.{[], true, codes, ok, ◌≡◌, refl, arith}
use rift_lift.Options.Parse.{parse_options}
use rift_lift.Options.Launch.{
  Launch, launch_arguments, spawn_arguments, options_of, parse_options-spawn_arguments,
}

abbrev launch : Launch
launch = record {
  game = codes "beat game";
  log = codes "--log";
  account_key = [];
  pid = 4242;
  console = true;
  smoke_seconds = 30;
}

parse_options-spawn_arguments_example :
    parse_options (spawn_arguments (launch_arguments launch) true) ≡ ok (options_of launch true)
parse_options-spawn_arguments_example =
    parse_options-spawn_arguments launch true refl (omega arith) (omega arith)
