-- ===== src/Install/TransferTests.antt =====
-- One thread fetches the missing segment of the small build, its hash wrong the first time.
use rift_lift.Common.{text_eq, true, false, [], ◌∷◌, codes, All, replicate, ok, ◌≡◌, refl, arith}
use rift_lift.Rules.Env.{Env, lookup, insert}
use rift_lift.Install.Assembly.{mark, join_segments}
use rift_lift.Install.Retry.{fetch_segment, attempts_from}
use rift_lift.Install.Transfer.{
  Transfer, ended, first, start, takes, begins, stores, runs_out, Reach, here, onward, joined,
  weight,
}
use rift_lift.Install.Workers.{Stored}
use rift_lift.Install.Fetched.{transfer_enough}
use rift_lift.Install.Tests.{
  hash, anywhere, disk, plan, games_disk, prepared, prepare-disk, answers,
}

abbrev cached : Env
cached = (replicate 64 b'3', codes "3y") ∷ (replicate 64 b'2', codes "2x") ∷ []

abbrev at_end : Transfer
at_end = record {
  next = 2;
  received = 2;
  stopped = false;
  aborted = false;
  failure = [];
  cache = cached;
  workers = ended ∷ [];
}

fetched : fetch_segment hash answers (λ n. false) (replicate 64 b'2') ≡ (ok (codes "2x"), 1 ∷ [])
unfolding fetch_segment attempts_from text_eq
fetched = refl

run :
    Reach hash prepared.fetch prepared.sized
      (start 4 prepared.fetch (mark plan disk).cache false)
      at_end
unfolding start mark insert text_eq weight lookup
run =
    onward
      (onward
        (onward (onward (onward here (takes first)) (begins first refl refl))
          (stores answers (λ n. false) (1 ∷ []) first refl fetched))
        (takes first))
      (runs_out first refl)

joined-at_end : joined at_end ≡ ok cached
unfolding joined
joined-at_end = refl

transfer_enough_example :
    All (λ f. (join_segments cached f.segments).1 ≡ true) prepared.needed
    × All
        (λ x. Stored hash prepared.fetch prepared.sized (mark plan disk).cache cached x.0)
        prepared.fetch
transfer_enough_example =
    transfer_enough hash anywhere (mark plan disk) plan games_disk games_disk prepared 4 false
      at_end cached prepare-disk (omega arith) run refl joined-at_end
