-- ===== src/Playtime/Tests.antt =====
-- A session whose first save fails.
use rift_lift.Common.{ℕ, ltb, true, false, [], ◌∷◌, ◌+◌, List, some, ◌≡◌, refl}
use rift_lift.Playtime.Session.{Session, Tick, start, close, clock_behind, tick_all}
use rift_lift.Playtime.Counted.{sum, with_spans, played_time}

abbrev same_unit : ℕ → ℕ
same_unit n = n

abbrev opened : Session ℕ
opened = record { seconds = 100; launches = 3; last = 1000; closed = false }

abbrev ticks : List Tick
ticks =
    record { delay = 40; interval = 30; writable = false }
    ∷ record { delay = 10; interval = 30; writable = true }
    ∷ record { delay = 5; interval = 30; writable = true }
    ∷ []

opened-start : start ◌+◌ same_unit (ltb 0) true 1000 100 2 ≡ some opened
unfolding start
opened-start = refl

played_time_example :
    let stopped = clock_behind 1000 ticks + 7 in
    let ended =
      close ◌+◌ same_unit (ltb 0) true stopped (tick_all ◌+◌ same_unit (ltb 0) 1000 ticks opened) in
    ((spans : List ℕ) × (ended.seconds ≡ with_spans ◌+◌ same_unit (ltb 0) 100 spans)
      × (sum spans + 1000 ≡ stopped))
    × (close ◌+◌ same_unit
          (ltb 0)
          false
          (clock_behind stopped ticks)
          (tick_all ◌+◌ same_unit (ltb 0) stopped ticks ended)
        ≡ ended)
played_time_example =
    played_time ◌+◌ same_unit (ltb 0) 100 2 1000 7 ticks ticks false opened opened-start
