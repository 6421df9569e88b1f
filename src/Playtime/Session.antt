-- ===== src/Playtime/Session.antt =====
-- `Session` of src/common/playtime.cpp, with `add` and `mark_launch` on the game's record in
-- playtime.json. The record's seconds are a `double`, whose arithmetic is a parameter.
use rift_lift.Common.{
  ℕ, ◌+◌, ◌-◌, Bool, true, false, not, ◌||◌, Option, none, some, ltb, if◌then◌else◌, List, [], ◌∷◌,
}

-- The game's record, and the fields of the session; `D` stands for `double`, and times are counted in
-- the clock's own unit.
pub record Session (D : Type 0) : Type 0 where
  pub seconds : D
  pub launches : ℕ
  pub last : ℕ
  pub closed : Bool

-- A tick that comes some time after the one before, with its interval; `writable` says of each call
-- whether playtime.json can be written then.
pub record Tick : Type 0 where
  pub delay : ℕ
  pub interval : ℕ
  pub writable : Bool

-- The clock behind some ticks.
unfoldable pub clock_behind : ℕ → List Tick → ℕ
clock_behind now [] = now
clock_behind now (t ∷ ts) = clock_behind (now + t.delay) ts

-- `double`: its addition, `duration<double>(…).count()` of a span of the clock, and `… > 0`.
module _ {D : Type 0} (plus : D → D → D) (duration : ℕ → D) (positive : D → Bool) where
  -- `add` with a write that may throw; nothing is written where no time has passed.
  unfoldable pub add : Bool → D → Session D → Option (Session D)
  add writable seconds s =
      if not (positive seconds)
      then some s
      else if writable
      then some (record s { seconds = plus s.seconds seconds })
      else none

  abbrev pub at_last : ℕ → Option (Session D) → Option (Session D)
  at_last now none = none
  at_last now (some s) = some (record s { last = now })

  -- `save`; the clock is steady, so that `now - last_` is never below zero.
  unfoldable pub save : Bool → ℕ → Session D → Option (Session D)
  unfolding add
  save writable now s = at_last now (add writable (duration (now - s.last)) s)

  -- The constructor, with `mark_launch`, which throws where the file cannot be written.
  unfoldable pub start : Bool → ℕ → D → ℕ → Option (Session D)
  start writable now seconds launches =
      if writable
      then some (record { seconds = seconds; launches = launches + 1; last = now; closed = false })
      else none

  abbrev pub or_unchanged : Session D → Option (Session D) → Session D
  or_unchanged s none = s
  or_unchanged s (some s') = s'

  -- A `save` that throws is caught and logged.
  unfoldable pub tick : Bool → ℕ → ℕ → Session D → Session D
  tick writable now interval s =
      if s.closed || ltb (now - s.last) interval then s else or_unchanged s (save writable now s)

  -- `close`, called from the destructor, which drops what it throws.
  unfoldable pub close : Bool → ℕ → Session D → Session D
  close writable now s =
      if s.closed
      then s
      else or_unchanged (record s { closed = true })
          (save writable now (record s { closed = true }))

  unfoldable pub tick_all : ℕ → List Tick → Session D → Session D
  tick_all now [] s = s
  tick_all now (t ∷ ts) s =
      tick_all (now + t.delay) ts (tick t.writable (now + t.delay) t.interval s)
