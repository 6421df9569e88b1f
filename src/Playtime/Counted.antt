-- ===== src/Playtime/Counted.antt =====
-- The time that a session adds to its game (src/common/playtime.cpp).
use rift_lift.Common.{
  ℕ, ◌+◌, ◌-◌, ◌≤◌, Bool, true, false, Option, none, some, List, [], ◌∷◌, ◌++◌, ◌≡◌, refl, ap, sym,
  ◌∙◌, arith, subst, if◌then◌else◌, Bool-cases, inl, inr, ltb, ◌||◌,
}
use rift_lift.Playtime.Session.{
  Session, Tick, at_last, or_unchanged, add, save, start, tick, close, clock_behind, tick_all,
}

abbrev pub sum : List ℕ → ℕ
sum [] = 0
sum (n ∷ ns) = n + sum ns

sum-append : (ns : List ℕ) (n : ℕ) → sum (ns ++ n ∷ []) ≡ sum ns + n
sum-append [] n = omega arith
sum-append (m ∷ ns) n = omega (arith, sum-append ns n)

module _ {D : Type 0} (plus : D → D → D) (duration : ℕ → D) (positive : D → Bool) where
  -- Some spans of the clock are added to a time, one after the other.
  abbrev pub with_spans : D → List ℕ → D
  with_spans seconds [] = seconds
  with_spans seconds (n ∷ ns) =
      with_spans (if positive (duration n) then plus seconds (duration n) else seconds) ns

  with_spans-append :
      (ns : List ℕ) (seconds : D) (n : ℕ)
      → with_spans seconds (ns ++ n ∷ []) ≡ (
          if positive (duration n)
          then plus (with_spans seconds ns) (duration n)
          else with_spans seconds ns)
  with_spans-append [] seconds n = refl
  with_spans-append (m ∷ ns) seconds n =
      with_spans-append ns (if positive (duration m) then plus seconds (duration m) else seconds) n

  -- What is stored are spans that make up the time from the start to the last save.
  abbrev Stored : D → ℕ → Session D → Type 0
  Stored seconds started s =
      (spans : List ℕ) × (s.seconds ≡ with_spans seconds spans) × (sum spans + started ≡ s.last)

  abbrev Open : D → ℕ → ℕ → Session D → Type 0
  Open seconds started now s = (s.closed ≡ false) × (s.last ≤ now) × Stored seconds started s

  -- After a save the stored spans reach the time of the save.
  abbrev Saved : D → ℕ → ℕ → Bool → Session D → Type 0
  Saved seconds started now closed s =
      Stored seconds started s × (s.last ≡ now) × (s.closed ≡ closed)

  Stored-span :
      (seconds : D) (started now : ℕ) (s : Session D) (time : D)
      → s.last ≤ now
      → Stored seconds started s
      → (if positive (duration (now - s.last))
          then plus s.seconds (duration (now - s.last))
          else s.seconds)
        ≡ time
      → Stored seconds started (record s { seconds = time; last = now })
  Stored-span seconds started now s time l (spans, total, reach) h = (
    spans ++ (now - s.last) ∷ [],
    sym h
        ∙ ap
            (λ t.
              if positive (duration (now - s.last)) then plus t (duration (now - s.last)) else t)
            total
        ∙ sym (with_spans-append spans seconds (now - s.last)),
    omega (arith, sum-append spans (now - s.last)),
  )

  save-Saved :
      (seconds : D) (started now : ℕ) (writable : Bool) (s s' : Session D)
      → s.last ≤ now
      → Stored seconds started s
      → save plus duration positive writable now s ≡ some s'
      → Saved seconds started now s.closed s'
  unfolding save add
  save-Saved seconds started now writable s s' l st h =
      elim (Bool-cases (positive (duration (now - s.last)))) [
        | inr nothing ↦
            subst (Saved seconds started now s.closed) (some-injective (rw nothing at h))
              (Stored-span seconds started now s s.seconds l st (rw nothing refl), refl, refl)
        | inl time ↦ went writable time (rw time at h)
      ]
    where
      some-injective : {a b : Session D} → some a ≡ some b → a ≡ b
      some-injective e = cc

      span : D
      span = duration (now - s.last)

      went :
          (w : Bool)
          → positive span ≡ true
          → at_last plus duration positive now
              (if w then some (record s { seconds = plus s.seconds span }) else none)
            ≡ some s'
          → Saved seconds started now s.closed s'
      went true time k =
          subst (Saved seconds started now s.closed) (some-injective k) (
            Stored-span seconds started now s (plus s.seconds span) l st (rw time refl),
            refl,
            refl,
          )
      went false time k = absurd cc

  saves :
      (now : ℕ) (s : Session D)
      → (s' : Session D) × (save plus duration positive true now s ≡ some s')
  unfolding save add
  saves now s = elim (Bool-cases (positive (duration (now - s.last)))) [
    | inr nothing ↦ (record s { last = now }, rw nothing refl)
    | inl time ↦
        (record s { seconds = plus s.seconds (duration (now - s.last)); last = now }, rw time refl)
  ]

  tick-Open :
      (seconds : D) (started now delay interval : ℕ) (writable : Bool) (s : Session D)
      → Open seconds started now s
      → Open seconds started
          (now + delay)
          (tick plus duration positive writable (now + delay) interval s)
  unfolding tick
  tick-Open seconds started now delay interval writable s (opened, l, st) =
      elim (Bool-cases (s.closed || ltb (now + delay - s.last) interval)) [
        | inl early ↦ rw (early, tick) (opened, omega arith, st)
        | inr due ↦
            rw (due, tick) (either (save plus duration positive writable (now + delay) s) refl)
      ]
    where
      either :
          (o : Option (Session D))
          → save plus duration positive writable (now + delay) s ≡ o
          → Open seconds started (now + delay) (or_unchanged plus duration positive s o)
      either none e = (opened, omega arith, st)
      either (some s') e =
          let (st', at, same) =
            save-Saved seconds started (now + delay) writable s s' (omega arith) st e in
          (same ∙ opened, omega (arith, at), st')

  tick_all-Open :
      (seconds : D) (started now : ℕ) (ticks : List Tick) (s : Session D)
      → Open seconds started now s
      → Open seconds started (clock_behind now ticks) (tick_all plus duration positive now ticks s)
  unfolding tick_all clock_behind
  tick_all-Open seconds started now [] s c = c
  tick_all-Open seconds started now (t ∷ ticks) s c =
      tick_all-Open seconds started (now + t.delay) ticks
        (tick plus duration positive t.writable (now + t.delay) t.interval s)
        (tick-Open seconds started now t.delay t.interval t.writable s c)

  close-Saved :
      (seconds : D) (started now : ℕ) (s : Session D)
      → Open seconds started now s
      → Saved seconds started now true (close plus duration positive true now s)
  unfolding close
  close-Saved seconds started now s (opened, l, st) =
      let (s', e) = saves now (record s { closed = true }) in
      let saved = save-Saved seconds started now true (record s { closed = true }) s' l st e in
      rw (opened, e, close) saved

  tick_closed :
      (writable : Bool) (now interval : ℕ) (s : Session D)
      → s.closed ≡ true
      → tick plus duration positive writable now interval s ≡ s
  unfolding tick
  tick_closed writable now interval s h = rw (h, tick) refl

  close_closed :
      (writable : Bool) (now : ℕ) (s : Session D)
      → s.closed ≡ true
      → close plus duration positive writable now s ≡ s
  unfolding close
  close_closed writable now s h = rw (h, close) refl

  tick_all_closed :
      (now : ℕ) (ticks : List Tick) (s : Session D)
      → s.closed ≡ true
      → tick_all plus duration positive now ticks s ≡ s
  unfolding tick_all
  tick_all_closed now [] s h = refl
  tick_all_closed now (t ∷ ticks) s h =
      ap (λ u. tick_all plus duration positive (now + t.delay) ticks u)
        (tick_closed t.writable (now + t.delay) t.interval s h)
      ∙ tick_all_closed (now + t.delay) ticks s h

  start-Open :
      (seconds : D) (launches started : ℕ) (s : Session D)
      → start plus duration positive true started seconds launches ≡ some s
      → Open seconds started started s
  unfolding start
  start-Open seconds launches started s h =
      subst (Open seconds started started) (some-injective h)
        (refl, omega arith, ([], refl, omega arith))
    where
      some-injective : {a b : Session D} → some a ≡ some b → a ≡ b
      some-injective e = cc

  -- A session that is started, ticks at any times and intervals, with writes that fail or not, and
  -- is closed when playtime.json can be written has added to the record's seconds, one after the
  -- other, the durations of spans of the clock that together make up exactly the time from its start
  -- to its close: none is lost to a write that failed and none is counted twice; nor does any tick
  -- or a second close after that add anything. How the sum of such durations is rounded is left to
  -- the arithmetic of `double`.
  pub played_time :
      (seconds : D) (launches started delay : ℕ) (ticks later : List Tick) (again : Bool)
      (s : Session D)
      → start plus duration positive true started seconds launches ≡ some s
      → let stopped = clock_behind started ticks + delay in
        let ended =
          close plus duration positive true stopped
            (tick_all plus duration positive started ticks s) in
        ((spans : List ℕ) × (ended.seconds ≡ with_spans seconds spans)
          × (sum spans + started ≡ stopped))
        × (close plus duration positive again
              (clock_behind stopped later)
              (tick_all plus duration positive stopped later ended)
            ≡ ended)
  played_time seconds launches started delay ticks later again s h =
      let now = clock_behind started ticks in
      let (opened, l, st) =
        tick_all-Open seconds started started ticks s (start-Open seconds launches started s h) in
      let s' = tick_all plus duration positive started ticks s in
      let ((spans, total, reach), at, closed) =
        close-Saved seconds started (now + delay) s' (opened, omega arith, st) in
      (
        (spans, total, reach ∙ at),
        ap (close plus duration positive again (clock_behind (now + delay) later))
              (tick_all_closed (now + delay) later _ closed)
            ∙ close_closed again _ _ closed,
      )
