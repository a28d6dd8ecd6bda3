-- ===== src/Timer.antt =====
-- src/deps/timer.h and src/deps/timer.cpp: timers in the order of their times, and TimerCaller.
pub mod Order
pub mod Calls
pub mod Repeat
pub mod Tests
pub mod Conc
pub mod Turns
pub mod Shared
pub mod Group
pub mod Late
use gdfile_store.Base.{
  ℕ, zero, suc, ◌≡◌, Bool, true, false, ◌&&◌, Option, none, some, List, [], ◌∷◌, ◌++◌, ◌>>=◌, not,
  if◌then◌else◌,
}
use gdfile_store.Base.Int.{ℤ, pos, ◌+ℤ◌, ◌-ℤ◌, ltb_ℤ, leb_ℤ}

-- TimerAfter, as the program makes it: nothing, the wrapper of SetRepeat around another, and the
-- shutdown of SetTerminationAtEnd.
pub data After : Type 0 where
  nothing terminates : After
  repeats : ℤ → After → After

-- A task is a number; the sentinel has none. Times and durations are numbers of ticks.
pub record Timer : Type 0 where
  pub task : Option ℕ
  pub after_task : After
  pub when : ℤ
  pub round : ℤ
  pub repeatation : ℤ

-- Timer::SetRepeat
unfoldable pub set_repeat : ℤ → ℤ → Timer → Timer
set_repeat round times t =
    if leb_ℤ times (pos 1)
    then t
    else record t { repeatation = times; after_task = repeats round t.after_task }

-- The constructor of a timer that repeats.
unfoldable pub new_repeating : Option ℕ → ℤ → ℤ → ℤ → After → Timer
unfolding set_repeat
new_repeating task when round times after =
    set_repeat round times
      (record { task = task; after_task = after; when = when; round = round; repeatation = times })

-- The list, whether it is active, and the tasks that were called.
pub record TimerCaller : Type 0 where
  pub timers : List Timer
  pub actived : Bool
  pub called : List ℕ

-- The loop of AddTimer: in front of the first timer that is later. Where none is, nothing happens.
unfoldable pub insert_timer : Timer → List Timer → Option (List Timer)
insert_timer t [] = none
insert_timer t (x ∷ xs) =
    let rest = insert_timer t xs in
    if ltb_ℤ t.when x.when then some (t ∷ x ∷ xs) else (do ys ← rest; some (x ∷ ys))

abbrev pub or_same : List Timer → Option (List Timer) → List Timer
or_same xs none = xs
or_same xs (some ys) = ys

unfoldable pub add_timer : Timer → List Timer → List Timer
unfolding insert_timer
add_timer t xs = or_same xs (insert_timer t xs)

-- A list of timers with the iterator at one of them.
pub record Place : Type 0 where
  pub front : List Timer
  pub here : Timer
  pub back : List Timer

-- AddTimer while the iterator stands at a timer.
abbrev pub add_behind : Timer → Place → Option (List Timer) → Place
add_behind t p (some front) = record p { front = front }
add_behind t p none =
    if ltb_ℤ t.when p.here.when
    then record p { front = p.front ++ t ∷ [] }
    else record p { back = add_timer t p.back }

unfoldable pub add_at : Timer → Place → Place
unfolding add_timer
add_at t p = add_behind t p (insert_timer t p.front)

-- The timer that SetRepeat's wrapper adds.
abbrev pub next_timer : ℤ → Timer → Timer
next_timer round t = record t { when = t.when +ℤ round; repeatation = t.repeatation -ℤ pos 1 }

-- afterTask(this, caller); the second component is whether the caller is still active.
unfoldable pub run_after : After → Timer → Place → Bool → Place × Bool
unfolding add_at
run_after nothing t p actived = (p, actived)
run_after terminates t p actived = (p, false)
run_after (repeats round tmp) t p actived =
    let r = run_after tmp t p actived in
    if ltb_ℤ (pos 1) t.repeatation then (add_at (next_timer round t) r.0, r.1) else r

abbrev pub tasks_of : Option ℕ → List ℕ
tasks_of none = []
tasks_of (some n) = n ∷ []

-- The loop of Tick, with the clock's reading for each round; `front` has been passed over, and
-- what is in it is not looked at again. `none` where there are too few readings.
unfoldable pub tick_from : List ℤ → List Timer → List Timer → Bool → List ℕ → Option TimerCaller
unfolding run_after
tick_from clock front [] actived called =
    some (record { timers = front; actived = actived; called = called })
tick_from [] front (t ∷ back) actived called = none
tick_from (now ∷ clock) front (t ∷ back) actived called =
    let r = run_after t.after_task t (record { front = front; here = t; back = back }) actived in
    let rest = tick_from clock r.0.front r.0.back r.1 (called ++ tasks_of t.task) in
    if leb_ℤ t.when now && actived
    then rest
    else some (record { timers = front ++ t ∷ back; actived = actived; called = called })

-- TimerCaller::Tick
unfoldable pub tick : List ℤ → TimerCaller → Option TimerCaller
unfolding tick_from
tick clock c = tick_from clock [] c.timers c.actived c.called

-- The time of the last but one timer.
unfoldable pub end_time : List Timer → Option ℤ
end_time [] = none
end_time (x ∷ []) = none
end_time (x ∷ y ∷ []) = some x.when
end_time (x ∷ y ∷ z ∷ xs) = end_time (y ∷ z ∷ xs)

abbrev pub terminated : TimerCaller → List Timer → Option TimerCaller
terminated c (x ∷ []) = some (record c { actived = false })
terminated c xs = do
  when ← end_time xs
  some (record c {
    timers =
        add_timer
          (record {
            task = none;
            after_task = terminates;
            when = when;
            round = pos 0;
            repeatation = pos 1;
          })
          xs;
  })

-- TimerCaller::SetTerminationAtEnd; the list has the sentinel.
unfoldable pub set_termination_at_end : TimerCaller → Option TimerCaller
unfolding end_time add_timer
set_termination_at_end c = terminated c c.timers
