-- ===== src/Timer/Tests.antt =====
-- Timers at concrete times.
use gdfile_store.Base.{
  ℕ, ◌≡◌, ◌⊎◌, refl, true, false, none, some, List, [], ◌∷◌, ◌++◌, arith, bytes_eq, bytes_lt,
}
use gdfile_store.Base.Int.{pos, ltb_ℤ, ◌+ℤ◌}
use gdfile_store.ThreadPool.{Pool, ready, new_pool, work_on}
use gdfile_store.ThreadPool.Reached.{Reach, start}
use gdfile_store.KeyValue.Assoc.{find, assign}
use gdfile_store.Timer.Group.{Group, active, get_caller, new_caller, tick_group}
use gdfile_store.Timer.Late.{joined, tick_group-get_caller}
use gdfile_store.Timer.Conc.{Turn, comes_to, meanwhile, conc_tick, rest_jobs}
use gdfile_store.Timer.Shared.{IsDue, rest_jobs-conc_tick}
use gdfile_store.Timer.Order.{Ordered, NotAfter, add_timer-cases}
use gdfile_store.Timer.Calls.{ticks}
use gdfile_store.Timer.Repeat.{caller, with_new, ticks-new_repeating}
use gdfile_store.Timer.{Timer, TimerCaller, nothing, terminates, add_timer, set_termination_at_end}

abbrev at : ℕ → Timer
at when = record {
  task = some when;
  after_task = nothing;
  when = pos when;
  round = pos 0;
  repeatation = pos 1;
}

abbrev sentinel : Timer
sentinel = record (at 1000) { task = none }

abbrev queue : List Timer
queue = at 3 ∷ at 5 ∷ sentinel ∷ []

queue-Ordered : Ordered queue
queue-Ordered = ((refl, (refl, tt)), ((refl, tt), (tt, tt)))

add_timer-cases_example :
    Ordered (add_timer (at 3) queue)
    × (((add_timer (at 3) queue ≡ queue) × NotAfter (at 3).when queue)
        ⊎ ((front back : List Timer) × (next : Timer) × (queue ≡ front ++ next ∷ back)
            × (add_timer (at 3) queue ≡ front ++ at 3 ∷ next ∷ back)
            × NotAfter (at 3).when front
            × (ltb_ℤ (at 3).when next.when ≡ true)))
add_timer-cases_example = add_timer-cases (at 3) queue queue-Ordered

-- Three calls from time 10 on, every 5 ticks: one in a tick around time 12, the others in the next.
abbrev first_tick : List ℕ
first_tick = 11 ∷ 12 ∷ 12 ∷ 13 ∷ []

abbrev late_tick : List ℕ
late_tick = 20 ∷ 21 ∷ 21 ∷ 22 ∷ []

ticks-new_repeating_example :
    (ticks (first_tick ∷ []) (with_new 7 5 1000 sentinel refl 10 3 [])
      ≡ some (caller 7 5 1000 sentinel refl 15 2 (7 ∷ [])))
    × (ticks (first_tick ∷ late_tick ∷ late_tick ∷ []) (with_new 7 5 1000 sentinel refl 10 3 [])
        ≡ some (record { timers = sentinel ∷ []; actived = true; called = 7 ∷ 7 ∷ 7 ∷ [] }))
ticks-new_repeating_example =
    ticks-new_repeating 7 5 1000 sentinel refl 10 1 [] (first_tick ∷ []) (late_tick ∷ []) late_tick
      (omega arith)
      (
        (omega arith, (omega arith, (omega arith, (omega arith, tt)))),
        (
          (omega arith, (omega arith, (omega arith, (omega arith, tt)))),
          ((omega arith, (omega arith, (omega arith, (omega arith, tt)))), tt),
        ),
      )
      (omega arith, (omega arith, (omega arith, tt)))
      (omega arith, (omega arith, (omega arith, (omega arith, tt))))

-- The termination goes behind the last timer, and the caller is shut down after it.
ended :
    set_termination_at_end (record { timers = queue; actived = true; called = [] })
    ≡ some (record {
      timers = at 3 ∷ at 5 ∷ record (at 5) { task = none; after_task = terminates } ∷ sentinel ∷ [];
      actived = true;
      called = [];
    })
unfolding set_termination_at_end
ended = refl

-- At time 4 the first timer is handed over to a pool with one worker, which has taken it up and
-- called it before the tick comes to the second one.
abbrev turns : List Turn
turns =
    comes_to (pos 4) true none
    ∷ meanwhile (work_on 0)
    ∷ meanwhile (work_on 0)
    ∷ comes_to (pos 4) true none
    ∷ []

abbrev pool_after : Pool Timer
pool_after = record {
  jobs = [];
  shutdown = false;
  workers = ready ∷ [];
  busy = pos 0;
  enqueued = at 3 ∷ [];
  taken = at 3 ∷ [];
  ended = 1;
}

handed : conc_tick turns queue (new_pool 1) ≡ some (at 5 ∷ sentinel ∷ [], pool_after)
unfolding conc_tick new_pool ◌+ℤ◌
handed = refl

rest_jobs-conc_tick_example :
    ((due : List Timer) × (queue ≡ due ++ at 5 ∷ sentinel ∷ [])
      × (pool_after.enqueued ≡ (new_pool 1).enqueued ++ due)
      × IsDue turns due (at 5 ∷ sentinel ∷ []))
    × (rest_jobs (at 5 ∷ sentinel ∷ []) pool_after +ℤ pos 1
        ≡ rest_jobs queue (new_pool 1) +ℤ pos (new_pool {A = Timer} 1).ended)
    × Reach 1 pool_after
rest_jobs-conc_tick_example =
    rest_jobs-conc_tick 1 turns queue (at 5 ∷ sentinel ∷ []) (new_pool 1) pool_after start handed

-- A group with one caller is made active, and a second caller is made; then only the first calls.
abbrev group : Group
group = record {
  callers = (b'a' ∷ [], record { timers = queue; actived = false; called = [] }) ∷ [];
  actived = false;
}

abbrev ticked : Group
ticked = record {
  callers =
      (b'a' ∷ [], record { timers = at 5 ∷ sentinel ∷ []; actived = true; called = 3 ∷ [] })
      ∷ (b'b' ∷ [], record { timers = queue; actived = false; called = [] })
      ∷ [];
  actived = true;
}

group_ticks :
    tick_group
      ((pos 4 ∷ pos 4 ∷ []) ∷ (pos 4 ∷ pos 4 ∷ []) ∷ [])
      (joined (pos 1000) (b'b' ∷ []) queue group)
    ≡ some ticked
unfolding tick_group get_caller active assign find bytes_eq bytes_lt
group_ticks = refl

tick_group-get_caller_example :
    ((k : List ℕ) (c : TimerCaller)
      → find bytes_eq k group.callers ≡ some c
      → find bytes_eq k (active group).callers ≡ some (record c { actived = true }))
    × ((get_caller (pos 1000) (b'b' ∷ []) true (active group)).0 ≡ some (new_caller (pos 1000)))
    × (find bytes_eq (b'b' ∷ []) ticked.callers
        ≡ some (record (new_caller (pos 1000)) { timers = queue }))
unfolding find bytes_eq
tick_group-get_caller_example =
    tick_group-get_caller (pos 1000) (b'b' ∷ []) group ticked queue
      ((pos 4 ∷ pos 4 ∷ []) ∷ (pos 4 ∷ pos 4 ∷ []) ∷ []) refl group_ticks
