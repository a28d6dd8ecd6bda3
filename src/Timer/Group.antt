-- ===== src/Timer/Group.antt =====
-- TimerCallerGroup of src/deps/timer.h and src/deps/timer.cpp: callers by name, which are made active,
-- ticked and shut down together. A caller's interval has no effect within a group.
use gdfile_store.Base.{
  ℕ, Bool, true, false, Option, none, some, List, [], ◌∷◌, ◌>>=◌, map, bytes_eq, bytes_lt,
  if◌then◌else◌,
}
use gdfile_store.Base.Int.{ℤ, pos}
use gdfile_store.KeyValue.Assoc.{find}
use gdfile_store.Timer.{TimerCaller, nothing, tick}

pub record Group : Type 0 where
  pub callers : List (List ℕ × TimerCaller)
  pub actived : Bool

-- A new caller has the sentinel, at the latest time there is, and is shut down.
abbrev pub new_caller : ℤ → TimerCaller
new_caller latest = record {
  timers =
      record {
        task = none;
        after_task = nothing;
        when = latest;
        round = pos 0;
        repeatation = pos 1;
      }
      ∷ [];
  actived = false;
  called = [];
}

-- std::map::insert of a name that is not there: the map is in the order of its names.
unfoldable pub insert_caller :
    List ℕ → TimerCaller → List (List ℕ × TimerCaller) → List (List ℕ × TimerCaller)
insert_caller name c [] = (name, c) ∷ []
insert_caller name c ((n, d) ∷ callers) =
    let rest = insert_caller name c callers in
    if bytes_lt name n then (name, c) ∷ (n, d) ∷ callers else (n, d) ∷ rest

abbrev pub caller_or_new :
    ℤ → List ℕ → Bool → Group → Option TimerCaller → Option TimerCaller × Group
caller_or_new latest name create_if_missing g (some c) = (some c, g)
caller_or_new latest name true g none = (
  some (new_caller latest),
  record g { callers = insert_caller name (new_caller latest) g.callers },
)
caller_or_new latest name false g none = (none, g)

-- GetCaller, with the AddCaller that it calls.
unfoldable pub get_caller : ℤ → List ℕ → Bool → Group → Option TimerCaller × Group
unfolding insert_caller
get_caller latest name create_if_missing g =
    caller_or_new latest name create_if_missing g (find bytes_eq name g.callers)

abbrev pub set_actived : Bool → List ℕ × TimerCaller → List ℕ × TimerCaller
set_actived b entry = (entry.0, record entry.1 { actived = b })

unfoldable pub active : Group → Group
active g = record { callers = map (set_actived true) g.callers; actived = true }

unfoldable pub shutdown : Group → Group
shutdown g = record { callers = map (set_actived false) g.callers; actived = false }

-- Tick of every caller, with the clock's readings for each.
unfoldable pub tick_all :
    List (List ℤ) → List (List ℕ × TimerCaller) → Option (List (List ℕ × TimerCaller))
unfolding tick
tick_all clocks [] = some []
tick_all [] (entry ∷ callers) = none
tick_all (clock ∷ clocks) ((name, c) ∷ callers) = do
  c' ← tick clock c
  rest ← tick_all clocks callers
  some ((name, c') ∷ rest)

unfoldable pub tick_group : List (List ℤ) → Group → Option Group
unfolding tick_all
tick_group clocks g = do callers ← tick_all clocks g.callers; some (record g { callers = callers })
