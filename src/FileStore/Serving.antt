-- ===== src/FileStore/Serving.antt =====
-- handle_ope_threadMain of src/GDFileStore.cpp: a thread hands queued writes and reads over to two
-- pools of threads, whose workers do them. An event is what one thread does under a lock, or one
-- do_wope or do_rope; a run is any sequence of events. The thread swaps a queue and then enqueues its
-- elements in their order: here they are in the pool from the swap on.
use gdfile_store.Base.{
  ℕ, suc, Option, none, some, List, [], ◌∷◌, ◌++◌, ◌>>=◌, take, drop, get_elem?,
}
use gdfile_store.Object.{InfoForOsd, RopeResult}
use gdfile_store.Object.Protocol.{WopeLog, RopeLog}
use gdfile_store.FileStore.{Node, add_wope, do_wope, do_rope}

-- The queue of writes is in the node. `write_tp` and `read_tp` are what the pools have queued,
-- `writing` and `reading` what their workers are at, `answered` the replies to reads.
pub record Serving : Type 0 where
  pub node : Node
  pub write_tp : List WopeLog
  pub writing : List WopeLog
  pub rope_logs : List RopeLog
  pub read_tp : List RopeLog
  pub reading : List RopeLog
  pub answered : List (InfoForOsd × RopeResult)

-- A request arrives, the thread hands a queue over, a worker takes a job up, and a worker ends the
-- one at a place of those that are being done.
pub data Event : Type 0 where
  wope_added : WopeLog → Event
  rope_added : RopeLog → Event
  wopes_handed : Event
  ropes_handed : Event
  wope_taken : Event
  rope_taken : Event
  wope_done : ℕ → Event
  rope_done : ℕ → Event

abbrev pub taken_out : {A : Type 0} → ℕ → List A → List A
taken_out i xs = take i xs ++ drop (suc i) xs

abbrev pub take_wope : Serving → List WopeLog → Option Serving
take_wope s [] = none
take_wope s (log ∷ logs) = some (record s { write_tp = logs; writing = s.writing ++ log ∷ [] })

abbrev pub take_rope : Serving → List RopeLog → Option Serving
take_rope s [] = none
take_rope s (log ∷ logs) = some (record s { read_tp = logs; reading = s.reading ++ log ∷ [] })

unfoldable pub end_wope : ℕ → Serving → Option Serving
unfolding do_wope
end_wope i s = do
  log ← get_elem? s.writing i
  node ← do_wope log s.node
  some (record s { node = node; writing = taken_out i s.writing })

unfoldable pub end_rope : ℕ → Serving → Option Serving
unfolding do_rope
end_rope i s = do
  log ← get_elem? s.reading i
  result ← do_rope log s.node
  some (record s {
    reading = taken_out i s.reading;
    answered = s.answered ++ (log.from, result) ∷ [];
  })

unfoldable pub serve : Event → Serving → Option Serving
unfolding add_wope end_wope end_rope
serve (wope_added log) s = some (record s { node = add_wope log s.node })
serve (rope_added log) s = some (record s { rope_logs = s.rope_logs ++ log ∷ [] })
serve wopes_handed s = some (record s {
  node = record s.node { wope_logs = [] };
  write_tp = s.write_tp ++ s.node.wope_logs;
})
serve ropes_handed s = some (record s { rope_logs = []; read_tp = s.read_tp ++ s.rope_logs })
serve wope_taken s = take_wope s s.write_tp
serve rope_taken s = take_rope s s.read_tp
serve (wope_done i) s = end_wope i s
serve (rope_done i) s = end_rope i s
