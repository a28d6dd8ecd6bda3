-- ===== src/FileStore/Arrivals.antt =====
-- What the events of handle_ope_threadMain of src/GDFileStore.cpp bring, and the count of its reads.
use gdfile_store.Base.{
  ℕ, suc, ◌+◌, ◌≡◌, refl, sym, ap, ◌∙◌, Bool, some, List, [], ◌∷◌, ◌++◌, >>=-eq-some, append-nil,
  arith, if◌then◌else◌, get_elem?,
}
use gdfile_store.Base.Sums.{sum_by, sum_by-append, sum_by-take_out}
use gdfile_store.Object.{InfoForOsd, RopeResult}
use gdfile_store.Object.Protocol.{WopeLog, RopeLog}
use gdfile_store.FileStore.{
  Node, Reply, add_wope, do_wope, do_rope, object_key, read_blocks, serials_of,
}
use gdfile_store.FileStore.Progress.{tally, pending, rank, owed, work, owed-advance, work-advance}
use gdfile_store.FileStore.Serving.{
  Serving, Event, wope_added, rope_added, wopes_handed, ropes_handed, wope_taken, rope_taken,
  wope_done, rope_done, taken_out, take_rope, take_wope, end_rope, end_wope, serve,
}

-- The writes and the reads that arrive in a run, and how many ends of a do_wope it has.
abbrev pub wopes_of : List Event → List WopeLog
wopes_of [] = []
wopes_of (wope_added log ∷ es) = log ∷ wopes_of es
wopes_of (_ ∷ es) = wopes_of es

abbrev pub ropes_of : List Event → List RopeLog
ropes_of [] = []
ropes_of (rope_added log ∷ es) = log ∷ ropes_of es
ropes_of (_ ∷ es) = ropes_of es

abbrev pub ends : List Event → ℕ
ends [] = 0
ends (wope_done i ∷ es) = suc (ends es)
ends (_ ∷ es) = ends es

-- What is owed to some writes, and how often they have to be taken up.
abbrev pub owed_to : (Reply → Bool) → List WopeLog → ℕ
owed_to p logs = sum_by (λ (log : WopeLog). tally p (pending log.wope_state log)) logs

abbrev pub work_of : List WopeLog → ℕ
work_of logs = sum_by (λ (log : WopeLog). rank log.wope_state) logs

-- How many reads a test of the sender and the id accepts, of some, and of those that were answered.
abbrev pub count_reads : (InfoForOsd → List ℕ → Bool) → List RopeLog → ℕ
count_reads q logs = sum_by (λ (log : RopeLog). if q log.from log.ope_id then 1 else 0) logs

abbrev pub count_answers : (InfoForOsd → List ℕ → Bool) → List (InfoForOsd × RopeResult) → ℕ
count_answers q answers =
    sum_by (λ (a : InfoForOsd × RopeResult). if q a.0 a.1.ope_id then 1 else 0) answers

unfoldable pub reads : (InfoForOsd → List ℕ → Bool) → Serving → ℕ
reads q s =
    count_answers q s.answered
    + (count_reads q s.reading + (count_reads q s.read_tp + count_reads q s.rope_logs))

module _ (log : WopeLog) (node : Node) where
  pub owed-add_wope :
      (p : Reply → Bool) → owed p (add_wope log node) ≡ owed p node + owed_to p (log ∷ [])
  unfolding add_wope sum_by
  owed-add_wope p =
      owed-advance node (add_wope log node) [] (log ∷ []) (rw (append-nil node.sent)) refl p
      ∙ omega arith

  pub work-add_wope : work (add_wope log node) ≡ work node + work_of (log ∷ [])
  unfolding add_wope
  work-add_wope =
      work-advance node (add_wope log node) [] (log ∷ []) (rw (append-nil node.sent)) refl

ope_id-do_rope :
    (log : RopeLog) (node : Node) (result : RopeResult)
    → do_rope log node ≡ some result
    → result.ope_id ≡ log.ope_id
unfolding do_rope
ope_id-do_rope log node result run =
    let (key, e, r) = >>=-eq-some (object_key log.rope.ghobj) _ run in
    let (datas, e', r') =
      >>=-eq-some (read_blocks node.disk (serials_of node key) log.rope.blocks) _ r in
    let found : record {
      ope_id = log.ope_id;
      ghobj = log.rope.ghobj;
      blocks = log.rope.blocks;
      datas = datas;
    }
        ≡ result =
      cc in
    ap (λ (x : RopeResult). x.ope_id) (sym found)

-- How an event changes the number of reads that a test accepts.
module _ (q : InfoForOsd → List ℕ → Bool) where
  abbrev one_read : RopeLog → ℕ
  one_read log = if q log.from log.ope_id then 1 else 0

  abbrev one_answer : InfoForOsd × RopeResult → ℕ
  one_answer a = if q a.0 a.1.ope_id then 1 else 0

  reads-take_rope :
      (s s' : Serving) (jobs : List RopeLog)
      → s.read_tp ≡ jobs
      → take_rope s jobs ≡ some s'
      → reads q s' ≡ reads q s
  unfolding reads sum_by
  reads-take_rope s s' [] same run = absurd (cc)
  reads-take_rope s s' (log ∷ logs) same run =
      let found : record s { read_tp = logs; reading = s.reading ++ log ∷ [] } ≡ s' = cc in
      rw (← found, same) (omega (arith, sum_by-append one_read s.reading (log ∷ [])))

  reads-take_wope :
      (s s' : Serving) (jobs : List WopeLog) → take_wope s jobs ≡ some s' → reads q s' ≡ reads q s
  unfolding reads
  reads-take_wope s s' [] run = absurd (cc)
  reads-take_wope s s' (log ∷ logs) run =
      let found : record s { write_tp = logs; writing = s.writing ++ log ∷ [] } ≡ s' = cc in
      rw (← found) refl

  reads-end_rope : (i : ℕ) (s s' : Serving) → end_rope i s ≡ some s' → reads q s' ≡ reads q s
  unfolding reads end_rope sum_by
  reads-end_rope i s s' run =
      let (log, e, r) = >>=-eq-some (get_elem? s.reading i) _ run in
      let (result, e', r') = >>=-eq-some (do_rope log s.node) _ r in
      let found : record s {
        reading = taken_out i s.reading;
        answered = s.answered ++ (log.from, result) ∷ [];
      }
          ≡ s' =
        cc in
      rw (← found) (
        omega (
          arith,
          sum_by-append one_answer s.answered ((log.from, result) ∷ []),
          ap {B = ℕ} (λ (id : List ℕ). if q log.from id then 1 else 0)
              (ope_id-do_rope log s.node result e'),
          sum_by-take_out one_read i s.reading log e,
        ))

  reads-end_wope : (i : ℕ) (s s' : Serving) → end_wope i s ≡ some s' → reads q s' ≡ reads q s
  unfolding reads end_wope
  reads-end_wope i s s' run =
      let (log, e, r) = >>=-eq-some (get_elem? s.writing i) _ run in
      let (node, e', r') = >>=-eq-some (do_wope log s.node) _ r in
      let found : record s { node = node; writing = taken_out i s.writing } ≡ s' = cc in
      rw (← found) refl

  pub reads-serve :
      (e : Event) (s s' : Serving)
      → serve e s ≡ some s'
      → reads q s' ≡ reads q s + count_reads q (ropes_of (e ∷ []))
  unfolding serve reads sum_by
  reads-serve (wope_added log) s s' run =
      let found : record s { node = add_wope log s.node } ≡ s' = cc in rw (← found) (omega arith)
  reads-serve (rope_added log) s s' run =
      let found : record s { rope_logs = s.rope_logs ++ log ∷ [] } ≡ s' = cc in
      rw (← found) (omega (arith, sum_by-append one_read s.rope_logs (log ∷ [])))
  reads-serve wopes_handed s s' run =
      let found : record s {
        node = record s.node { wope_logs = [] };
        write_tp = s.write_tp ++ s.node.wope_logs;
      }
          ≡ s' =
        cc in
      rw (← found) (omega arith)
  reads-serve ropes_handed s s' run =
      let found : record s { rope_logs = []; read_tp = s.read_tp ++ s.rope_logs } ≡ s' = cc in
      rw (← found) (omega (arith, sum_by-append one_read s.read_tp s.rope_logs))
  reads-serve wope_taken s s' run = omega (arith, reads-take_wope s s' s.write_tp run)
  reads-serve rope_taken s s' run = omega (arith, reads-take_rope s s' s.read_tp refl run)
  reads-serve (wope_done i) s s' run = omega (arith, reads-end_wope i s s' run)
  reads-serve (rope_done i) s s' run = omega (arith, reads-end_rope i s s' run)
