-- ===== src/FileStore/Progress.antt =====
-- The queue of writes of GDFileStore: in whatever order the pool takes the writes up, each moves on
-- from state to state and is answered.
use gdfile_store.Base.{
  ℕ, suc, ◌+◌, ◌<◌, ◌≡◌, ◌↔◌, inl, inr, refl, sym, ap, ◌∙◌, Bool, Option-cases, some, List, [], ◌∷◌,
  ◌++◌, append-nil, arith, if◌then◌else◌, take, drop, get_elem?,
}
use gdfile_store.Object.Protocol.{
  WopeLog, WopeState, other, init, on_journal, on_disk, RepType, primary_journal_write,
  primary_disk_write,
}
use gdfile_store.Base.Sums.{sum_by, sum_by-append, sum_by-take_out}
use gdfile_store.FileStore.Untouched.{journal_wope-Untouched, settle-Untouched}
use gdfile_store.FileStore.{
  Node, Reply, object_key, serials_of, journal_wope, settle, add_wope, send_reply, wope_step,
  do_wope, handle_wope,
}

abbrev pub reply_of : RepType → WopeLog → Reply
reply_of rt log = record { target = log.from; rep_type = rt; ope_id = log.ope_id }

-- The replies that a queued write has yet to get.
abbrev pub pending : WopeState → WopeLog → List Reply
pending init log = reply_of primary_journal_write log ∷ reply_of primary_disk_write log ∷ []
pending on_journal log = reply_of primary_disk_write log ∷ []
pending on_disk log = reply_of primary_disk_write log ∷ []
pending other log = []

-- How often the pool has yet to take it up.
abbrev pub rank : WopeState → ℕ
rank init = 3
rank on_journal = 2
rank on_disk = 1
rank other = 1

abbrev pub tally : (Reply → Bool) → List Reply → ℕ
tally p replies = sum_by (λ (r : Reply). if p r then 1 else 0) replies

-- Of the replies that were sent and those to come, how many a test accepts.
unfoldable pub owed : (Reply → Bool) → Node → ℕ
owed p node =
    tally p node.sent
    + sum_by (λ (log : WopeLog). tally p (pending log.wope_state log)) node.wope_logs

-- How many times a queued write has yet to be taken up.
unfoldable pub work : Node → ℕ
work node = sum_by (λ (log : WopeLog). rank log.wope_state) node.wope_logs

-- Taking the write up costs one step and settles what it sends.
abbrev Steps : WopeState → WopeLog → Node → Node → Type 0
Steps st log node node' =
    ((p : Reply → Bool) → owed p node' ≡ owed p node + tally p (pending st log))
    × (suc (work node') ≡ work node + rank st)

module _ (node node' : Node) (rs : List Reply) (ls : List WopeLog)
    (sent : node'.sent ≡ node.sent ++ rs) (logs : node'.wope_logs ≡ node.wope_logs ++ ls) where
  pub owed-advance :
      (p : Reply → Bool)
      → owed p node'
        ≡ owed p node
          + (tally p rs + sum_by (λ (log : WopeLog). tally p (pending log.wope_state log)) ls)
  unfolding owed
  owed-advance p =
      rw (sent, logs)
        (omega (
          arith,
          sum_by-append (λ (r : Reply). if p r then 1 else 0) node.sent rs,
          sum_by-append (λ (log : WopeLog). tally p (pending log.wope_state log)) node.wope_logs ls,
        ))

  pub work-advance : work node' ≡ work node + sum_by (λ (log : WopeLog). rank log.wope_state) ls
  unfolding work
  work-advance = rw logs (sum_by-append (λ (log : WopeLog). rank log.wope_state) node.wope_logs ls)

wope_step-Steps :
    (st : WopeState) (log : WopeLog) (node node' : Node)
    → wope_step st log node ≡ some node'
    → Steps st log node node'
unfolding wope_step add_wope send_reply sum_by
wope_step-Steps init log node node' run = elim (Option-cases (journal_wope log.wope node)) [
  | inl e ↦ absurd (cc (rw e at run))
  | inr (node1, e) ↦
      let same = journal_wope-Untouched log.wope node node1 e in
      let next = record log { wope_state = on_journal } in
      let r = reply_of primary_journal_write log in
      let found : add_wope next (send_reply primary_journal_write log node1) ≡ node' =
        cc (rw e at run) in
      let sent : node'.sent ≡ node.sent ++ r ∷ [] = rw (← found, same.0) in
      let logs : node'.wope_logs ≡ node.wope_logs ++ next ∷ [] = rw (← found, same.1) in
      (
        λ p. omega (arith, owed-advance node node' (r ∷ []) (next ∷ []) sent logs p),
        omega (arith, work-advance node node' (r ∷ []) (next ∷ []) sent logs),
      )
]
wope_step-Steps on_journal log node node' run =
    elim (Option-cases (object_key log.wope.new_ghobj)) [
      | inl e ↦ absurd (cc (rw e at run))
      | inr (key, e) ↦
          let settled = settle (serials_of node key) node in
          let same = settle-Untouched (serials_of node key) node in
          let next = record log { wope_state = on_disk } in
          let found : add_wope next settled ≡ node' = cc (rw e at run) in
          let sent : node'.sent ≡ node.sent ++ [] =
            rw (← found, same.0) (sym (append-nil node.sent)) in
          let logs : node'.wope_logs ≡ node.wope_logs ++ next ∷ [] = rw (← found, same.1) in
          (
            λ p. omega (arith, owed-advance node node' [] (next ∷ []) sent logs p),
            omega (arith, work-advance node node' [] (next ∷ []) sent logs),
          )
    ]
wope_step-Steps on_disk log node node' run =
    let r = reply_of primary_disk_write log in
    let found : send_reply primary_disk_write log node ≡ node' = cc in
    let sent : node'.sent ≡ node.sent ++ r ∷ [] = rw (← found) in
    let logs : node'.wope_logs ≡ node.wope_logs ++ [] =
      rw (← found) (sym (append-nil node.wope_logs)) in
    (
      λ p. omega (arith, owed-advance node node' (r ∷ []) [] sent logs p),
      omega (arith, work-advance node node' (r ∷ []) [] sent logs),
    )
wope_step-Steps other log node node' run =
    let found : node ≡ node' = cc in rw (← found) (λ p. omega arith, omega arith)

module _ (i : ℕ) (node node' : Node) (run : handle_wope i node ≡ some node') where
  pub handle_wope-Steps :
      ((p : Reply → Bool) → owed p node' ≡ owed p node) × (suc (work node') ≡ work node)
  unfolding handle_wope do_wope owed work
  handle_wope-Steps = elim (Option-cases (get_elem? node.wope_logs i)) [
    | inl e ↦ absurd (cc (rw e at run))
    | inr (log, e) ↦
        let rest = record node {
          wope_logs = take i node.wope_logs ++ drop (suc i) node.wope_logs;
        } in
        let steps = wope_step-Steps log.wope_state log rest node' (rw e at run) in
        (
          λ p. omega (
            arith,
            steps.0 p,
            sum_by-take_out (λ (l : WopeLog). tally p (pending l.wope_state l)) i node.wope_logs log
                e,
          ),
          omega (
            arith,
            steps.1,
            sum_by-take_out (λ (l : WopeLog). rank l.wope_state) i node.wope_logs log e,
          ),
        )
  ]

-- The pool takes up queued writes, one after the other and in any order, and none of them faults.
pub data Runs : Node → Node → ℕ → Type 0 where
  stop : {node : Node} → Runs node node 0
  take_up :
      {node node1 node' : Node} {k : ℕ} (i : ℕ)
      → handle_wope i node ≡ some node1
      → Runs node1 node' k
      → Runs node node' (suc k)

pub Runs-keep :
    {node node' : Node} {k : ℕ}
    → Runs node node' k
    → ((p : Reply → Bool) → owed p node' ≡ owed p node) × (work node' + k ≡ work node)
Runs-keep stop = (λ p. refl, omega arith)
Runs-keep (take_up {node} {node1} i run rest) =
    let one = handle_wope-Steps i node node1 run in
    let more = Runs-keep rest in (λ p. more.0 p ∙ one.0 p, omega (arith, one.1, more.1))

pub no_work :
    (logs : List WopeLog) → sum_by (λ (l : WopeLog). rank l.wope_state) logs ≡ 0 → logs ≡ []
unfolding sum_by
no_work [] h = refl
no_work (log ∷ logs) h = absurd (omega (arith, rank_positive log.wope_state))
  where
    rank_positive : (st : WopeState) → 0 < rank st
    rank_positive init = omega arith
    rank_positive on_journal = omega arith
    rank_positive on_disk = omega arith
    rank_positive other = omega arith

module _ {node node' : Node} {k : ℕ} (runs : Runs node node' k) where
  -- If the queue has come to be empty, every write that was queued has got the replies that its
  -- state was still owed, each once, and no other reply was sent: a test accepts as many replies
  -- as it accepts of those that were sent before and those that were to come.
  pub runs_answer : (p : Reply → Bool) → node'.wope_logs ≡ [] → tally p node'.sent ≡ owed p node
  unfolding owed sum_by
  runs_answer p empty =
      let kept = (Runs-keep runs).0 p in
      omega (
        arith,
        kept,
        ap
            (λ (logs : List WopeLog).
              sum_by (λ (log : WopeLog). tally p (pending log.wope_state log)) logs)
            empty,
      )

  -- The queue cannot go on for ever: a write in `init` is taken up three times, one in `onJournal`
  -- twice and another once, and after that many steps in all, in whatever order, it is empty.
  pub runs_end : (k ≡ work node) ↔ (node'.wope_logs ≡ [])
  unfolding work sum_by
  runs_end = (
    λ enough. no_work node'.wope_logs (omega (arith, (Runs-keep runs).1)),
    λ empty. omega (
      arith,
      (Runs-keep runs).1,
      ap (λ (logs : List WopeLog). sum_by (λ (l : WopeLog). rank l.wope_state) logs) empty,
    ),
  )
