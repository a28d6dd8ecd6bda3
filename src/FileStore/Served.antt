-- ===== src/FileStore/Served.antt =====
-- Every write and every read that comes to handle_ope_threadMain of src/GDFileStore.cpp is answered.
use gdfile_store.Base.{ℕ, ◌+◌, ◌≡◌, refl, Bool, List, [], ◌∷◌, ◌++◌, some, arith, if◌then◌else◌}
use gdfile_store.Base.Sums.{sum_by, sum_by-append}
use gdfile_store.Object.{InfoForOsd}
use gdfile_store.Object.Protocol.{WopeLog, RopeLog}
use gdfile_store.FileStore.{Reply}
use gdfile_store.FileStore.Progress.{tally, pending, rank, owed, work, handle_wope-Steps}
use gdfile_store.FileStore.Mirrored.{queued, serve-Mirrors}
use gdfile_store.FileStore.Arrivals.{
  wopes_of, ropes_of, ends, owed_to, work_of, count_reads, count_answers, reads, owed-add_wope,
  work-add_wope, reads-serve,
}
use gdfile_store.FileStore.Serving.{
  Serving, Event, wope_added, rope_added, wopes_handed, ropes_handed, wope_taken, rope_taken,
  wope_done, rope_done, serve,
}

-- A run of the thread, the pools and their workers.
pub data Serves : List Event → Serving → Serving → Type 0 where
  stop : {s : Serving} → Serves [] s s
  go :
      {es : List Event} {s s1 s' : Serving} (e : Event)
      → serve e s ≡ some s1
      → Serves es s1 s'
      → Serves (e ∷ es) s s'

abbrev WriteStep : Event → Serving → Serving → Type 0
WriteStep e s s' =
    ((p : Reply → Bool) → owed p (queued s') ≡ owed p (queued s) + owed_to p (wopes_of (e ∷ [])))
    × (work (queued s') + ends (e ∷ []) ≡ work (queued s) + work_of (wopes_of (e ∷ [])))

same-WriteStep :
    (s s' : Serving)
    → queued s' ≡ queued s
    → ((p : Reply → Bool) → owed p (queued s') ≡ owed p (queued s) + 0)
      × (work (queued s') + 0 ≡ work (queued s) + 0)
same-WriteStep s s' same = rw same (λ p. omega arith, omega arith)

serve-WriteStep : (e : Event) (s s' : Serving) → serve e s ≡ some s' → WriteStep e s s'
unfolding sum_by
serve-WriteStep (wope_added log) s s' run =
    let added = serve-Mirrors (wope_added log) s s' run in
    rw added (
      λ p. omega (arith, owed-add_wope log (queued s) p),
      omega (arith, work-add_wope log (queued s)),
    )
serve-WriteStep (wope_done i) s s' run =
    let steps = handle_wope-Steps i (queued s) (queued s') (serve-Mirrors (wope_done i) s s' run) in
    (λ p. omega (arith, steps.0 p), omega (arith, steps.1))
serve-WriteStep (rope_added log) s s' run =
    same-WriteStep s s' (serve-Mirrors (rope_added log) s s' run)
serve-WriteStep wopes_handed s s' run = same-WriteStep s s' (serve-Mirrors wopes_handed s s' run)
serve-WriteStep ropes_handed s s' run = same-WriteStep s s' (serve-Mirrors ropes_handed s s' run)
serve-WriteStep wope_taken s s' run = same-WriteStep s s' (serve-Mirrors wope_taken s s' run)
serve-WriteStep rope_taken s s' run = same-WriteStep s s' (serve-Mirrors rope_taken s s' run)
serve-WriteStep (rope_done i) s s' run = same-WriteStep s s' (serve-Mirrors (rope_done i) s s' run)

wopes_of-split :
    (e : Event) (es : List Event) → wopes_of (e ∷ es) ≡ wopes_of (e ∷ []) ++ wopes_of es
wopes_of-split (wope_added log) es = refl
wopes_of-split (rope_added log) es = refl
wopes_of-split wopes_handed es = refl
wopes_of-split ropes_handed es = refl
wopes_of-split wope_taken es = refl
wopes_of-split rope_taken es = refl
wopes_of-split (wope_done i) es = refl
wopes_of-split (rope_done i) es = refl

ropes_of-split :
    (e : Event) (es : List Event) → ropes_of (e ∷ es) ≡ ropes_of (e ∷ []) ++ ropes_of es
ropes_of-split (wope_added log) es = refl
ropes_of-split (rope_added log) es = refl
ropes_of-split wopes_handed es = refl
ropes_of-split ropes_handed es = refl
ropes_of-split wope_taken es = refl
ropes_of-split rope_taken es = refl
ropes_of-split (wope_done i) es = refl
ropes_of-split (rope_done i) es = refl

ends-split : (e : Event) (es : List Event) → ends (e ∷ es) ≡ ends (e ∷ []) + ends es
ends-split (wope_added log) es = omega arith
ends-split (rope_added log) es = omega arith
ends-split wopes_handed es = omega arith
ends-split ropes_handed es = omega arith
ends-split wope_taken es = omega arith
ends-split rope_taken es = omega arith
ends-split (wope_done i) es = omega arith
ends-split (rope_done i) es = omega arith

Serves-owed :
    {es : List Event} {s s' : Serving}
    → Serves es s s'
    → (p : Reply → Bool) → owed p (queued s') ≡ owed p (queued s) + owed_to p (wopes_of es)
unfolding sum_by
Serves-owed stop p = omega arith
Serves-owed (go {es} {s} {s1} e run rest) p = rw (wopes_of-split e es) (
    omega (
      arith,
      sum_by-append (λ (log : WopeLog). tally p (pending log.wope_state log)) (wopes_of (e ∷ []))
          (wopes_of es),
      (serve-WriteStep e s s1 run).0 p,
      Serves-owed rest p,
    ))

Serves-work :
    {es : List Event} {s s' : Serving}
    → Serves es s s'
    → work (queued s') + ends es ≡ work (queued s) + work_of (wopes_of es)
unfolding sum_by
Serves-work stop = omega arith
Serves-work (go {es} {s} {s1} e run rest) = rw (wopes_of-split e es) (
    omega (
      arith,
      sum_by-append (λ (log : WopeLog). rank log.wope_state) (wopes_of (e ∷ [])) (wopes_of es),
      ends-split e es,
      (serve-WriteStep e s s1 run).1,
      Serves-work rest,
    ))

Serves-reads :
    {es : List Event} {s s' : Serving}
    → Serves es s s'
    → (q : InfoForOsd → List ℕ → Bool) → reads q s' ≡ reads q s + count_reads q (ropes_of es)
unfolding sum_by
Serves-reads stop q = omega arith
Serves-reads (go {es} {s} {s1} e run rest) q = rw (ropes_of-split e es) (
    omega (
      arith,
      sum_by-append (λ (log : RopeLog). if q log.from log.ope_id then 1 else 0) (ropes_of (e ∷ []))
          (ropes_of es),
      reads-serve q e s s1 run,
      Serves-reads rest q,
    ))

-- Nothing is queued, and no worker is at work.
pub record IsIdle (s : Serving) : Type 0 where
  pub wope_logs : s.node.wope_logs ≡ []
  pub write_tp : s.write_tp ≡ []
  pub writing : s.writing ≡ []
  pub rope_logs : s.rope_logs ≡ []
  pub read_tp : s.read_tp ≡ []
  pub reading : s.reading ≡ []

module _ (s : Serving) (idle : IsIdle s) where
  idle-owed : (p : Reply → Bool) → owed p (queued s) ≡ tally p s.node.sent
  unfolding queued owed sum_by
  idle-owed p = rw (idle.writing, idle.write_tp, idle.wope_logs) (omega arith)

  idle-work : work (queued s) ≡ 0
  unfolding queued work sum_by
  idle-work = rw (idle.writing, idle.write_tp, idle.wope_logs) refl

  idle-reads : (q : InfoForOsd → List ℕ → Bool) → reads q s ≡ count_answers q s.answered
  unfolding reads sum_by
  idle-reads q = rw (idle.reading, idle.read_tp, idle.rope_logs) (omega arith)

-- In whatever order requests arrive, the thread hands the queues over, and the workers take jobs up
-- and end them: when nothing is queued and no worker is at work, every write that was there or that
-- arrived has got the replies that its state was owed, each once, and no other reply about a write
-- was sent; every read that was there or that arrived has got one reply; and as many ends of a
-- do_wope have been seen as the writes needed, three for one that arrived in `init`.
pub Serves-answers :
    {es : List Event} {s s' : Serving}
    → Serves es s s'
    → IsIdle s'
    → ((p : Reply → Bool) → tally p s'.node.sent ≡ owed p (queued s) + owed_to p (wopes_of es))
      × ((q : InfoForOsd → List ℕ → Bool)
          → count_answers q s'.answered ≡ reads q s + count_reads q (ropes_of es))
      × (ends es ≡ work (queued s) + work_of (wopes_of es))
Serves-answers {es} {s} {s'} serves idle = (
  λ p. omega (arith, idle-owed s' idle p, Serves-owed serves p),
  λ q. omega (arith, idle-reads s' idle q, Serves-reads serves q),
  omega (arith, idle-work s' idle, Serves-work serves),
)
