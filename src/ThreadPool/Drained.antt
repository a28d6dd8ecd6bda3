-- ===== src/ThreadPool/Drained.antt =====
-- A pool to which no more jobs are left runs all that it has.
use mathlib.Core.Path.{subst}
use gdfile_store.Base.{
  ℕ, suc, ◌+◌, ◌*◌, ◌<◌, ◌≡◌, ◌⊎◌, ◌↔◌, refl, sym, ap, ◌∙◌, inl, inr, Bool-cases, some, List, [],
  ◌∷◌, append-nil, >>=-eq-some, arith, length, get_elem?,
}
use gdfile_store.Base.Int.{negsuc, ◌+ℤ◌}
use gdfile_store.Base.Sums.{put_at, sum_by, sum_by-put_at, length-put_at}
use gdfile_store.ThreadPool.Counts.{readies, runners, leavers, sum_by-places}
use gdfile_store.ThreadPool.Sound.{Sound, moved}
use gdfile_store.ThreadPool.Reached.{Reach, Reach-Sound, step-Sound}
use gdfile_store.ThreadPool.{
  Worker, ready, asleep, exited, running, Pool, look, work_at, work, work_on, step,
}

module _ {A : Type 0} where
  -- The steps that the workers have still to make.
  unfoldable pub potential : Pool A → ℕ
  potential p = 2 * length p.jobs + sum_by readies p.workers + 2 * sum_by runners p.workers

  -- No jobs are queued, or not every worker has left.
  abbrev pub IsManned : Pool A → Type 0
  IsManned p = (length p.jobs ≡ 0) ⊎ (sum_by leavers p.workers < length p.workers)

  -- No worker is awake.
  pub record IsStill (p : Pool A) : Type 0 where
    pub none_ready : sum_by readies p.workers ≡ 0
    pub none_runs : sum_by runners p.workers ≡ 0

  -- Workers go on one after the other, in whatever order, and nobody else does anything.
  pub data Works : Pool A → Pool A → ℕ → Type 0 where
    rest : {p : Pool A} → Works p p 0
    go :
        {p p1 p' : Pool A} {k : ℕ} (i : ℕ) → work i p ≡ some p1 → Works p1 p' k → Works p p' (suc k)

  record Progress (p p' : Pool A) : Type 0 where
    nearer : suc (potential p') ≡ potential p
    same : p'.enqueued ≡ p.enqueued
    manned : IsManned p → IsManned p'

  module _ (i : ℕ) (ws : List (Worker A)) (w w' : Worker A) (e : get_elem? ws i ≡ some w) where
    left :
        (sum_by leavers (put_at i w' ws) + leavers w ≡ sum_by leavers ws + leavers w')
        × (length (put_at i w' ws) ≡ length ws)
    left = (sum_by-put_at leavers i ws w w' e, length-put_at i ws w w' e)

  idle-Progress :
      (i : ℕ) (p : Pool A) (w : Worker A)
      → get_elem? p.workers i ≡ some ready
      → readies w ≡ 0
      → runners w ≡ 0
      → p.jobs ≡ []
      → Progress p (record p { workers = put_at i w p.workers })
  unfolding potential
  idle-Progress i p w e not_ready idle empty =
      let m = moved i p.workers ready w e in
      record {
        nearer = omega (arith, m.0, m.2, not_ready, idle);
        same = refl;
        manned = λ h. inl (ap length empty);
      }

  look-Progress :
      (i : ℕ) (p : Pool A) (jobs : List A)
      → get_elem? p.workers i ≡ some ready
      → p.jobs ≡ jobs
      → Progress p (look i jobs p)
  unfolding look potential
  look-Progress i p [] e empty = elim (Bool-cases p.shutdown) [
    | inl down ↦
        let same : record p { workers = put_at i exited p.workers } ≡ look i [] p = rw down refl in
        subst (Progress p) same (idle-Progress i p exited e refl refl empty)
    | inr up ↦
        let same : record p { workers = put_at i asleep p.workers } ≡ look i [] p = rw up refl in
        subst (Progress p) same (idle-Progress i p asleep e refl refl empty)
  ]
  look-Progress i p (job ∷ jobs) e found =
      let m = moved i p.workers ready (running job) e in
      let l = left i p.workers ready (running job) e in
      record {
        nearer = omega (arith, m.0, m.2, ap length found);
        same = refl;
        manned = λ h. elim h [
          | inl none_queued ↦ absurd (omega (arith, none_queued, ap length found))
          | inr some_in ↦ inr (omega (arith, l.0, l.1, some_in))
        ];
      }

  work_at-Progress :
      (i : ℕ) (w : Worker A) (p p' : Pool A)
      → get_elem? p.workers i ≡ some w
      → work_at i w p ≡ some p'
      → Progress p p'
  unfolding work_at potential
  work_at-Progress i ready p p' e h =
      let found : look i p.jobs p ≡ p' = cc in
      subst (Progress p) found (look-Progress i p p.jobs e refl)
  work_at-Progress i (running job) p p' e h =
      let m = moved i p.workers (running job) ready e in
      let l = left i p.workers (running job) ready e in
      let found : record p {
        workers = put_at i ready p.workers;
        busy = p.busy +ℤ negsuc 0;
        ended = suc p.ended;
      }
          ≡ p' =
        cc in
      subst (Progress p) found (record {
        nearer = omega (arith, m.0, m.2);
        same = refl;
        manned = λ h. elim h [
          | inl none_queued ↦ inl none_queued
          | inr some_in ↦ inr (omega (arith, l.0, l.1, some_in))
        ];
      })
  work_at-Progress i asleep p p' e h = absurd (cc)
  work_at-Progress i exited p p' e h = absurd (cc)

  Works-keep :
      {p p' : Pool A} {k : ℕ}
      → Works p p' k
      → Sound p
      → IsManned p
      → Sound p' × IsManned p' × (potential p' + k ≡ potential p) × (p'.enqueued ≡ p.enqueued)
  unfolding step work
  Works-keep {p = p} rest s m = (s, m, omega arith, refl)
  Works-keep (go {p = p} {p1 = p1} i run more) s m =
      let (w, e, r) = >>=-eq-some (get_elem? p.workers i) _ run in
      let one = work_at-Progress i w p p1 e r in
      let all = Works-keep more (step-Sound (work_on i) p p1 s run) (one.manned m) in
      (all.0, all.1, omega (arith, all.2, one.nearer), all.3 ∙ one.same)

  -- Where nobody is awake and the queue is manned, it is empty.
  still_empty : (p : Pool A) → Sound p → IsManned p → IsStill p → length p.jobs ≡ 0
  still_empty p s manned still = elim manned [
    | inl none_queued ↦ none_queued
    | inr some_in ↦ elim s.alert [
      | inl nobody ↦ absurd (
          omega
            (arith, sum_by-places p.workers, still.none_ready, still.none_runs, nobody, some_in))
      | inr few ↦ omega (arith, few, still.none_ready)
    ]
  ]

  no_elements : (xs : List A) → length xs ≡ 0 → xs ≡ []
  no_elements [] h = refl
  no_elements (x ∷ xs) h = absurd (omega arith)

  -- A pool that a new one has come to be, with no job queued or a worker that has not left, is left
  -- to its workers. They come to rest exactly after two steps for each queued job and for each that
  -- runs, and one for each worker that is about to look; and when they rest, every job that was
  -- ever left to the pool has been taken up, in the order in which it came, and has ended.
  pub drains :
      {n k : ℕ} {p p' : Pool A}
      → Reach n p
      → IsManned p
      → Works p p' k
      → ((k ≡ potential p) ↔ IsStill p')
        × (IsStill p' → (p'.jobs ≡ []) × (p'.taken ≡ p.enqueued) × (p'.ended ≡ length p.enqueued))
  unfolding potential
  drains {p = p} {p' = p'} r manned works =
      let (s, m, steps, same) = Works-keep works (Reach-Sound r) manned in
      (
        (
          λ enough. record {
            none_ready = omega (arith, steps, enough);
            none_runs = omega (arith, steps, enough);
          },
          λ still.
              omega (arith, steps, still_empty p' s m still, still.none_ready, still.none_runs),
        ),
        λ still.
            let empty = no_elements p'.jobs (still_empty p' s m still) in
            let took : p'.taken ≡ p.enqueued =
              sym (append-nil p'.taken) ∙ rw (← empty) (s.in_order) ∙ same in
            (empty, took, omega (arith, s.accounted, still.none_runs, ap length took)),
      )
