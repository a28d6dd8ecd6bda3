-- ===== src/ThreadPool/Loop.antt =====
-- The body of a worker's loop keeps what holds of a pool.
use mathlib.Core.Path.{subst}
use gdfile_store.Base.{
  ℕ, suc, ◌+◌, ◌≡◌, refl, sym, ap, ◌∙◌, inl, inr, Bool-cases, some, List, [], ◌∷◌, ◌++◌,
  append_assoc, arith, length, length-append, get_elem?,
}
use gdfile_store.Base.Int.{negsuc, ◌+ℤ◌, pos-add, pos-pred}
use gdfile_store.Base.Sums.{put_at, sum_by}
use gdfile_store.ThreadPool.Sound.{Sound, moved}
use gdfile_store.ThreadPool.Counts.{runners}
use gdfile_store.ThreadPool.{Worker, ready, asleep, exited, running, Pool, look, work_at}

module _ {A : Type 0} where
  -- A worker that finds no job and does not run one afterwards.
  idle-Sound :
      (i : ℕ) (p : Pool A) (w : Worker A)
      → get_elem? p.workers i ≡ some ready
      → runners w ≡ 0
      → p.jobs ≡ []
      → Sound p
      → Sound (record p { workers = put_at i w p.workers })
  idle-Sound i p w e idle empty s =
      let m = moved i p.workers ready w e in
      let same : sum_by runners (put_at i w p.workers) ≡ sum_by runners p.workers =
        omega (arith, m.2, idle) in
      record {
        in_order = s.in_order;
        counted = rw same s.counted;
        accounted = rw same s.accounted;
        alert = inr (rw empty (omega arith));
      }

  look-Sound :
      (i : ℕ) (p : Pool A) (jobs : List A)
      → get_elem? p.workers i ≡ some ready
      → p.jobs ≡ jobs
      → Sound p
      → Sound (look i jobs p)
  unfolding look
  look-Sound i p [] e empty s = elim (Bool-cases p.shutdown) [
    | inl down ↦
        let same : record p { workers = put_at i exited p.workers } ≡ look i [] p = rw down refl in
        subst Sound same (idle-Sound i p exited e refl empty s)
    | inr up ↦
        let same : record p { workers = put_at i asleep p.workers } ≡ look i [] p = rw up refl in
        subst Sound same (idle-Sound i p asleep e refl empty s)
  ]
  look-Sound i p (job ∷ jobs) e found s =
      let m = moved i p.workers ready (running job) e in
      let more : sum_by runners (put_at i (running job) p.workers) ≡ sum_by runners p.workers + 1 =
        omega (arith, m.2) in
      record {
        in_order =
            append_assoc p.taken (job ∷ []) jobs
            ∙ ap (λ (js : List A). p.taken ++ js) (sym found)
            ∙ s.in_order;
        counted = rw (more, s.counted) (pos-add (sum_by runners p.workers) 1);
        accounted = omega (arith, more, s.accounted, length-append p.taken (job ∷ []));
        alert = elim s.alert [
          | inl nobody ↦ inl (omega (arith, m.1, nobody))
          | inr few ↦ inr (omega (arith, m.0, few, ap length found))
        ];
      }

  pub work_at-Sound :
      (i : ℕ) (w : Worker A) (p p' : Pool A)
      → get_elem? p.workers i ≡ some w
      → Sound p
      → work_at i w p ≡ some p'
      → Sound p'
  unfolding work_at
  work_at-Sound i ready p p' e s h =
      let found : look i p.jobs p ≡ p' = cc in subst Sound found (look-Sound i p p.jobs e refl s)
  work_at-Sound i (running job) p p' e s h =
      let m = moved i p.workers (running job) ready e in
      let fewer : sum_by runners (put_at i ready p.workers) + 1 ≡ sum_by runners p.workers =
        omega (arith, m.2) in
      let found : record p {
        workers = put_at i ready p.workers;
        busy = p.busy +ℤ negsuc 0;
        ended = suc p.ended;
      }
          ≡ p' =
        cc in
      subst Sound found (record {
        in_order = s.in_order;
        counted = rw (s.counted, sym fewer) (pos-pred (sum_by runners (put_at i ready p.workers)));
        accounted = omega (arith, fewer, s.accounted);
        alert = elim s.alert [
          | inl nobody ↦ inl (omega (arith, m.1, nobody))
          | inr few ↦ inr (omega (arith, m.0, few))
        ];
      })
  work_at-Sound i asleep p p' e s h = absurd (cc)
  work_at-Sound i exited p p' e s h = absurd (cc)
