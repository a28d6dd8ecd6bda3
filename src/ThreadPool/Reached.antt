-- ===== src/ThreadPool/Reached.antt =====
-- What holds of every pool that a new one can come to be.
use mathlib.Core.Path.{subst}
use gdfile_store.Base.{
  ℕ, ◌+◌, ◌≤◌, ◌≡◌, refl, ap, inl, inr, Bool-cases, true, some, [], ◌++◌, >>=-eq-some, arith,
  length, length-append, get_elem?,
}
use gdfile_store.Base.Int.{pos, pos-add}
use gdfile_store.Base.Sums.{sum_by, sum_by-append}
use gdfile_store.ThreadPool.Sound.{Sound, enqueue-Sound, wake-Sound}
use gdfile_store.ThreadPool.Loop.{work_at-Sound}
use gdfile_store.ThreadPool.Counts.{
  readies, sleepers, runners, sum_by-places, sleepers-rouse, runners-rouse, all_of-exited,
  new_workers_counts,
}
use gdfile_store.ThreadPool.{
  Pool, new_workers, new_pool, notify_all, is_exited, all_of, work, raise_flag, join_all, active,
  worker_running, Event, enqueue_job, work_on, wake_up, activate, flag, notify, join, step,
}

-- The pools that a new one with `n` workers can come to be.
pub data Reach {A : Type 0} (n : ℕ) : Pool A → Type 0 where
  start : Reach n (new_pool n)
  later : {p p' : Pool A} → Reach n p → (e : Event A) → step e p ≡ some p' → Reach n p'

module _ {A : Type 0} where
  rouse-Sound : (p : Pool A) → Sound p → Sound (notify_all p)
  unfolding notify_all
  rouse-Sound p s = record {
    in_order = s.in_order;
    counted = rw (runners-rouse p.workers) s.counted;
    accounted = rw (runners-rouse p.workers) s.accounted;
    alert = inl (sleepers-rouse p.workers);
  }

  join_all-Sound : (p p' : Pool A) → Sound p → join_all p ≡ some p' → Sound p'
  unfolding join_all sum_by
  join_all-Sound p p' s h = elim (Bool-cases (all_of is_exited p.workers)) [
    | inl e ↦
        let found : record p { workers = [] } ≡ p' = cc (rw e at h) in
        let none_runs = all_of-exited p.workers e in
        subst Sound found (record {
          in_order = s.in_order;
          counted = rw (← none_runs) s.counted;
          accounted = omega (arith, s.accounted, none_runs);
          alert = inl refl;
        })
    | inr e ↦ absurd (cc (rw e at h))
  ]

  active-Sound : (n : ℕ) (p : Pool A) → Sound p → Sound (active n p)
  unfolding active
  active-Sound n p s =
      let new = new_workers_counts A n in
      let same : sum_by runners (p.workers ++ new_workers n) ≡ sum_by runners p.workers =
        omega (arith, sum_by-append runners p.workers (new_workers n), new.1) in
      record {
        in_order = s.in_order;
        counted = rw same s.counted;
        accounted = rw same s.accounted;
        alert = elim s.alert [
          | inl nobody ↦
              inl (omega (arith, sum_by-append sleepers p.workers (new_workers n), new.0, nobody))
          | inr few ↦ inr (omega (arith, sum_by-append readies p.workers (new_workers n), few))
        ];
      }

  pub step-Sound : (e : Event A) (p p' : Pool A) → Sound p → step e p ≡ some p' → Sound p'
  unfolding step work raise_flag
  step-Sound (enqueue_job job woken) p p' s h = enqueue-Sound job woken p p' s h
  step-Sound (work_on i) p p' s h =
      let (w, e, r) = >>=-eq-some (get_elem? p.workers i) _ h in work_at-Sound i w p p' e s r
  step-Sound (wake_up i) p p' s h = wake-Sound i p p' s h
  step-Sound flag p p' s h =
      let found : record p { shutdown = true } ≡ p' = cc in
      subst Sound found (record {
        in_order = s.in_order;
        counted = s.counted;
        accounted = s.accounted;
        alert = s.alert;
      })
  step-Sound notify p p' s h =
      let found : notify_all p ≡ p' = cc in subst Sound found (rouse-Sound p s)
  step-Sound join p p' s h = join_all-Sound p p' s h
  step-Sound (activate n) p p' s h =
      let found : active n p ≡ p' = cc in subst Sound found (active-Sound n p s)

  pub Reach-Sound : {n : ℕ} {p : Pool A} → Reach n p → Sound p
  unfolding new_pool sum_by
  Reach-Sound {n = n} start =
      let new = new_workers_counts A n in
      record {
        in_order = refl;
        counted = rw new.1 refl;
        accounted = omega (arith, new.1);
        alert = inl new.0;
      }
  Reach-Sound (later {p = p} {p' = p'} r e h) = step-Sound e p p' (Reach-Sound r) h

  -- At all times jobs are taken up once each and in the order in which they were left to the pool,
  -- as many workers run one as busyCount says, no more than there are, and workerRunning answers
  -- how many of the jobs that were left to the pool have not ended.
  pub worker_running-Reach :
      {n : ℕ} {p : Pool A}
      → Reach n p
      → (p.taken ++ p.jobs ≡ p.enqueued)
        × ((b : ℕ) × (p.busy ≡ pos b) × (b ≤ length p.workers))
        × ((k : ℕ) × (worker_running p ≡ pos k) × (k + p.ended ≡ length p.enqueued))
  unfolding worker_running
  worker_running-Reach {p = p} r =
      let s = Reach-Sound r in
      let b = sum_by runners p.workers in
      (
        s.in_order,
        (b, s.counted, omega (arith, sum_by-places p.workers)),
        (
          b + length p.jobs,
          rw s.counted (pos-add b (length p.jobs)),
          omega (arith, s.accounted, length-append p.taken p.jobs, ap length s.in_order),
        ),
      )
