-- ===== src/ThreadPool/Tests.antt =====
-- A pool with two workers and two jobs.
use gdfile_store.Base.{
  ℕ, ◌+◌, ◌≤◌, ◌≡◌, ◌↔◌, inr, refl, true, false, none, [], ◌∷◌, ◌++◌, arith, length,
}
use gdfile_store.Base.Int.{pos, ◌+ℤ◌}
use gdfile_store.Base.Sums.{sum_by}
use gdfile_store.ThreadPool.Reached.{Reach, start, later, worker_running-Reach}
use gdfile_store.ThreadPool.Drained.{Works, rest, go, potential, IsStill, drains}
use gdfile_store.ThreadPool.{
  ready, asleep, exited, running, Pool, new_pool, worker_running, enqueue_job, work_on, flag,
  notify, step, work,
}

-- Both jobs wait, and both workers are about to look.
abbrev two_jobs : Pool ℕ
two_jobs = record {
  jobs = 7 ∷ 8 ∷ [];
  shutdown = false;
  workers = ready ∷ ready ∷ [];
  busy = pos 0;
  enqueued = 7 ∷ 8 ∷ [];
  taken = [];
  ended = 0;
}

two_jobs-Reach : Reach 2 two_jobs
unfolding step new_pool
two_jobs-Reach = later (later start (enqueue_job 7 none) refl) (enqueue_job 8 none) refl

-- One of them is run.
abbrev one_taken : Pool ℕ
one_taken = record two_jobs {
  jobs = 8 ∷ [];
  workers = running 7 ∷ ready ∷ [];
  busy = pos 1;
  taken = 7 ∷ [];
}

one_taken-Reach : Reach 2 one_taken
unfolding step ◌+ℤ◌
one_taken-Reach = later two_jobs-Reach (work_on 0) refl

worker_running-Reach_example :
    (one_taken.taken ++ one_taken.jobs ≡ one_taken.enqueued)
    × ((b : ℕ) × (one_taken.busy ≡ pos b) × (b ≤ length one_taken.workers))
    × ((k : ℕ) × (worker_running one_taken ≡ pos k)
        × (k + one_taken.ended ≡ length one_taken.enqueued))
worker_running-Reach_example = worker_running-Reach one_taken-Reach

two_running : worker_running one_taken ≡ pos 2
unfolding worker_running ◌+ℤ◌
two_running = refl

abbrev all_done : Pool ℕ
all_done = record two_jobs {
  jobs = [];
  workers = asleep ∷ asleep ∷ [];
  taken = 7 ∷ 8 ∷ [];
  ended = 2;
}

working : Works two_jobs all_done 6
unfolding work ◌+ℤ◌
working = go 0 refl (go 1 refl (go 1 refl (go 0 refl (go 0 refl (go 1 refl rest)))))

drains_example :
    ((6 ≡ potential two_jobs) ↔ IsStill all_done)
    × (IsStill all_done
        → (all_done.jobs ≡ [])
          × (all_done.taken ≡ two_jobs.enqueued)
          × (all_done.ended ≡ length two_jobs.enqueued))
unfolding sum_by
drains_example = drains two_jobs-Reach (inr (omega arith)) working

-- A job that is left to a pool whose workers have gone stays in the queue.
abbrev deserted : Pool ℕ
deserted = record {
  jobs = 9 ∷ [];
  shutdown = true;
  workers = exited ∷ [];
  busy = pos 0;
  enqueued = 9 ∷ [];
  taken = [];
  ended = 0;
}

deserted-Reach : Reach 1 deserted
unfolding step new_pool
deserted-Reach =
    later (later (later (later start flag refl) notify refl) (work_on 0) refl) (enqueue_job 9 none)
      refl

stuck : work 0 deserted ≡ none
unfolding work
stuck = refl
