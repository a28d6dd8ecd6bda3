-- ===== src/ThreadPool.antt =====
-- GD::ThreadPool of src/deps/thread_pool.h: the queue of jobs, the workers and the shutdown, as the
-- steps that the threads make one after the other under the mutex. A job is a value of `A`, and
-- running it ends.
pub mod Counts
pub mod Sound
pub mod Loop
pub mod Reached
pub mod Drained
pub mod Tests
use gdfile_store.Base.{
  ℕ, zero, suc, ◌+◌, ◌≡◌, Bool, true, false, Option, none, some, List, [], ◌∷◌, ◌++◌, ◌>>=◌, map,
  if◌then◌else◌, length, get_elem?,
}
use gdfile_store.Base.Int.{ℤ, pos, negsuc, ◌+ℤ◌}
use gdfile_store.Base.Sums.{put_at}

-- Where a worker is: before the wait, or behind it and awake; asleep on the condition variable;
-- running a job; out of its loop.
pub data Worker (A : Type 0) : Type 0 where
  ready asleep exited : Worker A
  running : A → Worker A

-- The members of the pool, and what has happened: the jobs that were left to it, those that workers
-- took up, both in their order, and how many have ended.
pub record Pool (A : Type 0) : Type 0 where
  pub jobs : List A
  pub shutdown : Bool
  pub workers : List (Worker A)
  pub busy : ℤ
  pub enqueued : List A
  pub taken : List A
  pub ended : ℕ

module _ {A : Type 0} where
  -- The workers that `active` makes.
  abbrev pub new_workers : ℕ → List (Worker A)
  new_workers zero = []
  new_workers (suc n) = ready ∷ new_workers n

  -- The constructor, which calls `active`: there is no thread to join yet.
  unfoldable pub new_pool : ℕ → Pool A
  new_pool n = record {
    jobs = [];
    shutdown = false;
    workers = new_workers n;
    busy = pos 0;
    enqueued = [];
    taken = [];
    ended = 0;
  }

  abbrev pub rouse : Worker A → Worker A
  rouse asleep = ready
  rouse w = w

  -- notify_all
  unfoldable pub notify_all : Pool A → Pool A
  notify_all p = record p { workers = map rouse p.workers }

  abbrev pub is_asleep : Worker A → Bool
  is_asleep asleep = true
  is_asleep _ = false

  abbrev pub is_exited : Worker A → Bool
  is_exited exited = true
  is_exited _ = false

  abbrev pub all_of : (Worker A → Bool) → List (Worker A) → Bool
  all_of t [] = true
  all_of t (w ∷ ws) = let rest = all_of t ws in if t w then rest else false

  abbrev pub none_of : (Worker A → Bool) → List (Worker A) → Bool
  none_of t [] = true
  none_of t (w ∷ ws) = let rest = none_of t ws in if t w then false else rest

  -- notify_one wakes one of the sleepers, whichever, and nobody where nobody sleeps.
  unfoldable pub notify_one : Option ℕ → Pool A → Option (Pool A)
  notify_one none p = if none_of is_asleep p.workers then some p else none
  notify_one (some i) p = do
    w ← get_elem? p.workers i
    if is_asleep w then some (record p { workers = put_at i ready p.workers }) else none

  unfoldable pub enqueue : A → Option ℕ → Pool A → Option (Pool A)
  unfolding notify_one
  enqueue job woken p =
      notify_one woken (record p { jobs = p.jobs ++ job ∷ []; enqueued = p.enqueued ++ job ∷ [] })

  -- A worker has the mutex and looks at the queue: it takes the first job, leaves its loop or
  -- sleeps.
  unfoldable pub look : ℕ → List A → Pool A → Pool A
  look i [] p =
      if p.shutdown
      then record p { workers = put_at i exited p.workers }
      else record p { workers = put_at i asleep p.workers }
  look i (job ∷ jobs) p = record p {
    jobs = jobs;
    workers = put_at i (running job) p.workers;
    busy = p.busy +ℤ pos 1;
    taken = p.taken ++ job ∷ [];
  }

  -- What a worker does next: nothing while it sleeps or when it is out.
  unfoldable pub work_at : ℕ → Worker A → Pool A → Option (Pool A)
  unfolding look
  work_at i ready p = some (look i p.jobs p)
  work_at i (running job) p = some (record p {
    workers = put_at i ready p.workers;
    busy = p.busy +ℤ negsuc 0;
    ended = suc p.ended;
  })
  work_at i asleep p = none
  work_at i exited p = none

  unfoldable pub work : ℕ → Pool A → Option (Pool A)
  unfolding work_at
  work i p = do w ← get_elem? p.workers i; work_at i w p

  -- A sleeper wakes up by itself.
  unfoldable pub wake : ℕ → Pool A → Option (Pool A)
  wake i p = do
    w ← get_elem? p.workers i
    if is_asleep w then some (record p { workers = put_at i ready p.workers }) else none

  -- shutdown() in its three parts: the flag, notify_all, and the joins, which end when every worker
  -- is out.
  unfoldable pub raise_flag : Pool A → Pool A
  raise_flag p = record p { shutdown = true }

  unfoldable pub join_all : Pool A → Option (Pool A)
  join_all p = if all_of is_exited p.workers then some (record p { workers = [] }) else none

  -- active(n) behind its call of shutdown().
  unfoldable pub active : ℕ → Pool A → Pool A
  active n p = record p { shutdown = false; workers = p.workers ++ new_workers n }

  unfoldable pub worker_running : Pool A → ℤ
  worker_running p = p.busy +ℤ pos (length p.jobs)

-- What the threads do, in any order: a caller leaves a job to the pool, waking the sleeper at a
-- place if there is one; a worker goes on; a sleeper wakes up by itself; the parts of shutdown();
-- active(n).
pub data Event (A : Type 0) : Type 0 where
  enqueue_job : A → Option ℕ → Event A
  work_on wake_up activate : ℕ → Event A
  flag notify join : Event A

unfoldable pub step : {A : Type 0} → Event A → Pool A → Option (Pool A)
unfolding enqueue work wake raise_flag notify_all join_all active
step (enqueue_job job woken) p = enqueue job woken p
step (work_on i) p = work i p
step (wake_up i) p = wake i p
step flag p = some (raise_flag p)
step notify p = some (notify_all p)
step join p = join_all p
step (activate n) p = some (active n p)
