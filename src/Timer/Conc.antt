-- ===== src/Timer/Conc.antt =====
-- ConcTimerCaller of src/deps/timer.h: a tick leaves the timers that are due to a pool of threads,
-- which calls them, and the count of what is still to be done.
use gdfile_store.Base.{
  ℕ, Bool, ◌&&◌, Option, none, some, List, [], ◌∷◌, ◌>>=◌, if◌then◌else◌, length,
}
use gdfile_store.Base.Int.{ℤ, pos, negsuc, ◌+ℤ◌, leb_ℤ}
use gdfile_store.ThreadPool.{Pool, Event, enqueue_job, enqueue, step, worker_running}
use gdfile_store.Timer.{Timer}

-- What happens while Tick holds the mutex of the list: Tick comes to its next timer, with the
-- clock's reading, whether the caller is active then, and the sleeper that the job wakes if the
-- timer is due; or something happens in the pool.
pub data Turn : Type 0 where
  comes_to : ℤ → Bool → Option ℕ → Turn
  meanwhile : Event Timer → Turn

-- What happens in the pool meanwhile: its workers take up and end jobs, sleepers wake up, shutdown()
-- and active(n) are called. Jobs are left to it by Tick alone.
abbrev pub of_pool : Event Timer → Pool Timer → Option (Pool Timer)
of_pool (enqueue_job job woken) pool = none
of_pool e pool = step e pool

-- ConcTimerCaller::Tick, with what happens in the pool between its rounds. `none` where the turns
-- do not come to the end of the loop, or one cannot be taken.
unfoldable pub conc_tick : List Turn → List Timer → Pool Timer → Option (List Timer × Pool Timer)
unfolding enqueue step
conc_tick turns [] pool = some ([], pool)
conc_tick [] (t ∷ timers) pool = none
conc_tick (meanwhile e ∷ turns) (t ∷ timers) pool = of_pool e pool >>= conc_tick turns (t ∷ timers)
conc_tick (comes_to now actived woken ∷ turns) (t ∷ timers) pool =
    let rest = enqueue t woken pool >>= conc_tick turns timers in
    if leb_ℤ t.when now && actived then rest else some (t ∷ timers, pool)

-- RestJobs: the sentinel is not counted.
unfoldable pub rest_jobs : List Timer → Pool Timer → ℤ
unfolding worker_running
rest_jobs timers pool = (pos (length timers) +ℤ worker_running pool) +ℤ negsuc 0
