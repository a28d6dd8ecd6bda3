-- ===== src/Timer/Shared.antt =====
-- A tick of ConcTimerCaller hands timers over, and loses and doubles none.
use mathlib.Core.Path.{subst}
use gdfile_store.Base.{
  ℕ, ◌+◌, ◌≡◌, refl, sym, ap, ◌∙◌, inl, inr, Bool-cases, true, false, ◌&&◌, Option, some, List, [],
  ◌∷◌, ◌++◌, append_assoc, append-nil, >>=-eq-some, arith, length, length-append,
}
use gdfile_store.Base.Int.{pos, negsuc, ◌+ℤ◌, leb_ℤ, pos-add}
use gdfile_store.ThreadPool.{Pool, enqueue, Event, enqueue_job}
use gdfile_store.ThreadPool.Reached.{Reach, later, worker_running-Reach}
use gdfile_store.Timer.{Timer}
use gdfile_store.Timer.Conc.{Turn, comes_to, meanwhile, of_pool, conc_tick, rest_jobs}
use gdfile_store.Timer.Turns.{enqueue-enqueued, of_pool-enqueued, of_pool-step}

-- The first timers are due, each when Tick comes to it, and the next one is not.
abbrev pub IsDue : List Turn → List Timer → List Timer → Type 0
IsDue turns [] [] = Unit {0}
IsDue [] due timers = ⊥
IsDue (meanwhile e ∷ turns) due timers = IsDue turns due timers
IsDue (comes_to now actived woken ∷ turns) [] (t ∷ timers) = (leb_ℤ t.when now && actived) ≡ false
IsDue (comes_to now actived woken ∷ turns) (t ∷ due) timers =
    ((leb_ℤ t.when now && actived) ≡ true) × IsDue turns due timers

-- The timers that a tick hands over, and those that stay.
record Handed (n : ℕ) (turns : List Turn) (timers timers' : List Timer) (p p' : Pool Timer)
    : Type 0 where
  due : List Timer
  split : timers ≡ due ++ timers'
  enqueued : p'.enqueued ≡ p.enqueued ++ due
  timely : IsDue turns due timers'
  reached : Reach n p'

module _ (n : ℕ) where
  stay-Handed :
      (turns : List Turn) (timers timers' : List Timer) (p p' : Pool Timer)
      → IsDue turns [] timers
      → Reach n p
      → ◌≡◌ {A = Option (List Timer × Pool Timer)} (some (timers, p)) (some (timers', p'))
      → Handed n turns timers timers' p p'
  stay-Handed turns timers timers' p p' due r h =
      let list : timers ≡ timers' = cc in
      let pool : p ≡ p' = cc in
      subst (λ (q : Pool Timer). Handed n turns timers timers' p q) pool
        (subst (λ (ts : List Timer). Handed n turns timers ts p p) list
          (record {
            due = [];
            split = refl;
            enqueued = sym (append-nil p.enqueued);
            timely = due;
            reached = r;
          }))

  -- The list is not empty, so a turn in the pool does not end the tick.
  meanwhile-IsDue :
      (e : Event Timer) (turns : List Turn) (due : List Timer) (t : Timer)
      (timers timers' : List Timer)
      → t ∷ timers ≡ due ++ timers'
      → IsDue turns due timers'
      → IsDue (meanwhile e ∷ turns) due timers'
  meanwhile-IsDue e turns [] t timers [] split timely = tt
  meanwhile-IsDue e turns [] t timers (u ∷ timers') split timely = timely
  meanwhile-IsDue e turns (d ∷ due) t timers timers' split timely = timely

  conc_tick-Handed :
      (turns : List Turn) (timers : List Timer) (p : Pool Timer) (timers' : List Timer)
      (p' : Pool Timer)
      → Reach n p
      → conc_tick turns timers p ≡ some (timers', p')
      → Handed n turns timers timers' p p'
  unfolding conc_tick
  conc_tick-Handed turns [] p timers' p' r h = stay-Handed turns [] timers' p p' tt r h
  conc_tick-Handed [] (t ∷ timers) p timers' p' r h = absurd (cc)
  conc_tick-Handed (meanwhile e ∷ turns) (t ∷ timers) p timers' p' r h =
      let (p1, e1, h1) = >>=-eq-some (of_pool e p) (conc_tick turns (t ∷ timers)) h in
      let k =
        conc_tick-Handed turns (t ∷ timers) p1 timers' p' (later r e (of_pool-step e p p1 e1)) h1 in
      record {
        due = k.due;
        split = k.split;
        enqueued = k.enqueued ∙ ap (λ (ts : List Timer). ts ++ k.due) (of_pool-enqueued e p p1 e1);
        timely = meanwhile-IsDue e turns k.due t timers timers' k.split k.timely;
        reached = k.reached;
      }
  conc_tick-Handed (comes_to now actived woken ∷ turns) (t ∷ timers) p timers' p' r h =
      elim (Bool-cases (leb_ℤ t.when now && actived)) [
        | inl e ↦
            let (p1, e1, h1) =
              >>=-eq-some (enqueue t woken p) (conc_tick turns timers) (rw e at h) in
            let k =
              conc_tick-Handed turns timers p1 timers' p' (later r (enqueue_job t woken) e1) h1 in
            record {
              due = t ∷ k.due;
              split = ap (◌∷◌ t) k.split;
              enqueued =
                  k.enqueued
                  ∙ ap (λ (ts : List Timer). ts ++ k.due) (enqueue-enqueued t woken p p1 e1)
                  ∙ append_assoc p.enqueued (t ∷ []) k.due;
              timely = (e, k.timely);
              reached = k.reached;
            }
        | inr e ↦
            stay-Handed (comes_to now actived woken ∷ turns) (t ∷ timers) timers' p p' e r
              (rw e at h)
      ]

less_one : (a e : ℕ) → (pos a +ℤ negsuc 0) +ℤ pos e ≡ pos (a + e) +ℤ negsuc 0
unfolding ◌+ℤ◌
less_one a e = ground arith

-- RestJobs, of a list and a pool that a new one with `n` workers can come to be.
rest_jobs-Reach :
    (n : ℕ) (timers : List Timer) (p : Pool Timer)
    → Reach n p
    → rest_jobs timers p +ℤ pos p.ended ≡ pos (length timers + length p.enqueued) +ℤ negsuc 0
unfolding rest_jobs
rest_jobs-Reach n timers p r =
    let (k, running_of, count) = (worker_running-Reach r).2 in
    let total : length timers + k + p.ended ≡ length timers + length p.enqueued =
      omega (arith, count) in
    rw (running_of, pos-add (length timers) k, less_one (length timers + k) p.ended, total)

-- The pool is any that a new pool with n workers can come to be, and it is again such a pool
-- afterwards. While Tick goes through the list, the pool's workers may take up and end jobs between
-- any two rounds, and shutdown() and active(n) of the pool may be called. Tick hands the first timers of the
-- list over to the pool, in their order: those that are due while the caller is active, each when
-- Tick comes to it, up to the first that is not. RestJobs has become smaller by exactly as many jobs
-- as have ended meanwhile: a timer is counted in the list or in the pool, until it has been called.
pub rest_jobs-conc_tick :
    (n : ℕ) (turns : List Turn) (timers timers' : List Timer) (p p' : Pool Timer)
    → Reach n p
    → conc_tick turns timers p ≡ some (timers', p')
    → ((due : List Timer) × (timers ≡ due ++ timers')
        × (p'.enqueued ≡ p.enqueued ++ due)
        × IsDue turns due timers')
      × (rest_jobs timers' p' +ℤ pos p'.ended ≡ rest_jobs timers p +ℤ pos p.ended)
      × Reach n p'
rest_jobs-conc_tick n turns timers timers' p p' r h =
    let k = conc_tick-Handed n turns timers p timers' p' r h in
    let same : length timers' + length p'.enqueued ≡ length timers + length p.enqueued = omega (
      arith,
      ap length k.split,
      ap length k.enqueued,
      length-append k.due timers',
      length-append p.enqueued k.due,
    ) in
    (
      (k.due, k.split, k.enqueued, k.timely),
      rest_jobs-Reach n timers' p' k.reached
          ∙ ap (λ (m : ℕ). pos m +ℤ negsuc 0) same
          ∙ sym (rest_jobs-Reach n timers p r),
      k.reached,
    )
