-- ===== src/Timer/Turns.antt =====
-- What the turns of a tick of ConcTimerCaller do to the jobs that were left to its pool.
use gdfile_store.Base.{
  ℕ, suc, ◌≡◌, refl, sym, ap, ◌∙◌, inl, inr, Bool-cases, Option, none, some, List, [], ◌∷◌, ◌++◌,
  >>=-eq-some, get_elem?,
}
use gdfile_store.Base.Int.{negsuc, ◌+ℤ◌}
use gdfile_store.Base.Sums.{put_at}
use gdfile_store.ThreadPool.{
  Pool, Worker, ready, running, asleep, exited, notify_one, enqueue, is_asleep, is_exited, all_of,
  none_of, look, work_at, work, wake, raise_flag, notify_all, join_all, active, Event, enqueue_job,
  work_on, wake_up, activate, flag, notify, join, step,
}
use gdfile_store.Timer.{Timer}
use gdfile_store.Timer.Conc.{of_pool}

pub enqueue-enqueued :
    (t : Timer) (woken : Option ℕ) (p p' : Pool Timer)
    → enqueue t woken p ≡ some p'
    → p'.enqueued ≡ p.enqueued ++ t ∷ []
unfolding enqueue notify_one
enqueue-enqueued t none p p' h = elim (Bool-cases (none_of is_asleep p.workers)) [
  | inl e ↦
      let found : record p { jobs = p.jobs ++ t ∷ []; enqueued = p.enqueued ++ t ∷ [] } ≡ p' =
        cc (rw e at h) in
      ap (λ (q : Pool Timer). q.enqueued) (sym found)
  | inr e ↦ absurd (cc (rw e at h))
]
enqueue-enqueued t (some i) p p' h =
    let (w, e, r) = >>=-eq-some (get_elem? p.workers i) _ h in
    elim (Bool-cases (is_asleep w)) [
      | inl a ↦
          let found : record p {
            jobs = p.jobs ++ t ∷ [];
            enqueued = p.enqueued ++ t ∷ [];
            workers = put_at i ready p.workers;
          }
              ≡ p' =
            cc (rw a at r) in
          ap (λ (q : Pool Timer). q.enqueued) (sym found)
      | inr a ↦ absurd (cc (rw a at r))
    ]

look-enqueued : (i : ℕ) (jobs : List Timer) (p : Pool Timer) → (look i jobs p).enqueued ≡ p.enqueued
unfolding look
look-enqueued i [] p = elim (Bool-cases p.shutdown) [ inl e ↦ rw e refl | inr e ↦ rw e refl ]
look-enqueued i (job ∷ jobs) p = refl

work_at-enqueued :
    (i : ℕ) (w : Worker Timer) (p p' : Pool Timer)
    → work_at i w p ≡ some p'
    → p'.enqueued ≡ p.enqueued
unfolding work_at
work_at-enqueued i ready p p' h =
    let found : look i p.jobs p ≡ p' = cc in
    ap (λ (q : Pool Timer). q.enqueued) (sym found) ∙ look-enqueued i p.jobs p
work_at-enqueued i (running job) p p' h =
    let found : record p {
      workers = put_at i ready p.workers;
      busy = p.busy +ℤ negsuc 0;
      ended = suc p.ended;
    }
        ≡ p' =
      cc in
    ap (λ (q : Pool Timer). q.enqueued) (sym found)
work_at-enqueued i asleep p p' h = absurd (cc)
work_at-enqueued i exited p p' h = absurd (cc)

pub of_pool-enqueued :
    (e : Event Timer) (p p' : Pool Timer) → of_pool e p ≡ some p' → p'.enqueued ≡ p.enqueued
unfolding step work wake raise_flag notify_all join_all active
of_pool-enqueued (enqueue_job job woken) p p' h = absurd (cc)
of_pool-enqueued (work_on i) p p' h =
    let (w, e, r) = >>=-eq-some (get_elem? p.workers i) _ h in work_at-enqueued i w p p' r
of_pool-enqueued (wake_up i) p p' h =
    let (w, e, r) = >>=-eq-some (get_elem? p.workers i) _ h in
    elim (Bool-cases (is_asleep w)) [
      | inl a ↦
          let found : record p { workers = put_at i ready p.workers } ≡ p' = cc (rw a at r) in
          ap (λ (q : Pool Timer). q.enqueued) (sym found)
      | inr a ↦ absurd (cc (rw a at r))
    ]
of_pool-enqueued flag p p' h =
    let found : raise_flag p ≡ p' = cc in ap (λ (q : Pool Timer). q.enqueued) (sym found)
of_pool-enqueued notify p p' h =
    let found : notify_all p ≡ p' = cc in ap (λ (q : Pool Timer). q.enqueued) (sym found)
of_pool-enqueued join p p' h = elim (Bool-cases (all_of is_exited p.workers)) [
  | inl a ↦
      let found : record p { workers = [] } ≡ p' = cc (rw a at h) in
      ap (λ (q : Pool Timer). q.enqueued) (sym found)
  | inr a ↦ absurd (cc (rw a at h))
]
of_pool-enqueued (activate n) p p' h =
    let found : active n p ≡ p' = cc in ap (λ (q : Pool Timer). q.enqueued) (sym found)

pub of_pool-step :
    (e : Event Timer) (p p' : Pool Timer) → of_pool e p ≡ some p' → step e p ≡ some p'
of_pool-step (enqueue_job job woken) p p' h = absurd (cc)
of_pool-step (work_on i) p p' h = h
of_pool-step (wake_up i) p p' h = h
of_pool-step flag p p' h = h
of_pool-step notify p p' h = h
of_pool-step join p p' h = h
of_pool-step (activate n) p p' h = h
