-- ===== src/ThreadPool/Sound.antt =====
-- What holds of a pool at all times: the jobs are taken up once and in their order, the counter is
-- that of the jobs that run, and whoever could take up a job is awake.
use mathlib.Core.Path.{subst}
use gdfile_store.Base.{
  ℕ, suc, ◌+◌, ◌≤◌, ◌≡◌, ◌⊎◌, sym, ap, ◌∙◌, inl, inr, Bool-cases, true, Option, none, some, List,
  [], ◌∷◌, ◌++◌, append_assoc, >>=-eq-some, arith, length, length-append, get_elem?,
}
use gdfile_store.Base.Int.{pos}
use gdfile_store.Base.Sums.{put_at, sum_by, sum_by-put_at}
use gdfile_store.ThreadPool.Counts.{readies, sleepers, runners, none_of-asleep, asleep_counts}
use gdfile_store.ThreadPool.{Worker, ready, Pool, is_asleep, none_of, notify_one, enqueue, wake}

module _ {A : Type 0} where
  pub record Sound (p : Pool A) : Type 0 where
    pub in_order : p.taken ++ p.jobs ≡ p.enqueued
    pub counted : p.busy ≡ pos (sum_by runners p.workers)
    pub accounted : p.ended + sum_by runners p.workers ≡ length p.taken
    pub alert : (sum_by sleepers p.workers ≡ 0) ⊎ (length p.jobs ≤ sum_by readies p.workers)

  -- One worker has gone from one place to another.
  module _ (i : ℕ) (ws : List (Worker A)) (w w' : Worker A) (e : get_elem? ws i ≡ some w) where
    pub moved :
        (sum_by readies (put_at i w' ws) + readies w ≡ sum_by readies ws + readies w')
        × (sum_by sleepers (put_at i w' ws) + sleepers w ≡ sum_by sleepers ws + sleepers w')
        × (sum_by runners (put_at i w' ws) + runners w ≡ sum_by runners ws + runners w')
    moved = (
      sum_by-put_at readies i ws w w' e,
      sum_by-put_at sleepers i ws w w' e,
      sum_by-put_at runners i ws w w' e,
    )

  roused-Sound :
      (i : ℕ) (p : Pool A) (w : Worker A)
      → get_elem? p.workers i ≡ some w
      → is_asleep w ≡ true
      → p.taken ++ p.jobs ≡ p.enqueued
      → p.busy ≡ pos (sum_by runners p.workers)
      → p.ended + sum_by runners p.workers ≡ length p.taken
      → length p.jobs ≤ suc (sum_by readies p.workers)
      → Sound (record p { workers = put_at i ready p.workers })
  roused-Sound i p w e a order counted accounted alert =
      let m = moved i p.workers w ready e in
      let c = asleep_counts w a in
      let same : sum_by runners (put_at i ready p.workers) ≡ sum_by runners p.workers =
        omega (arith, m.2, c.2) in
      record {
        in_order = order;
        counted = rw same counted;
        accounted = rw same accounted;
        alert = inr (omega (arith, m.0, c.0));
      }

  -- A pool with a job more in the queue.
  abbrev with_job : A → Pool A → Pool A
  with_job job p = record p { jobs = p.jobs ++ job ∷ []; enqueued = p.enqueued ++ job ∷ [] }

  with_job-in_order :
      (job : A) (p : Pool A)
      → p.taken ++ p.jobs ≡ p.enqueued
      → p.taken ++ (p.jobs ++ job ∷ []) ≡ p.enqueued ++ job ∷ []
  with_job-in_order job p h =
      sym (append_assoc p.taken p.jobs (job ∷ [])) ∙ ap (λ (js : List A). js ++ job ∷ []) h

  -- Where somebody sleeps, the jobs are no more than those who are about to look.
  few_jobs :
      (i : ℕ) (p : Pool A) (w : Worker A)
      → get_elem? p.workers i ≡ some w
      → is_asleep w ≡ true
      → Sound p
      → length p.jobs ≤ sum_by readies p.workers
  few_jobs i p w e a s =
      let m = moved i p.workers w ready e in
      let c = asleep_counts w a in
      elim s.alert [
        | inl none_asleep ↦ absurd (omega (arith, m.1, c.1, none_asleep))
        | inr few ↦ few
      ]

  pub enqueue-Sound :
      (job : A) (woken : Option ℕ) (p p' : Pool A)
      → Sound p
      → enqueue job woken p ≡ some p'
      → Sound p'
  unfolding enqueue notify_one
  enqueue-Sound job none p p' s h = elim (Bool-cases (none_of is_asleep p.workers)) [
    | inl e ↦
        let found : with_job job p ≡ p' = cc (rw e at h) in
        subst Sound found (record {
          in_order = with_job-in_order job p s.in_order;
          counted = s.counted;
          accounted = s.accounted;
          alert = inl (none_of-asleep p.workers e);
        })
    | inr e ↦ absurd (cc (rw e at h))
  ]
  enqueue-Sound job (some i) p p' s h =
      let (w, e, r) = >>=-eq-some (get_elem? p.workers i) _ h in
      elim (Bool-cases (is_asleep w)) [
        | inl a ↦
            let found : record (with_job job p) { workers = put_at i ready p.workers } ≡ p' =
              cc (rw a at r) in
            let few = few_jobs i p w e a s in
            subst Sound found (
              roused-Sound i (with_job job p) w e a (with_job-in_order job p s.in_order) s.counted
                s.accounted (omega (arith, few, length-append p.jobs (job ∷ []))))
        | inr a ↦ absurd (cc (rw a at r))
      ]

  pub wake-Sound : (i : ℕ) (p p' : Pool A) → Sound p → wake i p ≡ some p' → Sound p'
  unfolding wake
  wake-Sound i p p' s h =
      let (w, e, r) = >>=-eq-some (get_elem? p.workers i) _ h in
      elim (Bool-cases (is_asleep w)) [
        | inl a ↦
            let found : record p { workers = put_at i ready p.workers } ≡ p' = cc (rw a at r) in
            let few = few_jobs i p w e a s in
            subst Sound found
              (roused-Sound i p w e a s.in_order s.counted s.accounted (omega (arith, few)))
        | inr a ↦ absurd (cc (rw a at r))
      ]
