-- ===== src/ThreadPool/Counts.antt =====
-- How many workers are where, and what the steps of the pool make of these numbers.
use gdfile_store.Base.{ℕ, zero, suc, ◌+◌, ◌≡◌, refl, true, List, [], ◌∷◌, map, arith, length}
use gdfile_store.Base.Sums.{sum_by}
use gdfile_store.ThreadPool.{
  Worker, ready, asleep, exited, running, rouse, new_workers, is_asleep, is_exited, all_of, none_of,
}

module _ {A : Type 0} where
  abbrev pub readies : Worker A → ℕ
  readies ready = 1
  readies _ = 0

  abbrev pub sleepers : Worker A → ℕ
  sleepers asleep = 1
  sleepers _ = 0

  abbrev pub runners : Worker A → ℕ
  runners (running job) = 1
  runners _ = 0

  abbrev pub leavers : Worker A → ℕ
  leavers exited = 1
  leavers _ = 0

  -- Every worker is at one of the four places.
  pub sum_by-places :
      (ws : List (Worker A))
      → sum_by readies ws + sum_by sleepers ws + sum_by runners ws + sum_by leavers ws ≡ length ws
  unfolding sum_by
  sum_by-places [] = refl
  sum_by-places (ready ∷ ws) = omega (arith, sum_by-places ws)
  sum_by-places (asleep ∷ ws) = omega (arith, sum_by-places ws)
  sum_by-places (exited ∷ ws) = omega (arith, sum_by-places ws)
  sum_by-places (running job ∷ ws) = omega (arith, sum_by-places ws)

  -- After notify_all nobody sleeps.
  pub sleepers-rouse : (ws : List (Worker A)) → sum_by sleepers (map rouse ws) ≡ 0
  unfolding sum_by
  sleepers-rouse [] = refl
  sleepers-rouse (ready ∷ ws) = omega (arith, sleepers-rouse ws)
  sleepers-rouse (asleep ∷ ws) = omega (arith, sleepers-rouse ws)
  sleepers-rouse (exited ∷ ws) = omega (arith, sleepers-rouse ws)
  sleepers-rouse (running job ∷ ws) = omega (arith, sleepers-rouse ws)

  pub runners-rouse : (ws : List (Worker A)) → sum_by runners (map rouse ws) ≡ sum_by runners ws
  unfolding sum_by
  runners-rouse [] = refl
  runners-rouse (ready ∷ ws) = omega (arith, runners-rouse ws)
  runners-rouse (asleep ∷ ws) = omega (arith, runners-rouse ws)
  runners-rouse (exited ∷ ws) = omega (arith, runners-rouse ws)
  runners-rouse (running job ∷ ws) = omega (arith, runners-rouse ws)

  pub none_of-asleep : (ws : List (Worker A)) → none_of is_asleep ws ≡ true → sum_by sleepers ws ≡ 0
  unfolding sum_by
  none_of-asleep [] h = refl
  none_of-asleep (ready ∷ ws) h = omega (arith, none_of-asleep ws h)
  none_of-asleep (asleep ∷ ws) h = absurd (cc)
  none_of-asleep (exited ∷ ws) h = omega (arith, none_of-asleep ws h)
  none_of-asleep (running job ∷ ws) h = omega (arith, none_of-asleep ws h)

  pub all_of-exited : (ws : List (Worker A)) → all_of is_exited ws ≡ true → sum_by runners ws ≡ 0
  unfolding sum_by
  all_of-exited [] h = refl
  all_of-exited (ready ∷ ws) h = absurd (cc)
  all_of-exited (asleep ∷ ws) h = absurd (cc)
  all_of-exited (exited ∷ ws) h = omega (arith, all_of-exited ws h)
  all_of-exited (running job ∷ ws) h = absurd (cc)

  -- A worker for which a test holds is known by its counts.
  pub asleep_counts :
      (w : Worker A)
      → is_asleep w ≡ true
      → (readies w ≡ 0) × (sleepers w ≡ 1) × (runners w ≡ 0) × (leavers w ≡ 0)
  asleep_counts ready h = absurd (cc)
  asleep_counts asleep h = (refl, refl, refl, refl)
  asleep_counts exited h = absurd (cc)
  asleep_counts (running job) h = absurd (cc)

pub new_workers_counts :
    (A : Type 0) (n : ℕ)
    → (sum_by sleepers (new_workers {A = A} n) ≡ 0) × (sum_by runners (new_workers {A = A} n) ≡ 0)
unfolding sum_by
new_workers_counts A zero = (refl, refl)
new_workers_counts A (suc n) =
    let rest = new_workers_counts A n in (omega (arith, rest.0), omega (arith, rest.1))
