-- ===== src/Timer/Repeat.antt =====
-- How often a timer that repeats calls its task, over several ticks.
use native.Mathlib.Nat.{add-mul}
use gdfile_store.Base.{
  ℕ, zero, suc, ◌+◌, ◌-◌, ◌*◌, ◌≤◌, ◌<◌, ◌≡◌, refl, sym, ap, ◌∙◌, inl, inr, true, false, Bool-cases,
  Option, Option-cases, All-split, some, List, [], ◌∷◌, ◌++◌, ◌>>=◌, map, append_assoc, append-nil,
  arith, leb, length, All,
}
use gdfile_store.Base.Int.{ℤ, pos, pos-add, pos-sub, ltb_ℤ, leb_ℤ}
use gdfile_store.Timer.{
  After, Timer, TimerCaller, nothing, repeats, Place, new_repeating, insert_timer, add_timer,
  add_at, next_timer, run_after, tick_from, tick,
}
use gdfile_store.Timer.Calls.{
  times, times-add, ticks, calls, calls_in, calls-le, shifted, calls_in-late, fewer,
}

run_after-repeats :
    (round : ℤ) (t : Timer) (p : Place)
    → ltb_ℤ (pos 1) t.repeatation ≡ true
    → run_after (repeats round nothing) t p true ≡ (add_at (next_timer round t) p, true)
unfolding run_after
run_after-repeats round t p h = rw h

module _ (task r horizon : ℕ) (sentinel : Timer) (latest : sentinel.when ≡ pos horizon) where
  -- The timer with `k` calls to come.
  pub repeating : ℕ → ℕ → Timer
  repeating w k = record {
    task = some task;
    after_task = repeats (pos r) nothing;
    when = pos w;
    round = pos r;
    repeatation = pos k;
  }

  -- The caller's list with `m` calls to come, the first at `w`.
  abbrev pub waiting : ℕ → ℕ → List Timer
  waiting w zero = sentinel ∷ []
  waiting w (suc m) = repeating w (suc m) ∷ sentinel ∷ []

  abbrev pub caller : ℕ → ℕ → List ℕ → TimerCaller
  caller w m called = record { timers = waiting w m; actived = true; called = called }

  caller-alike :
      {w w' m m' : ℕ} {called called' : List ℕ}
      → w ≡ w'
      → m ≡ m'
      → called ≡ called'
      → ◌≡◌ {A = Option TimerCaller} (some (caller w m called)) (some (caller w' m' called'))
  caller-alike {w = w} {m = m} {called = called} e f g = rw (← e, ← f, ← g) refl

  next-repeating : (w k : ℕ) → next_timer (pos r) (repeating w (suc k)) ≡ repeating (w + r) k
  unfolding repeating
  next-repeating w k = rw (pos-add w r, pos-sub (suc k) 1 (omega arith)) (ground arith)

  abbrev place : ℕ → ℕ → Place
  place w k = record { front = []; here = repeating w k; back = sentinel ∷ [] }

  add-next :
      (w k : ℕ)
      → w + r < horizon
      → add_at (repeating (w + r) k) (place w (suc k))
        ≡ record (place w (suc k)) { back = repeating (w + r) k ∷ sentinel ∷ [] }
  unfolding add_at add_timer insert_timer repeating
  add-next w k h =
      let before : ltb_ℤ (pos (w + r)) sentinel.when ≡ true = rw latest (ground arith) in
      let behind : ltb_ℤ (pos (w + r)) (pos w) ≡ false = ground arith in rw (behind, before)

  abbrev go_on : After
  go_on = repeats (pos r) nothing

  run_after-last :
      (w : ℕ)
      → run_after go_on (repeating w 1) (place w 1) true
        ≡ (record (place w 1) { back = sentinel ∷ [] }, true)
  unfolding run_after repeating
  run_after-last w = refl

  -- What the wrapper of SetRepeat leaves behind the timer that is called.
  run_after-repeating :
      (w m : ℕ)
      → w + m * r < horizon
      → run_after go_on (repeating w (suc m)) (place w (suc m)) true
        ≡ (record (place w (suc m)) { back = waiting (w + r) m }, true)
  run_after-repeating w zero h = run_after-last w
  run_after-repeating w (suc m) h =
      let more : ltb_ℤ (pos 1) (pos (suc (suc m))) ≡ true = ground arith in
      run_after-repeats (pos r) (repeating w (suc (suc m))) _ (unfold repeating in more)
      ∙ ap (λ (p : Place). (p, true))
          (ap (λ (t : Timer). add_at t (place w (suc (suc m)))) (next-repeating w (suc m))
            ∙ add-next w (suc m) (omega arith))

  -- A timer that is due is called, and the loop goes on behind it.
  tick_from-due :
      (w m now : ℕ) (clock : List ℤ) (called : List ℕ)
      → w ≤ now
      → w + m * r < horizon
      → tick_from (pos now ∷ clock) [] (repeating w (suc m) ∷ sentinel ∷ []) true called
        ≡ tick_from clock [] (waiting (w + r) m) true (called ++ task ∷ [])
  unfolding tick_from repeating
  tick_from-due w m now clock called h room =
      let due : leb_ℤ (pos w) (pos now) ≡ true = ground arith in
      rw (due, run_after-repeating w m room)

  tick_from-early :
      (w m now : ℕ) (clock : List ℤ) (called : List ℕ)
      → now < w
      → tick_from (pos now ∷ clock) [] (repeating w (suc m) ∷ sentinel ∷ []) true called
        ≡ some (caller w (suc m) called)
  unfolding tick_from repeating
  tick_from-early w m now clock called h =
      let early : leb_ℤ (pos w) (pos now) ≡ false = ground arith in rw early

  tick_from-sentinel :
      (now : ℕ) (clock : List ℤ) (called : List ℕ)
      → now < horizon
      → tick_from (pos now ∷ clock) [] (sentinel ∷ []) true called ≡ some (caller 0 0 called)
  unfolding tick_from
  tick_from-sentinel now clock called h =
      let not_due : leb_ℤ sentinel.when (pos now) ≡ false = rw latest (ground arith) in rw not_due

  -- One tick, reading by reading.
  tick_from-waiting :
      (m w : ℕ) (clock called : List ℕ)
      → w + m * r < horizon
      → All (λ (now : ℕ). now < horizon) clock
      → calls r w m clock < length clock
      → tick_from (map pos clock) [] (waiting w m) true called
        ≡ some (
            caller
              (w + calls r w m clock * r)
              (m - calls r w m clock)
              (called ++ times (calls r w m clock) task))
  tick_from-waiting m w [] called room before enough = absurd (omega arith)
  tick_from-waiting zero w (now ∷ clock) called room before enough =
      tick_from-sentinel now (map pos clock) called before.0
      ∙ ap (λ (done : List ℕ). some (caller 0 0 done)) (sym (append-nil called))
  tick_from-waiting (suc m) w (now ∷ clock) called room before enough =
      elim (Bool-cases (leb w now)) [
        | inl e ↦
            let c = calls r (w + r) m clock in
            let there : w + r + c * r ≡ w + suc c * r = omega arith in
            rw e (
              tick_from-due w m now (map pos clock) called (ground arith) (omega arith)
              ∙ tick_from-waiting m (w + r) clock (called ++ task ∷ []) (omega arith) before.1
                  (omega (arith, rw e at enough))
              ∙ caller-alike there (omega arith) (append_assoc called (task ∷ []) (times c task)))
        | inr e ↦
            let here : w ≡ w + 0 * r = omega arith in
            let same : suc m ≡ suc m - 0 = omega arith in
            rw e (
              tick_from-early w m now (map pos clock) called (ground arith)
              ∙ caller-alike here same (sym (append-nil called)))
      ]

  -- Several ticks, each with a reading for every call that is to come and one more.
  ticks-waiting :
      (clocks : List (List ℕ)) (w m : ℕ) (called : List ℕ)
      → w + m * r < horizon
      → All (λ (clock : List ℕ). All (λ (now : ℕ). now < horizon) clock) clocks
      → All (λ (clock : List ℕ). m < length clock) clocks
      → ticks clocks (caller w m called)
        ≡ some (
            caller
              (w + calls_in r w m clocks * r)
              (m - calls_in r w m clocks)
              (called ++ times (calls_in r w m clocks) task))
  unfolding tick
  ticks-waiting [] w m called room before enough =
      let here : w ≡ w + 0 * r = omega arith in
      caller-alike here (omega arith) (sym (append-nil called))
  ticks-waiting (clock ∷ clocks) w m called room before enough =
      let c = calls r w m clock in
      let below : c ≤ m = calls-le r w m clock in
      let w' = w + c * r in
      let m' = m - c in
      let d = calls_in r w' m' clocks in
      let there : w' + d * r ≡ w + (c + d) * r = omega (arith, add-mul c d r) in
      let less : m' - d ≡ m - (c + d) = omega arith in
      rw (tick_from-waiting m w clock called room before.0 (omega (arith, enough.0))) (
        ticks-waiting clocks w' m' (called ++ times c task) (omega (arith, shifted r w m c below))
          before.1 (fewer m m' (omega (arith, below)) clocks enough.1)
        ∙ caller-alike there less (
            append_assoc called (times c task) (times d task)
            ∙ ap (λ (ts : List ℕ). called ++ ts) (times-add c d task)))

  ticks-append :
      (clocks clocks' : List (List ℕ)) (c : TimerCaller)
      → ticks (clocks ++ clocks') c ≡ (ticks clocks c >>= ticks clocks')
  ticks-append [] clocks' c = refl
  ticks-append (clock ∷ clocks) clocks' c = elim (Option-cases (tick (map pos clock) c)) [
    | inl e ↦ rw e
    | inr (c', e) ↦ rw e (ticks-append clocks clocks' c')
  ]

  -- The caller with the timer as its constructor makes it.
  abbrev pub with_new : ℕ → ℕ → List ℕ → TimerCaller
  with_new w n called = record {
    timers = new_repeating (some task) (pos w) (pos r) (pos n) nothing ∷ sentinel ∷ [];
    actived = true;
    called = called;
  }

  with_new-caller :
      (w k : ℕ) (called : List ℕ) → with_new w (suc (suc k)) called ≡ caller w (suc (suc k)) called
  unfolding new_repeating repeating
  with_new-caller w k called =
      let many : leb_ℤ (pos (suc (suc k))) (pos 1) ≡ false = ground arith in rw many refl

  last_due :
      (w k : ℕ) (clock : List ℕ)
      → All (λ (now : ℕ). w + suc k * r ≤ now) clock
      → All (λ (now : ℕ). w + suc (suc k) * r ≤ now + r) clock
  last_due w k [] late = tt
  last_due w k (now ∷ clock) late = (omega (arith, late.0), last_due w k clock late.1)

  module _ (w k : ℕ) (called : List ℕ) (earlier later : List (List ℕ)) (clock : List ℕ)
      (room : w + suc (suc k) * r < horizon)
      (before : All
        (λ (readings : List ℕ). All (λ (now : ℕ). now < horizon) readings)
        (earlier ++ clock ∷ later))
      (enough : All
        (λ (readings : List ℕ). suc (suc k) < length readings)
        (earlier ++ clock ∷ later))
      (late : All (λ (now : ℕ). w + suc k * r ≤ now) clock) where
    -- A timer that is to repeat `suc (suc k)` times, the first time at `w` and then every `r`, is
    -- alone with the sentinel, has no other task behind its own, and comes to no time as late as the
    -- sentinel's. The caller ticks, with any readings of the clock before the sentinel's time, and
    -- with one more in each tick than there are calls. After any ticks the task has been called as
    -- often as its times were reached, each reading allowing one call and a tick ending at the first
    -- that allows none. Once one tick has all its readings at the last call's time or later, the task
    -- has been called exactly as often as it is to repeat, and only the sentinel is left, whatever
    -- ticks come after it.
    pub ticks-new_repeating :
        (ticks earlier (with_new w (suc (suc k)) called)
          ≡ some (
              caller
                (w + calls_in r w (suc (suc k)) earlier * r)
                (suc (suc k) - calls_in r w (suc (suc k)) earlier)
                (called ++ times (calls_in r w (suc (suc k)) earlier) task)))
        × (ticks (earlier ++ clock ∷ later) (with_new w (suc (suc k)) called)
            ≡ some (record {
              timers = sentinel ∷ [];
              actived = true;
              called = called ++ times (suc (suc k)) task;
            }))
    ticks-new_repeating =
        let n = suc (suc k) in
        let all = earlier ++ clock ∷ later in
        let (enough_before, in_clock) = All-split _ earlier (clock ∷ later) enough in
        let (before_horizon, rest) = All-split _ earlier (clock ∷ later) before in
        let done : calls_in r w n all ≡ n =
          calls_in-late r w n earlier clock later (omega (arith, in_clock.0))
            (last_due w k clock late) in
        let over : n - calls_in r w n all ≡ 0 = omega (arith, done) in
        let new = with_new-caller w k called in
        (
          ap (ticks earlier) new
              ∙ ticks-waiting earlier w n called room before_horizon enough_before,
          ap (ticks all) new
              ∙ ticks-waiting all w n called room before enough
              ∙ caller-alike {w' = w + calls_in r w n all * r} {m' = 0} refl over
                  (ap (λ (j : ℕ). called ++ times j task) done),
        )
