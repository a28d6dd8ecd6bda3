-- ===== src/Timer/Late.antt =====
-- A caller that is made in a TimerCallerGroup is not active, and its timers are not called.
use gdfile_store.Base.{
  ℕ, ◌≡◌, inl, inr, refl, sym, ap, ◌∙◌, ◌&&◌, Bool, true, false, Bool-cases, none, some, List, [],
  ◌∷◌, ◌>>=◌, >>=-eq-some, bytes_eq, bytes_eq_self, map,
}
use gdfile_store.Base.Int.{ℤ, leb_ℤ}
use gdfile_store.KeyValue.Assoc.{find, assign, find-assign_self}
use gdfile_store.Timer.{Timer, TimerCaller, tick, tick_from}
use gdfile_store.Timer.Group.{
  Group, active, set_actived, new_caller, get_caller, tick_all, tick_group,
}

not_due : (b : Bool) → (b && false) ≡ false
not_due true = refl
not_due false = refl

tick_from-inactive :
    (clock : List ℤ) (timers : List Timer) (called : List ℕ) (c : TimerCaller)
    → tick_from clock [] timers false called ≡ some c
    → c ≡ record { timers = timers; actived = false; called = called }
unfolding tick_from
tick_from-inactive clock [] called c run = cc
tick_from-inactive [] (t ∷ timers) called c run = absurd (cc)
tick_from-inactive (now ∷ clock) (t ∷ timers) called c run =
    let same = rw (not_due (leb_ℤ t.when now)) at run in cc

tick-inactive :
    (clock : List ℤ) (c c' : TimerCaller) → c.actived ≡ false → tick clock c ≡ some c' → c' ≡ c
unfolding tick
tick-inactive clock c c' idle run =
    tick_from-inactive clock c.timers c.called c' (rw idle at run)
    ∙ ap (λ (b : Bool). record { timers = c.timers; actived = b; called = c.called }) (sym idle)

tick_all-inactive :
    (name : List ℕ) (c : TimerCaller) (clocks : List (List ℤ))
    (callers callers' : List (List ℕ × TimerCaller))
    → c.actived ≡ false
    → find bytes_eq name callers ≡ some c
    → tick_all clocks callers ≡ some callers'
    → find bytes_eq name callers' ≡ some c
unfolding tick_all find
tick_all-inactive name c clocks [] callers' idle found run = absurd (cc)
tick_all-inactive name c [] (entry ∷ callers) callers' idle found run = absurd (cc)
tick_all-inactive name c (clock ∷ clocks) ((n, d) ∷ callers) callers' idle found run =
    let (d', e, r) = >>=-eq-some (tick clock d) _ run in
    let (rest, e', r') = >>=-eq-some (tick_all clocks callers) _ r in
    let made : (n, d') ∷ rest ≡ callers' = cc in
    elim (Bool-cases (bytes_eq n name)) [
      | inl here ↦
          let same : d ≡ c = cc (rw here at found) in
          let kept = tick-inactive clock d d' (rw same idle) e in
          rw (← made, find, here, kept, same)
      | inr there ↦
          rw (← made, find, there)
            (tick_all-inactive name c clocks callers rest idle (rw there at found) e')
    ]

find-set_actived :
    (b : Bool) (name : List ℕ) (callers : List (List ℕ × TimerCaller))
    → find bytes_eq name (map (set_actived b) callers)
      ≡ (find bytes_eq name callers >>= λ (c : TimerCaller). some (record c { actived = b }))
unfolding find
find-set_actived b name [] = refl
find-set_actived b name ((n, c) ∷ callers) = elim (Bool-cases (bytes_eq n name)) [
  | inl here ↦ rw here
  | inr there ↦ rw there (find-set_actived b name callers)
]

-- The map of an active group, with a caller that was made since and has got timers.
abbrev pub joined : ℤ → List ℕ → List Timer → Group → Group
joined latest name timers g =
    let made = (get_caller latest name true (active g)).1 in
    record made {
      callers = assign bytes_eq name (record (new_caller latest) { timers = timers }) made.callers;
    }

-- Making a group active makes every caller of it active. GetCaller then answers, for a name that is
-- not there, a caller that is not: whatever timers are added to it, a tick of the group leaves them
-- all in its list and calls none of them.
pub tick_group-get_caller :
    (latest : ℤ) (name : List ℕ) (g g' : Group) (timers : List Timer) (clocks : List (List ℤ))
    → find bytes_eq name g.callers ≡ none
    → tick_group clocks (joined latest name timers g) ≡ some g'
    → ((k : List ℕ) (c : TimerCaller)
        → find bytes_eq k g.callers ≡ some c
        → find bytes_eq k (active g).callers ≡ some (record c { actived = true }))
      × ((get_caller latest name true (active g)).0 ≡ some (new_caller latest))
      × (find bytes_eq name g'.callers ≡ some (record (new_caller latest) { timers = timers }))
unfolding tick_group get_caller active
tick_group-get_caller latest name g g' timers clocks absent run =
    let gone : find bytes_eq name (map (set_actived true) g.callers) ≡ none =
      rw (find-set_actived true name g.callers, absent) refl in
    let late : TimerCaller = record (new_caller latest) { timers = timers } in
    let (callers, e, r) =
      >>=-eq-some (tick_all clocks (joined latest name timers g).callers) _ run in
    let made : record (joined latest name timers g) { callers = callers } ≡ g' = cc in
    (
      λ k c found. rw (find-set_actived true k g.callers, found) refl,
      rw gone refl,
      sym (ap (λ (h : Group). find bytes_eq name h.callers) made)
          ∙ tick_all-inactive name late clocks (joined latest name timers g).callers callers refl
              (find-assign_self bytes_eq name late
                (get_caller latest name true (active g)).1.callers (bytes_eq_self name))
              e,
    )
