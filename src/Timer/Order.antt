-- ===== src/Timer/Order.antt =====
-- AddTimer keeps the timers in the order of their times, and drops one that none is later than.
use gdfile_store.Base.{
  ◌≡◌, ◌⊎◌, inl, inr, refl, ap, true, false, Bool-cases, Option, none, some, List, [], ◌∷◌, ◌++◌,
  arith, All,
}
use gdfile_store.Base.Int.{ℤ, ltb_ℤ}
use gdfile_store.Timer.{Timer, insert_timer, add_timer}

abbrev pub NotAfter : ℤ → List Timer → Type 0
NotAfter z xs = All (λ (x : Timer). ltb_ℤ z x.when ≡ false) xs

abbrev pub NotBefore : ℤ → List Timer → Type 0
NotBefore z xs = All (λ (x : Timer). ltb_ℤ x.when z ≡ false) xs

-- No timer has a later one in front of it.
abbrev pub Ordered : List Timer → Type 0
Ordered [] = Unit {0}
Ordered (x ∷ xs) = NotBefore x.when xs × Ordered xs

abbrev Inserted : Timer → List Timer → Option (List Timer) → Type 0
Inserted t xs r =
    ((r ≡ none) × NotAfter t.when xs)
    ⊎ ((front back : List Timer) × (next : Timer) × (xs ≡ front ++ next ∷ back)
        × (r ≡ some (front ++ t ∷ next ∷ back))
        × NotAfter t.when front
        × (ltb_ℤ t.when next.when ≡ true))

insert_timer-Inserted : (t : Timer) (xs : List Timer) → Inserted t xs (insert_timer t xs)
unfolding insert_timer
insert_timer-Inserted t [] = inl (refl, tt)
insert_timer-Inserted t (x ∷ xs) = elim (Bool-cases (ltb_ℤ t.when x.when)) [
  | inl e ↦ inr ([], xs, x, refl, rw e, tt, e)
  | inr e ↦ elim (insert_timer-Inserted t xs) [
    | inl (run, all) ↦ inl (rw (e, run), (e, all))
    | inr (front, back, next, split, run, all, lt) ↦
        inr (x ∷ front, back, next, ap (◌∷◌ x) split, rw (e, run), (e, all), lt)
  ]
]

NotBefore-weaken : (y z : ℤ) (xs : List Timer) → ltb_ℤ y z ≡ true → NotBefore z xs → NotBefore y xs
NotBefore-weaken y z [] h n = tt
NotBefore-weaken y z (x ∷ xs) h n = (ground arith, NotBefore-weaken y z xs h n.1)

All-insert :
    (P : Timer → Type 0) (t : Timer) (front back : List Timer)
    → P t
    → All P (front ++ back)
    → All P (front ++ t ∷ back)
All-insert P t [] back h all = (h, all)
All-insert P t (x ∷ front) back h all = (all.0, All-insert P t front back h all.1)

Ordered-insert :
    (t next : Timer) (front back : List Timer)
    → NotAfter t.when front
    → ltb_ℤ t.when next.when ≡ true
    → Ordered (front ++ next ∷ back)
    → Ordered (front ++ t ∷ next ∷ back)
Ordered-insert t next [] back all lt h =
    ((ground arith, NotBefore-weaken t.when next.when back lt h.0), h)
Ordered-insert t next (x ∷ front) back all lt h =
    (All-insert _ t front (next ∷ back) all.0 h.0, Ordered-insert t next front back all.1 lt h.1)

module _ (t : Timer) (xs : List Timer) (ordered : Ordered xs) where
  -- A timer goes behind all that are not later and in front of the first that is later, so timers
  -- of one time stay in the order in which they were added, and the list is in order again. Where
  -- none is later, not even the sentinel, the timer is lost and the list is as it was.
  pub add_timer-cases :
      Ordered (add_timer t xs)
      × (((add_timer t xs ≡ xs) × NotAfter t.when xs)
          ⊎ ((front back : List Timer) × (next : Timer) × (xs ≡ front ++ next ∷ back)
              × (add_timer t xs ≡ front ++ t ∷ next ∷ back)
              × NotAfter t.when front
              × (ltb_ℤ t.when next.when ≡ true)))
  unfolding add_timer
  add_timer-cases = elim (insert_timer-Inserted t xs) [
    | inl (run, all) ↦ (rw run ordered, inl (rw run, all))
    | inr (front, back, next, split, run, all, lt) ↦ (
      rw run (Ordered-insert t next front back all lt (rw split at ordered)),
      inr (front, back, next, split, rw run, all, lt),
    )
  ]
