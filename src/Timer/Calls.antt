-- ===== src/Timer/Calls.antt =====
-- Ticks of src/deps/timer.cpp one after the other, and how many calls of a timer that repeats fall
-- into them.
use mathlib.Core.Path.{subst}
use native.Mathlib.Nat.{add-mul}
use gdfile_store.Base.{
  ℕ, zero, suc, ◌+◌, ◌-◌, ◌*◌, ◌≤◌, ◌<◌, ◌≡◌, refl, sym, ap, ◌∙◌, true, Option, some, List, [], ◌∷◌,
  ◌++◌, ◌>>=◌, map, arith, leb, le→leb, length, All, if◌then◌else◌,
}
use gdfile_store.Base.Int.{pos}
use gdfile_store.Timer.{TimerCaller, tick}

abbrev pub times : {A : Type 0} → ℕ → A → List A
times zero a = []
times (suc n) a = a ∷ times n a

pub times-add : {A : Type 0} (m n : ℕ) (a : A) → times m a ++ times n a ≡ times (m + n) a
times-add zero n a = let same : n ≡ 0 + n = omega arith in ap (λ (k : ℕ). times k a) same
times-add (suc m) n a =
    let same : suc (m + n) ≡ suc m + n = omega arith in
    ap (◌∷◌ a) (times-add m n a) ∙ ap (λ (k : ℕ). times k a) same

-- Several ticks, one after the other, each with its readings of the clock.
abbrev pub ticks : List (List ℕ) → TimerCaller → Option TimerCaller
ticks [] c = some c
ticks (clock ∷ clocks) c = tick (map pos clock) c >>= ticks clocks

-- How many calls a timer with `m` calls to come, the first at `w`, makes in one tick, and in several.
abbrev pub calls : ℕ → ℕ → ℕ → List ℕ → ℕ
calls r w zero clock = 0
calls r w (suc m) [] = 0
calls r w (suc m) (now ∷ clock) =
    let rest = calls r (w + r) m clock in if leb w now then suc rest else 0

abbrev pub calls_in : ℕ → ℕ → ℕ → List (List ℕ) → ℕ
calls_in r w m [] = 0
calls_in r w m (clock ∷ clocks) =
    let c = calls r w m clock in c + calls_in r (w + c * r) (m - c) clocks

pub calls-le : (r w m : ℕ) (clock : List ℕ) → calls r w m clock ≤ m
calls-le r w zero clock = omega arith
calls-le r w (suc m) [] = omega arith
calls-le r w (suc m) (now ∷ clock) = ground (arith, calls-le r (w + r) m clock)

-- Every reading is at the last call's time or later.
calls-late :
    (r w m : ℕ) (clock : List ℕ)
    → m ≤ length clock
    → All (λ (now : ℕ). w + m * r ≤ now + r) clock
    → calls r w m clock ≡ m
calls-late r w zero clock h late = refl
calls-late r w (suc m) [] h late = absurd (omega arith)
calls-late r w (suc m) (now ∷ clock) h late =
    let shift : w + suc m * r ≡ w + r + m * r = omega arith in
    let due : leb w now ≡ true = le→leb w now (omega (arith, late.0)) in
    rw due (
      ap suc (
        calls-late r (w + r) m clock (omega arith)
          (subst (λ (k : ℕ). All (λ (x : ℕ). k ≤ x + r) clock) shift late.1)))

pub shifted : (r w m c : ℕ) → c ≤ m → w + c * r + (m - c) * r ≡ w + m * r
shifted r w m c h =
    let back : c + (m - c) ≡ m = omega arith in
    let whole : (c + (m - c)) * r ≡ m * r = ap (λ (k : ℕ). k * r) back in
    omega (arith, whole, add-mul c (m - c) r)

calls_in-none : (r w : ℕ) (clocks : List (List ℕ)) → calls_in r w 0 clocks ≡ 0
calls_in-none r w [] = refl
calls_in-none r w (clock ∷ clocks) = omega (arith, calls_in-none r (w + 0 * r) clocks)

-- One tick among several has all its readings at the last call's time or later.
pub calls_in-late :
    (r w m : ℕ) (earlier : List (List ℕ)) (clock : List ℕ) (later : List (List ℕ))
    → m ≤ length clock
    → All (λ (now : ℕ). w + m * r ≤ now + r) clock
    → calls_in r w m (earlier ++ clock ∷ later) ≡ m
calls_in-late r w m [] clock later h late =
    let all = calls-late r w m clock h late in
    let over : m - m ≡ 0 = omega arith in
    rw (all, over) (omega (arith, calls_in-none r (w + m * r) later))
calls_in-late r w m (first ∷ earlier) clock later h late =
    let c = calls r w m first in
    let below : c ≤ m = calls-le r w m first in
    omega (
      arith,
      below,
      calls_in-late r (w + c * r) (m - c) earlier clock later (omega (arith, below))
          (subst (λ (k : ℕ). All (λ (x : ℕ). k ≤ x + r) clock) (sym (shifted r w m c below)) late),
    )

pub fewer :
    (m m' : ℕ)
    → m' ≤ m
    → (clocks : List (List ℕ)) → All (λ (clock : List ℕ). m < length clock) clocks
    → All (λ (clock : List ℕ). m' < length clock) clocks
fewer m m' h [] enough = tt
fewer m m' h (clock ∷ clocks) enough = (omega (arith, enough.0), fewer m m' h clocks enough.1)
