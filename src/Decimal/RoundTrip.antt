-- ===== src/Decimal/RoundTrip.antt =====
-- std::stoul reads back what std::to_string writes.
use gdfile_store.Base.{
  ℕ, zero, suc, ◌+◌, ◌-◌, ◌*◌, ◌/◌, ◌%◌, ◌≤◌, ◌<◌, ◌≡◌, ap, ◌∙◌, true, false, Bool-cases, inl, inr,
  some, List, [], ◌∷◌, ◌++◌, arith, ltb, ◌==◌, lt→ltb, All, All-append,
}
use mathlib.Core.Path.{subst}
use gdfile_store.Decimal.{
  print_loop, print, is_digit, is_space, digits_from, read_digits, read_signed, stoul, ulong_mod,
}

-- More rounds than needed change nothing.
print_loop_fuel : (f g n : ℕ) → n < f → n < g → print_loop f n ≡ print_loop g n
unfolding print_loop
print_loop_fuel zero g n h k = absurd (omega arith)
print_loop_fuel (suc f) zero n h k = absurd (omega arith)
print_loop_fuel (suc f) (suc g) n h k = elim (Bool-cases (ltb n 10)) [
  | inl small ↦ rw small
  | inr large ↦ rw (large, print_loop_fuel f g (n / 10) (ground arith) (ground arith))
]

pub print_digit : (n : ℕ) → n < 10 → print n ≡ (48 + n) ∷ []
unfolding print
print_digit n h = rw (lt→ltb n 10 h)

pub print_more : (n : ℕ) → 10 ≤ n → print n ≡ print (n / 10) ++ (48 + n % 10) ∷ []
unfolding print
print_more n h =
    let large : ltb n 10 ≡ false = ground arith in
    rw (large, print_loop)
      (ap (λ (s : List ℕ). s ++ (48 + n % 10) ∷ [])
        (print_loop_fuel n (suc (n / 10)) (n / 10) (omega arith) (omega arith)))

abbrev pub IsDigits : List ℕ → Type 0
IsDigits s = All (λ (c : ℕ). is_digit c ≡ true) s

digits_from-append :
    (acc : ℕ) (s : List ℕ) (d : ℕ)
    → IsDigits s
    → d < 10
    → digits_from acc (s ++ (48 + d) ∷ []) ≡ digits_from acc s * 10 + d
unfolding digits_from
digits_from-append acc [] d h k =
    let digit : is_digit (48 + d) ≡ true = ground arith in rw digit (omega arith)
digits_from-append acc (c ∷ s) d h k = rw h.0 (digits_from-append (acc * 10 + (c - 48)) s d h.1 k)

-- What `print` writes: at least one digit, digits only, of value `n`.
abbrev pub Printed : ℕ → List ℕ → Type 0
Printed n [] = ⊥
Printed n (c ∷ s) = (is_digit c ≡ true) × IsDigits s × (digits_from 0 (c ∷ s) ≡ n)

Printed-more :
    (m : ℕ) (s : List ℕ) (d : ℕ) → d < 10 → Printed m s → Printed (m * 10 + d) (s ++ (48 + d) ∷ [])
Printed-more m [] d k h = absurd h
Printed-more m (c ∷ s) d k h = (
  h.0,
  All-append _ s ((48 + d) ∷ []) h.1 ((ground arith), tt),
  digits_from-append 0 (c ∷ s) d (h.0, h.1) k ∙ ap (λ (x : ℕ). x * 10 + d) h.2,
)

print_loop-Printed : (f n : ℕ) → n < f → Printed n (print_loop f n)
unfolding print_loop digits_from
print_loop-Printed zero n h = absurd (omega arith)
print_loop-Printed (suc f) n h = elim (Bool-cases (ltb n 10)) [
  | inl small ↦
      let digit : is_digit (48 + n) ≡ true = ground arith in
      rw small (digit, tt, rw digit (omega arith))
  | inr large ↦
      let e : n / 10 * 10 + n % 10 ≡ n = omega arith in
      rw large (
        subst (λ (k : ℕ). Printed k (print_loop f (n / 10) ++ (48 + n % 10) ∷ [])) e
          (Printed-more (n / 10) (print_loop f (n / 10)) (n % 10) (omega arith)
            (print_loop-Printed f (n / 10) (ground arith))))
]

pub print-Printed : (n : ℕ) → Printed n (print n)
unfolding print
print-Printed n = print_loop-Printed (suc n) n (omega arith)

stoul-digit : (c : ℕ) (s : List ℕ) → is_digit c ≡ true → stoul (c ∷ s) ≡ read_digits (c ∷ s)
unfolding stoul
stoul-digit c s h =
    let no_space : is_space c ≡ false = ground arith in
    let no_minus : (c == b'-') ≡ false = ground arith in
    let no_plus : (c == b'+') ≡ false = ground arith in
    rw (no_space, stoul, read_signed, no_minus, no_plus)

read_digits-Printed :
    (n c : ℕ) (s : List ℕ) → n < ulong_mod → Printed n (c ∷ s) → read_digits (c ∷ s) ≡ some n
unfolding read_digits
read_digits-Printed n c s k h = ground arith

stoul-Printed : (n : ℕ) (s : List ℕ) → n < ulong_mod → Printed n s → stoul s ≡ some n
stoul-Printed n [] k h = absurd h
stoul-Printed n (c ∷ s) k h = stoul-digit c s h.0 ∙ read_digits-Printed n c s k h

-- Every `unsigned long` is read back from its decimal text.
pub stoul-print : (n : ℕ) → n < ulong_mod → stoul (print n) ≡ some n
stoul-print n h = stoul-Printed n (print n) h (print-Printed n)
