-- ===== src/Base/Sums.antt =====
-- Sums over a list.
use Prim.Native.Nat.{ℕ, zero, suc, ◌+◌}
use mathlib.Core.Path.{◌≡◌}
use mathlib.Core.List.{List, [], ◌∷◌, ◌++◌}
use mathlib.Core.Option.{some}
use native.Mathlib.Omega.{arith}
use gdfile_store.Base.Lists.{length, take, drop, get_elem?}

-- The list with another element at a place that it has.
abbrev pub put_at : {A : Type 0} → ℕ → A → List A → List A
put_at i y xs = take i xs ++ y ∷ drop (suc i) xs

module _ {A : Type 0} (f : A → ℕ) where
  unfoldable pub sum_by : List A → ℕ
  sum_by [] = 0
  sum_by (x ∷ xs) = f x + sum_by xs

  pub sum_by-append : (xs ys : List A) → sum_by (xs ++ ys) ≡ sum_by xs + sum_by ys
  unfolding sum_by
  sum_by-append [] ys = omega arith
  sum_by-append (x ∷ xs) ys = omega (arith, sum_by-append xs ys)

  -- Taking one element out of the list.
  pub sum_by-take_out :
      (i : ℕ) (xs : List A) (x : A)
      → get_elem? xs i ≡ some x
      → sum_by xs ≡ f x + sum_by (take i xs ++ drop (suc i) xs)
  unfolding sum_by
  sum_by-take_out i [] x h = absurd (cc)
  sum_by-take_out zero (y ∷ xs) x h = let same : y ≡ x = cc in rw same
  sum_by-take_out (suc i) (y ∷ xs) x h = omega (arith, sum_by-take_out i xs x h)

  -- Another element in its place.
  pub sum_by-put_at :
      (i : ℕ) (xs : List A) (x y : A)
      → get_elem? xs i ≡ some x
      → sum_by (put_at i y xs) + f x ≡ sum_by xs + f y
  unfolding sum_by
  sum_by-put_at i [] x y h = absurd (cc)
  sum_by-put_at zero (z ∷ xs) x y h = let same : z ≡ x = cc in rw same (omega arith)
  sum_by-put_at (suc i) (z ∷ xs) x y h = omega (arith, sum_by-put_at i xs x y h)

pub length-put_at :
    {A : Type 0} (i : ℕ) (xs : List A) (x y : A)
    → get_elem? xs i ≡ some x
    → length (put_at i y xs) ≡ length xs
length-put_at i [] x y h = absurd (cc)
length-put_at zero (z ∷ xs) x y h = omega arith
length-put_at (suc i) (z ∷ xs) x y h = omega (arith, length-put_at i xs x y h)
