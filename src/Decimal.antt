-- ===== src/Decimal.antt =====
-- Decimal text as std::to_string and fmt write it, and as std::stoul reads it.
pub mod RoundTrip
pub mod Tests
use gdfile_store.Base.{
  ℕ, zero, suc, ◌+◌, ◌-◌, ◌*◌, ◌/◌, ◌%◌, ◌^◌, ◌≡◌, Bool, ◌&&◌, ◌||◌, Option, none, some, List, [],
  ◌∷◌, ◌++◌, ◌>>=◌, ltb, leb, ◌==◌, if◌then◌else◌,
}
use gdfile_store.Base.Int.{ℤ, pos, negsuc}

-- `n + 1` rounds are enough: the last digit is split off each time.
unfoldable pub print_loop : ℕ → ℕ → List ℕ
print_loop zero n = []
print_loop (suc f) n =
    let rest = print_loop f (n / 10) in
    if ltb n 10 then (48 + n) ∷ [] else rest ++ (48 + n % 10) ∷ []

unfoldable pub print : ℕ → List ℕ
unfolding print_loop
print n = print_loop (suc n) n

unfoldable pub print_int : ℤ → List ℕ
unfolding print
print_int (pos n) = print n
print_int (negsuc n) = b'-' ∷ print (suc n)

abbrev pub is_digit : ℕ → Bool
is_digit c = leb 48 c && leb c 57

-- The value of the digits that the text begins with, after what was read before.
unfoldable pub digits_from : ℕ → List ℕ → ℕ
digits_from acc [] = acc
digits_from acc (c ∷ s) =
    let rest = digits_from (acc * 10 + (c - 48)) s in if is_digit c then rest else acc

abbrev pub ulong_mod : ℕ
ulong_mod = 2 ^ 64

-- No digit, or a value that no `unsigned long` has, is an exception.
unfoldable pub read_digits : List ℕ → Option ℕ
unfolding digits_from
read_digits [] = none
read_digits (c ∷ s) =
    let n = digits_from 0 (c ∷ s) in if is_digit c && ltb n ulong_mod then some n else none

abbrev pub is_space : ℕ → Bool
is_space c = (c == 32) || (leb 9 c && leb c 13)

unfoldable pub skip_spaces : List ℕ → List ℕ
skip_spaces [] = []
skip_spaces (c ∷ s) = let rest = skip_spaces s in if is_space c then rest else c ∷ s

-- A minus sign negates in the unsigned type.
unfoldable pub read_signed : List ℕ → Option ℕ
unfolding read_digits
read_signed [] = none
read_signed (c ∷ s) =
    if c == b'-'
    then (do n ← read_digits s; some ((ulong_mod - n) % ulong_mod))
    else if c == b'+'
    then read_digits s
    else read_digits (c ∷ s)

unfoldable pub stoul : List ℕ → Option ℕ
unfolding skip_spaces read_signed
stoul s = read_signed (skip_spaces s)
