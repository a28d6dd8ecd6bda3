-- ===== src/Decimal/Tests.antt =====
-- Decimal texts at concrete numbers.
use gdfile_store.Base.{◌≡◌, refl, some, none, [], ◌∷◌, arith}
use gdfile_store.Base.Int.{negsuc}
use gdfile_store.Decimal.{print, print_int, stoul}
use gdfile_store.Decimal.RoundTrip.{stoul-print}

printed_minus : print_int (negsuc 41) ≡ b'-' ∷ b'4' ∷ b'2' ∷ []
unfolding print_int
printed_minus = refl

leading_space : stoul (b' ' ∷ b'4' ∷ b'2' ∷ b'x' ∷ []) ≡ some 42
unfolding stoul
leading_space = refl

no_number : stoul (b'x' ∷ []) ≡ none
unfolding stoul
no_number = refl

read_back : stoul (print 40917) ≡ some 40917
read_back = stoul-print 40917 (omega arith)
