-- ===== src/Codec/Word.antt =====
-- The memory image of an arithmetic value or enumerator: its bytes, the lowest first.
use gdfile_store.Base.{
  ℕ, zero, suc, ◌+◌, ◌*◌, ◌/◌, ◌%◌, ◌≡◌, refl, ap, List, [], ◌∷◌, arith, length,
}

unfoldable pub bytes_of : ℕ → ℕ → List ℕ
bytes_of zero v = []
bytes_of (suc w) v = (v % 256) ∷ bytes_of w (v / 256)

unfoldable pub of_bytes : List ℕ → ℕ
of_bytes [] = 0
of_bytes (b ∷ bs) = b + 256 * of_bytes bs

pub length-bytes_of : (w v : ℕ) → length (bytes_of w v) ≡ w
unfolding bytes_of
length-bytes_of zero v = refl
length-bytes_of (suc w) v = ap suc (length-bytes_of w (v / 256))

-- The value range of `w` bytes, as a product so that arithmetic reads it at every width.
abbrev pub InBytes : ℕ → ℕ → Type 0
InBytes zero v = v ≡ 0
InBytes (suc w) v = InBytes w (v / 256)

pub of_bytes-bytes_of : (w v : ℕ) → InBytes w v → of_bytes (bytes_of w v) ≡ v
unfolding bytes_of of_bytes
of_bytes-bytes_of zero v h = omega arith
of_bytes-bytes_of (suc w) v h = omega (arith, of_bytes-bytes_of w (v / 256) h)
