-- ===== src/BlockPath/Tests.antt =====
-- Paths of blocks under a root, with the hash that is the number itself.
use gdfile_store.Base.{ℕ, ◌^◌, ◌<◌, ◌≡◌, ◌↔◌, refl, List, [], ◌∷◌, arith}
use gdfile_store.Base.Int.{ℤ, pos, to_word, to_word-lt}
use gdfile_store.Decimal.{print}
use gdfile_store.BlockPath.Lookup.{block_path-hash}
use gdfile_store.BlockPath.{block_path, rb_root, journal_rb_root, copied_to}

-- The bits of the number.
abbrev own_bits : ℤ → ℕ
own_bits s = to_word (2 ^ 64) s

own_bits-lt : (s : ℤ) → own_bits s < 2 ^ 64
own_bits-lt s = to_word-lt (2 ^ 64) s (omega arith)

block_path-hash_example :
    ((s t : ℤ) (root : List ℕ)
      → (block_path own_bits s root ≡ block_path own_bits t root) ↔ (own_bits s ≡ own_bits t))
    × ((s : ℤ) (path : List ℕ)
        → copied_to
            (block_path own_bits s (journal_rb_root path))
            (block_path own_bits s (rb_root path))
          ≡ block_path own_bits s (rb_root path))
block_path-hash_example = block_path-hash own_bits own_bits-lt

-- "r/0/0/1/5.txt"
fifth :
    block_path own_bits (pos 65541) (b'r' ∷ [])
    ≡ b'r' ∷ b'/' ∷ b'0' ∷ b'/' ∷ b'0' ∷ b'/' ∷ b'1' ∷ b'/' ∷ b'5' ∷ b'.' ∷ b't' ∷ b'x' ∷ b't' ∷ []
unfolding block_path print to_word
fifth = refl
