-- ===== src/Slice.antt =====
-- class Slice of src/deps/assistant_utility.h: its methods, and the text that a slice stands for.
pub mod Holds
use gdfile_store.Base.{
  ℕ, ◌≡◌, Bool, true, false, ◌&&◌, Option, none, some, List, [], ◌∷◌, ◌==◌, if◌then◌else◌, bytes_eq,
}
use gdfile_store.Base.Int.{ℤ, pos, ◌+ℤ◌, ◌-ℤ◌, ltb_ℤ, eqb_ℤ}
use gdfile_store.Buffer.{Buffer}
use gdfile_store.Codec.{Slice}

-- buffer::operator==
abbrev pub buffer_eq : Buffer → Buffer → Bool
buffer_eq a b = bytes_eq a.content b.content && eqb_ℤ a.offset b.offset

abbrev source_eq : Option Buffer → Option Buffer → Bool
source_eq none none = true
source_eq (some a) (some b) = buffer_eq a b
source_eq _ _ = false

-- Slice::operator==. Two pointers to one buffer are equal by the values in it.
unfoldable pub slice_eq : Slice → Slice → Bool
slice_eq a b = eqb_ℤ a.start b.start && eqb_ℤ a.end b.end && source_eq a.source b.source

unfoldable pub get_size : Slice → ℤ
get_size s = s.end -ℤ s.start

unfoldable pub sub_slice : Slice → ℤ → ℤ → Slice
unfolding get_size
sub_slice s start size =
    if ltb_ℤ (start +ℤ size) (get_size s)
    then record s { start = s.start +ℤ start; end = s.start +ℤ start +ℤ size }
    else record s { start = s.start +ℤ start }
