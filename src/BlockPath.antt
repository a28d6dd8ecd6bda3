-- ===== src/BlockPath.antt =====
-- Where the files of blocks lie: GetReferedBlockStoragePath of src/deps/referedBlock.h, the roots of
-- src/GDFileStore.h, and the copy from the journal's root to the disk's in do_wope of
-- src/GDFileStore.cpp. std::hash of a number is an argument.
pub mod Lookup
pub mod Tests
use gdfile_store.Base.{
  ℕ, zero, suc, ◌+◌, ◌*◌, ◌/◌, ◌%◌, ◌^◌, ◌≡◌, Bool, true, false, ◌||◌, List, [], ◌∷◌, ◌++◌, ◌==◌,
  if◌then◌else◌,
}
use gdfile_store.Base.Int.{ℤ}
use gdfile_store.Decimal.{print}

-- (s & (0xffff << 16 * k)) >> 16 * k, of the 64 bits of a hash.
abbrev pub part : ℕ → ℕ → ℕ
part k s = s / 2 ^ (16 * k) % 2 ^ 16

abbrev pub extension : List ℕ
extension = b'.' ∷ b't' ∷ b'x' ∷ b't' ∷ []

-- The directories of a hash, and the name of its file.
abbrev pub block_dir : List ℕ → ℕ → List ℕ
block_dir root s =
    root ++ b'/' ∷ (print (part 3 s) ++ b'/' ∷ (print (part 2 s) ++ b'/' ∷ print (part 1 s)))

abbrev pub block_file : ℕ → List ℕ
block_file s = print (part 0 s) ++ extension

unfoldable pub block_path : (ℤ → ℕ) → ℤ → List ℕ → List ℕ
block_path hash serial root = block_dir root (hash serial) ++ b'/' ∷ block_file (hash serial)

abbrev pub rb_root : List ℕ → List ℕ
rb_root path = path ++ b'/' ∷ b'r' ∷ b'b' ∷ []

abbrev pub journal_rb_root : List ℕ → List ℕ
journal_rb_root path =
    path ++ b'/' ∷ b'J' ∷ b'o' ∷ b'u' ∷ b'r' ∷ b'n' ∷ b'a' ∷ b'l' ∷ b'/' ∷ b'r' ∷ b'b' ∷ []

abbrev pub is_separator : ℕ → Bool
is_separator c = (c == b'/') || (c == 92)

abbrev pub kept_before : ℕ → List ℕ → List ℕ
kept_before c [] = if is_separator c then c ∷ [] else []
kept_before c (d ∷ ds) = c ∷ d ∷ ds

-- GetParentStr: characters are taken off the end up to the last separator, which stays.
unfoldable pub get_parent_str : List ℕ → List ℕ
get_parent_str [] = []
get_parent_str (c ∷ cs) = kept_before c (get_parent_str cs)

abbrev pub has_slash : List ℕ → Bool
has_slash [] = false
has_slash (c ∷ cs) = let rest = has_slash cs in if c == b'/' then true else rest

-- filesystem::path::filename
unfoldable pub file_name : List ℕ → List ℕ
file_name [] = []
file_name (c ∷ cs) =
    let rest = file_name cs in if has_slash cs then rest else if c == b'/' then cs else c ∷ cs

-- filesystem::copy of a file to a directory, whose name ends in a separator: where the copy lies.
unfoldable pub copied_to : List ℕ → List ℕ → List ℕ
unfolding get_parent_str file_name
copied_to from_path to_path = get_parent_str to_path ++ file_name from_path
