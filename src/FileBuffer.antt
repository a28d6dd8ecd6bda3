-- ===== src/FileBuffer.antt =====
-- The class filecache of src/deps/filebuffer.h: files that are registered, and loaded on demand.
-- Reading a file is an argument, and so is what a string holds after its content was moved out.
pub mod Flush
pub mod Tests
use gdfile_store.Base.{
  ℕ, ◌≡◌, Bool, true, false, Option, none, some, List, [], ◌∷◌, ◌++◌, bytes_eq, if◌then◌else◌,
  length,
}
use gdfile_store.Base.Int.{ℤ}
use gdfile_store.KeyValue.Assoc.{find, assign}

-- `files` is a set.
pub record FileCache : Type 0 where
  pub cache : List (List ℕ × List ℕ)
  pub files : List (List ℕ)
  pub need_load_files : List (List ℕ)

abbrev pub is_among : List ℕ → List (List ℕ) → Bool
is_among f [] = false
is_among f (g ∷ gs) = let rest = is_among f gs in if bytes_eq g f then true else rest

unfoldable pub register_file : List ℕ → FileCache → FileCache
register_file f c =
    if is_among f c.files
    then c
    else record c { files = f ∷ c.files; need_load_files = c.need_load_files ++ f ∷ [] }

module _ (read_file : List ℕ → List ℕ) (moved : List ℕ → List ℕ) where
  abbrev pub emplaced : List ℕ → Option (List ℕ) → List (List ℕ × List ℕ) → List (List ℕ × List ℕ)
  emplaced f none cache = assign bytes_eq f (read_file f) cache
  emplaced f (some content) cache = cache

  abbrev pub left_of : List ℕ → Option (List ℕ) → List ℕ
  left_of f none = moved f
  left_of f (some content) = f

  -- The loop of flush_cache: the cache, and the names that are left in the vector.
  unfoldable pub load_files :
      List (List ℕ) → List (List ℕ × List ℕ) → List (List ℕ) × List (List ℕ × List ℕ)
  load_files [] cache = ([], cache)
  load_files (f ∷ fs) cache =
      let found = find bytes_eq f cache in
      let rest = load_files fs (emplaced f found cache) in (left_of f found ∷ rest.0, rest.1)

  unfoldable pub flush_cache : FileCache → FileCache
  unfolding load_files
  flush_cache c =
      let loaded = load_files c.need_load_files c.cache in
      record { cache = loaded.1; files = []; need_load_files = loaded.0 }

unfoldable pub floating_files_count : FileCache → ℕ
floating_files_count c = length c.need_load_files

-- GetFile: the end iterator is dereferenced where the file is not in the cache.
unfoldable pub get_file : List ℕ → FileCache → Option (List ℕ)
get_file f c = find bytes_eq f c.cache

-- filespan_data: a text, or the name of a file that has it.
pub record FilespanData : Type 0 where
  pub str : List ℕ
  pub offset : ℤ
  pub length : ℤ
  pub is_str_data_not_filepath : Bool

unfoldable pub span_register_file : FilespanData → FileCache → FileCache
unfolding register_file
span_register_file d c = register_file d.str c

unfoldable pub span_get : FilespanData → FileCache → Option (List ℕ)
unfolding get_file
span_get d c = if d.is_str_data_not_filepath then some d.str else get_file d.str c
