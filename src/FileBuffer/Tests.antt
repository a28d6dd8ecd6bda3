-- ===== src/FileBuffer/Tests.antt =====
-- One file that is loaded, and then registered again.
use gdfile_store.Base.{ℕ, ◌≡◌, refl, none, some, List, [], ◌∷◌, if◌then◌else◌, bytes_eq}
use gdfile_store.KeyValue.Assoc.{find, assign}
use gdfile_store.FileBuffer.Flush.{or_else, get_file-flush_cache}
use gdfile_store.FileBuffer.{FileCache, is_among, flush_cache, floating_files_count, get_file}

abbrev read_file : List ℕ → List ℕ
read_file f = b'x' ∷ f

abbrev moved : List ℕ → List ℕ
moved f = []

abbrev registered : FileCache
registered = record {
  cache = (b'b' ∷ [], b'y' ∷ []) ∷ [];
  files = (b'a' ∷ []) ∷ [];
  need_load_files = (b'a' ∷ []) ∷ [];
}

get_file-flush_cache_example :
    ((f : List ℕ)
      → get_file f (flush_cache read_file moved registered)
        ≡ or_else
            (get_file f registered)
            (if is_among f registered.need_load_files then some (read_file f) else none))
    × (floating_files_count (flush_cache read_file moved registered)
        ≡ floating_files_count registered)
    × ((flush_cache read_file moved registered).files ≡ [])
get_file-flush_cache_example = get_file-flush_cache read_file moved registered

loaded : get_file (b'a' ∷ []) (flush_cache read_file moved registered) ≡ some (b'x' ∷ b'a' ∷ [])
unfolding get_file flush_cache find assign bytes_eq
loaded = refl

-- The second flush loads the name that was moved out.
loaded_again :
    get_file [] (flush_cache read_file moved (flush_cache read_file moved registered))
    ≡ some (b'x' ∷ [])
unfolding get_file flush_cache find assign bytes_eq
loaded_again = refl
