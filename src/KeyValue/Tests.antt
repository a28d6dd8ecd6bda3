-- ===== src/KeyValue/Tests.antt =====
-- The key-value store on a database of plain lists.
use gdfile_store.Base.{
  map, ℕ, ◌≡◌, ◌≢◌, ◌⊎◌, refl, false, none, some, List, [], ◌∷◌, arith, bytes_eq, bytes_eq_iff,
  bytes_lt,
}
use gdfile_store.Base.Int.{pos}
use gdfile_store.Buffer.{drawback}
use gdfile_store.Codec.Word.{of_bytes}
use gdfile_store.Codec.{from_string}
use gdfile_store.Object.Compare.{gh_same, get_obj_unique_str_desc}
use gdfile_store.Object.Sample.{object}
use gdfile_store.KeyValue.Assoc.{find, assign}
use gdfile_store.KeyValue.Table.{table}
use gdfile_store.KeyValue.Headers.{
  IsNew, header_from_to_string-to_string, get_header_new, erase_header_cases,
}
use gdfile_store.KeyValue.Several.{
  get_value, get_values, set_values, remove_keys, last_of, kept_of, get_values-remove_keys,
}
use gdfile_store.KeyValue.Reopened.{get_header_misread}
use gdfile_store.KeyValue.Prefix.{with_prefix, get_match_prefix-matching, get_match_prefix_misses}
use gdfile_store.KeyValue.{
  RocksKv, Header, header_same, header_to_string, header_from_to_string, header_count_key, matching,
  get_match_prefix, header_count, get_header, erase_header, get_obj,
}

header_back :
    header_from_to_string (header_to_string (record { key = 120 })) ≡ some (record { key = 120 })
header_back = header_from_to_string-to_string (record { key = 120 }) (omega arith)

abbrev no_header : RocksKv table
no_header = record { db = []; obj_cache_header = []; reverse_obj_cache_header = [] }

apart : (a b : List ℕ) → bytes_eq a b ≡ false → a ≢ b
apart a b h e = let same = (bytes_eq_iff a b).1 e in absurd (cc)

first_object : IsNew table (pos 0) no_header object 0
unfolding get_obj_unique_str_desc header_to_string find bytes_eq
first_object = record {
  uncached = refl;
  unstored = refl;
  count = refl;
  room = omega arith;
  not_counter = apart _ _ refl;
  not_header = apart _ _ refl;
}

get_header_new_example :
    (kv' : RocksKv table) × (get_header table (pos 0) no_header object
      ≡ some (record { key = 0 }, kv'))
    × (header_count table (pos 0) (table.get kv'.db header_count_key) ≡ some (pos 1))
    × (table.get kv'.db (get_obj_unique_str_desc object)
        ≡ some (header_to_string (record { key = 0 })))
    × (table.get kv'.db (header_to_string (record { key = 0 }))
        ≡ some (get_obj_unique_str_desc object))
    × (get_header table (pos 0) kv' object ≡ some (record { key = 0 }, kv'))
    × (get_obj table object (pos 0) kv' (record { key = 0 }) ≡ some (object, kv'))
get_header_new_example = get_header_new table (pos 0) no_header object 0 first_object object (pos 0)

-- The store opened again after object had got header 12.
abbrev reopened : RocksKv table
reopened = record {
  db = (get_obj_unique_str_desc object, b'h' ∷ b'_' ∷ b'1' ∷ b'2' ∷ []) ∷ [];
  obj_cache_header = [];
  reverse_obj_cache_header = [];
}

-- "h_12" as a number.
abbrev misread : Header
misread = record { key = 842096488 }

get_header_misread_example :
    (h : Header) × (kv' : RocksKv table) × (get_header table (pos 0) reopened object
      ≡ some (h, kv'))
    × (h.key ≢ 12)
unfolding get_obj_unique_str_desc header_to_string find bytes_eq
get_header_misread_example =
    get_header_misread table (pos 0) reopened object 12 refl refl (omega arith)

-- The number that the store answers then, "h_12" as four bytes.
answers_misread :
    get_header table (pos 0) reopened object
    ≡ some (misread, record reopened { obj_cache_header = (object, misread) ∷ [] })
unfolding get_obj_unique_str_desc find assign get_header bytes_eq from_string drawback of_bytes
answers_misread = refl

erase_header_cases_example :
    ((find gh_same object no_header.obj_cache_header ≡ none)
      × (erase_header table no_header object ≡ none))
    ⊎ ((h : Header) × (kv' : RocksKv table) × (find gh_same object no_header.obj_cache_header
          ≡ some h)
        × (erase_header table no_header object ≡ some kv')
        × (find gh_same object kv'.obj_cache_header ≡ none)
        × (find header_same h kv'.reverse_obj_cache_header ≡ none)
        × (table.get kv'.db (get_obj_unique_str_desc object) ≡ none)
        × (table.get kv'.db (header_to_string h) ≡ none))
erase_header_cases_example = erase_header_cases table no_header object

-- Keys "a", "h", "h_1" and "i".
abbrev keyed : RocksKv table
keyed = record {
  db = (b'a' ∷ [], []) ∷ (b'h' ∷ [], []) ∷ (b'h' ∷ b'_' ∷ b'1' ∷ [], []) ∷ (b'i' ∷ [], []) ∷ [];
  obj_cache_header = [];
  reverse_obj_cache_header = [];
}

get_match_prefix-matching_example :
    get_match_prefix table keyed (b'h' ∷ []) ≡ with_prefix (b'h' ∷ []) (table.entries keyed.db)
unfolding bytes_lt
get_match_prefix-matching_example =
    get_match_prefix-matching table keyed (b'h' ∷ []) ((b'a' ∷ [], []) ∷ [])
      ((b'h' ∷ b'_' ∷ b'1' ∷ [], []) ∷ (b'i' ∷ [], []) ∷ []) (b'h' ∷ [], []) refl (refl, tt) refl
      (refl, (refl, tt))

abbrev headers_only : RocksKv table
headers_only = record {
  db = (b'h' ∷ b'_' ∷ b'1' ∷ [], []) ∷ (b'h' ∷ b'_' ∷ b'2' ∷ [], []) ∷ [];
  obj_cache_header = [];
  reverse_obj_cache_header = [];
}

get_match_prefix_misses_example :
    (get_match_prefix table headers_only (b'h' ∷ b'_' ∷ []) ≡ [])
    × (matching (b'h' ∷ b'_' ∷ []) (table.entries headers_only.db)
        ≡ (b'h' ∷ b'_' ∷ b'1' ∷ [], [])
          ∷ matching (b'h' ∷ b'_' ∷ []) ((b'h' ∷ b'_' ∷ b'2' ∷ [], []) ∷ []))
unfolding bytes_lt
get_match_prefix_misses_example =
    get_match_prefix_misses table headers_only (b'h' ∷ b'_' ∷ []) b'1' [] []
      ((b'h' ∷ b'_' ∷ b'2' ∷ [], []) ∷ []) refl (refl, tt)

-- Two keys are set, one of them twice, and one is removed.
get_values-remove_keys_example :
    get_values table
      (remove_keys table ((b'b' ∷ []) ∷ []) (
        set_values table
          ((b'a' ∷ [], b'1' ∷ []) ∷ (b'b' ∷ [], b'2' ∷ []) ∷ (b'a' ∷ [], b'3' ∷ []) ∷ [])
          no_header))
      ((b'b' ∷ []) ∷ (b'a' ∷ []) ∷ [])
    ≡ map
        (λ (key : List ℕ). kept_of key ((b'b' ∷ []) ∷ []) (
          last_of key
            ((b'a' ∷ [], b'1' ∷ []) ∷ (b'b' ∷ [], b'2' ∷ []) ∷ (b'a' ∷ [], b'3' ∷ []) ∷ [])
            (get_value table no_header key)))
        ((b'b' ∷ []) ∷ (b'a' ∷ []) ∷ [])
get_values-remove_keys_example =
    get_values-remove_keys table
      ((b'a' ∷ [], b'1' ∷ []) ∷ (b'b' ∷ [], b'2' ∷ []) ∷ (b'a' ∷ [], b'3' ∷ []) ∷ [])
      ((b'b' ∷ []) ∷ []) ((b'b' ∷ []) ∷ (b'a' ∷ []) ∷ []) no_header
