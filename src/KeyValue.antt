-- ===== src/KeyValue.antt =====
-- src/GDKeyValue.h and src/GDKeyValue.cpp: the key-value store over RocksDB, object headers and
-- their caches. RocksDB is a parameter: `RocksDb` states the documented behaviour that is used.
pub mod Assoc
pub mod Attr
pub mod Headers
pub mod Reopened
pub mod Prefix
pub mod Several
pub mod Table
pub mod Tests
use gdfile_store.Base.{
  ℕ, ◌+◌, ◌%◌, ◌^◌, ◌≡◌, Bool, true, false, ◌&&◌, Option, none, some, List, [], ◌∷◌, ◌++◌, ◌>>=◌,
  leb, ◌==◌, bytes_eq, bytes_lt, if◌then◌else◌, length, take, drop, All, not,
}
use gdfile_store.Base.Int.{ℤ, pos, ◌+ℤ◌, to_word, of_word}
use gdfile_store.Buffer.{of_content}
use gdfile_store.Codec.{scalar, tuple_end, tuple_cons, word32, read, from_string}
use gdfile_store.Decimal.{print, print_int, stoul}
use gdfile_store.Object.{GhObject}
use gdfile_store.Object.Members.{ghobject_ty, read_ghobject, ◌&◌}
use gdfile_store.Object.Compare.{gh_same, get_obj_unique_str_desc}
use Assoc.{find, assign, erase}

-- `get` is `none` where Get's status is not ok. `seek_for_prev` is what the iterator goes through
-- from SeekForPrev on; it is empty where the iterator is not valid.
pub record RocksDb : Type 1 where
  pub Db : Type 0
  pub get : Db → List ℕ → Option (List ℕ)
  pub put : Db → List ℕ → List ℕ → Db
  pub delete : Db → List ℕ → Db
  pub entries : Db → List (List ℕ × List ℕ)
  pub seek_for_prev : Db → List ℕ → List (List ℕ × List ℕ)
  pub get-put :
      (db : Db) (k j v : List ℕ) → get (put db k v) j ≡ (if bytes_eq k j then some v else get db j)
  pub get-delete :
      (db : Db) (k j : List ℕ) → get (delete db k) j ≡ (if bytes_eq k j then none else get db j)
  -- The iterator stands at the last key that is not above the target.
  pub seek_at :
      (db : Db) (target : List ℕ) (front back : List (List ℕ × List ℕ)) (e : List ℕ × List ℕ)
      → entries db ≡ front ++ e ∷ back
      → bytes_lt target e.0 ≡ false
      → All (λ (x : List ℕ × List ℕ). bytes_lt target x.0 ≡ true) back
      → seek_for_prev db target ≡ e ∷ back
  pub seek_none :
      (db : Db) (target : List ℕ)
      → All (λ (x : List ℕ × List ℕ). bytes_lt target x.0 ≡ true) (entries db)
      → seek_for_prev db target ≡ []

pub record Header : Type 0 where
  pub key : ℕ

abbrev pub header_same : Header → Header → Bool
header_same a b = a.key == b.key

-- "h_{}"
unfoldable pub header_to_string : Header → List ℕ
header_to_string h = b'h' ∷ b'_' ∷ print h.key

-- substr(2) of a shorter string throws; the `unsigned long` is cut to 32 bits.
unfoldable pub header_from_to_string : List ℕ → Option Header
header_from_to_string s =
    if leb 2 (length s) then (do n ← stoul (drop 2 s); some (record { key = n % word32 })) else none

-- "header_count"
abbrev pub header_count_key : List ℕ
header_count_key =
    b'h' ∷ b'e' ∷ b'a' ∷ b'd' ∷ b'e' ∷ b'r' ∷ b'_' ∷ b'c' ∷ b'o' ∷ b'u' ∷ b'n' ∷ b't' ∷ []

unfoldable pub begin_with : List ℕ → List ℕ → Bool
begin_with pre str =
    if leb (length pre) (length str) then bytes_eq (take (length pre) str) pre else false

abbrev pub matching : List ℕ → List (List ℕ × List ℕ) → List (List ℕ × List ℕ)
matching pre [] = []
matching pre (e ∷ es) = if begin_with pre e.0 then e ∷ matching pre es else matching pre es

pub record RocksKv (r : RocksDb) : Type 0 where
  pub db : r.Db
  pub obj_cache_header : List (GhObject × Header)
  pub reverse_obj_cache_header : List (Header × GhObject)

module _ (r : RocksDb) where
  unfoldable pub get_match_prefix : RocksKv r → List ℕ → List (List ℕ × List ℕ)
  unfolding begin_with
  get_match_prefix kv pre = matching pre (r.seek_for_prev kv.db pre)

  -- `default_count` is what the configuration gives for "header_count". The stored count is read
  -- into an `int`, and the header's key is an `uint32_t`.
  abbrev pub header_count : ℤ → Option (List ℕ) → Option ℤ
  header_count default_count none = some default_count
  header_count default_count (some s) = do n ← stoul s; some (of_word word32 (n % word32))

  unfoldable pub get_new_header : ℤ → RocksKv r → Option (Header × RocksKv r)
  get_new_header default_count kv = do
    hc ← header_count default_count (r.get kv.db header_count_key)
    some (
      record { key = to_word word32 hc },
      record kv { db = r.put kv.db header_count_key (print_int (hc +ℤ pos 1)) },
    )

  -- The object is in no cache; `stored` is what the database has under its description.
  unfoldable pub header_of_stored :
      ℤ → RocksKv r → GhObject → Option (List ℕ) → Option (Header × RocksKv r)
  unfolding get_new_header
  header_of_stored default_count kv gh (some s) = do
    key ← from_string (scalar 4 & tuple_end) s
    some (
      record { key = key.0 },
      record kv {
        obj_cache_header = assign gh_same gh (record { key = key.0 }) kv.obj_cache_header;
      },
    )
  header_of_stored default_count kv gh none = do
    (h, kv') ← get_new_header default_count kv
    some (
      h,
      record {
        db =
            r.put (r.put kv'.db (get_obj_unique_str_desc gh) (header_to_string h))
              (header_to_string h) (get_obj_unique_str_desc gh);
        obj_cache_header = assign gh_same gh h kv'.obj_cache_header;
        reverse_obj_cache_header = assign header_same h gh kv'.reverse_obj_cache_header;
      },
    )

  abbrev pub header_of : ℤ → RocksKv r → GhObject → Option Header → Option (Header × RocksKv r)
  header_of default_count kv gh (some h) = some (h, kv)
  header_of default_count kv gh none =
      header_of_stored default_count kv gh (r.get kv.db (get_obj_unique_str_desc gh))

  unfoldable pub get_header : ℤ → RocksKv r → GhObject → Option (Header × RocksKv r)
  unfolding header_of_stored
  get_header default_count kv gh =
      header_of default_count kv gh (find gh_same gh kv.obj_cache_header)

  -- EraseHeader: `h->second` is read before the test for the end iterator.
  unfoldable pub erase_header : RocksKv r → GhObject → Option (RocksKv r)
  erase_header kv gh = do
    head ← find gh_same gh kv.obj_cache_header
    some (record {
      db = r.delete (r.delete kv.db (get_obj_unique_str_desc gh)) (header_to_string head);
      obj_cache_header = erase gh_same gh kv.obj_cache_header;
      reverse_obj_cache_header = erase header_same head kv.reverse_obj_cache_header;
    })

  -- GetObj. The default object is the answer where there is none; `pool` is what the memory held.
  unfoldable pub obj_of_stored :
      GhObject → ℤ → RocksKv r → Header → Option (List ℕ) → Option (GhObject × RocksKv r)
  obj_of_stored default_obj pool kv h none = some (default_obj, kv)
  obj_of_stored default_obj pool kv h (some s) = do
    e ← from_string ghobject_ty s
    let gh = read_ghobject pool e
    some (
      gh,
      record kv {
        obj_cache_header = assign gh_same gh h kv.obj_cache_header;
        reverse_obj_cache_header = assign header_same h gh kv.reverse_obj_cache_header;
      },
    )

  abbrev pub obj_of :
      GhObject → ℤ → RocksKv r → Header → Option GhObject → Option (GhObject × RocksKv r)
  obj_of default_obj pool kv h (some gh) = some (gh, kv)
  obj_of default_obj pool kv h none =
      obj_of_stored default_obj pool kv h (r.get kv.db (header_to_string h))

  unfoldable pub get_obj : GhObject → ℤ → RocksKv r → Header → Option (GhObject × RocksKv r)
  unfolding obj_of_stored
  get_obj default_obj pool kv h =
      obj_of default_obj pool kv h (find header_same h kv.reverse_obj_cache_header)

  -- EraseObj, with the same use of the end iterator.
  unfoldable pub erase_obj : RocksKv r → Header → Option (RocksKv r)
  erase_obj kv h = do
    gh ← find header_same h kv.reverse_obj_cache_header
    some (record {
      db = r.delete (r.delete kv.db (get_obj_unique_str_desc gh)) (header_to_string h);
      obj_cache_header = erase gh_same gh kv.obj_cache_header;
      reverse_obj_cache_header = erase header_same h kv.reverse_obj_cache_header;
    })
