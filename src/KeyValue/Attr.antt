-- ===== src/KeyValue/Attr.antt =====
-- SetAttr and GetAttr of src/GDKeyValue.h: typed attributes under typed keys.
pub mod Lookup
pub mod Tests
use gdfile_store.Base.{ℕ, Bool, true, false, Option, none, some, List, [], ◌∷◌, ◌++◌, ◌>>=◌}
use gdfile_store.Codec.{Ty, El, as_string, from_string}
use gdfile_store.KeyValue.{RocksDb, RocksKv}

-- Get_Key: the header of the type, which the run-time type information and the configuration
-- give, and the members of the key.
unfoldable pub get_key : List ℕ → (t : Ty) → El t → Option (List ℕ)
get_key type_header t v = do s ← as_string t v; some (type_header ++ s)

module _ (r : RocksDb) where
  -- SetAttr under a key; the other members of the store stay.
  abbrev pub stored_at : List ℕ → List ℕ → RocksKv r → RocksKv r
  stored_at key val kv = record kv { db = r.put kv.db key val }

  unfoldable pub set_attr :
      List ℕ → (t : Ty) → El t → (a : Ty) → El a → RocksKv r → Option (RocksKv r)
  unfolding get_key
  set_attr type_header t v a attr kv = do
    key ← get_key type_header t v
    val ← as_string a attr
    some (stored_at key val kv)

  -- GetValue leaves the string empty where there is no value.
  abbrev pub attr_of : (a : Ty) → El a → Option (List ℕ) → Option (El a × Bool)
  attr_of a default none = some (default, false)
  attr_of a default (some []) = some (default, false)
  attr_of a default (some (b ∷ bs)) = do attr ← from_string a (b ∷ bs); some (attr, true)

  unfoldable pub get_attr :
      List ℕ → (t : Ty) → El t → (a : Ty) → El a → RocksKv r → Option (El a × Bool)
  unfolding get_key
  get_attr type_header t v a default kv = do
    key ← get_key type_header t v
    attr_of a default (r.get kv.db key)
