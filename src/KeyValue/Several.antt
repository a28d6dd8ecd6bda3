-- ===== src/KeyValue/Several.antt =====
-- RocksKV of src/GDKeyValue.h: reading, writing and removing one key or several. A status is
-- whether the call succeeded; Put and Delete are taken to succeed.
use gdfile_store.Base.{
  ℕ, ◌≡◌, refl, ap, ◌∙◌, Option, none, some, List, [], ◌∷◌, map, bytes_eq, if◌then◌else◌,
}
use gdfile_store.KeyValue.{RocksDb, RocksKv}

module _ (r : RocksDb) where
  unfoldable pub get_value : RocksKv r → List ℕ → Option (List ℕ)
  get_value kv key = r.get kv.db key

  -- MultiGet, of all keys in one state of the database.
  unfoldable pub get_values : RocksKv r → List (List ℕ) → List (Option (List ℕ))
  unfolding get_value
  get_values kv [] = []
  get_values kv (key ∷ keys) = get_value kv key ∷ get_values kv keys

  unfoldable pub set_value : List ℕ → List ℕ → RocksKv r → RocksKv r
  set_value key val kv = record kv { db = r.put kv.db key val }

  unfoldable pub set_values : List (List ℕ × List ℕ) → RocksKv r → RocksKv r
  unfolding set_value
  set_values [] kv = kv
  set_values ((key, val) ∷ vals) kv = set_values vals (set_value key val kv)

  unfoldable pub remove_key : List ℕ → RocksKv r → RocksKv r
  remove_key key kv = record kv { db = r.delete kv.db key }

  unfoldable pub remove_keys : List (List ℕ) → RocksKv r → RocksKv r
  unfolding remove_key
  remove_keys [] kv = kv
  remove_keys (key ∷ keys) kv = remove_keys keys (remove_key key kv)

-- The last value of a key, if there is one, else the value that was.
unfoldable pub last_of : List ℕ → List (List ℕ × List ℕ) → Option (List ℕ) → Option (List ℕ)
last_of key [] was = was
last_of key ((k, v) ∷ vals) was = last_of key vals (if bytes_eq k key then some v else was)

-- The value that was, unless the key is among those removed.
unfoldable pub kept_of : List ℕ → List (List ℕ) → Option (List ℕ) → Option (List ℕ)
kept_of key [] was = was
kept_of key (k ∷ keys) was = kept_of key keys (if bytes_eq k key then none else was)

module _ (r : RocksDb) where
  get_value-set_values :
      (vals : List (List ℕ × List ℕ)) (kv : RocksKv r) (key : List ℕ)
      → get_value r (set_values r vals kv) key ≡ last_of key vals (get_value r kv key)
  unfolding get_value set_values last_of
  get_value-set_values [] kv key = refl
  get_value-set_values ((k, v) ∷ vals) kv key =
      get_value-set_values vals (record kv { db = r.put kv.db k v }) key
      ∙ ap (last_of key vals) (r.get-put kv.db k key v)

  get_value-remove_keys :
      (keys : List (List ℕ)) (kv : RocksKv r) (key : List ℕ)
      → get_value r (remove_keys r keys kv) key ≡ kept_of key keys (get_value r kv key)
  unfolding get_value remove_keys kept_of
  get_value-remove_keys [] kv key = refl
  get_value-remove_keys (k ∷ keys) kv key =
      get_value-remove_keys keys (record kv { db = r.delete kv.db k }) key
      ∙ ap (kept_of key keys) (r.get-delete kv.db k key)

  get_values-map :
      (kv : RocksKv r) (keys : List (List ℕ)) → get_values r kv keys ≡ map (get_value r kv) keys
  unfolding get_values
  get_values-map kv [] = refl
  get_values-map kv (key ∷ keys) = ap (◌∷◌ (get_value r kv key)) (get_values-map kv keys)

  -- GetValues after SetValues and RemoveKeys answers for each key, in the order of the keys, nothing
  -- where the key was removed, else the last value that was set, else the value that was there.
  pub get_values-remove_keys :
      (vals : List (List ℕ × List ℕ)) (gone keys : List (List ℕ)) (kv : RocksKv r)
      → get_values r (remove_keys r gone (set_values r vals kv)) keys
        ≡ map (λ (key : List ℕ). kept_of key gone (last_of key vals (get_value r kv key))) keys
  get_values-remove_keys vals gone keys kv =
      get_values-map (remove_keys r gone (set_values r vals kv)) keys ∙ each keys
    where
      each :
          (ks : List (List ℕ))
          → map (get_value r (remove_keys r gone (set_values r vals kv))) ks
            ≡ map (λ (key : List ℕ). kept_of key gone (last_of key vals (get_value r kv key))) ks
      each [] = refl
      each (k ∷ ks) = rw (
        get_value-remove_keys gone (set_values r vals kv) k,
        get_value-set_values vals kv k,
        each ks,
      )
