-- ===== src/Config.antt =====
-- The configuration of src/deps/Config.h: four layers per name, kept in a cache, and a class to fall
-- back on. The JSON library is the parameter `JsonLib`, and the files are a function from their
-- names under the root of the configuration.
pub mod Layers
pub mod Tests
use gdfile_store.Base.{
  ℕ, ◌≡◌, Bool, true, false, not, ◌&&◌, ◌||◌, Option, none, some, List, [], ◌∷◌, ◌++◌, ◌>>=◌,
  bytes_eq, if◌then◌else◌,
}
use gdfile_store.KeyValue.Assoc.{find, assign}

-- nlohmann::json: a value that is default-constructed, `empty`, and operator[] with the name of a
-- member, which gives the member and leaves the value with that member in it, or throws.
pub record JsonLib : Type 1 where
  pub Json : Type 0
  pub null : Json
  pub is_empty : Json → Bool
  pub at : List ℕ → Json → Option (Json × Json)
  pub is_empty-null : is_empty null ≡ true
  pub at-again :
      (k : List ℕ) (j v left : Json) → at k j ≡ some (v, left) → at k left ≡ some (v, left)

abbrev pub dot_default : List ℕ
dot_default = b'.' ∷ b'd' ∷ b'e' ∷ b'f' ∷ b'a' ∷ b'u' ∷ b'l' ∷ b't' ∷ []

abbrev pub dot_json : List ℕ
dot_json = b'.' ∷ b'j' ∷ b's' ∷ b'o' ∷ b'n' ∷ []

abbrev pub integrated : List ℕ
integrated = b'i' ∷ b'n' ∷ b't' ∷ b'e' ∷ b'g' ∷ b'r' ∷ b'a' ∷ b't' ∷ b'e' ∷ b'd' ∷ []

-- The keys of the cache for a name.
abbrev pub index1 : List ℕ → List ℕ
index1 name = (integrated ++ dot_default) ++ b'.' ∷ name

abbrev pub index2 : List ℕ → List ℕ
index2 name = integrated ++ b'.' ∷ name

abbrev pub index3 : List ℕ → List ℕ
index3 name = name ++ dot_default

abbrev pub is_named : List ℕ → Bool
is_named [] = false
is_named (c ∷ cs) = true

module _ (lib : JsonLib) (file : List ℕ → lib.Json) where
  abbrev pub Cache : Type 0
  Cache = List (List ℕ × lib.Json)

  abbrev pub or_null : Option lib.Json → lib.Json
  or_null none = lib.null
  or_null (some j) = j

  -- cache[index]
  unfoldable pub cached : List ℕ → Cache → lib.Json
  cached index cache = or_null (find bytes_eq index cache)

  -- The member of an integrated file, and a file of its own.
  abbrev pub member_of : List ℕ → List ℕ → Option lib.Json
  member_of file_name name = do (v, left) ← lib.at name (file (file_name ++ dot_json)); some v

  -- A layer is read again where the cache has nothing for it, or on demand.
  unfoldable pub load : List ℕ → Option lib.Json → Bool → Cache → Option Cache
  unfolding cached
  load index source reload cache =
      if lib.is_empty (cached index cache) || reload
      then (do s ← source; some (assign bytes_eq index s cache))
      else some (assign bytes_eq index (cached index cache) cache)

  unfoldable pub load_all : List ℕ → Bool → Cache → Option Cache
  unfolding load
  load_all name reload cache = do
    c1 ← load (index1 name) (member_of (integrated ++ dot_default) name) reload cache
    c2 ← load (index2 name) (member_of integrated name) reload c1
    c3 ← load (index3 name) (some (file ((name ++ dot_default) ++ dot_json))) reload c2
    load name (some (file (name ++ dot_json))) reload c3

  -- The loop over the indexes: a later layer's value replaces an earlier one's, unless it is empty.
  unfoldable pub overlay : List ℕ → List (List ℕ) → lib.Json → Cache → Option (lib.Json × Cache)
  unfolding cached
  overlay key [] ret cache = some (ret, cache)
  overlay key (index ∷ indexes) ret cache = do
    (v, left) ← lib.at key (cached index cache)
    overlay key indexes (if lib.is_empty v then ret else v) (assign bytes_eq index left cache)

  -- GetConfig without a default class.
  unfoldable pub get_own : List ℕ → List ℕ → Bool → Cache → Option (lib.Json × Cache)
  unfolding load_all overlay
  get_own name key reload cache = do
    cache' ← load_all name reload cache
    overlay key (index1 name ∷ index2 name ∷ index3 name ∷ name ∷ []) lib.null cache'

  unfoldable pub get_config : List ℕ → List ℕ → List ℕ → Bool → Cache → Option (lib.Json × Cache)
  unfolding get_own
  get_config name key default_class reload cache = do
    (ret, cache') ← get_own name key reload cache
    if lib.is_empty ret && is_named default_class
        then get_own default_class key reload cache'
        else some (ret, cache')

  -- GetconfigOverWrite: `decode` is the conversion of the library, which may throw.
  module _ {T : Type 0} (decode : lib.Json → Option T) where
    abbrev pub or_value : T → Option T → T
    or_value value none = value
    or_value value (some t) = t

    unfoldable pub get_config_over_write :
        T → List ℕ → List ℕ → List ℕ → Bool → Cache → Option (T × Cache)
    unfolding get_config
    get_config_over_write value default_class name key reload cache = do
      (r, cache') ← get_config name key default_class reload cache
      some (if lib.is_empty r then value else or_value value (decode r), cache')
