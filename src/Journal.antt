-- ===== src/Journal.antt =====
-- src/GDFileJournal.cpp: writes of whole objects are queued, and the flush combines the writes of
-- each object with its file. HandleWriteOperation of src/GDFileStore.cpp decides who takes part.
pub mod Flush
pub mod Members
pub mod Tests
use gdfile_store.Base.{
  ℕ, ◌≡◌, Bool, true, false, Option, none, some, List, [], ◌∷◌, ◌++◌, ◌>>=◌, bytes_eq,
  if◌then◌else◌,
}
use gdfile_store.Base.Int.{ℤ}
use gdfile_store.Codec.{Slice}
use gdfile_store.Object.{GhObject, Operation, InfoForOsd, gh_lt}
use gdfile_store.Object.Compare.{gh_same, get_obj_unique_str_desc}
use gdfile_store.Operation.{write_wrapper, combine_operations, get_buffer_from_slices}
use gdfile_store.KeyValue.Assoc.{find, assign}

-- The files under storagePath, by name, and the queue.
pub record Journal : Type 0 where
  pub files : List (List ℕ × List ℕ)
  pub wopes : List Operation

abbrev pub or_empty : {A : Type 0} → Option (List A) → List A
or_empty none = []
or_empty (some xs) = xs

-- Journal::Read: ReadFile gives "" where there is no file.
unfoldable pub read : List (List ℕ × List ℕ) → List ℕ → List ℕ
read files name = or_empty (find bytes_eq name files)

-- Journal::Write
unfoldable pub write : List (List ℕ × List ℕ) → List ℕ → List ℕ → List (List ℕ × List ℕ)
write files name content = assign bytes_eq name content files

abbrev pub Groups : Type 0
Groups = List (GhObject × List Operation)

-- g2os[obj] = os in a std::map, which is in the order of operator<.
unfoldable pub put_group : GhObject → List Operation → Groups → Groups
put_group g os [] = (g, os) ∷ []
put_group g os ((j, v) ∷ m) =
    let rest = put_group g os m in
    if gh_same j g then (j, os) ∷ m else if gh_lt g j then (g, os) ∷ (j, v) ∷ m else (j, v) ∷ rest

-- The operations of an object begin with one that writes what its file holds.
abbrev pub extended : List (List ℕ × List ℕ) → Operation → List Operation → List Operation
extended files ope [] =
    write_wrapper ope.obj (read files (get_obj_unique_str_desc ope.obj)) ∷ ope ∷ []
extended files ope (o ∷ os) = o ∷ os ++ ope ∷ []

unfoldable pub group : List (List ℕ × List ℕ) → List Operation → Groups → Groups
unfolding put_group read write_wrapper
group files [] m = m
group files (ope ∷ opes) m =
    group files opes (put_group ope.obj (extended files ope (or_empty (find gh_same ope.obj m))) m)

-- One object's operations, combined and written to its file.
unfoldable pub flush_one :
    GhObject → List Operation → List (List ℕ × List ℕ) → Option (List (List ℕ × List ℕ))
unfolding write
flush_one g os files = do
  (slices, total) ← combine_operations os
  buf ← get_buffer_from_slices slices
  some (write files (get_obj_unique_str_desc g) buf.content)

unfoldable pub flush_all : Groups → List (List ℕ × List ℕ) → Option (List (List ℕ × List ℕ))
unfolding flush_one
flush_all [] files = some files
flush_all ((g, os) ∷ m) files = do files' ← flush_one g os files; flush_all m files'

-- Journal::_flushProcessor
unfoldable pub flush : Journal → Option Journal
unfolding group flush_all
flush j = do
  files ← flush_all (group j.files j.wopes []) j.files
  some (record { files = files; wopes = [] })

-- Journal::HandleWriteOperation of a vector; of one operation, it is that of a vector of one.
unfoldable pub handle_write_operations : List Operation → Bool → Journal → Option Journal
unfolding flush
handle_write_operations opes emergency j =
    let j' : Journal = record { files = j.files; wopes = j.wopes ++ opes } in
    if emergency then flush j' else some j'

-- The loop of ReplicaHandleWriteOperation.
unfoldable pub named_in : List ℕ → List InfoForOsd → Bool
named_in name [] = false
named_in name (o ∷ osds) =
    let rest = named_in name osds in if bytes_eq name o.name then true else rest

-- GDFileStore::HandleWriteOperation: whether it takes the write, and the journal. `name` is the name
-- that GetInfo finds for the node; a node that is not configured is not modelled.
unfoldable pub handle_write_operation :
    List ℕ → Operation → List InfoForOsd → Journal → Option (Bool × Journal)
unfolding handle_write_operations named_in
handle_write_operation name ope [] j = some (false, j)
handle_write_operation name ope (primary ∷ osds) j =
    if bytes_eq primary.name name
    then (do j' ← handle_write_operations (ope ∷ []) true j; some (true, j'))
    else if named_in name (primary ∷ osds)
    then (do j' ← handle_write_operations (ope ∷ []) true j; some (true, j'))
    else some (false, j)
