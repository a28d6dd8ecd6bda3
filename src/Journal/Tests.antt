-- ===== src/Journal/Tests.antt =====
-- Writes of whole objects at concrete values.
use gdfile_store.Base.{
  ℕ, ◌>>=◌, if◌then◌else◌, ◌≡◌, refl, true, false, some, List, [], ◌∷◌, ◌++◌, arith, bytes_eq,
  bytes_lt,
}
use gdfile_store.Base.Int.{pos}
use gdfile_store.Object.{Operation}
use gdfile_store.Object.Compare.{gh_same, get_obj_unique_str_desc}
use gdfile_store.Object.Sample.{object, node}
use gdfile_store.KeyValue.Assoc.{find}
use gdfile_store.Operation.{append_wrapper, delete_wrapper}
use gdfile_store.Operation.Edit.{Edit, put, cut, edit, edits}
use gdfile_store.Operation.Combine.{Requests, AllStopShort}
use gdfile_store.Operation.Wrappers.{append_wrapper-Asks, delete_wrapper-Asks}
use gdfile_store.Journal.Flush.{handle_write_operations-edits}
use gdfile_store.Journal.Members.{handle_write_operation-named_in}
use gdfile_store.Journal.{Journal, read, handle_write_operations, named_in, handle_write_operation}

abbrev old_text : List ℕ
old_text = b'a' ∷ b'b' ∷ b'c' ∷ []

abbrev journal : Journal
journal = record {
  files = (get_obj_unique_str_desc object, old_text) ∷ (b'x' ∷ [], b'y' ∷ []) ∷ [];
  wopes = [];
}

-- "d" behind "abc", and "b" out of it.
abbrev opes : List Operation
opes = delete_wrapper object (pos 1) (pos 2) ∷ []

abbrev first_ope : Operation
first_ope = append_wrapper object (b'd' ∷ [])

abbrev ope_edits : List Edit
ope_edits = put 3 (b'd' ∷ []) ∷ cut 1 1 ∷ []

old_text-read : read journal.files (get_obj_unique_str_desc object) ≡ old_text
unfolding read find get_obj_unique_str_desc bytes_eq
old_text-read = refl

opes-Requests : Requests old_text (first_ope ∷ opes) ope_edits
unfolding edit
opes-Requests = (
  append_wrapper-Asks object (b'd' ∷ []) old_text,
  (
    delete_wrapper-Asks object (old_text ++ b'd' ∷ []) 1 2 (omega arith) (omega arith)
        (omega arith),
    tt,
  ),
)

opes-AllStopShort : AllStopShort old_text ope_edits
unfolding edit
opes-AllStopShort = (tt, (omega arith, tt))

same_object : gh_same object object ≡ true
unfolding gh_same bytes_eq bytes_lt
same_object = refl

other_name : bytes_eq (get_obj_unique_str_desc object) (b'x' ∷ []) ≡ false
unfolding bytes_eq get_obj_unique_str_desc
other_name = refl

handle_write_operations-edits_example :
    (j' : Journal) × (handle_write_operations (first_ope ∷ opes) true journal ≡ some j')
    × (read j'.files (get_obj_unique_str_desc object)
        ≡ edits ope_edits (read journal.files (get_obj_unique_str_desc object)))
    × (read j'.files (b'x' ∷ []) ≡ read journal.files (b'x' ∷ []))
    × (j'.wopes ≡ [])
unfolding append_wrapper delete_wrapper
handle_write_operations-edits_example =
    handle_write_operations-edits journal first_ope opes ope_edits refl (same_object, tt)
      (rw old_text-read opes-Requests) (rw old_text-read opes-AllStopShort) (b'x' ∷ []) other_name

taken_by_member : handle_write_operation (b'n' ∷ []) first_ope (node 8080 ∷ []) journal ≡ (
    if named_in (b'n' ∷ []) (node 8080 ∷ [])
    then handle_write_operations (first_ope ∷ []) true journal
      >>= (λ (j' : Journal). some (true, j'))
    else some (false, journal))
taken_by_member = handle_write_operation-named_in (b'n' ∷ []) first_ope journal (node 8080 ∷ [])
