-- ===== src/Operation/Tests.antt =====
-- Operations on one object, combined at concrete contents.
use gdfile_store.Base.{
  ℕ, ◌-◌, ◌≤◌, take, drop, ◌≡◌, refl, none, some, List, [], ◌∷◌, ◌++◌, ◌>>=◌, arith, length,
}
use gdfile_store.Base.Int.{ℤ, pos, ◌+ℤ◌, ◌-ℤ◌}
use gdfile_store.Buffer.{of_content, append}
use gdfile_store.Codec.{Slice}
use gdfile_store.Slice.Holds.{Holds}
use gdfile_store.Slice.{get_size, sub_slice}
use gdfile_store.Object.{Operation}
use gdfile_store.Object.Sample.{object}
use gdfile_store.Operation.Edit.{Edit, put, cut, edit, edits, Texts}
use gdfile_store.Operation.Combine.{
  Requests, AllStopShort, combine_operations-edits, combine_operations_sound,
}
use gdfile_store.Operation.Wrappers.{
  write_wrapper-Asks, insert_wrapper-Asks, append_wrapper-Asks, delete_wrapper-Asks,
}
use gdfile_store.Operation.Wrappers.{slice_of-Holds}
use gdfile_store.Operation.OffEnd.{delete_to_end_faults}
use gdfile_store.Operation.Whole.{combine_with_content-edits, write_wrapper_prepends}
use gdfile_store.Operation.{
  slice_of, insert_wrapper, write_wrapper, append_wrapper, delete_wrapper, combine_operations,
  combine_with_content, get_buffer_from_slices,
}

abbrev hello : List ℕ
hello = b'h' ∷ b'e' ∷ b'l' ∷ b'l' ∷ b'o' ∷ []

abbrev excl : List ℕ
excl = b'!' ∷ []

-- "hello", "!" behind it, and "!" inside it; then "ello" goes, which spans two slices.
abbrev session : List Operation
session =
    write_wrapper object hello
    ∷ append_wrapper object excl
    ∷ insert_wrapper object excl (pos 3)
    ∷ delete_wrapper object (pos 1) (pos 6)
    ∷ []

abbrev session_edits : List Edit
session_edits = put 0 hello ∷ put 5 excl ∷ put 3 excl ∷ cut 1 5 ∷ []

session-edits : edits session_edits [] ≡ b'h' ∷ b'!' ∷ []
unfolding edits
session-edits = refl

session-Requests : Requests [] session session_edits
unfolding edit
session-Requests = (
  write_wrapper-Asks object hello [],
  (
    append_wrapper-Asks object excl hello,
    (
      insert_wrapper-Asks object excl (hello ++ excl) 3 (omega arith),
      (
        delete_wrapper-Asks object (b'h' ∷ b'e' ∷ b'l' ∷ b'!' ∷ b'l' ∷ b'o' ∷ b'!' ∷ []) 1 6
            (omega arith) (omega arith) (omega arith),
        tt,
      ),
    ),
  ),
)

session-AllStopShort : AllStopShort [] session_edits
unfolding edit
session-AllStopShort = (tt, (tt, (tt, (omega arith, tt))))

session_text :
    (combine_operations session >>= λ (r : List Slice × ℤ). get_buffer_from_slices r.0)
    ≡ some (of_content (b'h' ∷ b'!' ∷ []))
unfolding combine_operations get_buffer_from_slices write_wrapper append_wrapper insert_wrapper
    delete_wrapper ◌+ℤ◌ ◌-ℤ◌ get_size sub_slice append
session_text = refl

combine_operations-edits_example :
    (ss : List Slice) × (combine_operations session
      ≡ some (ss, pos (length (edits session_edits []))))
    × Texts ss (edits session_edits [])
combine_operations-edits_example =
    combine_operations-edits session session_edits session-Requests session-AllStopShort

-- The slices of two pieces.
combine_operations_sound_example :
    Texts (slice_of hello ∷ []) (edits (put 0 hello ∷ []) [])
    × (pos 5 ≡ pos (length (edits (put 0 hello ∷ []) [])))
unfolding ◌+ℤ◌ ◌-ℤ◌ get_size
combine_operations_sound_example =
    combine_operations_sound (write_wrapper object hello ∷ []) (put 0 hello ∷ [])
      (write_wrapper-Asks object hello [], tt) (slice_of hello ∷ []) (pos 5)
      (unfold combine_operations write_wrapper in refl)

combine_with_content-edits_example :
    (ss : List Slice) × (combine_with_content hello (append_wrapper object excl ∷ [])
      ≡ some (ss, pos (length (edits (put 5 excl ∷ []) hello))))
    × (get_buffer_from_slices ss ≡ some (of_content (edits (put 5 excl ∷ []) hello)))
combine_with_content-edits_example =
    combine_with_content-edits hello (append_wrapper object excl) [] (put 5 excl ∷ [])
      (append_wrapper-Asks object excl hello, tt) (tt, tt)

excl_in_front :
    (ss : List Slice) × (combine_with_content hello (write_wrapper object excl ∷ [])
      ≡ some (ss, pos (length (excl ++ hello))))
    × (get_buffer_from_slices ss ≡ some (of_content (excl ++ hello)))
excl_in_front = write_wrapper_prepends object hello excl

-- Two pieces, and "!" between them: three slices "he", "!", "llo".
abbrev pieces : List Operation
pieces = write_wrapper object hello ∷ insert_wrapper object excl (pos 2) ∷ []

abbrev half : ℕ → ℕ → Slice
half a z = record { source = (slice_of hello).source; start = pos a; end = pos z }

half-Holds : (a z : ℕ) → a ≤ z → z ≤ 5 → Holds (half a z) (take (z - a) (drop a hello))
unfolding slice_of
half-Holds a z h k = record {
  src = of_content hello;
  a = a;
  b = z;
  is_span = refl;
  ordered = h;
  within = k;
  content = refl;
}

pieces-slices : combine_operations pieces ≡ some (half 0 2 ∷ slice_of excl ∷ half 2 5 ∷ [], pos 6)
unfolding combine_operations write_wrapper insert_wrapper slice_of ◌+ℤ◌ ◌-ℤ◌ get_size sub_slice
pieces-slices = refl

-- From the "!" on to the end, which is also the end of the object's data.
delete_to_end_faults_example :
    combine_operations (pieces ++ delete_wrapper object (pos 2) (pos 6) ∷ []) ≡ none
delete_to_end_faults_example =
    delete_to_end_faults pieces [] (delete_wrapper object (pos 2) (pos 6)) (half 0 2 ∷ [])
      (half 2 5 ∷ []) (slice_of excl) (b'h' ∷ b'e' ∷ []) excl (b'l' ∷ b'l' ∷ b'o' ∷ []) 2 4
      pieces-slices (b'h' ∷ b'e' ∷ [], [], half-Holds 0 2 (omega arith) (omega arith), refl, refl)
      (slice_of-Holds excl)
      (b'l' ∷ b'l' ∷ b'o' ∷ [], [], half-Holds 2 5 (omega arith) (omega arith), refl, refl)
      (delete_wrapper-Asks object (b'h' ∷ b'e' ∷ b'!' ∷ b'l' ∷ b'l' ∷ b'o' ∷ []) 2 6 (omega arith)
        (omega arith) (omega arith))
      (omega arith) (omega arith) (omega arith) refl
