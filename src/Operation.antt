-- ===== src/Operation.antt =====
-- class Operation and OperationWrapper of src/deps/object.h, and CombineOperationsForOneSameObject
-- of src/deps/object.cpp. An `int` is an integer: its overflow is undefined behaviour.
pub mod Edit
pub mod Insert
pub mod CutTail
pub mod Delete
pub mod Combine
pub mod Wrappers
pub mod OffEnd
pub mod Whole
pub mod Tests
pub mod Lists
use gdfile_store.Base.{
  ℕ, zero, suc, ◌+◌, ◌≡◌, Option, none, some, List, [], ◌∷◌, ◌++◌, ◌>>=◌, leb, ◌&&◌, if◌then◌else◌,
  length, take, drop, get_elem?,
}
use gdfile_store.Base.Int.{ℤ, pos, negsuc, ◌+ℤ◌, ◌-ℤ◌, leb_ℤ, eqb_ℤ}
use gdfile_store.Buffer.{Buffer, of_content, append}
use gdfile_store.Codec.{Slice}
use gdfile_store.Slice.{get_size, sub_slice}
use gdfile_store.Object.{
  GhObject, Operation, OperationType, FileAnchor, FilePos, insert, delete, other_type, begin, end,
}
use Lists.{set_elem?, insert_all, erase_range}

-- explicit Slice(const string&)
unfoldable pub slice_of : List ℕ → Slice
slice_of content = record {
  source = some (of_content content);
  start = pos 0;
  end = pos (length content);
}

module _ (ghobj : GhObject) where
  unfoldable pub insert_wrapper : List ℕ → ℤ → Operation
  unfolding slice_of
  insert_wrapper content p = record {
    operation_type = OperationType.insert;
    slice = slice_of content;
    obj = ghobj;
    file_pos = record { file_anchor = begin; offset = p };
  }

  unfoldable pub write_wrapper : List ℕ → Operation
  unfolding slice_of
  write_wrapper content = record {
    operation_type = OperationType.insert;
    slice = slice_of content;
    obj = ghobj;
    file_pos = record { file_anchor = begin; offset = pos 0 };
  }

  unfoldable pub delete_wrapper : ℤ → ℤ → Operation
  delete_wrapper span_begin span_end = record {
    operation_type = OperationType.delete;
    slice = record { source = none; start = span_begin; end = span_end };
    obj = ghobj;
    file_pos = record { file_anchor = begin; offset = pos 0 };
  }

  unfoldable pub append_wrapper : List ℕ → Operation
  unfolding slice_of
  append_wrapper content = record {
    operation_type = OperationType.insert;
    slice = slice_of content;
    obj = ghobj;
    file_pos = record { file_anchor = end; offset = pos 0 };
  }

abbrev pub anchored : FileAnchor → ℤ → ℤ → ℤ
anchored begin offset end_pos = offset
anchored _ offset end_pos = offset +ℤ end_pos

unfoldable pub get_file_pos : Operation → ℤ → ℤ
get_file_pos ope end_pos = anchored ope.file_pos.file_anchor ope.file_pos.offset end_pos

-- The loops that step over whole slices: the index reached, and the position left in that slice.
unfoldable pub skip : ℤ → List Slice → ℕ × ℤ
skip z [] = (0, z)
skip z (s ∷ ss) =
    let rest = skip (z -ℤ get_size s) ss in
    if leb_ℤ (get_size s) z then (suc rest.0, rest.1) else (0, z)

-- list[i] = firstPart, then the new slice and the second part behind it.
unfoldable pub split_insert : ℕ → ℤ → Slice → List Slice → Option (List Slice)
split_insert i z new ss = do
  s ← get_elem? ss i
  ss' ← set_elem? ss i (sub_slice s (pos 0) z)
  insert_all (suc i) (new ∷ sub_slice s z (get_size s -ℤ z) ∷ []) ss'

-- The branch `filePos != totalLength` of an insertion.
unfoldable pub insert_inside : Slice → ℤ → List Slice → Option (List Slice)
unfolding skip split_insert
insert_inside new z ss =
    let found = skip z ss in
    if eqb_ℤ found.1 (pos 0)
    then insert_all found.0 (new ∷ []) ss
    else split_insert found.0 found.1 new ss

unfoldable pub insert_step : Slice → ℤ → ℤ → List Slice → Option (List Slice)
unfolding insert_inside
insert_step new z total ss = if eqb_ℤ z total then some (ss ++ new ∷ []) else insert_inside new z ss

-- The deleted range lies in slice `i`, which becomes two.
unfoldable pub cut_one : ℕ → Slice → ℤ → ℤ → List Slice → Option (List Slice)
cut_one i s from span ss = do
  ss' ← set_elem? ss i (sub_slice s (pos 0) from)
  insert_all (suc i) (sub_slice s (from +ℤ span) (get_size s -ℤ from -ℤ span) ∷ []) ss'

-- The deleted range ends in a later slice `j`.
unfoldable pub cut_many : ℕ → Slice → ℤ → ℤ → List Slice → Option (List Slice)
unfolding skip
cut_many i s from span ss = do
  let found = skip (from +ℤ span) (drop i ss)
  let j = i + found.0
  ss' ← set_elem? ss i (sub_slice s (pos 0) from)
  last ← get_elem? ss' j
  ss'' ← set_elem? ss' j (sub_slice last found.1 (get_size last -ℤ found.1))
  erase_range (suc i) j ss''

-- list[i] is read whether or not the search ended inside the list.
unfoldable pub delete_step : ℤ → ℤ → List Slice → Option (List Slice)
unfolding skip cut_one cut_many
delete_step from span ss = do
  let found = skip from ss
  s ← get_elem? ss found.0
  if leb_ℤ (found.1 +ℤ span) (get_size s)
      then cut_one found.0 s found.1 span ss
      else cut_many found.0 s found.1 span ss

unfoldable pub combine_one : OperationType → Operation → List Slice × ℤ → Option (List Slice × ℤ)
unfolding get_file_pos insert_step delete_step
combine_one insert ope (ss, total) = do
  ss' ← insert_step ope.slice (get_file_pos ope total) total ss
  some (ss', total +ℤ get_size ope.slice)
combine_one delete ope (ss, total) = do
  ss' ← delete_step (get_file_pos ope total +ℤ ope.slice.start) (get_size ope.slice) ss
  some (ss', total -ℤ get_size ope.slice)
combine_one (other_type n) ope st = some st

unfoldable pub combine_from : List Operation → List Slice × ℤ → Option (List Slice × ℤ)
unfolding combine_one
combine_from [] st = some st
combine_from (ope ∷ opes) st = do st' ← combine_one ope.operation_type ope st; combine_from opes st'

-- CombineOperationsForOneSameObject(operations, out_totalLength)
unfoldable pub combine_operations : List Operation → Option (List Slice × ℤ)
unfolding combine_from
combine_operations opes = combine_from opes ([], pos 0)

-- The overload that starts from an object's content. operations[0] must be there.
unfoldable pub combine_with_content : List ℕ → List Operation → Option (List Slice × ℤ)
unfolding combine_operations write_wrapper
combine_with_content content [] = none
combine_with_content content (ope ∷ opes) =
    combine_operations (write_wrapper ope.obj content ∷ ope ∷ opes)

-- WriteSequence of GetBufferFromSlices: the bytes from `start`, within the buffer and the terminator
-- of c_str() behind it.
abbrev pub window : List ℕ → ℤ → ℤ → Option (List ℕ)
window d (pos a) (pos len) =
    if leb (a + len) (length d + 1) then some (take len (drop a (d ++ 0 ∷ []))) else none
window d _ _ = none

abbrev pub slice_bytes : Option Buffer → ℤ → ℤ → Option (List ℕ)
slice_bytes none start size = some []
slice_bytes (some src) start size = window src.content start size

unfoldable pub append_slices : Buffer → List Slice → Option Buffer
append_slices b [] = some b
append_slices b (s ∷ ss) = do
  bytes ← slice_bytes s.source s.start (get_size s)
  append_slices (append b bytes) ss

unfoldable pub get_buffer_from_slices : List Slice → Option Buffer
unfolding append_slices
get_buffer_from_slices = append_slices (of_content [])
