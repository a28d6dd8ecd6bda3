-- ===== src/Operation/Wrappers.antt =====
-- What the operations that OperationWrapper makes ask for.
use gdfile_store.Base.{ℕ, ◌-◌, ◌≤◌, ◌<◌, refl, sym, ap, ◌∙◌, List, arith, length, take-all}
use gdfile_store.Base.Int.{pos, pos-sub, pos-add}
use gdfile_store.Buffer.{of_content}
use gdfile_store.Slice.{get_size}
use gdfile_store.Slice.Holds.{Holds}
use gdfile_store.Object.{GhObject}
use gdfile_store.Operation.Edit.{put, cut}
use gdfile_store.Operation.Combine.{Asks, inserts, deletes}
use gdfile_store.Operation.{
  slice_of, insert_wrapper, write_wrapper, append_wrapper, delete_wrapper, get_file_pos,
}

pub slice_of-Holds : (xs : List ℕ) → Holds (slice_of xs) xs
unfolding slice_of
slice_of-Holds xs = record {
  src = of_content xs;
  a = 0;
  b = length xs;
  is_span = refl;
  ordered = omega arith;
  within = omega arith;
  content = sym (take-all (length xs - 0) xs (omega arith));
}

module _ (gh : GhObject) (xs t : List ℕ) where
  pub write_wrapper-Asks : Asks t (write_wrapper gh xs) (put 0 xs)
  unfolding write_wrapper get_file_pos
  write_wrapper-Asks = inserts 0 xs refl refl (omega arith) (slice_of-Holds xs)

  pub insert_wrapper-Asks :
      (n : ℕ) → n ≤ length t → Asks t (insert_wrapper gh xs (pos n)) (put n xs)
  unfolding insert_wrapper get_file_pos
  insert_wrapper-Asks n h = inserts n xs refl refl h (slice_of-Holds xs)

  pub append_wrapper-Asks : Asks t (append_wrapper gh xs) (put (length t) xs)
  unfolding append_wrapper get_file_pos
  append_wrapper-Asks =
      inserts (length t) xs refl (pos-add 0 (length t) ∙ ap pos (omega arith)) (omega arith)
        (slice_of-Holds xs)

module _ (gh : GhObject) (t : List ℕ) where
  pub delete_wrapper-Asks :
      (a z : ℕ)
      → a ≤ z
      → a < length t
      → z ≤ length t
      → Asks t (delete_wrapper gh (pos a) (pos z)) (cut a (z - a))
  unfolding delete_wrapper get_file_pos get_size
  delete_wrapper-Asks a z h k l =
      deletes a (z - a) refl (pos-add 0 a ∙ ap pos (omega arith)) (pos-sub z a h) k (omega arith)
