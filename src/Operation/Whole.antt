-- ===== src/Operation/Whole.antt =====
-- The overload of CombineOperationsForOneSameObject that starts from the object's content, and the
-- buffer that GetBufferFromSlices makes of its slices.
use gdfile_store.Base.{ℕ, ◌≡◌, sym, ap, ◌∙◌, some, List, [], ◌∷◌, ◌++◌, append-nil, length}
use gdfile_store.Base.Int.{pos}
use gdfile_store.Buffer.{of_content}
use gdfile_store.Codec.{Slice}
use gdfile_store.Object.{GhObject, Operation}
use gdfile_store.Operation.Edit.{Edit, put, edit, edits}
use gdfile_store.Operation.Combine.{
  Requests, AllStopShort, combine_operations-edits, get_buffer_from_slices-Texts,
}
use gdfile_store.Operation.Wrappers.{write_wrapper-Asks}
use gdfile_store.Operation.{
  write_wrapper, combine_operations, combine_with_content, get_buffer_from_slices,
}

pub edit-put_first : (content : List ℕ) → edit (put 0 content) [] ≡ content
unfolding edit
edit-put_first content = append-nil content

module _ (content : List ℕ) (opes : List Operation) (es : List Edit) (q : Requests content opes es)
    (short : AllStopShort content es) where
  -- The first insertion, of the content, precedes operations that are asked of the content.
  pub after_content :
      (gh : GhObject)
      → (ss : List Slice) × (combine_operations (write_wrapper gh content ∷ opes)
          ≡ some (ss, pos (length (edits es content))))
        × (get_buffer_from_slices ss ≡ some (of_content (edits es content)))
  unfolding edits
  after_content gh =
      let first = sym (edit-put_first content) in
      let (ss, run, texts) =
        combine_operations-edits (write_wrapper gh content ∷ opes) (put 0 content ∷ es)
          (write_wrapper-Asks gh content [], rw (edit-put_first content) q)
          (tt, rw (edit-put_first content) short) in
      let same = ap (edits es) (edit-put_first content) in
      (
        ss,
        run ∙ ap (λ (t : List ℕ). some (ss, pos (length t))) same,
        get_buffer_from_slices-Texts ss _ texts ∙ ap (λ (t : List ℕ). some (of_content t)) same,
      )

module _ (content : List ℕ) (ope : Operation) (opes : List Operation) (es : List Edit)
    (q : Requests content (ope ∷ opes) es) (short : AllStopShort content es) where
  -- Starting from an object's content, operations within the contracts, with deletions that stop
  -- short of the end, combine to slices whose buffer holds the content with all the edits made in
  -- their order, and out_totalLength is the length of that buffer.
  pub combine_with_content-edits :
      (ss : List Slice) × (combine_with_content content (ope ∷ opes)
        ≡ some (ss, pos (length (edits es content))))
      × (get_buffer_from_slices ss ≡ some (of_content (edits es content)))
  unfolding combine_with_content
  combine_with_content-edits = after_content content (ope ∷ opes) es q short ope.obj

-- WriteWrapper, which its comment calls an overwrite, puts the new data in front of the content,
-- which stays whole behind it.
pub write_wrapper_prepends :
    (gh : GhObject) (content xs : List ℕ)
    → (ss : List Slice) × (combine_with_content content (write_wrapper gh xs ∷ [])
        ≡ some (ss, pos (length (xs ++ content))))
      × (get_buffer_from_slices ss ≡ some (of_content (xs ++ content)))
unfolding edits
write_wrapper_prepends gh content xs =
    combine_with_content-edits content (write_wrapper gh xs) [] (put 0 xs ∷ [])
      (write_wrapper-Asks gh xs content, tt) (tt, tt)
