-- ===== src/Journal/Flush.antt =====
-- A flush leaves in an object's file what the queued writes make of it.
use gdfile_store.Base.{
  ℕ, ◌≡◌, refl, sym, ap, ◌∙◌, true, false, some, List, [], ◌∷◌, ◌++◌, append_assoc, append-nil,
  bytes_eq, bytes_eq_self, bytes_eq_iff, All,
}
use gdfile_store.Object.{GhObject, Operation}
use gdfile_store.Object.Compare.{gh_same, get_obj_unique_str_desc}
use gdfile_store.Operation.{write_wrapper}
use gdfile_store.Operation.Edit.{Edit, edits}
use gdfile_store.Operation.Combine.{Requests, AllStopShort}
use gdfile_store.Operation.Whole.{after_content}
use gdfile_store.KeyValue.Assoc.{find, find-assign_self, find-assign_other}
use gdfile_store.Journal.{
  Journal, read, write, put_group, group, flush_one, flush_all, flush, handle_write_operations,
}

-- Operations on one object come to one group, in their order.
group-one :
    (files : List (List ℕ × List ℕ)) (g : GhObject) (o : Operation) (os opes : List Operation)
    → All (λ (ope : Operation). gh_same g ope.obj ≡ true) opes
    → group files opes ((g, o ∷ os) ∷ []) ≡ (g, o ∷ os ++ opes) ∷ []
unfolding group put_group find
group-one files g o os [] h = ap (λ (v : List Operation). (g, o ∷ v) ∷ []) (sym (append-nil os))
group-one files g o os (ope ∷ opes) h = rw h.0 (
    group-one files g o (os ++ ope ∷ []) opes h.1
    ∙ ap (λ (v : List Operation). (g, o ∷ v) ∷ []) (append_assoc os (ope ∷ []) opes))

group-extended :
    (files : List (List ℕ × List ℕ)) (ope : Operation) (opes : List Operation)
    → All (λ (o : Operation). gh_same ope.obj o.obj ≡ true) opes
    → group files (ope ∷ opes) []
      ≡ (ope.obj, write_wrapper ope.obj (read files (get_obj_unique_str_desc ope.obj)) ∷ ope ∷ opes)
        ∷ []
unfolding group put_group find
group-extended files ope opes h = group-one files ope.obj _ (ope ∷ []) opes h

module _ (j : Journal) (ope : Operation) (opes : List Operation) (es : List Edit)
    (empty : j.wopes ≡ []) (one_object : All (λ (o : Operation). gh_same ope.obj o.obj ≡ true) opes)
    (q : Requests (read j.files (get_obj_unique_str_desc ope.obj)) (ope ∷ opes) es)
    (short : AllStopShort (read j.files (get_obj_unique_str_desc ope.obj)) es) where
  desc : List ℕ
  desc = get_obj_unique_str_desc ope.obj

  flushed : Journal
  unfolding desc
  flushed = record { files = write j.files desc (edits es (read j.files desc)); wopes = [] }

  handle_write_operations-flushed : handle_write_operations (ope ∷ opes) true j ≡ some flushed
  unfolding handle_write_operations flush flush_all flush_one flushed desc
  handle_write_operations-flushed =
      let (ss, run, buffer) = after_content (read j.files desc) (ope ∷ opes) es q short ope.obj in
      rw (empty, group-extended j.files ope opes one_object, flush_all, flush_one, run, buffer)

  -- Writes of one object, within the contracts and with deletions that stop short of the end, that
  -- are handled as an emergency by a journal with an empty queue: the object's file holds its old
  -- text with the edits made in their order, every other file is as it was, and the queue is empty.
  pub handle_write_operations-edits :
      (name : List ℕ)
      → bytes_eq (get_obj_unique_str_desc ope.obj) name ≡ false
      → (j' : Journal) × (handle_write_operations (ope ∷ opes) true j ≡ some j')
        × (read j'.files (get_obj_unique_str_desc ope.obj)
            ≡ edits es (read j.files (get_obj_unique_str_desc ope.obj)))
        × (read j'.files name ≡ read j.files name)
        × (j'.wopes ≡ [])
  unfolding read write flushed desc
  handle_write_operations-edits name apart = (
    flushed,
    handle_write_operations-flushed,
    rw (
        find-assign_self bytes_eq (get_obj_unique_str_desc ope.obj) (edits es (read j.files desc))
          j.files (bytes_eq_self (get_obj_unique_str_desc ope.obj))),
    rw (
        find-assign_other bytes_eq (get_obj_unique_str_desc ope.obj) name
          (edits es (read j.files desc)) j.files apart
          (λ i e. rw ((bytes_eq_iff i (get_obj_unique_str_desc ope.obj)).0 e) apart)),
    refl,
  )
