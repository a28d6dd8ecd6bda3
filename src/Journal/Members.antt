-- ===== src/Journal/Members.antt =====
-- Which nodes take a write: GDFileStore::HandleWriteOperation of src/GDFileStore.cpp.
use gdfile_store.Base.{
  ℕ, ◌≡◌, refl, sym, true, false, Bool-cases, inl, inr, some, List, [], ◌∷◌, ◌>>=◌, bytes_eq,
  bytes_eq_iff, if◌then◌else◌,
}
use gdfile_store.Object.{Operation, InfoForOsd}
use gdfile_store.Journal.{Journal, handle_write_operations, named_in, handle_write_operation}

bytes_eq_sym : (a b : List ℕ) → bytes_eq a b ≡ true → bytes_eq b a ≡ true
bytes_eq_sym a b h = (bytes_eq_iff b a).1 (sym ((bytes_eq_iff a b).0 h))

module _ (name : List ℕ) (ope : Operation) (j : Journal) where
  -- A node takes a write, and flushes its journal with it, exactly where it is named among the
  -- nodes of the request, as the primary or not; else, and for no nodes at all, it answers false
  -- and its journal stays.
  pub handle_write_operation-named_in :
      (osds : List InfoForOsd)
      → handle_write_operation name ope osds j ≡ (
          if named_in name osds
          then handle_write_operations (ope ∷ []) true j >>= (λ (j' : Journal). some (true, j'))
          else some (false, j))
  unfolding handle_write_operation named_in
  handle_write_operation-named_in [] = refl
  handle_write_operation-named_in (o ∷ osds) = elim (Bool-cases (bytes_eq o.name name)) [
    | inl e ↦ rw (e, bytes_eq_sym o.name name e)
    | inr e ↦ rw e
  ]
