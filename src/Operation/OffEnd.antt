-- ===== src/Operation/OffEnd.antt =====
-- Deletions that begin in one slice and end with the object's data.
use gdfile_store.Base.{
  ℕ, ◌+◌, ◌-◌, ◌≤◌, ◌<◌, ◌≡◌, refl, ap, ◌∙◌, inl, inr, Option-cases, none, some, List, [], ◌∷◌,
  ◌++◌, ◌>>=◌, arith, length, length-append,
}
use gdfile_store.Base.Int.{ℤ, pos}
use gdfile_store.Codec.{Slice}
use gdfile_store.Slice.Holds.{Holds, get_size-Holds}
use gdfile_store.Object.{Operation}
use gdfile_store.Operation.Edit.{cut, Texts}
use gdfile_store.Operation.CutTail.{delete_step-past}
use gdfile_store.Operation.Delete.{delete_step_off_end}
use gdfile_store.Operation.Combine.{Asks, deletes}
use gdfile_store.Operation.{delete_step, combine_one, combine_from, combine_operations}

combine_from-append :
    (opes later : List Operation) (r : List Slice × ℤ)
    → combine_from (opes ++ later) r ≡ (combine_from opes r >>= combine_from later)
unfolding combine_from
combine_from-append [] later r = refl
combine_from-append (ope ∷ opes) later r =
    elim (Option-cases (combine_one ope.operation_type ope r)) [
      | inl e ↦ rw (e, combine_from)
      | inr (r', e) ↦ rw (e, combine_from) (combine_from-append opes later r')
    ]

module _ (s : Slice) (back : List Slice) (v w : List ℕ) (holds : Holds s v) (rest : Texts back w)
    (more : 0 < length w) where
  -- The search passes the slices in front, and then runs off the list.
  search_off_end :
      (front : List Slice) (u : List ℕ) (n m : ℕ)
      → Texts front u
      → length u ≤ n
      → n < length u + length v
      → n + m ≡ length u + (length v + length w)
      → delete_step (pos n) (pos m) (front ++ s ∷ back) ≡ none
  search_off_end [] u n m e le lt at_end =
      let none_before : length u ≡ 0 = ap length e in
      delete_step_off_end s back v w n m holds rest (omega arith) more (omega arith)
  search_off_end (f ∷ front) u n m (u1, u2, h, r, e) le lt at_end =
      let len : length u ≡ length u1 + length u2 = ap length e ∙ length-append u1 u2 in
      rw (
        delete_step-past f (front ++ s ∷ back) (length u1) n (pos m) (get_size-Holds f u1 h)
            (omega arith),
        search_off_end front u2 (n - length u1) m r (omega arith) (omega arith) (omega arith),
      )

  fails :
      (front : List Slice) (u : List ℕ) (ope : Operation) (n m : ℕ)
      → Texts front u
      → Asks (u ++ v ++ w) ope (cut n m)
      → length u ≤ n
      → n < length u + length v
      → n + m ≡ length (u ++ v ++ w)
      → combine_one ope.operation_type ope (front ++ s ∷ back, pos (length (u ++ v ++ w))) ≡ none
  unfolding combine_one
  fails front u ope n m texts (deletes _ _ is_delete at_n size lt room) le inside at_end =
      let len : length (u ++ v ++ w) ≡ length u + (length v + length w) =
        omega (arith, length-append (u ++ v) w, length-append u v) in
      rw (
        is_delete,
        combine_one,
        at_n,
        size,
        search_off_end front u n m texts le inside (at_end ∙ len),
      )

-- Operations combine to some slices; then comes a deletion within the contracts that begins in one
-- of the slices, with data in those behind it, and ends where the object's data ends. Whatever comes
-- after it, the combination then accesses the list of slices past its end.
pub delete_to_end_faults :
    (opes later : List Operation) (ope : Operation) (front back : List Slice) (s : Slice)
    (u v w : List ℕ) (n m : ℕ)
    → combine_operations opes ≡ some (front ++ s ∷ back, pos (length (u ++ v ++ w)))
    → Texts front u
    → Holds s v
    → Texts back w
    → Asks (u ++ v ++ w) ope (cut n m)
    → length u ≤ n
    → n < length u + length v
    → 0 < length w
    → n + m ≡ length (u ++ v ++ w)
    → combine_operations (opes ++ ope ∷ later) ≡ none
unfolding combine_operations combine_from
delete_to_end_faults opes later ope front back s u v w n m before tf hs tb asks le inside more
      at_end =
    rw (
      combine_from-append opes (ope ∷ later) ([], pos 0),
      before,
      combine_from,
      fails s back v w hs tb more front u ope n m tf asks le inside at_end,
    )
