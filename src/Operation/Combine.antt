-- ===== src/Operation/Combine.antt =====
-- CombineOperationsForOneSameObject computes the text that the operations, made one after the
-- other, leave; GetBufferFromSlices copies it out.
use gdfile_store.Base.{
  ℕ, ◌+◌, ◌-◌, ◌≤◌, ◌<◌, ◌≡◌, ◌⊎◌, true, refl, sym, ap, ◌∙◌, inl, inr, Option, none, some, List, [],
  ◌∷◌, ◌++◌, arith, leb, le→leb, length, take, drop, length-append, take-append_left,
  drop-append_left, length-take, length-drop,
}
use gdfile_store.Base.Int.{ℤ, pos, ◌+ℤ◌, pos-sub, pos-add}
use gdfile_store.Buffer.{Buffer, of_content, append, append-append, append-nil_lem}
use gdfile_store.Codec.{Slice}
use gdfile_store.Slice.{get_size}
use gdfile_store.Slice.Holds.{Holds, get_size-Holds, length-Holds}
use gdfile_store.Object.{Operation, OperationType}
use gdfile_store.Operation.Edit.{Edit, put, cut, edit, edits, Texts}
use gdfile_store.Operation.Insert.{insert_step-Texts}
use gdfile_store.Operation.Delete.{delete_step-Texts}
use gdfile_store.Operation.{
  get_file_pos, combine_one, combine_from, combine_operations, slice_bytes, append_slices,
  get_buffer_from_slices,
}

-- The operation asks for this edit of a text `t`, within the contracts of class Operation.
pub data Asks (t : List ℕ) (ope : Operation) : Edit → Type 0 where
  inserts :
      (n : ℕ) (xs : List ℕ)
      → ope.operation_type ≡ OperationType.insert
      → get_file_pos ope (pos (length t)) ≡ pos n
      → n ≤ length t
      → Holds ope.slice xs
      → Asks t ope (put n xs)
  deletes :
      (n m : ℕ)
      → ope.operation_type ≡ OperationType.delete
      → get_file_pos ope (pos (length t)) +ℤ ope.slice.start ≡ pos n
      → get_size ope.slice ≡ pos m
      → n < length t
      → n + m ≤ length t
      → Asks t ope (cut n m)

-- A deletion leaves something behind the deleted range.
abbrev pub StopsShort : List ℕ → Edit → Type 0
StopsShort t (put n xs) = Unit {0}
StopsShort t (cut n m) = n + m < length t

length-put :
    (n : ℕ) (xs t : List ℕ) → n ≤ length t → length (edit (put n xs) t) ≡ length t + length xs
unfolding edit
length-put n xs t h = omega (
  arith,
  length-append (take n t) (xs ++ drop n t),
  length-append xs (drop n t),
  length-take n t,
  length-drop n t,
)

length-cut : (n m : ℕ) (t : List ℕ) → n + m ≤ length t → length (edit (cut n m) t) ≡ length t - m
unfolding edit
length-cut n m t h =
    omega (arith, length-append (take n t) (drop (n + m) t), length-take n t, length-drop (n + m) t)

abbrev Combined : Option (List Slice × ℤ) → List ℕ → Type 0
Combined run t = (ss : List Slice) × (run ≡ some (ss, pos (length t))) × Texts ss t

combine_one-Asks :
    (ope : Operation) (e : Edit) (ss : List Slice) (t : List ℕ)
    → Texts ss t
    → Asks t ope e
    → Combined (combine_one ope.operation_type ope (ss, pos (length t))) (edit e t)
      ⊎ ((combine_one ope.operation_type ope (ss, pos (length t)) ≡ none) × ¬ StopsShort t e)
unfolding combine_one edit
combine_one-Asks ope e ss t r (inserts n xs is_insert at_n le holds) =
    let (ss', run, texts) = insert_step-Texts ope.slice xs holds ss n t r le in
    inl (
      ss',
      rw (
        is_insert,
        combine_one,
        at_n,
        run,
        get_size-Holds ope.slice xs holds,
        pos-add (length t) (length xs),
        length-put n xs t le,
      ),
      texts,
    )
combine_one-Asks ope e ss t r (deletes n m is_delete at_n size lt room) =
    elim (delete_step-Texts ss n m t r lt room) [
      | inl (ss', run, texts) ↦ inl (
        ss',
        rw (
          is_delete,
          combine_one,
          at_n,
          size,
          run,
          pos-sub (length t) m (omega arith),
          length-cut n m t room,
        ),
        texts,
      )
      | inr (run, at_end) ↦ inr (rw (is_delete, combine_one, at_n, size, run), λ short. omega arith)
    ]

-- Each operation asks for its edit of the text that the ones before it leave.
abbrev pub Requests : List ℕ → List Operation → List Edit → Type 0
Requests t [] [] = Unit {0}
Requests t (ope ∷ opes) (e ∷ es) = Asks t ope e × Requests (edit e t) opes es
Requests t _ _ = ⊥

abbrev pub AllStopShort : List ℕ → List Edit → Type 0
AllStopShort t [] = Unit {0}
AllStopShort t (e ∷ es) = StopsShort t e × AllStopShort (edit e t) es

combine_from-Texts :
    (opes : List Operation) (es : List Edit) (ss : List Slice) (t : List ℕ)
    → Texts ss t
    → Requests t opes es
    → Combined (combine_from opes (ss, pos (length t))) (edits es t)
      ⊎ ((combine_from opes (ss, pos (length t)) ≡ none) × ¬ AllStopShort t es)
unfolding combine_from edits
combine_from-Texts [] [] ss t r q = inl (ss, refl, r)
combine_from-Texts [] (e ∷ es) ss t r q = absurd q
combine_from-Texts (ope ∷ opes) [] ss t r q = absurd q
combine_from-Texts (ope ∷ opes) (e ∷ es) ss t r q = elim (combine_one-Asks ope e ss t r q.0) [
  | inl (ss', run, texts) ↦ elim (combine_from-Texts opes es ss' (edit e t) texts q.1) [
    | inl (ss'', run', texts') ↦ inl (ss'', rw (run, combine_from) run', texts')
    | inr (run', not_short) ↦ inr (rw (run, combine_from) run', λ short. not_short short.1)
  ]
  | inr (run, not_short) ↦ inr (rw (run, combine_from), λ short. not_short short.0)
]

module _ (opes : List Operation) (es : List Edit) (q : Requests [] opes es) where
  -- Operations within the contracts, each of whose deletions stops short of the end of the text
  -- that it finds, combine to slices whose texts make up what the edits leave, and out_totalLength
  -- is the length of that text.
  pub combine_operations-edits :
      AllStopShort [] es
      → (ss : List Slice) × (combine_operations opes ≡ some (ss, pos (length (edits es []))))
        × Texts ss (edits es [])
  unfolding combine_operations
  combine_operations-edits short = elim (combine_from-Texts opes es [] [] refl q) [
    | inl combined ↦ combined
    | inr (run, not_short) ↦ absurd (not_short short)
  ]

  -- Operations within the contracts, deletions up to the end included, give that text or run out
  -- of the list of slices: no other text and no other length is returned.
  pub combine_operations_sound :
      (ss : List Slice) (total : ℤ)
      → combine_operations opes ≡ some (ss, total)
      → Texts ss (edits es []) × (total ≡ pos (length (edits es [])))
  unfolding combine_operations
  combine_operations_sound ss total e = elim (combine_from-Texts opes es [] [] refl q) [
    | inl (ss', run, texts) ↦ let same : ss' ≡ ss = cc in (rw (← same) texts, cc)
    | inr (run, not_short) ↦ absurd (cc)
  ]

slice_bytes-Holds :
    (s : Slice) (xs : List ℕ) → Holds s xs → slice_bytes s.source s.start (get_size s) ≡ some xs
slice_bytes-Holds s xs h =
    let d = h.src.content in
    let fits : leb (h.a + (h.b - h.a)) (length d + 1) ≡ true =
      le→leb _ _ (omega (arith, h.ordered, h.within)) in
    let inside : take (h.b - h.a) (drop h.a (d ++ 0 ∷ [])) ≡ take (h.b - h.a) (drop h.a d) =
      ap (take (h.b - h.a)) (drop-append_left h.a d (0 ∷ []) (omega (arith, h.ordered, h.within)))
      ∙ take-append_left (h.b - h.a) (drop h.a d) (0 ∷ [])
          (omega (arith, h.ordered, h.within, length-drop h.a d)) in
    rw (get_size-Holds s xs h, length-Holds s xs h)
      (ap (λ (t : Slice). slice_bytes t.source t.start (pos (h.b - h.a))) h.is_span
        ∙ rw (fits, inside) (ap some (sym h.content)))

append_slices-Texts :
    (b : Buffer) (ss : List Slice) (t : List ℕ)
    → Texts ss t
    → append_slices b ss ≡ some (append b t)
unfolding append_slices
append_slices-Texts b [] t e = rw e (ap some (sym (append-nil_lem b)))
append_slices-Texts b (s ∷ ss) t (u, v, h, r, e) =
    rw (slice_bytes-Holds s u h, append_slices-Texts (append b u) ss v r, e)
      (ap some (append-append b u v))

-- The buffer made of the slices holds their text.
pub get_buffer_from_slices-Texts :
    (ss : List Slice) (t : List ℕ) → Texts ss t → get_buffer_from_slices ss ≡ some (of_content t)
unfolding get_buffer_from_slices append
get_buffer_from_slices-Texts ss t r = append_slices-Texts (of_content []) ss t r
