-- ===== src/Operation/Delete.antt =====
-- A deletion from the slices is a deletion from the text, or an access past the last slice.
use gdfile_store.Base.{
  ℕ, ◌+◌, ◌-◌, ◌≤◌, ◌<◌, ◌≡◌, ◌⊎◌, refl, ap, ◌∙◌, inl, inr, Bool-cases, Option, none, some, List,
  [], ◌∷◌, ◌++◌, append_assoc, arith, leb, lt→leb, if◌then◌else◌, length, take, drop, length-append,
  take-append_left, take-append_right, drop-append_left, drop-append_right,
}
use gdfile_store.Base.Int.{pos, ◌-ℤ◌, pos-sub, pos-add}
use gdfile_store.Codec.{Slice}
use gdfile_store.Slice.{get_size, sub_slice}
use gdfile_store.Slice.Holds.{Holds, get_size-Holds}
use gdfile_store.Operation.Edit.{Texts}
use gdfile_store.Operation.Insert.{leb_pos, take_head-Holds, drop_head-Holds, skip-here}
use gdfile_store.Operation.CutTail.{cut_tail-Texts, cut_tail_end, cut_many-head, delete_step-past}
use gdfile_store.Operation.Lists.{keep_head}
use gdfile_store.Operation.{cut_one, cut_many, delete_step}

abbrev pub Deleted : Option (List Slice) → ℕ → ℕ → List ℕ → Type 0
Deleted run n m t =
    ((ss' : List Slice) × (run ≡ some ss') × Texts ss' (take n t ++ drop (n + m) t))
    ⊎ ((run ≡ none) × (n + m ≡ length t))

delete_step-here :
    (s : Slice) (ss : List Slice) (k n m : ℕ)
    → get_size s ≡ pos k
    → n < k
    → delete_step (pos n) (pos m) (s ∷ ss) ≡ (
        if leb (n + m) k
        then cut_one 0 s (pos n) (pos m) (s ∷ ss)
        else cut_many 0 s (pos n) (pos m) (s ∷ ss))
unfolding delete_step
delete_step-here s ss k n m size lt =
    rw (skip-here s ss k size n lt, delete_step) (rw (size, pos-add n m, leb_pos (n + m) k))

cut_one-Texts :
    (s : Slice) (ss : List Slice) (u v : List ℕ) (n m : ℕ)
    → Holds s u
    → Texts ss v
    → n + m ≤ length u
    → Deleted (cut_one 0 s (pos n) (pos m) (s ∷ ss)) n m (u ++ v)
unfolding cut_one
cut_one-Texts s ss u v n m h r le =
    let e : length u - n - m ≡ length u - (n + m) = omega arith in
    let back : get_size s -ℤ pos n -ℤ pos m ≡ get_size s -ℤ pos (n + m) = rw (
      get_size-Holds s u h,
      pos-sub (length u) n (omega arith),
      pos-sub (length u - n) m (omega arith),
      pos-sub (length u) (n + m) le,
      e,
    ) in
    inl (
      sub_slice s (pos 0) (pos n) ∷ sub_slice s (pos (n + m)) (get_size s -ℤ pos (n + m)) ∷ ss,
      rw (pos-add n m, back),
      (
        take n u,
        drop (n + m) u ++ v,
        take_head-Holds s u n h (omega arith),
        (drop (n + m) u, v, drop_head-Holds s u (n + m) h le, r, refl),
        rw (take-append_left n u v (omega arith), drop-append_left (n + m) u v le),
      ),
    )

cut_many-Texts :
    (s : Slice) (ss : List Slice) (u v : List ℕ) (n m : ℕ)
    → Holds s u
    → Texts ss v
    → n < length u
    → length u < n + m
    → n + m ≤ length u + length v
    → Deleted (cut_many 0 s (pos n) (pos m) (s ∷ ss)) n m (u ++ v)
cut_many-Texts s ss u v n m h r lt past room =
    rw (cut_many-head s ss (length u) n m (get_size-Holds s u h) past)
      (elim (Bool-cases (leb (length u + length v) (n + m))) [
        | inl whole ↦
            let e : n + m - length u ≡ length v = ground arith in
            inr (rw (e, cut_tail_end ss v r), ground (arith, length-append u v))
        | inr part ↦
            let (ss', run, texts) = cut_tail-Texts ss (n + m - length u) v r (ground arith) in
            inl (
              sub_slice s (pos 0) (pos n) ∷ ss',
              rw run,
              (
                take n u,
                drop (n + m - length u) v,
                take_head-Holds s u n h (omega arith),
                texts,
                rw (
                  take-append_left n u v (omega arith),
                  drop-append_right (n + m) u v (omega arith),
                ),
              ),
            )
      ])

delete_here :
    (s : Slice) (ss : List Slice) (u v : List ℕ) (n m : ℕ)
    → Holds s u
    → Texts ss v
    → n < length u
    → n + m ≤ length u + length v
    → Deleted (delete_step (pos n) (pos m) (s ∷ ss)) n m (u ++ v)
delete_here s ss u v n m h r lt room =
    rw (delete_step-here s ss (length u) n m (get_size-Holds s u h) lt)
      (elim (Bool-cases (leb (n + m) (length u))) [
        | inl one ↦ rw one (cut_one-Texts s ss u v n m h r (ground arith))
        | inr many ↦ rw many (cut_many-Texts s ss u v n m h r lt (ground arith) room)
      ])

Deleted-past :
    (s : Slice) (u v : List ℕ) (run : Option (List Slice)) (n m : ℕ)
    → Holds s u
    → length u ≤ n
    → Deleted run (n - length u) m v
    → Deleted (keep_head s run) n m (u ++ v)
Deleted-past s u v run n m h le (inl (ss', e, texts)) =
    let shift : n + m - length u ≡ n - length u + m = omega arith in
    inl (
      s ∷ ss',
      rw e,
      (
        u,
        take (n - length u) v ++ drop (n - length u + m) v,
        h,
        texts,
        rw (take-append_right n u v le, drop-append_right (n + m) u v (omega arith), shift)
            (append_assoc u _ _),
      ),
    )
Deleted-past s u v run n m h le (inr (e, at_end)) = inr (rw e, omega (arith, length-append u v))

-- A deletion that begins inside the text and does not pass its end.
pub delete_step-Texts :
    (ss : List Slice) (n m : ℕ) (t : List ℕ)
    → Texts ss t
    → n < length t
    → n + m ≤ length t
    → Deleted (delete_step (pos n) (pos m) ss) n m t
delete_step-Texts [] n m t e lt room = absurd (omega (arith, ap length e))
delete_step-Texts (s ∷ ss) n m t (u, v, h, r, e) lt room =
    let len : length t ≡ length u + length v = ap length e ∙ length-append u v in
    rw e (elim (Bool-cases (leb (length u) n)) [
      | inl past ↦
          let le : length u ≤ n = ground arith in
          rw (delete_step-past s ss (length u) n (pos m) (get_size-Holds s u h) le) (
            Deleted-past s u v (delete_step (pos (n - length u)) (pos m) ss) n m h le
              (delete_step-Texts ss (n - length u) m v r (omega arith) (omega arith)))
      | inr here ↦ delete_here s ss u v n m h r (ground arith) (omega arith)
    ])

-- The range ends with the text and begins before its last piece: the search runs off the list.
pub delete_step_off_end :
    (s : Slice) (ss : List Slice) (u v : List ℕ) (n m : ℕ)
    → Holds s u
    → Texts ss v
    → n < length u
    → 0 < length v
    → n + m ≡ length u + length v
    → delete_step (pos n) (pos m) (s ∷ ss) ≡ none
delete_step_off_end s ss u v n m h r lt more e =
    let rest : n + m - length u ≡ length v = omega arith in
    rw (
      delete_step-here s ss (length u) n m (get_size-Holds s u h) lt,
      lt→leb (n + m) (length u) (omega arith),
      cut_many-head s ss (length u) n m (get_size-Holds s u h) (omega arith),
      rest,
      cut_tail_end ss v r,
    )
