-- ===== src/Operation/Insert.antt =====
-- An insertion into the slices is an insertion into the text.
use gdfile_store.Base.{
  ℕ, zero, suc, ◌+◌, ◌-◌, ◌≤◌, ◌<◌, ◌≡◌, refl, sym, ap, inl, inr, false, Bool-cases, some, List, [],
  ◌∷◌, ◌++◌, append_assoc, append-nil, arith, leb, le→leb, lt→leb, length, take, drop,
  length-append, length-drop, take-all, drop-all, take-append_left, take-append_right,
  drop-append_left, drop-append_right,
}
use gdfile_store.Base.Int.{ℤ, pos, ◌-ℤ◌, pos-sub, leb_ℤ, eqb_ℤ}
use gdfile_store.Codec.{Slice}
use gdfile_store.Slice.{get_size, sub_slice}
use gdfile_store.Slice.Holds.{Holds, get_size-Holds, sub_slice-Holds}
use gdfile_store.Operation.Edit.{Texts}
use gdfile_store.Operation.Lists.{keep_head}
use gdfile_store.Operation.{skip, split_insert, insert_inside, insert_step}

pub leb_pos : (a b : ℕ) → leb_ℤ (pos a) (pos b) ≡ leb a b
leb_pos a b = ground arith

pub eqb_pos_zero : (n : ℕ) → eqb_ℤ (pos (suc n)) (pos 0) ≡ false
eqb_pos_zero n = ground arith

-- The head's text: before position `n`, all of it; behind it, its rest.
pub take_head-Holds :
    (s : Slice) (u : List ℕ) (n : ℕ)
    → Holds s u
    → n ≤ length u
    → Holds (sub_slice s (pos 0) (pos n)) (take n u)
take_head-Holds s u n h k = sub_slice-Holds s u 0 n h (omega arith)

pub drop_head-Holds :
    (s : Slice) (u : List ℕ) (n : ℕ)
    → Holds s u
    → n ≤ length u
    → Holds (sub_slice s (pos n) (get_size s -ℤ pos n)) (drop n u)
drop_head-Holds s u n h k =
    rw
      (
        get_size-Holds s u h,
        pos-sub (length u) n k,
        ← take-all (length u - n) (drop n u) (omega (arith, length-drop n u)),
      )
      (sub_slice-Holds s u n (length u - n) h (omega arith))

module _ (s : Slice) (ss : List Slice) (k : ℕ) (size : get_size s ≡ pos k) where
  -- The loops pass a slice that ends before the position, and stop in one that does not.
  pub skip-past :
      (n : ℕ)
      → k ≤ n
      → skip (pos n) (s ∷ ss) ≡ (suc (skip (pos (n - k)) ss).0, (skip (pos (n - k)) ss).1)
  unfolding skip
  skip-past n h = rw (size, leb_pos k n, le→leb k n h, pos-sub n k h)

  pub skip-here : (n : ℕ) → n < k → skip (pos n) (s ∷ ss) ≡ (0, pos n)
  unfolding skip
  skip-here n h = rw (size, leb_pos k n, lt→leb k n h)

split_insert-suc :
    (i : ℕ) (z : ℤ) (new s : Slice) (ss : List Slice)
    → split_insert (suc i) z new (s ∷ ss) ≡ keep_head s (split_insert i z new ss)
unfolding split_insert
split_insert-suc i z new s ss = ground arith

insert_inside-past :
    (new s : Slice) (ss : List Slice) (k n : ℕ)
    → get_size s ≡ pos k
    → k ≤ n
    → insert_inside new (pos n) (s ∷ ss) ≡ keep_head s (insert_inside new (pos (n - k)) ss)
unfolding insert_inside
insert_inside-past new s ss k n size h =
    rw (skip-past s ss k size n h, insert_inside)
      (elim (Bool-cases (eqb_ℤ (skip (pos (n - k)) ss).1 (pos 0))) [
        | inl e ↦ rw e
        | inr e ↦ rw e (split_insert-suc _ _ new s ss)
      ])

-- Past the head, the edit is one of the rest.
put-past :
    (u v xs : List ℕ) (n : ℕ)
    → length u ≤ n
    → u ++ (take (n - length u) v ++ (xs ++ drop (n - length u) v))
      ≡ take n (u ++ v) ++ (xs ++ drop n (u ++ v))
put-past u v xs n h =
    rw (take-append_right n u v h, drop-append_right n u v h) (sym (append_assoc u _ _))

module _ (new : Slice) (xs : List ℕ) (holds : Holds new xs) where
  insert_here :
      (s : Slice) (ss : List Slice) (u v : List ℕ) (n : ℕ)
      → Holds s u
      → Texts ss v
      → n < length u
      → (ss' : List Slice) × (insert_inside new (pos n) (s ∷ ss) ≡ some ss')
        × Texts ss' (take n (u ++ v) ++ (xs ++ drop n (u ++ v)))
  unfolding insert_inside
  insert_here s ss u v zero h r lt = (
    new ∷ s ∷ ss,
    rw (skip-here s ss (length u) (get_size-Holds s u h) 0 lt, insert_inside),
    (xs, u ++ v, holds, (u, v, h, r, refl), refl),
  )
  insert_here s ss u v (suc n) h r lt = (
    sub_slice s (pos 0) (pos (suc n))
        ∷ new
        ∷ sub_slice s (pos (suc n)) (get_size s -ℤ pos (suc n))
        ∷ ss,
    rw (
      skip-here s ss (length u) (get_size-Holds s u h) (suc n) lt,
      insert_inside,
      eqb_pos_zero n,
      split_insert,
    ),
    (
      take (suc n) u,
      xs ++ (drop (suc n) u ++ v),
      take_head-Holds s u (suc n) h (omega arith),
      (
        xs,
        drop (suc n) u ++ v,
        holds,
        (drop (suc n) u, v, drop_head-Holds s u (suc n) h (omega arith), r, refl),
        refl,
      ),
      rw (take-append_left (suc n) u v (omega arith), drop-append_left (suc n) u v (omega arith)),
    ),
  )

  insert_inside-Texts :
      (ss : List Slice) (n : ℕ) (t : List ℕ)
      → Texts ss t
      → n < length t
      → (ss' : List Slice) × (insert_inside new (pos n) ss ≡ some ss')
        × Texts ss' (take n t ++ (xs ++ drop n t))
  insert_inside-Texts [] n t e lt = absurd (omega (arith, ap length e))
  insert_inside-Texts (s ∷ ss) n t (u, v, h, r, e) lt =
      let lt' : n < length u + length v = omega (arith, ap length e, length-append u v) in
      rw e (elim (Bool-cases (leb (length u) n)) [
        | inl past ↦
            let le : length u ≤ n = ground arith in
            let (ss', run, texts) = insert_inside-Texts ss (n - length u) v r (omega arith) in
            (
              s ∷ ss',
              rw (insert_inside-past new s ss (length u) n (get_size-Holds s u h) le, run),
              (u, _, h, texts, sym (put-past u v xs n le)),
            )
        | inr here ↦ insert_here s ss u v n h r (ground arith)
      ])

  Texts-append : (ss : List Slice) (t : List ℕ) → Texts ss t → Texts (ss ++ new ∷ []) (t ++ xs)
  Texts-append [] t e = (xs, [], holds, refl, rw (e, append-nil))
  Texts-append (s ∷ ss) t (u, v, h, r, e) =
      (u, v ++ xs, h, Texts-append ss v r, rw (e, append_assoc))

  -- An insertion at a position of the text, its end included, succeeds and edits the text.
  pub insert_step-Texts :
      (ss : List Slice) (n : ℕ) (t : List ℕ)
      → Texts ss t
      → n ≤ length t
      → (ss' : List Slice) × (insert_step new (pos n) (pos (length t)) ss ≡ some ss')
        × Texts ss' (take n t ++ (xs ++ drop n t))
  insert_step-Texts ss n t r le = elim (Bool-cases (eqb_ℤ (pos n) (pos (length t)))) [
    | inl at_end ↦
        let e : n ≡ length t = ground arith in
        (
          ss ++ new ∷ [],
          unfold insert_step in rw at_end,
          rw (take-all n t (omega arith), drop-all n t (omega arith), append-nil xs)
              (Texts-append ss t r),
        )
    | inr inside ↦
        let lt : n < length t = ground arith in
        let (ss', run, texts) = insert_inside-Texts ss n t r lt in
        (ss', unfold insert_step in rw (inside, insert_step) run, texts)
  ]
