-- ===== src/Operation/CutTail.antt =====
-- A deletion that goes past the slice where it begins: what happens to the slices behind.
use gdfile_store.Base.{
  ℕ, suc, ◌+◌, ◌-◌, ◌≤◌, ◌<◌, ◌≡◌, refl, ap, ◌∙◌, inl, inr, Bool-cases, Option, none, some, List,
  [], ◌∷◌, arith, leb, length, drop, length-append, drop-append_left, drop-append_right, get_elem?,
  ◌>>=◌,
}
use gdfile_store.Base.Int.{ℤ, pos, ◌-ℤ◌, ◌+ℤ◌, pos-add}
use gdfile_store.Codec.{Slice}
use gdfile_store.Slice.{get_size, sub_slice}
use gdfile_store.Slice.Holds.{get_size-Holds}
use gdfile_store.Operation.Edit.{Texts}
use gdfile_store.Operation.Insert.{drop_head-Holds, skip-past, skip-here}
use gdfile_store.Operation.Lists.{keep_head, set_elem?, erase_range}
use gdfile_store.Operation.{skip, cut_one, cut_many, delete_step}

-- What `cut_many` does behind the slice where the range begins.
unfoldable pub cut_tail : ℤ → List Slice → Option (List Slice)
cut_tail z ss = do
  last ← get_elem? ss (skip z ss).0
  ss' ← set_elem? ss (skip z ss).0 (sub_slice last (skip z ss).1 (get_size last -ℤ (skip z ss).1))
  erase_range 0 (skip z ss).0 ss'

pub cut_tail-past :
    (s : Slice) (ss : List Slice) (k p : ℕ)
    → get_size s ≡ pos k
    → k ≤ p
    → cut_tail (pos p) (s ∷ ss) ≡ cut_tail (pos (p - k)) ss
unfolding cut_tail
cut_tail-past s ss k p size h = rw (skip-past s ss k size p h, cut_tail) (ground arith)

pub cut_tail-Texts :
    (ss : List Slice) (p : ℕ) (v : List ℕ)
    → Texts ss v
    → p < length v
    → (ss' : List Slice) × (cut_tail (pos p) ss ≡ some ss') × Texts ss' (drop p v)
unfolding cut_tail
cut_tail-Texts [] p v e lt = absurd (omega (arith, ap length e))
cut_tail-Texts (s ∷ ss) p t (u, v, h, r, e) lt =
    let lt' : p < length u + length v = omega (arith, ap length e, length-append u v) in
    rw e (elim (Bool-cases (leb (length u) p)) [
      | inl past ↦
          let le : length u ≤ p = ground arith in
          let (ss', run, texts) = cut_tail-Texts ss (p - length u) v r (omega arith) in
          (
            ss',
            cut_tail-past s ss (length u) p (get_size-Holds s u h) le ∙ run,
            rw (drop-append_right p u v le) texts,
          )
      | inr here ↦
          let le : p < length u = ground arith in
          (
            sub_slice s (pos p) (get_size s -ℤ pos p) ∷ ss,
            rw (skip-here s ss (length u) (get_size-Holds s u h) p le, cut_tail),
            (
              drop p u,
              v,
              drop_head-Holds s u p h (omega arith),
              r,
              drop-append_left p u v (omega arith),
            ),
          )
    ])

-- The end of the text lies behind the last slice: `list[j]` is out of bounds.
pub cut_tail_end : (ss : List Slice) (v : List ℕ) → Texts ss v → cut_tail (pos (length v)) ss ≡ none
unfolding cut_tail
cut_tail_end [] v e = refl
cut_tail_end (s ∷ ss) t (u, v, h, r, e) =
    let len : length t ≡ length u + length v = ap length e ∙ length-append u v in
    let rest : length t - length u ≡ length v = omega arith in
    cut_tail-past s ss (length u) (length t) (get_size-Holds s u h) (omega arith)
    ∙ rw rest (cut_tail_end ss v r)

pub cut_many-suc :
    (i : ℕ) (last : Slice) (z span : ℤ) (s : Slice) (ss : List Slice)
    → cut_many (suc i) last z span (s ∷ ss) ≡ keep_head s (cut_many i last z span ss)
unfolding cut_many
cut_many-suc i last z span s ss =
    let j = (skip (z +ℤ span) (drop i ss)).0 in
    let e : suc i + j ≡ suc (i + j) = omega arith in rw (e, cut_many) (ground arith)

pub cut_one-suc :
    (i : ℕ) (x : Slice) (z span : ℤ) (s : Slice) (ss : List Slice)
    → cut_one (suc i) x z span (s ∷ ss) ≡ keep_head s (cut_one i x z span ss)
unfolding cut_one
cut_one-suc i x z span s ss = ground arith

pub cut_many-head :
    (s : Slice) (ss : List Slice) (k n m : ℕ)
    → get_size s ≡ pos k
    → k < n + m
    → cut_many 0 s (pos n) (pos m) (s ∷ ss)
      ≡ keep_head (sub_slice s (pos 0) (pos n)) (cut_tail (pos (n + m - k)) ss)
unfolding cut_many cut_tail
cut_many-head s ss k n m size h =
    let j = (skip (pos (n + m - k)) ss).0 in
    let e : 0 + suc j ≡ suc j = omega arith in
    rw (pos-add n m, skip-past s ss k size (n + m) (omega arith), e, cut_many) (ground arith)

pub delete_step-past :
    (s : Slice) (ss : List Slice) (k n : ℕ) (span : ℤ)
    → get_size s ≡ pos k
    → k ≤ n
    → delete_step (pos n) span (s ∷ ss) ≡ keep_head s (delete_step (pos (n - k)) span ss)
unfolding delete_step
delete_step-past s ss k n span size h =
    let i = (skip (pos (n - k)) ss).0 in
    let z = (skip (pos (n - k)) ss).1 in
    rw (skip-past s ss k size n h, delete_step)
      (ground (
        arith,
        λ (x : Slice). cut_one-suc i x z span s ss,
        λ (x : Slice). cut_many-suc i x z span s ss,
      ))

-- The outcome of deleting `m` bytes at `n`: the edited text, or an access out of bounds, which
-- needs a range that ends where the text ends.
