-- ===== src/FileStore/Live.antt =====
-- Blocks that an object's list may have while Journal::do_WOPE works on it.
use gdfile_store.Base.{
  ℕ, zero, suc, ◌≤◌, ◌≡◌, ◌⊎◌, inl, inr, sym, ap, ◌∙◌, false, some, List, [], ◌∷◌, ◌++◌, arith,
  take, drop, All, All-take, All-drop, All-append,
}
use gdfile_store.Base.Int.{ℤ, pos, eqb_ℤ}
use gdfile_store.KeyValue.Assoc.{find, find-assign_self, find-assign_other}
use gdfile_store.FileStore.Edits.{
  NotIn, made, block_content-made_other, eqb_self, eqb_other, eqb_sym,
}
use gdfile_store.FileStore.Disk.{OnDisk}
use gdfile_store.FileStore.{Node, block_of, or_default}

-- No number is in the list twice.
abbrev pub Distinct : List ℤ → Type 0
Distinct [] = Unit {0}
Distinct (s ∷ serials) = NotIn serials s × Distinct serials

Distinct-drop : (j : ℕ) (serials : List ℤ) → Distinct serials → Distinct (drop j serials)
Distinct-drop zero serials h = h
Distinct-drop (suc j) [] h = tt
Distinct-drop (suc j) (x ∷ serials) h = Distinct-drop j serials h.1

pub Distinct-cut :
    (i j : ℕ) (serials : List ℤ)
    → i ≤ j
    → Distinct serials
    → Distinct (take i serials ++ drop j serials)
Distinct-cut zero j serials le h = Distinct-drop j serials h
Distinct-cut (suc i) zero serials le h = absurd (omega arith)
Distinct-cut (suc i) (suc j) [] le h = tt
Distinct-cut (suc i) (suc j) (x ∷ serials) le h = (
  All-append _ (take i serials) (drop j serials) (All-take _ i serials h.0)
      (All-drop _ j serials h.0),
  Distinct-cut i j serials (omega arith) h.1,
)

pub Distinct-around :
    (i j : ℕ) (s : ℤ) (serials : List ℤ)
    → i ≤ j
    → NotIn serials s
    → Distinct serials
    → Distinct (take i serials ++ s ∷ drop j serials)
Distinct-around zero j s serials le n h = (All-drop _ j serials n, Distinct-drop j serials h)
Distinct-around (suc i) zero s serials le n h = absurd (omega arith)
Distinct-around (suc i) (suc j) s [] le n h = (tt, tt)
Distinct-around (suc i) (suc j) s (x ∷ serials) le n h = (
  All-append _ (take i serials) (s ∷ drop j serials) (All-take _ i serials h.0)
      (eqb_sym x s ∙ n.0, All-drop _ j serials h.0),
  Distinct-around i j s serials (omega arith) n.1 h.1,
)

abbrev pub Counted : Node → ℤ → ℕ → Type 0
Counted node s n = block_of node s ≡ record { serial = s; refer_count = pos n }

-- A block of a version that is on the disk, which some version counts.
abbrev pub Stored : Node → ℤ → Type 0
Stored node s = ((n : ℕ) × Counted node s (suc n)) × OnDisk node s

-- Such a block, or one that do_WOPE has just made.
abbrev pub Live : Node → ℤ → Type 0
Live node s =
    Stored node s ⊎ (Counted node s 0 × (c : List ℕ) × (find eqb_ℤ s node.journal ≡ some c))

module _ (d : List ℕ) (node : Node) (s : ℤ) (clock : List ℤ) where
  pub Live-made : Live (made d node s clock) s
  unfolding block_of
  Live-made = inr (
    ap (or_default (record { serial = pos 0; refer_count = pos 0 })) (
        find-assign_self eqb_ℤ s (record { serial = s; refer_count = pos 0 }) node.blocks
          (eqb_self s)),
    d,
    find-assign_self eqb_ℤ s d node.journal (eqb_self s),
  )

  pub block_of-made :
      (x : ℤ) → eqb_ℤ s x ≡ false → block_of (made d node s clock) x ≡ block_of node x
  unfolding block_of
  block_of-made x h = rw (
      find-assign_other eqb_ℤ s x (record { serial = s; refer_count = pos 0 }) node.blocks h
        (λ i. eqb_other s x i h))

  Live-made_other : (x : ℤ) → eqb_ℤ s x ≡ false → Live node x → Live (made d node s clock) x
  Live-made_other x h (inl ((n, count), on_disk)) =
      inl (
        (n, block_of-made x h ∙ count),
        on_disk ∙ sym (block_content-made_other d node s clock x h),
      )
  Live-made_other x h (inr (count, c, file)) = inr (
    block_of-made x h ∙ count,
    c,
    find-assign_other eqb_ℤ s x d node.journal h (λ i. eqb_other s x i h) ∙ file,
  )

  pub All-Live-made :
      (serials : List ℤ)
      → NotIn serials s
      → All (Live node) serials
      → All (Live (made d node s clock)) serials
  All-Live-made [] n h = tt
  All-Live-made (x ∷ serials) n h = (Live-made_other x n.0 h.0, All-Live-made serials n.1 h.1)
