-- ===== src/FileStore/Shape.antt =====
-- What one edit of do_WOPE does to the list of blocks and to the node.
use gdfile_store.Base.{
  ℕ, suc, ◌≤◌, ◌≡◌, ◌⊎◌, inl, inr, sym, ◌∙◌, Bool-cases, none, some, List, [], ◌∷◌, ◌++◌, arith,
  leb, ltb, length, take-append-drop, take, drop,
}
use gdfile_store.Base.Int.{ℤ}
use gdfile_store.Object.{OpeType, insert, delete, over_write, other_ope}
use gdfile_store.FileStore.Edits.{made, new_block-made}
use gdfile_store.FileStore.{Node, new_block, edit_at}

-- The list is cut or left, or the block whose number the clock gave is put into it.
abbrev pub Shape : List ℤ → Node → List ℤ → Node → Type 0
Shape serials node serials' node' =
    ((i j : ℕ) × (i ≤ j) × (serials' ≡ take i serials ++ drop j serials) × (node' ≡ node))
    ⊎ ((i j : ℕ) × (i ≤ j)
        × (d : List ℕ) × (s : ℤ) × (clock : List ℤ) × (serials'
            ≡ take i serials ++ s ∷ drop j serials)
        × (node.clock ≡ s ∷ clock)
        × (node' ≡ made d node s clock))

no_clock : (d : List ℕ) (node : Node) → node.clock ≡ [] → new_block d node ≡ none
unfolding new_block
no_clock d node e = rw e

pub edit_at-Shape :
    (t : OpeType) (k : ℕ) (d : List ℕ) (serials : List ℤ) (node : Node) (clock : List ℤ)
    → node.clock ≡ clock
    → (serials' : List ℤ) (node' : Node) → edit_at t k d serials node ≡ some (serials', node')
    → Shape serials node serials' node'
unfolding edit_at
edit_at-Shape delete k d serials node clock e serials' node' run =
    elim (Bool-cases (ltb k (length serials))) [
      | inl h ↦ let same = rw h at run in inl (k, suc k, omega arith, cc, cc)
      | inr h ↦ absurd (cc (rw h at run))
    ]
edit_at-Shape (other_ope n) k d serials node clock e serials' node' run =
    elim (Bool-cases (leb k (length serials))) [
      | inl h ↦
          let same = rw h at run in
          let list : serials ≡ serials' = cc in
          inl (k, k, omega arith, sym (take-append-drop k serials ∙ list), cc)
      | inr h ↦ absurd (cc (rw h at run))
    ]
edit_at-Shape insert k d serials node [] e serials' node' run =
    absurd (cc (rw (no_clock d node e) at run))
edit_at-Shape insert k d serials node (s ∷ clock) e serials' node' run =
    elim (Bool-cases (leb k (length serials))) [
      | inl h ↦
          let same = rw (new_block-made d node s clock e, h) at run in
          inr (k, k, omega arith, d, s, clock, cc, e, cc)
      | inr h ↦ absurd (cc (rw (new_block-made d node s clock e, h) at run))
    ]
edit_at-Shape over_write k d serials node [] e serials' node' run =
    absurd (cc (rw (no_clock d node e) at run))
edit_at-Shape over_write k d serials node (s ∷ clock) e serials' node' run =
    elim (Bool-cases (ltb k (length serials))) [
      | inl h ↦
          let same = rw (new_block-made d node s clock e, h) at run in
          inr (k, suc k, omega arith, d, s, clock, cc, e, cc)
      | inr h ↦ absurd (cc (rw (new_block-made d node s clock e, h) at run))
    ]
