-- ===== src/FileStore/Kept.antt =====
-- What Journal::do_WOPE leaves alone: the other versions of objects, and what is on the disk.
use mathlib.Core.Path.{subst}
use gdfile_store.Base.{
  ℕ, ◌≡◌, ◌⊎◌, inl, inr, refl, ◌∙◌, false, Option-cases, some, List, [], ◌∷◌, bytes_eq,
  bytes_eq_iff,
}
use gdfile_store.Base.Int.{ℤ}
use gdfile_store.Object.{OpeType, Wope}
use gdfile_store.KeyValue.Assoc.{find-assign_other}
use gdfile_store.FileStore.Edits.{contents, Fresh, made, contents-made}
use gdfile_store.FileStore.Shape.{edit_at-Shape}
use gdfile_store.FileStore.Versions.{
  contents-count_up, objects-count_up, contents-with_version, with_version,
}
use gdfile_store.FileStore.{
  Node, object_key, serials_of, steps_to, edit_at, edit_blocks, count_up, journal_wope,
}

abbrev pub Made : Node → Node → Type 0
Made node node' =
    (node' ≡ node)
    ⊎ ((d : List ℕ) × (s : ℤ) × (clock : List ℤ) × (node.clock ≡ s ∷ clock)
        × (node' ≡ made d node s clock))

pub edit_at-Made :
    (t : OpeType) (k : ℕ) (d : List ℕ) (serials : List ℤ) (node : Node) (clock : List ℤ)
    → node.clock ≡ clock
    → (serials' : List ℤ) (node' : Node) → edit_at t k d serials node ≡ some (serials', node')
    → Made node node'
edit_at-Made t k d serials node clock e serials' node' run =
    elim (edit_at-Shape t k d serials node clock e serials' node' run) [
      | inl (i, j, le, list, same) ↦ inl same
      | inr (i, j, le, d', s, clock', list, e', same) ↦ inr (d', s, clock', e', same)
    ]

-- Blocks whose numbers the clock will not give keep their contents, and objects and disk stay.
abbrev Keeps : List ℤ → Node → Node → Type 0
Keeps kept node node' =
    (contents node' kept ≡ contents node kept)
    × (node'.objects ≡ node.objects)
    × (node'.disk ≡ node.disk)
    × Fresh kept node'.clock

Made-Keeps :
    (kept : List ℤ) (node node' : Node)
    → Fresh kept node.clock
    → Made node node'
    → Keeps kept node node'
Made-Keeps kept node node' fresh (inl e) = rw e (refl, refl, refl, fresh)
Made-Keeps kept node node' fresh (inr (d, s, clock, e, same)) =
    let fresh' = subst (Fresh kept) e fresh in
    rw same (contents-made d node s clock kept fresh'.0, refl, refl, fresh'.2)

edit_blocks-Keeps :
    (kept : List ℤ) (types : List OpeType) (nums : List ℤ) (datas : List (List ℕ))
    (serials : List ℤ) (node : Node) (serials' : List ℤ) (node' : Node)
    → Fresh kept node.clock
    → edit_blocks types nums datas serials node ≡ some (serials', node')
    → Keeps kept node node'
unfolding edit_blocks
edit_blocks-Keeps kept types [] datas serials node serials' node' fresh run =
    let same : node ≡ node' = cc in rw (← same) (refl, refl, refl, fresh)
edit_blocks-Keeps kept [] (n ∷ nums) datas serials node serials' node' fresh run = absurd (cc)
edit_blocks-Keeps kept (t ∷ types) (n ∷ nums) [] serials node serials' node' fresh run = absurd (cc)
edit_blocks-Keeps kept (t ∷ types) (n ∷ nums) (d ∷ datas) serials node serials' node' fresh run =
    elim (Option-cases (edit_at t (steps_to n) d serials node)) [
      | inl e ↦ absurd (cc (rw e at run))
      | inr ((mid, node1), e) ↦
          let step =
            Made-Keeps kept node node1 fresh
              (edit_at-Made t (steps_to n) d serials node node.clock refl mid node1 e) in
          let rest =
            edit_blocks-Keeps kept types nums datas mid node1 serials' node' step.3 (rw e at run) in
          (rest.0 ∙ step.0, rest.1 ∙ step.1, rest.2 ∙ step.2, rest.3)
    ]

disk-count_up : (serials : List ℤ) (node : Node) → (count_up serials node).disk ≡ node.disk
unfolding count_up
disk-count_up [] node = refl
disk-count_up (s ∷ serials) node = disk-count_up serials _

module _ (wope : Wope) (node node' : Node) (other new_key : List ℕ)
    (at_new : object_key wope.new_ghobj ≡ some new_key) where
  kept_list :
      (serials : List ℤ) (node1 : Node)
      → node1.objects ≡ node.objects
      → bytes_eq new_key other ≡ false
      → serials_of (with_version new_key serials (count_up serials node1)) other
        ≡ serials_of node other
  unfolding serials_of
  kept_list serials node1 same apart = rw (
    find-assign_other bytes_eq new_key other serials (count_up serials node1).objects apart
        (λ i e. rw ((bytes_eq_iff i new_key).0 e) apart),
    objects-count_up serials node1,
    same,
  )

  -- When do_WOPE has returned, an object under any other key than the new version's, to whose blocks
  -- the clock has no number to give, has the blocks it had, with the contents they had; nothing on
  -- the disk has changed.
  pub journal_wope-others :
      journal_wope wope node ≡ some node'
      → bytes_eq new_key other ≡ false
      → Fresh (serials_of node other) node.clock
      → (serials_of node' other ≡ serials_of node other)
        × (contents node' (serials_of node' other) ≡ contents node (serials_of node other))
        × (node'.disk ≡ node.disk)
  unfolding journal_wope
  journal_wope-others run apart fresh = elim (Option-cases (object_key wope.ghobj)) [
    | inl e ↦ absurd (cc (rw e at run))
    | inr (key, e) ↦
        elim (Option-cases
          (edit_blocks wope.types wope.block_nums wope.block_datas (serials_of node key) node)) [
            | inl e' ↦ absurd (cc (rw (e, e') at run))
            | inr ((serials, node1), e') ↦
                let keep =
                  edit_blocks-Keeps (serials_of node other) wope.types wope.block_nums
                    wope.block_datas (serials_of node key) node serials node1 fresh e' in
                let node2 = with_version new_key serials (count_up serials node1) in
                let same : node2 ≡ node' = cc (rw (e, e', at_new) at run) in
                let list = kept_list serials node1 keep.1 apart in
                rw (← same, list)
                  (
                    refl,
                    contents-with_version new_key serials _ (count_up serials node1)
                        ∙ contents-count_up serials node1 _
                        ∙ keep.0,
                    disk-count_up serials node1 ∙ keep.2,
                  )
          ]
  ]
