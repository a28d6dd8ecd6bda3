-- ===== src/FileStore/Untouched.antt =====
-- Journal::do_WOPE and the move to the disk send nothing and leave the queue of writes alone.
use gdfile_store.Base.{
  ℕ, ◌≡◌, inl, inr, refl, sym, ◌∙◌, Bool-cases, Option-cases, Option, none, some, List, [], ◌∷◌,
}
use gdfile_store.Base.Int.{ℤ, pos, eqb_ℤ}
use gdfile_store.Object.{OpeType, Wope, ReferedBlock}
use gdfile_store.KeyValue.Assoc.{find}
use gdfile_store.FileStore.Kept.{Made, edit_at-Made}
use gdfile_store.FileStore.{
  Node, object_key, serials_of, block_of, steps_to, edit_at, edit_blocks, count_up, journal_wope,
  copied, settle_block, settle,
}

abbrev pub Untouched : Node → Node → Type 0
Untouched node node' = (node'.sent ≡ node.sent) × (node'.wope_logs ≡ node.wope_logs)

Made-Untouched : (node node' : Node) → Made node node' → Untouched node node'
Made-Untouched node node' (inl e) = rw e (refl, refl)
Made-Untouched node node' (inr (d, s, clock, e, same)) = rw same (refl, refl)

edit_blocks-Untouched :
    (types : List OpeType) (nums : List ℤ) (datas : List (List ℕ)) (serials : List ℤ) (node : Node)
    (serials' : List ℤ) (node' : Node)
    → edit_blocks types nums datas serials node ≡ some (serials', node')
    → Untouched node node'
unfolding edit_blocks
edit_blocks-Untouched types [] datas serials node serials' node' run =
    let same : node ≡ node' = cc in rw (← same) (refl, refl)
edit_blocks-Untouched [] (n ∷ nums) datas serials node serials' node' run = absurd (cc)
edit_blocks-Untouched (t ∷ types) (n ∷ nums) [] serials node serials' node' run = absurd (cc)
edit_blocks-Untouched (t ∷ types) (n ∷ nums) (d ∷ datas) serials node serials' node' run =
    elim (Option-cases (edit_at t (steps_to n) d serials node)) [
      | inl e ↦ absurd (cc (rw e at run))
      | inr ((mid, node1), e) ↦
          let step =
            Made-Untouched node node1
              (edit_at-Made t (steps_to n) d serials node node.clock refl mid node1 e) in
          let rest =
            edit_blocks-Untouched types nums datas mid node1 serials' node' (rw e at run) in
          (rest.0 ∙ step.0, rest.1 ∙ step.1)
    ]

count_up-Untouched : (serials : List ℤ) (node : Node) → Untouched node (count_up serials node)
unfolding count_up
count_up-Untouched [] node = (refl, refl)
count_up-Untouched (s ∷ serials) node = count_up-Untouched serials _

pub journal_wope-Untouched :
    (wope : Wope) (node node' : Node) → journal_wope wope node ≡ some node' → Untouched node node'
unfolding journal_wope
journal_wope-Untouched wope node node' run = elim (Option-cases (object_key wope.ghobj)) [
  | inl e ↦ absurd (cc (rw e at run))
  | inr (key, e) ↦
      elim (Option-cases
        (edit_blocks wope.types wope.block_nums wope.block_datas (serials_of node key) node)) [
          | inl e' ↦ absurd (cc (rw (e, e') at run))
          | inr ((serials, node1), e') ↦ elim (Option-cases (object_key wope.new_ghobj)) [
            | inl e'' ↦ absurd (cc (rw (e, e', e'') at run))
            | inr (new_key, e'') ↦
                let made_of =
                  edit_blocks-Untouched wope.types wope.block_nums wope.block_datas
                    (serials_of node key) node serials node1 e' in
                let counted_of = count_up-Untouched serials node1 in
                let found = rw (e, e', e'') at run in
                let sent : (count_up serials node1).sent ≡ node'.sent = cc in
                let logs : (count_up serials node1).wope_logs ≡ node'.wope_logs = cc in
                (sym sent ∙ counted_of.0 ∙ made_of.0, sym logs ∙ counted_of.1 ∙ made_of.1)
          ]
        ]
]

copied-Untouched :
    (serial : ℤ) (file : Option (List ℕ)) (node : Node) → Untouched node (copied serial file node)
copied-Untouched serial none node = (refl, refl)
copied-Untouched serial (some content) node = (refl, refl)

settle_block-Untouched : (rb : ReferedBlock) (node : Node) → Untouched node (settle_block rb node)
unfolding settle_block
settle_block-Untouched rb node = elim (Bool-cases (eqb_ℤ rb.refer_count (pos 1))) [
  | inl e ↦ rw e (copied-Untouched rb.serial (find eqb_ℤ rb.serial node.journal) node)
  | inr e ↦ rw e (refl, refl)
]

pub settle-Untouched : (serials : List ℤ) (node : Node) → Untouched node (settle serials node)
unfolding settle
settle-Untouched [] node = (refl, refl)
settle-Untouched (s ∷ serials) node =
    let one = settle_block-Untouched (block_of node s) node in
    let rest = settle-Untouched serials (settle_block (block_of node s) node) in
    (rest.0 ∙ one.0, rest.1 ∙ one.1)
