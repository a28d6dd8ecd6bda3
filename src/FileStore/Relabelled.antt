-- ===== src/FileStore/Relabelled.antt =====
-- Journal::do_WOPE, the move of blocks to the disk and a read do not look at the queue of writes.
use gdfile_store.Base.{
  ℕ, suc, ◌≡◌, inl, inr, refl, ap, ◌∙◌, Bool, true, false, Bool-cases, Option, Option-cases, none,
  some, List, [], ◌∷◌, ◌++◌, ◌>>=◌, leb, ltb, length, take, drop, if◌then◌else◌,
}
use gdfile_store.Base.Int.{ℤ, pos, eqb_ℤ}
use gdfile_store.Object.{
  ReferedBlock, GhObject, Wope, OpeType, delete, insert, over_write, other_ope,
}
use gdfile_store.Object.Members.{ghobject_members}
use gdfile_store.Object.Serial.{with_pool}
use gdfile_store.Object.Protocol.{WopeLog, RopeLog}
use gdfile_store.KeyValue.Assoc.{find}
use gdfile_store.FileStore.{
  Node, object_key, block_of, copied, settle_block, settle, do_rope, new_block_at, new_block,
  edit_at, edit_blocks, steps_to, count_up, journal_wope, serials_of,
}

module _ (logs : List WopeLog) where
  abbrev pub relabelled : Node → Node
  relabelled node = record node { wope_logs = logs }

  copied-relabelled :
      (serial : ℤ) (file : Option (List ℕ)) (node : Node)
      → copied serial file (relabelled node) ≡ relabelled (copied serial file node)
  copied-relabelled serial none node = refl
  copied-relabelled serial (some content) node = refl

  settle_block-relabelled :
      (rb : ReferedBlock) (node : Node)
      → settle_block rb (relabelled node) ≡ relabelled (settle_block rb node)
  unfolding settle_block
  settle_block-relabelled rb node = elim (Bool-cases (eqb_ℤ rb.refer_count (pos 1))) [
    | inl e ↦ rw e (copied-relabelled rb.serial (find eqb_ℤ rb.serial node.journal) node)
    | inr e ↦ rw e refl
  ]

  pub settle-relabelled :
      (serials : List ℤ) (node : Node)
      → settle serials (relabelled node) ≡ relabelled (settle serials node)
  unfolding settle block_of
  settle-relabelled [] node = refl
  settle-relabelled (s ∷ serials) node =
      ap (settle serials) (settle_block-relabelled (block_of node s) node)
      ∙ settle-relabelled serials (settle_block (block_of node s) node)

  new_block_at-relabelled :
      (content : List ℕ) (node : Node) (clock : List ℤ)
      → new_block_at content (relabelled node) clock
        ≡ (new_block_at content node clock >>= λ ((s, m) : ℤ × Node). some (s, relabelled m))
  new_block_at-relabelled content node [] = refl
  new_block_at-relabelled content node (s ∷ clock) = refl

  abbrev with_list : Option (List ℤ × Node) → Option (List ℤ × Node)
  with_list none = none
  with_list (some (serials, node)) = some (serials, relabelled node)

  guarded :
      (c : Bool) (o : Option (List ℤ × Node))
      → (if c then with_list o else none) ≡ with_list (if c then o else none)
  guarded true o = refl
  guarded false o = refl

  edit_at-relabelled :
      (t : OpeType) (k : ℕ) (content : List ℕ) (serials : List ℤ) (node : Node)
      → edit_at t k content serials (relabelled node) ≡ with_list (edit_at t k content serials node)
  unfolding edit_at new_block
  edit_at-relabelled delete k content serials node =
      guarded (ltb k (length serials)) (some (take k serials ++ drop (suc k) serials, node))
  edit_at-relabelled insert k content serials node =
      elim (Option-cases (new_block_at content node node.clock)) [
        | inl e ↦ rw (new_block_at-relabelled content node node.clock, e)
        | inr ((s, m), e) ↦
            rw (new_block_at-relabelled content node node.clock, e)
              (guarded (leb k (length serials)) (some (take k serials ++ s ∷ drop k serials, m)))
      ]
  edit_at-relabelled over_write k content serials node =
      elim (Option-cases (new_block_at content node node.clock)) [
        | inl e ↦ rw (new_block_at-relabelled content node node.clock, e)
        | inr ((s, m), e) ↦
            rw (new_block_at-relabelled content node node.clock, e)
              (guarded (ltb k (length serials))
                (some (take k serials ++ s ∷ drop (suc k) serials, m)))
      ]
  edit_at-relabelled (other_ope n) k content serials node =
      guarded (leb k (length serials)) (some (serials, node))

  edit_blocks-relabelled :
      (types : List OpeType) (nums : List ℤ) (datas : List (List ℕ)) (serials : List ℤ)
      (node : Node)
      → edit_blocks types nums datas serials (relabelled node)
        ≡ with_list (edit_blocks types nums datas serials node)
  unfolding edit_blocks
  edit_blocks-relabelled types [] datas serials node = refl
  edit_blocks-relabelled [] (n ∷ nums) datas serials node = refl
  edit_blocks-relabelled (t ∷ types) (n ∷ nums) [] serials node = refl
  edit_blocks-relabelled (t ∷ types) (n ∷ nums) (d ∷ datas) serials node =
      elim (Option-cases (edit_at t (steps_to n) d serials node)) [
        | inl e ↦ rw (edit_at-relabelled t (steps_to n) d serials node, e)
        | inr ((mid, m), e) ↦
            rw (edit_at-relabelled t (steps_to n) d serials node, e)
              (edit_blocks-relabelled types nums datas mid m)
      ]

  count_up-relabelled :
      (serials : List ℤ) (node : Node)
      → count_up serials (relabelled node) ≡ relabelled (count_up serials node)
  unfolding count_up block_of
  count_up-relabelled [] node = refl
  count_up-relabelled (s ∷ serials) node = count_up-relabelled serials _

  pub journal_wope-relabelled :
      (wope : Wope) (node : Node)
      → journal_wope wope (relabelled node)
        ≡ (journal_wope wope node >>= λ (m : Node). some (relabelled m))
  unfolding journal_wope serials_of
  journal_wope-relabelled wope node = elim (Option-cases (object_key wope.ghobj)) [
    | inl e ↦ rw e refl
    | inr (key, e) ↦
        let list = serials_of node key in
        let step = edit_blocks-relabelled wope.types wope.block_nums wope.block_datas list node in
        elim (Option-cases (edit_blocks wope.types wope.block_nums wope.block_datas list node)) [
          | inl e' ↦ rw (e, step, e')
          | inr ((serials, m), e') ↦ elim (Option-cases (object_key wope.new_ghobj)) [
            | inl e'' ↦ rw (e, step, e', e'')
            | inr (new_key, e'') ↦ rw (e, step, e', e'', count_up-relabelled serials m)
          ]
        ]
  ]

pub do_rope-alike :
    (read : RopeLog) (node node' : Node)
    → node.objects ≡ node'.objects
    → node.disk ≡ node'.disk
    → do_rope read node ≡ do_rope read node'
unfolding do_rope
do_rope-alike read node node' e d = rw (e, d) refl

-- The key of an object does not have its pool.
pub object_key-with_pool : (pool : ℤ) (g : GhObject) → object_key (with_pool pool g) ≡ object_key g
unfolding object_key ghobject_members
object_key-with_pool pool g = refl
