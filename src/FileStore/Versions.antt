-- ===== src/FileStore/Versions.antt =====
-- Journal::do_WOPE makes a new version of an object and leaves every other version as it was.
use gdfile_store.Base.{
  ℕ, ◌≤◌, ◌<◌, ◌≡◌, inl, inr, refl, Option-cases, some, List, [], ◌∷◌, ◌>>=◌, arith, length,
  bytes_eq, bytes_eq_self,
}
use gdfile_store.Base.Int.{ℤ, eqb_ℤ}
use gdfile_store.Object.{OpeType, Wope, insert, delete, over_write, other_ope}
use gdfile_store.KeyValue.Assoc.{assign, find-assign_self}
use gdfile_store.FileStore.Edits.{
  edit_content, edit_contents, block_content, contents, Fresh, Agrees, delete-Agrees, other-Agrees,
  insert-Agrees, over_write-Agrees,
}
use gdfile_store.FileStore.{
  Node, object_key, serials_of, block_of, steps_to, edit_at, edit_blocks, counted, count_up,
  journal_wope,
}

edit_at-Agrees :
    (t : OpeType) (k : ℕ) (d : List ℕ) (serials : List ℤ) (node : Node) (clock : List ℤ)
    → node.clock ≡ clock
    → Fresh serials node.clock
    → 0 < length clock
    → Agrees (edit_at t k d serials node) (edit_content t k d (contents node serials)) node.clock
edit_at-Agrees t k d serials node [] e fresh some_left = absurd (omega arith)
edit_at-Agrees insert k d serials node (s ∷ clock) e fresh some_left =
    insert-Agrees k d serials node fresh s clock e
edit_at-Agrees delete k d serials node (s ∷ clock) e fresh some_left =
    delete-Agrees k d serials node fresh
edit_at-Agrees over_write k d serials node (s ∷ clock) e fresh some_left =
    over_write-Agrees k d serials node fresh s clock e
edit_at-Agrees (other_ope n) k d serials node (s ∷ clock) e fresh some_left =
    other-Agrees k d serials node fresh n

-- The first loop of do_WOPE makes of the blocks' contents what the write asks for, and fails where
-- the write asks for what is not there.
pub edit_blocks-contents :
    (types : List OpeType) (nums : List ℤ) (datas : List (List ℕ)) (serials : List ℤ) (node : Node)
    → Fresh serials node.clock
    → length nums ≤ length node.clock
    → (edit_blocks types nums datas serials node >>= λ (r : List ℤ × Node). some (contents r.1 r.0))
      ≡ edit_contents types nums datas (contents node serials)
unfolding edit_blocks edit_contents
edit_blocks-contents types [] datas serials node fresh enough = refl
edit_blocks-contents [] (n ∷ nums) datas serials node fresh enough = refl
edit_blocks-contents (t ∷ types) (n ∷ nums) [] serials node fresh enough = refl
edit_blocks-contents (t ∷ types) (n ∷ nums) (d ∷ datas) serials node fresh enough =
    elim (edit_at-Agrees t (steps_to n) d serials node node.clock refl fresh (omega arith)) [
      | inl (run, spec) ↦ rw (run, spec)
      | inr (serials', node', run, spec, fresh', left) ↦
          rw (run, spec) (edit_blocks-contents types nums datas serials' node' fresh' (omega arith))
    ]

pub contents-count_up :
    (serials : List ℤ) (node : Node) (xs : List ℤ)
    → contents (count_up serials node) xs ≡ contents node xs
unfolding count_up contents block_content
contents-count_up [] node xs = refl
contents-count_up (s ∷ serials) node xs =
    contents-count_up serials
      (record node { blocks = assign eqb_ℤ s (counted (block_of node s)) node.blocks }) xs

pub objects-count_up :
    (serials : List ℤ) (node : Node) → (count_up serials node).objects ≡ node.objects
unfolding count_up
objects-count_up [] node = refl
objects-count_up (s ∷ serials) node =
    objects-count_up serials
      (record node { blocks = assign eqb_ℤ s (counted (block_of node s)) node.blocks })

abbrev pub with_version : List ℕ → List ℤ → Node → Node
with_version key serials node = record node { objects = assign bytes_eq key serials node.objects }

pub contents-with_version :
    (key : List ℕ) (serials xs : List ℤ) (node : Node)
    → contents (with_version key serials node) xs ≡ contents node xs
unfolding contents block_content
contents-with_version key serials xs node = refl

module _ (wope : Wope) (node : Node) (key new_key : List ℕ)
    (at_key : object_key wope.ghobj ≡ some key)
    (at_new : object_key wope.new_ghobj ≡ some new_key) where
  -- do_WOPE gives the new object the old one's blocks with the write's edits, as far as their files
  -- hold them, if the clock's readings are new numbers and one is there for every edit; it fails
  -- exactly where an edit is at a block that is not there or the write's vectors differ in length.
  pub journal_wope-contents :
      Fresh (serials_of node key) node.clock
      → length wope.block_nums ≤ length node.clock
      → (journal_wope wope node >>= λ (node' : Node).
          some (contents node' (serials_of node' new_key)))
        ≡ edit_contents wope.types wope.block_nums wope.block_datas
            (contents node (serials_of node key))
  unfolding journal_wope serials_of
  journal_wope-contents fresh enough =
      let made_of =
        edit_blocks-contents wope.types wope.block_nums wope.block_datas (serials_of node key) node
          fresh enough in
      elim (Option-cases
        (edit_blocks wope.types wope.block_nums wope.block_datas (serials_of node key) node)) [
          | inl e ↦ rw (at_key, e) (rw e at made_of)
          | inr ((serials, node'), e) ↦
              rw
                (
                  at_key,
                  e,
                  at_new,
                  find-assign_self bytes_eq new_key serials (count_up serials node').objects
                      (bytes_eq_self new_key),
                  contents-with_version new_key serials serials (count_up serials node'),
                  contents-count_up serials node' serials,
                )
                (rw e at made_of)
        ]
