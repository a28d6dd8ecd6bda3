-- ===== src/FileStore/WriteRead.antt =====
-- A write from its request to the disk, and a read of the version it made.
use gdfile_store.Base.{
  ℕ, ◌≤◌, ◌≡◌, inl, inr, refl, Option-cases, none, some, List, [], ◌∷◌, map, ◌>>=◌, length, All,
  bytes_eq, bytes_eq_self,
}
use gdfile_store.Base.Int.{ℤ}
use gdfile_store.Object.{Wope}
use gdfile_store.Object.Protocol.{WopeLog, RopeLog, init, on_journal, on_disk}
use gdfile_store.KeyValue.Assoc.{find-assign_self}
use gdfile_store.FileStore.Edits.{edit_contents, block_content, contents, Fresh}
use gdfile_store.FileStore.Versions.{edit_blocks-contents, contents-count_up, with_version}
use gdfile_store.FileStore.Live.{Distinct, Stored}
use gdfile_store.FileStore.Counts.{edit_blocks-InWork, InWork-OnItsWay, Stored-InWork}
use gdfile_store.FileStore.Disk.{OnItsWay, pick, do_rope-settle, OnDisk-contents}
use gdfile_store.FileStore.{
  Node, object_key, serials_of, block_of, read_block, edit_blocks, count_up, journal_wope, settle,
  add_wope, send_reply, primary_journal_write, wope_step, do_wope, do_rope,
}

-- The blocks of the version are on the disk and counted, none is in its list twice, and the clock
-- has a number for every edit, new to the list and to each other.
pub record IsReady (wope : Wope) (node : Node) (key : List ℕ) : Type 0 where
  pub stored : All (Stored node) (serials_of node key)
  pub distinct : Distinct (serials_of node key)
  pub fresh : Fresh (serials_of node key) node.clock
  pub enough : length wope.block_nums ≤ length node.clock

Stored-contents :
    (node : Node) (serials : List ℤ)
    → All (Stored node) serials
    → map (read_block node.disk) serials ≡ contents node serials
Stored-contents node serials h = OnDisk-contents node node serials (λ x. refl) (each serials h)
  where
    each :
        (xs : List ℤ)
        → All (Stored node) xs
        → All (λ (x : ℤ). read_block node.disk x ≡ block_content node x) xs
    each [] h = tt
    each (x ∷ xs) h = (h.0.1, each xs h.1)

module _ (log : WopeLog) (read : RopeLog) (node : Node) (key new_key : List ℕ)
    (at_key : object_key log.wope.ghobj ≡ some key)
    (at_new : object_key log.wope.new_ghobj ≡ some new_key)
    (reads_new : object_key read.rope.ghobj ≡ some new_key)
    (ready : IsReady log.wope node key) where
  -- The node when the write is in `onJournal`.
  journalled : List ℤ → Node → Node
  journalled serials node1 =
      add_wope (record log { wope_state = on_journal })
        (send_reply primary_journal_write log
          (with_version new_key serials (count_up serials node1)))

  journalled-serials :
      (serials : List ℤ) (node1 : Node) → serials_of (journalled serials node1) new_key ≡ serials
  unfolding serials_of journalled add_wope send_reply
  journalled-serials serials node1 = rw (
      find-assign_self bytes_eq new_key serials (count_up serials node1).objects
        (bytes_eq_self new_key))

  journalled-OnItsWay :
      (serials : List ℤ) (node1 : Node)
      → All (OnItsWay (count_up serials node1)) serials
      → All (OnItsWay (journalled serials node1)) serials
  unfolding journalled add_wope send_reply block_of block_content read_block
  journalled-OnItsWay serials node1 h = h

  journalled-contents :
      (serials : List ℤ) (node1 : Node)
      → contents (journalled serials node1) serials ≡ contents (count_up serials node1) serials
  unfolding journalled add_wope send_reply contents block_content read_block
  journalled-contents serials node1 = refl

  init_step :
      log.wope_state ≡ init
      → (serials : List ℤ) (node1 : Node)
      → edit_blocks log.wope.types log.wope.block_nums log.wope.block_datas
          (serials_of node key)
          node
        ≡ some (serials, node1)
      → do_wope log node ≡ some (journalled serials node1)
  unfolding do_wope journalled
  init_step at_init serials node1 e = rw (at_init, wope_step, journal_wope, at_key, e, at_new)

  init_fault :
      log.wope_state ≡ init
      → edit_blocks log.wope.types log.wope.block_nums log.wope.block_datas
          (serials_of node key)
          node
        ≡ none
      → do_wope log node ≡ none
  unfolding do_wope
  init_fault at_init e = rw (at_init, wope_step, journal_wope, at_key, e)

  on_journal_step :
      (node1 : Node)
      → do_wope (record log { wope_state = on_journal }) node1
        ≡ some (
            add_wope
              (record log { wope_state = on_disk })
              (settle (serials_of node1 new_key) node1))
  unfolding do_wope
  on_journal_step node1 = rw at_new

  do_rope-add_wope : (l : WopeLog) (n : Node) → do_rope read (add_wope l n) ≡ do_rope read n
  unfolding do_rope add_wope
  do_rope-add_wope l n = refl

  -- The old version's blocks are on the disk and counted, none is in its list twice, and the clock
  -- has a number for every edit, new to the list and to each other. A write is taken up in `init`,
  -- and again in `onJournal`. A read of the new version then answers the contents of the old
  -- version's blocks with the write's edits, at the places that it asks for. The whole fails exactly
  -- where an edit or the read is at a block that is not there, or the write's vectors differ in
  -- length.
  pub write_read :
      log.wope_state ≡ init
      → (do_wope log node >>= λ (node1 : Node).
          do_wope (record log { wope_state = on_journal }) node1 >>= λ (node2 : Node).
          do_rope read node2)
        ≡ (edit_contents log.wope.types log.wope.block_nums log.wope.block_datas
              (map (read_block node.disk) (serials_of node key))
            >>= λ (cs : List (List ℕ)). pick cs read.rope.blocks >>= λ (datas : List (List ℕ)).
                some (record {
                  ope_id = read.ope_id;
                  ghobj = read.rope.ghobj;
                  blocks = read.rope.blocks;
                  datas = datas;
                }))
  write_read at_init =
      let serials0 = serials_of node key in
      let made_of =
        edit_blocks-contents log.wope.types log.wope.block_nums log.wope.block_datas serials0 node
          ready.fresh ready.enough in
      elim (Option-cases
        (edit_blocks log.wope.types log.wope.block_nums log.wope.block_datas serials0 node)) [
          | inl e ↦
              rw (
                init_fault at_init e,
                Stored-contents node serials0 ready.stored,
                ← rw e at made_of,
              )
          | inr ((serials, node1), e) ↦
              let work =
                edit_blocks-InWork log.wope.types log.wope.block_nums log.wope.block_datas serials0
                  node serials node1 e
                  (Stored-InWork serials0 node ready.stored ready.distinct ready.fresh) in
              let way = journalled-OnItsWay serials node1 (InWork-OnItsWay serials node1 work) in
              let list = journalled-serials serials node1 in
              rw (
                init_step at_init serials node1 e,
                on_journal_step (journalled serials node1),
                do_rope-add_wope,
                Stored-contents node serials0 ready.stored,
                ← rw e at made_of,
                do_rope-settle read (journalled serials node1) new_key reads_new (rw list way),
                list,
                journalled-contents serials node1,
                contents-count_up serials node1 serials,
              )
        ]
