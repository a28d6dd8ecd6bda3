-- ===== src/FileStore/Overtaken.antt =====
-- A block that a second version counts before its file was copied: the step from the journal to the
-- disk of src/GDFileStore.cpp passes it over for ever.
use mathlib.Core.Path.{subst}
use gdfile_store.Base.{
  ℕ, suc, ◌+◌, ◌≡◌, inl, inr, refl, ap, ◌∙◌, Bool, true, false, Bool-cases, Option, Option-cases,
  >>=-eq-some, none, some, List, [], ◌∷◌, ◌++◌, arith, take, drop, get_elem?, All, bytes_eq,
}
use gdfile_store.Base.Int.{ℤ, pos, eqb_ℤ, pos-add}
use gdfile_store.Object.{OpeType, Wope, ReferedBlock}
use gdfile_store.Object.Protocol.{
  WopeLog, WopeState, other, init, on_journal, on_disk, primary_journal_write, primary_disk_write,
}
use gdfile_store.KeyValue.Assoc.{find, assign, find-assign_other, All-assign, All-find}
use gdfile_store.FileStore.Edits.{made, eqb_other}
use gdfile_store.FileStore.Live.{Counted, block_of-made}
use gdfile_store.FileStore.Counts.{count_one, count_one_self, count_one_other}
use gdfile_store.FileStore.Kept.{edit_at-Made}
use gdfile_store.FileStore.Disk.{eqb_eq}
use gdfile_store.FileStore.Progress.{Runs-keep, owed, work, Runs, stop, take_up}
use gdfile_store.FileStore.{
  Reply, Node, object_key, serials_of, block_of, read_block, steps_to, edit_at, edit_blocks,
  counted, count_up, journal_wope, copied, settle_block, settle, add_wope, send_reply, wope_step,
  do_wope, handle_wope,
}

-- Two versions or more count the block, the disk has no file of it, the clock will not give its
-- number again, and no attribute of another block has its number.
pub record IsOvertaken (s : ℤ) (node : Node) : Type 0 where
  pub count : ℕ
  pub counts : Counted node s (count + 2)
  pub absent : find eqb_ℤ s node.disk ≡ none
  pub fresh : All (λ (t : ℤ). eqb_ℤ t s ≡ false) node.clock
  pub named :
      All (λ (e : ℤ × ReferedBlock). eqb_ℤ e.1.serial s ≡ true → eqb_ℤ e.0 s ≡ true) node.blocks

module _ (s : ℤ) (not_zero : eqb_ℤ (pos 0) s ≡ false) where
  abbrev OwnName : ℤ × ReferedBlock → Type 0
  OwnName e = eqb_ℤ e.1.serial s ≡ true → eqb_ℤ e.0 s ≡ true

  -- Only the attribute of the block has its number.
  own_block :
      (t : ℤ) (node : Node)
      → All OwnName node.blocks
      → eqb_ℤ (block_of node t).serial s ≡ true
      → eqb_ℤ t s ≡ true
  unfolding block_of
  own_block t node named h = elim (Option-cases (find eqb_ℤ t node.blocks)) [
    | inl e ↦ absurd (cc (rw e at h))
    | inr (rb, e) ↦
        let (j, same, own) = All-find eqb_ℤ OwnName t rb node.blocks named e in
        let equal : j ≡ t = eqb_eq j t same in rw (← equal) (own (rw e at h))
  ]

  same-IsOvertaken :
      (node node' : Node)
      → node'.blocks ≡ node.blocks
      → node'.disk ≡ node.disk
      → node'.clock ≡ node.clock
      → IsOvertaken s node
      → IsOvertaken s node'
  unfolding block_of
  same-IsOvertaken node node' b d c h = record {
    count = h.count;
    counts = rw b h.counts;
    absent = rw d h.absent;
    fresh = rw c h.fresh;
    named = rw b h.named;
  }

  made-IsOvertaken :
      (d : List ℕ) (node : Node) (t : ℤ) (clock : List ℤ)
      → node.clock ≡ t ∷ clock
      → IsOvertaken s node
      → IsOvertaken s (made d node t clock)
  made-IsOvertaken d node t clock e h =
      let fresh = subst (All (λ (t : ℤ). eqb_ℤ t s ≡ false)) e h.fresh in
      record {
        count = h.count;
        counts = block_of-made d node t clock s fresh.0 ∙ h.counts;
        absent = h.absent;
        fresh = fresh.1;
        named =
            All-assign eqb_ℤ OwnName t _ node.blocks (λ j same own. absurd (cc (own, fresh.0)))
              (λ own. own) h.named;
      }

  edit_blocks-IsOvertaken :
      (types : List OpeType) (nums : List ℤ) (datas : List (List ℕ)) (serials : List ℤ)
      (node : Node) (serials' : List ℤ) (node' : Node)
      → edit_blocks types nums datas serials node ≡ some (serials', node')
      → IsOvertaken s node
      → IsOvertaken s node'
  unfolding edit_blocks
  edit_blocks-IsOvertaken types [] datas serials node serials' node' run h =
      let same : node ≡ node' = cc in subst (IsOvertaken s) same h
  edit_blocks-IsOvertaken [] (n ∷ nums) datas serials node serials' node' run h = absurd (cc)
  edit_blocks-IsOvertaken (t ∷ types) (n ∷ nums) [] serials node serials' node' run h = absurd (cc)
  edit_blocks-IsOvertaken (t ∷ types) (n ∷ nums) (d ∷ datas) serials node serials' node' run h =
      let ((mid, node1), e, r) = >>=-eq-some (edit_at t (steps_to n) d serials node) _ run in
      let one : IsOvertaken s node1 =
        elim (edit_at-Made t (steps_to n) d serials node node.clock refl mid node1 e) [
          | inl same ↦ rw same h
          | inr (d', t', clock, e', same) ↦ rw same (made-IsOvertaken d' node t' clock e' h)
        ] in
      edit_blocks-IsOvertaken types nums datas mid node1 serials' node' r one

  count_one-IsOvertaken :
      (t : ℤ) (node : Node) → IsOvertaken s node → IsOvertaken s (count_one t node)
  count_one-IsOvertaken t node h =
      let named =
        All-assign eqb_ℤ OwnName t (counted (block_of node t)) node.blocks
          (λ j same own.
            let equal : j ≡ t = eqb_eq j t same in rw equal (own_block t node h.named own))
          (λ own. own_block t node h.named own) h.named in
      elim (Bool-cases (eqb_ℤ t s)) [
        | inl e ↦
            let equal : t ≡ s = eqb_eq t s e in
            record {
              count = suc h.count;
              counts = rw equal (
                  count_one_self s node
                  ∙ ap counted h.counts
                  ∙ ap (λ (n : ℤ). record { serial = s; refer_count = n })
                      (pos-add (h.count + 2) 1 ∙ ap pos (omega arith)));
              absent = h.absent;
              fresh = h.fresh;
              named = named;
            }
        | inr e ↦ record {
          count = h.count;
          counts = count_one_other t s node e ∙ h.counts;
          absent = h.absent;
          fresh = h.fresh;
          named = named;
        }
      ]

  count_up-IsOvertaken :
      (serials : List ℤ) (node : Node) → IsOvertaken s node → IsOvertaken s (count_up serials node)
  unfolding count_up
  count_up-IsOvertaken [] node h = h
  count_up-IsOvertaken (t ∷ serials) node h =
      count_up-IsOvertaken serials (count_one t node) (count_one-IsOvertaken t node h)

  journal_wope-IsOvertaken :
      (wope : Wope) (node node' : Node)
      → journal_wope wope node ≡ some node'
      → IsOvertaken s node
      → IsOvertaken s node'
  unfolding journal_wope
  journal_wope-IsOvertaken wope node node' run h =
      let (key, e, r) = >>=-eq-some (object_key wope.ghobj) _ run in
      let ((serials, node1), e', r') =
        >>=-eq-some
          (edit_blocks wope.types wope.block_nums wope.block_datas (serials_of node key) node) _
          r in
      let (new_key, e'', r'') = >>=-eq-some (object_key wope.new_ghobj) _ r' in
      let node2 = count_up serials node1 in
      let h1 =
        edit_blocks-IsOvertaken wope.types wope.block_nums wope.block_datas (serials_of node key)
          node serials node1 e' h in
      let h2 = count_up-IsOvertaken serials node1 h1 in
      let found : record node2 { objects = assign bytes_eq new_key serials node2.objects } ≡ node' =
        cc in
      subst (IsOvertaken s) found (same-IsOvertaken node2 _ refl refl refl h2)

  copied-IsOvertaken :
      (t : ℤ) (file : Option (List ℕ)) (node : Node)
      → eqb_ℤ t s ≡ false
      → IsOvertaken s node
      → IsOvertaken s (copied t file node)
  unfolding block_of
  copied-IsOvertaken t none node e h = h
  copied-IsOvertaken t (some c) node e h = record {
    count = h.count;
    counts = h.counts;
    absent = find-assign_other eqb_ℤ t s c node.disk e (λ i. eqb_other t s i e) ∙ h.absent;
    fresh = h.fresh;
    named = h.named;
  }

  -- The block itself has too many references, and no other attribute leads to its file.
  settle_block-IsOvertaken :
      (t : ℤ) (node : Node)
      → IsOvertaken s node
      → IsOvertaken s (settle_block (block_of node t) node)
  unfolding settle_block
  settle_block-IsOvertaken t node h =
      elim (Bool-cases (eqb_ℤ (block_of node t).refer_count (pos 1))) [
        | inr e ↦ rw e h
        | inl e ↦ elim (Bool-cases (eqb_ℤ (block_of node t).serial s)) [
          | inr apart ↦ rw e (copied-IsOvertaken (block_of node t).serial _ node apart h)
          | inl own ↦
              let equal : t ≡ s = eqb_eq t s (own_block t node h.named own) in
              let many : (block_of node s).refer_count ≡ pos (h.count + 2) = rw h.counts refl in
              absurd (too_many h.count (rw (equal, many) at e))
        ]
      ]
    where
      too_many : (n : ℕ) → eqb_ℤ (pos (n + 2)) (pos 1) ≡ true → ⊥
      too_many n h = ground arith

  settle-IsOvertaken :
      (serials : List ℤ) (node : Node) → IsOvertaken s node → IsOvertaken s (settle serials node)
  unfolding settle
  settle-IsOvertaken [] node h = h
  settle-IsOvertaken (t ∷ serials) node h =
      settle-IsOvertaken serials (settle_block (block_of node t) node)
        (settle_block-IsOvertaken t node h)

  wope_step-IsOvertaken :
      (st : WopeState) (log : WopeLog) (node node' : Node)
      → wope_step st log node ≡ some node'
      → IsOvertaken s node
      → IsOvertaken s node'
  unfolding wope_step add_wope send_reply
  wope_step-IsOvertaken init log node node' run h =
      let (node1, e, r) = >>=-eq-some (journal_wope log.wope node) _ run in
      let h1 = journal_wope-IsOvertaken log.wope node node1 e h in
      let found : add_wope (record log { wope_state = on_journal })
            (send_reply primary_journal_write log node1)
          ≡ node' =
        cc in
      subst (IsOvertaken s) found (same-IsOvertaken node1 _ refl refl refl h1)
  wope_step-IsOvertaken on_journal log node node' run h =
      let (key, e, r) = >>=-eq-some (object_key log.wope.new_ghobj) _ run in
      let settled = settle (serials_of node key) node in
      let h1 = settle-IsOvertaken (serials_of node key) node h in
      let found : add_wope (record log { wope_state = on_disk }) settled ≡ node' = cc in
      subst (IsOvertaken s) found (same-IsOvertaken settled _ refl refl refl h1)
  wope_step-IsOvertaken on_disk log node node' run h =
      let found : send_reply primary_disk_write log node ≡ node' = cc in
      subst (IsOvertaken s) found (same-IsOvertaken node _ refl refl refl h)
  wope_step-IsOvertaken other log node node' run h =
      let found : node ≡ node' = cc in subst (IsOvertaken s) found h

  Runs-IsOvertaken :
      {node node' : Node} {k : ℕ} → Runs node node' k → IsOvertaken s node → IsOvertaken s node'
  unfolding handle_wope do_wope
  Runs-IsOvertaken stop h = h
  Runs-IsOvertaken (take_up {node = node} {node1 = node1} i run rest) h =
      let (log, e, r) = >>=-eq-some (get_elem? node.wope_logs i) _ run in
      let fewer = record node {
        wope_logs = take i node.wope_logs ++ drop (suc i) node.wope_logs;
      } in
      let h0 = same-IsOvertaken node fewer refl refl refl h in
      Runs-IsOvertaken rest (wope_step-IsOvertaken log.wope_state log fewer node1 r h0)

  -- A block, other than number 0, that two versions or more count while the disk has no file of
  -- it, whose number the clock will not give again and no attribute of another block has, is never
  -- copied: in whatever order queued writes are taken up, a read finds no byte of it on the disk.
  -- Nothing of that shows in the replies: of those that were sent and those to come, a test accepts
  -- as many after the run as before it, and each step of the run is one fewer to come.
  pub read_block-overtaken :
      {node node' : Node} {k : ℕ}
      → IsOvertaken s node
      → Runs node node' k
      → (read_block node'.disk s ≡ [])
        × ((p : Reply → Bool) → owed p node' ≡ owed p node)
        × (work node' + k ≡ work node)
  unfolding read_block
  read_block-overtaken h runs =
      (rw ((Runs-IsOvertaken runs h).absent) refl, (Runs-keep runs).0, (Runs-keep runs).1)
