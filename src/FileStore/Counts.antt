-- ===== src/FileStore/Counts.antt =====
-- The reference counts that Journal::do_WOPE leaves: new blocks have one, the others more.
use mathlib.Core.Path.{subst}
use gdfile_store.Base.{
  ℕ, suc, ◌≡◌, inl, inr, refl, ap, ◌∙◌, false, Option-cases, some, List, [], ◌∷◌, arith, take, drop,
  All, All-take, All-drop, All-append,
}
use gdfile_store.Base.Int.{ℤ, pos-add, eqb_ℤ}
use gdfile_store.Object.{OpeType}
use gdfile_store.KeyValue.Assoc.{assign, find-assign_self, find-assign_other}
use gdfile_store.FileStore.Edits.{
  block_content, NotIn, Fresh, eqb_self, eqb_other, eqb_sym, Fresh-cut, Fresh-new,
}
use gdfile_store.FileStore.Live.{
  Distinct, Distinct-cut, Distinct-around, Stored, Live, Live-made, All-Live-made,
}
use gdfile_store.FileStore.Shape.{Shape, edit_at-Shape}
use gdfile_store.FileStore.Disk.{OnItsWay}
use gdfile_store.FileStore.{Node, block_of, steps_to, edit_at, edit_blocks, counted, count_up}

-- A list of blocks that do_WOPE is working on.
pub record InWork (serials : List ℤ) (node : Node) : Type 0 where
  pub live : All (Live node) serials
  pub distinct : Distinct serials
  pub fresh : Fresh serials node.clock

Shape-InWork :
    (serials serials' : List ℤ) (node node' : Node)
    → Shape serials node serials' node'
    → InWork serials node
    → InWork serials' node'
Shape-InWork serials serials' node node' (inl (i, j, le, list, same)) h =
    rw (list, same)
      (record {
        live =
            All-append _ (take i serials) (drop j serials) (All-take _ i serials h.live)
              (All-drop _ j serials h.live);
        distinct = Distinct-cut i j serials le h.distinct;
        fresh = Fresh-cut i j serials node.clock h.fresh;
      })
Shape-InWork serials serials' node node' (inr (i, j, le, d, s, clock, list, e, same)) h =
    let fresh' = subst (Fresh serials) e h.fresh in
    let live' = All-Live-made d node s clock serials fresh'.0 h.live in
    rw (list, same)
      (record {
        live =
            All-append _ (take i serials) (s ∷ drop j serials) (All-take _ i serials live')
              (Live-made d node s clock, All-drop _ j serials live');
        distinct = Distinct-around i j s serials le fresh'.0 h.distinct;
        fresh = Fresh-new i j s serials clock fresh'.1 fresh'.2;
      })

pub edit_blocks-InWork :
    (types : List OpeType) (nums : List ℤ) (datas : List (List ℕ)) (serials : List ℤ) (node : Node)
    (serials' : List ℤ) (node' : Node)
    → edit_blocks types nums datas serials node ≡ some (serials', node')
    → InWork serials node
    → InWork serials' node'
unfolding edit_blocks
edit_blocks-InWork types [] datas serials node serials' node' run h =
    let same : node ≡ node' = cc in let list : serials ≡ serials' = cc in rw (← same, ← list) h
edit_blocks-InWork [] (n ∷ nums) datas serials node serials' node' run h = absurd (cc)
edit_blocks-InWork (t ∷ types) (n ∷ nums) [] serials node serials' node' run h = absurd (cc)
edit_blocks-InWork (t ∷ types) (n ∷ nums) (d ∷ datas) serials node serials' node' run h =
    elim (Option-cases (edit_at t (steps_to n) d serials node)) [
      | inl e ↦ absurd (cc (rw e at run))
      | inr ((mid, node1), e) ↦
          edit_blocks-InWork types nums datas mid node1 serials' node' (rw e at run) (
            Shape-InWork serials mid node node1
              (edit_at-Shape t (steps_to n) d serials node node.clock refl mid node1 e) h)
    ]

-- One more reference to a block.
abbrev pub count_one : ℤ → Node → Node
count_one s node = record node { blocks = assign eqb_ℤ s (counted (block_of node s)) node.blocks }

pub count_one_self :
    (s : ℤ) (node : Node) → block_of (count_one s node) s ≡ counted (block_of node s)
unfolding block_of
count_one_self s node =
    rw (find-assign_self eqb_ℤ s (counted (block_of node s)) node.blocks (eqb_self s))

pub count_one_other :
    (s x : ℤ) (node : Node) → eqb_ℤ s x ≡ false → block_of (count_one s node) x ≡ block_of node x
unfolding block_of
count_one_other s x node h =
    rw (
      find-assign_other eqb_ℤ s x (counted (block_of node s)) node.blocks h
        (λ i. eqb_other s x i h))

count_up_other :
    (serials : List ℤ) (x : ℤ) (node : Node)
    → NotIn serials x
    → block_of (count_up serials node) x ≡ block_of node x
unfolding count_up
count_up_other [] x node n = refl
count_up_other (s ∷ serials) x node n =
    count_up_other serials x (count_one s node) n.1 ∙ count_one_other s x node (eqb_sym s x ∙ n.0)

-- Each block of the list gets one reference more.
All-count_up :
    (serials : List ℤ) (node : Node)
    → Distinct serials
    → All (λ (s : ℤ). block_of (count_up serials node) s ≡ counted (block_of node s)) serials
unfolding count_up
All-count_up [] node h = tt
All-count_up (s ∷ serials) node h = (
  count_up_other serials s (count_one s node) h.0 ∙ count_one_self s node,
  counted_there serials s node h.0 (All-count_up serials (count_one s node) h.1),
)
  where
    counted_there :
        (xs : List ℤ) (s : ℤ) (node : Node)
        → NotIn xs s
        → All
            (λ (x : ℤ).
              block_of (count_up serials (count_one s node)) x
              ≡ counted (block_of (count_one s node) x))
            xs
        → All
            (λ (x : ℤ).
              block_of (count_up serials (count_one s node)) x ≡ counted (block_of node x))
            xs
    counted_there [] s node n h = tt
    counted_there (x ∷ xs) s node n h =
        (h.0 ∙ ap counted (count_one_other s x node n.0), counted_there xs s node n.1 h.1)

journal-count_up : (serials : List ℤ) (node : Node) → (count_up serials node).journal ≡ node.journal
unfolding count_up
journal-count_up [] node = refl
journal-count_up (s ∷ serials) node = journal-count_up serials (count_one s node)

disk-count_up : (serials : List ℤ) (node : Node) → (count_up serials node).disk ≡ node.disk
unfolding count_up
disk-count_up [] node = refl
disk-count_up (s ∷ serials) node = disk-count_up serials (count_one s node)

module _ (node node' : Node) (journal : node'.journal ≡ node.journal)
    (disk : node'.disk ≡ node.disk) where
  Live-counted :
      (s : ℤ) → block_of node' s ≡ counted (block_of node s) → Live node s → OnItsWay node' s
  unfolding block_content
  Live-counted s e (inl ((n, count), on_disk)) =
      inr (rw (e, count, pos-add (suc n) 1) (ground arith), rw (journal, disk) on_disk)
  Live-counted s e (inr (count, c, file)) = inl (rw (e, count, pos-add 0 1), c, rw journal file)

  All-Live-counted :
      (serials : List ℤ)
      → All (λ (s : ℤ). block_of node' s ≡ counted (block_of node s)) serials
      → All (Live node) serials
      → All (OnItsWay node') serials
  All-Live-counted [] e h = tt
  All-Live-counted (s ∷ serials) e h = (Live-counted s e.0 h.0, All-Live-counted serials e.1 h.1)

pub InWork-OnItsWay :
    (serials : List ℤ) (node : Node)
    → InWork serials node
    → All (OnItsWay (count_up serials node)) serials
InWork-OnItsWay serials node h =
    All-Live-counted node (count_up serials node) (journal-count_up serials node)
      (disk-count_up serials node) serials (All-count_up serials node h.distinct) h.live

pub Stored-InWork :
    (serials : List ℤ) (node : Node)
    → All (Stored node) serials
    → Distinct serials
    → Fresh serials node.clock
    → InWork serials node
Stored-InWork serials node h distinct fresh = record {
  live = all_live serials h;
  distinct = distinct;
  fresh = fresh;
}
  where
    all_live : (xs : List ℤ) → All (Stored node) xs → All (Live node) xs
    all_live [] h = tt
    all_live (x ∷ xs) h = (inl h.0, all_live xs h.1)
