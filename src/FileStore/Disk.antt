-- ===== src/FileStore/Disk.antt =====
-- The step from the journal to the disk, and the reads that follow it.
use mathlib.Core.Path.{subst}
use gdfile_store.Base.{
  ℕ, ◌≡◌, ◌⊎◌, inl, inr, refl, ap, ◌∙◌, true, false, Bool-cases, Option, none, some, Option-cases,
  get_elem?, get_elem?-map, List, [], ◌∷◌, map, ◌>>=◌, arith, All, bytes_eq,
}
use gdfile_store.Base.Int.{ℤ, pos, negsuc, eqb_ℤ}
use gdfile_store.Object.{ReferedBlock}
use gdfile_store.Object.Protocol.{RopeLog}
use gdfile_store.KeyValue.Assoc.{find, find-assign_self, find-assign_other}
use gdfile_store.FileStore.Edits.{block_content, contents, eqb_self, eqb_other}
use gdfile_store.FileStore.{
  Node, or_default, object_key, serials_of, block_of, read_block, copied, settle_block, settle,
  read_blocks, do_rope,
}

-- The block is new, with its file in the journal, or the disk has what it holds.
abbrev pub OnItsWay : Node → ℤ → Type 0
OnItsWay node s =
    ((block_of node s ≡ record { serial = s; refer_count = pos 1 })
      × (c : List ℕ) × (find eqb_ℤ s node.journal ≡ some c))
    ⊎ ((eqb_ℤ (block_of node s).refer_count (pos 1) ≡ false)
        × (read_block node.disk s ≡ block_content node s))

abbrev pub OnDisk : Node → ℤ → Type 0
OnDisk node s = read_block node.disk s ≡ block_content node s

pub eqb_eq : (a b : ℤ) → eqb_ℤ a b ≡ true → a ≡ b
eqb_eq a b h = ground arith

-- The node after a block's file was copied.
module _ (node : Node) (s : ℤ) (c : List ℕ) (file : find eqb_ℤ s node.journal ≡ some c) where
  copied_content : (x : ℤ) → block_content (copied s (some c) node) x ≡ block_content node x
  unfolding block_content read_block
  copied_content x = elim (Bool-cases (eqb_ℤ s x)) [
    | inl e ↦ let same = eqb_eq s x e in rw (← same, file)
    | inr e ↦ rw (find-assign_other eqb_ℤ s x c node.disk e (λ i. eqb_other s x i e))
  ]

  copied_self : OnDisk (copied s (some c) node) s
  unfolding block_content read_block
  copied_self = rw (find-assign_self eqb_ℤ s c node.disk (eqb_self s), file)

  copied_other : (x : ℤ) → OnDisk node x → OnDisk (copied s (some c) node) x
  unfolding read_block
  copied_other x h = elim (Bool-cases (eqb_ℤ s x)) [
    | inl e ↦ let same = eqb_eq s x e in subst (OnDisk (copied s (some c) node)) same copied_self
    | inr e ↦
        rw (find-assign_other eqb_ℤ s x c node.disk e (λ i. eqb_other s x i e), copied_content x) h
  ]

-- What a step of `settle` has done.
record Settled (node node' : Node) (s : ℤ) : Type 0 where
  blocks : node'.blocks ≡ node.blocks
  journal : node'.journal ≡ node.journal
  content : (x : ℤ) → block_content node' x ≡ block_content node x
  here : OnDisk node' s
  there : (x : ℤ) → OnDisk node x → OnDisk node' x

settle_block-Settled :
    (node : Node) (s : ℤ) → OnItsWay node s → Settled node (settle_block (block_of node s) node) s
unfolding settle_block
settle_block-Settled node s (inl (is_new, c, file)) =
    rw (is_new, file)
      (record {
        blocks = refl;
        journal = refl;
        content = copied_content node s c file;
        here = copied_self node s c file;
        there = copied_other node s c file;
      })
settle_block-Settled node s (inr (old, same)) =
    rw old
      (record { blocks = refl; journal = refl; content = λ x. refl; here = same; there = λ x h. h })

OnItsWay-Settled :
    (node node' : Node) (s x : ℤ) → Settled node node' s → OnItsWay node x → OnItsWay node' x
unfolding block_of
OnItsWay-Settled node node' s x h (inl (is_new, c, file)) =
    inl (rw h.blocks is_new, c, rw h.journal file)
OnItsWay-Settled node node' s x h (inr (old, same)) = inr (rw h.blocks old, h.there x same)

All-Settled :
    (node node' : Node) (s : ℤ) (serials : List ℤ)
    → Settled node node' s
    → All (OnItsWay node) serials
    → All (OnItsWay node') serials
All-Settled node node' s [] h all = tt
All-Settled node node' s (x ∷ serials) h all =
    (OnItsWay-Settled node node' s x h all.0, All-Settled node node' s serials h all.1)

record SettledAll (node node' : Node) (serials : List ℤ) : Type 0 where
  objects : node'.objects ≡ node.objects
  content : (x : ℤ) → block_content node' x ≡ block_content node x
  here : All (OnDisk node') serials
  there : (x : ℤ) → OnDisk node x → OnDisk node' x

objects-copied :
    (s : ℤ) (file : Option (List ℕ)) (node : Node) → (copied s file node).objects ≡ node.objects
objects-copied s none node = refl
objects-copied s (some c) node = refl

objects-settle_block :
    (rb : ReferedBlock) (node : Node) → (settle_block rb node).objects ≡ node.objects
unfolding settle_block
objects-settle_block rb node = elim (Bool-cases (eqb_ℤ rb.refer_count (pos 1))) [
  | inl e ↦ rw e (objects-copied rb.serial (find eqb_ℤ rb.serial node.journal) node)
  | inr e ↦ rw e
]

settle-SettledAll :
    (serials : List ℤ) (node : Node)
    → All (OnItsWay node) serials
    → SettledAll node (settle serials node) serials
unfolding settle
settle-SettledAll [] node all = record {
  objects = refl;
  content = λ x. refl;
  here = tt;
  there = λ x h. h;
}
settle-SettledAll (s ∷ serials) node all =
    let one = settle_block-Settled node s all.0 in
    let node1 = settle_block (block_of node s) node in
    let rest = settle-SettledAll serials node1 (All-Settled node node1 s serials one all.1) in
    record {
      objects = rest.objects ∙ objects-settle_block (block_of node s) node;
      content = λ x. rest.content x ∙ one.content x;
      here = (rest.there s one.here, rest.here);
      there = λ x h. rest.there x (one.there x h);
    }

pub OnDisk-contents :
    (node node' : Node) (serials : List ℤ)
    → ((x : ℤ) → block_content node' x ≡ block_content node x)
    → All (OnDisk node') serials
    → map (read_block node'.disk) serials ≡ contents node serials
unfolding contents
OnDisk-contents node node' [] content h = refl
OnDisk-contents node node' (x ∷ serials) content h =
    rw (h.0, content x, OnDisk-contents node node' serials content h.1)

-- The contents at the asked places; `none` where there is no such place.
abbrev pub pick : List (List ℕ) → List ℤ → Option (List (List ℕ))
pick cs [] = some []
pick cs (negsuc n ∷ blocks) = none
pick cs (pos n ∷ blocks) = do c ← get_elem? cs n; rest ← pick cs blocks; some (c ∷ rest)

read_blocks-pick :
    (files : List (ℤ × List ℕ)) (serials blocks : List ℤ)
    → read_blocks files serials blocks ≡ pick (map (read_block files) serials) blocks
unfolding read_blocks
read_blocks-pick files serials [] = refl
read_blocks-pick files serials (negsuc n ∷ blocks) = refl
read_blocks-pick files serials (pos n ∷ blocks) =
    rw (get_elem?-map (read_block files) serials n) (elim (Option-cases (get_elem? serials n)) [
      | inl e ↦ rw e
      | inr (s, e) ↦ rw (e, read_blocks-pick files serials blocks)
    ])

module _ (log : RopeLog) (node : Node) (key : List ℕ)
    (at_key : object_key log.rope.ghobj ≡ some key)
    (ready : All (OnItsWay node) (serials_of node key)) where
  -- After the step from the journal to the disk, a read answers the contents of the asked blocks as
  -- the journal's and the disk's files held them before, if each block of the object was either new,
  -- with one reference and a file in the journal, or on the disk already. A block that is not there
  -- makes the read fault.
  pub do_rope-settle : do_rope log (settle (serials_of node key) node) ≡ (
      pick (contents node (serials_of node key)) log.rope.blocks >>= λ (datas : List (List ℕ)).
      some (record {
        ope_id = log.ope_id;
        ghobj = log.rope.ghobj;
        blocks = log.rope.blocks;
        datas = datas;
      }))
  unfolding do_rope
  do_rope-settle =
      let serials = serials_of node key in
      let settled = settle-SettledAll serials node ready in
      let same : serials_of (settle serials node) key ≡ serials =
        unfold serials_of in
        ap (λ (o : List (List ℕ × List ℤ)). or_default [] (find bytes_eq key o)) settled.objects in
      rw (
        at_key,
        same,
        read_blocks-pick (settle serials node).disk serials log.rope.blocks,
        OnDisk-contents node (settle serials node) serials settled.content settled.here,
      )
