-- ===== src/FileStore/Edits.antt =====
-- The blocks that do_WOPE makes of an object's blocks: what their files hold, against edits of a
-- list of contents.
use gdfile_store.Base.{
  ℕ, suc, ◌≤◌, ◌≡◌, ◌⊎◌, inl, inr, refl, ap, ◌∙◌, true, false, Bool-cases, Option, none, some, List,
  [], ◌∷◌, ◌++◌, map, ◌>>=◌, arith, leb, ltb, if◌then◌else◌, length, take, drop, All, map-take,
  map-drop, map-append, All-take, All-drop, All-append, length-map,
}
use mathlib.Core.Path.{subst}
use gdfile_store.Base.Int.{ℤ, pos, eqb_ℤ}
use gdfile_store.Object.{OpeType, insert, delete, over_write, other_ope}
use gdfile_store.KeyValue.Assoc.{find, assign, find-assign_self, find-assign_other}
use gdfile_store.FileStore.{Node, new_block, steps_to, edit_at, or_default, read_block}

-- The edit of the contents of an object's blocks that one entry of a write asks for; `none` where
-- the object has no such block.
abbrev pub edit_content : OpeType → ℕ → List ℕ → List (List ℕ) → Option (List (List ℕ))
edit_content delete k d cs = if ltb k (length cs) then some (take k cs ++ drop (suc k) cs) else none
edit_content insert k d cs = if leb k (length cs) then some (take k cs ++ d ∷ drop k cs) else none
edit_content over_write k d cs =
    if ltb k (length cs) then some (take k cs ++ d ∷ drop (suc k) cs) else none
edit_content (other_ope n) k d cs = if leb k (length cs) then some cs else none

unfoldable pub edit_contents :
    List OpeType → List ℤ → List (List ℕ) → List (List ℕ) → Option (List (List ℕ))
edit_contents types [] datas cs = some cs
edit_contents (t ∷ types) (n ∷ nums) (d ∷ datas) cs = do
  cs' ← edit_content t (steps_to n) d cs
  edit_contents types nums datas cs'
edit_contents _ (n ∷ nums) _ cs = none

-- What the file of a block holds: the journal's, where it has one.
unfoldable pub block_content : Node → ℤ → List ℕ
block_content node serial =
    or_default (read_block node.disk serial) (find eqb_ℤ serial node.journal)

unfoldable pub contents : Node → List ℤ → List (List ℕ)
unfolding block_content
contents node serials = map (block_content node) serials

abbrev pub NotIn : List ℤ → ℤ → Type 0
NotIn serials s = All (λ (x : ℤ). eqb_ℤ s x ≡ false) serials

-- The numbers that the clock will give are new to the list and to each other.
abbrev pub Fresh : List ℤ → List ℤ → Type 0
Fresh serials [] = Unit {0}
Fresh serials (s ∷ clock) = NotIn serials s × NotIn clock s × Fresh serials clock

pub eqb_self : (a : ℤ) → eqb_ℤ a a ≡ true
eqb_self a = ground arith

pub eqb_sym : (a b : ℤ) → eqb_ℤ a b ≡ eqb_ℤ b a
eqb_sym a b = ground arith

pub eqb_other : (s x i : ℤ) → eqb_ℤ s x ≡ false → eqb_ℤ i s ≡ true → eqb_ℤ i x ≡ false
eqb_other s x i h e = ground arith

pub Fresh-cut :
    (i k : ℕ) (serials clock : List ℤ)
    → Fresh serials clock
    → Fresh (take i serials ++ drop k serials) clock
Fresh-cut i k serials [] h = tt
Fresh-cut i k serials (s ∷ clock) h = (
  All-append _ (take i serials) (drop k serials) (All-take _ i serials h.0)
      (All-drop _ k serials h.0),
  h.1,
  Fresh-cut i k serials clock h.2,
)

-- The number taken from the clock may go into the list.
pub Fresh-new :
    (i k : ℕ) (s : ℤ) (serials clock : List ℤ)
    → NotIn clock s
    → Fresh serials clock
    → Fresh (take i serials ++ s ∷ drop k serials) clock
Fresh-new i k s serials [] n h = tt
Fresh-new i k s serials (x ∷ clock) n h = (
  All-append _ (take i serials) (s ∷ drop k serials) (All-take _ i serials h.0)
      (eqb_sym x s ∙ n.0, All-drop _ k serials h.0),
  h.1,
  Fresh-new i k s serials clock n.1 h.2,
)

abbrev pub made : List ℕ → Node → ℤ → List ℤ → Node
made content node s clock = record node {
  blocks = assign eqb_ℤ s (record { serial = s; refer_count = pos 0 }) node.blocks;
  journal = assign eqb_ℤ s content node.journal;
  clock = clock;
}

module _ (content : List ℕ) (node : Node) (s : ℤ) (clock : List ℤ) where
  pub new_block-made :
      node.clock ≡ s ∷ clock → new_block content node ≡ some (s, made content node s clock)
  unfolding new_block
  new_block-made e = rw e

  block_content-made : block_content (made content node s clock) s ≡ content
  unfolding block_content
  block_content-made = rw (find-assign_self eqb_ℤ s content node.journal (eqb_self s))

  pub block_content-made_other :
      (x : ℤ)
      → eqb_ℤ s x ≡ false
      → block_content (made content node s clock) x ≡ block_content node x
  unfolding block_content
  block_content-made_other x h =
      rw (find-assign_other eqb_ℤ s x content node.journal h (λ i. eqb_other s x i h))

  pub contents-made :
      (serials : List ℤ)
      → NotIn serials s
      → contents (made content node s clock) serials ≡ contents node serials
  unfolding contents
  contents-made [] h = refl
  contents-made (x ∷ serials) h = rw (block_content-made_other x h.0, contents-made serials h.1)

contents-cut :
    (node : Node) (i k : ℕ) (serials : List ℤ)
    → contents node (take i serials ++ drop k serials)
      ≡ take i (contents node serials) ++ drop k (contents node serials)
unfolding contents
contents-cut node i k serials = rw (
  map-append (block_content node) (take i serials) (drop k serials),
  map-take (block_content node) i serials,
  map-drop (block_content node) k serials,
)

contents-around :
    (node : Node) (i k : ℕ) (s : ℤ) (serials : List ℤ)
    → contents node (take i serials ++ s ∷ drop k serials)
      ≡ take i (contents node serials) ++ block_content node s ∷ drop k (contents node serials)
unfolding contents
contents-around node i k s serials = rw (
  map-append (block_content node) (take i serials) (s ∷ drop k serials),
  map-take (block_content node) i serials,
  map-drop (block_content node) k serials,
)

length-contents : (node : Node) (serials : List ℤ) → length (contents node serials) ≡ length serials
unfolding contents
length-contents node serials = length-map (block_content node) serials

-- The run and the edit of the contents agree, and the numbers to come stay fresh.
abbrev pub Agrees : Option (List ℤ × Node) → Option (List (List ℕ)) → List ℤ → Type 0
Agrees run spec clock =
    ((run ≡ none) × (spec ≡ none))
    ⊎ ((serials : List ℤ) × (node : Node) × (run ≡ some (serials, node))
        × (spec ≡ some (contents node serials))
        × Fresh serials node.clock
        × (length clock ≤ suc (length node.clock)))

module _ (k : ℕ) (d : List ℕ) (serials : List ℤ) (node : Node)
    (fresh : Fresh serials node.clock) where
  pub delete-Agrees :
      Agrees
        (edit_at delete k d serials node)
        (edit_content delete k d (contents node serials))
        node.clock
  unfolding edit_at
  delete-Agrees = elim (Bool-cases (ltb k (length serials))) [
    | inl e ↦ inr (
      take k serials ++ drop (suc k) serials,
      node,
      rw e,
      rw (length-contents node serials, e, contents-cut node k (suc k) serials),
      Fresh-cut k (suc k) serials node.clock fresh,
      omega arith,
    )
    | inr e ↦ inl (rw e, rw (length-contents node serials, e))
  ]

  pub other-Agrees :
      (n : ℕ)
      → Agrees
          (edit_at (other_ope n) k d serials node)
          (edit_content (other_ope n) k d (contents node serials))
          node.clock
  unfolding edit_at
  other-Agrees n = elim (Bool-cases (leb k (length serials))) [
    | inl e ↦ inr (serials, node, rw e, rw (length-contents node serials, e), fresh, omega arith)
    | inr e ↦ inl (rw e, rw (length-contents node serials, e))
  ]

  module _ (s : ℤ) (clock : List ℤ) (e : node.clock ≡ s ∷ clock) where
    placed :
        (i : ℕ)
        → take k (contents node serials) ++ d ∷ drop i (contents node serials)
          ≡ contents (made d node s clock) (take k serials ++ s ∷ drop i serials)
    placed i =
        let fresh' = subst (Fresh serials) e fresh in
        rw (
          contents-around (made d node s clock) k i s serials,
          contents-made d node s clock serials fresh'.0,
          block_content-made d node s clock,
        )

    placed-Fresh : (i : ℕ) → Fresh (take k serials ++ s ∷ drop i serials) clock
    placed-Fresh i =
        let fresh' = subst (Fresh serials) e fresh in
        Fresh-new k i s serials clock fresh'.1 fresh'.2

    pub insert-Agrees :
        Agrees
          (edit_at insert k d serials node)
          (edit_content insert k d (contents node serials))
          node.clock
    unfolding edit_at
    insert-Agrees = elim (Bool-cases (leb k (length serials))) [
      | inl h ↦ inr (
        take k serials ++ s ∷ drop k serials,
        made d node s clock,
        rw (new_block-made d node s clock e, h),
        rw (length-contents node serials, h) (ap some (placed k)),
        placed-Fresh k,
        rw e (omega arith),
      )
      | inr h ↦ inl (rw (new_block-made d node s clock e, h), rw (length-contents node serials, h))
    ]

    pub over_write-Agrees :
        Agrees
          (edit_at over_write k d serials node)
          (edit_content over_write k d (contents node serials))
          node.clock
    unfolding edit_at
    over_write-Agrees = elim (Bool-cases (ltb k (length serials))) [
      | inl h ↦ inr (
        take k serials ++ s ∷ drop (suc k) serials,
        made d node s clock,
        rw (new_block-made d node s clock e, h),
        rw (length-contents node serials, h) (ap some (placed (suc k))),
        placed-Fresh (suc k),
        rw e (omega arith),
      )
      | inr h ↦ inl (rw (new_block-made d node s clock e, h), rw (length-contents node serials, h))
    ]
