-- ===== src/Operation/Edit.antt =====
-- The reference for class Operation: edits of one text, and what a list of slices stands for.
use gdfile_store.Base.{ℕ, ◌+◌, ◌≡◌, List, [], ◌∷◌, ◌++◌, take, drop}
use gdfile_store.Codec.{Slice}
use gdfile_store.Slice.Holds.{Holds}

pub data Edit : Type 0 where
  put : ℕ → List ℕ → Edit
  cut : ℕ → ℕ → Edit

unfoldable pub edit : Edit → List ℕ → List ℕ
edit (put n xs) t = take n t ++ (xs ++ drop n t)
edit (cut n m) t = take n t ++ drop (n + m) t

unfoldable pub edits : List Edit → List ℕ → List ℕ
unfolding edit
edits [] t = t
edits (e ∷ es) t = edits es (edit e t)

-- The slices hold, one behind the other, the pieces of the text.
abbrev pub Texts : List Slice → List ℕ → Type 0
Texts [] t = t ≡ []
Texts (s ∷ ss) t = (u v : List ℕ) × Holds s u × Texts ss v × (t ≡ u ++ v)
