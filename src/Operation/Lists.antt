-- ===== src/Operation/Lists.antt =====
-- std::vector's writes, insertions and erasures by index; `none` is an iterator out of range.
use gdfile_store.Base.{ℕ, zero, suc, Option, none, some, List, [], ◌∷◌, ◌++◌}

module _ {A : Type 0} where
  -- The head of the list is not reached.
  abbrev pub keep_head : A → Option (List A) → Option (List A)
  keep_head x none = none
  keep_head x (some xs) = some (x ∷ xs)

  abbrev pub set_elem? : List A → ℕ → A → Option (List A)
  set_elem? [] i v = none
  set_elem? (x ∷ xs) zero v = some (v ∷ xs)
  set_elem? (x ∷ xs) (suc i) v = keep_head x (set_elem? xs i v)

  -- insert(begin() + i, first, last)
  abbrev pub insert_all : ℕ → List A → List A → Option (List A)
  insert_all zero new xs = some (new ++ xs)
  insert_all (suc i) new [] = none
  insert_all (suc i) new (x ∷ xs) = keep_head x (insert_all i new xs)

  -- erase(begin() + a, begin() + b)
  abbrev pub erase_range : ℕ → ℕ → List A → Option (List A)
  erase_range zero zero xs = some xs
  erase_range zero (suc b) [] = none
  erase_range zero (suc b) (x ∷ xs) = erase_range zero b xs
  erase_range (suc a) zero xs = none
  erase_range (suc a) (suc b) [] = none
  erase_range (suc a) (suc b) (x ∷ xs) = keep_head x (erase_range a b xs)
