-- ===== src/KeyValue/Assoc.antt =====
-- std::map as a list of entries, with the map's test for one key.
use mathlib.Core.Path.{subst}
use gdfile_store.Base.{
  Bool-cases, inl, inr, false, ◌≡◌, refl, Bool, true, Option, none, some, List, [], ◌∷◌, arith,
  if◌then◌else◌, All,
}

module _ {K V : Type 0} (same : K → K → Bool) where
  unfoldable pub find : K → List (K × V) → Option V
  find k [] = none
  find k ((j, v) ∷ m) = if same j k then some v else find k m

  -- m[k] = v: the key that is there stays.
  unfoldable pub assign : K → V → List (K × V) → List (K × V)
  assign k v [] = (k, v) ∷ []
  assign k v ((j, w) ∷ m) = if same j k then (j, v) ∷ m else (j, w) ∷ assign k v m

  unfoldable pub erase : K → List (K × V) → List (K × V)
  erase k [] = []
  erase k ((j, v) ∷ m) = let rest = erase k m in if same j k then rest else (j, v) ∷ rest

  -- What was assigned is found.
  pub find-assign_self :
      (k : K) (v : V) (m : List (K × V)) → same k k ≡ true → find k (assign k v m) ≡ some v
  unfolding find assign
  find-assign_self k v [] h = rw h
  find-assign_self k v ((j, w) ∷ m) h = ground (arith, find-assign_self k v m h)

  pub find-erase_self : (k : K) (m : List (K × V)) → find k (erase k m) ≡ none
  unfolding find erase
  find-erase_self k [] = refl
  find-erase_self k ((j, v) ∷ m) = ground (arith, find-erase_self k m)

  -- Another key's entry stays.
  pub find-assign_other :
      (j k : K) (v : V) (m : List (K × V))
      → same j k ≡ false
      → ((i : K) → same i j ≡ true → same i k ≡ false)
      → find k (assign j v m) ≡ find k m
  unfolding find assign
  find-assign_other j k v [] h other = rw h
  find-assign_other j k v ((i, w) ∷ m) h other = elim (Bool-cases (same i j)) [
    | inl e ↦ rw (e, find, other i e)
    | inr e ↦ rw (e, find, find-assign_other j k v m h other)
  ]

  -- What holds of every entry, and of the new value under each key that is the same.
  pub All-assign :
      (P : K × V → Type 0) (k : K) (v : V) (m : List (K × V))
      → ((j : K) → same j k ≡ true → P (j, v))
      → P (k, v)
      → All P m
      → All P (assign k v m)
  unfolding assign
  All-assign P k v [] there here h = (here, tt)
  All-assign P k v ((j, w) ∷ m) there here h = elim (Bool-cases (same j k)) [
    | inl e ↦ rw (e, assign) (there j e, h.1)
    | inr e ↦ rw (e, assign) (h.0, All-assign P k v m there here h.1)
  ]

  -- What is found stands in the map under a key that is the same.
  pub All-find :
      (P : K × V → Type 0) (k : K) (v : V) (m : List (K × V))
      → All P m
      → find k m ≡ some v
      → (j : K) × (same j k ≡ true) × P (j, v)
  unfolding find
  All-find P k v [] h e = absurd (cc)
  All-find P k v ((j, w) ∷ m) h e = elim (Bool-cases (same j k)) [
    | inl here ↦
        let found : w ≡ v = cc (rw here at e) in (j, here, subst (λ (x : V). P (j, x)) found h.0)
    | inr there ↦ All-find P k v m h.1 (rw there at e)
  ]
