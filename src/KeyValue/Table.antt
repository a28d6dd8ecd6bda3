-- ===== src/KeyValue/Table.antt =====
-- A RocksDb of plain lists in the order of their keys: the assumptions of `RocksDb` can be met.
use gdfile_store.Base.{
  ℕ, ◌≡◌, refl, sym, ◌∙◌, true, false, Bool-cases, inl, inr, Option, none, some, List, [], ◌∷◌,
  ◌++◌, arith, bytes_eq, bytes_eq_iff, bytes_lt, if◌then◌else◌, All,
}
use gdfile_store.KeyValue.Assoc.{find, erase}
use gdfile_store.KeyValue.{RocksDb}

abbrev pub Entries : Type 0
Entries = List (List ℕ × List ℕ)

unfoldable pub insert_entry : Entries → List ℕ → List ℕ → Entries
insert_entry [] k v = (k, v) ∷ []
insert_entry ((j, w) ∷ m) k v =
    let rest = insert_entry m k v in
    if bytes_eq j k then (j, v) ∷ m else if bytes_lt k j then (k, v) ∷ (j, w) ∷ m else (j, w) ∷ rest

-- The suffix from the last key that is not above the target.
unfoldable pub seek : Entries → List ℕ → Entries
seek [] target = []
seek (x ∷ xs) target =
    let rest = seek xs target in
    elim rest [ [] ↦ if bytes_lt target x.0 then [] else x ∷ xs | y ∷ ys ↦ y ∷ ys ]

-- The tests for two different keys can be made in either order.
swapped :
    (i k j : List ℕ)
    → bytes_eq i k ≡ false
    → (x y z : Option (List ℕ))
    → (if bytes_eq i j then x else if bytes_eq k j then y else z)
      ≡ (if bytes_eq k j then y else if bytes_eq i j then x else z)
swapped i k j e x y z = elim (Bool-cases (bytes_eq i j)) [
  | inl e' ↦ elim (Bool-cases (bytes_eq k j)) [
    | inl e'' ↦
        let same =
          (bytes_eq_iff i k).1 ((bytes_eq_iff i j).0 e' ∙ sym ((bytes_eq_iff k j).0 e'')) in
        absurd (cc)
    | inr e'' ↦ rw (e', e'')
  ]
  | inr e' ↦ rw e'
]

pub find-insert_entry :
    (m : Entries) (k j v : List ℕ)
    → find bytes_eq j (insert_entry m k v) ≡ (if bytes_eq k j then some v else find bytes_eq j m)
unfolding find insert_entry
find-insert_entry [] k j v = refl
find-insert_entry ((i, w) ∷ m) k j v = elim (Bool-cases (bytes_eq i k)) [
  | inl e ↦ rw (e, (bytes_eq_iff i k).0 e) (ground arith)
  | inr e ↦ elim (Bool-cases (bytes_lt k i)) [
    | inl lt ↦ rw (e, lt, find)
    | inr lt ↦ rw (e, lt, find, find-insert_entry m k j v) (swapped i k j e (some w) (some v) _)
  ]
]

pub find-erase :
    (m : Entries) (k j : List ℕ)
    → find bytes_eq j (erase bytes_eq k m) ≡ (if bytes_eq k j then none else find bytes_eq j m)
unfolding find erase
find-erase [] k j = ground arith
find-erase ((i, w) ∷ m) k j = elim (Bool-cases (bytes_eq i k)) [
  | inl e ↦ rw (e, find-erase m k j, (bytes_eq_iff i k).0 e) (ground arith)
  | inr e ↦ rw (e, find, find-erase m k j) (swapped i k j e (some w) none _)
]

pub seek_above :
    (target : List ℕ) (xs : Entries)
    → All (λ (x : List ℕ × List ℕ). bytes_lt target x.0 ≡ true) xs
    → seek xs target ≡ []
unfolding seek
seek_above target [] h = refl
seek_above target (x ∷ xs) h = rw (seek_above target xs h.1, h.0)

pub seek_split :
    (target : List ℕ) (front back : Entries) (e : List ℕ × List ℕ)
    → bytes_lt target e.0 ≡ false
    → All (λ (x : List ℕ × List ℕ). bytes_lt target x.0 ≡ true) back
    → seek (front ++ e ∷ back) target ≡ e ∷ back
unfolding seek
seek_split target [] back e le h = rw (seek_above target back h, le)
seek_split target (x ∷ front) back e le h = rw (seek_split target front back e le h)

abbrev pub table : RocksDb
table = record {
  Db = Entries;
  get = λ m k. find bytes_eq k m;
  put = insert_entry;
  delete = λ m k. erase bytes_eq k m;
  entries = λ m. m;
  seek_for_prev = seek;
  get-put = find-insert_entry;
  get-delete = find-erase;
  seek_at = λ db target front back e split le h. rw split (seek_split target front back e le h);
  seek_none = λ db target h. seek_above target db h;
}
