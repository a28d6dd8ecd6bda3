-- ===== src/KeyValue/Prefix.antt =====
-- RocksKV::GetMatchPrefix against a plain filter of the database's entries.
use gdfile_store.Base.{
  Bool, ◌==◌, if◌then◌else◌, ℕ, ◌≡◌, refl, sym, ap, ◌∙◌, true, false, Bool-cases, inl, inr, List,
  [], ◌∷◌, ◌++◌, arith, le→leb, bytes_eq, bytes_eq_iff, bytes_lt, length, take, length-append,
  take-append, take-append-drop, drop, All,
}
use gdfile_store.KeyValue.{RocksDb, RocksKv, begin_with, matching, get_match_prefix}

bytes_lt-trans_le :
    (a b c : List ℕ) → bytes_lt a b ≡ true → bytes_lt c b ≡ false → bytes_lt a c ≡ true
unfolding bytes_lt
bytes_lt-trans_le a [] c h k = cc
bytes_lt-trans_le [] (y ∷ b) [] h k = cc
bytes_lt-trans_le [] (y ∷ b) (z ∷ c) h k = refl
bytes_lt-trans_le (x ∷ a) (y ∷ b) [] h k = cc
bytes_lt-trans_le (x ∷ a) (y ∷ b) (z ∷ c) h k = ground (arith, bytes_lt-trans_le a b c)

bytes_lt-append : (pre s : List ℕ) → bytes_lt (pre ++ s) pre ≡ false
unfolding bytes_lt
bytes_lt-append [] s = refl
bytes_lt-append (x ∷ pre) s = ground (arith, bytes_lt-append pre s)

bytes_lt-append_cons : (pre s : List ℕ) (c : ℕ) → bytes_lt pre (pre ++ c ∷ s) ≡ true
unfolding bytes_lt
bytes_lt-append_cons [] s c = refl
bytes_lt-append_cons (x ∷ pre) s c = ground (arith, bytes_lt-append_cons pre s c)

pub begin_with-append : (pre s : List ℕ) → begin_with pre (pre ++ s) ≡ true
unfolding begin_with
begin_with-append pre s =
    rw
      (
        le→leb (length pre) (length (pre ++ s)) (omega (arith, length-append pre s)),
        take-append pre s,
      )
      ((bytes_eq_iff pre pre).1 refl)

begin_with-split : (pre k : List ℕ) → begin_with pre k ≡ true → pre ++ drop (length pre) k ≡ k
unfolding begin_with
begin_with-split pre k h =
    let same : bytes_eq (take (length pre) k) pre ≡ true = ground arith in
    ap (λ (s : List ℕ). s ++ drop (length pre) k)
      (sym ((bytes_eq_iff (take (length pre) k) pre).0 same))
    ∙ take-append-drop (length pre) k

-- A key below the prefix does not begin with it.
begin_with_below : (pre k : List ℕ) → bytes_lt k pre ≡ true → begin_with pre k ≡ false
begin_with_below pre k h = elim (Bool-cases (begin_with pre k)) [
  | inl begins ↦
      let above = bytes_lt-append pre (drop (length pre) k) in
      absurd (cc (rw (begin_with-split pre k begins) at above))
  | inr e ↦ e
]

matching_front :
    (pre : List ℕ) (front rest : List (List ℕ × List ℕ))
    → All (λ (x : List ℕ × List ℕ). bytes_lt x.0 pre ≡ true) front
    → matching pre (front ++ rest) ≡ matching pre rest
matching_front pre [] rest h = refl
matching_front pre (x ∷ front) rest h =
    rw (begin_with_below pre x.0 h.0) (matching_front pre front rest h.1)

front_below :
    (pre k : List ℕ) (front : List (List ℕ × List ℕ))
    → bytes_lt pre k ≡ false
    → All (λ (x : List ℕ × List ℕ). bytes_lt x.0 k ≡ true) front
    → All (λ (x : List ℕ × List ℕ). bytes_lt x.0 pre ≡ true) front
front_below pre k [] le h = tt
front_below pre k (x ∷ front) le h =
    (bytes_lt-trans_le x.0 k pre h.0 le, front_below pre k front le h.1)

-- Whether a text goes on from a prefix, byte by byte.
abbrev pub starts_with : List ℕ → List ℕ → Bool
starts_with [] k = true
starts_with (x ∷ pre) [] = false
starts_with (x ∷ pre) (y ∷ k) = let rest = starts_with pre k in if x == y then rest else false

-- The entries whose keys start with a prefix, each of them and in their order.
abbrev pub with_prefix : List ℕ → List (List ℕ × List ℕ) → List (List ℕ × List ℕ)
with_prefix pre [] = []
with_prefix pre (e ∷ es) =
    let rest = with_prefix pre es in if starts_with pre e.0 then e ∷ rest else rest

begin_with-starts_with : (pre k : List ℕ) → begin_with pre k ≡ starts_with pre k
unfolding begin_with bytes_eq
begin_with-starts_with [] k = ground arith
begin_with-starts_with (x ∷ pre) [] = ground arith
begin_with-starts_with (x ∷ pre) (y ∷ k) = ground (arith, begin_with-starts_with pre k)

matching-with_prefix :
    (pre : List ℕ) (es : List (List ℕ × List ℕ)) → matching pre es ≡ with_prefix pre es
matching-with_prefix pre [] = refl
matching-with_prefix pre (e ∷ es) = rw (begin_with-starts_with pre e.0, matching-with_prefix pre es)

module _ (r : RocksDb) (kv : RocksKv r) (pre : List ℕ) where
  -- If the database, whose keys are in order, has a key that is not above the prefix, the result is
  -- exactly the entries whose keys start with the prefix byte by byte, one that is the prefix
  -- included, in the order of the database.
  pub get_match_prefix-matching :
      (front back : List (List ℕ × List ℕ)) (e : List ℕ × List ℕ)
      → r.entries kv.db ≡ front ++ e ∷ back
      → All (λ (x : List ℕ × List ℕ). bytes_lt x.0 e.0 ≡ true) front
      → bytes_lt pre e.0 ≡ false
      → All (λ (x : List ℕ × List ℕ). bytes_lt pre x.0 ≡ true) back
      → get_match_prefix r kv pre ≡ with_prefix pre (r.entries kv.db)
  unfolding get_match_prefix
  get_match_prefix-matching front back e split below le above =
      rw (r.seek_at kv.db pre front back e split le above, split)
        (sym (matching_front pre front (e ∷ back) (front_below pre e.0 front le below))
          ∙ matching-with_prefix pre (front ++ e ∷ back))

  -- If every key is above the prefix, SeekForPrev leaves the iterator invalid and nothing is
  -- returned, although the first entry, whose key goes on behind the prefix, does match.
  pub get_match_prefix_misses :
      (c : ℕ) (s v : List ℕ) (back : List (List ℕ × List ℕ))
      → r.entries kv.db ≡ (pre ++ c ∷ s, v) ∷ back
      → All (λ (x : List ℕ × List ℕ). bytes_lt pre x.0 ≡ true) back
      → (get_match_prefix r kv pre ≡ [])
        × (matching pre (r.entries kv.db) ≡ (pre ++ c ∷ s, v) ∷ matching pre back)
  unfolding get_match_prefix
  get_match_prefix_misses c s v back split above = (
    rw (r.seek_none kv.db pre (rw split (bytes_lt-append_cons pre s c, above))),
    rw (split, begin_with-append pre (c ∷ s)),
  )
