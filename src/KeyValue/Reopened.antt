-- ===== src/KeyValue/Reopened.antt =====
-- What a store that is opened again makes of the headers it stored.
use gdfile_store.Base.{
  ℕ, ◌+◌, ◌^◌, ◌≤◌, ◌<◌, ◌≡◌, ◌≢◌, refl, true, Bool-cases, inl, inr, none, some, List, [], ◌∷◌,
  arith, ltb,
}
use gdfile_store.Base.Int.{ℤ}
use gdfile_store.Buffer.{drawback, drawback-IsAhead, IsAhead}
use gdfile_store.Codec.Word.{of_bytes}
use gdfile_store.Codec.{scalar, tuple_end, read_scalar, from_string}
use gdfile_store.Decimal.{print, is_digit, digits_from}
use gdfile_store.Decimal.RoundTrip.{Printed, print-Printed, print_digit}
use gdfile_store.Object.{GhObject}
use gdfile_store.Object.Members.{◌&◌}
use gdfile_store.Object.Compare.{gh_same, get_obj_unique_str_desc}
use gdfile_store.KeyValue.Assoc.{find, assign}
use gdfile_store.KeyValue.{
  RocksDb, RocksKv, Header, header_to_string, header_of_stored, header_of, get_header,
}

one_digit : (a n : ℕ) → is_digit a ≡ true → digits_from 0 (a ∷ []) ≡ n → n < 10
unfolding digits_from
one_digit a n h e = ground arith

two_digits :
    (n : ℕ)
    → 10 ≤ n
    → (a b : ℕ) × (s : List ℕ) × (print n ≡ a ∷ b ∷ s) × (is_digit a ≡ true) × (is_digit b ≡ true)
two_digits n h = go (print n) refl (print-Printed n)
  where
    go :
        (t : List ℕ)
        → print n ≡ t
        → Printed n t
        → (a b : ℕ) × (s : List ℕ) × (print n ≡ a ∷ b ∷ s)
          × (is_digit a ≡ true)
          × (is_digit b ≡ true)
    go [] e p = absurd p
    go (a ∷ []) e p = absurd (omega (arith, one_digit a n p.0 p.2))
    go (a ∷ b ∷ s) e p = (a, b, s, e, p.0, p.1.0)

-- The four bytes of "h_" and two digits, as one `uint32_t`.
first_word :
    (a b : ℕ) (s : List ℕ)
    → is_digit a ≡ true
    → is_digit b ≡ true
    → from_string (scalar 4 & tuple_end) (b'h' ∷ b'_' ∷ a ∷ b ∷ s)
      ≡ some (of_bytes (b'h' ∷ b'_' ∷ a ∷ b ∷ []), tt)
unfolding from_string read_scalar
first_word a b s ha hb =
    let ahead : IsAhead (b'h' ∷ b'_' ∷ a ∷ b ∷ s) 0 (b'h' ∷ b'_' ∷ a ∷ b ∷ []) s = record {
      ahead = refl;
      within = omega arith;
      fits = omega arith;
    } in
    rw (drawback-IsAhead (b'h' ∷ b'_' ∷ a ∷ b ∷ s) 0 (b'h' ∷ b'_' ∷ a ∷ b ∷ []) s ahead)

first_word_large :
    (a b : ℕ) → is_digit a ≡ true → is_digit b ≡ true → 2 ^ 29 < of_bytes (b'h' ∷ b'_' ∷ a ∷ b ∷ [])
unfolding of_bytes
first_word_large a b ha hb = ground arith

-- Of "h_" and one digit, the three bytes and the terminator behind them.
short_word :
    (a : ℕ)
    → from_string (scalar 4 & tuple_end) (b'h' ∷ b'_' ∷ a ∷ [])
      ≡ some (of_bytes (b'h' ∷ b'_' ∷ a ∷ 0 ∷ []), tt)
unfolding from_string read_scalar drawback
short_word a = refl

short_word_large : (n : ℕ) → n < of_bytes (b'h' ∷ b'_' ∷ (48 + n) ∷ 0 ∷ [])
unfolding of_bytes
short_word_large n = omega arith

header_word :
    (n : ℕ)
    → n < 2 ^ 29
    → (w : ℕ) × (from_string (scalar 4 & tuple_end) (header_to_string (record { key = n }))
        ≡ some (w, tt))
      × (w ≢ n)
unfolding header_to_string
header_word n lt = elim (Bool-cases (ltb n 10)) [
  | inl small ↦ (
    of_bytes (b'h' ∷ b'_' ∷ (48 + n) ∷ 0 ∷ []),
    rw (print_digit n (ground arith)) (short_word (48 + n)),
    λ same. omega (arith, short_word_large n),
  )
  | inr large ↦
      let (a, b, s, text, ha, hb) = two_digits n (ground arith) in
      (
        of_bytes (b'h' ∷ b'_' ∷ a ∷ b ∷ []),
        rw text (first_word a b s ha hb),
        λ same. omega (arith, first_word_large a b ha hb),
      )
]

module _ (r : RocksDb) (default_count : ℤ) (kv : RocksKv r) (gh : GhObject) where
  -- A header that the caches do not have, as after the store was opened again, is read from the
  -- database as raw bytes although it was stored as text: for a number below 2 ^ 29 GetHeader
  -- answers, and the answer is another header.
  pub get_header_misread :
      (n : ℕ)
      → find gh_same gh kv.obj_cache_header ≡ none
      → r.get kv.db (get_obj_unique_str_desc gh) ≡ some (header_to_string (record { key = n }))
      → n < 2 ^ 29
      → (h : Header) × (kv' : RocksKv r) × (get_header r default_count kv gh ≡ some (h, kv'))
        × (h.key ≢ n)
  unfolding get_header header_of_stored
  get_header_misread n uncached stored lt =
      let (w, word, other) = header_word n lt in
      (
        record { key = w },
        record kv { obj_cache_header = assign gh_same gh (record { key = w }) kv.obj_cache_header },
        rw (uncached, header_of, stored, word, header_of_stored),
        other,
      )
