-- ===== src/KeyValue/Headers.antt =====
-- Headers: their text, a header's first use, and its end.
use gdfile_store.Base.{
  ℕ, ◌+◌, ◌%◌, ◌^◌, ◌<◌, ◌≡◌, ◌≢◌, refl, sym, ap, false, Option-cases, ◌⊎◌, inl, inr, none, some,
  List, ◌∷◌, arith, le→leb, lt→ltb, ==_iff, bytes_eq, bytes_eq_self, bytes_eq_ne, length,
}
use native.Mathlib.Nat.{mod-eq_of_lt}
use gdfile_store.Base.Int.{ℤ, pos, pos-add, to_word, of_word}
use gdfile_store.Codec.{word32}
use gdfile_store.Decimal.{print, print_int}
use gdfile_store.Decimal.RoundTrip.{stoul-print}
use gdfile_store.Object.{GhObject}
use gdfile_store.Object.Compare.{gh_same, gh_same_iff, get_obj_unique_str_desc}
use gdfile_store.KeyValue.Assoc.{find, assign, erase, find-assign_self, find-erase_self}
use gdfile_store.KeyValue.{
  RocksDb, RocksKv, Header, header_same, header_to_string, header_from_to_string, header_count_key,
  header_count, get_new_header, header_of_stored, header_of, get_header, erase_header, get_obj,
  obj_of,
}

-- A header is read back from its text.
pub header_from_to_string-to_string :
    (h : Header) → h.key < word32 → header_from_to_string (header_to_string h) ≡ some h
unfolding header_to_string header_from_to_string
header_from_to_string-to_string h lt =
    rw
      (le→leb 2 (length (b'h' ∷ b'_' ∷ print h.key)) (omega arith), stoul-print h.key (omega arith))
      (ap (λ (k : ℕ). some (record { key = k })) (mod-eq_of_lt {n = h.key} {m = word32} lt))

module _ (r : RocksDb) (default_count : ℤ) (kv : RocksKv r) (gh : GhObject) (n : ℕ) where
  -- The object has no header yet, and `n` is the next number. Its description is neither the key
  -- of the counter nor the text of that header.
  pub record IsNew : Type 0 where
    pub uncached : find gh_same gh kv.obj_cache_header ≡ none
    pub unstored : r.get kv.db (get_obj_unique_str_desc gh) ≡ none
    pub count : header_count r default_count (r.get kv.db header_count_key) ≡ some (pos n)
    pub room : n + 1 < 2 ^ 31
    pub not_counter : get_obj_unique_str_desc gh ≢ header_count_key
    pub not_header : get_obj_unique_str_desc gh ≢ header_to_string (record { key = n })

module _ (r : RocksDb) (default_count : ℤ) (kv : RocksKv r) (gh : GhObject) (n : ℕ)
    (new : IsNew r default_count kv gh n) where
  desc : List ℕ
  desc = get_obj_unique_str_desc gh

  header : Header
  header = record { key = n }

  created : RocksKv r
  created = record {
    db =
        r.put (r.put (r.put kv.db header_count_key (print (n + 1))) desc (header_to_string header))
          (header_to_string header) desc;
    obj_cache_header = assign gh_same gh header kv.obj_cache_header;
    reverse_obj_cache_header = assign header_same header gh kv.reverse_obj_cache_header;
  }

  get_header-created : get_header r default_count kv gh ≡ some (header, created)
  unfolding get_header header_of_stored get_new_header print_int to_word desc header created
  get_header-created = rw (
    new.uncached,
    header_of,
    new.unstored,
    new.count,
    pos-add n 1,
    mod-eq_of_lt {n = n} {m = word32} (omega (arith, new.room)),
  )

  get-created_desc : r.get created.db desc ≡ some (header_to_string header)
  unfolding desc header created
  get-created_desc = rw (
    r.get-put,
    bytes_eq_ne _ _ (λ (e : header_to_string header ≡ desc). new.not_header (sym e)),
    r.get-put,
    bytes_eq_self desc,
  )

  get-created_header : r.get created.db (header_to_string header) ≡ some desc
  unfolding desc header created
  get-created_header = rw (r.get-put, bytes_eq_self (header_to_string header))

  header_text_not_counter : bytes_eq (header_to_string header) header_count_key ≡ false
  unfolding header_to_string header bytes_eq
  header_text_not_counter = refl

  count-created :
      header_count r default_count (r.get created.db header_count_key) ≡ some (pos (n + 1))
  unfolding desc header created of_word
  count-created =
      let small : (n + 1) % word32 ≡ n + 1 =
        mod-eq_of_lt {n = n + 1} {m = word32} (omega (arith, new.room)) in
      rw (
        r.get-put,
        header_text_not_counter,
        r.get-put,
        bytes_eq_ne _ header_count_key new.not_counter,
        r.get-put,
        bytes_eq_self header_count_key,
        stoul-print (n + 1) (omega (arith, new.room)),
        small,
        lt→ltb (n + 1) (2 ^ 31) new.room,
      )

  get_header-cached : get_header r default_count created gh ≡ some (header, created)
  unfolding get_header created
  get_header-cached = rw (
    find-assign_self gh_same gh header kv.obj_cache_header ((gh_same_iff gh gh).1 (refl, refl)),
    header_of,
  )

  -- A new object gets the next number as its header, the counter goes on by one, the database has
  -- the object's description and the header each under the other, and both caches know the pair:
  -- from then on GetHeader gives this header for the object and GetObj the object for the header,
  -- without a change.
  pub get_header_new :
      (default_obj : GhObject) (pool : ℤ)
      → (kv' : RocksKv r) × (get_header r default_count kv gh ≡ some (record { key = n }, kv'))
        × (header_count r default_count (r.get kv'.db header_count_key) ≡ some (pos (n + 1)))
        × (r.get kv'.db (get_obj_unique_str_desc gh) ≡ some (header_to_string (record { key = n })))
        × (r.get kv'.db (header_to_string (record { key = n })) ≡ some (get_obj_unique_str_desc gh))
        × (get_header r default_count kv' gh ≡ some (record { key = n }, kv'))
        × (get_obj r default_obj pool kv' (record { key = n }) ≡ some (gh, kv'))
  unfolding header desc
  get_header_new default_obj pool = (
    created,
    get_header-created,
    count-created,
    get-created_desc,
    get-created_header,
    get_header-cached,
    (unfold get_obj created in
        rw (
          find-assign_self header_same header gh kv.reverse_obj_cache_header ((==_iff n n).1 refl),
          obj_of,
        )),
  )

module _ (r : RocksDb) (kv : RocksKv r) (gh : GhObject) where
  -- EraseHeader of an object that is not in the cache reads through the end iterator; of one that
  -- is, it takes the pair out of the cache and out of the database.
  pub erase_header_cases :
      ((find gh_same gh kv.obj_cache_header ≡ none) × (erase_header r kv gh ≡ none))
      ⊎ ((h : Header) × (kv' : RocksKv r) × (find gh_same gh kv.obj_cache_header ≡ some h)
          × (erase_header r kv gh ≡ some kv')
          × (find gh_same gh kv'.obj_cache_header ≡ none)
          × (find header_same h kv'.reverse_obj_cache_header ≡ none)
          × (r.get kv'.db (get_obj_unique_str_desc gh) ≡ none)
          × (r.get kv'.db (header_to_string h) ≡ none))
  unfolding erase_header
  erase_header_cases = elim (Option-cases (find gh_same gh kv.obj_cache_header)) [
    | inl e ↦ inl (e, rw e)
    | inr (h, e) ↦ inr (
      h,
      record {
        db = r.delete (r.delete kv.db (get_obj_unique_str_desc gh)) (header_to_string h);
        obj_cache_header = erase gh_same gh kv.obj_cache_header;
        reverse_obj_cache_header = erase header_same h kv.reverse_obj_cache_header;
      },
      e,
      rw e,
      find-erase_self gh_same gh kv.obj_cache_header,
      find-erase_self header_same h kv.reverse_obj_cache_header,
      both_deleted (header_to_string h),
      rw (r.get-delete, bytes_eq_self (header_to_string h)),
    )
  ]
    where
      both_deleted :
          (k : List ℕ)
          → r.get
              (r.delete (r.delete kv.db (get_obj_unique_str_desc gh)) k)
              (get_obj_unique_str_desc gh)
            ≡ none
      both_deleted k =
          rw (r.get-delete, r.get-delete, bytes_eq_self (get_obj_unique_str_desc gh)) (ground arith)
