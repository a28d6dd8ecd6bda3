-- ===== src/FileBuffer/Flush.antt =====
-- What the cache has after it was flushed.
use gdfile_store.Base.{
  ℕ, ◌≡◌, refl, inl, inr, Bool, Bool-cases, Option-cases, false, Option, none, some, List, [], ◌∷◌,
  arith, bytes_eq, bytes_eq_iff, bytes_eq_self, if◌then◌else◌, length,
}
use gdfile_store.KeyValue.Assoc.{find, find-assign_self, find-assign_other}
use gdfile_store.FileBuffer.{
  FileCache, is_among, emplaced, load_files, flush_cache, floating_files_count, get_file,
}

abbrev pub or_else : Option (List ℕ) → Option (List ℕ) → Option (List ℕ)
or_else none o = o
or_else (some x) o = some x

module _ (read_file : List ℕ → List ℕ) (moved : List ℕ → List ℕ) where
  find-emplaced_self :
      (f : List ℕ) (cache : List (List ℕ × List ℕ))
      → find bytes_eq f (emplaced read_file moved f (find bytes_eq f cache) cache)
        ≡ or_else (find bytes_eq f cache) (some (read_file f))
  find-emplaced_self f cache = elim (Option-cases (find bytes_eq f cache)) [
    | inl e ↦ rw e (find-assign_self bytes_eq f (read_file f) cache (bytes_eq_self f))
    | inr (x, e) ↦ rw e e
  ]

  find-emplaced_other :
      (f g : List ℕ) (cache : List (List ℕ × List ℕ))
      → bytes_eq f g ≡ false
      → find bytes_eq g (emplaced read_file moved f (find bytes_eq f cache) cache)
        ≡ find bytes_eq g cache
  find-emplaced_other f g cache h = elim (Option-cases (find bytes_eq f cache)) [
    | inl e ↦ rw e (
        find-assign_other bytes_eq f g (read_file f) cache h
          (λ i e'. rw ((bytes_eq_iff i f).0 e') h))
    | inr (x, e) ↦ rw e refl
  ]

  or_else_twice :
      (o : Option (List ℕ)) (x : List ℕ) (b : Bool)
      → or_else (or_else o (some x)) (if b then some x else none) ≡ or_else o (some x)
  or_else_twice none x b = refl
  or_else_twice (some y) x b = refl

  load_files-find :
      (g : List ℕ) (fs : List (List ℕ)) (cache : List (List ℕ × List ℕ))
      → find bytes_eq g (load_files read_file moved fs cache).1
        ≡ or_else (find bytes_eq g cache) (if is_among g fs then some (read_file g) else none)
  unfolding load_files
  load_files-find g [] cache = elim (Option-cases (find bytes_eq g cache)) [
    | inl e ↦ rw e refl
    | inr (x, e) ↦ rw e refl
  ]
  load_files-find g (f ∷ fs) cache =
      let next = emplaced read_file moved f (find bytes_eq f cache) cache in
      elim (Bool-cases (bytes_eq f g)) [
        | inl e ↦
            let same : f ≡ g = (bytes_eq_iff f g).0 e in
            rw (e, load_files-find g fs next)
              (rw same (
                rw (find-emplaced_self g cache)
                  (or_else_twice (find bytes_eq g cache) (read_file g) (is_among g fs))))
        | inr e ↦ rw (e, load_files-find g fs next, find-emplaced_other f g cache e) refl
      ]

  load_files-length :
      (fs : List (List ℕ)) (cache : List (List ℕ × List ℕ))
      → length (load_files read_file moved fs cache).0 ≡ length fs
  unfolding load_files
  load_files-length [] cache = refl
  load_files-length (f ∷ fs) cache = omega (arith, load_files-length fs _)

  -- After flush_cache a file that was in the cache has the text it had, one that was to be loaded
  -- has what was read, and any other has none; but as many files are still counted as to be loaded
  -- as before, although none is registered any more.
  pub get_file-flush_cache :
      (c : FileCache)
      → ((f : List ℕ)
          → get_file f (flush_cache read_file moved c)
            ≡ or_else
                (get_file f c)
                (if is_among f c.need_load_files then some (read_file f) else none))
        × (floating_files_count (flush_cache read_file moved c) ≡ floating_files_count c)
        × ((flush_cache read_file moved c).files ≡ [])
  unfolding get_file flush_cache floating_files_count
  get_file-flush_cache c = (
    λ f. load_files-find f c.need_load_files c.cache,
    load_files-length c.need_load_files c.cache,
    refl,
  )
