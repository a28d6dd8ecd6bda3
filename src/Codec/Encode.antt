-- ===== src/Codec/Encode.antt =====
-- What `Write` appends, described apart from buffers: one byte string for each value.
use gdfile_store.Base.{
  ℕ, ◌%◌, ◌^◌, ◌<◌, ◌≡◌, refl, sym, ap, ◌∙◌, Option, none, some, List, [], ◌∷◌, ◌++◌, append-nil,
  arith, lt→ltb, length, take-all, All, suc-not-zero,
}
use gdfile_store.Base.Int.{to_word}
use gdfile_store.Buffer.{Buffer, append, append-append, append-nil_lem}
use gdfile_store.Codec.Word.{bytes_of}
use gdfile_store.Codec.{
  Ty, El, Slice, scalar, text, tuple_end, tuple_cons, vector, list, slice, word32, write,
  write_text, write_array, write_vector, write_list, write_source, write_slice,
}

abbrev pub encode_text : List ℕ → List ℕ
encode_text s = bytes_of 4 (length s) ++ s

abbrev pub encode_all : {A : Type 0} → (A → List ℕ) → List A → List ℕ
encode_all f [] = []
encode_all f (v ∷ vs) = f v ++ encode_all f vs

abbrev pub encode_source : Option Buffer → List ℕ
encode_source (some src) = encode_text src.content
encode_source none = encode_text [] ++ bytes_of 4 0

abbrev pub encode : (t : Ty) → El t → List ℕ
encode (scalar w) v = bytes_of w v
encode text s = encode_text s
encode tuple_end v = []
encode (tuple_cons s t) v = encode s v.0 ++ encode t v.1
encode (vector t) vs = bytes_of 4 (length vs) ++ encode_all (encode t) vs
encode (list t) vs = bytes_of 4 (length vs) ++ encode_all (encode t) vs
encode slice s =
    (bytes_of 4 (to_word word32 s.start) ++ bytes_of 4 (to_word word32 s.end))
    ++ encode_source s.source

-- Every length fits in a non-negative `int`.
abbrev pub SizedSource : Option Buffer → Type 0
SizedSource none = Unit {0}
SizedSource (some src) = length src.content < 2 ^ 31

abbrev pub Sized : (t : Ty) → El t → Type 0
Sized (scalar w) v = Unit {0}
Sized text s = length s < 2 ^ 31
Sized tuple_end v = Unit {0}
Sized (tuple_cons s t) v = Sized s v.0 × Sized t v.1
Sized (vector t) vs = (length vs < 2 ^ 31) × All (Sized t) vs
Sized (list t) vs = (length vs < 2 ^ 31) × All (Sized t) vs
Sized slice s = SizedSource s.source

pub small-word : (n : ℕ) → n < 2 ^ 31 → n % word32 ≡ n
small-word n h = omega arith

write_text-encode :
    (b : Buffer) (s : List ℕ) → length s < 2 ^ 31 → write_text b s ≡ some (append b (encode_text s))
unfolding write_text
write_text-encode b s h =
    rw (small-word (length s) h, lt→ltb (length s) (2 ^ 31) h)
      (ap some (rw (take-all (length s) s (omega arith)) (append-append b _ s)))

write_source-encode :
    (b : Buffer) (o : Option Buffer)
    → SizedSource o
    → write_source b o ≡ some (append b (encode_source o))
unfolding write_source to_word
write_source-encode b (some src) h = write_text-encode b src.content h
write_source-encode b none h =
    ap some (rw (append-append b (bytes_of 4 0) []) (append-append b (encode_text []) _))

write_slice-encode :
    (b : Buffer) (s : Slice)
    → SizedSource s.source
    → write_slice b s ≡ some (append b (encode slice s))
unfolding write_slice
write_slice-encode b s h =
    rw (append-append b (bytes_of 4 (to_word word32 s.start)) (bytes_of 4 (to_word word32 s.end)))
      (write_source-encode _ s.source h ∙ ap some (append-append b _ _))

module _ (t : Ty)
    (each : (b : Buffer) (v : El t) → Sized t v → write t b v ≡ some (append b (encode t v))) where
  pub write_array-encode :
      (b : Buffer) (vs : List (El t))
      → All (Sized t) vs
      → write_array (write t) b vs ≡ some (append b (encode_all (encode t) vs))
  unfolding write_array
  write_array-encode b [] h = ap some (sym (append-nil_lem b))
  write_array-encode b (v ∷ vs) h =
      rw (each b v h.0)
        (write_array-encode (append b (encode t v)) vs h.1 ∙ ap some (append-append b _ _))

  write_vector-encode :
      (b : Buffer) (vs : List (El t))
      → length vs < 2 ^ 31
      → All (Sized t) vs
      → write_vector (write t) b vs ≡ some (append b (encode (vector t) vs))
  unfolding write_vector
  write_vector-encode b [] h k = ap some (ap (append b) (sym (append-nil (bytes_of 4 0))))
  write_vector-encode b (v ∷ vs) h k =
      rw
        (
          small-word (length (v ∷ vs)) h,
          lt→ltb (length (v ∷ vs)) (2 ^ 31) h,
          suc-not-zero (length vs),
        )
        (rw (take-all (length vs) vs (omega arith)) (
          write_array-encode (append b (bytes_of 4 (length (v ∷ vs)))) (v ∷ vs) k
          ∙ ap some (append-append b _ _)))

  write_list-encode :
      (b : Buffer) (vs : List (El t))
      → length vs < 2 ^ 31
      → All (Sized t) vs
      → write_list (write t) b vs ≡ some (append b (encode (list t) vs))
  unfolding write_list
  write_list-encode b [] h k = ap some (ap (append b) (sym (append-nil (bytes_of 4 0))))
  write_list-encode b (v ∷ vs) h k =
      rw (small-word (length (v ∷ vs)) h, suc-not-zero (length vs))
        (write_array-encode (append b (bytes_of 4 (length (v ∷ vs)))) (v ∷ vs) k
          ∙ ap some (append-append b _ _))

-- `Write` succeeds where the lengths fit, and appends the encoding.
pub write-encode :
    (t : Ty) (b : Buffer) (v : El t) → Sized t v → write t b v ≡ some (append b (encode t v))
unfolding write
write-encode (scalar w) b v h = refl
write-encode text b s h = write_text-encode b s h
write-encode tuple_end b v h = ap some (sym (append-nil_lem b))
write-encode (tuple_cons s t) b v h =
    rw (write-encode s b v.0 h.0)
      (write-encode t (append b (encode s v.0)) v.1 h.1 ∙ ap some (append-append b _ _))
write-encode (vector t) b vs h = write_vector-encode t (write-encode t) b vs h.0 h.1
write-encode (list t) b vs h = write_list-encode t (write-encode t) b vs h.0 h.1
write-encode slice b s h = write_slice-encode b s h
