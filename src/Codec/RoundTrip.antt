-- ===== src/Codec/RoundTrip.antt =====
-- `Read` undoes `Write`, for every type that the templates accept.
use gdfile_store.Base.{
  ℕ, ◌+◌, ◌^◌, ◌≤◌, ◌<◌, ◌≡◌, refl, sym, ap, Option, none, some, List, [], ◌∷◌, ◌++◌, arith, lt→ltb,
  length, length-append, All,
}
use gdfile_store.Base.Int.{ℤ, pos, to_word, InWord, of_word-to_word, to_word-lt}
use gdfile_store.Buffer.{
  Buffer, of_content, at_pos, int_max, IsAhead, IsAhead-left, IsAhead-right, drawback,
  drawback-IsAhead,
}
use gdfile_store.Codec.Word.{bytes_of, InBytes, length-bytes_of, of_bytes-bytes_of}
use gdfile_store.Codec.Encode.{encode, encode_text, encode_all, encode_source, Sized, SizedSource}
use gdfile_store.Codec.{
  Ty, El, scalar, text, tuple_end, tuple_cons, vector, list, slice, word32, read, read_scalar,
  read_text, read_array, read_sized, read_slice,
}

-- The values that survive: scalars within their width, and slices of a buffer whose position is 0.
abbrev pub ExactSource : Option Buffer → Type 0
ExactSource none = ⊥
ExactSource (some src) = src.offset ≡ pos 0

abbrev pub Exact : (t : Ty) → El t → Type 0
Exact (scalar w) v = InBytes w v
Exact text s = Unit {0}
Exact tuple_end v = Unit {0}
Exact (tuple_cons s t) v = Exact s v.0 × Exact t v.1
Exact (vector t) vs = All (Exact t) vs
Exact (list t) vs = All (Exact t) vs
Exact slice s = ExactSource s.source × InWord word32 s.start × InWord word32 s.end

pub read_scalar-IsAhead :
    (w v : ℕ) (d : List ℕ) (o : ℕ) (rest : List ℕ)
    → InBytes w v
    → IsAhead d o (bytes_of w v) rest
    → read_scalar w (at_pos d o) ≡ some (v, at_pos d (o + length (bytes_of w v)))
unfolding read_scalar
read_scalar-IsAhead w v d o rest e h =
    rw (ap (drawback (at_pos d o)) (sym (length-bytes_of w v)), drawback-IsAhead d o _ rest h)
      (ap (λ (x : ℕ). some (x, at_pos d (o + length (bytes_of w v)))) (of_bytes-bytes_of w v e))

pub InBytes-word : (n : ℕ) → n < word32 → InBytes 4 n
InBytes-word n h = omega arith

-- The end position of two readings is that of their concatenation.
pub join : (o : ℕ) (xs ys : List ℕ) → o + length xs + length ys ≡ o + length (xs ++ ys)
join o xs ys = omega (arith, length-append xs ys)

pub read_text-IsAhead :
    (s : List ℕ) (d : List ℕ) (o : ℕ) (rest : List ℕ)
    → length s < 2 ^ 31
    → IsAhead d o (encode_text s) rest
    → read_text (at_pos d o) ≡ some (s, at_pos d (o + length (encode_text s)))
unfolding read_text
read_text-IsAhead s d o rest n h =
    rw
      (
        read_scalar-IsAhead 4 (length s) d o _ (InBytes-word (length s) (omega arith))
            (IsAhead-left d o _ s rest h),
        lt→ltb (length s) (2 ^ 31) n,
        drawback-IsAhead d _ s rest (IsAhead-right d o _ s rest h),
      )
      (ap (λ (p : ℕ). some (s, at_pos d p)) (join o (bytes_of 4 (length s)) s))

module _ (t : Ty)
    (each : (v : El t)
      → Sized t v
      → Exact t v
      → (d : List ℕ) (o : ℕ) (rest : List ℕ) → IsAhead d o (encode t v) rest
      → read t (at_pos d o) ≡ some (v, at_pos d (o + length (encode t v)))) where
  read_array-IsAhead :
      (vs : List (El t))
      → All (Sized t) vs
      → All (Exact t) vs
      → (d : List ℕ) (o : ℕ) (rest : List ℕ) → IsAhead d o (encode_all (encode t) vs) rest
      → read_array (read t) (length vs) (at_pos d o)
        ≡ some (vs, at_pos d (o + length (encode_all (encode t) vs)))
  unfolding read_array
  read_array-IsAhead [] n e d o rest h = ap (λ (p : ℕ). some ([], at_pos d p)) (omega arith)
  read_array-IsAhead (v ∷ vs) n e d o rest h =
      rw
        (
          each v n.0 e.0 d o _ (IsAhead-left d o (encode t v) _ rest h),
          read_array-IsAhead vs n.1 e.1 d _ rest (IsAhead-right d o (encode t v) _ rest h),
        )
        (ap (λ (p : ℕ). some (v ∷ vs, at_pos d p)) (join o (encode t v) (encode_all (encode t) vs)))

  read_sized-IsAhead :
      (vs : List (El t))
      → length vs < 2 ^ 31
      → All (Sized t) vs
      → All (Exact t) vs
      → (d : List ℕ) (o : ℕ) (rest : List ℕ) → IsAhead d o (encode (vector t) vs) rest
      → read_sized (read t) (at_pos d o) ≡ some (vs, at_pos d (o + length (encode (vector t) vs)))
  unfolding read_sized
  read_sized-IsAhead vs n ns e d o rest h =
      rw
        (
          read_scalar-IsAhead 4 (length vs) d o _ (InBytes-word (length vs) (omega arith))
              (IsAhead-left d o _ _ rest h),
          lt→ltb (length vs) (2 ^ 31) n,
          read_array-IsAhead vs ns e d _ rest (IsAhead-right d o (bytes_of 4 (length vs)) _ rest h),
        )
        (ap (λ (p : ℕ). some (vs, at_pos d p)) (join o (bytes_of 4 (length vs)) _))

abbrev pub bounds_bytes : ℤ → ℤ → List ℕ
bounds_bytes a z = bytes_of 4 (to_word word32 a) ++ bytes_of 4 (to_word word32 z)

read_bound-IsAhead :
    (a : ℤ) (d : List ℕ) (o : ℕ) (rest : List ℕ)
    → IsAhead d o (bytes_of 4 (to_word word32 a)) rest
    → read_scalar 4 (at_pos d o)
      ≡ some (to_word word32 a, at_pos d (o + length (bytes_of 4 (to_word word32 a))))
read_bound-IsAhead a d o rest h =
    read_scalar-IsAhead 4 (to_word word32 a) d o rest
      (InBytes-word (to_word word32 a) (to_word-lt word32 a (omega arith))) h

-- Whatever string lies behind the bounds becomes the slice's buffer.
pub read_slice-text :
    (a z : ℤ) (s : List ℕ) (d : List ℕ) (o : ℕ) (rest : List ℕ)
    → length s < 2 ^ 31
    → InWord word32 a
    → InWord word32 z
    → IsAhead d o (bounds_bytes a z ++ encode_text s) rest
    → read_slice (at_pos d o)
      ≡ some (
        record { source = some (of_content s); start = a; end = z },
        at_pos d (o + length (bounds_bytes a z ++ encode_text s)),
      )
unfolding read_slice
read_slice-text a z s d o rest n ea ez h =
    let front = IsAhead-left d o (bounds_bytes a z) (encode_text s) rest h in
    rw (
      read_bound-IsAhead a d o _ (IsAhead-left d o _ (bytes_of 4 (to_word word32 z)) _ front),
      read_bound-IsAhead z d _ _ (IsAhead-right d o (bytes_of 4 (to_word word32 a)) _ _ front),
      join o (bytes_of 4 (to_word word32 a)) (bytes_of 4 (to_word word32 z)),
      read_text-IsAhead s d _ rest n (IsAhead-right d o (bounds_bytes a z) _ rest h),
      join o (bounds_bytes a z) (encode_text s),
      of_word-to_word word32 a ea,
      of_word-to_word word32 z ez,
    )

source_eq : (src : Buffer) → src.offset ≡ pos 0 → of_content src.content ≡ src
source_eq src e = λ i. record { content = src.content; offset = sym e i }

read_slice-IsAhead :
    (source : Option Buffer) (a z : ℤ)
    → SizedSource source
    → Exact slice (record { source = source; start = a; end = z })
    → (d : List ℕ) (o : ℕ) (rest : List ℕ)
    → IsAhead d o (bounds_bytes a z ++ encode_source source) rest
    → read_slice (at_pos d o)
      ≡ some (
        record { source = source; start = a; end = z },
        at_pos d (o + length (bounds_bytes a z ++ encode_source source)),
      )
read_slice-IsAhead none a z n e d o rest h = absurd e.0
read_slice-IsAhead (some src) a z n e d o rest h =
    rw (read_slice-text a z src.content d o rest n e.1 e.2 h) (
      ap
        (λ (b : Buffer). some (
          record { source = some b; start = a; end = z },
          at_pos d (o + length (bounds_bytes a z ++ encode_text src.content)),
        ))
        (source_eq src e.0))

-- `Read` takes back what the encoding put at the read position, and stops right behind it.
pub read-encode :
    (t : Ty) (v : El t)
    → Sized t v
    → Exact t v
    → (d : List ℕ) (o : ℕ) (rest : List ℕ) → IsAhead d o (encode t v) rest
    → read t (at_pos d o) ≡ some (v, at_pos d (o + length (encode t v)))
unfolding read
read-encode (scalar w) v n e d o rest h = read_scalar-IsAhead w v d o rest e h
read-encode text s n e d o rest h = read_text-IsAhead s d o rest n h
read-encode tuple_end v n e d o rest h = ap (λ (p : ℕ). some (tt, at_pos d p)) (omega arith)
read-encode (tuple_cons s t) v n e d o rest h =
    rw
      (
        read-encode s v.0 n.0 e.0 d o _ (IsAhead-left d o (encode s v.0) _ rest h),
        read-encode t v.1 n.1 e.1 d _ rest (IsAhead-right d o (encode s v.0) _ rest h),
      )
      (ap (λ (p : ℕ). some (v, at_pos d p)) (join o (encode s v.0) (encode t v.1)))
read-encode (vector t) vs n e d o rest h =
    read_sized-IsAhead t (read-encode t) vs n.0 n.1 e d o rest h
read-encode (list t) vs n e d o rest h =
    read_sized-IsAhead t (read-encode t) vs n.0 n.1 e d o rest h
read-encode slice s n e d o rest h = read_slice-IsAhead s.source s.start s.end n e d o rest h

-- `as_string` and `from_string`: a value written to an empty buffer and read from its start.
pub written_IsAhead :
    (xs rest : List ℕ) → length (xs ++ rest) ≤ int_max → IsAhead (xs ++ rest) 0 xs rest
written_IsAhead xs rest h = record {
  ahead = refl;
  within = omega (arith, length-append xs rest);
  fits = omega (arith, length-append xs rest);
}
