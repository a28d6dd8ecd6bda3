-- ===== src/Codec/Strings.antt =====
-- as_string and from_string, streams of values, and the slice without a buffer.
use gdfile_store.Base.{
  ℕ, ◌+◌, ◌≤◌, ◌≡◌, refl, sym, ap, ◌∙◌, none, some, List, [], ◌++◌, append_assoc, append-nil, ◌>>=◌,
  arith, length, length-append, drop-append, Option-cases, inl, inr,
}
use gdfile_store.Base.Int.{ℤ, InWord}
use gdfile_store.Buffer.{Buffer, of_content, at_pos, append, int_max, IsAhead}
use gdfile_store.Codec.Word.{bytes_of}
use gdfile_store.Codec.Encode.{encode, encode_text, Sized, write-encode}
use gdfile_store.Codec.RoundTrip.{Exact, bounds_bytes, read-encode, read_slice-text}
use gdfile_store.Codec.{
  Ty, El, Slice, slice, tuple_cons, word32, write, read, as_string, from_string,
}

pub as_string-encode : (t : Ty) (v : El t) → Sized t v → as_string t v ≡ some (encode t v)
unfolding as_string append
as_string-encode t v n = rw (write-encode t (of_content []) v n)

pub whole-IsAhead : (xs : List ℕ) → length xs ≤ int_max → IsAhead xs 0 xs []
whole-IsAhead xs h = record {
  ahead = sym (append-nil xs);
  within = omega arith;
  fits = omega (arith, h);
}

-- A value whose lengths fit in an `int` and whose scalars fit in their widths is its own image
-- under as_string and from_string, if its encoding has at most INT_MAX bytes. Slices count here
-- where they have a buffer.
pub from_string-as_string :
    (t : Ty) (v : El t)
    → Sized t v
    → Exact t v
    → length (encode t v) ≤ int_max
    → (as_string t v >>= from_string t) ≡ some v
unfolding from_string
from_string-as_string t v n e h =
    rw
      (as_string-encode t v n, read-encode t v n e (encode t v) 0 [] (whole-IsAhead (encode t v) h))

module _ (t : Ty) (v : El t) (n : Sized t v) (e : Exact t v) (d rest : List ℕ)
    (h : length d + length (encode t v) ≤ int_max) where
  -- In a stream, whatever stands before and behind it, a written value is read back, and the
  -- position moves from where `Write` began to where it ended.
  pub read-write :
      (b : Buffer) × (write t (of_content d) v ≡ some b)
      × (read t (at_pos (b.content ++ rest) (length d))
          ≡ some (v, at_pos (b.content ++ rest) (length b.content)))
  unfolding append
  read-write =
      let whole : length (d ++ encode t v) ≡ length d + length (encode t v) =
        length-append d (encode t v) in
      let ahead : IsAhead ((d ++ encode t v) ++ rest) (length d) (encode t v) rest = record {
        ahead = rw append_assoc (drop-append d (encode t v ++ rest));
        within = omega (arith, length-append (d ++ encode t v) rest);
        fits = h;
      } in
      (
        append (of_content d) (encode t v),
        write-encode t (of_content d) v n,
        read-encode t v n e ((d ++ encode t v) ++ rest) (length d) rest ahead
            ∙ ap (λ (p : ℕ). some (v, at_pos ((d ++ encode t v) ++ rest) p)) (sym whole),
      )

abbrev pub null_slice : ℤ → ℤ → Slice
null_slice a z = record { source = none; start = a; end = z }

abbrev pub empty_slice : ℤ → ℤ → Slice
empty_slice a z = record { source = some (of_content []); start = a; end = z }

length-null_slice : (a z : ℤ) → length (encode slice (null_slice a z)) ≡ 16
unfolding bytes_of
length-null_slice a z = refl

length-empty_slice : (a z : ℤ) → length (encode slice (empty_slice a z)) ≡ 12
unfolding bytes_of
length-empty_slice a z = refl

-- A slice with no buffer, as OperationWrapper::DeleteWrapper makes it, is not read back: `Write`
-- appends 16 bytes, and `Read` takes 12 of them, for a slice of an empty buffer with the same
-- bounds, so that whatever is read next starts four bytes early.
pub null_slice_misread :
    (a z : ℤ) (d rest : List ℕ)
    → InWord word32 a
    → InWord word32 z
    → length d + 16 ≤ int_max
    → (b : Buffer) × (write slice (of_content d) (null_slice a z) ≡ some b)
      × (length b.content ≡ length d + 16)
      × (read slice (at_pos (b.content ++ rest) (length d))
          ≡ some (empty_slice a z, at_pos (b.content ++ rest) (length d + 12)))
unfolding append read
null_slice_misread a z d rest ea ez h =
    let bytes = encode slice (null_slice a z) in
    let regroup : bytes ++ rest ≡ encode slice (empty_slice a z) ++ (bytes_of 4 0 ++ rest) =
      rw (← append_assoc (bounds_bytes a z) (encode_text []) (bytes_of 4 0))
        (append_assoc (encode slice (empty_slice a z)) (bytes_of 4 0) rest) in
    let whole = length-append d bytes in
    let ahead : IsAhead ((d ++ bytes) ++ rest) (length d) (encode slice (empty_slice a z))
        (bytes_of 4 0 ++ rest) =
      record {
        ahead = rw append_assoc (drop-append d (bytes ++ rest) ∙ regroup);
        within = omega (
          arith,
          length-append (d ++ bytes) rest,
          whole,
          length-null_slice a z,
          length-empty_slice a z,
        );
        fits = omega (arith, h, length-empty_slice a z);
      } in
    (
      append (of_content d) bytes,
      write-encode slice (of_content d) (null_slice a z) tt,
      omega (arith, whole, length-null_slice a z),
      read_slice-text a z [] ((d ++ bytes) ++ rest) (length d) (bytes_of 4 0 ++ rest) (omega arith)
            ea ez ahead
          ∙ ap (λ (p : ℕ). some (empty_slice a z, at_pos ((d ++ bytes) ++ rest) (length d + p)))
              (length-empty_slice a z),
    )

-- `Read` of two members is `Read` of each.
pub read-tuple_cons :
    (s t : Ty) (b b' : Buffer) (v : El s) (w : El t)
    → read (tuple_cons s t) b ≡ some ((v, w), b')
    → (b1 : Buffer) × (read s b ≡ some (v, b1)) × (read t b1 ≡ some (w, b'))
unfolding read
read-tuple_cons s t b b' v w h = elim (Option-cases (read s b)) [
  | inl e ↦ absurd (cc (rw e at h))
  | inr ((v', b1), e) ↦ elim (Option-cases (read t b1)) [
    | inl e' ↦ absurd (cc (rw (e, e') at h))
    | inr ((w', b2), e') ↦ let same = rw (e, e') at h in (b1, e ∙ (cc), e' ∙ (cc))
  ]
]
