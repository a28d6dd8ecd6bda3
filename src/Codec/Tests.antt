-- ===== src/Codec/Tests.antt =====
-- The codec at concrete values.
use gdfile_store.Base.{◌≡◌, refl, some, [], ◌∷◌, ◌++◌, ◌>>=◌, arith, length}
use gdfile_store.Base.Int.{pos}
use gdfile_store.Buffer.{Buffer, of_content, at_pos, append}
use gdfile_store.Codec.Word.{bytes_of}
use gdfile_store.Codec.Encode.{encode, Sized}
use gdfile_store.Codec.RoundTrip.{Exact}
use gdfile_store.Codec.Strings.{
  from_string-as_string, read-write, null_slice, empty_slice, null_slice_misread,
}
use gdfile_store.Codec.{
  Ty, El, scalar, text, tuple_end, tuple_cons, vector, slice, write, read, as_string, from_string,
}

-- An `int`, a string and a vector of bytes.
abbrev sample_ty : Ty
sample_ty = tuple_cons (scalar 4) (tuple_cons text (tuple_cons (vector (scalar 1)) tuple_end))

abbrev sample : El sample_ty
sample = (300, (b'a' ∷ b'b' ∷ [], (7 ∷ 255 ∷ [], tt)))

sample-Sized : Sized sample_ty sample
sample-Sized = (tt, (omega arith, ((omega arith, (tt, (tt, tt))), tt)))

sample-Exact : Exact sample_ty sample
sample-Exact = (omega arith, (tt, ((omega arith, (omega arith, tt)), tt)))

length-sample : length (encode sample_ty sample) ≡ 16
unfolding bytes_of
length-sample = refl

written :
    as_string sample_ty sample
    ≡ some (44 ∷ 1 ∷ 0 ∷ 0 ∷ 2 ∷ 0 ∷ 0 ∷ 0 ∷ b'a' ∷ b'b' ∷ 2 ∷ 0 ∷ 0 ∷ 0 ∷ 7 ∷ 255 ∷ [])
unfolding as_string append bytes_of
written = refl

from_string-as_string_example : (as_string sample_ty sample >>= from_string sample_ty) ≡ some sample
from_string-as_string_example =
    from_string-as_string sample_ty sample sample-Sized sample-Exact (omega (arith, length-sample))

read-write_example :
    (b : Buffer) × (write sample_ty (of_content (9 ∷ 8 ∷ [])) sample ≡ some b)
    × (read sample_ty (at_pos (b.content ++ 5 ∷ []) 2)
        ≡ some (sample, at_pos (b.content ++ 5 ∷ []) (length b.content)))
read-write_example =
    read-write sample_ty sample sample-Sized sample-Exact (9 ∷ 8 ∷ []) (5 ∷ [])
      (omega (arith, length-sample))

-- The span from 2 to 6 of a deletion.
null_slice_misread_example :
    (b : Buffer) × (write slice (of_content (9 ∷ [])) (null_slice (pos 2) (pos 6)) ≡ some b)
    × (length b.content ≡ 17)
    × (read slice (at_pos (b.content ++ 5 ∷ []) 1)
        ≡ some (empty_slice (pos 2) (pos 6), at_pos (b.content ++ 5 ∷ []) 13))
null_slice_misread_example =
    null_slice_misread (pos 2) (pos 6) (9 ∷ []) (5 ∷ []) (omega arith) (omega arith) (omega arith)
