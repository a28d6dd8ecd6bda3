-- ===== src/Codec.antt =====
-- The templates `Write`, `Read` and their helpers of src/deps/assistant_utility.h. The chain of
-- `if constexpr` tests is a recursion over a code of the type that the template is used at.
pub mod Word
pub mod Encode
pub mod RoundTrip
pub mod Strings
pub mod Tests
use gdfile_store.Base.{
  ℕ, zero, suc, ◌+◌, ◌%◌, ◌^◌, ◌<◌, ◌≡◌, Option, none, some, List, [], ◌∷◌, ◌>>=◌, ltb, ◌==◌,
  if◌then◌else◌, length, take,
}
use gdfile_store.Base.Int.{ℤ, pos, to_word, of_word}
use gdfile_store.Buffer.{Buffer, of_content, append, drawback}
use Word.{bytes_of, of_bytes}

-- class Slice: a span of a shared buffer, or of none.
pub record Slice : Type 0 where
  pub source : Option Buffer
  pub start : ℤ
  pub end : ℤ

pub data Ty : Type 0 where
  scalar : ℕ → Ty
  text : Ty
  tuple_end : Ty
  tuple_cons : Ty → Ty → Ty
  vector : Ty → Ty
  list : Ty → Ty
  slice : Ty

-- The values: a bit pattern for a scalar of so many bytes, and the members that GetES points to
-- for a class.
abbrev pub El : Ty → Type 0
El (scalar w) = ℕ
El text = List ℕ
El tuple_end = Unit {0}
El (tuple_cons s t) = El s × El t
El (vector t) = List (El t)
El (list t) = List (El t)
El slice = Slice

abbrev pub word32 : ℕ
word32 = 2 ^ 32

-- `int len = t->length()` keeps the low 32 bits; a negative `len` makes string::append throw.
unfoldable pub write_text : Buffer → List ℕ → Option Buffer
write_text b s =
    let len = length s % word32 in
    if ltb len (2 ^ 31) then some (append (append b (bytes_of 4 len)) (take len s)) else none

module _ {A : Type 0} (write_one : Buffer → A → Option Buffer) where
  unfoldable pub write_array : Buffer → List A → Option Buffer
  write_array b [] = some b
  write_array b (v ∷ vs) = do b' ← write_one b v; write_array b' vs

  -- WriteArray runs `int sz` times, which is not at all where `sz` is negative.
  unfoldable pub write_vector : Buffer → List A → Option Buffer
  unfolding write_array
  write_vector b vs =
      let sz = length vs % word32 in
      let b' = append b (bytes_of 4 sz) in
      if sz == 0 then some b' else if ltb sz (2 ^ 31) then write_array b' (take sz vs) else some b'

  -- The range-based loop writes every element, whatever `sz` came to.
  unfoldable pub write_list : Buffer → List A → Option Buffer
  unfolding write_array
  write_list b vs =
      let sz = length vs % word32 in
      let b' = append b (bytes_of 4 sz) in if sz == 0 then some b' else write_array b' vs

-- Slice::Write after the members: the string of the buffer, or a whole default buffer, which is
-- an empty string and an offset.
unfoldable pub write_source : Buffer → Option Buffer → Option Buffer
unfolding write_text
write_source b (some src) = write_text b src.content
write_source b none = do
  b' ← write_text b (of_content []).content
  some (append b' (bytes_of 4 (to_word word32 (of_content []).offset)))

unfoldable pub write_slice : Buffer → Slice → Option Buffer
unfolding write_source
write_slice b s =
    write_source
      (append (append b (bytes_of 4 (to_word word32 s.start))) (bytes_of 4 (to_word word32 s.end)))
      s.source

unfoldable pub write : (t : Ty) → Buffer → El t → Option Buffer
unfolding write_text write_vector write_list write_slice
write (scalar w) b v = some (append b (bytes_of w v))
write text b s = write_text b s
write tuple_end b v = some b
write (tuple_cons s t) b v = do b' ← write s b v.0; write t b' v.1
write (vector t) b vs = write_vector (write t) b vs
write (list t) b vs = write_list (write t) b vs
write slice b s = write_slice b s

unfoldable pub read_scalar : ℕ → Buffer → Option (ℕ × Buffer)
read_scalar w b = do (bytes, b') ← drawback b w; some (of_bytes bytes, b')

-- A negative length is no size of a string: its constructor throws.
unfoldable pub read_text : Buffer → Option (List ℕ × Buffer)
unfolding read_scalar
read_text b = do (len, b') ← read_scalar 4 b; if ltb len (2 ^ 31) then drawback b' len else none

module _ {A : Type 0} (read_one : Buffer → Option (A × Buffer)) where
  unfoldable pub read_array : ℕ → Buffer → Option (List A × Buffer)
  read_array zero b = some ([], b)
  read_array (suc n) b = do (v, b') ← read_one b; (vs, b'') ← read_array n b'; some (v ∷ vs, b'')

  -- vector: T(sz) throws on a negative size. list: `while (sz--)` runs on past the data.
  unfoldable pub read_sized : Buffer → Option (List A × Buffer)
  unfolding read_scalar read_array
  read_sized b = do (sz, b') ← read_scalar 4 b; if ltb sz (2 ^ 31) then read_array sz b' else none

-- Slice::Read makes a new buffer and reads its string.
unfoldable pub read_slice : Buffer → Option (Slice × Buffer)
unfolding read_scalar read_text
read_slice b = do
  (start, b') ← read_scalar 4 b
  (end, b'') ← read_scalar 4 b'
  (content, b''') ← read_text b''
  some (
    record {
      source = some (of_content content);
      start = of_word word32 start;
      end = of_word word32 end;
    },
    b''',
  )

unfoldable pub read : (t : Ty) → Buffer → Option (El t × Buffer)
unfolding read_scalar read_text read_sized read_slice
read (scalar w) b = read_scalar w b
read text b = read_text b
read tuple_end b = some (tt, b)
read (tuple_cons s t) b = do (v, b') ← read s b; (w, b'') ← read t b'; some ((v, w), b'')
read (vector t) b = read_sized (read t) b
read (list t) b = read_sized (read t) b
read slice b = read_slice b

-- as_string and from_string.
unfoldable pub as_string : (t : Ty) → El t → Option (List ℕ)
unfolding write
as_string t v = do b ← write t (of_content []) v; some b.content

unfoldable pub from_string : (t : Ty) → List ℕ → Option (El t)
unfolding read
from_string t str = do (v, b) ← read t (of_content str); some v
