-- ===== src/Buffer.antt =====
-- `struct buffer` of src/deps/assistant_utility.h: a byte string with a read position.
-- A byte is a number; `none` stands for an access out of the string's bounds.
use gdfile_store.Base.{
  ℕ, ◌+◌, ◌-◌, ◌^◌, ◌≤◌, ◌≡◌, ◌&&◌, Option, none, some, List, [], ◌∷◌, ◌++◌, ap, ◌∙◌,
  drop-append_left, arith, append_assoc, append-nil, leb, le→leb, if◌then◌else◌, length, take, drop,
  length-append, take-append, drop-append, drop-drop,
}
use gdfile_store.Base.Int.{ℤ, pos, negsuc}

-- INT_MAX
abbrev pub int_max : ℕ
int_max = 2 ^ 31 - 1

pub record Buffer : Type 0 where
  pub content : List ℕ
  pub offset : ℤ

-- buffer(data): reading starts at 0.
abbrev pub of_content : List ℕ → Buffer
of_content d = record { content = d; offset = pos 0 }

-- append(len, src): `bytes` are the `len` bytes at `src`.
unfoldable pub append : Buffer → List ℕ → Buffer
append b bytes = record b { content = b.content ++ bytes }

-- The memcpy of drawback, with `offset += len`, an `int`. Behind a string's bytes stands the
-- terminator of data(), which may be read too.
copy_out : List ℕ → ℤ → ℕ → Option (List ℕ × ℤ)
copy_out d (negsuc o) len = none
copy_out d (pos o) len =
    if leb (o + len) (length d + 1) && leb (o + len) int_max
    then some (take len (drop o (d ++ 0 ∷ [])), pos (o + len))
    else none

-- drawback(len, des): the bytes that `des` receives.
unfoldable pub drawback : Buffer → ℕ → Option (List ℕ × Buffer)
unfolding copy_out
drawback b len = elim (copy_out b.content b.offset len) [
  | none ↦ none
  | some (bytes, o) ↦ some (bytes, record b { offset = o })
]

abbrev pub at_pos : List ℕ → ℕ → Buffer
at_pos d o = record { content = d; offset = pos o }

-- From position `o` the string `d` goes on with `xs`, then with `rest`, all within an `int`.
pub record IsAhead (d : List ℕ) (o : ℕ) (xs rest : List ℕ) : Type 0 where
  pub ahead : drop o d ≡ xs ++ rest
  pub within : o + length xs ≤ length d
  pub fits : o + length xs ≤ int_max

module _ (d : List ℕ) (o : ℕ) (xs ys rest : List ℕ) (h : IsAhead d o (xs ++ ys) rest) where
  pub IsAhead-left : IsAhead d o xs (ys ++ rest)
  IsAhead-left = record {
    ahead = rw (h.ahead) (append_assoc xs ys rest);
    within = omega (arith, h.within, length-append xs ys);
    fits = omega (arith, h.fits, length-append xs ys);
  }

  pub IsAhead-right : IsAhead d (o + length xs) ys rest
  IsAhead-right = record {
    ahead = rw (← drop-drop o (length xs) d, h.ahead, append_assoc) (drop-append xs (ys ++ rest));
    within = omega (arith, h.within, length-append xs ys);
    fits = omega (arith, h.fits, length-append xs ys);
  }

-- Drawing what lies ahead returns it and moves on behind it.
pub drawback-IsAhead :
    (d : List ℕ) (o : ℕ) (xs rest : List ℕ)
    → IsAhead d o xs rest
    → drawback (at_pos d o) (length xs) ≡ some (xs, at_pos d (o + length xs))
unfolding drawback
drawback-IsAhead d o xs rest h =
    let inside : o + length xs ≤ length d + 1 = omega (arith, h.within) in
    let ahead : drop o (d ++ 0 ∷ []) ≡ xs ++ (rest ++ 0 ∷ []) =
      drop-append_left o d (0 ∷ []) (omega (arith, h.within))
      ∙ ap (λ (t : List ℕ). t ++ 0 ∷ []) h.ahead
      ∙ append_assoc xs rest (0 ∷ []) in
    rw (
      le→leb _ _ inside,
      le→leb _ _ h.fits,
      ahead,
      take-append xs (rest ++ 0 ∷ []),
      drawback,
      copy_out,
    )

pub append-append : (b : Buffer) (xs ys : List ℕ) → append (append b xs) ys ≡ append b (xs ++ ys)
unfolding append
append-append b xs ys =
    ap (λ (d : List ℕ). record { content = d; offset = b.offset }) (append_assoc b.content xs ys)

pub append-nil_lem : (b : Buffer) → append b [] ≡ b
unfolding append
append-nil_lem b =
    ap (λ (d : List ℕ). record { content = d; offset = b.offset }) (append-nil b.content)
