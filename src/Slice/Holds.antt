-- ===== src/Slice/Holds.antt =====
-- A slice with its bounds in order and within its buffer holds a text.
use gdfile_store.Base.{
  ℕ, ◌+◌, ◌-◌, ◌≤◌, ◌≡◌, ap, ◌∙◌, some, List, arith, length, take, drop, length-take, length-drop,
  drop-drop, take-drop-take,
}
use gdfile_store.Base.Int.{pos, pos-add, pos-sub}
use gdfile_store.Buffer.{Buffer}
use gdfile_store.Codec.{Slice}
use gdfile_store.Slice.{get_size, sub_slice}

abbrev pub span : List ℕ → ℕ → ℕ → Slice
span d a b = record {
  source = some (record { content = d; offset = pos 0 });
  start = pos a;
  end = pos b;
}

abbrev pub of_span : Buffer → ℕ → ℕ → Slice
of_span src a b = record { source = some src; start = pos a; end = pos b }

pub record Holds (s : Slice) (xs : List ℕ) : Type 0 where
  pub src : Buffer
  pub a : ℕ
  pub b : ℕ
  pub is_span : s ≡ of_span src a b
  pub ordered : a ≤ b
  pub within : b ≤ length src.content
  pub content : xs ≡ take (b - a) (drop a src.content)

pub length-Holds : (s : Slice) (xs : List ℕ) (h : Holds s xs) → length xs ≡ h.b - h.a
length-Holds s xs h =
    ap length h.content
    ∙ omega (
      arith,
      h.ordered,
      h.within,
      length-take (h.b - h.a) (drop h.a h.src.content),
      length-drop h.a h.src.content,
    )

pub get_size-Holds : (s : Slice) (xs : List ℕ) → Holds s xs → get_size s ≡ pos (length xs)
unfolding get_size
get_size-Holds s xs h = rw (h.is_span, length-Holds s xs h) (pos-sub h.b h.a h.ordered)

sub_slice-span :
    (src : Buffer) (a b n m : ℕ)
    → a + (n + m) ≤ b
    → sub_slice (of_span src a b) (pos n) (pos m) ≡ of_span src (a + n) (a + n + m)
unfolding sub_slice
sub_slice-span src a b n m h =
    rw (pos-sub b a (omega arith), pos-add n m, pos-add a n, pos-add (a + n) m) (ground arith)

-- A sub-slice holds the window of the text, whichever branch computes its end.
pub sub_slice-Holds :
    (s : Slice) (xs : List ℕ) (n m : ℕ)
    → Holds s xs
    → n + m ≤ length xs
    → Holds (sub_slice s (pos n) (pos m)) (take m (drop n xs))
sub_slice-Holds s xs n m h k =
    let len = length-Holds s xs h in
    record {
      src = h.src;
      a = h.a + n;
      b = h.a + n + m;
      is_span =
          ap (λ (t : Slice). sub_slice t (pos n) (pos m)) h.is_span
          ∙ sub_slice-span h.src h.a h.b n m (omega (arith, h.ordered, len, k));
      ordered = omega arith;
      within = omega (arith, h.within, h.ordered, len, k);
      content =
          ap (λ (t : List ℕ). take m (drop n t)) h.content
          ∙ take-drop-take m n (h.b - h.a) (drop h.a h.src.content) (omega (arith, len, k))
          ∙ ap (take m) (drop-drop h.a n h.src.content)
          ∙ ap (λ (w : ℕ). take w (drop (h.a + n) h.src.content)) (omega arith);
    }
