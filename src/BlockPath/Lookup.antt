-- ===== src/BlockPath/Lookup.antt =====
-- Which blocks have one file, and where a block's file is copied to.
use gdfile_store.Base.{
  ℕ, ◌^◌, ◌<◌, ◌≡◌, ◌↔◌, refl, sym, ap, ◌∙◌, true, false, List, [], ◌∷◌, ◌++◌, append_assoc, arith,
  ◌==◌, drop, All, All-append,
}
use gdfile_store.Base.Int.{ℤ}
use gdfile_store.Decimal.{print, is_digit, digits_from}
use gdfile_store.Decimal.RoundTrip.{IsDigits, Printed, print-Printed}
use gdfile_store.BlockPath.{
  part, extension, block_dir, block_file, block_path, rb_root, journal_rb_root, is_separator,
  kept_before, get_parent_str, has_slash, file_name, copied_to,
}

Printed-IsDigits : (n : ℕ) (s : List ℕ) → Printed n s → IsDigits s
Printed-IsDigits n [] h = absurd h
Printed-IsDigits n (c ∷ s) h = (h.0, h.1)

Printed-value : (n : ℕ) (s : List ℕ) → Printed n s → digits_from 0 s ≡ n
Printed-value n [] h = absurd h
Printed-value n (c ∷ s) h = h.2

print-IsDigits : (n : ℕ) → IsDigits (print n)
print-IsDigits n = Printed-IsDigits n (print n) (print-Printed n)

print-injective : (m n : ℕ) → print m ≡ print n → m ≡ n
print-injective m n h =
    sym (Printed-value m (print m) (print-Printed m))
    ∙ ap (digits_from 0) h
    ∙ Printed-value n (print n) (print-Printed n)

-- Digits up to a character that is none.
split :
    (c : ℕ) (xs ys r t : List ℕ)
    → is_digit c ≡ false
    → IsDigits xs
    → IsDigits ys
    → xs ++ c ∷ r ≡ ys ++ c ∷ t
    → (xs ≡ ys) × (r ≡ t)
split c [] [] r t nd hx hy e = (refl, cc)
split c [] (y ∷ ys) r t nd hx hy e = absurd (cc (hy.0))
split c (x ∷ xs) [] r t nd hx hy e = absurd (cc (hx.0))
split c (x ∷ xs) (y ∷ ys) r t nd hx hy e =
    let first : x ≡ y = cc in
    let rest = split c xs ys r t nd hx.1 hy.1 (cc) in (rw (first, rest.0) refl, rest.1)

same_tail : (xs r t : List ℕ) → xs ++ r ≡ xs ++ t → r ≡ t
same_tail [] r t e = e
same_tail (x ∷ xs) r t e = same_tail xs r t (cc)

-- The four parts make up the hash.
parts-same :
    (m n : ℕ)
    → m < 2 ^ 64
    → n < 2 ^ 64
    → part 3 m ≡ part 3 n
    → part 2 m ≡ part 2 n
    → part 1 m ≡ part 1 n
    → part 0 m ≡ part 0 n
    → m ≡ n
parts-same m n hm hn e3 e2 e1 e0 = omega arith

-- A name without separators behind the last one.
abbrev IsPlain : List ℕ → Type 0
IsPlain f = All (λ (c : ℕ). is_separator c ≡ false) f

digit_plain : (c : ℕ) → is_digit c ≡ true → is_separator c ≡ false
digit_plain c h = ground arith

plain-slash : (c : ℕ) → is_separator c ≡ false → (c == b'/') ≡ false
plain-slash c h = ground arith

digits-IsPlain : (s : List ℕ) → IsDigits s → IsPlain s
digits-IsPlain [] h = tt
digits-IsPlain (c ∷ s) h = (digit_plain c h.0, digits-IsPlain s h.1)

block_file-IsPlain : (s : ℕ) → IsPlain (block_file s)
block_file-IsPlain s =
    All-append (λ (c : ℕ). is_separator c ≡ false) (print (part 0 s)) extension
      (digits-IsPlain _ (print-IsDigits (part 0 s))) (refl, (refl, (refl, (refl, tt))))

get_parent_str-plain : (f : List ℕ) → IsPlain f → get_parent_str f ≡ []
unfolding get_parent_str
get_parent_str-plain [] h = refl
get_parent_str-plain (c ∷ f) h = rw (get_parent_str-plain f h.1, h.0) refl

get_parent_str-behind : (d f : List ℕ) → IsPlain f → get_parent_str (d ++ b'/' ∷ f) ≡ d ++ b'/' ∷ []
unfolding get_parent_str
get_parent_str-behind [] f h = rw (get_parent_str-plain f h) refl
get_parent_str-behind (c ∷ []) f h = rw (get_parent_str-plain f h) refl
get_parent_str-behind (c ∷ d ∷ ds) f h = ap (kept_before c) (get_parent_str-behind (d ∷ ds) f h)

has_slash-plain : (f : List ℕ) → IsPlain f → has_slash f ≡ false
has_slash-plain [] h = refl
has_slash-plain (c ∷ f) h = rw (plain-slash c h.0) (has_slash-plain f h.1)

has_slash-behind : (d f : List ℕ) → has_slash (d ++ b'/' ∷ f) ≡ true
has_slash-behind [] f = refl
has_slash-behind (c ∷ d) f = rw (has_slash-behind d f) (ground arith)

file_name-behind : (d f : List ℕ) → IsPlain f → file_name (d ++ b'/' ∷ f) ≡ f
unfolding file_name
file_name-behind [] f h = rw (has_slash-plain f h) refl
file_name-behind (c ∷ d) f h = rw (has_slash-behind d f) (file_name-behind d f h)

regroup :
    (c : ℕ) (root x y z r : List ℕ)
    → (root ++ c ∷ (x ++ c ∷ (y ++ c ∷ z))) ++ r ≡ root ++ c ∷ (x ++ c ∷ (y ++ c ∷ (z ++ r)))
regroup c root x y z r =
    append_assoc root (c ∷ (x ++ c ∷ (y ++ c ∷ z))) r
    ∙ ap (λ (w : List ℕ). root ++ c ∷ w)
        (append_assoc x (c ∷ (y ++ c ∷ z)) r
          ∙ ap (λ (w : List ℕ). x ++ c ∷ w) (append_assoc y (c ∷ z) r))

-- One path is one list of the four numbers.
path-parts :
    (root : List ℕ) (m n : ℕ)
    → block_dir root m ++ b'/' ∷ block_file m ≡ block_dir root n ++ b'/' ∷ block_file n
    → (part 3 m ≡ part 3 n) × (part 2 m ≡ part 2 n) × (part 1 m ≡ part 1 n) × (part 0 m ≡ part 0 n)
path-parts root m n e =
    let digits = λ (k : ℕ) (l : ℕ). print-IsDigits (part k l) in
    let whole = λ (l : ℕ).
      regroup b'/' root (print (part 3 l)) (print (part 2 l)) (print (part 1 l))
        (b'/' ∷ block_file l) in
    let tails = same_tail root _ _ (sym (whole m) ∙ e ∙ whole n) in
    let one = split b'/' _ _ _ _ refl (digits 3 m) (digits 3 n) (ap (drop 1) tails) in
    let two = split b'/' _ _ _ _ refl (digits 2 m) (digits 2 n) one.1 in
    let three = split b'/' _ _ _ _ refl (digits 1 m) (digits 1 n) two.1 in
    let four = split b'.' _ _ _ _ refl (digits 0 m) (digits 0 n) three.1 in
    (
      print-injective _ _ one.0,
      print-injective _ _ two.0,
      print-injective _ _ three.0,
      print-injective _ _ four.0,
    )

module _ (hash : ℤ → ℕ) (fits : (s : ℤ) → hash s < 2 ^ 64) where
  -- Where std::hash has 64 bits: under one root, two blocks have one file exactly where their
  -- numbers have one hash; and the copy of a block's file from the journal's root to the disk's
  -- lies where the block is then read from.
  pub block_path-hash :
      ((s t : ℤ) (root : List ℕ)
        → (block_path hash s root ≡ block_path hash t root) ↔ (hash s ≡ hash t))
      × ((s : ℤ) (path : List ℕ)
          → copied_to (block_path hash s (journal_rb_root path)) (block_path hash s (rb_root path))
            ≡ block_path hash s (rb_root path))
  unfolding block_path copied_to
  block_path-hash = (
    λ s t root. (
      λ e.
          let (e3, e2, e1, e0) = path-parts root (hash s) (hash t) e in
          parts-same (hash s) (hash t) (fits s) (fits t) e3 e2 e1 e0,
      λ e. ap (λ (m : ℕ). block_dir root m ++ b'/' ∷ block_file m) e,
    ),
    λ s path.
        let plain = block_file-IsPlain (hash s) in
        rw
          (
            get_parent_str-behind (block_dir (rb_root path) (hash s)) (block_file (hash s)) plain,
            file_name-behind (block_dir (journal_rb_root path) (hash s)) (block_file (hash s))
                plain,
          )
          (append_assoc (block_dir (rb_root path) (hash s)) (b'/' ∷ []) (block_file (hash s))),
  )
