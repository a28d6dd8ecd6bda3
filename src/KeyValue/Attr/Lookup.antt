-- ===== src/KeyValue/Attr/Lookup.antt =====
-- What GetAttr finds after SetAttr, and that different keys have different strings.
use gdfile_store.Base.{
  ℕ, ◌≤◌, ◌<◌, ◌≡◌, refl, sym, ap, ◌∙◌, true, false, Option, some, List, [], ◌∷◌, ◌++◌, ◌>>=◌,
  arith, length, drop, drop-append, bytes_eq, bytes_eq_self,
}
use gdfile_store.Buffer.{int_max}
use gdfile_store.Codec.Encode.{encode, Sized}
use gdfile_store.Codec.RoundTrip.{Exact}
use gdfile_store.Codec.Strings.{as_string-encode, from_string-as_string}
use gdfile_store.Codec.{Ty, El, from_string}
use gdfile_store.KeyValue.{RocksDb, RocksKv}
use gdfile_store.KeyValue.Attr.{get_key, set_attr, stored_at, attr_of, get_attr}

from_string-encode :
    (t : Ty) (v : El t)
    → Sized t v
    → Exact t v
    → length (encode t v) ≤ int_max
    → from_string t (encode t v) ≡ some v
from_string-encode t v n e h =
    ap (λ (s : Option (List ℕ)). s >>= from_string t) (sym (as_string-encode t v n))
    ∙ from_string-as_string t v n e h

attr_of-some :
    (r : RocksDb) (a : Ty) (default : El a) (s : List ℕ)
    → 0 < length s
    → attr_of r a default (some s) ≡ (from_string a s >>= λ (x : El a). some (x, true))
attr_of-some r a default [] h = absurd (omega arith)
attr_of-some r a default (b ∷ bs) h = refl

-- Values of one type that have one key are the same value.
pub get_key-injective :
    (type_header : List ℕ) (t : Ty) (v w : El t) (key : List ℕ)
    → Sized t v
    → Sized t w
    → Exact t v
    → Exact t w
    → length (encode t v) ≤ int_max
    → length (encode t w) ≤ int_max
    → get_key type_header t v ≡ some key
    → get_key type_header t w ≡ some key
    → v ≡ w
unfolding get_key
get_key-injective type_header t v w key nv nw ev ew hv hw kv kw =
    let one : type_header ++ encode t v ≡ key = cc (rw (as_string-encode t v nv) at kv) in
    let two : type_header ++ encode t w ≡ key = cc (rw (as_string-encode t w nw) at kw) in
    let same : encode t v ≡ encode t w =
      sym (drop-append type_header (encode t v))
      ∙ ap (drop (length type_header)) (one ∙ sym two)
      ∙ drop-append type_header (encode t w) in
    let found : some v ≡ some w =
      sym (from_string-encode t v nv ev hv)
      ∙ ap (from_string t) same
      ∙ from_string-encode t w nw ew hw in
    cc

module _ (r : RocksDb) (kv : RocksKv r) (type_header : List ℕ) (t : Ty) (v : El t) (a : Ty)
    (attr : El a) (key_sized : Sized t v) (sized : Sized a attr) (exact : Exact a attr)
    (some_bytes : 0 < length (encode a attr)) (size : length (encode a attr) ≤ int_max) where
  -- An attribute that is set under a key is what is got under that key, whatever the default; what
  -- is got under a key with another string, of any type, stays what it was.
  pub get_attr-set_attr :
      (default : El a) (other_header : List ℕ) (s : Ty) (u : El s) (b : Ty) (other_default : El b)
      (other_key : List ℕ)
      → get_key other_header s u ≡ some other_key
      → bytes_eq (type_header ++ encode t v) other_key ≡ false
      → (kv' : RocksKv r) × (set_attr r type_header t v a attr kv ≡ some kv')
        × (get_attr r type_header t v a default kv' ≡ some (attr, true))
        × (get_attr r other_header s u b other_default kv'
            ≡ get_attr r other_header s u b other_default kv)
  unfolding set_attr get_attr
  get_attr-set_attr default other_header s u b other_default other_key other_at apart = (
    stored_at r (type_header ++ encode t v) (encode a attr) kv,
    rw (as_string-encode t v key_sized, as_string-encode a attr sized),
    rw (
      as_string-encode t v key_sized,
      r.get-put,
      bytes_eq_self (type_header ++ encode t v),
      attr_of-some r a default (encode a attr) some_bytes,
      from_string-encode a attr sized exact size,
    ),
    rw (other_at, r.get-put, apart),
  )
