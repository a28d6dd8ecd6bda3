-- ===== src/KeyValue/Attr/Tests.antt =====
-- Attributes of blocks on a database of plain lists.
use gdfile_store.Base.{ℕ, ◌<◌, ◌≡◌, refl, true, some, List, [], ◌∷◌, arith, length, bytes_eq}
use gdfile_store.Buffer.{append}
use gdfile_store.Codec.Word.{bytes_of}
use gdfile_store.Codec.Encode.{encode}
use gdfile_store.Codec.{Ty, El, scalar, tuple_end, tuple_cons, as_string}
use gdfile_store.KeyValue.Table.{table}
use gdfile_store.KeyValue.{RocksKv}
use gdfile_store.KeyValue.Attr.{get_key, set_attr, get_attr}
use gdfile_store.KeyValue.Attr.Lookup.{get_attr-set_attr, get_key-injective}

abbrev no_attr : RocksKv table
no_attr = record { db = []; obj_cache_header = []; reverse_obj_cache_header = [] }

-- The reference count of a block, under the block's number.
abbrev block_ty : Ty
block_ty = tuple_cons (scalar 8) (tuple_cons (scalar 4) tuple_end)

abbrev key_ty : Ty
key_ty = tuple_cons (scalar 8) tuple_end

abbrev type_header : List ℕ
type_header = b'R' ∷ []

get_key_201 :
    get_key type_header key_ty (201, tt) ≡ some (b'R' ∷ 201 ∷ 0 ∷ 0 ∷ 0 ∷ 0 ∷ 0 ∷ 0 ∷ 0 ∷ [])
unfolding get_key as_string append bytes_of
get_key_201 = refl

get_key_202 :
    get_key type_header key_ty (202, tt) ≡ some (b'R' ∷ 202 ∷ 0 ∷ 0 ∷ 0 ∷ 0 ∷ 0 ∷ 0 ∷ 0 ∷ [])
unfolding get_key as_string append bytes_of
get_key_202 = refl

encoded_block : 0 < length (encode block_ty (201, (1, tt)))
unfolding bytes_of
encoded_block = omega arith

get_attr-set_attr_example :
    (kv' : RocksKv table) × (set_attr table type_header key_ty
        (201, tt)
        block_ty
        (201, (1, tt))
        no_attr
      ≡ some kv')
    × (get_attr table type_header key_ty (201, tt) block_ty (0, (0, tt)) kv'
        ≡ some ((201, (1, tt)), true))
    × (get_attr table type_header key_ty (202, tt) block_ty (0, (0, tt)) kv'
        ≡ get_attr table type_header key_ty (202, tt) block_ty (0, (0, tt)) no_attr)
unfolding bytes_of bytes_eq
get_attr-set_attr_example =
    get_attr-set_attr table no_attr type_header key_ty (201, tt) block_ty (201, (1, tt)) (tt, tt)
      (tt, (tt, tt)) (omega arith, (omega arith, tt)) (omega arith) (omega arith) (0, (0, tt))
      type_header key_ty (202, tt) block_ty (0, (0, tt)) _ get_key_202 refl

abbrev block_key : El key_ty
block_key = (201, tt)

same_block : block_key ≡ block_key
unfolding bytes_of
same_block =
    get_key-injective type_header key_ty block_key block_key _ (tt, tt) (tt, tt) (omega arith, tt)
      (omega arith, tt) (omega arith) (omega arith) get_key_201 get_key_201
