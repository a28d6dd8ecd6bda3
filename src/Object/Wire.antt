-- ===== src/Object/Wire.antt =====
-- An operation as bytes, and back.
use gdfile_store.Base.{◌≤◌, ◌≡◌, some, ap, ◌>>=◌, length}
use gdfile_store.Base.Int.{ℤ}
use gdfile_store.Buffer.{int_max}
use gdfile_store.Codec.Encode.{encode}
use gdfile_store.Codec.Strings.{from_string-as_string}
use gdfile_store.Codec.{El, as_string, from_string}
use gdfile_store.Object.{Operation}
use gdfile_store.Object.Members.{operation_ty, operation_members, read_operation}
use gdfile_store.Object.Serial.{
  IsStorableOperation, operation-Sized, operation-Exact, read_operation_lem, with_pool,
}

module _ (o : Operation) (h : IsStorableOperation o)
    (size : length (encode operation_ty (operation_members o)) ≤ int_max) where
  -- An operation whose slice has a buffer is read back from its string, every field of it but the
  -- pool of its object, which is not written: the reader's memory decides it.
  pub from_string-operation :
      (pool : ℤ)
      → ((as_string operation_ty (operation_members o) >>= from_string operation_ty)
          >>= λ (e : El operation_ty). some (read_operation pool e))
        ≡ some (record o { obj = with_pool pool o.obj })
  from_string-operation pool =
      rw
        (from_string-as_string operation_ty (operation_members o) (operation-Sized o h)
          (operation-Exact o h) size)
        (ap some (read_operation_lem o h pool))
