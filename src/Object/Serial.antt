-- ===== src/Object/Serial.antt =====
-- Which objects the members carry whole, class by class.
use gdfile_store.Base.{ℕ, ◌^◌, ◌<◌, ◌≡◌, refl, Bool, true, false, List, ◌==◌, arith, length}
use gdfile_store.Base.Int.{ℤ, to_word, InWord, of_word-to_word, to_word-lt}
use gdfile_store.Codec.{slice, word32}
use gdfile_store.Codec.Word.{InBytes}
use gdfile_store.Codec.Encode.{Sized, SizedSource}
use gdfile_store.Codec.RoundTrip.{Exact}
use gdfile_store.Object.{
  GhObject, OperationType, FileAnchor, Operation, OpeType, begin, end, other_anchor, other_type,
  other_ope, over_write,
}
use gdfile_store.Object.Members.{
  word8, word64, of_bool, to_bool, of_operation_type, to_operation_type, of_file_anchor,
  to_file_anchor, of_ope_type, to_ope_type, ghobject_ty, ghobject_members, read_ghobject,
  operation_ty, operation_members, read_operation,
}

pub InBytes-int : (z : ℤ) → InBytes 4 (to_word word32 z)
InBytes-int z = omega (arith, to_word-lt word32 z (omega arith))

InBytes-int64 : (z : ℤ) → InBytes 8 (to_word word64 z)
InBytes-int64 z = omega (arith, to_word-lt word64 z (omega arith))

InBytes-int8 : (z : ℤ) → InBytes 1 (to_word word8 z)
InBytes-int8 z = omega (arith, to_word-lt word8 z (omega arith))

InBytes-bool : (b : Bool) → InBytes 1 (of_bool b)
InBytes-bool true = omega arith
InBytes-bool false = omega arith

to_bool-of_bool : (b : Bool) → to_bool (of_bool b) ≡ b
to_bool-of_bool true = refl
to_bool-of_bool false = refl

abbrev pub IsText : List ℕ → Type 0
IsText s = length s < 2 ^ 31

-- Every field is a value of its C++ type, and the texts are shorter than 2 GiB.
pub record IsStorable (g : GhObject) : Type 0 where
  pub name : IsText g.hobj.oid.name
  pub owner : IsText g.owner
  pub time_stamp : InWord word64 g.hobj.snap.time_stamp
  pub hash : InBytes 4 g.hobj.hash
  pub generation : InWord word64 g.generation
  pub shard_id : InWord word8 g.shard_id.id

-- The object with another pool.
abbrev pub with_pool : ℤ → GhObject → GhObject
with_pool pool g = record g { hobj = record g.hobj { pool = pool } }

module _ (g : GhObject) (h : IsStorable g) where
  pub ghobject-Sized : Sized ghobject_ty (ghobject_members g)
  unfolding ghobject_members
  ghobject-Sized = (((h.name, tt), ((tt, tt), (tt, (tt, tt)))), (tt, ((tt, tt), (h.owner, tt))))

  pub ghobject-Exact : Exact ghobject_ty (ghobject_members g)
  unfolding ghobject_members
  ghobject-Exact = (
    ((tt, tt), ((InBytes-int64 _, tt), (h.hash, (InBytes-bool _, tt)))),
    (InBytes-int64 _, ((InBytes-int8 _, tt), (tt, tt))),
  )

  pub read_ghobject_lem : (pool : ℤ) → read_ghobject pool (ghobject_members g) ≡ with_pool pool g
  unfolding read_ghobject ghobject_members
  read_ghobject_lem pool = rw (
    of_word-to_word word64 _ h.time_stamp,
    of_word-to_word word64 _ h.generation,
    of_word-to_word word8 _ h.shard_id,
    to_bool-of_bool g.hobj.max,
  )

-- An enumerator's number, or a number that no enumerator has.
abbrev pub IsOperationType : OperationType → Type 0
IsOperationType (other_type n) = (1 < n) × (n < word32)
IsOperationType _ = Unit {0}

abbrev pub IsFileAnchor : FileAnchor → Type 0
IsFileAnchor (other_anchor n) = (n < word32) × ((n == 1) ≡ false) × ((n == 2) ≡ false)
IsFileAnchor _ = Unit {0}

abbrev pub IsOpeType : OpeType → Type 0
IsOpeType (other_ope n) = (2 < n) × (n < word32)
IsOpeType _ = Unit {0}

operation_type_exact :
    (t : OperationType)
    → IsOperationType t
    → InBytes 4 (of_operation_type t) × (to_operation_type (of_operation_type t) ≡ t)
operation_type_exact OperationType.insert h = (omega arith, refl)
operation_type_exact OperationType.delete h = (omega arith, refl)
operation_type_exact (other_type n) h = (omega arith, ground arith)

file_anchor_exact :
    (a : FileAnchor)
    → IsFileAnchor a
    → InBytes 4 (of_file_anchor a) × (to_file_anchor (of_file_anchor a) ≡ a)
file_anchor_exact begin h = (omega arith, refl)
file_anchor_exact end h = (omega arith, refl)
file_anchor_exact (other_anchor n) h = (omega arith, rw (h.1, h.2))

pub ope_type_exact :
    (t : OpeType) → IsOpeType t → InBytes 4 (of_ope_type t) × (to_ope_type (of_ope_type t) ≡ t)
ope_type_exact OpeType.insert h = (omega arith, refl)
ope_type_exact OpeType.delete h = (omega arith, refl)
ope_type_exact over_write h = (omega arith, refl)
ope_type_exact (other_ope n) h = (omega arith, ground arith)

-- The slice of a storable operation has a buffer, read from its start.
pub record IsStorableOperation (o : Operation) : Type 0 where
  pub operation_type : IsOperationType o.operation_type
  pub sized : SizedSource o.slice.source
  pub exact : Exact slice o.slice
  pub obj : IsStorable o.obj
  pub file_anchor : IsFileAnchor o.file_pos.file_anchor
  pub offset : InWord word32 o.file_pos.offset

module _ (o : Operation) (h : IsStorableOperation o) where
  pub operation-Sized : Sized operation_ty (operation_members o)
  unfolding operation_members
  operation-Sized = (tt, (h.sized, (ghobject-Sized o.obj h.obj, ((tt, (tt, tt)), tt))))

  pub operation-Exact : Exact operation_ty (operation_members o)
  unfolding operation_members
  operation-Exact = (
    (operation_type_exact o.operation_type h.operation_type).0,
    (
      h.exact,
      (
        ghobject-Exact o.obj h.obj,
        (((file_anchor_exact o.file_pos.file_anchor h.file_anchor).0, (InBytes-int _, tt)), tt),
      ),
    ),
  )

  pub read_operation_lem :
      (pool : ℤ)
      → read_operation pool (operation_members o) ≡ record o { obj = with_pool pool o.obj }
  unfolding read_operation operation_members
  read_operation_lem pool = rw (
    read_ghobject_lem o.obj h.obj pool,
    (operation_type_exact o.operation_type h.operation_type).1,
    (file_anchor_exact o.file_pos.file_anchor h.file_anchor).1,
    of_word-to_word word32 _ h.offset,
  )
