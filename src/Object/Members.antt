-- ===== src/Object/Members.antt =====
-- GetES of each class of src/deps/object.h and src/deps/connection.h: the members that `Write` and
-- `Read` go through, in their order, and the object that is left when they have been read.
use gdfile_store.Base.{ℕ, ◌^◌, Bool, true, false, map, ◌==◌, if◌then◌else◌, not}
use gdfile_store.Base.Int.{ℤ, to_word, of_word}
use gdfile_store.Codec.{Ty, El, scalar, text, tuple_end, tuple_cons, vector, slice, word32}
use gdfile_store.Object.{
  HObject, GhObject, OperationType, FileAnchor, FilePos, Operation, InfoForOsd, OpeType, Wope, Rope,
  RopeResult, begin, end, other_anchor, other_type, other_ope, over_write,
}

abbrev pub word8 : ℕ
word8 = 2 ^ 8

abbrev pub word64 : ℕ
word64 = 2 ^ 64

-- A bool is a byte; any byte but 0 reads as true.
abbrev pub of_bool : Bool → ℕ
of_bool true = 1
of_bool false = 0

abbrev pub to_bool : ℕ → Bool
to_bool n = not (n == 0)

-- The numbers of the enumerators.
abbrev pub of_operation_type : OperationType → ℕ
of_operation_type OperationType.insert = 0
of_operation_type OperationType.delete = 1
of_operation_type (other_type n) = n

abbrev pub to_operation_type : ℕ → OperationType
to_operation_type n =
    if n == 0 then OperationType.insert else if n == 1 then OperationType.delete else other_type n

abbrev pub of_file_anchor : FileAnchor → ℕ
of_file_anchor begin = 1
of_file_anchor end = 2
of_file_anchor (other_anchor n) = n

abbrev pub to_file_anchor : ℕ → FileAnchor
to_file_anchor n = if n == 1 then begin else if n == 2 then end else other_anchor n

abbrev pub of_ope_type : OpeType → ℕ
of_ope_type OpeType.insert = 0
of_ope_type OpeType.delete = 1
of_ope_type over_write = 2
of_ope_type (other_ope n) = n

abbrev pub to_ope_type : ℕ → OpeType
to_ope_type n =
    if n == 0
    then OpeType.insert
    else if n == 1
    then OpeType.delete
    else if n == 2
    then over_write
    else other_ope n

infixr 20 ◌&◌
abbrev pub ◌&◌ : Ty → Ty → Ty
s & t = tuple_cons s t

abbrev pub hobject_ty : Ty
hobject_ty = (text & tuple_end) & (scalar 8 & tuple_end) & scalar 4 & scalar 1 & tuple_end

-- `pool` is not among the members.
unfoldable pub hobject_members : HObject → El hobject_ty
hobject_members h =
    ((h.oid.name, tt), ((to_word word64 h.snap.time_stamp, tt), (h.hash, (of_bool h.max, tt))))

-- What is not among the members stays as it was: here `pool`.
unfoldable pub read_hobject : ℤ → El hobject_ty → HObject
read_hobject pool e = record {
  oid = record { name = e.0.0 };
  snap = record { time_stamp = of_word word64 e.1.0.0 };
  hash = e.1.1.0;
  max = to_bool e.1.1.1.0;
  pool = pool;
}

abbrev pub ghobject_ty : Ty
ghobject_ty = hobject_ty & scalar 8 & (scalar 1 & tuple_end) & text & tuple_end

unfoldable pub ghobject_members : GhObject → El ghobject_ty
unfolding hobject_members
ghobject_members g = (
  hobject_members g.hobj,
  (to_word word64 g.generation, ((to_word word8 g.shard_id.id, tt), (g.owner, tt))),
)

unfoldable pub read_ghobject : ℤ → El ghobject_ty → GhObject
unfolding read_hobject
read_ghobject pool e = record {
  hobj = read_hobject pool e.0;
  generation = of_word word64 e.1.0;
  shard_id = record { id = of_word word8 e.1.1.0.0 };
  owner = e.1.1.1.0;
}

abbrev pub file_pos_ty : Ty
file_pos_ty = scalar 4 & scalar 4 & tuple_end

unfoldable pub file_pos_members : FilePos → El file_pos_ty
file_pos_members p = (of_file_anchor p.file_anchor, (to_word word32 p.offset, tt))

unfoldable pub read_file_pos : El file_pos_ty → FilePos
read_file_pos e = record { file_anchor = to_file_anchor e.0; offset = of_word word32 e.1.0 }

abbrev pub operation_ty : Ty
operation_ty = scalar 4 & slice & ghobject_ty & file_pos_ty & tuple_end

unfoldable pub operation_members : Operation → El operation_ty
unfolding ghobject_members file_pos_members
operation_members o = (
  of_operation_type o.operation_type,
  (o.slice, (ghobject_members o.obj, (file_pos_members o.file_pos, tt))),
)

unfoldable pub read_operation : ℤ → El operation_ty → Operation
unfolding read_ghobject read_file_pos
read_operation pool e = record {
  operation_type = to_operation_type e.0;
  slice = e.1.0;
  obj = read_ghobject pool e.1.1.0;
  file_pos = read_file_pos e.1.1.1.0;
}

abbrev pub info_ty : Ty
info_ty = text & text & scalar 4 & tuple_end

unfoldable pub info_members : InfoForOsd → El info_ty
info_members i = (i.name, (i.host, (to_word word32 i.port, tt)))

unfoldable pub read_info : El info_ty → InfoForOsd
read_info e = record { name = e.0; host = e.1.0; port = of_word word32 e.1.1.0 }

abbrev pub wope_ty : Ty
wope_ty =
    vector (scalar 4) & ghobject_ty & ghobject_ty & vector (scalar 4) & vector text & tuple_end

unfoldable pub wope_members : Wope → El wope_ty
unfolding ghobject_members
wope_members w = (
  map of_ope_type w.types,
  (
    ghobject_members w.ghobj,
    (ghobject_members w.new_ghobj, (map (to_word word32) w.block_nums, (w.block_datas, tt))),
  ),
)

unfoldable pub read_wope : ℤ → ℤ → El wope_ty → Wope
unfolding read_ghobject
read_wope pool new_pool e = record {
  types = map to_ope_type e.0;
  block_nums = map (of_word word32) e.1.1.1.0;
  block_datas = e.1.1.1.1.0;
  ghobj = read_ghobject pool e.1.0;
  new_ghobj = read_ghobject new_pool e.1.1.0;
}

abbrev pub rope_ty : Ty
rope_ty = ghobject_ty & vector (scalar 4) & tuple_end

unfoldable pub rope_members : Rope → El rope_ty
unfolding ghobject_members
rope_members r = (ghobject_members r.ghobj, (map (to_word word32) r.blocks, tt))

unfoldable pub read_rope : ℤ → El rope_ty → Rope
unfolding read_ghobject
read_rope pool e = record { ghobj = read_ghobject pool e.0; blocks = map (of_word word32) e.1.0 }

abbrev pub result_ty : Ty
result_ty = text & ghobject_ty & vector (scalar 4) & vector text & tuple_end

unfoldable pub result_members : RopeResult → El result_ty
unfolding ghobject_members
result_members r =
    (r.ope_id, (ghobject_members r.ghobj, (map (to_word word32) r.blocks, (r.datas, tt))))

unfoldable pub read_result : ℤ → El result_ty → RopeResult
unfolding read_ghobject
read_result pool e = record {
  ope_id = e.0;
  ghobj = read_ghobject pool e.1.0;
  blocks = map (of_word word32) e.1.1.0;
  datas = e.1.1.1.0;
}
