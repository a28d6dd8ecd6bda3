-- ===== src/Object.antt =====
-- The object model of src/deps/object.h, src/deps/referedBlock.h and src/deps/connection.h.
-- An enumeration has one constructor more than the source names: an object of an enum type can
-- hold any number of its underlying type, and such a number comes in over the network.
pub mod Members
pub mod Serial
pub mod Requests
pub mod Protocol
pub mod Compare
pub mod Sample
pub mod Wire
pub mod Tests
use gdfile_store.Base.{ℕ, Bool, false, ◌&&◌, ◌||◌, List, bytes_eq, bytes_lt}
use gdfile_store.Base.Int.{ℤ, pos, ltb_ℤ, eqb_ℤ}
use gdfile_store.Codec.{Slice}

pub record SnapId : Type 0 where
  pub time_stamp : ℤ

pub record ObjectId : Type 0 where
  pub name : List ℕ

pub record HObject : Type 0 where
  pub oid : ObjectId
  pub snap : SnapId
  pub hash : ℕ
  pub max : Bool
  pub pool : ℤ

pub record ShardId : Type 0 where
  pub id : ℤ

pub record GhObject : Type 0 where
  pub hobj : HObject
  pub generation : ℤ
  pub shard_id : ShardId
  pub owner : List ℕ

-- GHObject_t::operator==
unfoldable pub gh_eq : GhObject → GhObject → Bool
gh_eq a b =
    bytes_eq a.hobj.oid.name b.hobj.oid.name
    && eqb_ℤ a.generation b.generation
    && eqb_ℤ a.shard_id.id b.shard_id.id
    && bytes_eq a.owner b.owner

-- GHObject_t::operator<
unfoldable pub gh_lt : GhObject → GhObject → Bool
gh_lt a b =
    bytes_lt a.hobj.oid.name b.hobj.oid.name
    || (bytes_eq a.hobj.oid.name b.hobj.oid.name && ltb_ℤ a.generation b.generation)

-- The constructor HObject_t(oid, snap): its initialiser list leaves `snap` out.
unfoldable pub new_hobject : ObjectId → SnapId → HObject
new_hobject oid snap = record {
  oid = oid;
  snap = record { time_stamp = pos 0 };
  hash = 0;
  max = false;
  pool = pos 0;
}

pub data OperationType : Type 0 where
  insert delete : OperationType
  other_type : ℕ → OperationType

pub data FileAnchor : Type 0 where
  begin end : FileAnchor
  other_anchor : ℕ → FileAnchor

pub record FilePos : Type 0 where
  pub file_anchor : FileAnchor
  pub offset : ℤ

pub record Operation : Type 0 where
  pub operation_type : OperationType
  pub slice : Slice
  pub obj : GhObject
  pub file_pos : FilePos

pub record InfoForOsd : Type 0 where
  pub name : List ℕ
  pub host : List ℕ
  pub port : ℤ

pub data OpeType : Type 0 where
  insert delete over_write : OpeType
  other_ope : ℕ → OpeType

pub record Wope : Type 0 where
  pub types : List OpeType
  pub block_nums : List ℤ
  pub block_datas : List (List ℕ)
  pub ghobj : GhObject
  pub new_ghobj : GhObject

pub record Rope : Type 0 where
  pub ghobj : GhObject
  pub blocks : List ℤ

pub record RopeResult : Type 0 where
  pub ope_id : List ℕ
  pub ghobj : GhObject
  pub blocks : List ℤ
  pub datas : List (List ℕ)

pub record ReferedBlock : Type 0 where
  pub serial : ℤ
  pub refer_count : ℤ
