-- ===== src/Object/Sample.antt =====
-- An object, two nodes and a write operation for the tests.
use gdfile_store.Base.{ℕ, ◌^◌, ◌<◌, false, [], ◌∷◌, arith}
use gdfile_store.Base.Int.{pos, negsuc}
use gdfile_store.Object.{GhObject, InfoForOsd, Wope, over_write, insert}
use gdfile_store.Object.Serial.{IsStorable}
use gdfile_store.Object.Requests.{IsStorableInfo, IsStorableWope}

-- Object "obj" of owner "me", in pool 1.
abbrev pub object : GhObject
object = record {
  hobj = record {
    oid = record { name = b'o' ∷ b'b' ∷ b'j' ∷ [] };
    snap = record { time_stamp = pos 3 };
    hash = 77;
    max = false;
    pool = pos 1;
  };
  generation = pos 5;
  shard_id = record { id = negsuc 0 };
  owner = b'm' ∷ b'e' ∷ [];
}

abbrev pub node : ℕ → InfoForOsd
node port = record { name = b'n' ∷ []; host = b'1' ∷ b'2' ∷ b'7' ∷ []; port = pos port }

-- Overwrite block 0 and insert a block at 1.
abbrev pub write_ope : Wope
write_ope = record {
  types = over_write ∷ insert ∷ [];
  block_nums = pos 0 ∷ pos 1 ∷ [];
  block_datas = (b'x' ∷ []) ∷ (b'y' ∷ b'z' ∷ []) ∷ [];
  ghobj = object;
  new_ghobj = object;
}

pub object-IsStorable : IsStorable object
object-IsStorable = record {
  name = omega arith;
  owner = omega arith;
  time_stamp = omega arith;
  hash = omega arith;
  generation = omega arith;
  shard_id = omega arith;
}

pub node-IsStorable : (port : ℕ) → port < 2 ^ 31 → IsStorableInfo (node port)
node-IsStorable port h = record { name = omega arith; host = omega arith; port = omega arith }

pub write_ope-IsStorable : IsStorableWope write_ope
write_ope-IsStorable = record {
  types = (tt, (tt, tt));
  type_count = omega arith;
  block_nums = (omega arith, (omega arith, tt));
  num_count = omega arith;
  block_datas = (omega arith, (omega arith, tt));
  data_count = omega arith;
  ghobj = object-IsStorable;
  new_ghobj = object-IsStorable;
}
