-- ===== src/Object/Tests.antt =====
-- Objects, their descriptions and a request, at concrete values.
use gdfile_store.Base.{◌>>=◌, ◌≡◌, ◌↔◌, refl, true, false, some, [], ◌∷◌, arith, length}
use gdfile_store.Base.Int.{pos}
use gdfile_store.Codec.Word.{bytes_of}
use gdfile_store.Object.{Rope, Operation, gh_eq, begin, insert}
use gdfile_store.Object.Members.{
  rope_members, operation_ty, operation_members, read_operation, wope_members, info_members,
}
use gdfile_store.Object.Serial.{IsStorableOperation, with_pool}
use gdfile_store.Object.Wire.{from_string-operation}
use gdfile_store.Codec.Encode.{encode}
use gdfile_store.Codec.{El, as_string, from_string}
use gdfile_store.Object.Compare.{
  gh_same, gh_same_iff, gh_same-owners, get_obj_unique_str_desc, renamed,
  get_obj_unique_str_desc_collides,
}
use gdfile_store.Object.Protocol.{
  req_read, asyn_read, handle_req_read, Request, req_write, buffer_members, init, asyn_write,
  handle_req_write,
}
use gdfile_store.Object.Requests.{IsStorableRope}
use gdfile_store.Object.Protocol.ReadDelivery.{
  IsSendableRead, posted_read, handle_req_read-asyn_read,
}
use gdfile_store.Object.Protocol.Delivery.{IsSendable, posted, handle_req_write-asyn_write}
use gdfile_store.Object.Sample.{
  object, node, write_ope, object-IsStorable, node-IsStorable, write_ope-IsStorable,
}

-- "me1obj35-1"
described :
    get_obj_unique_str_desc object
    ≡ b'm' ∷ b'e' ∷ b'1' ∷ b'o' ∷ b'b' ∷ b'j' ∷ b'3' ∷ b'5' ∷ b'-' ∷ b'1' ∷ []
unfolding get_obj_unique_str_desc
described = refl

gh_same_iff_example :
    (gh_same object (with_pool (pos 9) object) ≡ true)
    ↔ ((object.hobj.oid.name ≡ object.hobj.oid.name) × (object.generation ≡ object.generation))
gh_same_iff_example = gh_same_iff object (with_pool (pos 9) object)

gh_same_owners_run :
    (gh_eq object (record object { owner = b'y' ∷ [] }) ≡ false)
    × (gh_same object (record object { owner = b'y' ∷ [] }) ≡ true)
gh_same_owners_run = gh_same-owners object (b'y' ∷ []) (λ e. absurd (cc))

get_obj_unique_str_desc_collides_example :
    get_obj_unique_str_desc (renamed object 1 (b'2' ∷ b'a' ∷ []))
    ≡ get_obj_unique_str_desc (renamed object 12 (b'a' ∷ []))
get_obj_unique_str_desc_collides_example =
    get_obj_unique_str_desc_collides object 1 2 (b'a' ∷ []) (omega arith) (omega arith)

abbrev append_ope : Operation
append_ope = record {
  operation_type = insert;
  slice = record {
    source = some (record { content = b'x' ∷ []; offset = pos 0 });
    start = pos 0;
    end = pos 1;
  };
  obj = object;
  file_pos = record { file_anchor = begin; offset = pos 4 };
}

append_ope-IsStorable : IsStorableOperation append_ope
append_ope-IsStorable = record {
  operation_type = tt;
  sized = omega arith;
  exact = (refl, omega arith, omega arith);
  obj = object-IsStorable;
  file_anchor = tt;
  offset = omega arith;
}

length-append_ope : length (encode operation_ty (operation_members append_ope)) ≡ 60
unfolding bytes_of operation_members
length-append_ope = refl

from_string-operation_example :
    ((as_string operation_ty (operation_members append_ope) >>= from_string operation_ty)
      >>= λ (e : El operation_ty). some (read_operation (pos 0) e))
    ≡ some (record append_ope { obj = with_pool (pos 0) object })
from_string-operation_example =
    from_string-operation append_ope append_ope-IsStorable (omega (arith, length-append_ope))
      (pos 0)

length-posted : length (posted (node 8080) (node 9090) [] write_ope (b'i' ∷ b'd' ∷ [])) ≡ 195
unfolding bytes_of wope_members info_members buffer_members
length-posted = refl

sendable : IsSendable (node 8080) (node 9090) [] write_ope (b'i' ∷ b'd' ∷ [])
sendable = record {
  sender = node-IsStorable 8080 (omega arith);
  receivers = (node-IsStorable 9090 (omega arith), tt);
  receiver_count = omega arith;
  write_ope = write_ope-IsStorable;
  id = omega arith;
  size = omega (arith, length-posted);
}

handle_req_write-asyn_write_example :
    (r : Request) × (asyn_write (node 8080) (node 9090 ∷ []) write_ope (b'i' ∷ b'd' ∷ []) ≡ some r)
    × (r.target ≡ node 9090)
    × (r.route ≡ req_write)
    × (handle_req_write (pos 0) (pos 7) r.body
        ≡ some (record {
          ope_id = b'i' ∷ b'd' ∷ [];
          wope = record write_ope {
            ghobj = with_pool (pos 0) object;
            new_ghobj = with_pool (pos 7) object;
          };
          from = node 8080;
          wope_state = init;
        }))
handle_req_write-asyn_write_example =
    handle_req_write-asyn_write (node 8080) (node 9090) [] write_ope (b'i' ∷ b'd' ∷ []) sendable
      (pos 0) (pos 7)

abbrev read_ope : Rope
read_ope = record { ghobj = object; blocks = pos 0 ∷ pos 4 ∷ [] }

read_ope-IsStorable : IsStorableRope read_ope
read_ope-IsStorable = record {
  ghobj = object-IsStorable;
  blocks = (omega arith, (omega arith, tt));
  block_count = omega arith;
}

length-posted_read :
    length (posted_read (node 8080) (node 9090) [] read_ope (b'i' ∷ b'd' ∷ [])) ≡ 133
unfolding bytes_of rope_members info_members buffer_members
length-posted_read = refl

sendable_read : IsSendableRead (node 8080) (node 9090) [] read_ope (b'i' ∷ b'd' ∷ [])
sendable_read = record {
  sender = node-IsStorable 8080 (omega arith);
  receivers = (node-IsStorable 9090 (omega arith), tt);
  receiver_count = omega arith;
  read_ope = read_ope-IsStorable;
  id = omega arith;
  size = omega (arith, length-posted_read);
}

read_delivered :
    (r : Request) × (asyn_read (node 8080) (node 9090 ∷ []) read_ope (b'i' ∷ b'd' ∷ []) ≡ some r)
    × (r.target ≡ node 9090)
    × (r.route ≡ req_read)
    × (handle_req_read (pos 7) r.body
        ≡ some (record {
          ope_id = b'i' ∷ b'd' ∷ [];
          rope = record read_ope { ghobj = with_pool (pos 7) object };
          from = node 8080;
        }))
read_delivered =
    handle_req_read-asyn_read (node 8080) (node 9090) [] read_ope (b'i' ∷ b'd' ∷ []) sendable_read
      (pos 7)
