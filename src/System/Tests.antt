-- ===== src/System/Tests.antt =====
-- A write from one node to another, at concrete values.
use gdfile_store.Base.{map, ℕ, ◌≡◌, ◌≢◌, refl, some, List, [], ◌∷◌, ◌++◌, arith, length, bytes_eq}
use gdfile_store.Base.Int.{pos, to_word, ◌+ℤ◌}
use gdfile_store.Buffer.{append}
use gdfile_store.Codec.{as_string, tuple_end}
use gdfile_store.Codec.Word.{bytes_of}
use gdfile_store.Codec.Encode.{encode}
use gdfile_store.KeyValue.Assoc.{find, assign}
use gdfile_store.Object.Members.{
  ◌&◌, result_ty, result_members, rope_members, ghobject_ty, ghobject_members, wope_members,
  info_members,
}
use gdfile_store.Object.Requests.{
  IsStorableResult, info-Sized, info-Exact, result-Sized, result-Exact,
}
use gdfile_store.Object.Serial.{ghobject-Sized}
use gdfile_store.Object.{Rope, RopeResult}
use gdfile_store.Codec.Strings.{as_string-encode}
use gdfile_store.Object.Sample.{
  object-IsStorable, object, node, write_ope, node-IsStorable, write_ope-IsStorable,
}
use gdfile_store.Object.Protocol.{
  Request, buffer_members, asyn_write, asyn_read, RepType, primary_journal_write,
  primary_disk_write,
}
use gdfile_store.Object.Protocol.ReadDelivery.{IsSendableRead, posted_read}
use gdfile_store.Object.Protocol.Delivery.{IsSendable, posted}
use gdfile_store.Object.Protocol.Replies.{rep_write_ty}
use gdfile_store.Object.Protocol.ReplyDelivery.{
  IsPostable, IsRepType, rep_type_exact, posted_body, reply_members,
}
use gdfile_store.FileStore.{
  Node, Reply, new_block, journal_wope, object_key, serials_of, block_of, read_block,
}
use gdfile_store.FileStore.Edits.{edit_contents, block_content}
use gdfile_store.FileStore.WriteRead.{IsReady}
use gdfile_store.FileStore.Progress.{Runs}
use gdfile_store.Client.{success, rope_state_of, Client, on_journal, on_disk, wope_state_of}
use gdfile_store.System.{accept, deliver, answer_read, deliver_read}
use gdfile_store.System.ReadBack.{found, asyn_read-asyn_write}
use gdfile_store.System.Written.{arrived, asyn_write-on_disk}

abbrev id : List ℕ
id = b'i' ∷ b'd' ∷ []

abbrev key : List ℕ
key = encode ghobject_ty (ghobject_members object)

-- The node 9090 has the object with one block, 101, and has sent nothing.
abbrev store : Node
store = record {
  objects = (key, pos 101 ∷ []) ∷ [];
  blocks = (pos 101, record { serial = pos 101; refer_count = pos 1 }) ∷ [];
  journal = [];
  disk = (pos 101, b'a' ∷ []) ∷ [];
  clock = pos 201 ∷ pos 202 ∷ [];
  sent = [];
  wope_logs = [];
}

abbrev in_journal : Node
in_journal = record store {
  objects = (key, pos 201 ∷ pos 202 ∷ []) ∷ [];
  blocks =
      (pos 101, record { serial = pos 101; refer_count = pos 1 })
      ∷ (pos 201, record { serial = pos 201; refer_count = pos 1 })
      ∷ (pos 202, record { serial = pos 202; refer_count = pos 1 })
      ∷ [];
  journal = (pos 201, b'x' ∷ []) ∷ (pos 202, b'y' ∷ b'z' ∷ []) ∷ [];
  clock = [];
}

journalled : journal_wope (arrived (pos 0) (pos 7) write_ope) store ≡ some in_journal
unfolding journal_wope new_block find assign bytes_eq append bytes_of ghobject_members to_word ◌+ℤ◌
    as_string
journalled = refl

-- The client, node 8080, knows no write.
abbrev fresh : Client
fresh = record { wope_states = []; rope_states = []; jobs = []; waiting = []; answers = [] }

length-posted : length (posted (node 8080) (node 9090) [] write_ope id) ≡ 195
unfolding bytes_of wope_members info_members buffer_members
length-posted = refl

sendable : IsSendable (node 8080) (node 9090) [] write_ope id
sendable = record {
  sender = node-IsStorable 8080 (omega arith);
  receivers = (node-IsStorable 9090 (omega arith), tt);
  receiver_count = omega arith;
  write_ope = write_ope-IsStorable;
  id = omega arith;
  size = omega (arith, length-posted);
}

abbrev reply_body : RepType → List ℕ
reply_body rt = posted_body (node 9090) (node 8080) rep_write_ty (reply_members (node 9090) rt id)

journal_size : length (reply_body primary_journal_write) ≡ 66
unfolding bytes_of info_members buffer_members
journal_size = refl

disk_size : length (reply_body primary_disk_write) ≡ 66
unfolding bytes_of info_members buffer_members
disk_size = refl

reply-IsPostable :
    (rt : RepType)
    → IsRepType rt
    → length (reply_body rt) ≡ 66
    → IsPostable (node 9090) (node 8080) rep_write_ty (reply_members (node 9090) rt id)
reply-IsPostable rt hr size_of = record {
  sender = node-IsStorable 9090 (omega arith);
  receiver = node-IsStorable 8080 (omega arith);
  sized = (info-Sized _ (node-IsStorable 9090 (omega arith)), (tt, (omega arith, tt)));
  exact = (info-Exact _ (node-IsStorable 9090 (omega arith)), ((rep_type_exact rt hr).0, (tt, tt)));
  size = omega (arith, size_of);
}

asyn_write-on_disk_example :
    (r : Request) × (taken node' : Node) × (reply1 reply2 : Reply) × (c1 c2 : Client) × (asyn_write
        (node 8080)
        (node 9090 ∷ [])
        write_ope
        id
      ≡ some r)
    × (accept (pos 0) (pos 7) r store ≡ some taken)
    × Runs taken node' 3
    × (node'.wope_logs ≡ [])
    × (node'.sent ≡ store.sent ++ reply1 ∷ reply2 ∷ [])
    × (deliver (node 9090) reply1 fresh ≡ some c1)
    × (wope_state_of id c1 ≡ on_journal)
    × (deliver (node 9090) reply2 c1 ≡ some c2)
    × (wope_state_of id c2 ≡ on_disk)
    × ((k : List ℕ) → id ≢ k → wope_state_of k c2 ≡ wope_state_of k fresh)
asyn_write-on_disk_example =
    asyn_write-on_disk (node 8080) (node 9090) [] write_ope id sendable
      (reply-IsPostable primary_journal_write tt journal_size)
      (reply-IsPostable primary_disk_write tt disk_size) (pos 0) (pos 7) store in_journal fresh refl
      journalled

at_key : object_key object ≡ some key
unfolding object_key
at_key =
    as_string-encode ghobject_ty (ghobject_members object) (ghobject-Sized object object-IsStorable)

store-IsReady : IsReady write_ope store key
unfolding serials_of block_of read_block block_content find bytes_eq bytes_of ghobject_members
    to_word
store-IsReady = record {
  stored = (((0, refl), refl), tt);
  distinct = (tt, tt);
  fresh = ((refl, tt), (refl, tt), ((refl, tt), tt, tt));
  enough = omega arith;
}

-- The version is "x", "yz"; the client reads its blocks 1 and 0.
abbrev read_ope : Rope
read_ope = record { ghobj = object; blocks = pos 1 ∷ pos 0 ∷ [] }

abbrev texts : List (List ℕ)
texts = (b'x' ∷ []) ∷ (b'y' ∷ b'z' ∷ []) ∷ []

abbrev datas : List (List ℕ)
datas = (b'y' ∷ b'z' ∷ []) ∷ (b'x' ∷ []) ∷ []

edited :
    edit_contents write_ope.types write_ope.block_nums write_ope.block_datas
      (map (read_block store.disk) (serials_of store key))
    ≡ some texts
unfolding edit_contents serials_of read_block find bytes_eq bytes_of ghobject_members to_word
edited = refl

length-posted_read : length (posted_read (node 8080) (node 9090) [] read_ope id) ≡ 133
unfolding bytes_of rope_members info_members buffer_members
length-posted_read = refl

sendable_read : IsSendableRead (node 8080) (node 9090) [] read_ope id
sendable_read = record {
  sender = node-IsStorable 8080 (omega arith);
  receivers = (node-IsStorable 9090 (omega arith), tt);
  receiver_count = omega arith;
  read_ope = record {
    ghobj = object-IsStorable;
    blocks = (omega arith, (omega arith, tt));
    block_count = omega arith;
  };
  id = omega arith;
  size = omega (arith, length-posted_read);
}

abbrev result : RopeResult
result = found id (pos 3) read_ope datas

result-IsStorable : IsStorableResult result
result-IsStorable = record {
  ope_id = omega arith;
  ghobj = record {
    name = omega arith;
    owner = omega arith;
    time_stamp = omega arith;
    hash = omega arith;
    generation = omega arith;
    shard_id = omega arith;
  };
  blocks = (omega arith, (omega arith, tt));
  block_count = omega arith;
  datas = (omega arith, (omega arith, tt));
  data_count = omega arith;
}

result_size :
    length (posted_body (node 9090) (node 8080) (result_ty & tuple_end) (result_members result, tt))
    ≡ 108
unfolding bytes_of info_members buffer_members result_members
result_size = refl

result-IsPostable :
    IsPostable (node 9090) (node 8080) (result_ty & tuple_end) (result_members result, tt)
result-IsPostable = record {
  sender = node-IsStorable 9090 (omega arith);
  receiver = node-IsStorable 8080 (omega arith);
  sized = (result-Sized result result-IsStorable, tt);
  exact = (result-Exact result result-IsStorable, tt);
  size = omega (arith, result_size);
}

asyn_read-asyn_write_example :
    (r1 r2 r3 : Request) × (taken node' : Node) × (c' : Client) × (asyn_write
        (node 8080)
        (node 9090 ∷ [])
        write_ope
        id
      ≡ some r1)
    × (accept (pos 0) (pos 7) r1 store ≡ some taken)
    × Runs taken node' 3
    × (asyn_read (node 8080) (node 9090 ∷ []) read_ope id ≡ some r2)
    × (answer_read (node 9090) (pos 3) r2 node' ≡ some r3)
    × (deliver_read (pos 5) r3 fresh ≡ some c')
    × (rope_state_of id c' ≡ (success, found id (pos 5) read_ope datas))
asyn_read-asyn_write_example =
    asyn_read-asyn_write (node 8080) (node 9090) [] write_ope id read_ope id store key key texts
      datas (pos 0) (pos 7) (pos 3) (pos 5) fresh sendable sendable_read result-IsStorable
      result-IsPostable refl at_key at_key at_key store-IsReady edited refl
