-- ===== src/Object/Protocol.antt =====
-- The messages of src/deps/connection.cpp, src/deps/ConnectionClient.cpp and
-- src/deps/ConnectionServer.cpp: what a node packs into a request body, and what the handler of
-- the route unpacks. Sending itself (httplib) is outside: a request is what is handed to it.
pub mod Delivery
pub mod ReadDelivery
pub mod Replies
pub mod ReplyDelivery
use gdfile_store.Base.{
  ℕ, ◌≡◌, Bool, true, false, Option, none, some, List, [], ◌∷◌, map, ◌>>=◌, ◌==◌, if◌then◌else◌,
  length, get_elem?,
}
use gdfile_store.Base.Int.{ℤ, pos, to_word, of_word}
use gdfile_store.Buffer.{Buffer, of_content}
use gdfile_store.Codec.{
  Ty, El, scalar, text, tuple_end, tuple_cons, vector, word32, write, read, write_array, read_array,
}
use gdfile_store.Object.{InfoForOsd, Operation, Wope, Rope}
use gdfile_store.Object.Members.{
  ◌&◌, info_ty, info_members, read_info, wope_ty, wope_members, read_wope, rope_ty, rope_members,
  read_rope, operation_ty, operation_members, read_operation, of_bool, to_bool,
}

pub data ReqType : Type 0 where
  write_req read_req write_draw_back primary_recover : ReqType
  other_req : ℕ → ReqType

abbrev pub of_req_type : ReqType → ℕ
of_req_type write_req = 0
of_req_type read_req = 1
of_req_type write_draw_back = 2
of_req_type primary_recover = 3
of_req_type (other_req n) = n

pub data RepType : Type 0 where
  replica_journal_write replica_disk_write primary_journal_write primary_disk_write : RepType
  replica_journal_recover replica_disk_recover primary_journal_recover : RepType
  primary_disk_recover primary_read : RepType
  other_rep : ℕ → RepType

abbrev pub of_rep_type : RepType → ℕ
of_rep_type replica_journal_write = 0
of_rep_type replica_disk_write = 1
of_rep_type primary_journal_write = 2
of_rep_type primary_disk_write = 3
of_rep_type replica_journal_recover = 4
of_rep_type replica_disk_recover = 5
of_rep_type primary_journal_recover = 6
of_rep_type primary_disk_recover = 7
of_rep_type primary_read = 8
of_rep_type (other_rep n) = n

abbrev pub rep_types : List RepType
rep_types =
    replica_journal_write ∷ replica_disk_write ∷ primary_journal_write ∷ primary_disk_write
    ∷ replica_journal_recover ∷ replica_disk_recover ∷ primary_journal_recover
    ∷ primary_disk_recover ∷ primary_read ∷ []

abbrev pub to_rep_type_at : ℕ → Option RepType → RepType
to_rep_type_at n none = other_rep n
to_rep_type_at n (some rt) = rt

-- Any number of the underlying type can come in.
unfoldable pub to_rep_type : ℕ → RepType
to_rep_type n = to_rep_type_at n (get_elem? rep_types n)

pub data WopeState : Type 0 where
  other init on_journal on_disk : WopeState

pub record WopeLog : Type 0 where
  pub ope_id : List ℕ
  pub wope : Wope
  pub from : InfoForOsd
  pub wope_state : WopeState

pub record RopeLog : Type 0 where
  pub ope_id : List ℕ
  pub rope : Rope
  pub from : InfoForOsd

pub data Route : Type 0 where
  req_write req_read rep_write rep_read : Route

pub record Request : Type 0 where
  pub target : InfoForOsd
  pub route : Route
  pub body : List ℕ

-- MultiWrite into a new buffer, and its bytes.
unfoldable pub multi_write : (t : Ty) → El t → Option (List ℕ)
multi_write t v = do b ← write t (of_content []) v; some b.content

abbrev pub buffer_ty : Ty
buffer_ty = text & scalar 4 & tuple_end

unfoldable pub buffer_members : Buffer → El buffer_ty
buffer_members b = (b.content, (to_word word32 b.offset, tt))

unfoldable pub read_buffer : El buffer_ty → Buffer
read_buffer e = record { content = e.0; offset = of_word word32 e.1.0 }

abbrev pub parcel_ty : Ty
parcel_ty = info_ty & info_ty & buffer_ty & tuple_end

-- The body that http_send posts.
unfoldable pub http_body : InfoForOsd → InfoForOsd → Buffer → Option (List ℕ)
unfolding multi_write info_members buffer_members
http_body from to content =
    multi_write parcel_ty (info_members from, (info_members to, (buffer_members content, tt)))

abbrev pub req_write_ty : Ty
req_write_ty = info_ty & vector info_ty & wope_ty & scalar 4 & text & tuple_end

-- AsynClient::asynWrite up to the call of http_send. tos[0] must be there.
unfoldable pub asyn_write : InfoForOsd → List InfoForOsd → Wope → List ℕ → Option Request
unfolding http_body wope_members
asyn_write from [] wope ope_id = none
asyn_write from (to ∷ tos) wope ope_id = do
  packed ← multi_write req_write_ty (
    info_members from,
    (map info_members (to ∷ tos), (wope_members wope, (of_req_type write_req, (ope_id, tt)))),
  )
  body ← http_body from to (of_content packed)
  some (record { target = to; route = req_write; body = body })

abbrev pub req_read_ty : Ty
req_read_ty = info_ty & vector info_ty & rope_ty & scalar 4 & text & tuple_end

-- AsynClient::asynRead up to the call of http_send.
unfoldable pub asyn_read : InfoForOsd → List InfoForOsd → Rope → List ℕ → Option Request
unfolding http_body rope_members
asyn_read from [] rope ope_id = none
asyn_read from (to ∷ tos) rope ope_id = do
  packed ← multi_write req_read_ty (
    info_members from,
    (map info_members (to ∷ tos), (rope_members rope, (of_req_type read_req, (ope_id, tt)))),
  )
  body ← http_body from to (of_content packed)
  some (record { target = to; route = req_read; body = body })

-- `Read` three times: the sender, the receiver and the buffer that every body carries.
unfoldable pub unpack : List ℕ → Option Buffer
unfolding read_buffer
unpack body = do
  (from, b) ← read info_ty (of_content body)
  (to, b') ← read info_ty b
  (content, b'') ← read buffer_ty b'
  some (read_buffer content)

-- The handler of "/reqWrite" of AsynServer, up to add_wope. The pools of the two objects are not
-- read: they are what the memory held.
unfoldable pub handle_req_write : ℤ → ℤ → List ℕ → Option WopeLog
unfolding unpack read_info read_wope
handle_req_write pool new_pool body = do
  b ← unpack body
  (from, b1) ← read info_ty b
  (tos, b2) ← read (vector info_ty) b1
  (wope, b3) ← read wope_ty b2
  (rt, b4) ← read (scalar 4) b3
  (ope_id, b5) ← read text b4
  some (record {
    ope_id = ope_id;
    wope = read_wope pool new_pool wope;
    from = read_info from;
    wope_state = init;
  })

-- The handler of "/reqRead", up to add_rope.
unfoldable pub handle_req_read : ℤ → List ℕ → Option RopeLog
unfolding unpack read_info read_rope
handle_req_read pool body = do
  b ← unpack body
  (from, b1) ← read info_ty b
  (tos, b2) ← read (vector info_ty) b1
  (rope, b3) ← read rope_ty b2
  (rt, b4) ← read (scalar 4) b3
  (ope_id, b5) ← read text b4
  some (record { ope_id = ope_id; rope = read_rope pool rope; from = read_info from })
