-- ===== src/Object/Protocol/Replies.antt =====
-- The replies: what do_wope and do_rope of src/GDFileStore.cpp pack, and what the handlers of
-- src/deps/ConnectionClient.cpp unpack and hand to the client's pool.
use gdfile_store.Base.{ℕ, Option, some, List, ◌>>=◌}
use gdfile_store.Base.Int.{ℤ}
use gdfile_store.Buffer.{of_content}
use gdfile_store.Codec.{Ty, scalar, text, tuple_end, read}
use gdfile_store.Object.{InfoForOsd, RopeResult}
use gdfile_store.Object.Members.{
  ◌&◌, info_ty, info_members, read_info, result_ty, result_members, read_result,
}
use gdfile_store.Object.Protocol.{
  Request, rep_write, rep_read, RepType, of_rep_type, to_rep_type, primary_read, multi_write,
  http_body, unpack,
}

abbrev pub rep_write_ty : Ty
rep_write_ty = info_ty & scalar 4 & text & tuple_end

-- The replies of do_wope, up to the call of http_send.
unfoldable pub send_rep_write : InfoForOsd → InfoForOsd → RepType → List ℕ → Option Request
unfolding http_body multi_write
send_rep_write from to rt ope_id = do
  packed ← multi_write rep_write_ty (info_members from, (of_rep_type rt, (ope_id, tt)))
  body ← http_body from to (of_content packed)
  some (record { target = to; route = rep_write; body = body })

-- The reply of do_rope. MultiWrite of one argument writes that argument.
unfoldable pub send_rep_read : InfoForOsd → InfoForOsd → RopeResult → Option Request
unfolding http_body multi_write result_members
send_rep_read from to result = do
  packed ← multi_write (result_ty & tuple_end) (result_members result, tt)
  body ← http_body from to (of_content packed)
  some (record { target = to; route = rep_read; body = body })

-- What a handler of the client leaves to the pool: a call of handleRepWrite or of handleRepRead.
pub data ClientJob : Type 0 where
  rep_write_job : InfoForOsd → RepType → List ℕ → ClientJob
  rep_read_job : InfoForOsd → RepType → List ℕ → RopeResult → ClientJob

-- The handler of "/repWrite" of AsynClient.
unfoldable pub unpack_rep_write : List ℕ → Option ClientJob
unfolding unpack read_info to_rep_type
unpack_rep_write body = do
  b ← unpack body
  (from, b1) ← read info_ty b
  (rt, b2) ← read (scalar 4) b1
  (ope_id, b3) ← read text b2
  some (rep_write_job (read_info from) (to_rep_type rt) ope_id)

-- The handler of "/repRead". The sender is the one that http_send names.
unfoldable pub unpack_rep_read : ℤ → List ℕ → Option ClientJob
unfolding unpack read_info read_result
unpack_rep_read pool body = do
  (from, b0) ← read info_ty (of_content body)
  b ← unpack body
  (result, b1) ← read result_ty b
  some (
      rep_read_job (read_info from) primary_read (read_result pool result).ope_id
        (read_result pool result))
