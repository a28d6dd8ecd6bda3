-- ===== src/System.antt =====
-- A client and a node that talk over HTTP: what one puts into a body is what the other's handler
-- gets. The parts are Object.Protocol, FileStore and Client.
pub mod Written
pub mod ReadBack
pub mod Tests
use gdfile_store.Base.{ℕ, ◌≡◌, Option, some, List, ◌>>=◌}
use gdfile_store.Base.Int.{ℤ}
use gdfile_store.Object.{InfoForOsd}
use gdfile_store.Object.Protocol.{Request, handle_req_write, handle_req_read}
use gdfile_store.Object.Protocol.Replies.{
  send_rep_write, unpack_rep_write, send_rep_read, unpack_rep_read,
}
use gdfile_store.FileStore.{Node, Reply, add_wope, do_rope}
use gdfile_store.Client.{Client, run_job}

-- The handler of "/reqWrite" of AsynServer: the write is put into the queue of the file store.
unfoldable pub accept : ℤ → ℤ → Request → Node → Option Node
unfolding handle_req_write add_wope
accept pool new_pool r node = do
  log ← handle_req_write pool new_pool r.body
  some (add_wope log node)

-- A reply of the node `info`, from http_send in do_wope to the end of the job that the client's
-- handler of "/repWrite" left to the client's pool.
unfoldable pub deliver : InfoForOsd → Reply → Client → Option Client
unfolding send_rep_write unpack_rep_write run_job
deliver info reply c = do
  r ← send_rep_write info reply.target reply.rep_type reply.ope_id
  job ← unpack_rep_write r.body
  some (run_job job c)

-- The handler of "/reqRead" of AsynServer, and do_rope with the reply that it sends.
unfoldable pub answer_read : InfoForOsd → ℤ → Request → Node → Option Request
unfolding handle_req_read do_rope send_rep_read
answer_read info pool r node = do
  log ← handle_req_read pool r.body
  result ← do_rope log node
  send_rep_read info log.from result

-- The client's handler of "/repRead", to the end of the job that it left to the client's pool.
unfoldable pub deliver_read : ℤ → Request → Client → Option Client
unfolding unpack_rep_read run_job
deliver_read pool r c = do job ← unpack_rep_read pool r.body; some (run_job job c)
