-- ===== src/Client/Tests.antt =====
-- A client with a write and a read, at concrete values.
use gdfile_store.Base.{◌≡◌, ◌≢◌, refl, false, some, List, [], ◌∷◌, ℕ, arith, length, All, bytes_eq}
use gdfile_store.Base.Int.{pos}
use gdfile_store.Codec.{tuple_end}
use gdfile_store.Codec.Word.{bytes_of}
use gdfile_store.KeyValue.Assoc.{find, assign}
use gdfile_store.Object.{RopeResult}
use gdfile_store.Object.Members.{◌&◌, result_ty, result_members, info_members}
use gdfile_store.Object.Serial.{with_pool}
use gdfile_store.Object.Requests.{
  IsStorableResult, info-Sized, info-Exact, result-Sized, result-Exact,
}
use gdfile_store.Object.Sample.{object, node, object-IsStorable, node-IsStorable}
use gdfile_store.Object.Protocol.{
  Request, rep_write, rep_read, primary_disk_write, primary_journal_write, buffer_members, RepType,
}
use gdfile_store.Object.Protocol.Replies.{
  rep_write_ty, send_rep_write, send_rep_read, ClientJob, rep_write_job, unpack_rep_write,
  unpack_rep_read,
}
use gdfile_store.Object.Protocol.ReplyDelivery.{IsPostable, posted_body, reply_members}
use gdfile_store.Client.Kept.{Runs, go, stop}
use gdfile_store.Client.Replies.{told, wope_state_of-reply, rope_state_of-reply}
use gdfile_store.Client.Waits.{wait_misses, wait_ends, IsElsewhere}
use gdfile_store.Client.{
  on_journal, on_disk, success, wait_wope_be, wait_wope_be_for, wope_answer, Waiting, Client,
  take_job, enter, resume, step, wope_state_of, rope_state_of, run_job, time_out,
}

abbrev id : List ℕ
id = b'i' ∷ b'd' ∷ []

abbrev fresh : Client
fresh = record { wope_states = []; rope_states = []; jobs = []; waiting = []; answers = [] }

abbrev on_the_disk : RepType
on_the_disk = primary_disk_write

disk_size :
    length
      (posted_body (node 9090) (node 8080) rep_write_ty (reply_members (node 9090) on_the_disk id))
    ≡ 66
unfolding bytes_of info_members buffer_members
disk_size = refl

disk_reply-IsPostable :
    IsPostable (node 9090) (node 8080) rep_write_ty (reply_members (node 9090) on_the_disk id)
disk_reply-IsPostable = record {
  sender = node-IsStorable 9090 (omega arith);
  receiver = node-IsStorable 8080 (omega arith);
  sized = (info-Sized _ (node-IsStorable 9090 (omega arith)), (tt, (omega arith, tt)));
  exact = (info-Exact _ (node-IsStorable 9090 (omega arith)), (omega arith, (tt, tt)));
  size = omega (arith, disk_size);
}

wope_state_of-reply_example :
    (r : Request) × (job : ClientJob) × (send_rep_write (node 9090) (node 8080) on_the_disk id
      ≡ some r)
    × (r.target ≡ node 8080)
    × (r.route ≡ rep_write)
    × (unpack_rep_write r.body ≡ some job)
    × (wope_state_of id (run_job job fresh) ≡ told on_the_disk (wope_state_of id fresh))
    × ((k : List ℕ) → id ≢ k → wope_state_of k (run_job job fresh) ≡ wope_state_of k fresh)
wope_state_of-reply_example =
    wope_state_of-reply (node 9090) (node 8080) on_the_disk id fresh tt disk_reply-IsPostable

abbrev read_result_of_two : RopeResult
read_result_of_two = record {
  ope_id = id;
  ghobj = object;
  blocks = pos 0 ∷ pos 2 ∷ [];
  datas = (b'x' ∷ []) ∷ (b'y' ∷ b'z' ∷ []) ∷ [];
}

result-IsStorable : IsStorableResult read_result_of_two
result-IsStorable = record {
  ope_id = omega arith;
  ghobj = object-IsStorable;
  blocks = (omega arith, (omega arith, tt));
  block_count = omega arith;
  datas = (omega arith, (omega arith, tt));
  data_count = omega arith;
}

result_size :
    length (
      posted_body
        (node 9090)
        (node 8080)
        (result_ty & tuple_end)
        (result_members read_result_of_two, tt))
    ≡ 108
unfolding bytes_of info_members buffer_members result_members
result_size = refl

result-IsPostable :
    IsPostable
      (node 9090)
      (node 8080)
      (result_ty & tuple_end)
      (result_members read_result_of_two, tt)
result-IsPostable = record {
  sender = node-IsStorable 9090 (omega arith);
  receiver = node-IsStorable 8080 (omega arith);
  sized = (result-Sized read_result_of_two result-IsStorable, tt);
  exact = (result-Exact read_result_of_two result-IsStorable, tt);
  size = omega (arith, result_size);
}

rope_state_of-reply_example :
    (r : Request) × (job : ClientJob) × (send_rep_read (node 9090) (node 8080) read_result_of_two
      ≡ some r)
    × (r.target ≡ node 8080)
    × (r.route ≡ rep_read)
    × (unpack_rep_read (pos 7) r.body ≡ some job)
    × (rope_state_of id (run_job job fresh)
        ≡ (success, record read_result_of_two { ghobj = with_pool (pos 7) object }))
    × ((k : List ℕ) → id ≢ k → rope_state_of k (run_job job fresh) ≡ rope_state_of k fresh)
rope_state_of-reply_example =
    rope_state_of-reply (node 9090) (node 8080) read_result_of_two fresh result-IsStorable
      result-IsPostable (pos 7)

-- A call waits for the disk, and the reply is there.
abbrev expecting : Client
expecting = record fresh {
  wope_states = (id, on_journal) ∷ [];
  jobs = rep_write_job (node 9090) primary_disk_write id ∷ [];
  waiting = record { call = wait_wope_be id on_disk; awake = false } ∷ [];
}

abbrev served : Client
served = record fresh {
  wope_states = (id, on_disk) ∷ [];
  answers = (wait_wope_be id on_disk, wope_answer on_disk) ∷ [];
}

serving : Runs (take_job 0 ∷ resume 0 ∷ []) expecting served
unfolding step find assign bytes_eq
serving = go (take_job 0) refl (go (resume 0) refl stop)

wait_ends_example : All (λ (w : Waiting). w.call ≢ wait_wope_be id on_disk) served.waiting
wait_ends_example =
    wait_ends id (node 9090) 0 expecting served (resume 0 ∷ []) refl tt (tt, tt) serving tt

-- A call that waits for the journal comes too late; the same call with a time limit returns.
abbrev too_late : Client
too_late = record served {
  waiting = record { call = wait_wope_be id on_journal; awake = false } ∷ [];
  answers =
      (wait_wope_be id on_disk, wope_answer on_disk)
      ∷ (wait_wope_be_for id on_journal, wope_answer on_disk)
      ∷ [];
}

missing :
    Runs
      (enter (wait_wope_be id on_journal)
        ∷ enter (wait_wope_be_for id on_journal)
        ∷ time_out 1
        ∷ [])
      served
      too_late
unfolding step find assign bytes_eq
missing =
    go (enter (wait_wope_be id on_journal)) refl
      (go (enter (wait_wope_be_for id on_journal)) refl (go (time_out 1) refl stop))

wait_misses_example : All (IsElsewhere id on_journal) too_late.answers
unfolding wope_state_of find bytes_eq
wait_misses_example =
    wait_misses id on_journal served too_late _ refl (record { state = refl; calm = tt })
      (tt, (tt, (tt, tt))) missing (λ e. absurd (cc), tt)

-- The pool may take up the reply about the disk before the one about the journal: then the client
-- finds the write on the journal for good.
abbrev both_replies : Client
both_replies = record fresh {
  jobs =
      rep_write_job (node 9090) primary_journal_write id
      ∷ rep_write_job (node 9090) primary_disk_write id
      ∷ [];
}

overtaken :
    Runs
      (take_job 1 ∷ take_job 0 ∷ [])
      both_replies
      (record fresh { wope_states = (id, on_journal) ∷ [] })
unfolding step find assign bytes_eq
overtaken = go (take_job 1) refl (go (take_job 0) refl stop)
