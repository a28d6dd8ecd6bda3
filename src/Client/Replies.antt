-- ===== src/Client/Replies.antt =====
-- From the reply that a server sends to the state that the client looks up.
use gdfile_store.Base.{
  ℕ, ◌≡◌, ◌≢◌, refl, ap, ◌∙◌, some, List, bytes_eq, bytes_eq_iff, bytes_eq_self, bytes_eq_ne,
  if◌then◌else◌,
}
use gdfile_store.Base.Int.{ℤ}
use gdfile_store.Codec.{tuple_end}
use gdfile_store.KeyValue.Assoc.{find-assign_self, find-assign_other}
use gdfile_store.Object.{InfoForOsd, RopeResult}
use gdfile_store.Object.Members.{◌&◌, result_ty, result_members}
use gdfile_store.Object.Serial.{with_pool}
use gdfile_store.Object.Requests.{IsStorableResult}
use gdfile_store.Object.Protocol.{
  Request, rep_write, rep_read, RepType, primary_journal_write, primary_disk_write, primary_read,
}
use gdfile_store.Object.Protocol.Replies.{
  rep_write_ty, send_rep_write, send_rep_read, ClientJob, rep_write_job, rep_read_job,
  unpack_rep_write, unpack_rep_read,
}
use gdfile_store.Object.Protocol.ReplyDelivery.{
  IsPostable, IsRepType, reply_members, unpack_rep_write-send_rep_write,
  unpack_rep_read-send_rep_read,
}
use gdfile_store.Client.Kept.{wope_state_of-assign}
use gdfile_store.Client.{
  ClientWopeState, on_journal, on_disk, success, Client, wope_state_of, rope_state_of, rope_or_new,
  set_wope, handle_rep_write, handle_rep_read, run_job,
}

-- The state that a reply brings; where there is none, the state that was.
abbrev pub told : RepType → ClientWopeState → ClientWopeState
told primary_journal_write st = on_journal
told primary_disk_write st = on_disk
told _ st = st

set_wope-cases :
    (j k : List ℕ) (st : ClientWopeState) (c : Client)
    → wope_state_of k (set_wope j st c) ≡ (if bytes_eq j k then st else wope_state_of k c)
unfolding set_wope wope_state_of
set_wope-cases j k st c = wope_state_of-assign j k st c.wope_states

told_self :
    (rt : RepType) (k : List ℕ) (c : Client)
    → wope_state_of k (handle_rep_write rt k c) ≡ told rt (wope_state_of k c)
unfolding handle_rep_write
told_self primary_journal_write k c = set_wope-cases k k on_journal c ∙ rw (bytes_eq_self k) refl
told_self primary_disk_write k c = set_wope-cases k k on_disk c ∙ rw (bytes_eq_self k) refl
told_self _ k c = refl

told_other :
    (rt : RepType) (j k : List ℕ) (c : Client)
    → j ≢ k
    → wope_state_of k (handle_rep_write rt j c) ≡ wope_state_of k c
unfolding handle_rep_write
told_other primary_journal_write j k c h =
    set_wope-cases j k on_journal c ∙ rw (bytes_eq_ne j k h) refl
told_other primary_disk_write j k c h = set_wope-cases j k on_disk c ∙ rw (bytes_eq_ne j k h) refl
told_other _ j k c h = refl

-- The reply to a write goes to the client's route "/repWrite". When the job that its handler makes
-- of it has been run, the client finds the write in the state that the reply tells of, and every
-- other write in the state it was in.
pub wope_state_of-reply :
    (from to : InfoForOsd) (rt : RepType) (ope_id : List ℕ) (c : Client)
    → IsRepType rt
    → IsPostable from to rep_write_ty (reply_members from rt ope_id)
    → (r : Request) × (job : ClientJob) × (send_rep_write from to rt ope_id ≡ some r)
      × (r.target ≡ to)
      × (r.route ≡ rep_write)
      × (unpack_rep_write r.body ≡ some job)
      × (wope_state_of ope_id (run_job job c) ≡ told rt (wope_state_of ope_id c))
      × ((k : List ℕ) → ope_id ≢ k → wope_state_of k (run_job job c) ≡ wope_state_of k c)
unfolding run_job
wope_state_of-reply from to rt ope_id c hr h =
    let (r, sent, target, route, unpacked) =
      unpack_rep_write-send_rep_write from to rt ope_id hr h in
    (
      r,
      rep_write_job from rt ope_id,
      sent,
      target,
      route,
      unpacked,
      told_self rt ope_id c,
      λ k ne. told_other rt ope_id k c ne,
    )

-- The reply to a read goes to the client's route "/repRead". When the job that its handler makes of
-- it has been run, the client finds the read in the state `success` with the result that the server
-- sent, every field of it but the pool of its object, and every other read as it was.
pub rope_state_of-reply :
    (from to : InfoForOsd) (result : RopeResult) (c : Client)
    → IsStorableResult result
    → IsPostable from to (result_ty & tuple_end) (result_members result, tt)
    → (pool : ℤ)
    → (r : Request) × (job : ClientJob) × (send_rep_read from to result ≡ some r)
      × (r.target ≡ to)
      × (r.route ≡ rep_read)
      × (unpack_rep_read pool r.body ≡ some job)
      × (rope_state_of result.ope_id (run_job job c)
          ≡ (success, record result { ghobj = with_pool pool result.ghobj }))
      × ((k : List ℕ) → result.ope_id ≢ k → rope_state_of k (run_job job c) ≡ rope_state_of k c)
unfolding run_job handle_rep_read rope_state_of
rope_state_of-reply from to result c hr h pool =
    let (r, sent, target, route, unpacked) =
      unpack_rep_read-send_rep_read from to result hr h pool in
    let id = result.ope_id in
    let got = record result { ghobj = with_pool pool result.ghobj } in
    (
      r,
      rep_read_job from primary_read id got,
      sent,
      target,
      route,
      unpacked,
      ap rope_or_new (find-assign_self bytes_eq id (success, got) c.rope_states (bytes_eq_self id)),
      λ k ne. ap rope_or_new (
          find-assign_other bytes_eq id k (success, got) c.rope_states (bytes_eq_ne id k ne)
            (λ i e. rw ((bytes_eq_iff i id).0 e) (bytes_eq_ne id k ne))),
    )
