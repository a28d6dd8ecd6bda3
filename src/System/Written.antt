-- ===== src/System/Written.antt =====
-- A write from the client's call to the state onDisk that the client finds.
use mathlib.Core.Path.{subst}
use gdfile_store.Base.{
  ℕ, ◌≡◌, ◌≢◌, refl, ap, ◌∙◌, some, List, [], ◌∷◌, ◌++◌, append_assoc, ◌>>=◌, >>=-eq-some,
}
use gdfile_store.Base.Int.{ℤ}
use gdfile_store.Object.{InfoForOsd, Wope}
use gdfile_store.Object.Serial.{with_pool}
use gdfile_store.Object.Protocol.{
  Request, WopeLog, RopeLog, init, on_journal, on_disk, RepType, primary_journal_write,
  primary_disk_write, asyn_write,
}
use gdfile_store.Object.Protocol.Delivery.{IsSendable, handle_req_write-asyn_write}
use gdfile_store.Object.Protocol.Replies.{rep_write_ty}
use gdfile_store.Object.Protocol.ReplyDelivery.{IsPostable, IsRepType, reply_members}
use gdfile_store.FileStore.{
  Node, Reply, object_key, serials_of, edit_blocks, journal_wope, settle, add_wope, send_reply,
  wope_step, do_wope, handle_wope, do_rope,
}
use gdfile_store.FileStore.Untouched.{journal_wope-Untouched, settle-Untouched}
use gdfile_store.FileStore.Progress.{Runs, stop, take_up, reply_of}
use gdfile_store.Client.{on_journal, on_disk, Client, wope_state_of, run_job}
use gdfile_store.Client.Replies.{told, wope_state_of-reply}
use gdfile_store.System.{accept, deliver}
use gdfile_store.FileStore.Relabelled.{settle-relabelled, do_rope-alike}

-- The write that is alone in the queue is taken up.
handle_wope_alone :
    (log : WopeLog) (node : Node)
    → node.wope_logs ≡ log ∷ []
    → handle_wope 0 node ≡ do_wope log (record node { wope_logs = [] })
unfolding handle_wope
handle_wope_alone log node e = rw e refl

new_key :
    (wope : Wope) (node node' : Node)
    → journal_wope wope node ≡ some node'
    → (key : List ℕ) × (object_key wope.new_ghobj ≡ some key)
unfolding journal_wope
new_key wope node node' run =
    let (key, e, r) = >>=-eq-some (object_key wope.ghobj) _ run in
    let (made, e', r') =
      >>=-eq-some
        (edit_blocks wope.types wope.block_nums wope.block_datas (serials_of node key) node) _ r in
    let (new, e'', r'') = >>=-eq-some (object_key wope.new_ghobj) _ r' in (new, e'')

-- A write that is alone in the queue, and whose do_WOPE returns, is done in three steps.
module _ (log : WopeLog) (node node1 : Node) (fresh : log.wope_state ≡ init)
    (run : journal_wope log.wope (record node { wope_logs = [] }) ≡ some node1) where
  abbrev log1 : WopeLog
  log1 = record log { wope_state = on_journal }

  abbrev log2 : WopeLog
  log2 = record log { wope_state = on_disk }

  pub three_steps :
      (node' : Node) × Runs (add_wope log (record node { wope_logs = [] })) node' 3
      × (node'.wope_logs ≡ [])
      × (node'.sent
          ≡ node.sent ++ reply_of primary_journal_write log ∷ reply_of primary_disk_write log ∷ [])
      × ((read : RopeLog)
          → (do_wope log (record node { wope_logs = [] }) >>= λ (m : Node).
              do_wope log1 m >>= λ (m' : Node). do_rope read m')
            ≡ do_rope read node')
  unfolding add_wope do_wope wope_step send_reply serials_of
  three_steps =
      let idle : Node = record node { wope_logs = [] } in
      let same = journal_wope-Untouched log.wope idle node1 run in
      let (key, at_key) = new_key log.wope idle node1 run in
      let n2 = add_wope log1 (send_reply primary_journal_write log node1) in
      let e1 : handle_wope 0 (add_wope log idle) ≡ some n2 =
        handle_wope_alone log (add_wope log idle) refl ∙ rw (fresh, run) refl in
      let alone1 : n2.wope_logs ≡ log1 ∷ [] = ap (λ (ls : List WopeLog). ls ++ log1 ∷ []) same.1 in
      let n2' : Node = record n2 { wope_logs = [] } in
      let s3 = settle (serials_of n2' key) n2' in
      let kept = settle-Untouched (serials_of n2' key) n2' in
      let n3 = add_wope log2 s3 in
      let e2 : handle_wope 0 n2 ≡ some n3 = handle_wope_alone log1 n2 alone1 ∙ rw at_key refl in
      let alone2 : n3.wope_logs ≡ log2 ∷ [] = ap (λ (ls : List WopeLog). ls ++ log2 ∷ []) kept.1 in
      let n4 = send_reply primary_disk_write log2 (record n3 { wope_logs = [] }) in
      let e3 : handle_wope 0 n3 ≡ some n4 = handle_wope_alone log2 n3 alone2 in
      (
        n4,
        take_up 0 e1 (take_up 0 e2 (take_up 0 e3 stop)),
        refl,
        ap (λ (rs : List Reply). rs ++ reply_of primary_disk_write log ∷ [])
              (kept.0
                ∙ ap (λ (rs : List Reply). rs ++ reply_of primary_journal_write log ∷ []) same.0)
            ∙ append_assoc node.sent (reply_of primary_journal_write log ∷ []) _,
        λ read.
            let d1 : do_wope log idle ≡ some n2 = rw (fresh, run) refl in
            let last : Node = add_wope log2 (settle (serials_of n2 key) n2) in
            let d2 : do_wope log1 n2 ≡ some last = rw at_key refl in
            let moved = settle-relabelled [] (serials_of n2 key) n2 in
            rw (
              d1,
              d2,
              do_rope-alike read n4 last (ap (λ (m : Node). m.objects) moved)
                  (ap (λ (m : Node). m.disk) moved),
            ),
      )

deliver-reply :
    (from to : InfoForOsd) (rt : RepType) (ope_id : List ℕ) (c : Client)
    → IsRepType rt
    → IsPostable from to rep_write_ty (reply_members from rt ope_id)
    → (c' : Client) × (deliver from (record { target = to; rep_type = rt; ope_id = ope_id }) c
        ≡ some c')
      × (wope_state_of ope_id c' ≡ told rt (wope_state_of ope_id c))
      × ((k : List ℕ) → ope_id ≢ k → wope_state_of k c' ≡ wope_state_of k c)
unfolding deliver
deliver-reply from to rt ope_id c hr h =
    let (r, job, sent, target, route, unpacked, told_to, others) =
      wope_state_of-reply from to rt ope_id c hr h in
    (run_job job c, rw (sent, unpacked) refl, told_to, others)

-- The write as the node's handler unpacks it.
abbrev pub arrived : ℤ → ℤ → Wope → Wope
arrived pool new_pool wope = record wope {
  ghobj = with_pool pool wope.ghobj;
  new_ghobj = with_pool new_pool wope.new_ghobj;
}

-- A write that asynWrite posts to a node with an empty queue, and whose do_WOPE can edit the blocks
-- there, is taken by the handler of "/reqWrite", and after exactly three steps of the node its queue
-- is empty again and it has sent two replies more, the one about the journal and the one about the
-- disk. Delivered in this order they let the client find the write first in the state `on_journal`
-- and then in the state `on_disk`, and every other write in the state it was in before.
pub asyn_write-on_disk :
    (from to : InfoForOsd) (tos : List InfoForOsd) (wope : Wope) (ope_id : List ℕ)
    → IsSendable from to tos wope ope_id
    → IsPostable to from rep_write_ty (reply_members to primary_journal_write ope_id)
    → IsPostable to from rep_write_ty (reply_members to primary_disk_write ope_id)
    → (pool new_pool : ℤ) (node node1 : Node) (c : Client) → node.wope_logs ≡ []
    → journal_wope (arrived pool new_pool wope) node ≡ some node1
    → (r : Request) × (taken node' : Node) × (reply1 reply2 : Reply) × (c1 c2 : Client)
      × (asyn_write from (to ∷ tos) wope ope_id ≡ some r)
      × (accept pool new_pool r node ≡ some taken)
      × Runs taken node' 3
      × (node'.wope_logs ≡ [])
      × (node'.sent ≡ node.sent ++ reply1 ∷ reply2 ∷ [])
      × (deliver to reply1 c ≡ some c1)
      × (wope_state_of ope_id c1 ≡ on_journal)
      × (deliver to reply2 c1 ≡ some c2)
      × (wope_state_of ope_id c2 ≡ on_disk)
      × ((k : List ℕ) → ope_id ≢ k → wope_state_of k c2 ≡ wope_state_of k c)
unfolding accept
asyn_write-on_disk from to tos wope ope_id h p1 p2 pool new_pool node node1 c alone run =
    let (r, sent, target, route, handled) =
      handle_req_write-asyn_write from to tos wope ope_id h pool new_pool in
    let log : WopeLog = record {
      ope_id = ope_id;
      wope = arrived pool new_pool wope;
      from = from;
      wope_state = init;
    } in
    let idle : Node = record node { wope_logs = [] } in
    let same : node ≡ idle = ap (λ (ls : List WopeLog). record node { wope_logs = ls }) alone in
    let (node', steps, empty, replies, reads) =
      three_steps log node node1 refl
        (subst (λ (n : Node). journal_wope log.wope n ≡ some node1) same run) in
    let (c1, d1, at1, others1) = deliver-reply to from primary_journal_write ope_id c tt p1 in
    let (c2, d2, at2, others2) = deliver-reply to from primary_disk_write ope_id c1 tt p2 in
    (
      r,
      add_wope log idle,
      node',
      reply_of primary_journal_write log,
      reply_of primary_disk_write log,
      c1,
      c2,
      sent,
      rw handled (ap (λ (n : Node). some (add_wope log n)) same),
      steps,
      empty,
      replies,
      d1,
      at1,
      d2,
      at2,
      λ k ne. others2 k ne ∙ others1 k ne,
    )
