-- ===== src/System/ReadBack.antt =====
-- A client that reads the version that it wrote.
use mathlib.Core.Path.{subst}
use gdfile_store.Base.{ℕ, ◌≡◌, refl, sym, ap, ◌∙◌, some, List, [], ◌∷◌, map, >>=-eq-some}
use gdfile_store.Base.Int.{ℤ}
use gdfile_store.Codec.{tuple_end}
use gdfile_store.Object.{InfoForOsd, Wope, Rope, RopeResult}
use gdfile_store.Object.Members.{◌&◌, result_ty, result_members}
use gdfile_store.Object.Serial.{with_pool}
use gdfile_store.Object.Requests.{IsStorableResult}
use gdfile_store.Object.Protocol.{
  Request, WopeLog, RopeLog, init, asyn_write, asyn_read, handle_req_read,
}
use gdfile_store.Object.Protocol.Delivery.{IsSendable, handle_req_write-asyn_write}
use gdfile_store.Object.Protocol.ReadDelivery.{IsSendableRead, handle_req_read-asyn_read}
use gdfile_store.Object.Protocol.ReplyDelivery.{IsPostable}
use gdfile_store.FileStore.{
  Node, object_key, serials_of, read_block, journal_wope, add_wope, wope_step, do_wope, do_rope,
}
use gdfile_store.FileStore.Edits.{edit_contents}
use gdfile_store.FileStore.Disk.{pick}
use gdfile_store.FileStore.Progress.{Runs}
use gdfile_store.FileStore.WriteRead.{IsReady, write_read}
use gdfile_store.Client.{success, Client, rope_state_of, run_job}
use gdfile_store.Client.Replies.{rope_state_of-reply}
use gdfile_store.System.{accept, answer_read, deliver_read}
use gdfile_store.FileStore.Relabelled.{object_key-with_pool}
use gdfile_store.System.Written.{arrived, three_steps}

-- The result of a read that found `datas`.
abbrev pub found : List ℕ → ℤ → Rope → List (List ℕ) → RopeResult
found ope_id pool rope datas = record {
  ope_id = ope_id;
  ghobj = with_pool pool rope.ghobj;
  blocks = rope.blocks;
  datas = datas;
}

journal_wope-do_wope :
    (log : WopeLog) (node node' : Node)
    → log.wope_state ≡ init
    → do_wope log node ≡ some node'
    → (node1 : Node) × (journal_wope log.wope node ≡ some node1)
unfolding do_wope wope_step
journal_wope-do_wope log node node' at_init run =
    let (node1, e, r) = >>=-eq-some (journal_wope log.wope node) _ (rw at_init at run) in (node1, e)

-- The node that holds the version a write starts from, its queue empty, and what the write and a
-- read of the new version are to give.
module _ (log : WopeLog) (read : RopeLog) (node : Node) (key new_key : List ℕ)
    (datas texts : List (List ℕ)) (at_init : log.wope_state ≡ init)
    (at_key : object_key log.wope.ghobj ≡ some key)
    (at_new : object_key log.wope.new_ghobj ≡ some new_key)
    (reads_new : object_key read.rope.ghobj ≡ some new_key)
    (ready : IsReady log.wope (record node { wope_logs = [] }) key)
    (edited : edit_contents log.wope.types log.wope.block_nums log.wope.block_datas
        (map (read_block node.disk) (serials_of (record node { wope_logs = [] }) key))
      ≡ some texts)
    (picked : pick texts read.rope.blocks ≡ some datas) where
  abbrev idle : Node
  idle = record node { wope_logs = [] }

  do_rope-three_steps :
      (node' : Node) × Runs (add_wope log (record node { wope_logs = [] })) node' 3
      × (do_rope read node'
          ≡ some (record {
            ope_id = read.ope_id;
            ghobj = read.rope.ghobj;
            blocks = read.rope.blocks;
            datas = datas;
          }))
  do_rope-three_steps =
      let all =
        write_read log read idle key new_key at_key at_new reads_new ready at_init
        ∙ rw (edited, picked) refl in
      let (n2, first, others) = >>=-eq-some (do_wope log idle) _ all in
      let (node1, run) = journal_wope-do_wope log idle n2 at_init first in
      let (node', steps, empty, replies, reads) = three_steps log node node1 at_init run in
      (node', steps, sym (reads read) ∙ all)

answered :
    (from to : InfoForOsd) (ope_id : List ℕ) (rope : Rope) (read_pool own_pool : ℤ)
    (datas : List (List ℕ)) (r : Request) (node : Node) (c : Client)
    → IsStorableResult (found ope_id read_pool rope datas)
    → IsPostable to from
        (result_ty & tuple_end)
        (result_members (found ope_id read_pool rope datas), tt)
    → handle_req_read read_pool r.body
      ≡ some (record {
        ope_id = ope_id;
        rope = record rope { ghobj = with_pool read_pool rope.ghobj };
        from = from;
      })
    → do_rope
        (record {
          ope_id = ope_id;
          rope = record rope { ghobj = with_pool read_pool rope.ghobj };
          from = from;
        })
        node
      ≡ some (found ope_id read_pool rope datas)
    → (r' : Request) × (c' : Client) × (answer_read to read_pool r node ≡ some r')
      × (deliver_read own_pool r' c ≡ some c')
      × (rope_state_of ope_id c' ≡ (success, found ope_id own_pool rope datas))
unfolding answer_read deliver_read
answered from to ope_id rope read_pool own_pool datas r node c hs hp handled done =
    let (r', job, sent, target, route, unpacked, found_by, others) =
      rope_state_of-reply to from (found ope_id read_pool rope datas) c hs hp own_pool in
    (r', run_job job c, rw (handled, done) sent, rw unpacked refl, found_by)

-- A client writes with asynWrite to a node with an empty queue, and then reads the version that it
-- made with asynRead. The blocks of the version it started from are on the disk and counted, and the
-- clock has a new number for every edit. Where the edits can be made to the texts of those blocks,
-- and the read asks for blocks of the outcome, the node is done with the write in three steps, and
-- then answers the read; when the reply has been handled the client finds the read in the state
-- `success` with the texts of the edited blocks at the places that it asked for.
pub asyn_read-asyn_write :
    (from to : InfoForOsd) (tos : List InfoForOsd) (wope : Wope) (wope_id : List ℕ) (rope : Rope)
    (rope_id : List ℕ) (node : Node) (key new_key : List ℕ) (texts datas : List (List ℕ))
    (pool new_pool read_pool own_pool : ℤ) (c : Client)
    → IsSendable from to tos wope wope_id
    → IsSendableRead from to tos rope rope_id
    → IsStorableResult (found rope_id read_pool rope datas)
    → IsPostable to from
        (result_ty & tuple_end)
        (result_members (found rope_id read_pool rope datas), tt)
    → node.wope_logs ≡ []
    → object_key wope.ghobj ≡ some key
    → object_key wope.new_ghobj ≡ some new_key
    → object_key rope.ghobj ≡ some new_key
    → IsReady wope node key
    → edit_contents wope.types wope.block_nums wope.block_datas
        (map (read_block node.disk) (serials_of node key))
      ≡ some texts
    → pick texts rope.blocks ≡ some datas
    → (r1 r2 r3 : Request) × (taken node' : Node) × (c' : Client) × (asyn_write from
          (to ∷ tos)
          wope
          wope_id
        ≡ some r1)
      × (accept pool new_pool r1 node ≡ some taken)
      × Runs taken node' 3
      × (asyn_read from (to ∷ tos) rope rope_id ≡ some r2)
      × (answer_read to read_pool r2 node' ≡ some r3)
      × (deliver_read own_pool r3 c ≡ some c')
      × (rope_state_of rope_id c' ≡ (success, found rope_id own_pool rope datas))
unfolding accept
asyn_read-asyn_write from to tos wope wope_id rope rope_id node key new_key texts datas pool
      new_pool read_pool own_pool c hw hr hs hp alone at_key at_new reads_new ready edited picked =
    let (r1, sent1, target1, route1, handled1) =
      handle_req_write-asyn_write from to tos wope wope_id hw pool new_pool in
    let (r2, sent2, target2, route2, handled2) =
      handle_req_read-asyn_read from to tos rope rope_id hr read_pool in
    let log : WopeLog = record {
      ope_id = wope_id;
      wope = arrived pool new_pool wope;
      from = from;
      wope_state = init;
    } in
    let read : RopeLog = record {
      ope_id = rope_id;
      rope = record rope { ghobj = with_pool read_pool rope.ghobj };
      from = from;
    } in
    let same : node ≡ record node { wope_logs = [] } =
      ap (λ (ls : List WopeLog). record node { wope_logs = ls }) alone in
    let ready' : IsReady log.wope node key = record {
      stored = ready.stored;
      distinct = ready.distinct;
      fresh = ready.fresh;
      enough = ready.enough;
    } in
    let (node', steps, done) =
      do_rope-three_steps log read node key new_key datas texts refl
        (object_key-with_pool pool wope.ghobj ∙ at_key)
        (object_key-with_pool new_pool wope.new_ghobj ∙ at_new)
        (object_key-with_pool read_pool rope.ghobj ∙ reads_new)
        (subst (λ (n : Node). IsReady log.wope n key) same ready')
        (ap
            (λ (n : Node).
              edit_contents wope.types wope.block_nums wope.block_datas
                (map (read_block node.disk) (serials_of n key)))
            (sym same)
          ∙ edited)
        picked in
    let (r3, c', answer, delivered, found_by) =
      answered from to rope_id rope read_pool own_pool datas r2 node' c hs hp handled2 done in
    (
      r1,
      r2,
      r3,
      add_wope log (record node { wope_logs = [] }),
      node',
      c',
      sent1,
      rw handled1 (ap (λ (n : Node). some (add_wope log n)) same),
      steps,
      sent2,
      answer,
      delivered,
      found_by,
    )
