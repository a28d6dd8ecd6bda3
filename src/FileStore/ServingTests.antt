-- ===== src/FileStore/ServingTests.antt =====
-- A write and a read that come to the thread and the pools, at concrete values.
use gdfile_store.Base.{ℕ, ◌+◌, ◌≡◌, Bool, refl, List, [], ◌∷◌, bytes_eq}
use gdfile_store.Base.Int.{pos, to_word, ◌+ℤ◌}
use gdfile_store.Buffer.{append}
use gdfile_store.Codec.{as_string}
use gdfile_store.Codec.Word.{bytes_of}
use gdfile_store.Codec.Encode.{encode}
use gdfile_store.KeyValue.Assoc.{find, assign}
use gdfile_store.Object.{InfoForOsd}
use gdfile_store.Object.Members.{ghobject_ty, ghobject_members}
use gdfile_store.Object.Sample.{object, node, write_ope}
use gdfile_store.Object.Protocol.{WopeLog, RopeLog, init, primary_journal_write, primary_disk_write}
use gdfile_store.FileStore.{Node, Reply, new_block}
use gdfile_store.FileStore.Progress.{tally, owed, work, reply_of}
use gdfile_store.FileStore.Mirrored.{queued}
use gdfile_store.FileStore.Arrivals.{
  wopes_of, ropes_of, ends, owed_to, work_of, count_reads, count_answers, reads,
}
use gdfile_store.FileStore.Served.{Serves, stop, go, IsIdle, Serves-answers}
use gdfile_store.FileStore.Serving.{
  Serving, Event, wope_added, rope_added, wopes_handed, ropes_handed, wope_taken, rope_taken,
  wope_done, rope_done, serve,
}

abbrev key : List ℕ
key = encode ghobject_ty (ghobject_members object)

-- The object has one block, 101, and nothing is to be done.
abbrev store : Node
store = record {
  objects = (key, pos 101 ∷ []) ∷ [];
  blocks = (pos 101, record { serial = pos 101; refer_count = pos 1 }) ∷ [];
  journal = [];
  disk = (pos 101, b'a' ∷ []) ∷ [];
  clock = pos 201 ∷ pos 202 ∷ [];
  sent = [];
  wope_logs = [];
}

abbrev write_log : WopeLog
write_log = record { ope_id = b'w' ∷ []; wope = write_ope; from = node 9090; wope_state = init }

abbrev read_log : RopeLog
read_log = record {
  ope_id = b'r' ∷ [];
  rope = record { ghobj = object; blocks = pos 0 ∷ [] };
  from = node 9090;
}

abbrev at_rest : Serving
at_rest = record {
  node = store;
  write_tp = [];
  writing = [];
  rope_logs = [];
  read_tp = [];
  reading = [];
  answered = [];
}

-- The write has been answered as in the journal when the read is done, which looks for the files of
-- the new version's blocks on the disk and so reads "" at block 0.
abbrev events : List Event
events =
    wope_added write_log
    ∷ rope_added read_log
    ∷ wopes_handed
    ∷ wope_taken
    ∷ ropes_handed
    ∷ wope_done 0
    ∷ rope_taken
    ∷ wopes_handed
    ∷ rope_done 0
    ∷ wope_taken
    ∷ wope_done 0
    ∷ wopes_handed
    ∷ wope_taken
    ∷ wope_done 0
    ∷ []

abbrev afterwards : Serving
afterwards = record at_rest {
  node = record {
    objects = (key, pos 201 ∷ pos 202 ∷ []) ∷ [];
    blocks =
        (pos 101, record { serial = pos 101; refer_count = pos 1 })
        ∷ (pos 201, record { serial = pos 201; refer_count = pos 1 })
        ∷ (pos 202, record { serial = pos 202; refer_count = pos 1 })
        ∷ [];
    journal = (pos 201, b'x' ∷ []) ∷ (pos 202, b'y' ∷ b'z' ∷ []) ∷ [];
    disk = (pos 101, b'a' ∷ []) ∷ (pos 201, b'x' ∷ []) ∷ (pos 202, b'y' ∷ b'z' ∷ []) ∷ [];
    clock = [];
    sent = reply_of primary_journal_write write_log ∷ reply_of primary_disk_write write_log ∷ [];
    wope_logs = [];
  };
  answered =
      (
        node 9090,
        record { ope_id = b'r' ∷ []; ghobj = object; blocks = pos 0 ∷ []; datas = [] ∷ [] },
      )
      ∷ [];
}

run : Serves events at_rest afterwards
unfolding serve new_block find assign bytes_eq append bytes_of ghobject_members to_word ◌+ℤ◌
    as_string
run = go (wope_added write_log) refl (
    go (rope_added read_log) refl (
      go wopes_handed refl (
        go wope_taken refl (
          go ropes_handed refl (
            go (wope_done 0) refl (
              go rope_taken refl (
                go wopes_handed refl (
                  go (rope_done 0) refl (
                    go wope_taken refl (
                      go (wope_done 0) refl (
                        go wopes_handed refl
                          (go wope_taken refl (go (wope_done 0) refl stop)))))))))))))

idle : IsIdle afterwards
idle = record {
  wope_logs = refl;
  write_tp = refl;
  writing = refl;
  rope_logs = refl;
  read_tp = refl;
  reading = refl;
}

Serves-answers_example :
    ((p : Reply → Bool)
      → tally p afterwards.node.sent ≡ owed p (queued at_rest) + owed_to p (wopes_of events))
    × ((q : InfoForOsd → List ℕ → Bool)
        → count_answers q afterwards.answered ≡ reads q at_rest + count_reads q (ropes_of events))
    × (ends events ≡ work (queued at_rest) + work_of (wopes_of events))
Serves-answers_example = Serves-answers run idle
