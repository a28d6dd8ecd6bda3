-- ===== src/FileStore/Tests.antt =====
-- Writes and reads of blocks at concrete values.
use gdfile_store.Base.{
  ℕ, Bool, ◌+◌, ◌≤◌, ◌≡◌, ◌↔◌, refl, true, false, some, List, [], ◌∷◌, map, ◌>>=◌, arith, bytes_eq,
}
use gdfile_store.Base.Int.{pos, ◌+ℤ◌, to_word}
use gdfile_store.Buffer.{append}
use gdfile_store.Codec.{as_string}
use gdfile_store.Codec.Word.{bytes_of}
use gdfile_store.Codec.Encode.{encode}
use gdfile_store.Codec.Strings.{as_string-encode}
use gdfile_store.Object.{GhObject, Wope, insert, over_write}
use gdfile_store.Object.Members.{ghobject_ty, ghobject_members}
use gdfile_store.Object.Serial.{ghobject-Sized}
use gdfile_store.Object.Sample.{object, node}
use gdfile_store.Object.Protocol.{WopeLog, RopeLog, init, on_journal, on_disk}
use gdfile_store.KeyValue.Assoc.{find, assign}
use gdfile_store.FileStore.Edits.{edit_contents, contents, block_content}
use gdfile_store.FileStore.Kept.{journal_wope-others}
use gdfile_store.FileStore.Progress.{
  Runs, stop, take_up, owed, work, tally, reply_of, runs_answer, runs_end,
}
use gdfile_store.FileStore.WriteRead.{IsReady, write_read}
use gdfile_store.FileStore.Disk.{pick}
use gdfile_store.FileStore.Overtaken.{IsOvertaken, read_block-overtaken}
use gdfile_store.FileStore.{
  Node, Reply, primary_journal_write, primary_disk_write, object_key, serials_of, block_of,
  read_block, new_block, journal_wope, do_wope, handle_wope, do_rope,
}

abbrev version : ℕ → GhObject
version g = record object { generation = pos g }

abbrev key : ℕ → List ℕ
key g = encode ghobject_ty (ghobject_members (version g))

object_key-version : (g : ℕ) → g ≤ 1000 → object_key (version g) ≡ some (key g)
unfolding object_key
object_key-version g h = as_string-encode ghobject_ty (ghobject_members (version g)) (
    ghobject-Sized (version g) record {
      name = omega arith;
      owner = omega arith;
      time_stamp = omega arith;
      hash = omega arith;
      generation = omega arith;
      shard_id = omega arith;
    })

-- From version 5 to version 6: block 1 is overwritten, and a block comes in front.
abbrev wope : Wope
wope = record {
  types = over_write ∷ insert ∷ [];
  block_nums = pos 1 ∷ pos 0 ∷ [];
  block_datas = (b'y' ∷ []) ∷ (b'z' ∷ []) ∷ [];
  ghobj = version 5;
  new_ghobj = version 6;
}

abbrev write_log : WopeLog
write_log = record { ope_id = b'w' ∷ []; wope = wope; from = node 9090; wope_state = init }

abbrev read_log : RopeLog
read_log = record {
  ope_id = b'r' ∷ [];
  rope = record { ghobj = version 6; blocks = pos 2 ∷ pos 0 ∷ [] };
  from = node 9090;
}

-- Version 5 has the blocks 101 and 102, on the disk.
abbrev store : Node
store = record {
  objects = (key 5, pos 101 ∷ pos 102 ∷ []) ∷ [];
  blocks =
      (pos 101, record { serial = pos 101; refer_count = pos 1 })
      ∷ (pos 102, record { serial = pos 102; refer_count = pos 1 })
      ∷ [];
  journal = [];
  disk = (pos 101, b'a' ∷ []) ∷ (pos 102, b'b' ∷ []) ∷ [];
  clock = pos 201 ∷ pos 202 ∷ [];
  sent = [];
  wope_logs = write_log ∷ [];
}

store-IsReady : IsReady wope store (key 5)
unfolding serials_of block_of read_block block_content find bytes_eq bytes_of ghobject_members
    to_word
store-IsReady = record {
  stored = (((0, refl), refl), (((0, refl), refl), tt));
  distinct = ((refl, tt), (tt, tt));
  fresh = ((refl, (refl, tt)), (refl, tt), ((refl, (refl, tt)), tt, tt));
  enough = omega arith;
}

write_read_example :
    (do_wope write_log store >>= λ (node1 : Node).
    do_wope (record write_log { wope_state = on_journal }) node1 >>= λ (node2 : Node).
    do_rope read_log node2)
    ≡ (edit_contents wope.types wope.block_nums wope.block_datas
          (map (read_block store.disk) (serials_of store (key 5)))
        >>= λ (cs : List (List ℕ)). pick cs read_log.rope.blocks >>= λ (datas : List (List ℕ)).
            some (record {
              ope_id = b'r' ∷ [];
              ghobj = version 6;
              blocks = pos 2 ∷ pos 0 ∷ [];
              datas = datas;
            }))
write_read_example =
    write_read write_log read_log store (key 5) (key 6) (object_key-version 5 (omega arith))
      (object_key-version 6 (omega arith)) (object_key-version 6 (omega arith)) store-IsReady refl

-- Blocks "y" and "z" of "z", "a", "y".
written :
    edit_contents wope.types wope.block_nums wope.block_datas ((b'a' ∷ []) ∷ (b'b' ∷ []) ∷ [])
    ≡ some ((b'z' ∷ []) ∷ (b'a' ∷ []) ∷ (b'y' ∷ []) ∷ [])
unfolding edit_contents
written = refl

-- The store when the write is in the journal.
abbrev in_journal : Node
in_journal = record {
  objects = (key 5, pos 101 ∷ pos 102 ∷ []) ∷ (key 6, pos 202 ∷ pos 101 ∷ pos 201 ∷ []) ∷ [];
  blocks =
      (pos 101, record { serial = pos 101; refer_count = pos 2 })
      ∷ (pos 102, record { serial = pos 102; refer_count = pos 1 })
      ∷ (pos 201, record { serial = pos 201; refer_count = pos 1 })
      ∷ (pos 202, record { serial = pos 202; refer_count = pos 1 })
      ∷ [];
  journal = (pos 201, b'y' ∷ []) ∷ (pos 202, b'z' ∷ []) ∷ [];
  disk = (pos 101, b'a' ∷ []) ∷ (pos 102, b'b' ∷ []) ∷ [];
  clock = [];
  sent = [];
  wope_logs = write_log ∷ [];
}

journalled : journal_wope wope store ≡ some in_journal
unfolding journal_wope new_block find assign bytes_eq append bytes_of ghobject_members to_word ◌+ℤ◌
    as_string
journalled = refl

keys_apart : bytes_eq (key 6) (key 5) ≡ false
unfolding bytes_eq bytes_of ghobject_members to_word
keys_apart = refl

journal_wope-others_example :
    (serials_of in_journal (key 5) ≡ serials_of store (key 5))
    × (contents in_journal (serials_of in_journal (key 5))
        ≡ contents store (serials_of store (key 5)))
    × (in_journal.disk ≡ store.disk)
journal_wope-others_example =
    journal_wope-others wope store in_journal (key 5) (key 6) (object_key-version 6 (omega arith))
      journalled keys_apart store-IsReady.fresh

-- The store when the write is done.
abbrev done : Node
done = record in_journal {
  disk =
      (pos 101, b'a' ∷ [])
      ∷ (pos 102, b'b' ∷ [])
      ∷ (pos 202, b'z' ∷ [])
      ∷ (pos 201, b'y' ∷ [])
      ∷ [];
  sent =
      record { target = node 9090; rep_type = primary_journal_write; ope_id = b'w' ∷ [] }
      ∷ record { target = node 9090; rep_type = primary_disk_write; ope_id = b'w' ∷ [] }
      ∷ [];
  wope_logs = [];
}

abbrev taken : Node
taken = record in_journal {
  sent = record { target = node 9090; rep_type = primary_journal_write; ope_id = b'w' ∷ [] } ∷ [];
  wope_logs = record write_log { wope_state = on_journal } ∷ [];
}

abbrev settled : Node
settled = record done {
  sent = taken.sent;
  wope_logs = record write_log { wope_state = on_disk } ∷ [];
}

all_taken_up : Runs store done 3
unfolding handle_wope new_block find assign bytes_eq append bytes_of ghobject_members to_word ◌+ℤ◌
    as_string
all_taken_up =
    take_up {node1 = taken} 0 refl
      (take_up {node1 = settled} 0 refl (take_up {node1 = done} 0 refl stop))

all_answered : tally (λ (r : Reply). true) done.sent ≡ owed (λ (r : Reply). true) store
all_answered = runs_answer all_taken_up (λ (r : Reply). true) refl

runs_end_example : (3 ≡ work store) ↔ (done.wope_logs ≡ [])
runs_end_example = runs_end all_taken_up

-- A second write, from version 6 on to version 7, that is in the journal before the first one's
-- step to the disk leaves the first one's new blocks with two references each.
abbrev next_log : WopeLog
next_log = record {
  ope_id = b'v' ∷ [];
  wope = record {
    types = [];
    block_nums = [];
    block_datas = [];
    ghobj = version 6;
    new_ghobj = version 7;
  };
  from = node 9090;
  wope_state = init;
}

-- The first two blocks of version 6 are then read as "" and "a" instead of "z" and "a", after both
-- writes have been answered as on the disk.
overtaken :
    (handle_wope 0 (record store { wope_logs = write_log ∷ next_log ∷ [] })
      >>= handle_wope 0
      >>= handle_wope 0
      >>= handle_wope 0
      >>= handle_wope 0
      >>= handle_wope 0
      >>= λ (n : Node).
          do_rope
            (record read_log { rope = record { ghobj = version 6; blocks = pos 0 ∷ pos 1 ∷ [] } })
            n)
    ≡ some (record {
      ope_id = b'r' ∷ [];
      ghobj = version 6;
      blocks = pos 0 ∷ pos 1 ∷ [];
      datas = [] ∷ (b'a' ∷ []) ∷ [];
    })
unfolding handle_wope do_rope new_block find assign bytes_eq append bytes_of ghobject_members
    to_word ◌+ℤ◌ as_string
overtaken = refl

-- The store when both writes are in the journal, and when both have been answered.
abbrev both_in_journal : Node
both_in_journal = record in_journal {
  blocks =
      (pos 101, record { serial = pos 101; refer_count = pos 3 })
      ∷ (pos 102, record { serial = pos 102; refer_count = pos 1 })
      ∷ (pos 201, record { serial = pos 201; refer_count = pos 2 })
      ∷ (pos 202, record { serial = pos 202; refer_count = pos 2 })
      ∷ [];
  objects =
      (key 5, pos 101 ∷ pos 102 ∷ [])
      ∷ (key 6, pos 202 ∷ pos 101 ∷ pos 201 ∷ [])
      ∷ (key 7, pos 202 ∷ pos 101 ∷ pos 201 ∷ [])
      ∷ [];
  sent = reply_of primary_journal_write write_log ∷ reply_of primary_journal_write next_log ∷ [];
  wope_logs =
      record write_log { wope_state = on_journal }
      ∷ record next_log { wope_state = on_journal }
      ∷ [];
}

abbrev both_answered : Node
both_answered = record both_in_journal {
  sent =
      reply_of primary_journal_write write_log
      ∷ reply_of primary_journal_write next_log
      ∷ reply_of primary_disk_write write_log
      ∷ reply_of primary_disk_write next_log
      ∷ [];
  wope_logs = [];
}

both_journalled :
    (handle_wope 0 (record store { wope_logs = write_log ∷ next_log ∷ [] }) >>= handle_wope 0)
    ≡ some both_in_journal
unfolding handle_wope new_block find assign bytes_eq append bytes_of ghobject_members to_word ◌+ℤ◌
    as_string
both_journalled = refl

both_taken_up : Runs both_in_journal both_answered 4
unfolding handle_wope new_block find assign bytes_eq append bytes_of ghobject_members to_word ◌+ℤ◌
    as_string
both_taken_up = take_up 0 refl (take_up 0 refl (take_up 0 refl (take_up 0 refl stop)))

two_counts : IsOvertaken (pos 202) both_in_journal
unfolding block_of find
two_counts = record {
  count = 0;
  counts = refl;
  absent = refl;
  fresh = tt;
  named = (λ h. absurd (cc), (λ h. absurd (cc), (λ h. absurd (cc), (λ h. refl, tt))));
}

read_block-overtaken_example :
    (read_block both_answered.disk (pos 202) ≡ [])
    × ((p : Reply → Bool) → owed p both_answered ≡ owed p both_in_journal)
    × (work both_answered + 4 ≡ work both_in_journal)
read_block-overtaken_example = read_block-overtaken (pos 202) refl two_counts both_taken_up
