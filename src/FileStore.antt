-- ===== src/FileStore.antt =====
-- src/GDFileJournal.cpp (do_WOPE) and src/GDFileStore.cpp: an object is a list of block numbers, a
-- write makes a new list for the object's new version, and moves on from the journal to the disk.
pub mod Edits
pub mod Progress
pub mod Versions
pub mod Shape
pub mod Kept
pub mod Live
pub mod Counts
pub mod WriteRead
pub mod Disk
pub mod Untouched
pub mod Relabelled
pub mod Serving
pub mod Mirrored
pub mod Arrivals
pub mod Served
pub mod ServingTests
pub mod Overtaken
pub mod Tests
use gdfile_store.Base.{
  ℕ, zero, suc, ◌+◌, ◌≡◌, Bool, true, false, Option, none, some, List, [], ◌∷◌, ◌++◌, ◌>>=◌, leb,
  ltb, bytes_eq, if◌then◌else◌, length, take, drop, get_elem?,
}
use gdfile_store.Base.Int.{ℤ, pos, negsuc, ◌+ℤ◌, eqb_ℤ}
use gdfile_store.Codec.{as_string}
use gdfile_store.Object.{
  GhObject, InfoForOsd, OpeType, Wope, Rope, RopeResult, ReferedBlock, insert, delete, over_write,
  other_ope,
}
use gdfile_store.Object.Members.{ghobject_ty, ghobject_members}
use gdfile_store.Object.Protocol.{
  WopeLog, RopeLog, WopeState, other, init, on_journal, on_disk, RepType, primary_journal_write,
  primary_disk_write,
}
use gdfile_store.KeyValue.Assoc.{find, assign}

-- A body for the route "/repWrite".
pub record Reply : Type 0 where
  pub target : InfoForOsd
  pub rep_type : RepType
  pub ope_id : List ℕ

-- The attributes of objects and of blocks, the files under the two roots for blocks, by number,
-- the readings of the system clock to come, what was sent, and the queue of writes.
pub record Node : Type 0 where
  pub objects : List (List ℕ × List ℤ)
  pub blocks : List (ℤ × ReferedBlock)
  pub journal : List (ℤ × List ℕ)
  pub disk : List (ℤ × List ℕ)
  pub clock : List ℤ
  pub sent : List Reply
  pub wope_logs : List WopeLog

-- Get_Key of an object without the header of its type: GHObject_t has no GetKey.
unfoldable pub object_key : GhObject → Option (List ℕ)
object_key g = as_string ghobject_ty (ghobject_members g)

abbrev pub or_default : {A : Type 0} → A → Option A → A
or_default a none = a
or_default a (some b) = b

-- GetAttr of an object, with the empty list where there is none.
unfoldable pub serials_of : Node → List ℕ → List ℤ
serials_of node key = or_default [] (find bytes_eq key node.objects)

-- GetAttr of a block, with ReferedBlock() where there is none.
unfoldable pub block_of : Node → ℤ → ReferedBlock
block_of node serial =
    or_default (record { serial = pos 0; refer_count = pos 0 }) (find eqb_ℤ serial node.blocks)

-- ReadFile gives "" where there is no file.
unfoldable pub read_block : List (ℤ × List ℕ) → ℤ → List ℕ
read_block files serial = or_default [] (find eqb_ℤ serial files)

-- addNewReferedBlock under the journal's root, and SetAttr of the new block.
abbrev pub new_block_at : List ℕ → Node → List ℤ → Option (ℤ × Node)
new_block_at content node [] = none
new_block_at content node (serial ∷ clock) = some (
  serial,
  record node {
    blocks = assign eqb_ℤ serial (record { serial = serial; refer_count = pos 0 }) node.blocks;
    journal = assign eqb_ℤ serial content node.journal;
    clock = clock;
  },
)

unfoldable pub new_block : List ℕ → Node → Option (ℤ × Node)
new_block content node = new_block_at content node node.clock

-- How often `p++` is done for a block number.
abbrev pub steps_to : ℤ → ℕ
steps_to (pos n) = n
steps_to (negsuc n) = 0

-- The body of the first loop of do_WOPE, with the list's iterator behind `k` elements.
unfoldable pub edit_at : OpeType → ℕ → List ℕ → List ℤ → Node → Option (List ℤ × Node)
unfolding new_block
edit_at delete k content serials node =
    if ltb k (length serials) then some (take k serials ++ drop (suc k) serials, node) else none
edit_at insert k content serials node = do
  (serial, node') ← new_block content node
  if leb k (length serials) then some (take k serials ++ serial ∷ drop k serials, node') else none
edit_at over_write k content serials node = do
  (serial, node') ← new_block content node
  if ltb k (length serials)
      then some (take k serials ++ serial ∷ drop (suc k) serials, node')
      else none
edit_at (other_ope n) k content serials node =
    if leb k (length serials) then some (serials, node) else none

-- The loop runs over block_nums; the other vectors must be as long.
unfoldable pub edit_blocks :
    List OpeType → List ℤ → List (List ℕ) → List ℤ → Node → Option (List ℤ × Node)
unfolding edit_at
edit_blocks types [] datas serials node = some (serials, node)
edit_blocks (t ∷ types) (n ∷ nums) (d ∷ datas) serials node = do
  (serials', node') ← edit_at t (steps_to n) d serials node
  edit_blocks types nums datas serials' node'
edit_blocks _ (n ∷ nums) _ serials node = none

abbrev pub counted : ReferedBlock → ReferedBlock
counted rb = record rb { refer_count = rb.refer_count +ℤ pos 1 }

-- The second loop of do_WOPE.
unfoldable pub count_up : List ℤ → Node → Node
unfolding block_of
count_up [] node = node
count_up (serial ∷ serials) node =
    count_up serials
      (record node { blocks = assign eqb_ℤ serial (counted (block_of node serial)) node.blocks })

-- Journal::do_WOPE
unfoldable pub journal_wope : Wope → Node → Option Node
unfolding object_key serials_of edit_blocks count_up
journal_wope wope node = do
  key ← object_key wope.ghobj
  (serials, node') ←
      edit_blocks wope.types wope.block_nums wope.block_datas (serials_of node key) node
  new_key ← object_key wope.new_ghobj
  let node'' = count_up serials node'
  some (record node'' { objects = assign bytes_eq new_key serials node''.objects })

-- The file of a block is copied to the disk's root. A missing file raises, and that is caught.
abbrev pub copied : ℤ → Option (List ℕ) → Node → Node
copied serial none node = node
copied serial (some content) node = record node { disk = assign eqb_ℤ serial content node.disk }

unfoldable pub settle_block : ReferedBlock → Node → Node
settle_block rb node =
    if eqb_ℤ rb.refer_count (pos 1)
    then copied rb.serial (find eqb_ℤ rb.serial node.journal) node
    else node

unfoldable pub settle : List ℤ → Node → Node
unfolding block_of settle_block
settle [] node = node
settle (serial ∷ serials) node = settle serials (settle_block (block_of node serial) node)

unfoldable pub add_wope : WopeLog → Node → Node
add_wope log node = record node { wope_logs = node.wope_logs ++ log ∷ [] }

unfoldable pub send_reply : RepType → WopeLog → Node → Node
send_reply rt log node = record node {
  sent = node.sent ++ record { target = log.from; rep_type = rt; ope_id = log.ope_id } ∷ [];
}

-- GDFileStore::do_wope, by the state of the operation.
unfoldable pub wope_step : WopeState → WopeLog → Node → Option Node
unfolding journal_wope object_key serials_of settle send_reply add_wope
wope_step init log node = do
  node' ← journal_wope log.wope node
  some (
      add_wope (record log { wope_state = on_journal })
        (send_reply primary_journal_write log node'))
wope_step on_journal log node = do
  key ← object_key log.wope.new_ghobj
  some (add_wope (record log { wope_state = on_disk }) (settle (serials_of node key) node))
wope_step on_disk log node = some (send_reply primary_disk_write log node)
wope_step other log node = some node

unfoldable pub do_wope : WopeLog → Node → Option Node
unfolding wope_step
do_wope log node = wope_step log.wope_state log node

-- handle_ope_threadMain hands the queued writes to the pool, which takes them up in any order:
-- here the one at `i`.
unfoldable pub handle_wope : ℕ → Node → Option Node
unfolding do_wope
handle_wope i node = do
  log ← get_elem? node.wope_logs i
  do_wope log (record node { wope_logs = take i node.wope_logs ++ drop (suc i) node.wope_logs })

-- The loop of do_rope. serials[n] must be there.
unfoldable pub read_blocks : List (ℤ × List ℕ) → List ℤ → List ℤ → Option (List (List ℕ))
unfolding read_block
read_blocks files serials [] = some []
read_blocks files serials (negsuc n ∷ blocks) = none
read_blocks files serials (pos n ∷ blocks) = do
  serial ← get_elem? serials n
  datas ← read_blocks files serials blocks
  some (read_block files serial ∷ datas)

-- GDFileStore::do_rope up to the reply.
unfoldable pub do_rope : RopeLog → Node → Option RopeResult
unfolding object_key serials_of read_blocks
do_rope log node = do
  key ← object_key log.rope.ghobj
  datas ← read_blocks node.disk (serials_of node key) log.rope.blocks
  some (record {
    ope_id = log.ope_id;
    ghobj = log.rope.ghobj;
    blocks = log.rope.blocks;
    datas = datas;
  })
