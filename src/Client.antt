-- ===== src/Client.antt =====
-- AsynClient of src/deps/ConnectionClient.h and src/deps/ConnectionClient.cpp: the states of the
-- operations that a client has asked for, the handlers of replies, and the waits on the condition
-- variables. Each event holds the mutex of its table from the beginning to the end; the client's
-- pool may take up the waiting jobs in any order, and a wait can wake up without a notification.
pub mod Kept
pub mod Replies
pub mod Waits
pub mod Tests
use gdfile_store.Base.{
  ℕ, suc, ◌≡◌, Bool, true, false, ◌==◌, Option, none, some, List, [], ◌∷◌, ◌++◌, ◌>>=◌, map,
  bytes_eq, if◌then◌else◌, take, drop, get_elem?,
}
use gdfile_store.Base.Int.{pos}
use gdfile_store.KeyValue.Assoc.{find, assign}
use gdfile_store.Object.{GhObject, RopeResult, new_hobject}
use gdfile_store.Object.Protocol.{RepType, primary_journal_write, primary_disk_write, primary_read}
use gdfile_store.Object.Protocol.Replies.{ClientJob, rep_write_job, rep_read_job}

pub data ClientWopeState : Type 0 where
  other failed on_journal on_disk : ClientWopeState

pub data ClientRopeState : Type 0 where
  other failed success : ClientRopeState

abbrev pub number_of : ClientWopeState → ℕ
number_of other = 0
number_of failed = 1
number_of on_journal = 2
number_of on_disk = 3

abbrev pub state_eq : ClientWopeState → ClientWopeState → Bool
state_eq s t = number_of s == number_of t

abbrev pub RopeEntry : Type 0
RopeEntry = ClientRopeState × RopeResult

-- The waits, by the function that is called: waitWopeBe, waitWopeBe_for, waitWopeBe_until, waitRope,
-- and waitRope_for or waitRope_until, which do the same.
pub data Call : Type 0 where
  wait_wope_be wait_wope_be_for : List ℕ → ClientWopeState → Call
  wait_wope_be_until wait_rope wait_rope_for : List ℕ → Call

pub data Answer : Type 0 where
  wope_answer : ClientWopeState → Answer
  rope_answer : RopeEntry → Answer

pub record Waiting : Type 0 where
  pub call : Call
  pub awake : Bool

-- The two tables of states, the jobs that wait in the pool, the calls that wait, and the calls that
-- have returned.
pub record Client : Type 0 where
  pub wope_states : List (List ℕ × ClientWopeState)
  pub rope_states : List (List ℕ × RopeEntry)
  pub jobs : List ClientJob
  pub waiting : List Waiting
  pub answers : List (Call × Answer)

abbrev pub default_user : List ℕ
default_user =
    b'd' ∷ b'e' ∷ b'f' ∷ b'a' ∷ b'u' ∷ b'l' ∷ b't' ∷ b'-' ∷ b'u' ∷ b's' ∷ b'e' ∷ b'r' ∷ []

-- GHObject_t() and ROPE_Result()
unfoldable pub new_ghobject : GhObject
unfolding new_hobject
new_ghobject = record {
  hobj = new_hobject (record { name = [] }) (record { time_stamp = pos 0 });
  generation = pos 0;
  shard_id = record { id = pos 0 };
  owner = default_user;
}

unfoldable pub new_result : RopeResult
unfolding new_ghobject
new_result = record { ope_id = []; ghobj = new_ghobject; blocks = []; datas = [] }

abbrev pub wope_or_new : Option ClientWopeState → ClientWopeState
wope_or_new none = other
wope_or_new (some st) = st

unfoldable pub rope_or_new : Option RopeEntry → RopeEntry
unfolding new_result
rope_or_new none = (other, new_result)
rope_or_new (some e) = e

-- wope_states[opeId] and rope_states[opeId]: what is there, and the entry that is made where there
-- is none.
unfoldable pub wope_state_of : List ℕ → Client → ClientWopeState
wope_state_of ope_id c = wope_or_new (find bytes_eq ope_id c.wope_states)

unfoldable pub rope_state_of : List ℕ → Client → RopeEntry
unfolding rope_or_new
rope_state_of ope_id c = rope_or_new (find bytes_eq ope_id c.rope_states)

unfoldable pub touch_wope : List ℕ → Client → Client
unfolding wope_state_of
touch_wope ope_id c = record c {
  wope_states = assign bytes_eq ope_id (wope_state_of ope_id c) c.wope_states;
}

unfoldable pub touch_rope : List ℕ → Client → Client
unfolding rope_state_of
touch_rope ope_id c = record c {
  rope_states = assign bytes_eq ope_id (rope_state_of ope_id c) c.rope_states;
}

abbrev pub get_wope_state : List ℕ → Client → ClientWopeState × Client
get_wope_state ope_id c = (wope_state_of ope_id c, touch_wope ope_id c)

abbrev pub get_rope_state : List ℕ → Client → RopeEntry × Client
get_rope_state ope_id c = (rope_state_of ope_id c, touch_rope ope_id c)

-- Which calls wait on the condition variable of a write, and which on that of a read.
abbrev pub on_wope : List ℕ → Call → Bool
on_wope ope_id (wait_wope_be j st) = bytes_eq ope_id j
on_wope ope_id (wait_wope_be_for j st) = bytes_eq ope_id j
on_wope ope_id (wait_wope_be_until j) = bytes_eq ope_id j
on_wope ope_id _ = false

abbrev pub on_rope : List ℕ → Call → Bool
on_rope ope_id (wait_rope j) = bytes_eq ope_id j
on_rope ope_id (wait_rope_for j) = bytes_eq ope_id j
on_rope ope_id _ = false

-- notify_all
unfoldable pub notify_all : (Call → Bool) → List Waiting → List Waiting
notify_all here waiting =
    map (λ (w : Waiting). if here w.call then record w { awake = true } else w) waiting

unfoldable pub set_wope : List ℕ → ClientWopeState → Client → Client
unfolding notify_all
set_wope ope_id st c = record c {
  wope_states = assign bytes_eq ope_id st c.wope_states;
  waiting = notify_all (on_wope ope_id) c.waiting;
}

unfoldable pub handle_rep_write : RepType → List ℕ → Client → Client
unfolding set_wope
handle_rep_write primary_journal_write ope_id c = set_wope ope_id on_journal c
handle_rep_write primary_disk_write ope_id c = set_wope ope_id on_disk c
handle_rep_write _ ope_id c = c

unfoldable pub handle_rep_read : RepType → List ℕ → RopeResult → Client → Client
unfolding notify_all
handle_rep_read primary_read ope_id result c = record c {
  rope_states = assign bytes_eq ope_id (success, result) c.rope_states;
  waiting = notify_all (on_rope ope_id) c.waiting;
}
handle_rep_read _ ope_id result c = c

unfoldable pub run_job : ClientJob → Client → Client
unfolding handle_rep_write handle_rep_read
run_job (rep_write_job from rt ope_id) c = handle_rep_write rt ope_id c
run_job (rep_read_job from rt ope_id result) c = handle_rep_read rt ope_id result c

-- The entry that a call makes before it waits.
unfoldable pub touch : Call → Client → Client
unfolding touch_wope touch_rope
touch (wait_wope_be j st) c = touch_wope j c
touch (wait_wope_be_for j st) c = touch_wope j c
touch (wait_wope_be_until j) c = touch_wope j c
touch (wait_rope j) c = touch_rope j c
touch (wait_rope_for j) c = touch_rope j c

-- The predicate of the wait, if it has one. A wait with none ends with the next awakening.
unfoldable pub is_met : Call → Bool → Client → Bool
unfolding wope_state_of
is_met (wait_wope_be j st) without c = state_eq (wope_state_of j c) st
is_met (wait_wope_be_for j st) without c = state_eq (wope_state_of j c) st
is_met _ without c = without

abbrev pub is_timed : Call → Bool
is_timed (wait_wope_be j st) = false
is_timed (wait_rope j) = false
is_timed _ = true

-- What a wait returns, which it reads under the mutex when it ends.
unfoldable pub answer_of : Call → Client → Answer
unfolding wope_state_of rope_state_of
answer_of (wait_wope_be j st) c = wope_answer (wope_state_of j c)
answer_of (wait_wope_be_for j st) c = wope_answer (wope_state_of j c)
answer_of (wait_wope_be_until j) c = wope_answer (wope_state_of j c)
answer_of (wait_rope j) c = rope_answer (rope_state_of j c)
answer_of (wait_rope_for j) c = rope_answer (rope_state_of j c)

unfoldable pub finish : Call → Client → Client
unfolding answer_of
finish call c = record c { answers = c.answers ++ (call, answer_of call c) ∷ [] }

unfoldable pub wait_more : Call → Client → Client
wait_more call c = record c { waiting = c.waiting ++ record { call = call; awake = false } ∷ [] }

-- A call that has woken up, or has just been made: it ends or waits.
unfoldable pub go_on : Call → Bool → Client → Client
unfolding is_met finish wait_more
go_on call without c = if is_met call without c then finish call c else wait_more call c

abbrev pub without_at : {A : Type 0} → ℕ → List A → List A
without_at i xs = take i xs ++ drop (suc i) xs

-- A handler leaves a job to the pool; the pool takes the job at a place; a wait is called; a state
-- is looked up; a waiting call that is awake goes on, one wakes up by itself, and the time of one is
-- over.
pub data Event : Type 0 where
  arrive : ClientJob → Event
  take_job : ℕ → Event
  enter : Call → Event
  look_wope look_rope : List ℕ → Event
  resume wake time_out : ℕ → Event

unfoldable pub resume_at : ℕ → Waiting → Client → Option Client
unfolding go_on
resume_at i w c =
    if w.awake
    then some (go_on w.call true (record c { waiting = without_at i c.waiting }))
    else none

unfoldable pub time_out_at : ℕ → Waiting → Client → Option Client
unfolding finish
time_out_at i w c =
    if is_timed w.call
    then some (finish w.call (record c { waiting = without_at i c.waiting }))
    else none

unfoldable pub step : Event → Client → Option Client
unfolding run_job touch go_on touch_wope touch_rope resume_at time_out_at
step (arrive job) c = some (record c { jobs = c.jobs ++ job ∷ [] })
step (take_job i) c = do
  job ← get_elem? c.jobs i
  some (run_job job (record c { jobs = without_at i c.jobs }))
step (enter call) c = some (go_on call false (touch call c))
step (look_wope ope_id) c = some (touch_wope ope_id c)
step (look_rope ope_id) c = some (touch_rope ope_id c)
step (resume i) c = do w ← get_elem? c.waiting i; resume_at i w c
step (wake i) c = do
  w ← get_elem? c.waiting i
  some (record c { waiting = without_at i c.waiting ++ record w { awake = true } ∷ [] })
step (time_out i) c = do w ← get_elem? c.waiting i; time_out_at i w c
