-- ===== src/Client/Waits.antt =====
-- Which calls of waitWopeBe return: waits for a state that a reply brings, and for one that passed.
use mathlib.Core.Path.{subst}
use gdfile_store.Base.{
  ℕ, ◌≡◌, ◌≢◌, refl, ap, inl, inr, Bool, Bool-cases, true, false, some, List, [], ◌∷◌, bytes_eq,
  bytes_eq_self, get_elem?, All,
}
use gdfile_store.KeyValue.Assoc.{find-assign_self}
use gdfile_store.Object.{InfoForOsd}
use gdfile_store.Object.Protocol.{primary_disk_write}
use gdfile_store.Object.Protocol.Replies.{rep_write_job}
use gdfile_store.Client.Kept.{Runs, go, Kept, Kept-Runs, IsCalm, IsCalmEvent, IsOnDisk}
use gdfile_store.Client.{
  ClientWopeState, on_disk, state_eq, Call, wait_wope_be, Answer, Waiting, Client, Event, take_job,
  wope_or_new, wope_state_of, is_met, is_timed, on_wope, notify_all, set_wope, handle_rep_write,
  run_job, without_at, step,
}

module _ (ope_id : List ℕ) (st : ClientWopeState) where
  -- Not an answer to waitWopeBe of the write for this state.
  abbrev pub IsElsewhere : Call × Answer → Type 0
  IsElsewhere a = a.0 ≢ wait_wope_be ope_id st

  -- A call of waitWopeBe of the write for this state has woken up.
  abbrev pub IsRoused : Waiting → Type 0
  IsRoused w = w.call ≡ wait_wope_be ope_id st → w.awake ≡ true

untimed :
    (call : Call) (ope_id : List ℕ) (st : ClientWopeState)
    → is_timed call ≡ true
    → call ≢ wait_wope_be ope_id st
untimed call ope_id st h e = absurd (cc (rw e at h))

is_met-wait :
    (ope_id : List ℕ) (st : ClientWopeState) (without : Bool) (c : Client)
    → wope_state_of ope_id c ≡ on_disk
    → is_met (wait_wope_be ope_id st) without c ≡ state_eq on_disk st
unfolding is_met
is_met-wait ope_id st without c e = ap (λ (s : ClientWopeState). state_eq s st) e

no_claim : {A : Type 0} (xs : List A) → All (λ (x : A). Unit {0}) xs
no_claim [] = tt
no_claim (x ∷ xs) = (tt, no_claim xs)

-- waitWopeBe with a state that is not onDisk, of a write that has got to the disk, never returns,
-- if no reply about the journal is still to be handled: whatever happens to the client, no such
-- call is among those that have returned, unless one was before.
pub wait_misses :
    (ope_id : List ℕ) (st : ClientWopeState) (c c' : Client) (es : List Event)
    → state_eq on_disk st ≡ false
    → IsOnDisk ope_id c
    → All (IsCalmEvent ope_id) es
    → Runs es c c'
    → All (IsElsewhere ope_id st) c.answers
    → All (IsElsewhere ope_id st) c'.answers
wait_misses ope_id st c c' es past on calm runs before =
    let k =
      Kept-Runs ope_id (IsElsewhere ope_id st) (λ (w : Waiting). Unit {0})
        (λ call without c a s m e. absurd (cc (is_met-wait ope_id st without c s, rw e at m)))
        (λ call without c s m. tt) (λ call a t. untimed call ope_id st t) (λ w q. tt) calm
        (record { on_disk = on; answered = before; waiting = no_claim c.waiting }) runs in
    k.answered

-- notify_all rouses the calls of waitWopeBe of the write.
roused :
    (ope_id : List ℕ) (st : ClientWopeState) (ws : List Waiting)
    → All (IsRoused ope_id st) (notify_all (on_wope ope_id) ws)
unfolding notify_all
roused ope_id st [] = tt
roused ope_id st (w ∷ ws) = (
  elim (Bool-cases (on_wope ope_id w.call)) [
    | inl e ↦ rw e (λ same. refl)
    | inr e ↦ rw e (λ same. absurd (cc (rw same at e, bytes_eq_self ope_id)))
  ],
  roused ope_id st ws,
)

asleep_elsewhere :
    (ope_id : List ℕ) (st : ClientWopeState) (ws : List Waiting)
    → All (IsRoused ope_id st) ws
    → All (λ (w : Waiting). w.awake ≡ false) ws
    → All (λ (w : Waiting). w.call ≢ wait_wope_be ope_id st) ws
asleep_elsewhere ope_id st [] r h = tt
asleep_elsewhere ope_id st (w ∷ ws) r h =
    (λ e. absurd (cc (r.0 e, h.0)), asleep_elsewhere ope_id st ws r.1 h.1)

-- The pool takes up the reply about the disk, and no reply about the journal is still to be
-- handled. Then, whatever happens to the client, once nobody who waits is awake, no waitWopeBe of
-- the write for onDisk is among those who wait.
pub wait_ends :
    (ope_id : List ℕ) (from : InfoForOsd) (i : ℕ) (c c' : Client) (es : List Event)
    → get_elem? c.jobs i ≡ some (rep_write_job from primary_disk_write ope_id)
    → All (IsCalm ope_id) (without_at i c.jobs)
    → All (IsCalmEvent ope_id) es
    → Runs (take_job i ∷ es) c c'
    → All (λ (w : Waiting). w.awake ≡ false) c'.waiting
    → All (λ (w : Waiting). w.call ≢ wait_wope_be ope_id on_disk) c'.waiting
unfolding step run_job handle_rep_write set_wope wope_state_of
wait_ends ope_id from i c c' es job calm calms (go {c1 = c1} e s rest) quiet =
    let c2 = set_wope ope_id on_disk (record c { jobs = without_at i c.jobs }) in
    let found : c2 ≡ c1 = cc (rw job at s) in
    let k : Kept ope_id (λ a. Unit {0}) (IsRoused ope_id on_disk) c2 = record {
      on_disk = record {
        state =
            ap wope_or_new
              (find-assign_self bytes_eq ope_id on_disk c.wope_states (bytes_eq_self ope_id));
        calm = calm;
      };
      answered = no_claim c.answers;
      waiting = roused ope_id on_disk c.waiting;
    } in
    let k' =
      Kept-Runs ope_id (λ a. Unit {0}) (IsRoused ope_id on_disk) (λ call without c a s m. tt)
        (λ call without c s m e. absurd (cc (is_met-wait ope_id on_disk without c s, rw e at m)))
        (λ call a t. tt) (λ w q e. refl) calms
        (subst (Kept ope_id (λ a. Unit {0}) (IsRoused ope_id on_disk)) found k) rest in
    asleep_elsewhere ope_id on_disk c'.waiting k'.waiting quiet
