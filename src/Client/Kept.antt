-- ===== src/Client/Kept.antt =====
-- What stays true, event by event, of a client whose write has got to the disk.
use mathlib.Core.Path.{subst}
use gdfile_store.Base.{
  ℕ, suc, ◌≡◌, refl, ◌∙◌, >>=-eq-some, inl, inr, Bool, Bool-cases, true, false, some, List, [], ◌∷◌,
  ◌++◌, bytes_eq, bytes_eq_iff, bytes_eq_self, if◌then◌else◌, take, drop, get_elem?, All,
  All-append, All-take, All-drop, All-get_elem?, All-map,
}
use gdfile_store.KeyValue.Assoc.{find, assign, find-assign_self, find-assign_other}
use gdfile_store.Object.{RopeResult, InfoForOsd}
use gdfile_store.Object.Protocol.{RepType, primary_journal_write, primary_disk_write, primary_read}
use gdfile_store.Object.Protocol.Replies.{ClientJob, rep_write_job, rep_read_job}
use gdfile_store.Client.{
  ClientWopeState, on_journal, on_disk, Call, wait_wope_be, wait_wope_be_for, wait_wope_be_until,
  wait_rope, wait_rope_for, Answer, Waiting, Client, Event, arrive, take_job, enter, look_wope,
  look_rope, resume, wake, time_out, wope_or_new, wope_state_of, touch_wope, touch_rope, on_wope,
  on_rope, notify_all, set_wope, handle_rep_write, handle_rep_read, run_job, touch, is_met,
  is_timed, finish, wait_more, go_on, without_at, resume_at, time_out_at, step,
}

-- Events one after the other, none of which faults.
pub data Runs : List Event → Client → Client → Type 0 where
  stop : {c : Client} → Runs [] c c
  go :
      {c c1 c' : Client} {es : List Event} (e : Event)
      → step e c ≡ some c1
      → Runs es c1 c'
      → Runs (e ∷ es) c c'

All-without :
    {A : Type 0} (P : A → Type 0) (i : ℕ) (xs : List A) → All P xs → All P (without_at i xs)
All-without P i xs h =
    All-append P (take i xs) (drop (suc i) xs) (All-take P i xs h) (All-drop P (suc i) xs h)

same_key : (i j k : List ℕ) → bytes_eq j k ≡ false → bytes_eq i j ≡ true → bytes_eq i k ≡ false
same_key i j k h e = rw ((bytes_eq_iff i j).0 e) h

-- The state of a write after an entry is made.
pub wope_state_of-assign :
    (j k : List ℕ) (st : ClientWopeState) (m : List (List ℕ × ClientWopeState))
    → wope_or_new (find bytes_eq k (assign bytes_eq j st m))
      ≡ (if bytes_eq j k then st else wope_or_new (find bytes_eq k m))
wope_state_of-assign j k st m = elim (Bool-cases (bytes_eq j k)) [
  | inl e ↦
      let same : j ≡ k = (bytes_eq_iff j k).0 e in
      rw (e, same, find-assign_self bytes_eq k st m (bytes_eq_self k)) refl
  | inr e ↦ rw (e, find-assign_other bytes_eq j k st m e (λ i h. same_key i j k e h)) refl
]

wope_state_of-touch_wope :
    (j k : List ℕ) (c : Client) → wope_state_of k (touch_wope j c) ≡ wope_state_of k c
unfolding wope_state_of touch_wope
wope_state_of-touch_wope j k c =
    wope_state_of-assign j k (wope_state_of j c) c.wope_states ∙ elim (Bool-cases (bytes_eq j k)) [
      | inl e ↦ let same : j ≡ k = (bytes_eq_iff j k).0 e in rw (e, same) refl
      | inr e ↦ rw e refl
    ]

-- Not a reply that puts the write back to the journal.
abbrev pub IsCalm : List ℕ → ClientJob → Type 0
IsCalm ope_id (rep_write_job from primary_journal_write j) = bytes_eq j ope_id ≡ false
IsCalm ope_id _ = Unit {0}

abbrev pub IsCalmEvent : List ℕ → Event → Type 0
IsCalmEvent ope_id (arrive job) = IsCalm ope_id job
IsCalmEvent ope_id _ = Unit {0}

-- The write has got to the disk, and no reply about the journal is to be taken up.
pub record IsOnDisk (ope_id : List ℕ) (c : Client) : Type 0 where
  pub state : wope_state_of ope_id c ≡ on_disk
  pub calm : All (IsCalm ope_id) c.jobs

-- What holds of the calls that have returned, and of those that wait, while a write is on the disk.
pub record Kept (ope_id : List ℕ) (P : Call × Answer → Type 0) (Q : Waiting → Type 0) (c : Client)
    : Type 0 where
  pub on_disk : IsOnDisk ope_id c
  pub answered : All P c.answers
  pub waiting : All Q c.waiting

module _ (ope_id : List ℕ) (P : Call × Answer → Type 0) (Q : Waiting → Type 0)
    (ends : (call : Call) (without : Bool) (c : Client) (a : Answer)
      → wope_state_of ope_id c ≡ on_disk
      → is_met call without c ≡ true
      → P (call, a))
    (waits : (call : Call) (without : Bool) (c : Client)
      → wope_state_of ope_id c ≡ on_disk
      → is_met call without c ≡ false
      → Q (record { call = call; awake = false }))
    (timed : (call : Call) (a : Answer) → is_timed call ≡ true → P (call, a))
    (woken : (w : Waiting) → Q w → Q (record w { awake = true })) where
  abbrev Keeps : Client → Type 0
  Keeps = Kept ope_id P Q

  Kept-notify_all : (here : Call → Bool) (ws : List Waiting) → All Q ws → All Q (notify_all here ws)
  unfolding notify_all
  Kept-notify_all here ws h =
      All-map Q Q (λ (w : Waiting). if here w.call then record w { awake = true } else w)
        (λ w q. elim (Bool-cases (here w.call)) [ inl e ↦ rw e (woken w q) | inr e ↦ rw e q ]) ws h

  Kept-go_on : (call : Call) (without : Bool) (c : Client) → Keeps c → Keeps (go_on call without c)
  unfolding go_on finish wait_more wope_state_of
  Kept-go_on call without c k = elim (Bool-cases (is_met call without c)) [
    | inl e ↦ rw e (record {
      on_disk = record { state = k.on_disk.state; calm = k.on_disk.calm };
      answered = All-append P c.answers _ k.answered (ends call without c _ k.on_disk.state e, tt);
      waiting = k.waiting;
    })
    | inr e ↦ rw e (record {
      on_disk = record { state = k.on_disk.state; calm = k.on_disk.calm };
      answered = k.answered;
      waiting = All-append Q c.waiting _ k.waiting (waits call without c k.on_disk.state e, tt);
    })
  ]

  Kept-touch_wope : (j : List ℕ) (c : Client) → Keeps c → Keeps (touch_wope j c)
  unfolding touch_wope
  Kept-touch_wope j c k = record {
    on_disk = record {
      state = wope_state_of-touch_wope j ope_id c ∙ k.on_disk.state;
      calm = k.on_disk.calm;
    };
    answered = k.answered;
    waiting = k.waiting;
  }

  Kept-touch_rope : (j : List ℕ) (c : Client) → Keeps c → Keeps (touch_rope j c)
  unfolding touch_rope wope_state_of
  Kept-touch_rope j c k = record {
    on_disk = record { state = k.on_disk.state; calm = k.on_disk.calm };
    answered = k.answered;
    waiting = k.waiting;
  }

  Kept-touch : (call : Call) (c : Client) → Keeps c → Keeps (touch call c)
  unfolding touch
  Kept-touch (wait_wope_be j st) c k = Kept-touch_wope j c k
  Kept-touch (wait_wope_be_for j st) c k = Kept-touch_wope j c k
  Kept-touch (wait_wope_be_until j) c k = Kept-touch_wope j c k
  Kept-touch (wait_rope j) c k = Kept-touch_rope j c k
  Kept-touch (wait_rope_for j) c k = Kept-touch_rope j c k

  Kept-set_wope :
      (j : List ℕ) (st : ClientWopeState) (c : Client)
      → (bytes_eq j ope_id ≡ true → st ≡ on_disk)
      → Keeps c
      → Keeps (set_wope j st c)
  unfolding set_wope wope_state_of
  Kept-set_wope j st c h k = record {
    on_disk = record {
      state =
          wope_state_of-assign j ope_id st c.wope_states ∙ elim (Bool-cases (bytes_eq j ope_id)) [
            | inl e ↦ rw e (h e)
            | inr e ↦ rw e k.on_disk.state
          ];
      calm = k.on_disk.calm;
    };
    answered = k.answered;
    waiting = Kept-notify_all (on_wope j) c.waiting k.waiting;
  }

  Kept-handle_rep_write :
      (from : InfoForOsd) (rt : RepType) (j : List ℕ) (c : Client)
      → IsCalm ope_id (rep_write_job from rt j)
      → Keeps c
      → Keeps (handle_rep_write rt j c)
  unfolding handle_rep_write
  Kept-handle_rep_write from primary_journal_write j c h k =
      Kept-set_wope j on_journal c (λ e. absurd (cc)) k
  Kept-handle_rep_write from primary_disk_write j c h k = Kept-set_wope j on_disk c (λ e. refl) k
  Kept-handle_rep_write from _ j c h k = k

  Kept-handle_rep_read :
      (rt : RepType) (j : List ℕ) (result : RopeResult) (c : Client)
      → Keeps c
      → Keeps (handle_rep_read rt j result c)
  unfolding handle_rep_read wope_state_of
  Kept-handle_rep_read primary_read j result c k = record {
    on_disk = record { state = k.on_disk.state; calm = k.on_disk.calm };
    answered = k.answered;
    waiting = Kept-notify_all (on_rope j) c.waiting k.waiting;
  }
  Kept-handle_rep_read _ j result c k = k

  Kept-run_job :
      (job : ClientJob) (c : Client) → IsCalm ope_id job → Keeps c → Keeps (run_job job c)
  unfolding run_job
  Kept-run_job (rep_write_job from rt j) c h k = Kept-handle_rep_write from rt j c h k
  Kept-run_job (rep_read_job from rt j result) c h k = Kept-handle_rep_read rt j result c k

  -- A client with fewer jobs and fewer calls that wait.
  Kept-fewer_jobs : (i : ℕ) (c : Client) → Keeps c → Keeps (record c { jobs = without_at i c.jobs })
  unfolding wope_state_of
  Kept-fewer_jobs i c k = record {
    on_disk = record {
      state = k.on_disk.state;
      calm = All-without (IsCalm ope_id) i c.jobs k.on_disk.calm;
    };
    answered = k.answered;
    waiting = k.waiting;
  }

  Kept-fewer_waiting :
      (i : ℕ) (c : Client) → Keeps c → Keeps (record c { waiting = without_at i c.waiting })
  unfolding wope_state_of
  Kept-fewer_waiting i c k = record {
    on_disk = record { state = k.on_disk.state; calm = k.on_disk.calm };
    answered = k.answered;
    waiting = All-without Q i c.waiting k.waiting;
  }

  Kept-resume_at :
      (i : ℕ) (w : Waiting) (c c' : Client) → Keeps c → resume_at i w c ≡ some c' → Keeps c'
  unfolding resume_at
  Kept-resume_at i w c c' k h = elim (Bool-cases w.awake) [
    | inl e ↦
        let found : go_on w.call true (record c { waiting = without_at i c.waiting }) ≡ c' =
          cc (rw e at h) in
        subst Keeps found (Kept-go_on w.call true _ (Kept-fewer_waiting i c k))
    | inr e ↦ absurd (cc (rw e at h))
  ]

  Kept-time_out_at :
      (i : ℕ) (w : Waiting) (c c' : Client) → Keeps c → time_out_at i w c ≡ some c' → Keeps c'
  unfolding time_out_at finish wope_state_of
  Kept-time_out_at i w c c' k h = elim (Bool-cases (is_timed w.call)) [
    | inl e ↦
        let fewer = record c { waiting = without_at i c.waiting } in
        let found : finish w.call fewer ≡ c' = cc (rw e at h) in
        let k' = Kept-fewer_waiting i c k in
        subst Keeps found (record {
          on_disk = record { state = k'.on_disk.state; calm = k'.on_disk.calm };
          answered = All-append P c.answers _ k'.answered (timed w.call _ e, tt);
          waiting = k'.waiting;
        })
    | inr e ↦ absurd (cc (rw e at h))
  ]

  Kept-step :
      (e : Event) (c c' : Client) → IsCalmEvent ope_id e → Keeps c → step e c ≡ some c' → Keeps c'
  unfolding step wope_state_of
  Kept-step (arrive job) c c' h k s =
      let found : record c { jobs = c.jobs ++ job ∷ [] } ≡ c' = cc in
      subst Keeps found (record {
        on_disk = record {
          state = k.on_disk.state;
          calm = All-append (IsCalm ope_id) c.jobs _ k.on_disk.calm (h, tt);
        };
        answered = k.answered;
        waiting = k.waiting;
      })
  Kept-step (take_job i) c c' h k s =
      let (job, e, r) = >>=-eq-some (get_elem? c.jobs i) _ s in
      let found : run_job job (record c { jobs = without_at i c.jobs }) ≡ c' = cc in
      subst Keeps found (
        Kept-run_job job _ (All-get_elem? (IsCalm ope_id) c.jobs i job k.on_disk.calm e)
          (Kept-fewer_jobs i c k))
  Kept-step (enter call) c c' h k s =
      let found : go_on call false (touch call c) ≡ c' = cc in
      subst Keeps found (Kept-go_on call false _ (Kept-touch call c k))
  Kept-step (look_wope j) c c' h k s =
      let found : touch_wope j c ≡ c' = cc in subst Keeps found (Kept-touch_wope j c k)
  Kept-step (look_rope j) c c' h k s =
      let found : touch_rope j c ≡ c' = cc in subst Keeps found (Kept-touch_rope j c k)
  Kept-step (resume i) c c' h k s =
      let (w, e, r) = >>=-eq-some (get_elem? c.waiting i) _ s in Kept-resume_at i w c c' k r
  Kept-step (wake i) c c' h k s =
      let (w, e, r) = >>=-eq-some (get_elem? c.waiting i) _ s in
      let found : record c { waiting = without_at i c.waiting ++ record w { awake = true } ∷ [] }
          ≡ c' =
        cc in
      let k' = Kept-fewer_waiting i c k in
      subst Keeps found (record {
        on_disk = record { state = k'.on_disk.state; calm = k'.on_disk.calm };
        answered = k.answered;
        waiting =
            All-append Q (without_at i c.waiting) _ k'.waiting
              (woken w (All-get_elem? Q c.waiting i w k.waiting e), tt);
      })
  Kept-step (time_out i) c c' h k s =
      let (w, e, r) = >>=-eq-some (get_elem? c.waiting i) _ s in Kept-time_out_at i w c c' k r

  pub Kept-Runs :
      {es : List Event} {c c' : Client}
      → All (IsCalmEvent ope_id) es
      → Keeps c
      → Runs es c c'
      → Keeps c'
  Kept-Runs h k stop = k
  Kept-Runs h k (go {c} {c1} e s rest) = Kept-Runs h.1 (Kept-step e c c1 h.0 k s) rest
