-- ===== src/FileStore/Mirrored.antt =====
-- What the thread, the pools and their workers do together, against the queue whose writes are
-- taken up in any order.
use gdfile_store.Base.{
  ℕ, zero, suc, ◌≡◌, inl, inr, refl, sym, ap, ◌∙◌, Option, Option-cases, none, some, List, [], ◌∷◌,
  ◌++◌, >>=-eq-some, append-nil, append_assoc, get_elem?,
}
use gdfile_store.Object.Protocol.{
  WopeLog, WopeState, init, on_journal, on_disk, other, RopeLog, primary_journal_write,
}
use gdfile_store.FileStore.Relabelled.{journal_wope-relabelled, settle-relabelled}
use gdfile_store.FileStore.Untouched.{journal_wope-Untouched, settle-Untouched}
use gdfile_store.FileStore.Serving.{
  Serving, Event, wope_added, rope_added, wopes_handed, ropes_handed, wope_taken, rope_taken,
  wope_done, rope_done, taken_out, take_wope, take_rope, end_wope, end_rope, serve,
}
use gdfile_store.FileStore.{
  Node, object_key, serials_of, journal_wope, settle, add_wope, send_reply, wope_step, do_wope,
  handle_wope, do_rope,
}

-- The node with writes in front of its queue.
abbrev ahead : List WopeLog → Node → Node
ahead logs node = record node { wope_logs = logs ++ node.wope_logs }

abbrev pub in_front : List WopeLog → Option Node → Option Node
in_front logs none = none
in_front logs (some node) = some (ahead logs node)

module _ (logs : List WopeLog) where
  wope_step-ahead :
      (st : WopeState) (log : WopeLog) (node : Node)
      → wope_step st log (ahead logs node) ≡ in_front logs (wope_step st log node)
  unfolding wope_step add_wope send_reply serials_of
  wope_step-ahead init log node =
      let step = journal_wope-relabelled (logs ++ node.wope_logs) log.wope node in
      elim (Option-cases (journal_wope log.wope node)) [
        | inl e ↦ rw (step, e)
        | inr (node1, e) ↦
            let kept = (journal_wope-Untouched log.wope node node1 e).1 in
            rw (step, e, kept)
              (ap
                (λ (ls : List WopeLog).
                  some (record (send_reply primary_journal_write log node1) { wope_logs = ls }))
                (append_assoc logs node.wope_logs (record log { wope_state = on_journal } ∷ [])))
      ]
  wope_step-ahead on_journal log node = elim (Option-cases (object_key log.wope.new_ghobj)) [
    | inl e ↦ rw e
    | inr (key, e) ↦
        let kept = (settle-Untouched (serials_of node key) node).1 in
        rw (e, settle-relabelled (logs ++ node.wope_logs) (serials_of node key) node, kept)
          (ap
            (λ (ls : List WopeLog).
              some (record (settle (serials_of node key) node) { wope_logs = ls }))
            (append_assoc logs node.wope_logs (record log { wope_state = on_disk } ∷ [])))
  ]
  wope_step-ahead on_disk log node = refl
  wope_step-ahead other log node = refl

-- The node as the queue that the pool takes up in any order: all that is not done is queued.
unfoldable pub queued : Serving → Node
queued s = ahead (s.writing ++ s.write_tp) s.node

module _ {A : Type 0} where
  get_elem?-append_left :
      (i : ℕ) (xs ys : List A) (x : A) → get_elem? xs i ≡ some x → get_elem? (xs ++ ys) i ≡ some x
  get_elem?-append_left i [] ys x h = absurd (cc)
  get_elem?-append_left zero (y ∷ xs) ys x h = h
  get_elem?-append_left (suc i) (y ∷ xs) ys x h = get_elem?-append_left i xs ys x h

  taken_out-append_left :
      (i : ℕ) (xs ys : List A) (x : A)
      → get_elem? xs i ≡ some x
      → taken_out i (xs ++ ys) ≡ taken_out i xs ++ ys
  taken_out-append_left i [] ys x h = absurd (cc)
  taken_out-append_left zero (y ∷ xs) ys x h = refl
  taken_out-append_left (suc i) (y ∷ xs) ys x h = ap (◌∷◌ y) (taken_out-append_left i xs ys x h)

-- What an event is for the queue.
abbrev pub Mirrors : Event → Node → Node → Type 0
Mirrors (wope_added log) node node' = node' ≡ add_wope log node
Mirrors (wope_done i) node node' = handle_wope i node ≡ some node'
Mirrors _ node node' = node' ≡ node

end_wope-Mirrors :
    (i : ℕ) (s s' : Serving) → end_wope i s ≡ some s' → Mirrors (wope_done i) (queued s) (queued s')
unfolding end_wope queued handle_wope do_wope
end_wope-Mirrors i s s' run =
    let (log, e, r) = >>=-eq-some (get_elem? s.writing i) _ run in
    let (node, e', r') = >>=-eq-some (do_wope log s.node) _ r in
    let waiting = s.writing ++ s.write_tp in
    let there =
      get_elem?-append_left i waiting s.node.wope_logs log
        (get_elem?-append_left i s.writing s.write_tp log e) in
    let left : taken_out i (waiting ++ s.node.wope_logs)
        ≡ (taken_out i s.writing ++ s.write_tp) ++ s.node.wope_logs =
      taken_out-append_left i waiting s.node.wope_logs log
        (get_elem?-append_left i s.writing s.write_tp log e)
      ∙ ap (λ (ls : List WopeLog). ls ++ s.node.wope_logs)
          (taken_out-append_left i s.writing s.write_tp log e) in
    let found : record s { node = node; writing = taken_out i s.writing } ≡ s' = cc in
    rw (there, left)
      (wope_step-ahead (taken_out i s.writing ++ s.write_tp) log.wope_state log s.node
        ∙ ap (in_front (taken_out i s.writing ++ s.write_tp)) e'
        ∙ ap (λ (t : Serving). some (ahead (t.writing ++ t.write_tp) t.node)) found)

take_wope-Mirrors :
    (s s' : Serving) (jobs : List WopeLog)
    → s.write_tp ≡ jobs
    → take_wope s jobs ≡ some s'
    → queued s' ≡ queued s
unfolding queued
take_wope-Mirrors s s' [] same run = absurd (cc)
take_wope-Mirrors s s' (log ∷ logs) same run =
    let found : record s { write_tp = logs; writing = s.writing ++ log ∷ [] } ≡ s' = cc in
    sym (ap (λ (t : Serving). ahead (t.writing ++ t.write_tp) t.node) found)
    ∙ ap (λ (ls : List WopeLog). ahead ls s.node)
        (append_assoc s.writing (log ∷ []) logs
          ∙ ap (λ (ls : List WopeLog). s.writing ++ ls) (sym same))

take_rope-Mirrors :
    (s s' : Serving) (jobs : List RopeLog) → take_rope s jobs ≡ some s' → queued s' ≡ queued s
unfolding queued
take_rope-Mirrors s s' [] run = absurd (cc)
take_rope-Mirrors s s' (log ∷ logs) run =
    let found : record s { read_tp = logs; reading = s.reading ++ log ∷ [] } ≡ s' = cc in
    sym (ap (λ (t : Serving). ahead (t.writing ++ t.write_tp) t.node) found)

end_rope-Mirrors : (i : ℕ) (s s' : Serving) → end_rope i s ≡ some s' → queued s' ≡ queued s
unfolding queued end_rope
end_rope-Mirrors i s s' run =
    let (log, e, r) = >>=-eq-some (get_elem? s.reading i) _ run in
    let (result, e', r') = >>=-eq-some (do_rope log s.node) _ r in
    let found : record s {
      reading = taken_out i s.reading;
      answered = s.answered ++ (log.from, result) ∷ [];
    }
        ≡ s' =
      cc in
    sym (ap (λ (t : Serving). ahead (t.writing ++ t.write_tp) t.node) found)

-- Every event is one of the queue: a write that arrives is put at its end, the end of a do_wope is
-- the write at that place taken up, and all else leaves the queue and the node as they are.
pub serve-Mirrors :
    (e : Event) (s s' : Serving) → serve e s ≡ some s' → Mirrors e (queued s) (queued s')
unfolding serve queued add_wope
serve-Mirrors (wope_added log) s s' run =
    let found : record s { node = add_wope log s.node } ≡ s' = cc in
    sym (ap (λ (t : Serving). ahead (t.writing ++ t.write_tp) t.node) found)
    ∙ ap (λ (ls : List WopeLog). record s.node { wope_logs = ls })
        (sym (append_assoc (s.writing ++ s.write_tp) s.node.wope_logs (log ∷ [])))
serve-Mirrors (rope_added log) s s' run =
    let found : record s { rope_logs = s.rope_logs ++ log ∷ [] } ≡ s' = cc in
    sym (ap (λ (t : Serving). ahead (t.writing ++ t.write_tp) t.node) found)
serve-Mirrors wopes_handed s s' run =
    let found : record s {
      node = record s.node { wope_logs = [] };
      write_tp = s.write_tp ++ s.node.wope_logs;
    }
        ≡ s' =
      cc in
    sym (ap (λ (t : Serving). ahead (t.writing ++ t.write_tp) t.node) found)
    ∙ ap (λ (ls : List WopeLog). record s.node { wope_logs = ls })
        (append-nil _ ∙ sym (append_assoc s.writing s.write_tp s.node.wope_logs))
serve-Mirrors ropes_handed s s' run =
    let found : record s { rope_logs = []; read_tp = s.read_tp ++ s.rope_logs } ≡ s' = cc in
    sym (ap (λ (t : Serving). ahead (t.writing ++ t.write_tp) t.node) found)
serve-Mirrors wope_taken s s' run = take_wope-Mirrors s s' s.write_tp refl run
serve-Mirrors rope_taken s s' run = take_rope-Mirrors s s' s.read_tp run
serve-Mirrors (wope_done i) s s' run = end_wope-Mirrors i s s' run
serve-Mirrors (rope_done i) s s' run = end_rope-Mirrors i s s' run
