-- ===== src/Sync/Delivery.antt =====
-- A synchronous write from the client's call to the journal of the node, and back.
use gdfile_store.Base.{
  ℕ, ◌≡◌, refl, ap, ◌∙◌, inl, inr, Bool, true, false, Bool-cases, Option, some, List, [], ◌∷◌,
  ◌>>=◌, map, bytes_eq, if◌then◌else◌, All,
}
use gdfile_store.Base.Int.{ℤ}
use gdfile_store.Codec.Encode.{encode}
use gdfile_store.Object.{Operation, InfoForOsd}
use gdfile_store.Object.Members.{info_members, read_info}
use gdfile_store.Object.Serial.{with_pool, read_operation_lem}
use gdfile_store.Object.Requests.{IsStorableInfo, read_info_lem}
use gdfile_store.Journal.{Journal, handle_write_operations, named_in, handle_write_operation}
use gdfile_store.Journal.Members.{handle_write_operation-named_in}
use gdfile_store.Sync.Message.{message_ty, message, IsSendable, write_message-encode, read-message}
use gdfile_store.Sync.{
  success, fail_anyway, write_message, of_answer, write_and_wait_return, body_of, handle_write,
}

infos_read :
    (osds : List InfoForOsd)
    → All IsStorableInfo osds
    → map read_info (map info_members osds) ≡ osds
infos_read [] h = refl
infos_read (o ∷ osds) h = rw (read_info_lem o h.0, infos_read osds h.1)

-- What a node makes of an operation that it was sent: the pool of the object was not sent.
abbrev pub received : ℤ → Operation → Operation
received pool ope = record ope { obj = with_pool pool ope.obj }

handle_write-message :
    (name : List ℕ) (pool : ℤ) (ope : Operation) (osds : List InfoForOsd) (reload : Bool)
    (j : Journal)
    → IsSendable ope osds reload
    → handle_write name pool (encode message_ty (message ope osds reload)) j ≡ (
        handle_write_operation name (received pool ope) osds j >>= λ (r : Bool × Journal).
        some (body_of r.0, r.1))
unfolding handle_write
handle_write-message name pool ope osds reload j h =
    let (n, b1, b2, b3, b4, e1, e2, small, e3, e4) = read-message ope osds reload h in
    rw (e1, e2, small, e3, e4, handle_write)
      (rw (read_operation_lem ope h.operation pool, infos_read osds h.nodes))

of_answer-body_of : (b : Bool) → of_answer (some (body_of b)) ≡ (if b then success else fail_anyway)
unfolding of_answer bytes_eq
of_answer-body_of true = refl
of_answer-body_of false = refl

module _ (is_valid : InfoForOsd → Bool) (post : InfoForOsd → List ℕ → Option (List ℕ))
    (name : List ℕ) (pool : ℤ) (ope : Operation) (primary : InfoForOsd) (osds : List InfoForOsd)
    (reload : Bool) (j j' : Journal) (h : IsSendable ope (primary ∷ osds) reload)
    (valid : is_valid primary ≡ true)
    (flushes : handle_write_operations (received pool ope ∷ []) true j ≡ some j')
    (delivers : (body reply : List ℕ) (k : Journal)
      → handle_write name pool body j ≡ some (reply, k)
      → post primary body ≡ some reply) where
  -- A synchronous write of a sendable operation goes to a valid first node, whose answers the HTTP
  -- library delivers, and whose journal can be flushed with the operation. If the node is named in
  -- the list, its journal is flushed with the operation that the client wrote, the pool of its
  -- object excepted, and the client gets `success`; else the journal stays and the client gets
  -- `fail_anyway`.
  pub write_and_wait_return-handle_write :
      (body : List ℕ) × (write_message ope (primary ∷ osds) reload ≡ some body)
      × (handle_write name pool body j
          ≡ some (
            body_of (named_in name (primary ∷ osds)),
            if named_in name (primary ∷ osds) then j' else j,
          ))
      × (write_and_wait_return is_valid post ope (primary ∷ osds) reload
          ≡ some (if named_in name (primary ∷ osds) then success else fail_anyway))
  unfolding write_and_wait_return
  write_and_wait_return-handle_write =
      let body = encode message_ty (message ope (primary ∷ osds) reload) in
      let written = write_message-encode ope (primary ∷ osds) reload h in
      let taken = named_in name (primary ∷ osds) in
      let handled : handle_write name pool body j ≡ some (body_of taken, if taken then j' else j) =
        handle_write-message name pool ope (primary ∷ osds) reload j h
        ∙ rw (handle_write_operation-named_in name (received pool ope) j (primary ∷ osds), flushes)
            (elim (Bool-cases taken) [ inl e ↦ rw e refl | inr e ↦ rw e refl ]) in
      (
        body,
        written,
        handled,
        rw (valid, written, delivers body (body_of taken) _ handled)
            (ap some (of_answer-body_of taken)),
      )
