-- ===== src/Sync/Message.antt =====
-- The message of a synchronous write is the encoding of its parts one after the other, and is read
-- part by part.
use gdfile_store.Base.{
  ℕ, ◌^◌, ◌≤◌, ◌<◌, ◌≡◌, sym, ap, ◌∙◌, inl, inr, Bool, true, false, Bool-cases, some, List, [],
  ◌++◌, append_assoc, append-nil, map, arith, ltb, length, length-map, All, >>=-eq-some,
}
use native.Mathlib.Nat.{mod-eq_of_lt}
use gdfile_store.Buffer.{Buffer, of_content, append, int_max}
use gdfile_store.Codec.Word.{bytes_of, InBytes}
use gdfile_store.Codec.Encode.{encode, encode_all, Sized, write-encode, write_array-encode}
use gdfile_store.Codec.RoundTrip.{Exact, read-encode}
use gdfile_store.Codec.Strings.{whole-IsAhead}
use gdfile_store.Codec.{Ty, El, scalar, tuple_end, vector, word32, read, read_array}
use gdfile_store.Object.{Operation, InfoForOsd}
use gdfile_store.Object.Members.{
  ◌&◌, operation_ty, operation_members, info_ty, info_members, of_bool,
}
use gdfile_store.Object.Serial.{IsStorableOperation, operation-Sized, operation-Exact}
use gdfile_store.Object.Requests.{IsStorableInfo}
use gdfile_store.Object.Protocol.Delivery.{infos-Sized, infos-Exact, read_three}
use gdfile_store.Sync.{write_message}

abbrev pub message_ty : Ty
message_ty = operation_ty & vector info_ty & scalar 1 & tuple_end

-- A vector is read as its length and then as an array of that length.
pub read-vector :
    (t : Ty) (b b' : Buffer) (vs : List (El t))
    → read (vector t) b ≡ some (vs, b')
    → (n : ℕ) × (b1 : Buffer) × (read (scalar 4) b ≡ some (n, b1))
      × (ltb n (2 ^ 31) ≡ true)
      × (read_array (read t) n b1 ≡ some (vs, b'))
unfolding read
read-vector t b b' vs h =
    let ((n, b1), e, r) = >>=-eq-some (read (scalar 4) b) _ h in
    elim (Bool-cases (ltb n (2 ^ 31))) [
      | inl small ↦ (n, b1, e, small, rw small at r)
      | inr large ↦ absurd (cc (rw large at r))
    ]

regroup : (a b c d : List ℕ) → ((a ++ b) ++ c) ++ d ≡ a ++ ((b ++ c) ++ (d ++ []))
regroup a b c d =
    append_assoc (a ++ b) c d
    ∙ append_assoc a b (c ++ d)
    ∙ ap (λ (x : List ℕ). a ++ x)
        (sym (append_assoc b c d) ∙ ap (λ (x : List ℕ). (b ++ c) ++ x) (sym (append-nil d)))

flag_fits : (b : Bool) → InBytes 1 (of_bool b)
flag_fits true = omega arith
flag_fits false = omega arith

module _ (ope : Operation) (osds : List InfoForOsd) (reload : Bool) where
  abbrev pub message : El message_ty
  message = (operation_members ope, (map info_members osds, (of_bool reload, tt)))

  -- The parts of the message are values of their C++ types, the operation has a buffer, and the
  -- body has at most INT_MAX bytes.
  pub record IsSendable : Type 0 where
    pub operation : IsStorableOperation ope
    pub nodes : All IsStorableInfo osds
    pub node_count : length osds < 2 ^ 31
    pub size : length (encode message_ty message) ≤ int_max

module _ (ope : Operation) (osds : List InfoForOsd) (reload : Bool)
    (h : IsSendable ope osds reload) where
  message-Sized : Sized message_ty (message ope osds reload)
  message-Sized = (
    operation-Sized ope h.operation,
    ((rw (length-map info_members osds) h.node_count, infos-Sized osds h.nodes), (tt, tt)),
  )

  message-Exact : Exact message_ty (message ope osds reload)
  message-Exact =
      (operation-Exact ope h.operation, (infos-Exact osds h.nodes, (flag_fits reload, tt)))

  pub write_message-encode :
      write_message ope osds reload ≡ some (encode message_ty (message ope osds reload))
  unfolding write_message append
  write_message-encode =
      rw
        (
          write-encode operation_ty (of_content []) (operation_members ope)
              (operation-Sized ope h.operation),
          write_array-encode info_ty (write-encode info_ty) _ (map info_members osds)
              (infos-Sized osds h.nodes),
        )
        (rw
          (
            mod-eq_of_lt {n = length osds} {m = word32} (omega (arith, h.node_count)),
            length-map info_members osds,
          )
          (ap some (
            regroup (encode operation_ty (operation_members ope)) (bytes_of 4 (length osds))
              (encode_all (encode info_ty) (map info_members osds)) (bytes_of 1 (of_bool reload)))))

  pub read-message :
      (n : ℕ) × (b1 b2 b3 b4 : Buffer) × (read operation_ty
          (of_content (encode message_ty (message ope osds reload)))
        ≡ some (operation_members ope, b1))
      × (read (scalar 4) b1 ≡ some (n, b2))
      × (ltb n (2 ^ 31) ≡ true)
      × (read_array (read info_ty) n b2 ≡ some (map info_members osds, b3))
      × (read (scalar 1) b3 ≡ some (of_bool reload, b4))
  read-message =
      let bytes = encode message_ty (message ope osds reload) in
      let (b1, b3, b4, e1, e2, e3) =
        read_three operation_ty (vector info_ty) (scalar 1) (operation_members ope)
          (map info_members osds) (of_bool reload) _ _
          (read-encode message_ty (message ope osds reload) message-Sized message-Exact bytes 0 []
            (whole-IsAhead bytes h.size)) in
      let (n, b2, f1, f2, f3) = read-vector info_ty b1 b3 (map info_members osds) e2 in
      (n, b1, b2, b3, b4, e1, f1, f2, f3, e3)
