-- ===== src/Object/Protocol/ReadDelivery.antt =====
-- A read request arrives as it was sent.
use native.Mathlib.Nat.{le_trans}
use gdfile_store.Base.{
  ℕ, ◌+◌, ◌^◌, ◌≤◌, ◌<◌, ◌≡◌, refl, ap, some, List, [], ◌∷◌, map, arith, length, length-map, All,
}
use gdfile_store.Base.Int.{ℤ}
use gdfile_store.Buffer.{int_max}
use gdfile_store.Codec.Encode.{encode, Sized}
use gdfile_store.Codec.RoundTrip.{Exact, read-encode}
use gdfile_store.Codec.Strings.{whole-IsAhead}
use gdfile_store.Codec.{El, scalar, text, vector}
use gdfile_store.Object.{InfoForOsd, Rope}
use gdfile_store.Object.Members.{info_ty, info_members, rope_ty, rope_members}
use gdfile_store.Object.Serial.{IsText, with_pool}
use gdfile_store.Object.Requests.{
  IsStorableInfo, IsStorableRope, info-Sized, info-Exact, read_info_lem, rope-Sized, rope-Exact,
  read_rope_lem,
}
use gdfile_store.Object.Protocol.Delivery.{
  multi_write-encode, parcel, length-parcel, http_body-encode, unpack-parcel, read_five,
  infos-Sized, infos-Exact,
}
use gdfile_store.Object.Protocol.{
  Request, req_read, parcel_ty, req_read_ty, asyn_read, handle_req_read, of_req_type, read_req,
}

-- The message of asynRead: what is packed, and what is posted.
module _ (from to : InfoForOsd) (tos : List InfoForOsd) (rope : Rope) (ope_id : List ℕ) where
  abbrev pub req_read_members : El req_read_ty
  req_read_members = (
    info_members from,
    (map info_members (to ∷ tos), (rope_members rope, (of_req_type read_req, (ope_id, tt)))),
  )

  abbrev pub posted_read : List ℕ
  posted_read = encode parcel_ty (parcel from to (encode req_read_ty req_read_members))

  -- The parts of the message are values of their C++ types, and the posted body has at most
  -- INT_MAX bytes.
  pub record IsSendableRead : Type 0 where
    pub sender : IsStorableInfo from
    pub receivers : All IsStorableInfo (to ∷ tos)
    pub receiver_count : length (to ∷ tos) < 2 ^ 31
    pub read_ope : IsStorableRope rope
    pub id : IsText ope_id
    pub size : length posted_read ≤ int_max

module _ (from to : InfoForOsd) (tos : List InfoForOsd) (rope : Rope) (ope_id : List ℕ)
    (h : IsSendableRead from to tos rope ope_id) where
  message : El req_read_ty
  message = req_read_members from to tos rope ope_id

  message-Sized : Sized req_read_ty message
  unfolding message
  message-Sized = (
    info-Sized from h.sender,
    (
      (rw (length-map info_members tos) (h.receiver_count), infos-Sized (to ∷ tos) h.receivers),
      (rope-Sized rope h.read_ope, (tt, (h.id, tt))),
    ),
  )

  message-Exact : Exact req_read_ty message
  unfolding message
  message-Exact = (
    info-Exact from h.sender,
    (infos-Exact (to ∷ tos) h.receivers, (rope-Exact rope h.read_ope, (omega arith, (tt, tt)))),
  )

  -- The server that a read request reaches gets the object, the blocks, the request's id and the
  -- client's address as the client packed them; only the object's pool is what the server's memory
  -- held.
  pub handle_req_read-asyn_read :
      (pool : ℤ)
      → (r : Request) × (asyn_read from (to ∷ tos) rope ope_id ≡ some r)
        × (r.target ≡ to)
        × (r.route ≡ req_read)
        × (handle_req_read pool r.body
            ≡ some (record {
              ope_id = ope_id;
              rope = record rope { ghobj = with_pool pool rope.ghobj };
              from = from;
            }))
  unfolding asyn_read handle_req_read message
  handle_req_read-asyn_read pool =
      let bytes = encode req_read_ty message in
      let fits : length bytes + 4 ≤ int_max =
        le_trans (length-parcel from to bytes h.sender h.receivers.0) h.size in
      let reads =
        read_five info_ty (vector info_ty) rope_ty (scalar 4) text (info_members from)
          (map info_members (to ∷ tos)) (rope_members rope) (of_req_type read_req) ope_id _ _
          (read-encode req_read_ty message message-Sized message-Exact bytes 0 []
            (whole-IsAhead bytes (omega arith))) in
      (
        record { target = to; route = req_read; body = posted_read from to tos rope ope_id },
        rw (
          multi_write-encode req_read_ty message message-Sized,
          http_body-encode from to bytes h.sender h.receivers.0 (omega arith),
        ),
        refl,
        refl,
        rw (unpack-parcel from to bytes h.sender h.receivers.0 (omega arith) h.size) (
            rw (reads.5, reads.6, reads.7, reads.8, reads.9, handle_req_read)
              (ap some (rw (read_info_lem from h.sender, read_rope_lem rope h.read_ope pool)))),
      )
