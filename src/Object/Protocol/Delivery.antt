-- ===== src/Object/Protocol/Delivery.antt =====
-- A request arrives as it was sent: packing on the client and unpacking on the server.
use native.Mathlib.Nat.{le_trans}
use gdfile_store.Base.{
  ℕ, ◌+◌, ◌^◌, ◌≤◌, ◌<◌, ◌≡◌, refl, ap, some, List, [], ◌∷◌, ◌++◌, map, arith, length,
  length-append, length-map, All,
}
use gdfile_store.Base.Int.{ℤ, pos, to_word, of_word-to_word}
use gdfile_store.Buffer.{Buffer, of_content, append, int_max}
use gdfile_store.Codec.Word.{bytes_of, length-bytes_of}
use gdfile_store.Codec.Encode.{encode, encode_text, Sized, write-encode}
use gdfile_store.Codec.RoundTrip.{Exact, read-encode}
use gdfile_store.Codec.Strings.{whole-IsAhead, read-tuple_cons}
use gdfile_store.Codec.{Ty, El, scalar, text, tuple_end, vector, word32, read}
use gdfile_store.Object.{InfoForOsd, Wope}
use gdfile_store.Object.Members.{◌&◌, info_ty, info_members, wope_ty, wope_members}
use gdfile_store.Object.Serial.{IsText, with_pool, InBytes-int}
use gdfile_store.Object.Requests.{
  IsStorableInfo, IsStorableWope, info-Sized, info-Exact, read_info_lem, wope-Sized, wope-Exact,
  read_wope_lem,
}
use gdfile_store.Object.Protocol.{
  Request, req_write, init, multi_write, buffer_ty, buffer_members, read_buffer, parcel_ty,
  http_body, req_write_ty, asyn_write, unpack, handle_req_write, of_req_type, write_req,
}

pub multi_write-encode : (t : Ty) (v : El t) → Sized t v → multi_write t v ≡ some (encode t v)
unfolding multi_write append
multi_write-encode t v n = rw (write-encode t (of_content []) v n)

-- Five members, and three, read one after the other.
pub read_three :
    (r s t : Ty) (x : El r) (y : El s) (z : El t) (b b' : Buffer)
    → read (r & s & t & tuple_end) b ≡ some ((x, (y, (z, tt))), b')
    → (b1 b2 b3 : Buffer) × (read r b ≡ some (x, b1))
      × (read s b1 ≡ some (y, b2))
      × (read t b2 ≡ some (z, b3))
read_three r s t x y z b b' h =
    let (b1, e1, h1) = read-tuple_cons r (s & t & tuple_end) b b' x (y, (z, tt)) h in
    let (b2, e2, h2) = read-tuple_cons s (t & tuple_end) b1 b' y (z, tt) h1 in
    let (b3, e3, h3) = read-tuple_cons t tuple_end b2 b' z tt h2 in (b1, b2, b3, e1, e2, e3)

abbrev pub parcel : InfoForOsd → InfoForOsd → List ℕ → El parcel_ty
parcel from to bytes =
    (info_members from, (info_members to, (buffer_members (of_content bytes), tt)))

pub read_five :
    (q r s t u : Ty) (v : El q) (w : El r) (x : El s) (y : El t) (z : El u) (b b' : Buffer)
    → read (q & r & s & t & u & tuple_end) b ≡ some ((v, (w, (x, (y, (z, tt))))), b')
    → (b1 b2 b3 b4 b5 : Buffer) × (read q b ≡ some (v, b1))
      × (read r b1 ≡ some (w, b2))
      × (read s b2 ≡ some (x, b3))
      × (read t b3 ≡ some (y, b4))
      × (read u b4 ≡ some (z, b5))
read_five q r s t u v w x y z b b' h =
    let (b1, e1, h1) =
      read-tuple_cons q (r & s & t & u & tuple_end) b b' v (w, (x, (y, (z, tt)))) h in
    let (b2, e2, h2) = read-tuple_cons r (s & t & u & tuple_end) b1 b' w (x, (y, (z, tt))) h1 in
    let (b3, b4, b5, e3, e4, e5) = read_three s t u x y z b2 b' h2 in
    (b1, b2, b3, b4, b5, e1, e2, e3, e4, e5)

module _ (from to : InfoForOsd) (bytes : List ℕ) (hf : IsStorableInfo from)
    (ht : IsStorableInfo to) where
  -- The packed bytes and their length are a part of the posted body.
  pub length-parcel : length bytes + 4 ≤ length (encode parcel_ty (parcel from to bytes))
  unfolding buffer_members
  length-parcel =
      let a = encode info_ty (info_members from) in
      let b = encode info_ty (info_members to) in
      let c = encode buffer_ty (buffer_members (of_content bytes)) in
      omega (
        arith,
        length-append a (b ++ (c ++ [])),
        length-append b (c ++ []),
        length-append c [],
        length-append (encode_text bytes) (bytes_of 4 (to_word word32 (pos 0)) ++ []),
        length-append (bytes_of 4 (length bytes)) bytes,
        length-bytes_of 4 (length bytes),
      )

  parcel-Sized : IsText bytes → Sized parcel_ty (parcel from to bytes)
  unfolding buffer_members
  parcel-Sized n = (info-Sized from hf, (info-Sized to ht, ((n, (tt, tt)), tt)))

  parcel-Exact : Exact parcel_ty (parcel from to bytes)
  unfolding buffer_members
  parcel-Exact = (info-Exact from hf, (info-Exact to ht, ((tt, (InBytes-int _, tt)), tt)))

  pub http_body-encode :
      IsText bytes
      → http_body from to (of_content bytes) ≡ some (encode parcel_ty (parcel from to bytes))
  unfolding http_body
  http_body-encode n = multi_write-encode parcel_ty (parcel from to bytes) (parcel-Sized n)

  read_buffer_lem : read_buffer (buffer_members (of_content bytes)) ≡ of_content bytes
  unfolding read_buffer buffer_members
  read_buffer_lem = rw (of_word-to_word word32 (pos 0) (omega arith))

  pub unpack-parcel :
      IsText bytes
      → length (encode parcel_ty (parcel from to bytes)) ≤ int_max
      → unpack (encode parcel_ty (parcel from to bytes)) ≡ some (of_content bytes)
  unfolding unpack
  unpack-parcel n h =
      let (b1, b2, b3, e1, e2, e3) =
        read_three info_ty info_ty buffer_ty (info_members from) (info_members to)
          (buffer_members (of_content bytes)) _ _
          (read-encode parcel_ty (parcel from to bytes) (parcel-Sized n) parcel-Exact
            (encode parcel_ty (parcel from to bytes)) 0 [] (whole-IsAhead _ h)) in
      rw (e1, e2, e3, unpack) (ap some read_buffer_lem)

  -- The sender that http_send names is the first member.
  pub read-parcel :
      IsText bytes
      → length (encode parcel_ty (parcel from to bytes)) ≤ int_max
      → (b : Buffer) × (read info_ty (of_content (encode parcel_ty (parcel from to bytes)))
          ≡ some (info_members from, b))
  read-parcel n h =
      let (b1, b2, b3, e1, e2, e3) =
        read_three info_ty info_ty buffer_ty (info_members from) (info_members to)
          (buffer_members (of_content bytes)) _ _
          (read-encode parcel_ty (parcel from to bytes) (parcel-Sized n) parcel-Exact
            (encode parcel_ty (parcel from to bytes)) 0 [] (whole-IsAhead _ h)) in
      (b1, e1)

pub infos-Sized :
    (is : List InfoForOsd) → All IsStorableInfo is → All (Sized info_ty) (map info_members is)
infos-Sized [] h = tt
infos-Sized (i ∷ is) h = (info-Sized i h.0, infos-Sized is h.1)

pub infos-Exact :
    (is : List InfoForOsd) → All IsStorableInfo is → All (Exact info_ty) (map info_members is)
infos-Exact [] h = tt
infos-Exact (i ∷ is) h = (info-Exact i h.0, infos-Exact is h.1)

-- The message of asynWrite: what is packed, and what is posted.
module _ (from to : InfoForOsd) (tos : List InfoForOsd) (wope : Wope) (ope_id : List ℕ) where
  abbrev pub req_write_members : El req_write_ty
  req_write_members = (
    info_members from,
    (map info_members (to ∷ tos), (wope_members wope, (of_req_type write_req, (ope_id, tt)))),
  )

  abbrev pub posted : List ℕ
  posted = encode parcel_ty (parcel from to (encode req_write_ty req_write_members))

  -- The parts of the message are values of their C++ types, and the posted body has at most
  -- INT_MAX bytes.
  pub record IsSendable : Type 0 where
    pub sender : IsStorableInfo from
    pub receivers : All IsStorableInfo (to ∷ tos)
    pub receiver_count : length (to ∷ tos) < 2 ^ 31
    pub write_ope : IsStorableWope wope
    pub id : IsText ope_id
    pub size : length posted ≤ int_max

module _ (from to : InfoForOsd) (tos : List InfoForOsd) (wope : Wope) (ope_id : List ℕ)
    (h : IsSendable from to tos wope ope_id) where
  message : El req_write_ty
  message = req_write_members from to tos wope ope_id

  message-Sized : Sized req_write_ty message
  unfolding message
  message-Sized = (
    info-Sized from h.sender,
    (
      (rw (length-map info_members tos) (h.receiver_count), infos-Sized (to ∷ tos) h.receivers),
      (wope-Sized wope h.write_ope, (tt, (h.id, tt))),
    ),
  )

  message-Exact : Exact req_write_ty message
  unfolding message
  message-Exact = (
    info-Exact from h.sender,
    (infos-Exact (to ∷ tos) h.receivers, (wope-Exact wope h.write_ope, (omega arith, (tt, tt)))),
  )

  -- The server that a write request reaches gets the operation, its id and the client's address as
  -- the client packed them, with the state `init`; only the pools of the two objects are not the
  -- client's, but what the server's memory held.
  pub handle_req_write-asyn_write :
      (pool new_pool : ℤ)
      → (r : Request) × (asyn_write from (to ∷ tos) wope ope_id ≡ some r)
        × (r.target ≡ to)
        × (r.route ≡ req_write)
        × (handle_req_write pool new_pool r.body
            ≡ some (record {
              ope_id = ope_id;
              wope = record wope {
                ghobj = with_pool pool wope.ghobj;
                new_ghobj = with_pool new_pool wope.new_ghobj;
              };
              from = from;
              wope_state = init;
            }))
  unfolding asyn_write handle_req_write message
  handle_req_write-asyn_write pool new_pool =
      let bytes = encode req_write_ty message in
      let fits : length bytes + 4 ≤ int_max =
        le_trans (length-parcel from to bytes h.sender h.receivers.0) h.size in
      let reads =
        read_five info_ty (vector info_ty) wope_ty (scalar 4) text (info_members from)
          (map info_members (to ∷ tos)) (wope_members wope) (of_req_type write_req) ope_id _ _
          (read-encode req_write_ty message message-Sized message-Exact bytes 0 []
            (whole-IsAhead bytes (omega arith))) in
      (
        record { target = to; route = req_write; body = posted from to tos wope ope_id },
        rw (
          multi_write-encode req_write_ty message message-Sized,
          http_body-encode from to bytes h.sender h.receivers.0 (omega arith),
        ),
        refl,
        refl,
        rw (unpack-parcel from to bytes h.sender h.receivers.0 (omega arith) h.size) (
            rw (reads.5, reads.6, reads.7, reads.8, reads.9, handle_req_write)
              (ap some
                (rw (read_info_lem from h.sender, read_wope_lem wope h.write_ope pool new_pool)))),
      )
