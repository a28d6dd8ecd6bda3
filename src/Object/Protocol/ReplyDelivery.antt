-- ===== src/Object/Protocol/ReplyDelivery.antt =====
-- A reply arrives as it was sent.
use native.Mathlib.Nat.{le_trans}
use gdfile_store.Base.{
  ℕ, zero, suc, none, get_elem?, ◌+◌, ◌<◌, ◌≤◌, ◌≡◌, refl, some, List, [], ◌∷◌, ◌>>=◌, arith,
  length,
}
use gdfile_store.Base.Int.{ℤ}
use gdfile_store.Buffer.{Buffer, of_content, int_max}
use gdfile_store.Codec.Word.{InBytes}
use gdfile_store.Codec.Encode.{encode, Sized}
use gdfile_store.Codec.RoundTrip.{Exact, read-encode}
use gdfile_store.Codec.Strings.{whole-IsAhead, read-tuple_cons}
use gdfile_store.Codec.{Ty, El, scalar, text, tuple_end, word32, read}
use gdfile_store.Object.{InfoForOsd, RopeResult}
use gdfile_store.Object.Members.{◌&◌, info_ty, info_members, result_ty, result_members}
use gdfile_store.Object.Serial.{with_pool}
use gdfile_store.Object.Requests.{IsStorableInfo, IsStorableResult, read_info_lem, read_result_lem}
use gdfile_store.Object.Protocol.Delivery.{
  multi_write-encode, parcel, length-parcel, http_body-encode, unpack-parcel, read-parcel,
  read_three,
}
use gdfile_store.Object.Protocol.Replies.{
  rep_write_ty, send_rep_write, send_rep_read, rep_write_job, rep_read_job, unpack_rep_write,
  unpack_rep_read,
}
use gdfile_store.Object.Protocol.{
  Request, rep_write, rep_read, RepType, other_rep, replica_journal_write, replica_disk_write,
  primary_journal_write, primary_disk_write, replica_journal_recover, replica_disk_recover,
  primary_journal_recover, primary_disk_recover, of_rep_type, to_rep_type, primary_read, rep_types,
  parcel_ty, multi_write, http_body, unpack,
}

-- The body that carries a message.
abbrev pub posted_body : InfoForOsd → InfoForOsd → (t : Ty) → El t → List ℕ
posted_body from to t v = encode parcel_ty (parcel from to (encode t v))

-- The two nodes and the message are values of their C++ types, and the body has at most INT_MAX
-- bytes.
pub record IsPostable (from to : InfoForOsd) (t : Ty) (v : El t) : Type 0 where
  pub sender : IsStorableInfo from
  pub receiver : IsStorableInfo to
  pub sized : Sized t v
  pub exact : Exact t v
  pub size : length (posted_body from to t v) ≤ int_max

module _ (from to : InfoForOsd) (t : Ty) (v : El t) (h : IsPostable from to t v) where
  pub fits_text : length (encode t v) + 4 ≤ int_max
  fits_text = le_trans (length-parcel from to (encode t v) h.sender h.receiver) h.size

  pub post_lem :
      (multi_write t v >>= λ (packed : List ℕ). http_body from to (of_content packed))
      ≡ some (posted_body from to t v)
  post_lem =
      let n = fits_text in
      rw (multi_write-encode t v h.sized)
        (http_body-encode from to (encode t v) h.sender h.receiver (omega arith))

  pub unpack-posted : unpack (posted_body from to t v) ≡ some (of_content (encode t v))
  unpack-posted =
      let n = fits_text in
      unpack-parcel from to (encode t v) h.sender h.receiver (omega arith) h.size

  pub read-posted :
      (b : Buffer) × (read info_ty (of_content (posted_body from to t v))
        ≡ some (info_members from, b))
  read-posted =
      let n = fits_text in read-parcel from to (encode t v) h.sender h.receiver (omega arith) h.size

  pub read-message : (b : Buffer) × (read t (of_content (encode t v)) ≡ some (v, b))
  read-message =
      let n = fits_text in
      (
        _,
        read-encode t v h.sized h.exact (encode t v) 0 []
            (whole-IsAhead (encode t v) (omega arith)),
      )

-- A number of the enumeration that the source does not name is no number that it names.
abbrev pub IsRepType : RepType → Type 0
IsRepType (other_rep n) = (8 < n) × (n < word32)
IsRepType _ = Unit {0}

past_end : {A : Type 0} (xs : List A) (n : ℕ) → length xs ≤ n → get_elem? xs n ≡ none
past_end [] n h = refl
past_end (x ∷ xs) zero h = absurd (omega arith)
past_end (x ∷ xs) (suc n) h = past_end xs n (omega arith)

pub rep_type_exact :
    (rt : RepType) → IsRepType rt → InBytes 4 (of_rep_type rt) × (to_rep_type (of_rep_type rt) ≡ rt)
unfolding to_rep_type
rep_type_exact replica_journal_write h = (omega arith, refl)
rep_type_exact replica_disk_write h = (omega arith, refl)
rep_type_exact primary_journal_write h = (omega arith, refl)
rep_type_exact primary_disk_write h = (omega arith, refl)
rep_type_exact replica_journal_recover h = (omega arith, refl)
rep_type_exact replica_disk_recover h = (omega arith, refl)
rep_type_exact primary_journal_recover h = (omega arith, refl)
rep_type_exact primary_disk_recover h = (omega arith, refl)
rep_type_exact primary_read h = (omega arith, refl)
rep_type_exact (other_rep n) h = (omega arith, rw (past_end rep_types n (omega arith)))

abbrev pub reply_members : InfoForOsd → RepType → List ℕ → El rep_write_ty
reply_members from rt ope_id = (info_members from, (of_rep_type rt, (ope_id, tt)))

-- A reply to a write is posted to the client's route "/repWrite", whose handler unpacks from it
-- the sender, the kind of reply and the id of the operation as the server packed them.
pub unpack_rep_write-send_rep_write :
    (from to : InfoForOsd) (rt : RepType) (ope_id : List ℕ)
    → IsRepType rt
    → IsPostable from to rep_write_ty (reply_members from rt ope_id)
    → (r : Request) × (send_rep_write from to rt ope_id ≡ some r)
      × (r.target ≡ to)
      × (r.route ≡ rep_write)
      × (unpack_rep_write r.body ≡ some (rep_write_job from rt ope_id))
unfolding send_rep_write unpack_rep_write
unpack_rep_write-send_rep_write from to rt ope_id hr h =
    let v = reply_members from rt ope_id in
    let n = fits_text from to rep_write_ty v h in
    let (b1, b2, b3, e1, e2, e3) =
      read_three info_ty (scalar 4) text (info_members from) (of_rep_type rt) ope_id _ _
        (read-message from to rep_write_ty v h).1 in
    (
      record { target = to; route = rep_write; body = posted_body from to rep_write_ty v },
      rw (
        multi_write-encode rep_write_ty v h.sized,
        http_body-encode from to (encode rep_write_ty v) h.sender h.receiver (omega arith),
      ),
      refl,
      refl,
      rw (unpack-posted from to rep_write_ty v h, e1, e2, e3, read_info_lem from h.sender)
          (rw ((rep_type_exact rt hr).1)),
    )

-- A reply to a read is posted to the client's route "/repRead", whose handler unpacks from it the
-- sender, the operation's id and the result as the server packed them; only the pool of the
-- result's object is what the client's memory held.
pub unpack_rep_read-send_rep_read :
    (from to : InfoForOsd) (result : RopeResult)
    → IsStorableResult result
    → IsPostable from to (result_ty & tuple_end) (result_members result, tt)
    → (pool : ℤ)
    → (r : Request) × (send_rep_read from to result ≡ some r)
      × (r.target ≡ to)
      × (r.route ≡ rep_read)
      × (unpack_rep_read pool r.body
          ≡ some (
              rep_read_job from primary_read result.ope_id
                (record result { ghobj = with_pool pool result.ghobj })))
unfolding send_rep_read unpack_rep_read
unpack_rep_read-send_rep_read from to result hr h pool =
    let t = result_ty & tuple_end in
    let v : El (result_ty & tuple_end) = (result_members result, tt) in
    let n = fits_text from to t v h in
    let (b1, e1, h1) =
      read-tuple_cons result_ty tuple_end _ _ (result_members result) tt
        (read-message from to t v h).1 in
    let (b0, e0) = read-posted from to t v h in
    (
      record { target = to; route = rep_read; body = posted_body from to t v },
      rw (
        multi_write-encode t v h.sized,
        http_body-encode from to (encode t v) h.sender h.receiver (omega arith),
      ),
      refl,
      refl,
      rw (unpack-posted from to t v h, e0, e1, unpack_rep_read, read_info_lem from h.sender)
          (rw (read_result_lem result hr pool)),
    )
