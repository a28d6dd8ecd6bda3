-- ===== src/Sync.antt =====
-- The synchronous write: WriteAndWaitReturn of src/deps/ConnectionClient.cpp and the route "/write"
-- of src/deps/ConnectionServer.cpp. The HTTP library is outside: whether it takes an address, and
-- what it answers to a post, are arguments.
pub mod Message
pub mod Delivery
pub mod Tests
use gdfile_store.Base.{
  ℕ, ◌%◌, ◌^◌, ◌≡◌, Bool, true, false, Option, none, some, List, [], ◌∷◌, ◌>>=◌, map, ltb, bytes_eq,
  if◌then◌else◌, length,
}
use gdfile_store.Base.Int.{ℤ}
use gdfile_store.Buffer.{of_content}
use gdfile_store.Codec.{scalar, word32, write, read, write_array, read_array}
use gdfile_store.Object.{Operation, InfoForOsd}
use gdfile_store.Object.Members.{
  operation_ty, operation_members, read_operation, info_ty, info_members, read_info, of_bool,
}
use gdfile_store.Journal.{Journal, handle_write_operation}

pub data ReturnType : Type 0 where
  success fail_of_primary fail_of_replica fail_anyway : ReturnType

abbrev pub success_text : List ℕ
success_text = b's' ∷ b'u' ∷ b'c' ∷ b'c' ∷ b'e' ∷ b's' ∷ b's' ∷ []

-- The body of the request: the operation, the number of the nodes, the nodes, and a flag.
unfoldable pub write_message : Operation → List InfoForOsd → Bool → Option (List ℕ)
unfolding write write_array operation_members info_members
write_message ope osds reload = do
  b1 ← write operation_ty (of_content []) (operation_members ope)
  b2 ← write (scalar 4) b1 (length osds % word32)
  b3 ← write_array (write info_ty) b2 (map info_members osds)
  b4 ← write (scalar 1) b3 (of_bool reload)
  some b4.content

-- No answer, or another than "success", is a failure.
unfoldable pub of_answer : Option (List ℕ) → ReturnType
of_answer none = fail_anyway
of_answer (some body) = if bytes_eq body success_text then success else fail_anyway

module _ (is_valid : InfoForOsd → Bool) (post : InfoForOsd → List ℕ → Option (List ℕ)) where
  abbrev pub posted_to : InfoForOsd → Option (List ℕ) → Option ReturnType
  posted_to to none = none
  posted_to to (some body) = some (of_answer (post to body))

  -- FSConnnectionClient::WriteAndWaitReturn: only the first node is asked.
  unfoldable pub write_and_wait_return : Operation → List InfoForOsd → Bool → Option ReturnType
  unfolding write_message of_answer
  write_and_wait_return ope [] reload = some fail_of_primary
  write_and_wait_return ope (primary ∷ osds) reload =
      if is_valid primary
      then posted_to primary (write_message ope (primary ∷ osds) reload)
      else some fail_anyway

-- FSConnnectionClient::Read, which asks nobody: the value of ConnectionReturnType().
unfoldable pub read_object : ReturnType
read_object = success

abbrev pub body_of : Bool → List ℕ
body_of true = success_text
body_of false = []

-- The handler of "/write": the response's body, and the journal of the node behind it. A negative
-- number of nodes throws.
unfoldable pub handle_write : List ℕ → ℤ → List ℕ → Journal → Option (List ℕ × Journal)
unfolding read read_array read_operation read_info handle_write_operation
handle_write name pool body j = do
  (ope, b1) ← read operation_ty (of_content body)
  (osd_len, b2) ← read (scalar 4) b1
  (osds, b3) ← (if ltb osd_len (2 ^ 31) then read_array (read info_ty) osd_len b2 else none)
  (reload, b4) ← read (scalar 1) b3
  (result, j') ← handle_write_operation name (read_operation pool ope) (map read_info osds) j
  some (body_of result, j')
