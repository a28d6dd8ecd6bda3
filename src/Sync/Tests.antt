-- ===== src/Sync/Tests.antt =====
-- A synchronous write of "d" behind "abc".
use gdfile_store.Base.{
  ℕ, ◌>>=◌, if◌then◌else◌, ◌≡◌, refl, true, false, Bool, Option, some, List, [], ◌∷◌, arith, length,
  bytes_eq,
}
use gdfile_store.Base.Int.{pos, ◌+ℤ◌, ◌-ℤ◌}
use gdfile_store.KeyValue.Assoc.{find, assign}
use gdfile_store.Buffer.{append}
use gdfile_store.Slice.{get_size}
use gdfile_store.Operation.{combine_operations, get_buffer_from_slices}
use gdfile_store.Object.Compare.{get_obj_unique_str_desc}
use gdfile_store.Codec.Word.{bytes_of}
use gdfile_store.Codec.Encode.{encode}
use gdfile_store.Object.{Operation, InfoForOsd, insert, begin}
use gdfile_store.Object.Members.{operation_members, info_members}
use gdfile_store.Object.Sample.{object, node, object-IsStorable, node-IsStorable}
use gdfile_store.Object.Serial.{IsStorableOperation, with_pool}
use gdfile_store.Journal.{Journal, handle_write_operations, named_in}
use gdfile_store.Sync.Message.{message_ty, message, IsSendable}
use gdfile_store.Sync.Delivery.{received, write_and_wait_return-handle_write}
use gdfile_store.Sync.{
  success, fail_anyway, fail_of_primary, write_message, write_and_wait_return, body_of,
  handle_write,
}

abbrev put_ope : Operation
put_ope = record {
  operation_type = insert;
  slice = record {
    source = some (record { content = b'x' ∷ []; offset = pos 0 });
    start = pos 0;
    end = pos 1;
  };
  obj = object;
  file_pos = record { file_anchor = begin; offset = pos 0 };
}

put_ope-IsStorable : IsStorableOperation put_ope
put_ope-IsStorable = record {
  operation_type = tt;
  sized = omega arith;
  exact = (refl, omega arith, omega arith);
  obj = object-IsStorable;
  file_anchor = tt;
  offset = omega arith;
}

length-message : length (encode message_ty (message put_ope (node 9090 ∷ []) false)) ≡ 81
unfolding bytes_of operation_members info_members
length-message = refl

put_ope-IsSendable : IsSendable put_ope (node 9090 ∷ []) false
put_ope-IsSendable = record {
  operation = put_ope-IsStorable;
  nodes = (node-IsStorable 9090 (omega arith), tt);
  node_count = omega arith;
  size = omega (arith, length-message);
}

abbrev no_files : Journal
no_files = record { files = []; wopes = [] }

abbrev with_file : Journal
with_file = record {
  files = (get_obj_unique_str_desc (with_pool (pos 0) object), b'x' ∷ []) ∷ [];
  wopes = [];
}

flushed : handle_write_operations (received (pos 0) put_ope ∷ []) true no_files ≡ some with_file
unfolding handle_write_operations combine_operations find assign append ◌+ℤ◌ get_size ◌-ℤ◌
    get_buffer_from_slices
flushed = refl

abbrev is_valid : InfoForOsd → Bool
is_valid o = true

-- The node "n", with no files yet, answers every post.
abbrev post : InfoForOsd → List ℕ → Option (List ℕ)
post o body = handle_write (b'n' ∷ []) (pos 0) body no_files >>= λ (r : List ℕ × Journal). some r.0

write_and_wait_return-handle_write_example :
    (body : List ℕ) × (write_message put_ope (node 9090 ∷ []) false ≡ some body)
    × (handle_write (b'n' ∷ []) (pos 0) body no_files
        ≡ some (
          body_of (named_in (b'n' ∷ []) (node 9090 ∷ [])),
          if named_in (b'n' ∷ []) (node 9090 ∷ []) then with_file else no_files,
        ))
    × (write_and_wait_return is_valid post put_ope (node 9090 ∷ []) false
        ≡ some (if named_in (b'n' ∷ []) (node 9090 ∷ []) then success else fail_anyway))
write_and_wait_return-handle_write_example =
    write_and_wait_return-handle_write is_valid post (b'n' ∷ []) (pos 0) put_ope (node 9090) []
      false no_files with_file put_ope-IsSendable refl flushed (λ body reply k e. rw e refl)

-- Nobody to ask, and nobody who answers.
no_nodes : write_and_wait_return is_valid post put_ope [] false ≡ some fail_of_primary
unfolding write_and_wait_return
no_nodes = refl

named : named_in (b'n' ∷ []) (node 9090 ∷ []) ≡ true
unfolding named_in bytes_eq
named = refl
