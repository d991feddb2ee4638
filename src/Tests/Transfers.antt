-- ===== src/Tests/Transfers.antt =====
-- Messages at concrete inputs. A publication handle is a number.
use rmw_opendds.Prelude.{
  length, sym, some-injective, Bool, ℕ, ◌≡◌, refl, true, false, Option, some, none, ok, arith, [],
  ◌∷◌,
}
use rmw_opendds.Text.{Bytes}
use rmw_opendds.Ret.{RmwRet, DdsRet}
use rmw_opendds.Identifier.{opendds_identifier, check_impl_id}
use rmw_opendds.Handles
use rmw_opendds.Handles.{RmwHandle}
use rmw_opendds.Messages.Calls.{
  rmw_publish, rmw_take, rmw_take_with_info, rmw_take_with_info-rmw_take, seen,
}
use rmw_opendds.Messages.RoundTrip.{rmw_take_with_info-rmw_publish}
use rmw_opendds.Messages.{
  Stream, Message, Reader, Writer, no_stream, set_handle, take_stream, take_ros_message,
  publish_serialized_message, publish_ros_message,
}
use rmw_opendds.Messages.Transfer.{
  publish-take, publish_ros_message_hides_failure, take_ros_message_no_data,
}

abbrev writer : Writer
writer = record { narrowed = true; write = λ written. DdsRet.ok }

abbrev broken : Writer
broken = record { narrowed = true; write = λ written. DdsRet.error }

abbrev stream : Stream
stream = record { buffer = some (0 ∷ 1 ∷ 2 ∷ 3 ∷ []); buffer_length = 3; buffer_capacity = 4 }

abbrev message : Message ℕ
message = record { valid_data = true; publication_handle = 7; serialized_data = 0 ∷ 1 ∷ 2 ∷ [] }

abbrev reader : Reader ℕ
reader = record { narrowed = true; answer = (DdsRet.ok, message ∷ []); has_memory = true }

abbrev idle : Reader ℕ
idle = record { narrowed = true; answer = (DdsRet.no_data, []); has_memory = true }

publish-take_example :
    take_stream reader (some no_stream) false (some none)
    ≡ ok (record {
      ret = RmwRet.ok;
      stream =
          some (record { buffer = some (0 ∷ 1 ∷ 2 ∷ []); buffer_length = 3; buffer_capacity = 3 });
      taken = true;
      message_info = some (some 7);
      loan_returned = true;
    })
unfolding publish_serialized_message set_handle
publish-take_example =
    publish-take writer stream (0 ∷ 1 ∷ 2 ∷ []) reader message [] no_stream false (some none) refl
      refl refl refl refl refl

publish_ros_message_example :
    (written : Option Bytes) × (publish_ros_message (λ (m : ℕ). (true, stream)) true broken (some 5)
      ≡ ok (RmwRet.ok, written, true))
publish_ros_message_example =
    publish_ros_message_hides_failure (λ (m : ℕ). (true, stream)) broken 5 (0 ∷ 1 ∷ 2 ∷ 3 ∷ []) refl
      refl (omega arith)

abbrev owned : RmwHandle ℕ
owned = record {
  implementation_identifier = opendds_identifier;
  handle_data = some (1, 4);
  name = some (116 ∷ []);
}

abbrev reject : Stream → Bool × ℕ
reject s = (false, 9)

take_no_data_example :
    take_ros_message reject idle (some 5) true (some true) none
    ≡ ok (RmwRet.error, some 9, some false, none)
take_no_data_example = take_ros_message_no_data reject idle 5 true none refl refl

abbrev accept : Stream → Bool × ℕ
accept s = (true, s.buffer_length)

rmw_take_example :
    seen (rmw_take_with_info reader (some (0, owned)) accept (some 5) (some false) (some none))
    ≡ seen (rmw_take reader (some (0, owned)) accept (some 5) (some false))
rmw_take_example =
    rmw_take_with_info-rmw_take reader (some (0, owned)) accept (some 5) (some false) none

-- A type support of messages that are bytes.
abbrev to_stream : Bytes → Bool × Stream
to_stream bytes = (
  true,
  record { buffer = some bytes; buffer_length = length bytes; buffer_capacity = length bytes },
)

abbrev buffer_of : Option Bytes → Bytes
buffer_of none = []
buffer_of (some bytes) = bytes

abbrev to_bytes : Stream → Bool × Bytes
to_bytes s = (true, buffer_of s.buffer)

rmw_take_with_info_example :
    rmw_take_with_info reader (some (0, owned)) to_bytes (some []) (some false) (some none)
    ≡ ok (RmwRet.ok, some (0 ∷ 1 ∷ 2 ∷ []), some true, some (some 7))
unfolding rmw_publish publish_ros_message Handles.from check_impl_id
rmw_take_with_info_example =
    rmw_take_with_info-rmw_publish to_stream to_bytes writer reader (some (2, owned)) (0, owned)
      (1, 4) (0 ∷ 1 ∷ 2 ∷ []) [] (to_stream (0 ∷ 1 ∷ 2 ∷ [])).1 (0 ∷ 1 ∷ 2 ∷ []) message [] false
      none refl (λ bytes e. rw (sym (some-injective e)) refl) refl refl refl refl refl refl refl
