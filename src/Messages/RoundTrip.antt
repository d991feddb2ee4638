-- ===== src/Messages/RoundTrip.antt =====
-- A ROS message from `rmw_publish` (rmw_opendds_cpp/src/rmw_publish.cpp) to `rmw_take_with_info`
-- (src/rmw_take.cpp).
use rmw_opendds.Prelude.{
  ℕ, ◌≡◌, ◌≤◌, refl, Bool, true, arith, Option, some, List, ◌∷◌, length, take, length-take, ok,
  Option-cases, inl, inr,
}
use rmw_opendds.Text.{Bytes}
use rmw_opendds.Ret.{RmwRet, DdsRet}
use rmw_opendds.Handles
use rmw_opendds.Handles.{RmwHandle}
use rmw_opendds.Messages.{
  Stream, Message, Reader, Writer, buffer_max, take_ros_message, to_ros_message, no_stream,
  set_handle, publish, copy_buffer, publish_ros_message, has_buffer,
}
use rmw_opendds.Messages.Transfer.{take_stream-valid}
use rmw_opendds.Messages.Calls.{is_there, rmw_publish, rmw_take_with_info}

-- The stream that a take makes of the bytes of a sample.
abbrev pub stream_of : ℕ → Bytes → Stream
stream_of n bytes = record { buffer = some bytes; buffer_length = n; buffer_capacity = n }

-- What a successful publication of a message has written: the bytes of the stream of the message.
published_bytes :
    {M : Type 0} (to_cdr_stream : M → Bool × Stream) (dds_pub : Bool) (writer : Writer) (m : M)
    (s : Stream) (written : Bytes)
    → to_cdr_stream m ≡ (true, s)
    → publish_ros_message to_cdr_stream dds_pub writer (some m) ≡ ok (RmwRet.ok, some written, true)
    → (bytes : Bytes) × (s.buffer ≡ some bytes)
      × ((written ≡ take s.buffer_length bytes)
          × (length written ≡ s.buffer_length)
          × (s.buffer_length ≤ buffer_max))
unfolding publish_ros_message publish copy_buffer has_buffer
published_bytes to_cdr_stream dds_pub writer m s written c h = elim (Option-cases s.buffer) [
  | inl e ↦ ground (arith, e, c, h)
  | inr (bytes, e) ↦ (bytes, e, ground (arith, e, c, h, length-take s.buffer_length bytes))
]

module _ {Handle D M : Type 0} (to_cdr_stream : M → Bool × Stream) (to_message : Stream → Bool × M)
    (writer : Writer) (reader : Reader Handle) where
  -- A ROS message that `rmw_publish` has written, brought back as a valid sample by a reader of the
  -- right type behind a subscription of the package, is what `rmw_take_with_info` with no null
  -- pointer fills in with RMW_RET_OK: `*taken` is set and `*message_info` names the publication.
  -- The allocator is to have memory, and the type support to read its own bytes back.
  pub rmw_take_with_info-rmw_publish :
      (publisher : Option (ℕ × RmwHandle D)) (subscription : ℕ × RmwHandle D) (dds_sub : ℕ × D)
      (m old : M) (s : Stream) (written : Bytes) (msg : Message Handle)
      (rest : List (Message Handle)) (was_taken : Bool) (info : Option Handle)
      → to_cdr_stream m ≡ (true, s)
      → ((bytes : Bytes)
          → s.buffer ≡ some bytes
          → to_message (stream_of s.buffer_length (take s.buffer_length bytes)) ≡ (true, m))
      → rmw_publish writer publisher to_cdr_stream (some m) ≡ ok (RmwRet.ok, some written, true)
      → Handles.from (some subscription) ≡ some dds_sub
      → reader.narrowed ≡ true
      → reader.answer ≡ (DdsRet.ok, msg ∷ rest)
      → msg.valid_data ≡ true
      → msg.serialized_data ≡ written
      → reader.has_memory ≡ true
      → rmw_take_with_info reader
          (some subscription)
          to_message
          (some old)
          (some was_taken)
          (some info)
        ≡ ok (RmwRet.ok, some m, some true, some (some msg.publication_handle))
  unfolding rmw_publish rmw_take_with_info take_ros_message to_ros_message set_handle
  rmw_take_with_info-rmw_publish publisher subscription dds_sub m old s written msg rest was_taken
        info c reads h there n a v d mem =
      let (bytes, e, (same, len, fits)) =
        published_bytes to_cdr_stream (is_there publisher) writer m s written c h in
      let taken =
        take_stream-valid reader msg rest written s.buffer_length no_stream was_taken (some info)
          len fits n a v d mem in
      let read : to_message (stream_of s.buffer_length written) ≡ (true, m) =
        rw (same) (reads bytes e) in
      rw (there, rmw_take_with_info, is_there, take_ros_message, taken, to_ros_message, read) refl
