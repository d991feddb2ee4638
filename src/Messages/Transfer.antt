-- ===== src/Messages/Transfer.antt =====
-- A message from the publishing functions to the taking ones, and their answers.
use rmw_opendds.Prelude.{
  ℕ, ◌≡◌, ◌≤◌, refl, ◌∙◌, ap, Bool, true, false, arith, Option, none, some, List, [], ◌∷◌, ltb,
  ◌==◌, length, length-take, if◌then◌else◌, ok, Returns, ok_of_Returns, Option-cases, Bool-cases,
  inl, inr,
}
use rmw_opendds.Text.{Bytes}
use rmw_opendds.Ret.{RmwRet, DdsRet}
use rmw_opendds.Messages.{
  Stream, Message, Reader, Writer, buffer_max, take_stream, take_first, take_message, give_back,
  is_no_data, set_handle, take_ros_message, to_ros_message, no_stream, publish, copy_buffer,
  publish_serialized_message, publish_ros_message, has_buffer,
}

-- What a successful publication has written.
written_lem :
    (writer : Writer) (s : Stream) (written : Bytes)
    → publish_serialized_message true writer (some s) ≡ ok (RmwRet.ok, some written)
    → (length written ≡ s.buffer_length) × (s.buffer_length ≤ buffer_max)
unfolding publish_serialized_message publish copy_buffer
written_lem writer s written h = elim (Option-cases s.buffer) [
  | inl e ↦ ground (arith, e, h)
  | inr (bytes, e) ↦ ground (arith, e, h, length-take s.buffer_length bytes)
]

-- A valid sample of a length that fits is taken, with memory and a reader of the right type.
pub take_stream-valid :
    {Handle : Type 0} (reader : Reader Handle) (msg : Message Handle) (rest : List (Message Handle))
    (written : Bytes) (n : ℕ) (old : Stream) (was_taken : Bool)
    (message_info : Option (Option Handle))
    → length written ≡ n
    → n ≤ buffer_max
    → reader.narrowed ≡ true
    → reader.answer ≡ (DdsRet.ok, msg ∷ rest)
    → msg.valid_data ≡ true
    → msg.serialized_data ≡ written
    → reader.has_memory ≡ true
    → take_stream reader (some old) was_taken message_info
      ≡ ok (record {
        ret = RmwRet.ok;
        stream = some (record { buffer = some written; buffer_length = n; buffer_capacity = n });
        taken = true;
        message_info = set_handle msg.publication_handle message_info;
        loan_returned = true;
      })
unfolding take_stream take_first take_message give_back
take_stream-valid reader msg rest written n old was_taken message_info len fits narrow a v d m =
    let same : length msg.serialized_data ≡ n = ap length d ∙ len in
    let below : ltb buffer_max n ≡ false = ground (arith, fits) in
    rw (narrow, a, v, m, same, below, d, take_stream, take_first, take_message, give_back) refl

-- A serialized message that `rmw_publish_serialized_message` has written with RMW_RET_OK, brought
-- back by a reader as a valid sample, is taken with RMW_RET_OK: `*taken` is set, the loan is
-- returned, and the stream has the bytes written and their length, which is that of the message
-- published, provided that the allocator has memory.
pub publish-take :
    {Handle : Type 0} (writer : Writer) (s : Stream) (written : Bytes) (reader : Reader Handle)
    (msg : Message Handle) (rest : List (Message Handle)) (old : Stream) (was_taken : Bool)
    (message_info : Option (Option Handle))
    → publish_serialized_message true writer (some s) ≡ ok (RmwRet.ok, some written)
    → reader.narrowed ≡ true
    → reader.answer ≡ (DdsRet.ok, msg ∷ rest)
    → msg.valid_data ≡ true
    → msg.serialized_data ≡ written
    → reader.has_memory ≡ true
    → take_stream reader (some old) was_taken message_info
      ≡ ok (record {
        ret = RmwRet.ok;
        stream = some (record {
          buffer = some written;
          buffer_length = s.buffer_length;
          buffer_capacity = s.buffer_length;
        });
        taken = true;
        message_info = set_handle msg.publication_handle message_info;
        loan_returned = true;
      })
publish-take writer s written reader msg rest old was_taken message_info h =
    let (len, fits) = written_lem writer s written h in
    take_stream-valid reader msg rest written s.buffer_length old was_taken message_info len fits

publish-Returns :
    (writer : Writer) (s : Stream) (bytes : Bytes)
    → s.buffer ≡ some bytes
    → s.buffer_length ≤ length bytes
    → Returns (publish writer s)
unfolding publish copy_buffer
publish-Returns writer s bytes b l = ground (arith, b, l)

published_lem :
    {M : Type 0} (to_cdr_stream : M → Bool × Stream) (writer : Writer) (ros_message : M)
    (bytes : Bytes) (p : Bool × Option Bytes)
    → (to_cdr_stream ros_message).0 ≡ true
    → (to_cdr_stream ros_message).1.buffer ≡ some bytes
    → ((to_cdr_stream ros_message).1.buffer_length == 0) ≡ false
    → publish writer (to_cdr_stream ros_message).1 ≡ ok p
    → publish_ros_message to_cdr_stream true writer (some ros_message) ≡ ok (RmwRet.ok, p.1, true)
unfolding publish_ros_message has_buffer
published_lem to_cdr_stream writer ros_message bytes p d b z e =
    rw (d, z, e, b, publish_ros_message, has_buffer) refl

-- Once the type support has serialized a message to a buffer at least as long as it says,
-- `rmw_publish` on a publisher of the package answers RMW_RET_OK, whatever the writer of DDS
-- answers: a failure to publish is not reported.
pub publish_ros_message_hides_failure :
    {M : Type 0} (to_cdr_stream : M → Bool × Stream) (writer : Writer) (ros_message : M)
    (bytes : Bytes)
    → (to_cdr_stream ros_message).0 ≡ true
    → (to_cdr_stream ros_message).1.buffer ≡ some bytes
    → (to_cdr_stream ros_message).1.buffer_length ≤ length bytes
    → (written : Option Bytes) × (publish_ros_message to_cdr_stream true writer (some ros_message)
        ≡ ok (RmwRet.ok, written, true))
unfolding publish_ros_message
publish_ros_message_hides_failure to_cdr_stream writer ros_message bytes d b l =
    let s = (to_cdr_stream ros_message).1 in
    elim (Bool-cases (s.buffer_length == 0)) [
      | inl z ↦ (none, rw (d, z, publish_ros_message) refl)
      | inr z ↦
          let (p, e) = ok_of_Returns _ (publish-Returns writer s bytes b l) in
          (p.1, published_lem to_cdr_stream writer ros_message bytes p d b z e)
    ]

-- With no data to take, a reader of the right type and no null pointer, `rmw_take` leaves `*taken`
-- false, and passes an empty stream to the type support all the same: its verdict is the answer,
-- and its message the one that the caller sees.
pub take_ros_message_no_data :
    {Handle M : Type 0} (to_message : Stream → Bool × M) (reader : Reader Handle) (ros_message : M)
    (taken : Bool) (message_info : Option (Option Handle))
    → reader.narrowed ≡ true
    → reader.answer ≡ (DdsRet.no_data, [])
    → take_ros_message to_message reader (some ros_message) true (some taken) message_info
      ≡ ok (
        if (to_message no_stream).0 then RmwRet.ok else RmwRet.error,
        some (to_message no_stream).1,
        some false,
        message_info,
      )
unfolding take_ros_message take_stream give_back is_no_data to_ros_message
take_ros_message_no_data to_message reader ros_message taken message_info n a =
    rw (n, a, take_ros_message) refl
