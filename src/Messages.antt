-- ===== src/Messages.antt =====
-- Messages taken and published: rmw_opendds_cpp/src/rmw_take.cpp and src/rmw_publish.cpp. Messages
-- to the log are left out, and so is the release of a stream's buffer behind a take.
pub mod Transfer
pub mod Calls
pub mod RoundTrip
use rmw_opendds.Prelude.{
  ℕ, ◌-◌, ◌^◌, Bool, true, false, not, ◌||◌, Option, none, some, List, [], ◌∷◌, ltb, ◌==◌, length,
  take, if◌then◌else◌, Outcome, ok, undefined, ◌>>=◌,
}
use rmw_opendds.Text.{Bytes}
use rmw_opendds.Ret.{RmwRet, DdsRet, is_rmw_ok, is_dds_ok}

-- `rcutils_uint8_array_t`, but for its allocator.
pub record Stream : Type 0 where
  pub buffer : Option Bytes
  pub buffer_length : ℕ
  pub buffer_capacity : ℕ

-- A sample that the reader lends, with the fields of its SampleInfo.
pub record Message (Handle : Type 0) : Type 0 where
  pub valid_data : Bool
  pub publication_handle : Handle
  pub serialized_data : Bytes

-- What a `take` of the typed reader answers; whether the reader can be narrowed to the type, and
-- whether the allocator of the stream has memory.
pub record Reader (Handle : Type 0) : Type 0 where
  pub narrowed : Bool
  pub answer : DdsRet × List (Message Handle)
  pub has_memory : Bool

-- The answer of `take`, `*cdr_stream`, `taken`, the publisher's handle in `*message_info` (which is
-- null or not, and unset before), and whether the loan was returned.
pub record Taken (Handle : Type 0) : Type 0 where
  pub ret : RmwRet
  pub stream : Option Stream
  pub taken : Bool
  pub message_info : Option (Option Handle)
  pub loan_returned : Bool

abbrev pub buffer_max : ℕ
buffer_max = 2 ^ 32 - 1

is_no_data : DdsRet → Bool
is_no_data DdsRet.no_data = true
is_no_data _ = false

unfoldable pub set_handle :
    {Handle : Type 0} → Handle → Option (Option Handle) → Option (Option Handle)
set_handle handle none = none
set_handle handle (some old) = some (some handle)

abbrev pub no_stream : Stream
no_stream = record { buffer = none; buffer_length = 0; buffer_capacity = 0 }

-- `to_message` of the type support on the stream: whether it succeeds, and the ROS message.
to_ros_message : {M : Type 0} → (Stream → Bool × M) → Option Stream → M → RmwRet × M
to_ros_message to_message none ros_message = (RmwRet.error, ros_message)
to_ros_message to_message (some stream) ros_message =
    let (done, filled) = to_message stream in (if done then RmwRet.ok else RmwRet.error, filled)

module _ {Handle : Type 0} where
  -- The answer behind `return_loan`.
  give_back : DdsRet → Stream → Bool → Option (Option Handle) → Taken Handle
  unfolding is_no_data
  give_back rc stream taken message_info = record {
    ret = if taken || is_no_data rc then RmwRet.ok else RmwRet.error;
    stream = some stream;
    taken = taken;
    message_info = message_info;
    loan_returned = true;
  }

  -- The branch for a valid sample.
  take_message : Bool → Message Handle → Stream → Option (Option Handle) → Taken Handle
  unfolding give_back set_handle
  take_message has_memory msg stream message_info =
      let n = length msg.serialized_data in
      if ltb buffer_max n
      then give_back DdsRet.ok stream false message_info
      else if has_memory
      then give_back DdsRet.ok
          (record { buffer = some msg.serialized_data; buffer_length = n; buffer_capacity = n })
          true (set_handle msg.publication_handle message_info)
      else give_back DdsRet.ok (record { buffer = none; buffer_length = n; buffer_capacity = n })
          false message_info

  -- `infos[0]` of an empty sequence is undefined.
  take_first :
      Bool → List (Message Handle) → Stream → Option (Option Handle) → Outcome (Taken Handle)
  unfolding take_message
  take_first has_memory [] stream message_info = undefined
  take_first has_memory (msg ∷ msgs) stream message_info = ok (
      if msg.valid_data
      then take_message has_memory msg stream message_info
      else give_back DdsRet.ok stream false message_info)

  -- `take` of a DDSSubscriber into a stream
  unfoldable pub take_stream :
      Reader Handle → Option Stream → Bool → Option (Option Handle) → Outcome (Taken Handle)
  unfolding take_first
  take_stream reader none taken message_info = ok (record {
    ret = RmwRet.error;
    stream = none;
    taken = taken;
    message_info = message_info;
    loan_returned = false;
  })
  take_stream reader (some stream) taken message_info =
      if not reader.narrowed
      then ok (record {
        ret = RmwRet.error;
        stream = some stream;
        taken = false;
        message_info = message_info;
        loan_returned = false;
      })
      else if is_dds_ok reader.answer.0
      then take_first reader.has_memory reader.answer.1 stream message_info
      else ok (give_back reader.answer.0 stream false message_info)

  -- `take` of a message: `dds_sub` is whether `DDSSubscriber::from` gives one. The code, the ROS
  -- message, `*taken` and the handle in `*message_info`.
  unfoldable pub take_ros_message :
      {M : Type 0}
      → (Stream → Bool × M)
      → Reader Handle
      → Option M
      → Bool
      → Option Bool
      → Option (Option Handle)
      → Outcome (RmwRet × Option M × Option Bool × Option (Option Handle))
  unfolding take_stream to_ros_message
  take_ros_message to_message reader none dds_sub taken message_info =
      ok (RmwRet.error, none, taken, message_info)
  take_ros_message to_message reader (some ros_message) dds_sub none message_info =
      ok (RmwRet.error, some ros_message, none, message_info)
  take_ros_message to_message reader (some ros_message) dds_sub (some taken) message_info =
      if not dds_sub then ok (RmwRet.error, some ros_message, some taken, message_info) else do
        got ← take_stream reader (some no_stream) taken message_info
        let filled = to_ros_message to_message got.stream ros_message in
            ok (
              if is_rmw_ok got.ret
              then (filled.0, some filled.1, some got.taken, got.message_info)
              else (got.ret, some ros_message, some got.taken, got.message_info))

-- What `write` of the typed writer answers for an instance; whether the writer can be narrowed.
pub record Writer : Type 0 where
  pub narrowed : Bool
  pub write : Bytes → DdsRet

-- `std::memcpy` of the length from the buffer: undefined where the buffer is shorter.
copy_buffer : Option Bytes → ℕ → Outcome Bytes
copy_buffer none n = if n == 0 then ok [] else undefined
copy_buffer (some bytes) n = if ltb (length bytes) n then undefined else ok (take n bytes)

-- `publish`: the answer, and the instance that was written.
unfoldable pub publish : Writer → Stream → Outcome (Bool × Option Bytes)
unfolding copy_buffer
publish writer cdr_stream =
    if not writer.narrowed
    then ok (false, none)
    else if ltb buffer_max cdr_stream.buffer_length
    then ok (false, none)
    else do
      instance_of ← copy_buffer cdr_stream.buffer cdr_stream.buffer_length
      ok (is_dds_ok (writer.write instance_of), some instance_of)

-- `dds_pub` is whether `DDSPublisher::from` gives one.
unfoldable pub publish_serialized_message :
    Bool → Writer → Option Stream → Outcome (RmwRet × Option Bytes)
unfolding publish
publish_serialized_message dds_pub writer none = ok (RmwRet.error, none)
publish_serialized_message dds_pub writer (some serialized_message) =
    if not dds_pub then ok (RmwRet.error, none) else do
      published ← publish writer serialized_message
      ok (if published.0 then RmwRet.ok else RmwRet.error, published.1)

has_buffer : Option Bytes → Bool
has_buffer none = false
has_buffer (some bytes) = true

-- `to_cdr_stream` of the type support: whether it succeeds, and the stream. The code, the instance
-- written, and whether the stream's buffer is freed.
unfoldable pub publish_ros_message :
    {M : Type 0}
    → (M → Bool × Stream)
    → Bool
    → Writer
    → Option M
    → Outcome (RmwRet × Option Bytes × Bool)
unfolding publish has_buffer
publish_ros_message to_cdr_stream dds_pub writer none = ok (RmwRet.error, none, false)
publish_ros_message to_cdr_stream dds_pub writer (some ros_message) =
    let (done, cdr_stream) = to_cdr_stream ros_message in
    if not dds_pub
    then ok (RmwRet.error, none, false)
    else if not done
    then ok (RmwRet.error, none, false)
    else if cdr_stream.buffer_length == 0
    then ok (RmwRet.ok, none, true)
    else if not (has_buffer cdr_stream.buffer)
    then ok (RmwRet.ok, none, true)
    else do published ← publish writer cdr_stream; ok (RmwRet.ok, published.1, true)
