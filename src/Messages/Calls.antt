-- ===== src/Messages/Calls.antt =====
-- The entry points of rmw_opendds_cpp/src/rmw_take.cpp and src/rmw_publish.cpp. The functions on
-- loaned messages answer RMW_RET_UNSUPPORTED and are left out.
use rmw_opendds.Prelude.{
  ℕ, ◌≡◌, refl, Bool, true, false, Option, none, some, if◌then◌else◌, Outcome, ok, undefined, ◌>>=◌,
  arith,
}
use rmw_opendds.Text.{Bytes}
use rmw_opendds.Ret.{RmwRet}
use rmw_opendds.Handles
use rmw_opendds.Handles.{RmwHandle}
use rmw_opendds.Messages.{
  Stream, Reader, Taken, Writer, take_stream, take_first, take_message, give_back, take_ros_message,
  publish_serialized_message, publish_ros_message,
}

-- Whether `DDSSubscriber::from` or `DDSPublisher::from` gives an object.
abbrev pub is_there : {D : Type 0} → Option (ℕ × RmwHandle D) → Bool
is_there handle = elim (Handles.from handle) [ none ↦ false | some found ↦ true ]

module _ {Handle D : Type 0} (reader : Reader Handle)
    (subscription : Option (ℕ × RmwHandle D)) where
  unfoldable pub rmw_take :
      {M : Type 0}
      → (Stream → Bool × M)
      → Option M
      → Option Bool
      → Outcome (RmwRet × Option M × Option Bool × Option (Option Handle))
  rmw_take to_message ros_message taken =
      take_ros_message to_message reader ros_message (is_there subscription) taken none

  unfoldable pub rmw_take_with_info :
      {M : Type 0}
      → (Stream → Bool × M)
      → Option M
      → Option Bool
      → Option (Option Handle)
      → Outcome (RmwRet × Option M × Option Bool × Option (Option Handle))
  rmw_take_with_info to_message ros_message taken none = ok (RmwRet.error, ros_message, taken, none)
  rmw_take_with_info to_message ros_message taken (some message_info) =
      take_ros_message to_message reader ros_message (is_there subscription) taken
        (some message_info)

  -- What is left where nothing is taken.
  abbrev untaken : Option Stream → Bool → Option (Option Handle) → Taken Handle
  untaken serialized_msg taken message_info = record {
    ret = RmwRet.error;
    stream = serialized_msg;
    taken = taken;
    message_info = message_info;
    loan_returned = false;
  }

  -- `*taken` is bound to a reference, so that a null pointer is undefined.
  unfoldable pub rmw_take_serialized_message : Option Stream → Option Bool → Outcome (Taken Handle)
  rmw_take_serialized_message serialized_msg none =
      if is_there subscription then undefined else ok (untaken serialized_msg false none)
  rmw_take_serialized_message serialized_msg (some taken) =
      if is_there subscription
      then take_stream reader serialized_msg taken none
      else ok (untaken serialized_msg taken none)

  unfoldable pub rmw_take_serialized_message_with_info :
      Option Stream → Option Bool → Option (Option Handle) → Outcome (Taken Handle)
  rmw_take_serialized_message_with_info serialized_msg none none =
      ok (untaken serialized_msg false none)
  rmw_take_serialized_message_with_info serialized_msg none (some message_info) =
      if is_there subscription
      then undefined
      else ok (untaken serialized_msg false (some message_info))
  rmw_take_serialized_message_with_info serialized_msg (some taken) none =
      ok (untaken serialized_msg taken none)
  rmw_take_serialized_message_with_info serialized_msg (some taken) (some message_info) =
      if is_there subscription
      then take_stream reader serialized_msg taken (some message_info)
      else ok (untaken serialized_msg taken (some message_info))

module _ {D : Type 0} (writer : Writer) (publisher : Option (ℕ × RmwHandle D)) where
  unfoldable pub rmw_publish :
      {M : Type 0} → (M → Bool × Stream) → Option M → Outcome (RmwRet × Option Bytes × Bool)
  rmw_publish to_cdr_stream ros_message =
      publish_ros_message to_cdr_stream (is_there publisher) writer ros_message

  unfoldable pub rmw_publish_serialized_message : Option Stream → Outcome (RmwRet × Option Bytes)
  rmw_publish_serialized_message serialized_message =
      publish_serialized_message (is_there publisher) writer serialized_message

-- What a caller sees but for the publisher's handle.
abbrev pub seen :
    {M Handle : Type 0}
    → Outcome (RmwRet × Option M × Option Bool × Option (Option Handle))
    → Outcome (RmwRet × Option M × Option Bool)
seen r = do got ← r; ok (got.0, got.1, got.2)

module _ {Handle D M : Type 0} (reader : Reader Handle) (subscription : Option (ℕ × RmwHandle D))
    (to_message : Stream → Bool × M) where
  -- With no null pointer for the info, `rmw_take_with_info` gives the code, the message and
  -- `*taken` that `rmw_take` gives, on every branch.
  pub rmw_take_with_info-rmw_take :
      (ros_message : Option M) (taken : Option Bool) (message_info : Option Handle)
      → seen
          (rmw_take_with_info reader subscription to_message ros_message taken (some message_info))
        ≡ seen (rmw_take reader subscription to_message ros_message taken)
  unfolding rmw_take_with_info rmw_take take_ros_message take_stream take_first take_message
      give_back
  rmw_take_with_info-rmw_take none taken message_info = refl
  rmw_take_with_info-rmw_take (some m) none message_info = refl
  rmw_take_with_info-rmw_take (some m) (some t) message_info = ground arith
