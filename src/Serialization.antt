-- ===== src/Serialization.antt =====
-- The conversions of rmw_opendds_cpp/src/rmw_serialize.cpp, with the lookup of
-- src/type_support_common.hpp. Null pointers to a message or a stream go to the generated code as
-- they are. `rmw_get_serialized_message_size` answers RMW_RET_ERROR and is left out.
use rmw_opendds.Prelude.{◌≡◌, refl, Bool, true, false, arith, Option, none, some, if◌then◌else◌}
use rmw_opendds.Ret.{RmwRet}
use rmw_opendds.Messages.{Stream}

-- `message_type_support_callbacks_t` by what its conversions answer, and leave in what they fill.
pub record Callbacks (M : Type 0) : Type 0 where
  pub to_cdr_stream : Option M → Option Stream → Bool × Option Stream
  pub to_message : Option Stream → Option M → Bool × Option M

-- `rosidl_message_type_support_t` by what `get_message_typesupport_handle` finds in it for the
-- identifiers of the C and of the C++ package: `data` of the handle.
pub record TypeSupport (M : Type 0) : Type 0 where
  pub handle_c : Option (Option (Callbacks M))
  pub handle_cpp : Option (Option (Callbacks M))

-- A conversion that succeeds has answered true.
answered :
    {A : Type 0} (p : Bool × A) (after : A)
    → ◌≡◌ {A = RmwRet × A} (if p.0 then RmwRet.ok else RmwRet.error, p.1) (RmwRet.ok, after)
    → p ≡ (true, after)
answered (true, filled) after h = ground (arith, h)
answered (false, filled) after h = ground (arith, h)

module _ {M : Type 0} where
  unfoldable pub rmw_get_message_type_support :
      Option (TypeSupport M) → Option (Option (Callbacks M))
  rmw_get_message_type_support none = none
  rmw_get_message_type_support (some type_support) = elim (type_support.handle_c) [
    | none ↦ type_support.handle_cpp
    | some ts ↦ some ts
  ]

  serialize_with : Option (Option (Callbacks M)) → Option M → Option Stream → RmwRet × Option Stream
  serialize_with none ros_message serialized_message = (RmwRet.error, serialized_message)
  serialize_with (some none) ros_message serialized_message = (RmwRet.error, serialized_message)
  serialize_with (some (some callbacks)) ros_message serialized_message =
      let (done, filled) = callbacks.to_cdr_stream ros_message serialized_message in
      (if done then RmwRet.ok else RmwRet.error, filled)

  unfoldable pub rmw_serialize :
      Option M → Option (TypeSupport M) → Option Stream → RmwRet × Option Stream
  unfolding serialize_with
  rmw_serialize ros_message type_support serialized_message =
      serialize_with (rmw_get_message_type_support type_support) ros_message serialized_message

  deserialize_with : Option (Option (Callbacks M)) → Option Stream → Option M → RmwRet × Option M
  deserialize_with none serialized_message ros_message = (RmwRet.error, ros_message)
  deserialize_with (some none) serialized_message ros_message = (RmwRet.error, ros_message)
  deserialize_with (some (some callbacks)) serialized_message ros_message =
      let (done, filled) = callbacks.to_message serialized_message ros_message in
      (if done then RmwRet.ok else RmwRet.error, filled)

  unfoldable pub rmw_deserialize :
      Option Stream → Option (TypeSupport M) → Option M → RmwRet × Option M
  unfolding deserialize_with
  rmw_deserialize serialized_message type_support ros_message =
      deserialize_with (rmw_get_message_type_support type_support) serialized_message ros_message

  -- The callbacks read back, into any message, what they have written for `m`.
  abbrev pub ReadsBack : Callbacks M → M → Type 0
  ReadsBack callbacks m =
      (before after : Option Stream) (old : M)
      → callbacks.to_cdr_stream (some m) before ≡ (true, after)
      → callbacks.to_message after (some old) ≡ (true, some m)

  with_round_trip :
      (found : Option (Option (Callbacks M))) (m old : M) (before after : Option Stream)
      → ((callbacks : Callbacks M) → found ≡ some (some callbacks) → ReadsBack callbacks m)
      → serialize_with found (some m) before ≡ (RmwRet.ok, after)
      → deserialize_with found after (some old) ≡ (RmwRet.ok, some m)
  unfolding serialize_with deserialize_with
  with_round_trip none m old before after reads h = ground (arith, h)
  with_round_trip (some none) m old before after reads h = ground (arith, h)
  with_round_trip (some (some callbacks)) m old before after reads h =
      let told = answered (callbacks.to_cdr_stream (some m) before) after h in
      let read = reads callbacks refl before after old told in rw (read) refl

  -- What `rmw_serialize` has written with RMW_RET_OK, `rmw_deserialize` with the same type support
  -- reads back into any message with RMW_RET_OK, provided that the callbacks found in the type
  -- support read back what they have written.
  pub rmw_deserialize-rmw_serialize :
      (type_support : Option (TypeSupport M)) (m old : M) (before after : Option Stream)
      → ((callbacks : Callbacks M)
          → rmw_get_message_type_support type_support ≡ some (some callbacks)
          → ReadsBack callbacks m)
      → rmw_serialize (some m) type_support before ≡ (RmwRet.ok, after)
      → rmw_deserialize after type_support (some old) ≡ (RmwRet.ok, some m)
  unfolding rmw_serialize rmw_deserialize
  rmw_deserialize-rmw_serialize type_support m old before after =
      with_round_trip (rmw_get_message_type_support type_support) m old before after
