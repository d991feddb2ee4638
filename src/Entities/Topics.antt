-- ===== src/Entities/Topics.antt =====
-- `DDSTopic` (rmw_opendds_cpp/src/DDSTopic.cpp). A `std::runtime_error` that leaves the constructor
-- is `none`.
use rmw_opendds.Prelude.{◌≡◌, arith, Bool, not, Option, none, some, if◌then◌else◌}
use rmw_opendds.Text.{Bytes}
use rmw_opendds.Ret.{is_dds_ok}
use rmw_opendds.Names.Mangle.{Named, name, runtime_error, create_topic_name, create_type_name}
use rmw_opendds.Entities.{Callbacks, TypeSupport, QosProfile, Dds, DdsTopic}

-- `get_type_support`, and `data` of what it finds.
unfoldable pub get_type_support : Option TypeSupport → Option (Option Callbacks)
get_type_support none = none
get_type_support (some mts) = elim (mts.handle_c) [ some ts ↦ some ts | none ↦ mts.handle_cpp ]

unfoldable pub get_callbacks : Option TypeSupport → Option Callbacks
get_callbacks mts = elim (get_type_support mts) [ none ↦ none | some cb ↦ cb ]

abbrev pub avoid_of : Option QosProfile → Option Bool
avoid_of none = none
avoid_of (some rmw_qos) = some rmw_qos.avoid_ros_namespace_conventions

module _ {T P E C Handle W : Type 0} (dds : Dds T P E C Handle W) where
  unfoldable pub find_or_create_topic : Bytes → Bytes → W → Option T × W
  find_or_create_topic topic_name type_name world =
      let (found, seen) = dds.lookup_topicdescription topic_name world in
      if not dds.has_participant
      then (none, world)
      else if found
      then dds.find_topic topic_name seen
      else dds.create_topic topic_name type_name seen

  -- The constructor with its members' values: registers the type, and finds or creates the topic.
  with_names : Callbacks → Bytes → Bytes → W → Option (DdsTopic T) × W
  unfolding find_or_create_topic
  with_names cb topic_name type_name world =
      let (code, registered) = dds.register_type type_name world in
      let (topic, left) = find_or_create_topic topic_name type_name registered in
      if not dds.has_participant
      then (none, world)
      else if not (is_dds_ok code)
      then (none, registered)
      else elim topic [
        | none ↦ (none, left)
        | some t ↦ (
          some (record { callbacks = cb; name = topic_name; topic_type = type_name; topic = t }),
          left,
        )
      ]

  named_topic : Callbacks → Named → Named → W → Option (DdsTopic T) × W
  unfolding with_names
  named_topic cb (name topic_name) (name type_name) world = with_names cb topic_name type_name world
  named_topic cb (name topic_name) runtime_error world = (none, world)
  named_topic cb runtime_error type_name world = (none, world)

  unfoldable pub construct_topic :
      Option TypeSupport → Option Bytes → Option QosProfile → W → Option (DdsTopic T) × W
  unfolding named_topic
  construct_topic ts topic_name rmw_qos world = elim (get_callbacks ts) [
    | none ↦ (none, world)
    | some cb ↦
        named_topic cb (create_topic_name topic_name (avoid_of rmw_qos))
          (create_type_name (some (cb.message_namespace, cb.message_name))) world
  ]

  -- Without a profile there is no topic.
  pub construct_topic_null :
      (ts : Option TypeSupport) (topic_name : Option Bytes) (world : W)
      → construct_topic ts topic_name none world ≡ (none, world)
  unfolding construct_topic named_topic create_topic_name
  construct_topic_null ts topic_name world = ground arith
