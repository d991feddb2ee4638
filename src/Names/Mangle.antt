-- ===== src/Names/Mangle.antt =====
-- The names that a publisher, a subscriber, a client or a server gives its DDS topics and types:
-- `create_topic_name` and `create_type_name` of DDSTopic.cpp, `create_request_name` and
-- `create_reply_name` of Service.cpp. Null pointers are `none`, and a `std::runtime_error` is the
-- failure of `Named`.
use rmw_opendds.Prelude.{◌≡◌, [], ◌++◌, Bool, Option, none, some, if◌then◌else◌, is_empty}
use rmw_opendds.Text.{Bytes, codes}
use rmw_opendds.Names.Prefix.{
  ros_topic_prefix, ros_service_requester_prefix, ros_service_response_prefix,
}

pub data Named : Type 0 where
  name : Bytes → Named
  runtime_error : Named

pub name-injective : {a b : Bytes} → name a ≡ name b → a ≡ b
name-injective e = cc

-- The argument `avoid` is `rmw_qos->avoid_ros_namespace_conventions`, `none` where `rmw_qos` is
-- null.
unfoldable pub create_topic_name : Option Bytes → Option Bool → Named
create_topic_name none avoid = runtime_error
create_topic_name (some topic_name) none = runtime_error
create_topic_name (some topic_name) (some avoid) =
    if is_empty topic_name
    then runtime_error
    else if avoid
    then name topic_name
    else name (ros_topic_prefix ++ topic_name)

-- The arguments are the fields of the type support's callbacks, which DDSTopic null-checks.
unfoldable pub create_type_name : Option (Bytes × Bytes) → Named
create_type_name none = runtime_error
create_type_name (some (message_namespace, message_name)) =
    name (message_namespace ++ codes "::dds_::" ++ message_name ++ codes "_")

unfoldable pub create_request_name : Bytes → Option Bool → Named
create_request_name service_name none = runtime_error
create_request_name service_name (some avoid) =
    name ((if avoid then [] else ros_service_requester_prefix) ++ service_name ++ codes "Request")

unfoldable pub create_reply_name : Bytes → Option Bool → Named
create_reply_name service_name none = runtime_error
create_reply_name service_name (some avoid) =
    name ((if avoid then [] else ros_service_response_prefix) ++ service_name ++ codes "Reply")
