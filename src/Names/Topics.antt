-- ===== src/Names/Topics.antt =====
-- Topic names from create_topic_name to _demangle_if_ros_topic, and the stripping of prefixes.
use rmw_opendds.Prelude.{
  ◌≡◌, refl, ◌||◌, Bool, false, some, [], ◌∷◌, arith, if◌then◌else◌, ok, out_of_range,
}
use rmw_opendds.Text.{Bytes, substr_from, at, bytes_eq}
use rmw_opendds.Names.Prefix.{
  ros_topic_prefix, ros_service_requester_prefix, ros_service_response_prefix,
  strip_ros_prefix_if_exists,
}
use rmw_opendds.Names.Mangle.{name, create_topic_name}
use rmw_opendds.Names.Demangle.{demangle_if_ros_topic}

-- A topic name that starts with a slash comes back from the DDS name that it gets under the ROS
-- conventions.
pub demangle-create_topic_name :
    (rest dds_name : Bytes)
    → create_topic_name (some (b'/' ∷ rest)) (some false) ≡ name dds_name
    → demangle_if_ros_topic dds_name ≡ ok (b'/' ∷ rest)
unfolding create_topic_name demangle_if_ros_topic substr_from
demangle-create_topic_name rest dds_name h = ground arith

abbrev pub is_bare_prefix : Bytes → Bool
is_bare_prefix topic_name =
    bytes_eq topic_name ros_topic_prefix
    || bytes_eq topic_name ros_service_requester_prefix
    || bytes_eq topic_name ros_service_response_prefix

-- Stripping the prefix throws `std::out_of_range` exactly on a name that is one of the prefixes
-- `rt`, `rq` and `rr` with nothing behind it; on any other name it is `_demangle_if_ros_topic`.
pub strip-eq-demangle :
    (topic_name : Bytes)
    → strip_ros_prefix_if_exists topic_name
      ≡ (if is_bare_prefix topic_name then out_of_range else demangle_if_ros_topic topic_name)
unfolding strip_ros_prefix_if_exists demangle_if_ros_topic substr_from at
strip-eq-demangle [] = refl
strip-eq-demangle (a ∷ []) = ground arith
strip-eq-demangle (a ∷ b ∷ []) = ground arith
strip-eq-demangle (a ∷ b ∷ c ∷ t) = ground arith
