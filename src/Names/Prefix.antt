-- ===== src/Names/Prefix.antt =====
-- rmw_opendds_cpp/src/namespace_prefix.cpp
use rmw_opendds.Prelude.{
  List, [], ◌∷◌, ◌++◌, Bool, false, ◌==◌, if◌then◌else◌, length, Outcome, ok, ◌>>=◌,
}
use rmw_opendds.Text.{Bytes, codes, starts_with, substr_from, at}

abbrev pub ros_topic_prefix : Bytes
ros_topic_prefix = codes "rt"

abbrev pub ros_service_requester_prefix : Bytes
ros_service_requester_prefix = codes "rq"

abbrev pub ros_service_response_prefix : Bytes
ros_service_response_prefix = codes "rr"

abbrev pub ros_prefixes : List Bytes
ros_prefixes = ros_topic_prefix ∷ ros_service_requester_prefix ∷ ros_service_response_prefix ∷ []

-- The loop of `_get_ros_prefix_if_exists`.
first_prefix : List Bytes → Bytes → Bytes
first_prefix [] topic_name = []
first_prefix (prefix ∷ rest) topic_name =
    if starts_with (prefix ++ codes "/") topic_name then prefix else first_prefix rest topic_name

unfoldable pub get_ros_prefix_if_exists : Bytes → Bytes
unfolding first_prefix
get_ros_prefix_if_exists topic_name = first_prefix ros_prefixes topic_name

-- `topic_name.rfind(prefix, 0) == 0 && topic_name.at(prefix.length()) == '/'`: the second test is
-- made only after the first.
has_prefix : Bytes → Bytes → Outcome Bool
has_prefix prefix topic_name =
    if starts_with prefix topic_name
    then (do c ← at topic_name (length prefix); ok (c == b'/'))
    else ok false

-- The loop of `_strip_ros_prefix_if_exists`.
strip_first : List Bytes → Bytes → Outcome Bytes
strip_first [] topic_name = ok topic_name
strip_first (prefix ∷ rest) topic_name =
    let others = strip_first rest topic_name in
    do
      found ← has_prefix prefix topic_name
      if found then substr_from topic_name (length prefix) else others

unfoldable pub strip_ros_prefix_if_exists : Bytes → Outcome Bytes
unfolding strip_first has_prefix
strip_ros_prefix_if_exists topic_name = strip_first ros_prefixes topic_name

abbrev pub get_all_ros_prefixes : List Bytes
get_all_ros_prefixes = ros_prefixes
