-- ===== src/Names/Demangle.antt =====
-- rmw_opendds_cpp/src/demangle.cpp. Warnings to the log are left out.
pub mod Types
pub mod Services
pub mod Total
pub mod Misplaced
use rmw_opendds.Prelude.{
  ℕ, ◌+◌, List, [], ◌∷◌, ◌++◌, Bool, true, false, not, ◌&&◌, Option, none, some, ◌==◌,
  if◌then◌else◌, length, is_empty, Outcome, ok, ◌>>=◌,
}
use rmw_opendds.Text.{Bytes, codes, bytes_eq, find, rfind, size_sub, substr, substr_from, index}
use rmw_opendds.Names.Prefix.{
  ros_topic_prefix, ros_service_requester_prefix, ros_service_response_prefix,
  get_ros_prefix_if_exists,
}

unfoldable pub demangle_if_ros_topic : Bytes → Outcome Bytes
unfolding get_ros_prefix_if_exists
demangle_if_ros_topic topic_name =
    if not (is_empty (get_ros_prefix_if_exists topic_name))
    then substr_from topic_name (length ros_topic_prefix)
    else ok topic_name

abbrev pub msg_marker : Bytes
msg_marker = codes "::msg::dds_::"

-- The branch of `_demangle_if_ros_type` that found the marker at `substring_position`.
demangle_type_at : Bytes → ℕ → Outcome Bytes
demangle_type_at dds_type_string substring_position = do
  pkg ← substr dds_type_string 0 substring_position
  let start = substring_position + length msg_marker
  type_name ← substr dds_type_string start (size_sub (size_sub (length dds_type_string) 1) start)
  ok (pkg ++ codes "/" ++ type_name)

demangle_type_if : Bytes → Bool → Option ℕ → Outcome Bytes
unfolding demangle_type_at
demangle_type_if dds_type_string true (some position) = demangle_type_at dds_type_string position
demangle_type_if dds_type_string true none = ok dds_type_string
demangle_type_if dds_type_string false position = ok dds_type_string

unfoldable pub demangle_if_ros_type : Bytes → Outcome Bytes
unfolding demangle_type_if
demangle_if_ros_type dds_type_string = do
  last ← index dds_type_string (size_sub (length dds_type_string) 1)
  demangle_type_if dds_type_string (last == b'_') (find msg_marker dds_type_string)

-- `suffixes[prefix]`, which is empty for any other prefix
suffix_of : Bytes → Bytes
suffix_of prefix =
    if bytes_eq prefix ros_service_response_prefix
    then codes "Reply"
    else if bytes_eq prefix ros_service_requester_prefix
    then codes "Request"
    else []

-- The end of `_demangle_service_from_topic`, from the search for the suffix on.
strip_suffix : Bytes → Bytes → Option ℕ → Outcome Bytes
strip_suffix topic_name prefix none = ok []
strip_suffix topic_name prefix (some suffix_position) = do
  service_name ← substr topic_name 0 (suffix_position + 1)
  substr service_name (length prefix) (size_sub (size_sub (length service_name) 1) (length prefix))

unfoldable pub demangle_service_from_topic : Bytes → Outcome Bytes
unfolding suffix_of strip_suffix
demangle_service_from_topic topic_name =
    let prefix = get_ros_prefix_if_exists topic_name in
    if is_empty prefix
    then ok []
    else if not (bytes_eq prefix ros_service_response_prefix)
        && not (bytes_eq prefix ros_service_requester_prefix)
    then ok []
    else strip_suffix topic_name prefix (rfind (suffix_of prefix) topic_name)

abbrev pub srv_marker : Bytes
srv_marker = codes "::srv::dds_::"

abbrev pub response_suffix : Bytes
response_suffix = codes "_Response_"

abbrev pub request_suffix : Bytes
request_suffix = codes "_Request_"

-- The loop over the suffixes: its state is `suffix_position`, which keeps the last result of
-- `rfind`. A suffix that is found but not at the end only logs and goes on to the next one.
pub find_suffix : Bytes → List Bytes → Option ℕ → Option ℕ
find_suffix dds_type_name [] suffix_position = suffix_position
find_suffix dds_type_name (suffix ∷ rest) _ = elim (rfind suffix dds_type_name) [
  | none ↦ find_suffix dds_type_name rest none
  | some position ↦
      if size_sub (size_sub (length dds_type_name) position) (length suffix) == 0
      then some position
      else find_suffix dds_type_name rest (some position)
]

-- What follows the loop.
pub service_type_at : Bytes → ℕ → Option ℕ → Outcome Bytes
service_type_at dds_type_name ns_position none = ok []
service_type_at dds_type_name ns_position (some suffix_position) = do
  pkg ← substr dds_type_name 0 ns_position
  let start = ns_position + length srv_marker
  type_name ← substr dds_type_name start (size_sub suffix_position start)
  ok (pkg ++ codes "/" ++ type_name)

service_type_if : Bytes → Option ℕ → Outcome Bytes
unfolding find_suffix service_type_at
service_type_if dds_type_name none = ok []
service_type_if dds_type_name (some ns_position) =
    service_type_at dds_type_name ns_position
      (find_suffix dds_type_name (response_suffix ∷ request_suffix ∷ []) none)

unfoldable pub demangle_service_type_only : Bytes → Outcome Bytes
unfolding service_type_if
demangle_service_type_only dds_type_name =
    service_type_if dds_type_name (find srv_marker dds_type_name)
