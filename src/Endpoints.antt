-- ===== src/Endpoints.antt =====
-- Which endpoints a topic has: rmw_opendds_cpp/src/topic_endpoint_info.cpp and
-- src/rmw_get_topic_endpoint_info.cpp. Pointers are options, and messages to the log are left out.

pub mod Infos
pub mod Failures
use rmw_opendds.Prelude.{
  ℕ, ◌+◌, Bool, true, false, not, Option, none, some, List, [], ◌∷◌, ◌++◌, map, if◌then◌else◌,
  length, Outcome, ok, undefined, ◌>>=◌,
}
use rmw_opendds.Text.{Bytes, codes}
use rmw_opendds.Order.{Order}
use rmw_opendds.Containers.Map
use rmw_opendds.Containers.Map.{Map}
use rmw_opendds.Ret.{RmwRet, is_rmw_ok, is_dds_ok}
use rmw_opendds.Names.Prefix.{get_all_ros_prefixes}
use rmw_opendds.Names.Demangle.{demangle_if_ros_type}
use rmw_opendds.TopicCache.{TopicInfo}
use rmw_opendds.Listener.{Listener}
use rmw_opendds.Listener.Queries.{fill_topic_endpoint_infos}
use rmw_opendds.Node.{Node, Participant}
use rmw_opendds.NodeHandles.{RmwNode, from}

pub record ParticipantNameInfo : Type 0 where
  pub name : Bytes
  pub namespace : Bytes

pub data EndpointType : Type 0 where
  invalid publisher subscription : EndpointType

-- `rmw_topic_endpoint_info_t`; what is not set yet is `none`. The GUID stands in the gid's first
-- bytes, and the others are zero.
pub record EndpointInfo (G : Type 0) : Type 0 where
  pub endpoint_type : EndpointType
  pub endpoint_gid : Option G
  pub topic_type : Option Bytes
  pub node_name : Option Bytes
  pub node_namespace : Option Bytes

-- The codes of rmw's functions on these infos: the setters for the info of an index, and the
-- functions of the array. A setter that succeeds has set its field, and
-- `rmw_topic_endpoint_info_array_fini` leaves an array.
pub record InfoCalls (G : Type 0) : Type 0 where
  pub set_endpoint_type : ℕ → RmwRet
  pub set_gid : ℕ → RmwRet
  pub set_topic_type : ℕ → RmwRet
  pub set_node_name : ℕ → RmwRet
  pub set_node_namespace : ℕ → RmwRet
  pub array_check_zero : List (EndpointInfo G) → RmwRet
  pub array_init_with_size : ℕ → RmwRet
  pub array_fini : List (EndpointInfo G) → RmwRet × List (EndpointInfo G)

-- The code of `_validate_params`. Only whether the node and the allocator are null matters.
unfoldable pub validate_params :
    {G N : Type 0}
    → InfoCalls G
    → Option (RmwNode N)
    → Bool
    → Option Bytes
    → Option (List (EndpointInfo G))
    → RmwRet
validate_params calls none allocator topic_name participants_info = RmwRet.error
validate_params calls (some node) allocator none participants_info = RmwRet.error
validate_params calls (some node) allocator (some topic_name) none = RmwRet.error
validate_params calls (some node) allocator (some topic_name) (some participants_info) =
    if not allocator then RmwRet.error else calls.array_check_zero participants_info

-- `_get_topic_fqdns`
unfoldable pub get_topic_fqdns : Bytes → Bool → List Bytes
get_topic_fqdns topic_name no_mangle =
    topic_name
    ∷ (if no_mangle then [] else map (λ prefix. prefix ++ topic_name) get_all_ros_prefixes)

unfoldable pub endpoint_type_of : Bool → EndpointType
endpoint_type_of is_publisher =
    if is_publisher then EndpointType.publisher else EndpointType.subscription

-- `data->second` of the name and the namespace, if both are found.
unfoldable pub name_info : Option Bytes → Option Bytes → Option ParticipantNameInfo
name_info (some name) (some namespace) = some (record { name = name; namespace = namespace })
name_info (some name) none = none
name_info none namespace = none

unfoldable pub unknown_names : ParticipantNameInfo
unknown_names = record {
  name = codes "_NODE_NAME_UNKNOWN_";
  namespace = codes "_NODE_NAMESPACE_UNKNOWN_";
}

unfoldable pub names_or_unknown : Option ParticipantNameInfo → ParticipantNameInfo
names_or_unknown none = unknown_names
names_or_unknown (some names) = names

unfoldable pub zero_info : {G : Type 0} → EndpointInfo G
zero_info = record {
  endpoint_type = EndpointType.invalid;
  endpoint_gid = none;
  topic_type = none;
  node_name = none;
  node_namespace = none;
}

unfoldable pub target : {G : Type 0} → Bool → Node G → Listener G
target is_publisher node = if is_publisher then node.pub_listener else node.sub_listener

module _ {G : Type 0} ⦃o : Order G⦄ where
  unfoldable pub add_name :
      G → Option ParticipantNameInfo → Map G ParticipantNameInfo → Map G ParticipantNameInfo
  add_name guid none names = names
  add_name guid (some found) names = Map.assign guid found names

  -- The loop over the topic's names.
  unfoldable pub fill_fqdns :
      List Bytes → Bool → Listener G → List (TopicInfo G) → Outcome (List (TopicInfo G))
  fill_fqdns [] no_mangle l infos = ok infos
  fill_fqdns (topic_fqdn ∷ rest) no_mangle l infos =
      fill_topic_endpoint_infos topic_fqdn no_mangle l infos >>= λ more.
      fill_fqdns rest no_mangle l more

module _ {G Handle : Type 0} ⦃o : Order G⦄ (dp : Participant G Handle) where
  -- One turn of the loop over the discovered participants: the pair to assign, if any.
  unfoldable pub discovered_name : Option Bytes → Option ParticipantNameInfo
  discovered_name none = none
  discovered_name (some buf) =
      let values = dp.parse_key_value buf in
      name_info (values (codes "name")) (values (codes "namespace"))

  -- The loop; `none` where DDS does not give a participant's data.
  unfoldable pub add_discovered_names :
      List Handle → Map G ParticipantNameInfo → Option (Map G ParticipantNameInfo)
  unfolding discovered_name add_name
  add_discovered_names [] names = some names
  add_discovered_names (handle ∷ handles) names =
      let (code, user_data, guid) = dp.get_discovered_participant_data handle in
      let rest = add_discovered_names handles (add_name guid (discovered_name user_data) names) in
      if is_dds_ok code then rest else none

module _ {G : Type 0} ⦃o : Order G⦄ (calls : InfoCalls G) where
  -- The code, and the info. The last two calls of `_set_rmw_topic_endpoint_info`.
  set_node_names : ℕ → ParticipantNameInfo → EndpointInfo G → RmwRet × EndpointInfo G
  set_node_names i names info =
      let named = record info { node_name = some names.name } in
      if not (is_rmw_ok (calls.set_node_name i))
      then (calls.set_node_name i, info)
      else if not (is_rmw_ok (calls.set_node_namespace i))
      then (calls.set_node_namespace i, named)
      else (calls.set_node_namespace i, record named { node_namespace = some names.namespace })

  -- `_set_rmw_topic_endpoint_info`
  unfoldable pub set_rmw_topic_endpoint_info :
      ℕ
      → TopicInfo G
      → Map G ParticipantNameInfo
      → Bool
      → Bool
      → EndpointInfo G
      → Outcome (RmwRet × EndpointInfo G)
  unfolding set_node_names
  set_rmw_topic_endpoint_info i t participant_guid_to_name no_mangle is_publisher info =
      let typed = record info { endpoint_type = endpoint_type_of is_publisher } in
      let with_gid = record typed { endpoint_gid = some t.endpoint_guid } in
      let names = names_or_unknown (Map.find t.participant_guid participant_guid_to_name) in
      if not (is_rmw_ok (calls.set_endpoint_type i))
      then ok (calls.set_endpoint_type i, info)
      else if not (is_rmw_ok (calls.set_gid i))
      then ok (calls.set_gid i, typed)
      else do
        type_name ← (if no_mangle then ok t.topic_type else demangle_if_ros_type t.topic_type)
        ok (
            if not (is_rmw_ok (calls.set_topic_type i))
            then (calls.set_topic_type i, with_gid)
            else set_node_names i names (record with_gid { topic_type = some type_name }))

  -- The loop that sets the infos of the array, from an index. It ends at the first code that is not
  -- RMW_RET_OK, with the infos behind it as they were.
  unfoldable pub set_infos :
      ℕ
      → List (TopicInfo G)
      → Map G ParticipantNameInfo
      → Bool
      → Bool
      → Outcome (RmwRet × List (EndpointInfo G))
  unfolding set_rmw_topic_endpoint_info zero_info
  set_infos i [] names no_mangle is_publisher = ok (RmwRet.ok, [])
  set_infos i (t ∷ rest) names no_mangle is_publisher =
      let others = set_infos (i + 1) rest names no_mangle is_publisher in
      do
        first ← set_rmw_topic_endpoint_info i t names no_mangle is_publisher zero_info
        if is_rmw_ok first.0
            then (do more ← others; ok (more.0, first.1 ∷ more.1))
            else ok (first.0, first.1 ∷ map (λ t. zero_info) rest)

  -- What `_get_info_by_topic` does with the array once the infos are found.
  unfoldable pub fill_array :
      List (TopicInfo G)
      → Map G ParticipantNameInfo
      → Bool
      → Bool
      → List (EndpointInfo G)
      → Outcome (RmwRet × List (EndpointInfo G))
  unfolding set_infos
  fill_array infos names no_mangle is_publisher participants_info =
      let initialized = calls.array_init_with_size (length infos) in
      if not (is_rmw_ok initialized) then ok (initialized, participants_info) else do
        filled ← set_infos 0 infos names no_mangle is_publisher
        if is_rmw_ok filled.0
            then ok (RmwRet.ok, filled.1)
            else ok (filled.0, (calls.array_fini filled.1).1)

module _ {G Handle : Type 0} ⦃o : Order G⦄ (calls : InfoCalls G) (dp : Participant G Handle) where
  -- `_get_info_by_topic` behind the checks, for a node with its name and namespace. A `std::string`
  -- is not made of a null pointer.
  unfoldable pub get_info :
      Node G
      → Option Bytes
      → Option Bytes
      → Bytes
      → Bool
      → Bool
      → List (EndpointInfo G)
      → Outcome (RmwRet × List (EndpointInfo G))
  unfolding add_discovered_names fill_fqdns fill_array target
  get_info node none node_namespace topic_name no_mangle is_publisher participants_info =
      if is_dds_ok dp.get_discovered_participants.0
      then undefined
      else ok (RmwRet.error, participants_info)
  get_info node (some name) none topic_name no_mangle is_publisher participants_info =
      if is_dds_ok dp.get_discovered_participants.0
      then undefined
      else ok (RmwRet.error, participants_info)
  get_info node (some name) (some ns) topic_name no_mangle is_publisher participants_info =
      let participant_guid = dp.get_repoid dp.instance_handle in
      let own = Map.assign participant_guid (record { name = name; namespace = ns }) [] in
      if not (is_dds_ok dp.get_discovered_participants.0)
      then ok (RmwRet.error, participants_info)
      else elim (add_discovered_names dp dp.get_discovered_participants.1 own) [
        | none ↦ ok (RmwRet.error, participants_info)
        | some names ↦ do
          infos ←
              fill_fqdns (get_topic_fqdns topic_name no_mangle) no_mangle (target is_publisher node)
                []
          fill_array calls infos names no_mangle is_publisher participants_info
      ]

  -- The code, and the array; a null array stays null. `allocator` says whether it is not null.
  unfoldable pub get_info_by_topic :
      Option (RmwNode (Node G))
      → Bool
      → Option Bytes
      → Bool
      → Bool
      → Option (List (EndpointInfo G))
      → Outcome (RmwRet × Option (List (EndpointInfo G)))
  unfolding validate_params get_info
  get_info_by_topic (some node) allocator (some topic_name) no_mangle is_publisher (some array) =
      let code = validate_params calls (some node) allocator (some topic_name) (some array) in
      if not (is_rmw_ok code) then ok (code, some array) else elim (from (some node)) [
        | none ↦ ok (RmwRet.error, some array)
        | some dds_node ↦ do
          answer ←
              get_info dds_node node.name node.namespace topic_name no_mangle is_publisher array
          ok (answer.0, some answer.1)
      ]
  get_info_by_topic node allocator topic_name no_mangle is_publisher array =
      ok (validate_params calls node allocator topic_name array, array)

  -- `get_publishers_info_by_topic` and `get_subscriptions_info_by_topic`, which the entry points
  -- call
  unfoldable pub get_publishers_info_by_topic :
      Option (RmwNode (Node G))
      → Bool
      → Option Bytes
      → Bool
      → Option (List (EndpointInfo G))
      → Outcome (RmwRet × Option (List (EndpointInfo G)))
  get_publishers_info_by_topic node allocator topic_name no_mangle publishers_info =
      get_info_by_topic node allocator topic_name no_mangle true publishers_info

  unfoldable pub get_subscriptions_info_by_topic :
      Option (RmwNode (Node G))
      → Bool
      → Option Bytes
      → Bool
      → Option (List (EndpointInfo G))
      → Outcome (RmwRet × Option (List (EndpointInfo G)))
  get_subscriptions_info_by_topic node allocator topic_name no_mangle subscriptions_info =
      get_info_by_topic node allocator topic_name no_mangle false subscriptions_info
