-- ===== src/Listener/Queries.antt =====
-- The graph queries of CustomDataReaderListener
-- (rmw_opendds_cpp/src/types/custom_data_reader_listener.cpp).
pub mod Counting
pub mod Topics
pub mod Services
pub mod Named
use rmw_opendds.Prelude.{
  ℕ, ◌+◌, Bool, true, false, not, ◌&&◌, ◌||◌, Option, none, some, List, [], ◌∷◌, ◌++◌,
  if◌then◌else◌, is_empty, Outcome, ok, ◌>>=◌,
}
use rmw_opendds.Text.{Bytes, bytes_eq, rfind}
use rmw_opendds.Order.{Order}
use rmw_opendds.Order.Strings.{bytes_order}
use rmw_opendds.Containers.Map
use rmw_opendds.Containers.Map.{Map}
use rmw_opendds.Containers.Set
use rmw_opendds.Names.Prefix.{get_ros_prefix_if_exists, ros_topic_prefix}
use rmw_opendds.Names.Demangle.{
  demangle_if_ros_topic, demangle_service_from_topic, demangle_service_type_only,
}
use rmw_opendds.TopicCache.{
  TopicCache, TopicInfo, TopicsTypes, or_empty, insert_type, get_topic_types_by_guid,
}
use rmw_opendds.Listener.{Listener}

-- Topics that are not ROS topics are passed over, unless `no_demangle` is set.
is_listed : Bool → Bytes → Bool
is_listed no_demangle topic_name =
    no_demangle || bytes_eq (get_ros_prefix_if_exists topic_name) ros_topic_prefix

-- One turn of a service loop: the type is looked at only if the topic is a service's.
add_service : Bytes → Bytes → TopicsTypes → Outcome TopicsTypes
add_service topic_name topic_type services = do
  service_name ← demangle_service_from_topic topic_name
  if is_empty service_name then ok services else do
    service_type ← demangle_service_type_only topic_type
    ok (if is_empty service_type then services else insert_type service_name service_type services)

-- `s.insert(types.begin(), types.end())`
insert_range : List Bytes → List Bytes → List Bytes
insert_range [] s = s
insert_range (t ∷ ts) s = insert_range ts (Set.insert t s)

insert_types : Bytes → List Bytes → TopicsTypes → TopicsTypes
unfolding insert_range
insert_types topic_name types topics =
    Map.assign topic_name (insert_range types (or_empty (Map.find topic_name topics))) topics

fill_names_by_guid : Bool → TopicsTypes → TopicsTypes → TopicsTypes
unfolding is_listed insert_types
fill_names_by_guid no_demangle [] topics = topics
fill_names_by_guid no_demangle ((topic_name, types) ∷ rest) topics =
    fill_names_by_guid no_demangle rest
      (if is_listed no_demangle topic_name then insert_types topic_name types topics else topics)

add_service_types : Bytes → List Bytes → TopicsTypes → Outcome TopicsTypes
add_service_types service_name [] services = ok services
add_service_types service_name (topic_type ∷ rest) services = do
  service_type ← demangle_service_type_only topic_type
  add_service_types service_name rest
      (if is_empty service_type then services else insert_type service_name service_type services)

-- One turn of the loop of `fill_service_names_and_types_by_guid`.
add_service_of : Bytes → Bytes → List Bytes → TopicsTypes → Outcome TopicsTypes
unfolding add_service_types
add_service_of suffix topic_name types services = do
  service_name ← demangle_service_from_topic topic_name
  if is_empty service_name then ok services else elim (rfind suffix topic_name) [
    | none ↦ ok services
    | some position ↦ add_service_types service_name types services
  ]

fill_services_by_guid : Bytes → TopicsTypes → TopicsTypes → Outcome TopicsTypes
unfolding add_service_of
fill_services_by_guid suffix [] services = ok services
fill_services_by_guid suffix ((topic_name, types) ∷ rest) services =
    add_service_of suffix topic_name types services >>= λ more.
    fill_services_by_guid suffix rest more

module _ {G : Type 0} ⦃o : Order G⦄ where
  count_matching : Bytes → Map G (TopicInfo G) → Outcome ℕ
  count_matching topic_name [] = ok 0
  count_matching topic_name ((guid, info) ∷ rest) = do
    fqdn ← demangle_if_ros_topic info.topic_name
    count ← count_matching topic_name rest
    ok ((if bytes_eq fqdn topic_name then 1 else 0) + count)

  unfoldable pub count_topic : Bytes → Listener G → Outcome ℕ
  unfolding count_matching
  count_topic topic_name l = count_matching topic_name l.topic_cache.endpoint_guid_to_info

  unfoldable pub endpoint_infos : Bytes → Bool → Map G (TopicInfo G) → Outcome (List (TopicInfo G))
  endpoint_infos topic_name no_mangle [] = ok []
  endpoint_infos topic_name no_mangle ((guid, info) ∷ rest) = do
    fqdn ← (if no_mangle then ok info.topic_name else demangle_if_ros_topic info.topic_name)
    infos ← endpoint_infos topic_name no_mangle rest
    ok (if bytes_eq fqdn topic_name then info ∷ infos else infos)

  -- The infos pushed back behind those that the vector holds.
  unfoldable pub fill_topic_endpoint_infos :
      Bytes → Bool → Listener G → List (TopicInfo G) → Outcome (List (TopicInfo G))
  unfolding endpoint_infos
  fill_topic_endpoint_infos topic_name no_mangle l topic_endpoint_infos = do
    infos ← endpoint_infos topic_name no_mangle l.topic_cache.endpoint_guid_to_info
    ok (topic_endpoint_infos ++ infos)

  fill_names : Bool → Map G (TopicInfo G) → TopicsTypes → TopicsTypes
  unfolding is_listed
  fill_names no_demangle [] topics = topics
  fill_names no_demangle ((guid, info) ∷ rest) topics = fill_names no_demangle rest (
      if is_listed no_demangle info.topic_name
      then insert_type info.topic_name info.topic_type topics
      else topics)

  unfoldable pub fill_topic_names_and_types : Bool → Listener G → TopicsTypes → TopicsTypes
  unfolding fill_names
  fill_topic_names_and_types no_demangle l topics =
      fill_names no_demangle l.topic_cache.endpoint_guid_to_info topics

  fill_services : Map G (TopicInfo G) → TopicsTypes → Outcome TopicsTypes
  unfolding add_service
  fill_services [] services = ok services
  fill_services ((guid, info) ∷ rest) services =
      add_service info.topic_name info.topic_type services >>= λ more. fill_services rest more

  unfoldable pub fill_service_names_and_types : Listener G → TopicsTypes → Outcome TopicsTypes
  unfolding fill_services
  fill_service_names_and_types l services =
      fill_services l.topic_cache.endpoint_guid_to_info services

  unfoldable pub fill_topic_names_and_types_by_guid :
      Bool → Listener G → TopicsTypes → G → TopicsTypes
  unfolding fill_names_by_guid
  fill_topic_names_and_types_by_guid no_demangle l topics participant_guid =
      let types = get_topic_types_by_guid participant_guid l.topic_cache in
      if is_empty types then topics else fill_names_by_guid no_demangle types topics

  unfoldable pub fill_service_names_and_types_by_guid :
      Listener G → TopicsTypes → G → Bytes → Outcome TopicsTypes
  unfolding fill_services_by_guid
  fill_service_names_and_types_by_guid l services participant_guid suffix =
      let types = get_topic_types_by_guid participant_guid l.topic_cache in
      if is_empty types then ok services else fill_services_by_guid suffix types services
