-- ===== src/Listener.antt =====
-- CustomDataReaderListener, CustomPublisherListener and CustomSubscriberListener
-- (rmw_opendds_cpp/src/types/*.cpp, include/rmw_opendds_cpp/types.hpp): discovery fills a topic
-- cache, and the graph queries read it. A method runs alone, as under `mutex_`.
pub mod Discovery
pub mod Queries
use rmw_opendds.Prelude.{
  ℕ, suc, ◌+◌, Bool, true, false, not, ◌&&◌, ◌||◌, Option, none, some, List, [], ◌∷◌, ◌++◌,
  if◌then◌else◌, is_empty, Outcome, ok, ◌>>=◌,
}
use rmw_opendds.Text.{Bytes, bytes_eq, rfind}
use rmw_opendds.Order.{Order}
use rmw_opendds.Order.Strings.{bytes_order}
use rmw_opendds.Containers.Map
use rmw_opendds.Containers.Map.{Map}
use rmw_opendds.Containers.Set
use rmw_opendds.Names.Prefix.{get_ros_prefix_if_exists, ros_topic_prefix}
use rmw_opendds.Names.Demangle.{
  demangle_if_ros_topic, demangle_service_from_topic, demangle_service_type_only,
}
use rmw_opendds.TopicCache.{
  TopicCache, TopicInfo, TopicsTypes, or_empty, insert_type, add_topic, remove_topic,
  get_topic_types_by_guid,
}

-- `triggers` counts the calls of `rmw_trigger_guard_condition` on the graph's guard condition.
pub record Listener (G : Type 0) : Type 0 where
  pub topic_cache : TopicCache G
  pub triggers : ℕ

-- What `take` of the builtin reader brings: a sample of PublicationBuiltinTopicData or of
-- SubscriptionBuiltinTopicData, with the fields of its SampleInfo.
pub record Sample (Handle Key : Type 0) : Type 0 where
  pub publication_handle : Handle
  pub valid_data : Bool
  pub is_alive : Bool
  pub participant_key : Key
  pub topic_name : Bytes
  pub type_name : Bytes

pub data TakeResult (Handle Key : Type 0) : Type 0 where
  no_data : TakeResult Handle Key
  failed : TakeResult Handle Key
  taken : List (Sample Handle Key) → TakeResult Handle Key

module _ {G : Type 0} ⦃o : Order G⦄ where
  unfoldable pub add_information : G → G → Bytes → Bytes → Listener G → Bool × Listener G
  add_information participant_guid guid topic_name type_name l =
      let (success, cache) = add_topic participant_guid guid topic_name type_name l.topic_cache in
      (success, record l { topic_cache = cache })

  unfoldable pub remove_information : G → Listener G → Bool × Listener G
  remove_information guid l =
      let (success, cache) = remove_topic guid l.topic_cache in
      (success, record l { topic_cache = cache })

  unfoldable pub trigger_graph_guard_condition : Listener G → Listener G
  trigger_graph_guard_condition l = record l { triggers = l.triggers + 1 }

  -- `dpi->get_repoid` and `DDS_BuiltinTopicKey_to_GUID` belong to OpenDDS and its memory layout.
  module _ {Handle Key : Type 0} (get_repoid : Handle → G) (key_to_guid : Key → G) where
    handle_sample : Sample Handle Key → Listener G → Listener G
    unfolding add_information remove_information
    handle_sample s l =
        let guid = get_repoid s.publication_handle in
        if s.valid_data && s.is_alive
        then (add_information (key_to_guid s.participant_key) guid s.topic_name s.type_name l).1
        else (remove_information guid l).1

    handle_samples : List (Sample Handle Key) → Listener G → Listener G
    unfolding handle_sample
    handle_samples [] l = l
    handle_samples (s ∷ rest) l = handle_samples rest (handle_sample s l)

    handle_taken : TakeResult Handle Key → Listener G → Listener G
    unfolding handle_samples trigger_graph_guard_condition
    handle_taken no_data l = l
    handle_taken failed l = l
    handle_taken (taken samples) l =
        let filled = handle_samples samples l in
        if is_empty samples then filled else trigger_graph_guard_condition filled

    -- `narrowed` says whether the reader is a builtin publication reader.
    unfoldable pub publisher_on_data_available :
        Bool → TakeResult Handle Key → Listener G → Listener G
    unfolding handle_taken
    publisher_on_data_available narrowed result l = if narrowed then handle_taken result l else l

    -- The same loop, over subscription samples.
    unfoldable pub subscriber_on_data_available :
        Bool → TakeResult Handle Key → Listener G → Listener G
    unfolding handle_taken
    subscriber_on_data_available narrowed result l = if narrowed then handle_taken result l else l
