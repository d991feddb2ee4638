-- ===== src/TopicCache.antt =====
-- rmw_opendds_cpp/include/rmw_opendds_cpp/topic_cache.hpp: the endpoints that discovery has found,
-- by endpoint and by participant. Messages to the log are left out.
pub mod Consistent
pub mod Removal
pub mod Repeated
pub mod Undone
pub mod Refines
pub mod Types
use rmw_opendds.Prelude.{
  ◌≡◌, Bool, true, false, Option, none, some, List, [], ◌∷◌, if◌then◌else◌, is_empty,
}
use rmw_opendds.Text.{Bytes}
use rmw_opendds.Order.{Order}
use rmw_opendds.Order.Strings.{bytes_order}
use rmw_opendds.Containers.Map
use rmw_opendds.Containers.Map.{Map}
use rmw_opendds.Containers.Set
use rmw_opendds.Containers.MultiSet

pub record TopicInfo (G : Type 0) : Type 0 where
  pub topic_name : Bytes
  pub topic_type : Bytes
  pub participant_guid : G
  pub endpoint_guid : G

pub record TopicCache (G : Type 0) : Type 0 where
  pub endpoint_guid_to_info : Map G (TopicInfo G)
  pub participant_to_endpoint_guids : Map G (List G)

-- Topics to types.
abbrev pub TopicsTypes : Type 0
TopicsTypes = Map Bytes (List Bytes)

abbrev pub empty_cache : {G : Type 0} → TopicCache G
empty_cache = record { endpoint_guid_to_info = []; participant_to_endpoint_guids = [] }

-- What `m[k]` reads: an empty container where there is no entry.
abbrev pub or_empty {ℓ} : {A : Type ℓ} → Option (List A) → List A
or_empty none = []
or_empty (some s) = s

-- `topics[topic_name].insert(topic_type)`
unfoldable pub insert_type : Bytes → Bytes → TopicsTypes → TopicsTypes
insert_type topic_name topic_type topics =
    Map.assign topic_name (Set.insert topic_type (or_empty (Map.find topic_name topics))) topics

module _ {G : Type 0} ⦃o : Order G⦄ where
  -- An empty multiset for a participant that has none.
  initialize_participant_map : G → Map G (List G) → Map G (List G)
  initialize_participant_map participant_guid m = elim (Map.find participant_guid m) [
    | none ↦ Map.assign participant_guid [] m
    | some guids ↦ m
  ]

  unfoldable pub add_topic : G → G → Bytes → Bytes → TopicCache G → Bool × TopicCache G
  unfolding initialize_participant_map
  add_topic participant_guid endpoint_guid topic_name type_name c =
      let parts = initialize_participant_map participant_guid c.participant_to_endpoint_guids in
      elim (Map.find endpoint_guid c.endpoint_guid_to_info) [
        | some info ↦ (false, record c { participant_to_endpoint_guids = parts })
        | none ↦ (
          true,
          record {
            endpoint_guid_to_info =
                Map.assign endpoint_guid
                  (record {
                    topic_name = topic_name;
                    topic_type = type_name;
                    participant_guid = participant_guid;
                    endpoint_guid = endpoint_guid;
                  })
                  c.endpoint_guid_to_info;
            participant_to_endpoint_guids =
                Map.assign participant_guid
                  (MultiSet.insert endpoint_guid (or_empty (Map.find participant_guid parts)))
                  parts;
          },
        )
      ]

  -- The last step of `remove_topic`, at the endpoint's multiset.
  pub erase_endpoint : G → G → List G → TopicCache G → TopicCache G
  erase_endpoint endpoint_guid participant_guid guids c =
      let left = MultiSet.erase_one endpoint_guid guids in
      let parts = c.participant_to_endpoint_guids in
      record {
        endpoint_guid_to_info = Map.erase endpoint_guid c.endpoint_guid_to_info;
        participant_to_endpoint_guids =
            if is_empty left
            then Map.erase participant_guid parts
            else Map.assign participant_guid left parts;
      }

  remove_from : G → G → Option (List G) → TopicCache G → Bool × TopicCache G
  unfolding erase_endpoint
  remove_from endpoint_guid participant_guid none c = (false, c)
  remove_from endpoint_guid participant_guid (some guids) c =
      if MultiSet.contains endpoint_guid guids
      then (true, erase_endpoint endpoint_guid participant_guid guids c)
      else (false, c)

  unfoldable pub remove_topic : G → TopicCache G → Bool × TopicCache G
  unfolding remove_from
  remove_topic endpoint_guid c = elim (Map.find endpoint_guid c.endpoint_guid_to_info) [
    | none ↦ (false, c)
    | some info ↦
        remove_from endpoint_guid info.participant_guid
          (Map.find info.participant_guid c.participant_to_endpoint_guids) c
  ]

  -- The loop of `get_topic_types_by_guid`. `find` before `[]` makes the same empty set.
  collect_types : Map G (TopicInfo G) → List G → TopicsTypes → TopicsTypes
  collect_types infos [] topics = topics
  collect_types infos (endpoint_guid ∷ rest) topics =
      collect_types infos rest (elim (Map.find endpoint_guid infos) [
        | none ↦ topics
        | some info ↦ insert_type info.topic_name info.topic_type topics
      ])

  unfoldable pub get_topic_types_by_guid : G → TopicCache G → TopicsTypes
  unfolding collect_types
  get_topic_types_by_guid participant_guid c =
      elim (Map.find participant_guid c.participant_to_endpoint_guids) [
        | none ↦ []
        | some guids ↦ collect_types c.endpoint_guid_to_info guids []
      ]

  -- The multiset of a participant; empty where it has none.
  abbrev pub endpoints_of : G → TopicCache G → List G
  endpoints_of p c = or_empty (Map.find p c.participant_to_endpoint_guids)
