-- ===== src/TopicCache/Repeated.antt =====
-- Adding an endpoint that the cache has.
use rmw_opendds.Prelude.{◌≡◌, false, none, some, [], arith}
use rmw_opendds.Text.{Bytes}
use rmw_opendds.Order.{Order, same_key_refl}
use rmw_opendds.Containers.Map
use rmw_opendds.Containers.Map.{find-assign}
use rmw_opendds.TopicCache.{TopicCache, TopicInfo, add_topic, initialize_participant_map}

module _ {G : Type 0} ⦃o : Order G⦄ where
  -- Adding an endpoint that is in the cache, under a participant that is not, answers false and
  -- leaves the endpoint as it was, and all the same the cache has changed: the participant has an
  -- empty entry.
  pub add_topic_repeated :
      (p e : G) (topic_name type_name : Bytes) (info : TopicInfo G) (c : TopicCache G)
      → Map.find e c.endpoint_guid_to_info ≡ some info
      → Map.find p c.participant_to_endpoint_guids ≡ none
      → ((add_topic p e topic_name type_name c).0 ≡ false)
        × (((add_topic p e topic_name type_name c).1.endpoint_guid_to_info
              ≡ c.endpoint_guid_to_info)
            × (Map.find p (add_topic p e topic_name type_name c).1.participant_to_endpoint_guids
                ≡ some []))
  unfolding add_topic initialize_participant_map
  add_topic_repeated p e topic_name type_name info c found new =
      let assigned = find-assign p p [] c.participant_to_endpoint_guids in
      ground (arith, found, new, assigned, same_key_refl p)
