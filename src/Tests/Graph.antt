-- ===== src/Tests/Graph.antt =====
-- Discovery and the graph queries at concrete inputs. A GUID is a text here, and so are an instance
-- handle and the key of a participant.
use rmw_opendds.Prelude.{◌≡◌, ◌↔◌, ◌+◌, true, false, [], ◌∷◌, ok, ◌>>=◌}
use rmw_opendds.Text.{Bytes, codes}
use rmw_opendds.Order.Strings.{bytes_order}
use rmw_opendds.Names.Prefix.{get_ros_prefix_if_exists}
use rmw_opendds.TopicCache.{TopicsTypes}
use rmw_opendds.TopicCache.Types.{lists}
use rmw_opendds.Listener.{
  Listener, Sample, taken, add_information, remove_information, publisher_on_data_available,
  subscriber_on_data_available,
}
use rmw_opendds.Listener.Discovery.{discovered, on_data_available_discovers}
use rmw_opendds.Listener.Queries.{
  count_topic, fill_topic_names_and_types, fill_service_names_and_types,
}
use rmw_opendds.Listener.Queries.Counting.{
  count_topic-add_information, count_topic-remove_information,
}
use rmw_opendds.Listener.Queries.Topics.{Shown, fill_topic_names_iff}
use rmw_opendds.Listener.Queries.Services.{Serves, fill_service_names_iff}
use rmw_opendds.Tests.Cache.{cache, cache-IsConsistent, info, find-e, find-h}

abbrev listener : Listener Bytes
listener = record { topic_cache = cache; triggers = 0 }

abbrev sample : Sample Bytes Bytes
sample = record {
  publication_handle = codes "g";
  valid_data = true;
  is_alive = true;
  participant_key = codes "p";
  topic_name = codes "rq/addRequest";
  type_name = codes "p::srv::dds_::Add_Request_";
}

on_data_available_example :
    (publisher_on_data_available (λ h. h) (λ k. k) true (taken (sample ∷ [])) listener
      ≡ discovered (λ h. h) (λ k. k) (sample ∷ []) listener)
    × (subscriber_on_data_available (λ h. h) (λ k. k) true (taken (sample ∷ [])) listener
        ≡ discovered (λ h. h) (λ k. k) (sample ∷ []) listener)
on_data_available_example =
    on_data_available_discovers (λ h. h) (λ k. k) true (taken (sample ∷ [])) listener

count_topic-add_example :
    count_topic
      (codes "/chatter")
      (add_information (codes "p") (codes "h") (codes "rt/chatter") (codes "T") listener).1
    ≡ (do n ← count_topic (codes "/chatter") listener; ok (1 + n))
unfolding get_ros_prefix_if_exists
count_topic-add_example =
    count_topic-add_information (codes "/chatter") (codes "rt/chatter") (codes "T") (codes "p")
      (codes "h") listener find-h

count_topic-remove_example : count_topic (codes "/chatter") listener ≡ (do
  n ← count_topic (codes "/chatter") (remove_information (codes "e") listener).1
  ok (1 + n))
unfolding get_ros_prefix_if_exists
count_topic-remove_example =
    count_topic-remove_information (codes "/chatter") (codes "e") info listener cache-IsConsistent
      find-e

fill_topic_names_example :
    (lists (codes "rt/chatter") (codes "T") (fill_topic_names_and_types false listener []) ≡ true)
    ↔ Shown false cache (codes "rt/chatter") (codes "T")
fill_topic_names_example =
    fill_topic_names_iff false listener (codes "rt/chatter") (codes "T") cache-IsConsistent

fill_service_names_example :
    (services : TopicsTypes) × (fill_service_names_and_types listener [] ≡ ok services)
    × ((lists (codes "/add") (codes "p/Add") services ≡ true)
        ↔ Serves cache (codes "/add") (codes "p/Add"))
fill_service_names_example =
    fill_service_names_iff listener (codes "/add") (codes "p/Add") cache-IsConsistent (λ e. cc)
      (λ e. cc)
