-- ===== src/Listener/Queries/Counting.antt =====
-- `count_topic` against additions and removals.
use rmw_opendds.Prelude.{
  ◌+◌, ◌≡◌, refl, Bool, none, some, [], ◌∷◌, if◌then◌else◌, arith, ok, drop, is_empty, ◌>>=◌, ap,
  sym,
}
use rmw_opendds.Text.{Bytes, bytes_eq, substr_from}
use rmw_opendds.Order.{Order}
use rmw_opendds.Containers.Map
use rmw_opendds.Containers.Map.{Map}
use rmw_opendds.Containers.Map.Entries.{count_if, count_if-assign, count_if-erase}
use rmw_opendds.Names.Prefix.{get_ros_prefix_if_exists}
use rmw_opendds.Names.Demangle.{demangle_if_ros_topic}
use rmw_opendds.TopicCache.{TopicInfo, add_topic}
use rmw_opendds.TopicCache.Consistent.{IsConsistent}
use rmw_opendds.TopicCache.Removal.{infos-remove_topic}
use rmw_opendds.Listener.{Listener, add_information, remove_information}
use rmw_opendds.Listener.Queries.{count_topic, count_matching}

-- A topic name without its ROS prefix.
abbrev pub plain_name : Bytes → Bytes
plain_name topic_name =
    if is_empty (get_ros_prefix_if_exists topic_name) then topic_name else drop 2 topic_name

pub demangle-eq-plain_name : (t : Bytes) → demangle_if_ros_topic t ≡ ok (plain_name t)
unfolding demangle_if_ros_topic substr_from
demangle-eq-plain_name [] = ground arith
demangle-eq-plain_name (a ∷ []) = ground arith
demangle-eq-plain_name (a ∷ b ∷ t) = ground arith

module _ {G : Type 0} ⦃o : Order G⦄ where
  abbrev pub is_of : Bytes → TopicInfo G → Bool
  is_of topic_name info = bytes_eq (plain_name info.topic_name) topic_name

  count_matching-eq-count_if :
      (topic_name : Bytes) (m : Map G (TopicInfo G))
      → count_matching topic_name m ≡ ok (count_if (is_of topic_name) m)
  unfolding count_matching count_if
  count_matching-eq-count_if topic_name [] = refl
  count_matching-eq-count_if topic_name ((guid, info) ∷ m) =
      rw (demangle-eq-plain_name info.topic_name, count_matching-eq-count_if topic_name m)

  pub count_topic-eq-count_if :
      (topic_name : Bytes) (l : Listener G)
      → count_topic topic_name l
        ≡ ok (count_if (is_of topic_name) l.topic_cache.endpoint_guid_to_info)
  unfolding count_topic
  count_topic-eq-count_if topic_name l =
      count_matching-eq-count_if topic_name l.topic_cache.endpoint_guid_to_info

  infos-add_information :
      (p e : G) (name type_name : Bytes) (l : Listener G)
      → Map.find e l.topic_cache.endpoint_guid_to_info ≡ none
      → (add_information p e name type_name l).1.topic_cache.endpoint_guid_to_info
        ≡ Map.assign e
            (record {
              topic_name = name;
              topic_type = type_name;
              participant_guid = p;
              endpoint_guid = e;
            })
            l.topic_cache.endpoint_guid_to_info
  unfolding add_information add_topic
  infos-add_information p e name type_name l fresh = rw (fresh, add_topic)

  -- An endpoint that is not in the cache raises the count of its own topic by one when it is added,
  -- and no other count.
  pub count_topic-add_information :
      (topic_name name type_name : Bytes) (p e : G) (l : Listener G)
      → Map.find e l.topic_cache.endpoint_guid_to_info ≡ none
      → count_topic topic_name (add_information p e name type_name l).1 ≡ (do
        n ← count_topic topic_name l
        ok ((if bytes_eq (plain_name name) topic_name then 1 else 0) + n))
  count_topic-add_information topic_name name type_name p e l fresh = rw (
    count_topic-eq-count_if topic_name (add_information p e name type_name l).1,
    count_topic-eq-count_if topic_name l,
    infos-add_information p e name type_name l fresh,
    count_if-assign (is_of topic_name) e _ l.topic_cache.endpoint_guid_to_info fresh,
  )

  infos-remove_information :
      (e : G) (info : TopicInfo G) (l : Listener G)
      → IsConsistent l.topic_cache
      → Map.find e l.topic_cache.endpoint_guid_to_info ≡ some info
      → (remove_information e l).1.topic_cache.endpoint_guid_to_info
        ≡ Map.erase e l.topic_cache.endpoint_guid_to_info
  unfolding remove_information
  infos-remove_information e info l v found = infos-remove_topic e info l.topic_cache v found

  -- In a consistent cache an endpoint that is there and goes lowers the count of its own topic by
  -- one, and no other count.
  pub count_topic-remove_information :
      (topic_name : Bytes) (e : G) (info : TopicInfo G) (l : Listener G)
      → IsConsistent l.topic_cache
      → Map.find e l.topic_cache.endpoint_guid_to_info ≡ some info
      → count_topic topic_name l ≡ (do
        n ← count_topic topic_name (remove_information e l).1
        ok ((if bytes_eq (plain_name info.topic_name) topic_name then 1 else 0) + n))
  count_topic-remove_information topic_name e info l v found =
      rw
        (
          count_topic-eq-count_if topic_name (remove_information e l).1,
          count_topic-eq-count_if topic_name l,
          infos-remove_information e info l v found,
        )
        (ap ok (
          sym (
            count_if-erase (is_of topic_name) e info l.topic_cache.endpoint_guid_to_info
              v.infos_sorted found)))
