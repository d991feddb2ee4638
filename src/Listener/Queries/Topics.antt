-- ===== src/Listener/Queries/Topics.antt =====
-- `fill_topic_names_and_types`: which topics and types the graph shows.
use rmw_opendds.Prelude.{
  ◌≡◌, Bool, true, ◌&&◌, ◌||◌, some, [], ◌∷◌, arith, Bool-cases, inl, inr, ◌⊎◌, ◌↔◌,
}
use rmw_opendds.Text.{Bytes}
use rmw_opendds.Text.Search.{bytes_eq_iff}
use rmw_opendds.Order.{Order, same_key, same_key_iff}
use rmw_opendds.Order.Strings.{bytes_order}
use rmw_opendds.Containers.Map
use rmw_opendds.Containers.Map.{Map}
use rmw_opendds.Containers.Map.Entries.{any_entry, any_entry-find, any_entry-of_find}
use rmw_opendds.Names.Prefix.{get_ros_prefix_if_exists, ros_topic_prefix}
use rmw_opendds.TopicCache.{TopicInfo, TopicCache, TopicsTypes, insert_type}
use rmw_opendds.TopicCache.Consistent.{IsConsistent}
use rmw_opendds.TopicCache.Types.{lists, lists-nil, lists-insert_type}
use rmw_opendds.Listener.{Listener}
use rmw_opendds.Listener.Queries.{is_listed, fill_names, fill_topic_names_and_types}

module _ {G : Type 0} ⦃o : Order G⦄ where
  -- An entry that the query shows as topic `t` with type `ty`.
  shows : Bool → Bytes → Bytes → TopicInfo G → Bool
  shows no_demangle t ty info =
      is_listed no_demangle info.topic_name
      && (same_key info.topic_name t && same_key info.topic_type ty)

  lists-fill_names :
      (no_demangle : Bool) (t ty : Bytes) (m : Map G (TopicInfo G)) (topics : TopicsTypes)
      → lists t ty (fill_names no_demangle m topics)
        ≡ lists t ty topics || any_entry (shows no_demangle t ty) m
  unfolding fill_names any_entry shows
  lists-fill_names no_demangle t ty [] topics = ground arith
  lists-fill_names no_demangle t ty ((e, info) ∷ m) topics =
      elim (Bool-cases (is_listed no_demangle info.topic_name)) [
        | inl listed ↦ rw listed (
            ground (
              arith,
              lists-fill_names no_demangle t ty m
                  (insert_type info.topic_name info.topic_type topics),
              lists-insert_type t ty info.topic_name info.topic_type topics,
            ))
        | inr hidden ↦ rw hidden (lists-fill_names no_demangle t ty m topics)
      ]

  -- A discovered endpoint has topic `t` and type `ty`, and `t` is a ROS topic or names are not
  -- demangled.
  abbrev pub Shown : Bool → TopicCache G → Bytes → Bytes → Type 0
  Shown no_demangle c t ty =
      (e : G) × (info : TopicInfo G) × (Map.find e c.endpoint_guid_to_info ≡ some info)
      × (info.topic_name ≡ t)
      × (info.topic_type ≡ ty)
      × ((no_demangle ≡ true) ⊎ (get_ros_prefix_if_exists t ≡ ros_topic_prefix))

  shows_parts :
      (no_demangle : Bool) (t ty : Bytes) (info : TopicInfo G)
      → shows no_demangle t ty info ≡ true
      → (info.topic_name ≡ t)
        × (info.topic_type ≡ ty)
        × ((no_demangle ≡ true) ⊎ (get_ros_prefix_if_exists t ≡ ros_topic_prefix))
  unfolding shows is_listed
  shows_parts no_demangle t ty info h = ground (
    arith,
    same_key_iff info.topic_name t,
    same_key_iff info.topic_type ty,
    bytes_eq_iff (get_ros_prefix_if_exists info.topic_name) ros_topic_prefix,
  )

  parts-shows :
      (no_demangle : Bool) (t ty : Bytes) (info : TopicInfo G)
      → info.topic_name ≡ t
      → info.topic_type ≡ ty
      → (no_demangle ≡ true) ⊎ (get_ros_prefix_if_exists t ≡ ros_topic_prefix)
      → shows no_demangle t ty info ≡ true
  unfolding shows is_listed
  parts-shows no_demangle t ty info h k r = ground (
    arith,
    same_key_iff info.topic_name t,
    same_key_iff info.topic_type ty,
    bytes_eq_iff (get_ros_prefix_if_exists info.topic_name) ros_topic_prefix,
  )

  lists-fill :
      (no_demangle : Bool) (l : Listener G) (t ty : Bytes)
      → lists t ty (fill_topic_names_and_types no_demangle l [])
        ≡ any_entry (shows no_demangle t ty) l.topic_cache.endpoint_guid_to_info
  unfolding fill_topic_names_and_types
  lists-fill no_demangle l t ty = ground (
    arith,
    lists-fill_names no_demangle t ty l.topic_cache.endpoint_guid_to_info [],
    lists-nil t ty,
  )

  -- The query adds to what the map lists before.
  pub lists-fill_topic_names :
      (no_demangle : Bool) (l : Listener G) (t ty : Bytes) (topics : TopicsTypes)
      → lists t ty (fill_topic_names_and_types no_demangle l topics)
        ≡ lists t ty topics || lists t ty (fill_topic_names_and_types no_demangle l [])
  unfolding fill_topic_names_and_types
  lists-fill_topic_names no_demangle l t ty topics = ground (
    arith,
    lists-fill_names no_demangle t ty l.topic_cache.endpoint_guid_to_info topics,
    lists-fill no_demangle l t ty,
  )

  Shown-of_listed :
      (no_demangle : Bool) (l : Listener G) (t ty : Bytes)
      → IsConsistent l.topic_cache
      → lists t ty (fill_topic_names_and_types no_demangle l []) ≡ true
      → Shown no_demangle l.topic_cache t ty
  Shown-of_listed no_demangle l t ty v h =
      let (e, info, found, s) =
        any_entry-find _ l.topic_cache.endpoint_guid_to_info v.infos_sorted (rw lists-fill at h) in
      let (name, type, rule) = shows_parts no_demangle t ty info s in
      (e, info, found, name, type, rule)

  listed_of_Shown :
      (no_demangle : Bool) (l : Listener G) (t ty : Bytes)
      → Shown no_demangle l.topic_cache t ty
      → lists t ty (fill_topic_names_and_types no_demangle l []) ≡ true
  listed_of_Shown no_demangle l t ty (e, info, found, name, type, rule) = rw lists-fill (
      any_entry-of_find _ l.topic_cache.endpoint_guid_to_info e info found
        (parts-shows no_demangle t ty info name type rule))

  -- From an empty map and a consistent cache the query lists exactly the types of the discovered
  -- endpoints: those of ROS topics, or all where names are not demangled.
  pub fill_topic_names_iff :
      (no_demangle : Bool) (l : Listener G) (t ty : Bytes)
      → IsConsistent l.topic_cache
      → (lists t ty (fill_topic_names_and_types no_demangle l []) ≡ true)
        ↔ Shown no_demangle l.topic_cache t ty
  fill_topic_names_iff no_demangle l t ty v =
      (Shown-of_listed no_demangle l t ty v, listed_of_Shown no_demangle l t ty)
