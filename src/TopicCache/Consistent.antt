-- ===== src/TopicCache/Consistent.antt =====
-- The invariant that ties the two maps of a cache together.
use rmw_opendds.Prelude.{ℕ, ◌≡◌, refl, Option, none, some, List, [], if◌then◌else◌, arith}
use rmw_opendds.Text.{Bytes}
use rmw_opendds.Order.{Order, same_key, same_key_iff, same_key_refl}
use rmw_opendds.Containers.Map
use rmw_opendds.Containers.Map.{Map, find-assign, find-erase, assign-IsSorted, erase-IsSorted}
use rmw_opendds.Containers.MultiSet
use rmw_opendds.Containers.MultiSet.{count-insert, count-erase_one, contains-count}
use rmw_opendds.TopicCache.{
  TopicInfo, TopicCache, empty_cache, or_empty, add_topic, initialize_participant_map, endpoints_of,
}

module _ {G : Type 0} ⦃o : Order G⦄ where
  -- How often an endpoint with this entry stands in the multiset of participant `p`.
  abbrev pub share : Option (TopicInfo G) → G → ℕ
  share none p = 0
  share (some info) p = if same_key info.participant_guid p then 1 else 0

  pub record IsConsistent (c : TopicCache G) : Type 0 where
    pub counted :
        (p e : G)
        → MultiSet.count e (endpoints_of p c) ≡ share (Map.find e c.endpoint_guid_to_info) p
    pub keyed :
        (e : G) (info : TopicInfo G)
        → Map.find e c.endpoint_guid_to_info ≡ some info
        → info.endpoint_guid ≡ e
    pub infos_sorted : Map.IsSorted c.endpoint_guid_to_info
    pub participants_sorted : Map.IsSorted c.participant_to_endpoint_guids

  pub empty_cache-IsConsistent : IsConsistent empty_cache
  unfolding Map.find MultiSet.count
  empty_cache-IsConsistent = record {
    counted = λ p e. refl;
    keyed = λ e info h. cc;
    infos_sorted = tt;
    participants_sorted = tt;
  }

  -- The new empty entry is not seen through `or_empty`.
  find-initialize :
      (p q : G) (m : Map G (List G))
      → or_empty (Map.find q (initialize_participant_map p m)) ≡ or_empty (Map.find q m)
  unfolding initialize_participant_map
  find-initialize p q m = ground (arith, find-assign p q [] m, same_key_iff p q)

  initialize-IsSorted :
      (p : G) (m : Map G (List G)) → Map.IsSorted m → Map.IsSorted (initialize_participant_map p m)
  unfolding initialize_participant_map
  initialize-IsSorted p m s = ground (arith, assign-IsSorted p [] m s)

  module _ (p e : G) (topic_name type_name : Bytes) (c : TopicCache G) (v : IsConsistent c) where
    abbrev added : TopicCache G
    added = (add_topic p e topic_name type_name c).1

    new_info : TopicInfo G
    new_info = record {
      topic_name = topic_name;
      topic_type = type_name;
      participant_guid = p;
      endpoint_guid = e;
    }

    add-counted :
        (q f : G)
        → MultiSet.count f (endpoints_of q added) ≡ share (Map.find f added.endpoint_guid_to_info) q
    unfolding add_topic new_info
    add-counted q f =
        let parts = initialize_participant_map p c.participant_to_endpoint_guids in
        let old = or_empty (Map.find p parts) in
        ground (
          arith,
          find-initialize p q c.participant_to_endpoint_guids,
          find-initialize p p c.participant_to_endpoint_guids,
          find-assign p q (MultiSet.insert e old) parts,
          find-assign e f new_info c.endpoint_guid_to_info,
          count-insert e f old,
          v.counted q f,
          v.counted p f,
          same_key_iff p q,
          same_key_iff e f,
          same_key_refl p,
        )

    add-keyed :
        (f : G) (info : TopicInfo G)
        → Map.find f added.endpoint_guid_to_info ≡ some info
        → info.endpoint_guid ≡ f
    unfolding add_topic new_info
    add-keyed f info h =
        ground (
          arith,
          find-assign e f new_info c.endpoint_guid_to_info,
          v.keyed f info,
          same_key_iff e f,
        )

    pub add_topic-IsConsistent : IsConsistent added
    unfolding add_topic new_info
    add_topic-IsConsistent = record {
      counted = add-counted;
      keyed = add-keyed;
      infos_sorted = ground (
        arith,
        v.infos_sorted,
        assign-IsSorted e new_info c.endpoint_guid_to_info v.infos_sorted,
      );
      participants_sorted =
          let parts = initialize_participant_map p c.participant_to_endpoint_guids in
          let s = initialize-IsSorted p c.participant_to_endpoint_guids v.participants_sorted in
          ground
            (arith, s, assign-IsSorted p (MultiSet.insert e (or_empty (Map.find p parts))) parts s);
    }
