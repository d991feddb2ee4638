-- ===== src/TopicCache/Undone.antt =====
-- An addition to the cache that is taken back.
use rmw_opendds.Prelude.{
  ◌≡◌, ◌≢◌, refl, ap, ◌∙◌, Option-cases, inl, inr, true, Option, none, some, List, [], ◌∷◌, arith,
  is_empty, if◌then◌else◌,
}
use rmw_opendds.Text.{Bytes}
use rmw_opendds.Order.{Order, same_key_refl}
use rmw_opendds.Containers.Map
use rmw_opendds.Containers.Map.{Map, find-assign}
use rmw_opendds.Containers.Map.Back.{erase-assign, assign_again, assign_found}
use rmw_opendds.Containers.MultiSet
use rmw_opendds.Containers.MultiSet.{count-insert, contains-count, erase_one-insert}
use rmw_opendds.TopicCache.{
  TopicInfo, TopicCache, or_empty, add_topic, remove_topic, erase_endpoint,
  initialize_participant_map, endpoints_of,
}
use rmw_opendds.TopicCache.Consistent.{IsConsistent, share, add_topic-IsConsistent}
use rmw_opendds.TopicCache.Removal.{remove_topic_found}

module _ {G : Type 0} ⦃o : Order G⦄ where
  contains-insert : (e : G) (s : List G) → MultiSet.contains e (MultiSet.insert e s) ≡ true
  contains-insert e s =
      ground (arith, contains-count e (MultiSet.insert e s), count-insert e e s, same_key_refl e)

  -- The participant's multiset, with the endpoint and again without it.
  parts_back :
      (p e : G) (m : Map G (List G))
      → Map.IsSorted m
      → Map.find p m ≢ some []
      → MultiSet.count e (or_empty (Map.find p m)) ≡ 0
      → (parts : Option (List G)) → Map.find p m ≡ parts
      → (if is_empty (or_empty parts)
          then Map.erase p
              (Map.assign p (MultiSet.insert e (or_empty parts)) (initialize_participant_map p m))
          else Map.assign p
              (or_empty parts)
              (Map.assign p (MultiSet.insert e (or_empty parts)) (initialize_participant_map p m)))
        ≡ m
  unfolding initialize_participant_map
  parts_back p e m s h c none f =
      rw (initialize_participant_map, f)
        (rw (assign_again p (MultiSet.insert e []) [] m)
          (erase-assign p (MultiSet.insert e []) m f))
  parts_back p e m s h c (some []) f = absurd (h f)
  parts_back p e m s h c (some (x ∷ xs)) f =
      rw (initialize_participant_map, f)
        (rw (assign_again p (x ∷ xs) (MultiSet.insert e (x ∷ xs)) m)
          (assign_found p (x ∷ xs) m s f))

  initialize-or_empty :
      (p : G) (m : Map G (List G))
      → or_empty (Map.find p (initialize_participant_map p m)) ≡ or_empty (Map.find p m)
  unfolding initialize_participant_map
  initialize-or_empty p m = elim (Option-cases (Map.find p m)) [
    | inl e ↦ rw (initialize_participant_map, e) (rw (find-assign p p [] m, same_key_refl p) refl)
    | inr (guids, e) ↦ rw (initialize_participant_map, e) (rw e refl)
  ]

  new_entry : G → G → Bytes → Bytes → TopicInfo G
  new_entry p e topic_name type_name = record {
    topic_name = topic_name;
    topic_type = type_name;
    participant_guid = p;
    endpoint_guid = e;
  }

  add_topic-eq :
      (p e : G) (topic_name type_name : Bytes) (c : TopicCache G)
      → Map.find e c.endpoint_guid_to_info ≡ none
      → (add_topic p e topic_name type_name c).1 ≡ record {
        endpoint_guid_to_info =
            Map.assign e (new_entry p e topic_name type_name) c.endpoint_guid_to_info;
        participant_to_endpoint_guids =
            Map.assign p
              (MultiSet.insert e (endpoints_of p c))
              (initialize_participant_map p c.participant_to_endpoint_guids);
      }
  unfolding add_topic new_entry
  add_topic-eq p e topic_name type_name c fresh =
      rw (add_topic, fresh) (rw (initialize-or_empty p c.participant_to_endpoint_guids) refl)

  module _ (p e : G) (topic_name type_name : Bytes) (c : TopicCache G) (v : IsConsistent c)
      (fresh : Map.find e c.endpoint_guid_to_info ≡ none) where
    added_found :
        Map.find e (add_topic p e topic_name type_name c).1.endpoint_guid_to_info
        ≡ some (new_entry p e topic_name type_name)
    added_found =
        rw
          (
            add_topic-eq p e topic_name type_name c fresh,
            find-assign e e (new_entry p e topic_name type_name) c.endpoint_guid_to_info,
            same_key_refl e,
          )
          refl

    added_endpoints :
        endpoints_of p (add_topic p e topic_name type_name c).1
        ≡ MultiSet.insert e (endpoints_of p c)
    added_endpoints =
        rw
          (
            add_topic-eq p e topic_name type_name c fresh,
            find-assign p p (MultiSet.insert e (endpoints_of p c))
                (initialize_participant_map p c.participant_to_endpoint_guids),
            same_key_refl p,
          )
          refl

    none_counted : MultiSet.count e (endpoints_of p c) ≡ 0
    none_counted = v.counted p e ∙ ap (λ i. share i p) fresh

    erased_back :
        Map.find p c.participant_to_endpoint_guids ≢ some []
        → erase_endpoint e p
            (MultiSet.insert e (endpoints_of p c))
            (add_topic p e topic_name type_name c).1
          ≡ c
    unfolding erase_endpoint
    erased_back nonempty =
        rw
          (
            add_topic-eq p e topic_name type_name c fresh,
            erase_one-insert e (endpoints_of p c) none_counted,
            erase-assign e (new_entry p e topic_name type_name) c.endpoint_guid_to_info fresh,
            parts_back p e c.participant_to_endpoint_guids v.participants_sorted nonempty
                none_counted (Map.find p c.participant_to_endpoint_guids) refl,
          )
          refl

  -- In a consistent cache, the removal of an endpoint that was just added, and was not there,
  -- leaves the cache as it was, unless the participant had an empty entry.
  pub remove_topic-add_topic :
      (p e : G) (topic_name type_name : Bytes) (c : TopicCache G)
      → IsConsistent c
      → Map.find e c.endpoint_guid_to_info ≡ none
      → Map.find p c.participant_to_endpoint_guids ≢ some []
      → remove_topic e (add_topic p e topic_name type_name c).1 ≡ (true, c)
  unfolding new_entry
  remove_topic-add_topic p e topic_name type_name c v fresh nonempty =
      remove_topic_found e (new_entry p e topic_name type_name)
        (add_topic p e topic_name type_name c).1
        (add_topic-IsConsistent p e topic_name type_name c v)
        (added_found p e topic_name type_name c v fresh)
      ∙ (ap (λ guids. (true, erase_endpoint e p guids (add_topic p e topic_name type_name c).1))
            (added_endpoints p e topic_name type_name c v fresh)
          ∙ ap (λ b. (true, b)) (erased_back p e topic_name type_name c v fresh nonempty))
