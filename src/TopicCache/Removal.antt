-- ===== src/TopicCache/Removal.antt =====
-- `remove_topic` on a consistent cache.
use rmw_opendds.Prelude.{
  ◌≡◌, true, false, Option, none, some, List, [], ◌∷◌, if◌then◌else◌, arith, is_empty, Option-cases,
  inl, inr,
}
use rmw_opendds.Order.{Order, same_key, same_key_iff, same_key_refl}
use rmw_opendds.Containers.Map
use rmw_opendds.Containers.Map.{Map, find-assign, find-erase, assign-IsSorted, erase-IsSorted}
use rmw_opendds.Containers.MultiSet
use rmw_opendds.Containers.MultiSet.{count-erase_one, contains-count}
use rmw_opendds.TopicCache.{
  TopicInfo, TopicCache, or_empty, remove_topic, remove_from, erase_endpoint, endpoints_of,
}
use rmw_opendds.TopicCache.Consistent.{IsConsistent, share}

module _ {G : Type 0} ⦃o : Order G⦄ where
  -- The multiset of the endpoint's participant holds the endpoint: the two later guards of
  -- `remove_topic` never fail.
  remove_from_found :
      (e p : G) (m : Option (List G)) (c : TopicCache G)
      → MultiSet.count e (or_empty m) ≡ 1
      → remove_from e p m c ≡ (true, erase_endpoint e p (or_empty m) c)
  unfolding remove_from MultiSet.count
  remove_from_found e p none c h = ground arith
  remove_from_found e p (some guids) c h = ground (arith, contains-count e guids)

  pub remove_topic_found :
      (e : G) (info : TopicInfo G) (c : TopicCache G)
      → IsConsistent c
      → Map.find e c.endpoint_guid_to_info ≡ some info
      → remove_topic e c
        ≡ (true, erase_endpoint e info.participant_guid (endpoints_of info.participant_guid c) c)
  unfolding remove_topic
  remove_topic_found e info c v h = ground (
    arith,
    remove_from_found e info.participant_guid
        (Map.find info.participant_guid c.participant_to_endpoint_guids) c,
    v.counted info.participant_guid e,
    same_key_refl info.participant_guid,
  )

  -- What is left of a multiset is read in the same way whether or not it was empty and dropped.
  find-left :
      (p q : G) (left : List G) (m : Map G (List G))
      → or_empty (Map.find q (if is_empty left then Map.erase p m else Map.assign p left m))
        ≡ (if same_key p q then left else or_empty (Map.find q m))
  find-left p q [] m = ground (arith, find-erase p q m)
  find-left p q (e ∷ left) m = ground (arith, find-assign p q (e ∷ left) m)

  left-IsSorted :
      (p : G) (left : List G) (m : Map G (List G))
      → Map.IsSorted m
      → Map.IsSorted (if is_empty left then Map.erase p m else Map.assign p left m)
  left-IsSorted p [] m s = erase-IsSorted p m s
  left-IsSorted p (e ∷ left) m s = assign-IsSorted p (e ∷ left) m s

  module _ (e : G) (info : TopicInfo G) (c : TopicCache G) (v : IsConsistent c)
      (found : Map.find e c.endpoint_guid_to_info ≡ some info) where
    abbrev p : G
    p = info.participant_guid

    abbrev erased : TopicCache G
    erased = erase_endpoint e p (endpoints_of p c) c

    erase-counted :
        (q f : G)
        → MultiSet.count f (endpoints_of q erased)
          ≡ share (Map.find f erased.endpoint_guid_to_info) q
    unfolding erase_endpoint
    erase-counted q f = ground (
      arith,
      find-left p q (MultiSet.erase_one e (endpoints_of p c)) c.participant_to_endpoint_guids,
      find-erase e f c.endpoint_guid_to_info,
      count-erase_one e f (endpoints_of p c),
      v.counted q f,
      v.counted p f,
      v.counted q e,
      same_key_iff p q,
      same_key_iff e f,
    )

    erase_endpoint-IsConsistent : IsConsistent erased
    unfolding erase_endpoint
    erase_endpoint-IsConsistent = record {
      counted = erase-counted;
      keyed = λ f i h. v.keyed f i (ground (arith, find-erase e f c.endpoint_guid_to_info));
      infos_sorted = erase-IsSorted e c.endpoint_guid_to_info v.infos_sorted;
      participants_sorted =
          left-IsSorted p (MultiSet.erase_one e (endpoints_of p c)) c.participant_to_endpoint_guids
            v.participants_sorted;
    }

  pub remove_topic_missing :
      (e : G) (c : TopicCache G)
      → Map.find e c.endpoint_guid_to_info ≡ none
      → remove_topic e c ≡ (false, c)
  unfolding remove_topic
  remove_topic_missing e c h = ground arith

  pub remove_topic-IsConsistent :
      (e : G) (c : TopicCache G) → IsConsistent c → IsConsistent (remove_topic e c).1
  remove_topic-IsConsistent e c v = elim (Option-cases (Map.find e c.endpoint_guid_to_info)) [
    | inl missing ↦ rw (remove_topic_missing e c missing) v
    | inr (info, found) ↦
        rw (remove_topic_found e info c v found) (erase_endpoint-IsConsistent e info c v found)
  ]

  pub infos-remove_topic :
      (e : G) (info : TopicInfo G) (c : TopicCache G)
      → IsConsistent c
      → Map.find e c.endpoint_guid_to_info ≡ some info
      → (remove_topic e c).1.endpoint_guid_to_info ≡ Map.erase e c.endpoint_guid_to_info
  unfolding erase_endpoint
  infos-remove_topic e info c v found = rw (remove_topic_found e info c v found)
