-- ===== src/TopicCache/Types.antt =====
-- The types that `get_topic_types_by_guid` gathers for a participant.
use rmw_opendds.Prelude.{
  ◌≤◌, ◌≡◌, refl, Bool, true, false, ◌&&◌, ◌||◌, Option, none, some, List, [], ◌∷◌, arith,
  Option-cases, Bool-cases, inl, inr, ◌↔◌,
}
use rmw_opendds.Text.{Bytes}
use rmw_opendds.Order.{Order, same_key, same_key_iff, same_key_refl}
use rmw_opendds.Order.Strings.{bytes_order}
use rmw_opendds.Containers.Map
use rmw_opendds.Containers.Map.{Map, find-assign}
use rmw_opendds.Containers.Set
use rmw_opendds.Containers.Set.{contains-insert}
use rmw_opendds.Containers.MultiSet
use rmw_opendds.TopicCache.{
  TopicInfo, TopicCache, TopicsTypes, or_empty, insert_type, collect_types, get_topic_types_by_guid,
  endpoints_of,
}
use rmw_opendds.TopicCache.Consistent.{IsConsistent}

-- `topics` lists type `ty` under topic `t`.
abbrev pub lists : Bytes → Bytes → TopicsTypes → Bool
lists t ty topics = Set.contains ty (or_empty (Map.find t topics))

pub lists-nil : (t ty : Bytes) → lists t ty [] ≡ false
unfolding Map.find Set.contains
lists-nil t ty = refl

pub lists-insert_type :
    (t ty n y : Bytes) (topics : TopicsTypes)
    → lists t ty (insert_type n y topics) ≡ (same_key n t && same_key y ty) || lists t ty topics
unfolding insert_type
lists-insert_type t ty n y topics =
    let old = or_empty (Map.find n topics) in
    ground
      (arith, find-assign n t (Set.insert y old) topics, contains-insert y ty old, same_key_iff n t)

module _ {G : Type 0} ⦃o : Order G⦄ where
  -- An entry for topic `t` with type `ty`.
  abbrev pub names : Bytes → Bytes → Option (TopicInfo G) → Bool
  names t ty none = false
  names t ty (some info) = same_key info.topic_name t && same_key info.topic_type ty

  any_names : Bytes → Bytes → Map G (TopicInfo G) → List G → Bool
  any_names t ty infos [] = false
  any_names t ty infos (e ∷ es) = names t ty (Map.find e infos) || any_names t ty infos es

  lists-collect_types :
      (t ty : Bytes) (infos : Map G (TopicInfo G)) (es : List G) (topics : TopicsTypes)
      → lists t ty (collect_types infos es topics) ≡ lists t ty topics || any_names t ty infos es
  unfolding collect_types any_names
  lists-collect_types t ty infos [] topics = ground arith
  lists-collect_types t ty infos (e ∷ es) topics = elim (Option-cases (Map.find e infos)) [
    | inl missing ↦ rw missing (lists-collect_types t ty infos es topics)
    | inr (info, found) ↦
        rw (found, collect_types)
          (ground (
            arith,
            lists-collect_types t ty infos es (insert_type info.topic_name info.topic_type topics),
            lists-insert_type t ty info.topic_name info.topic_type topics,
          ))
  ]

  any_names-member :
      (t ty : Bytes) (infos : Map G (TopicInfo G)) (es : List G)
      → any_names t ty infos es ≡ true
      → (e : G) × (1 ≤ MultiSet.count e es) × (names t ty (Map.find e infos) ≡ true)
  unfolding any_names MultiSet.count
  any_names-member t ty infos [] h = cc
  any_names-member t ty infos (e ∷ es) h = elim (Bool-cases (names t ty (Map.find e infos))) [
    | inl here ↦ (e, ground (arith, same_key_refl e), here)
    | inr not_here ↦
        let (f, m, n) = any_names-member t ty infos es (ground arith) in (f, omega arith, n)
  ]

  any_names-of_member :
      (t ty : Bytes) (infos : Map G (TopicInfo G)) (es : List G) (e : G)
      → 1 ≤ MultiSet.count e es
      → names t ty (Map.find e infos) ≡ true
      → any_names t ty infos es ≡ true
  unfolding any_names MultiSet.count
  any_names-of_member t ty infos [] e m h = absurd (omega arith)
  any_names-of_member t ty infos (f ∷ es) e m h =
      ground (arith, same_key_iff f e, any_names-of_member t ty infos es e)

  lists-get_topic_types :
      (p : G) (c : TopicCache G) (t ty : Bytes)
      → lists t ty (get_topic_types_by_guid p c)
        ≡ any_names t ty c.endpoint_guid_to_info (endpoints_of p c)
  unfolding get_topic_types_by_guid any_names
  lists-get_topic_types p c t ty =
      elim (Option-cases (Map.find p c.participant_to_endpoint_guids)) [
        | inl missing ↦ rw (missing, get_topic_types_by_guid, lists-nil)
        | inr (guids, found) ↦
            rw (found, get_topic_types_by_guid)
              (ground
                (arith, lists-collect_types t ty c.endpoint_guid_to_info guids [], lists-nil t ty))
      ]

  -- Some endpoint of participant `p` has topic `t` and type `ty`.
  abbrev pub Offers : G → TopicCache G → Bytes → Bytes → Type 0
  Offers p c t ty =
      (e : G) × (info : TopicInfo G) × (Map.find e c.endpoint_guid_to_info ≡ some info)
      × (info.participant_guid ≡ p)
      × (info.topic_name ≡ t)
      × (info.topic_type ≡ ty)

  offer-of_member :
      (p : G) (c : TopicCache G) (t ty : Bytes) (e : G)
      → IsConsistent c
      → 1 ≤ MultiSet.count e (endpoints_of p c)
      → names t ty (Map.find e c.endpoint_guid_to_info) ≡ true
      → Offers p c t ty
  offer-of_member p c t ty e v m n = elim (Option-cases (Map.find e c.endpoint_guid_to_info)) [
    | inl missing ↦ ground (arith, missing)
    | inr (info, found) ↦ (
      e,
      info,
      found,
      ground (arith, v.counted p e, same_key_iff info.participant_guid p),
      ground (arith, same_key_iff info.topic_name t),
      ground (arith, same_key_iff info.topic_type ty),
    )
  ]

  listed_is_offered :
      (p : G) (c : TopicCache G) (t ty : Bytes)
      → IsConsistent c
      → lists t ty (get_topic_types_by_guid p c) ≡ true
      → Offers p c t ty
  listed_is_offered p c t ty v h =
      let (e, m, n) =
        any_names-member t ty c.endpoint_guid_to_info (endpoints_of p c)
          (rw lists-get_topic_types at h) in
      offer-of_member p c t ty e v m n

  offered_is_listed :
      (p : G) (c : TopicCache G) (t ty : Bytes)
      → IsConsistent c
      → Offers p c t ty
      → lists t ty (get_topic_types_by_guid p c) ≡ true
  offered_is_listed p c t ty v (e, info, found, at_p, at_t, at_ty) = rw lists-get_topic_types (
      any_names-of_member t ty c.endpoint_guid_to_info (endpoints_of p c) e
        (ground (arith, v.counted p e, same_key_iff info.participant_guid p))
        (ground (arith, same_key_iff info.topic_name t, same_key_iff info.topic_type ty)))

  -- In a consistent cache the types that the query lists for a participant are those of its
  -- endpoints, and no others.
  pub get_topic_types_iff :
      (p : G) (c : TopicCache G) (t ty : Bytes)
      → IsConsistent c
      → (lists t ty (get_topic_types_by_guid p c) ≡ true) ↔ Offers p c t ty
  get_topic_types_iff p c t ty v = (listed_is_offered p c t ty v, offered_is_listed p c t ty v)
