-- ===== src/Listener/Queries/Services.antt =====
-- `fill_service_names_and_types`: which services the graph shows.
use rmw_opendds.Prelude.{
  ◌≡◌, refl, ◌≢◌, Bool, true, not, ◌&&◌, ◌||◌, some, [], ◌∷◌, if◌then◌else◌, arith, Outcome, ok,
  out_of_range, undefined, Bool-cases, inl, inr, ◌↔◌, is_empty, ok_of_Returns, ap, ◌∙◌,
}
use rmw_opendds.Text.{Bytes}
use rmw_opendds.Order.{Order, same_key, same_key_iff}
use rmw_opendds.Order.Strings.{bytes_order}
use rmw_opendds.Containers.Map
use rmw_opendds.Containers.Map.{Map}
use rmw_opendds.Containers.Map.Entries.{any_entry, any_entry-find, any_entry-of_find}
use rmw_opendds.Names.Demangle.{demangle_service_from_topic, demangle_service_type_only}
use rmw_opendds.Names.Demangle.Total.{
  demangle_service_from_topic-Returns, demangle_service_type_only-Returns,
}
use rmw_opendds.TopicCache.{TopicInfo, TopicCache, TopicsTypes, insert_type}
use rmw_opendds.TopicCache.Consistent.{IsConsistent}
use rmw_opendds.TopicCache.Types.{lists, lists-nil, lists-insert_type}
use rmw_opendds.Listener.{Listener}
use rmw_opendds.Listener.Queries.{add_service, fill_services, fill_service_names_and_types}

-- The text that a call returned.
abbrev value : Outcome Bytes → Bytes
value (ok s) = s
value out_of_range = []
value undefined = []

service_of : Bytes → Bytes
service_of topic_name = value (demangle_service_from_topic topic_name)

type_of : Bytes → Bytes
type_of topic_type = value (demangle_service_type_only topic_type)

service_of_lem : (t : Bytes) → demangle_service_from_topic t ≡ ok (service_of t)
unfolding service_of
service_of_lem t = let (s, e) = ok_of_Returns _ (demangle_service_from_topic-Returns t) in rw e

type_of_lem : (t : Bytes) → demangle_service_type_only t ≡ ok (type_of t)
unfolding type_of
type_of_lem t = let (s, e) = ok_of_Returns _ (demangle_service_type_only-Returns t) in rw e

is_service : Bytes → Bytes → Bool
is_service topic_name topic_type =
    not (is_empty (service_of topic_name)) && not (is_empty (type_of topic_type))

add_service_lem :
    (name type : Bytes) (services : TopicsTypes)
    → add_service name type services
      ≡ ok (
          if is_service name type
          then insert_type (service_of name) (type_of type) services
          else services)
unfolding add_service is_service
add_service_lem name type services = rw (service_of_lem name, type_of_lem type) (ground arith)

module _ {G : Type 0} ⦃o : Order G⦄ where
  -- An entry that the query shows as service `t` of type `ty`.
  shows : Bytes → Bytes → TopicInfo G → Bool
  shows t ty info =
      is_service info.topic_name info.topic_type
      && (same_key (service_of info.topic_name) t && same_key (type_of info.topic_type) ty)

  after_service : TopicInfo G → TopicsTypes → TopicsTypes
  after_service info services =
      if is_service info.topic_name info.topic_type
      then insert_type (service_of info.topic_name) (type_of info.topic_type) services
      else services

  add_service-after :
      (info : TopicInfo G) (services : TopicsTypes)
      → add_service info.topic_name info.topic_type services ≡ ok (after_service info services)
  unfolding after_service
  add_service-after info services = add_service_lem info.topic_name info.topic_type services

  lists-after_service :
      (t ty : Bytes) (info : TopicInfo G) (services : TopicsTypes)
      → lists t ty (after_service info services) ≡ lists t ty services || shows t ty info
  unfolding after_service shows
  lists-after_service t ty info services =
      elim (Bool-cases (is_service info.topic_name info.topic_type)) [
        | inl served ↦ rw served (
            rw
              (lists-insert_type t ty (service_of info.topic_name) (type_of info.topic_type)
                services)
              (ground arith))
        | inr other ↦ rw other (ground arith)
      ]

  fill_services-lists :
      (t ty : Bytes) (m : Map G (TopicInfo G)) (services : TopicsTypes)
      → (filled : TopicsTypes) × (fill_services m services ≡ ok filled)
        × (lists t ty filled ≡ lists t ty services || any_entry (shows t ty) m)
  unfolding fill_services any_entry
  fill_services-lists t ty [] services = (services, refl, ground arith)
  fill_services-lists t ty ((e, info) ∷ m) services =
      let (filled, returned, listed) = fill_services-lists t ty m (after_service info services) in
      (
        filled,
        rw (add_service-after info services) returned,
        ground (arith, listed, lists-after_service t ty info services),
      )

  -- A discovered endpoint is of service `t` and of service type `ty`.
  abbrev pub Serves : TopicCache G → Bytes → Bytes → Type 0
  Serves c t ty =
      (e : G) × (info : TopicInfo G) × (Map.find e c.endpoint_guid_to_info ≡ some info)
      × (demangle_service_from_topic info.topic_name ≡ ok t)
      × (demangle_service_type_only info.topic_type ≡ ok ty)

  shows_parts :
      (t ty : Bytes) (info : TopicInfo G)
      → shows t ty info ≡ true
      → (service_of info.topic_name ≡ t) × (type_of info.topic_type ≡ ty)
  unfolding shows
  shows_parts t ty info h = ground (
    arith,
    same_key_iff (service_of info.topic_name) t,
    same_key_iff (type_of info.topic_type) ty,
  )

  parts-shows :
      (t ty : Bytes) (info : TopicInfo G)
      → t ≢ []
      → ty ≢ []
      → service_of info.topic_name ≡ t
      → type_of info.topic_type ≡ ty
      → shows t ty info ≡ true
  unfolding shows is_service
  parts-shows t ty info p q h k = ground (
    arith,
    same_key_iff (service_of info.topic_name) t,
    same_key_iff (type_of info.topic_type) ty,
  )

  Serves-of_shown :
      (c : TopicCache G) (t ty : Bytes)
      → IsConsistent c
      → any_entry (shows t ty) c.endpoint_guid_to_info ≡ true
      → Serves c t ty
  Serves-of_shown c t ty v h =
      let (e, info, found, s) = any_entry-find _ c.endpoint_guid_to_info v.infos_sorted h in
      let (p, q) = shows_parts t ty info s in
      (
        e,
        info,
        found,
        service_of_lem info.topic_name ∙ ap ok p,
        type_of_lem info.topic_type ∙ ap ok q,
      )

  shown_of_Serves :
      (c : TopicCache G) (t ty : Bytes)
      → t ≢ []
      → ty ≢ []
      → Serves c t ty
      → any_entry (shows t ty) c.endpoint_guid_to_info ≡ true
  shown_of_Serves c t ty p q (e, info, found, s, y) =
      any_entry-of_find _ c.endpoint_guid_to_info e info found (
        parts-shows t ty info p q (cc (service_of_lem info.topic_name))
          (cc (type_of_lem info.topic_type)))

  -- From an empty map and a consistent cache the query returns, and of the services and service
  -- types with a name that is not empty it lists exactly those of the discovered endpoints.
  pub fill_service_names_iff :
      (l : Listener G) (t ty : Bytes)
      → IsConsistent l.topic_cache
      → t ≢ []
      → ty ≢ []
      → (services : TopicsTypes) × (fill_service_names_and_types l [] ≡ ok services)
        × ((lists t ty services ≡ true) ↔ Serves l.topic_cache t ty)
  unfolding fill_service_names_and_types
  fill_service_names_iff l t ty v p q =
      let infos = l.topic_cache.endpoint_guid_to_info in
      let (services, returned, listed) = fill_services-lists t ty infos [] in
      (
        services,
        returned,
        (
          (λ h. Serves-of_shown l.topic_cache t ty v (ground (arith, listed, lists-nil t ty))),
          λ s. ground (arith, listed, shown_of_Serves l.topic_cache t ty p q s),
        ),
      )
