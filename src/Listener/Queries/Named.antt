-- ===== src/Listener/Queries/Named.antt =====
-- `fill_topic_endpoint_infos` against a selection from the cache.
use rmw_opendds.Prelude.{◌≡◌, refl, Bool, true, false, List, [], ◌∷◌, ◌++◌, if◌then◌else◌, ok}
use rmw_opendds.Text.{Bytes, bytes_eq}
use rmw_opendds.Order.{Order}
use rmw_opendds.Containers.Map.{Map}
use rmw_opendds.TopicCache.{TopicInfo}
use rmw_opendds.Listener.{Listener}
use rmw_opendds.Listener.Queries.{fill_topic_endpoint_infos, endpoint_infos}
use rmw_opendds.Listener.Queries.Counting.{plain_name, demangle-eq-plain_name}

module _ {G : Type 0} ⦃o : Order G⦄ where
  -- The endpoints of one name, in the order of the map. A name is demangled unless `no_mangle` is
  -- set.
  abbrev pub endpoints_named : Bytes → Bool → Map G (TopicInfo G) → List (TopicInfo G)
  endpoints_named fqdn no_mangle [] = []
  endpoints_named fqdn no_mangle ((guid, info) ∷ rest) =
      let others = endpoints_named fqdn no_mangle rest in
      if bytes_eq (if no_mangle then info.topic_name else plain_name info.topic_name) fqdn
      then info ∷ others
      else others

  endpoint_infos-eq :
      (fqdn : Bytes) (no_mangle : Bool) (m : Map G (TopicInfo G))
      → endpoint_infos fqdn no_mangle m ≡ ok (endpoints_named fqdn no_mangle m)
  unfolding endpoint_infos
  endpoint_infos-eq fqdn no_mangle [] = refl
  endpoint_infos-eq fqdn true ((guid, info) ∷ m) = rw (endpoint_infos-eq fqdn true m)
  endpoint_infos-eq fqdn false ((guid, info) ∷ m) =
      rw (demangle-eq-plain_name info.topic_name, endpoint_infos-eq fqdn false m)

  pub fill_topic_endpoint_infos-eq :
      (fqdn : Bytes) (no_mangle : Bool) (l : Listener G) (infos : List (TopicInfo G))
      → fill_topic_endpoint_infos fqdn no_mangle l infos
        ≡ ok (infos ++ endpoints_named fqdn no_mangle l.topic_cache.endpoint_guid_to_info)
  unfolding fill_topic_endpoint_infos
  fill_topic_endpoint_infos-eq fqdn no_mangle l infos =
      rw (endpoint_infos-eq fqdn no_mangle l.topic_cache.endpoint_guid_to_info)
