-- ===== src/Endpoints/Failures.antt =====
-- What `_get_info_by_topic` leaves where a call fails.
use rmw_opendds.Prelude.{
  ◌≡◌, ◌≢◌, refl, Bool, true, Option, none, some, List, [], if◌then◌else◌, Outcome, ok,
  out_of_range, undefined, ◌>>=◌, arith, Bool-cases, Option-cases, inl, inr,
}
use rmw_opendds.Text.{Bytes}
use rmw_opendds.Order.{Order}
use rmw_opendds.Containers.Map
use rmw_opendds.Containers.Map.{Map}
use rmw_opendds.Ret.{RmwRet, is_rmw_ok, is_dds_ok}
use rmw_opendds.TopicCache.{TopicInfo}
use rmw_opendds.Node.{Node, Participant}
use rmw_opendds.NodeHandles.{RmwNode, from}
use rmw_opendds.Endpoints.{
  ParticipantNameInfo, EndpointInfo, InfoCalls, get_topic_fqdns, add_discovered_names, fill_fqdns,
  set_infos, fill_array, target, get_info, get_info_by_topic, validate_params,
}

is_rmw_ok_iff : (r : RmwRet) → is_rmw_ok r ≡ true → r ≡ RmwRet.ok
is_rmw_ok_iff r h = ground arith

module _ {G : Type 0} ⦃o : Order G⦄ (calls : InfoCalls G) where
  -- An answer that is not RMW_RET_OK leaves an empty array.
  LeavesNothing : Outcome (RmwRet × List (EndpointInfo G)) → Type 0
  LeavesNothing (ok (ret, array)) = ret ≢ RmwRet.ok → array ≡ []
  LeavesNothing out_of_range = Unit
  LeavesNothing undefined = Unit

  module _ (clears : (xs : List (EndpointInfo G)) → (calls.array_fini xs).1 ≡ []) where
    finished :
        (r : Outcome (RmwRet × List (EndpointInfo G)))
        → LeavesNothing (do
          filled ← r
          if is_rmw_ok filled.0
              then ok (RmwRet.ok, filled.1)
              else ok (filled.0, (calls.array_fini filled.1).1))
    unfolding LeavesNothing
    finished (ok (ret, array)) = ground (arith, clears array)
    finished out_of_range = tt
    finished undefined = tt

    fill_array-LeavesNothing :
        (infos : List (TopicInfo G)) (names : Map G ParticipantNameInfo)
        (no_mangle is_publisher : Bool)
        → LeavesNothing (fill_array calls infos names no_mangle is_publisher [])
    unfolding LeavesNothing fill_array
    fill_array-LeavesNothing infos names no_mangle is_publisher =
        ground (arith, finished (set_infos calls 0 infos names no_mangle is_publisher))

    bind-LeavesNothing :
        {A : Type 0} (r : Outcome A) (f : A → Outcome (RmwRet × List (EndpointInfo G)))
        → ((a : A) → LeavesNothing (f a))
        → LeavesNothing (r >>= f)
    unfolding LeavesNothing
    bind-LeavesNothing (ok a) f h = h a
    bind-LeavesNothing out_of_range f h = tt
    bind-LeavesNothing undefined f h = tt

    module _ {Handle : Type 0} (dp : Participant G Handle) where
      get_info-LeavesNothing :
          (node : Node G) (name ns : Option Bytes) (topic_name : Bytes)
          (no_mangle is_publisher : Bool)
          → LeavesNothing (get_info calls dp node name ns topic_name no_mangle is_publisher [])
      unfolding LeavesNothing get_info
      get_info-LeavesNothing node none ns topic_name no_mangle is_publisher = ground arith
      get_info-LeavesNothing node (some name) none topic_name no_mangle is_publisher = ground arith
      get_info-LeavesNothing node (some name) (some ns) topic_name no_mangle is_publisher =
          let own : Map G ParticipantNameInfo =
            Map.assign (dp.get_repoid dp.instance_handle) (record { name = name; namespace = ns })
              [] in
          let infos =
            fill_fqdns (get_topic_fqdns topic_name no_mangle) no_mangle (target is_publisher node)
              [] in
          elim (Bool-cases (is_dds_ok dp.get_discovered_participants.0)) [
            | inr e ↦ rw e (λ h. refl)
            | inl e ↦
                elim (Option-cases (add_discovered_names dp dp.get_discovered_participants.1 own)) [
                  | inl n ↦ rw (e, n) (λ h. refl)
                  | inr (names, n) ↦
                      rw (e, n)
                        (bind-LeavesNothing infos _
                          (λ ts. fill_array-LeavesNothing ts names no_mangle is_publisher))
                ]
          ]

      failed :
          (r : Outcome (RmwRet × List (EndpointInfo G))) (ret : RmwRet)
          (left : List (EndpointInfo G))
          → LeavesNothing r
          → ◌>>=◌ {B = RmwRet × Option (List (EndpointInfo G))} r
              (λ answer. ok (answer.0, some answer.1))
            ≡ ok (ret, some left)
          → ret ≢ RmwRet.ok
          → left ≡ []
      unfolding LeavesNothing
      failed (ok (code, array)) ret left l e h = ground (arith, l, e, h)
      failed out_of_range ret left l e h = cc
      failed undefined ret left l e h = cc

      -- If `rmw_topic_endpoint_info_array_fini` empties its array, then whatever fails, on whatever
      -- arguments, an answer that is not RMW_RET_OK leaves an array that was empty empty.
      pub get_info_by_topic_failed :
          (node : Option (RmwNode (Node G))) (allocator : Bool) (topic_name : Option Bytes)
          (no_mangle is_publisher : Bool) (ret : RmwRet) (left : List (EndpointInfo G))
          → get_info_by_topic calls dp node allocator topic_name no_mangle is_publisher (some [])
            ≡ ok (ret, some left)
          → ret ≢ RmwRet.ok
          → left ≡ []
      unfolding get_info_by_topic
      get_info_by_topic_failed none allocator topic_name no_mangle is_publisher ret left e h =
          ground (arith, e)
      get_info_by_topic_failed (some node) allocator none no_mangle is_publisher ret left e h =
          ground (arith, e)
      get_info_by_topic_failed (some node) allocator (some topic_name) no_mangle is_publisher ret
            left e h =
          elim (Bool-cases
            (is_rmw_ok (validate_params calls (some node) allocator (some topic_name) (some [])))) [
              | inr f ↦ ground (arith, rw f at e)
              | inl f ↦ elim (Option-cases (from (some node))) [
                | inl n ↦ ground (arith, rw (f, n) at e)
                | inr (dds_node, n) ↦
                    failed
                      (get_info calls dp dds_node node.name node.namespace topic_name no_mangle
                        is_publisher [])
                      ret left
                      (get_info-LeavesNothing dds_node node.name node.namespace topic_name no_mangle
                        is_publisher)
                      (rw (f, n) at e) h
              ]
            ]
