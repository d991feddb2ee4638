-- ===== src/Node/Graph.antt =====
-- The graph queries of a node, and what it adds to the graph.
use rmw_opendds.Prelude.{
  ℕ, ◌+◌, ◌≡◌, ◌↔◌, refl, sym, ◌∙◌, Bool, true, false, not, ◌||◌, arith, Option, none, some, [],
  if◌then◌else◌, Outcome, ok, out_of_range, undefined, ◌>>=◌, inl, inr, ◌⊎◌,
}
use rmw_opendds.Text.{Bytes, bytes_eq}
use rmw_opendds.Order.{Order}
use rmw_opendds.Order.Strings.{bytes_order}
use rmw_opendds.Containers.Map
use rmw_opendds.Ret.{RmwRet, is_rmw_ok}
use rmw_opendds.TopicCache.Consistent.{IsConsistent}
use rmw_opendds.TopicCache.Types.{lists}
use rmw_opendds.Listener.{Listener, trigger_graph_guard_condition}
use rmw_opendds.Listener.Queries.{
  count_topic, fill_topic_names_and_types, fill_service_names_and_types,
  fill_topic_names_and_types_by_guid, fill_service_names_and_types_by_guid,
}
use rmw_opendds.Listener.Queries.Topics.{Shown, fill_topic_names_iff, lists-fill_topic_names}
use rmw_opendds.Listener.Queries.Counting.{plain_name, count_topic-add_information}
use rmw_opendds.Node.{
  Node, Participant, validate_name_namespace, get_key, add_pub, count_publishers,
}
use rmw_opendds.Node.Copy.{
  Memory, Plenty, NamesTypes, copy_topic_names_types, copy_service_names_types,
  copy_topic_names_types_plenty,
}

either_iff :
    {P Q : Type 0} (x a b : Bool)
    → x ≡ a || b
    → (a ≡ true) ↔ P
    → (b ≡ true) ↔ Q
    → (x ≡ true) ↔ P ⊎ Q
either_iff x true b e p q = ((λ h. inl (p.0 refl)), λ h. e)
either_iff x false b e p q = ((λ h. inr (q.0 (sym e ∙ h))), λ h. ground (arith, e, p, q, h))

module _ {G : Type 0} ⦃o : Order G⦄ (m : Memory) where
  -- `zero` is what `rmw_names_and_types_check_zero` answers. A query gives its code and the names
  -- that it copies.
  unfoldable pub get_topic_names_types : RmwRet → Bool → Node G → Outcome (RmwRet × NamesTypes)
  get_topic_names_types zero no_demangle node =
      if is_rmw_ok zero
      then copy_topic_names_types m
          (fill_topic_names_and_types no_demangle node.sub_listener
            (fill_topic_names_and_types no_demangle node.pub_listener []))
          no_demangle
      else ok (zero, [])

  -- `allocator` is whether the pointer is set.
  unfoldable pub get_service_names_types : RmwRet → Bool → Node G → Outcome (RmwRet × NamesTypes)
  get_service_names_types zero allocator node =
      if not (is_rmw_ok zero)
      then ok (zero, [])
      else if not allocator
      then ok (RmwRet.invalid_argument, [])
      else do
        of_publishers ← fill_service_names_and_types node.pub_listener []
        ntm ← fill_service_names_and_types node.sub_listener of_publishers
        copy_service_names_types m ntm

  module _ {Handle : Type 0} (dp : Participant G Handle) where
    -- The key that `get_key` wrote, if it did.
    with_key :
        RmwRet × Option G → (G → Outcome (RmwRet × NamesTypes)) → Outcome (RmwRet × NamesTypes)
    with_key (ret, none) query = ok (ret, [])
    with_key (ret, some key) query = if is_rmw_ok ret then query key else ok (ret, [])

    -- The key of the node of a name and a namespace, both of which are valid.
    for_node :
        Option Bytes
        → Option Bytes
        → (G → Outcome (RmwRet × NamesTypes))
        → Outcome (RmwRet × NamesTypes)
    unfolding with_key
    for_node none node_namespace query = ok (RmwRet.invalid_argument, [])
    for_node (some node_name) none query = ok (RmwRet.invalid_argument, [])
    for_node (some node_name) (some node_namespace) query =
        if validate_name_namespace (some node_name) (some node_namespace)
        then with_key (get_key dp node_name node_namespace) query
        else ok (RmwRet.invalid_argument, [])

    unfoldable pub get_pub_names_types :
        RmwRet → Option Bytes → Option Bytes → Bool → Node G → Outcome (RmwRet × NamesTypes)
    unfolding for_node
    get_pub_names_types zero node_name node_namespace no_demangle node =
        if is_rmw_ok zero
        then for_node node_name node_namespace (λ key.
          copy_topic_names_types m
            (fill_topic_names_and_types_by_guid no_demangle node.pub_listener [] key) no_demangle)
        else ok (zero, [])

    unfoldable pub get_sub_names_types :
        RmwRet → Option Bytes → Option Bytes → Bool → Node G → Outcome (RmwRet × NamesTypes)
    unfolding for_node
    get_sub_names_types zero node_name node_namespace no_demangle node =
        if is_rmw_ok zero
        then for_node node_name node_namespace (λ key.
          copy_topic_names_types m
            (fill_topic_names_and_types_by_guid no_demangle node.sub_listener [] key) no_demangle)
        else ok (zero, [])

    -- The test of the allocator stands between that of the names and the key.
    unfoldable pub get_service_names_types_of :
        RmwRet → Option Bytes → Option Bytes → Bytes → Bool → Node G → Outcome (RmwRet × NamesTypes)
    unfolding for_node
    get_service_names_types_of zero node_name node_namespace suffix allocator node =
        if not (is_rmw_ok zero)
        then ok (zero, [])
        else if not (validate_name_namespace node_name node_namespace)
        then ok (RmwRet.invalid_argument, [])
        else if not allocator
        then ok (RmwRet.invalid_argument, [])
        else for_node node_name node_namespace λ key. do
          ntm ← fill_service_names_and_types_by_guid node.sub_listener [] key suffix
          copy_service_names_types m ntm

  -- With memory enough, names not demangled, a zero result to fill and both caches consistent, the
  -- query of a node answers RMW_RET_OK and lists the types of the endpoints that its publisher
  -- listener or its subscriber listener has discovered, and no others.
  pub get_topic_names_types_iff :
      (node : Node G) (t ty : Bytes)
      → Plenty m
      → IsConsistent node.pub_listener.topic_cache
      → IsConsistent node.sub_listener.topic_cache
      → (names : NamesTypes) × ((get_topic_names_types RmwRet.ok true node ≡ ok (RmwRet.ok, names))
          × ((lists t ty names ≡ true)
              ↔ Shown true node.pub_listener.topic_cache t ty
                ⊎ Shown true node.sub_listener.topic_cache t ty))
  unfolding get_topic_names_types
  get_topic_names_types_iff node t ty plenty vp vs =
      let of_pub = fill_topic_names_and_types true node.pub_listener [] in
      (
        fill_topic_names_and_types true node.sub_listener of_pub,
        (
          copy_topic_names_types_plenty m plenty _,
          either_iff _ (lists t ty of_pub) _
              (lists-fill_topic_names true node.sub_listener t ty of_pub)
              (fill_topic_names_iff true node.pub_listener t ty vp)
              (fill_topic_names_iff true node.sub_listener t ty vs),
        ),
      )

abbrev answer_of : RmwRet → ℕ → Outcome (RmwRet × Option ℕ)
answer_of ret n = ok (ret, some n)

bind_count :
    (r : Outcome ℕ) (k : ℕ) (ret : RmwRet)
    → r >>= (λ n. ok (k + n)) >>= answer_of ret ≡ r >>= λ n. answer_of ret (k + n)
bind_count (ok n) k ret = refl
bind_count out_of_range k ret = refl
bind_count undefined k ret = refl

module _ {G : Type 0} ⦃o : Order G⦄ where
  count_topic-trigger :
      (topic_name : Bytes) (l : Listener G)
      → count_topic topic_name (trigger_graph_guard_condition l) ≡ count_topic topic_name l
  unfolding count_topic trigger_graph_guard_condition
  count_topic-trigger topic_name l = refl

  -- A publisher that a node adds, with an endpoint that is new to it, raises the number that
  -- `count_publishers` answers for its own topic by one, and no other number.
  pub count_publishers-add_pub :
      {Handle : Type 0} (dp : Participant G Handle) (handle : Handle)
      (topic_name name type_name : Bytes) (count : ℕ) (node : Node G)
      → Map.find (dp.get_repoid handle) node.pub_listener.topic_cache.endpoint_guid_to_info ≡ none
      → count_publishers (some topic_name) (some count) (add_pub dp handle name type_name node)
        ≡ (do
          n ← count_topic topic_name node.pub_listener
          ok (RmwRet.ok, some ((if bytes_eq (plain_name name) topic_name then 1 else 0) + n)))
  unfolding count_publishers add_pub
  count_publishers-add_pub dp handle topic_name name type_name count node h =
      let e =
        count_topic-add_information topic_name name type_name (dp.get_repoid dp.instance_handle)
          (dp.get_repoid handle) node.pub_listener h in
      rw (count_topic-trigger, e)
        (bind_count (count_topic topic_name node.pub_listener) _ RmwRet.ok)
