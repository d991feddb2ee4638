-- ===== src/Entities/Calls/Lifecycle.antt =====
-- Publishers and subscriptions from their creation to their end.
use rmw_opendds.Prelude.{ℕ, ◌≡◌, ◌⊎◌, inl, inr, refl, false, Option, some, ◌∷◌, ok, undefined}
use rmw_opendds.Text.{Bytes}
use rmw_opendds.Order.{Order}
use rmw_opendds.Identifier.{check_impl_id}
use rmw_opendds.Ret.{RmwRet}
use rmw_opendds.Heap.{Heap}
use rmw_opendds.Node.{Node, Participant}
use rmw_opendds.Node.Undone.{IsNewTo, triggered_twice, remove_pub-add_pub}
use rmw_opendds.NodeHandles
use rmw_opendds.NodeHandles.{RmwNode, from_exchanged}
use rmw_opendds.Handles
use rmw_opendds.Handles.{RmwHandle, clean, create_handle}
use rmw_opendds.Handles.Balance.{ok_of_Leaves, clean-Leaves, create_handle-Balanced}
use rmw_opendds.Entities.{TypeSupport, QosProfile, Dds, Casts, Entity, destruct}
use rmw_opendds.Entities.Publisher.{construct_publisher}
use rmw_opendds.Entities.Subscriber.{construct_subscriber}
use rmw_opendds.Entities.Miscasts.{
  casting, IsMiscast, Follows, bind-Follows, create_handle-Follows, construct_publisher-Follows,
  construct_subscriber-Follows,
}
use rmw_opendds.Entities.Tidy.{owned, publisher-IsTidy, subscriber-IsTidy}
use rmw_opendds.Entities.Calls.{
  with_node, topic_name_of, enter_publisher, enter_subscriber, register_publisher,
  register_subscriber, rmw_create_publisher, rmw_create_subscription, rmw_destroy_publisher,
}
use rmw_opendds.Entities.Calls.Creation.{entity_handle, IsCreation, creation_of, creation}

module _ {G T P E C Handle W : Type 0} ⦃o : Order G⦄ (dp : Participant G Handle)
    (dds : Dds T P E C Handle W) (casts : Casts E W) (asserts : dds.build.asserts ≡ false)
    (type_supports : Option TypeSupport) (topic_name : Option Bytes) (rmw_qos : Option QosProfile)
    (heap : Heap W) (node : RmwNode (Node G)) (n : Node G)
    (valid : NodeHandles.from (some node) ≡ some n) where
  publisher-IsCreation : IsCreation (enter_publisher dp dds) node n heap.live (
      rmw_create_publisher dp dds (casting casts) (some node) type_supports topic_name rmw_qos heap)
  unfolding rmw_create_publisher
  publisher-IsCreation =
      rw (rmw_create_publisher, valid)
        (creation (enter_publisher dp dds) node n heap.live _ (
          create_handle-Balanced
            (construct_publisher dds (casting casts) type_supports topic_name rmw_qos) destruct
            owned
            (publisher-IsTidy dds (casting casts) (λ e. refl) asserts type_supports topic_name
              rmw_qos)
            dds.memory topic_name_of (register_publisher dp dds) n heap))

  publisher-Follows :
      Follows
        (IsMiscast dds.create_datawriter casts)
        (rmw_create_publisher dp dds casts (some node) type_supports topic_name rmw_qos heap)
        (rmw_create_publisher dp dds
          (casting casts)
          (some node)
          type_supports
          topic_name
          rmw_qos
          heap)
  unfolding rmw_create_publisher
  publisher-Follows =
      rw (rmw_create_publisher, valid)
        (bind-Follows _ _ _ _ (
          create_handle-Follows (IsMiscast dds.create_datawriter casts) dds.memory
            (construct_publisher dds casts type_supports topic_name rmw_qos)
            (construct_publisher dds (casting casts) type_supports topic_name rmw_qos)
            (construct_publisher-Follows dds casts type_supports topic_name rmw_qos) destruct
            topic_name_of (register_publisher dp dds) n heap))

  -- Without assertions and with a node of the package, a creation is undefined only where DDS made
  -- a writer of another class than the one that it is cast to. Otherwise it returns, whatever
  -- fails. Either it is a null pointer, the allocations are those from before, and the node has not
  -- changed. Or it is a publisher that the node has added under its names, and new are three
  -- allocations: its struct, its object and its listener.
  pub rmw_create_publisher-IsCreation :
      let created =
        rmw_create_publisher dp dds casts (some node) type_supports topic_name rmw_qos heap in
      IsCreation (enter_publisher dp dds) node n heap.live created
      ⊎ ((created ≡ undefined) × IsMiscast dds.create_datawriter casts)
  rmw_create_publisher-IsCreation = elim publisher-Follows [
    | inl e ↦ inl (rw e publisher-IsCreation)
    | inr u ↦ inr u
  ]

  subscription-IsCreation : IsCreation (enter_subscriber dp dds) node n heap.live (
      rmw_create_subscription dp dds
        (casting casts)
        (some node)
        type_supports
        topic_name
        rmw_qos
        heap)
  unfolding rmw_create_subscription
  subscription-IsCreation =
      rw (rmw_create_subscription, valid)
        (creation (enter_subscriber dp dds) node n heap.live _ (
          create_handle-Balanced
            (construct_subscriber dds (casting casts) type_supports topic_name rmw_qos) destruct
            owned
            (subscriber-IsTidy dds (casting casts) (λ e. refl) asserts type_supports topic_name
              rmw_qos)
            dds.memory topic_name_of (register_subscriber dp dds) n heap))

  subscription-Follows :
      Follows
        (IsMiscast dds.create_datareader casts)
        (rmw_create_subscription dp dds casts (some node) type_supports topic_name rmw_qos heap)
        (rmw_create_subscription dp dds
          (casting casts)
          (some node)
          type_supports
          topic_name
          rmw_qos
          heap)
  unfolding rmw_create_subscription
  subscription-Follows =
      rw (rmw_create_subscription, valid)
        (bind-Follows _ _ _ _ (
          create_handle-Follows (IsMiscast dds.create_datareader casts) dds.memory
            (construct_subscriber dds casts type_supports topic_name rmw_qos)
            (construct_subscriber dds (casting casts) type_supports topic_name rmw_qos)
            (construct_subscriber-Follows dds casts type_supports topic_name rmw_qos) destruct
            topic_name_of (register_subscriber dp dds) n heap))

  pub rmw_create_subscription-IsCreation :
      let created =
        rmw_create_subscription dp dds casts (some node) type_supports topic_name rmw_qos heap in
      IsCreation (enter_subscriber dp dds) node n heap.live created
      ⊎ ((created ≡ undefined) × IsMiscast dds.create_datareader casts)
  rmw_create_subscription-IsCreation = elim subscription-Follows [
    | inl e ↦ inl (rw e subscription-IsCreation)
    | inr u ↦ inr u
  ]

  ended_publisher :
      (a ad : ℕ) (e : Entity T P E ℕ) (left : Heap W)
      → left.live ≡ e.listener.0 ∷ ad ∷ a ∷ heap.live
      → IsNewTo dp (dds.get_instance_handle e.group) n.pub_listener.topic_cache
      → (final : Heap W) × (rmw_destroy_publisher dp dds
            (with_node (enter_publisher dp dds e n) (some node))
            (some (a, entity_handle ad e))
            left
          ≡ ok (
            RmwRet.ok,
            with_node (record n { pub_listener = triggered_twice n.pub_listener }) (some node),
            final,
          ))
        × (final.live ≡ heap.live)
  unfolding rmw_destroy_publisher Handles.from check_impl_id
  ended_publisher a ad e left live new =
      let removed =
        remove_pub-add_pub dp (dds.get_instance_handle e.group) e.topic.name e.topic.topic_type n
          new in
      let (final, f, l) = ok_of_Leaves (clean destruct (some (a, entity_handle ad e)) left) (
        clean-Leaves _ destruct owned
          (publisher-IsTidy dds (casting casts) (λ e. refl) asserts type_supports topic_name
            rmw_qos)
          heap.live (a, entity_handle ad e) left live) in
      (
        final,
        rw
            (
              rmw_destroy_publisher,
              from_exchanged node n (enter_publisher dp dds e n) valid,
              removed,
              f,
            )
            refl,
        l,
      )

  -- Without assertions and with a node of the package: the end of a publisher that was just
  -- created, of which the node's consistent cache knew nothing, succeeds unless the node's
  -- participant had an empty entry there. The allocations are those from before the creation, and
  -- the node knows what it knew, having been asked twice to trigger its guard condition.
  pub rmw_destroy_publisher-rmw_create_publisher :
      (a ad : ℕ) (e : Entity T P E ℕ) (left : Heap W) (after : Option (RmwNode (Node G)))
      → rmw_create_publisher dp dds casts (some node) type_supports topic_name rmw_qos heap
        ≡ ok (some (a, entity_handle ad e), after, left)
      → IsNewTo dp (dds.get_instance_handle e.group) n.pub_listener.topic_cache
      → (final : Heap W) × (rmw_destroy_publisher dp dds after (some (a, entity_handle ad e)) left
          ≡ ok (
            RmwRet.ok,
            with_node (record n { pub_listener = triggered_twice n.pub_listener }) (some node),
            final,
          ))
        × (final.live ≡ heap.live)
  rmw_destroy_publisher-rmw_create_publisher a ad e left after made new =
      elim rmw_create_publisher-IsCreation [
        | inr (u, m) ↦ cc (made, u)
        | inl created ↦
            let (there, live) =
              creation_of (enter_publisher dp dds) node n heap.live _ created a ad e left after
                made in
            rw there (ended_publisher a ad e left live new)
      ]
