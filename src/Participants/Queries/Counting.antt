-- ===== src/Participants/Queries/Counting.antt =====
-- What a count of publishers says of a publisher that was created.
use rmw_opendds.Prelude.{ℕ, ◌+◌, ◌≡◌, inl, inr, false, Option, none, some, ok, ◌>>=◌, if◌then◌else◌}
use rmw_opendds.Text.{Bytes, bytes_eq}
use rmw_opendds.Order.{Order}
use rmw_opendds.Containers.Map
use rmw_opendds.Ret.{RmwRet}
use rmw_opendds.Heap.{Heap}
use rmw_opendds.Listener.Queries.{count_topic}
use rmw_opendds.Listener.Queries.Counting.{plain_name}
use rmw_opendds.NodeHandles
use rmw_opendds.NodeHandles.{RmwNode, from_exchanged}
use rmw_opendds.Node.{Node, Participant}
use rmw_opendds.Node.Graph.{count_publishers-add_pub}
use rmw_opendds.Entities.{TypeSupport, QosProfile, Dds, Casts, Entity}
use rmw_opendds.Entities.Calls.{rmw_create_publisher, enter_publisher}
use rmw_opendds.Entities.Calls.Creation.{entity_handle, creation_of}
use rmw_opendds.Entities.Calls.Lifecycle.{rmw_create_publisher-IsCreation}
use rmw_opendds.Participants.Queries.{on_node, rmw_count_publishers}

module _ {G T P E C Handle W : Type 0} ⦃o : Order G⦄ (dp : Participant G Handle)
    (dds : Dds T P E C Handle W) (casts : Casts E W) (asserts : dds.build.asserts ≡ false)
    (type_supports : Option TypeSupport) (topic_name : Option Bytes) (rmw_qos : Option QosProfile)
    (heap : Heap W) (node : RmwNode (Node G)) (n : Node G)
    (valid : NodeHandles.from (some node) ≡ some n) where
  -- Without assertions and with a node of the package: once a publisher is created whose endpoint
  -- is new to the node, `rmw_count_publishers` answers one more than before for the publisher's own
  -- topic, as users name it, and what it answered before for any other.
  pub rmw_count_publishers-rmw_create_publisher :
      (a ad : ℕ) (e : Entity T P E ℕ) (left : Heap W) (after : Option (RmwNode (Node G)))
      (asked : Bytes) (count : ℕ)
      → rmw_create_publisher dp dds casts (some node) type_supports topic_name rmw_qos heap
        ≡ ok (some (a, entity_handle ad e), after, left)
      → Map.find
          (dp.get_repoid (dds.get_instance_handle e.group))
          n.pub_listener.topic_cache.endpoint_guid_to_info
        ≡ none
      → rmw_count_publishers after (some asked) (some count) ≡ (do
        k ← count_topic asked n.pub_listener
        ok (RmwRet.ok, some ((if bytes_eq (plain_name e.topic.name) asked then 1 else 0) + k)))
  unfolding rmw_count_publishers
  rmw_count_publishers-rmw_create_publisher a ad e left after asked count made new =
      elim (rmw_create_publisher-IsCreation dp dds casts asserts type_supports topic_name rmw_qos
        heap node n valid) [
          | inr (u, m) ↦ cc (made, u)
          | inl created ↦
              let (there, live) =
                creation_of (enter_publisher dp dds) node n heap.live _ created a ad e left after
                  made in
              rw (there, on_node, from_exchanged node n (enter_publisher dp dds e n) valid)
                (count_publishers-add_pub dp (dds.get_instance_handle e.group) asked e.topic.name
                  e.topic.topic_type count n new)
        ]
