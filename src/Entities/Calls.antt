-- ===== src/Entities/Calls.antt =====
-- The entry points on publishers and subscriptions (rmw_opendds_cpp/src/rmw_publisher.cpp,
-- src/rmw_subscription.cpp). The options of an entity, which the package only keeps, are left out.
pub mod Creation
pub mod Lifecycle
use rmw_opendds.Prelude.{
  ℕ, Bool, true, false, not, Option, none, some, if◌then◌else◌, Outcome, ok, ◌>>=◌,
}
use rmw_opendds.Text.{Bytes}
use rmw_opendds.Order.{Order}
use rmw_opendds.Identifier.{opendds_identifier}
use rmw_opendds.Ret.{RmwRet}
use rmw_opendds.Heap.{Heap}
use rmw_opendds.Qos.{RmwQos, dds_qos_to_rmw_qos}
use rmw_opendds.Gids.{Gid}
use rmw_opendds.Node.{Node, Participant, add_pub, add_sub, remove_pub, remove_sub}
use rmw_opendds.NodeHandles
use rmw_opendds.NodeHandles.{RmwNode}
use rmw_opendds.Handles
use rmw_opendds.Handles.{RmwHandle, clean, create_handle}
use rmw_opendds.Entities.{TypeSupport, QosProfile, Dds, Casts, Entity, destruct}
use rmw_opendds.Entities.Publisher.{construct_publisher}
use rmw_opendds.Entities.Subscriber.{construct_subscriber}

-- The node behind a handle, after a call that changed it.
abbrev pub with_node : {N : Type 0} → N → Option (RmwNode N) → Option (RmwNode N)
with_node n none = none
with_node n (some node) = some (record node { node_data = some n })

abbrev pub topic_name_of : {T P E X : Type 0} → Entity T P E X → Bytes
topic_name_of entity = entity.topic.name

module _ {G T P E C Handle W : Type 0} ⦃o : Order G⦄ (dp : Participant G Handle)
    (dds : Dds T P E C Handle W) where
  abbrev pub enter_publisher : Entity T P E ℕ → Node G → Node G
  enter_publisher entity node =
      add_pub dp (dds.get_instance_handle entity.group) entity.topic.name entity.topic.topic_type
        node

  abbrev pub enter_subscriber : Entity T P E C → Node G → Node G
  enter_subscriber entity node =
      add_sub dp (dds.get_instance_handle entity.group) entity.topic.name entity.topic.topic_type
        node

  -- `add_pub` and `add_sub` do not throw.
  abbrev pub register_publisher : Entity T P E ℕ → Node G → Bool × Node G
  register_publisher entity node = (true, enter_publisher entity node)

  abbrev pub register_subscriber : Entity T P E C → Node G → Bool × Node G
  register_subscriber entity node = (true, enter_subscriber entity node)

  -- The publisher, the node and the heap.
  unfoldable pub rmw_create_publisher :
      Casts E W
      → Option (RmwNode (Node G))
      → Option TypeSupport
      → Option Bytes
      → Option QosProfile
      → Heap W
      → Outcome (Option (ℕ × RmwHandle (Entity T P E ℕ)) × Option (RmwNode (Node G)) × Heap W)
  rmw_create_publisher casts node type_supports topic_name rmw_qos heap =
      elim (NodeHandles.from node) [
        | none ↦ ok (none, node, heap)
        | some dds_node ↦ do
          made ←
              create_handle dds.memory
                (construct_publisher dds casts type_supports topic_name rmw_qos) destruct
                topic_name_of register_publisher dds_node heap
          ok (made.0, with_node made.1 node, made.2)
      ]

  unfoldable pub rmw_create_subscription :
      Casts E W
      → Option (RmwNode (Node G))
      → Option TypeSupport
      → Option Bytes
      → Option QosProfile
      → Heap W
      → Outcome (Option (ℕ × RmwHandle (Entity T P E C)) × Option (RmwNode (Node G)) × Heap W)
  rmw_create_subscription casts node type_supports topic_name rmw_qos heap =
      elim (NodeHandles.from node) [
        | none ↦ ok (none, node, heap)
        | some dds_node ↦ do
          made ←
              create_handle dds.memory
                (construct_subscriber dds casts type_supports topic_name rmw_qos) destruct
                topic_name_of register_subscriber dds_node heap
          ok (made.0, with_node made.1 node, made.2)
      ]

  -- The end of either, behind the removal from the node, which says whether it succeeded.
  abbrev pub end_entity :
      {X : Type 0}
      → Option (ℕ × RmwHandle (Entity T P E X))
      → Option (RmwNode (Node G))
      → Heap W
      → Bool × Node G
      → Outcome (RmwRet × Option (RmwNode (Node G)) × Heap W)
  end_entity entity node heap (false, left) = ok (RmwRet.error, with_node left node, heap)
  end_entity entity node heap (true, left) = do
    cleaned ← clean destruct entity heap
    ok (RmwRet.ok, with_node left node, cleaned)

  unfoldable pub rmw_destroy_publisher :
      Option (RmwNode (Node G))
      → Option (ℕ × RmwHandle (Entity T P E ℕ))
      → Heap W
      → Outcome (RmwRet × Option (RmwNode (Node G)) × Heap W)
  rmw_destroy_publisher node publisher heap = elim (NodeHandles.from node) [
    | none ↦ ok (RmwRet.error, node, heap)
    | some dds_node ↦ elim (Handles.from publisher) [
      | none ↦ ok (RmwRet.error, node, heap)
      | some dds_pub ↦
          end_entity publisher node heap
            (remove_pub dp (dds.get_instance_handle dds_pub.1.group) dds_node)
    ]
  ]

  unfoldable pub rmw_destroy_subscription :
      Option (RmwNode (Node G))
      → Option (ℕ × RmwHandle (Entity T P E C))
      → Heap W
      → Outcome (RmwRet × Option (RmwNode (Node G)) × Heap W)
  rmw_destroy_subscription node subscription heap = elim (NodeHandles.from node) [
    | none ↦ ok (RmwRet.error, node, heap)
    | some dds_node ↦
        if not dds.has_participant
        then ok (RmwRet.error, node, heap)
        else elim (Handles.from subscription) [
          | none ↦ ok (RmwRet.error, node, heap)
          | some dds_sub ↦
              end_entity subscription node heap
                (remove_sub dp (dds.get_instance_handle dds_sub.1.group) dds_node)
        ]
  ]

module _ {T P E C Handle X W : Type 0} (dds : Dds T P E C Handle W) where
  -- `rmw_publisher_count_matched_subscriptions` and `rmw_subscription_count_matched_publishers`:
  -- the code, and the count.
  unfoldable pub count_matched :
      Option (ℕ × RmwHandle (Entity T P E X)) → Option ℕ → RmwRet × Option ℕ
  count_matched entity none = (RmwRet.invalid_argument, none)
  count_matched entity (some count) = elim (Handles.from entity) [
    | none ↦ (RmwRet.error, some count)
    | some found ↦ (RmwRet.ok, some found.1.listener.1)
  ]

  -- `get_rmw_qos` of either class.
  unfoldable pub get_rmw_qos : Entity T P E X → W → RmwQos → RmwRet × RmwQos
  get_rmw_qos entity world qos = elim (dds.get_qos entity.endpoint world) [
    | none ↦ (RmwRet.error, qos)
    | some dds_qos ↦ (RmwRet.ok, dds_qos_to_rmw_qos dds_qos qos)
  ]

  -- `rmw_publisher_get_actual_qos` and `rmw_subscription_get_actual_qos`
  unfoldable pub get_actual_qos :
      Option (ℕ × RmwHandle (Entity T P E X)) → Option RmwQos → W → RmwRet × Option RmwQos
  get_actual_qos entity none world = (RmwRet.invalid_argument, none)
  get_actual_qos entity (some qos) world = elim (Handles.from entity) [
    | none ↦ (RmwRet.error, some qos)
    | some found ↦ let (ret, written) = get_rmw_qos found.1 world qos in (ret, some written)
  ]

unfoldable pub rmw_get_gid_for_publisher :
    {T P E : Type 0} → Option (ℕ × RmwHandle (Entity T P E ℕ)) → Option Gid → RmwRet × Option Gid
rmw_get_gid_for_publisher publisher gid = elim (Handles.from publisher) [
  | none ↦ (RmwRet.error, gid)
  | some dds_pub ↦ elim gid [
    | none ↦ (RmwRet.error, none)
    | some old ↦ (
      RmwRet.ok,
      some (record {
        implementation_identifier = opendds_identifier;
        publication_handle = dds_pub.1.extra;
      }),
    )
  ]
]
