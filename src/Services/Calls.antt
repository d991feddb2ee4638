-- ===== src/Services/Calls.antt =====
-- The entry points that create and destroy clients and servers, and that ask a client for its
-- server (rmw_opendds_cpp/src/rmw_client.cpp and src/rmw_server.cpp). The callbacks of a type
-- support are some `B`, with the half for requesters and the half for repliers of it.
use rmw_opendds.Prelude.{ℕ, Bool, true, false, Option, none, some, Outcome, ok, ◌>>=◌}
use rmw_opendds.Text.{Bytes}
use rmw_opendds.Order.{Order}
use rmw_opendds.Ret.{RmwRet}
use rmw_opendds.Heap.{Heap}
use rmw_opendds.Node.{Node, Participant}
use rmw_opendds.NodeHandles
use rmw_opendds.NodeHandles.{RmwNode}
use rmw_opendds.Handles
use rmw_opendds.Handles.{RmwHandle, clean, create_handle}
use rmw_opendds.Entities.{QosProfile, Dds}
use rmw_opendds.Entities.Calls.{with_node}
use rmw_opendds.Services.{Half, ServiceSupport, Service, Defaults, construct_service}
use rmw_opendds.Services.Sides.{
  Ends, Side, cleanup_side, make_side, add_to, remove_from, is_server_available,
}

module _ {B R P E C Handle W : Type 0} (half : B → Half R P E W) (ends : Ends E C Handle W) where
  -- The constructor of `DDSClient` or `DDSServer`, behind that of its service.
  unfoldable pub construct_on : Option (Service B P) × W → Heap W → Option (Side B R P E C) × Heap W
  construct_on (none, world) heap = (none, record heap { world = world })
  construct_on (some service, world) heap =
      let h = half service.callbacks in
      make_side h ends service (
        h.make service.request service.reply service.publisher service.subscriber
          (record heap { world = world }))

  -- `~DDSClient` and `~DDSServer`
  unfoldable pub destruct_side : Side B R P E C → Heap W → Outcome (Heap W)
  destruct_side side heap = ok (
      cleanup_side (half side.service.callbacks) ends side.role
        (some (side.reader, side.read_condition)) heap)

abbrev pub service_name_of : {B R P E C : Type 0} → Side B R P E C → Bytes
service_name_of side = side.service.name

module _ {G B R T P E C Handle W : Type 0} ⦃o : Order G⦄ (dp : Participant G Handle)
    (dds : Dds T P E C Handle W) (defaults : Defaults P W) (requesters : B → Half R P E W)
    (ends : Ends E C Handle W) where
  -- `DDSClient::DDSClient`
  unfoldable pub construct_client :
      Option (ServiceSupport B)
      → Option Bytes
      → Option QosProfile
      → Heap W
      → Outcome (Option (Side B R P E C) × Heap W)
  construct_client type_supports service_name rmw_qos heap = do
    service ← construct_service dds defaults type_supports service_name rmw_qos heap.world
    ok (construct_on requesters ends service heap)

  unfoldable pub rmw_create_client :
      Option (RmwNode (Node G))
      → Option (ServiceSupport B)
      → Option Bytes
      → Option QosProfile
      → Heap W
      → Outcome (Option (ℕ × RmwHandle (Side B R P E C)) × Option (RmwNode (Node G)) × Heap W)
  rmw_create_client node type_supports service_name rmw_qos heap = elim (NodeHandles.from node) [
    | none ↦ ok (none, node, heap)
    | some dds_node ↦ do
      made ←
          create_handle dds.memory (construct_client type_supports service_name rmw_qos)
            (destruct_side requesters ends) service_name_of (add_to dp ends) dds_node heap
      ok (made.0, with_node made.1 node, made.2)
  ]

-- `clean_service`, whose body is commented out.
abbrev pub clean_service :
    {B R P E C W : Type 0} → Option (ℕ × RmwHandle (Side B R P E C)) → Heap W → Outcome (Heap W)
clean_service service heap = ok heap

-- The end of a client or of a server, behind `remove_from`; `cleaned` is `clean_client` or
-- `clean_service` of it.
abbrev pub end_side :
    {G W : Type 0}
    → Outcome (Heap W)
    → Option (RmwNode (Node G))
    → Heap W
    → Bool × Node G
    → Outcome (RmwRet × Option (RmwNode (Node G)) × Heap W)
end_side cleaned node heap (false, left) = ok (RmwRet.error, with_node left node, heap)
end_side cleaned node heap (true, left) = do
  after ← cleaned
  ok (RmwRet.ok, with_node left node, after)

module _ {G B R P E C Handle W : Type 0} ⦃o : Order G⦄ (dp : Participant G Handle)
    (ends : Ends E C Handle W) where
  -- What `rmw_destroy_client` and `rmw_destroy_service` do with what they find; `remove_from`
  -- answers no for a null node.
  unfoldable pub destroy_side :
      Outcome (Heap W)
      → Option (RmwNode (Node G))
      → Heap W
      → Option (ℕ × Side B R P E C)
      → Option (Node G)
      → Outcome (RmwRet × Option (RmwNode (Node G)) × Heap W)
  destroy_side cleaned node heap none dds_node = ok (RmwRet.error, node, heap)
  destroy_side cleaned node heap (some side) none = ok (RmwRet.error, node, heap)
  destroy_side cleaned node heap (some side) (some dds_node) =
      end_side cleaned node heap (remove_from dp ends side.1 dds_node)

  unfoldable pub rmw_destroy_client :
      (B → Half R P E W)
      → Option (RmwNode (Node G))
      → Option (ℕ × RmwHandle (Side B R P E C))
      → Heap W
      → Outcome (RmwRet × Option (RmwNode (Node G)) × Heap W)
  unfolding destroy_side
  rmw_destroy_client requesters node client heap =
      destroy_side (clean (destruct_side requesters ends) client heap) node heap
        (Handles.from client) (NodeHandles.from node)

  unfoldable pub rmw_destroy_service :
      Option (RmwNode (Node G))
      → Option (ℕ × RmwHandle (Side B R P E C))
      → Heap W
      → Outcome (RmwRet × Option (RmwNode (Node G)) × Heap W)
  unfolding destroy_side
  rmw_destroy_service node service heap =
      destroy_side (clean_service service heap) node heap (Handles.from service)
        (NodeHandles.from node)

module _ {N B R P E C Handle W : Type 0} (ends : Ends E C Handle W) where
  -- The code, and `is_available`.
  unfoldable pub rmw_service_server_is_available :
      Option (RmwNode N)
      → Option (ℕ × RmwHandle (Side B R P E C))
      → Option Bool
      → W
      → RmwRet × Option Bool
  rmw_service_server_is_available node client is_available world = elim (NodeHandles.from node) [
    | none ↦ (RmwRet.error, is_available)
    | some dds_node ↦ elim (Handles.from client) [
      | none ↦ (RmwRet.error, is_available)
      | some dds_client ↦ elim is_available [
        | none ↦ (RmwRet.error, none)
        | some before ↦ (RmwRet.ok, some (is_server_available ends dds_client.1 world))
      ]
    ]
  ]
