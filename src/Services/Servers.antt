-- ===== src/Services/Servers.antt =====
-- The creation of a server (`DDSServer::DDSServer` of rmw_opendds_cpp/src/DDSServer.cpp, and
-- `rmw_create_service` of src/rmw_server.cpp). Where it fails, `clean_service` frees nothing.
use rmw_opendds.Prelude.{ℕ, Option, none, some, if◌then◌else◌, Outcome, ok, ◌>>=◌}
use rmw_opendds.Text.{Bytes}
use rmw_opendds.Order.{Order}
use rmw_opendds.Heap.{Heap, create}
use rmw_opendds.Node.{Node, Participant}
use rmw_opendds.NodeHandles
use rmw_opendds.NodeHandles.{RmwNode}
use rmw_opendds.Handles.{RmwHandle, create_initial}
use rmw_opendds.Entities.{QosProfile, Dds}
use rmw_opendds.Entities.Calls.{with_node}
use rmw_opendds.Services.{Half, ServiceSupport, Defaults, construct_service}
use rmw_opendds.Services.Sides.{Ends, Side, add_to}
use rmw_opendds.Services.Calls.{construct_on, clean_service}

module _ {G B R P E C Handle W : Type 0} ⦃o : Order G⦄ (dp : Participant G Handle)
    (ends : Ends E C Handle W) where
  -- `rmw_create_service` from `data` on, with the server if one was made.
  unfoldable pub finish_service :
      ℕ × RmwHandle (Side B R P E C)
      → Option (ℕ × Side B R P E C)
      → Node G
      → Heap W
      → Outcome (Option (ℕ × RmwHandle (Side B R P E C)) × Node G × Heap W)
  finish_service service none node heap = do
    cleaned ← clean_service (some service) heap
    ok (none, node, cleaned)
  finish_service service (some (ad, server)) node heap =
      let filled : ℕ × RmwHandle (Side B R P E C) = (
        service.0,
        record service.1 { handle_data = some (ad, server); name = some server.service.name },
      ) in
      let (returned, entered) = add_to dp ends server node in
      if returned
      then ok (some filled, entered, heap)
      else do cleaned ← clean_service (some filled) heap; ok (none, entered, cleaned)

module _ {G B R T P E C Handle W : Type 0} ⦃o : Order G⦄ (dp : Participant G Handle)
    (dds : Dds T P E C Handle W) (defaults : Defaults P W) (repliers : B → Half R P E W)
    (ends : Ends E C Handle W) where
  -- `DDSServer::DDSServer`
  unfoldable pub construct_server :
      Option (ServiceSupport B)
      → Option Bytes
      → Option QosProfile
      → Heap W
      → Outcome (Option (Side B R P E C) × Heap W)
  construct_server type_supports service_name rmw_qos heap = do
    service ← construct_service dds defaults type_supports service_name rmw_qos heap.world
    ok (construct_on repliers ends service heap)

  -- `rmw_create_service` from the allocation of the handle on.
  unfoldable pub fill_service :
      Option (ServiceSupport B)
      → Option Bytes
      → Option QosProfile
      → Node G
      → Option (ℕ × RmwHandle (Side B R P E C)) × Heap W
      → Outcome (Option (ℕ × RmwHandle (Side B R P E C)) × Node G × Heap W)
  unfolding finish_service construct_server
  fill_service type_supports service_name rmw_qos node (none, heap) = ok (none, node, heap)
  fill_service type_supports service_name rmw_qos node (some service, heap) = do
    made ← create dds.memory (construct_server type_supports service_name rmw_qos) heap
    finish_service dp ends service made.0 node made.1

  unfoldable pub rmw_create_service :
      Option (RmwNode (Node G))
      → Option (ServiceSupport B)
      → Option Bytes
      → Option QosProfile
      → Heap W
      → Outcome (Option (ℕ × RmwHandle (Side B R P E C)) × Option (RmwNode (Node G)) × Heap W)
  unfolding fill_service
  rmw_create_service node type_supports service_name rmw_qos heap = elim (NodeHandles.from node) [
    | none ↦ ok (none, node, heap)
    | some dds_node ↦ do
      made ←
          fill_service type_supports service_name rmw_qos dds_node (create_initial dds.memory heap)
      ok (made.0, with_node made.1 node, made.2)
  ]
