-- ===== src/NodeHandles.antt =====
-- `rmw_node_t`, and `OpenDDSNode::from` (rmw_opendds_cpp/src/OpenDDSNode.cpp).
use rmw_opendds.Prelude.{◌≡◌, arith, Bool, Option, none, some, if◌then◌else◌}
use rmw_opendds.Text.{Bytes}
use rmw_opendds.Identifier.{Identifier, check_impl_id}

-- What a node uses of `rmw_context_t`: its identifier, and whether `impl` is set.
pub record ContextHandle : Type 0 where
  pub implementation_identifier : Identifier
  pub has_impl : Bool

-- `node_data` is the OpenDDSNode that `data` points to.
pub record RmwNode (N : Type 0) : Type 0 where
  pub implementation_identifier : Identifier
  pub node_data : Option N
  pub name : Option Bytes
  pub namespace : Option Bytes
  pub context : Option ContextHandle

unfoldable pub from : {N : Type 0} → Option (RmwNode N) → Option N
from none = none
from (some node) = if check_impl_id node.implementation_identifier then node.node_data else none

-- A node that a handle leads to can be exchanged.
pub from_exchanged :
    {N : Type 0} (node : RmwNode N) (n m : N)
    → from (some node) ≡ some n
    → from (some (record node { node_data = some m })) ≡ some m
unfolding from
from_exchanged node n m h = ground (arith, h)
