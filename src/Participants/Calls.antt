-- ===== src/Participants/Calls.antt =====
-- The entry points that create and destroy nodes (rmw_opendds_cpp/src/rmw_node.cpp), and those that
-- pass a call on to the participant.
pub mod Lifecycle
pub mod Shutdown
use rmw_opendds.Prelude.{
  ℕ, Bool, true, false, not, Option, none, some, if◌then◌else◌, Outcome, ok, undefined, ◌>>=◌,
}
use rmw_opendds.Text.{Bytes}
use rmw_opendds.Identifier.{opendds_identifier, check_impl_id}
use rmw_opendds.Ret.{RmwRet, DdsRet, is_dds_ok}
use rmw_opendds.Heap.{Heap}
use rmw_opendds.Init.{Context, is_none}
use rmw_opendds.Node.{validate_name_namespace}
use rmw_opendds.NodeHandles
use rmw_opendds.NodeHandles.{RmwNode}
use rmw_opendds.Structs.{Struct, clean_struct, create_struct}
use rmw_opendds.GuardConditions.{GuardCondition}
use rmw_opendds.Participants.{Factory, OpenDdsNode}
use rmw_opendds.Participants.Transport.{Registry}
use rmw_opendds.Participants.Construct.{text_of, construct_node, destruct_node}

-- `rmw_node_t` at its address; `data` points to an OpenDDSNode at its own.
abbrev pub NodeAt : Type 0 → Type 0 → Type 0
NodeAt G P = ℕ × RmwNode (ℕ × OpenDdsNode G P)

abbrev pub struct_of : {G P : Type 0} → NodeAt G P → Struct (OpenDdsNode G P)
struct_of (a, node) = record { address = a; object = node.node_data }

-- The handle that is filled in around an object.
abbrev pub node_at : {G P A : Type 0} → Context A → ℕ → ℕ × OpenDdsNode G P → NodeAt G P
node_at context a (ad, dds_node) = (
  a,
  record {
    implementation_identifier = opendds_identifier;
    node_data = some (ad, dds_node);
    name = some dds_node.name;
    namespace = some dds_node.namespace;
    context = some (record {
      implementation_identifier = context.implementation_identifier;
      has_impl = not (is_none context.impl);
    });
  },
)

abbrev pub handle_of :
    {G P A : Type 0} → Context A → Option (Struct (OpenDdsNode G P)) → Option (NodeAt G P)
handle_of context none = none
handle_of context (some s) = elim (s.object) [
  | none ↦ none
  | some dds_node ↦ some (node_at context s.address dds_node)
]

module _ {Q P S Ti Tc W A : Type 0} (factory : Factory Q P S W) (registry : Registry Ti Tc P W)
    (G : Type 0) where
  -- A null context is read all the same, and a context without `impl` is used: the macros that test
  -- for them do not return.
  unfoldable pub rmw_create_node :
      Option (Context A)
      → Option Bytes
      → Option Bytes
      → Heap W
      → Outcome (Option (NodeAt G P) × Heap W)
  rmw_create_node none name namespace heap = undefined
  rmw_create_node (some context) name namespace heap =
      if not (check_impl_id context.implementation_identifier)
      then ok (none, heap)
      else if not (validate_name_namespace name namespace)
      then ok (none, heap)
      else do
        made ←
            create_struct factory.memory
              (construct_node factory registry G context (text_of name) (text_of namespace))
              (destruct_node factory) heap
        ok (handle_of context made.0, made.1)

module _ {Q P S W A G : Type 0} (factory : Factory Q P S W) where
  -- The context is what the node's pointer leads to at the time; `none` is a null pointer. A null
  -- node is read all the same.
  unfoldable pub rmw_destroy_node :
      Option (Context A) → Option (NodeAt G P) → Heap W → Outcome (RmwRet × Heap W)
  rmw_destroy_node context none heap = undefined
  rmw_destroy_node none (some node) heap =
      if not (check_impl_id node.1.implementation_identifier)
      then ok (RmwRet.incorrect_rmw_implementation, heap)
      else ok (RmwRet.error, heap)
  rmw_destroy_node (some context) (some node) heap =
      if not (check_impl_id node.1.implementation_identifier)
      then ok (RmwRet.incorrect_rmw_implementation, heap)
      else if is_none context.impl
      then ok (RmwRet.error, heap)
      else do
        cleaned ← clean_struct (destruct_node factory) (struct_of node) heap
        ok (RmwRet.ok, cleaned)

-- `assert_liveliness` is that of the participant.
unfoldable pub rmw_node_assert_liveliness :
    {G P : Type 0} → (P → DdsRet) → Option (RmwNode (ℕ × OpenDdsNode G P)) → RmwRet
rmw_node_assert_liveliness assert_liveliness node = elim (NodeHandles.from node) [
  | none ↦ RmwRet.error
  | some found ↦ if is_dds_ok (assert_liveliness found.1.dp) then RmwRet.ok else RmwRet.error
]

unfoldable pub rmw_node_get_graph_guard_condition :
    {G P : Type 0} → Option (RmwNode (ℕ × OpenDdsNode G P)) → Option GuardCondition
rmw_node_get_graph_guard_condition node = elim (NodeHandles.from node) [
  | none ↦ none
  | some found ↦ some found.1.gc
]
