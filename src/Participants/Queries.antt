-- ===== src/Participants/Queries.antt =====
-- The entry points of rmw_opendds_cpp/src/rmw_node.cpp that pass a query on to the node.
pub mod Counting
pub mod Names
use rmw_opendds.Prelude.{
  ℕ, Bool, true, false, not, Option, none, some, List, [], if◌then◌else◌, Outcome, ok,
}
use rmw_opendds.Text.{Bytes, codes}
use rmw_opendds.Order.{Order}
use rmw_opendds.Ret.{RmwRet, is_rmw_ok}
use rmw_opendds.NodeHandles
use rmw_opendds.NodeHandles.{RmwNode}
use rmw_opendds.Node.{Node, Participant, count_publishers, count_subscribers}
use rmw_opendds.Node.Copy.{Memory, NamesTypes}
use rmw_opendds.Node.Graph.{
  get_topic_names_types, get_service_names_types, get_pub_names_types, get_sub_names_types,
  get_service_names_types_of,
}
use rmw_opendds.Node.Participants.{NamesMemory, Row, get_names}
use rmw_opendds.Participants.{OpenDdsNode}

-- `dds_node ? ... : RMW_RET_INVALID_ARGUMENT`
abbrev pub on_node :
    {N A : Type 0} → Option (RmwNode N) → A → (N → Outcome (RmwRet × A)) → Outcome (RmwRet × A)
on_node node unchanged query = elim (NodeHandles.from node) [
  | none ↦ ok (RmwRet.invalid_argument, unchanged)
  | some dds_node ↦ query dds_node
]

module _ {G : Type 0} ⦃o : Order G⦄ where
  unfoldable pub rmw_count_publishers :
      Option (RmwNode (Node G)) → Option Bytes → Option ℕ → Outcome (RmwRet × Option ℕ)
  rmw_count_publishers node topic_name count =
      on_node node count (count_publishers topic_name count)

  unfoldable pub rmw_count_subscribers :
      Option (RmwNode (Node G)) → Option Bytes → Option ℕ → Outcome (RmwRet × Option ℕ)
  rmw_count_subscribers node topic_name count =
      on_node node count (count_subscribers topic_name count)

  -- `zero` is what `rmw_names_and_types_check_zero` answers for the names and types, which start
  -- empty; `allocator` is whether the pointer is set.
  module _ (m : Memory) (zero : RmwRet) where
    unfoldable pub rmw_get_topic_names_and_types :
        Option (RmwNode (Node G)) → Bool → Outcome (RmwRet × NamesTypes)
    rmw_get_topic_names_and_types node no_demangle =
        on_node node [] (get_topic_names_types m zero no_demangle)

    unfoldable pub rmw_get_service_names_and_types :
        Option (RmwNode (Node G)) → Bool → Outcome (RmwRet × NamesTypes)
    rmw_get_service_names_and_types node allocator =
        on_node node [] (get_service_names_types m zero allocator)

    module _ {Handle : Type 0} (dp : Participant G Handle) (node : Option (RmwNode (Node G)))
        (node_name node_namespace : Option Bytes) where
      unfoldable pub rmw_get_publisher_names_and_types_by_node :
          Bool → Outcome (RmwRet × NamesTypes)
      rmw_get_publisher_names_and_types_by_node no_demangle =
          on_node node [] (get_pub_names_types m dp zero node_name node_namespace no_demangle)

      unfoldable pub rmw_get_subscriber_names_and_types_by_node :
          Bool → Outcome (RmwRet × NamesTypes)
      rmw_get_subscriber_names_and_types_by_node no_demangle =
          on_node node [] (get_sub_names_types m dp zero node_name node_namespace no_demangle)

      unfoldable pub rmw_get_service_names_and_types_by_node : Bool → Outcome (RmwRet × NamesTypes)
      rmw_get_service_names_and_types_by_node allocator = on_node node [] (
          get_service_names_types_of m dp zero node_name node_namespace (codes "Request") allocator)

      unfoldable pub rmw_get_client_names_and_types_by_node : Bool → Outcome (RmwRet × NamesTypes)
      rmw_get_client_names_and_types_by_node allocator =
          on_node node [] (
            get_service_names_types_of m dp zero node_name node_namespace (codes "Reply") allocator)

-- The arrays start as zero arrays; the codes are those of `rmw_check_zero_rmw_string_array`. The
-- node was made by `create`, so that the object behind its `context_` is gone.
module _ {G Handle P : Type 0} (dp : Participant G Handle) (m : NamesMemory)
    (names_zero namespaces_zero : RmwRet) (node : Option (RmwNode (ℕ × OpenDdsNode G P))) where
  unfoldable pub rmw_get_node_names : Outcome (RmwRet × Option (List Row))
  rmw_get_node_names =
      on_node node none
        λ found. get_names m dp names_zero namespaces_zero false found.1.name found.1.namespace none

  unfoldable pub rmw_get_node_names_with_enclaves : RmwRet → Outcome (RmwRet × Option (List Row))
  rmw_get_node_names_with_enclaves enclaves_zero =
      if not (is_rmw_ok enclaves_zero)
      then ok (RmwRet.invalid_argument, none)
      else on_node node none λ found.
        get_names m dp names_zero namespaces_zero true found.1.name found.1.namespace none
