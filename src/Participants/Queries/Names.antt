-- ===== src/Participants/Queries/Names.antt =====
-- What the queries of the names of nodes answer (rmw_opendds_cpp/src/rmw_node.cpp).
use rmw_opendds.Prelude.{
  ℕ, ◌≡◌, true, false, Option, none, some, ◌∷◌, map, if◌then◌else◌, ok, undefined,
}
use rmw_opendds.Ret.{RmwRet, is_dds_ok}
use rmw_opendds.NodeHandles
use rmw_opendds.NodeHandles.{RmwNode}
use rmw_opendds.Node.{Participant}
use rmw_opendds.Node.Participants.{NamesMemory, values_of}
use rmw_opendds.Node.Participants.Rows.{
  HasMemory, all_complete, row_of, get_names-eq, get_names-undefined,
}
use rmw_opendds.Participants.{OpenDdsNode}
use rmw_opendds.Participants.Queries.{on_node, rmw_get_node_names, rmw_get_node_names_with_enclaves}

-- For a node of the package, where the arrays are zero, DDS lists the participants, and there is
-- memory. Without enclaves: if a participant has a name and no namespace, a missing value is read,
-- which is undefined; otherwise the node comes first and then every participant in its order, with
-- null pointers in place of those without a name. With enclaves, the behaviour is undefined: the
-- node's enclave is read behind a `context_` whose object is gone.
pub rmw_get_node_names-eq :
    {G Handle P : Type 0} (dp : Participant G Handle) (m : NamesMemory) (h : HasMemory m)
    (n : Option (RmwNode (ℕ × OpenDdsNode G P))) (found : ℕ × OpenDdsNode G P)
    → NodeHandles.from n ≡ some found
    → is_dds_ok dp.get_discovered_participants.0 ≡ true
    → (rmw_get_node_names dp m RmwRet.ok RmwRet.ok n ≡ (
        if all_complete dp dp.get_discovered_participants.1
        then ok (
          RmwRet.ok,
          some (
              record {
                name = some found.1.name;
                namespace = some found.1.namespace;
                enclave = none;
              }
              ∷ map
                  (λ handle. row_of false (values_of dp handle))
                  dp.get_discovered_participants.1),
        )
        else undefined))
      × (rmw_get_node_names_with_enclaves dp m RmwRet.ok RmwRet.ok n RmwRet.ok ≡ undefined)
unfolding rmw_get_node_names rmw_get_node_names_with_enclaves
rmw_get_node_names-eq dp m h n found valid listed = (
  rw (rmw_get_node_names, on_node, valid)
      (get_names-eq m h dp found.1.name found.1.namespace none listed),
  rw (rmw_get_node_names_with_enclaves, on_node, valid)
      (get_names-undefined m h dp found.1.name found.1.namespace listed),
)
