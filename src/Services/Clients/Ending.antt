-- ===== src/Services/Clients/Ending.antt =====
-- Clients from their creation to their end (rmw_opendds_cpp/src/rmw_client.cpp).
use rmw_opendds.Prelude.{
  ok-injective, some-injective, ℕ, ◌≡◌, refl, ap, sym, ◌∙◌, Bool, true, false, Option, none, some,
  List, ◌∷◌, ◌++◌, Outcome, ok, out_of_range, undefined, ◌>>=◌,
}
use rmw_opendds.Text.{Bytes}
use rmw_opendds.Order.{Order}
use rmw_opendds.Identifier.{check_impl_id}
use rmw_opendds.Ret.{RmwRet}
use rmw_opendds.Heap.{Heap}
use rmw_opendds.Node.{Node, Participant}
use rmw_opendds.Node.Undone.{IsNewTo, triggered_twice}
use rmw_opendds.NodeHandles
use rmw_opendds.NodeHandles.{RmwNode, from_exchanged}
use rmw_opendds.Handles
use rmw_opendds.Handles.{RmwHandle, clean}
use rmw_opendds.Handles.Balance.{
  ok_of_Leaves, clean-Leaves, Balanced, handle_of, create_handle-Balanced,
}
use rmw_opendds.Entities.{QosProfile, Dds}
use rmw_opendds.Entities.Calls.{with_node}
use rmw_opendds.Services.{Half, FreesAll, ServiceSupport, Defaults}
use rmw_opendds.Services.Sides.{Ends, Side, add_to}
use rmw_opendds.Services.Calls.{
  service_name_of, construct_client, destruct_side, rmw_create_client, rmw_destroy_client,
  destroy_side,
}
use rmw_opendds.Services.Registration.{remove_from-add_to}
use rmw_opendds.Services.Clients.{owned, client-IsTidy}

-- What a creation leaves: it returns, and its allocations and its node are accounted for.
abbrev pub IsAccounted :
    {D W N : Type 0}
    → (D → Bytes)
    → (D → N → Bool × N)
    → (D → List ℕ)
    → RmwNode N
    → N
    → List ℕ
    → Outcome (Option (ℕ × RmwHandle D) × Option (RmwNode N) × Heap W)
    → Type 0
IsAccounted {D} {W} {N} name_of register owns node n live result =
    (client : Option (ℕ × RmwHandle D)) × (left : N) × (heap : Heap W) × (result
      ≡ ok (client, with_node left (some node), heap))
    × Balanced name_of register owns live n (ok (client, left, heap))

accounted :
    {D W N : Type 0} (name_of : D → Bytes) (register : D → N → Bool × N) (owns : D → List ℕ)
    (node : RmwNode N) (n : N) (live : List ℕ) (r : Outcome (Option (ℕ × RmwHandle D) × N × Heap W))
    → Balanced name_of register owns live n r
    → IsAccounted name_of register owns node n live
        (do made ← r; ok (made.0, with_node made.1 (some node), made.2))
accounted name_of register owns node n live (ok (client, left, heap)) b =
    (client, left, heap, refl, b)
accounted name_of register owns node n live out_of_range b = absurd b
accounted name_of register owns node n live undefined b = absurd b

-- A client that was created is one that its creation describes.
created_client :
    {D W N : Type 0} (name_of : D → Bytes) (register : D → N → Bool × N) (owns : D → List ℕ)
    (node : RmwNode N) (n : N) (live : List ℕ)
    (r : Outcome (Option (ℕ × RmwHandle D) × Option (RmwNode N) × Heap W))
    → IsAccounted name_of register owns node n live r
    → (a ad : ℕ) (d : D) (left : Heap W) (after : Option (RmwNode N))
    → r ≡ ok (some (a, handle_of name_of ad d), after, left)
    → (entered : N) × (after ≡ with_node entered (some node))
      × ((left.live ≡ owns d ++ (ad ∷ a ∷ live)) × (register d n ≡ (true, entered)))
created_client name_of register owns node n live r (none, m, heap, e, b) a ad d left after made =
    cc (made, e)
created_client name_of register owns node n live r
      (some (a', handle), m, heap, e, (ad', d', same, l, f)) a ad d left after made =
    let parts = ok-injective (sym made ∙ e) in
    let handles = some-injective (ap (λ x. x.0) parts) in
    let objects =
      some-injective (ap (λ x. x.1.handle_data) handles ∙ ap (λ x. x.handle_data) same) in
    (
      m,
      ap (λ x. x.1) parts,
      (
        ap (λ x. x.2.live) parts
            ∙ (l
                ∙ (ap (λ x. owns x.1 ++ (x.0 ∷ a' ∷ live)) (sym objects)
                    ∙ ap (λ x. owns d ++ (ad ∷ x.0 ∷ live)) (sym handles))),
        ap (λ x. register x n) (ap (λ x. x.1) objects) ∙ f,
      ),
    )

module _ {G B R T P E C Handle W : Type 0} ⦃o : Order G⦄ (dp : Participant G Handle)
    (dds : Dds T P E C Handle W) (defaults : Defaults P W) (requesters : B → Half R P E W)
    (ends : Ends E C Handle W) (allocations : R → List ℕ)
    (law : (callbacks : B) → FreesAll (requesters callbacks) allocations)
    (asserts : dds.build.asserts ≡ false) (type_supports : Option (ServiceSupport B))
    (service_name : Option Bytes) (rmw_qos : Option QosProfile) (heap : Heap W)
    (node : RmwNode (Node G)) (n : Node G) (valid : NodeHandles.from (some node) ≡ some n) where
  -- Without assertions, with a node of the package, and where the type support frees what it
  -- allocates for a requester: the creation of a client returns, whatever fails. Either it is a
  -- null pointer, the allocations are those from before, and the node has not changed unless its
  -- registration threw. Or it is a client that the node has entered, with the name of its service,
  -- and new are its struct, its object and the allocations of its requester.
  pub rmw_create_client-IsAccounted :
      IsAccounted service_name_of (add_to dp ends) (owned allocations) node n heap.live (
        rmw_create_client dp dds defaults requesters ends
          (some node)
          type_supports
          service_name
          rmw_qos
          heap)
  unfolding rmw_create_client
  rmw_create_client-IsAccounted =
      rw (rmw_create_client, valid)
        (accounted service_name_of (add_to dp ends) (owned allocations) node n heap.live _ (
          create_handle-Balanced
            (construct_client dp dds defaults requesters ends type_supports service_name rmw_qos)
            (destruct_side requesters ends) (owned allocations)
            (client-IsTidy dp dds defaults requesters ends allocations law asserts type_supports
              service_name rmw_qos)
            dds.memory service_name_of (add_to dp ends) n heap))

  ended_client :
      (a ad : ℕ) (side : Side B R P E C) (left : Heap W) (entered : Node G)
      → left.live ≡ allocations side.role ++ (ad ∷ a ∷ heap.live)
      → add_to dp ends side n ≡ (true, entered)
      → IsNewTo dp (ends.get_instance_handle side.reader) n.sub_listener.topic_cache
      → IsNewTo dp (ends.get_instance_handle side.writer) n.pub_listener.topic_cache
      → (final : Heap W) × (rmw_destroy_client dp ends requesters
            (with_node entered (some node))
            (some (a, handle_of service_name_of ad side))
            left
          ≡ ok (
            RmwRet.ok,
            with_node
                (record {
                  pub_listener = triggered_twice n.pub_listener;
                  sub_listener = triggered_twice n.sub_listener;
                })
                (some node),
            final,
          ))
        × (final.live ≡ heap.live)
  unfolding rmw_destroy_client destroy_side Handles.from check_impl_id
  ended_client a ad side left entered live there rn wn =
      let removed = remove_from-add_to dp ends side n entered rn wn there in
      let destruct = destruct_side requesters ends in
      let (final, f, l) =
        ok_of_Leaves (clean destruct (some (a, handle_of service_name_of ad side)) left) (
          clean-Leaves _ destruct (owned allocations)
            (client-IsTidy dp dds defaults requesters ends allocations law asserts type_supports
              service_name rmw_qos)
            heap.live (a, handle_of service_name_of ad side) left live) in
      (final, rw (rmw_destroy_client, from_exchanged node n entered valid, removed, f) refl, l)

  -- Without assertions, with a node of the package, and where the type support frees what it
  -- allocates for a requester: the end of a client that was just created, whose reader and writer
  -- are new to the node's caches, succeeds. The allocations are those from before the creation, and
  -- the node knows what it knew, each listener having been asked to trigger twice.
  pub rmw_destroy_client-rmw_create_client :
      (a ad : ℕ) (side : Side B R P E C) (left : Heap W) (after : Option (RmwNode (Node G)))
      → rmw_create_client dp dds defaults requesters ends
          (some node)
          type_supports
          service_name
          rmw_qos
          heap
        ≡ ok (some (a, handle_of service_name_of ad side), after, left)
      → IsNewTo dp (ends.get_instance_handle side.reader) n.sub_listener.topic_cache
      → IsNewTo dp (ends.get_instance_handle side.writer) n.pub_listener.topic_cache
      → (final : Heap W) × (rmw_destroy_client dp ends requesters after
            (some (a, handle_of service_name_of ad side))
            left
          ≡ ok (
            RmwRet.ok,
            with_node
                (record {
                  pub_listener = triggered_twice n.pub_listener;
                  sub_listener = triggered_twice n.sub_listener;
                })
                (some node),
            final,
          ))
        × (final.live ≡ heap.live)
  rmw_destroy_client-rmw_create_client a ad side left after made rn wn =
      let (entered, there, (live, registered)) =
        created_client service_name_of (add_to dp ends) (owned allocations) node n heap.live _
          rmw_create_client-IsAccounted a ad side left after made in
      rw there (ended_client a ad side left entered live registered rn wn)
