-- ===== src/Services/Registration.antt =====
-- The registration of clients and servers at a node, their end, and a client's view of its server
-- (rmw_opendds_cpp/src/DDSClient.cpp, src/DDSServer.cpp and src/rmw_server.cpp).
use rmw_opendds.Prelude.{
  ℕ, ◌≡◌, ◌≢◌, ◌↔◌, Bool, true, false, Option, none, some, arith, ap, refl, Outcome, ok,
}
use rmw_opendds.Text.{Bytes}
use rmw_opendds.Order.{Order}
use rmw_opendds.Ret.{RmwRet, DdsRet}
use rmw_opendds.Node.{Node, Participant, add_pub, add_sub, remove_pub}
use rmw_opendds.Node.Undone.{IsNewTo, triggered_twice, remove_pub-add_pub, remove_sub-add_sub}
use rmw_opendds.Heap.{Heap}
use rmw_opendds.NodeHandles
use rmw_opendds.NodeHandles.{RmwNode}
use rmw_opendds.Handles
use rmw_opendds.Handles.{RmwHandle}
use rmw_opendds.Entities.Calls.{with_node}
use rmw_opendds.Services.Calls.{end_side, destroy_side, rmw_destroy_service}
use rmw_opendds.Services.Sides.{
  Ends, Side, add_to, remove_from, enter_ends, enter_writer, remove_reader, is_server_available,
  count_matched_subscribers, count_matched_publishers,
}

module _ {B R P E C Handle W : Type 0} (ends : Ends E C Handle W) where
  -- What `is_server_available` promises: both statuses are got, and neither count is zero.
  abbrev pub IsMatched : Side B R P E C → W → Type 0
  IsMatched side world =
      ((ends.get_publication_matched_status side.writer world).0 ≡ DdsRet.ok)
      × ((ends.get_subscription_matched_status side.reader world).0 ≡ DdsRet.ok)
      × ((ends.get_publication_matched_status side.writer world).1 ≢ 0)
      × ((ends.get_subscription_matched_status side.reader world).1 ≢ 0)

  -- A client says that its server is available exactly where DDS gives the match status of its
  -- request writer and of its reply reader, and neither count is zero.
  pub is_server_available-IsMatched :
      (side : Side B R P E C) (world : W)
      → is_server_available ends side world ≡ true ↔ IsMatched side world
  unfolding is_server_available count_matched_subscribers count_matched_publishers
  is_server_available-IsMatched side world = (λ h. ground arith, λ m. ground arith)

module _ {G Handle : Type 0} ⦃o : Order G⦄ (dp : Participant G Handle) (reader writer : Handle)
    (node : Node G) (rn : IsNewTo dp reader node.sub_listener.topic_cache)
    (wn : IsNewTo dp writer node.pub_listener.topic_cache) where
  -- The node, with both listeners triggered.
  abbrev settled : Node G
  settled = record {
    pub_listener = triggered_twice node.pub_listener;
    sub_listener = triggered_twice node.sub_listener;
  }

  remove_reader-add_pub :
      (rn_name rn_type wn_name wn_type : Bytes)
      → remove_reader dp reader (
          remove_pub dp writer
            (add_pub dp writer wn_name wn_type (add_sub dp reader rn_name rn_type node)))
        ≡ (true, settled)
  unfolding add_sub
  remove_reader-add_pub rn_name rn_type wn_name wn_type =
      rw (remove_pub-add_pub dp writer wn_name wn_type (add_sub dp reader rn_name rn_type node) wn)
        (remove_sub-add_sub dp reader rn_name rn_type
          (record node { pub_listener = triggered_twice node.pub_listener }) rn)

  remove_reader-enter_ends :
      (rtd wt : Option (Option Bytes × Option Bytes)) (entered : Node G)
      → enter_ends dp reader writer rtd wt node ≡ (true, entered)
      → remove_reader dp reader (remove_pub dp writer entered) ≡ (true, settled)
  unfolding enter_ends enter_writer
  remove_reader-enter_ends none wt entered eq = cc eq
  remove_reader-enter_ends (some (none, t)) wt entered eq = cc eq
  remove_reader-enter_ends (some (some n, none)) wt entered eq = cc eq
  remove_reader-enter_ends (some (some n, some t)) none entered eq = cc eq
  remove_reader-enter_ends (some (some n, some t)) (some (none, type_name)) entered eq = cc eq
  remove_reader-enter_ends (some (some n, some t)) (some (some name, none)) entered eq = cc eq
  remove_reader-enter_ends (some (some n, some t)) (some (some name, some type_name)) entered eq =
      rw (← ap (λ r. r.1) eq) (remove_reader-add_pub n t name type_name)

-- What a registration that throws leaves behind, where the reader's topic answers `names`: nothing,
-- where a name is missing, or else the reader.
abbrev pub IsHalfDone :
    {G Handle : Type 0}
    → ⦃o : Order G⦄ → Participant G Handle
    → Handle
    → Option (Option Bytes × Option Bytes)
    → Node G
    → Node G
    → Type 0
IsHalfDone dp reader (some (some n, some t)) before left = left ≡ add_sub dp reader n t before
IsHalfDone dp reader names before left = left ≡ before

enter_ends-IsHalfDone :
    {G Handle : Type 0} ⦃o : Order G⦄ (dp : Participant G Handle) (reader writer : Handle)
    (rtd wt : Option (Option Bytes × Option Bytes)) (before left : Node G)
    → enter_ends dp reader writer rtd wt before ≡ (false, left)
    → IsHalfDone dp reader rtd before left
unfolding enter_ends enter_writer
enter_ends-IsHalfDone dp reader writer none wt before left eq = cc eq
enter_ends-IsHalfDone dp reader writer (some (none, t)) wt before left eq = cc eq
enter_ends-IsHalfDone dp reader writer (some (some n, none)) wt before left eq = cc eq
enter_ends-IsHalfDone dp reader writer (some (some n, some t)) none before left eq = cc eq
enter_ends-IsHalfDone dp reader writer (some (some n, some t)) (some (none, wt)) before left eq =
    cc eq
enter_ends-IsHalfDone dp reader writer (some (some n, some t)) (some (some wn, none)) before left
      eq =
    cc eq
enter_ends-IsHalfDone dp reader writer (some (some n, some t)) (some (some wn, some wt)) before left
      eq =
    cc eq

module _ {G B R P E C Handle W : Type 0} ⦃o : Order G⦄ (dp : Participant G Handle)
    (ends : Ends E C Handle W) where
  -- Where a client or a server is entered into a node, and its reader and its writer are new to the
  -- node's caches, its removal succeeds and leaves both caches as they were before; each listener
  -- has been asked to trigger twice.
  pub remove_from-add_to :
      (side : Side B R P E C) (node entered : Node G)
      → IsNewTo dp (ends.get_instance_handle side.reader) node.sub_listener.topic_cache
      → IsNewTo dp (ends.get_instance_handle side.writer) node.pub_listener.topic_cache
      → add_to dp ends side node ≡ (true, entered)
      → remove_from dp ends side entered ≡ (
        true,
        record {
          pub_listener = triggered_twice node.pub_listener;
          sub_listener = triggered_twice node.sub_listener;
        },
      )
  unfolding add_to remove_from
  remove_from-add_to side node entered rn wn eq =
      remove_reader-enter_ends dp (ends.get_instance_handle side.reader)
        (ends.get_instance_handle side.writer) node rn wn (ends.get_topicdescription side.reader)
        (ends.get_topic side.writer) entered eq

  -- Where `add_to` throws, the node is as before if a name of the reader's topic or of its type is
  -- missing; otherwise it keeps the reader, though no client or server comes of it.
  pub add_to-IsHalfDone :
      (side : Side B R P E C) (before left : Node G)
      → add_to dp ends side before ≡ (false, left)
      → IsHalfDone dp
          (ends.get_instance_handle side.reader)
          (ends.get_topicdescription side.reader)
          before
          left
  unfolding add_to
  add_to-IsHalfDone side before left eq =
      enter_ends-IsHalfDone dp (ends.get_instance_handle side.reader)
        (ends.get_instance_handle side.writer) (ends.get_topicdescription side.reader)
        (ends.get_topic side.writer) before left eq

-- What ends with the heap that it began with.
abbrev pub IsKept :
    {N W : Type 0} → Heap W → Outcome (RmwRet × Option (RmwNode N) × Heap W) → Type 0
IsKept {N} heap outcome =
    (ret : RmwRet) × (left : Option (RmwNode N)) × (outcome ≡ ok (ret, left, heap))

end_side-IsKept :
    {G W : Type 0} (n : Option (RmwNode (Node G))) (heap : Heap W) (gone : Bool × Node G)
    → IsKept heap (end_side (ok heap) n heap gone)
end_side-IsKept n heap (false, m) = (RmwRet.error, with_node m n, refl)
end_side-IsKept n heap (true, m) = (RmwRet.ok, with_node m n, refl)

module _ {G B R P E C Handle W : Type 0} ⦃o : Order G⦄ (dp : Participant G Handle)
    (ends : Ends E C Handle W) where
  destroy_side-IsKept :
      (n : Option (RmwNode (Node G))) (heap : Heap W) (found : Option (ℕ × Side B R P E C))
      (dds_node : Option (Node G))
      → IsKept heap (destroy_side dp ends (ok heap) n heap found dds_node)
  unfolding destroy_side
  destroy_side-IsKept n heap none dds_node = (RmwRet.error, n, refl)
  destroy_side-IsKept n heap (some side) none = (RmwRet.error, n, refl)
  destroy_side-IsKept n heap (some side) (some dds_node) =
      end_side-IsKept n heap (remove_from dp ends side.1 dds_node)

  -- `rmw_destroy_service` returns on every input, and leaves the heap that it found: nothing of a
  -- service is freed, and nothing of it is destroyed in DDS.
  pub rmw_destroy_service-IsKept :
      (n : Option (RmwNode (Node G))) (service : Option (ℕ × RmwHandle (Side B R P E C)))
      (heap : Heap W)
      → IsKept heap (rmw_destroy_service dp ends n service heap)
  unfolding rmw_destroy_service
  rmw_destroy_service-IsKept n service heap =
      destroy_side-IsKept n heap (Handles.from service) (NodeHandles.from n)
