-- ===== src/Services/Sides.antt =====
-- What `DDSClient` and `DDSServer` have in common (rmw_opendds_cpp/src/DDSClient.cpp and
-- src/DDSServer.cpp): a requester or a replier with its reader and its writer, and their
-- registration at the node.
use rmw_opendds.Prelude.{ℕ, Bool, true, false, not, ◌&&◌, ◌==◌, Option, none, some}
use rmw_opendds.Text.{Bytes}
use rmw_opendds.Order.{Order}
use rmw_opendds.Ret.{DdsRet, is_dds_ok}
use rmw_opendds.Heap.{Heap}
use rmw_opendds.Node.{Node, Participant, add_pub, add_sub, remove_pub, remove_sub}
use rmw_opendds.Services.{Service, Half}

-- What a reader or a writer answers: the names of its topic and of the topic's type, where
-- there is a topic, and its match status, `current_count` of it.
pub record Ends (E C Handle W : Type 0) : Type 0 where
  pub get_topicdescription : E → Option (Option Bytes × Option Bytes)
  pub get_topic : E → Option (Option Bytes × Option Bytes)
  pub get_instance_handle : E → Handle
  pub create_readcondition : E → W → Option C × W
  pub delete_readcondition : E → C → W → DdsRet × W
  pub get_publication_matched_status : E → W → DdsRet × ℕ
  pub get_subscription_matched_status : E → W → DdsRet × ℕ

-- `DDSClient` or `DDSServer`, constructed: `role` is the requester or the replier.
pub record Side (B R P E C : Type 0) : Type 0 where
  pub service : Service B P
  pub role : R
  pub reader : E
  pub read_condition : C
  pub writer : E

module _ {R P E C Handle W : Type 0} (half : Half R P E W) (ends : Ends E C Handle W) where
  -- `cleanup`, of a requester or a replier that was made.
  unfoldable pub cleanup_side : R → Option (E × C) → Heap W → Heap W
  cleanup_side role none heap = half.unmake role heap
  cleanup_side role (some (reader, condition)) heap =
      half.unmake role
        (record heap { world = (ends.delete_readcondition reader condition heap.world).1 })

module _ {B R P E C Handle W : Type 0} (half : Half R P E W) (ends : Ends E C Handle W) where
  -- The constructor's `try` from `create_readcondition` on.
  unfoldable pub make_ends :
      Service B P → R → E → Option C → Heap W → Option (Side B R P E C) × Heap W
  unfolding cleanup_side
  make_ends service role reader none heap = (none, cleanup_side half ends role none heap)
  make_ends service role reader (some condition) heap = elim (half.get_datawriter role) [
    | none ↦ (none, cleanup_side half ends role (some (reader, condition)) heap)
    | some writer ↦ (
      some (record {
        service = service;
        role = role;
        reader = reader;
        read_condition = condition;
        writer = writer;
      }),
      heap,
    )
  ]

  -- The constructor's `try`, once the requester or the replier is asked for.
  unfoldable pub make_side : Service B P → Option R × Heap W → Option (Side B R P E C) × Heap W
  unfolding make_ends
  make_side service (none, heap) = (none, heap)
  make_side service (some role, heap) = elim (half.get_datareader role) [
    | none ↦ (none, cleanup_side half ends role none heap)
    | some reader ↦
        let (condition, world) = ends.create_readcondition reader heap.world in
        make_ends service role reader condition (record heap { world = world })
  ]

module _ {B R P E C Handle W : Type 0} (ends : Ends E C Handle W) where
  -- `count_matched_subscribers`; a count that is not got is `none`.
  unfoldable pub count_matched_subscribers : Side B R P E C → W → Option ℕ
  count_matched_subscribers side world =
      let (code, count) = ends.get_publication_matched_status side.writer world in
      elim (is_dds_ok code) [ true ↦ some count | false ↦ none ]

  unfoldable pub count_matched_publishers : Side B R P E C → W → Option ℕ
  count_matched_publishers side world =
      let (code, count) = ends.get_subscription_matched_status side.reader world in
      elim (is_dds_ok code) [ true ↦ some count | false ↦ none ]

  unfoldable pub is_server_available : Side B R P E C → W → Bool
  is_server_available side world = elim (count_matched_subscribers side world) [
    | none ↦ false
    | some request_subscribers ↦ elim (count_matched_publishers side world) [
      | none ↦ false
      | some reply_publishers ↦ not (request_subscribers == 0) && not (reply_publishers == 0)
    ]
  ]

module _ {G Handle : Type 0} ⦃o : Order G⦄ (dp : Participant G Handle) where
  -- `add_to` from the writer's topic on: whether it returns, and the node. It throws otherwise.
  unfoldable pub enter_writer :
      Handle → Option (Option Bytes × Option Bytes) → Node G → Bool × Node G
  enter_writer handle (some (some name, some type_name)) node =
      (true, add_pub dp handle name type_name node)
  enter_writer handle names node = (false, node)

  unfoldable pub enter_ends :
      Handle
      → Handle
      → Option (Option Bytes × Option Bytes)
      → Option (Option Bytes × Option Bytes)
      → Node G
      → Bool × Node G
  unfolding enter_writer
  enter_ends reader writer (some (some name, some type_name)) wt node =
      enter_writer writer wt (add_sub dp reader name type_name node)
  enter_ends reader writer rtd wt node = (false, node)

  -- The second half of the `&&`, of what the first half leaves.
  abbrev pub remove_reader : Handle → Bool × Node G → Bool × Node G
  remove_reader reader (true, node) = remove_sub dp reader node
  remove_reader reader (false, node) = (false, node)

module _ {G B R P E C Handle W : Type 0} ⦃o : Order G⦄ (dp : Participant G Handle)
    (ends : Ends E C Handle W) where
  unfoldable pub add_to : Side B R P E C → Node G → Bool × Node G
  unfolding enter_ends
  add_to side node =
      enter_ends dp (ends.get_instance_handle side.reader) (ends.get_instance_handle side.writer)
        (ends.get_topicdescription side.reader) (ends.get_topic side.writer) node

  unfoldable pub remove_from : Side B R P E C → Node G → Bool × Node G
  remove_from side node =
      remove_reader dp (ends.get_instance_handle side.reader)
        (remove_pub dp (ends.get_instance_handle side.writer) node)
