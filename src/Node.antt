-- ===== src/Node.antt =====
-- OpenDDSNode (rmw_opendds_cpp/src/OpenDDSNode.cpp): the local endpoints it adds to its listeners,
-- the search for another node's participant, and the graph queries. Messages to the log are left
-- out, and so is the guard condition that the two listeners share, which each listener counts.
pub mod Copy
pub mod Keys
pub mod Graph
pub mod Participants
pub mod Undone
use rmw_opendds.Prelude.{
  ℕ, Bool, true, false, not, ◌&&◌, Option, none, some, List, [], ◌∷◌, if◌then◌else◌, is_empty,
  Outcome, ok, ◌>>=◌,
}
use rmw_opendds.Text.{Bytes, codes, bytes_eq}
use rmw_opendds.Order.{Order}
use rmw_opendds.Ret.{RmwRet, DdsRet, is_dds_ok}
use rmw_opendds.Listener.{
  Listener, add_information, remove_information, trigger_graph_guard_condition,
}
use rmw_opendds.Listener.Queries.{count_topic}

pub record Node (G : Type 0) : Type 0 where
  pub pub_listener : Listener G
  pub sub_listener : Listener G

-- A key-value text that `rmw::impl::cpp::parse_key_value` has parsed.
abbrev pub KeyValues : Type 0
KeyValues = Bytes → Option Bytes

-- What the node asks of its participant: the codes and the answers of `get_qos` (the user data),
-- `get_discovered_participants` and `get_discovered_participant_data` (the user data and the key).
-- A null buffer is `none`.
pub record Participant (G Handle : Type 0) : Type 0 where
  pub get_repoid : Handle → G
  pub instance_handle : Handle
  pub parse_key_value : Bytes → KeyValues
  pub get_qos : DdsRet × Option Bytes
  pub get_discovered_participants : DdsRet × List Handle
  pub get_discovered_participant_data : Handle → DdsRet × Option Bytes × G

unfoldable pub validate_name_namespace : Option Bytes → Option Bytes → Bool
validate_name_namespace none node_namespace = false
validate_name_namespace (some node_name) none = false
validate_name_namespace (some node_name) (some node_namespace) =
    not (is_empty node_name) && not (is_empty node_namespace)

-- `match`, once the two values are looked up.
same_pair : Option Bytes → Option Bytes → Bytes → Bytes → Bool
same_pair none nsv node_name node_namespace = false
same_pair (some n) none node_name node_namespace = false
same_pair (some n) (some ns) node_name node_namespace =
    bytes_eq node_name n && bytes_eq node_namespace ns

module _ {G Handle : Type 0} ⦃o : Order G⦄ (dp : Participant G Handle) where
  unfoldable pub add_pub : Handle → Bytes → Bytes → Node G → Node G
  add_pub handle topic_name type_name node =
      let part_guid = dp.get_repoid dp.instance_handle in
      let added =
        (add_information part_guid (dp.get_repoid handle) topic_name type_name
          node.pub_listener).1 in
      record node { pub_listener = trigger_graph_guard_condition added }

  unfoldable pub add_sub : Handle → Bytes → Bytes → Node G → Node G
  add_sub handle topic_name type_name node =
      let part_guid = dp.get_repoid dp.instance_handle in
      let added =
        (add_information part_guid (dp.get_repoid handle) topic_name type_name
          node.sub_listener).1 in
      record node { sub_listener = trigger_graph_guard_condition added }

  unfoldable pub remove_pub : Handle → Node G → Bool × Node G
  remove_pub handle node =
      let (removed, l) = remove_information (dp.get_repoid handle) node.pub_listener in
      (true, record node { pub_listener = if removed then trigger_graph_guard_condition l else l })

  unfoldable pub remove_sub : Handle → Node G → Bool × Node G
  remove_sub handle node =
      let (removed, l) = remove_information (dp.get_repoid handle) node.sub_listener in
      (true, record node { sub_listener = if removed then trigger_graph_guard_condition l else l })

  -- `match`, a reserved word here
  unfoldable pub match_user_data : Option Bytes → Bytes → Bytes → Bool
  unfolding same_pair
  match_user_data none node_name node_namespace = false
  match_user_data (some buf) node_name node_namespace =
      let values = dp.parse_key_value buf in
      same_pair (values (codes "name")) (values (codes "namespace")) node_name node_namespace

  search : List Handle → Bytes → Bytes → RmwRet × Option G
  unfolding match_user_data
  search [] node_name node_namespace = (RmwRet.node_name_non_existent, none)
  search (handle ∷ handles) node_name node_namespace =
      let (code, user_data, key) = dp.get_discovered_participant_data handle in
      let others = search handles node_name node_namespace in
      if is_dds_ok code
      then if match_user_data user_data node_name node_namespace
        then (RmwRet.ok, some key)
        else others
      else (RmwRet.error, none)

  -- The code, and the key if it is written.
  unfoldable pub get_key : Bytes → Bytes → RmwRet × Option G
  unfolding match_user_data search
  get_key node_name node_namespace =
      if is_dds_ok dp.get_qos.0 && match_user_data dp.get_qos.1 node_name node_namespace
      then (RmwRet.ok, some (dp.get_repoid dp.instance_handle))
      else if is_dds_ok dp.get_discovered_participants.0
      then search dp.get_discovered_participants.1 node_name node_namespace
      else (RmwRet.error, none)

module _ {G : Type 0} ⦃o : Order G⦄ where
  -- `count` is `*count`; `none` is a null pointer.
  count_on : Option Bytes → Option ℕ → Listener G → Outcome (RmwRet × Option ℕ)
  count_on none count l = ok (RmwRet.error, count)
  count_on (some topic_name) none l = ok (RmwRet.error, none)
  count_on (some topic_name) (some count) l = do
    n ← count_topic topic_name l
    ok (RmwRet.ok, some n)

  unfoldable pub count_publishers : Option Bytes → Option ℕ → Node G → Outcome (RmwRet × Option ℕ)
  unfolding count_on
  count_publishers topic_name count node = count_on topic_name count node.pub_listener

  unfoldable pub count_subscribers : Option Bytes → Option ℕ → Node G → Outcome (RmwRet × Option ℕ)
  unfolding count_on
  count_subscribers topic_name count node = count_on topic_name count node.sub_listener
