-- ===== src/Node/Undone.antt =====
-- Endpoints that the node adds and removes again.
use rmw_opendds.Prelude.{◌+◌, ◌≡◌, ◌≢◌, refl, true, none, some, []}
use rmw_opendds.Text.{Bytes}
use rmw_opendds.Order.{Order}
use rmw_opendds.Containers.Map
use rmw_opendds.TopicCache.{TopicCache}
use rmw_opendds.TopicCache.Consistent.{IsConsistent}
use rmw_opendds.TopicCache.Undone.{remove_topic-add_topic}
use rmw_opendds.Listener.{
  Listener, add_information, remove_information, trigger_graph_guard_condition,
}
use rmw_opendds.Node.{Node, Participant, add_pub, add_sub, remove_pub, remove_sub}

-- A listener that was asked to trigger twice more.
abbrev pub triggered_twice : {G : Type 0} → Listener G → Listener G
triggered_twice l = record l { triggers = l.triggers + 1 + 1 }

module _ {G Handle : Type 0} ⦃o : Order G⦄ (dp : Participant G Handle) (handle : Handle) where
  -- A cache that is consistent, does not know the handle's endpoint, and has no empty entry for the
  -- node's participant.
  pub record IsNewTo (c : TopicCache G) : Type 0 where
    pub consistent : IsConsistent c
    pub fresh : Map.find (dp.get_repoid handle) c.endpoint_guid_to_info ≡ none
    pub nonempty :
        Map.find (dp.get_repoid dp.instance_handle) c.participant_to_endpoint_guids ≢ some []

  pub remove_pub-add_pub :
      (topic_name type_name : Bytes) (node : Node G)
      → IsNewTo node.pub_listener.topic_cache
      → remove_pub dp handle (add_pub dp handle topic_name type_name node)
        ≡ (true, record node { pub_listener = triggered_twice node.pub_listener })
  unfolding remove_pub add_pub remove_information add_information trigger_graph_guard_condition
  remove_pub-add_pub topic_name type_name node n =
      rw
        (remove_topic-add_topic (dp.get_repoid dp.instance_handle) (dp.get_repoid handle) topic_name
          type_name node.pub_listener.topic_cache n.consistent n.fresh n.nonempty)
        refl

  pub remove_sub-add_sub :
      (topic_name type_name : Bytes) (node : Node G)
      → IsNewTo node.sub_listener.topic_cache
      → remove_sub dp handle (add_sub dp handle topic_name type_name node)
        ≡ (true, record node { sub_listener = triggered_twice node.sub_listener })
  unfolding remove_sub add_sub remove_information add_information trigger_graph_guard_condition
  remove_sub-add_sub topic_name type_name node n =
      rw
        (remove_topic-add_topic (dp.get_repoid dp.instance_handle) (dp.get_repoid handle) topic_name
          type_name node.sub_listener.topic_cache n.consistent n.fresh n.nonempty)
        refl
