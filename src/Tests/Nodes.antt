-- ===== src/Tests/Nodes.antt =====
-- A node at concrete inputs: GUIDs, handles and user data are texts, and the text of user data is
-- both the name and the namespace.
use rmw_opendds.Prelude.{◌≡◌, ◌↔◌, refl, ◌+◌, true, false, some, none, ok, [], ◌∷◌, ◌>>=◌, ◌⊎◌, All}
use rmw_opendds.Text.{Bytes, codes}
use rmw_opendds.Order.Strings.{bytes_order}
use rmw_opendds.Names.Prefix.{get_ros_prefix_if_exists}
use rmw_opendds.Ret.{RmwRet, DdsRet, is_dds_ok}
use rmw_opendds.TopicCache.Types.{lists}
use rmw_opendds.Listener.{Listener}
use rmw_opendds.Listener.Queries.{count_topic}
use rmw_opendds.Listener.Queries.Topics.{Shown}
use rmw_opendds.Node.{Node, Participant, get_key, add_pub, count_publishers}
use rmw_opendds.Node.Copy.{Memory, Plenty, NamesTypes}
use rmw_opendds.Node.Keys.{OwnIs, IsOther, FirstIs, get_key_found, get_key_missing}
use rmw_opendds.Node.Graph.{
  get_topic_names_types, get_topic_names_types_iff, count_publishers-add_pub,
}
use rmw_opendds.Tests.Cache.{cache, cache-IsConsistent, find-h}

abbrev participant : Participant Bytes Bytes
participant = record {
  get_repoid = λ h. h;
  instance_handle = codes "p";
  parse_key_value = λ buf key. some buf;
  get_qos = (DdsRet.ok, some (codes "self"));
  get_discovered_participants = (DdsRet.ok, codes "a" ∷ codes "b" ∷ []);
  get_discovered_participant_data = λ h. (DdsRet.ok, some h, h);
}

abbrev memory : Memory
memory = record {
  names_and_types_init = λ n. RmwRet.ok;
  strdup = λ n. true;
  string_array_init = λ n. RmwRet.ok;
}

plenty : Plenty memory
plenty = record { names = λ n. refl; strings = λ n. refl; arrays = λ n. refl }

abbrev listener : Listener Bytes
listener = record { topic_cache = cache; triggers = 0 }

abbrev node : Node Bytes
node = record { pub_listener = listener; sub_listener = listener }

get_key_found_example :
    (get_key participant (codes "b") (codes "b") ≡ (RmwRet.ok, some (codes "b")))
    ↔ (OwnIs participant (codes "b") (codes "b") true × (codes "p" ≡ codes "b"))
      ⊎ (OwnIs participant (codes "b") (codes "b") false
          × ((is_dds_ok participant.get_discovered_participants.0 ≡ true)
              × FirstIs participant
                  (codes "b")
                  (codes "b")
                  (codes "b")
                  participant.get_discovered_participants.1))
get_key_found_example = get_key_found participant (codes "b") (codes "b") (codes "b")

get_key_missing_example :
    (get_key participant (codes "c") (codes "c") ≡ (RmwRet.node_name_non_existent, none)) ↔ (
      OwnIs participant (codes "c") (codes "c") false
      × ((is_dds_ok participant.get_discovered_participants.0 ≡ true)
          × All
              (IsOther participant (codes "c") (codes "c"))
              participant.get_discovered_participants.1))
get_key_missing_example = get_key_missing participant (codes "c") (codes "c")

get_topic_names_types_example :
    (names : NamesTypes) × ((get_topic_names_types memory RmwRet.ok true node
        ≡ ok (RmwRet.ok, names))
      × ((lists (codes "rt/chatter") (codes "T") names ≡ true)
          ↔ Shown true cache (codes "rt/chatter") (codes "T")
            ⊎ Shown true cache (codes "rt/chatter") (codes "T")))
get_topic_names_types_example =
    get_topic_names_types_iff memory node (codes "rt/chatter") (codes "T") plenty cache-IsConsistent
      cache-IsConsistent

count_publishers-add_pub_example :
    count_publishers
      (some (codes "/chatter"))
      (some 0)
      (add_pub participant (codes "h") (codes "rt/chatter") (codes "T") node)
    ≡ (do n ← count_topic (codes "/chatter") listener; ok (RmwRet.ok, some (1 + n)))
unfolding get_ros_prefix_if_exists
count_publishers-add_pub_example =
    count_publishers-add_pub participant (codes "h") (codes "/chatter") (codes "rt/chatter")
      (codes "T") 0 node find-h
