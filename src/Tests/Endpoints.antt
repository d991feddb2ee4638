-- ===== src/Tests/Endpoints.antt =====
-- The endpoints of a topic, and the names of the participants, at concrete inputs.
use rmw_opendds.Prelude.{◌≡◌, refl, true, none, some, List, [], ◌∷◌, ok}
use rmw_opendds.Text.{Bytes, codes}
use rmw_opendds.Order.Strings.{bytes_order}
use rmw_opendds.Identifier.{opendds_identifier, check_impl_id}
use rmw_opendds.Ret.{RmwRet, DdsRet}
use rmw_opendds.TopicCache.{TopicInfo}
use rmw_opendds.Listener.Queries.{fill_topic_endpoint_infos, endpoint_infos}
use rmw_opendds.Node.{Node, Participant}
use rmw_opendds.Node.Participants.{NamesMemory}
use rmw_opendds.Node.Participants.Rows.{HasMemory}
use rmw_opendds.NodeHandles.{RmwNode, from}
use rmw_opendds.Endpoints.{
  EndpointInfo, InfoCalls, get_info_by_topic, get_topic_fqdns, target, validate_params, get_info,
  fill_array, set_infos, fill_fqdns, add_discovered_names, add_name, set_rmw_topic_endpoint_info,
}
use rmw_opendds.Endpoints.Infos.{
  Succeeds, Pointwise, Describes, names_of, endpoints_of, get_info_by_topic_lists,
}
use rmw_opendds.Endpoints.Failures.{get_info_by_topic_failed}

abbrev pub talker : TopicInfo Bytes
talker = record {
  topic_name = codes "rt/chatter";
  topic_type = codes "T";
  participant_guid = codes "b";
  endpoint_guid = codes "e";
}

abbrev pub dds_node : Node Bytes
dds_node = record {
  pub_listener = record {
    topic_cache = record {
      endpoint_guid_to_info = (codes "e", talker) ∷ [];
      participant_to_endpoint_guids = (codes "b", codes "e" ∷ []) ∷ [];
    };
    triggers = 0;
  };
  sub_listener = record {
    topic_cache = record { endpoint_guid_to_info = []; participant_to_endpoint_guids = [] };
    triggers = 0;
  };
}

abbrev pub node : RmwNode (Node Bytes)
node = record {
  implementation_identifier = opendds_identifier;
  node_data = some dds_node;
  name = some (codes "self");
  namespace = some (codes "/");
  context = none;
}

-- The text of user data is the name and the namespace.
abbrev pub participant : Participant Bytes Bytes
participant = record {
  get_repoid = λ h. h;
  instance_handle = codes "p";
  parse_key_value = λ buf key. some buf;
  get_qos = (DdsRet.ok, some (codes "self"));
  get_discovered_participants = (DdsRet.ok, codes "a" ∷ codes "b" ∷ []);
  get_discovered_participant_data = λ h. (DdsRet.ok, some h, h);
}

abbrev calls : InfoCalls Bytes
calls = record {
  set_endpoint_type = λ i. RmwRet.ok;
  set_gid = λ i. RmwRet.ok;
  set_topic_type = λ i. RmwRet.ok;
  set_node_name = λ i. RmwRet.ok;
  set_node_namespace = λ i. RmwRet.ok;
  array_check_zero = λ array. RmwRet.ok;
  array_init_with_size = λ n. RmwRet.ok;
  array_fini = λ array. (RmwRet.ok, []);
}

succeeds : Succeeds calls
succeeds = record {
  types = λ i. refl;
  gids = λ i. refl;
  topic_types = λ i. refl;
  node_names = λ i. refl;
  node_namespaces = λ i. refl;
  zero = λ array. refl;
  inits = λ n. refl;
}

pub valid : from (some node) ≡ some dds_node
unfolding from check_impl_id
valid = refl

get_info_by_topic_lists_example :
    (filled : List (EndpointInfo Bytes)) × (get_info_by_topic calls participant
        (some node)
        true
        (some (codes "rt/chatter"))
        true
        true
        (some [])
      ≡ ok (RmwRet.ok, some filled))
    × Pointwise
        (Describes true true (names_of participant (codes "self") (codes "/")))
        (endpoints_of
          (get_topic_fqdns (codes "rt/chatter") true)
          true
          dds_node.pub_listener.topic_cache.endpoint_guid_to_info)
        filled
unfolding get_topic_fqdns target
get_info_by_topic_lists_example =
    get_info_by_topic_lists calls participant node dds_node (codes "rt/chatter") (codes "self")
      (codes "/") true true [] succeeds valid refl refl refl (refl, (refl, tt)) ((λ e. cc e), tt)

-- The second setter fails.
abbrev failing : InfoCalls Bytes
failing = record calls { set_gid = λ i. RmwRet.error }

failing_run :
    get_info_by_topic failing participant
      (some node)
      true
      (some (codes "rt/chatter"))
      true
      true
      (some [])
    ≡ ok (RmwRet.error, some [])
unfolding get_info_by_topic validate_params get_info fill_array set_infos fill_fqdns
    add_discovered_names add_name get_topic_fqdns target from check_impl_id
    fill_topic_endpoint_infos endpoint_infos set_rmw_topic_endpoint_info
failing_run = refl

abbrev no_infos : List (EndpointInfo Bytes)
no_infos = []

get_info_by_topic_failed_example : no_infos ≡ []
get_info_by_topic_failed_example =
    get_info_by_topic_failed failing (λ xs. refl) participant (some node) true
      (some (codes "rt/chatter")) true true RmwRet.error [] failing_run (λ e. cc e)

abbrev pub names_memory : NamesMemory
names_memory = record { string_array_init = λ c n. true; strdup = λ c i. true }

pub has_memory : HasMemory names_memory
has_memory = record { arrays = λ c n. refl; copies = λ c i. refl }
