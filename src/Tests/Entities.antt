-- ===== src/Tests/Entities.antt =====
-- A publisher at concrete inputs: everything that DDS makes is a number, and its world counts.
use rmw_opendds.Prelude.{
  ◌>>=◌, if◌then◌else◌, ℕ, ◌+◌, ◌≡◌, ◌⊎◌, undefined, refl, true, false, none, some, [], ◌∷◌, ok,
}
use rmw_opendds.Text.{Bytes, codes, bytes_eq}
use rmw_opendds.Order.Strings.{bytes_order}
use rmw_opendds.Containers.Map
use rmw_opendds.Ret.{RmwRet, DdsRet}
use rmw_opendds.Heap.{Heap, create, construct_at, allocate}
use rmw_opendds.TopicCache.{empty_cache, add_topic}
use rmw_opendds.TopicCache.Consistent.{add_topic-IsConsistent, empty_cache-IsConsistent}
use rmw_opendds.Containers.MultiSet
use rmw_opendds.Order.{same_key}
use rmw_opendds.Node.Undone.{IsNewTo, triggered_twice}
use rmw_opendds.NodeHandles.{from}
use rmw_opendds.Handles.{create_handle, fill, finish, create_initial, initial_at}
use rmw_opendds.Entities.{TypeSupport, QosProfile, Dds, Casts, Entity, initialize}
use rmw_opendds.Entities.Topics.{
  construct_topic, get_callbacks, get_type_support, find_or_create_topic,
}
use rmw_opendds.Names.Mangle.{create_topic_name, create_type_name}
use rmw_opendds.Qos.{get_datawriter_qos, rmw_qos_to_dds_qos}
use rmw_opendds.Identifier.{check_impl_id}
use rmw_opendds.Entities.Miscasts.{IsMiscast}
use rmw_opendds.Entities.Publisher.{construct_publisher, make_publisher, make_writer}
use rmw_opendds.Entities.Calls.{
  with_node, enter_publisher, rmw_create_publisher, rmw_destroy_publisher,
}
use rmw_opendds.Entities.Calls.Creation.{IsCreation, entity_handle}
use rmw_opendds.Entities.Calls.Lifecycle.{
  rmw_create_publisher-IsCreation, rmw_destroy_publisher-rmw_create_publisher,
}
use rmw_opendds.Listener.Queries.{count_topic}
use rmw_opendds.Listener.Queries.Counting.{plain_name}
use rmw_opendds.Participants.Queries.{rmw_count_publishers}
use rmw_opendds.Participants.Queries.Counting.{rmw_count_publishers-rmw_create_publisher}
use rmw_opendds.Tests.Qos.{profile, default}
use rmw_opendds.Tests.Endpoints.{participant, node, dds_node, valid}

abbrev dds : Dds ℕ ℕ ℕ ℕ Bytes ℕ
dds = record {
  has_participant = true;
  register_type = λ name w. (DdsRet.ok, w);
  lookup_topicdescription = λ name w. (false, w);
  find_topic = λ name w. (none, w);
  create_topic = λ name type w. (some w, w + 1);
  create_publisher = λ listener w. (some w, w + 1);
  create_subscriber = λ listener w. (some w, w + 1);
  get_default_qos = λ p w. some default;
  create_datawriter = λ p t q w. (some w, w + 1);
  create_datareader = λ p t q w. (some w, w + 1);
  create_readcondition = λ e w. (some w, w + 1);
  get_instance_handle = λ p. codes "h";
  get_writer_handle = λ e. e;
  get_qos = λ e w. some default;
  new_qos = default;
  build = record { asserts = false; depth_system_default = 0 };
  memory = λ n. true;
}

abbrev casts : Casts ℕ ℕ
casts = record { is_static = λ e. true; set_marshal_skip_serialize = λ e w. w + 1 }

abbrev support : TypeSupport
support = record {
  handle_c = none;
  handle_cpp = some (some (record { message_namespace = codes "m"; message_name = codes "T" }));
}

abbrev pub qos : QosProfile
qos = record { avoid_ros_namespace_conventions = false; qos = profile }

abbrev heap : Heap ℕ
heap = record { next = 4; live = 3 ∷ []; world = 10 }

rmw_create_publisher_example :
    let created =
      rmw_create_publisher participant dds casts
        (some node)
        (some support)
        (some (codes "/chatter"))
        (some qos)
        heap in
    IsCreation (enter_publisher participant dds) node dds_node heap.live created
    ⊎ ((created ≡ undefined) × IsMiscast dds.create_datawriter casts)
rmw_create_publisher_example =
    rmw_create_publisher-IsCreation participant dds casts refl (some support)
      (some (codes "/chatter")) (some qos) heap node dds_node valid

abbrev publisher : Entity ℕ ℕ ℕ ℕ
publisher = record {
  topic = record {
    callbacks = record { message_namespace = codes "m"; message_name = codes "T" };
    name = codes "rt/chatter";
    topic_type = codes "m::dds_::T_";
    topic = 10;
  };
  listener = (6, 0);
  group = 11;
  endpoint = 12;
  extra = 12;
}

abbrev left : Heap ℕ
left = record { next = 7; live = 6 ∷ 5 ∷ 4 ∷ 3 ∷ []; world = 14 }

made :
    rmw_create_publisher participant dds casts
      (some node)
      (some support)
      (some (codes "/chatter"))
      (some qos)
      heap
    ≡ ok (
      some (4, entity_handle 5 publisher),
      with_node (enter_publisher participant dds publisher dds_node) (some node),
      left,
    )
unfolding rmw_create_publisher create_handle fill finish create_initial initial_at allocate create
    construct_at construct_publisher make_publisher make_writer initialize construct_topic
    get_callbacks get_type_support find_or_create_topic create_topic_name create_type_name
    get_datawriter_qos rmw_qos_to_dds_qos from check_impl_id
made = refl

new :
    IsNewTo participant (dds.get_instance_handle publisher.group) dds_node.pub_listener.topic_cache
unfolding add_topic Map.find Map.assign MultiSet.insert same_key
new = record {
  consistent =
      add_topic-IsConsistent (codes "b") (codes "e") (codes "rt/chatter") (codes "T") empty_cache
        empty_cache-IsConsistent;
  fresh = refl;
  nonempty = λ e. cc e;
}

-- The writer is of another class.
miscast :
    rmw_create_publisher participant dds
      (record casts { is_static = λ e. false })
      (some node)
      (some support)
      (some (codes "/chatter"))
      (some qos)
      heap
    ≡ undefined
unfolding rmw_create_publisher create_handle fill finish create_initial initial_at allocate create
    construct_at construct_publisher make_publisher make_writer initialize construct_topic
    get_callbacks get_type_support find_or_create_topic create_topic_name create_type_name
    get_datawriter_qos rmw_qos_to_dds_qos from check_impl_id
miscast = refl

ending_example :
    (final : Heap ℕ) × (rmw_destroy_publisher participant dds
        (with_node (enter_publisher participant dds publisher dds_node) (some node))
        (some (4, entity_handle 5 publisher))
        left
      ≡ ok (
        RmwRet.ok,
        with_node
            (record dds_node { pub_listener = triggered_twice dds_node.pub_listener })
            (some node),
        final,
      ))
    × (final.live ≡ heap.live)
ending_example =
    rmw_destroy_publisher-rmw_create_publisher participant dds casts refl (some support)
      (some (codes "/chatter")) (some qos) heap node dds_node valid 4 5 publisher left
      (with_node (enter_publisher participant dds publisher dds_node) (some node)) made new

counted_example :
    rmw_count_publishers
      (with_node (enter_publisher participant dds publisher dds_node) (some node))
      (some (codes "/chatter"))
      (some 0)
    ≡ (do
      k ← count_topic (codes "/chatter") dds_node.pub_listener
      ok (
        RmwRet.ok,
        some ((if bytes_eq (plain_name publisher.topic.name) (codes "/chatter") then 1 else 0) + k),
      ))
counted_example =
    rmw_count_publishers-rmw_create_publisher participant dds casts refl (some support)
      (some (codes "/chatter")) (some qos) heap node dds_node valid 4 5 publisher left
      (with_node (enter_publisher participant dds publisher dds_node) (some node))
      (codes "/chatter") 0 made new.fresh
