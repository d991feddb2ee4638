-- ===== src/Tests/Services.antt =====
-- A client and a server at concrete inputs: a reader or a writer is its handle.
use rmw_opendds.Prelude.{
  sym, ap, ◌∙◌, some-injective, List, Option, ℕ, ◌+◌, ◌≡◌, ◌↔◌, refl, true, false, some, none, [],
  ◌∷◌, ok,
}
use rmw_opendds.Text.{Bytes, codes}
use rmw_opendds.Order.{same_key}
use rmw_opendds.Order.Strings.{bytes_order}
use rmw_opendds.Containers.Map
use rmw_opendds.Containers.MultiSet
use rmw_opendds.Identifier.{opendds_identifier, check_impl_id}
use rmw_opendds.Ret.{RmwRet, DdsRet}
use rmw_opendds.Heap.{Heap, allocate, create, construct_at, free}
use rmw_opendds.TopicCache.{empty_cache, add_topic}
use rmw_opendds.TopicCache.Consistent.{add_topic-IsConsistent, empty_cache-IsConsistent}
use rmw_opendds.Node.{Node, add_pub, add_sub, remove_pub, remove_sub}
use rmw_opendds.Node.Undone.{IsNewTo, triggered_twice}
use rmw_opendds.NodeHandles.{RmwNode, from}
use rmw_opendds.Handles
use rmw_opendds.Handles.{RmwHandle}
use rmw_opendds.Handles.{create_initial, initial_at}
use rmw_opendds.Entities.{Dds}
use rmw_opendds.Services.{
  Half, FreesAll, ServiceSupport, Defaults, construct_service, get_service_callbacks,
  get_service_support,
}
use rmw_opendds.Services.Calls.{construct_on}
use rmw_opendds.Services.Sides.{
  Ends, Side, is_server_available, add_to, remove_from, enter_ends, enter_writer,
}
use rmw_opendds.Services.Calls.{rmw_destroy_service, destroy_side}
use rmw_opendds.Services.Exchange.{Transfers, rmw_send_request, rmw_send_response, take_transfer}
use rmw_opendds.Services.Servers.{
  finish_service, construct_server, fill_service, rmw_create_service,
}
use rmw_opendds.Services.Registration.{
  IsKept, IsMatched, IsHalfDone, add_to-IsHalfDone, is_server_available-IsMatched,
  remove_from-add_to, rmw_destroy_service-IsKept,
}
use rmw_opendds.Tests.Qos.{default}
use rmw_opendds.Tests.Endpoints.{participant, dds_node, node}

abbrev without_first : List ℕ → List ℕ
without_first [] = []
without_first (a ∷ live) = live

-- A requester or a replier is its address.
abbrev pub half : Half ℕ ℕ Bytes ℕ
half = record {
  make = λ request reply p s heap. (
    some heap.next,
    record heap { next = heap.next + 1; live = heap.next ∷ heap.live; world = heap.world + 1 },
  );
  unmake = λ r heap. record heap { live = without_first heap.live; world = heap.world + 100 };
  get_datareader = λ r. some (codes "r");
  get_datawriter = λ r. some (codes "w");
}

pub half-FreesAll : FreesAll half (λ role. role ∷ [])
half-FreesAll = record {
  makes = λ request reply p s heap role left e.
      ap (λ x. x.1.live) (sym e) ∙ ap (λ x. x ∷ heap.live) (some-injective (ap (λ x. x.0) e));
  fails = λ request reply p s heap left e. cc (ap (λ x. x.0) e);
  unmakes = λ role live heap h. ap without_first h;
}

abbrev side : Side (Unit {0}) ℕ ℕ Bytes ℕ
side = record {
  service = record {
    callbacks = tt;
    name = codes "/add";
    request = codes "rq/addRequest";
    reply = codes "rr/addReply";
    publisher = 10;
    subscriber = 11;
  };
  role = 12;
  reader = codes "r";
  read_condition = 13;
  writer = codes "w";
}

abbrev pub ends : Ends Bytes ℕ Bytes ℕ
ends = record {
  get_topicdescription = λ e. some (some (codes "rr/addReply"), some (codes "A"));
  get_topic = λ e. some (some (codes "rq/addRequest"), some (codes "A"));
  get_instance_handle = λ e. e;
  create_readcondition = λ e w. (some w, w + 1);
  delete_readcondition = λ e c w. (DdsRet.ok, w + 10);
  get_publication_matched_status = λ e w. (DdsRet.ok, 2);
  get_subscription_matched_status = λ e w. (DdsRet.ok, 1);
}

available_example : is_server_available ends side 14 ≡ true ↔ IsMatched ends side 14
available_example = is_server_available-IsMatched ends side 14

pub new_reader : IsNewTo participant (codes "r") dds_node.sub_listener.topic_cache
unfolding Map.find
new_reader = record { consistent = empty_cache-IsConsistent; fresh = refl; nonempty = λ e. cc e }

pub new_writer : IsNewTo participant (codes "w") dds_node.pub_listener.topic_cache
unfolding add_topic Map.find Map.assign MultiSet.insert same_key
new_writer = record {
  consistent =
      add_topic-IsConsistent (codes "b") (codes "e") (codes "rt/chatter") (codes "T") empty_cache
        empty_cache-IsConsistent;
  fresh = refl;
  nonempty = λ e. cc e;
}

abbrev entered : Node Bytes
entered =
    add_pub participant (codes "w") (codes "rq/addRequest") (codes "A")
      (add_sub participant (codes "r") (codes "rr/addReply") (codes "A") dds_node)

added : add_to participant ends side dds_node ≡ (true, entered)
unfolding add_to enter_ends enter_writer
added = refl

leaving_example : remove_from participant ends side entered ≡ (
  true,
  record {
    pub_listener = triggered_twice dds_node.pub_listener;
    sub_listener = triggered_twice dds_node.sub_listener;
  },
)
leaving_example =
    remove_from-add_to participant ends side dds_node entered new_reader new_writer added

abbrev service : ℕ × RmwHandle (Side (Unit {0}) ℕ ℕ Bytes ℕ)
service = (
  4,
  record {
    implementation_identifier = opendds_identifier;
    handle_data = some (5, side);
    name = some (codes "/add");
  },
)

abbrev heap : Heap ℕ
heap = record { next = 6; live = 5 ∷ 4 ∷ []; world = 14 }

abbrev entered_node : RmwNode (Node Bytes)
entered_node = record node { node_data = some entered }

kept_example :
    IsKept heap (rmw_destroy_service participant ends (some entered_node) (some service) heap)
kept_example = rmw_destroy_service-IsKept participant ends (some entered_node) (some service) heap

ended :
    rmw_destroy_service participant ends (some entered_node) (some service) heap
    ≡ ok (
      RmwRet.ok,
      some (record node { node_data = some (remove_from participant ends side entered).1 }),
      heap,
    )
unfolding rmw_destroy_service destroy_side remove_from remove_pub remove_sub Handles.from from
    check_impl_id
ended = refl

-- The writer's topic has no name of its type.
abbrev nameless : Ends Bytes ℕ Bytes ℕ
nameless = record ends { get_topic = λ e. some (some (codes "rq/addRequest"), none) }

abbrev half_done : Node Bytes
half_done = add_sub participant (codes "r") (codes "rr/addReply") (codes "A") dds_node

thrown : add_to participant nameless side dds_node ≡ (false, half_done)
unfolding add_to enter_ends enter_writer
thrown = refl

half_done_example :
    IsHalfDone participant
      (codes "r")
      (nameless.get_topicdescription side.reader)
      dds_node
      half_done
half_done_example = add_to-IsHalfDone participant nameless side dds_node half_done thrown

abbrev pub dds : Dds ℕ ℕ Bytes ℕ Bytes ℕ
dds = record {
  has_participant = true;
  register_type = λ name w. (DdsRet.ok, w);
  lookup_topicdescription = λ name w. (false, w);
  find_topic = λ name w. (none, w);
  create_topic = λ name type w. (some w, w + 1);
  create_publisher = λ listener w. (some w, w + 1);
  create_subscriber = λ listener w. (some w, w + 1);
  get_default_qos = λ p w. some default;
  create_datawriter = λ p t q w. (some (codes "w"), w + 1);
  create_datareader = λ p t q w. (some (codes "r"), w + 1);
  create_readcondition = λ e w. (some w, w + 1);
  get_instance_handle = λ p. codes "h";
  get_writer_handle = λ e. 0;
  get_qos = λ e w. some default;
  new_qos = default;
  build = record { asserts = false; depth_system_default = 0 };
  memory = λ n. true;
}

abbrev pub defaults : Defaults ℕ ℕ
defaults = record {
  set_default_datawriter_qos = λ p q w. (DdsRet.ok, w);
  set_default_datareader_qos = λ p q w. (DdsRet.ok, w);
}

abbrev transfers : Unit {0} → Transfers ℕ Bytes Bytes ℕ
transfers callbacks = record {
  send_request = λ r m w. (7, w + 1);
  send_response = λ r h m w. (false, w + 1);
  take = λ r h m w. (false, codes "h", m, w + 1);
}

sent :
    rmw_send_request transfers (some service) (some (codes "2+2")) (some 0) 14
    ≡ (RmwRet.ok, some 7, 15)
unfolding rmw_send_request Handles.from check_impl_id
sent = refl

unanswered :
    rmw_send_response transfers (some service) (some (codes "h")) (some (codes "4")) 14
    ≡ (RmwRet.error, 15)
unfolding rmw_send_response Handles.from check_impl_id
unanswered = refl

not_taken :
    take_transfer transfers (some service) (some []) (some (codes "old")) (some true) 14
    ≡ (RmwRet.ok, some (codes "h"), some (codes "old"), some false, 15)
unfolding take_transfer Handles.from check_impl_id
not_taken = refl

abbrev no_support : Option (ServiceSupport (Unit {0}))
no_support = none

-- No server is made without type support, and the handle stays.
leaked :
    rmw_create_service participant dds defaults
      (λ callbacks. half)
      nameless
      (some entered_node)
      no_support
      (some (codes "/add"))
      none
      heap
    ≡ ok (none, some entered_node, record { next = 8; live = 6 ∷ 5 ∷ 4 ∷ []; world = 14 })
unfolding rmw_create_service fill_service finish_service construct_server construct_service
    get_service_callbacks get_service_support construct_on create_initial initial_at allocate create
    construct_at free from check_impl_id
leaked = refl
