-- ===== src/Tests/Clients.antt =====
-- A client from its creation to its end, at concrete inputs.
use rmw_opendds.Prelude.{Option, ℕ, ◌≡◌, refl, some, none, [], ◌∷◌, ok}
use rmw_opendds.Text.{Bytes, codes}
use rmw_opendds.Order.Strings.{bytes_order}
use rmw_opendds.Identifier.{check_impl_id}
use rmw_opendds.Ret.{RmwRet}
use rmw_opendds.Heap.{Heap, allocate, create, construct_at}
use rmw_opendds.Node.Undone.{triggered_twice}
use rmw_opendds.NodeHandles.{from}
use rmw_opendds.Handles.{create_handle, fill, finish, create_initial, initial_at}
use rmw_opendds.Handles.Balance.{handle_of}
use rmw_opendds.Names.Mangle.{create_request_name, create_reply_name}
use rmw_opendds.Qos.{get_datawriter_qos, get_datareader_qos, rmw_qos_to_dds_qos}
use rmw_opendds.Entities.Calls.{with_node}
use rmw_opendds.Services.{
  Half, ServiceSupport, construct_service, get_service_callbacks, get_service_support, make_service,
  make_service_publisher, make_service_subscriber,
}
use rmw_opendds.Services.Sides.{Side, make_side, make_ends, add_to, enter_ends, enter_writer}
use rmw_opendds.Services.Calls.{
  construct_on, construct_client, service_name_of, rmw_create_client, rmw_destroy_client,
}
use rmw_opendds.Services.Clients.{owned}
use rmw_opendds.Services.Clients.Ending.{
  IsAccounted, rmw_create_client-IsAccounted, rmw_destroy_client-rmw_create_client,
}
use rmw_opendds.Tests.Endpoints.{participant, dds_node, node, valid}
use rmw_opendds.Tests.Entities.{qos}
use rmw_opendds.Tests.Services.{half, half-FreesAll, ends, dds, defaults, new_reader, new_writer}

abbrev requesters : Unit {0} → Half ℕ ℕ Bytes ℕ
requesters callbacks = half

abbrev support : Option (ServiceSupport (Unit {0}))
support = some (record { handle_c = none; handle_cpp = some (some tt) })

abbrev heap : Heap ℕ
heap = record { next = 4; live = 3 ∷ []; world = 10 }

abbrev client : Side (Unit {0}) ℕ ℕ Bytes ℕ
client = record {
  service = record {
    callbacks = tt;
    name = codes "/add";
    request = codes "rq/addRequest";
    reply = codes "rr/addReply";
    publisher = 10;
    subscriber = 11;
  };
  role = 6;
  reader = codes "r";
  read_condition = 13;
  writer = codes "w";
}

abbrev left : Heap ℕ
left = record { next = 7; live = 6 ∷ 5 ∷ 4 ∷ 3 ∷ []; world = 14 }

rmw_create_client_example :
    IsAccounted service_name_of
      (add_to participant ends)
      (owned (λ role. role ∷ []))
      node
      dds_node
      heap.live
      (rmw_create_client participant dds defaults requesters ends
        (some node)
        support
        (some (codes "/add"))
        (some qos)
        heap)
rmw_create_client_example =
    rmw_create_client-IsAccounted participant dds defaults requesters ends (λ role. role ∷ [])
      (λ callbacks. half-FreesAll) refl support (some (codes "/add")) (some qos) heap node dds_node
      valid

made :
    rmw_create_client participant dds defaults requesters ends
      (some node)
      support
      (some (codes "/add"))
      (some qos)
      heap
    ≡ ok (
      some (4, handle_of service_name_of 5 client),
      with_node (add_to participant ends client dds_node).1 (some node),
      left,
    )
unfolding rmw_create_client create_handle fill finish create_initial initial_at allocate create
    construct_at construct_client construct_on construct_service get_service_callbacks
    get_service_support make_service make_service_publisher make_service_subscriber
    create_request_name create_reply_name get_datawriter_qos get_datareader_qos rmw_qos_to_dds_qos
    make_side make_ends add_to enter_ends enter_writer from check_impl_id
made = refl

rmw_destroy_client_example :
    (final : Heap ℕ) × (rmw_destroy_client participant ends requesters
        (with_node (add_to participant ends client dds_node).1 (some node))
        (some (4, handle_of service_name_of 5 client))
        left
      ≡ ok (
        RmwRet.ok,
        with_node
            (record {
              pub_listener = triggered_twice dds_node.pub_listener;
              sub_listener = triggered_twice dds_node.sub_listener;
            })
            (some node),
        final,
      ))
    × (final.live ≡ heap.live)
rmw_destroy_client_example =
    rmw_destroy_client-rmw_create_client participant dds defaults requesters ends
      (λ role. role ∷ []) (λ callbacks. half-FreesAll) refl support (some (codes "/add")) (some qos)
      heap node dds_node valid 4 5 client left
      (with_node (add_to participant ends client dds_node).1 (some node)) made new_reader new_writer
