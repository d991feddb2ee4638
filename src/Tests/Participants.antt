-- ===== src/Tests/Participants.antt =====
-- A node at concrete inputs: everything that DDS makes is a number, and its world counts.
use rmw_opendds.Prelude.{
  ℕ, ◌+◌, ◌≡◌, ◌≢◌, inl, refl, true, none, some, [], ◌∷◌, ◌++◌, if◌then◌else◌, map, false, ok,
  undefined, arith,
}
use rmw_opendds.Text.{Bytes, codes}
use rmw_opendds.Identifier.{opendds_identifier, check_impl_id}
use rmw_opendds.Ret.{RmwRet, DdsRet}
use rmw_opendds.Heap.{Heap, create, construct_at, allocate, destroy, free}
use rmw_opendds.Init.{Context, shutdown_at, shutdown, destruct_impl}
use rmw_opendds.Node.{validate_name_namespace}
use rmw_opendds.Structs.{create_struct, struct_at, fill_struct}
use rmw_opendds.GuardConditions.{
  GuardCondition, rmw_create_guard_condition, construct_guard_condition,
  rmw_trigger_guard_condition, is_in, set, from,
}
use rmw_opendds.Participants.{
  Factory, OpenDdsNode, new_listener, join, with_participant, set_up, set_listeners, set_user_data,
  user_data_of, fill_user_data, snprintf,
}
use rmw_opendds.Participants.Transport.{
  Registry, configure_transport, config_name, inst_name, str_domain_id, to_string, digits,
}
use rmw_opendds.Participants.Transport.Unique.{transport_names_differ}
use rmw_opendds.Participants.UserData.{user_data_of-eq}
use rmw_opendds.Participants.Construct.{construct_node}
use rmw_opendds.Participants.Calls.{node_at, rmw_create_node, rmw_destroy_node}
use rmw_opendds.Participants.Calls.Lifecycle.{
  IsCreation, rmw_create_node-IsCreation, rmw_destroy_node-rmw_create_node,
}
use rmw_opendds.Participants.Calls.Shutdown.{rmw_destroy_node-shutdown_at}
use rmw_opendds.NodeHandles
use rmw_opendds.Node.Participants.{values_of}
use rmw_opendds.Node.Participants.Rows.{all_complete, row_of}
use rmw_opendds.Participants.Queries.{rmw_get_node_names, rmw_get_node_names_with_enclaves}
use rmw_opendds.Participants.Queries.Names.{rmw_get_node_names-eq}
use rmw_opendds.Tests.Endpoints.{participant, names_memory, has_memory}
use rmw_opendds.Tests.Contexts.{rmw, initialized}

abbrev factory : Factory (Unit {0}) ℕ ℕ ℕ
factory = record {
  memory = λ n. true;
  get_default_participant_qos = λ w. some (record { user_data = []; others = tt });
  set_default_participant_qos = λ q w. (DdsRet.ok, w + 1);
  has_rtps_discovery = λ d w. true;
  use_xtypes = λ d w. w;
  create_participant = λ d w. (some w, w + 1);
  is_impl = λ p. true;
  get_builtin_subscriber = λ p w. some w;
  lookup_publications = λ s w. true;
  lookup_subscriptions = λ s w. true;
  set_publication_listener = λ s l w. w + 1;
  set_subscription_listener = λ s l w. w + 1;
  delete_contained_entities = λ p w. (DdsRet.ok, w + 10);
  delete_participant = λ p w. (DdsRet.ok, w + 100);
}

abbrev registry : Registry ℕ ℕ ℕ ℕ
registry = record {
  count = λ w. w;
  increment = λ w. w + 1;
  get_inst = λ n w. none;
  create_inst = λ n t w. (some w, w + 1);
  get_config = λ n w. none;
  create_config = λ n w. (some w, w + 1);
  add_instance = λ c i w. w + 1;
  bind_config = λ c p w. (true, w + 1);
}

abbrev pub context : Context ℕ
context = initialized.context

abbrev heap : Heap ℕ
heap = record { next = 7; live = 3 ∷ []; world = 0 }

abbrev guard_condition : GuardCondition
guard_condition = record {
  implementation_identifier = opendds_identifier;
  struct = record { address = 9; object = some (10, record { gc = 11 }) };
}

abbrev dds_node : OpenDdsNode Bytes ℕ
dds_node = record {
  name = codes "talker";
  namespace = codes "/";
  gc = guard_condition;
  pub_listener = (12, new_listener);
  sub_listener = (13, new_listener);
  dp = 1;
}

abbrev left : Heap ℕ
left = record { next = 14; live = 13 ∷ 12 ∷ 11 ∷ 10 ∷ 9 ∷ 8 ∷ 7 ∷ 3 ∷ []; world = 9 }

made :
    rmw_create_node factory registry Bytes
      (some context)
      (some (codes "talker"))
      (some (codes "/"))
      heap
    ≡ ok (some (node_at context 7 (8, dds_node)), left)
unfolding rmw_create_node validate_name_namespace check_impl_id create_struct struct_at fill_struct
    allocate create construct_at construct_node set_user_data user_data_of fill_user_data snprintf
    rmw_create_guard_condition construct_guard_condition join with_participant set_up
    configure_transport set_listeners
made = refl

rmw_create_node_example :
    IsCreation {G = Bytes} context
      (3 ∷ [])
      (rmw_create_node factory registry Bytes (some context) (some []) (some (codes "/")) heap)
unfolding check_impl_id
rmw_create_node_example =
    rmw_create_node-IsCreation factory registry Bytes context (λ d w. refl) refl refl (some [])
      (some (codes "/")) heap

node_end_example :
    rmw_destroy_node factory (some context) (some (node_at context 7 (8, dds_node))) left
    ≡ undefined
unfolding check_impl_id
node_end_example =
    rmw_destroy_node-rmw_create_node factory registry Bytes context (λ d w. refl) refl refl
      (some (codes "talker")) (some (codes "/")) (node_at context 7 (8, dds_node)) heap left context
      left made refl

node_names_example :
    (rmw_get_node_names participant names_memory RmwRet.ok RmwRet.ok
        (some (node_at context 7 (8, dds_node)).1)
      ≡ (if all_complete participant participant.get_discovered_participants.1
          then ok (
            RmwRet.ok,
            some (
                record {
                  name = some (codes "talker");
                  namespace = some (codes "/");
                  enclave = none;
                }
                ∷ map
                    (λ handle. row_of false (values_of participant handle))
                    participant.get_discovered_participants.1),
          )
          else undefined))
    × (rmw_get_node_names_with_enclaves participant names_memory RmwRet.ok RmwRet.ok
          (some (node_at context 7 (8, dds_node)).1)
          RmwRet.ok
        ≡ undefined)
unfolding NodeHandles.from check_impl_id
node_names_example =
    rmw_get_node_names-eq participant names_memory has_memory
      (some (node_at context 7 (8, dds_node)).1) (8, dds_node) refl refl

abbrev shut : Context ℕ
shut = record context { impl = none }

shut_down :
    shutdown_at rmw context initialized.heap
    ≡ ok (
      RmwRet.ok,
      shut,
      record { next = 7; live = 3 ∷ []; world = record { discoveries = 1; shutdowns = 1 } },
    )
unfolding shutdown_at shutdown destroy destruct_impl free check_impl_id
shut_down = refl

shutdown_example :
    rmw_destroy_node factory (some shut) (some (node_at context 7 (8, dds_node))) left
    ≡ ok (RmwRet.error, left)
shutdown_example =
    rmw_destroy_node-shutdown_at rmw factory context shut initialized.heap _
      (node_at context 7 (8, dds_node)) left shut_down refl

-- A node on such a context is not refused either.
undefined_without_impl :
    rmw_create_node factory registry Bytes
      (some shut)
      (some (codes "talker"))
      (some (codes "/"))
      heap
    ≡ undefined
unfolding rmw_create_node validate_name_namespace check_impl_id create_struct struct_at allocate
    create construct_at construct_node
undefined_without_impl = refl

user_data_example :
    user_data_of (codes "talker") (codes "/") ≡ some (codes "name=talker;namespace=/;" ++ (0 ∷ []))
user_data_example = user_data_of-eq (codes "talker") (codes "/") (omega arith)

transport_names_example : (config_name 4 27 ≢ config_name 42 7) × (inst_name 4 27 ≢ inst_name 42 7)
transport_names_example = transport_names_differ 4 27 42 7 (inl (λ e. cc e))

names : (config_name 42 7 ≡ codes "cfg42_7") × (inst_name 0 10 ≡ codes "rtps0_10")
unfolding config_name inst_name str_domain_id to_string digits
names = (refl, refl)

triggered :
    rmw_trigger_guard_condition (λ c v w. (DdsRet.ok, w + c)) (some guard_condition) 5
    ≡ (RmwRet.ok, 16)
unfolding rmw_trigger_guard_condition from set check_impl_id
triggered = refl

found : is_in (record { gc = 11 }) (3 ∷ 11 ∷ []) ≡ true
unfolding is_in
found = refl
