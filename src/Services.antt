-- ===== src/Services.antt =====
-- Services, and the clients and the servers on them: rmw_opendds_cpp/src/Service.cpp,
-- src/DDSClient.cpp and src/DDSServer.cpp. The generated type support and DDS are interfaces. A
-- `_var` that is set to null only gives up a reference.
pub mod Sides
pub mod Registration
pub mod Clients
pub mod Calls
pub mod Servers
pub mod Exchange
use rmw_opendds.Prelude.{
  ℕ, ◌≡◌, List, ◌++◌, Bool, not, ◌||◌, Option, none, some, [], true, false, if◌then◌else◌, is_empty,
  Outcome, ok, ◌>>=◌,
}
use rmw_opendds.Text.{Bytes}
use rmw_opendds.Heap.{Heap}
use rmw_opendds.Ret.{DdsRet, is_dds_ok}
use rmw_opendds.Names.Mangle.{Named, name, runtime_error, create_request_name, create_reply_name}
use rmw_opendds.Qos.{DdsQos, get_datawriter_qos, get_datareader_qos}
use rmw_opendds.Entities.{QosProfile, Dds, conversion_of}
use rmw_opendds.Entities.Topics.{avoid_of}

-- Half of `service_type_support_callbacks_t`, for requesters or for repliers, which are `R`: what
-- makes and destroys one, with `rmw_allocate` and `rmw_free` as its allocator, its reader and its
-- writer.
pub record Half (R P E W : Type 0) : Type 0 where
  pub make : Bytes → Bytes → P → P → Heap W → Option R × Heap W
  pub unmake : R → Heap W → Heap W
  pub get_datareader : R → Option E
  pub get_datawriter : R → Option E

-- What the type support relies on and promises of the allocations: a requester or a replier that is
-- made has the addresses `allocations` of it, one that is not made has none, and the end of one
-- frees its addresses, where they are the latest.
pub record FreesAll {R P E W : Type 0} (half : Half R P E W) (allocations : R → List ℕ)
    : Type 0 where
  pub makes :
      (request reply : Bytes) (publisher subscriber : P) (heap : Heap W) (role : R) (left : Heap W)
      → half.make request reply publisher subscriber heap ≡ (some role, left)
      → left.live ≡ allocations role ++ heap.live
  pub fails :
      (request reply : Bytes) (publisher subscriber : P) (heap left : Heap W)
      → half.make request reply publisher subscriber heap ≡ (none, left)
      → left.live ≡ heap.live
  pub unmakes :
      (role : R) (live : List ℕ) (heap : Heap W)
      → heap.live ≡ allocations role ++ live
      → (half.unmake role heap).live ≡ live

-- `rosidl_service_type_support_t` by what `get_service_typesupport_handle` finds in it for the
-- identifiers of the C and of the C++ package: `data` of the handle.
pub record ServiceSupport (B : Type 0) : Type 0 where
  pub handle_c : Option (Option B)
  pub handle_cpp : Option (Option B)

-- `Service`
pub record Service (B P : Type 0) : Type 0 where
  pub callbacks : B
  pub name : Bytes
  pub request : Bytes
  pub reply : Bytes
  pub publisher : P
  pub subscriber : P

-- `Service::get_type_support`, and `data` of what it finds; `none` where it throws.
unfoldable pub get_service_support : {B : Type 0} → Option (ServiceSupport B) → Option (Option B)
get_service_support none = none
get_service_support (some sts) = elim (sts.handle_c) [ some ts ↦ some ts | none ↦ sts.handle_cpp ]

-- `Service::get_callbacks`
unfoldable pub get_service_callbacks : {B : Type 0} → Option (ServiceSupport B) → Option B
get_service_callbacks sts = elim (get_service_support sts) [ none ↦ none | some cb ↦ cb ]

-- What else the constructor calls: the defaults that it sets.
pub record Defaults (P W : Type 0) : Type 0 where
  pub set_default_datawriter_qos : P → DdsQos → W → DdsRet × W
  pub set_default_datareader_qos : P → DdsQos → W → DdsRet × W

-- The name of the service; null is the empty text.
abbrev name_or_empty : Option Bytes → Bytes
name_or_empty none = []
name_or_empty (some service_name) = service_name

module _ {B T P E C Handle W : Type 0} (dds : Dds T P E C Handle W) (defaults : Defaults P W) where
  -- The constructor's `try` from `create_subscriber` on. A null listener is the address 0.
  unfoldable pub make_service_subscriber :
      B → Bytes → Bytes → Bytes → P → QosProfile → W → Outcome (Option (Service B P) × W)
  make_service_subscriber cb service_name request reply publisher rmw_qos world =
      let (made, created) = dds.create_subscriber 0 world in
      elim made [
        | none ↦ ok (none, created)
        | some subscriber ↦ do
          qos ← conversion_of (
              get_datareader_qos dds.build (dds.get_default_qos subscriber created) rmw_qos.qos
                dds.new_qos)
          elim qos [
            | none ↦ ok (none, created)
            | some reader_qos ↦
                let (code, set) =
                  defaults.set_default_datareader_qos subscriber reader_qos created in
                ok (
                  if is_dds_ok code
                  then (
                    some (record {
                      callbacks = cb;
                      name = service_name;
                      request = request;
                      reply = reply;
                      publisher = publisher;
                      subscriber = subscriber;
                    }),
                    set,
                  )
                  else (none, set))
          ]
      ]

  -- The constructor's `try`, of a service with a name and a participant that are checked.
  unfoldable pub make_service_publisher :
      B → Bytes → Bytes → Bytes → QosProfile → W → Outcome (Option (Service B P) × W)
  unfolding make_service_subscriber
  make_service_publisher cb service_name request reply rmw_qos world =
      let (made, created) = dds.create_publisher 0 world in
      elim made [
        | none ↦ ok (none, created)
        | some publisher ↦ do
          qos ← conversion_of (
              get_datawriter_qos dds.build (dds.get_default_qos publisher created) rmw_qos.qos
                dds.new_qos)
          elim qos [
            | none ↦ ok (none, created)
            | some writer_qos ↦
                let (code, set) =
                  defaults.set_default_datawriter_qos publisher writer_qos created in
                elim (is_dds_ok code) [
                  | true ↦
                      make_service_subscriber cb service_name request reply publisher rmw_qos set
                  | false ↦ ok (none, set)
                ]
          ]
      ]

  unfoldable pub make_service :
      B → Bytes → Named → Named → Option QosProfile → W → Outcome (Option (Service B P) × W)
  unfolding make_service_publisher
  make_service cb service_name (name request) (name reply) (some rmw_qos) world =
      if is_empty service_name || not dds.has_participant
      then ok (none, world)
      else make_service_publisher cb service_name request reply rmw_qos world
  make_service cb service_name request reply rmw_qos world = ok (none, world)

  -- `Service::Service`; `none` where it throws.
  unfoldable pub construct_service :
      Option (ServiceSupport B)
      → Option Bytes
      → Option QosProfile
      → W
      → Outcome (Option (Service B P) × W)
  unfolding make_service
  construct_service ts service_name rmw_qos world = elim (get_service_callbacks ts) [
    | none ↦ ok (none, world)
    | some cb ↦
        let n = name_or_empty service_name in
        make_service cb n (create_request_name n (avoid_of rmw_qos))
          (create_reply_name n (avoid_of rmw_qos)) rmw_qos world
  ]
