-- ===== src/Services/Clients.antt =====
-- The constructors of clients (rmw_opendds_cpp/src/Service.cpp and src/DDSClient.cpp): they return,
-- and leave on the heap what a client owns.
pub mod Ending
use rmw_opendds.Prelude.{
  ℕ, ◌≡◌, refl, ap, sym, ◌∙◌, Bool, true, false, Option, none, some, List, [], ◌∷◌, ◌++◌, Outcome,
  ok, ◌>>=◌, Returns, ok_of_Returns, Option-cases, Bool-cases, not, is_empty, ◌||◌, inl, inr,
}
use rmw_opendds.Text.{Bytes}
use rmw_opendds.Ret.{is_dds_ok}
use rmw_opendds.Heap.{Heap}
use rmw_opendds.Qos.{get_datawriter_qos, get_datareader_qos}
use rmw_opendds.Qos.Aborts.{get_datawriter_qos-not_aborted, get_datareader_qos-not_aborted}
use rmw_opendds.Entities.{QosProfile, Dds}
use rmw_opendds.Entities.Tidy.{conversion_cases}
use rmw_opendds.Order.{Order}
use rmw_opendds.Node.{Node, Participant}
use rmw_opendds.Handles.Balance.{LeavesOwned, IsTidy}
use rmw_opendds.Services.Sides.{Ends, Side, make_side, make_ends, cleanup_side}
use rmw_opendds.Services.Calls.{construct_on, construct_client, destruct_side}
use rmw_opendds.Names.Mangle.{Named, name, runtime_error}
use rmw_opendds.Services.{
  Half, FreesAll, Defaults, Service, ServiceSupport, make_service_subscriber,
  make_service_publisher, make_service, construct_service, get_service_callbacks,
}

branch-Returns :
    {A : Type 0} (b : Bool) (x y : Outcome A)
    → Returns x
    → Returns y
    → Returns (elim b [ true ↦ x | false ↦ y ])
branch-Returns true x y h k = h
branch-Returns false x y h k = k

module _ {B T P E C Handle W : Type 0} (dds : Dds T P E C Handle W) (defaults : Defaults P W)
    (asserts : dds.build.asserts ≡ false) where
  make_service_subscriber-Returns :
      (cb : B) (service_name request reply : Bytes) (publisher : P) (rmw_qos : QosProfile)
      (world : W)
      → Returns (
          make_service_subscriber dds defaults cb service_name request reply publisher rmw_qos
            world)
  unfolding make_service_subscriber
  make_service_subscriber-Returns cb service_name request reply publisher rmw_qos world =
      let made = dds.create_subscriber 0 world in
      elim (Option-cases made.0) [
        | inl e ↦ rw (make_service_subscriber, e) refl
        | inr (subscriber, e) ↦
            elim (conversion_cases
              (get_datareader_qos dds.build (dds.get_default_qos subscriber made.1) rmw_qos.qos
                dds.new_qos)
              (get_datareader_qos-not_aborted dds.build _ rmw_qos.qos dds.new_qos asserts)) [
                | inl f ↦ rw (make_service_subscriber, e, f) refl
                | inr (q, f) ↦ rw (make_service_subscriber, e, f) refl
              ]
      ]

  make_service_publisher-Returns :
      (cb : B) (service_name request reply : Bytes) (rmw_qos : QosProfile) (world : W)
      → Returns (make_service_publisher dds defaults cb service_name request reply rmw_qos world)
  unfolding make_service_publisher
  make_service_publisher-Returns cb service_name request reply rmw_qos world =
      let made = dds.create_publisher 0 world in
      elim (Option-cases made.0) [
        | inl e ↦ rw (make_service_publisher, e) refl
        | inr (publisher, e) ↦
            elim (conversion_cases
              (get_datawriter_qos dds.build (dds.get_default_qos publisher made.1) rmw_qos.qos
                dds.new_qos)
              (get_datawriter_qos-not_aborted dds.build _ rmw_qos.qos dds.new_qos asserts)) [
                | inl f ↦ rw (make_service_publisher, e, f) refl
                | inr (q, f) ↦
                    let set = defaults.set_default_datawriter_qos publisher q made.1 in
                    rw (make_service_publisher, e, f)
                      (branch-Returns (is_dds_ok set.0) _ (ok (none, set.1))
                        (make_service_subscriber-Returns cb service_name request reply publisher
                          rmw_qos set.1)
                        refl)
              ]
      ]

  make_service-Returns :
      (cb : B) (service_name : Bytes) (request reply : Named) (rmw_qos : Option QosProfile)
      (world : W)
      → Returns (make_service dds defaults cb service_name request reply rmw_qos world)
  unfolding make_service
  make_service-Returns cb service_name (name request) (name reply) (some rmw_qos) world =
      elim (Bool-cases (is_empty service_name || not dds.has_participant)) [
        | inl e ↦ rw (make_service, e) refl
        | inr e ↦
            rw (make_service, e)
              (make_service_publisher-Returns cb service_name request reply rmw_qos world)
      ]
  make_service-Returns cb service_name (name request) (name reply) none world = refl
  make_service-Returns cb service_name (name request) runtime_error rmw_qos world = refl
  make_service-Returns cb service_name runtime_error reply rmw_qos world = refl

  pub construct_service-Returns :
      (ts : Option (ServiceSupport B)) (service_name : Option Bytes) (rmw_qos : Option QosProfile)
      (world : W)
      → Returns (construct_service dds defaults ts service_name rmw_qos world)
  unfolding construct_service
  construct_service-Returns ts service_name rmw_qos world =
      elim (Option-cases (get_service_callbacks ts)) [
        | inl e ↦ rw (construct_service, e) refl
        | inr (cb, e) ↦ rw (construct_service, e) (make_service-Returns cb _ _ _ rmw_qos world)
      ]

-- A client or a server owns the allocations of its requester or replier.
abbrev pub owned : {B R P E C : Type 0} → (R → List ℕ) → Side B R P E C → List ℕ
owned allocations side = allocations side.role

module _ {R P E C Handle W : Type 0} (half : Half R P E W) (ends : Ends E C Handle W)
    (allocations : R → List ℕ) (law : FreesAll half allocations) where
  cleanup_side-live :
      (role : R) (condition : Option (E × C)) (live : List ℕ) (heap : Heap W)
      → heap.live ≡ allocations role ++ live
      → (cleanup_side half ends role condition heap).live ≡ live
  unfolding cleanup_side
  cleanup_side-live role none live heap h = law.unmakes role live heap h
  cleanup_side-live role (some (reader, condition)) live heap h =
      law.unmakes role live
        (record heap { world = (ends.delete_readcondition reader condition heap.world).1 }) h

module _ {B R P E C Handle W : Type 0} (half : Half R P E W) (ends : Ends E C Handle W)
    (allocations : R → List ℕ) (law : FreesAll half allocations) where
  make_ends_leaves :
      (service : Service B P) (role : R) (reader : E) (condition : Option C) (live : List ℕ)
      (heap : Heap W)
      → heap.live ≡ allocations role ++ live
      → LeavesOwned {D = Side B R P E C}
          (owned allocations)
          live
          (ok (make_ends half ends service role reader condition heap))
  unfolding make_ends
  make_ends_leaves service role reader none live heap h =
      cleanup_side-live half ends allocations law role none live heap h
  make_ends_leaves service role reader (some condition) live heap h =
      elim (Option-cases (half.get_datawriter role)) [
        | inl e ↦
            rw (make_ends, e)
              (cleanup_side-live half ends allocations law role (some (reader, condition)) live heap
                h)
        | inr (writer, e) ↦ rw (make_ends, e) h
      ]

  make_side_leaves :
      (service : Service B P) (role : R) (live : List ℕ) (heap : Heap W)
      → heap.live ≡ allocations role ++ live
      → LeavesOwned {D = Side B R P E C}
          (owned allocations)
          live
          (ok (make_side half ends service (some role, heap)))
  unfolding make_side
  make_side_leaves service role live heap h = elim (Option-cases (half.get_datareader role)) [
    | inl e ↦ rw (make_side, e) (cleanup_side-live half ends allocations law role none live heap h)
    | inr (reader, e) ↦
        let asked = ends.create_readcondition reader heap.world in
        rw (make_side, e)
          (make_ends_leaves service role reader asked.0 live (record heap { world = asked.1 }) h)
  ]

  -- The constructor behind that of its service, by what `make` answers.
  made_leaves :
      (service : Service B P) (heap : Heap W) (made : Option R × Heap W)
      → half.make service.request service.reply service.publisher service.subscriber heap ≡ made
      → LeavesOwned {D = Side B R P E C}
          (owned allocations)
          heap.live
          (ok (make_side half ends service made))
  unfolding make_side
  made_leaves service heap (none, left) e = law.fails _ _ _ _ heap left e
  made_leaves service heap (some role, left) e =
      make_side_leaves service role heap.live left (law.makes _ _ _ _ heap role left e)

construct_on_leaves :
    {B R P E C Handle W : Type 0} (half : B → Half R P E W) (ends : Ends E C Handle W)
    (allocations : R → List ℕ) (law : (callbacks : B) → FreesAll (half callbacks) allocations)
    (service : Option (Service B P) × W) (heap : Heap W)
    → LeavesOwned {D = Side B R P E C}
        (owned allocations)
        heap.live
        (ok (construct_on half ends service heap))
unfolding construct_on
construct_on_leaves half ends allocations law (none, world) heap = refl
construct_on_leaves half ends allocations law (some service, world) heap =
    made_leaves (half service.callbacks) ends allocations (law service.callbacks) service
      (record heap { world = world }) _ refl

module _ {G B R T P E C Handle W : Type 0} ⦃o : Order G⦄ (dp : Participant G Handle)
    (dds : Dds T P E C Handle W) (defaults : Defaults P W) (requesters : B → Half R P E W)
    (ends : Ends E C Handle W) (allocations : R → List ℕ)
    (law : (callbacks : B) → FreesAll (requesters callbacks) allocations)
    (asserts : dds.build.asserts ≡ false) (type_supports : Option (ServiceSupport B))
    (service_name : Option Bytes) (rmw_qos : Option QosProfile) where
  pub client-IsTidy :
      IsTidy
        (construct_client dp dds defaults requesters ends type_supports service_name rmw_qos)
        (destruct_side requesters ends)
        (owned allocations)
  unfolding construct_client destruct_side
  client-IsTidy = record {
    constructs = λ heap.
        let (service, e) =
          ok_of_Returns
            (construct_service dds defaults type_supports service_name rmw_qos heap.world)
            (construct_service-Returns dds defaults asserts type_supports service_name rmw_qos
              heap.world) in
        rw e (construct_on_leaves requesters ends allocations law service heap);
    destructs = λ side live heap h.
        cleanup_side-live (requesters side.service.callbacks) ends allocations
          (law side.service.callbacks) side.role (some (side.reader, side.read_condition)) live heap
          h;
  }
