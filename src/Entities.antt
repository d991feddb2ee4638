-- ===== src/Entities.antt =====
-- The objects behind publishers and subscriptions: what they take from DDS, and the part of
-- rmw_opendds_cpp/src/DDSPublisher.cpp and src/DDSSubscriber.cpp that is the same for both. A
-- `_var` that is set to null only gives up a reference.
pub mod Topics
pub mod Publisher
pub mod Subscriber
pub mod Tidy
pub mod Miscasts
pub mod Calls
pub mod Matches
use rmw_opendds.Prelude.{ℕ, Bool, true, false, Option, none, some, Outcome, ok, undefined, ◌>>=◌}
use rmw_opendds.Text.{Bytes}
use rmw_opendds.Ret.{DdsRet}
use rmw_opendds.Heap.{Heap, create, destroy}
use rmw_opendds.Qos.{Build, RmwQos, DdsQos, Conversion, converted, rejected, aborted}

-- `message_type_support_callbacks_t`
pub record Callbacks : Type 0 where
  pub message_namespace : Bytes
  pub message_name : Bytes

-- `rosidl_message_type_support_t` by what `get_message_typesupport_handle` finds in it for the
-- identifiers of the C and of the C++ package: `data` of the handle.
pub record TypeSupport : Type 0 where
  pub handle_c : Option (Option Callbacks)
  pub handle_cpp : Option (Option Callbacks)

-- `rmw_qos_profile_t`, with the member that the conversion does not read.
pub record QosProfile : Type 0 where
  pub avoid_ros_namespace_conventions : Bool
  pub qos : RmwQos

-- A participant and what it makes, on the world `W` of DDS: topics `T`, publishers or subscribers
-- `P`, writers or readers `E`, and what a reader's condition is, `C`. `none` is a null pointer, and
-- for a QoS a code that is not RETCODE_OK.
pub record Dds (T P E C Handle W : Type 0) : Type 0 where
  pub has_participant : Bool
  pub register_type : Bytes → W → DdsRet × W
  pub lookup_topicdescription : Bytes → W → Bool × W
  pub find_topic : Bytes → W → Option T × W
  pub create_topic : Bytes → Bytes → W → Option T × W
  pub create_publisher : ℕ → W → Option P × W
  pub create_subscriber : ℕ → W → Option P × W
  pub get_default_qos : P → W → Option DdsQos
  pub create_datawriter : P → T → DdsQos → W → Option E × W
  pub create_datareader : P → T → DdsQos → W → Option E × W
  pub create_readcondition : E → W → Option C × W
  pub get_instance_handle : P → Handle
  pub get_writer_handle : E → ℕ
  pub get_qos : E → W → Option DdsQos
  pub new_qos : DdsQos
  pub build : Build
  pub memory : ℕ → Bool

-- The `dynamic_cast` of a writer or a reader to the class for OpenDDSStaticSerializedData, whether
-- it is not null, and `set_marshal_skip_serialize(true)` of the result.
pub record Casts (E W : Type 0) : Type 0 where
  pub is_static : E → Bool
  pub set_marshal_skip_serialize : E → W → W

-- `DDSTopic`
pub record DdsTopic (T : Type 0) : Type 0 where
  pub callbacks : Callbacks
  pub name : Bytes
  pub topic_type : Bytes
  pub topic : T

-- What a constructor of `DDSPublisher` or `DDSSubscriber` has set so far. The listener is its count
-- of matches.
pub record Parts (T P E : Type 0) : Type 0 where
  pub topic : DdsTopic T
  pub listener : Option (ℕ × ℕ)
  pub group : Option P
  pub endpoint : Option E

-- `DDSPublisher` or `DDSSubscriber`, constructed: `extra` is the handle in the publisher's gid, or
-- the subscriber's read condition.
pub record Entity (T P E X : Type 0) : Type 0 where
  pub topic : DdsTopic T
  pub listener : ℕ × ℕ
  pub group : P
  pub endpoint : E
  pub extra : X

-- A QoS is converted, or it is rejected. An assertion that fails ends the process, and no answer is
-- described for it.
abbrev pub conversion_of : Conversion → Outcome (Option DdsQos)
conversion_of (converted q) = ok (some q)
conversion_of (rejected q) = ok none
conversion_of aborted = undefined

-- The destructor of a listener does nothing.
abbrev pub destruct_listener : {W : Type 0} → ℕ → Heap W → Outcome (Heap W)
destruct_listener count heap = ok heap

-- `cleanup` of either class.
unfoldable pub cleanup : {T P E W : Type 0} → Parts T P E → Heap W → Outcome (Parts T P E × Heap W)
cleanup parts heap = do
  gone ← destroy destruct_listener parts.listener heap
  ok (record parts { endpoint = none; group = none; listener = gone.0 }, gone.1)

module _ {T P E X W : Type 0} where
  -- `~DDSPublisher` and `~DDSSubscriber`
  unfoldable pub destruct : Entity T P E X → Heap W → Outcome (Heap W)
  destruct entity heap =
      let parts : Parts T P E = record {
        topic = entity.topic;
        listener = some entity.listener;
        group = some entity.group;
        endpoint = some entity.endpoint;
      } in
      do cleaned ← cleanup parts heap; ok cleaned.1

  -- The `catch` of the constructors: the exception leaves them.
  unfoldable pub give_up : Parts T P E → Heap W → Outcome (Option (Entity T P E X) × Heap W)
  give_up parts heap = do cleaned ← cleanup parts heap; ok (none, cleaned.1)

module _ {T P E W : Type 0} where
  -- `topic_`, whose constructor may throw, and `listener_`, which may be null.
  unfoldable pub initialize :
      (ℕ → Bool) → (W → Option (DdsTopic T) × W) → Heap W → Outcome (Option (Parts T P E) × Heap W)
  initialize memory construct_topic heap =
      let (made, world) = construct_topic heap.world in
      elim made [
        | none ↦ ok (none, record heap { world = world })
        | some topic ↦ do
          listener ← create memory (λ h. ok (some 0, h)) (record heap { world = world })
          ok (
            some (record { topic = topic; listener = listener.0; group = none; endpoint = none }),
            listener.1,
          )
      ]
