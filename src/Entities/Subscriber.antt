-- ===== src/Entities/Subscriber.antt =====
-- `DDSSubscriber` (rmw_opendds_cpp/src/DDSSubscriber.cpp).
use rmw_opendds.Prelude.{ℕ, Option, none, some, if◌then◌else◌, Outcome, ok, undefined, ◌>>=◌}
use rmw_opendds.Text.{Bytes}
use rmw_opendds.Heap.{Heap}
use rmw_opendds.Qos.{get_datareader_qos}
use rmw_opendds.Entities.{
  TypeSupport, QosProfile, Dds, Casts, Parts, Entity, conversion_of, give_up, initialize,
}
use rmw_opendds.Entities.Topics.{construct_topic}

module _ {T P E C Handle W : Type 0} (dds : Dds T P E C Handle W) where
  -- The constructor's `try` from `create_readcondition` on.
  unfoldable pub make_condition :
      Parts T P E → ℕ × ℕ → P → E → Heap W → Outcome (Option (Entity T P E C) × Heap W)
  make_condition parts listener subscriber reader heap =
      let (made, world) = dds.create_readcondition reader heap.world in
      elim made [
        | none ↦ give_up parts (record heap { world = world })
        | some condition ↦ ok (
          some (record {
            topic = parts.topic;
            listener = listener;
            group = subscriber;
            endpoint = reader;
            extra = condition;
          }),
          record heap { world = world },
        )
      ]

module _ {T P E C Handle W : Type 0} (dds : Dds T P E C Handle W) (casts : Casts E W) where
  -- The constructor's `try` from `get_datareader_qos` on. The result of the cast is used unchecked.
  unfoldable pub make_reader :
      Parts T P E → ℕ × ℕ → P → QosProfile → Heap W → Outcome (Option (Entity T P E C) × Heap W)
  unfolding make_condition
  make_reader parts listener subscriber rmw_qos heap = do
    qos ← conversion_of (
        get_datareader_qos dds.build (dds.get_default_qos subscriber heap.world) rmw_qos.qos
          dds.new_qos)
    elim qos [
      | none ↦ give_up parts heap
      | some dr_qos ↦
          let (made, world) =
            dds.create_datareader subscriber parts.topic.topic dr_qos heap.world in
          elim made [
            | none ↦ give_up parts (record heap { world = world })
            | some reader ↦
                if casts.is_static reader
                then make_condition dds (record parts { endpoint = some reader }) listener
                    subscriber reader
                    (record heap { world = casts.set_marshal_skip_serialize reader world })
                else undefined
          ]
    ]

  -- The constructor's `try`.
  unfoldable pub make_subscriber :
      Parts T P E → QosProfile → Heap W → Outcome (Option (Entity T P E C) × Heap W)
  unfolding make_reader
  make_subscriber parts rmw_qos heap = elim (parts.listener) [
    | none ↦ give_up parts heap
    | some listener ↦
        let (made, world) = dds.create_subscriber listener.0 heap.world in
        elim made [
          | none ↦ give_up parts (record heap { world = world })
          | some subscriber ↦
              make_reader (record parts { group = some subscriber }) listener subscriber rmw_qos
                (record heap { world = world })
        ]
  ]

  -- The constructor. `*rmw_qos` is read only behind the topic's constructor, which rejects a null
  -- pointer.
  unfoldable pub construct_subscriber :
      Option TypeSupport
      → Option Bytes
      → Option QosProfile
      → Heap W
      → Outcome (Option (Entity T P E C) × Heap W)
  unfolding make_subscriber
  construct_subscriber ros_ts topic_name rmw_qos heap = do
    begun ← initialize dds.memory (construct_topic dds ros_ts topic_name rmw_qos) heap
    elim (begun.0) [
      | none ↦ ok (none, begun.1)
      | some parts ↦ elim rmw_qos [
        | none ↦ undefined
        | some profile ↦ make_subscriber parts profile begun.1
      ]
    ]
