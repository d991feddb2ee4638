-- ===== src/Entities/Publisher.antt =====
-- `DDSPublisher` (rmw_opendds_cpp/src/DDSPublisher.cpp).
use rmw_opendds.Prelude.{ℕ, Option, none, some, if◌then◌else◌, Outcome, ok, undefined, ◌>>=◌}
use rmw_opendds.Text.{Bytes}
use rmw_opendds.Heap.{Heap}
use rmw_opendds.Qos.{get_datawriter_qos}
use rmw_opendds.Entities.{
  TypeSupport, QosProfile, Dds, Casts, Parts, Entity, conversion_of, give_up, initialize,
}
use rmw_opendds.Entities.Topics.{construct_topic}

module _ {T P E C Handle W : Type 0} (dds : Dds T P E C Handle W) (casts : Casts E W) where
  -- The constructor's `try` from `get_datawriter_qos` on. The result of the cast is used unchecked.
  unfoldable pub make_writer :
      Parts T P E → ℕ × ℕ → P → QosProfile → Heap W → Outcome (Option (Entity T P E ℕ) × Heap W)
  make_writer parts listener publisher rmw_qos heap = do
    qos ← conversion_of (
        get_datawriter_qos dds.build (dds.get_default_qos publisher heap.world) rmw_qos.qos
          dds.new_qos)
    elim qos [
      | none ↦ give_up parts heap
      | some dw_qos ↦
          let (made, world) = dds.create_datawriter publisher parts.topic.topic dw_qos heap.world in
          elim made [
            | none ↦ give_up parts (record heap { world = world })
            | some writer ↦
                if casts.is_static writer
                then ok (
                  some (record {
                    topic = parts.topic;
                    listener = listener;
                    group = publisher;
                    endpoint = writer;
                    extra = dds.get_writer_handle writer;
                  }),
                  record heap { world = casts.set_marshal_skip_serialize writer world },
                )
                else undefined
          ]
    ]

  -- The constructor's `try`.
  unfoldable pub make_publisher :
      Parts T P E → QosProfile → Heap W → Outcome (Option (Entity T P E ℕ) × Heap W)
  unfolding make_writer
  make_publisher parts rmw_qos heap = elim (parts.listener) [
    | none ↦ give_up parts heap
    | some listener ↦
        let (made, world) = dds.create_publisher listener.0 heap.world in
        elim made [
          | none ↦ give_up parts (record heap { world = world })
          | some publisher ↦
              make_writer (record parts { group = some publisher }) listener publisher rmw_qos
                (record heap { world = world })
        ]
  ]

  -- The constructor. `*rmw_qos` is read only behind the topic's constructor, which rejects a null
  -- pointer.
  unfoldable pub construct_publisher :
      Option TypeSupport
      → Option Bytes
      → Option QosProfile
      → Heap W
      → Outcome (Option (Entity T P E ℕ) × Heap W)
  unfolding make_publisher
  construct_publisher ros_ts topic_name rmw_qos heap = do
    begun ← initialize dds.memory (construct_topic dds ros_ts topic_name rmw_qos) heap
    elim (begun.0) [
      | none ↦ ok (none, begun.1)
      | some parts ↦ elim rmw_qos [
        | none ↦ undefined
        | some profile ↦ make_publisher parts profile begun.1
      ]
    ]
