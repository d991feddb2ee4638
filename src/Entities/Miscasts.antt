-- ===== src/Entities/Miscasts.antt =====
-- The unchecked `dynamic_cast`s of rmw_opendds_cpp/src/DDSPublisher.cpp and src/DDSSubscriber.cpp:
-- what the code does is what it would do if no cast were null, or it is undefined.
use rmw_opendds.Prelude.{
  ℕ, ◌+◌, ◌≡◌, ◌∷◌, ◌⊎◌, inl, inr, refl, ap, Bool, true, false, Option, none, some, Bool-cases,
  Option-cases, Outcome, ok, out_of_range, undefined, ◌>>=◌,
}
use rmw_opendds.Text.{Bytes}
use rmw_opendds.Heap.{Heap, create, construct_at, allocate-some, allocate-none}
use rmw_opendds.Handles.{create_handle, fill, create_initial, initial_at}
use rmw_opendds.Qos.{DdsQos, get_datawriter_qos, get_datareader_qos}
use rmw_opendds.Entities.Topics.{construct_topic}
use rmw_opendds.Entities.{TypeSupport, QosProfile, Dds, Casts, Parts, conversion_of, initialize}
use rmw_opendds.Entities.Publisher.{make_writer, make_publisher, construct_publisher}
use rmw_opendds.Entities.Subscriber.{make_reader, make_subscriber, construct_subscriber}

-- No cast is null.
abbrev pub casting : {E W : Type 0} → Casts E W → Casts E W
casting casts = record casts { is_static = λ e. true }

-- A writer or a reader that `make` made and whose cast is null.
abbrev pub IsMiscast : {T P E W : Type 0} → (P → T → DdsQos → W → Option E × W) → Casts E W → Type 0
IsMiscast {T} {P} {E} {W} make casts =
    (p : P) × (t : T) × (q : DdsQos) × (world : W) × (e : E) × ((make p t q world).0 ≡ some e)
    × (casts.is_static e ≡ false)

-- Two results are the same, or the first is undefined for the reason `U`.
abbrev pub Follows : {A : Type 0} → Type 0 → Outcome A → Outcome A → Type 0
Follows U r s = (r ≡ s) ⊎ ((r ≡ undefined) × U)

module _ {A B : Type 0} (U : Type 0) where
  pub bind-Follows :
      (r s : Outcome A) (f : A → Outcome B) → Follows U r s → Follows U (r >>= f) (s >>= f)
  bind-Follows r s f (inl e) = inl (ap (λ x. x >>= f) e)
  bind-Follows r s f (inr (e, u)) = inr (ap (λ x. x >>= f) e, u)

Outcome-cases :
    {A : Type 0} (r : Outcome A) → ((a : A) × (r ≡ ok a)) ⊎ (r ≡ out_of_range) ⊎ (r ≡ undefined)
Outcome-cases (ok a) = inl (a, refl)
Outcome-cases out_of_range = inr (inl refl)
Outcome-cases undefined = inr (inr refl)

module _ {T P E C Handle W : Type 0} (dds : Dds T P E C Handle W) (casts : Casts E W) where
  make_writer-Follows :
      (parts : Parts T P E) (listener : ℕ × ℕ) (publisher : P) (rmw_qos : QosProfile)
      (heap : Heap W)
      → Follows
          (IsMiscast dds.create_datawriter casts)
          (make_writer dds casts parts listener publisher rmw_qos heap)
          (make_writer dds (casting casts) parts listener publisher rmw_qos heap)
  unfolding make_writer
  make_writer-Follows parts listener publisher rmw_qos heap =
      let default = dds.get_default_qos publisher heap.world in
      elim (Outcome-cases
        (conversion_of (get_datawriter_qos dds.build default rmw_qos.qos dds.new_qos))) [
          | inr (inl e) ↦ rw (make_writer, e) (inl refl)
          | inr (inr e) ↦ rw (make_writer, e) (inl refl)
          | inl (none, e) ↦ rw (make_writer, e) (inl refl)
          | inl (some q, e) ↦
              let made = dds.create_datawriter publisher parts.topic.topic q heap.world in
              elim (Option-cases made.0) [
                | inl f ↦ rw (make_writer, e, f) (inl refl)
                | inr (writer, f) ↦ elim (Bool-cases (casts.is_static writer)) [
                  | inl g ↦ rw (make_writer, e, f, g) (inl refl)
                  | inr g ↦
                      rw (make_writer, e, f, g)
                        (inr (refl, (publisher, parts.topic.topic, q, heap.world, writer, f, g)))
                ]
              ]
        ]

  make_publisher-Follows :
      (parts : Parts T P E) (rmw_qos : QosProfile) (heap : Heap W)
      → Follows
          (IsMiscast dds.create_datawriter casts)
          (make_publisher dds casts parts rmw_qos heap)
          (make_publisher dds (casting casts) parts rmw_qos heap)
  unfolding make_publisher
  make_publisher-Follows parts rmw_qos heap = elim (Option-cases parts.listener) [
    | inl e ↦ rw (make_publisher, e) (inl refl)
    | inr (listener, e) ↦ elim (Option-cases (dds.create_publisher listener.0 heap.world).0) [
      | inl f ↦ rw (make_publisher, e, f) (inl refl)
      | inr (publisher, f) ↦
          rw (make_publisher, e, f) (make_writer-Follows _ listener publisher rmw_qos _)
    ]
  ]

  pub construct_publisher-Follows :
      (ros_ts : Option TypeSupport) (topic_name : Option Bytes) (rmw_qos : Option QosProfile)
      (heap : Heap W)
      → Follows
          (IsMiscast dds.create_datawriter casts)
          (construct_publisher dds casts ros_ts topic_name rmw_qos heap)
          (construct_publisher dds (casting casts) ros_ts topic_name rmw_qos heap)
  unfolding construct_publisher
  construct_publisher-Follows ros_ts topic_name rmw_qos heap =
      elim (Outcome-cases (
        initialize {P = P} {E = E} dds.memory (construct_topic dds ros_ts topic_name rmw_qos)
          heap)) [
            | inr (inl e) ↦ rw (construct_publisher, e) (inl refl)
            | inr (inr e) ↦ rw (construct_publisher, e) (inl refl)
            | inl ((none, left), e) ↦ rw (construct_publisher, e) (inl refl)
            | inl ((some parts, left), e) ↦ elim (Option-cases rmw_qos) [
              | inl f ↦ rw (construct_publisher, e, f) (inl refl)
              | inr (profile, f) ↦
                  rw (construct_publisher, e, f) (make_publisher-Follows parts profile left)
            ]
          ]

  make_reader-Follows :
      (parts : Parts T P E) (listener : ℕ × ℕ) (subscriber : P) (rmw_qos : QosProfile)
      (heap : Heap W)
      → Follows
          (IsMiscast dds.create_datareader casts)
          (make_reader dds casts parts listener subscriber rmw_qos heap)
          (make_reader dds (casting casts) parts listener subscriber rmw_qos heap)
  unfolding make_reader
  make_reader-Follows parts listener subscriber rmw_qos heap =
      let default = dds.get_default_qos subscriber heap.world in
      elim (Outcome-cases
        (conversion_of (get_datareader_qos dds.build default rmw_qos.qos dds.new_qos))) [
          | inr (inl e) ↦ rw (make_reader, e) (inl refl)
          | inr (inr e) ↦ rw (make_reader, e) (inl refl)
          | inl (none, e) ↦ rw (make_reader, e) (inl refl)
          | inl (some q, e) ↦
              let made = dds.create_datareader subscriber parts.topic.topic q heap.world in
              elim (Option-cases made.0) [
                | inl f ↦ rw (make_reader, e, f) (inl refl)
                | inr (reader, f) ↦ elim (Bool-cases (casts.is_static reader)) [
                  | inl g ↦ rw (make_reader, e, f, g) (inl refl)
                  | inr g ↦
                      rw (make_reader, e, f, g)
                        (inr (refl, (subscriber, parts.topic.topic, q, heap.world, reader, f, g)))
                ]
              ]
        ]

  make_subscriber-Follows :
      (parts : Parts T P E) (rmw_qos : QosProfile) (heap : Heap W)
      → Follows
          (IsMiscast dds.create_datareader casts)
          (make_subscriber dds casts parts rmw_qos heap)
          (make_subscriber dds (casting casts) parts rmw_qos heap)
  unfolding make_subscriber
  make_subscriber-Follows parts rmw_qos heap = elim (Option-cases parts.listener) [
    | inl e ↦ rw (make_subscriber, e) (inl refl)
    | inr (listener, e) ↦ elim (Option-cases (dds.create_subscriber listener.0 heap.world).0) [
      | inl f ↦ rw (make_subscriber, e, f) (inl refl)
      | inr (subscriber, f) ↦
          rw (make_subscriber, e, f) (make_reader-Follows _ listener subscriber rmw_qos _)
    ]
  ]

  pub construct_subscriber-Follows :
      (ros_ts : Option TypeSupport) (topic_name : Option Bytes) (rmw_qos : Option QosProfile)
      (heap : Heap W)
      → Follows
          (IsMiscast dds.create_datareader casts)
          (construct_subscriber dds casts ros_ts topic_name rmw_qos heap)
          (construct_subscriber dds (casting casts) ros_ts topic_name rmw_qos heap)
  unfolding construct_subscriber
  construct_subscriber-Follows ros_ts topic_name rmw_qos heap =
      elim (Outcome-cases (
        initialize {P = P} {E = E} dds.memory (construct_topic dds ros_ts topic_name rmw_qos)
          heap)) [
            | inr (inl e) ↦ rw (construct_subscriber, e) (inl refl)
            | inr (inr e) ↦ rw (construct_subscriber, e) (inl refl)
            | inl ((none, left), e) ↦ rw (construct_subscriber, e) (inl refl)
            | inl ((some parts, left), e) ↦ elim (Option-cases rmw_qos) [
              | inl f ↦ rw (construct_subscriber, e, f) (inl refl)
              | inr (profile, f) ↦
                  rw (construct_subscriber, e, f) (make_subscriber-Follows parts profile left)
            ]
          ]

-- A creation follows another whose constructor is followed.
module _ {W N D : Type 0} (U : Type 0) (memory : ℕ → Bool)
    (construct total : Heap W → Outcome (Option D × Heap W))
    (follows : (heap : Heap W) → Follows U (construct heap) (total heap))
    (destruct : D → Heap W → Outcome (Heap W)) (name_of : D → Bytes)
    (register : D → N → Bool × N) where
  create-Follows :
      (heap : Heap W) → Follows U (create memory construct heap) (create memory total heap)
  unfolding create construct_at
  create-Follows heap = elim (Bool-cases (memory heap.next)) [
    | inr f ↦ rw (create, allocate-none memory heap f) (inl refl)
    | inl e ↦
        rw (create, allocate-some memory heap e)
          (bind-Follows U _ _ _
            (follows (record heap { next = heap.next + 1; live = heap.next ∷ heap.live })))
  ]

  pub create_handle-Follows :
      (node : N) (heap : Heap W)
      → Follows U
          (create_handle memory construct destruct name_of register node heap)
          (create_handle memory total destruct name_of register node heap)
  unfolding create_handle fill create_initial initial_at
  create_handle-Follows node heap = elim (Bool-cases (memory heap.next)) [
    | inr f ↦ rw (create_handle, create_initial, allocate-none memory heap f) (inl refl)
    | inl e ↦
        rw (create_handle, create_initial, allocate-some memory heap e)
          (bind-Follows U _ _ _
            (create-Follows (record heap { next = heap.next + 1; live = heap.next ∷ heap.live })))
  ]
