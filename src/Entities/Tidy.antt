-- ===== src/Entities/Tidy.antt =====
-- The allocations of the constructors and destructors of publishers and subscribers, where the
-- writers and the readers are of the class that they are cast to.
use rmw_opendds.Prelude.{
  ℕ, ◌≡◌, ◌≢◌, ◌⊎◌, refl, Bool, true, false, Option, none, some, List, [], ◌∷◌, ◌++◌, ok,
  Bool-cases, Option-cases, inl, inr,
}
use rmw_opendds.Text.{Bytes}
use rmw_opendds.Heap.{
  Heap, create, construct_at, destroy, free_latest, allocate-some, allocate-none,
}
use rmw_opendds.Handles.Balance.{cases_of_LeavesOwned, LeavesOwned, Leaves, IsTidy}
use rmw_opendds.Qos.{
  DdsQos, Conversion, converted, rejected, aborted, get_datawriter_qos, get_datareader_qos,
}
use rmw_opendds.Qos.Aborts.{get_datawriter_qos-not_aborted, get_datareader_qos-not_aborted}
use rmw_opendds.Entities.{
  TypeSupport, QosProfile, Dds, Casts, DdsTopic, Parts, Entity, conversion_of, cleanup, destruct,
  give_up, initialize,
}
use rmw_opendds.Entities.Topics.{construct_topic, construct_topic_null}
use rmw_opendds.Entities.Publisher.{make_writer, make_publisher, construct_publisher}
use rmw_opendds.Entities.Subscriber.{
  make_condition, make_reader, make_subscriber, construct_subscriber,
}

-- A publisher or a subscriber owns its listener.
abbrev pub owned : {T P E X : Type 0} → Entity T P E X → List ℕ
owned entity = entity.listener.0 ∷ []

abbrev listeners : Option (ℕ × ℕ) → List ℕ
listeners none = []
listeners (some listener) = listener.0 ∷ []

abbrev parts_live : {T P E : Type 0} → Parts T P E → List ℕ
parts_live parts = listeners parts.listener

pub conversion_cases :
    (c : Conversion)
    → c ≢ aborted
    → (conversion_of c ≡ ok none) ⊎ ((q : DdsQos) × (conversion_of c ≡ ok (some q)))
conversion_cases (converted q) h = inr (q, refl)
conversion_cases (rejected q) h = inl refl
conversion_cases aborted h = absurd (h refl)

module _ {T P E W : Type 0} where
  give_up_leaves :
      (X : Type 0) (parts : Parts T P E) (live : List ℕ) (heap : Heap W)
      → heap.live ≡ parts_live parts ++ live
      → LeavesOwned {D = Entity T P E X} owned live (give_up {X = X} parts heap)
  unfolding give_up cleanup destroy
  give_up_leaves X parts live heap h = elim (Option-cases parts.listener) [
    | inl e ↦ rw e (rw e at h)
    | inr (listener, e) ↦ rw (e, free_latest listener.0 live heap (rw e at h)) refl
  ]

  destruct-Leaves :
      {X : Type 0} (entity : Entity T P E X) (live : List ℕ) (heap : Heap W)
      → heap.live ≡ owned entity ++ live
      → Leaves live (destruct entity heap)
  unfolding destruct cleanup destroy
  destruct-Leaves entity live heap h = rw (free_latest entity.listener.0 live heap h) refl

module _ {T W : Type 0} where
  initialize_leaves :
      (P E : Type 0) (memory : ℕ → Bool) (make_topic : W → Option (DdsTopic T) × W) (heap : Heap W)
      → LeavesOwned {D = Parts T P E} parts_live heap.live
          (initialize {P = P} {E = E} memory make_topic heap)
  unfolding initialize create construct_at
  initialize_leaves P E memory make_topic heap = elim (Option-cases (make_topic heap.world).0) [
    | inl e ↦ rw (initialize, e) refl
    | inr (topic, e) ↦
        let begun : Heap W = record heap { world = (make_topic heap.world).1 } in
        elim (Bool-cases (memory heap.next)) [
          | inr f ↦ rw (initialize, e, allocate-none memory begun f) refl
          | inl t ↦ rw (initialize, e, allocate-some memory begun t) refl
        ]
  ]

module _ {T P E C Handle W : Type 0} (dds : Dds T P E C Handle W) (casts : Casts E W)
    (all : (e : E) → casts.is_static e ≡ true) (asserts : dds.build.asserts ≡ false)
    (live : List ℕ) where
  make_writer_leaves :
      (parts : Parts T P E) (listener : ℕ × ℕ) (publisher : P) (rmw_qos : QosProfile)
      (heap : Heap W)
      → parts.listener ≡ some listener
      → heap.live ≡ listener.0 ∷ live
      → LeavesOwned {D = Entity T P E ℕ} owned live
          (make_writer dds casts parts listener publisher rmw_qos heap)
  unfolding make_writer
  make_writer_leaves parts listener publisher rmw_qos heap l h =
      let default = dds.get_default_qos publisher heap.world in
      elim (conversion_cases (get_datawriter_qos dds.build default rmw_qos.qos dds.new_qos)
        (get_datawriter_qos-not_aborted dds.build default rmw_qos.qos dds.new_qos asserts)) [
          | inl e ↦ rw (make_writer, e) (give_up_leaves _ parts live heap (rw l h))
          | inr (q, e) ↦
              let made = dds.create_datawriter publisher parts.topic.topic q heap.world in
              elim (Option-cases made.0) [
                | inl f ↦ rw (make_writer, e, f) (give_up_leaves _ parts live _ (rw l h))
                | inr (writer, f) ↦ rw (make_writer, e, f, all writer) h
              ]
        ]

  make_publisher_leaves :
      (parts : Parts T P E) (rmw_qos : QosProfile) (heap : Heap W)
      → heap.live ≡ parts_live parts ++ live
      → LeavesOwned {D = Entity T P E ℕ} owned live (make_publisher dds casts parts rmw_qos heap)
  unfolding make_publisher
  make_publisher_leaves parts rmw_qos heap h = elim (Option-cases parts.listener) [
    | inl e ↦ rw (make_publisher, e) (give_up_leaves _ parts live heap h)
    | inr (listener, e) ↦
        let made = dds.create_publisher listener.0 heap.world in
        elim (Option-cases made.0) [
          | inl f ↦ rw (make_publisher, e, f) (give_up_leaves _ parts live _ h)
          | inr (publisher, f) ↦
              rw (make_publisher, e, f)
                (make_writer_leaves _ listener publisher rmw_qos _ e (rw e at h))
        ]
  ]

  make_condition_leaves :
      (parts : Parts T P E) (listener : ℕ × ℕ) (subscriber : P) (reader : E) (heap : Heap W)
      → parts.listener ≡ some listener
      → heap.live ≡ listener.0 ∷ live
      → LeavesOwned {D = Entity T P E C} owned live
          (make_condition dds parts listener subscriber reader heap)
  unfolding make_condition
  make_condition_leaves parts listener subscriber reader heap l h =
      let made = dds.create_readcondition reader heap.world in
      elim (Option-cases made.0) [
        | inl f ↦ rw (make_condition, f) (give_up_leaves _ parts live _ (rw l h))
        | inr (condition, f) ↦ rw (make_condition, f) h
      ]

  make_reader_leaves :
      (parts : Parts T P E) (listener : ℕ × ℕ) (subscriber : P) (rmw_qos : QosProfile)
      (heap : Heap W)
      → parts.listener ≡ some listener
      → heap.live ≡ listener.0 ∷ live
      → LeavesOwned {D = Entity T P E C} owned live
          (make_reader dds casts parts listener subscriber rmw_qos heap)
  unfolding make_reader
  make_reader_leaves parts listener subscriber rmw_qos heap l h =
      let default = dds.get_default_qos subscriber heap.world in
      elim (conversion_cases (get_datareader_qos dds.build default rmw_qos.qos dds.new_qos)
        (get_datareader_qos-not_aborted dds.build default rmw_qos.qos dds.new_qos asserts)) [
          | inl e ↦ rw (make_reader, e) (give_up_leaves _ parts live heap (rw l h))
          | inr (q, e) ↦
              let made = dds.create_datareader subscriber parts.topic.topic q heap.world in
              elim (Option-cases made.0) [
                | inl f ↦ rw (make_reader, e, f) (give_up_leaves _ parts live _ (rw l h))
                | inr (reader, f) ↦
                    rw (make_reader, e, f, all reader)
                      (make_condition_leaves _ listener subscriber reader _ l h)
              ]
        ]

  make_subscriber_leaves :
      (parts : Parts T P E) (rmw_qos : QosProfile) (heap : Heap W)
      → heap.live ≡ parts_live parts ++ live
      → LeavesOwned {D = Entity T P E C} owned live (make_subscriber dds casts parts rmw_qos heap)
  unfolding make_subscriber
  make_subscriber_leaves parts rmw_qos heap h = elim (Option-cases parts.listener) [
    | inl e ↦ rw (make_subscriber, e) (give_up_leaves _ parts live heap h)
    | inr (listener, e) ↦
        let made = dds.create_subscriber listener.0 heap.world in
        elim (Option-cases made.0) [
          | inl f ↦ rw (make_subscriber, e, f) (give_up_leaves _ parts live _ h)
          | inr (subscriber, f) ↦
              rw (make_subscriber, e, f)
                (make_reader_leaves _ listener subscriber rmw_qos _ e (rw e at h))
        ]
  ]

module _ {T P E C Handle W : Type 0} (dds : Dds T P E C Handle W) (casts : Casts E W)
    (all : (e : E) → casts.is_static e ≡ true) (asserts : dds.build.asserts ≡ false)
    (ros_ts : Option TypeSupport) (topic_name : Option Bytes) where
  construct_publisher_leaves :
      (rmw_qos : Option QosProfile) (heap : Heap W)
      → LeavesOwned {D = Entity T P E ℕ} owned heap.live
          (construct_publisher dds casts ros_ts topic_name rmw_qos heap)
  unfolding construct_publisher initialize
  construct_publisher_leaves none heap =
      rw (construct_publisher, initialize, construct_topic_null dds ros_ts topic_name heap.world)
        refl
  construct_publisher_leaves (some profile) heap =
      let make_topic = construct_topic dds ros_ts topic_name (some profile) in
      elim (cases_of_LeavesOwned parts_live (initialize dds.memory make_topic heap)
        (initialize_leaves P E dds.memory make_topic heap)) [
          | inl (left, e, h) ↦ rw (construct_publisher, e) h
          | inr (parts, left, e, h) ↦
              rw (construct_publisher, e)
                (make_publisher_leaves dds casts all asserts heap.live parts profile left h)
        ]

  construct_subscriber_leaves :
      (rmw_qos : Option QosProfile) (heap : Heap W)
      → LeavesOwned {D = Entity T P E C} owned heap.live
          (construct_subscriber dds casts ros_ts topic_name rmw_qos heap)
  unfolding construct_subscriber initialize
  construct_subscriber_leaves none heap =
      rw (construct_subscriber, initialize, construct_topic_null dds ros_ts topic_name heap.world)
        refl
  construct_subscriber_leaves (some profile) heap =
      let make_topic = construct_topic dds ros_ts topic_name (some profile) in
      elim (cases_of_LeavesOwned parts_live (initialize dds.memory make_topic heap)
        (initialize_leaves P E dds.memory make_topic heap)) [
          | inl (left, e, h) ↦ rw (construct_subscriber, e) h
          | inr (parts, left, e, h) ↦
              rw (construct_subscriber, e)
                (make_subscriber_leaves dds casts all asserts heap.live parts profile left h)
        ]

  module _ (rmw_qos : Option QosProfile) where
    pub publisher-IsTidy :
        IsTidy (construct_publisher dds casts ros_ts topic_name rmw_qos) destruct owned
    publisher-IsTidy = record {
      constructs = construct_publisher_leaves rmw_qos;
      destructs = destruct-Leaves;
    }

    pub subscriber-IsTidy :
        IsTidy (construct_subscriber dds casts ros_ts topic_name rmw_qos) destruct owned
    subscriber-IsTidy = record {
      constructs = construct_subscriber_leaves rmw_qos;
      destructs = destruct-Leaves;
    }
