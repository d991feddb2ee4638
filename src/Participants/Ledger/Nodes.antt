-- ===== src/Participants/Ledger/Nodes.antt =====
-- The participants that DDS has, from the constructor of OpenDDSNode to `cleanup`
-- (rmw_opendds_cpp/src/OpenDDSNode.cpp).
use rmw_opendds.Prelude.{
  ℕ, ◌%◌, ◌^◌, ◌≡◌, ◌∙◌, ap, Bool, true, false, ◌||◌, Option, none, some, List, ◌∷◌, ok, After,
  After-bind, Option-cases, Bool-cases, inl, inr, is_empty,
}
use rmw_opendds.Text.{Bytes}
use rmw_opendds.Ret.{RmwRet}
use rmw_opendds.Heap.{Heap, create, destroy}
use rmw_opendds.Heap.Worlds.{Made, Kept, create-Made, destroy-Kept}
use rmw_opendds.Listener.{Listener}
use rmw_opendds.Init.{Context}
use rmw_opendds.GuardConditions.{GuardCondition}
use rmw_opendds.GuardConditions.Worlds.{
  rmw_create_guard_condition-Kept, rmw_destroy_guard_condition-Kept,
}
use rmw_opendds.Participants.{
  Factory, Parts, OpenDdsNode, new_listener, destruct_listener, set_user_data, with_participant,
  join,
}
use rmw_opendds.Participants.Transport.{Registry}
use rmw_opendds.Participants.Construct.{
  has_factory, leave, drop_guard_condition, cleanup, destruct_node, give_up, complete,
  with_subscriber, with_publisher, with_guard_condition, construct_node,
}
use rmw_opendds.Participants.Ledger.{Ledger, Deletes, set_up-Are, set_user_data-Are}

-- The destructor of a node does not return.
pub destruct_node-After :
    {Q P S W G : Type 0} (factory : Factory Q P S W) (p : Heap W → Type 0)
    (dds_node : OpenDdsNode G P) (heap : Heap W)
    → After p (destruct_node factory dds_node heap)
unfolding destruct_node cleanup leave
destruct_node-After factory p dds_node heap = tt

module _ {Q P S Ti Tc W : Type 0} (factory : Factory Q P S W) (registry : Registry Ti Tc P W)
    (participants : W → List P) (law : Ledger factory registry participants)
    (deletes : Deletes factory) (ps : List P) where
  -- The participants are those of the list, behind `dp_` if that is set.
  abbrev pub In : Option P → W → Type 0
  In none world = participants world ≡ ps
  In (some dp) world = participants world ≡ dp ∷ ps

  abbrev NoneMore : W → Type 0
  NoneMore world = participants world ≡ ps

  abbrev pub Owns : {G : Type 0} → OpenDdsNode G P → W → Type 0
  Owns dds_node world = participants world ≡ dds_node.dp ∷ ps

  with_participant-In :
      (domain_id pub_listener sub_listener : ℕ) (created : Option P × W)
      → In created.0 created.1
      → (let r = with_participant factory registry domain_id pub_listener sub_listener created in
          In r.1 r.2)
  unfolding with_participant
  with_participant-In domain_id pub_listener sub_listener (none, world) h = h
  with_participant-In domain_id pub_listener sub_listener (some dp, world) h =
      elim (Bool-cases (factory.is_impl dp)) [
        | inr e ↦ rw (with_participant, e) h
        | inl e ↦
            rw (with_participant, e)
              (set_up-Are factory registry participants law domain_id dp pub_listener sub_listener
                  world
                ∙ h)
      ]

  create_participant-In :
      (domain : ℕ) (world : W)
      → NoneMore world
      → (let r = factory.create_participant domain world in In r.0 r.1)
  create_participant-In domain world h =
      let r = factory.create_participant domain world in
      elim (Option-cases r.0) [
        | inl e ↦ rw e (law.not_created domain world r.1 (ap (λ x. (x, r.1)) e) ∙ h)
        | inr (dp, e) ↦
            rw e (law.created domain dp world r.1 (ap (λ x. (x, r.1)) e) ∙ ap (λ x. dp ∷ x) h)
      ]

  join-In :
      (domain_id pub_listener sub_listener : ℕ) (world : W)
      → NoneMore world
      → After
          (λ (r : Bool × Option P × W). In r.1 r.2)
          (join factory registry domain_id pub_listener sub_listener world)
  unfolding join
  join-In domain_id pub_listener sub_listener world h =
      let domain = domain_id % 2 ^ 32 in
      elim (Bool-cases (factory.has_rtps_discovery domain world)) [
        | inr e ↦ rw (join, e) tt
        | inl e ↦
            rw (join, e)
              (with_participant-In domain_id pub_listener sub_listener _
                (create_participant-In domain _ (law.xtypes_used domain world ∙ h)))
      ]

  leave-In :
      (dp : Option P) (world : W)
      → In dp world
      → After NoneMore (leave factory (some true) dp world)
  unfolding leave
  leave-In none world h = h
  leave-In (some dp) world h =
      law.deleted dp ps world (deletes.contained dp world)
        (deletes.participant dp (factory.delete_contained_entities dp world).1) h

  module _ {A : Type 0} (G : Type 0) (context : Context A)
      (connected : has_factory context ≡ true) where
    drop_guard_condition-Kept :
        (gc : Option GuardCondition) (heap : Heap W)
        → NoneMore heap.world
        → After (Kept NoneMore) (drop_guard_condition gc heap)
    unfolding drop_guard_condition
    drop_guard_condition-Kept none heap h = h
    drop_guard_condition-Kept (some gc) heap h =
        After-bind (λ (gone : RmwRet × Heap W). NoneMore gone.1.world) (Kept NoneMore) _ _
          (rmw_destroy_guard_condition-Kept NoneMore gc heap h) λ gone k. k

    listener-Kept :
        (listener : Option (ℕ × Listener G)) (heap : Heap W)
        → NoneMore heap.world
        → After
            (λ (gone : Option (ℕ × Listener G) × Heap W). NoneMore gone.1.world)
            (destroy destruct_listener listener heap)
    listener-Kept none heap h =
        destroy-Kept NoneMore (λ l. NoneMore) destruct_listener none heap (λ l b k. k) h
    listener-Kept (some listener) heap h =
        destroy-Kept NoneMore (λ l. NoneMore) destruct_listener (some listener) heap (λ l b k. k) h

    cleanup-Kept :
        (parts : Parts G P) (heap : Heap W)
        → In parts.dp heap.world
        → After (Kept NoneMore) (cleanup factory (some (has_factory context)) parts heap)
    unfolding cleanup
    cleanup-Kept parts heap h =
        After-bind NoneMore (Kept NoneMore) _ _ (rw connected (leave-In parts.dp heap.world h))
          λ world j.
            After-bind (λ (gone : Option (ℕ × Listener G) × Heap W). NoneMore gone.1.world)
              (Kept NoneMore) _ _
              (listener-Kept parts.sub_listener (record heap { world = world }) j)
              λ subscriber k.
                After-bind (λ (gone : Option (ℕ × Listener G) × Heap W). NoneMore gone.1.world)
                  (Kept NoneMore) _ _ (listener-Kept parts.pub_listener subscriber.1 k)
                  λ publisher l. drop_guard_condition-Kept parts.gc publisher.1 l

    give_up-Made :
        (parts : Parts G P) (heap : Heap W)
        → In parts.dp heap.world
        → After (Made NoneMore (Owns {G = G})) (give_up factory context parts heap)
    unfolding give_up
    give_up-Made parts heap h =
        After-bind (Kept NoneMore) (Made NoneMore (Owns {G = G})) _ _ (cleanup-Kept parts heap h)
          λ left k. k

    module _ (name namespace : Bytes) where
      complete-Made :
          (gc : GuardCondition) (pub_listener sub_listener : ℕ × Listener G)
          (joined : Bool × Option P × W) (heap : Heap W)
          → In joined.1 joined.2
          → After (Made NoneMore Owns) (
              complete factory registry G context name namespace gc pub_listener sub_listener joined
                heap)
      unfolding complete
      complete-Made gc pub_listener sub_listener (true, some dp, world) heap h = h
      complete-Made gc pub_listener sub_listener (true, none, world) heap h =
          give_up-Made _ (record heap { world = world }) h
      complete-Made gc pub_listener sub_listener (false, dp, world) heap h =
          give_up-Made _ (record heap { world = world }) h

      with_subscriber-Made :
          (gc : GuardCondition) (pub_listener : ℕ × Listener G)
          (made : Option (ℕ × Listener G) × Heap W)
          → Made NoneMore (λ l. NoneMore) made
          → After
              (Made NoneMore Owns)
              (with_subscriber factory registry G context name namespace gc pub_listener made)
      unfolding with_subscriber
      with_subscriber-Made gc pub_listener (none, heap) h = give_up-Made _ heap h
      with_subscriber-Made gc pub_listener (some sub_listener, heap) h =
          After-bind (λ (r : Bool × Option P × W). In r.1 r.2) (Made NoneMore Owns) _ _
            (join-In context.options.domain_id pub_listener.0 sub_listener.0 heap.world h)
            λ joined k. complete-Made gc pub_listener sub_listener joined heap k

      create_listener-Made :
          (heap : Heap W)
          → NoneMore heap.world
          → After
              (Made NoneMore (λ (l : ℕ × Listener G). NoneMore))
              (create factory.memory (λ h. ok (some new_listener, h)) heap)
      create_listener-Made heap h =
          create-Made NoneMore (λ l. NoneMore) factory.memory (λ h. ok (some new_listener, h)) heap
            (λ b k. k) h

      with_publisher-Made :
          (gc : GuardCondition) (made : Option (ℕ × Listener G) × Heap W)
          → Made NoneMore (λ l. NoneMore) made
          → After
              (Made NoneMore Owns)
              (with_publisher factory registry G context name namespace gc made)
      unfolding with_publisher
      with_publisher-Made gc (none, heap) h = give_up-Made _ heap h
      with_publisher-Made gc (some pub_listener, heap) h =
          After-bind (Made NoneMore (λ l. NoneMore)) (Made NoneMore Owns) _ _
            (create_listener-Made heap h) λ made k. with_subscriber-Made gc pub_listener made k

      with_guard_condition-Made :
          (gc : Option GuardCondition × Heap W)
          → NoneMore gc.1.world
          → After
              (Made NoneMore Owns)
              (with_guard_condition factory registry G context name namespace gc)
      unfolding with_guard_condition
      with_guard_condition-Made (none, heap) h = h
      with_guard_condition-Made (some gc, heap) h =
          After-bind (Made NoneMore (λ l. NoneMore)) (Made NoneMore Owns) _ _
            (create_listener-Made heap h) λ made k. with_publisher-Made gc made k

      pub construct_node-Made :
          (heap : Heap W)
          → NoneMore heap.world
          → After
              (Made NoneMore Owns)
              (construct_node factory registry G context name namespace heap)
      unfolding construct_node
      construct_node-Made heap h =
          let set = set_user_data factory name namespace heap.world in
          let same =
            set_user_data-Are factory registry participants law name namespace heap.world ∙ h in
          elim (Bool-cases (is_empty name || is_empty namespace)) [
            | inl e ↦ rw (construct_node, e) h
            | inr e ↦ elim (Bool-cases set.0) [
              | inr f ↦ rw (construct_node, e, connected, f) same
              | inl f ↦
                  rw (construct_node, e, connected, f)
                    (After-bind (λ (made : Option GuardCondition × Heap W). NoneMore made.1.world)
                      (Made NoneMore Owns) _
                      (with_guard_condition factory registry G context name namespace)
                      (rmw_create_guard_condition-Kept NoneMore factory.memory context
                        (record heap { world = set.1 }) same)
                      λ gc k. with_guard_condition-Made gc k)
            ]
          ]
