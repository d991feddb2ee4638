-- ===== src/Participants/Construct.antt =====
-- The constructor and `cleanup` of OpenDDSNode on the heap (rmw_opendds_cpp/src/OpenDDSNode.cpp).
-- The object behind `context_` is there while the constructor runs, and not afterwards.
use rmw_opendds.Prelude.{
  ℕ, Bool, true, false, not, ◌||◌, Option, none, some, [], if◌then◌else◌, is_empty, Outcome, ok,
  undefined, ◌>>=◌,
}
use rmw_opendds.Text.{Bytes}
use rmw_opendds.Heap.{Heap, create, destroy}
use rmw_opendds.Listener.{Listener}
use rmw_opendds.Init.{Context}
use rmw_opendds.GuardConditions.{
  GuardCondition, rmw_create_guard_condition, rmw_destroy_guard_condition,
}
use rmw_opendds.Participants.{
  Factory, Parts, OpenDdsNode, new_listener, destruct_listener, set_user_data, join,
}
use rmw_opendds.Participants.Transport.{Registry}

-- A null pointer is the empty text.
abbrev pub text_of : Option Bytes → Bytes
text_of none = []
text_of (some text) = text

-- Whether `context_.impl && context_.impl->dpf_`.
abbrev pub has_factory : {A : Type 0} → Context A → Bool
has_factory context = elim (context.impl) [ none ↦ false | some (a, impl) ↦ impl.dpf ]

-- `gc_`; what `rmw_destroy_guard_condition` answers is only logged.
unfoldable pub drop_guard_condition :
    {W : Type 0} → Option GuardCondition → Heap W → Outcome (Heap W)
drop_guard_condition none heap = ok heap
drop_guard_condition (some gc) heap = do
  gone ← rmw_destroy_guard_condition (some gc) heap
  ok gone.1

module _ {Q P S W : Type 0} (factory : Factory Q P S W) where
  -- The first part of `cleanup`, on the world of DDS: of the object behind `context_`, whether
  -- `impl` and `dpf_` are there, or `none` where the object is gone, so that to read it is
  -- undefined. What the calls answer is only logged.
  unfoldable pub leave : Option Bool → Option P → W → Outcome W
  leave context none world = ok world
  leave none (some dp) world = undefined
  leave (some connected) (some dp) world =
      let emptied = (factory.delete_contained_entities dp world).1 in
      ok (if connected then (factory.delete_participant dp emptied).1 else emptied)

  unfoldable pub cleanup : {G : Type 0} → Option Bool → Parts G P → Heap W → Outcome (Heap W)
  unfolding leave drop_guard_condition
  cleanup context parts heap = do
    world ← leave context parts.dp heap.world
    subscriber ← destroy destruct_listener parts.sub_listener (record heap { world = world })
    publisher ← destroy destruct_listener parts.pub_listener subscriber.1
    drop_guard_condition parts.gc publisher.1

  -- `~OpenDDSNode`. `create` of RmwAllocateFree takes the context by value, and `context_` refers
  -- to that argument: it is gone once `create` has returned.
  unfoldable pub destruct_node : {G : Type 0} → OpenDdsNode G P → Heap W → Outcome (Heap W)
  unfolding cleanup
  destruct_node {G} dds_node heap =
      let parts : Parts G P = record {
        gc = some dds_node.gc;
        pub_listener = some dds_node.pub_listener;
        sub_listener = some dds_node.sub_listener;
        dp = some dds_node.dp;
      } in
      cleanup none parts heap

  -- The `catch`: the exception leaves the constructor.
  unfoldable pub give_up :
      {A G : Type 0} → Context A → Parts G P → Heap W → Outcome (Option (OpenDdsNode G P) × Heap W)
  unfolding cleanup
  give_up context parts heap = do
    cleaned ← cleanup (some (has_factory context)) parts heap
    ok (none, cleaned)

module _ {Q P S Ti Tc W : Type 0} (factory : Factory Q P S W) (registry : Registry Ti Tc P W)
    {A : Type 0} (G : Type 0) (context : Context A) (name namespace : Bytes) where
  -- The constructor's `try` once all is allocated, with what `join` leaves.
  unfoldable pub complete :
      GuardCondition
      → ℕ × Listener G
      → ℕ × Listener G
      → Bool × Option P × W
      → Heap W
      → Outcome (Option (OpenDdsNode G P) × Heap W)
  complete gc pub_listener sub_listener (true, some dp, world) heap = ok (
    some (record {
      name = name;
      namespace = namespace;
      gc = gc;
      pub_listener = pub_listener;
      sub_listener = sub_listener;
      dp = dp;
    }),
    record heap { world = world },
  )
  complete gc pub_listener sub_listener (done, dp, world) heap =
      give_up factory context
        (record {
          gc = some gc;
          pub_listener = some pub_listener;
          sub_listener = some sub_listener;
          dp = dp;
        })
        (record heap { world = world })

  -- With what `CustomSubscriberListener::Raf::create` answers, and the two before it.
  unfoldable pub with_subscriber :
      GuardCondition
      → ℕ × Listener G
      → Option (ℕ × Listener G) × Heap W
      → Outcome (Option (OpenDdsNode G P) × Heap W)
  unfolding complete
  with_subscriber gc pub_listener (none, heap) =
      give_up factory context
        (record { gc = some gc; pub_listener = some pub_listener; sub_listener = none; dp = none })
        heap
  with_subscriber gc pub_listener (some sub_listener, heap) = do
    joined ←
        join factory registry context.options.domain_id pub_listener.0 sub_listener.0 heap.world
    complete gc pub_listener sub_listener joined heap

  unfoldable pub with_publisher :
      GuardCondition
      → Option (ℕ × Listener G) × Heap W
      → Outcome (Option (OpenDdsNode G P) × Heap W)
  unfolding with_subscriber
  with_publisher gc (none, heap) =
      give_up factory context
        (record { gc = some gc; pub_listener = none; sub_listener = none; dp = none }) heap
  with_publisher gc (some pub_listener, heap) = do
    made ← create factory.memory (λ h. ok (some new_listener, h)) heap
    with_subscriber gc pub_listener made

  -- `cleanup` finds nothing where there is no guard condition.
  unfoldable pub with_guard_condition :
      Option GuardCondition × Heap W → Outcome (Option (OpenDdsNode G P) × Heap W)
  unfolding with_publisher
  with_guard_condition (none, heap) = ok (none, heap)
  with_guard_condition (some gc, heap) = do
    made ← create factory.memory (λ h. ok (some new_listener, h)) heap
    with_publisher gc made

  -- `OpenDDSNode::OpenDDSNode`; `none` where it throws. A context without `impl` is used all the
  -- same.
  unfoldable pub construct_node : Heap W → Outcome (Option (OpenDdsNode G P) × Heap W)
  unfolding with_guard_condition
  construct_node heap =
      let (set, world) = set_user_data factory name namespace heap.world in
      if is_empty name || is_empty namespace
      then ok (none, heap)
      else if not (has_factory context)
      then undefined
      else if not set
      then ok (none, record heap { world = world })
      else do
        gc ←
            rmw_create_guard_condition factory.memory (some context) (record heap { world = world })
        with_guard_condition gc
