-- ===== src/Participants/Tidy.antt =====
-- The allocations of the constructor of OpenDDSNode, with the `cleanup` that it calls.
use rmw_opendds.Prelude.{
  ℕ, ◌+◌, ◌%◌, ◌^◌, ◌⊎◌, ap, ◌>>=◌, ◌≡◌, refl, append_assoc, Bool, true, false, ◌||◌, Option, none,
  some, List, [], ◌∷◌, ◌++◌, if◌then◌else◌, is_empty, ok, Bool-cases, inl, inr, ◌∙◌,
}
use rmw_opendds.Text.{Bytes}
use rmw_opendds.Identifier.{Identifier, null, opendds_identifier, other, check_impl_id}
use rmw_opendds.Heap.{
  Heap, create, construct_at, destroy, free_latest, allocate-some, allocate-none,
}
use rmw_opendds.Listener.{Listener}
use rmw_opendds.Init.{Context}
use rmw_opendds.Handles.Balance.{LeavesOwned}
use rmw_opendds.GuardConditions.{
  GuardCondition, rmw_create_guard_condition, rmw_destroy_guard_condition,
}
use rmw_opendds.GuardConditions.Lifecycle.{gc_allocations, created_cases, destroyed}
use rmw_opendds.Participants.{
  Factory, Parts, OpenDdsNode, new_listener, destruct_listener, set_user_data, join,
}
use rmw_opendds.Participants.Transport.{Registry}
use rmw_opendds.Participants.Construct.{
  has_factory, leave, drop_guard_condition, cleanup, give_up, complete, with_subscriber,
  with_publisher, with_guard_condition, construct_node,
}

-- What a node frees with its guard condition: nothing if that is not of the package.
abbrev gc_owned : GuardCondition → List ℕ
gc_owned g = if check_impl_id g.implementation_identifier then gc_allocations g else []

abbrev gc_live : Option GuardCondition → List ℕ
gc_live none = []
gc_live (some g) = gc_owned g

abbrev listener_live : {G : Type 0} → Option (ℕ × Listener G) → List ℕ
listener_live none = []
listener_live (some listener) = listener.0 ∷ []

abbrev parts_live : {G P : Type 0} → Parts G P → List ℕ
parts_live parts =
    listener_live parts.sub_listener ++ (listener_live parts.pub_listener ++ gc_live parts.gc)

-- What a node owns.
abbrev pub owned : {G P : Type 0} → OpenDdsNode G P → List ℕ
owned dds_node = dds_node.sub_listener.0 ∷ dds_node.pub_listener.0 ∷ gc_owned dds_node.gc

destroyed_listener :
    {G W : Type 0} (l : Option (ℕ × Listener G)) (live : List ℕ) (heap : Heap W)
    → heap.live ≡ listener_live l ++ live
    → (left : Heap W) × (destroy destruct_listener l heap ≡ ok (none, left)) × (left.live ≡ live)
unfolding destroy
destroyed_listener none live heap h = (heap, refl, h)
destroyed_listener (some l) live heap h =
    (record heap { live = live }, rw (free_latest l.0 live heap h) refl, refl)

opendds_of_check : (i : Identifier) → check_impl_id i ≡ true → i ≡ opendds_identifier
unfolding check_impl_id
opendds_of_check opendds_identifier h = refl
opendds_of_check null h = cc h
opendds_of_check (other n) h = cc h

dropped :
    {W : Type 0} (gc : Option GuardCondition) (live : List ℕ) (heap : Heap W)
    → heap.live ≡ gc_live gc ++ live
    → (left : Heap W) × (drop_guard_condition gc heap ≡ ok left) × (left.live ≡ live)
unfolding drop_guard_condition rmw_destroy_guard_condition
dropped none live heap h = (heap, refl, h)
dropped (some g) live heap h = elim (Bool-cases (check_impl_id g.implementation_identifier)) [
  | inl e ↦
      let (left, f, l) =
        destroyed (λ n. true) g live heap (opendds_of_check g.implementation_identifier e)
          (rw e at h) in
      (left, rw (drop_guard_condition, f) refl, l)
  | inr e ↦ (heap, rw (drop_guard_condition, rmw_destroy_guard_condition, e) refl, rw e at h)
]

left_by :
    {Q P S W A : Type 0} (factory : Factory Q P S W) (context : Context A) (dp : Option P)
    (world : W)
    → (left : W) × (leave factory (some (has_factory context)) dp world ≡ ok left)
unfolding leave
left_by factory context none world = (world, refl)
left_by factory context (some dp) world = (_, refl)

module _ {Q P S W A G : Type 0} (factory : Factory Q P S W) (context : Context A) where
  cleaned :
      (parts : Parts G P) (live : List ℕ) (heap : Heap W)
      → heap.live ≡ parts_live parts ++ live
      → (left : Heap W) × (cleanup factory (some (has_factory context)) parts heap ≡ ok left)
        × (left.live ≡ live)
  unfolding cleanup
  cleaned parts live heap h =
      let (world, w) = left_by factory context parts.dp heap.world in
      let begun : Heap W = record heap { world = world } in
      let rest = listener_live parts.pub_listener ++ gc_live parts.gc in
      let (subscriber, e, l) =
        destroyed_listener parts.sub_listener (rest ++ live) begun
          (h ∙ append_assoc (listener_live parts.sub_listener) rest live) in
      let (publisher, f, m) =
        destroyed_listener parts.pub_listener (gc_live parts.gc ++ live) subscriber
          (l ∙ append_assoc (listener_live parts.pub_listener) (gc_live parts.gc) live) in
      let (left, g, n) = dropped parts.gc live publisher m in (left, rw (cleanup, w, e, f) g, n)

  give_up-LeavesOwned :
      (parts : Parts G P) (live : List ℕ) (heap : Heap W)
      → heap.live ≡ parts_live parts ++ live
      → LeavesOwned {D = OpenDdsNode G P} owned live (give_up factory context parts heap)
  unfolding give_up
  give_up-LeavesOwned parts live heap h =
      let (left, e, l) = cleaned parts live heap h in rw (give_up, e) l

-- A listener is made, or memory is out.
listener_cases :
    {W : Type 0} (G : Type 0) (memory : ℕ → Bool) (heap : Heap W)
    → ((left : Heap W) × (create memory (λ h. ok (some (new_listener {G = G}), h)) heap
          ≡ ok (none, left))
        × (left.live ≡ heap.live))
      ⊎ ((a : ℕ) × (left : Heap W) × (create memory (λ h. ok (some (new_listener {G = G}), h)) heap
            ≡ ok (some (a, new_listener), left))
          × (left.live ≡ a ∷ heap.live))
unfolding create construct_at
listener_cases G memory heap = elim (Bool-cases (memory heap.next)) [
  | inr f ↦ inl (record heap { next = heap.next + 1 }, rw (allocate-none memory heap f) refl, refl)
  | inl e ↦ inr (
    heap.next,
    record heap { next = heap.next + 1; live = heap.next ∷ heap.live },
    rw (allocate-some memory heap e) refl,
    refl,
  )
]

module _ {Q P S Ti Tc W A : Type 0} (factory : Factory Q P S W) (registry : Registry Ti Tc P W)
    (G : Type 0) (context : Context A) (name namespace : Bytes)
    (rtps : (domain : ℕ) (world : W) → factory.has_rtps_discovery domain world ≡ true) where
  complete-LeavesOwned :
      (gc : GuardCondition) (pub_listener sub_listener : ℕ × Listener G)
      (joined : Bool × Option P × W) (live : List ℕ) (heap : Heap W)
      → heap.live ≡ sub_listener.0 ∷ pub_listener.0 ∷ (gc_owned gc ++ live)
      → LeavesOwned owned live (
          complete factory registry G context name namespace gc pub_listener sub_listener joined
            heap)
  unfolding complete
  complete-LeavesOwned gc pub_listener sub_listener (true, some dp, world) live heap h = h
  complete-LeavesOwned gc pub_listener sub_listener (true, none, world) live heap h =
      give_up-LeavesOwned factory context _ live (record heap { world = world }) h
  complete-LeavesOwned gc pub_listener sub_listener (false, dp, world) live heap h =
      give_up-LeavesOwned factory context _ live (record heap { world = world }) h

  with_subscriber-LeavesOwned :
      (gc : GuardCondition) (pub_listener : ℕ × Listener G) (live : List ℕ) (heap : Heap W)
      → heap.live ≡ pub_listener.0 ∷ (gc_owned gc ++ live)
      → LeavesOwned owned live (do
        made ← create factory.memory (λ h. ok (some new_listener, h)) heap
        with_subscriber factory registry G context name namespace gc pub_listener made)
  unfolding with_subscriber join
  with_subscriber-LeavesOwned gc pub_listener live heap h =
      elim (listener_cases G factory.memory heap) [
        | inl (left, e, l) ↦ rw e (give_up-LeavesOwned factory context _ live left (l ∙ h))
        | inr (a, left, e, l) ↦
            rw (e, rtps (context.options.domain_id % 2 ^ 32) left.world)
              (complete-LeavesOwned gc pub_listener (a, new_listener) _ live left
                (l ∙ ap (λ x. a ∷ x) h))
      ]

  with_publisher-LeavesOwned :
      (gc : GuardCondition) (live : List ℕ) (heap : Heap W)
      → heap.live ≡ gc_owned gc ++ live
      → LeavesOwned owned live (do
        made ← create factory.memory (λ h. ok (some new_listener, h)) heap
        with_publisher factory registry G context name namespace gc made)
  unfolding with_publisher
  with_publisher-LeavesOwned gc live heap h = elim (listener_cases G factory.memory heap) [
    | inl (left, e, l) ↦ rw e (give_up-LeavesOwned factory context _ live left (l ∙ h))
    | inr (a, left, e, l) ↦
        rw e (with_subscriber-LeavesOwned gc (a, new_listener) live left (l ∙ ap (λ x. a ∷ x) h))
  ]

  module _ (checked : check_impl_id context.implementation_identifier ≡ true)
      (connected : has_factory context ≡ true) where
    named-LeavesOwned :
        (heap : Heap W)
        → LeavesOwned owned heap.live (do
          gc ← rmw_create_guard_condition factory.memory (some context) heap
          with_guard_condition factory registry G context name namespace gc)
    unfolding with_guard_condition check_impl_id
    named-LeavesOwned heap = elim (created_cases factory.memory context heap checked) [
      | inl (left, e, l) ↦ rw e l
      | inr (g, left, e, i, l) ↦
          rw e (with_publisher-LeavesOwned g heap.live left (rw (i, check_impl_id) l))
    ]

    -- The constructor of a node.
    pub construct_node-LeavesOwned :
        (heap : Heap W)
        → LeavesOwned owned heap.live
            (construct_node factory registry G context name namespace heap)
    unfolding construct_node
    construct_node-LeavesOwned heap = elim (Bool-cases (is_empty name || is_empty namespace)) [
      | inl e ↦ rw (construct_node, e) refl
      | inr e ↦ elim (Bool-cases (set_user_data factory name namespace heap.world).0) [
        | inr f ↦ rw (construct_node, e, connected, f) refl
        | inl f ↦
            rw (construct_node, e, connected, f)
              (named-LeavesOwned
                (record heap { world = (set_user_data factory name namespace heap.world).1 }))
      ]
    ]
