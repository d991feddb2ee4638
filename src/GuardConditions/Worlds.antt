-- ===== src/GuardConditions/Worlds.antt =====
-- A guard condition (rmw_opendds_cpp/src/rmw_guard_condition.cpp) is made and ended on the heap
-- alone: every property of the world is kept.
use rmw_opendds.Prelude.{
  ℕ, Bool, Option, none, some, ok, After, Option-cases, Bool-cases, inl, inr, After-bind,
}
use rmw_opendds.Identifier.{check_impl_id}
use rmw_opendds.Ret.{RmwRet}
use rmw_opendds.Init.{Context}
use rmw_opendds.Heap.{Heap}
use rmw_opendds.Heap.Worlds.{Made, Kept, create-Made, destroy-Kept}
use rmw_opendds.Structs.{Struct}
use rmw_opendds.Structs.Worlds.{InStruct, clean_struct-Kept, create_struct-Made}
use rmw_opendds.GuardConditions.{
  gc_of, identified, DdsGuardCondition, GuardCondition, construct_guard_condition,
  destruct_guard_condition, rmw_create_guard_condition, rmw_destroy_guard_condition,
}

module _ {W : Type 0} (p : W → Type 0) where
  abbrev Anyway : {D : Type 0} → D → W → Type 0
  Anyway d world = p world

  -- The object wants nothing more than the world's property.
  plain : {D : Type 0} (made : Option D × Heap W) → Made p Anyway made → p made.1.world
  plain (none, heap) h = h
  plain (some d, heap) h = h

  in_plain :
      {D : Type 0} (a : ℕ) (object : Option (ℕ × D)) (world : W)
      → p world
      → InStruct p Anyway (record { address = a; object = object }) world
  in_plain a none world h = h
  in_plain a (some object) world h = h

  out_plain :
      {D : Type 0} (made : Option (Struct D) × Heap W)
      → Made p (InStruct p Anyway) made
      → p made.1.world
  out_plain (none, heap) h = h
  out_plain (some s, heap) h = elim (Option-cases s.object) [
    | inl e ↦ rw e at h
    | inr (object, e) ↦ rw e at h
  ]

  with_gc :
      (made : Option (ℕ × Unit {0}) × Heap W)
      → p made.1.world
      → Made p (Anyway {D = DdsGuardCondition}) (gc_of made.0, made.1)
  with_gc (none, heap) h = h
  with_gc (some object, heap) h = h

  constructed :
      (memory : ℕ → Bool) (heap : Heap W)
      → p heap.world
      → After (Made p Anyway) (construct_guard_condition memory heap)
  unfolding construct_guard_condition
  constructed memory heap h =
      After-bind (Made p (λ (u : ℕ × Unit {0}) world. p world)) (Made p Anyway) _ _
        (create-Made p (λ (u : Unit {0}) world. p world) memory _ heap (λ b k. k) h)
        λ made k. with_gc made (plain made k)

  destructed :
      (c : DdsGuardCondition) (heap : Heap W)
      → p heap.world
      → After (Kept p) (destruct_guard_condition c heap)
  unfolding destruct_guard_condition
  destructed c heap h =
      After-bind (λ (gone : Option (ℕ × Unit {0}) × Heap W). p gone.1.world) (Kept p) _ _
        (destroy-Kept p (λ (u : Unit {0}) world. p world) (λ u b. ok b) (some (c.gc, tt)) heap
          (λ u b k. k) h)
        λ gone k. k

  pub rmw_create_guard_condition-Kept :
      {A : Type 0} (memory : ℕ → Bool) (context : Context A) (heap : Heap W)
      → p heap.world
      → After
          (λ (made : Option GuardCondition × Heap W). p made.1.world)
          (rmw_create_guard_condition memory (some context) heap)
  unfolding rmw_create_guard_condition
  rmw_create_guard_condition-Kept memory context heap h =
      elim (Bool-cases (check_impl_id context.implementation_identifier)) [
        | inr e ↦ rw (rmw_create_guard_condition, e) h
        | inl e ↦
            rw (rmw_create_guard_condition, e)
              (After-bind (Made p (InStruct p Anyway))
                (λ (made : Option GuardCondition × Heap W). p made.1.world) _
                (λ made. ok (identified made.0, made.1))
                (create_struct-Made p Anyway destruct_guard_condition destructed memory
                  (construct_guard_condition memory) heap (constructed memory) h)
                λ made k. out_plain made k)
      ]

  pub rmw_destroy_guard_condition-Kept :
      (guard_condition : GuardCondition) (heap : Heap W)
      → p heap.world
      → After
          (λ (gone : RmwRet × Heap W). p gone.1.world)
          (rmw_destroy_guard_condition (some guard_condition) heap)
  unfolding rmw_destroy_guard_condition
  rmw_destroy_guard_condition-Kept guard_condition heap h =
      elim (Bool-cases (check_impl_id guard_condition.implementation_identifier)) [
        | inr e ↦ rw (rmw_destroy_guard_condition, e) h
        | inl e ↦
            rw (rmw_destroy_guard_condition, e)
              (After-bind (Kept p) (λ (gone : RmwRet × Heap W). p gone.1.world) _
                (λ left. ok (RmwRet.ok, left))
                (clean_struct-Kept p Anyway destruct_guard_condition destructed
                  guard_condition.struct heap
                  (in_plain guard_condition.struct.address guard_condition.struct.object heap.world
                    h))
                λ left k. k)
      ]
