-- ===== src/GuardConditions/Lifecycle.antt =====
-- The allocations of a guard condition.
use rmw_opendds.Prelude.{
  ℕ, ◌≡◌, ◌⊎◌, refl, Bool, true, none, some, List, [], ◌∷◌, ◌++◌, ok, Bool-cases, inl, inr,
}
use rmw_opendds.Identifier.{opendds_identifier, check_impl_id}
use rmw_opendds.Ret.{RmwRet}
use rmw_opendds.Heap.{
  Heap, create, construct_at, destroy, free_latest, allocate-some, allocate-none,
}
use rmw_opendds.Init.{Context}
use rmw_opendds.Handles.Balance.{IsTidy, cases_of_LeavesOwned, ok_of_Leaves}
use rmw_opendds.Structs.{clean_struct, create_struct}
use rmw_opendds.Structs.Balance.{struct_owned, struct-IsTidy}
use rmw_opendds.GuardConditions.{
  DdsGuardCondition, GuardCondition, construct_guard_condition, destruct_guard_condition,
  rmw_create_guard_condition, rmw_destroy_guard_condition,
}

abbrev gc_owned : DdsGuardCondition → List ℕ
gc_owned c = c.gc ∷ []

-- What a guard condition owns.
abbrev pub gc_allocations : GuardCondition → List ℕ
gc_allocations g = struct_owned gc_owned g.struct

module _ {W : Type 0} (memory : ℕ → Bool) where
  guard_condition-IsTidy :
      IsTidy {W = W} (construct_guard_condition memory) destruct_guard_condition gc_owned
  unfolding construct_guard_condition destruct_guard_condition create construct_at destroy
  guard_condition-IsTidy = record {
    constructs = λ heap. elim (Bool-cases (memory heap.next)) [
      | inr f ↦ rw (construct_guard_condition, create, allocate-none memory heap f) refl
      | inl e ↦ rw (construct_guard_condition, create, allocate-some memory heap e) refl
    ];
    destructs = λ c live heap h. rw (free_latest c.gc live heap h) refl;
  }

  handle-IsTidy :
      IsTidy {W = W}
        (create_struct memory (construct_guard_condition memory) destruct_guard_condition)
        (clean_struct destruct_guard_condition)
        (struct_owned gc_owned)
  handle-IsTidy =
      struct-IsTidy memory (construct_guard_condition memory) destruct_guard_condition gc_owned
        guard_condition-IsTidy

  -- For a context of the package, the creation of a guard condition returns, whatever fails. Either
  -- it is a null pointer and the allocations are those from before, or it is a guard condition of
  -- the package, and new are the allocations that it owns.
  pub created_cases :
      {A : Type 0} (context : Context A) (heap : Heap W)
      → check_impl_id context.implementation_identifier ≡ true
      → ((left : Heap W) × (rmw_create_guard_condition memory (some context) heap ≡ ok (none, left))
          × (left.live ≡ heap.live))
        ⊎ ((g : GuardCondition) × (left : Heap W) × (rmw_create_guard_condition memory
                (some context)
                heap
              ≡ ok (some g, left))
            × (g.implementation_identifier ≡ opendds_identifier)
            × (left.live ≡ gc_allocations g ++ heap.live))
  unfolding rmw_create_guard_condition
  created_cases context heap c =
      elim (cases_of_LeavesOwned _
        (create_struct memory (construct_guard_condition memory) destruct_guard_condition heap)
        (handle-IsTidy.constructs heap)) [
          | inl (left, e, h) ↦ inl (left, rw (rmw_create_guard_condition, c, e) refl, h)
          | inr (s, left, e, h) ↦ inr (
            record { implementation_identifier = opendds_identifier; struct = s },
            left,
            rw (rmw_create_guard_condition, c, e) refl,
            refl,
            h,
          )
        ]

  pub destroyed :
      (g : GuardCondition) (live : List ℕ) (heap : Heap W)
      → g.implementation_identifier ≡ opendds_identifier
      → heap.live ≡ gc_allocations g ++ live
      → (left : Heap W) × (rmw_destroy_guard_condition (some g) heap ≡ ok (RmwRet.ok, left))
        × (left.live ≡ live)
  unfolding rmw_destroy_guard_condition check_impl_id
  destroyed g live heap i h =
      let (left, e, l) =
        ok_of_Leaves (clean_struct destruct_guard_condition g.struct heap)
          (handle-IsTidy.destructs g.struct live heap h) in
      (left, rw (rmw_destroy_guard_condition, i, e) refl, l)
