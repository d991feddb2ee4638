-- ===== src/Structs.antt =====
-- The pattern by which rmw_opendds_cpp/src/rmw_node.cpp and src/rmw_guard_condition.cpp create and
-- clean: a struct of rmw, and behind its `data` an object made by `RmwAllocateFree`. What the
-- struct keeps besides is filled in by the callers.
pub mod Balance
pub mod Worlds
use rmw_opendds.Prelude.{ℕ, Bool, Option, none, some, Outcome, ok, ◌>>=◌}
use rmw_opendds.Heap.{Heap, allocate, free, create, destroy}

-- A struct at `address`, and the object that `data` points to.
pub record Struct (D : Type 0) : Type 0 where
  pub address : ℕ
  pub object : Option (ℕ × D)

module _ {W D : Type 0} where
  -- `clean_node` and `clean_guard_condition` of a struct that is not null.
  unfoldable pub clean_struct :
      (D → Heap W → Outcome (Heap W)) → Struct D → Heap W → Outcome (Heap W)
  clean_struct destruct s heap = do gone ← destroy destruct s.object heap; free s.address gone.1

  -- The object is asked for, and without it the struct is cleaned.
  unfoldable pub fill_struct :
      (D → Heap W → Outcome (Heap W))
      → ℕ
      → Option (ℕ × D) × Heap W
      → Outcome (Option (Struct D) × Heap W)
  unfolding clean_struct
  fill_struct destruct a (none, heap) = do
    cleaned ← clean_struct destruct (record { address = a; object = none }) heap
    ok (none, cleaned)
  fill_struct destruct a (some d, heap) = ok (some (record { address = a; object = some d }), heap)

  unfoldable pub struct_at :
      (ℕ → Bool)
      → (Heap W → Outcome (Option D × Heap W))
      → (D → Heap W → Outcome (Heap W))
      → Option ℕ × Heap W
      → Outcome (Option (Struct D) × Heap W)
  unfolding fill_struct
  struct_at memory construct destruct (none, heap) = ok (none, heap)
  struct_at memory construct destruct (some a, heap) = do
    made ← create memory construct heap
    fill_struct destruct a made

  unfoldable pub create_struct :
      (ℕ → Bool)
      → (Heap W → Outcome (Option D × Heap W))
      → (D → Heap W → Outcome (Heap W))
      → Heap W
      → Outcome (Option (Struct D) × Heap W)
  unfolding struct_at
  create_struct memory construct destruct heap =
      struct_at memory construct destruct (allocate memory heap)
