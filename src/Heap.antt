-- ===== src/Heap.antt =====
-- `RmwAllocateFree` (rmw_opendds_cpp/include/rmw_opendds_cpp/RmwAllocateFree.hpp) over a heap of
-- allocated addresses, which `rmw_allocate` and `rmw_free` of rmw change. The n-th allocation gets
-- the address n if there is memory; a free of what is not allocated is undefined behaviour.
mod Ledger
pub mod Worlds
unfoldable pub use Ledger.*
use rmw_opendds.Prelude.{
  ℕ, ◌+◌, ◌==◌, Bool, Option, none, some, List, [], ◌∷◌, if◌then◌else◌, Outcome, ok, undefined,
  ◌>>=◌,
}

module _ {W T : Type 0} where
  -- `create` on what `allocate` answers.
  unfoldable pub construct_at :
      (Heap W → Outcome (Option T × Heap W)) → Option ℕ × Heap W → Outcome (Option (ℕ × T) × Heap W)
  construct_at constructor (none, heap) = ok (none, heap)
  construct_at constructor (some a, heap) = do
    made ← constructor heap
    elim (made.0) [
      | none ↦ do freed ← free a made.1; ok (none, freed)
      | some t ↦ ok (some (a, t), made.1)
    ]

  -- `RmwAllocateFree::create`: an exception of the constructor, `none`, frees the memory again.
  -- What the constructor makes is paired with the address.
  unfoldable pub create :
      (ℕ → Bool)
      → (Heap W → Outcome (Option T × Heap W))
      → Heap W
      → Outcome (Option (ℕ × T) × Heap W)
  unfolding construct_at
  create memory constructor heap = construct_at constructor (allocate memory heap)

  -- `RmwAllocateFree::destroy`; what the destructor throws is caught. The pointer is null
  -- afterwards.
  unfoldable pub destroy :
      (T → Heap W → Outcome (Heap W)) → Option (ℕ × T) → Heap W → Outcome (Option (ℕ × T) × Heap W)
  destroy destructor none heap = ok (none, heap)
  destroy destructor (some (a, t)) heap = do
    destructed ← destructor t heap
    freed ← free a destructed
    ok (none, freed)
