-- ===== src/Handles.antt =====
-- The pattern by which rmw_opendds_cpp/src/rmw_publisher.cpp, rmw_subscription.cpp, rmw_client.cpp
-- and rmw_guard_condition.cpp create and clean an entity: a struct of rmw, and behind its `data` an
-- object of the package made by `RmwAllocateFree`.
pub mod Balance
use rmw_opendds.Prelude.{ℕ, Bool, Option, none, some, if◌then◌else◌, Outcome, ok, ◌>>=◌}
use rmw_opendds.Text.{Bytes}
use rmw_opendds.Identifier.{Identifier, opendds_identifier, check_impl_id}
use rmw_opendds.Heap.{Heap, allocate, free, create, destroy}

-- `rmw_publisher_t` and its like: `handle_data` is what `data` points to, `name` the topic's or the
-- service's name.
pub record RmwHandle (D : Type 0) : Type 0 where
  pub implementation_identifier : Identifier
  pub handle_data : Option (ℕ × D)
  pub name : Option Bytes

-- `from` of the package's classes.
unfoldable pub from : {D : Type 0} → Option (ℕ × RmwHandle D) → Option (ℕ × D)
from none = none
from (some (a, handle)) =
    if check_impl_id handle.implementation_identifier then handle.handle_data else none

module _ {W D : Type 0} where
  -- `clean_publisher` and its like.
  unfoldable pub clean :
      (D → Heap W → Outcome (Heap W)) → Option (ℕ × RmwHandle D) → Heap W → Outcome (Heap W)
  clean destruct none heap = ok heap
  clean destruct (some (a, handle)) heap = do
    gone ← destroy destruct handle.handle_data heap
    free a gone.1

  unfoldable pub initial_at : Option ℕ × Heap W → Option (ℕ × RmwHandle D) × Heap W
  initial_at (none, heap) = (none, heap)
  initial_at (some a, heap) = (
    some (
      a,
      record { implementation_identifier = opendds_identifier; handle_data = none; name = none },
    ),
    heap,
  )

  -- `create_initial_publisher` and its like; `none` where memory is out.
  unfoldable pub create_initial : (ℕ → Bool) → Heap W → Option (ℕ × RmwHandle D) × Heap W
  unfolding initial_at
  create_initial memory heap = initial_at (allocate memory heap)

-- `rmw_create_publisher` and its like behind the check of the node, of state `N`. `register` is
-- what enters the object into the node: whether it returns, and the node.
module _ {W N D : Type 0} (memory : ℕ → Bool) (construct : Heap W → Outcome (Option D × Heap W))
    (destruct : D → Heap W → Outcome (Heap W)) (name_of : D → Bytes)
    (register : D → N → Bool × N) where
  -- The struct is cleaned where no object is made, or `register` throws.
  unfoldable pub finish :
      ℕ × RmwHandle D
      → Option (ℕ × D)
      → N
      → Heap W
      → Outcome (Option (ℕ × RmwHandle D) × N × Heap W)
  finish handle none node heap = do
    cleaned ← clean destruct (some handle) heap
    ok (none, node, cleaned)
  finish handle (some (ad, d)) node heap =
      let filled : ℕ × RmwHandle D =
        (handle.0, record handle.1 { handle_data = some (ad, d); name = some (name_of d) }) in
      let (returned, entered) = register d node in
      if returned
      then ok (some filled, entered, heap)
      else do cleaned ← clean destruct (some filled) heap; ok (none, entered, cleaned)

  unfoldable pub fill :
      N → Option (ℕ × RmwHandle D) × Heap W → Outcome (Option (ℕ × RmwHandle D) × N × Heap W)
  unfolding finish
  fill node (none, heap) = ok (none, node, heap)
  fill node (some handle, heap) = do
    made ← create memory construct heap
    finish handle made.0 node made.1

  unfoldable pub create_handle : N → Heap W → Outcome (Option (ℕ × RmwHandle D) × N × Heap W)
  unfolding fill
  create_handle node heap = fill node (create_initial memory heap)
