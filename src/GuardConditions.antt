-- ===== src/GuardConditions.antt =====
-- Guard conditions: rmw_opendds_cpp/src/DDSGuardCondition.cpp and src/rmw_guard_condition.cpp. The
-- pointer to the context, which a guard condition only keeps, is left out.
pub mod Lifecycle
pub mod Worlds
use rmw_opendds.Prelude.{
  ℕ, Bool, true, false, not, ◌==◌, ◌||◌, Option, none, some, List, [], ◌∷◌, if◌then◌else◌, Outcome,
  ok, undefined, ◌>>=◌,
}
use rmw_opendds.Identifier.{Identifier, opendds_identifier, check_impl_id}
use rmw_opendds.Ret.{RmwRet, DdsRet, is_dds_ok}
use rmw_opendds.Heap.{Heap, create, destroy}
use rmw_opendds.Init.{Context}
use rmw_opendds.Structs.{Struct, clean_struct, create_struct}

-- `DDSGuardCondition`, by the address of its DDS::GuardCondition.
pub record DdsGuardCondition : Type 0 where
  pub gc : ℕ

-- `rmw_guard_condition_t`
pub record GuardCondition : Type 0 where
  pub implementation_identifier : Identifier
  pub struct : Struct DdsGuardCondition

-- `DDSGuardCondition::is_in`
unfoldable pub is_in : DdsGuardCondition → List ℕ → Bool
is_in c [] = false
is_in c (q ∷ cq) = (q == c.gc) || is_in c cq

abbrev pub gc_of : Option (ℕ × Unit {0}) → Option DdsGuardCondition
gc_of none = none
gc_of (some (a, u)) = some (record { gc = a })

abbrev pub identified : Option (Struct DdsGuardCondition) → Option GuardCondition
identified none = none
identified (some s) = some (record { implementation_identifier = opendds_identifier; struct = s })

module _ {W : Type 0} where
  -- `DDSGuardCondition::DDSGuardCondition`; the constructor of DDS::GuardCondition only
  -- initializes.
  unfoldable pub construct_guard_condition :
      (ℕ → Bool) → Heap W → Outcome (Option DdsGuardCondition × Heap W)
  construct_guard_condition memory heap = do
    made ← create memory (λ h. ok (some tt, h)) heap
    ok (gc_of made.0, made.1)

  unfoldable pub destruct_guard_condition : DdsGuardCondition → Heap W → Outcome (Heap W)
  destruct_guard_condition c heap = do
    gone ← destroy (λ (u : Unit {0}) h. ok h) (some (c.gc, tt)) heap
    ok gone.1

  -- A null context is read all the same: the macro that tests for it does not return.
  unfoldable pub rmw_create_guard_condition :
      {A : Type 0}
      → (ℕ → Bool)
      → Option (Context A)
      → Heap W
      → Outcome (Option GuardCondition × Heap W)
  rmw_create_guard_condition memory none heap = undefined
  rmw_create_guard_condition memory (some context) heap =
      if not (check_impl_id context.implementation_identifier) then ok (none, heap) else do
        made ← create_struct memory (construct_guard_condition memory) destruct_guard_condition heap
        ok (identified made.0, made.1)

  unfoldable pub rmw_destroy_guard_condition :
      Option GuardCondition → Heap W → Outcome (RmwRet × Heap W)
  rmw_destroy_guard_condition none heap = ok (RmwRet.invalid_argument, heap)
  rmw_destroy_guard_condition (some guard_condition) heap =
      if not (check_impl_id guard_condition.implementation_identifier)
      then ok (RmwRet.incorrect_rmw_implementation, heap)
      else do
        cleaned ← clean_struct destruct_guard_condition guard_condition.struct heap
        ok (RmwRet.ok, cleaned)

-- `DDSGuardCondition::from`
unfoldable pub from : Option GuardCondition → Option DdsGuardCondition
from none = none
from (some guard_condition) =
    if check_impl_id guard_condition.implementation_identifier
    then elim (guard_condition.struct.object) [ none ↦ none | some (a, c) ↦ some c ]
    else none

-- `set_trigger_value` is that of DDS::GuardCondition, on the world of DDS.
module _ {W : Type 0} (set_trigger_value : ℕ → Bool → W → DdsRet × W) where
  -- `DDSGuardCondition::set`
  unfoldable pub set : Bool → DdsGuardCondition → W → RmwRet × W
  set trigger_value c world =
      let (code, after) = set_trigger_value c.gc trigger_value world in
      (if is_dds_ok code then RmwRet.ok else RmwRet.error, after)

  unfoldable pub rmw_trigger_guard_condition : Option GuardCondition → W → RmwRet × W
  unfolding set
  rmw_trigger_guard_condition guard_condition world = elim (from guard_condition) [
    | none ↦ (RmwRet.invalid_argument, world)
    | some c ↦ set true c world
  ]
