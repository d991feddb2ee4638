-- ===== src/WaitSets.antt =====
-- What `wait` works on (rmw_opendds_cpp/include/rmw_opendds_cpp/wait.hpp, types.hpp): the interface
-- of DDS's wait sets, the arrays of pointers, and the package's own wait set.
pub mod Storage
use rmw_opendds.Prelude.{ℕ, ◌≡◌, ◌↔◌, Bool, true, Option, List}
use rmw_opendds.Identifier.{Identifier}
use rmw_opendds.Ret.{RmwRet, DdsRet}
use rmw_opendds.Qos.{Duration}
use rmw_opendds.Events.{StatusKinds, Event}

-- What the code takes from DDS: conditions compared as pointers, the operations of a wait set and
-- of a guard condition on the world `W` of DDS, and the status changes of an entity. `get_entity`
-- is the virtual method of DDSEntity; `none` is a null pointer.
pub record Dds (C D W : Type 0) : Type 0 where
  pub same : C → C → Bool
  pub same_iff : (a b : C) → (same a b ≡ true) ↔ (a ≡ b)
  pub attach_condition : C → W → DdsRet × W
  pub wait : Duration → W → DdsRet × List C × W
  pub get_conditions : W → DdsRet × List C × W
  pub detach_condition : C → W → DdsRet × W
  pub set_trigger_value : C → Bool → W → DdsRet × W
  pub get_entity : D → Option ℕ
  pub get_status_changes : ℕ → W → ℕ
  pub infinite : Duration
  pub kinds : StatusKinds
  pub matches : Identifier → Bool

-- A DDSSubscriber, a DDSServer or a DDSClient, of which the wait uses the read condition.
pub record Endpoint (C : Type 0) : Type 0 where
  pub read_condition : Option C

-- The arrays of pointers that `wait` reads and resets. A null array is `none`, and so is a null
-- pointer in it. A guard condition is a DDSGuardCondition, given by its condition.
pub record Request (C D : Type 0) : Type 0 where
  pub subscriptions : Option (List (Option (Endpoint C)))
  pub guard_conditions : Option (List (Option C))
  pub services : Option (List (Option (Endpoint C)))
  pub clients : Option (List (Option (Endpoint C)))
  pub events : Option (List (Option (Event D)))

-- `OpenDDSWaitSetInfo`: whether it has a wait set, and its two sequences.
pub record WaitSetInfo (C : Type 0) : Type 0 where
  pub has_wait_set : Bool
  pub active_conditions : Option (List C)
  pub attached_conditions : Option (List C)

-- `rmw_wait_set_t`
pub record WaitSet (C : Type 0) : Type 0 where
  pub implementation_identifier : Identifier
  pub info : Option (WaitSetInfo C)

-- What the steps leave that the cleaner encloses.
pub record Waited (C D W : Type 0) : Type 0 where
  pub ret : RmwRet
  pub request : Request C D
  pub active : List C
  pub world : W

-- What the call leaves, the wait set included.
pub record Answer (C D W : Type 0) : Type 0 where
  pub ret : RmwRet
  pub request : Request C D
  pub wait_set : Option (WaitSet C)
  pub world : W
