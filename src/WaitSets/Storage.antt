-- ===== src/WaitSets/Storage.antt =====
-- The creation and the end of a wait set (rmw_opendds_cpp/src/wait_set.cpp, src/rmw_wait_set.cpp):
-- the three objects of OpenDDSWaitSetInfo (include/rmw_opendds_cpp/types.hpp) are built in place,
-- in memory that `rmw_allocate` gives.
pub mod Creation
pub mod Lifecycle
use rmw_opendds.Prelude.{
  ℕ, Bool, true, false, not, ◌&&◌, Option, none, some, if◌then◌else◌, Outcome, ok, undefined, ◌>>=◌,
}
use rmw_opendds.Identifier.{Identifier, opendds_identifier}
use rmw_opendds.Ret.{RmwRet}
use rmw_opendds.Heap.{Heap, allocate, free}

-- A pointer of OpenDDSWaitSetInfo: one that was never written, a null pointer, one to memory in
-- which no object was made, and one to an object.
pub data Member : Type 0 where
  uninitialized null : Member
  raw : ℕ → Member
  built : ℕ → Member

-- `OpenDDSWaitSetInfo` at its address
pub record InfoAt : Type 0 where
  pub address : ℕ
  pub wait_set : Member
  pub active_conditions : Member
  pub attached_conditions : Member

-- `rmw_wait_set_t` at its address
pub record WaitSetAt : Type 0 where
  pub address : ℕ
  pub implementation_identifier : Identifier
  pub info : Option InfoAt

-- The constructors and the destructors of DDS::WaitSet and DDS::ConditionSeq on the world of DDS:
-- whether they return, or throw. The argument of a sequence's constructor is its maximum, 0 for the
-- default constructor.
pub record Objects (W : Type 0) : Type 0 where
  pub construct_wait_set : W → Bool × W
  pub construct_sequence : ℕ → W → Bool × W
  pub destruct_wait_set : W → Bool × W
  pub destruct_sequence : W → Bool × W

module _ {W : Type 0} where
  -- A member as the block at `fail` treats it. What a destructor throws is only logged.
  unfoldable pub fail_member : (W → Bool × W) → Member → Heap W → Outcome (Heap W)
  fail_member destruct uninitialized heap = undefined
  fail_member destruct null heap = ok heap
  fail_member destruct (raw a) heap = undefined
  fail_member destruct (built a) heap = free a (record heap { world = (destruct heap.world).1 })

  -- A member as `destroy_wait_set` treats it: whether its destructor returns.
  unfoldable pub destroy_member : (W → Bool × W) → Member → Heap W → Outcome (Bool × Heap W)
  destroy_member destruct uninitialized heap = undefined
  destroy_member destruct null heap = ok (true, heap)
  destroy_member destruct (raw a) heap = undefined
  destroy_member destruct (built a) heap =
      let (returned, world) = destruct heap.world in
      do freed ← free a (record heap { world = world }); ok (returned, freed)

module _ {W : Type 0} (objects : Objects W) where
  -- `fail`, with the struct and its `data`.
  unfoldable pub fail : ℕ → InfoAt → Heap W → Outcome (Option WaitSetAt × Heap W)
  unfolding fail_member
  fail a info heap = do
    active ← fail_member objects.destruct_sequence info.active_conditions heap
    attached ← fail_member objects.destruct_sequence info.attached_conditions active
    waiting ← fail_member objects.destruct_wait_set info.wait_set attached
    without_data ← free info.address waiting
    left ← free a without_data
    ok (none, left)

  -- The two sequences, whose memory is there, are built.
  unfoldable pub build_attached :
      Identifier → ℕ → ℕ → InfoAt → ℕ → Bool × W → Heap W → Outcome (Option WaitSetAt × Heap W)
  unfolding fail
  build_attached identifier max_conditions a info attached (true, world) heap = ok (
    some (record {
      address = a;
      implementation_identifier = identifier;
      info = some (record info { attached_conditions = built attached });
    }),
    record heap { world = world },
  )
  build_attached identifier max_conditions a info attached (false, world) heap =
      fail a info (record heap { world = world })

  unfoldable pub build_active :
      Identifier → ℕ → ℕ → InfoAt → ℕ → ℕ → Bool × W → Heap W → Outcome (Option WaitSetAt × Heap W)
  unfolding build_attached
  build_active identifier max_conditions a info active attached (true, world) heap =
      build_attached identifier max_conditions a (record info { active_conditions = built active })
        attached (objects.construct_sequence max_conditions world) (record heap { world = world })
  build_active identifier max_conditions a info active attached (false, world) heap =
      fail a info (record heap { world = world })

  -- `attached_conditions` is allocated.
  unfoldable pub with_attached :
      Identifier → ℕ → ℕ → InfoAt → ℕ → Option ℕ × Heap W → Outcome (Option WaitSetAt × Heap W)
  unfolding build_active
  with_attached identifier max_conditions a info active (none, heap) =
      fail a (record info { attached_conditions = null }) heap
  with_attached identifier max_conditions a info active (some attached, heap) =
      build_active identifier max_conditions a (record info { attached_conditions = raw attached })
        active attached (objects.construct_sequence max_conditions heap.world) heap

  module _ (memory : ℕ → Bool) where
    -- `active_conditions` is allocated.
    unfoldable pub with_active :
        Identifier → ℕ → ℕ → InfoAt → Option ℕ × Heap W → Outcome (Option WaitSetAt × Heap W)
    unfolding with_attached
    with_active identifier max_conditions a info (none, heap) =
        fail a (record info { active_conditions = null }) heap
    with_active identifier max_conditions a info (some active, heap) =
        with_attached identifier max_conditions a (record info { active_conditions = raw active })
          active (allocate memory heap)

    unfoldable pub build_wait_set :
        Identifier → ℕ → ℕ → InfoAt → ℕ → Bool × W → Heap W → Outcome (Option WaitSetAt × Heap W)
    unfolding with_active
    build_wait_set identifier max_conditions a info waiting (true, world) heap =
        with_active identifier max_conditions a (record info { wait_set = built waiting })
          (allocate memory (record heap { world = world }))
    build_wait_set identifier max_conditions a info waiting (false, world) heap =
        fail a info (record heap { world = world })

    -- `wait_set_info->wait_set` is allocated.
    unfoldable pub with_wait_set :
        Identifier → ℕ → ℕ → InfoAt → Option ℕ × Heap W → Outcome (Option WaitSetAt × Heap W)
    unfolding build_wait_set
    with_wait_set identifier max_conditions a info (none, heap) =
        fail a (record info { wait_set = null }) heap
    with_wait_set identifier max_conditions a info (some waiting, heap) =
        build_wait_set identifier max_conditions a (record info { wait_set = raw waiting }) waiting
          (objects.construct_wait_set heap.world) heap

    -- `data` is allocated; its members are not written yet.
    unfoldable pub with_data :
        Identifier → ℕ → ℕ → Option ℕ × Heap W → Outcome (Option WaitSetAt × Heap W)
    unfolding with_wait_set
    with_data identifier max_conditions a (none, heap) = do left ← free a heap; ok (none, left)
    with_data identifier max_conditions a (some address, heap) =
        with_wait_set identifier max_conditions a
          (record {
            address = address;
            wait_set = uninitialized;
            active_conditions = uninitialized;
            attached_conditions = uninitialized;
          })
          (allocate memory heap)

    unfoldable pub with_struct :
        Identifier → ℕ → Option ℕ × Heap W → Outcome (Option WaitSetAt × Heap W)
    unfolding with_data
    with_struct identifier max_conditions (none, heap) = ok (none, heap)
    with_struct identifier max_conditions (some a, heap) =
        with_data identifier max_conditions a (allocate memory heap)

    unfoldable pub create_wait_set : Identifier → ℕ → Heap W → Outcome (Option WaitSetAt × Heap W)
    unfolding with_struct
    create_wait_set identifier max_conditions heap =
        with_struct identifier max_conditions (allocate memory heap)

    unfoldable pub rmw_create_wait_set : ℕ → Heap W → Outcome (Option WaitSetAt × Heap W)
    unfolding create_wait_set
    rmw_create_wait_set max_conditions heap = create_wait_set opendds_identifier max_conditions heap

  -- A null `data` is read all the same.
  unfoldable pub destroy_info : ℕ → Option InfoAt → Heap W → Outcome (RmwRet × Heap W)
  unfolding destroy_member
  destroy_info a none heap = undefined
  destroy_info a (some info) heap = do
    active ← destroy_member objects.destruct_sequence info.active_conditions heap
    attached ← destroy_member objects.destruct_sequence info.attached_conditions active.1
    waiting ← destroy_member objects.destruct_wait_set info.wait_set attached.1
    without_data ← free info.address waiting.1
    left ← free a without_data
    ok (if active.0 && attached.0 && waiting.0 then RmwRet.ok else RmwRet.error, left)

  -- `matches` compares the identifiers as pointers.
  unfoldable pub destroy_wait_set :
      (Identifier → Bool) → Option WaitSetAt → Heap W → Outcome (RmwRet × Heap W)
  unfolding destroy_info
  destroy_wait_set matches none heap = ok (RmwRet.error, heap)
  destroy_wait_set matches (some wait_set) heap =
      if not (matches wait_set.implementation_identifier)
      then ok (RmwRet.error, heap)
      else destroy_info wait_set.address wait_set.info heap
