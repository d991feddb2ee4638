-- ===== src/WaitSets/Storage/Creation.antt =====
-- What the creation of a wait set leaves.
use rmw_opendds.Prelude.{
  ℕ, ◌+◌, ◌≡◌, ◌≢◌, ◌⊎◌, inl, inr, refl, Bool, true, false, Option, none, some, List, ◌∷◌, Outcome,
  ok, undefined, Bool-cases, arith,
}
use rmw_opendds.Identifier.{Identifier}
use rmw_opendds.Heap.{Heap, allocate, free, drop_address, free_latest, allocate-some, allocate-none}
use rmw_opendds.WaitSets.Storage.{
  uninitialized, raw, built, fail_member, WaitSetAt, Objects, create_wait_set, with_struct,
  with_data, with_wait_set, build_wait_set, with_active, with_attached, build_active,
  build_attached, fail,
}

-- The wait set that is built from the address `n` on.
abbrev pub wait_set_at : Identifier → ℕ → WaitSetAt
wait_set_at identifier n = record {
  address = n;
  implementation_identifier = identifier;
  info = some (record {
    address = n + 1;
    wait_set = built (n + 1 + 1);
    active_conditions = built (n + 1 + 1 + 1);
    attached_conditions = built (n + 1 + 1 + 1 + 1);
  });
}

abbrev pub addresses : ℕ → List ℕ → List ℕ
addresses n live = (n + 1 + 1 + 1 + 1) ∷ (n + 1 + 1 + 1) ∷ (n + 1 + 1) ∷ (n + 1) ∷ n ∷ live

-- The allocation before the latest is found next.
pub free_second :
    {W : Type 0} (a b : ℕ) (live : List ℕ) (heap : Heap W)
    → a ≢ b
    → heap.live ≡ b ∷ a ∷ live
    → free a heap ≡ ok (record heap { live = b ∷ live })
unfolding free drop_address
free_second a b live heap h e = rw e (ground arith)

abbrev heap_at : {W : Type 0} → ℕ → List ℕ → W → Heap W
heap_at next live world = record { next = next; live = live; world = world }

module _ {W : Type 0} (objects : Objects W) (memory : ℕ → Bool) (identifier : Identifier)
    (max_conditions : ℕ) (n : ℕ) (live : List ℕ) where
  -- One of three ends. It is a null pointer, where memory is out for the struct or for its `data`,
  -- and the allocations are those from before. Or it is undefined, where there is memory for these
  -- two. Or it is a wait set with five allocations, where there is memory for all five.
  abbrev pub HasOutcome : Outcome (Option WaitSetAt × Heap W) → Type 0
  HasOutcome result =
      ((left : Heap W) × (result ≡ ok (none, left))
        × (left.live ≡ live)
        × ((memory n ≡ false) ⊎ (memory (n + 1) ≡ false)))
      ⊎ (((result ≡ undefined) × (memory n ≡ true) × (memory (n + 1) ≡ true))
          ⊎ ((left : Heap W) × (result ≡ ok (some (wait_set_at identifier n), left))
              × (left.live ≡ addresses n live)
              × (memory (n + 1 + 1) ≡ true)
              × (memory (n + 1 + 1 + 1) ≡ true)
              × (memory (n + 1 + 1 + 1 + 1) ≡ true)))

  module _ (e : memory n ≡ true) (f : memory (n + 1) ≡ true) (g : memory (n + 1 + 1) ≡ true)
      (h : memory (n + 1 + 1 + 1) ≡ true) (k : memory (n + 1 + 1 + 1 + 1) ≡ true) where
    attached_outcome :
        (r : Bool × W) (heap : Heap W)
        → heap.live ≡ addresses n live
        → HasOutcome (
            build_attached objects identifier max_conditions n
              (record {
                address = n + 1;
                wait_set = built (n + 1 + 1);
                active_conditions = built (n + 1 + 1 + 1);
                attached_conditions = raw (n + 1 + 1 + 1 + 1);
              })
              (n + 1 + 1 + 1 + 1)
              r
              heap)
    unfolding build_attached fail fail_member
    attached_outcome (true, world) heap l =
        inr (inr (record heap { world = world }, refl, l, g, h, k))
    attached_outcome (false, world) heap l = inr (
        inl (
          rw
              (free_second (n + 1 + 1 + 1) (n + 1 + 1 + 1 + 1) ((n + 1 + 1) ∷ (n + 1) ∷ n ∷ live)
                (record heap { world = (objects.destruct_sequence world).1 })
                (λ q. absurd (omega (arith, q))) l)
              refl,
          e,
          f,
        ))

    active_outcome :
        (r : Bool × W) (heap : Heap W)
        → heap.live ≡ addresses n live
        → HasOutcome (
            build_active objects identifier max_conditions n
              (record {
                address = n + 1;
                wait_set = built (n + 1 + 1);
                active_conditions = raw (n + 1 + 1 + 1);
                attached_conditions = raw (n + 1 + 1 + 1 + 1);
              })
              (n + 1 + 1 + 1)
              (n + 1 + 1 + 1 + 1)
              r
              heap)
    unfolding build_active fail fail_member
    active_outcome (true, world) heap l =
        attached_outcome (objects.construct_sequence max_conditions world)
          (record heap { world = world }) l
    active_outcome (false, world) heap l = inr (inl (refl, e, f))

  module _ (e : memory n ≡ true) (f : memory (n + 1) ≡ true) where
    with_attached_outcome :
        (world : W)
        → memory (n + 1 + 1) ≡ true
        → memory (n + 1 + 1 + 1) ≡ true
        → HasOutcome (
            with_attached objects identifier max_conditions n
              (record {
                address = n + 1;
                wait_set = built (n + 1 + 1);
                active_conditions = raw (n + 1 + 1 + 1);
                attached_conditions = uninitialized;
              })
              (n + 1 + 1 + 1)
              (allocate memory (record {
                next = n + 1 + 1 + 1 + 1;
                live = (n + 1 + 1 + 1) ∷ (n + 1 + 1) ∷ (n + 1) ∷ n ∷ live;
                world = world;
              })))
    unfolding with_attached fail fail_member
    with_attached_outcome world g h = elim (Bool-cases (memory (n + 1 + 1 + 1 + 1))) [
      | inr k ↦
          rw
            (allocate-none memory
              (heap_at (n + 1 + 1 + 1 + 1) ((n + 1 + 1 + 1) ∷ (n + 1 + 1) ∷ (n + 1) ∷ n ∷ live)
                world)
              k)
            (inr (inl (refl, e, f)))
      | inl k ↦
          rw
            (allocate-some memory
              (heap_at (n + 1 + 1 + 1 + 1) ((n + 1 + 1 + 1) ∷ (n + 1 + 1) ∷ (n + 1) ∷ n ∷ live)
                world)
              k)
            (active_outcome e f g h k (objects.construct_sequence max_conditions world) _ refl)
    ]

    with_active_outcome :
        (world : W)
        → memory (n + 1 + 1) ≡ true
        → HasOutcome (
            with_active objects memory identifier max_conditions n
              (record {
                address = n + 1;
                wait_set = built (n + 1 + 1);
                active_conditions = uninitialized;
                attached_conditions = uninitialized;
              })
              (allocate memory (record {
                next = n + 1 + 1 + 1;
                live = (n + 1 + 1) ∷ (n + 1) ∷ n ∷ live;
                world = world;
              })))
    unfolding with_active fail fail_member
    with_active_outcome world g = elim (Bool-cases (memory (n + 1 + 1 + 1))) [
      | inr h ↦
          rw
            (allocate-none memory (heap_at (n + 1 + 1 + 1) ((n + 1 + 1) ∷ (n + 1) ∷ n ∷ live) world)
              h)
            (inr (inl (refl, e, f)))
      | inl h ↦
          rw
            (allocate-some memory (heap_at (n + 1 + 1 + 1) ((n + 1 + 1) ∷ (n + 1) ∷ n ∷ live) world)
              h)
            (with_attached_outcome world g h)
    ]

    build_wait_set_outcome :
        (r : Bool × W) (heap : Heap W)
        → heap.next ≡ n + 1 + 1 + 1
        → heap.live ≡ (n + 1 + 1) ∷ (n + 1) ∷ n ∷ live
        → memory (n + 1 + 1) ≡ true
        → HasOutcome (
            build_wait_set objects memory identifier max_conditions n
              (record {
                address = n + 1;
                wait_set = raw (n + 1 + 1);
                active_conditions = uninitialized;
                attached_conditions = uninitialized;
              })
              (n + 1 + 1)
              r
              heap)
    unfolding build_wait_set fail fail_member
    build_wait_set_outcome (true, world) heap i l g = rw (i, l) (with_active_outcome world g)
    build_wait_set_outcome (false, world) heap i l g = inr (inl (refl, e, f))

    with_wait_set_outcome :
        (world : W)
        → HasOutcome (
            with_wait_set objects memory identifier max_conditions n
              (record {
                address = n + 1;
                wait_set = uninitialized;
                active_conditions = uninitialized;
                attached_conditions = uninitialized;
              })
              (allocate memory
                (record { next = n + 1 + 1; live = (n + 1) ∷ n ∷ live; world = world })))
    unfolding with_wait_set fail fail_member
    with_wait_set_outcome world = elim (Bool-cases (memory (n + 1 + 1))) [
      | inr g ↦
          rw (allocate-none memory (heap_at (n + 1 + 1) ((n + 1) ∷ n ∷ live) world) g)
            (inr (inl (refl, e, f)))
      | inl g ↦
          rw (allocate-some memory (heap_at (n + 1 + 1) ((n + 1) ∷ n ∷ live) world) g)
            (build_wait_set_outcome (objects.construct_wait_set world) _ refl refl g)
    ]

  with_data_outcome :
      (world : W)
      → memory n ≡ true
      → HasOutcome (
          with_data objects memory identifier max_conditions n
            (allocate memory (record { next = n + 1; live = n ∷ live; world = world })))
  unfolding with_data
  with_data_outcome world e = elim (Bool-cases (memory (n + 1))) [
    | inr f ↦
        let left : Heap W = record { next = n + 1 + 1; live = n ∷ live; world = world } in
        rw (allocate-none memory (heap_at (n + 1) (n ∷ live) world) f, free_latest n live left refl)
          (inl (record left { live = live }, refl, refl, inr f))
    | inl f ↦
        rw (allocate-some memory (heap_at (n + 1) (n ∷ live) world) f)
          (with_wait_set_outcome e f world)
  ]

  pub create_wait_set-HasOutcome :
      (world : W)
      → HasOutcome (
          create_wait_set objects memory identifier max_conditions
            (record { next = n; live = live; world = world }))
  unfolding create_wait_set with_struct
  create_wait_set-HasOutcome world = elim (Bool-cases (memory n)) [
    | inr e ↦
        rw (create_wait_set, allocate-none memory (heap_at n live world) e)
          (inl (record { next = n + 1; live = live; world = world }, refl, refl, inl e))
    | inl e ↦
        rw (create_wait_set, allocate-some memory (heap_at n live world) e)
          (with_data_outcome world e)
  ]
