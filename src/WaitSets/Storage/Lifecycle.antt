-- ===== src/WaitSets/Storage/Lifecycle.antt =====
-- The creation of a wait set without memory, and its end.
use rmw_opendds.Prelude.{
  ℕ, ◌+◌, ◌≡◌, ◌⊎◌, inl, inr, refl, Bool, true, false, some, List, ◌∷◌, ok, undefined, arith,
  ok-injective, some-injective, sym, ap, ◌∙◌, ◌&&◌, if◌then◌else◌,
}
use rmw_opendds.Identifier.{Identifier}
use rmw_opendds.Ret.{RmwRet}
use rmw_opendds.Heap.{Heap, free_latest}
use rmw_opendds.WaitSets.Storage.{
  WaitSetAt, Objects, create_wait_set, destroy_wait_set, destroy_info, destroy_member,
}
use rmw_opendds.WaitSets.Storage.Creation.{
  wait_set_at, addresses, free_second, create_wait_set-HasOutcome,
}

module _ {W : Type 0} (objects : Objects W) where
  -- The heap once the parts of a wait set are destroyed one after the other.
  abbrev sequences_gone : W → W
  sequences_gone world = (objects.destruct_sequence ((objects.destruct_sequence world).1)).1

  -- Whether no destructor throws.
  abbrev pub is_quiet : W → Bool
  is_quiet world =
      (objects.destruct_sequence world).0
      && (objects.destruct_sequence ((objects.destruct_sequence world).1)).0
      && (objects.destruct_wait_set (sequences_gone world)).0

  destroyed :
      (matches : Identifier → Bool) (identifier : Identifier) (n : ℕ) (live : List ℕ)
      (heap : Heap W)
      → matches identifier ≡ true
      → heap.live ≡ addresses n live
      → (final : Heap W) × (destroy_wait_set objects matches (some (wait_set_at identifier n)) heap
          ≡ ok (if is_quiet heap.world then RmwRet.ok else RmwRet.error, final))
        × (final.live ≡ live)
  unfolding destroy_wait_set destroy_info destroy_member
  destroyed matches identifier n live heap m l =
      let two = (n + 1 + 1) ∷ (n + 1) ∷ n ∷ live in
      let first : Heap W = record heap {
        live = (n + 1 + 1 + 1 + 1) ∷ two;
        world = (objects.destruct_sequence heap.world).1;
      } in
      let second : Heap W = record first { live = two; world = sequences_gone heap.world } in
      let third : Heap W = record second {
        live = (n + 1) ∷ n ∷ live;
        world = (objects.destruct_wait_set (sequences_gone heap.world)).1;
      } in
      (
        record third { live = live },
        rw
            (
              m,
              free_second (n + 1 + 1 + 1) (n + 1 + 1 + 1 + 1) two
                  (record heap { world = first.world }) (λ q. absurd (omega (arith, q))) l,
              free_latest (n + 1 + 1 + 1 + 1) two (record first { world = second.world }) refl,
              free_latest (n + 1 + 1) ((n + 1) ∷ n ∷ live) (record second { world = third.world })
                  refl,
              free_latest (n + 1) (n ∷ live) third refl,
              free_latest n live (record third { live = n ∷ live }) refl,
            )
            refl,
        refl,
      )

  module _ (memory : ℕ → Bool) (identifier : Identifier) (max_conditions : ℕ) (heap : Heap W) where
    -- With memory for the struct and for its `data`, but not for all of the three objects, the
    -- creation of a wait set is undefined behaviour: the block at `fail` reads a pointer that was
    -- never written, or destroys an object that was never made.
    pub create_wait_set_out_of_memory :
        memory heap.next ≡ true
        → memory (heap.next + 1) ≡ true
        → (memory (heap.next + 1 + 1) ≡ false)
          ⊎ (memory (heap.next + 1 + 1 + 1) ≡ false)
          ⊎ (memory (heap.next + 1 + 1 + 1 + 1) ≡ false)
        → create_wait_set objects memory identifier max_conditions heap ≡ undefined
    create_wait_set_out_of_memory e f out =
        elim (create_wait_set-HasOutcome objects memory identifier max_conditions heap.next
          heap.live heap.world) [
            | inl (left, r, l, inl g) ↦ cc (e, g)
            | inl (left, r, l, inr g) ↦ cc (f, g)
            | inr (inl (r, g, h)) ↦ r
            | inr (inr (left, r, l, g, h, k)) ↦ elim out [
              | inl q ↦ cc (q, g)
              | inr (inl q) ↦ cc (q, h)
              | inr (inr q) ↦ cc (q, k)
            ]
          ]

    -- The end of a wait set that was just created, by the identifier it was created with, gives its
    -- five allocations back, and returns RMW_RET_OK if no destructor throws and RMW_RET_ERROR if
    -- one does.
    pub destroy_wait_set-create_wait_set :
        (matches : Identifier → Bool) (wait_set : WaitSetAt) (left : Heap W)
        → matches identifier ≡ true
        → create_wait_set objects memory identifier max_conditions heap ≡ ok (some wait_set, left)
        → (final : Heap W) × (destroy_wait_set objects matches (some wait_set) left
            ≡ ok (if is_quiet left.world then RmwRet.ok else RmwRet.error, final))
          × (final.live ≡ heap.live)
    destroy_wait_set-create_wait_set matches wait_set left m made =
        elim (create_wait_set-HasOutcome objects memory identifier max_conditions heap.next
          heap.live heap.world) [
            | inl (left', r, l, g) ↦ cc (made, r)
            | inr (inl (r, g, h)) ↦ cc (made, r)
            | inr (inr (left', r, l, g, h, k)) ↦
                let same = ok-injective (sym made ∙ r) in
                rw (some-injective (ap (λ x. x.0) same)) (
                  destroyed matches identifier heap.next heap.live left m
                    (ap (λ x. x.1.live) same ∙ l))
          ]
