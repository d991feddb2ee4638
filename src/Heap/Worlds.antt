-- ===== src/Heap/Worlds.antt =====
-- What the calls of `RmwAllocateFree` (rmw_opendds_cpp/include/rmw_opendds_cpp/RmwAllocateFree.hpp)
-- keep of the world: a property of it that the constructors and destructors keep.
use rmw_opendds.Prelude.{
  ℕ, Bool, Option, none, some, Outcome, ok, out_of_range, undefined, inl, inr, Bool-cases, ◌>>=◌,
  After, After-bind, After-any,
}
use rmw_opendds.Heap.{
  allocate-some, allocate-none, Heap, allocate, free, drop_address, create, construct_at, destroy,
}

-- What a constructor leaves: where nothing is made `p` of the world, and else `q` of the object and
-- the world.
abbrev pub Made : {W D : Type 0} → (W → Type 0) → (D → W → Type 0) → Option D × Heap W → Type 0
Made p q (none, heap) = p heap.world
Made p q (some d, heap) = q d heap.world

abbrev pub Kept : {W : Type 0} → (W → Type 0) → Heap W → Type 0
Kept p heap = p heap.world

module _ {W : Type 0} (p : W → Type 0) where
  pub free-Kept : (a : ℕ) (heap : Heap W) → p heap.world → After (Kept p) (free a heap)
  unfolding free
  free-Kept a heap h =
      After-bind (λ kept. p heap.world) (Kept p) (drop_address a heap.live) _ (After-any _ _ h)
        λ kept k. k

  module _ {D : Type 0} (q : D → W → Type 0) where
    constructed_at :
        (a : ℕ) (r : Outcome (Option D × Heap W))
        → After (Made p q) r
        → After (Made p (λ (made : ℕ × D). q made.1)) (do
          made ← r
          elim (made.0) [
            | none ↦ do freed ← free a made.1; ok (none, freed)
            | some t ↦ ok (some (a, t), made.1)
          ])
    constructed_at a (ok (none, heap)) h =
        After-bind (Kept p) (Made p (λ (made : ℕ × D). q made.1)) (free a heap) _
          (free-Kept a heap h) λ freed k. k
    constructed_at a (ok (some d, heap)) h = h
    constructed_at a out_of_range h = tt
    constructed_at a undefined h = tt

    pub create-Made :
        (memory : ℕ → Bool) (construct : Heap W → Outcome (Option D × Heap W)) (heap : Heap W)
        → ((h : Heap W) → p h.world → After (Made p q) (construct h))
        → p heap.world
        → After (Made p (λ (made : ℕ × D). q made.1)) (create memory construct heap)
    unfolding create construct_at allocate
    create-Made memory construct heap keeps h = elim (Bool-cases (memory heap.next)) [
      | inr f ↦ rw (create, allocate-none memory heap f) h
      | inl e ↦ rw (create, allocate-some memory heap e) (constructed_at heap.next _ (keeps _ h))
    ]

    pub destroy-Kept :
        (destruct : D → Heap W → Outcome (Heap W)) (object : Option (ℕ × D)) (heap : Heap W)
        → ((d : D) (h : Heap W) → q d h.world → After (Kept p) (destruct d h))
        → Made p (λ (made : ℕ × D). q made.1) (object, heap)
        → After (λ (gone : Option (ℕ × D) × Heap W). p gone.1.world) (destroy destruct object heap)
    unfolding destroy
    destroy-Kept destruct none heap keeps h = h
    destroy-Kept destruct (some (a, d)) heap keeps h =
        After-bind (Kept p) (λ (gone : Option (ℕ × D) × Heap W). p gone.1.world) (destruct d heap) _
          (keeps d heap h)
          λ destructed k.
            After-bind (Kept p) (λ (gone : Option (ℕ × D) × Heap W). p gone.1.world)
              (free a destructed) _ (free-Kept a destructed k) λ freed l. l
