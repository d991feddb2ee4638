-- ===== src/Structs/Worlds.antt =====
-- What the pattern of Structs keeps of the world, where its constructors and destructors keep it.
use rmw_opendds.Prelude.{
  ℕ, Bool, Option, none, some, Outcome, After, After-bind, Bool-cases, inl, inr,
}
use rmw_opendds.Heap.{Heap, allocate-some, allocate-none}
use rmw_opendds.Heap.Worlds.{Made, Kept, free-Kept, create-Made, destroy-Kept}
use rmw_opendds.Structs.{Struct, clean_struct, fill_struct, struct_at, create_struct}

module _ {W D : Type 0} (p : W → Type 0) (q : D → W → Type 0) where
  -- Of a struct: what its object wants.
  abbrev pub InStruct : Struct D → W → Type 0
  InStruct s world = elim (s.object) [ none ↦ p world | some (a, d) ↦ q d world ]

  module _ (destruct : D → Heap W → Outcome (Heap W))
      (undoes : (d : D) (h : Heap W) → q d h.world → After (Kept p) (destruct d h)) where
    cleaned :
        (a : ℕ) (object : Option (ℕ × D)) (heap : Heap W)
        → InStruct (record { address = a; object = object }) heap.world
        → After (Kept p) (clean_struct destruct (record { address = a; object = object }) heap)
    unfolding clean_struct
    cleaned a none heap h =
        After-bind (λ (gone : Option (ℕ × D) × Heap W). p gone.1.world) (Kept p) _ _
          (destroy-Kept p q destruct none heap undoes h) λ gone k. free-Kept p a gone.1 k
    cleaned a (some object) heap h =
        After-bind (λ (gone : Option (ℕ × D) × Heap W). p gone.1.world) (Kept p) _ _
          (destroy-Kept p q destruct (some object) heap undoes h) λ gone k. free-Kept p a gone.1 k

    pub clean_struct-Kept :
        (s : Struct D) (heap : Heap W)
        → InStruct s heap.world
        → After (Kept p) (clean_struct destruct s heap)
    clean_struct-Kept s heap h = cleaned s.address s.object heap h

    filled :
        (a : ℕ) (made : Option (ℕ × D) × Heap W)
        → Made p (λ (d : ℕ × D). q d.1) made
        → After (Made p InStruct) (fill_struct destruct a made)
    unfolding fill_struct
    filled a (none, heap) h =
        After-bind (Kept p) (Made p InStruct) _ _ (cleaned a none heap h) λ left k. k
    filled a (some d, heap) h = h

    pub create_struct-Made :
        (memory : ℕ → Bool) (construct : Heap W → Outcome (Option D × Heap W)) (heap : Heap W)
        → ((h : Heap W) → p h.world → After (Made p q) (construct h))
        → p heap.world
        → After (Made p InStruct) (create_struct memory construct destruct heap)
    unfolding create_struct struct_at
    create_struct-Made memory construct heap keeps h = elim (Bool-cases (memory heap.next)) [
      | inr f ↦ rw (create_struct, allocate-none memory heap f) h
      | inl e ↦
          rw (create_struct, allocate-some memory heap e)
            (After-bind (Made p (λ (d : ℕ × D). q d.1)) (Made p InStruct) _ _
              (create-Made p q memory construct _ keeps h) λ made k. filled heap.next made k)
    ]
