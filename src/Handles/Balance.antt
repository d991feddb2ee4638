-- ===== src/Handles/Balance.antt =====
-- The allocations of an entity, from its creation to its end.
use rmw_opendds.Prelude.{
  ℕ, ◌+◌, ◌≡◌, refl, ap, sym, ◌∙◌, append_assoc, ◌⊎◌, Bool, true, false, Option, none, some, List,
  [], ◌∷◌, ◌++◌, Outcome, ok, out_of_range, undefined, Bool-cases, Option-cases, inl, inr,
}
use rmw_opendds.Text.{Bytes}
use rmw_opendds.Identifier.{opendds_identifier}
use rmw_opendds.Heap.{
  Heap, create, construct_at, destroy, free_latest, allocate-some, allocate-none,
}
use rmw_opendds.Handles.{RmwHandle, clean, create_initial, initial_at, finish, fill, create_handle}

-- What the constructor of a class leaves on the heap: nothing where it throws, and where it returns
-- the addresses that the object owns.
abbrev pub LeavesOwned :
    {W D : Type 0} → (D → List ℕ) → List ℕ → Outcome (Option D × Heap W) → Type 0
LeavesOwned owned live (ok (none, heap)) = heap.live ≡ live
LeavesOwned owned live (ok (some d, heap)) = heap.live ≡ owned d ++ live
LeavesOwned owned live out_of_range = ⊥
LeavesOwned owned live undefined = ⊥

abbrev pub Leaves : {W : Type 0} → List ℕ → Outcome (Heap W) → Type 0
Leaves live (ok heap) = heap.live ≡ live
Leaves live out_of_range = ⊥
Leaves live undefined = ⊥

-- A constructor and its destructor.
pub record IsTidy {W D : Type 0} (construct : Heap W → Outcome (Option D × Heap W))
    (destruct : D → Heap W → Outcome (Heap W)) (owned : D → List ℕ) : Type 0 where
  pub constructs : (heap : Heap W) → LeavesOwned owned heap.live (construct heap)
  pub destructs :
      (d : D) (live : List ℕ) (heap : Heap W)
      → heap.live ≡ owned d ++ live
      → Leaves live (destruct d heap)

-- The heap of an entity over `live`: the struct, the object, and what the object owns.
abbrev pub entity_live : {D : Type 0} → (D → List ℕ) → List ℕ → ℕ × RmwHandle D → List ℕ
entity_live owned live (a, handle) = elim (handle.handle_data) [
  | none ↦ a ∷ live
  | some (ad, d) ↦ owned d ++ (ad ∷ a ∷ live)
]

pub ok_of_Leaves :
    {W : Type 0} {live : List ℕ} (r : Outcome (Heap W))
    → Leaves live r
    → (heap : Heap W) × (r ≡ ok heap) × (heap.live ≡ live)
ok_of_Leaves (ok heap) h = (heap, refl, h)
ok_of_Leaves out_of_range h = absurd h
ok_of_Leaves undefined h = absurd h

pub cases_of_LeavesOwned :
    {W D : Type 0} (owned : D → List ℕ) {live : List ℕ} (r : Outcome (Option D × Heap W))
    → LeavesOwned owned live r
    → ((heap : Heap W) × (r ≡ ok (none, heap)) × (heap.live ≡ live))
      ⊎ ((d : D) × (heap : Heap W) × (r ≡ ok (some d, heap)) × (heap.live ≡ owned d ++ live))
cases_of_LeavesOwned owned (ok (none, heap)) h = inl (heap, refl, h)
cases_of_LeavesOwned owned (ok (some d, heap)) h = inr (d, heap, refl, h)
cases_of_LeavesOwned owned out_of_range h = absurd h
cases_of_LeavesOwned owned undefined h = absurd h

abbrev initial : {D : Type 0} → RmwHandle D
initial = record { implementation_identifier = opendds_identifier; handle_data = none; name = none }

-- The struct around an object.
abbrev pub handle_of : {D : Type 0} → (D → Bytes) → ℕ → D → RmwHandle D
handle_of name_of ad d = record {
  implementation_identifier = opendds_identifier;
  handle_data = some (ad, d);
  name = some (name_of d);
}

-- Either there is no entity, the allocations are as they were, and so is the node if no `register`
-- threw. Or there is one, new are the struct, the object and what the object owns, and the node
-- is what `register` made of it.
abbrev pub Balanced :
    {W D N : Type 0}
    → (D → Bytes)
    → (D → N → Bool × N)
    → (D → List ℕ)
    → List ℕ
    → N
    → Outcome (Option (ℕ × RmwHandle D) × N × Heap W)
    → Type 0
Balanced {W} {D} {N} name_of register owned live node (ok (none, left, heap)) =
    (heap.live ≡ live) × ((left ≡ node) ⊎ ((d : D) × (register d node ≡ (false, left))))
Balanced {W} {D} {N} name_of register owned live node (ok (some (a, handle), left, heap)) =
    (ad : ℕ) × (d : D) × (handle ≡ handle_of name_of ad d)
    × (heap.live ≡ owned d ++ (ad ∷ a ∷ live))
    × (register d node ≡ (true, left))
Balanced name_of register owned live node out_of_range = ⊥
Balanced name_of register owned live node undefined = ⊥

-- What a creation leaves.
pub created :
    {W D : Type 0} (construct : Heap W → Outcome (Option D × Heap W)) (owned : D → List ℕ)
    → ((heap : Heap W) → LeavesOwned owned heap.live (construct heap))
    → (memory : ℕ → Bool) (heap : Heap W)
    → LeavesOwned (λ made. owned made.1 ++ (made.0 ∷ [])) heap.live (create memory construct heap)
unfolding create construct_at
created {W} construct owned constructs memory heap = elim (Bool-cases (memory heap.next)) [
  | inr f ↦ rw (create, allocate-none memory heap f) refl
  | inl e ↦
      let allocated : Heap W = record heap { next = heap.next + 1; live = heap.next ∷ heap.live } in
      elim (cases_of_LeavesOwned owned (construct allocated) (constructs allocated)) [
        | inl (made, f, g) ↦
            rw (create, allocate-some memory heap e, f, free_latest heap.next heap.live made g) refl
        | inr (d, made, f, g) ↦
            rw (create, allocate-some memory heap e, f)
              (g ∙ sym (append_assoc (owned d) (heap.next ∷ []) heap.live))
      ]
]

module _ {W D : Type 0} (construct : Heap W → Outcome (Option D × Heap W))
    (destruct : D → Heap W → Outcome (Heap W)) (owned : D → List ℕ)
    (tidy : IsTidy construct destruct owned) where
  -- An entity that is cleaned leaves nothing.
  pub clean-Leaves :
      (live : List ℕ) (handle : ℕ × RmwHandle D) (heap : Heap W)
      → heap.live ≡ entity_live owned live handle
      → Leaves live (clean destruct (some handle) heap)
  unfolding clean destroy
  clean-Leaves live (a, handle) heap h = elim (Option-cases handle.handle_data) [
    | inl e ↦ rw (e, free_latest a live heap (rw e at h)) refl
    | inr ((ad, d), e) ↦
        let (left, f, g) =
          ok_of_Leaves (destruct d heap) (tidy.destructs d (ad ∷ a ∷ live) heap (rw e at h)) in
        rw
          (
            e,
            f,
            free_latest ad (a ∷ live) left g,
            free_latest a live (record left { live = a ∷ live }) refl,
          )
          refl
  ]

  module _ {N : Type 0} (memory : ℕ → Bool) (name_of : D → Bytes)
      (register : D → N → Bool × N) where
    finish-none :
        (live : List ℕ) (handle : ℕ × RmwHandle D) (node : N) (heap : Heap W)
        → heap.live ≡ entity_live owned live handle
        → Balanced name_of register owned live node
            (finish memory construct destruct name_of register handle none node heap)
    unfolding finish
    finish-none live handle node heap h =
        let (left, e, f) =
          ok_of_Leaves (clean destruct (some handle) heap) (clean-Leaves live handle heap h) in
        rw e (f, inl refl)

    finish-some :
        (live : List ℕ) (a ad : ℕ) (d : D) (node : N) (heap : Heap W)
        → heap.live ≡ owned d ++ (ad ∷ a ∷ live)
        → Balanced name_of register owned live node (
            finish memory construct destruct name_of register (a, initial) (some (ad, d)) node heap)
    unfolding finish
    finish-some live a ad d node heap h =
        let (left, e, f) =
          ok_of_Leaves (clean destruct (some (a, handle_of name_of ad d)) heap)
            (clean-Leaves live (a, handle_of name_of ad d) heap h) in
        elim (Bool-cases (register d node).0) [
          | inl r ↦ rw (finish, r) (ad, d, refl, h, ap (λ b. (b, (register d node).1)) r)
          | inr r ↦ rw (finish, r, e) (f, inr (d, ap (λ b. (b, (register d node).1)) r))
        ]

    -- Whatever fails, a creation returns, and the allocations and the node are accounted for.
    pub create_handle-Balanced :
        (node : N) (heap : Heap W)
        → Balanced name_of register owned heap.live node
            (create_handle memory construct destruct name_of register node heap)
    unfolding create_handle create_initial initial_at fill
    create_handle-Balanced node heap = elim (Bool-cases (memory heap.next)) [
      | inr f ↦ rw (create_handle, create_initial, allocate-none memory heap f) (refl, inl refl)
      | inl e ↦
          let allocated : Heap W = record heap {
            next = heap.next + 1;
            live = heap.next ∷ heap.live;
          } in
          elim (cases_of_LeavesOwned _ (create memory construct allocated)
            (created construct owned tidy.constructs memory allocated)) [
              | inl (made, f, g) ↦
                  rw (create_handle, create_initial, allocate-some memory heap e, f)
                    (finish-none heap.live (heap.next, initial) node made g)
              | inr ((ad, d), made, f, g) ↦
                  rw (create_handle, create_initial, allocate-some memory heap e, f)
                    (finish-some heap.live heap.next ad d node made
                      (g ∙ append_assoc (owned d) (ad ∷ []) (heap.next ∷ heap.live)))
            ]
    ]
