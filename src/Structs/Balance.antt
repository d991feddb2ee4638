-- ===== src/Structs/Balance.antt =====
-- The allocations of a struct and its object.
use rmw_opendds.Prelude.{
  ℕ, ◌+◌, ◌≡◌, ◌⊎◌, refl, sym, ◌∙◌, append_assoc, Bool, Option, none, some, List, [], ◌∷◌, ◌++◌,
  Outcome, ok, Bool-cases, inl, inr, Option-cases,
}
use rmw_opendds.Heap.{Heap, create, destroy, free_latest, allocate-some, allocate-none}
use rmw_opendds.Handles.Balance.{
  IsTidy, Leaves, LeavesOwned, cases_of_LeavesOwned, ok_of_Leaves, created,
}
use rmw_opendds.Structs.{Struct, clean_struct, fill_struct, struct_at, create_struct}

-- What a struct owns: itself, its object, and what the object owns.
abbrev pub struct_owned : {D : Type 0} → (D → List ℕ) → Struct D → List ℕ
struct_owned owned s = elim (s.object) [
  | none ↦ s.address ∷ []
  | some (ad, d) ↦ owned d ++ (ad ∷ s.address ∷ [])
]

-- Either there is no struct, and the allocations are as they were, or there is one with an object.
pub create_struct_cases :
    {W D : Type 0} (memory : ℕ → Bool) (construct : Heap W → Outcome (Option D × Heap W))
    (destruct : D → Heap W → Outcome (Heap W)) (owned : D → List ℕ)
    → ((heap : Heap W) → LeavesOwned owned heap.live (construct heap))
    → (heap : Heap W)
    → ((left : Heap W) × (create_struct memory construct destruct heap ≡ ok (none, left))
        × (left.live ≡ heap.live))
      ⊎ ((a : ℕ) × (ad : ℕ) × (d : D) × (left : Heap W) × (create_struct memory construct destruct
              heap
            ≡ ok (some (record { address = a; object = some (ad, d) }), left))
          × (left.live ≡ (owned d ++ (ad ∷ a ∷ [])) ++ heap.live))
unfolding create_struct struct_at fill_struct clean_struct destroy
create_struct_cases {W} memory construct destruct owned constructs heap =
    elim (Bool-cases (memory heap.next)) [
      | inr f ↦ inl (
        record heap { next = heap.next + 1 },
        rw (create_struct, allocate-none memory heap f) refl,
        refl,
      )
      | inl e ↦
          let allocated : Heap W = record heap {
            next = heap.next + 1;
            live = heap.next ∷ heap.live;
          } in
          elim (cases_of_LeavesOwned _ (create memory construct allocated)
            (created construct owned constructs memory allocated)) [
              | inl (made, f, g) ↦ inl (
                record made { live = heap.live },
                rw
                    (
                      create_struct,
                      allocate-some memory heap e,
                      f,
                      free_latest heap.next heap.live made g,
                    )
                    refl,
                refl,
              )
              | inr ((ad, d), made, f, g) ↦ inr (
                heap.next,
                ad,
                d,
                made,
                rw (create_struct, allocate-some memory heap e, f) refl,
                g
                    ∙ (append_assoc (owned d) (ad ∷ []) (heap.next ∷ heap.live)
                        ∙ sym (append_assoc (owned d) (ad ∷ heap.next ∷ []) heap.live)),
              )
            ]
    ]

module _ {W D : Type 0} (memory : ℕ → Bool) (construct : Heap W → Outcome (Option D × Heap W))
    (destruct : D → Heap W → Outcome (Heap W)) (owned : D → List ℕ)
    (tidy : IsTidy construct destruct owned) where
  pub clean_struct-Leaves :
      (s : Struct D) (live : List ℕ) (heap : Heap W)
      → heap.live ≡ struct_owned owned s ++ live
      → Leaves live (clean_struct destruct s heap)
  unfolding clean_struct destroy
  clean_struct-Leaves s live heap h = elim (Option-cases s.object) [
    | inl e ↦ rw (e, free_latest s.address live heap (rw e at h)) refl
    | inr ((ad, d), e) ↦
        let (left, f, g) = ok_of_Leaves (destruct d heap) (
          tidy.destructs d (ad ∷ s.address ∷ live) heap
            ((rw e at h) ∙ append_assoc (owned d) (ad ∷ s.address ∷ []) live)) in
        rw
          (
            e,
            f,
            free_latest ad (s.address ∷ live) left g,
            free_latest s.address live (record left { live = s.address ∷ live }) refl,
          )
          refl
  ]

  create_struct-LeavesOwned :
      (heap : Heap W)
      → LeavesOwned (struct_owned owned) heap.live (create_struct memory construct destruct heap)
  create_struct-LeavesOwned heap =
      elim (create_struct_cases memory construct destruct owned tidy.constructs heap) [
        | inl (left, e, l) ↦ rw e l
        | inr (a, ad, d, left, e, l) ↦ rw e l
      ]

  -- A struct with an object is itself an object of the pattern.
  pub struct-IsTidy :
      IsTidy (create_struct memory construct destruct) (clean_struct destruct) (struct_owned owned)
  struct-IsTidy = record { constructs = create_struct-LeavesOwned; destructs = clean_struct-Leaves }
