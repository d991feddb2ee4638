-- ===== src/Entities/Calls/Creation.antt =====
-- What the creation of a publisher or a subscription (rmw_opendds_cpp/src/rmw_publisher.cpp,
-- src/rmw_subscription.cpp) leaves.
use rmw_opendds.Prelude.{
  ok-injective, some-injective, ℕ, ◌≡◌, ◌⊎◌, inl, inr, refl, ap, sym, ◌∙◌, true, Option, none, some,
  List, ◌∷◌, Outcome, ok, out_of_range, undefined, ◌>>=◌,
}
use rmw_opendds.Identifier.{opendds_identifier}
use rmw_opendds.Heap.{Heap}
use rmw_opendds.NodeHandles.{RmwNode}
use rmw_opendds.Handles.{RmwHandle}
use rmw_opendds.Handles.Balance.{Balanced}
use rmw_opendds.Entities.{Entity}
use rmw_opendds.Entities.Tidy.{owned}
use rmw_opendds.Entities.Calls.{with_node, topic_name_of}

abbrev pub entity_handle : {T P E X : Type 0} → ℕ → Entity T P E X → RmwHandle (Entity T P E X)
entity_handle ad entity = record {
  implementation_identifier = opendds_identifier;
  handle_data = some (ad, entity);
  name = some entity.topic.name;
}

-- What a creation leaves: nothing and a null pointer, or a handle in a node that has entered it.
abbrev pub IsCreation :
    {T P E X W N : Type 0}
    → (Entity T P E X → N → N)
    → RmwNode N
    → N
    → List ℕ
    → Outcome (Option (ℕ × RmwHandle (Entity T P E X)) × Option (RmwNode N) × Heap W)
    → Type 0
IsCreation {T} {P} {E} {X} {W} {N} enter node n live result =
    ((heap : Heap W) × (result ≡ ok (none, with_node n (some node), heap)) × (heap.live ≡ live))
    ⊎ ((a : ℕ) × (ad : ℕ) × (e : Entity T P E X) × (heap : Heap W) × (result
          ≡ ok (some (a, entity_handle ad e), with_node (enter e n) (some node), heap))
        × (heap.live ≡ e.listener.0 ∷ ad ∷ a ∷ live))

-- An entity that was created is the one that its creation describes.
pub creation_of :
    {T P E X W N : Type 0} (enter : Entity T P E X → N → N) (node : RmwNode N) (n : N)
    (live : List ℕ)
    (r : Outcome (Option (ℕ × RmwHandle (Entity T P E X)) × Option (RmwNode N) × Heap W))
    → IsCreation enter node n live r
    → (a ad : ℕ) (e : Entity T P E X) (left : Heap W) (node' : Option (RmwNode N))
    → r ≡ ok (some (a, entity_handle ad e), node', left)
    → (node' ≡ with_node (enter e n) (some node)) × (left.live ≡ e.listener.0 ∷ ad ∷ a ∷ live)
creation_of enter node n live r (inl (heap, f, l)) a ad e left node' made = cc (made, f)
creation_of enter node n live r (inr (a', ad', e', heap, f, l)) a ad e left node' made =
    let same = ok-injective (sym made ∙ f) in
    let handles = some-injective (ap (λ x. x.0) same) in
    let objects = some-injective (ap (λ x. x.1.handle_data) handles) in
    let entities = ap (λ x. x.1) objects in
    (
      ap (λ x. x.1) same ∙ ap (λ x. with_node (enter x n) (some node)) (sym entities),
      ap (λ x. x.2.live) same
          ∙ (l
              ∙ (ap (λ x. x.listener.0 ∷ ad' ∷ a' ∷ live) (sym entities)
                  ∙ (ap (λ x. e.listener.0 ∷ x ∷ a' ∷ live) (sym (ap (λ x. x.0) objects))
                      ∙ ap (λ x. e.listener.0 ∷ ad ∷ x ∷ live) (sym (ap (λ x. x.0) handles))))),
    )

module _ {T P E X W N : Type 0} (enter : Entity T P E X → N → N) (node : RmwNode N) (n : N)
    (live : List ℕ) where
  pub creation :
      (r : Outcome (Option (ℕ × RmwHandle (Entity T P E X)) × N × Heap W))
      → Balanced topic_name_of (λ e m. (true, enter e m)) owned live n r
      → IsCreation enter node n live
          (do made ← r; ok (made.0, with_node made.1 (some node), made.2))
  creation (ok (none, left, heap)) (l, inl e) = inl (heap, rw e refl, l)
  creation (ok (none, left, heap)) (l, inr (d, e)) = cc (ap (λ x. x.0) e)
  creation (ok (some (a, handle), left, heap)) (ad, d, e, l, f) =
      inr (a, ad, d, heap, rw (e, sym (ap (λ x. x.1) f)) refl, l)
  creation out_of_range b = absurd b
  creation undefined b = absurd b
