-- ===== src/Participants/Calls/Lifecycle.antt =====
-- Nodes from their creation on: what it leaves, and what their end does afterwards.
use rmw_opendds.Prelude.{
  ok-injective, some-injective, ℕ, ◌≡◌, ◌⊎◌, inl, inr, refl, ap, sym, ◌∙◌, true, false, Option,
  none, some, List, ◌++◌, Outcome, ok, undefined, Option-cases, Bool-cases,
}
use rmw_opendds.Text.{Bytes}
use rmw_opendds.Identifier.{opendds_identifier, check_impl_id}
use rmw_opendds.Heap.{Heap, destroy}
use rmw_opendds.Init.{Context, is_none}
use rmw_opendds.Node.{validate_name_namespace}
use rmw_opendds.Structs.{clean_struct}
use rmw_opendds.Structs.Balance.{struct_owned, create_struct_cases}
use rmw_opendds.Participants.{Factory, OpenDdsNode}
use rmw_opendds.Participants.Transport.{Registry}
use rmw_opendds.Participants.Construct.{
  text_of, has_factory, construct_node, destruct_node, cleanup, leave,
}
use rmw_opendds.Participants.Tidy.{owned, construct_node-LeavesOwned}
use rmw_opendds.Participants.Calls.{NodeAt, struct_of, node_at, rmw_create_node, rmw_destroy_node}

-- What a node and all that it holds has on the heap.
abbrev pub node_live : {G P : Type 0} → NodeAt G P → List ℕ
node_live node = struct_owned owned (struct_of node)

-- What the creation of a node leaves: nothing and a null pointer, or a handle with an object.
abbrev pub IsCreation :
    {G P A W : Type 0} → Context A → List ℕ → Outcome (Option (NodeAt G P) × Heap W) → Type 0
IsCreation {G} {P} {A} {W} context live result =
    ((left : Heap W) × (result ≡ ok (none, left)) × (left.live ≡ live))
    ⊎ ((a : ℕ) × (ad : ℕ) × (d : OpenDdsNode G P) × (left : Heap W) × (result
          ≡ ok (some (node_at context a (ad, d)), left))
        × (left.live ≡ node_live (node_at context a (ad, d)) ++ live))

pub impl_of_has_factory :
    {A : Type 0} (context : Context A) → has_factory context ≡ true → is_none context.impl ≡ false
impl_of_has_factory context h = elim (Option-cases context.impl) [
  | inl e ↦ cc (rw e at h)
  | inr (impl, e) ↦ rw e refl
]

-- A node that was created is one that its creation describes.
pub created_node :
    {G P A W : Type 0} (context : Context A) (live : List ℕ)
    (result : Outcome (Option (NodeAt G P) × Heap W))
    → IsCreation context live result
    → (node : NodeAt G P) (left : Heap W) → result ≡ ok (some node, left)
    → (node.1.implementation_identifier ≡ opendds_identifier) × (left.live ≡ node_live node ++ live)
created_node context live result (inl (left', e, l)) node left made = cc (made, e)
created_node context live result (inr (a, ad, d, left', e, l)) node left made =
    let same = ok-injective (sym made ∙ e) in
    let nodes = some-injective (ap (λ x. x.0) same) in
    (
      ap (λ x. x.1.implementation_identifier) nodes,
      ap (λ x. x.1.live) same ∙ (l ∙ ap (λ x. node_live x ++ live) (sym nodes)),
    )

destroy_undefined :
    {Q P S W A G : Type 0} (factory : Factory Q P S W) (context now : Context A) (a ad : ℕ)
    (d : OpenDdsNode G P) (later : Heap W)
    → is_none now.impl ≡ false
    → rmw_destroy_node factory (some now) (some (node_at context a (ad, d))) later ≡ undefined
unfolding rmw_destroy_node check_impl_id clean_struct destroy destruct_node cleanup leave
destroy_undefined factory context now a ad d later initialized = rw initialized refl

ended_node :
    {Q P S G A W : Type 0} (factory : Factory Q P S W) (context : Context A) (live : List ℕ)
    (result : Outcome (Option (NodeAt G P) × Heap W))
    → IsCreation context live result
    → (node : NodeAt G P) (left : Heap W) (now : Context A) (later : Heap W)
    → result ≡ ok (some node, left)
    → is_none now.impl ≡ false
    → rmw_destroy_node factory (some now) (some node) later ≡ undefined
ended_node factory context live result (inl (left', e, l)) node left now later made i = cc (made, e)
ended_node factory context live result (inr (a, ad, d, left', e, l)) node left now later made i =
    let nodes = some-injective (ap (λ x. x.0) (ok-injective (sym made ∙ e))) in
    rw nodes (destroy_undefined factory context now a ad d later i)

module _ {Q P S Ti Tc W A : Type 0} (factory : Factory Q P S W) (registry : Registry Ti Tc P W)
    (G : Type 0) (context : Context A)
    (rtps : (domain : ℕ) (world : W) → factory.has_rtps_discovery domain world ≡ true)
    (checked : check_impl_id context.implementation_identifier ≡ true)
    (connected : has_factory context ≡ true) where
  -- For a context of the package that is initialized, and where the discovery is that of RTPS, the
  -- creation of a node returns, whatever fails. Either it is a null pointer and the allocations are
  -- those from before, or it is a handle with the package's identifier and the names of its object,
  -- and new are the handle, the object, its two listeners and the parts of its guard condition.
  pub rmw_create_node-IsCreation :
      (name namespace : Option Bytes) (heap : Heap W)
      → IsCreation context heap.live
          (rmw_create_node factory registry G (some context) name namespace heap)
  unfolding rmw_create_node
  rmw_create_node-IsCreation name namespace heap =
      elim (Bool-cases (validate_name_namespace name namespace)) [
        | inr e ↦ inl (heap, rw (rmw_create_node, checked, e) refl, refl)
        | inl e ↦
            elim (create_struct_cases factory.memory
              (construct_node factory registry G context (text_of name) (text_of namespace))
              (destruct_node factory) owned
              (construct_node-LeavesOwned factory registry G context (text_of name)
                (text_of namespace) rtps checked connected)
              heap) [
                | inl (left, f, l) ↦ inl (left, rw (rmw_create_node, checked, e, f) refl, l)
                | inr (a, ad, d, left, f, l) ↦
                    inr (a, ad, d, left, rw (rmw_create_node, checked, e, f) refl, l)
              ]
      ]

  -- For a context of the package that is initialized, and where the discovery is that of RTPS: the
  -- end of a node that was created is undefined behaviour, at any time while its context is
  -- initialized. The node's `context_` refers to an argument of `create` that is gone, and
  -- `cleanup` reads it.
  pub rmw_destroy_node-rmw_create_node :
      (name namespace : Option Bytes) (node : NodeAt G P) (heap left : Heap W) (now : Context A)
      (later : Heap W)
      → rmw_create_node factory registry G (some context) name namespace heap ≡ ok (some node, left)
      → is_none now.impl ≡ false
      → rmw_destroy_node factory (some now) (some node) later ≡ undefined
  rmw_destroy_node-rmw_create_node name namespace node heap left now later made initialized =
      ended_node factory context heap.live _ (rmw_create_node-IsCreation name namespace heap) node
        left now later made initialized
