-- ===== src/Participants/Ledger/Calls.antt =====
-- The participants that DDS has after `rmw_create_node` (rmw_opendds_cpp/src/rmw_node.cpp).
use rmw_opendds.Prelude.{
  ℕ, ◌≡◌, refl, true, Option, none, some, List, ◌∷◌, Outcome, ok, After, After-bind, Option-cases,
  Bool-cases, inl, inr,
}
use rmw_opendds.Text.{Bytes}
use rmw_opendds.Identifier.{check_impl_id}
use rmw_opendds.Heap.{Heap}
use rmw_opendds.Heap.Worlds.{Made}
use rmw_opendds.Init.{Context}
use rmw_opendds.Node.{validate_name_namespace}
use rmw_opendds.Structs.{Struct}
use rmw_opendds.Structs.Worlds.{InStruct, create_struct-Made}
use rmw_opendds.Participants.{Factory, OpenDdsNode}
use rmw_opendds.Participants.Transport.{Registry}
use rmw_opendds.Participants.Construct.{text_of, has_factory, construct_node, destruct_node}
use rmw_opendds.Participants.Calls.{NodeAt, handle_of, rmw_create_node}
use rmw_opendds.Participants.Calls.Lifecycle.{IsCreation, rmw_create_node-IsCreation}
use rmw_opendds.Participants.Ledger.{Ledger, Deletes}
use rmw_opendds.Participants.Ledger.Nodes.{construct_node-Made, destruct_node-After}

-- Of a null pointer, that the participants are `ps`; of a node, that its own is before them.
abbrev pub HasEntered :
    {G P W : Type 0} → (W → List P) → List P → Option (NodeAt G P) × Heap W → Type 0
HasEntered participants ps (none, heap) = participants heap.world ≡ ps
HasEntered participants ps (some node, heap) = elim (node.1.node_data) [
  | none ↦ participants heap.world ≡ ps
  | some (ad, dds_node) ↦ participants heap.world ≡ dds_node.dp ∷ ps
]

after_of_creation :
    {G P A W : Type 0} (context : Context A) (live : List ℕ)
    (p : Option (NodeAt G P) × Heap W → Type 0) (result : Outcome (Option (NodeAt G P) × Heap W))
    → IsCreation context live result
    → After p result
    → (r : Option (NodeAt G P) × Heap W) × (result ≡ ok r) × p r
after_of_creation context live p result (inl (heap, e, l)) h = (_, e, rw e at h)
after_of_creation context live p result (inr (a, ad, d, heap, e, l)) h = (_, e, rw e at h)

module _ {Q P S Ti Tc W A : Type 0} (factory : Factory Q P S W) (registry : Registry Ti Tc P W)
    (participants : W → List P) (law : Ledger factory registry participants)
    (deletes : Deletes factory) (G : Type 0) (context : Context A)
    (connected : has_factory context ≡ true) (ps : List P) where
  handle_of-HasEntered :
      (made : Option (Struct (OpenDdsNode G P)) × Heap W)
      → Made
          (λ w. participants w ≡ ps)
          (InStruct (λ w. participants w ≡ ps) (λ dds_node w. participants w ≡ dds_node.dp ∷ ps))
          made
      → HasEntered participants ps (handle_of context made.0, made.1)
  handle_of-HasEntered (none, heap) h = h
  handle_of-HasEntered (some s, heap) h = elim (Option-cases s.object) [
    | inl e ↦ rw e (rw e at h)
    | inr (object, e) ↦ rw e (rw e at h)
  ]

  entered :
      (name namespace : Option Bytes) (heap : Heap W)
      → participants heap.world ≡ ps
      → After
          (HasEntered {G = G} participants ps)
          (rmw_create_node factory registry G (some context) name namespace heap)
  unfolding rmw_create_node
  entered name namespace heap h =
      elim (Bool-cases (check_impl_id context.implementation_identifier)) [
        | inr e ↦ rw (rmw_create_node, e) h
        | inl e ↦ elim (Bool-cases (validate_name_namespace name namespace)) [
          | inr f ↦ rw (rmw_create_node, e, f) h
          | inl f ↦
              rw (rmw_create_node, e, f)
                (After-bind
                  (Made (λ w. participants w ≡ ps)
                    (InStruct (λ w. participants w ≡ ps)
                      (λ dds_node w. participants w ≡ dds_node.dp ∷ ps)))
                  (HasEntered {G = G} participants ps) _
                  (λ made. ok (handle_of context made.0, made.1))
                  (create_struct-Made (λ w. participants w ≡ ps)
                    (λ dds_node w. participants w ≡ dds_node.dp ∷ ps) (destruct_node factory)
                    (λ d h k.
                      destruct_node-After factory (λ left. participants left.world ≡ ps) d h)
                    factory.memory
                    (construct_node factory registry G context (text_of name) (text_of namespace))
                    heap
                    (construct_node-Made factory registry participants law deletes ps G context
                      connected (text_of name) (text_of namespace))
                    h)
                  λ made k. handle_of-HasEntered made k)
        ]
      ]

module _ {Q P S Ti Tc W A : Type 0} (factory : Factory Q P S W) (registry : Registry Ti Tc P W)
    (participants : W → List P) (law : Ledger factory registry participants)
    (deletes : Deletes factory) (G : Type 0) (context : Context A)
    (rtps : (domain : ℕ) (world : W) → factory.has_rtps_discovery domain world ≡ true)
    (checked : check_impl_id context.implementation_identifier ≡ true)
    (connected : has_factory context ≡ true) where
  -- Where the calls of OpenDDS keep the participants as Ledger says, both deletions of `cleanup`
  -- succeed, the discovery is that of RTPS, and for a context of the package that is initialized:
  -- the creation of a node returns, whatever fails. Where it is a null pointer, DDS has the
  -- participants that it had: one that was created has been deleted. Where it is a node, DDS has
  -- that node's participant besides.
  pub rmw_create_node-HasEntered :
      (name namespace : Option Bytes) (heap : Heap W)
      → (r : Option (NodeAt G P) × Heap W) × (rmw_create_node factory registry G
            (some context)
            name
            namespace
            heap
          ≡ ok r)
        × HasEntered participants (participants heap.world) r
  rmw_create_node-HasEntered name namespace heap =
      after_of_creation context heap.live _ _
        (rmw_create_node-IsCreation factory registry G context rtps checked connected name namespace
          heap)
        (entered factory registry participants law deletes G context connected
          (participants heap.world) name namespace heap refl)
