-- ===== src/Participants/Calls/Shutdown.antt =====
-- Nodes whose context is shut down (rmw_opendds_cpp/src/rmw_node.cpp, src/rmw_init.cpp).
use rmw_opendds.Prelude.{
  ℕ, ◌≡◌, refl, ap, ◌∙◌, Option, none, some, Outcome, ok, out_of_range, undefined, ◌>>=◌,
  Bool-cases, inl, inr, sym, ok-injective,
}
use rmw_opendds.Identifier.{opendds_identifier, check_impl_id}
use rmw_opendds.Ret.{RmwRet}
use rmw_opendds.Heap.{Heap, destroy, free}
use rmw_opendds.Init.{Context, ContextImpl, Services, Rmw, shutdown, shutdown_at, destruct_impl}
use rmw_opendds.Participants.{Factory}
use rmw_opendds.Participants.Calls.{NodeAt, rmw_destroy_node}

freed_null :
    {W T : Type 0} (r : Outcome (Heap W)) (gone : Option T × Heap W)
    → (do freed ← r; ok (none, freed)) ≡ ok gone
    → gone.0 ≡ none
freed_null (ok heap) gone e = cc e
freed_null out_of_range gone e = cc e
freed_null undefined gone e = cc e

destroyed_null :
    {W T : Type 0} (a : ℕ) (r : Outcome (Heap W)) (gone : Option T × Heap W)
    → (do destructed ← r; freed ← free a destructed; ok (none, freed)) ≡ ok gone
    → gone.0 ≡ none
destroyed_null a (ok heap) gone e = freed_null (free a heap) gone e
destroyed_null a out_of_range gone e = cc e
destroyed_null a undefined gone e = cc e

-- A pointer is null after `RmwAllocateFree::destroy`.
destroy_null :
    {W T : Type 0} (destructor : T → Heap W → Outcome (Heap W)) (p : Option (ℕ × T)) (heap : Heap W)
    (gone : Option (ℕ × T) × Heap W)
    → destroy destructor p heap ≡ ok gone
    → gone.0 ≡ none
unfolding destroy
destroy_null destructor none heap gone e = cc e
destroy_null destructor (some (a, t)) heap gone e = destroyed_null a (destructor t heap) gone e

abbrev shut_with :
    {A : Type 0}
    → Context A
    → Option (ℕ × ContextImpl) × Heap Services
    → Outcome (RmwRet × Context A × Heap Services)
shut_with context gone = ok (RmwRet.ok, record context { impl = gone.0 }, gone.1)

shut_impl :
    {A : Type 0} (context c : Context A) (r : Outcome (Option (ℕ × ContextImpl) × Heap Services))
    (ret : RmwRet) (heap : Heap Services)
    → ((gone : Option (ℕ × ContextImpl) × Heap Services) → r ≡ ok gone → gone.0 ≡ none)
    → (r >>= shut_with context) ≡ ok (ret, c, heap)
    → c.impl ≡ none
shut_impl context c (ok gone) ret heap n e = ap (λ x. x.1.impl) (ok-injective (sym e)) ∙ n gone refl
shut_impl context c out_of_range ret heap n e = cc e
shut_impl context c undefined ret heap n e = cc e

module _ {A : Type 0} (rmw : Rmw A) where
  shutdown_at_impl :
      (context c : Context A) (heap left : Heap Services)
      → shutdown_at rmw context heap ≡ ok (RmwRet.ok, c, left)
      → c.impl ≡ none
  unfolding shutdown_at shutdown
  shutdown_at_impl context c heap left e =
      elim (Bool-cases (check_impl_id context.implementation_identifier)) [
        | inl k ↦
            shut_impl context c (destroy (destruct_impl rmw) context.impl heap) RmwRet.ok left
              (destroy_null (destruct_impl rmw) context.impl heap) (rw k at e)
        | inr k ↦ cc (rw k at e)
      ]

  -- After a context is shut down with success, the end of a node with the package's identifier is
  -- refused with RMW_RET_ERROR, and the heap and DDS are left as they are: what the node has on the
  -- heap stays, and so does its participant.
  pub rmw_destroy_node-shutdown_at :
      {Q P S W G : Type 0} (factory : Factory Q P S W) (context c : Context A)
      (heap left : Heap Services) (node : NodeAt G P) (nodes : Heap W)
      → shutdown_at rmw context heap ≡ ok (RmwRet.ok, c, left)
      → node.1.implementation_identifier ≡ opendds_identifier
      → rmw_destroy_node factory (some c) (some node) nodes ≡ ok (RmwRet.error, nodes)
  unfolding rmw_destroy_node check_impl_id
  rmw_destroy_node-shutdown_at factory context c heap left node nodes e i =
      rw (rmw_destroy_node, i, shutdown_at_impl context c heap left e) refl
