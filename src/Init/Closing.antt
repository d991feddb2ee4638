-- ===== src/Init/Closing.antt =====
-- How `rmw_shutdown` and `rmw_context_fini` (rmw_opendds_cpp/src/rmw_init.cpp) end what the other
-- calls began.
use rmw_opendds.Prelude.{
  ℕ, ◌≡◌, refl, ap, ◌∙◌, inl, inr, none, List, Outcome, ok, out_of_range, undefined, arith,
}
use rmw_opendds.Identifier.{opendds_identifier, check_impl_id}
use rmw_opendds.Ret.{RmwRet}
use rmw_opendds.Heap.{destroy, free, drop_address}
use rmw_opendds.Init.{Rmw, shutdown_at, context_fini_at, shutdown, destruct_impl}
use rmw_opendds.Init.Lifecycle.{
  IsZero, State, shut_down, finalize, perform, call, Reachable, here, next, IsWellFormed,
  Reachable-IsWellFormed,
}

module _ {A : Type 0} (rmw : Rmw A) where
  module _ (z : IsZero rmw.zero_initialized_context) (base : List ℕ) where
    -- What `rmw_shutdown` leaves: nothing is held, and the identifier stays.
    record IsShut (ret : RmwRet) (t : State A) : Type 0 where
      succeeded : ret ≡ RmwRet.ok
      identifier : t.context.implementation_identifier ≡ opendds_identifier
      no_impl : t.context.impl ≡ none
      freed : t.heap.live ≡ base
      balanced : t.heap.world.discoveries ≡ t.heap.world.shutdowns

    Shuts : Outcome (RmwRet × State A) → Type 0
    Shuts (ok (ret, t)) = IsShut ret t
    Shuts out_of_range = ⊥
    Shuts undefined = ⊥

    shut_down-Shuts :
        (s : State A)
        → IsWellFormed rmw base s
        → s.context.implementation_identifier ≡ opendds_identifier
        → Shuts (perform rmw shut_down s)
    unfolding Shuts perform shutdown_at shutdown destroy destruct_impl free drop_address
        check_impl_id
    shut_down-Shuts s w e = ground arith

    finalize_closed :
        (s : State A)
        → s.context.implementation_identifier ≡ opendds_identifier
        → s.context.impl ≡ none
        → perform rmw finalize s
          ≡ ok (RmwRet.ok, record { context = rmw.zero_initialized_context; heap = s.heap })
    unfolding perform context_fini_at check_impl_id
    finalize_closed s e f = ground arith

    -- The state from which nothing is left to finish.
    pub record IsClosed (t : State A) : Type 0 where
      pub zero : t.context ≡ rmw.zero_initialized_context
      pub nothing_held : t.heap.live ≡ base
      pub stopped : t.heap.world.discoveries ≡ t.heap.world.shutdowns

    shut :
        (r : Outcome (RmwRet × State A))
        → Shuts r
        → (t : State A) × (r ≡ ok (RmwRet.ok, t)) × IsShut RmwRet.ok t
    unfolding Shuts
    shut (ok (ret, t)) h = (t, ap (λ x. ok (x, t)) h.succeeded, rw h.succeeded at h)
    shut out_of_range h = absurd h
    shut undefined h = absurd h

    closes_identified :
        (t : State A)
        → IsWellFormed rmw base t
        → t.context.implementation_identifier ≡ opendds_identifier
        → (u : State A) × Reachable rmw t u × IsClosed u
    closes_identified t w e =
        let (v, e₁, h) = shut (perform rmw shut_down t) (shut_down-Shuts t w e) in
        (
          record { context = rmw.zero_initialized_context; heap = v.heap },
          next (next here (call shut_down RmwRet.ok e₁))
              (call finalize RmwRet.ok (finalize_closed v h.identifier h.no_impl)),
          record { zero = refl; nothing_held = h.freed; stopped = h.balanced },
        )

    closes_zero :
        (t : State A)
        → IsWellFormed rmw base t
        → t.context ≡ rmw.zero_initialized_context
        → (u : State A) × Reachable rmw t u × IsClosed u
    closes_zero t w e =
        let none_held = rw (ap (λ c. c.impl) e ∙ z.impl) at w.holds in
        (t, here, record { zero = e; nothing_held = none_held.0; stopped = none_held.1 })

    -- Where the zero-initialized context has no identifier and no `impl`: from every context that
    -- calls reach from a well-formed one, further calls reach the zero-initialized context, with
    -- the allocations of `base` alone and as many ends of the services as starts.
    pub Reachable-IsClosed :
        {s t : State A}
        → IsWellFormed rmw base s
        → Reachable rmw s t
        → (u : State A) × Reachable rmw t u × IsClosed u
    Reachable-IsClosed {s} {t} w r =
        let v = Reachable-IsWellFormed rmw z base w r in
        elim (v.identified) [ inl e ↦ closes_identified t v e | inr e ↦ closes_zero t v e ]
