-- ===== src/Init/Lifecycle.antt =====
-- What holds of a context and of the process between the calls of rmw_init.cpp, in any order.
use rmw_opendds.Prelude.{
  ℕ, ◌+◌, ◌≡◌, refl, ◌⊎◌, true, ◌&&◌, if◌then◌else◌, Option, none, some, List, ◌∷◌, Outcome, ok,
  out_of_range, undefined, ◌>>=◌, arith,
}
use rmw_opendds.Identifier.{null, opendds_identifier, check_impl_id}
use rmw_opendds.Ret.{RmwRet}
use rmw_opendds.Heap.{Heap, create, destroy, allocate, free, drop_address}
use rmw_opendds.Init.{
  InitOptions, Context, ContextImpl, Services, Rmw, init_at, shutdown_at, context_fini_at, init,
  shutdown, construct_impl, destruct_impl,
}

-- The documented zero-initialized context.
pub record IsZero {A : Type 0} (context : Context A) : Type 0 where
  pub identifier : context.implementation_identifier ≡ null
  pub impl : context.impl ≡ none

pub record State (A : Type 0) : Type 0 where
  pub context : Context A
  pub heap : Heap Services

pub data Call (A : Type 0) : Type 0 where
  initialize : Option (InitOptions A) → Call A
  shut_down : Call A
  finalize : Call A

module _ {A : Type 0} (rmw : Rmw A) where
  unfoldable pub perform : Call A → State A → Outcome (RmwRet × State A)
  perform (initialize options) s = do
    r ← init_at rmw options s.context s.heap
    ok (r.0, record { context = r.1; heap = r.2 })
  perform shut_down s = do
    r ← shutdown_at rmw s.context s.heap
    ok (r.0, record { context = r.1; heap = r.2 })
  perform finalize s =
      let r = context_fini_at rmw s.context in ok (r.0, record { context = r.1; heap = s.heap })

  -- A call that returns is a step.
  pub data Step (s t : State A) : Type 0 where
    call : (c : Call A) (ret : RmwRet) → perform c s ≡ ok (ret, t) → Step s t

  pub data Reachable (s : State A) : State A → Type 0 where
    here : Reachable s s
    next : {t u : State A} → Reachable s t → Step t u → Reachable s u

  -- What the context holds: its `impl` is one allocation over `base`, with one start of the
  -- services that is not shut down yet.
  abbrev Holds : List ℕ → Option (ℕ × ContextImpl) → Heap Services → Type 0
  Holds base none heap = (heap.live ≡ base) × (heap.world.discoveries ≡ heap.world.shutdowns)
  Holds base (some (a, impl)) heap =
      (heap.live ≡ a ∷ base)
      × (impl.dpf ≡ true)
      × (heap.world.discoveries ≡ heap.world.shutdowns + 1)

  pub record IsWellFormed (base : List ℕ) (s : State A) : Type 0 where
    pub holds : Holds base s.context.impl s.heap
    pub identified :
        (s.context.implementation_identifier ≡ opendds_identifier)
        ⊎ (s.context ≡ rmw.zero_initialized_context)

  module _ (z : IsZero rmw.zero_initialized_context) (base : List ℕ) where
    created :
        (heap : Heap Services)
        → create rmw.memory (construct_impl rmw) heap
          ≡ ok (
              if rmw.memory heap.next && rmw.participant_factory
              then (
                some (heap.next, record { dpf = true }),
                record {
                  next = heap.next + 1;
                  live = heap.next ∷ heap.live;
                  world = record {
                    discoveries = heap.world.discoveries + 1;
                    shutdowns = heap.world.shutdowns;
                  };
                },
              )
              else (none, record heap { next = heap.next + 1 }))
    unfolding create construct_impl allocate free drop_address
    created heap = ground arith

    Keeps : Outcome (RmwRet × State A) → Type 0
    Keeps (ok (ret, t)) = IsWellFormed base t
    Keeps out_of_range = ⊥
    Keeps undefined = ⊥

    initialize-Keeps :
        (options : Option (InitOptions A)) (s : State A)
        → IsWellFormed base s
        → Keeps (perform (initialize options) s)
    unfolding Keeps perform init_at init check_impl_id
    initialize-Keeps none s w = w
    initialize-Keeps (some o) s w = rw (created s.heap) (ground (arith, z.identifier, z.impl))

    shut_down-Keeps : (s : State A) → IsWellFormed base s → Keeps (perform shut_down s)
    unfolding Keeps perform shutdown_at shutdown destroy destruct_impl free drop_address
        check_impl_id
    shut_down-Keeps s w = ground (arith)

    finalize-Keeps : (s : State A) → IsWellFormed base s → Keeps (perform finalize s)
    unfolding Keeps perform context_fini_at check_impl_id
    finalize-Keeps s w = ground (arith, z.identifier, z.impl)

    perform-Keeps : (c : Call A) (s : State A) → IsWellFormed base s → Keeps (perform c s)
    unfolding initialize-Keeps
    perform-Keeps (initialize options) s w = initialize-Keeps options s w
    perform-Keeps shut_down s w = shut_down-Keeps s w
    perform-Keeps finalize s w = finalize-Keeps s w

    kept :
        (r : Outcome (RmwRet × State A))
        → Keeps r
        → (ret : RmwRet) × (t : State A) × (r ≡ ok (ret, t)) × IsWellFormed base t
    unfolding Keeps
    kept (ok (ret, t)) w = (ret, t, refl, w)
    kept out_of_range w = absurd w
    kept undefined w = absurd w

    -- Every call of a well-formed context returns, and leaves it well-formed.
    pub perform-IsWellFormed :
        (c : Call A) (s : State A)
        → IsWellFormed base s
        → (ret : RmwRet) × (t : State A) × (perform c s ≡ ok (ret, t)) × IsWellFormed base t
    perform-IsWellFormed c s w = kept (perform c s) (perform-Keeps c s w)

    Step-IsWellFormed : {s t : State A} → Step s t → IsWellFormed base s → IsWellFormed base t
    unfolding Keeps
    Step-IsWellFormed (call c ret e) w = rw e at (perform-Keeps c _ w)

    -- Where the zero-initialized context has no identifier and no `impl`: whatever calls of
    -- `rmw_init`, `rmw_shutdown` and `rmw_context_fini` are made on a well-formed context, it stays
    -- well-formed. An `impl` is one allocation over `base` and one start of the services that is
    -- not shut down yet; without it there is neither; and the context has the package's identifier
    -- or is the zero-initialized one.
    pub Reachable-IsWellFormed :
        {s t : State A} → IsWellFormed base s → Reachable s t → IsWellFormed base t
    Reachable-IsWellFormed w here = w
    Reachable-IsWellFormed w (next r st) = Step-IsWellFormed st (Reachable-IsWellFormed w r)
