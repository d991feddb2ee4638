-- ===== src/Init.antt =====
-- The options and the context of the middleware: rmw_opendds_cpp/src/init.cpp, src/rmw_init.cpp and
-- include/rmw_opendds_cpp/init.hpp. Pointers are options, and messages to the log are left out.
pub mod Lifecycle
pub mod Closing
use rmw_opendds.Prelude.{
  ℕ, ◌+◌, ◌==◌, Bool, true, false, not, ◌&&◌, Option, none, some, if◌then◌else◌, Outcome, ok, ◌>>=◌,
}
use rmw_opendds.Text.{Bytes}
use rmw_opendds.Identifier.{Identifier, null, opendds_identifier, other, check_impl_id}
use rmw_opendds.Ret.{RmwRet}
use rmw_opendds.Heap.{Heap, create, destroy}

pub record SecurityOptions : Type 0 where
  pub enforce_security : ℕ
  pub security_root_path : Option Bytes

-- `rmw_init_options_t`, whose allocator belongs to rcutils and whose `impl` is an address.
pub record InitOptions (A : Type 0) : Type 0 where
  pub instance_id : ℕ
  pub implementation_identifier : Identifier
  pub domain_id : ℕ
  pub security_options : SecurityOptions
  pub localhost_only : ℕ
  pub enclave : Option Bytes
  pub allocator : A
  pub impl : Option ℕ

-- `rmw_context_impl_t`: whether `dpf_` is set.
pub record ContextImpl : Type 0 where
  pub dpf : Bool

-- `rmw_context_t`; `impl` has an address.
pub record Context (A : Type 0) : Type 0 where
  pub instance_id : ℕ
  pub implementation_identifier : Identifier
  pub options : InitOptions A
  pub impl : Option (ℕ × ContextImpl)

-- How often the constructor of `rmw_context_impl_t` set the default discovery and its destructor
-- shut the service participant down.
pub record Services : Type 0 where
  pub discoveries : ℕ
  pub shutdowns : ℕ

abbrev pub is_null : Identifier → Bool
is_null null = true
is_null opendds_identifier = false
is_null (other n) = false

abbrev pub is_none : {A : Type 0} → Option A → Bool
is_none none = true
is_none (some a) = false

-- What rmw, rcutils and OpenDDS give: the values of their constants and functions without
-- arguments, whether an allocator is valid, which allocations have memory, and whether there is a
-- participant factory.
pub record Rmw (A : Type 0) : Type 0 where
  pub default_domain_id : ℕ
  pub localhost_only_default : ℕ
  pub default_security_options : SecurityOptions
  pub zero_initialized_init_options : InitOptions A
  pub zero_initialized_context : Context A
  pub allocator_is_valid : A → Bool
  pub memory : ℕ → Bool
  pub participant_factory : Bool

module _ {A : Type 0} (rmw : Rmw A) where
  unfoldable pub options_is_zero_initialized : Option (InitOptions A) → Bool
  options_is_zero_initialized none = false
  options_is_zero_initialized (some opt) =
      (opt.instance_id == 0)
      && is_null opt.implementation_identifier
      && (opt.domain_id == rmw.default_domain_id)
      && ((opt.security_options.enforce_security == 0)
          && is_none opt.security_options.security_root_path)
      && (opt.localhost_only == rmw.localhost_only_default)
      && is_none opt.enclave
      && is_none opt.impl

  unfoldable pub rmw_init_options_init :
      Option (InitOptions A) → A → RmwRet × Option (InitOptions A)
  unfolding options_is_zero_initialized
  rmw_init_options_init none allocator = (RmwRet.invalid_argument, none)
  rmw_init_options_init (some init_options) allocator =
      if not (options_is_zero_initialized (some init_options))
      then (RmwRet.invalid_argument, some init_options)
      else if not (rmw.allocator_is_valid allocator)
      then (RmwRet.invalid_argument, some init_options)
      else (
        RmwRet.ok,
        some (record init_options {
          instance_id = 0;
          implementation_identifier = opendds_identifier;
          domain_id = 0;
          security_options = rmw.default_security_options;
          allocator = allocator;
          impl = none;
        }),
      )

  -- The code, and what `dst` points to.
  unfoldable pub rmw_init_options_copy :
      Option (InitOptions A) → Option (InitOptions A) → RmwRet × Option (InitOptions A)
  unfolding options_is_zero_initialized
  rmw_init_options_copy none dst = (RmwRet.invalid_argument, dst)
  rmw_init_options_copy (some src) dst =
      if not (check_impl_id src.implementation_identifier)
      then (RmwRet.incorrect_rmw_implementation, dst)
      else if not (options_is_zero_initialized dst)
      then (RmwRet.invalid_argument, dst)
      else (RmwRet.ok, some src)

  unfoldable pub rmw_init_options_fini : Option (InitOptions A) → RmwRet × Option (InitOptions A)
  rmw_init_options_fini none = (RmwRet.invalid_argument, none)
  rmw_init_options_fini (some init_options) =
      if not (rmw.allocator_is_valid init_options.allocator)
      then (RmwRet.invalid_argument, some init_options)
      else if not (check_impl_id init_options.implementation_identifier)
      then (RmwRet.incorrect_rmw_implementation, some init_options)
      else (RmwRet.ok, some rmw.zero_initialized_init_options)

  -- `rmw_context_impl_t()`, which throws where there is no participant factory.
  unfoldable pub construct_impl : Heap Services → Outcome (Option ContextImpl × Heap Services)
  construct_impl heap =
      let world = heap.world in
      if rmw.participant_factory
      then ok (
        some (record { dpf = true }),
        record heap { world = record world { discoveries = world.discoveries + 1 } },
      )
      else ok (none, heap)

  -- `~rmw_context_impl_t`
  unfoldable pub destruct_impl : ContextImpl → Heap Services → Outcome (Heap Services)
  destruct_impl impl heap =
      let world = heap.world in
      if impl.dpf
      then ok (record heap { world = record world { shutdowns = world.shutdowns + 1 } })
      else ok heap

  unfoldable pub init : Context A → Heap Services → Outcome (RmwRet × Context A × Heap Services)
  unfolding construct_impl
  init context heap = do
    made ← create rmw.memory construct_impl heap
    elim (made.0) [
      | none ↦ ok (RmwRet.error, rmw.zero_initialized_context, made.1)
      | some impl ↦ ok (RmwRet.ok, record context { impl = some impl }, made.1)
    ]

  unfoldable pub shutdown : Context A → Heap Services → Outcome (RmwRet × Context A × Heap Services)
  unfolding destruct_impl
  shutdown context heap = do
    gone ← destroy destruct_impl context.impl heap
    ok (RmwRet.ok, record context { impl = gone.0 }, gone.1)

  -- `rmw_init`, `rmw_shutdown` and `rmw_context_fini` of a context that is not null.
  unfoldable pub init_at :
      Option (InitOptions A)
      → Context A
      → Heap Services
      → Outcome (RmwRet × Context A × Heap Services)
  unfolding init
  init_at none context heap = ok (RmwRet.invalid_argument, context, heap)
  init_at (some options) context heap =
      if not (check_impl_id options.implementation_identifier)
      then ok (RmwRet.incorrect_rmw_implementation, context, heap)
      else if not (is_null context.implementation_identifier)
      then ok (RmwRet.invalid_argument, context, heap)
      else init
          (record context {
            instance_id = options.instance_id;
            implementation_identifier = opendds_identifier;
            options = options;
          })
          heap

  unfoldable pub shutdown_at :
      Context A → Heap Services → Outcome (RmwRet × Context A × Heap Services)
  unfolding shutdown
  shutdown_at context heap =
      if not (check_impl_id context.implementation_identifier)
      then ok (RmwRet.incorrect_rmw_implementation, context, heap)
      else shutdown context heap

  unfoldable pub context_fini_at : Context A → RmwRet × Context A
  context_fini_at context =
      if is_null context.implementation_identifier
      then (RmwRet.invalid_argument, context)
      else if not (check_impl_id context.implementation_identifier)
      then (RmwRet.incorrect_rmw_implementation, context)
      else if not (is_none context.impl)
      then (RmwRet.invalid_argument, context)
      else (RmwRet.ok, rmw.zero_initialized_context)

  -- The entry points: the code, the context (`none` is a null pointer) and the heap.
  unfoldable pub rmw_init :
      Option (InitOptions A)
      → Option (Context A)
      → Heap Services
      → Outcome (RmwRet × Option (Context A) × Heap Services)
  unfolding init_at
  rmw_init options none heap = ok (RmwRet.invalid_argument, none, heap)
  rmw_init options (some context) heap = do
    r ← init_at options context heap
    ok (r.0, some r.1, r.2)

  unfoldable pub rmw_shutdown :
      Option (Context A) → Heap Services → Outcome (RmwRet × Option (Context A) × Heap Services)
  unfolding shutdown_at
  rmw_shutdown none heap = ok (RmwRet.invalid_argument, none, heap)
  rmw_shutdown (some context) heap = do r ← shutdown_at context heap; ok (r.0, some r.1, r.2)

  unfoldable pub rmw_context_fini : Option (Context A) → RmwRet × Option (Context A)
  rmw_context_fini none = (RmwRet.invalid_argument, none)
  rmw_context_fini (some context) = let (ret, left) = context_fini_at context in (ret, some left)
