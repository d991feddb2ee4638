-- ===== src/Tests/Contexts.antt =====
-- A context at concrete inputs: it is initialized, and the process has another allocation.
use rmw_opendds.Prelude.{ℕ, ◌≡◌, refl, ◌==◌, true, none, some, [], ◌∷◌, ok, inr}
use rmw_opendds.Identifier.{null, opendds_identifier, check_impl_id}
use rmw_opendds.Ret.{RmwRet}
use rmw_opendds.Heap.{create, construct_at, allocate}
use rmw_opendds.Init.{InitOptions, Context, Services, Rmw, init, init_at, construct_impl}
use rmw_opendds.Init.Lifecycle.{
  IsZero, State, initialize, perform, call, Reachable, here, next, IsWellFormed,
  Reachable-IsWellFormed,
}
use rmw_opendds.Init.Closing.{IsClosed, Reachable-IsClosed}

abbrev zero_options : InitOptions ℕ
zero_options = record {
  instance_id = 0;
  implementation_identifier = null;
  domain_id = 7;
  security_options = record { enforce_security = 0; security_root_path = none };
  localhost_only = 0;
  enclave = none;
  allocator = 0;
  impl = none;
}

abbrev zero_context : Context ℕ
zero_context = record {
  instance_id = 0;
  implementation_identifier = null;
  options = zero_options;
  impl = none;
}

-- The first allocation that is asked for has no memory.
abbrev pub rmw : Rmw ℕ
rmw = record {
  default_domain_id = 7;
  localhost_only_default = 0;
  default_security_options = record { enforce_security = 1; security_root_path = none };
  zero_initialized_init_options = zero_options;
  zero_initialized_context = zero_context;
  allocator_is_valid = λ a. a == 1;
  memory = λ n. n == 6;
  participant_factory = true;
}

abbrev options : InitOptions ℕ
options = record zero_options {
  implementation_identifier = opendds_identifier;
  domain_id = 0;
  allocator = 1;
}

abbrev services : ℕ → ℕ → Services
services discoveries shutdowns = record { discoveries = discoveries; shutdowns = shutdowns }

abbrev start : State ℕ
start = record {
  context = zero_context;
  heap = record { next = 5; live = 3 ∷ []; world = services 0 0 };
}

abbrev failed : State ℕ
failed = record start { heap = record { next = 6; live = 3 ∷ []; world = services 0 0 } }

abbrev pub initialized : State ℕ
initialized = record {
  context = record {
    instance_id = 0;
    implementation_identifier = opendds_identifier;
    options = options;
    impl = some (6, record { dpf = true });
  };
  heap = record { next = 7; live = 6 ∷ 3 ∷ []; world = services 1 0 };
}

first : perform rmw (initialize (some options)) start ≡ ok (RmwRet.error, failed)
unfolding perform init_at init create construct_at construct_impl allocate check_impl_id
first = refl

second : perform rmw (initialize (some options)) failed ≡ ok (RmwRet.ok, initialized)
unfolding perform init_at init create construct_at construct_impl allocate check_impl_id
second = refl

reached : Reachable rmw start initialized
reached =
    next (next here (call (initialize (some options)) RmwRet.error first))
      (call (initialize (some options)) RmwRet.ok second)

zero : IsZero rmw.zero_initialized_context
zero = record { identifier = refl; impl = refl }

start-IsWellFormed : IsWellFormed rmw (3 ∷ []) start
start-IsWellFormed = record { holds = (refl, refl); identified = inr refl }

Reachable-IsWellFormed_example : IsWellFormed rmw (3 ∷ []) initialized
Reachable-IsWellFormed_example = Reachable-IsWellFormed rmw zero (3 ∷ []) start-IsWellFormed reached

Reachable-IsClosed_example :
    (u : State ℕ) × Reachable rmw initialized u × IsClosed rmw zero (3 ∷ []) u
Reachable-IsClosed_example = Reachable-IsClosed rmw zero (3 ∷ []) start-IsWellFormed reached
