-- ===== src/Wait.antt =====
-- `wait` (rmw_opendds_cpp/include/rmw_opendds_cpp/wait.hpp), `__handle_active_event_conditions`
-- (src/wait.cpp) and `is_in` and `set` of DDSGuardCondition (src/DDSGuardCondition.cpp). Messages
-- to the log are left out.
pub mod Slots
pub mod Cleaning
pub mod Results
use rmw_opendds.Prelude.{
  ℕ, suc, ◌≡◌, ◌↔◌, Bool, true, false, not, ◌&&◌, Option, none, some, List, [], ◌∷◌, ltb, ◌==◌,
  length, if◌then◌else◌, bit_and, Outcome, ok, out_of_range, undefined, ◌>>=◌,
}
use rmw_opendds.Identifier.{Identifier}
use rmw_opendds.Ret.{RmwRet, DdsRet, check_attach_condition_error, is_rmw_ok, is_dds_ok}
use rmw_opendds.Qos.{RmwTime, Duration, time_to_dds}
use rmw_opendds.WaitSets.{Dds, Endpoint, Request, WaitSetInfo, WaitSet, Waited, Answer}
use rmw_opendds.Events.{StatusKinds, Event, is_event_supported, get_status_kind_from_rmw}

abbrev is_timeout : DdsRet → Bool
is_timeout DdsRet.timeout = true
is_timeout _ = false

module _ {C D W : Type 0} (dds : Dds C D W) where
  -- Attaching
  attach_endpoints : List (Option (Endpoint C)) → W → RmwRet × W
  unfolding check_attach_condition_error
  attach_endpoints [] w = (RmwRet.ok, w)
  attach_endpoints (none ∷ rest) w = (RmwRet.error, w)
  attach_endpoints (some info ∷ rest) w = elim (info.read_condition) [
    | none ↦ (RmwRet.error, w)
    | some c ↦
        let (code, attached) = dds.attach_condition c w in
        let others = attach_endpoints rest attached in
        if is_rmw_ok (check_attach_condition_error code)
        then others
        else (check_attach_condition_error code, attached)
  ]

  attach_guards : List (Option C) → W → RmwRet × W
  unfolding check_attach_condition_error
  attach_guards [] w = (RmwRet.ok, w)
  attach_guards (none ∷ rest) w = (RmwRet.error, w)
  attach_guards (some c ∷ rest) w =
      let (code, attached) = dds.attach_condition c w in
      let others = attach_guards rest attached in
      if is_rmw_ok (check_attach_condition_error code)
      then others
      else (check_attach_condition_error code, attached)

  -- `if (array) { ... }`
  abbrev attach_array :
      {A : Type 0} → (List A → W → RmwRet × W) → Option (List A) → RmwRet × W → RmwRet × W
  attach_array attach none (ret, w) = (ret, w)
  attach_array attach (some slots) (ret, w) = if is_rmw_ok ret then attach slots w else (ret, w)

  pub attach_all : Request C D → W → RmwRet × W
  unfolding attach_endpoints attach_guards
  attach_all r w = attach_array attach_endpoints r.clients (
      attach_array attach_endpoints r.services (
        attach_array attach_guards r.guard_conditions
          (attach_array attach_endpoints r.subscriptions (RmwRet.ok, w))))

  -- Resetting: the index that the search stops at, and whether it is in the sequence.
  index_of : C → List C → ℕ
  index_of c [] = 0
  index_of c (a ∷ active) = if dds.same a c then 0 else suc (index_of c active)

  is_active : List C → C → Bool
  unfolding index_of
  is_active active c = ltb (index_of c active) (length active)

  reset_endpoints : List C → List (Option (Endpoint C)) → RmwRet × List (Option (Endpoint C))
  unfolding is_active
  reset_endpoints active [] = (RmwRet.ok, [])
  reset_endpoints active (none ∷ rest) = (RmwRet.error, none ∷ rest)
  reset_endpoints active (some info ∷ rest) = elim (info.read_condition) [
    | none ↦ (RmwRet.error, some info ∷ rest)
    | some c ↦
        let (ret, others) = reset_endpoints active rest in
        (ret, (if is_active active c then some info else none) ∷ others)
  ]

  unfoldable pub is_in : C → List C → Bool
  is_in c [] = false
  is_in c (a ∷ cq) = if dds.same a c then true else is_in c cq

  set : C → Bool → W → RmwRet × W
  set c trigger_value w =
      let (code, after) = dds.set_trigger_value c trigger_value w in
      (if is_dds_ok code then RmwRet.ok else RmwRet.error, after)

  reset_guards : List C → List (Option C) → W → RmwRet × List (Option C) × W
  unfolding is_in set
  reset_guards active [] w = (RmwRet.ok, [], w)
  reset_guards active (none ∷ rest) w = (RmwRet.error, none ∷ rest, w)
  reset_guards active (some c ∷ rest) w =
      let (ret, after) = if is_in c active then set c false w else (RmwRet.ok, w) in
      let (ret_of_rest, others, last) = reset_guards active rest after in
      if is_rmw_ok ret
      then (ret_of_rest, (if is_in c active then some c else none) ∷ others, last)
      else (RmwRet.error, some c ∷ rest, after)

  -- `if (array) { ... }`, once the arrays before it are reset.
  abbrev reset_array :
      {A : Type 0}
      → (List A → RmwRet × List A)
      → RmwRet
      → Option (List A)
      → RmwRet × Option (List A)
  reset_array reset ret none = (ret, none)
  reset_array reset ret (some slots) =
      let (ret_of_array, left) = reset slots in
      if is_rmw_ok ret then (ret_of_array, some left) else (ret, some slots)

  reset_guard_array :
      List C → RmwRet → Option (List (Option C)) → W → RmwRet × Option (List (Option C)) × W
  unfolding reset_guards
  reset_guard_array active ret none w = (ret, none, w)
  reset_guard_array active ret (some slots) w =
      let (ret_of_array, left, after) = reset_guards active slots w in
      if is_rmw_ok ret then (ret_of_array, some left, after) else (ret, some slots, w)

  -- One event, if its pointers are not null: whether its status has changed.
  event_active : Event D → ℕ → W → Outcome Bool
  event_active ev dds_entity w =
      if is_event_supported dds.kinds ev.event_type
      then (do
        kind ← get_status_kind_from_rmw dds.kinds ev.event_type
        ok (not (bit_and (dds.get_status_changes dds_entity w) kind == 0)))
      else ok false

  -- `ev` is read without a test.
  handle_events : List (Option (Event D)) → W → Outcome (RmwRet × List (Option (Event D)))
  unfolding event_active
  handle_events [] w = ok (RmwRet.ok, [])
  handle_events (none ∷ rest) w = undefined
  handle_events (some ev ∷ rest) w = elim (ev.data_of) [
    | none ↦ ok (RmwRet.invalid_argument, some ev ∷ rest)
    | some data_of ↦ elim (dds.get_entity data_of) [
      | none ↦ ok (RmwRet.error, some ev ∷ rest)
      | some dds_entity ↦ do
        active ← event_active ev dds_entity w
        others ← handle_events rest w
        ok (others.0, (if active then some ev else none) ∷ others.1)
    ]
  ]

  -- `__handle_active_event_conditions`
  unfoldable pub handle_active_event_conditions :
      Option (List (Option (Event D))) → W → Outcome (RmwRet × Option (List (Option (Event D))))
  unfolding handle_events
  handle_active_event_conditions none w = ok (RmwRet.ok, none)
  handle_active_event_conditions (some events) w = do
    handled ← handle_events events w
    ok (handled.0, some handled.1)

  unfoldable pub timeout_of : Option RmwTime → Duration
  timeout_of none = dds.infinite
  timeout_of (some wait_timeout) = time_to_dds wait_timeout

  -- The four loops after the wait.
  pub reset_all : List C → Request C D → W → RmwRet × Request C D × W
  unfolding reset_endpoints reset_guard_array
  reset_all active r w =
      let (ret1, subscriptions) = reset_array (reset_endpoints active) RmwRet.ok r.subscriptions in
      let (ret2, guards, after) = reset_guard_array active ret1 r.guard_conditions w in
      let (ret3, services) = reset_array (reset_endpoints active) ret2 r.services in
      let (ret4, clients) = reset_array (reset_endpoints active) ret3 r.clients in
      (
        ret4,
        record r {
          subscriptions = subscriptions;
          guard_conditions = guards;
          services = services;
          clients = clients;
        },
        after,
      )

  -- The last step, and the answer.
  finish : DdsRet → List C → RmwRet × Request C D × W → Outcome (Waited C D W)
  unfolding handle_active_event_conditions
  finish status active (ret, r, w) =
      if is_rmw_ok ret
      then (do
        handled ← handle_active_event_conditions r.events w
        ok (record {
          ret =
              if is_rmw_ok handled.0
              then if is_timeout status then RmwRet.timeout else RmwRet.ok
              else handled.0;
          request = record r { events = handled.1 };
          active = active;
          world = w;
        }))
      else ok (record { ret = ret; request = r; active = active; world = w })

  -- From the cleaner's construction to its destruction.
  pub wait_body : Option RmwTime → List C → Request C D → W → Outcome (Waited C D W)
  unfolding attach_all reset_all finish timeout_of
  wait_body wait_timeout active r w =
      let (ret, attached) = attach_all r w in
      let (status, now_active, after) = dds.wait (timeout_of wait_timeout) attached in
      if not (is_rmw_ok ret)
      then ok (record { ret = ret; request = r; active = active; world = attached })
      else if not (is_dds_ok status) && not (is_timeout status)
      then ok (record { ret = RmwRet.error; request = r; active = now_active; world = after })
      else finish status now_active (reset_all now_active r after)

  -- The destructor of the cleaner.
  detach_all : List C → W → W
  detach_all [] w = w
  detach_all (c ∷ rest) w = detach_all rest (dds.detach_condition c w).1

  unfoldable pub clean : Option (List C) → W → Option (List C) × W
  unfolding detach_all
  clean none w = (none, w)
  clean (some old) w =
      let (code, conditions, after) = dds.get_conditions w in
      (some conditions, if is_dds_ok code then detach_all conditions after else after)

  abbrev refused : Option (WaitSet C) → Request C D → W → Outcome (Answer C D W)
  refused wait_set r w =
      ok (record { ret = RmwRet.error; request = r; wait_set = wait_set; world = w })

  with_active :
      Option RmwTime
      → WaitSet C
      → WaitSetInfo C
      → Option (List C)
      → Request C D
      → W
      → Outcome (Answer C D W)
  unfolding wait_body clean
  with_active wait_timeout wait_set info none r w = refused (some wait_set) r w
  with_active wait_timeout wait_set info (some active) r w = do
    body ← wait_body wait_timeout active r w
    let cleaned = clean info.attached_conditions body.world in
        ok (record {
          ret = body.ret;
          request = body.request;
          wait_set = some (record wait_set {
            info = some (record info {
              active_conditions = some body.active;
              attached_conditions = cleaned.0;
            });
          });
          world = cleaned.1;
        })

  with_info :
      Option RmwTime → WaitSet C → Option (WaitSetInfo C) → Request C D → W → Outcome (Answer C D W)
  unfolding with_active
  with_info wait_timeout wait_set none r w = refused (some wait_set) r w
  with_info wait_timeout wait_set (some info) r w =
      if info.has_wait_set
      then with_active wait_timeout wait_set info info.active_conditions r w
      else refused (some wait_set) r w

  unfoldable pub wait :
      Request C D → Option (WaitSet C) → Option RmwTime → W → Outcome (Answer C D W)
  unfolding with_info
  wait r none wait_timeout w = refused none r w
  wait r (some wait_set) wait_timeout w =
      if dds.matches wait_set.implementation_identifier
      then with_info wait_timeout wait_set wait_set.info r w
      else refused (some wait_set) r w
