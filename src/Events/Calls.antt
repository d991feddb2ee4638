-- ===== src/Events/Calls.antt =====
-- The entry points of rmw_opendds_cpp/src/rmw_event.cpp. The handle of an endpoint is read without
-- a test for null.
use rmw_opendds.Prelude.{
  ℕ, ◌≡◌, ◌∙◌, ap, refl, ok-injective, Bool, arith, Option, none, some, Outcome, ok, undefined,
}
use rmw_opendds.Identifier.{Identifier, opendds_identifier}
use rmw_opendds.Ret.{RmwRet, is_rmw_ok}
use rmw_opendds.Handles.{RmwHandle}
use rmw_opendds.Events.{StatusKinds, EventType, Event}
use rmw_opendds.Events.Status.{PolicyIds, Status}
use rmw_opendds.Events.Take.{
  Entity, Distinct, Taken, init_event, take_event, status_for, init_event-ok, take_event-status_for,
}

-- What a pointer points to.
pointed : {D : Type 0} → Option (ℕ × D) → Option D
pointed none = none
pointed (some (a, d)) = some d

module _ (matches : Identifier → Identifier → Bool) (k : StatusKinds) where
  -- `implementation_identifier` and `data` of the handle passed on to `__rmw_init_event`.
  init_of : {D : Type 0} → Option (Event D) → RmwHandle D → EventType → RmwRet × Option (Event D)
  init_of rmw_event handle event_type =
      init_event matches k opendds_identifier rmw_event handle.implementation_identifier
        (pointed handle.handle_data) event_type

  unfoldable pub rmw_publisher_event_init :
      {D : Type 0}
      → Option (Event D)
      → Option (ℕ × RmwHandle D)
      → EventType
      → Outcome (RmwRet × Option (Event D))
  unfolding init_of pointed
  rmw_publisher_event_init rmw_event none event_type = undefined
  rmw_publisher_event_init rmw_event (some (a, publisher)) event_type =
      ok (init_of rmw_event publisher event_type)

  unfoldable pub rmw_subscription_event_init :
      {D : Type 0}
      → Option (Event D)
      → Option (ℕ × RmwHandle D)
      → EventType
      → Outcome (RmwRet × Option (Event D))
  unfolding init_of pointed
  rmw_subscription_event_init rmw_event none event_type = undefined
  rmw_subscription_event_init rmw_event (some (a, subscription)) event_type =
      ok (init_of rmw_event subscription event_type)

  unfoldable pub rmw_take_event :
      PolicyIds → Option (Event Entity) → Option Status → Option Bool → Outcome (Taken matches k)
  rmw_take_event ids event_handle event_info taken =
      take_event matches k ids opendds_identifier event_handle event_info taken

-- What an initialised event reads from its handle.
module _ (matches : Identifier → Identifier → Bool) (k : StatusKinds) (ids : PolicyIds)
    (distinct : Distinct k) (old : Option (Event Entity)) (handle : ℕ × RmwHandle Entity)
    (t : EventType) (e : Event Entity) (ad : ℕ) (d : Entity) (info : Status) (taken : Bool) where
  init_of-type : init_of matches k old handle.1 t ≡ (RmwRet.ok, some e) → e.event_type ≡ t
  unfolding init_of init_event
  init_of-type h = ground (arith, h)

  init_of-taken :
      init_of matches k old handle.1 t ≡ (RmwRet.ok, some e)
      → handle.1.handle_data ≡ some (ad, d)
      → rmw_take_event matches k ids (some e) (some info) (some taken)
        ≡ ok (
          (status_for ids d t info).0,
          some (status_for ids d t info).1,
          some (is_rmw_ok (status_for ids d t info).0),
        )
  unfolding init_of rmw_take_event pointed
  init_of-taken h has =
      let (same, (points, there)) =
        init_event-ok matches k opendds_identifier old handle.1.implementation_identifier _ t e h in
      let answered =
        take_event-status_for matches k ids opendds_identifier e d info taken distinct same
          (points ∙ ap pointed has) in
      rw (rmw_take_event, answered, init_of-type h) refl

-- With the constants of DDS all different: an event that `rmw_publisher_event_init` has set up with
-- RMW_RET_OK, `rmw_take_event` with no null pointer answers with the status of the publisher behind
-- the handle that the event's type is about, or with RMW_RET_UNSUPPORTED where the type is one of
-- subscriptions or of neither; `*taken` says whether the answer is RMW_RET_OK.
pub rmw_take_event-rmw_publisher_event_init :
    (matches : Identifier → Identifier → Bool) (k : StatusKinds) (ids : PolicyIds)
    (old : Option (Event Entity)) (a ad : ℕ) (publisher : RmwHandle Entity) (t : EventType)
    (e : Event Entity) (d : Entity) (info : Status) (taken : Bool)
    → Distinct k
    → rmw_publisher_event_init matches k old (some (a, publisher)) t ≡ ok (RmwRet.ok, some e)
    → publisher.handle_data ≡ some (ad, d)
    → rmw_take_event matches k ids (some e) (some info) (some taken)
      ≡ ok (
        (status_for ids d t info).0,
        some (status_for ids d t info).1,
        some (is_rmw_ok (status_for ids d t info).0),
      )
unfolding rmw_publisher_event_init
rmw_take_event-rmw_publisher_event_init matches k ids old a ad publisher t e d info taken distinct
      h =
    init_of-taken matches k ids distinct old (a, publisher) t e ad d info taken (ok-injective h)
