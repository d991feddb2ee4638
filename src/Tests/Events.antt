-- ===== src/Tests/Events.antt =====
-- Events at concrete inputs. The constants are those of the DDS specification.
use rmw_opendds.Prelude.{[], ◌∷◌, ◌≡◌, ◌≢◌, refl, true, false, some, none, ok, arith}
use rmw_opendds.Identifier.{opendds_identifier, check_impl_id}
use rmw_opendds.Ret.{RmwRet, DdsRet, check_dds_ret_code}
use rmw_opendds.Events.{StatusKinds, EventType, Event, is_event_supported}
use rmw_opendds.Events.Status.{PolicyIds, Writer, Status}
use rmw_opendds.Handles.{RmwHandle}
use rmw_opendds.Events.Calls.{
  rmw_publisher_event_init, rmw_take_event, rmw_take_event-rmw_publisher_event_init,
}
use rmw_opendds.Events.Take.{
  Entity, publisher, Distinct, init_event, take_event, take_event-status_for, init_event-ok,
}

abbrev pub kinds : StatusKinds
kinds = record {
  liveliness_changed = 4096;
  requested_deadline_missed = 4;
  requested_incompatible_qos = 64;
  liveliness_lost = 2048;
  offered_deadline_missed = 2;
  offered_incompatible_qos = 32;
}

abbrev policies : PolicyIds
policies = record {
  durability = 2;
  deadline = 4;
  liveliness = 8;
  reliability = 11;
  history = 13;
  lifespan = 10;
}

abbrev writer : Writer
writer = record {
  liveliness_lost = (DdsRet.ok, record { total_count = 3; total_count_change = 1 });
  offered_deadline_missed = (DdsRet.timeout, record { total_count = 0; total_count_change = 0 });
  offered_incompatible_qos =
      (DdsRet.ok, record { total_count = 1; total_count_change = 1; last_policy_id = 11 });
}

abbrev event : Event Entity
event = record {
  implementation_identifier = opendds_identifier;
  data_of = some (publisher writer);
  event_type = EventType.liveliness_lost;
}

kinds-Distinct : Distinct kinds
kinds-Distinct = record {
  lost_deadline = ground arith;
  lost_offered = ground arith;
  lost_changed = ground arith;
  lost_missed = ground arith;
  lost_requested = ground arith;
  deadline_offered = ground arith;
  deadline_changed = ground arith;
  deadline_missed = ground arith;
  deadline_requested = ground arith;
  offered_changed = ground arith;
  offered_missed = ground arith;
  offered_requested = ground arith;
  changed_missed = ground arith;
  changed_requested = ground arith;
  missed_requested = ground arith;
}

take_event_example :
    take_event
      (λ a b. check_impl_id a)
      kinds
      policies
      opendds_identifier
      (some event)
      (some Status.blank)
      (some false)
    ≡ ok (
      RmwRet.ok,
      some (Status.liveliness_lost (record { total_count = 3; total_count_change = 1 })),
      some true,
    )
unfolding check_impl_id check_dds_ret_code
take_event_example =
    take_event-status_for (λ a b. check_impl_id a) kinds policies opendds_identifier event
      (publisher writer) Status.blank false kinds-Distinct refl refl

init_event_example :
    (check_impl_id opendds_identifier ≡ true)
    × ((event.data_of ≡ some (publisher writer))
        × ((some (publisher writer) ≢ none) × (is_event_supported kinds event.event_type ≡ true)))
unfolding init_event check_impl_id is_event_supported
init_event_example =
    init_event-ok (λ a b. check_impl_id a) kinds opendds_identifier (some event) opendds_identifier
      (some (publisher writer)) EventType.liveliness_lost event refl

abbrev handle : RmwHandle Entity
handle = record {
  implementation_identifier = opendds_identifier;
  handle_data = some (1, publisher writer);
  name = some (116 ∷ []);
}

rmw_take_event_example :
    rmw_take_event
      (λ a b. check_impl_id a)
      kinds
      policies
      (some event)
      (some Status.blank)
      (some false)
    ≡ ok (
      RmwRet.ok,
      some (Status.liveliness_lost (record { total_count = 3; total_count_change = 1 })),
      some true,
    )
unfolding check_impl_id check_dds_ret_code rmw_publisher_event_init init_event is_event_supported
rmw_take_event_example =
    rmw_take_event-rmw_publisher_event_init (λ a b. check_impl_id a) kinds policies (some event) 0 1
      handle EventType.liveliness_lost event (publisher writer) Status.blank false kinds-Distinct
      refl refl
