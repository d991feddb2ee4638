-- ===== src/Events/Take.antt =====
-- `__rmw_init_event` and `__rmw_take_event` (rmw_opendds_cpp/src/event.cpp).
use rmw_opendds.Prelude.{
  ℕ, ◌≡◌, ◌≢◌, refl, Bool, true, false, not, arith, Option, none, some, Outcome, ok, undefined,
  ◌>>=◌, if◌then◌else◌,
}
use rmw_opendds.Identifier.{Identifier, null}
use rmw_opendds.Ret.{RmwRet, is_rmw_ok}
use rmw_opendds.Events.{StatusKinds, EventType, Event, is_event_supported, get_status_kind_from_rmw}
use rmw_opendds.Events.Status.{
  PolicyIds, Writer, Reader, Status, write, offered, requested, publisher_get_status,
  subscriber_get_status,
}

-- A DDSEntity is a DDSPublisher or a DDSSubscriber.
pub data Entity : Type 0 where
  publisher : Writer → Entity
  subscriber : Reader → Entity

unfoldable pub get_status : StatusKinds → PolicyIds → Entity → ℕ → Status → RmwRet × Status
unfolding publisher_get_status subscriber_get_status
get_status k ids (publisher w) mask old = publisher_get_status k ids w mask old
get_status k ids (subscriber r) mask old = subscriber_get_status k ids r mask old

-- RMW_CHECK_TYPE_IDENTIFIERS_MATCH is a macro of rmw: `matches` is its test.
module _ (matches : Identifier → Identifier → Bool) (k : StatusKinds) where
  is_null : Identifier → Bool
  is_null null = true
  is_null _ = false

  unfoldable pub init_event :
      {D : Type 0}
      → Identifier
      → Option (Event D)
      → Identifier
      → Option D
      → EventType
      → RmwRet × Option (Event D)
  unfolding is_null
  init_event identifier none endpoint_identifier entity event_type = (RmwRet.invalid_argument, none)
  init_event identifier (some e) endpoint_identifier none event_type =
      (RmwRet.invalid_argument, some e)
  init_event identifier (some e) endpoint_identifier (some d) event_type =
      if is_null identifier
      then (RmwRet.invalid_argument, some e)
      else if is_null endpoint_identifier
      then (RmwRet.invalid_argument, some e)
      else if not (matches endpoint_identifier identifier)
      then (RmwRet.incorrect_rmw_implementation, some e)
      else if not (is_event_supported k event_type)
      then (RmwRet.unsupported, some e)
      else (
        RmwRet.ok,
        some (record {
          implementation_identifier = endpoint_identifier;
          data_of = some d;
          event_type = event_type;
        }),
      )

  -- The answer, `*event_info` and `*taken`.
  abbrev pub Taken : Type 0
  Taken = RmwRet × Option Status × Option Bool

  -- The last steps, once the entity has answered.
  abbrev pub finish : RmwRet × Status → Taken
  finish (ret_code, status) = (ret_code, some status, some (is_rmw_ok ret_code))

  status_of : PolicyIds → Option Entity → ℕ → Status → Outcome (RmwRet × Status)
  status_of ids none status_kind info = undefined
  status_of ids (some dds_entity) status_kind info =
      ok (get_status k ids dds_entity status_kind info)

  unfoldable pub take_event :
      PolicyIds → Identifier → Option (Event Entity) → Option Status → Option Bool → Outcome Taken
  unfolding status_of
  take_event ids identifier none event_info taken = ok (RmwRet.invalid_argument, event_info, taken)
  take_event ids identifier (some e) none taken = ok (RmwRet.invalid_argument, none, taken)
  take_event ids identifier (some e) (some info) none =
      ok (RmwRet.invalid_argument, some info, none)
  take_event ids identifier (some e) (some info) (some taken) =
      if not (matches e.implementation_identifier identifier)
      then ok (RmwRet.error, some info, some taken)
      else if is_event_supported k e.event_type
      then (do
        status_kind ← get_status_kind_from_rmw k e.event_type
        answer ← status_of ids e.data_of status_kind info
        ok (finish answer))
      else ok (finish (RmwRet.unsupported, info))

-- The constants are different, as the cases of a switch are.
pub record Distinct (k : StatusKinds) : Type 0 where
  pub lost_deadline : k.liveliness_lost ≢ k.offered_deadline_missed
  pub lost_offered : k.liveliness_lost ≢ k.offered_incompatible_qos
  pub lost_changed : k.liveliness_lost ≢ k.liveliness_changed
  pub lost_missed : k.liveliness_lost ≢ k.requested_deadline_missed
  pub lost_requested : k.liveliness_lost ≢ k.requested_incompatible_qos
  pub deadline_offered : k.offered_deadline_missed ≢ k.offered_incompatible_qos
  pub deadline_changed : k.offered_deadline_missed ≢ k.liveliness_changed
  pub deadline_missed : k.offered_deadline_missed ≢ k.requested_deadline_missed
  pub deadline_requested : k.offered_deadline_missed ≢ k.requested_incompatible_qos
  pub offered_changed : k.offered_incompatible_qos ≢ k.liveliness_changed
  pub offered_missed : k.offered_incompatible_qos ≢ k.requested_deadline_missed
  pub offered_requested : k.offered_incompatible_qos ≢ k.requested_incompatible_qos
  pub changed_missed : k.liveliness_changed ≢ k.requested_deadline_missed
  pub changed_requested : k.liveliness_changed ≢ k.requested_incompatible_qos
  pub missed_requested : k.requested_deadline_missed ≢ k.requested_incompatible_qos

-- The status that an event of an entity is about.
abbrev pub status_for : PolicyIds → Entity → EventType → Status → RmwRet × Status
status_for ids (publisher w) EventType.liveliness_lost old =
    write w.liveliness_lost Status.liveliness_lost old
status_for ids (publisher w) EventType.offered_deadline_missed old =
    write w.offered_deadline_missed Status.offered_deadline_missed old
status_for ids (publisher w) EventType.offered_qos_incompatible old =
    write w.offered_incompatible_qos (offered ids) old
status_for ids (subscriber r) EventType.liveliness_changed old =
    write r.liveliness_changed Status.liveliness_changed old
status_for ids (subscriber r) EventType.requested_deadline_missed old =
    write r.requested_deadline_missed Status.requested_deadline_missed old
status_for ids (subscriber r) EventType.requested_qos_incompatible old =
    write r.requested_incompatible_qos (requested ids) old
status_for ids entity event_type old = (RmwRet.unsupported, old)

-- The code on an event's type, and the entity's answer behind it.
abbrev answer_on : StatusKinds → PolicyIds → Entity → EventType → Status → Outcome (RmwRet × Status)
answer_on k ids d t info =
    if is_event_supported k t
    then (do status_kind ← get_status_kind_from_rmw k t; ok (get_status k ids d status_kind info))
    else ok (RmwRet.unsupported, info)

answer_on-status_for :
    (k : StatusKinds) (ids : PolicyIds) (d : Entity) (t : EventType) (info : Status)
    → Distinct k
    → answer_on k ids d t info ≡ ok (status_for ids d t info)
unfolding is_event_supported get_status_kind_from_rmw get_status publisher_get_status
    subscriber_get_status
answer_on-status_for k ids (publisher w) EventType.liveliness_changed info h = ground arith
answer_on-status_for k ids (publisher w) EventType.requested_deadline_missed info h = ground arith
answer_on-status_for k ids (publisher w) EventType.requested_qos_incompatible info h = ground arith
answer_on-status_for k ids (publisher w) EventType.liveliness_lost info h = ground arith
answer_on-status_for k ids (publisher w) EventType.offered_deadline_missed info h = ground arith
answer_on-status_for k ids (publisher w) EventType.offered_qos_incompatible info h = ground arith
answer_on-status_for k ids (publisher w) (EventType.other n) info h = refl
answer_on-status_for k ids (subscriber r) EventType.liveliness_changed info h = ground arith
answer_on-status_for k ids (subscriber r) EventType.requested_deadline_missed info h = ground arith
answer_on-status_for k ids (subscriber r) EventType.requested_qos_incompatible info h = ground arith
answer_on-status_for k ids (subscriber r) EventType.liveliness_lost info h = ground arith
answer_on-status_for k ids (subscriber r) EventType.offered_deadline_missed info h = ground arith
answer_on-status_for k ids (subscriber r) EventType.offered_qos_incompatible info h = ground arith
answer_on-status_for k ids (subscriber r) (EventType.other n) info h = refl

-- With the constants of DDS all different, no null pointer, and an identifier that the macro
-- accepts, taking an event of an endpoint returns: it gives the status that the event is about, or
-- RMW_RET_UNSUPPORTED for an event of the other kind of endpoint or of no kind, and `*taken` says
-- whether the answer is RMW_RET_OK.
pub take_event-status_for :
    (matches : Identifier → Identifier → Bool) (k : StatusKinds) (ids : PolicyIds)
    (identifier : Identifier) (e : Event Entity) (d : Entity) (info : Status) (taken : Bool)
    → Distinct k
    → matches e.implementation_identifier identifier ≡ true
    → e.data_of ≡ some d
    → take_event matches k ids identifier (some e) (some info) (some taken) ≡ (
        let answer = status_for ids d e.event_type info in
        ok (answer.0, some answer.1, some (is_rmw_ok answer.0)))
unfolding take_event is_event_supported get_status_kind_from_rmw status_of
take_event-status_for matches k ids identifier e d info taken h m en =
    rw (m, en) (ground (arith, answer_on-status_for k ids d e.event_type info h))

-- An event that was initialised with RMW_RET_OK has an identifier that the macro accepts, the
-- endpoint that was given, which is not null, and a supported type.
pub init_event-ok :
    {D : Type 0} (matches : Identifier → Identifier → Bool) (k : StatusKinds)
    (identifier : Identifier) (old : Option (Event D)) (endpoint_identifier : Identifier)
    (entity : Option D) (event_type : EventType) (new : Event D)
    → init_event matches k identifier old endpoint_identifier entity event_type
      ≡ (RmwRet.ok, some new)
    → (matches new.implementation_identifier identifier ≡ true)
      × ((new.data_of ≡ entity) × ((entity ≢ none) × (is_event_supported k new.event_type ≡ true)))
unfolding init_event
init_event-ok matches k identifier old endpoint_identifier entity event_type new h = ground arith
