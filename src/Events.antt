-- ===== src/Events.antt =====
-- rmw_opendds_cpp/src/event_converter.cpp and src/event.cpp: the events of publishers and
-- subscriptions.
pub mod Status
pub mod Take
pub mod Calls
use rmw_opendds.Prelude.{
  ℕ, ◌≡◌, Bool, true, false, not, ◌&&◌, Option, none, some, Outcome, ok, out_of_range, undefined,
  ◌>>=◌, if◌then◌else◌,
}
use rmw_opendds.Identifier.{Identifier}

-- `rmw_event_type_t`
pub data EventType : Type 0 where
  liveliness_changed requested_deadline_missed requested_qos_incompatible : EventType
  liveliness_lost offered_deadline_missed offered_qos_incompatible : EventType
  other : ℕ → EventType

-- The constants of DDS.
pub record StatusKinds : Type 0 where
  pub liveliness_changed : ℕ
  pub requested_deadline_missed : ℕ
  pub requested_incompatible_qos : ℕ
  pub liveliness_lost : ℕ
  pub offered_deadline_missed : ℕ
  pub offered_incompatible_qos : ℕ

-- `mask_map`
unfoldable pub mask_map : StatusKinds → EventType → Option ℕ
mask_map k EventType.liveliness_changed = some k.liveliness_changed
mask_map k EventType.requested_deadline_missed = some k.requested_deadline_missed
mask_map k EventType.requested_qos_incompatible = some k.requested_incompatible_qos
mask_map k EventType.liveliness_lost = some k.liveliness_lost
mask_map k EventType.offered_deadline_missed = some k.offered_deadline_missed
mask_map k EventType.offered_qos_incompatible = some k.offered_incompatible_qos
mask_map k (EventType.other n) = none

at_key : Option ℕ → Outcome ℕ
at_key none = out_of_range
at_key (some kind) = ok kind

has_key : Option ℕ → Bool
has_key none = false
has_key (some kind) = true

unfoldable pub get_status_kind_from_rmw : StatusKinds → EventType → Outcome ℕ
unfolding at_key mask_map
get_status_kind_from_rmw k event_t = at_key (mask_map k event_t)

unfoldable pub is_event_supported : StatusKinds → EventType → Bool
unfolding has_key mask_map
is_event_supported k event_t = has_key (mask_map k event_t)

-- `rmw_event_t`: `D` is what its `data` points to, a DDSEntity.
pub record Event (D : Type 0) : Type 0 where
  pub implementation_identifier : Identifier
  pub data_of : Option D
  pub event_type : EventType
