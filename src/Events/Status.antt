-- ===== src/Events/Status.antt =====
-- `get_status` of DDSPublisher and of DDSSubscriber (rmw_opendds_cpp/src/DDSPublisher.cpp,
-- src/DDSSubscriber.cpp), and the names of policies (src/qos.cpp).
use rmw_opendds.Prelude.{ℕ, ◌==◌, if◌then◌else◌}
use rmw_opendds.Ret.{RmwRet, DdsRet, check_dds_ret_code, is_rmw_ok}
use rmw_opendds.Events.{StatusKinds}

-- `rmw_qos_policy_kind_t`
pub data PolicyKind : Type 0 where
  invalid durability deadline liveliness reliability history lifespan : PolicyKind

-- The constants `*_QOS_POLICY_ID` of DDS.
pub record PolicyIds : Type 0 where
  pub durability : ℕ
  pub deadline : ℕ
  pub liveliness : ℕ
  pub reliability : ℕ
  pub history : ℕ
  pub lifespan : ℕ

unfoldable pub dds_qos_policy_to_rmw_qos_policy : PolicyIds → ℕ → PolicyKind
dds_qos_policy_to_rmw_qos_policy ids policy_id =
    if policy_id == ids.durability
    then PolicyKind.durability
    else if policy_id == ids.deadline
    then PolicyKind.deadline
    else if policy_id == ids.liveliness
    then PolicyKind.liveliness
    else if policy_id == ids.reliability
    then PolicyKind.reliability
    else if policy_id == ids.history
    then PolicyKind.history
    else if policy_id == ids.lifespan
    then PolicyKind.lifespan
    else PolicyKind.invalid

pub record Missed : Type 0 where
  pub total_count : ℕ
  pub total_count_change : ℕ

pub record Incompatible : Type 0 where
  pub total_count : ℕ
  pub total_count_change : ℕ
  pub last_policy_id : ℕ

pub record LivelinessChanged : Type 0 where
  pub alive_count : ℕ
  pub not_alive_count : ℕ
  pub alive_count_change : ℕ
  pub not_alive_count_change : ℕ

-- What the `get_..._status` calls of a DDS data writer and of a data reader answer.
pub record Writer : Type 0 where
  pub liveliness_lost : DdsRet × Missed
  pub offered_deadline_missed : DdsRet × Missed
  pub offered_incompatible_qos : DdsRet × Incompatible

pub record Reader : Type 0 where
  pub liveliness_changed : DdsRet × LivelinessChanged
  pub requested_deadline_missed : DdsRet × Missed
  pub requested_incompatible_qos : DdsRet × Incompatible

-- What `rmw_status` points to: `blank` before anything is written.
pub data Status : Type 0 where
  blank : Status
  liveliness_lost offered_deadline_missed requested_deadline_missed : Missed → Status
  liveliness_changed : LivelinessChanged → Status
  offered_incompatible_qos requested_incompatible_qos : ℕ → ℕ → PolicyKind → Status

-- One case of the switch: a failed call returns its code, and writes nothing.
abbrev pub write : {A : Type 0} → DdsRet × A → (A → Status) → Status → RmwRet × Status
write (code, answer) fill old =
    if is_rmw_ok (check_dds_ret_code code)
    then (RmwRet.ok, fill answer)
    else (check_dds_ret_code code, old)

abbrev pub offered : PolicyIds → Incompatible → Status
offered ids s =
    Status.offered_incompatible_qos s.total_count s.total_count_change
      (dds_qos_policy_to_rmw_qos_policy ids s.last_policy_id)

abbrev pub requested : PolicyIds → Incompatible → Status
requested ids s =
    Status.requested_incompatible_qos s.total_count s.total_count_change
      (dds_qos_policy_to_rmw_qos_policy ids s.last_policy_id)

unfoldable pub publisher_get_status :
    StatusKinds → PolicyIds → Writer → ℕ → Status → RmwRet × Status
publisher_get_status k ids w mask old =
    if mask == k.liveliness_lost
    then write w.liveliness_lost Status.liveliness_lost old
    else if mask == k.offered_deadline_missed
    then write w.offered_deadline_missed Status.offered_deadline_missed old
    else if mask == k.offered_incompatible_qos
    then write w.offered_incompatible_qos (offered ids) old
    else (RmwRet.unsupported, old)

unfoldable pub subscriber_get_status :
    StatusKinds → PolicyIds → Reader → ℕ → Status → RmwRet × Status
subscriber_get_status k ids r mask old =
    if mask == k.liveliness_changed
    then write r.liveliness_changed Status.liveliness_changed old
    else if mask == k.requested_deadline_missed
    then write r.requested_deadline_missed Status.requested_deadline_missed old
    else if mask == k.requested_incompatible_qos
    then write r.requested_incompatible_qos (requested ids) old
    else (RmwRet.unsupported, old)
