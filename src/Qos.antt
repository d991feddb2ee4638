-- ===== src/Qos.antt =====
-- rmw_opendds_cpp/include/rmw_opendds_cpp/qos.hpp and src/qos.cpp: quality of service, between
-- the profile of rmw and the policies of DDS. A `CORBA::Long` is its bit pattern below 2^32, and a
-- `CORBA::ULong` too; `size_t` and the fields of `rmw_time_t` are below 2^64.
pub mod RoundTrip
pub mod Outcomes
pub mod Aborts
use rmw_opendds.Prelude.{
  ℕ, ◌+◌, ◌-◌, ◌%◌, ◌^◌, Bool, true, false, ◌&&◌, Option, none, some, ltb, ◌==◌, if◌then◌else◌,
}

-- `other` stands for a value of the enumeration that the source names nowhere.
pub data History : Type 0 where
  system_default keep_last keep_all unknown : History
  other : ℕ → History

pub data Reliability : Type 0 where
  system_default reliable best_effort unknown : Reliability
  other : ℕ → Reliability

pub data Durability : Type 0 where
  system_default transient_local volatile unknown : Durability
  other : ℕ → Durability

pub data Liveliness : Type 0 where
  system_default automatic manual_by_topic unknown : Liveliness
  other : ℕ → Liveliness

pub data HistoryKind : Type 0 where
  keep_last keep_all : HistoryKind
  other : ℕ → HistoryKind

pub data ReliabilityKind : Type 0 where
  reliable best_effort : ReliabilityKind
  other : ℕ → ReliabilityKind

pub data DurabilityKind : Type 0 where
  transient_local volatile : DurabilityKind
  other : ℕ → DurabilityKind

pub data LivelinessKind : Type 0 where
  automatic manual_by_participant manual_by_topic : LivelinessKind
  other : ℕ → LivelinessKind

pub record RmwTime : Type 0 where
  pub sec : ℕ
  pub nsec : ℕ

pub record Duration : Type 0 where
  pub sec : ℕ
  pub nanosec : ℕ

-- `rmw_qos_profile_t`
pub record RmwQos : Type 0 where
  pub history : History
  pub depth : ℕ
  pub reliability : Reliability
  pub durability : Durability
  pub deadline : RmwTime
  pub lifespan : RmwTime
  pub liveliness : Liveliness
  pub liveliness_lease_duration : RmwTime

-- The policies of a DataReaderQos or a DataWriterQos that the source reads or writes. A reader has
-- no lifespan.
pub record DdsQos : Type 0 where
  pub history_kind : HistoryKind
  pub history_depth : ℕ
  pub reliability_kind : ReliabilityKind
  pub durability_kind : DurabilityKind
  pub deadline : Duration
  pub lifespan : Option Duration
  pub liveliness_kind : LivelinessKind
  pub lease_duration : Duration

-- `asserts` is whether `assert` is compiled in; the other is the constant of rmw/types.h,
-- RMW_QOS_POLICY_DEPTH_SYSTEM_DEFAULT.
pub record Build : Type 0 where
  pub asserts : Bool
  pub depth_system_default : ℕ

-- `return true`, `return false` with the policies written so far, and a failed assertion.
pub data Conversion : Type 0 where
  converted : DdsQos → Conversion
  rejected : DdsQos → Conversion
  aborted : Conversion

infixl 5 ◌>>=◌
abbrev pub ◌>>=◌ : Conversion → (DdsQos → Conversion) → Conversion
converted dds >>= f = f dds
rejected dds >>= f = rejected dds
aborted >>= f = aborted

unfoldable pub is_default : RmwTime → Bool
is_default t = t.sec == 0 && t.nsec == 0

unfoldable pub time_to_dds : RmwTime → Duration
time_to_dds rmw = record { sec = rmw.sec % 2 ^ 32; nanosec = rmw.nsec % 2 ^ 32 }

-- A `CORBA::Long` as a `size_t` or a `uint64_t`: the sign is extended.
abbrev pub sign_extend : ℕ → ℕ
sign_extend n = if ltb n (2 ^ 31) then n else n + 2 ^ 64 - 2 ^ 32

unfoldable pub time_to_rmw : Duration → RmwTime
time_to_rmw dds = record { sec = sign_extend dds.sec; nsec = dds.nanosec }

set_history : History → DdsQos → Conversion
set_history History.keep_last dds = converted (record dds { history_kind = HistoryKind.keep_last })
set_history History.keep_all dds = converted (record dds { history_kind = HistoryKind.keep_all })
set_history History.system_default dds = converted dds
set_history _ dds = rejected dds

is_keep_last : HistoryKind → Bool
is_keep_last HistoryKind.keep_last = true
is_keep_last _ = false

-- The check that the depth is at least the requested one, behind the assertion.
check_depth : ℕ → DdsQos → Conversion
unfolding is_keep_last
check_depth depth dds =
    if is_keep_last dds.history_kind && ltb (sign_extend dds.history_depth) depth
    then if ltb (2 ^ 32 - 1) depth
      then rejected dds
      else converted (record dds { history_depth = depth % 2 ^ 32 })
    else converted dds

set_depth : Build → ℕ → DdsQos → Conversion
unfolding check_depth
set_depth b depth dds =
    let written =
      if depth == b.depth_system_default
      then dds
      else record dds { history_depth = depth % 2 ^ 32 } in
    if b.asserts && ltb (2 ^ 31 - 1) written.history_depth
    then aborted
    else check_depth depth written

set_reliability : Reliability → DdsQos → Conversion
set_reliability Reliability.best_effort dds =
    converted (record dds { reliability_kind = ReliabilityKind.best_effort })
set_reliability Reliability.reliable dds =
    converted (record dds { reliability_kind = ReliabilityKind.reliable })
set_reliability Reliability.system_default dds = converted dds
set_reliability _ dds = rejected dds

set_durability : Durability → DdsQos → Conversion
set_durability Durability.transient_local dds =
    converted (record dds { durability_kind = DurabilityKind.transient_local })
set_durability Durability.volatile dds =
    converted (record dds { durability_kind = DurabilityKind.volatile })
set_durability Durability.system_default dds = converted dds
set_durability _ dds = rejected dds

set_liveliness : Liveliness → DdsQos → Conversion
set_liveliness Liveliness.automatic dds =
    converted (record dds { liveliness_kind = LivelinessKind.automatic })
set_liveliness Liveliness.manual_by_topic dds =
    converted (record dds { liveliness_kind = LivelinessKind.manual_by_topic })
set_liveliness Liveliness.system_default dds = converted dds
set_liveliness _ dds = rejected dds

set_lease : RmwTime → DdsQos → Conversion
unfolding is_default time_to_dds
set_lease lease dds =
    if is_default lease
    then converted dds
    else converted (record dds { lease_duration = time_to_dds lease })

unfoldable pub rmw_qos_to_dds_qos : Build → RmwQos → DdsQos → Conversion
unfolding set_history set_depth set_reliability set_durability set_liveliness set_lease
rmw_qos_to_dds_qos b rmw dds = do
  with_history ← set_history rmw.history dds
  with_depth ← set_depth b rmw.depth with_history
  with_reliability ← set_reliability rmw.reliability with_depth
  with_durability ← set_durability rmw.durability with_reliability
  with_liveliness ← set_liveliness rmw.liveliness with_durability
  set_lease rmw.liveliness_lease_duration with_liveliness

history_to_rmw : HistoryKind → History
history_to_rmw HistoryKind.keep_last = History.keep_last
history_to_rmw HistoryKind.keep_all = History.keep_all
history_to_rmw (HistoryKind.other n) = History.unknown

reliability_to_rmw : ReliabilityKind → Reliability
reliability_to_rmw ReliabilityKind.best_effort = Reliability.best_effort
reliability_to_rmw ReliabilityKind.reliable = Reliability.reliable
reliability_to_rmw (ReliabilityKind.other n) = Reliability.unknown

durability_to_rmw : DurabilityKind → Durability
durability_to_rmw DurabilityKind.transient_local = Durability.transient_local
durability_to_rmw DurabilityKind.volatile = Durability.volatile
durability_to_rmw (DurabilityKind.other n) = Durability.unknown

liveliness_to_rmw : LivelinessKind → Liveliness
liveliness_to_rmw LivelinessKind.automatic = Liveliness.automatic
liveliness_to_rmw LivelinessKind.manual_by_participant = Liveliness.manual_by_topic
liveliness_to_rmw LivelinessKind.manual_by_topic = Liveliness.manual_by_topic
liveliness_to_rmw (LivelinessKind.other n) = Liveliness.unknown

-- `qos_lifespan_to_rmw`, in its two overloads
unfoldable pub lifespan_to_rmw : Option Duration → RmwTime → RmwTime
unfolding time_to_rmw
lifespan_to_rmw none old = old
lifespan_to_rmw (some duration) old = time_to_rmw duration

unfoldable pub dds_qos_to_rmw_qos : DdsQos → RmwQos → RmwQos
unfolding history_to_rmw reliability_to_rmw durability_to_rmw liveliness_to_rmw lifespan_to_rmw
    time_to_rmw
dds_qos_to_rmw_qos dds rmw = record {
  history = history_to_rmw dds.history_kind;
  depth = sign_extend dds.history_depth;
  reliability = reliability_to_rmw dds.reliability_kind;
  durability = durability_to_rmw dds.durability_kind;
  deadline = time_to_rmw dds.deadline;
  lifespan = lifespan_to_rmw dds.lifespan rmw.lifespan;
  liveliness = liveliness_to_rmw dds.liveliness_kind;
  liveliness_lease_duration = time_to_rmw dds.lease_duration;
}

-- The arguments say what `get_default_datareader_qos` of the subscriber returned: `none` is a
-- failure.
unfoldable pub get_datareader_qos : Build → Option DdsQos → RmwQos → DdsQos → Conversion
get_datareader_qos b none qos_profile dds = rejected dds
get_datareader_qos b (some default) qos_profile dds = rmw_qos_to_dds_qos b qos_profile default

unfoldable pub get_datawriter_qos : Build → Option DdsQos → RmwQos → DdsQos → Conversion
get_datawriter_qos b none qos_profile dds = rejected dds
get_datawriter_qos b (some default) qos_profile dds = rmw_qos_to_dds_qos b qos_profile default
