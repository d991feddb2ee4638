-- ===== src/Tests/Qos.antt =====
-- Quality of service at concrete inputs.
use rmw_opendds.Prelude.{◌≡◌, refl, ◌≤◌, some, true, inl, inr, arith}
use rmw_opendds.Qos.{
  History, HistoryKind, Reliability, ReliabilityKind, Durability, DurabilityKind, Liveliness,
  LivelinessKind, RmwQos, DdsQos, Build, converted, sign_extend, time_to_rmw, lifespan_to_rmw,
  rmw_qos_to_dds_qos, dds_qos_to_rmw_qos, is_default,
}
use rmw_opendds.Qos.Outcomes.{rmw_qos_to_dds_qos-deadline_lifespan, rmw_qos_to_dds_qos-depth}
use rmw_opendds.Qos.RoundTrip.{rmw_qos_round_trip}

abbrev build : Build
build = record { asserts = true; depth_system_default = 0 }

abbrev pub profile : RmwQos
profile = record {
  history = History.keep_last;
  depth = 10;
  reliability = Reliability.reliable;
  durability = Durability.volatile;
  deadline = record { sec = 1; nsec = 0 };
  lifespan = record { sec = 2; nsec = 0 };
  liveliness = Liveliness.automatic;
  liveliness_lease_duration = record { sec = 3; nsec = 0 };
}

abbrev pub default : DdsQos
default = record {
  history_kind = HistoryKind.keep_all;
  history_depth = 1;
  reliability_kind = ReliabilityKind.best_effort;
  durability_kind = DurabilityKind.transient_local;
  deadline = record { sec = 2147483647; nanosec = 2147483647 };
  lifespan = some (record { sec = 2147483647; nanosec = 2147483647 });
  liveliness_kind = LivelinessKind.manual_by_topic;
  lease_duration = record { sec = 2147483647; nanosec = 2147483647 };
}

abbrev written : DdsQos
written = record default {
  history_kind = HistoryKind.keep_last;
  history_depth = 10;
  reliability_kind = ReliabilityKind.reliable;
  durability_kind = DurabilityKind.volatile;
  liveliness_kind = LivelinessKind.automatic;
  lease_duration = record { sec = 3; nanosec = 0 };
}

deadline_lifespan_example :
    (written.deadline ≡ default.deadline) × (written.lifespan ≡ default.lifespan)
unfolding rmw_qos_to_dds_qos
deadline_lifespan_example = rmw_qos_to_dds_qos-deadline_lifespan build profile default written refl

depth_example : profile.depth ≤ sign_extend written.history_depth
unfolding rmw_qos_to_dds_qos
depth_example = rmw_qos_to_dds_qos-depth build profile default written refl refl

round_trip_example :
    (out : DdsQos) × ((rmw_qos_to_dds_qos build profile default ≡ converted out)
      × (dds_qos_to_rmw_qos out profile ≡ record profile {
        deadline = time_to_rmw default.deadline;
        lifespan = lifespan_to_rmw default.lifespan profile.lifespan;
      }))
unfolding is_default
round_trip_example =
    rmw_qos_round_trip build profile profile default (inl refl) (inl refl) (inr refl) (inl refl)
      (ground arith) (omega arith) refl (omega arith) (omega arith)
