-- ===== src/Qos/RoundTrip.antt =====
-- A profile written to the DDS policies by `rmw_qos_to_dds_qos` and read back by
-- `dds_qos_to_rmw_qos`.
use rmw_opendds.Prelude.{inl, inr, ℕ, ◌<◌, ◌^◌, ◌≡◌, ◌≢◌, ◌⊎◌, false, arith}
use rmw_opendds.Qos.{
  History, HistoryKind, Reliability, ReliabilityKind, Durability, DurabilityKind, Liveliness,
  LivelinessKind, RmwQos, DdsQos, Build, Duration, time_to_rmw, time_to_dds, converted,
  rmw_qos_to_dds_qos, dds_qos_to_rmw_qos, set_history, set_depth, set_reliability, set_durability,
  set_liveliness, set_lease, check_depth, RmwTime, is_keep_last, is_default, history_to_rmw,
  reliability_to_rmw, durability_to_rmw, liveliness_to_rmw, lifespan_to_rmw,
}

known_history :
    (h : History) (dds : DdsQos)
    → (h ≡ History.keep_last) ⊎ (h ≡ History.keep_all)
    → (kind : HistoryKind) × ((set_history h dds ≡ converted (record dds { history_kind = kind }))
        × (history_to_rmw kind ≡ h))
unfolding set_history history_to_rmw
known_history h dds (inl e) = (HistoryKind.keep_last, (rw (e, set_history), rw (e, history_to_rmw)))
known_history h dds (inr e) = (HistoryKind.keep_all, (rw (e, set_history), rw (e, history_to_rmw)))

known_reliability :
    (r : Reliability) (dds : DdsQos)
    → (r ≡ Reliability.reliable) ⊎ (r ≡ Reliability.best_effort)
    → (kind : ReliabilityKind) × ((set_reliability r dds
          ≡ converted (record dds { reliability_kind = kind }))
        × (reliability_to_rmw kind ≡ r))
unfolding set_reliability reliability_to_rmw
known_reliability r dds (inl e) =
    (ReliabilityKind.reliable, (rw (e, set_reliability), rw (e, reliability_to_rmw)))
known_reliability r dds (inr e) =
    (ReliabilityKind.best_effort, (rw (e, set_reliability), rw (e, reliability_to_rmw)))

known_durability :
    (d : Durability) (dds : DdsQos)
    → (d ≡ Durability.transient_local) ⊎ (d ≡ Durability.volatile)
    → (kind : DurabilityKind) × ((set_durability d dds
          ≡ converted (record dds { durability_kind = kind }))
        × (durability_to_rmw kind ≡ d))
unfolding set_durability durability_to_rmw
known_durability d dds (inl e) =
    (DurabilityKind.transient_local, (rw (e, set_durability), rw (e, durability_to_rmw)))
known_durability d dds (inr e) =
    (DurabilityKind.volatile, (rw (e, set_durability), rw (e, durability_to_rmw)))

known_liveliness :
    (l : Liveliness) (dds : DdsQos)
    → (l ≡ Liveliness.automatic) ⊎ (l ≡ Liveliness.manual_by_topic)
    → (kind : LivelinessKind) × ((set_liveliness l dds
          ≡ converted (record dds { liveliness_kind = kind }))
        × (liveliness_to_rmw kind ≡ l))
unfolding set_liveliness liveliness_to_rmw
known_liveliness l dds (inl e) =
    (LivelinessKind.automatic, (rw (e, set_liveliness), rw (e, liveliness_to_rmw)))
known_liveliness l dds (inr e) =
    (LivelinessKind.manual_by_topic, (rw (e, set_liveliness), rw (e, liveliness_to_rmw)))

set_depth_fits :
    (b : Build) (depth : ℕ) (dds : DdsQos)
    → depth ≢ b.depth_system_default
    → depth < 2 ^ 31
    → set_depth b depth dds ≡ converted (record dds { history_depth = depth })
unfolding set_depth check_depth is_keep_last
set_depth_fits b depth dds n h = ground arith

set_lease_fits :
    (lease : RmwTime) (dds : DdsQos)
    → is_default lease ≡ false
    → lease.sec < 2 ^ 31
    → lease.nsec < 2 ^ 32
    → (duration : Duration) × ((set_lease lease dds
          ≡ converted (record dds { lease_duration = duration }))
        × (time_to_rmw duration ≡ lease))
unfolding set_lease time_to_dds time_to_rmw
set_lease_fits lease dds n hs hn = (time_to_dds lease, (ground arith, ground arith))

-- A profile with known history, reliability, durability and liveliness, a depth that is not the
-- default and is below 2^31, and a lease duration that is set and fits, is converted; and reading
-- the result back gives the profile again, but for the deadline and the lifespan, which are those
-- that the DDS policies had before.
pub rmw_qos_round_trip :
    (b : Build) (rmw old : RmwQos) (dds : DdsQos)
    → (rmw.history ≡ History.keep_last) ⊎ (rmw.history ≡ History.keep_all)
    → (rmw.reliability ≡ Reliability.reliable) ⊎ (rmw.reliability ≡ Reliability.best_effort)
    → (rmw.durability ≡ Durability.transient_local) ⊎ (rmw.durability ≡ Durability.volatile)
    → (rmw.liveliness ≡ Liveliness.automatic) ⊎ (rmw.liveliness ≡ Liveliness.manual_by_topic)
    → rmw.depth ≢ b.depth_system_default
    → rmw.depth < 2 ^ 31
    → is_default rmw.liveliness_lease_duration ≡ false
    → rmw.liveliness_lease_duration.sec < 2 ^ 31
    → rmw.liveliness_lease_duration.nsec < 2 ^ 32
    → (out : DdsQos) × ((rmw_qos_to_dds_qos b rmw dds ≡ converted out)
        × (dds_qos_to_rmw_qos out old ≡ record rmw {
          deadline = time_to_rmw dds.deadline;
          lifespan = lifespan_to_rmw dds.lifespan old.lifespan;
        }))
unfolding rmw_qos_to_dds_qos dds_qos_to_rmw_qos
rmw_qos_round_trip b rmw old dds kh kr kd kl nd hd nl hs hn =
    let (h, (eh, bh)) = known_history rmw.history dds kh in
    let ed = set_depth_fits b rmw.depth (record dds { history_kind = h }) nd hd in
    let (r, (er, br)) =
      known_reliability rmw.reliability (record dds { history_kind = h; history_depth = rmw.depth })
        kr in
    let (d, (edu, bd)) =
      known_durability rmw.durability
        (record dds { history_kind = h; history_depth = rmw.depth; reliability_kind = r }) kd in
    let (l, (el, bl)) =
      known_liveliness rmw.liveliness
        (record dds {
          history_kind = h;
          history_depth = rmw.depth;
          reliability_kind = r;
          durability_kind = d;
        })
        kl in
    let (t, (et, bt)) =
      set_lease_fits rmw.liveliness_lease_duration
        (record dds {
          history_kind = h;
          history_depth = rmw.depth;
          reliability_kind = r;
          durability_kind = d;
          liveliness_kind = l;
        })
        nl hs hn in
    let out : DdsQos = record dds {
      history_kind = h;
      history_depth = rmw.depth;
      reliability_kind = r;
      durability_kind = d;
      liveliness_kind = l;
      lease_duration = t;
    } in
    (out, (rw (eh, ed, er, edu, el, et), ground (arith, bh, br, bd, bl, bt)))
