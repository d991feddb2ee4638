-- ===== src/Qos/Outcomes.antt =====
-- What `rmw_qos_to_dds_qos` does with a profile.
use rmw_opendds.Prelude.{ℕ, ◌≤◌, ◌≡◌, refl, arith}
use rmw_opendds.Qos.{
  History, HistoryKind, Reliability, Durability, Liveliness, RmwQos, DdsQos, Build, Conversion,
  converted, rejected, aborted, rmw_qos_to_dds_qos, sign_extend, set_history, set_depth,
  set_reliability, set_durability, set_liveliness, set_lease, check_depth, is_keep_last, RmwTime,
  ◌>>=◌,
}

-- What the later steps leave: the deadline, the lifespan and, behind `set_depth`, the history.
pub record Same (a b : DdsQos) : Type 0 where
  pub kind : b.history_kind ≡ a.history_kind
  pub depth : b.history_depth ≡ a.history_depth
  pub deadline : b.deadline ≡ a.deadline
  pub lifespan : b.lifespan ≡ a.lifespan

reliability-Same :
    (r : Reliability) (dds out : DdsQos) → set_reliability r dds ≡ converted out → Same dds out
unfolding set_reliability
reliability-Same r dds out h = ground arith

durability-Same :
    (r : Durability) (dds out : DdsQos) → set_durability r dds ≡ converted out → Same dds out
unfolding set_durability
durability-Same r dds out h = ground arith

liveliness-Same :
    (r : Liveliness) (dds out : DdsQos) → set_liveliness r dds ≡ converted out → Same dds out
unfolding set_liveliness
liveliness-Same r dds out h = ground arith

lease-Same : (t : RmwTime) (dds out : DdsQos) → set_lease t dds ≡ converted out → Same dds out
unfolding set_lease
lease-Same t dds out h = ground arith

depth-Same :
    (b : Build) (depth : ℕ) (dds out : DdsQos)
    → set_depth b depth dds ≡ converted out
    → (out.history_kind ≡ dds.history_kind)
      × ((out.deadline ≡ dds.deadline) × (out.lifespan ≡ dds.lifespan))
unfolding set_depth check_depth
depth-Same b depth dds out h = ground arith

history-Same :
    (p : History) (dds out : DdsQos)
    → set_history p dds ≡ converted out
    → (out.deadline ≡ dds.deadline) × (out.lifespan ≡ dds.lifespan)
unfolding set_history
history-Same p dds out h = ground arith

depth_enough :
    (b : Build) (depth : ℕ) (dds out : DdsQos)
    → set_depth b depth dds ≡ converted out
    → out.history_kind ≡ HistoryKind.keep_last
    → depth ≤ sign_extend out.history_depth
unfolding set_depth check_depth is_keep_last
depth_enough b depth dds out h k = ground arith

-- The steps that a conversion took.
record Steps (b : Build) (rmw : RmwQos) (dds out : DdsQos) : Type 0 where
  s1 : DdsQos
  e1 : set_history rmw.history dds ≡ converted s1
  s2 : DdsQos
  e2 : set_depth b rmw.depth s1 ≡ converted s2
  s3 : DdsQos
  e3 : set_reliability rmw.reliability s2 ≡ converted s3
  s4 : DdsQos
  e4 : set_durability rmw.durability s3 ≡ converted s4
  s5 : DdsQos
  e5 : set_liveliness rmw.liveliness s4 ≡ converted s5
  e6 : set_lease rmw.liveliness_lease_duration s5 ≡ converted out

bind_lem :
    (r : Conversion) (f : DdsQos → Conversion) (out : DdsQos)
    → r >>= f ≡ converted out
    → (d : DdsQos) × ((r ≡ converted d) × (f d ≡ converted out))
bind_lem (converted d) f out h = (d, (refl, h))
bind_lem (rejected d) f out h = cc
bind_lem aborted f out h = cc

Steps-of :
    (b : Build) (rmw : RmwQos) (dds out : DdsQos)
    → rmw_qos_to_dds_qos b rmw dds ≡ converted out
    → Steps b rmw dds out
unfolding rmw_qos_to_dds_qos
Steps-of b rmw dds out h =
    let (s1, (e1, h1)) = bind_lem (set_history rmw.history dds) _ out h in
    let (s2, (e2, h2)) = bind_lem (set_depth b rmw.depth s1) _ out h1 in
    let (s3, (e3, h3)) = bind_lem (set_reliability rmw.reliability s2) _ out h2 in
    let (s4, (e4, h4)) = bind_lem (set_durability rmw.durability s3) _ out h3 in
    let (s5, (e5, h5)) = bind_lem (set_liveliness rmw.liveliness s4) _ out h4 in
    record {
      s1 = s1;
      e1 = e1;
      s2 = s2;
      e2 = e2;
      s3 = s3;
      e3 = e3;
      s4 = s4;
      e4 = e4;
      s5 = s5;
      e5 = e5;
      e6 = h5;
    }

-- A conversion that succeeds leaves the deadline and the lifespan of the DDS policies as they
-- were, whatever the profile asks for.
pub rmw_qos_to_dds_qos-deadline_lifespan :
    (b : Build) (rmw : RmwQos) (dds out : DdsQos)
    → rmw_qos_to_dds_qos b rmw dds ≡ converted out
    → (out.deadline ≡ dds.deadline) × (out.lifespan ≡ dds.lifespan)
rmw_qos_to_dds_qos-deadline_lifespan b rmw dds out h =
    let s = Steps-of b rmw dds out h in
    let (d1, l1) = history-Same rmw.history dds s.s1 s.e1 in
    let (k2, (d2, l2)) = depth-Same b rmw.depth s.s1 s.s2 s.e2 in
    let r3 = reliability-Same rmw.reliability s.s2 s.s3 s.e3 in
    let r4 = durability-Same rmw.durability s.s3 s.s4 s.e4 in
    let r5 = liveliness-Same rmw.liveliness s.s4 s.s5 s.e5 in
    let r6 = lease-Same rmw.liveliness_lease_duration s.s5 out s.e6 in
    let d3 = r3.deadline in
    let l3 = r3.lifespan in
    let d4 = r4.deadline in
    let l4 = r4.lifespan in
    let d5 = r5.deadline in
    let l5 = r5.lifespan in let d6 = r6.deadline in let l6 = r6.lifespan in (cc, cc)

-- A conversion that succeeds with the history kept to the last samples stores a depth that, read
-- back as a `size_t`, is at least the requested one.
pub rmw_qos_to_dds_qos-depth :
    (b : Build) (rmw : RmwQos) (dds out : DdsQos)
    → rmw_qos_to_dds_qos b rmw dds ≡ converted out
    → out.history_kind ≡ HistoryKind.keep_last
    → rmw.depth ≤ sign_extend out.history_depth
rmw_qos_to_dds_qos-depth b rmw dds out h k =
    let s = Steps-of b rmw dds out h in
    let r3 = reliability-Same rmw.reliability s.s2 s.s3 s.e3 in
    let r4 = durability-Same rmw.durability s.s3 s.s4 s.e4 in
    let r5 = liveliness-Same rmw.liveliness s.s4 s.s5 s.e5 in
    let r6 = lease-Same rmw.liveliness_lease_duration s.s5 out s.e6 in
    let k3 = r3.kind in
    let n3 = r3.depth in
    let k4 = r4.kind in
    let n4 = r4.depth in
    let k5 = r5.kind in
    let n5 = r5.depth in
    let k6 = r6.kind in
    let n6 = r6.depth in
    let same : out.history_depth ≡ s.s2.history_depth = cc in
    ground (arith, same, depth_enough b rmw.depth s.s1 s.s2 s.e2 cc)
