-- ===== src/Qos/Aborts.antt =====
-- Conversions in a build without assertions.
use rmw_opendds.Prelude.{ℕ, ◌≡◌, ◌≢◌, false, Option, none, some, arith}
use rmw_opendds.Qos.{
  RmwQos, DdsQos, Build, Conversion, converted, rejected, aborted, rmw_qos_to_dds_qos, set_history,
  set_depth, set_reliability, set_durability, set_liveliness, set_lease, check_depth, ◌>>=◌,
  get_datareader_qos, get_datawriter_qos,
}

Goes : Conversion → Type 0
Goes (converted q) = Unit
Goes (rejected q) = Unit
Goes aborted = ⊥

bind-Goes :
    (c : Conversion) (f : DdsQos → Conversion)
    → Goes c
    → ((q : DdsQos) → Goes (f q))
    → Goes (c >>= f)
unfolding Goes
bind-Goes (converted q) f h k = k q
bind-Goes (rejected q) f h k = tt
bind-Goes aborted f h k = h

set_depth-Goes :
    (b : Build) (depth : ℕ) (dds : DdsQos) → b.asserts ≡ false → Goes (set_depth b depth dds)
unfolding Goes set_depth check_depth
set_depth-Goes b depth dds h = ground arith

rmw_qos_to_dds_qos-Goes :
    (b : Build) (rmw : RmwQos) (dds : DdsQos)
    → b.asserts ≡ false
    → Goes (rmw_qos_to_dds_qos b rmw dds)
unfolding Goes rmw_qos_to_dds_qos set_history set_reliability set_durability set_liveliness
    set_lease
rmw_qos_to_dds_qos-Goes b rmw dds h = bind-Goes _ _ (ground arith) λ with_history.
    bind-Goes _ _ (set_depth-Goes b rmw.depth with_history h) λ with_depth.
      bind-Goes (set_reliability rmw.reliability with_depth) _ (ground arith) λ with_reliability.
        bind-Goes (set_durability rmw.durability with_reliability) _ (ground arith)
          λ with_durability.
            bind-Goes (set_liveliness rmw.liveliness with_durability) _ (ground arith)
              λ with_liveliness. ground arith

not_aborted : (c : Conversion) → Goes c → c ≢ aborted
unfolding Goes
not_aborted (converted q) h = λ e. cc e
not_aborted (rejected q) h = λ e. cc e
not_aborted aborted h = absurd h

pub get_datawriter_qos-not_aborted :
    (b : Build) (default : Option DdsQos) (qos : RmwQos) (dds : DdsQos)
    → b.asserts ≡ false
    → get_datawriter_qos b default qos dds ≢ aborted
unfolding get_datawriter_qos
get_datawriter_qos-not_aborted b none qos dds h = λ e. cc e
get_datawriter_qos-not_aborted b (some default) qos dds h =
    not_aborted _ (rmw_qos_to_dds_qos-Goes b qos default h)

pub get_datareader_qos-not_aborted :
    (b : Build) (default : Option DdsQos) (qos : RmwQos) (dds : DdsQos)
    → b.asserts ≡ false
    → get_datareader_qos b default qos dds ≢ aborted
unfolding get_datareader_qos
get_datareader_qos-not_aborted b none qos dds h = λ e. cc e
get_datareader_qos-not_aborted b (some default) qos dds h =
    not_aborted _ (rmw_qos_to_dds_qos-Goes b qos default h)
