-- ===== src/Participants/Transport.antt =====
-- `OpenDDSNode::configureTransport` (rmw_opendds_cpp/src/OpenDDSNode.cpp).
pub mod Unique
use rmw_opendds.Prelude.{
  ℕ, zero, suc, ◌+◌, ◌/◌, ◌%◌, Bool, true, false, Option, none, some, List, [], ◌∷◌, ◌++◌, ltb,
  if◌then◌else◌,
}
use rmw_opendds.Text.{Bytes, codes}

-- The transport registry of OpenDDS, on the world `W`: instances `I` and configurations `C`, for
-- participants `P`. `none` of what creates is an exception, `false` of `bind_config` too. `count`
-- is the function's static counter, which `++i` changes first.
pub record Registry (I C P W : Type 0) : Type 0 where
  pub count : W → ℕ
  pub increment : W → W
  pub get_inst : Bytes → W → Option I
  pub create_inst : Bytes → Bytes → W → Option I × W
  pub get_config : Bytes → W → Option C
  pub create_config : Bytes → W → Option C × W
  pub add_instance : C → I → W → W
  pub bind_config : C → P → W → Bool × W

-- `std::to_string` of a number that is not negative, on fuel; `n + 1` is enough for `n`.
unfoldable pub digits : ℕ → ℕ → Bytes
digits zero n = []
digits (suc f) n =
    let rest = digits f (n / 10) in if ltb n 10 then (48 + n) ∷ [] else rest ++ ((48 + n % 10) ∷ [])

unfoldable pub to_string : ℕ → Bytes
unfolding digits
to_string n = digits (suc n) n

unfoldable pub str_domain_id : ℕ → ℕ → Bytes
unfolding to_string
str_domain_id domain_id i = to_string domain_id ++ (codes "_" ++ to_string i)

unfoldable pub config_name : ℕ → ℕ → Bytes
unfolding str_domain_id
config_name domain_id i = codes "cfg" ++ str_domain_id domain_id i

unfoldable pub inst_name : ℕ → ℕ → Bytes
unfolding str_domain_id
inst_name domain_id i = codes "rtps" ++ str_domain_id domain_id i

module _ {I C P W : Type 0} (registry : Registry I C P W) where
  unfoldable pub find_inst : Bytes → W → Option I × W
  find_inst name world = elim (registry.get_inst name world) [
    | none ↦ registry.create_inst name (codes "rtps_udp") world
    | some inst ↦ (some inst, world)
  ]

  unfoldable pub find_config : Bytes → W → Option C × W
  find_config name world = elim (registry.get_config name world) [
    | none ↦ registry.create_config name world
    | some cfg ↦ (some cfg, world)
  ]

  unfoldable pub bind : P → I → Option C × W → Bool × W
  bind dp inst (none, world) = (false, world)
  bind dp inst (some cfg, world) =
      registry.bind_config cfg dp (registry.add_instance cfg inst world)

  unfoldable pub with_inst : Bytes → P → Option I × W → Bool × W
  unfolding bind find_config
  with_inst name dp (none, world) = (false, world)
  with_inst name dp (some inst, world) = bind dp inst (find_config name world)

  -- Whether it succeeds, and the world.
  unfoldable pub configure_transport : ℕ → P → W → Bool × W
  unfolding with_inst find_inst
  configure_transport domain_id dp world =
      let counted = registry.increment world in
      let i = registry.count counted in
      with_inst (config_name domain_id i) dp (find_inst (inst_name domain_id i) counted)
