-- ===== src/Participants.antt =====
-- The participant behind a node: the constructor and `cleanup` of OpenDDSNode
-- (rmw_opendds_cpp/src/OpenDDSNode.cpp). The object that this makes holds the Node whose listeners
-- the graph queries read. A `_var` that is set to null only gives up a reference.
pub mod Transport
pub mod Construct
pub mod UserData
pub mod Tidy
pub mod Ledger
pub mod Calls
pub mod Queries
use rmw_opendds.Prelude.{
  ◌||◌, ℕ, ◌+◌, ◌-◌, ◌%◌, ◌^◌, Bool, true, false, not, Option, none, some, List, [], ◌∷◌, ◌++◌, ltb,
  if◌then◌else◌, is_empty, length, take, Outcome, ok, undefined,
}
use rmw_opendds.Text.{Bytes, codes}
use rmw_opendds.Ret.{DdsRet, is_dds_ok}
use rmw_opendds.Heap.{Heap}
use rmw_opendds.TopicCache.{empty_cache}
use rmw_opendds.Listener.{Listener}
use rmw_opendds.Node.{Node}
use rmw_opendds.GuardConditions.{GuardCondition}
use rmw_opendds.Participants.Transport.{Registry, configure_transport}

-- `DDS::DomainParticipantQos`, of which the package writes the user data; `others` is the rest.
pub record ParticipantQos (Q : Type 0) : Type 0 where
  pub user_data : Bytes
  pub others : Q

-- The participant factory and what else the constructor calls, on the world `W` of DDS:
-- participants `P` and builtin subscribers `S`. The factory's default QoS is `none` for a code that
-- is not RETCODE_OK. `lookup_publications` and `lookup_subscriptions` find the builtin readers;
-- `is_impl` is the cast to DomainParticipantImpl, `has_rtps_discovery` that of the domain's
-- discovery.
pub record Factory (Q P S W : Type 0) : Type 0 where
  pub memory : ℕ → Bool
  pub get_default_participant_qos : W → Option (ParticipantQos Q)
  pub set_default_participant_qos : ParticipantQos Q → W → DdsRet × W
  pub has_rtps_discovery : ℕ → W → Bool
  pub use_xtypes : ℕ → W → W
  pub create_participant : ℕ → W → Option P × W
  pub is_impl : P → Bool
  pub get_builtin_subscriber : P → W → Option S
  pub lookup_publications : S → W → Bool
  pub lookup_subscriptions : S → W → Bool
  pub set_publication_listener : S → ℕ → W → W
  pub set_subscription_listener : S → ℕ → W → W
  pub delete_contained_entities : P → W → DdsRet × W
  pub delete_participant : P → W → DdsRet × W

-- What a constructor of OpenDDSNode has set so far. A listener is at an address.
pub record Parts (G P : Type 0) : Type 0 where
  pub gc : Option GuardCondition
  pub pub_listener : Option (ℕ × Listener G)
  pub sub_listener : Option (ℕ × Listener G)
  pub dp : Option P

-- `OpenDDSNode`, constructed.
pub record OpenDdsNode (G P : Type 0) : Type 0 where
  pub name : Bytes
  pub namespace : Bytes
  pub gc : GuardCondition
  pub pub_listener : ℕ × Listener G
  pub sub_listener : ℕ × Listener G
  pub dp : P

-- What the graph queries read of it.
abbrev pub node_of : {G P : Type 0} → OpenDdsNode G P → Node G
node_of dds_node = record {
  pub_listener = dds_node.pub_listener.1;
  sub_listener = dds_node.sub_listener.1;
}

abbrev pub new_listener : {G : Type 0} → Listener G
new_listener = record { topic_cache = empty_cache; triggers = 0 }

abbrev pub int_max : ℕ
int_max = 2 ^ 31 - 1

-- `snprintf` of a text into a buffer of `size` bytes: what it writes and what it returns, or `none`
-- where that is negative, as POSIX has it where the size or the text is longer than an `int` can
-- say.
unfoldable pub snprintf : ℕ → Bytes → Option (Bytes × ℕ)
snprintf size text =
    if ltb int_max size || ltb int_max (length text)
    then none
    else some (take (size - 1) text ++ (0 ∷ []), length text)

abbrev pub user_data_text : Bytes → Bytes → Bytes
user_data_text name namespace =
    codes "name=" ++ (name ++ (codes ";namespace=" ++ (namespace ++ codes ";")))

-- The user data with what `snprintf` answers. The sequence has as many bytes as `length` converted
-- to a CORBA::Long says; `none` where the constructor throws.
unfoldable pub fill_user_data : ℕ → Option (Bytes × ℕ) → Option Bytes
fill_user_data size none = none
fill_user_data size (some (text, written)) =
    let int_size = size % 2 ^ 32 in
    if ltb int_max int_size || ltb (int_size - 1) written
    then none
    else some (take (size % 2 ^ 32) text)

-- What `set_default_participant_qos` makes of the names; `length` is a `size_t`.
unfoldable pub user_data_of : Bytes → Bytes → Option Bytes
unfolding snprintf fill_user_data
user_data_of name namespace =
    let size = (length name + length namespace + length (codes "name=;namespace=;") + 1) % 2 ^ 64 in
    fill_user_data size (snprintf size (user_data_text name namespace))

-- The destructor of a listener does nothing.
abbrev pub destruct_listener : {G W : Type 0} → Listener G → Heap W → Outcome (Heap W)
destruct_listener listener heap = ok heap

module _ {Q P S W : Type 0} (factory : Factory Q P S W) where
  -- `OpenDDSNode::set_default_participant_qos`: whether it returns, and the world.
  unfoldable pub set_user_data : Bytes → Bytes → W → Bool × W
  set_user_data name namespace world = elim (factory.get_default_participant_qos world) [
    | none ↦ (false, world)
    | some qos ↦ elim (user_data_of name namespace) [
      | none ↦ (false, world)
      | some user_data ↦
          let (code, set) =
            factory.set_default_participant_qos (record qos { user_data = user_data }) world in
          (is_dds_ok code, set)
    ]
  ]

  -- The listeners at the builtin readers: whether the constructor gets past them.
  unfoldable pub set_listeners : Option S → ℕ → ℕ → W → Bool × W
  set_listeners none pub_listener sub_listener world = (false, world)
  set_listeners (some sub) pub_listener sub_listener world =
      if not (factory.lookup_publications sub world)
      then (false, world)
      else let listening = factory.set_publication_listener sub pub_listener world in
        if not (factory.lookup_subscriptions sub listening)
        then (false, listening)
        else (true, factory.set_subscription_listener sub sub_listener listening)

  module _ {Ti Tc : Type 0} (registry : Registry Ti Tc P W) where
    -- The constructor from `configureTransport` on, with a participant.
    unfoldable pub set_up : ℕ → P → ℕ → ℕ → W → Bool × W
    unfolding set_listeners
    set_up domain_id dp pub_listener sub_listener world =
        let (configured, bound) = configure_transport registry domain_id dp world in
        if not configured
        then (false, bound)
        else set_listeners (factory.get_builtin_subscriber dp bound) pub_listener sub_listener bound

    -- With what `create_participant` answers: whether the constructor returns, `dp_`, and the
    -- world.
    unfoldable pub with_participant : ℕ → ℕ → ℕ → Option P × W → Bool × Option P × W
    unfolding set_up
    with_participant domain_id pub_listener sub_listener (none, world) = (false, none, world)
    with_participant domain_id pub_listener sub_listener (some dp, world) =
        if not (factory.is_impl dp)
        then (false, some dp, world)
        else let (done, set) = set_up domain_id dp pub_listener sub_listener world in
          (done, some dp, set)

    -- The constructor from `get_discovery` on. A discovery that is not that of RTPS is a null
    -- handle, and it is used.
    unfoldable pub join : ℕ → ℕ → ℕ → W → Outcome (Bool × Option P × W)
    unfolding with_participant
    join domain_id pub_listener sub_listener world =
        let domain = domain_id % 2 ^ 32 in
        if not (factory.has_rtps_discovery domain world)
        then undefined
        else ok (
            with_participant domain_id pub_listener sub_listener
              (factory.create_participant domain (factory.use_xtypes domain world)))
