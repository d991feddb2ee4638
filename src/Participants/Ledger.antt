-- ===== src/Participants/Ledger.antt =====
-- The participants that DDS has after the creation of a node
-- (rmw_opendds_cpp/src/OpenDDSNode.cpp).
pub mod Nodes
pub mod Calls
use rmw_opendds.Prelude.{
  ℕ, ◌%◌, ◌^◌, ◌≡◌, refl, sym, ◌∙◌, ap, Bool, true, false, not, ◌||◌, Option, none, some, List, ◌∷◌,
  Outcome, ok, out_of_range, undefined, ◌>>=◌, After, After-bind, on_branches, if◌then◌else◌,
  Option-cases, Bool-cases, inl, inr, is_empty,
}
use rmw_opendds.Text.{Bytes}
use rmw_opendds.Ret.{is_dds_ok}
use rmw_opendds.Heap.{Heap, create, destroy}
use rmw_opendds.Heap.Worlds.{Made, Kept, create-Made, destroy-Kept}
use rmw_opendds.Listener.{Listener}
use rmw_opendds.Init.{Context}
use rmw_opendds.GuardConditions.{GuardCondition, rmw_create_guard_condition}
use rmw_opendds.GuardConditions.Worlds.{
  rmw_create_guard_condition-Kept, rmw_destroy_guard_condition-Kept,
}
use rmw_opendds.Participants.{
  ParticipantQos, Factory, Parts, OpenDdsNode, new_listener, destruct_listener, user_data_of,
  set_user_data, set_listeners, set_up, with_participant, join,
}
use rmw_opendds.Participants.Transport.{
  Registry, find_inst, find_config, bind, with_inst, configure_transport,
}
use rmw_opendds.Participants.Construct.{
  has_factory, leave, drop_guard_condition, cleanup, destruct_node, give_up, complete,
  with_subscriber, with_publisher, with_guard_condition, construct_node,
}

-- What the calls of OpenDDS do to the participants that there are: a creation that succeeds adds
-- its participant, a deletion that succeeds takes it away, and nothing else changes them.
pub record Ledger {Q P S Ti Tc W : Type 0} (factory : Factory Q P S W)
    (registry : Registry Ti Tc P W) (participants : W → List P) : Type 0 where
  pub default_set :
      (qos : ParticipantQos Q) (w : W)
      → participants (factory.set_default_participant_qos qos w).1 ≡ participants w
  pub xtypes_used :
      (domain : ℕ) (w : W) → participants (factory.use_xtypes domain w) ≡ participants w
  pub created :
      (domain : ℕ) (p : P) (w left : W)
      → factory.create_participant domain w ≡ (some p, left)
      → participants left ≡ p ∷ participants w
  pub not_created :
      (domain : ℕ) (w left : W)
      → factory.create_participant domain w ≡ (none, left)
      → participants left ≡ participants w
  pub publications_set :
      (s : S) (l : ℕ) (w : W)
      → participants (factory.set_publication_listener s l w) ≡ participants w
  pub subscriptions_set :
      (s : S) (l : ℕ) (w : W)
      → participants (factory.set_subscription_listener s l w) ≡ participants w
  pub emptied :
      (p : P) (w : W) → participants (factory.delete_contained_entities p w).1 ≡ participants w
  pub deleted :
      (p : P) (rest : List P) (w : W)
      → is_dds_ok (factory.delete_contained_entities p w).0 ≡ true
      → is_dds_ok (factory.delete_participant p (factory.delete_contained_entities p w).1).0 ≡ true
      → participants w ≡ p ∷ rest
      → participants (factory.delete_participant p (factory.delete_contained_entities p w).1).1
        ≡ rest
  pub counted : (w : W) → participants (registry.increment w) ≡ participants w
  pub inst_created :
      (n t : Bytes) (w : W) → participants (registry.create_inst n t w).1 ≡ participants w
  pub config_created :
      (n : Bytes) (w : W) → participants (registry.create_config n w).1 ≡ participants w
  pub instance_added :
      (c : Tc) (i : Ti) (w : W) → participants (registry.add_instance c i w) ≡ participants w
  pub bound :
      (c : Tc) (p : P) (w : W) → participants (registry.bind_config c p w).1 ≡ participants w

-- Both deletions of `cleanup` succeed.
pub record Deletes {Q P S W : Type 0} (factory : Factory Q P S W) : Type 0 where
  pub contained : (p : P) (w : W) → is_dds_ok (factory.delete_contained_entities p w).0 ≡ true
  pub participant : (p : P) (w : W) → is_dds_ok (factory.delete_participant p w).0 ≡ true

module _ {Q P S Ti Tc W : Type 0} (factory : Factory Q P S W) (registry : Registry Ti Tc P W)
    (participants : W → List P) (law : Ledger factory registry participants) where
  -- The participants are those of the list.
  abbrev pub Are : List P → W → Type 0
  Are ps world = participants world ≡ ps

  bind-Are :
      (dp : P) (inst : Ti) (cfg : Option Tc × W)
      → participants (bind registry dp inst cfg).1 ≡ participants cfg.1
  unfolding bind
  bind-Are dp inst (none, world) = refl
  bind-Are dp inst (some cfg, world) =
      law.bound cfg dp (registry.add_instance cfg inst world) ∙ law.instance_added cfg inst world

  find_config-Are :
      (n : Bytes) (world : W) → participants (find_config registry n world).1 ≡ participants world
  unfolding find_config
  find_config-Are n world = elim (Option-cases (registry.get_config n world)) [
    | inl e ↦ rw (find_config, e) (law.config_created n world)
    | inr (cfg, e) ↦ rw (find_config, e) refl
  ]

  find_inst-Are :
      (n : Bytes) (world : W) → participants (find_inst registry n world).1 ≡ participants world
  unfolding find_inst
  find_inst-Are n world = elim (Option-cases (registry.get_inst n world)) [
    | inl e ↦ rw (find_inst, e) (law.inst_created n _ world)
    | inr (inst, e) ↦ rw (find_inst, e) refl
  ]

  with_inst-Are :
      (n : Bytes) (dp : P) (inst : Option Ti × W)
      → participants (with_inst registry n dp inst).1 ≡ participants inst.1
  unfolding with_inst
  with_inst-Are n dp (none, world) = refl
  with_inst-Are n dp (some inst, world) =
      bind-Are dp inst (find_config registry n world) ∙ find_config-Are n world

  configure_transport-Are :
      (domain_id : ℕ) (dp : P) (world : W)
      → participants (configure_transport registry domain_id dp world).1 ≡ participants world
  unfolding configure_transport
  configure_transport-Are domain_id dp world =
      with_inst-Are _ dp _ ∙ (find_inst-Are _ _ ∙ law.counted world)

  set_listeners-Are :
      (sub : Option S) (pub_listener sub_listener : ℕ) (world : W)
      → participants (set_listeners factory sub pub_listener sub_listener world).1
        ≡ participants world
  unfolding set_listeners
  set_listeners-Are none pub_listener sub_listener world = refl
  set_listeners-Are (some sub) pub_listener sub_listener world =
      let listening = factory.set_publication_listener sub pub_listener world in
      elim (Bool-cases (factory.lookup_publications sub world)) [
        | inr e ↦ rw (set_listeners, e) refl
        | inl e ↦ elim (Bool-cases (factory.lookup_subscriptions sub listening)) [
          | inr f ↦ rw (set_listeners, e, f) (law.publications_set sub pub_listener world)
          | inl f ↦
              rw (set_listeners, e, f)
                (law.subscriptions_set sub sub_listener listening
                  ∙ law.publications_set sub pub_listener world)
        ]
      ]

  pub set_up-Are :
      (domain_id : ℕ) (dp : P) (pub_listener sub_listener : ℕ) (world : W)
      → participants (set_up factory registry domain_id dp pub_listener sub_listener world).1
        ≡ participants world
  unfolding set_up
  set_up-Are domain_id dp pub_listener sub_listener world =
      let configured = configure_transport registry domain_id dp world in
      elim (Bool-cases configured.0) [
        | inr e ↦ rw (set_up, e) (configure_transport-Are domain_id dp world)
        | inl e ↦
            rw (set_up, e)
              (set_listeners-Are _ pub_listener sub_listener _
                ∙ configure_transport-Are domain_id dp world)
      ]

  pub set_user_data-Are :
      (name namespace : Bytes) (world : W)
      → participants (set_user_data factory name namespace world).1 ≡ participants world
  unfolding set_user_data
  set_user_data-Are name namespace world =
      elim (Option-cases (factory.get_default_participant_qos world)) [
        | inl e ↦ rw (set_user_data, e) refl
        | inr (qos, e) ↦ elim (Option-cases (user_data_of name namespace)) [
          | inl f ↦ rw (set_user_data, e, f) refl
          | inr (user_data, f) ↦ rw (set_user_data, e, f) (law.default_set _ world)
        ]
      ]
