-- ===== src/Tests/Ledger.antt =====
-- The participants of DDS at concrete inputs: the world is a count and the list of the
-- participants.
use rmw_opendds.Prelude.{
  ℕ, ◌+◌, ◌≡◌, refl, sym, ap, ◌∙◌, some-injective, Bool, true, false, Option, some, none, List, [],
  ◌∷◌, ok,
}
use rmw_opendds.Text.{Bytes, codes}
use rmw_opendds.Identifier.{check_impl_id}
use rmw_opendds.Ret.{DdsRet}
use rmw_opendds.Heap.{Heap}
use rmw_opendds.Participants.{Factory}
use rmw_opendds.Participants.Transport.{Registry}
use rmw_opendds.Participants.Calls.{NodeAt, rmw_create_node}
use rmw_opendds.Participants.Ledger.{Ledger, Deletes}
use rmw_opendds.Participants.Ledger.Calls.{HasEntered, rmw_create_node-HasEntered}
use rmw_opendds.Tests.Participants.{context}

abbrev World : Type 0
World = ℕ × List ℕ

abbrev without_first : List ℕ → List ℕ
without_first [] = []
without_first (p ∷ ps) = ps

-- `found` is whether the builtin readers are found.
abbrev factory : Bool → Factory (Unit {0}) ℕ ℕ World
factory found = record {
  memory = λ n. true;
  get_default_participant_qos = λ w. some (record { user_data = []; others = tt });
  set_default_participant_qos = λ q w. (DdsRet.ok, w);
  has_rtps_discovery = λ d w. true;
  use_xtypes = λ d w. w;
  create_participant = λ d w. (some w.0, (w.0 + 1, w.0 ∷ w.1));
  is_impl = λ p. true;
  get_builtin_subscriber = λ p w. some w.0;
  lookup_publications = λ s w. found;
  lookup_subscriptions = λ s w. found;
  set_publication_listener = λ s l w. w;
  set_subscription_listener = λ s l w. w;
  delete_contained_entities = λ p w. (DdsRet.ok, w);
  delete_participant = λ p w. (DdsRet.ok, (w.0, without_first w.1));
}

abbrev registry : Registry ℕ ℕ ℕ World
registry = record {
  count = λ w. w.0;
  increment = λ w. (w.0 + 1, w.1);
  get_inst = λ n w. none;
  create_inst = λ n t w. (some w.0, w);
  get_config = λ n w. none;
  create_config = λ n w. (some w.0, w);
  add_instance = λ c i w. w;
  bind_config = λ c p w. (true, w);
}

abbrev participants : World → List ℕ
participants world = world.1

ledger : (found : Bool) → Ledger (factory found) registry participants
ledger found = record {
  default_set = λ qos w. refl;
  xtypes_used = λ domain w. refl;
  created = λ domain p w left e.
      ap (λ x. x.1.1) (sym e) ∙ ap (λ x. x ∷ w.1) (some-injective (ap (λ x. x.0) e));
  not_created = λ domain w left e. cc (ap (λ x. x.0) e);
  publications_set = λ s l w. refl;
  subscriptions_set = λ s l w. refl;
  emptied = λ p w. refl;
  deleted = λ p rest w e f h. ap without_first h;
  counted = λ w. refl;
  inst_created = λ n t w. refl;
  config_created = λ n w. refl;
  instance_added = λ c i w. refl;
  bound = λ c p w. refl;
}

deletes : Deletes (factory false)
deletes = record { contained = λ p w. refl; participant = λ p w. refl }

abbrev heap : Heap World
heap = record { next = 7; live = 3 ∷ []; world = (5, 4 ∷ []) }

-- The builtin readers are not found.
entered_node_example :
    (r : Option (NodeAt Bytes ℕ) × Heap World) × (rmw_create_node
        (factory false)
        registry
        Bytes
        (some context)
        (some (codes "talker"))
        (some (codes "/"))
        heap
      ≡ ok r)
    × HasEntered participants (4 ∷ []) r
unfolding check_impl_id
entered_node_example =
    rmw_create_node-HasEntered (factory false) registry participants (ledger false) deletes Bytes
      context (λ d w. refl) refl refl (some (codes "talker")) (some (codes "/")) heap
