-- ===== src/Tests/Waiting.antt =====
-- The wait at a concrete wait set: conditions are numbers, the world is the list of the attached
-- ones, and the first of them is active.
use rmw_opendds.Prelude.{
  ℕ, ◌≡◌, ◌↔◌, refl, true, some, none, ok, arith, List, [], ◌∷◌, ◌==◌, take, if◌then◌else◌,
}
use rmw_opendds.Identifier.{opendds_identifier, check_impl_id}
use rmw_opendds.Ret.{RmwRet, DdsRet}
use rmw_opendds.WaitSets.{Dds, Request, WaitSet, WaitSetInfo, Answer}
use rmw_opendds.Wait.{wait}
use rmw_opendds.Wait.Cleaning.{Laws, without, wait_detaches}
use rmw_opendds.Wait.Slots.{kept}
use rmw_opendds.Wait.Results.{active_of, SameButEvents, wait_keeps_active}
use rmw_opendds.Tests.Events.{kinds}

eq_iff : (a b : ℕ) → ((a == b) ≡ true) ↔ (a ≡ b)
eq_iff a b = ((λ h. ground arith), λ h. ground arith)

abbrev detach : ℕ → List ℕ → List ℕ
detach c [] = []
detach c (a ∷ rest) = let others = detach c rest in if a == c then others else a ∷ others

abbrev dds : Dds ℕ ℕ (List ℕ)
dds = record {
  same = λ a b. a == b;
  same_iff = eq_iff;
  attach_condition = λ c w. (DdsRet.ok, c ∷ w);
  wait = λ t w. (DdsRet.ok, take 1 w, w);
  get_conditions = λ w. (DdsRet.ok, w, w);
  detach_condition = λ c w. (DdsRet.ok, detach c w);
  set_trigger_value = λ c b w. (DdsRet.ok, w);
  get_entity = λ d. some d;
  get_status_changes = λ e w. 2048;
  infinite = record { sec = 2147483647; nanosec = 2147483647 };
  kinds = kinds;
  matches = check_impl_id;
}

detach-eq-without : (c : ℕ) (w : List ℕ) → detach c w ≡ without dds c w
detach-eq-without c [] = refl
detach-eq-without c (a ∷ rest) = ground (arith, detach-eq-without c rest)

laws : Laws dds (λ w. w)
laws = record {
  succeeds = λ w. refl;
  gives = λ w. refl;
  keeps = λ w. refl;
  takes = detach-eq-without;
}

abbrev info : WaitSetInfo ℕ
info = record { has_wait_set = true; active_conditions = some []; attached_conditions = some [] }

abbrev wait_set : WaitSet ℕ
wait_set = record { implementation_identifier = opendds_identifier; info = some info }

abbrev request : Request ℕ ℕ
request = record {
  subscriptions = some (some (record { read_condition = some 1 }) ∷ []);
  guard_conditions = some (some 2 ∷ some 3 ∷ []);
  services = none;
  clients = none;
  events = none;
}

abbrev answer : Answer ℕ ℕ (List ℕ)
answer = record {
  ret = RmwRet.ok;
  request = record request {
    subscriptions = some (none ∷ []);
    guard_conditions = some (none ∷ some 3 ∷ []);
  };
  wait_set = some (record wait_set {
    info = some (record info {
      active_conditions = some (3 ∷ []);
      attached_conditions = some (3 ∷ 2 ∷ 1 ∷ []);
    });
  });
  world = [];
}

run : wait dds request (some wait_set) none [] ≡ ok answer
unfolding wait check_impl_id
run = refl

wait_detaches_example :
    (a : Answer ℕ ℕ (List ℕ)) × ((wait dds request (some wait_set) none [] ≡ ok a) × (a.world ≡ []))
unfolding check_impl_id
wait_detaches_example =
    wait_detaches dds (λ w. w) request wait_set info [] [] none [] laws refl refl refl refl refl tt

wait_keeps_active_example :
    (now_active : List ℕ) × ((active_of answer ≡ some now_active)
      × SameButEvents dds answer.request (kept dds now_active request))
unfolding check_impl_id
wait_keeps_active_example =
    wait_keeps_active dds request wait_set info [] none [] answer refl refl refl refl tt run refl
