-- ===== src/TopicCache/Refines.antt =====
-- A cache seen as a partial map from endpoints to their entries.
use mathlib.Core.Path.{fun_ext}
use rmw_opendds.Prelude.{
  ◌≡◌, refl, Bool, true, false, Option, none, some, List, [], ◌∷◌, if◌then◌else◌, ap, Option-cases,
  inl, inr,
}
use rmw_opendds.Text.{Bytes}
use rmw_opendds.Order.{Order, same_key}
use rmw_opendds.Containers.Map
use rmw_opendds.Containers.Map.{find-assign, find-erase}
use rmw_opendds.TopicCache.{
  TopicInfo, TopicCache, empty_cache, add_topic, remove_topic, erase_endpoint,
}
use rmw_opendds.TopicCache.Consistent.{
  IsConsistent, empty_cache-IsConsistent, add_topic-IsConsistent,
}
use rmw_opendds.TopicCache.Removal.{
  remove_topic_found, remove_topic_missing, remove_topic-IsConsistent,
}

-- What discovery asks of a cache.
pub data Op (G : Type 0) : Type 0 where
  add : G → G → Bytes → Bytes → Op G
  remove : G → Op G

abbrev pub View : Type 0 → Type 0
View G = G → Option (TopicInfo G)

module _ {G : Type 0} ⦃o : Order G⦄ where
  unfoldable pub step : Op G → TopicCache G → Bool × TopicCache G
  step (add p e topic_name type_name) c = add_topic p e topic_name type_name c
  step (remove e) c = remove_topic e c

  -- The answers, in order, and the last cache.
  unfoldable pub run : List (Op G) → TopicCache G → List Bool × TopicCache G
  run [] c = ([], c)
  run (op ∷ ops) c = let (b, d) = step op c in let (bs, last) = run ops d in (b ∷ bs, last)

  abbrev pub view : TopicCache G → View G
  view c e = Map.find e c.endpoint_guid_to_info

  abbrev put : G → Option (TopicInfo G) → View G → View G
  put e entry w f = if same_key e f then entry else w f

  -- An endpoint is added once and removed if it is there; the answer says which.
  unfoldable pub spec_step : Op G → View G → Bool × View G
  spec_step (add p e topic_name type_name) w = elim (w e) [
    | some _ ↦ (false, w)
    | none ↦ (
      true,
      put e
          (some (record {
            topic_name = topic_name;
            topic_type = type_name;
            participant_guid = p;
            endpoint_guid = e;
          }))
          w,
    )
  ]
  spec_step (remove e) w = elim (w e) [ none ↦ (false, w) | some _ ↦ (true, put e none w) ]

  unfoldable pub spec_run : List (Op G) → View G → List Bool × View G
  spec_run [] w = ([], w)
  spec_run (op ∷ ops) w =
      let (b, x) = spec_step op w in let (bs, last) = spec_run ops x in (b ∷ bs, last)

  step-IsConsistent : (op : Op G) (c : TopicCache G) → IsConsistent c → IsConsistent (step op c).1
  unfolding step
  step-IsConsistent (add p e topic_name type_name) c v =
      add_topic-IsConsistent p e topic_name type_name c v
  step-IsConsistent (remove e) c v = remove_topic-IsConsistent e c v

  -- Any sequence of additions and removals keeps the two maps of a cache consistent.
  pub run-IsConsistent :
      (ops : List (Op G)) (c : TopicCache G) → IsConsistent c → IsConsistent (run ops c).1
  unfolding run
  run-IsConsistent [] c v = v
  run-IsConsistent (op ∷ ops) c v = run-IsConsistent ops (step op c).1 (step-IsConsistent op c v)

  abbrev seen : Bool × TopicCache G → Bool × View G
  seen r = (r.0, view r.1)

  add-refines :
      (p e : G) (topic_name type_name : Bytes) (c : TopicCache G)
      → seen (add_topic p e topic_name type_name c)
        ≡ spec_step (add p e topic_name type_name) (view c)
  unfolding add_topic spec_step
  add-refines p e topic_name type_name c =
      elim (Option-cases (Map.find e c.endpoint_guid_to_info)) [
        | inl missing ↦
            rw (missing, add_topic, spec_step)
              (ap (λ (w : View G). (true, w))
                (fun_ext λ f.
                  find-assign e f
                    (record {
                      topic_name = topic_name;
                      topic_type = type_name;
                      participant_guid = p;
                      endpoint_guid = e;
                    })
                    c.endpoint_guid_to_info))
        | inr (info, found) ↦ rw (found, add_topic, spec_step)
      ]

  remove-refines :
      (e : G) (c : TopicCache G)
      → IsConsistent c
      → seen (remove_topic e c) ≡ spec_step (remove e) (view c)
  unfolding spec_step erase_endpoint
  remove-refines e c v = elim (Option-cases (Map.find e c.endpoint_guid_to_info)) [
    | inl missing ↦ rw (remove_topic_missing e c missing, missing, spec_step)
    | inr (info, found) ↦
        rw (remove_topic_found e info c v found, found, spec_step)
          (ap (λ (w : View G). (true, w)) (fun_ext λ f. find-erase e f c.endpoint_guid_to_info))
  ]

  step-refines :
      (op : Op G) (c : TopicCache G) → IsConsistent c → seen (step op c) ≡ spec_step op (view c)
  unfolding step
  step-refines (add p e topic_name type_name) c v = add-refines p e topic_name type_name c
  step-refines (remove e) c v = remove-refines e c v

  run-refines :
      (ops : List (Op G)) (c : TopicCache G)
      → IsConsistent c
      → ((run ops c).0, view (run ops c).1) ≡ spec_run ops (view c)
  unfolding run spec_run
  run-refines [] c v = refl
  run-refines (op ∷ ops) c v =
      rw (← step-refines op c v, ← run-refines ops (step op c).1 (step-IsConsistent op c v))

  -- From the empty cache, any sequence of additions and removals gives the answers of a partial
  -- map, leaves that map's entries, and leaves each of them once in the multiset of its
  -- participant and in no other.
  pub cache_refines :
      (ops : List (Op G))
      → (((run ops empty_cache).0, view (run ops empty_cache).1) ≡ spec_run ops (λ _. none))
        × IsConsistent (run ops empty_cache).1
  cache_refines ops = (
    unfold Map.find in run-refines ops empty_cache empty_cache-IsConsistent,
    run-IsConsistent ops empty_cache empty_cache-IsConsistent,
  )
