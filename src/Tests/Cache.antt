-- ===== src/Tests/Cache.antt =====
-- The topic cache at concrete inputs. A GUID is a text here.
use rmw_opendds.Prelude.{◌≢◌, ◌≡◌, refl, ◌↔◌, some, none, true, false, List, [], ◌∷◌}
use rmw_opendds.Text.{Bytes, codes}
use rmw_opendds.Order.{same_key}
use rmw_opendds.Order.Strings.{bytes_order}
use rmw_opendds.Containers.Map
use rmw_opendds.Containers.MultiSet
use rmw_opendds.TopicCache.{
  TopicCache, empty_cache, TopicInfo, add_topic, remove_topic, get_topic_types_by_guid,
}
use rmw_opendds.TopicCache.Consistent.{IsConsistent, empty_cache-IsConsistent}
use rmw_opendds.TopicCache.Refines.{
  Op, add, remove, step, run, view, spec_run, cache_refines, run-IsConsistent,
}
use rmw_opendds.TopicCache.Undone.{remove_topic-add_topic}
use rmw_opendds.TopicCache.Repeated.{add_topic_repeated}
use rmw_opendds.TopicCache.Types.{lists, Offers, get_topic_types_iff}

-- Two endpoints of participant `p`, one of which goes, and one added twice.
abbrev pub ops : List (Op Bytes)
ops =
    add (codes "p") (codes "e") (codes "rt/chatter") (codes "T")
    ∷ add (codes "p") (codes "f") (codes "rt/other") (codes "U")
    ∷ add (codes "q") (codes "e") (codes "rt/chatter") (codes "T")
    ∷ remove (codes "f")
    ∷ remove (codes "f")
    ∷ []

pub cache : TopicCache Bytes
unfolding run
cache = (run ops empty_cache).1

answers : (run ops empty_cache).0 ≡ true ∷ true ∷ false ∷ true ∷ false ∷ []
unfolding run step add_topic remove_topic Map.find Map.assign same_key MultiSet.contains
    MultiSet.insert Map.erase
answers = refl

abbrev pub info : TopicInfo Bytes
info = record {
  topic_name = codes "rt/chatter";
  topic_type = codes "T";
  participant_guid = codes "p";
  endpoint_guid = codes "e";
}

pub find-e : Map.find (codes "e") cache.endpoint_guid_to_info ≡ some info
unfolding cache run step add_topic remove_topic Map.find Map.assign same_key MultiSet.contains
    MultiSet.insert Map.erase
find-e = refl

pub find-h : Map.find (codes "h") cache.endpoint_guid_to_info ≡ none
unfolding cache run step add_topic remove_topic Map.find Map.assign same_key MultiSet.contains
    MultiSet.insert Map.erase
find-h = refl

find-z : Map.find (codes "z") cache.participant_to_endpoint_guids ≡ none
unfolding cache run step add_topic remove_topic Map.find Map.assign same_key MultiSet.contains
    MultiSet.insert Map.erase MultiSet.erase_one
find-z = refl

pub cache-IsConsistent : IsConsistent cache
unfolding cache run
cache-IsConsistent = run-IsConsistent ops empty_cache empty_cache-IsConsistent

cache_refines_example :
    (((run ops empty_cache).0, view (run ops empty_cache).1) ≡ spec_run ops (λ _. none))
    × IsConsistent (run ops empty_cache).1
cache_refines_example = cache_refines ops

run-IsConsistent_example : IsConsistent (run ops empty_cache).1
run-IsConsistent_example = run-IsConsistent ops empty_cache empty_cache-IsConsistent

get_topic_types_example :
    (lists (codes "rt/chatter") (codes "T") (get_topic_types_by_guid (codes "p") cache) ≡ true)
    ↔ Offers (codes "p") cache (codes "rt/chatter") (codes "T")
get_topic_types_example =
    get_topic_types_iff (codes "p") cache (codes "rt/chatter") (codes "T") cache-IsConsistent

add_topic_repeated_example :
    ((add_topic (codes "z") (codes "e") (codes "rt/a") (codes "U") cache).0 ≡ false)
    × (((add_topic (codes "z") (codes "e") (codes "rt/a") (codes "U") cache).1.endpoint_guid_to_info
          ≡ cache.endpoint_guid_to_info)
        × (Map.find
              (codes "z")
              (add_topic
                (codes "z")
                (codes "e")
                (codes "rt/a")
                (codes "U")
                cache).1.participant_to_endpoint_guids
            ≡ some []))
add_topic_repeated_example =
    add_topic_repeated (codes "z") (codes "e") (codes "rt/a") (codes "U") info cache find-e find-z

nonempty-p : Map.find (codes "p") cache.participant_to_endpoint_guids ≢ some []
unfolding cache run step add_topic remove_topic Map.find Map.assign same_key MultiSet.contains
    MultiSet.insert Map.erase MultiSet.erase_one
nonempty-p = λ e. cc e

remove_topic-add_topic_example :
    remove_topic
      (codes "h")
      (add_topic (codes "p") (codes "h") (codes "rt/chatter") (codes "T") cache).1
    ≡ (true, cache)
remove_topic-add_topic_example =
    remove_topic-add_topic (codes "p") (codes "h") (codes "rt/chatter") (codes "T") cache
      cache-IsConsistent find-h nonempty-p
