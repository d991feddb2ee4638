-- ===== src/Listener/Discovery.antt =====
-- A batch of samples from a builtin reader, as a sequence of additions and removals.
use native.Mathlib.Nat.{add-zero}
use rmw_opendds.Prelude.{
  ◌+◌, ◌≡◌, refl, Bool, true, false, ◌&&◌, List, [], ◌∷◌, if◌then◌else◌, is_empty, arith, map,
}
use rmw_opendds.Order.{Order}
use rmw_opendds.TopicCache.Refines.{Op, add, remove, step, run}
use rmw_opendds.Listener.{
  Listener, Sample, TakeResult, no_data, failed, taken, handle_sample, handle_samples,
  publisher_on_data_available, subscriber_on_data_available, handle_taken,
  trigger_graph_guard_condition,
}

module _ {G : Type 0} ⦃o : Order G⦄ {Handle Key : Type 0} (get_repoid : Handle → G)
    (key_to_guid : Key → G) where
  -- What a sample asks of the cache: an endpoint that is alive comes, any other goes.
  abbrev pub op_of : Sample Handle Key → Op G
  op_of s =
      if s.valid_data && s.is_alive
      then add (key_to_guid s.participant_key) (get_repoid s.publication_handle) s.topic_name
          s.type_name
      else remove (get_repoid s.publication_handle)

  abbrev pub samples_of : TakeResult Handle Key → List (Sample Handle Key)
  samples_of no_data = []
  samples_of failed = []
  samples_of (taken samples) = samples

  handle_sample-step :
      (s : Sample Handle Key) (l : Listener G)
      → handle_sample get_repoid key_to_guid s l
        ≡ record l { topic_cache = (step (op_of s) l.topic_cache).1 }
  unfolding handle_sample step
  handle_sample-step s l = ground arith

  handle_samples-run :
      (samples : List (Sample Handle Key)) (l : Listener G)
      → handle_samples get_repoid key_to_guid samples l
        ≡ record l { topic_cache = (run (map op_of samples) l.topic_cache).1 }
  unfolding handle_samples run
  handle_samples-run [] l = refl
  handle_samples-run (s ∷ rest) l = rw (handle_sample-step s l) (handle_samples-run rest _)

  -- The listener after a batch: the cache has run the operations, and the graph's guard condition
  -- is triggered once, if there was a sample.
  abbrev pub discovered : List (Sample Handle Key) → Listener G → Listener G
  discovered samples l = record {
    topic_cache = (run (map op_of samples) l.topic_cache).1;
    triggers = l.triggers + (if is_empty samples then 0 else 1);
  }

  handle_taken-discovered :
      (result : TakeResult Handle Key) (l : Listener G)
      → handle_taken get_repoid key_to_guid result l ≡ discovered (samples_of result) l
  unfolding handle_taken trigger_graph_guard_condition run
  handle_taken-discovered no_data l = rw add-zero
  handle_taken-discovered failed l = rw add-zero
  handle_taken-discovered (taken []) l = rw (handle_samples-run [] l) (rw add-zero)
  handle_taken-discovered (taken (s ∷ rest)) l = rw (handle_samples-run (s ∷ rest) l)

  -- Both listeners read a batch in order, each sample as the addition or the removal of its
  -- endpoint, and trigger the graph's guard condition once for a batch that is not empty. A reader
  -- of another type, no data and a failed read change nothing.
  pub on_data_available_discovers :
      (narrowed : Bool) (result : TakeResult Handle Key) (l : Listener G)
      → let samples = if narrowed then samples_of result else [] in
        (publisher_on_data_available get_repoid key_to_guid narrowed result l
          ≡ discovered samples l)
        × (subscriber_on_data_available get_repoid key_to_guid narrowed result l
            ≡ discovered samples l)
  unfolding publisher_on_data_available subscriber_on_data_available
  on_data_available_discovers true result l =
      (handle_taken-discovered result l, handle_taken-discovered result l)
  on_data_available_discovers false result l = unfold run in (rw add-zero, rw add-zero)
