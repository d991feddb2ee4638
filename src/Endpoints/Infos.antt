-- ===== src/Endpoints/Infos.antt =====
-- What `_get_info_by_topic` lists where no call fails.
use rmw_opendds.Prelude.{
  ℕ, ◌+◌, ◌≡◌, refl, ap, ◌∙◌, ◌≢◌, Bool, true, false, Option, none, some, List, [], ◌∷◌, ◌++◌,
  append_assoc, append-nil, if◌then◌else◌, ok, All, ok_of_Returns, sym,
}
use rmw_opendds.Text.{Bytes}
use rmw_opendds.Order.{Order, same_key}
use rmw_opendds.Containers.Map
use rmw_opendds.Containers.Map.{Map, find-assign}
use rmw_opendds.Ret.{RmwRet, is_dds_ok}
use rmw_opendds.Names.Demangle.{demangle_if_ros_type}
use rmw_opendds.Names.Demangle.Total.{demangle_if_ros_type-Returns}
use rmw_opendds.TopicCache.{TopicInfo}
use rmw_opendds.Listener.{Listener}
use rmw_opendds.Listener.Queries.Named.{endpoints_named, fill_topic_endpoint_infos-eq}
use rmw_opendds.Node.{Node, Participant}
use rmw_opendds.NodeHandles.{RmwNode, from}
use rmw_opendds.Endpoints.{
  ParticipantNameInfo, EndpointInfo, InfoCalls, get_topic_fqdns, endpoint_type_of, set_node_names,
  names_or_unknown, set_rmw_topic_endpoint_info, discovered_name, add_name, add_discovered_names,
  fill_fqdns, zero_info, set_infos, fill_array, target, get_info, get_info_by_topic,
  validate_params,
}

-- All calls on infos and arrays succeed, the check for a zero array included.
pub record Succeeds {G : Type 0} (calls : InfoCalls G) : Type 0 where
  pub types : (i : ℕ) → calls.set_endpoint_type i ≡ RmwRet.ok
  pub gids : (i : ℕ) → calls.set_gid i ≡ RmwRet.ok
  pub topic_types : (i : ℕ) → calls.set_topic_type i ≡ RmwRet.ok
  pub node_names : (i : ℕ) → calls.set_node_name i ≡ RmwRet.ok
  pub node_namespaces : (i : ℕ) → calls.set_node_namespace i ≡ RmwRet.ok
  pub zero : (array : List (EndpointInfo G)) → calls.array_check_zero array ≡ RmwRet.ok
  pub inits : (n : ℕ) → calls.array_init_with_size n ≡ RmwRet.ok

-- Two lists whose members stand in a relation, one by one.
abbrev pub Pointwise {ℓ κ} : {A : Type ℓ} {B : Type κ} → (A → B → Type 0) → List A → List B → Type 0
Pointwise R [] [] = Unit
Pointwise R [] (y ∷ ys) = ⊥
Pointwise R (x ∷ xs) [] = ⊥
Pointwise R (x ∷ xs) (y ∷ ys) = R x y × Pointwise R xs ys

abbrev pub newer :
    Bool → Option ParticipantNameInfo → Option ParticipantNameInfo → Option ParticipantNameInfo
newer same none before = before
newer same (some names) before = if same then some names else before

type_found :
    (no_mangle : Bool) (t : Bytes)
    → t ≢ []
    → (type : Bytes) × ((if no_mangle then ok t else demangle_if_ros_type t) ≡ ok type)
type_found true t h = (t, refl)
type_found false t h = ok_of_Returns _ (demangle_if_ros_type-Returns t h)

module _ {G : Type 0} ⦃o : Order G⦄ where
  -- Those of several names, name by name.
  abbrev pub endpoints_of : List Bytes → Bool → Map G (TopicInfo G) → List (TopicInfo G)
  endpoints_of [] no_mangle m = []
  endpoints_of (fqdn ∷ rest) no_mangle m =
      endpoints_named fqdn no_mangle m ++ endpoints_of rest no_mangle m

  -- The names that a participant has after those of the list, of which the last counts. `before`
  -- are those it has without them. A participant whose user data lacks one of the two adds nothing.
  abbrev pub names_among :
      {Handle : Type 0}
      → Participant G Handle
      → List Handle
      → G
      → Option ParticipantNameInfo
      → Option ParticipantNameInfo
  names_among dp [] guid before = before
  names_among dp (handle ∷ handles) guid before =
      let (code, user_data, key) = dp.get_discovered_participant_data handle in
      names_among dp handles guid (newer (same_key key guid) (discovered_name dp user_data) before)

  -- The names of a participant, as a node with the given names sees it.
  abbrev pub names_of :
      {Handle : Type 0} → Participant G Handle → Bytes → Bytes → G → ParticipantNameInfo
  names_of dp name ns guid =
      let own =
        if same_key (dp.get_repoid dp.instance_handle) guid
        then some (record { name = name; namespace = ns })
        else none in
      names_or_unknown (names_among dp dp.get_discovered_participants.1 guid own)

  -- An info of the array for an endpoint of the cache.
  pub record Describes (no_mangle is_publisher : Bool) (names : G → ParticipantNameInfo)
      (t : TopicInfo G) (e : EndpointInfo G) : Type 0 where
    pub of_type : e.endpoint_type ≡ endpoint_type_of is_publisher
    pub of_endpoint : e.endpoint_gid ≡ some t.endpoint_guid
    pub of_topic_type :
        (type : Bytes) × ((if no_mangle then ok t.topic_type else demangle_if_ros_type t.topic_type)
          ≡ ok type)
        × (e.topic_type ≡ some type)
    pub of_name : e.node_name ≡ some (names t.participant_guid).name
    pub of_namespace : e.node_namespace ≡ some (names t.participant_guid).namespace

  fill_fqdns-eq :
      (fqdns : List Bytes) (no_mangle : Bool) (l : Listener G) (infos : List (TopicInfo G))
      → fill_fqdns fqdns no_mangle l infos
        ≡ ok (infos ++ endpoints_of fqdns no_mangle l.topic_cache.endpoint_guid_to_info)
  unfolding fill_fqdns
  fill_fqdns-eq [] no_mangle l infos = ap ok (sym (append-nil infos))
  fill_fqdns-eq (fqdn ∷ fqdns) no_mangle l infos = rw (
    fill_topic_endpoint_infos-eq fqdn no_mangle l infos,
    fill_fqdns-eq fqdns no_mangle l,
    append_assoc,
  )

  find-add_name :
      (guid key : G) (found : Option ParticipantNameInfo) (names : Map G ParticipantNameInfo)
      → Map.find guid (add_name key found names)
        ≡ newer (same_key key guid) found (Map.find guid names)
  unfolding add_name
  find-add_name guid key none names = refl
  find-add_name guid key (some found) names = find-assign key guid found names

  module _ {Handle : Type 0} (dp : Participant G Handle) where
    find-add_discovered_names :
        (handles : List Handle) (names : Map G ParticipantNameInfo)
        → All (λ h. is_dds_ok (dp.get_discovered_participant_data h).0 ≡ true) handles
        → (all : Map G ParticipantNameInfo) × (add_discovered_names dp handles names ≡ some all)
          × ((guid : G) → Map.find guid all ≡ names_among dp handles guid (Map.find guid names))
    unfolding add_discovered_names
    find-add_discovered_names [] names known = (names, refl, λ guid. refl)
    find-add_discovered_names (handle ∷ handles) names known =
        let (code, user_data, key) = dp.get_discovered_participant_data handle in
        let (all, e, f) =
          find-add_discovered_names handles (add_name key (discovered_name dp user_data) names)
            known.1 in
        (
          all,
          rw (known.0) e,
          λ guid. rw (f guid, find-add_name guid key (discovered_name dp user_data) names),
        )

  module _ (calls : InfoCalls G) (s : Succeeds calls) (names : Map G ParticipantNameInfo)
      (no_mangle is_publisher : Bool) where
    set-Describes :
        (i : ℕ) (t : TopicInfo G)
        → t.topic_type ≢ []
        → (e : EndpointInfo G) × (set_rmw_topic_endpoint_info calls i t names no_mangle is_publisher
              zero_info
            ≡ ok (RmwRet.ok, e))
          × Describes no_mangle is_publisher (λ g. names_or_unknown (Map.find g names)) t e
    unfolding set_rmw_topic_endpoint_info set_node_names
    set-Describes i t h =
        let (type, e) = type_found no_mangle t.topic_type h in
        let found = names_or_unknown (Map.find t.participant_guid names) in
        (
          record {
            endpoint_type = endpoint_type_of is_publisher;
            endpoint_gid = some t.endpoint_guid;
            topic_type = some type;
            node_name = some found.name;
            node_namespace = some found.namespace;
          },
          rw (s.types i, s.gids i, e, s.topic_types i, s.node_names i, s.node_namespaces i),
          record {
            of_type = refl;
            of_endpoint = refl;
            of_topic_type = (type, e, refl);
            of_name = refl;
            of_namespace = refl;
          },
        )

    set_infos_describe :
        (i : ℕ) (ts : List (TopicInfo G))
        → All (λ t. t.topic_type ≢ []) ts
        → (array : List (EndpointInfo G)) × (set_infos calls i ts names no_mangle is_publisher
            ≡ ok (RmwRet.ok, array))
          × Pointwise
              (Describes no_mangle is_publisher (λ g. names_or_unknown (Map.find g names)))
              ts
              array
    unfolding set_infos
    set_infos_describe i [] h = ([], refl, tt)
    set_infos_describe i (t ∷ ts) h =
        let (first, e, d) = set-Describes i t h.0 in
        let (others, f, g) = set_infos_describe (i + 1) ts h.1 in
        (first ∷ others, rw (e, f), (d, g))

  Describes-renamed :
      (no_mangle is_publisher : Bool) (names others : G → ParticipantNameInfo)
      (ts : List (TopicInfo G)) (array : List (EndpointInfo G))
      → ((guid : G) → names guid ≡ others guid)
      → Pointwise (Describes no_mangle is_publisher names) ts array
      → Pointwise (Describes no_mangle is_publisher others) ts array
  Describes-renamed no_mangle is_publisher names others [] [] h d = tt
  Describes-renamed no_mangle is_publisher names others [] (e ∷ array) h d = d
  Describes-renamed no_mangle is_publisher names others (t ∷ ts) [] h d = d
  Describes-renamed no_mangle is_publisher names others (t ∷ ts) (e ∷ array) h d = (
    record {
      of_type = d.0.of_type;
      of_endpoint = d.0.of_endpoint;
      of_topic_type = d.0.of_topic_type;
      of_name = d.0.of_name ∙ ap (λ n. some n.name) (h t.participant_guid);
      of_namespace = d.0.of_namespace ∙ ap (λ n. some n.namespace) (h t.participant_guid);
    },
    Describes-renamed no_mangle is_publisher names others ts array h d.1,
  )

  module _ {Handle : Type 0} (calls : InfoCalls G) (dp : Participant G Handle) where
    -- For a node of the package that has its names, where no call fails and no endpoint of the
    -- topic has an empty type: a zero array is filled with one info for each endpoint whose name is
    -- a name of the topic, in the order of the names and then of the map. The info names the node:
    -- of the discovered participants that have the endpoint's participant GUID and both names in
    -- their user data the last one's, or else the own names if the GUID is the own one, or else the
    -- unknown ones.
    pub get_info_by_topic_lists :
        (node : RmwNode (Node G)) (dds_node : Node G) (topic_name name ns : Bytes)
        (no_mangle is_publisher : Bool) (array : List (EndpointInfo G))
        → Succeeds calls
        → from (some node) ≡ some dds_node
        → node.name ≡ some name
        → node.namespace ≡ some ns
        → is_dds_ok dp.get_discovered_participants.0 ≡ true
        → All
            (λ h. is_dds_ok (dp.get_discovered_participant_data h).0 ≡ true)
            dp.get_discovered_participants.1
        → All
            (λ t. t.topic_type ≢ [])
            (endpoints_of
              (get_topic_fqdns topic_name no_mangle)
              no_mangle
              (target is_publisher dds_node).topic_cache.endpoint_guid_to_info)
        → (filled : List (EndpointInfo G)) × (get_info_by_topic calls dp
              (some node)
              true
              (some topic_name)
              no_mangle
              is_publisher
              (some array)
            ≡ ok (RmwRet.ok, some filled))
          × Pointwise
              (Describes no_mangle is_publisher (names_of dp name ns))
              (endpoints_of
                (get_topic_fqdns topic_name no_mangle)
                no_mangle
                (target is_publisher dds_node).topic_cache.endpoint_guid_to_info)
              filled
    unfolding get_info_by_topic validate_params get_info fill_array Map.find
    get_info_by_topic_lists node dds_node topic_name name ns no_mangle is_publisher array s handle
          named spaced ok₁ ok₂ typed =
        let own =
          Map.assign (dp.get_repoid dp.instance_handle) (record { name = name; namespace = ns })
            [] in
        let (all, e, f) = find-add_discovered_names dp dp.get_discovered_participants.1 own ok₂ in
        let (filled, g, d) =
          set_infos_describe calls s all no_mangle is_publisher 0
            (endpoints_of (get_topic_fqdns topic_name no_mangle) no_mangle
              (target is_publisher dds_node).topic_cache.endpoint_guid_to_info)
            typed in
        (
          filled,
          rw (s.zero array, handle, named, spaced, ok₁, e, fill_fqdns-eq, s.inits, g),
          Describes-renamed no_mangle is_publisher _ (names_of dp name ns) _ filled
              (λ guid. ap names_or_unknown (
                f guid
                ∙ ap (names_among dp dp.get_discovered_participants.1 guid)
                    (find-assign (dp.get_repoid dp.instance_handle) guid _ [])))
              d,
        )
