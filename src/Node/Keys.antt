-- ===== src/Node/Keys.antt =====
-- The search for the participant of a node.
use rmw_opendds.Prelude.{
  ◌≡◌, ◌↔◌, refl, Bool, true, false, ◌&&◌, arith, none, some, List, [], ◌∷◌, All, Bool-cases, inl,
  inr, ◌⊎◌,
}
use rmw_opendds.Text.{Bytes}
use rmw_opendds.Order.{Order}
use rmw_opendds.Ret.{RmwRet, is_dds_ok}
use rmw_opendds.Node.{Participant, match_user_data, search, get_key}

module _ {G Handle : Type 0} ⦃o : Order G⦄ (dp : Participant G Handle)
    (node_name node_namespace : Bytes) where
  -- A participant whose data DDS gives, and which is not the node's.
  abbrev pub IsOther : Handle → Type 0
  IsOther handle =
      (is_dds_ok (dp.get_discovered_participant_data handle).0 ≡ true)
      × (match_user_data dp (dp.get_discovered_participant_data handle).1 node_name node_namespace
          ≡ false)

  -- A participant whose data DDS gives, which is the node's, and whose key is `key`.
  abbrev pub IsNode : G → Handle → Type 0
  IsNode key handle =
      (is_dds_ok (dp.get_discovered_participant_data handle).0 ≡ true)
      × ((match_user_data dp (dp.get_discovered_participant_data handle).1 node_name node_namespace
            ≡ true)
          × ((dp.get_discovered_participant_data handle).2 ≡ key))

  -- The first participant that is not another one is the node's.
  pub data FirstIs (key : G) : List Handle → Type 0 where
    here :
        {handle : Handle} {handles : List Handle}
        → IsNode key handle
        → FirstIs key (handle ∷ handles)
    there :
        {handle : Handle} {handles : List Handle}
        → IsOther handle
        → FirstIs key handles
        → FirstIs key (handle ∷ handles)

  search-FirstIs :
      (handles : List Handle) (key : G)
      → search dp handles node_name node_namespace ≡ (RmwRet.ok, some key)
      → FirstIs key handles
  unfolding search
  search-FirstIs [] key h = cc
  search-FirstIs (handle ∷ handles) key h =
      let (code, user_data, found) = dp.get_discovered_participant_data handle in
      elim (Bool-cases (is_dds_ok (dp.get_discovered_participant_data handle).0)) [
        | inr f ↦ ground (arith, f, h)
        | inl t ↦
            elim (Bool-cases (
              match_user_data dp (dp.get_discovered_participant_data handle).1 node_name
                node_namespace)) [
                  | inl m ↦ here (t, (m, ground (arith, t, m, h)))
                  | inr m ↦ there (t, m) (search-FirstIs handles key (ground (arith, t, m, h)))
                ]
      ]

  FirstIs-search :
      (handles : List Handle) (key : G)
      → FirstIs key handles
      → search dp handles node_name node_namespace ≡ (RmwRet.ok, some key)
  unfolding search
  FirstIs-search [] key f = elim f [ ]
  FirstIs-search (handle ∷ handles) key (here (t, (m, e))) = ground (arith, t, m, e)
  FirstIs-search (handle ∷ handles) key (there (t, m) f) =
      ground (arith, t, m, FirstIs-search handles key f)

  search_missing :
      (handles : List Handle)
      → (search dp handles node_name node_namespace ≡ (RmwRet.node_name_non_existent, none))
        ↔ All IsOther handles
  unfolding search
  search_missing [] = ((λ h. tt), λ h. refl)
  search_missing (handle ∷ handles) =
      ((λ h. ground (arith, search_missing handles)), λ h. ground (arith, search_missing handles))

  -- The node's own participant is asked first; the search behind it goes through the discovered
  -- participants in order.
  abbrev pub OwnIs : Bool → Type 0
  OwnIs b = (is_dds_ok dp.get_qos.0 && match_user_data dp dp.get_qos.1 node_name node_namespace) ≡ b

  -- `get_key` gives a key exactly if the node's own participant has the name and the namespace, and
  -- the key is its own, or else the key is that of the first discovered participant that has them,
  -- with the data of all participants before it read.
  pub get_key_found :
      (key : G)
      → (get_key dp node_name node_namespace ≡ (RmwRet.ok, some key))
        ↔ (OwnIs true × (dp.get_repoid dp.instance_handle ≡ key))
          ⊎ (OwnIs false
              × ((is_dds_ok dp.get_discovered_participants.0 ≡ true)
                  × FirstIs key dp.get_discovered_participants.1))
  unfolding get_key
  get_key_found key =
      let to = search-FirstIs dp.get_discovered_participants.1 key in
      let back = FirstIs-search dp.get_discovered_participants.1 key in
      ((λ h. ground (arith, to, h)), λ h. ground (arith, back, h))

  -- `get_key` answers that the name does not exist exactly if the node's own participant does not
  -- have it, DDS gives the discovered participants and the data of each, and none has it.
  pub get_key_missing :
      (get_key dp node_name node_namespace ≡ (RmwRet.node_name_non_existent, none)) ↔ (
        OwnIs false
        × ((is_dds_ok dp.get_discovered_participants.0 ≡ true)
            × All IsOther dp.get_discovered_participants.1))
  unfolding get_key
  get_key_missing =
      let s = search_missing dp.get_discovered_participants.1 in
      ((λ h. ground (arith, s, h)), λ h. ground (arith, s, h))
