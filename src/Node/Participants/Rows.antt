-- ===== src/Node/Participants/Rows.antt =====
-- What `get_names` answers where there is memory.
use rmw_opendds.Prelude.{
  ℕ, ◌+◌, ◌≡◌, refl, Bool, true, false, not, ◌&&◌, ◌||◌, Option, none, some, List, [], ◌∷◌, map,
  if◌then◌else◌, is_empty, length, ok, undefined, arith, Bool-cases, inl, inr,
}
use rmw_opendds.Text.{Bytes, codes}
use rmw_opendds.Ret.{RmwRet, is_dds_ok}
use rmw_opendds.Node.{Participant, KeyValues}
use rmw_opendds.Node.Participants.{
  Row, Column, names, namespaces, enclaves, NamesMemory, string_of, namespace_of, empty_row,
  copy_row, own_row, copy_enclave, discovered_row, values_of, discovered_rows, get_names,
}

-- There is memory for every copy.
pub record HasMemory (m : NamesMemory) : Type 0 where
  pub arrays : (c : Column) (n : ℕ) → m.string_array_init c n ≡ true
  pub copies : (c : Column) (i : ℕ) → m.strdup c i ≡ true

abbrev pub is_some : Option Bytes → Bool
is_some none = false
is_some (some a) = true

-- User data with a name has a namespace.
abbrev pub is_complete : KeyValues → Bool
is_complete values = is_some (values (codes "namespace")) || not (is_some (values (codes "name")))

-- The row of a participant whose user data has these values.
abbrev pub row_of : Bool → KeyValues → Row
row_of has_enclaves values =
    if is_empty (string_of (values (codes "name"))) then empty_row else record {
      name = values (codes "name");
      namespace = values (codes "namespace");
      enclave = if has_enclaves then some (string_of (values (codes "enclave"))) else none;
    }

module _ {G Handle : Type 0} (dp : Participant G Handle) where
  -- Whether every participant of the list has a namespace if it has a name.
  abbrev pub all_complete : List Handle → Bool
  all_complete [] = true
  all_complete (handle ∷ handles) = is_complete (values_of dp handle) && all_complete handles

module _ (m : NamesMemory) (h : HasMemory m) where
  discovered_row-eq :
      (has_enclaves : Bool) (i : ℕ) (values : KeyValues)
      → discovered_row m has_enclaves i
          (values (codes "name"))
          (values (codes "namespace"))
          (values (codes "enclave"))
        ≡ (if is_complete values then ok (some (row_of has_enclaves values)) else undefined)
  unfolding discovered_row copy_row namespace_of copy_enclave
  discovered_row-eq has_enclaves i values =
      ground (arith, h.copies names i, h.copies namespaces i, h.copies enclaves i)

  module _ {G Handle : Type 0} (dp : Participant G Handle) where
    discovered_rows-eq :
        (has_enclaves : Bool) (i : ℕ) (handles : List Handle)
        → discovered_rows m dp has_enclaves i handles ≡ (
            if all_complete dp handles
            then ok (some (map (λ handle. row_of has_enclaves (values_of dp handle)) handles))
            else undefined)
    unfolding discovered_rows
    discovered_rows-eq has_enclaves i [] = refl
    discovered_rows-eq has_enclaves i (handle ∷ handles) =
        elim (Bool-cases (is_complete (values_of dp handle))) [
          | inl e ↦
              rw (discovered_row-eq has_enclaves i (values_of dp handle), e)
                (rw (discovered_rows-eq has_enclaves (i + 1) handles) (ground arith))
          | inr e ↦ rw (discovered_row-eq has_enclaves i (values_of dp handle), e) refl
        ]

    -- Without enclaves, where the arrays are zero, DDS lists the participants and there is memory.
    pub get_names-eq :
        (name ns : Bytes) (context : Option (Option Bytes))
        → is_dds_ok dp.get_discovered_participants.0 ≡ true
        → get_names m dp RmwRet.ok RmwRet.ok false name ns context ≡ (
            if all_complete dp dp.get_discovered_participants.1
            then ok (
              RmwRet.ok,
              some (
                  record { name = some name; namespace = some ns; enclave = none }
                  ∷ map
                      (λ handle. row_of false (values_of dp handle))
                      dp.get_discovered_participants.1),
            )
            else undefined)
    unfolding get_names own_row copy_row
    get_names-eq name ns none listed =
        let size = length dp.get_discovered_participants.1 + 1 in
        ground (
          arith,
          listed,
          h.arrays names size,
          h.arrays namespaces size,
          h.copies names 0,
          h.copies namespaces 0,
          discovered_rows-eq false 1 dp.get_discovered_participants.1,
        )
    get_names-eq name ns (some enclave) listed =
        let size = length dp.get_discovered_participants.1 + 1 in
        ground (
          arith,
          listed,
          h.arrays names size,
          h.arrays namespaces size,
          h.copies names 0,
          h.copies namespaces 0,
          discovered_rows-eq false 1 dp.get_discovered_participants.1,
        )

    -- With enclaves and without the object behind `context_`.
    pub get_names-undefined :
        (name ns : Bytes)
        → is_dds_ok dp.get_discovered_participants.0 ≡ true
        → get_names m dp RmwRet.ok RmwRet.ok true name ns none ≡ undefined
    unfolding get_names own_row
    get_names-undefined name ns listed =
        let size = length dp.get_discovered_participants.1 + 1 in
        ground (
          arith,
          listed,
          h.arrays names size,
          h.arrays namespaces size,
          h.arrays enclaves size,
          h.copies names 0,
          h.copies namespaces 0,
        )
