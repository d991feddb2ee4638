-- ===== src/Node/Participants.antt =====
-- `OpenDDSNode::get_names` (rmw_opendds_cpp/src/OpenDDSNode.cpp): the names, the namespaces and the
-- enclaves of the participants.
pub mod Rows
use rmw_opendds.Prelude.{
  ℕ, ◌+◌, ◌≡◌, ◌↔◌, refl, Bool, true, false, not, ◌&&◌, ◌||◌, Option, none, some, List, [], ◌∷◌,
  map, if◌then◌else◌, is_empty, length, Outcome, ok, undefined, ◌>>=◌, arith, All, Returns,
  Bool-cases, inl, inr,
}
use rmw_opendds.Text.{Bytes, codes}
use rmw_opendds.Order.{Order}
use rmw_opendds.Ret.{RmwRet, DdsRet, is_rmw_ok, is_dds_ok}
use rmw_opendds.Node.{Participant, KeyValues}

-- The three arrays as the rows of one: a name, a namespace and an enclave. A null pointer is
-- `none`.
pub record Row : Type 0 where
  pub name : Option Bytes
  pub namespace : Option Bytes
  pub enclave : Option Bytes

pub data Column : Type 0 where
  names namespaces enclaves : Column

-- Whether `rcutils_string_array_init` has memory for an array of a size, and `rcutils_strdup` for
-- an entry.
pub record NamesMemory : Type 0 where
  pub string_array_init : Column → ℕ → Bool
  pub strdup : Column → ℕ → Bool

-- The string of a value that may not be found.
abbrev pub string_of : Option Bytes → Bytes
string_of none = []
string_of (some s) = s

-- `ns`, where the name was found: `ns_found` is read whether it was found or not.
unfoldable pub namespace_of : Option Bytes → Option Bytes → Outcome Bytes
namespace_of none ns_found = ok []
namespace_of (some name) none = undefined
namespace_of (some name) (some ns) = ok ns

abbrev pub empty_row : Row
empty_row = record { name = none; namespace = none; enclave = none }

abbrev add_row : Row → Option (List Row) → Option (List Row)
add_row row none = none
add_row row (some rows) = some (row ∷ rows)

copy_enclave : Row → Option Bytes → Bool → Option Row
copy_enclave row none copied = none
copy_enclave row (some enclave) copied =
    if copied then some (record row { enclave = some enclave }) else none

module _ {G Handle : Type 0} (dp : Participant G Handle) where
  -- The values of a participant's user data. There are none where DDS does not give it, and a null
  -- buffer has no bytes.
  unfoldable pub values_of : Handle → KeyValues
  values_of handle =
      let (code, user_data, key) = dp.get_discovered_participant_data handle in
      if is_dds_ok code then dp.parse_key_value (string_of user_data) else λ k. none

module _ (m : NamesMemory) where
  -- The three copies of one row. `none` where memory is out, or a null enclave is copied. The
  -- enclaves are left out where their array is null.
  unfoldable pub copy_row : Bool → ℕ → Bytes → Bytes → Option Bytes → Option Row
  unfolding copy_enclave
  copy_row has_enclaves i name ns enclave =
      let row : Row = record { name = some name; namespace = some ns; enclave = none } in
      if not (m.strdup names i) || not (m.strdup namespaces i)
      then none
      else if not has_enclaves
      then some row
      else copy_enclave row enclave (m.strdup enclaves i)

  -- The row of the node itself. The last argument is the enclave behind `context_`, or `none` where
  -- that object is gone, so that to read it is undefined.
  unfoldable pub own_row : Bool → Bytes → Bytes → Option (Option Bytes) → Outcome (Option Row)
  unfolding copy_row
  own_row has_enclaves name ns (some enclave) = ok (copy_row has_enclaves 0 name ns enclave)
  own_row false name ns none = ok (copy_row false 0 name ns none)
  own_row true name ns none =
      if not (m.strdup names 0) || not (m.strdup namespaces 0) then ok none else undefined

  -- One turn of the loop, on the values that are found.
  unfoldable pub discovered_row :
      Bool → ℕ → Option Bytes → Option Bytes → Option Bytes → Outcome (Option Row)
  unfolding copy_row
  discovered_row has_enclaves i name_found ns_found enclave_found = do
    ns ← namespace_of name_found ns_found
    ok (
        if is_empty (string_of name_found)
        then some empty_row
        else copy_row has_enclaves i (string_of name_found) ns (some (string_of enclave_found)))

  module _ {G Handle : Type 0} (dp : Participant G Handle) where
    -- The loop over the discovered participants; `none` where memory is out.
    discovered_rows : Bool → ℕ → List Handle → Outcome (Option (List Row))
    discovered_rows has_enclaves i [] = ok (some [])
    discovered_rows has_enclaves i (handle ∷ handles) =
        let values = values_of dp handle in
        let others = discovered_rows has_enclaves (i + 1) handles in
        do
          row ←
              discovered_row has_enclaves i (values (codes "name")) (values (codes "namespace"))
                (values (codes "enclave"))
          elim row [ none ↦ ok none | some r ↦ do rows ← others; ok (add_row r rows) ]

    -- The code, and the arrays; `none` where they are zero arrays, as they were or finalized. The
    -- first two arguments are the codes of `rmw_check_zero_rmw_string_array`.
    unfoldable pub get_names :
        RmwRet
        → RmwRet
        → Bool
        → Bytes
        → Bytes
        → Option (Option Bytes)
        → Outcome (RmwRet × Option (List Row))
    unfolding discovered_rows own_row
    get_names names_zero namespaces_zero has_enclaves name namespace context =
        let size = length dp.get_discovered_participants.1 + 1 in
        if not (is_rmw_ok names_zero) || not (is_rmw_ok namespaces_zero)
        then ok (RmwRet.invalid_argument, none)
        else if not (is_dds_ok dp.get_discovered_participants.0)
        then ok (RmwRet.error, none)
        else if not (m.string_array_init names size)
            || not (m.string_array_init namespaces size)
            || (has_enclaves && not (m.string_array_init enclaves size))
        then ok (RmwRet.error, none)
        else do
          made ← own_row has_enclaves name namespace context
          elim made [
            | none ↦ ok (RmwRet.error, none)
            | some own ↦ do
              rows ← discovered_rows has_enclaves 1 dp.get_discovered_participants.1
              elim (add_row own rows) [
                | none ↦ ok (RmwRet.error, none)
                | some all ↦ ok (RmwRet.ok, some all)
              ]
          ]
