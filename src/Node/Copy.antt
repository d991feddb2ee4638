-- ===== src/Node/Copy.antt =====
-- `copy_topic_names_types` and `copy_service_names_types` (rmw_opendds_cpp/src/OpenDDSNode.cpp).
use rmw_opendds.Prelude.{
  ℕ, ◌+◌, ◌≡◌, refl, Bool, true, not, Option, none, some, List, [], ◌∷◌, ◌++◌, if◌then◌else◌,
  is_empty, length, Outcome, ok, ◌>>=◌,
}
use rmw_opendds.Text.{Bytes, codes, find, substr, substr_from}
use rmw_opendds.Ret.{RmwRet, is_rmw_ok}
use rmw_opendds.Names.Demangle.{demangle_if_ros_topic, demangle_if_ros_type}
use rmw_opendds.TopicCache.{TopicsTypes}

-- What the calls of rcutils and rmw answer: `rmw_names_and_types_init` for a size, whether the n-th
-- `rcutils_strdup` of the call has memory, and `rcutils_string_array_init` for an index, as a code
-- of rmw.
pub record Memory : Type 0 where
  pub names_and_types_init : ℕ → RmwRet
  pub strdup : ℕ → Bool
  pub string_array_init : ℕ → RmwRet

-- All calls succeed.
pub record Plenty (m : Memory) : Type 0 where
  pub names : (n : ℕ) → m.names_and_types_init n ≡ RmwRet.ok
  pub strings : (n : ℕ) → m.strdup n ≡ true
  pub arrays : (n : ℕ) → m.string_array_init n ≡ RmwRet.ok

-- `rmw_names_and_types_t`: the names, each with its types.
abbrev pub NamesTypes : Type 0
NamesTypes = List (Bytes × List Bytes)

abbrev sample_prefix : Bytes
sample_prefix = codes "/Sample_"

strip_at : Bytes → Option ℕ → Outcome Bytes
strip_at type none = ok type
strip_at type (some n) = do
  before ← substr type 0 (n + 1)
  after ← substr_from type (n + length sample_prefix)
  ok (before ++ after)

unfoldable pub strip_sample_prefix : Bytes → Outcome Bytes
unfolding strip_at
strip_sample_prefix type = strip_at type (find sample_prefix type)

abbrev add_type : Bytes → Option (List Bytes) → Option (List Bytes)
add_type type_name none = none
add_type type_name (some types) = some (type_name ∷ types)

-- A name whose types ran out of memory ends the loop, whatever the names behind it.
abbrev add_entry :
    Bytes → Option (List Bytes) → Outcome (RmwRet × NamesTypes) → Outcome (RmwRet × NamesTypes)
add_entry name none others = ok (RmwRet.bad_alloc, [])
add_entry name (some types) others = do rest ← others; ok (rest.0, (name, types) ∷ rest.1)

module _ (m : Memory) where
  -- The types of one name, and the number of the next duplicate; `none` where memory is out.
  copy_types : (Bytes → Outcome Bytes) → List Bytes → ℕ → Outcome (Option (List Bytes) × ℕ)
  copy_types demangle_type [] n = ok (some [], n)
  copy_types demangle_type (type ∷ types) n = do
    type_name ← demangle_type type
    let rest = copy_types demangle_type types (n + 1) in
        if m.strdup n
        then (do copied ← rest; ok (add_type type_name copied.0, copied.1))
        else ok (none, n + 1)

  copy_entries :
      (Bytes → Outcome Bytes)
      → (Bytes → Outcome Bytes)
      → TopicsTypes
      → ℕ
      → ℕ
      → Outcome (RmwRet × NamesTypes)
  unfolding copy_types
  copy_entries demangle_name demangle_type [] index n = ok (RmwRet.ok, [])
  copy_entries demangle_name demangle_type ((key, types) ∷ rest) index n = do
    name ← demangle_name key
    if not (m.strdup n)
        then ok (RmwRet.bad_alloc, [])
        else if not (is_rmw_ok (m.string_array_init index))
        then ok (m.string_array_init index, [])
        else do
          copied ← copy_types demangle_type types (n + 1)
          add_entry name copied.0
              (copy_entries demangle_name demangle_type rest (index + 1) copied.1)

  -- A failure frees what was copied.
  copy :
      (Bytes → Outcome Bytes)
      → (Bytes → Outcome Bytes)
      → TopicsTypes
      → Outcome (RmwRet × NamesTypes)
  unfolding copy_entries
  copy demangle_name demangle_type ntm =
      if is_empty ntm
      then ok (RmwRet.ok, [])
      else if not (is_rmw_ok (m.names_and_types_init (length ntm)))
      then ok (m.names_and_types_init (length ntm), [])
      else do
        copied ← copy_entries demangle_name demangle_type ntm 0 0
        ok (copied.0, if is_rmw_ok copied.0 then copied.1 else [])

  unfoldable pub copy_topic_names_types : TopicsTypes → Bool → Outcome (RmwRet × NamesTypes)
  unfolding copy
  copy_topic_names_types ntm no_demangle =
      if no_demangle
      then copy (λ name. ok name) (λ type. ok type) ntm
      else copy demangle_if_ros_topic demangle_if_ros_type ntm

  unfoldable pub copy_service_names_types : TopicsTypes → Outcome (RmwRet × NamesTypes)
  unfolding copy
  copy_service_names_types ntm = copy (λ name. ok name) strip_sample_prefix ntm

  module _ (plenty : Plenty m) where
    copy_types_plenty :
        (types : List Bytes) (n : ℕ)
        → (next : ℕ) × (copy_types (λ type. ok type) types n ≡ ok (some types, next))
    unfolding copy_types
    copy_types_plenty [] n = (n, refl)
    copy_types_plenty (type ∷ types) n =
        let (next, e) = copy_types_plenty types (n + 1) in
        (next, rw (plenty.strings n, e, copy_types) refl)

    copy_entries_plenty :
        (ntm : TopicsTypes) (index n : ℕ)
        → copy_entries (λ name. ok name) (λ type. ok type) ntm index n ≡ ok (RmwRet.ok, ntm)
    unfolding copy_entries
    copy_entries_plenty [] index n = refl
    copy_entries_plenty ((key, types) ∷ rest) index n =
        let (next, e) = copy_types_plenty types (n + 1) in
        rw
          (
            plenty.strings n,
            plenty.arrays index,
            e,
            copy_entries_plenty rest (index + 1) next,
            copy_entries,
          )
          refl

    -- With memory enough, the names and types are copied as they are where they are not demangled.
    pub copy_topic_names_types_plenty :
        (ntm : TopicsTypes) → copy_topic_names_types ntm true ≡ ok (RmwRet.ok, ntm)
    unfolding copy_topic_names_types copy
    copy_topic_names_types_plenty [] = refl
    copy_topic_names_types_plenty (entry ∷ ntm) =
        rw (plenty.names (length (entry ∷ ntm)), copy_entries_plenty (entry ∷ ntm) 0 0, copy) refl
