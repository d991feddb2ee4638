-- ===== src/Names/Demangle/Types.antt =====
-- Type names of messages and services.
use rmw_opendds.Prelude.{
  ℕ, ◌+◌, ◌≡◌, refl, some, ◌++◌, arith, ok, length, length-append, append_assoc,
}
use rmw_opendds.Text.{Bytes, codes, size_sub, index, substr}
use rmw_opendds.Text.Search.{Lacks, find-append-Lacks}
use rmw_opendds.Text.Pieces.{substr_first, substr_middle, index-append_last}
use rmw_opendds.Names.Mangle.{name, name-injective, create_type_name}
use rmw_opendds.Names.Demangle.{msg_marker, demangle_type_at, demangle_if_ros_type}

abbrev ros_type : Bytes → Bytes → Bytes
ros_type pkg ty = pkg ++ (msg_marker ++ (ty ++ codes "_"))

-- The piece between a marker and a suffix, at the offsets that the code computes.
pub substr_between :
    (pkg marker ty suffix : Bytes) (n : ℕ)
    → n ≡ length ty
    → substr (pkg ++ (marker ++ (ty ++ suffix))) (length pkg + length marker) n ≡ ok ty
substr_between pkg marker ty suffix n e =
    rw (← append_assoc pkg marker (ty ++ suffix))
      (substr_middle (pkg ++ marker) ty suffix _ n (rw length-append) e)

type_size :
    (pkg ty : Bytes)
    → size_sub (size_sub (length (ros_type pkg ty)) 1) (length pkg + length msg_marker) ≡ length ty
type_size pkg ty =
    ground
      (arith, length-append pkg (msg_marker ++ (ty ++ codes "_")), length-append ty (codes "_"))

demangle_type_at-ros_type :
    (pkg ty : Bytes) → demangle_type_at (ros_type pkg ty) (length pkg) ≡ ok (pkg ++ codes "/" ++ ty)
unfolding demangle_type_at
demangle_type_at-ros_type pkg ty = rw (
  substr_first pkg (msg_marker ++ (ty ++ codes "_")) (length pkg) refl,
  substr_between pkg msg_marker ty (codes "_") _ (type_size pkg ty),
)

index-ros_type :
    (pkg ty : Bytes) → index (ros_type pkg ty) (size_sub (length (ros_type pkg ty)) 1) ≡ ok b'_'
index-ros_type pkg ty =
    rw (← append_assoc msg_marker ty (codes "_"), ← append_assoc pkg (msg_marker ++ ty) (codes "_"))
      (index-append_last (pkg ++ (msg_marker ++ ty)) b'_')

demangle_if_ros_type-ros_type :
    (pkg ty : Bytes)
    → Lacks b':' pkg
    → demangle_if_ros_type (ros_type pkg ty) ≡ ok (pkg ++ codes "/" ++ ty)
unfolding demangle_if_ros_type
demangle_if_ros_type-ros_type pkg ty h =
    rw
      (index-ros_type pkg ty, find-append-Lacks pkg b':' (codes ":msg::dds_::") (ty ++ codes "_") h)
      (demangle_type_at-ros_type pkg ty)

-- The DDS name of the type of a message `ty` of package `pkg`, whose name has no colon, comes back
-- as `pkg/ty`.
pub demangle-create_type_name :
    (pkg ty dds_name : Bytes)
    → Lacks b':' pkg
    → create_type_name (some (pkg ++ codes "::msg", ty)) ≡ name dds_name
    → demangle_if_ros_type dds_name ≡ ok (pkg ++ codes "/" ++ ty)
unfolding create_type_name
demangle-create_type_name pkg ty dds_name h e =
    rw
      (
        ← name-injective e,
        append_assoc (pkg ++ codes "::msg" ++ codes "::dds_::") ty (codes "_"),
        append_assoc (pkg ++ codes "::msg") (codes "::dds_::") (ty ++ codes "_"),
        append_assoc pkg (codes "::msg") (codes "::dds_::" ++ (ty ++ codes "_")),
      )
      (demangle_if_ros_type-ros_type pkg ty h)
