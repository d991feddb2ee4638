-- ===== src/Gids.antt =====
-- `rmw_compare_gids_equal` (rmw_opendds_cpp/src/rmw_compare_gid_equals.cpp).
use rmw_opendds.Prelude.{
  ℕ, ◌≡◌, ◌↔◌, Bool, true, not, arith, Option, none, some, ◌==◌, if◌then◌else◌,
}
use rmw_opendds.Identifier.{Identifier, opendds_identifier, check_impl_id}
use rmw_opendds.Ret.{RmwRet}

-- `rmw_gid_t`, whose data is an OpenDDSPublisherGID: an instance handle is a number. The data is an
-- array of the struct, so that the tests of its address do not fail.
pub record Gid : Type 0 where
  pub implementation_identifier : Identifier
  pub publication_handle : ℕ

-- The code, and `*result`; `none` is a null pointer.
unfoldable pub compare_gids_equal : Option Gid → Option Gid → Option Bool → RmwRet × Option Bool
compare_gids_equal none gid2 result = (RmwRet.invalid_argument, result)
compare_gids_equal (some gid1) none result = (RmwRet.invalid_argument, result)
compare_gids_equal (some gid1) (some gid2) none = (RmwRet.invalid_argument, none)
compare_gids_equal (some gid1) (some gid2) (some result) =
    if not (check_impl_id gid1.implementation_identifier)
    then (RmwRet.incorrect_rmw_implementation, some result)
    else if not (check_impl_id gid2.implementation_identifier)
    then (RmwRet.incorrect_rmw_implementation, some result)
    else (RmwRet.ok, some (gid1.publication_handle == gid2.publication_handle))

-- Where no pointer is null, the gids compare equal exactly if they are the same and have the
-- identifier of the package.
pub compare_gids_equal_iff :
    (a b : Gid) (result : Bool)
    → (compare_gids_equal (some a) (some b) (some result) ≡ (RmwRet.ok, some true))
      ↔ (a ≡ b) × (a.implementation_identifier ≡ opendds_identifier)
unfolding compare_gids_equal check_impl_id
compare_gids_equal_iff a b result = ((λ h. ground arith), λ h. ground (arith, h.0, h.1))
