-- ===== src/Tests/Handles.antt =====
-- Gids at concrete inputs.
use rmw_opendds.Prelude.{◌≡◌, ◌↔◌, true, false, some}
use rmw_opendds.Identifier.{opendds_identifier}
use rmw_opendds.Ret.{RmwRet}
use rmw_opendds.Gids.{Gid, compare_gids_equal, compare_gids_equal_iff}

abbrev gid : Gid
gid = record { implementation_identifier = opendds_identifier; publication_handle = 7 }

compare_gids_equal_example :
    (compare_gids_equal (some gid) (some gid) (some false) ≡ (RmwRet.ok, some true))
    ↔ (gid ≡ gid) × (gid.implementation_identifier ≡ opendds_identifier)
compare_gids_equal_example = compare_gids_equal_iff gid gid false
