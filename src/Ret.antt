-- ===== src/Ret.antt =====
-- The return codes of rmw and of DDS that the package reads or returns, and
-- `check_dds_ret_code` (rmw_opendds_cpp/src/event_converter.cpp) and `check_attach_condition_error`
-- (rmw_opendds_cpp/src/condition_error.cpp) between them.
use rmw_opendds.Prelude.{ℕ, Bool, true, false}

pub data RmwRet : Type 0 where
  ok error timeout unsupported bad_alloc invalid_argument : RmwRet
  incorrect_rmw_implementation node_name_non_existent : RmwRet

pub data DdsRet : Type 0 where
  ok error timeout no_data out_of_resources bad_parameter : DdsRet
  other : ℕ → DdsRet

unfoldable pub check_attach_condition_error : DdsRet → RmwRet
check_attach_condition_error DdsRet.ok = RmwRet.ok
check_attach_condition_error _ = RmwRet.error

unfoldable pub check_dds_ret_code : DdsRet → RmwRet
check_dds_ret_code DdsRet.ok = RmwRet.ok
check_dds_ret_code DdsRet.error = RmwRet.error
check_dds_ret_code DdsRet.timeout = RmwRet.timeout
check_dds_ret_code _ = RmwRet.error

-- The comparisons with RMW_RET_OK and RETCODE_OK.
abbrev pub is_rmw_ok : RmwRet → Bool
is_rmw_ok RmwRet.ok = true
is_rmw_ok _ = false

abbrev pub is_dds_ok : DdsRet → Bool
is_dds_ok DdsRet.ok = true
is_dds_ok _ = false
