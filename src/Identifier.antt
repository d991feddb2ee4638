-- ===== src/Identifier.antt =====
-- rmw_opendds_cpp/src/identifier.cpp: identifiers of implementations are compared as pointers.
use rmw_opendds.Prelude.{ℕ, Bool, true, false}

pub data Identifier : Type 0 where
  null opendds_identifier : Identifier
  other : ℕ → Identifier

unfoldable pub check_impl_id : Identifier → Bool
check_impl_id opendds_identifier = true
check_impl_id null = false
check_impl_id (other n) = false
