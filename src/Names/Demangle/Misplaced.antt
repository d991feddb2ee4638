-- ===== src/Names/Demangle/Misplaced.antt =====
-- A service type whose last suffix is followed by more text.
use rmw_opendds.Prelude.{
  ◌+◌, ◌≡◌, some, none, [], ◌∷◌, ◌++◌, arith, ok, length, length-append, append_assoc,
}
use rmw_opendds.Text.{Bytes, codes, rfind}
use rmw_opendds.Text.Search.{Lacks, rfind-append, starts_with-Lacks, rfind-Lacks}
use rmw_opendds.Names.Demangle.{
  srv_marker, response_suffix, request_suffix, find_suffix, demangle_service_type_only,
}
use rmw_opendds.Names.Demangle.Services.{srv_type, service_type_only-srv_type}

rfind-request :
    (rest : Bytes) → Lacks b'_' rest → rfind request_suffix (request_suffix ++ rest) ≡ some 0
unfolding rfind
rfind-request rest h = ground (
  arith,
  rfind-Lacks b'_' (codes "Request_") rest h,
  starts_with-Lacks (codes "Request") b'_' rest h,
)

rfind-misplaced :
    (pkg ty rest : Bytes)
    → Lacks b'_' rest
    → rfind request_suffix (srv_type pkg ty (request_suffix ++ rest))
      ≡ some (length pkg + length srv_marker + length ty)
rfind-misplaced pkg ty rest k =
    rw
      (
        ← append_assoc srv_marker ty (request_suffix ++ rest),
        ← append_assoc pkg (srv_marker ++ ty) (request_suffix ++ rest),
        rfind-append (pkg ++ (srv_marker ++ ty)) request_suffix _ 0 (rfind-request rest k),
      )
      (ground (arith, length-append pkg (srv_marker ++ ty)))

suffix_position-misplaced :
    (pkg ty rest : Bytes)
    → Lacks b'_' rest
    → rfind response_suffix (srv_type pkg ty (request_suffix ++ rest)) ≡ none
    → find_suffix
        (srv_type pkg ty (request_suffix ++ rest))
        (response_suffix ∷ request_suffix ∷ [])
        none
      ≡ some (length pkg + length srv_marker + length ty)
unfolding find_suffix
suffix_position-misplaced pkg ty rest k e = ground (arith, rfind-misplaced pkg ty rest k)

-- A request suffix that is not at the end is taken for the suffix all the same: the text behind it
-- is dropped, for a package without a colon and a text without an underscore, where the whole type
-- has no `_Response_`.
pub misplaced_suffix_accepted :
    (pkg ty rest : Bytes)
    → Lacks b':' pkg
    → Lacks b'_' rest
    → rfind response_suffix (srv_type pkg ty (request_suffix ++ rest)) ≡ none
    → demangle_service_type_only (srv_type pkg ty (request_suffix ++ rest))
      ≡ ok (pkg ++ codes "/" ++ ty)
misplaced_suffix_accepted pkg ty rest h k e =
    service_type_only-srv_type pkg ty (request_suffix ++ rest) h
      (suffix_position-misplaced pkg ty rest k e)
