-- ===== src/Names/Demangle/Services.antt =====
-- Service names and service types, from the names in DDS to the names in ROS.
use native.Mathlib.Decide.{ℕ_discrete}
use rmw_opendds.Prelude.{
  ℕ, ◌+◌, ◌≡◌, refl, true, false, some, none, [], ◌∷◌, ◌++◌, arith, ok, length, length-append,
  append_assoc, ◌==◌, inl, inr, drop, suc, zero, drop-append_eq, Option-cases,
}
use rmw_opendds.Text.{Bytes, codes, size_sub, rfind, starts_with}
use rmw_opendds.Text.Search.{Lacks, find-append-Lacks, rfind-append_self, rfind-occurs, rfind-le}
use rmw_opendds.Text.Pieces.{substr_first, substr_middle}
use rmw_opendds.Names.Prefix.{get_ros_prefix_if_exists}
use rmw_opendds.Names.Mangle.{
  name, name-injective, create_request_name, create_reply_name, create_topic_name,
}
use rmw_opendds.Names.Demangle.{
  srv_marker, response_suffix, request_suffix, strip_suffix, demangle_service_from_topic,
  find_suffix, service_type_at, demangle_service_type_only,
}
use rmw_opendds.Names.Demangle.Types.{substr_between}

-- The part of a topic name between its prefix, two bytes long, and its suffix.
strip_suffix-append :
    (a b : ℕ) (service suffix : Bytes) (c : ℕ)
    → strip_suffix
        (a ∷ b ∷ (service ++ c ∷ suffix))
        (a ∷ b ∷ [])
        (some (suc (suc (length service))))
      ≡ ok service
unfolding strip_suffix
strip_suffix-append a b service suffix c = rw (
  ← append_assoc service (c ∷ []) suffix,
  substr_first (a ∷ b ∷ (service ++ c ∷ [])) suffix (suc (suc (length service)) + 1)
      (ground (arith, length-append service (c ∷ []))),
  substr_middle (a ∷ b ∷ []) service (c ∷ []) 2
      (size_sub (size_sub (length (a ∷ b ∷ (service ++ c ∷ []))) 1) 2) refl
      (ground (arith, length-append service (c ∷ []))),
)

-- The DDS name that a request topic gets under the ROS conventions, for a service name that starts
-- with a slash, gives back the name of the service.
pub demangle-create_request_name :
    (rest dds_name : Bytes)
    → create_request_name (b'/' ∷ rest) (some false) ≡ name dds_name
    → demangle_service_from_topic dds_name ≡ ok (b'/' ∷ rest)
unfolding create_request_name demangle_service_from_topic get_ros_prefix_if_exists
demangle-create_request_name rest dds_name e =
    rw (← name-injective e, rfind-append_self (b'r' ∷ b'q' ∷ b'/' ∷ rest) b'R' (codes "equest"))
      (strip_suffix-append b'r' b'q' (b'/' ∷ rest) (codes "equest") b'R')

-- The DDS name that a reply topic gets under the ROS conventions, for a service name that starts
-- with a slash, gives back the name of the service.
pub demangle-create_reply_name :
    (rest dds_name : Bytes)
    → create_reply_name (b'/' ∷ rest) (some false) ≡ name dds_name
    → demangle_service_from_topic dds_name ≡ ok (b'/' ∷ rest)
unfolding create_reply_name demangle_service_from_topic get_ros_prefix_if_exists
demangle-create_reply_name rest dds_name e =
    rw (← name-injective e, rfind-append_self (b'r' ∷ b'r' ∷ b'/' ∷ rest) b'R' (codes "eply"))
      (strip_suffix-append b'r' b'r' (b'/' ∷ rest) (codes "eply") b'R')

-- The DDS name that a topic gets under the ROS conventions, for a topic name that starts with a
-- slash, is not that of a service: the name of the service comes out empty.
pub demangle_service-create_topic_name :
    (rest dds_name : Bytes)
    → create_topic_name (some (b'/' ∷ rest)) (some false) ≡ name dds_name
    → demangle_service_from_topic dds_name ≡ ok []
unfolding create_topic_name demangle_service_from_topic get_ros_prefix_if_exists
demangle_service-create_topic_name rest dds_name e = rw (← name-injective e) refl

abbrev pub srv_type : Bytes → Bytes → Bytes → Bytes
srv_type pkg ty suffix = pkg ++ (srv_marker ++ (ty ++ suffix))

pub service_type_at-srv_type :
    (pkg ty suffix : Bytes)
    → service_type_at
        (srv_type pkg ty suffix)
        (length pkg)
        (some (length pkg + length srv_marker + length ty))
      ≡ ok (pkg ++ codes "/" ++ ty)
unfolding service_type_at
service_type_at-srv_type pkg ty suffix = rw (
  substr_first pkg (srv_marker ++ (ty ++ suffix)) (length pkg) refl,
  substr_between pkg srv_marker ty suffix
      (size_sub (length pkg + length srv_marker + length ty) (length pkg + length srv_marker))
      (ground arith),
)

rfind-srv_type :
    (pkg ty : Bytes) (c : ℕ) (p : Bytes)
    → rfind (c ∷ p) (srv_type pkg ty (c ∷ p)) ≡ some (length pkg + length srv_marker + length ty)
rfind-srv_type pkg ty c p =
    rw
      (
        ← append_assoc srv_marker ty (c ∷ p),
        ← append_assoc pkg (srv_marker ++ ty) (c ∷ p),
        rfind-append_self (pkg ++ (srv_marker ++ ty)) c p,
      )
      (ground (arith, length-append pkg (srv_marker ++ ty)))

pub length-srv_type :
    (pkg ty suffix : Bytes)
    → length (srv_type pkg ty suffix) ≡ length pkg + length srv_marker + length ty + length suffix
length-srv_type pkg ty suffix =
    ground (arith, length-append pkg (srv_marker ++ (ty ++ suffix)), length-append ty suffix)

starts_with-tail :
    (c : ℕ) (p s : Bytes) (n : ℕ)
    → starts_with (c ∷ p) (drop n s) ≡ true
    → starts_with p (drop (suc n) s) ≡ true
starts_with-tail c p [] zero h = cc
starts_with-tail c p [] (suc n) h = cc
starts_with-tail c p (d ∷ s) zero h = ground arith
starts_with-tail c p (d ∷ s) (suc n) h = starts_with-tail c p s n h

drop-srv_type :
    (pkg ty suffix : Bytes)
    → drop (length pkg + length srv_marker + length ty) (srv_type pkg ty suffix) ≡ suffix
drop-srv_type pkg ty suffix =
    rw (← append_assoc srv_marker ty suffix, ← append_assoc pkg (srv_marker ++ ty) suffix)
      (drop-append_eq _ (pkg ++ (srv_marker ++ ty)) suffix
        (ground (arith, length-append pkg (srv_marker ++ ty))))

-- A type that ends in `_Request_` does not end in `_Response_`.
not_response_end :
    (pkg ty : Bytes) (i : ℕ)
    → rfind response_suffix (srv_type pkg ty request_suffix) ≡ some i
    → (size_sub (size_sub (length (srv_type pkg ty request_suffix)) i) (length response_suffix)
        == 0)
      ≡ false
not_response_end pkg ty i h =
    elim (ℕ_discrete (suc i) (length pkg + length srv_marker + length ty)) [
      | yes e ↦ cc (tail, e, drop-srv_type pkg ty request_suffix)
      | no e ↦ ground (arith, length-srv_type pkg ty request_suffix, rfind-le response_suffix _ i h)
    ]
  where
    tail : starts_with (codes "Response_") (drop (suc i) (srv_type pkg ty request_suffix)) ≡ true
    tail = starts_with-tail b'_' (codes "Response_") _ i (rfind-occurs _ _ i h)

suffix_position-response :
    (pkg ty : Bytes)
    → find_suffix (srv_type pkg ty response_suffix) (response_suffix ∷ request_suffix ∷ []) none
      ≡ some (length pkg + length srv_marker + length ty)
unfolding find_suffix
suffix_position-response pkg ty =
    ground (
      arith,
      rfind-srv_type pkg ty b'_' (codes "Response_"),
      length-srv_type pkg ty response_suffix,
    )

suffix_position-request :
    (pkg ty : Bytes)
    → find_suffix (srv_type pkg ty request_suffix) (response_suffix ∷ request_suffix ∷ []) none
      ≡ some (length pkg + length srv_marker + length ty)
unfolding find_suffix
suffix_position-request pkg ty =
    let found = rfind-srv_type pkg ty b'_' (codes "Request_") in
    let size = length-srv_type pkg ty request_suffix in
    elim (Option-cases (rfind response_suffix (srv_type pkg ty request_suffix))) [
      | inl e ↦ ground (arith, found, size)
      | inr (i, e) ↦ ground (arith, found, size, not_response_end pkg ty i e)
    ]

pub service_type_only-srv_type :
    (pkg ty suffix : Bytes)
    → Lacks b':' pkg
    → find_suffix (srv_type pkg ty suffix) (response_suffix ∷ request_suffix ∷ []) none
      ≡ some (length pkg + length srv_marker + length ty)
    → demangle_service_type_only (srv_type pkg ty suffix) ≡ ok (pkg ++ codes "/" ++ ty)
unfolding demangle_service_type_only
service_type_only-srv_type pkg ty suffix h e =
    rw (find-append-Lacks pkg b':' (codes ":srv::dds_::") (ty ++ suffix) h, e)
      (service_type_at-srv_type pkg ty suffix)

-- For a package without a colon in its name, the request type and the reply type of a service both
-- come back as the type of the service.
pub demangle_service_type-srv_type :
    (pkg ty : Bytes)
    → Lacks b':' pkg
    → (demangle_service_type_only (srv_type pkg ty request_suffix) ≡ ok (pkg ++ codes "/" ++ ty))
      × (demangle_service_type_only (srv_type pkg ty response_suffix) ≡ ok (pkg ++ codes "/" ++ ty))
demangle_service_type-srv_type pkg ty h = (
  service_type_only-srv_type pkg ty request_suffix h (suffix_position-request pkg ty),
  service_type_only-srv_type pkg ty response_suffix h (suffix_position-response pkg ty),
)
