-- ===== src/Names/Demangle/Total.antt =====
-- The calls of `substr`, `at` and `[]` in demangle.cpp.
use rmw_opendds.Prelude.{
  ℕ, ◌+◌, ◌≤◌, ◌<◌, ◌≡◌, refl, ◌≢◌, some, none, [], ◌∷◌, arith, ok, length, ◌==◌, ◌⊎◌, inl, inr,
  Option, Bool, get_elem?_of_lt, suc, zero, Option-cases, Outcome, out_of_range, undefined, ◌>>=◌,
  ◌↔◌, Returns, length-take,
}
use rmw_opendds.Text.{Bytes, codes, size_sub, find, rfind, substr, substr_from, index}
use rmw_opendds.Text.Search.{find-le, rfind-occurs, rfind-le}
use rmw_opendds.Names.Prefix.{get_ros_prefix_if_exists}
use rmw_opendds.Names.Demangle.{
  msg_marker, srv_marker, response_suffix, request_suffix, strip_suffix, suffix_of,
  demangle_type_at, demangle_type_if, demangle_if_ros_topic, demangle_if_ros_type,
  demangle_service_from_topic, find_suffix, service_type_at, demangle_service_type_only,
}

bind-Returns {ℓ κ} :
    {A : Type ℓ} {B : Type κ} (r : Outcome A) (f : A → Outcome B)
    → Returns r
    → ((a : A) → Returns (f a))
    → Returns (r >>= f)
bind-Returns (ok a) f h k = k a
bind-Returns out_of_range f h k = cc
bind-Returns undefined f h k = cc

demangle_if_ros_topic-Returns : (t : Bytes) → Returns (demangle_if_ros_topic t)
unfolding demangle_if_ros_topic substr_from
demangle_if_ros_topic-Returns [] = refl
demangle_if_ros_topic-Returns (a ∷ []) = ground arith
demangle_if_ros_topic-Returns (a ∷ b ∷ t) = ground arith

demangle_type_at-Returns : (t : Bytes) (i : ℕ) → i + 13 ≤ length t → Returns (demangle_type_at t i)
unfolding demangle_type_at substr
demangle_type_at-Returns t i h = ground arith

index-last-Returns : (c : ℕ) (t : Bytes) → Returns (index (c ∷ t) (size_sub (length (c ∷ t)) 1))
unfolding index
index-last-Returns c t = ground (arith, get_elem?_of_lt (c ∷ t) (length t))

demangle_type_if-Returns :
    (t : Bytes) (last : Bool) → Returns (demangle_type_if t last (find msg_marker t))
demangle_type_if-Returns t last = elim (Option-cases (find msg_marker t)) [
  | inl e ↦ unfold demangle_type_if in ground arith
  | inr (i, e) ↦
      unfold demangle_type_if in
      ground (arith, demangle_type_at-Returns t i, find-le msg_marker t i e)
]

pub demangle_if_ros_type-Returns : (t : Bytes) → t ≢ [] → Returns (demangle_if_ros_type t)
unfolding demangle_if_ros_type
demangle_if_ros_type-Returns [] h = absurd (h refl)
demangle_if_ros_type-Returns (c ∷ t) h =
    bind-Returns _ _ (index-last-Returns c t)
      λ last. demangle_type_if-Returns (c ∷ t) (last == b'_')

strip_suffix-Returns :
    (p t : Bytes) (i : ℕ) → length p ≤ i → i < length t → Returns (strip_suffix t p (some i))
unfolding strip_suffix substr
strip_suffix-Returns p t i h k = ground (arith, length-take (i + 1) t)

-- A suffix that starts with a capital letter stands behind the prefix.
suffix_behind :
    (a b c : ℕ) (p t : Bytes) (i : ℕ) → a ≢ c → b ≢ c → rfind (c ∷ p) (a ∷ b ∷ t) ≡ some i → 2 ≤ i
suffix_behind a b c p t zero h k e = ground (arith, rfind-occurs (c ∷ p) (a ∷ b ∷ t) 0 e)
suffix_behind a b c p t (suc zero) h k e = ground (arith, rfind-occurs (c ∷ p) (a ∷ b ∷ t) 1 e)
suffix_behind a b c p t (suc (suc i)) h k e = omega arith

strip_last-Returns :
    (x y a b c : ℕ) (p t : Bytes)
    → a ≢ c
    → b ≢ c
    → Returns (strip_suffix (a ∷ b ∷ t) (x ∷ y ∷ []) (rfind (c ∷ p) (a ∷ b ∷ t)))
strip_last-Returns x y a b c p t h k = elim (Option-cases (rfind (c ∷ p) (a ∷ b ∷ t))) [
  | inl e ↦ rw e (unfold strip_suffix in refl)
  | inr (i, e) ↦ rw e (
      strip_suffix-Returns (x ∷ y ∷ []) (a ∷ b ∷ t) i (suffix_behind a b c p t i h k e)
        (omega (arith, rfind-le (c ∷ p) (a ∷ b ∷ t) i e)))
]

abbrev IsService : ℕ → ℕ → Bytes → Type 0
IsService a b prefix = ((prefix ≡ codes "rq") ⊎ (prefix ≡ codes "rr")) × (a ≢ b'R') × (b ≢ b'R')

prefix_cases :
    (a b : ℕ) (t : Bytes)
    → let prefix = get_ros_prefix_if_exists (a ∷ b ∷ t) in
      (prefix ≡ []) ⊎ (prefix ≡ codes "rt") ⊎ IsService a b prefix
unfolding get_ros_prefix_if_exists
prefix_cases a b t = ground arith

strip_service-Returns :
    (a b : ℕ) (t prefix : Bytes)
    → IsService a b prefix
    → Returns (strip_suffix (a ∷ b ∷ t) prefix (rfind (suffix_of prefix) (a ∷ b ∷ t)))
unfolding suffix_of
strip_service-Returns a b t prefix (inl e, h, k) =
    rw e (strip_last-Returns b'r' b'q' a b b'R' (codes "equest") t h k)
strip_service-Returns a b t prefix (inr e, h, k) =
    rw e (strip_last-Returns b'r' b'r' a b b'R' (codes "eply") t h k)

pub demangle_service_from_topic-Returns : (t : Bytes) → Returns (demangle_service_from_topic t)
unfolding demangle_service_from_topic
demangle_service_from_topic-Returns [] = unfold get_ros_prefix_if_exists in refl
demangle_service_from_topic-Returns (a ∷ []) = unfold get_ros_prefix_if_exists in ground arith
demangle_service_from_topic-Returns (a ∷ b ∷ t) = elim (prefix_cases a b t) [
  | inl e ↦ rw e refl
  | inr (inl e) ↦ rw e refl
  | inr (inr (inl e, h, k)) ↦ rw e (strip_service-Returns a b t (codes "rq") (inl refl, h, k))
  | inr (inr (inr e, h, k)) ↦ rw e (strip_service-Returns a b t (codes "rr") (inr refl, h, k))
]

service_type_at-Returns :
    (t : Bytes) (i : ℕ) (o : Option ℕ) → i + 13 ≤ length t → Returns (service_type_at t i o)
unfolding service_type_at substr
service_type_at-Returns t i none h = refl
service_type_at-Returns t i (some j) h = ground arith

pub demangle_service_type_only-Returns : (t : Bytes) → Returns (demangle_service_type_only t)
unfolding demangle_service_type_only
demangle_service_type_only-Returns t = elim (Option-cases (find srv_marker t)) [
  | inl e ↦ ground arith
  | inr (i, e) ↦ ground (
    arith,
    find-le srv_marker t i e,
    service_type_at-Returns t i (find_suffix t (response_suffix ∷ request_suffix ∷ []) none),
  )
]

type-undefined_iff : (t : Bytes) → (demangle_if_ros_type t ≡ undefined) ↔ (t ≡ [])
type-undefined_iff [] = ((λ _. refl), λ _. unfold demangle_if_ros_type index in refl)
type-undefined_iff (c ∷ t) =
    ((λ e. cc (e, demangle_if_ros_type-Returns (c ∷ t) (λ x. cc x))), λ e. cc e)

type-Returns_iff : (t : Bytes) → Returns (demangle_if_ros_type t) ↔ (t ≢ [])
type-Returns_iff t = (
  (λ returns empty. cc (returns, (type-undefined_iff t).1 empty)),
  demangle_if_ros_type-Returns t,
)

-- Three of the four functions return on every text. `_demangle_if_ros_type` returns on exactly the
-- texts that are not empty; on the empty one its behaviour is undefined, as it reads the byte
-- before the text.
pub demangle_total :
    (t : Bytes)
    → Returns (demangle_if_ros_topic t)
      × Returns (demangle_service_from_topic t)
      × Returns (demangle_service_type_only t)
      × (Returns (demangle_if_ros_type t) ↔ (t ≢ []))
      × ((demangle_if_ros_type t ≡ undefined) ↔ (t ≡ []))
demangle_total t = (
  demangle_if_ros_topic-Returns t,
  demangle_service_from_topic-Returns t,
  demangle_service_type_only-Returns t,
  type-Returns_iff t,
  type-undefined_iff t,
)
