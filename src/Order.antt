-- ===== src/Order.antt =====
-- The `Compare` argument of `std::map`, `std::set` and `std::multiset`: a strict total order, given
-- as an instance. `std::less<std::string>` is one. `OpenDDS::DCPS::GUID_tKeyLessThan` is another,
-- which the package takes from OpenDDS: it is a parameter wherever GUIDs are keys.
pub mod Strings
use rmw_opendds.Prelude.{◌≡◌, refl, ◌↔◌, Bool, true, false, not, ◌&&◌, arith, Bool-cases, inl, inr}

pub record Order {ℓ} (K : Type ℓ) : Type ℓ where
  pub lt : K → K → Bool
  pub irrefl : (a : K) → lt a a ≡ false
  pub trans : (a b c : K) → lt a b ≡ true → lt b c ≡ true → lt a c ≡ true
  pub connected : (a b : K) → lt a b ≡ false → lt b a ≡ false → a ≡ b

module _ {ℓ} {K : Type ℓ} ⦃o : Order K⦄ where
  -- The equivalence by which the containers tell keys apart: neither is below the other.
  unfoldable pub same_key : K → K → Bool
  same_key a b = not (o.lt a b) && not (o.lt b a)

  pub same_key_iff : (a b : K) → (same_key a b ≡ true) ↔ (a ≡ b)
  unfolding same_key
  same_key_iff a b = ((λ h. ground (arith, o.connected a b)), λ h. ground (arith, h, o.irrefl b))

  pub same_key_refl : (a : K) → same_key a a ≡ true
  same_key_refl a = (same_key_iff a a).1 refl

  pub lt-same_key : (a b : K) → o.lt a b ≡ true → same_key a b ≡ false
  unfolding same_key
  lt-same_key a b h = ground arith

  pub asymm : (a b : K) → o.lt a b ≡ true → o.lt b a ≡ false
  asymm a b h = ground (arith, o.irrefl a, o.trans a b a)
