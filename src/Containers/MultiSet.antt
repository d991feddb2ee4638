-- ===== src/Containers/MultiSet.antt =====
-- `std::multiset<K>`
use rmw_opendds.Prelude.{
  ℕ, ◌+◌, ◌-◌, ◌≡◌, refl, Bool, false, ◌||◌, List, [], ◌∷◌, arith, if◌then◌else◌, ltb,
}
use rmw_opendds.Order.{Order, same_key, same_key_iff}

module _ {ℓ} {K : Type ℓ} ⦃o : Order K⦄ where
  -- `s.count(k)`
  unfoldable pub count : K → List K → ℕ
  count k [] = 0
  count k (j ∷ s) = (if same_key j k then 1 else 0) + count k s

  -- `s.find(k) != s.end()`
  unfoldable pub contains : K → List K → Bool
  contains k [] = false
  contains k (j ∷ s) = same_key j k || contains k s

  -- At the upper bound of its equals.
  unfoldable pub insert : K → List K → List K
  insert k [] = k ∷ []
  insert k (j ∷ s) = if o.lt k j then k ∷ j ∷ s else j ∷ insert k s

  -- `s.erase(s.find(k))`: one element goes.
  unfoldable pub erase_one : K → List K → List K
  erase_one k [] = []
  erase_one k (j ∷ s) = if same_key j k then s else j ∷ erase_one k s

  pub count-insert :
      (k j : K) (s : List K) → count j (insert k s) ≡ (if same_key k j then 1 else 0) + count j s
  unfolding count insert
  count-insert k j [] = refl
  count-insert k j (i ∷ s) = ground (arith, count-insert k j s)

  pub count-erase_one :
      (k j : K) (s : List K) → count j (erase_one k s) ≡ count j s - (if same_key k j then 1 else 0)
  unfolding count erase_one
  count-erase_one k j [] = ground arith
  count-erase_one k j (i ∷ s) =
      ground (arith, count-erase_one k j s, same_key_iff i k, same_key_iff i j, same_key_iff k j)

  pub contains-count : (k : K) (s : List K) → contains k s ≡ ltb 0 (count k s)
  unfolding contains count
  contains-count k [] = refl
  contains-count k (j ∷ s) = ground (arith, contains-count k s)

  pub erase_one-insert : (k : K) (s : List K) → count k s ≡ 0 → erase_one k (insert k s) ≡ s
  unfolding count insert erase_one
  erase_one-insert k [] h = ground (arith, same_key_iff k k)
  erase_one-insert k (j ∷ s) h =
      ground (arith, h, erase_one-insert k s, same_key_iff k k, same_key_iff j k)
