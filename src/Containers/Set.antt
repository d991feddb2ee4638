-- ===== src/Containers/Set.antt =====
-- `std::set<K>`
use rmw_opendds.Prelude.{◌≡◌, refl, Bool, false, ◌||◌, List, [], ◌∷◌, arith, if◌then◌else◌}
use rmw_opendds.Order.{Order, same_key}

module _ {ℓ} {K : Type ℓ} ⦃o : Order K⦄ where
  unfoldable pub contains : K → List K → Bool
  contains k [] = false
  contains k (j ∷ s) = same_key j k || contains k s

  unfoldable pub insert : K → List K → List K
  insert k [] = k ∷ []
  insert k (j ∷ s) = if o.lt k j then k ∷ j ∷ s else if o.lt j k then j ∷ insert k s else j ∷ s

  pub contains-insert :
      (k j : K) (s : List K) → contains j (insert k s) ≡ same_key k j || contains j s
  unfolding contains insert
  contains-insert k j [] = refl
  contains-insert k j (i ∷ s) = ground (arith, contains-insert k j s, o.connected i k)
