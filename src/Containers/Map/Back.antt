-- ===== src/Containers/Map/Back.antt =====
-- Assignments that are taken back.
use rmw_opendds.Prelude.{◌≡◌, refl, none, some, [], ◌∷◌, arith}
use rmw_opendds.Order.{Order, same_key_iff, lt-same_key}
use rmw_opendds.Containers.Map.{Map, find, assign, erase, IsSorted, find-Above, Above-trans}

module _ {ℓ κ} {K : Type ℓ} {V : Type κ} ⦃o : Order K⦄ where
  erase_missing : (k : K) (m : Map K V) → find k m ≡ none → erase k m ≡ m
  unfolding find erase
  erase_missing k [] h = refl
  erase_missing k ((j, w) ∷ m) h = ground (arith, erase_missing k m, h)

  pub erase-assign : (k : K) (v : V) (m : Map K V) → find k m ≡ none → erase k (assign k v m) ≡ m
  unfolding find erase assign
  erase-assign k v [] h = ground (arith, same_key_iff k k)
  erase-assign k v ((j, w) ∷ m) h = ground (
    arith,
    h,
    erase-assign k v m,
    erase_missing k m,
    same_key_iff j k,
    same_key_iff k k,
    o.connected j k,
  )

  pub assign_again : (k : K) (v w : V) (m : Map K V) → assign k v (assign k w m) ≡ assign k v m
  unfolding assign
  assign_again k v w [] = ground (arith, o.irrefl k)
  assign_again k v w ((j, u) ∷ m) = ground (arith, o.irrefl k, assign_again k v w m)

  pub assign_found :
      (k : K) (v : V) (m : Map K V) → IsSorted m → find k m ≡ some v → assign k v m ≡ m
  unfolding find assign
  assign_found k v [] s h = cc
  assign_found k v ((j, w) ∷ m) s h = ground (
    arith,
    s,
    h,
    assign_found k v m s.1,
    same_key_iff j k,
    lt-same_key j k,
    o.irrefl k,
    o.connected j k,
    find-Above k m,
    Above-trans k j m,
  )
