-- ===== src/Containers/Map/Entries.antt =====
-- Loops over the entries of a map, against `find`.
use rmw_opendds.Prelude.{
  ℕ, ◌+◌, ◌≡◌, refl, Bool, true, false, ◌||◌, none, some, [], ◌∷◌, arith, if◌then◌else◌, Bool-cases,
  inl, inr,
}
use rmw_opendds.Order.{Order, same_key_iff, same_key_refl, lt-same_key}
use rmw_opendds.Containers.Map.{Map, find, assign, erase, IsSorted, Above, find-Above}

module _ {ℓ κ} {K : Type ℓ} {V : Type κ} ⦃o : Order K⦄ where
  unfoldable pub any_entry : (V → Bool) → Map K V → Bool
  any_entry P [] = false
  any_entry P ((k, v) ∷ m) = P v || any_entry P m

  -- How many entries pass the test.
  unfoldable pub count_if : (V → Bool) → Map K V → ℕ
  count_if P [] = 0
  count_if P ((k, v) ∷ m) = (if P v then 1 else 0) + count_if P m

  pub any_entry-find :
      (P : V → Bool) (m : Map K V)
      → IsSorted m
      → any_entry P m ≡ true
      → (k : K) × (v : V) × (find k m ≡ some v) × (P v ≡ true)
  unfolding any_entry find
  any_entry-find P [] s h = cc
  any_entry-find P ((j, w) ∷ m) s h = elim (Bool-cases (P w)) [
    | inl here ↦ (j, w, ground (arith, same_key_refl j), here)
    | inr not_here ↦
        let (k, v, found, p) = any_entry-find P m s.1 (ground arith) in
        (k, v, ground (arith, same_key_iff j k, find-Above j m s.0), p)
  ]

  pub any_entry-of_find :
      (P : V → Bool) (m : Map K V) (k : K) (v : V)
      → find k m ≡ some v
      → P v ≡ true
      → any_entry P m ≡ true
  unfolding any_entry find
  any_entry-of_find P [] k v found p = cc
  any_entry-of_find P ((j, w) ∷ m) k v found p = ground (arith, any_entry-of_find P m k v)

  pub count_if-assign :
      (P : V → Bool) (k : K) (v : V) (m : Map K V)
      → find k m ≡ none
      → count_if P (assign k v m) ≡ (if P v then 1 else 0) + count_if P m
  unfolding count_if assign find
  count_if-assign P k v [] h = refl
  count_if-assign P k v ((j, w) ∷ m) h =
      ground (arith, count_if-assign P k v m, same_key_iff j k, o.connected j k)

  erase-Above : (k : K) (m : Map K V) → Above k m → erase k m ≡ m
  unfolding erase
  erase-Above k [] a = refl
  erase-Above k ((j, w) ∷ m) a =
      ground (arith, erase-Above k m a.1, same_key_iff j k, lt-same_key k j)

  pub count_if-erase :
      (P : V → Bool) (k : K) (v : V) (m : Map K V)
      → IsSorted m
      → find k m ≡ some v
      → (if P v then 1 else 0) + count_if P (erase k m) ≡ count_if P m
  unfolding count_if erase find
  count_if-erase P k v [] s h = cc
  count_if-erase P k v ((j, w) ∷ m) s h =
      ground (arith, count_if-erase P k v m s.1, same_key_iff j k, erase-Above j m s.0)
