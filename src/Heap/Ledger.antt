-- ===== src/Heap/Ledger.antt =====
-- The addresses that `rmw_allocate` gave out and `rmw_free` has not taken back.
use rmw_opendds.Prelude.{
  ℕ, ◌+◌, ◌==◌, ◌≡◌, refl, Bool, true, false, Option, none, some, List, [], ◌∷◌, if◌then◌else◌,
  Outcome, ok, undefined, ◌>>=◌, arith,
}

-- The state of the process: the allocations, and the world of what else the calls change.
pub record Heap (W : Type 0) : Type 0 where
  pub next : ℕ
  pub live : List ℕ
  pub world : W

-- The list without the first occurrence of the address, if it has one.
unfoldable pub drop_address : ℕ → List ℕ → Outcome (List ℕ)
drop_address a [] = undefined
drop_address a (b ∷ rest) =
    let others = drop_address a rest in if a == b then ok rest else do kept ← others; ok (b ∷ kept)

module _ {W : Type 0} where
  unfoldable pub allocate : (ℕ → Bool) → Heap W → Option ℕ × Heap W
  allocate memory heap =
      if memory heap.next
      then (some heap.next, record heap { next = heap.next + 1; live = heap.next ∷ heap.live })
      else (none, record heap { next = heap.next + 1 })

  unfoldable pub free : ℕ → Heap W → Outcome (Heap W)
  unfolding drop_address
  free a heap = do kept ← drop_address a heap.live; ok (record heap { live = kept })

-- The latest allocation is found at once.
drop_address-cons : (a : ℕ) (live : List ℕ) → drop_address a (a ∷ live) ≡ ok live
unfolding drop_address
drop_address-cons a live = ground arith

pub free_latest :
    {W : Type 0} (a : ℕ) (live : List ℕ) (heap : Heap W)
    → heap.live ≡ a ∷ live
    → free a heap ≡ ok (record heap { live = live })
unfolding free
free_latest a live heap h = rw (h, drop_address-cons a live)

module _ {W : Type 0} (memory : ℕ → Bool) (heap : Heap W) where
  pub allocate-some :
      memory heap.next ≡ true
      → allocate memory heap
        ≡ (some heap.next, record heap { next = heap.next + 1; live = heap.next ∷ heap.live })
  unfolding allocate
  allocate-some e = rw e refl

  pub allocate-none :
      memory heap.next ≡ false → allocate memory heap ≡ (none, record heap { next = heap.next + 1 })
  unfolding allocate
  allocate-none e = rw e refl
