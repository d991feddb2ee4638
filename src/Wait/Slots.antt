-- ===== src/Wait/Slots.antt =====
-- The loops of `wait` over its arrays: what they attach, and what they reset.
use rmw_opendds.Prelude.{
  ◌≡◌, refl, Bool, true, false, arith, Option, none, some, List, [], ◌∷◌, map, if◌then◌else◌, inl,
  inr, Option-cases,
}
use rmw_opendds.Ret.{RmwRet, is_rmw_ok, check_attach_condition_error}
use rmw_opendds.WaitSets.{Dds, Endpoint, Request}
use rmw_opendds.Wait.{
  attach_endpoints, attach_guards, attach_all, attach_array, reset_endpoints, reset_guards,
  reset_all, reset_array, reset_guard_array, index_of, is_active, is_in, set,
}

-- RMW_RET_OK and RMW_RET_TIMEOUT, the answers of a wait that did not fail.
abbrev pub has_waited : RmwRet → Bool
has_waited RmwRet.ok = true
has_waited RmwRet.timeout = true
has_waited _ = false

module _ {C D W : Type 0} (dds : Dds C D W) where
  -- A pointer is kept if its condition is active.
  abbrev pub keep : List C → Option (Endpoint C) → Option (Endpoint C)
  keep active none = none
  keep active (some info) = elim (info.read_condition) [
    | none ↦ none
    | some c ↦ if is_in dds c active then some info else none
  ]

  abbrev pub keep_guard : List C → Option C → Option C
  keep_guard active none = none
  keep_guard active (some c) = if is_in dds c active then some c else none

  abbrev pub keep_all : {A : Type 0} → (A → A) → Option (List A) → Option (List A)
  keep_all f none = none
  keep_all f (some slots) = some (map f slots)

  -- The two searches agree.
  is_active-eq-is_in : (active : List C) (c : C) → is_active dds active c ≡ is_in dds c active
  unfolding is_active index_of is_in
  is_active-eq-is_in [] c = refl
  is_active-eq-is_in (a ∷ active) c = ground (arith, is_active-eq-is_in active c)

  reset_endpoints-keep :
      (active : List C) (slots : List (Option (Endpoint C)))
      → is_rmw_ok (reset_endpoints dds active slots).0 ≡ true
      → (reset_endpoints dds active slots).1 ≡ map (keep active) slots
  unfolding reset_endpoints
  reset_endpoints-keep active [] h = refl
  reset_endpoints-keep active (none ∷ rest) h = cc
  reset_endpoints-keep active (some info ∷ rest) h = elim (Option-cases info.read_condition) [
    | inl e ↦ ground (arith, e)
    | inr (c, e) ↦ ground (arith, e, reset_endpoints-keep active rest, is_active-eq-is_in active c)
  ]

  reset_guards-keep :
      (active : List C) (slots : List (Option C)) (w : W)
      → is_rmw_ok (reset_guards dds active slots w).0 ≡ true
      → (reset_guards dds active slots w).1 ≡ map (keep_guard active) slots
  unfolding reset_guards set
  reset_guards-keep active [] w h = refl
  reset_guards-keep active (none ∷ rest) w h = cc
  reset_guards-keep active (some c ∷ rest) w h = ground (
    arith,
    reset_guards-keep active rest w,
    reset_guards-keep active rest (dds.set_trigger_value c false w).1,
  )

  -- The request whose pointers are kept where their conditions are active.
  abbrev pub kept : List C → Request C D → Request C D
  kept active r = record r {
    subscriptions = keep_all (keep active) r.subscriptions;
    guard_conditions = keep_all (keep_guard active) r.guard_conditions;
    services = keep_all (keep active) r.services;
    clients = keep_all (keep active) r.clients;
  }

  -- An attaching loop answers RMW_RET_OK or RMW_RET_ERROR.
  attach_endpoints-ret :
      (slots : List (Option (Endpoint C))) (w : W)
      → has_waited (attach_endpoints dds slots w).0 ≡ is_rmw_ok (attach_endpoints dds slots w).0
  unfolding attach_endpoints check_attach_condition_error
  attach_endpoints-ret [] w = refl
  attach_endpoints-ret (none ∷ rest) w = refl
  attach_endpoints-ret (some info ∷ rest) w = elim (Option-cases info.read_condition) [
    | inl e ↦ ground (arith, e)
    | inr (c, e) ↦ ground (arith, e, attach_endpoints-ret rest (dds.attach_condition c w).1)
  ]

  attach_guards-ret :
      (slots : List (Option C)) (w : W)
      → has_waited (attach_guards dds slots w).0 ≡ is_rmw_ok (attach_guards dds slots w).0
  unfolding attach_guards check_attach_condition_error
  attach_guards-ret [] w = refl
  attach_guards-ret (none ∷ rest) w = refl
  attach_guards-ret (some c ∷ rest) w =
      ground (arith, attach_guards-ret rest (dds.attach_condition c w).1)

  attach_array-ret :
      {A : Type 0} (attach : List A → W → RmwRet × W) (array : Option (List A)) (p : RmwRet × W)
      → ((slots : List A) (w : W) → has_waited (attach slots w).0 ≡ is_rmw_ok (attach slots w).0)
      → has_waited p.0 ≡ is_rmw_ok p.0
      → has_waited (attach_array dds attach array p).0
        ≡ is_rmw_ok (attach_array dds attach array p).0
  attach_array-ret attach none p k h = h
  attach_array-ret attach (some slots) (ret, w) k h = ground (arith, k slots w, h)

  pub attach_all-ret :
      (r : Request C D) (w : W)
      → has_waited (attach_all dds r w).0 ≡ is_rmw_ok (attach_all dds r w).0
  unfolding attach_all
  attach_all-ret r w = attach_array-ret _ r.clients _ attach_endpoints-ret (
      attach_array-ret _ r.services _ attach_endpoints-ret (
        attach_array-ret _ r.guard_conditions _ attach_guards-ret
          (attach_array-ret _ r.subscriptions (RmwRet.ok, w) attach_endpoints-ret refl)))

  reset_array-keep :
      {A : Type 0} (reset : List A → RmwRet × List A) (f : A → A) (ret : RmwRet)
      (array : Option (List A))
      → ((slots : List A) → is_rmw_ok (reset slots).0 ≡ true → (reset slots).1 ≡ map f slots)
      → is_rmw_ok (reset_array dds reset ret array).0 ≡ true
      → (is_rmw_ok ret ≡ true) × ((reset_array dds reset ret array).1 ≡ keep_all f array)
  reset_array-keep reset f ret none k h = (h, refl)
  reset_array-keep reset f ret (some slots) k h = ground (arith, k slots)

  reset_guard_array-keep :
      (active : List C) (ret : RmwRet) (array : Option (List (Option C))) (w : W)
      → is_rmw_ok (reset_guard_array dds active ret array w).0 ≡ true
      → (is_rmw_ok ret ≡ true)
        × ((reset_guard_array dds active ret array w).1 ≡ keep_all (keep_guard active) array)
  unfolding reset_guard_array
  reset_guard_array-keep active ret none w h = (h, refl)
  reset_guard_array-keep active ret (some slots) w h =
      ground (arith, reset_guards-keep active slots w)

  pub reset_all-kept :
      (active : List C) (r : Request C D) (w : W)
      → is_rmw_ok (reset_all dds active r w).0 ≡ true
      → (reset_all dds active r w).1 ≡ kept active r
  unfolding reset_all
  reset_all-kept active r w h =
      let s1 = reset_array dds (reset_endpoints dds active) RmwRet.ok r.subscriptions in
      let s2 = reset_guard_array dds active s1.0 r.guard_conditions w in
      let s3 = reset_array dds (reset_endpoints dds active) s2.0 r.services in
      let (h3, e4) =
        reset_array-keep (reset_endpoints dds active) (keep active) s3.0 r.clients
          (reset_endpoints-keep active) h in
      let (h2, e3) =
        reset_array-keep (reset_endpoints dds active) (keep active) s2.0 r.services
          (reset_endpoints-keep active) h3 in
      let (h1, e2) = reset_guard_array-keep active s1.0 r.guard_conditions w h2 in
      let (h0, e1) =
        reset_array-keep (reset_endpoints dds active) (keep active) RmwRet.ok r.subscriptions
          (reset_endpoints-keep active) h1 in
      cc

  reset_endpoints-ret :
      (active : List C) (slots : List (Option (Endpoint C)))
      → has_waited (reset_endpoints dds active slots).0
        ≡ is_rmw_ok (reset_endpoints dds active slots).0
  unfolding reset_endpoints
  reset_endpoints-ret active [] = refl
  reset_endpoints-ret active (none ∷ rest) = refl
  reset_endpoints-ret active (some info ∷ rest) = elim (Option-cases info.read_condition) [
    | inl e ↦ ground (arith, e)
    | inr (c, e) ↦ ground (arith, e, reset_endpoints-ret active rest)
  ]

  reset_guards-ret :
      (active : List C) (slots : List (Option C)) (w : W)
      → has_waited (reset_guards dds active slots w).0
        ≡ is_rmw_ok (reset_guards dds active slots w).0
  unfolding reset_guards set
  reset_guards-ret active [] w = refl
  reset_guards-ret active (none ∷ rest) w = refl
  reset_guards-ret active (some c ∷ rest) w = ground (
    arith,
    reset_guards-ret active rest w,
    reset_guards-ret active rest (dds.set_trigger_value c false w).1,
  )

  reset_array-ret :
      {A : Type 0} (reset : List A → RmwRet × List A) (ret : RmwRet) (array : Option (List A))
      → ((slots : List A) → has_waited (reset slots).0 ≡ is_rmw_ok (reset slots).0)
      → has_waited ret ≡ is_rmw_ok ret
      → has_waited (reset_array dds reset ret array).0
        ≡ is_rmw_ok (reset_array dds reset ret array).0
  reset_array-ret reset ret none k h = h
  reset_array-ret reset ret (some slots) k h = ground (arith, k slots)

  reset_guard_array-ret :
      (active : List C) (ret : RmwRet) (array : Option (List (Option C))) (w : W)
      → has_waited ret ≡ is_rmw_ok ret
      → has_waited (reset_guard_array dds active ret array w).0
        ≡ is_rmw_ok (reset_guard_array dds active ret array w).0
  unfolding reset_guard_array
  reset_guard_array-ret active ret none w h = h
  reset_guard_array-ret active ret (some slots) w h =
      ground (arith, reset_guards-ret active slots w)

  pub reset_all-ret :
      (active : List C) (r : Request C D) (w : W)
      → has_waited (reset_all dds active r w).0 ≡ is_rmw_ok (reset_all dds active r w).0
  unfolding reset_all
  reset_all-ret active r w = reset_array-ret _ _ r.clients (reset_endpoints-ret active) (
      reset_array-ret _ _ r.services (reset_endpoints-ret active) (
        reset_guard_array-ret active _ r.guard_conditions w
          (reset_array-ret _ RmwRet.ok r.subscriptions (reset_endpoints-ret active) refl)))
