-- ===== src/Wait/Cleaning.antt =====
-- The cleaner of `wait`, and the laws of DDS that it relies on.
use rmw_opendds.Prelude.{
  ℕ, ◌≡◌, ◌≢◌, refl, ◌∙◌, ap, Bool, true, false, arith, Option, none, some, List, [], ◌∷◌,
  if◌then◌else◌, All, Outcome, ok, undefined, out_of_range, Returns, ok_of_Returns, inl, inr,
  Option-cases, ◌>>=◌,
}
use rmw_opendds.Ret.{RmwRet, DdsRet, is_rmw_ok}
use rmw_opendds.Events.{Event, is_event_supported, get_status_kind_from_rmw}
use rmw_opendds.Qos.{RmwTime}
use rmw_opendds.WaitSets.{Dds, Request, WaitSet, WaitSetInfo, Waited, Answer}
use rmw_opendds.Wait.{
  wait, wait_body, finish, with_info, with_active, clean, detach_all, handle_events, event_active,
  handle_active_event_conditions, attach_all, reset_all, is_in, timeout_of,
}

bind-Returns :
    {A B : Type 0} (x : Outcome A) (f : A → Outcome B)
    → Returns x
    → ((a : A) → Returns (f a))
    → Returns (x >>= f)
bind-Returns (ok a) f h k = k a
bind-Returns out_of_range f h k = cc
bind-Returns undefined f h k = cc

if-Returns :
    {A : Type 0} (b : Bool) (x y : Outcome A) → Returns x → Returns y → Returns (if b then x else y)
if-Returns true x y h k = h
if-Returns false x y h k = k

module _ {C D W : Type 0} (dds : Dds C D W) where
  -- A list without the conditions that are `c`.
  abbrev pub without : C → List C → List C
  without c [] = []
  without c (a ∷ rest) = let others = without c rest in if dds.same a c then others else a ∷ others

  -- What DDS documents of `get_conditions` and `detach_condition`: the one succeeds and gives the
  -- attached conditions, the other takes its condition from them.
  pub record Laws (attached : W → List C) : Type 0 where
    pub succeeds : (w : W) → (dds.get_conditions w).0 ≡ DdsRet.ok
    pub gives : (w : W) → (dds.get_conditions w).1 ≡ attached w
    pub keeps : (w : W) → attached (dds.get_conditions w).2 ≡ attached w
    pub takes : (c : C) (w : W) → attached (dds.detach_condition c w).1 ≡ without c (attached w)

  abbrev without_all : List C → List C → List C
  without_all [] m = m
  without_all (c ∷ l) m = without_all l (without c m)

  Covered : List C → List C → Type 0
  unfolding is_in
  Covered l = All (λ a. is_in dds a l ≡ true)

  without_all-nil : (l : List C) → without_all l [] ≡ []
  without_all-nil [] = refl
  without_all-nil (c ∷ l) = without_all-nil l

  same_sym : (a b : C) → dds.same a b ≡ dds.same b a
  same_sym a b = ground (arith, dds.same_iff a b, dds.same_iff b a)

  without-Covered : (c : C) (l m : List C) → Covered (c ∷ l) m → Covered l (without c m)
  unfolding is_in Covered
  without-Covered c l [] h = tt
  without-Covered c l (a ∷ m) h = ground (arith, without-Covered c l m h.1, same_sym a c)

  without_all-Covered : (l m : List C) → Covered l m → without_all l m ≡ []
  unfolding is_in Covered
  without_all-Covered [] [] h = refl
  without_all-Covered [] (a ∷ m) h = cc
  without_all-Covered (c ∷ l) m h = without_all-Covered l (without c m) (without-Covered c l m h)

  Covered-cons : (c : C) (l m : List C) → Covered l m → Covered (c ∷ l) m
  unfolding is_in Covered
  Covered-cons c l [] h = tt
  Covered-cons c l (a ∷ m) h = ground (arith, Covered-cons c l m h.1)

  Covered-refl : (l : List C) → Covered l l
  unfolding is_in Covered
  Covered-refl [] = tt
  Covered-refl (a ∷ l) = ground (arith, dds.same_iff a a, Covered-cons a l l (Covered-refl l))

  module _ (attached : W → List C) (laws : Laws attached) where
    attached-detach_all :
        (l : List C) (w : W) → attached (detach_all dds l w) ≡ without_all l (attached w)
    unfolding detach_all
    attached-detach_all [] w = refl
    attached-detach_all (c ∷ l) w =
        attached-detach_all l (dds.detach_condition c w).1 ∙ ap (without_all l) (laws.takes c w)

    pub attached-clean : (old : List C) (w : W) → attached (clean dds (some old) w).1 ≡ []
    unfolding clean
    attached-clean old w =
        rw (laws.succeeds w, laws.gives w)
          (attached-detach_all (attached w) _
            ∙ (ap (without_all (attached w)) (laws.keeps w)
                ∙ without_all-Covered (attached w) (attached w) (Covered-refl (attached w))))

  event_active-Returns :
      (ev : Event D) (dds_entity : ℕ) (w : W) → Returns (event_active dds ev dds_entity w)
  unfolding event_active is_event_supported get_status_kind_from_rmw
  event_active-Returns ev dds_entity w = ground arith

  -- No pointer to an event is null.
  abbrev pub NonNull : Option (List (Option (Event D))) → Type 0
  NonNull none = Unit
  NonNull (some events) = All (λ e. e ≢ none) events

  handle_events-Returns :
      (events : List (Option (Event D))) (w : W)
      → All (λ e. e ≢ none) events
      → Returns (handle_events dds events w)
  unfolding handle_events
  handle_events-Returns [] w h = refl
  handle_events-Returns (none ∷ rest) w h = elim (h.0 refl) [ ]
  handle_events-Returns (some ev ∷ rest) w h = elim (Option-cases ev.data_of) [
    | inl e ↦ rw (e, handle_events) refl
    | inr (d, e) ↦ elim (Option-cases (dds.get_entity d)) [
      | inl f ↦ rw (e, f, handle_events) refl
      | inr (dds_entity, f) ↦
          rw (e, f, handle_events)
            (bind-Returns _ _ (event_active-Returns ev dds_entity w)
              λ active. bind-Returns _ _ (handle_events-Returns rest w h.1) λ others. refl)
    ]
  ]

  handle_active-Returns :
      (events : Option (List (Option (Event D)))) (w : W)
      → NonNull events
      → Returns (handle_active_event_conditions dds events w)
  unfolding handle_active_event_conditions
  handle_active-Returns none w h = refl
  handle_active-Returns (some events) w h =
      bind-Returns _ _ (handle_events-Returns events w h) λ handled. refl

  finish-Returns :
      (status : DdsRet) (active : List C) (p : RmwRet × Request C D × W)
      → NonNull p.1.events
      → Returns (finish dds status active p)
  unfolding finish
  finish-Returns status active (ret, r, w) h =
      if-Returns (is_rmw_ok ret) _ _
        (bind-Returns _ _ (handle_active-Returns r.events w h) λ handled. refl) refl

  finish-reset_all-Returns :
      (status : DdsRet) (active : List C) (r : Request C D) (w : W)
      → NonNull r.events
      → Returns (finish dds status active (reset_all dds active r w))
  unfolding reset_all
  finish-reset_all-Returns status active r w h = finish-Returns status active _ h

  pub wait_body-Returns :
      (t : Option RmwTime) (active : List C) (r : Request C D) (w : W)
      → NonNull r.events
      → Returns (wait_body dds t active r w)
  unfolding wait_body
  wait_body-Returns t active r w h =
      let q = dds.wait (timeout_of dds t) (attach_all dds r w).1 in
      ground (arith, finish-reset_all-Returns q.0 q.1 r q.2 h)

  -- The call with a wait set that is whole: the steps, and the cleaner behind them.
  pub wait-clean :
      (r : Request C D) (ws : WaitSet C) (info : WaitSetInfo C) (active : List C)
      (t : Option RmwTime) (w : W) (body : Waited C D W)
      → dds.matches ws.implementation_identifier ≡ true
      → ws.info ≡ some info
      → info.has_wait_set ≡ true
      → info.active_conditions ≡ some active
      → wait_body dds t active r w ≡ ok body
      → wait dds r (some ws) t w ≡ (
          let cleaned = clean dds info.attached_conditions body.world in
          ok (record {
            ret = body.ret;
            request = body.request;
            wait_set = some (record ws {
              info = some (record info {
                active_conditions = some body.active;
                attached_conditions = cleaned.0;
              });
            });
            world = cleaned.1;
          }))
  unfolding wait with_info with_active
  wait-clean r ws info active t w body m i s a e = rw (m, i, s, a, e, with_info, with_active) cc

  -- With a wait set that is whole and no null pointer to an event, `wait` returns, and whatever it
  -- returns, no condition is left attached to the wait set of DDS, where that follows the
  -- documented laws of reading and detaching conditions.
  pub wait_detaches :
      (attached : W → List C) (r : Request C D) (ws : WaitSet C) (info : WaitSetInfo C)
      (active old : List C) (t : Option RmwTime) (w : W)
      → Laws attached
      → dds.matches ws.implementation_identifier ≡ true
      → ws.info ≡ some info
      → info.has_wait_set ≡ true
      → info.active_conditions ≡ some active
      → info.attached_conditions ≡ some old
      → NonNull r.events
      → (a : Answer C D W) × ((wait dds r (some ws) t w ≡ ok a) × (attached a.world ≡ []))
  wait_detaches attached r ws info active old t w laws m i s ac o h =
      let (body, e) = ok_of_Returns _ (wait_body-Returns t active r w h) in
      let done = wait-clean r ws info active t w body m i s ac e in
      (_, (done, rw o (attached-clean attached laws old body.world)))
