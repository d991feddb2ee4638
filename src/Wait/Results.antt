-- ===== src/Wait/Results.antt =====
-- What `wait` answers and which pointers it leaves.
use rmw_opendds.Prelude.{
  ◌≡◌, refl, sym, ◌∙◌, ap, true, not, ◌&&◌, arith, Option, none, some, List, inl, inr, Bool-cases,
  Outcome, ok, ok_of_Returns, ◌>>=◌, undefined, out_of_range,
}
use rmw_opendds.Ret.{RmwRet, DdsRet, is_dds_ok, is_rmw_ok}
use rmw_opendds.Qos.{RmwTime}
use rmw_opendds.WaitSets.{Dds, Request, WaitSet, WaitSetInfo, Waited, Answer}
use rmw_opendds.Wait.{
  wait, wait_body, finish, handle_active_event_conditions, attach_all, reset_all, is_timeout,
  timeout_of,
}
use rmw_opendds.Wait.Slots.{has_waited, kept, attach_all-ret, reset_all-kept, reset_all-ret}
use rmw_opendds.Wait.Cleaning.{NonNull, wait-clean, wait_body-Returns}

bind_ok :
    {A B : Type 0} (x : Outcome A) (f : A → Outcome B) (b : B)
    → x >>= f ≡ ok b
    → (a : A) × ((x ≡ ok a) × (f a ≡ ok b))
bind_ok (ok a) f b h = (a, (refl, h))
bind_ok out_of_range f b h = cc
bind_ok undefined f b h = cc

ok-injective : {A : Type 0} (a b : A) → ok a ≡ ok b → a ≡ b
ok-injective a b h = cc

-- The active conditions of the wait set that a call leaves.
abbrev pub active_of : {C D W : Type 0} → Answer C D W → Option (List C)
active_of a = elim (a.wait_set) [
  | none ↦ none
  | some ws ↦ elim (ws.info) [ none ↦ none | some info ↦ info.active_conditions ]
]

module _ {C D W : Type 0} (dds : Dds C D W) where
  -- Two requests are the same but for their events.
  pub record SameButEvents (a b : Request C D) : Type 0 where
    pub subscriptions : a.subscriptions ≡ b.subscriptions
    pub guard_conditions : a.guard_conditions ≡ b.guard_conditions
    pub services : a.services ≡ b.services
    pub clients : a.clients ≡ b.clients

  finish-kept :
      (status : DdsRet) (active : List C) (p : RmwRet × Request C D × W) (b : Waited C D W)
      → finish dds status active p ≡ ok b
      → has_waited b.ret ≡ true
      → has_waited p.0 ≡ is_rmw_ok p.0
      → (is_rmw_ok p.0 ≡ true) × ((b.active ≡ active) × SameButEvents b.request p.1)
  unfolding finish
  finish-kept status active (ret, r, w) b e h k = elim (Bool-cases (is_rmw_ok ret)) [
    | inl t ↦
        let (a, (_, f)) =
          bind_ok (handle_active_event_conditions dds r.events w) _ b (rw (t, finish) at e) in
        (t, (cc, record { subscriptions = cc; guard_conditions = cc; services = cc; clients = cc }))
    | inr f ↦ ground (arith, f, e, h, k)
  ]

  wait_body-kept :
      (t : Option RmwTime) (active : List C) (r : Request C D) (w : W) (b : Waited C D W)
      → wait_body dds t active r w ≡ ok b
      → has_waited b.ret ≡ true
      → SameButEvents b.request (kept dds b.active r)
  unfolding wait_body
  wait_body-kept t active r w b e h =
      let p = attach_all dds r w in
      let q = dds.wait (timeout_of dds t) p.1 in
      elim (Bool-cases (is_rmw_ok p.0)) [
        | inr f ↦ ground (arith, f, e, h, attach_all-ret dds r w)
        | inl y ↦ elim (Bool-cases (not (is_dds_ok q.0) && not (is_timeout q.0))) [
          | inl z ↦ ground (arith, y, z, e, h)
          | inr z ↦
              let last : finish dds q.0 q.1 (reset_all dds q.1 r q.2) ≡ ok b =
                rw (y, z, wait_body) at e in
              let (reset, (same, s)) =
                finish-kept q.0 q.1 (reset_all dds q.1 r q.2) b last h
                  (reset_all-ret dds q.1 r q.2) in
              let k = reset_all-kept dds q.1 r q.2 reset in
              let (s1, s2, s3, s4) : (b.request.subscriptions
                    ≡ (reset_all dds q.1 r q.2).1.subscriptions)
                  × (b.request.guard_conditions ≡ (reset_all dds q.1 r q.2).1.guard_conditions)
                  × (b.request.services ≡ (reset_all dds q.1 r q.2).1.services)
                  × (b.request.clients ≡ (reset_all dds q.1 r q.2).1.clients) =
                (s.subscriptions, s.guard_conditions, s.services, s.clients) in
              record { subscriptions = cc; guard_conditions = cc; services = cc; clients = cc }
        ]
      ]

  -- If `wait` returns RMW_RET_OK or RMW_RET_TIMEOUT, with a wait set that is whole and no null
  -- pointer to an event, then in each of the four arrays a pointer is kept if its condition is in
  -- the active conditions that the wait set has then, and is null otherwise.
  pub wait_keeps_active :
      (r : Request C D) (ws : WaitSet C) (info : WaitSetInfo C) (active : List C)
      (t : Option RmwTime) (w : W) (a : Answer C D W)
      → dds.matches ws.implementation_identifier ≡ true
      → ws.info ≡ some info
      → info.has_wait_set ≡ true
      → info.active_conditions ≡ some active
      → NonNull dds r.events
      → wait dds r (some ws) t w ≡ ok a
      → has_waited a.ret ≡ true
      → (now_active : List C) × ((active_of a ≡ some now_active)
          × SameButEvents a.request (kept dds now_active r))
  wait_keeps_active r ws info active t w a m i s ac h returned waited =
      let (body, e) = ok_of_Returns _ (wait_body-Returns dds t active r w h) in
      let done = wait-clean dds r ws info active t w body m i s ac e in
      let same = ok-injective _ a (sym done ∙ returned) in
      let body_waited : has_waited body.ret ≡ true =
        ap (λ x. has_waited (Answer.ret x)) same ∙ waited in
      rw (← same) (body.active, (refl, wait_body-kept t active r w body e body_waited))
