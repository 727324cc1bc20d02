-- ===== src/Event/Poll/Report.antt =====
-- What the events are when the callbacks of a round of wba_event_loop begin.
use miscellaneous_repo.Prelude.{
  ℕ, zero, suc, ◌≡◌, refl, ap, ◌∙◌, inl, inr, not, ◌&&◌, Option, none, some, List, [], ◌∷◌,
  Bool-cases, Option-cases, if◌then◌else◌,
}
use miscellaneous_repo.Prelude.Int.{ℤ, pos, negsuc, ltb_ℤ}
use miscellaneous_repo.Event.Time.{Timeval, timecmp}
use miscellaneous_repo.Event.{Mask, mask_and, mask_any, Evt, Ready, World, Os, ListLib, TreeLib}
use miscellaneous_repo.Event.Ops.{add_active, map_get_slot, negative, slot_of}
use miscellaneous_repo.Event.Ops.Inv.{Inv, in_slot}
use miscellaneous_repo.Event.Ops.Deleted.{sizemask-add_active, env-add_active}
use miscellaneous_repo.Event.Poll.{
  ready_mask, activate_from, map_active, next_timeout, process_timeout, dispatch,
}
use miscellaneous_repo.Event.Poll.Activate.{activated, map_active-slot}
use miscellaneous_repo.Event.Poll.Due.{later}
use miscellaneous_repo.Event.Poll.Expire.{fired, process_timeout-fires}

-- An event after all that epoll has reported: a report of a descriptor that is not negative activates the
-- events of its slot.
abbrev pub reported : ℕ → List Ready → Evt → Evt
reported mask [] e = e
reported mask (r ∷ rs) e = reported mask rs (
    if mask_any (ready_mask r) && (not (negative r.fd) && in_slot mask (slot_of r.fd mask) e)
    then activated (ready_mask r) e
    else e)

-- An event after the time-outs, at the time of the clock: one whose deadline is not later has fired.
abbrev pub timed_out : Option Timeval → Evt → Evt
timed_out none e = e
timed_out (some now) e = if e.flags.timeout && not (later e.evt_timeout now) then fired e else e

module _ {E C : Type 0} (os : Os E C) (ll : ListLib C) (tl : TreeLib) where
  -- The map keeps its size, and nothing happens outside.
  record Aside (w w' : World E C) : Type 0 where
    mask : w'.base.sizemask ≡ w.base.sizemask
    env : w'.env ≡ w.env

  Aside-refl : (w : World E C) → Aside w w
  Aside-refl w = record { mask = refl; env = refl }

  Aside-trans : {u v w : World E C} → Aside u v → Aside v w → Aside u w
  Aside-trans a b = record { mask = b.mask ∙ a.mask; env = b.env ∙ a.env }

  add_active-Aside : (i : ℕ) (res : Mask) (w : World E C) → Aside w (add_active os ll tl i res w)
  add_active-Aside i res w = record {
    mask = sizemask-add_active os ll tl i res w;
    env = env-add_active os ll tl i res w;
  }

  activate_from-Aside :
      (f k : ℕ) (p : Option ℕ) (events : Mask) (w : World E C)
      → Aside w (activate_from os ll tl f k p events w)
  unfolding activate_from
  activate_from-Aside zero k p events w = Aside-refl w
  activate_from-Aside (suc f) k none events w = Aside-refl w
  activate_from-Aside (suc f) k (some p) events w =
      let hit = mask_and (w.evts p).events events in
      elim (Bool-cases (mask_any hit)) [
        | inl h ↦ rw h (Aside-trans (add_active-Aside p hit w) (activate_from-Aside f k _ events _))
        | inr h ↦ rw h (activate_from-Aside f k _ events w)
      ]

  map_active-Aside :
      (fd : ℤ) (events : Mask) (w : World E C) → Aside w (map_active os ll tl fd events w)
  unfolding map_active map_get_slot
  map_active-Aside (pos n) events w = activate_from-Aside _ _ _ events w
  map_active-Aside (negsuc n) events w = Aside-refl w

  map_active-evts :
      (fd : ℤ) (events : Mask) (w : World E C)
      → Inv ll w
      → (j : ℕ)
      → (map_active os ll tl fd events w).evts j ≡ (
          if not (negative fd) && in_slot w.base.sizemask (slot_of fd w.base.sizemask) (w.evts j)
          then activated events (w.evts j)
          else w.evts j)
  unfolding map_active map_get_slot
  map_active-evts (pos n) events w v j = (map_active-slot os ll tl events n w v).1 j
  map_active-evts (negsuc n) events w v j = refl

  map_active-Inv :
      (fd : ℤ) (events : Mask) (w : World E C) → Inv ll w → Inv ll (map_active os ll tl fd events w)
  unfolding map_active map_get_slot
  map_active-Inv (pos n) events w v = (map_active-slot os ll tl events n w v).0
  map_active-Inv (negsuc n) events w v = v

  -- All that epoll reports.
  pub record Dispatched (rs : List Ready) (w w' : World E C) : Type 0 where
    pub inv : Inv ll w'
    pub env : w'.env ≡ w.env
    pub evts : (j : ℕ) → w'.evts j ≡ reported w.base.sizemask rs (w.evts j)

  pub dispatch-Dispatched :
      (rs : List Ready) (w : World E C) → Inv ll w → Dispatched rs w (dispatch os ll tl rs w)
  unfolding dispatch
  dispatch-Dispatched [] w v = record { inv = v; env = refl; evts = λ j. refl }
  dispatch-Dispatched (r ∷ rs) w v = elim (Bool-cases (mask_any (ready_mask r))) [
    | inr nothing ↦
        let rest = dispatch-Dispatched rs w v in
        rw nothing (record { inv = rest.inv; env = rest.env; evts = λ j. rw nothing (rest.evts j) })
    | inl something ↦
        let w' = map_active os ll tl r.fd (ready_mask r) w in
        let a = map_active-Aside r.fd (ready_mask r) w in
        let rest = dispatch-Dispatched rs w' (map_active-Inv r.fd (ready_mask r) w v) in
        rw something (record {
          inv = rest.inv;
          env = rest.env ∙ a.env;
          evts = λ j.
              rest.evts j
              ∙ ap (λ m. reported m rs (w'.evts j)) a.mask
              ∙ ap (reported w.base.sizemask rs)
                  (map_active-evts r.fd (ready_mask r) w v j ∙ rw something refl);
        })
  ]

  pub process_timeout-evts :
      (t : Option Timeval) (w : World E C)
      → Inv ll w
      → (os.clock w.env).0 ≡ t
      → (j : ℕ) → (process_timeout os ll tl w).1.evts j ≡ timed_out t (w.evts j)
  unfolding process_timeout
  process_timeout-evts none w v fails j = rw (fails, process_timeout) refl
  process_timeout-evts (some now) w v says j = (process_timeout-fires os ll tl w now v says).1 j

  -- event_next_timeout only reads the clock.
  pub next_timeout-reads :
      (w : World E C)
      → (next_timeout os ll tl w).1 ≡ record w { env = (next_timeout os ll tl w).1.env }
  unfolding next_timeout
  next_timeout-reads w = elim (Option-cases (tl.first w.base.tree)) [
    | inl no_first ↦ rw (no_first, next_timeout) refl
    | inr (p, first) ↦ elim (Option-cases (os.clock w.env).0) [
      | inl fails ↦ rw (first, next_timeout) (rw (fails, next_timeout) refl)
      | inr (now, says) ↦ elim (Bool-cases (ltb_ℤ (pos 0) (timecmp (w.evts p).evt_timeout now))) [
        | inl later ↦ rw (first, next_timeout) (rw (says, next_timeout) (rw later refl))
        | inr passed ↦ rw (first, next_timeout) (rw (says, next_timeout) (rw passed refl))
      ]
    ]
  ]
