-- ===== src/Event/Poll/Round.antt =====
-- One round of wba_event_loop: wait, what epoll reports, the time-outs, and the callbacks.
use miscellaneous_repo.Prelude.{
  ℕ, suc, ◌<◌, ◌≡◌, refl, ap, ◌∙◌, inl, inr, Bool, true, false, ◌&&◌, Option, some, sym, subst,
  ◌==◌, List, [], ◌∷◌, arith, Bool-cases, Option-cases, if◌then◌else◌, length,
}
use miscellaneous_repo.Prelude.Int.{ℤ, pos, negsuc}
use miscellaneous_repo.Event.Time.{Timeval}
use miscellaneous_repo.Event.Members.{Members}
use miscellaneous_repo.Event.{Mask, mask_any, Evt, Ready, World, Os, ListLib, TreeLib}
use miscellaneous_repo.Event.Ops.{map_get_slot}
use miscellaneous_repo.Event.Ops.Inv.{Inv, env-Inv, is_active}
use miscellaneous_repo.Event.Poll.{
  ready_mask, map_active, next_timeout, process_timeout, dispatch, loop_from,
}
use miscellaneous_repo.Event.Poll.Activate.{activated, map_active-slot}
use miscellaneous_repo.Event.Poll.Expire.{fired, process_timeout-fires}
use miscellaneous_repo.Event.Poll.Run.{IsReady, Calm, serve_all, process_active-Served}
use miscellaneous_repo.Event.Poll.Report.{
  reported, timed_out, dispatch-Dispatched, process_timeout-evts, next_timeout-reads,
}

module _ {E C : Type 0} (os : Os E C) (ll : ListLib C) (tl : TreeLib) where
  -- A base that keeps the invariant, in a store of its own events.
  pub record IsWhole (w : World E C) : Type 0 where
    pub inv : Inv ll w
    pub based : (j : ℕ) → (w.evts j).based ≡ true

  env-IsWhole : (w : World E C) (env : E) → IsWhole w → IsWhole (record w { env = env })
  env-IsWhole w env h = record { inv = env-Inv ll w env h.inv; based = h.based }

  either-based :
      (b : Bool) (e e' : Evt)
      → e.based ≡ true
      → e'.based ≡ true
      → (if b then e else e').based ≡ true
  either-based true e e' h h' = h
  either-based false e e' h h' = h'

  activated-based : (events : Mask) (e : Evt) → e.based ≡ true → (activated events e).based ≡ true
  activated-based events e h = ground arith

  map_active-IsWhole :
      (fd : ℤ) (events : Mask) (w : World E C)
      → IsWhole w
      → IsWhole (map_active os ll tl fd events w)
  unfolding map_active map_get_slot
  map_active-IsWhole (pos n) events w h =
      let (inv, evts) = map_active-slot os ll tl events n w h.inv in
      record {
        inv = inv;
        based = λ j.
            ap (λ e. e.based) (evts j)
            ∙ either-based _ (activated events (w.evts j)) (w.evts j)
                (activated-based events (w.evts j) (h.based j)) (h.based j);
      }
  map_active-IsWhole (negsuc n) events w h = h

  dispatch-IsWhole :
      (rs : List Ready) (w : World E C) → IsWhole w → IsWhole (dispatch os ll tl rs w)
  unfolding dispatch
  dispatch-IsWhole [] w h = h
  dispatch-IsWhole (r ∷ rs) w h = elim (Bool-cases (mask_any (ready_mask r))) [
    | inl some_ ↦ rw some_ (dispatch-IsWhole rs _ (map_active-IsWhole r.fd (ready_mask r) w h))
    | inr none_ ↦ rw none_ (dispatch-IsWhole rs w h)
  ]

  process_timeout-IsWhole : (w : World E C) → IsWhole w → IsWhole (process_timeout os ll tl w).1
  unfolding process_timeout
  process_timeout-IsWhole w h = elim (Option-cases (os.clock w.env).0) [
    | inl fails ↦ rw (fails, process_timeout) (env-IsWhole w (os.clock w.env).1 h)
    | inr (now, says) ↦
        let (inv, evts, count) = process_timeout-fires os ll tl w now h.inv says in
        record {
          inv = inv;
          based = λ j.
              ap (λ e. e.based) (evts j)
              ∙ either-based _ (fired (w.evts j)) (w.evts j) (h.based j) (h.based j);
        }
  ]

  next_timeout-IsWhole : (w : World E C) → IsWhole w → IsWhole (next_timeout os ll tl w).1
  next_timeout-IsWhole w h = subst IsWhole (sym (next_timeout-reads os ll tl w)) (env-IsWhole w _ h)

  -- The base when epoll_wait has returned.
  abbrev pub polled : World E C → World E C
  polled w =
      let (wait, w₁) = next_timeout os ll tl w in record w₁ { env = (os.epoll_wait wait w₁.env).1 }

  -- The base when the callbacks of a round are about to be called, if epoll reports `rs`.
  abbrev pub expired : List Ready → World E C → World E C
  expired rs w = (process_timeout os ll tl (dispatch os ll tl rs (polled w))).1

  expired-IsWhole : (rs : List Ready) (w : World E C) → IsWhole w → IsWhole (expired rs w)
  expired-IsWhole rs w h = process_timeout-IsWhole (dispatch os ll tl rs (polled w)) (
      dispatch-IsWhole rs (polled w)
        (env-IsWhole (next_timeout os ll tl w).1 _ (next_timeout-IsWhole w h)))

  -- The time of the clock when the time-outs are looked at.
  abbrev pub now_of : World E C → Option Timeval
  now_of w = (os.clock (polled w).env).0

  expired-evts :
      (rs : List Ready) (w : World E C)
      → Inv ll w
      → (j : ℕ)
      → (expired rs w).evts j ≡ timed_out (now_of w) (reported w.base.sizemask rs (w.evts j))
  expired-evts rs w v j =
      let reads = next_timeout-reads os ll tl w in
      let whole = subst (Inv ll) (sym reads) (env-Inv ll w _ v) in
      let d =
        dispatch-Dispatched os ll tl rs (polled w)
          (env-Inv ll (next_timeout os ll tl w).1 _ whole) in
      process_timeout-evts os ll tl (now_of w) (dispatch os ll tl rs (polled w)) d.inv
        (ap (λ env. (os.clock env).0) d.env) j
      ∙ ap (timed_out (now_of w))
          (d.evts j ∙ ap (λ (x : World E C). reported x.base.sizemask rs (x.evts j)) reads)

  -- The loop has served the active events of a base `begun`, in which the reports and the time-outs have
  -- been dealt with, and goes on.
  pub record GoesOn (rs : List Ready) (w : World E C) (now : Option (ℤ × World E C))
      (next : World E C → Option (ℤ × World E C)) : Type 0 where
    pub begun : World E C
    pub evts :
        (j : ℕ) → begun.evts j ≡ timed_out (now_of w) (reported w.base.sizemask rs (w.evts j))
    pub listed : Members (ll.items begun.base.active) (is_active begun.evts)
    pub is_next : now ≡ next (serve_all os ll tl (ll.items begun.base.active) begun)
    pub whole : IsWhole (serve_all os ll tl (ll.items begun.base.active) begun)
    pub idle : ll.items (serve_all os ll tl (ll.items begun.base.active) begun).base.active ≡ []

  module _
      (calm : (fn : ℕ) (fd : ℤ) (res : Mask) (arg : ℕ) (w : World E C)
        → Inv ll w
        → Calm os ll tl w (os.call fn fd res arg w)) where
    -- A round of wba_event_loop, for a base with events, in a store of its own events, that keeps the
    -- invariant, with callbacks that keep the invariant, the active list and the bases of events: where
    -- epoll reports the list `rs`, and the fuel is more than the events that are active when the callbacks
    -- begin, the round ends. When the callbacks begin, each event is what the reports, one after the other,
    -- and then its time-out, if the clock does not fail and the deadline is not later, have made of it;
    -- then each active event has been served once; after that no event is active, the invariant holds, and
    -- the loop goes on with the number of reports as its result.
    pub loop_from-GoesOn :
        (fuel f : ℕ) (res : ℤ) (rs : List Ready) (w : World E C)
        → IsWhole w
        → (w.base.event_count == 0 && w.base.event_count_active == 0) ≡ false
        → (os.epoll_wait (next_timeout os ll tl w).0 (next_timeout os ll tl w).1.env).0 ≡ some rs
        → length (ll.items (expired rs w).base.active) < fuel
        → GoesOn rs w
            (loop_from os ll tl fuel (suc f) res w)
            (loop_from os ll tl fuel f (pos (length rs)))
    unfolding loop_from
    loop_from-GoesOn fuel f res rs w h busy reports enough =
        let whole = expired-IsWhole rs w h in
        let ready : IsReady os ll tl (expired rs w) = record {
          inv = whole.inv;
          based = λ j a. whole.based j;
        } in
        let served = process_active-Served os ll tl calm fuel (expired rs w) ready enough in
        record {
          begun = expired rs w;
          evts = expired-evts rs w h.inv;
          listed = whole.inv.active.listed;
          is_next = rw (busy, reports, served.is_result) refl;
          whole = record { inv = served.ready.inv; based = λ j. served.bases j (whole.based j) };
          idle = served.idle;
        }
