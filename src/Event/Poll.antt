-- ===== src/Event/Poll.antt =====
-- The loop of network/wba_event/wba_evloop.c: what epoll reports, the time-outs, and the callbacks.
-- A loop that the callbacks can prolong runs on fuel, and `none` means that the fuel ran out.
pub mod Wait
pub mod Due
pub mod Expire
pub mod Rearm
pub mod Run
pub mod Round
pub mod Activate
pub mod Report
use miscellaneous_repo.Prelude.{
  ℕ, zero, suc, ◌+◌, ◌-◌, ◌*◌, ◌%◌, ◌^◌, Bool, true, false, ◌&&◌, ◌||◌, Option, none, some, List,
  [], ◌∷◌, ◌==◌, ltb, if◌then◌else◌, length,
}
use miscellaneous_repo.Prelude.Int.{
  ℤ, pos, negsuc, pos_part, neg_part, ◌+ℤ◌, ◌-ℤ◌, ◌*ℤ◌, ◌/ℤ◌, ltb_ℤ,
}
use miscellaneous_repo.Event.Time.{Timeval, timeadd, timesub, timecmp}
use miscellaneous_repo.Event.{
  Mask, no_mask, timeout_mask, mask_and, mask_any, Evt, Tree, inorder, Base, World, Ready, Os,
  ListLib, TreeLib,
}
use miscellaneous_repo.Event.Ops.{
  negative, map_get_slot, add_active, remove_active, now_or_stale, event_add, event_del,
}

-- The conversion of a long to an s32: the number of that class modulo 2^32 between -2^31 and 2^31.
unfoldable pub to_s32 : ℤ → ℤ
to_s32 x =
    let r = (pos_part x + (2 ^ 32 - neg_part x % 2 ^ 32)) % 2 ^ 32 in
    if ltb r (2 ^ 31) then pos r else negsuc (2 ^ 32 - r - 1)

abbrev pub is_zero : ℤ → Bool
is_zero (pos n) = n == 0
is_zero (negsuc n) = false

abbrev pub default_wait : ℤ
default_wait = pos (60 * 1000)

-- The mask for what epoll reports of a descriptor.
unfoldable pub ready_mask : Ready → Mask
ready_mask r =
    if r.broken
    then record { read = true; write = true; timeout = false; closed = false; persist = false }
    else record { read = r.into; write = r.out; timeout = false; closed = r.rdhup; persist = false }

-- The milliseconds of a time that is still to wait.
unfoldable pub wait_ms : Timeval → ℤ
wait_ms tv = to_s32 (tv.sec *ℤ pos 1000 +ℤ tv.usec /ℤ 1000 +ℤ pos 1)

module _ {E C : Type 0} (os : Os E C) (ll : ListLib C) (tl : TreeLib) where
  -- The walk of event_map_active along a slot, which the body does not change.
  unfoldable pub activate_from : ℕ → ℕ → Option ℕ → Mask → World E C → World E C
  activate_from zero k p events w = w
  activate_from (suc f) k none events w = w
  activate_from (suc f) k (some p) events w =
      let hit = mask_and (w.evts p).events events in
      let w' = if mask_any hit then add_active os ll tl p hit w else w in
      activate_from f k (ll.next (w'.base.slots k) (some p)) events w'

  unfoldable pub map_active : ℤ → Mask → World E C → World E C
  map_active fd events w = elim (map_get_slot os ll tl fd w) [
    | none ↦ w
    | some k ↦
        activate_from (suc (length (ll.items (w.base.slots k)))) k (ll.next (w.base.slots k) none)
          events w
  ]

  unfoldable pub next_timeout : World E C → ℤ × World E C
  next_timeout w = elim (tl.first w.base.tree) [
    | none ↦ (default_wait, w)
    | some p ↦
        let (t, env) = os.clock w.env in
        let w' = record w { env = env } in
        elim t [
          | none ↦ (default_wait, w')
          | some now ↦
              if ltb_ℤ (pos 0) (timecmp (w.evts p).evt_timeout now)
              then (wait_ms (timesub (w.evts p).evt_timeout now), w')
              else (pos 0, w')
        ]
  ]

  -- The loop over the time tree; `next` is the node behind `p`, taken before the event is deleted.
  unfoldable pub expire_from : ℕ → Option ℕ → Timeval → ℕ → World E C → ℕ × World E C
  expire_from zero p now cnt w = (cnt, w)
  expire_from (suc f) none now cnt w = (cnt, w)
  expire_from (suc f) (some p) now cnt w =
      let next = tl.next w.base.tree p in
      let w' = add_active os ll tl p timeout_mask (event_del os ll tl (some p) w).1 in
      let rest = expire_from f next now (suc cnt) w' in
      if ltb_ℤ (pos 0) (timecmp (w.evts p).evt_timeout now) then (cnt, w) else rest

  -- The nodes of the tree are fuel enough.
  unfoldable pub process_timeout : World E C → ℕ × World E C
  process_timeout w =
      let (t, env) = os.clock w.env in
      let w' = record w { env = env } in
      elim t [
        | none ↦ (0, w')
        | some now ↦
            expire_from (suc (length (inorder w.base.tree))) (tl.first w.base.tree) now 0 w'
      ]

  -- The next deadline of a persistent event.
  pub next_deadline : Evt → Timeval → Timeval
  next_deadline e now =
      let last = if e.res.timeout then e.evt_timeout else now in
      let next = timeadd last e.timeout in
      if ltb_ℤ (timecmp next now) (pos 0) then timeadd now e.timeout else next

  -- The body of event_process_active before the callback.
  pub rearm : ℕ → World E C → World E C
  rearm p w =
      if is_zero (w.evts p).timeout.sec && is_zero (w.evts p).timeout.usec
      then w
      else (let (now, w') = now_or_stale os ll tl w in
          (event_add os ll tl (some p) (some (next_deadline (w'.evts p) now)) true w').1)

  pub settle : ℕ → World E C → World E C
  settle p w =
      if (w.evts p).events.persist
      then rearm p (remove_active os ll tl p w)
      else (event_del os ll tl (some p) w).1

  pub call_back : ℕ → World E C → World E C
  call_back p w = os.call (w.evts p).fn (w.evts p).fd (w.evts p).res (w.evts p).arg w

  -- The loop over the active list; `n` is the entry behind `p`, taken before the body runs.
  pub run_from : ℕ → Option ℕ → Option ℕ → ℕ → World E C → Option (ℕ × World E C)
  run_from zero p n cnt w = none
  run_from (suc f) none n cnt w = some (cnt, w)
  run_from (suc f) (some p) n cnt w =
      let w' = call_back p (settle p w) in run_from f n (ll.next w'.base.active n) (suc cnt) w'

  pub process_active : ℕ → World E C → Option (ℕ × World E C)
  process_active fuel w =
      let p = ll.next w.base.active none in run_from fuel p (ll.next w.base.active p) 0 w

  -- What epoll reports, one descriptor after the other.
  unfoldable pub dispatch : List Ready → World E C → World E C
  dispatch [] w = w
  dispatch (r ∷ rs) w =
      dispatch rs (if mask_any (ready_mask r) then map_active r.fd (ready_mask r) w else w)

  -- One round: `none` means that the loop ends, with its result.
  pub loop_from : ℕ → ℕ → ℤ → World E C → Option (ℤ × World E C)
  loop_from fuel zero res w = none
  loop_from fuel (suc f) res w =
      if w.base.event_count == 0 && w.base.event_count_active == 0
      then some (res, w)
      else (let (wait, w₁) = next_timeout w in
          let (ready, env) = os.epoll_wait wait w₁.env in
          let w₂ = record w₁ { env = env } in
          elim ready [
            | none ↦ some (pos 0, w₂)
            | some rs ↦ elim (process_active fuel (process_timeout (dispatch rs w₂)).1) [
              | none ↦ none
              | some (ncb, w₃) ↦ loop_from fuel f (pos (length rs)) w₃
            ]
          ])

  -- `some w` is the base; a NULL base gives 0.
  pub wba_event_loop : ℕ → Option (World E C) → Option (Option (ℤ × World E C))
  wba_event_loop fuel none = some none
  wba_event_loop fuel (some w) = elim (loop_from fuel fuel (pos 1) w) [
    | none ↦ none
    | some r ↦ some (some r)
  ]
