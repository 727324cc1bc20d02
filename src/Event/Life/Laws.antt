-- ===== src/Event/Life/Laws.antt =====
-- wba_event_new and wba_event_assign set an event up, and the base keeps its invariant.
use mathlib.Core.Path.{fun_ext}
use miscellaneous_repo.Prelude.{
  ℕ, ◌%◌, ◌^◌, ◌≡◌, refl, sym, ap, subst, ◌∙◌, inl, inr, ◌⊎◌, true, false, some, arith, ◌==◌,
  if◌then◌else◌, Bool-cases, length,
}
use miscellaneous_repo.Prelude.Int.{ℤ, pos, negsuc}
use miscellaneous_repo.Event.Time.{Timeval}
use miscellaneous_repo.Event.Members.{Members}
use miscellaneous_repo.Event.{Mask, Evt, inorder, World, Os, ListLib, TreeLib}
use miscellaneous_repo.Event.Ops.{update, negative, put_evt}
use miscellaneous_repo.Event.Ops.Order.{Sorted-same, deadline}
use miscellaneous_repo.Event.Ops.Inv.{
  Inv, ActiveInv-same, MapInv-same, is_active, in_slot, update-same,
}
use miscellaneous_repo.Event.Life.{fresh_evt, event_new, event_assign}

-- An event that no list and no tree holds.
pub record IsIdle (e : Evt) : Type 0 where
  pub unreg : e.flags.reg ≡ false
  pub inactive : e.flags.active ≡ false
  pub untimed : e.flags.timeout ≡ false

abbrev no_time : Timeval
no_time = record { sec = pos 0; usec = pos 0 }

-- A block of zeros.
abbrev pub zeroed : Evt
zeroed = record {
  fn = 0;
  arg = 0;
  fd = pos 0;
  based = false;
  flags = record { init = false; reg = false; active = false; timeout = false };
  events = record { read = false; write = false; timeout = false; closed = false; persist = false };
  res = record { read = false; write = false; timeout = false; closed = false; persist = false };
  timeout = no_time;
  evt_timeout = no_time;
}

-- The event that is set up for a descriptor, its events and its callback, and nothing else.
pub record IsNew (e : Evt) (fd : ℤ) (events : Mask) (fn arg : ℕ) : Type 0 where
  pub calls : (e.fn ≡ fn) × (e.arg ≡ arg)
  pub descriptor : e.fd ≡ (if negative fd then negsuc 0 else fd)
  pub events_set : e.events ≡ events
  pub based : e.based ≡ true
  pub init : e.flags.init ≡ true
  pub idle : IsIdle e
  pub clear : (e.res ≡ zeroed.res) × (e.timeout ≡ no_time) × (e.evt_timeout ≡ no_time)

module _ {E C : Type 0} (os : Os E C) (ll : ListLib C) (tl : TreeLib) where
  pub replaced-Inv :
      (w : World E C) (i : ℕ) (e : Evt)
      → Inv ll w
      → IsIdle (w.evts i)
      → IsIdle e
      → Inv ll (put_evt i e w)
  replaced-Inv w i e v idle new =
      let evts' = update w.evts i e in
      let timed : (j : ℕ) → (evts' j).flags.timeout ≡ (w.evts j).flags.timeout =
        update-same (λ x. x.flags.timeout) w.evts i e (new.untimed ∙ sym idle.untimed) in
      let a =
        ActiveInv-same ll w evts'
          (update-same (λ x. x.flags.active) w.evts i e (new.inactive ∙ sym idle.inactive))
          v.active in
      let m =
        MapInv-same ll w evts'
          (λ k.
            update-same (in_slot w.base.sizemask k) w.evts i e (rw (new.unreg, idle.unreg) refl))
          v.map in
      record {
        active = record { listed = a.listed; counted = a.counted };
        time = record {
          listed = record {
            has = λ j. v.time.listed.has j ∙ sym (timed j);
            distinct = v.time.listed.distinct;
          };
          sorted =
              Sorted-same (deadline w.evts) (deadline evts') (inorder w.base.tree)
                (λ j h. ground (arith, idle.untimed, v.time.listed.has j)) v.time.sorted;
          registered = λ j h. (
            ground (arith, timed j, v.time.registered j, idle.untimed),
            ground (arith, timed j, v.time.registered j, idle.untimed),
          );
        };
        map = record { listed = m.listed };
        count = record { counted = v.count.counted; linked = v.count.linked; fits = v.count.fits };
      }

module _ {E C : Type 0} (os : Os E C) (ll : ListLib C) (tl : TreeLib) (w : World E C) where
  fresh-IsIdle : (fd : ℤ) (events : Mask) (fn arg : ℕ) → IsIdle (fresh_evt fd events fn arg)
  fresh-IsIdle fd events fn arg = record { unreg = refl; inactive = refl; untimed = refl }

  fresh-IsNew :
      (fd : ℤ) (events : Mask) (fn arg : ℕ) → IsNew (fresh_evt fd events fn arg) fd events fn arg
  fresh-IsNew fd events fn arg = record {
    calls = (refl, refl);
    descriptor = refl;
    events_set = refl;
    based = refl;
    init = refl;
    idle = fresh-IsIdle fd events fn arg;
    clear = (refl, refl, refl);
  }

  -- What the block held before does not count.
  over-Inv : (i : ℕ) (e : Evt) → Inv ll (put_evt i zeroed w) → IsIdle e → Inv ll (put_evt i e w)
  over-Inv i e v idle =
      subst (λ evts. Inv ll (record w { evts = evts }))
        (fun_ext {f = update (update w.evts i zeroed) i e} {g = update w.evts i e}
          λ j. ground arith)
        (replaced-Inv os ll tl (put_evt i zeroed w) i e v was idle)
    where
      was : IsIdle (update w.evts i zeroed i)
      was = record { unreg = ground arith; inactive = ground arith; untimed = ground arith }

  -- wba_event_new, where malloc gives the block `i` with whatever it holds, and the base keeps the invariant
  -- if that block counts as zeros: the event is returned, it is set up as the arguments say and has no other
  -- flag, result or time, no other event changes, and the invariant holds.
  pub event_new-Inv :
      (selfptr i : ℕ) (fd : ℤ) (events : Mask) (fn arg : ℕ)
      → Inv ll (put_evt i zeroed w)
      → let r = event_new os ll tl selfptr (some i) true fd events (some fn) arg w in
        (r.0 ≡ some i)
        × IsNew (r.1.evts i) fd events fn (if arg == selfptr then i else arg)
        × ((j : ℕ) → (i == j) ≡ false → r.1.evts j ≡ w.evts j)
        × Inv ll r.1
  unfolding event_new
  event_new-Inv selfptr i fd events fn arg v =
      let at : (i == i) ≡ true = ground arith in
      let e = fresh_evt fd events fn (if arg == selfptr then i else arg) in
      (
        refl,
        rw at (fresh-IsNew fd events fn (if arg == selfptr then i else arg)),
        (λ j other. rw other refl),
        over-Inv i e v (fresh-IsIdle fd events fn (if arg == selfptr then i else arg)),
      )

  -- Another form of the same active list.
  wiped-Inv :
      (c : C) (i : ℕ) (e : Evt)
      → ll.items c ≡ ll.items w.base.active
      → Inv ll (put_evt i e w)
      → Inv ll (put_evt i e (record w { base = record (w.base) { active = c } }))
  wiped-Inv c i e same v = record {
    active = record {
      listed = subst (λ l. Members l (is_active (update w.evts i e))) (sym same) v.active.listed;
      counted = v.active.counted ∙ ap (λ l. length l % 2 ^ 32) (sym same);
    };
    time = record {
      listed = v.time.listed;
      sorted = v.time.sorted;
      registered = v.time.registered;
    };
    map = record { listed = v.map.listed };
    count = record { counted = v.count.counted; linked = v.count.linked; fits = v.count.fits };
  }

  -- wba_event_assign, of an event that is not active, to a base that keeps the invariant: a registered event
  -- is refused with 0, and nothing changes; any other gives 1, it is then set up as the arguments say and
  -- has no other flag, result or time, no other event changes, and the invariant holds.
  pub event_assign-Assigned :
      (i : ℕ) (fd : ℤ) (events : Mask) (fn arg : ℕ)
      → Inv ll w
      → (w.evts i).flags.active ≡ false
      → let r = event_assign os ll tl (some i) true fd events (some fn) arg w in
        (((w.evts i).flags.reg ≡ true) × (r ≡ (pos 0, w)))
        ⊎ (((w.evts i).flags.reg ≡ false)
            × (r.0 ≡ pos 1)
            × IsNew (r.1.evts i) fd events fn arg
            × ((j : ℕ) → (i == j) ≡ false → r.1.evts j ≡ w.evts j)
            × Inv ll r.1)
  unfolding event_assign
  event_assign-Assigned i fd events fn arg v off = elim (Bool-cases (w.evts i).flags.reg) [
    | inl reg ↦ inl (reg, rw reg refl)
    | inr unreg ↦
        let idle : IsIdle (w.evts i) = record {
          unreg = unreg;
          inactive = off;
          untimed = ground (arith, unreg, v.time.registered i);
        } in
        let wiped = ll.items-wipe i w.base.active (v.active.listed.has i ∙ off) in
        let e = fresh_evt fd events fn arg in
        let at : (i == i) ≡ true = ground arith in
        inr (
          unreg,
          rw unreg refl,
          rw unreg (rw at (fresh-IsNew fd events fn arg)),
          (λ j other. rw unreg (rw other refl)),
          rw unreg (
              wiped-Inv (ll.wipe i w.base.active) i e wiped
                (replaced-Inv os ll tl w i e v idle (fresh-IsIdle fd events fn arg))),
        )
  ]
