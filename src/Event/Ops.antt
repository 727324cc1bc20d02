-- ===== src/Event/Ops.antt =====
-- The operations on events in network/wba_event/wba_evloop.c: activation, the descriptor map, the time
-- tree, and adding and deleting an event.
pub mod Bits
pub mod Order
pub mod Inv
pub mod Deleted
pub mod Kept
use Prim.Native.Nat.{bit_and}
use miscellaneous_repo.Prelude.{
  ℕ, suc, ◌+◌, ◌-◌, ◌%◌, ◌^◌, ◌≡◌, Bool, true, false, not, ◌&&◌, ◌||◌, Option, none, some, List, [],
  ◌∷◌, ◌==◌, if◌then◌else◌,
}
use miscellaneous_repo.Prelude.Int.{ℤ, pos, negsuc, ltb_ℤ}
use miscellaneous_repo.Event.Time.{Timeval, timeadd, timecmp}
use miscellaneous_repo.Event.{
  Flags, Mask, no_flags, no_mask, has_io, Evt, Tree, leaf, node, Base, World, Interest, Os, ListLib,
  TreeLib,
}

-- `x++` and `x--` of a u32.
abbrev pub inc : ℕ → ℕ
inc x = (x + 1) % 2 ^ 32

abbrev pub dec : ℕ → ℕ
dec x = (x + 2 ^ 32 - 1) % 2 ^ 32

abbrev pub update : {A : Type 0} → (ℕ → A) → ℕ → A → ℕ → A
update f i a j = if i == j then a else f j

abbrev pub negative : ℤ → Bool
negative (pos n) = false
negative (negsuc n) = true

-- `res > 0 ? res : 0`
abbrev pub positive_or_zero : ℤ → ℤ
positive_or_zero (pos n) = pos n
positive_or_zero (negsuc n) = pos 0

-- `fd & sizemask` of a descriptor that is not negative.
abbrev pub slot_of : ℤ → ℕ → ℕ
slot_of (pos n) sizemask = bit_and n sizemask
slot_of (negsuc n) sizemask = 0

-- The walk of event_add_timeout to the link, where `*rb_link = node` then puts the event.
pub walk : (ℕ → Evt) → Timeval → ℕ → Tree → Tree
walk evts t i leaf = node leaf i leaf
walk evts t i (node l j r) =
    if ltb_ℤ (timecmp t (evts j).evt_timeout) (pos 0)
    then node (walk evts t i l) j r
    else node l j (walk evts t i r)

abbrev pub is_none : Option Timeval → Bool
is_none none = true
is_none (some a) = false

module _ {E C : Type 0} where
  -- `*evt` is replaced.
  abbrev pub put_evt : ℕ → Evt → World E C → World E C
  put_evt i e w = record w { evts = update w.evts i e }

  abbrev pub put_flags : ℕ → Flags → World E C → World E C
  put_flags i f w = put_evt i (record (w.evts i) { flags = f }) w

-- The events that epoll_ctl is asked for.
abbrev pub interest : Mask → Interest
interest events = record { into = events.read; out = events.write; rdhup = events.closed }

module _ {E C : Type 0} (os : Os E C) (ll : ListLib C) (tl : TreeLib) where
  pub event_register : ℕ → World E C → Bool × World E C
  event_register i w =
      let (ok, env) = os.epoll_add (w.evts i).fd (interest (w.evts i).events) w.env in
      (ok, record w { env = env })

  unfoldable pub event_unregister : ℕ → World E C → Bool × World E C
  event_unregister i w =
      let (ok, env) = os.epoll_del (w.evts i).fd w.env in (ok, record w { env = env })

  unfoldable pub add_active : ℕ → Mask → World E C → World E C
  add_active i res w = if (w.evts i).flags.active then w else record w {
    evts =
        update w.evts i
          (record (w.evts i) { res = res; flags = record ((w.evts i).flags) { active = true } });
    base = record (w.base) {
      active = ll.add_tail i w.base.active;
      event_count_active = inc w.base.event_count_active;
    };
  }

  unfoldable pub remove_active : ℕ → World E C → World E C
  remove_active i w =
      if (w.evts i).flags.active
      then record w {
        evts =
            update w.evts i
              (record (w.evts i) { flags = record ((w.evts i).flags) { active = false } });
        base = record (w.base) {
          active = ll.del_init i w.base.active;
          event_count_active = dec w.base.event_count_active;
        };
      }
      else w

  -- The slot of a descriptor; `none` is the NULL for a negative one.
  unfoldable pub map_get_slot : ℤ → World E C → Option ℕ
  map_get_slot fd w = if negative fd then none else some (slot_of fd w.base.sizemask)

  -- The links of the slot of `fd` are changed, and the two counters.
  unfoldable pub relink : ℤ → (C → C) → (ℕ → ℕ) → World E C → World E C
  relink fd change count w =
      let k = slot_of fd w.base.sizemask in
      record w {
        base = record (w.base) {
          slots = update w.base.slots k (change (w.base.slots k));
          used = count w.base.used;
          event_count = count w.base.event_count;
        };
      }

  pub map_add : ℕ → World E C → ℤ × World E C
  map_add i w =
      if negative (w.evts i).fd
      then (pos 0, w)
      else if has_io (w.evts i).events
      then (let (ok, w') = event_register i w in
          if ok then (pos 1, relink (w.evts i).fd (ll.add_tail i) inc w') else (negsuc 0, w'))
      else (pos 0, w)

  unfoldable pub map_remove : ℕ → World E C → ℤ × World E C
  map_remove i w =
      if negative (w.evts i).fd
      then (pos 0, w)
      else if has_io (w.evts i).events
      then (let (ok, w') = event_unregister i w in
          (if ok then pos 1 else negsuc 0, relink (w.evts i).fd (ll.del_init i) dec w'))
      else (pos 0, w)

  pub add_timeout : ℕ → World E C → World E C
  add_timeout i w = if (w.evts i).flags.timeout then w else record w {
    evts =
        update w.evts i
          (record (w.evts i) { flags = record ((w.evts i).flags) { timeout = true } });
    base = record (w.base) {
      tree = tl.insert_color i (walk w.evts (w.evts i).evt_timeout i w.base.tree);
      event_count = inc w.base.event_count;
    };
  }

  unfoldable pub remove_timeout : ℕ → World E C → World E C
  remove_timeout i w =
      if (w.evts i).flags.timeout
      then record w {
        evts =
            update w.evts i
              (record (w.evts i) { flags = record ((w.evts i).flags) { timeout = false } });
        base = record (w.base) {
          tree = tl.erase i w.base.tree;
          event_count = dec w.base.event_count;
        };
      }
      else w

  -- `event_timeget(&now)` where the result is not read: `now` keeps what it held if the clock fails, which is
  -- up to the world outside (in event_process_active it may be the time of an earlier round).
  unfoldable pub now_or_stale : World E C → Timeval × World E C
  now_or_stale w =
      let (t, env) = os.clock w.env in
      (elim t [ none ↦ os.stale w.env | some now ↦ now ], record w { env = env })

  -- The deadline of an event from an interval: absolute, or from now, where a persistent event keeps it.
  pub set_deadline : ℕ → Timeval → Bool → World E C → World E C
  set_deadline i tv true w = put_evt i (record (w.evts i) { evt_timeout = tv }) w
  set_deadline i tv false w =
      let (now, w') = now_or_stale w in
      put_evt i
        (record (w.evts i) {
          timeout = if (w.evts i).events.persist then tv else (w.evts i).timeout;
          evt_timeout = timeadd now tv;
        })
        w'

  pub schedule : ℕ → Timeval → Bool → World E C → World E C
  schedule i tv absolute w = add_timeout i (set_deadline i tv absolute (remove_timeout i w))

  -- event_map_add, for an event that is not registered yet.
  pub map_add_new : ℕ → World E C → ℤ × World E C
  map_add_new i w = if (w.evts i).flags.reg then (pos 0, w) else map_add i w

  pub set_reg : ℕ → World E C → World E C
  set_reg i w = put_flags i (record ((w.evts i).flags) { reg = true }) w

  unfoldable pub clear_reg : ℕ → World E C → World E C
  clear_reg i w = put_flags i (record ((w.evts i).flags) { reg = false }) w

  -- event_add after its checks, by the result of event_map_add.
  pub finish_add : ℕ → Option Timeval → Bool → ℤ → World E C → ℤ × World E C
  finish_add i tv absolute (negsuc n) w = (pos 0, w)
  finish_add i none absolute (pos n) w = (positive_or_zero (pos n), set_reg i w)
  finish_add i (some d) absolute (pos n) w = (pos 1, schedule i d absolute (set_reg i w))

  pub event_add : Option ℕ → Option Timeval → Bool → World E C → ℤ × World E C
  event_add none tv absolute w = (pos 0, w)
  event_add (some i) tv absolute w =
      if not (w.evts i).based
      then (pos 0, w)
      else if (w.evts i).flags.reg && is_none tv
      then (pos 1, w)
      else (let (res, w') = map_add_new i w in finish_add i tv absolute res w')

  pub wba_event_add : Option ℕ → Option Timeval → World E C → ℤ × World E C
  wba_event_add evt none w = event_add evt none false w
  wba_event_add evt (some tv) w =
      if negative tv.sec || negative tv.usec then (pos 0, w) else event_add evt (some tv) false w

  -- The last part of event_del.
  unfoldable pub del_map : ℕ → World E C → ℤ × World E C
  del_map i w =
      if (w.evts i).flags.reg
      then (let (res, w') = map_remove i w in (positive_or_zero res, clear_reg i w'))
      else (pos 0, w)

  unfoldable pub event_del : Option ℕ → World E C → ℤ × World E C
  event_del none w = (pos 0, w)
  event_del (some i) w =
      if not (w.evts i).based
      then (pos 0, w)
      else if not ((w.evts i).flags.reg || (w.evts i).flags.active)
      then (pos 1, w)
      else del_map i (remove_active i (remove_timeout i w))
