-- ===== src/Event/Life.antt =====
-- How events and bases come and go in network/wba_event/wba_evloop.c.
-- What malloc returns is an argument: the number of the new event, or `none` for NULL.
pub mod Laws
pub mod NewBase
use miscellaneous_repo.Prelude.{
  ℕ, zero, suc, ◌+◌, ◌-◌, ◌≡◌, Bool, true, false, not, ◌&&◌, ◌||◌, Option, none, some, List, [],
  ◌∷◌, ◌==◌, if◌then◌else◌, length,
}
use miscellaneous_repo.Prelude.Int.{ℤ, pos, negsuc}
use miscellaneous_repo.Event.Time.{Timeval}
use miscellaneous_repo.Event.{
  Flags, Mask, no_flags, no_mask, Evt, Tree, leaf, inorder, Base, World, Os, ListLib, TreeLib,
}
use miscellaneous_repo.Event.Ops.{negative, update, put_evt, event_del}

abbrev pub map_size : ℕ
map_size = 32

abbrev zero_time : Timeval
zero_time = record { sec = pos 0; usec = pos 0 }

-- An event after memset and the assignments that follow it.
abbrev pub fresh_evt : ℤ → Mask → ℕ → ℕ → Evt
fresh_evt fd events fn arg = record {
  fn = fn;
  arg = arg;
  fd = if negative fd then negsuc 0 else fd;
  based = true;
  flags = record { init = true; reg = false; active = false; timeout = false };
  events = events;
  res = record { read = false; write = false; timeout = false; closed = false; persist = false };
  timeout = zero_time;
  evt_timeout = zero_time;
}

module _ {E C : Type 0} (os : Os E C) (ll : ListLib C) (tl : TreeLib) where
  -- `selfptr` is the address that stands for the event itself; `has_base` says that `base` is not NULL.
  pub event_new : ℕ → Option ℕ → Bool → ℤ → Mask → Option ℕ → ℕ → World E C → Option ℕ × World E C
  event_new selfptr block has_base fd events none arg w = (none, w)
  event_new selfptr block false fd events (some fn) arg w = (none, w)
  event_new selfptr none true fd events (some fn) arg w = (none, w)
  event_new selfptr (some i) true fd events (some fn) arg w =
      (some i, put_evt i (fresh_evt fd events fn (if arg == selfptr then i else arg)) w)

  -- memset zeroes the links of the event too: an active event is then still among the active ones, with no
  -- way on from it. One that is not registered is in no slot and not in the tree.
  pub event_assign : Option ℕ → Bool → ℤ → Mask → Option ℕ → ℕ → World E C → ℤ × World E C
  event_assign none has_base fd events fn arg w = (pos 0, w)
  event_assign (some i) false fd events fn arg w = (pos 0, w)
  event_assign (some i) true fd events none arg w = (pos 0, w)
  event_assign (some i) true fd events (some fn) arg w =
      if (w.evts i).flags.reg then (pos 0, w) else (
        pos 1,
        put_evt i (fresh_evt fd events fn arg)
            (record w { base = record (w.base) { active = ll.wipe i w.base.active } }),
      )

  -- What free does with the block is not seen.
  pub event_free : Option ℕ → World E C → World E C
  event_free evt w = (event_del os ll tl evt w).1

  -- The loop of INIT_LIST_HEAD over the first `n` heads of the array.
  pub init_slots : ℕ → (ℕ → C) → ℕ → C
  init_slots zero slots = slots
  init_slots (suc i) slots = update (init_slots i slots) i ll.init

  -- Whether epoll_create and each of the three calls of malloc succeeds, and what the array of the heads
  -- then holds.
  pub evtbase_new : Bool → Bool → Bool → Bool → (ℕ → C) → Option (Base C)
  evtbase_new false base_ok events_ok map_ok raw = none
  evtbase_new true false events_ok map_ok raw = none
  evtbase_new true true false map_ok raw = none
  evtbase_new true true true false raw = none
  evtbase_new true true true true raw = some (record {
    size = map_size;
    sizemask = map_size - 1;
    used = 0;
    slots = init_slots map_size raw;
    tree = leaf;
    active = ll.init;
    event_count = 0;
    event_count_active = 0;
  })

  -- The walk of wba_evtbase_free along slot `k`; `n` is the entry behind `p`, taken before the deletion.
  pub del_slot : ℕ → ℕ → Option ℕ → Option ℕ → ℕ → World E C → ℕ × World E C
  del_slot zero k p n cnt w = (cnt, w)
  del_slot (suc f) k none n cnt w = (cnt, w)
  del_slot (suc f) k (some p) n cnt w =
      let w' = (event_del os ll tl (some p) w).1 in
      del_slot f k n (ll.next (w'.base.slots k) n) (suc cnt) w'

  -- The slots from `k` on, `m` of them.
  pub del_slots : ℕ → ℕ → ℕ → World E C → ℕ × World E C
  del_slots zero k cnt w = (cnt, w)
  del_slots (suc m) k cnt w =
      let c = w.base.slots k in
      let p = ll.next c none in
      let (cnt', w') = del_slot (suc (length (ll.items c))) k p (ll.next c p) cnt w in
      del_slots m (suc k) cnt' w'

  pub del_tree : ℕ → Option ℕ → ℕ → World E C → ℕ × World E C
  del_tree zero p cnt w = (cnt, w)
  del_tree (suc f) none cnt w = (cnt, w)
  del_tree (suc f) (some p) cnt w =
      let next = tl.next w.base.tree p in
      del_tree f next (suc cnt) (event_del os ll tl (some p) w).1

  -- The number of events that were still set, and the world before the base is given back.
  pub evtbase_free : World E C → ℕ × World E C
  evtbase_free w =
      let (cnt, w') = del_slots w.base.size 0 0 w in
      del_tree (suc (length (inorder w'.base.tree))) (tl.first w'.base.tree) cnt w'
