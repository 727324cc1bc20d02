-- ===== src/Event.antt =====
-- network/wba_event/wba_evloop.c and wba_evloop.h: an event loop over epoll, with time-outs.
-- A `wba_evt_t *` is a number, with `none` for NULL where the code tests it; a `World` holds every event
-- and the one base. The bits of `flags`, `events` and `res` that the header names are Booleans.
-- What is not this program's is a parameter: the kernel, the C library, the callbacks (`Os`), the lists
-- of list.h (`ListLib`) and the red-black tree of rbtree.c (`TreeLib`).
pub mod Time
pub mod Members
pub mod Ops
pub mod Poll
pub mod Life
mod Tests
use miscellaneous_repo.Prelude.{
  ℕ, suc, ◌+◌, ◌-◌, ◌%◌, ◌^◌, ◌≤◌, ◌≡◌, Bool, true, false, ◌&&◌, ◌||◌, Option, none, some, List, [],
  ◌∷◌, ◌++◌, ◌==◌, if◌then◌else◌,
}
use miscellaneous_repo.Prelude.Int.{ℤ, pos, negsuc}
use Time.{Timeval}
use Members.{member, remove, head?}

-- WBA_EVTLIST_INIT, _REG, _ACTIVE and _TIMEOUT.
pub record Flags : Type 0 where
  pub init : Bool
  pub reg : Bool
  pub active : Bool
  pub timeout : Bool

-- WBA_EVT_READ, _WRITE, _TIMEOUT, _CLOSED and _PERSIST.
pub record Mask : Type 0 where
  pub read : Bool
  pub write : Bool
  pub timeout : Bool
  pub closed : Bool
  pub persist : Bool

pub no_flags : Flags
no_flags = record { init = false; reg = false; active = false; timeout = false }

pub no_mask : Mask
no_mask = record { read = false; write = false; timeout = false; closed = false; persist = false }

abbrev pub timeout_mask : Mask
timeout_mask = record {
  read = false;
  write = false;
  timeout = true;
  closed = false;
  persist = false;
}

-- `a & b`, and whether it is not 0.
abbrev pub mask_and : Mask → Mask → Mask
mask_and a b = record {
  read = a.read && b.read;
  write = a.write && b.write;
  timeout = a.timeout && b.timeout;
  closed = a.closed && b.closed;
  persist = a.persist && b.persist;
}

abbrev pub mask_any : Mask → Bool
mask_any a = a.read || (a.write || (a.timeout || (a.closed || a.persist)))

-- `events & (WBA_EVT_READ | WBA_EVT_WRITE | WBA_EVT_CLOSED)`
abbrev pub has_io : Mask → Bool
has_io a = a.read || (a.write || a.closed)

-- The callback and its argument are known by number. `based` says that `evt->base` is not NULL.
pub record Evt : Type 0 where
  pub fn : ℕ
  pub arg : ℕ
  pub fd : ℤ
  pub based : Bool
  pub flags : Flags
  pub events : Mask
  pub res : Mask
  pub timeout : Timeval
  pub evt_timeout : Timeval

-- The children of the nodes of the time tree; a node is its event. Colours and parents are rbtree.c's.
pub data Tree : Type 0 where
  leaf : Tree
  node : Tree → ℕ → Tree → Tree

-- The events of a tree in its order.
unfoldable pub inorder : Tree → List ℕ
inorder leaf = []
inorder (node l i r) = inorder l ++ (i ∷ inorder r)

-- `slots` is evt_map.evt_list; the counters are 32 bits wide.
pub record Base (C : Type 0) : Type 0 where
  pub size : ℕ
  pub sizemask : ℕ
  pub used : ℕ
  pub slots : ℕ → C
  pub tree : Tree
  pub active : C
  pub event_count : ℕ
  pub event_count_active : ℕ

-- `env` is the state of all that is outside.
pub record World (E C : Type 0) : Type 0 where
  pub env : E
  pub evts : ℕ → Evt
  pub base : Base C

-- EPOLLIN, EPOLLOUT, EPOLLRDHUP, and EPOLLHUP or EPOLLERR, as epoll_wait reports them.
pub record Ready : Type 0 where
  pub fd : ℤ
  pub into : Bool
  pub out : Bool
  pub rdhup : Bool
  pub broken : Bool

-- EPOLLIN, EPOLLOUT and EPOLLRDHUP, as epoll_ctl is asked for them.
pub record Interest : Type 0 where
  pub into : Bool
  pub out : Bool
  pub rdhup : Bool

-- epoll_ctl says whether it succeeds, clock_gettime (cut to microseconds) and epoll_wait may fail, and a
-- callback may do anything to the world. `stale` is what a `struct timeval now` holds that the clock has
-- not set this time: what was on the stack, or what it held in the round of the loop before.
pub record Os (E C : Type 0) : Type 0 where
  pub epoll_add : ℤ → Interest → E → Bool × E
  pub epoll_del : ℤ → E → Bool × E
  pub clock : E → Option Timeval × E
  pub epoll_wait : ℤ → E → Option (List Ready) × E
  pub stale : E → Timeval
  pub call : ℕ → ℤ → Mask → ℕ → World E C → World E C

-- The lists of list.h, by their heads: `C` is what hangs on a head, and `items` the entries from first to
-- last. `next c none` is the entry behind the head, `next c (some e)` the one behind `e`, and `none` the
-- head. An entry is added where it is in no list, and deleted where it is in this one. `wipe e c` is the list
-- after the links of the entry `e` have been zeroed; where `e` is not in it, it is the same list.
pub record ListLib (C : Type 0) : Type 0 where
  pub items : C → List ℕ
  pub init : C
  pub add_tail : ℕ → C → C
  pub del_init : ℕ → C → C
  pub wipe : ℕ → C → C
  pub next : C → Option ℕ → Option ℕ
  pub items-init : items init ≡ []
  pub items-add_tail :
      (e : ℕ) (c : C) → member e (items c) ≡ false → items (add_tail e c) ≡ items c ++ (e ∷ [])
  pub items-del_init :
      (e : ℕ) (c : C) → member e (items c) ≡ true → items (del_init e c) ≡ remove e (items c)
  pub items-wipe : (e : ℕ) (c : C) → member e (items c) ≡ false → items (wipe e c) ≡ items c
  pub next-head : (c : C) → next c none ≡ head? (items c)
  pub next-entry :
      (c : C) (xs ys : List ℕ) (e : ℕ)
      → items c ≡ xs ++ (e ∷ ys)
      → member e xs ≡ false
      → next c (some e) ≡ head? ys

-- The tree of rbtree.c: to rebalance keeps the order, to erase takes one node out of it, and rb_first and
-- rb_next follow it.
pub record TreeLib : Type 0 where
  pub insert_color : ℕ → Tree → Tree
  pub erase : ℕ → Tree → Tree
  pub first : Tree → Option ℕ
  pub next : Tree → ℕ → Option ℕ
  pub inorder-insert_color : (e : ℕ) (t : Tree) → inorder (insert_color e t) ≡ inorder t
  pub inorder-erase :
      (e : ℕ) (t : Tree) → member e (inorder t) ≡ true → inorder (erase e t) ≡ remove e (inorder t)
  pub first-head : (t : Tree) → first t ≡ head? (inorder t)
  pub next-after :
      (t : Tree) (xs ys : List ℕ) (e : ℕ)
      → inorder t ≡ xs ++ (e ∷ ys)
      → member e xs ≡ false
      → next t e ≡ head? ys
