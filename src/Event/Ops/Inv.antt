-- ===== src/Event/Ops/Inv.antt =====
-- The representation invariant of an event base: its lists and its tree hold the events that the flags
-- say, the tree in the order of the deadlines, and the counters are their numbers.
pub mod Active
pub mod Time
pub mod Total
pub mod Map
pub mod Register
pub mod Api
use Prim.Native.Nat.{bit_and}
use miscellaneous_repo.Prelude.{
  ℕ, zero, suc, ◌+◌, ◌-◌, ◌%◌, ◌^◌, ◌≤◌, ◌<◌, ◌≡◌, refl, sym, ap, ◌∙◌, Bool, true, false, not, ◌&&◌,
  List, arith, ◌==◌, if◌then◌else◌, length,
}
use miscellaneous_repo.Event.Members.{member, Members, Members-same}
use miscellaneous_repo.Event.{Flags, Mask, has_io, Evt, Tree, inorder, Base, World, ListLib}
use miscellaneous_repo.Event.Ops.{update, negative, slot_of}
use miscellaneous_repo.Event.Ops.Order.{Sorted, Sorted-same, deadline}

-- What hangs on the slots: the registered events with a descriptor and an input or output event.
abbrev pub mapped : Evt → Bool
mapped e = e.flags.reg && (not (negative e.fd) && has_io e.events)

abbrev pub in_slot : ℕ → ℕ → Evt → Bool
in_slot mask k e = mapped e && slot_of e.fd mask == k

abbrev pub is_active : (ℕ → Evt) → ℕ → Bool
is_active evts j = (evts j).flags.active

abbrev pub is_timed : (ℕ → Evt) → ℕ → Bool
is_timed evts j = (evts j).flags.timeout

-- The sum of the first `n` values.
abbrev pub total : (ℕ → ℕ) → ℕ → ℕ
total f zero = 0
total f (suc n) = total f n + f n

module _ {E C : Type 0} (ll : ListLib C) where
  pub record ActiveInv (w : World E C) : Type 0 where
    pub listed : Members (ll.items w.base.active) (is_active w.evts)
    pub counted : w.base.event_count_active ≡ length (ll.items w.base.active) % 2 ^ 32

  pub record TimeInv (w : World E C) : Type 0 where
    pub listed : Members (inorder w.base.tree) (is_timed w.evts)
    pub sorted : Sorted (deadline w.evts) (inorder w.base.tree)
    pub registered :
        (j : ℕ)
        → (w.evts j).flags.timeout ≡ true
        → ((w.evts j).flags.reg ≡ true) × ((w.evts j).based ≡ true)

  pub record MapInv (w : World E C) : Type 0 where
    pub listed :
        (k : ℕ) → Members (ll.items (w.base.slots k)) (λ j. in_slot w.base.sizemask k (w.evts j))

  -- `used` is the number of the events that hang on the slots of the array, `event_count` that and the
  -- number of the events in the tree, and the index that a descriptor gives is one of the array's.
  pub record CountInv (w : World E C) : Type 0 where
    pub linked : w.base.used ≡ total (λ k. length (ll.items (w.base.slots k))) w.base.size % 2 ^ 32
    pub fits : (n : ℕ) → bit_and n w.base.sizemask < w.base.size
    pub counted : w.base.event_count ≡ (w.base.used + length (inorder w.base.tree)) % 2 ^ 32

  pub record Inv (w : World E C) : Type 0 where
    pub active : ActiveInv w
    pub time : TimeInv w
    pub map : MapInv w
    pub count : CountInv w

-- A field of an updated store.
pub update-if :
    {A : Type 0} (f : Evt → A) (evts : ℕ → Evt) (i : ℕ) (e : Evt) (j : ℕ)
    → f (update evts i e j) ≡ (if i == j then f e else f (evts j))
update-if f evts i e j = ground arith

pub update-same :
    {A : Type 0} (f : Evt → A) (evts : ℕ → Evt) (i : ℕ) (e : Evt)
    → f e ≡ f (evts i)
    → (j : ℕ) → f (update evts i e j) ≡ f (evts j)
update-same f evts i e h j = ground (arith, h)

-- Two stores that agree on what the lists and the tree need.
module _ {E C : Type 0} (ll : ListLib C) (w : World E C) (evts : ℕ → Evt) where
  pub TimeInv-same :
      ((j : ℕ) → (evts j).flags.timeout ≡ (w.evts j).flags.timeout)
      → ((j : ℕ) → (evts j).evt_timeout ≡ (w.evts j).evt_timeout)
      → ((j : ℕ) → (evts j).flags.reg ≡ (w.evts j).flags.reg)
      → ((j : ℕ) → (evts j).based ≡ (w.evts j).based)
      → TimeInv ll w
      → TimeInv ll (record w { evts = evts })
  TimeInv-same t d r b v = record {
    listed = Members-same (inorder w.base.tree) (is_timed w.evts) (is_timed evts) v.listed t;
    sorted =
        Sorted-same (deadline w.evts) (deadline evts) (inorder w.base.tree) (λ j m. d j) v.sorted;
    registered = λ j h. let old = v.registered j (sym (t j) ∙ h) in (r j ∙ old.0, b j ∙ old.1);
  }

  pub ActiveInv-same :
      ((j : ℕ) → (evts j).flags.active ≡ (w.evts j).flags.active)
      → ActiveInv ll w
      → ActiveInv ll (record w { evts = evts })
  ActiveInv-same a v = record {
    listed = Members-same (ll.items w.base.active) (is_active w.evts) (is_active evts) v.listed a;
    counted = v.counted;
  }

  pub MapInv-same :
      ((k j : ℕ) → in_slot w.base.sizemask k (evts j) ≡ in_slot w.base.sizemask k (w.evts j))
      → MapInv ll w
      → MapInv ll (record w { evts = evts })
  MapInv-same s v = record {
    listed = λ k.
        Members-same (ll.items (w.base.slots k)) (λ j. in_slot w.base.sizemask k (w.evts j))
          (λ j. in_slot w.base.sizemask k (evts j)) (v.listed k) (s k);
  }

-- What is outside does not count.
pub env-Inv :
    {E C : Type 0} (ll : ListLib C) (w : World E C) (env : E)
    → Inv ll w
    → Inv ll (record w { env = env })
env-Inv ll w env v = record {
  active = record { listed = v.active.listed; counted = v.active.counted };
  time = record { listed = v.time.listed; sorted = v.time.sorted; registered = v.time.registered };
  map = record { listed = v.map.listed };
  count = record { counted = v.count.counted; linked = v.count.linked; fits = v.count.fits };
}
