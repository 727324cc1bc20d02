-- ===== src/Event/Ops/Inv/Map.antt =====
-- Registering an event (event_map_add with the flag that follows) and its reverse keep the invariant.
use miscellaneous_repo.Prelude.{
  ℕ, ◌<◌, [], ◌∷◌, ◌++◌, length-append, ◌+◌, ◌%◌, ◌^◌, ◌≡◌, refl, sym, ap, subst, ◌∙◌, inl, inr,
  Bool, true, false, not, ◌&&◌, arith, ◌==◌, if◌then◌else◌, Bool-cases, length, ==_iff,
}
use miscellaneous_repo.Event.Members.{
  member, remove, length-remove, Members, Members-same, Members-snoc, Members-remove,
}
use miscellaneous_repo.Event.{has_io, Evt, inorder, World, Os, ListLib, TreeLib}
use miscellaneous_repo.Event.Ops.{inc, dec, update, negative, slot_of}
use miscellaneous_repo.Event.Ops.Inv.Total.{total-update, slot_of-fits}
use miscellaneous_repo.Event.Ops.Order.{Sorted, Sorted-same, deadline}
use miscellaneous_repo.Event.Ops.Inv.{
  Inv, mapped, in_slot, total, update-if, update-same, ActiveInv-same,
}

and_false : (b : Bool) → (b && false) ≡ false
and_false true = refl
and_false false = refl

module _ {E C : Type 0} (os : Os E C) (ll : ListLib C) (tl : TreeLib) (i : ℕ) (w : World E C)
    (v : Inv ll w) where
  abbrev pub with_reg : Bool → Evt
  with_reg b = record (w.evts i) { flags = record ((w.evts i).flags) { reg = b } }

  -- The world after the flag and the map have changed.
  abbrev pub changed : Bool → E → (ℕ → C) → ℕ → ℕ → World E C
  changed b env slots used count = record {
    env = env;
    evts = update w.evts i (with_reg b);
    base = record (w.base) { slots = slots; used = used; event_count = count };
  }

  changed-Inv :
      (b : Bool) (env : E) (slots : ℕ → C) (used count : ℕ)
      → ((w.evts i).flags.timeout ≡ true → b ≡ true)
      → ((k : ℕ)
          → Members
              (ll.items (slots k))
              (λ j. in_slot w.base.sizemask k (update w.evts i (with_reg b) j)))
      → used ≡ total (λ k. length (ll.items (slots k))) w.base.size % 2 ^ 32
      → count ≡ (used + length (inorder w.base.tree)) % 2 ^ 32
      → Inv ll (changed b env slots used count)
  changed-Inv b env slots used count timed listed linked counted =
      let e = with_reg b in
      let a =
        ActiveInv-same ll w (update w.evts i e) (update-same (λ x. x.flags.active) w.evts i e refl)
          v.active in
      record {
        active = record { listed = a.listed; counted = a.counted };
        time = record {
          listed = record {
            has = λ j.
                v.time.listed.has j ∙ sym (update-same (λ x. x.flags.timeout) w.evts i e refl j);
            distinct = v.time.listed.distinct;
          };
          sorted = sorted;
          registered = λ j h.
              (ground (arith, timed, v.time.registered j), ground (arith, v.time.registered j));
        };
        map = record { listed = listed };
        count = record { counted = counted; linked = linked; fits = v.count.fits };
      }
    where
      sorted : Sorted (deadline (update w.evts i (with_reg b))) (inorder w.base.tree)
      sorted =
          Sorted-same (deadline w.evts) (deadline (update w.evts i (with_reg b)))
            (inorder w.base.tree)
            (λ j m. update-same (λ x. x.evt_timeout) w.evts i (with_reg b) refl j) v.time.sorted

  -- The flag changes, and what hangs on the slots does not.
  pub flag-Inv :
      (b : Bool) (env : E)
      → ((w.evts i).flags.timeout ≡ true → b ≡ true)
      → mapped (with_reg b) ≡ mapped (w.evts i)
      → Inv ll (changed b env w.base.slots w.base.used w.base.event_count)
  flag-Inv b env timed same =
      changed-Inv b env w.base.slots w.base.used w.base.event_count timed
        (λ k.
          Members-same (ll.items (w.base.slots k)) (λ j. in_slot w.base.sizemask k (w.evts j))
            (λ j. in_slot w.base.sizemask k (update w.evts i (with_reg b) j)) (v.map.listed k)
            (update-same (in_slot w.base.sizemask k) w.evts i (with_reg b)
              (ap (λ m. m && slot_of (w.evts i).fd w.base.sizemask == k) same)))
        v.count.linked v.count.counted

  abbrev pub slot : ℕ
  slot = slot_of (w.evts i).fd w.base.sizemask

  abbrev pub io : Bool
  io = not (negative (w.evts i).fd) && has_io (w.evts i).events

  -- The flag decides about the slot of the event, and about no other.
  in_slot_here :
      (b : Bool) (k : ℕ)
      → io ≡ true
      → (slot == k) ≡ true
      → in_slot w.base.sizemask k (with_reg b) ≡ b
  in_slot_here true k is_io here = ground arith
  in_slot_here false k is_io here = refl

  in_slot_there :
      (b : Bool) (k : ℕ)
      → (slot == k) ≡ false
      → in_slot w.base.sizemask k (with_reg b) ≡ in_slot w.base.sizemask k (w.evts i)
  in_slot_there b k there =
      ap (λ c. mapped (with_reg b) && c) there
      ∙ and_false (mapped (with_reg b))
      ∙ sym (and_false (mapped (w.evts i)))
      ∙ ap (λ c. mapped (w.evts i) && c) (sym there)

  -- The slot of the event changes by `change`, and the other slots keep their events.
  relinked :
      (b : Bool) (change : C → C)
      → io ≡ true
      → ((k : ℕ)
          → (slot == k) ≡ true
          → Members
              (ll.items (change (w.base.slots k)))
              (λ j. if i == j then b else in_slot w.base.sizemask k (w.evts j)))
      → (k : ℕ)
      → Members
          (ll.items (update w.base.slots slot (change (w.base.slots slot)) k))
          (λ j. in_slot w.base.sizemask k (update w.evts i (with_reg b) j))
  relinked b change is_io at_slot k = elim (Bool-cases (slot == k)) [
    | inl here ↦ rw here (
        rw ((==_iff slot k).0 here) (
          Members-same (ll.items (change (w.base.slots k)))
            (λ j. if i == j then b else in_slot w.base.sizemask k (w.evts j))
            (λ j. in_slot w.base.sizemask k (update w.evts i (with_reg b) j)) (at_slot k here)
            (λ j.
              update-if (in_slot w.base.sizemask k) w.evts i (with_reg b) j
              ∙ ap (λ c. if i == j then c else in_slot w.base.sizemask k (w.evts j))
                  (in_slot_here b k is_io here))))
    | inr there ↦ rw there (
        Members-same (ll.items (w.base.slots k)) (λ j. in_slot w.base.sizemask k (w.evts j))
          (λ j. in_slot w.base.sizemask k (update w.evts i (with_reg b) j)) (v.map.listed k)
          (update-same (in_slot w.base.sizemask k) w.evts i (with_reg b) (in_slot_there b k there)))
  ]

  in_slot_off :
      (k : ℕ) → (w.evts i).flags.reg ≡ false → in_slot w.base.sizemask k (w.evts i) ≡ false
  in_slot_off k off = rw off refl

  in_slot_on :
      (w.evts i).flags.reg ≡ true → io ≡ true → in_slot w.base.sizemask slot (w.evts i) ≡ true
  in_slot_on on is_io = ground (arith, on, is_io)

  slot-fits : io ≡ true → slot < w.base.size
  slot-fits is_io =
      slot_of-fits (w.evts i).fd w.base.sizemask w.base.size v.count.fits (ground (arith, is_io))

  -- The number of the linked events, when one more or one fewer hangs on the slot of the event.
  linked_more :
      {c : C}
      → io ≡ true
      → ll.items c ≡ ll.items (w.base.slots slot) ++ (i ∷ [])
      → inc w.base.used
        ≡ total (λ k. length (ll.items (update w.base.slots slot c k))) w.base.size % 2 ^ 32
  linked_more {c = c} is_io added = omega (
    arith,
    v.count.linked,
    total-update (λ l. length (ll.items l)) w.base.slots slot c w.base.size (slot-fits is_io),
    ap length added,
    length-append (ll.items (w.base.slots slot)) (i ∷ []),
  )

  linked_less :
      {c : C}
      → io ≡ true
      → member i (ll.items (w.base.slots slot)) ≡ true
      → ll.items c ≡ remove i (ll.items (w.base.slots slot))
      → dec w.base.used
        ≡ total (λ k. length (ll.items (update w.base.slots slot c k))) w.base.size % 2 ^ 32
  linked_less {c = c} is_io there removed = omega (
    arith,
    v.count.linked,
    total-update (λ l. length (ll.items l)) w.base.slots slot c w.base.size (slot-fits is_io),
    ap length removed,
    length-remove i (ll.items (w.base.slots slot)) there,
  )

  pub linked-Inv :
      (env : E)
      → (w.evts i).flags.reg ≡ false
      → io ≡ true
      → Inv ll (
          changed true env
            (update w.base.slots slot (ll.add_tail i (w.base.slots slot)))
            (inc w.base.used)
            (inc w.base.event_count))
  linked-Inv env off is_io =
      changed-Inv true env (update w.base.slots slot (ll.add_tail i (w.base.slots slot)))
        (inc w.base.used) (inc w.base.event_count) (λ h. refl)
        (relinked true (ll.add_tail i) is_io λ k here.
          let f = λ (j : ℕ). in_slot w.base.sizemask k (w.evts j) in
          let out : in_slot w.base.sizemask k (w.evts i) ≡ false = rw off in
          subst (λ l. Members l (λ j. if i == j then true else f j))
            (sym (ll.items-add_tail i (w.base.slots k) ((v.map.listed k).has i ∙ out)))
            (Members-snoc (ll.items (w.base.slots k)) f (λ j. if i == j then true else f j)
              (v.map.listed k) i out (λ j. refl)))
        (linked_more is_io (
          ll.items-add_tail i (w.base.slots slot)
            ((v.map.listed slot).has i ∙ in_slot_off slot off)))
        (omega (arith, v.count.counted))

  pub unlinked-Inv :
      (env : E)
      → (w.evts i).flags.reg ≡ true
      → (w.evts i).flags.timeout ≡ false
      → io ≡ true
      → Inv ll (
          changed false env
            (update w.base.slots slot (ll.del_init i (w.base.slots slot)))
            (dec w.base.used)
            (dec w.base.event_count))
  unlinked-Inv env on off is_io =
      let there = (v.map.listed slot).has i ∙ in_slot_on on is_io in
      changed-Inv false env (update w.base.slots slot (ll.del_init i (w.base.slots slot)))
        (dec w.base.used) (dec w.base.event_count) (λ h. sym off ∙ h)
        (relinked false (ll.del_init i) is_io λ k here.
          let f = λ (j : ℕ). in_slot w.base.sizemask k (w.evts j) in
          let there : in_slot w.base.sizemask k (w.evts i) ≡ true = rw (on, is_io, here) in
          subst (λ l. Members l (λ j. if i == j then false else f j))
            (sym (ll.items-del_init i (w.base.slots k) ((v.map.listed k).has i ∙ there)))
            (Members-remove (ll.items (w.base.slots k)) f (λ j. if i == j then false else f j)
              (v.map.listed k) i (λ j. refl)))
        (linked_less is_io there (ll.items-del_init i (w.base.slots slot) there))
        (omega (arith, v.count.counted))
