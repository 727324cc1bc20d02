-- ===== src/Event/Ops/Inv/Active.antt =====
-- event_add_active and event_remove_active keep the invariant.
use miscellaneous_repo.Prelude.{
  ℕ, refl, sym, ap, subst, ◌∙◌, inl, inr, Bool, true, false, [], ◌∷◌, arith, Bool-cases, length,
  length-append,
}
use miscellaneous_repo.Event.Members.{Members, Members-snoc, Members-remove, length-remove}
use miscellaneous_repo.Event.{Mask, Evt, World, Os, ListLib, TreeLib}
use miscellaneous_repo.Event.Ops.{inc, dec, update, add_active, remove_active}
use miscellaneous_repo.Event.Ops.Inv.{
  ActiveInv, Inv, is_active, in_slot, update-if, update-same, TimeInv-same, MapInv-same,
}

module _ {E C : Type 0} (os : Os E C) (ll : ListLib C) (tl : TreeLib) (i : ℕ) (w : World E C)
    (v : Inv ll w) where
  -- An event whose `active` flag and result change.
  abbrev flagged : Bool → Mask → Evt
  flagged b res = record (w.evts i) { res = res; flags = record ((w.evts i).flags) { active = b } }

  rest-Inv :
      (b : Bool) (res : Mask) (c : C) (n : ℕ)
      → ActiveInv ll (record w {
        evts = update w.evts i (flagged b res);
        base = record (w.base) { active = c; event_count_active = n };
      })
      → Inv ll (record w {
        evts = update w.evts i (flagged b res);
        base = record (w.base) { active = c; event_count_active = n };
      })
  rest-Inv b res c n a =
      let e = flagged b res in
      let t =
        TimeInv-same ll w (update w.evts i e) (update-same (λ x. x.flags.timeout) w.evts i e refl)
          (update-same (λ x. x.evt_timeout) w.evts i e refl)
          (update-same (λ x. x.flags.reg) w.evts i e refl)
          (update-same (λ x. x.based) w.evts i e refl) v.time in
      let m =
        MapInv-same ll w (update w.evts i e)
          (λ k. update-same (in_slot w.base.sizemask k) w.evts i e refl) v.map in
      record {
        active = a;
        time = record { listed = t.listed; sorted = t.sorted; registered = t.registered };
        map = record { listed = m.listed };
        count = record { counted = v.count.counted; linked = v.count.linked; fits = v.count.fits };
      }

  pub add_active-Inv : (res : Mask) → Inv ll (add_active os ll tl i res w)
  unfolding add_active
  add_active-Inv res = elim (Bool-cases (w.evts i).flags.active) [
    | inl on ↦ rw on v
    | inr off ↦
        let out = v.active.listed.has i ∙ off in
        let e = flagged true res in
        let added = ll.items-add_tail i w.base.active out in
        rw off (
          rest-Inv true res (ll.add_tail i w.base.active) (inc w.base.event_count_active) (record {
            listed =
                subst (λ l. Members l (is_active (update w.evts i e))) (sym added)
                  (Members-snoc (ll.items w.base.active) (is_active w.evts)
                    (is_active (update w.evts i e)) v.active.listed i off
                    (update-if (λ x. x.flags.active) w.evts i e));
            counted = omega (
              arith,
              v.active.counted,
              ap length added,
              length-append (ll.items w.base.active) (i ∷ []),
            );
          }))
  ]

  pub remove_active-Inv : Inv ll (remove_active os ll tl i w)
  unfolding remove_active
  remove_active-Inv = elim (Bool-cases (w.evts i).flags.active) [
    | inr off ↦ rw off v
    | inl on ↦
        let there = v.active.listed.has i ∙ on in
        let e = flagged false (w.evts i).res in
        let removed = ll.items-del_init i w.base.active there in
        rw on (
          rest-Inv false (w.evts i).res (ll.del_init i w.base.active)
            (dec w.base.event_count_active)
            (record {
              listed =
                  subst (λ l. Members l (is_active (update w.evts i e))) (sym removed)
                    (Members-remove (ll.items w.base.active) (is_active w.evts)
                      (is_active (update w.evts i e)) v.active.listed i
                      (update-if (λ x. x.flags.active) w.evts i e));
              counted = omega (
                arith,
                v.active.counted,
                ap length removed,
                length-remove i (ll.items w.base.active) there,
              );
            }))
  ]
