-- ===== src/Event/Ops/Inv/Time.antt =====
-- event_add_timeout, event_remove_timeout and a new deadline keep the invariant.
use miscellaneous_repo.Prelude.{
  ℕ, ◌+◌, ◌%◌, ◌^◌, ◌≡◌, refl, sym, ap, subst, ◌∙◌, inl, inr, Bool, true, false, arith, ◌==◌,
  if◌then◌else◌, Bool-cases, length,
}
use miscellaneous_repo.Event.Time.{Timeval}
use miscellaneous_repo.Event.Members.{remove, Members, Members-remove, length-remove}
use miscellaneous_repo.Event.{Evt, Tree, inorder, World, Os, ListLib, TreeLib}
use miscellaneous_repo.Event.Ops.{inc, dec, update, walk, add_timeout, remove_timeout}
use miscellaneous_repo.Event.Ops.Order.{
  Sorted, Sorted-same, deadline, insert_by, member-insert_by, length-insert_by, insert_by-Distinct,
  insert_by-Sorted, inorder-walk, remove-Sorted,
}
use miscellaneous_repo.Event.Ops.Inv.{
  TimeInv, Inv, is_timed, in_slot, update-if, update-same, ActiveInv-same, MapInv-same,
}

module _ {E C : Type 0} (os : Os E C) (ll : ListLib C) (tl : TreeLib) (i : ℕ) (w : World E C)
    (v : Inv ll w) where
  abbrev timed : Bool → Evt
  timed b = record (w.evts i) { flags = record ((w.evts i).flags) { timeout = b } }

  rest-Inv :
      (b : Bool) (t : Tree) (n : ℕ)
      → TimeInv ll (record w {
        evts = update w.evts i (timed b);
        base = record (w.base) { tree = t; event_count = n };
      })
      → n ≡ (w.base.used + length (inorder t)) % 2 ^ 32
      → Inv ll (record w {
        evts = update w.evts i (timed b);
        base = record (w.base) { tree = t; event_count = n };
      })
  rest-Inv b t n time count =
      let e = timed b in
      let a =
        ActiveInv-same ll w (update w.evts i e) (update-same (λ x. x.flags.active) w.evts i e refl)
          v.active in
      let m =
        MapInv-same ll w (update w.evts i e)
          (λ k. update-same (in_slot w.base.sizemask k) w.evts i e refl) v.map in
      record {
        active = record { listed = a.listed; counted = a.counted };
        time = time;
        map = record { listed = m.listed };
        count = record { counted = count; linked = v.count.linked; fits = v.count.fits };
      }

  same_deadline : (b : Bool) (j : ℕ) → deadline (update w.evts i (timed b)) j ≡ deadline w.evts j
  same_deadline b = update-same (λ x. x.evt_timeout) w.evts i (timed b) refl

  -- The order of the tree after event_add_timeout.
  pub inorder-add :
      inorder (tl.insert_color i (walk w.evts (w.evts i).evt_timeout i w.base.tree))
      ≡ insert_by (deadline w.evts) (w.evts i).evt_timeout i (inorder w.base.tree)
  inorder-add =
      tl.inorder-insert_color i (walk w.evts (w.evts i).evt_timeout i w.base.tree)
      ∙ inorder-walk w.evts (w.evts i).evt_timeout i w.base.tree v.time.sorted

  pub add_timeout-Inv :
      (w.evts i).flags.reg ≡ true → (w.evts i).based ≡ true → Inv ll (add_timeout os ll tl i w)
  unfolding add_timeout
  add_timeout-Inv reg based = elim (Bool-cases (w.evts i).flags.timeout) [
    | inl on ↦ rw on v
    | inr off ↦
        let key = deadline w.evts in
        let t = (w.evts i).evt_timeout in
        let old = inorder w.base.tree in
        let e = timed true in
        let evts' = update w.evts i e in
        rw off (
          rest-Inv true (tl.insert_color i (walk w.evts t i w.base.tree)) (inc w.base.event_count)
            (record {
              listed =
                  subst (λ l. Members l (is_timed evts')) (sym inorder-add)
                    (record {
                      has = λ j.
                          member-insert_by key t i j old
                          ∙ ap (λ b. if i == j then true else b) (v.time.listed.has j)
                          ∙ sym (update-if (λ x. x.flags.timeout) w.evts i e j);
                      distinct =
                          insert_by-Distinct key t i old (v.time.listed.has i ∙ off)
                            v.time.listed.distinct;
                    });
              sorted = subst (Sorted (deadline evts')) (sym inorder-add) (
                  Sorted-same key (deadline evts') (insert_by key t i old)
                    (λ j m. same_deadline true j)
                    (insert_by-Sorted key t i old refl v.time.sorted));
              registered = λ j h. (
                ground (arith, reg, v.time.registered j),
                ground (arith, based, v.time.registered j),
              );
            })
            (omega (arith, v.count.counted, ap length inorder-add, length-insert_by key t i old)))
  ]

  pub remove_timeout-Inv : Inv ll (remove_timeout os ll tl i w)
  unfolding remove_timeout
  remove_timeout-Inv = elim (Bool-cases (w.evts i).flags.timeout) [
    | inr off ↦ rw off v
    | inl on ↦
        let old = inorder w.base.tree in
        let there = v.time.listed.has i ∙ on in
        let e = timed false in
        let evts' = update w.evts i e in
        let erased = tl.inorder-erase i w.base.tree there in
        rw on (
          rest-Inv false (tl.erase i w.base.tree) (dec w.base.event_count)
            (record {
              listed =
                  subst (λ l. Members l (is_timed evts')) (sym erased)
                    (Members-remove old (is_timed w.evts) (is_timed evts') v.time.listed i
                      (update-if (λ x. x.flags.timeout) w.evts i e));
              sorted = subst (Sorted (deadline evts')) (sym erased) (
                  Sorted-same (deadline w.evts) (deadline evts') (remove i old)
                    (λ j m. same_deadline false j)
                    (remove-Sorted (deadline w.evts) i old v.time.sorted));
              registered =
                  λ j h. (ground (arith, v.time.registered j), ground (arith, v.time.registered j));
            })
            (omega (arith, v.count.counted, ap length erased, length-remove i old there)))
  ]

  -- A deadline may change where the event is not in the tree.
  pub new_deadline-Inv :
      (t d : Timeval)
      → (w.evts i).flags.timeout ≡ false
      → Inv ll
          (record w { evts = update w.evts i (record (w.evts i) { timeout = t; evt_timeout = d }) })
  new_deadline-Inv t d off =
      let e = record (w.evts i) { timeout = t; evt_timeout = d } in
      let evts' = update w.evts i e in
      let a =
        ActiveInv-same ll w evts' (update-same (λ x. x.flags.active) w.evts i e refl) v.active in
      let m =
        MapInv-same ll w evts' (λ k. update-same (in_slot w.base.sizemask k) w.evts i e refl)
          v.map in
      record {
        active = record { listed = a.listed; counted = a.counted };
        time = record {
          listed = record {
            has = λ j.
                v.time.listed.has j ∙ sym (update-same (λ x. x.flags.timeout) w.evts i e refl j);
            distinct = v.time.listed.distinct;
          };
          sorted =
              Sorted-same (deadline w.evts) (deadline evts') (inorder w.base.tree)
                (λ j h. ground (arith, off, v.time.listed.has j)) v.time.sorted;
          registered =
              λ j h. (ground (arith, v.time.registered j), ground (arith, v.time.registered j));
        };
        map = record { listed = m.listed };
        count = record { counted = v.count.counted; linked = v.count.linked; fits = v.count.fits };
      }
