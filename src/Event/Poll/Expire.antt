-- ===== src/Event/Poll/Expire.antt =====
-- event_process_timeout fires exactly the events whose deadline has passed.
use mathlib.Core.Path.{fun_ext}
use miscellaneous_repo.Prelude.{
  ℕ, zero, suc, ◌+◌, ◌<◌, ◌≡◌, refl, sym, ap, subst, ◌∙◌, inl, inr, true, false, not, ◌&&◌, some,
  List, [], ◌∷◌, arith, ◌==◌, Bool-cases, if◌then◌else◌, length,
}
use miscellaneous_repo.Event.Time.{Timeval}
use miscellaneous_repo.Event.Members.{member, remove, head?, Distinct}
use miscellaneous_repo.Event.{timeout_mask, Evt, inorder, World, Os, ListLib, TreeLib}
use miscellaneous_repo.Event.Ops.{add_active, event_del}
use miscellaneous_repo.Event.Ops.Order.{deadline}
use miscellaneous_repo.Event.Ops.Inv.{Inv, env-Inv}
use miscellaneous_repo.Event.Ops.Inv.Active.{add_active-Inv}
use miscellaneous_repo.Event.Ops.Inv.Api.{event_del-Inv}
use miscellaneous_repo.Event.Ops.Deleted.{
  cleared, evts-event_del, inorder-event_del, evts-add_active, tree-add_active,
}
use miscellaneous_repo.Event.Poll.Due
use miscellaneous_repo.Event.Poll.{expire_from, process_timeout}
use miscellaneous_repo.Event.Poll.Due.{
  later, due, pending, due-cons, pending-cons, due-none, pending-all, due-nil, pending-nil,
  member-due,
}

-- An event that a time-out has activated.
abbrev pub fired : Evt → Evt
fired e = record e {
  res = timeout_mask;
  flags = record (e.flags) { reg = false; active = true; timeout = false };
}

module _ {E C : Type 0} (os : Os E C) (ll : ListLib C) (tl : TreeLib) where
  -- One event of the tree is deleted and activated.
  fire : ℕ → World E C → World E C
  fire x w = add_active os ll tl x timeout_mask (event_del os ll tl (some x) w).1

  fire-Inv : (x : ℕ) (w : World E C) → Inv ll w → Inv ll (fire x w)
  unfolding fire
  fire-Inv x w v =
      add_active-Inv os ll tl x (event_del os ll tl (some x) w).1
        (event_del-Inv os ll tl (some x) w v) timeout_mask

  evts-fire :
      (x : ℕ) (w : World E C)
      → Inv ll w
      → (w.evts x).based ≡ true
      → (j : ℕ) → (fire x w).evts j ≡ (if x == j then fired (w.evts x) else w.evts j)
  unfolding fire
  evts-fire x w v based j =
      let w' = (event_del os ll tl (some x) w).1 in
      let e : w'.evts x ≡ cleared (w.evts x) =
        ground (arith, evts-event_del os ll tl x w v based x) in
      evts-add_active os ll tl x timeout_mask w' j (ap (λ z. z.flags.active) e)
      ∙ ground (arith, e, evts-event_del os ll tl x w v based j)

  inorder-fire :
      (x : ℕ) (w : World E C)
      → Inv ll w
      → (w.evts x).based ≡ true
      → (w.evts x).flags.timeout ≡ true
      → inorder (fire x w).base.tree ≡ remove x (inorder w.base.tree)
  unfolding fire
  inorder-fire x w v based on =
      ap inorder (tree-add_active os ll tl x timeout_mask (event_del os ll tl (some x) w).1)
      ∙ inorder-event_del os ll tl x w v based on

  -- What the loop has done when it stops, started at the entries `xs` of the tree.
  pub record Expired (now : Timeval) (w : World E C) (xs : List ℕ) (cnt : ℕ) (r : ℕ × World E C)
      : Type 0 where
    pub valid : Inv ll (r.1)
    pub count : r.0 ≡ cnt + length (due (deadline w.evts) now xs)
    pub tree : inorder (r.1.base.tree) ≡ pending (deadline w.evts) now xs
    pub evts :
        (j : ℕ)
        → r.1.evts j
          ≡ (if member j (due (deadline w.evts) now xs) then fired (w.evts j) else w.evts j)

  module _ (now : Timeval) where
    stopped :
        (w : World E C) (xs : List ℕ) (cnt : ℕ)
        → Inv ll w
        → due (deadline w.evts) now xs ≡ []
        → inorder w.base.tree ≡ pending (deadline w.evts) now xs
        → Expired now w xs cnt (cnt, w)
    stopped w xs cnt v none_due tree = record {
      valid = v;
      count = rw none_due (omega arith);
      tree = tree;
      evts = λ j. rw none_due;
    }

    -- One due event at the front, and then the rest.
    fired_first :
        (w : World E C) (x : ℕ) (xs : List ℕ) (cnt : ℕ) (r : ℕ × World E C)
        → Inv ll w
        → (w.evts x).based ≡ true
        → later (w.evts x).evt_timeout now ≡ false
        → member x xs ≡ false
        → Expired now (fire x w) xs (suc cnt) r
        → Expired now w (x ∷ xs) cnt r
    fired_first w x xs cnt r v based passed out h = record {
      valid = h.valid;
      count = h.count ∙ rw (same, first) (omega arith);
      tree = h.tree ∙ rw same (sym (pending-cons (deadline w.evts) now x xs passed));
      evts = λ j. h.evts j ∙ rw (same, first) (ground (arith, evts-fire x w v based j, not_again));
    }
      where
        evts' : ℕ → Evt
        evts' = (fire x w).evts

        same : deadline evts' ≡ deadline w.evts
        same = fun_ext λ j. ground (arith, evts-fire x w v based j)

        first : due (deadline w.evts) now (x ∷ xs) ≡ x ∷ due (deadline w.evts) now xs
        first = due-cons (deadline w.evts) now x xs passed

        not_again : member x (due (deadline w.evts) now xs) ≡ false
        not_again = Due.due_only (deadline w.evts) now x xs out

    expire_from-Expired :
        (f : ℕ) (xs : List ℕ) (cnt : ℕ) (w : World E C)
        → Inv ll w
        → inorder w.base.tree ≡ xs
        → length xs < f
        → Expired now w xs cnt (expire_from os ll tl f (head? xs) now cnt w)
    unfolding expire_from fire
    expire_from-Expired zero xs cnt w v e h = absurd (omega arith)
    expire_from-Expired (suc f) [] cnt w v e h =
        stopped w [] cnt v (due-nil (deadline w.evts) now)
          (e ∙ sym (pending-nil (deadline w.evts) now))
    expire_from-Expired (suc f) (x ∷ xs) cnt w v e h =
        elim (Bool-cases (later (w.evts x).evt_timeout now)) [
          | inl l ↦ rw l (
              stopped w (x ∷ xs) cnt v (due-none (deadline w.evts) now x xs l)
                (e ∙ sym (pending-all (deadline w.evts) now x xs l)))
          | inr passed ↦
              let there : member x (inorder w.base.tree) ≡ true = rw e (ground arith) in
              let on = sym (v.time.listed.has x) ∙ there in
              let based = (v.time.registered x on).1 in
              let distinct = subst Distinct e v.time.listed.distinct in
              let next = tl.next-after w.base.tree [] xs x e refl in
              let tree : inorder (fire x w).base.tree ≡ xs =
                inorder-fire x w v based on ∙ ap (remove x) e ∙ ground arith in
              rw (passed, next)
                (fired_first w x xs cnt _ v based passed distinct.0 (
                  expire_from-Expired f xs (suc cnt) (fire x w) (fire-Inv x w v) tree
                    (omega arith)))
        ]

  -- event_process_timeout, where the clock says `now`: every event in the time tree whose deadline is not
  -- later than `now` is taken out of the tree and the map and is active with the time-out as its result,
  -- every other event is as it was, the result is the number of the former, and the invariant is kept.
  pub process_timeout-fires :
      (w : World E C) (now : Timeval)
      → Inv ll w
      → (os.clock w.env).0 ≡ some now
      → let r = process_timeout os ll tl w in
        Inv ll r.1
        × ((j : ℕ)
            → r.1.evts j ≡ (
                if (w.evts j).flags.timeout && not (later (w.evts j).evt_timeout now)
                then fired (w.evts j)
                else w.evts j))
        × (r.0 ≡ length (due (deadline w.evts) now (inorder w.base.tree)))
  unfolding process_timeout
  process_timeout-fires w now v clock =
      let w' = record w { env = (os.clock w.env).1 } in
      let x =
        expire_from-Expired now (suc (length (inorder w.base.tree))) (inorder w.base.tree) 0 w'
          (env-Inv ll w (os.clock w.env).1 v) refl (omega arith) in
      rw (clock, process_timeout)
        (rw (tl.first-head w.base.tree) (
          x.valid,
          λ j.
              x.evts j
              ∙ ap (λ b. if b then fired (w.evts j) else w.evts j)
                  (member-due (deadline w.evts) now j (inorder w.base.tree) v.time.sorted
                    ∙ ap (λ b. b && not (later (w.evts j).evt_timeout now)) (v.time.listed.has j)),
          x.count ∙ omega arith,
        ))
