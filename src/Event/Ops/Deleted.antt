-- ===== src/Event/Ops/Deleted.antt =====
-- What event_add_active and event_del leave of an event and of the rest.
use miscellaneous_repo.Prelude.{
  ℕ, ◌≡◌, refl, ap, ◌∙◌, inl, inr, true, false, ◌||◌, some, arith, ◌==◌, Bool-cases, if◌then◌else◌,
}
use miscellaneous_repo.Prelude.Int.{pos}
use miscellaneous_repo.Event.Members.{member, remove}
use miscellaneous_repo.Event.{Mask, Evt, inorder, World, Os, ListLib, TreeLib}
use miscellaneous_repo.Event.Ops.{
  add_active, remove_timeout, remove_active, relink, event_unregister, map_remove, clear_reg,
  del_map, event_del,
}
use miscellaneous_repo.Event.Ops.Inv.{Inv, in_slot}
use miscellaneous_repo.Event.Ops.Inv.Api.{event_del-Inv}

-- An event with no flag but the first.
abbrev pub cleared : Evt → Evt
cleared e = record e { flags = record (e.flags) { reg = false; active = false; timeout = false } }

module _ {E C : Type 0} (os : Os E C) (ll : ListLib C) (tl : TreeLib) (i : ℕ) where
  evts-remove_timeout :
      (w : World E C) (j : ℕ)
      → (remove_timeout os ll tl i w).evts j ≡ (
          if i == j
          then record (w.evts i) { flags = record ((w.evts i).flags) { timeout = false } }
          else w.evts j)
  unfolding remove_timeout
  evts-remove_timeout w j = ground arith

  evts-remove_active :
      (w : World E C) (j : ℕ)
      → (remove_active os ll tl i w).evts j ≡ (
          if i == j
          then record (w.evts i) { flags = record ((w.evts i).flags) { active = false } }
          else w.evts j)
  unfolding remove_active
  evts-remove_active w j = ground arith

  evts-map_remove : (w : World E C) → (map_remove os ll tl i w).1.evts ≡ w.evts
  unfolding map_remove event_unregister relink
  evts-map_remove w = ground arith

  evts-del_map :
      (w : World E C) (j : ℕ)
      → (del_map os ll tl i w).1.evts j ≡ (
          if i == j
          then record (w.evts i) { flags = record ((w.evts i).flags) { reg = false } }
          else w.evts j)
  unfolding del_map clear_reg
  evts-del_map w j = ground (arith, evts-map_remove w)

  tree-remove_active : (w : World E C) → (remove_active os ll tl i w).base.tree ≡ w.base.tree
  unfolding remove_active
  tree-remove_active w = ground arith

  tree-del_map : (w : World E C) → (del_map os ll tl i w).1.base.tree ≡ w.base.tree
  unfolding del_map clear_reg map_remove event_unregister relink
  tree-del_map w = ground arith

  module _ (w : World E C) (v : Inv ll w) (based : (w.evts i).based ≡ true) where
    pub event_del-parts :
        ((w.evts i).flags.reg || (w.evts i).flags.active) ≡ true
        → event_del os ll tl (some i) w
          ≡ del_map os ll tl i (remove_active os ll tl i (remove_timeout os ll tl i w))
    unfolding event_del
    event_del-parts busy = rw (based, busy)

    event_del-idle :
        ((w.evts i).flags.reg || (w.evts i).flags.active) ≡ false
        → event_del os ll tl (some i) w ≡ (pos 1, w)
    unfolding event_del
    event_del-idle idle = rw (based, idle)

    -- event_del clears the flags of its event, and changes no other event.
    pub evts-event_del :
        (j : ℕ)
        → (event_del os ll tl (some i) w).1.evts j
          ≡ (if i == j then cleared (w.evts i) else w.evts j)
    evts-event_del j = elim (Bool-cases ((w.evts i).flags.reg || (w.evts i).flags.active)) [
      | inl busy ↦
          let w₁ = remove_timeout os ll tl i w in
          let w₂ = remove_active os ll tl i w₁ in
          rw (event_del-parts busy) (
            ground (
              arith,
              evts-del_map w₂ j,
              evts-del_map w₂ i,
              evts-remove_active w₁ j,
              evts-remove_active w₁ i,
              evts-remove_timeout w j,
              evts-remove_timeout w i,
            ))
      | inr idle ↦ rw (event_del-idle idle) (ground (arith, idle, v.time.registered i))
    ]

    -- The time tree loses the event, and keeps its order.
    pub inorder-event_del :
        (w.evts i).flags.timeout ≡ true
        → inorder (event_del os ll tl (some i) w).1.base.tree ≡ remove i (inorder w.base.tree)
    inorder-event_del on =
        let w₁ = remove_timeout os ll tl i w in
        let w₂ = remove_active os ll tl i w₁ in
        let busy : ((w.evts i).flags.reg || (w.evts i).flags.active) ≡ true =
          rw (v.time.registered i on).0 in
        rw (event_del-parts busy, tree-del_map w₂, tree-remove_active w₁)
          (unfold remove_timeout in
            rw on (tl.inorder-erase i w.base.tree (v.time.listed.has i ∙ on)))

    -- After event_del the event is in no slot of the map, nor in the active list, nor in the time tree.
    pub event_del-gone :
        let w' = (event_del os ll tl (some i) w).1 in
        ((k : ℕ) → member i (ll.items (w'.base.slots k)) ≡ false)
        × (member i (ll.items w'.base.active) ≡ false)
        × (member i (inorder w'.base.tree) ≡ false)
    event_del-gone =
        let w' = (event_del os ll tl (some i) w).1 in
        let v' = event_del-Inv os ll tl (some i) w v in
        let e : w'.evts i ≡ cleared (w.evts i) = ground (arith, evts-event_del i) in
        (
          λ k. (v'.map.listed k).has i ∙ ap (in_slot w'.base.sizemask k) e,
          v'.active.listed.has i ∙ ap (λ x. x.flags.active) e,
          v'.time.listed.has i ∙ ap (λ x. x.flags.timeout) e,
        )

module _ {E C : Type 0} (os : Os E C) (ll : ListLib C) (tl : TreeLib) where
  pub evts-add_active :
      (x : ℕ) (res : Mask) (w : World E C) (j : ℕ)
      → (w.evts x).flags.active ≡ false
      → (add_active os ll tl x res w).evts j ≡ (
          if x == j
          then record (w.evts x) { res = res; flags = record ((w.evts x).flags) { active = true } }
          else w.evts j)
  unfolding add_active
  evts-add_active x res w j h = ground (arith, h)

  pub tree-add_active :
      (x : ℕ) (res : Mask) (w : World E C) → (add_active os ll tl x res w).base.tree ≡ w.base.tree
  unfolding add_active
  tree-add_active x res w = ground arith

  pub slots-add_active :
      (x : ℕ) (res : Mask) (w : World E C) → (add_active os ll tl x res w).base.slots ≡ w.base.slots
  unfolding add_active
  slots-add_active x res w = ground arith

  pub sizemask-add_active :
      (x : ℕ) (res : Mask) (w : World E C)
      → (add_active os ll tl x res w).base.sizemask ≡ w.base.sizemask
  unfolding add_active
  sizemask-add_active x res w = ground arith

  pub add_active-again :
      (x : ℕ) (res : Mask) (w : World E C)
      → (w.evts x).flags.active ≡ true
      → add_active os ll tl x res w ≡ w
  unfolding add_active
  add_active-again x res w h = rw h refl

  pub env-add_active :
      (x : ℕ) (res : Mask) (w : World E C) → (add_active os ll tl x res w).env ≡ w.env
  unfolding add_active
  env-add_active x res w = ground arith
