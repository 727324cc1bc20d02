-- ===== src/Event/Ops/Kept.antt =====
-- What event_add and event_del leave alone: the active list but for the deleted event, and the bases.
use miscellaneous_repo.Prelude.{
  ℕ, ◌≡◌, refl, ap, ◌∙◌, inl, inr, Bool, true, false, ◌&&◌, ◌||◌, Option, none, some, arith,
  Bool-cases,
}
use miscellaneous_repo.Prelude.Int.{ℤ, pos, negsuc}
use miscellaneous_repo.Event.Time.{Timeval}
use miscellaneous_repo.Event.Members.{remove}
use miscellaneous_repo.Event.{Mask, Evt, World, Os, ListLib, TreeLib}
use miscellaneous_repo.Event.Ops.{
  is_none, event_register, relink, map_add, map_add_new, remove_timeout, add_timeout, set_deadline,
  now_or_stale, schedule, set_reg, finish_add, event_add, remove_active, event_unregister,
  map_remove, clear_reg, del_map, event_del,
}
use miscellaneous_repo.Event.Ops.Inv.{Inv}
use miscellaneous_repo.Event.Ops.Inv.Time.{remove_timeout-Inv}
use miscellaneous_repo.Event.Ops.Deleted.{event_del-parts}

-- What an event's callback is called with.
pub record Call : Type 0 where
  pub fn : ℕ
  pub fd : ℤ
  pub res : Mask
  pub arg : ℕ

abbrev pub call_of : Evt → Call
call_of e = record { fn = e.fn; fd = e.fd; res = e.res; arg = e.arg }

module _ {E C : Type 0} (os : Os E C) (ll : ListLib C) (tl : TreeLib) where
  -- The same active list, no event gets or loses its base, and none is called differently.
  pub record Keeps (w w' : World E C) : Type 0 where
    pub active : w'.base.active ≡ w.base.active
    pub call : (j : ℕ) → call_of (w'.evts j) ≡ call_of (w.evts j)
    pub based : (j : ℕ) → (w'.evts j).based ≡ (w.evts j).based

  Keeps-refl : (w : World E C) → Keeps w w
  Keeps-refl w = record { active = refl; call = λ j. refl; based = λ j. refl }

  Keeps-trans : {u v w : World E C} → Keeps u v → Keeps v w → Keeps u w
  Keeps-trans a b = record {
    active = b.active ∙ a.active;
    call = λ j. b.call j ∙ a.call j;
    based = λ j. b.based j ∙ a.based j;
  }

  remove_timeout-Keeps : (i : ℕ) (w : World E C) → Keeps w (remove_timeout os ll tl i w)
  unfolding remove_timeout
  remove_timeout-Keeps i w = record {
    active = ground arith;
    call = λ j. ground arith;
    based = λ j. ground arith;
  }

  add_timeout-Keeps : (i : ℕ) (w : World E C) → Keeps w (add_timeout os ll tl i w)
  unfolding add_timeout
  add_timeout-Keeps i w = record {
    active = ground arith;
    call = λ j. ground arith;
    based = λ j. ground arith;
  }

  set_deadline-Keeps :
      (i : ℕ) (tv : Timeval) (absolute : Bool) (w : World E C)
      → Keeps w (set_deadline os ll tl i tv absolute w)
  unfolding set_deadline now_or_stale
  set_deadline-Keeps i tv true w = record {
    active = refl;
    call = λ j. ground arith;
    based = λ j. ground arith;
  }
  set_deadline-Keeps i tv false w = record {
    active = refl;
    call = λ j. ground arith;
    based = λ j. ground arith;
  }

  set_reg-Keeps : (i : ℕ) (w : World E C) → Keeps w (set_reg os ll tl i w)
  unfolding set_reg
  set_reg-Keeps i w = record { active = refl; call = λ j. ground arith; based = λ j. ground arith }

  map_add_new-Keeps : (i : ℕ) (w : World E C) → Keeps w (map_add_new os ll tl i w).1
  unfolding map_add_new map_add event_register relink
  map_add_new-Keeps i w = record {
    active = ground arith;
    call = λ j. ground arith;
    based = λ j. ground arith;
  }

  finish_add-Keeps :
      (i : ℕ) (tv : Option Timeval) (absolute : Bool) (res : ℤ) (w : World E C)
      → Keeps w (finish_add os ll tl i tv absolute res w).1
  unfolding finish_add schedule
  finish_add-Keeps i tv absolute (negsuc n) w = Keeps-refl w
  finish_add-Keeps i none absolute (pos n) w = set_reg-Keeps i w
  finish_add-Keeps i (some d) absolute (pos n) w =
      let w₁ = set_reg os ll tl i w in
      let w₂ = remove_timeout os ll tl i w₁ in
      Keeps-trans (set_reg-Keeps i w) (
        Keeps-trans (remove_timeout-Keeps i w₁) (
          Keeps-trans (set_deadline-Keeps i d absolute w₂)
            (add_timeout-Keeps i (set_deadline os ll tl i d absolute w₂))))

  pub event_add-Keeps :
      (i : ℕ) (tv : Option Timeval) (absolute : Bool) (w : World E C)
      → Keeps w (event_add os ll tl (some i) tv absolute w).1
  unfolding event_add
  event_add-Keeps i tv absolute w = elim (Bool-cases (w.evts i).based) [
    | inr bare ↦ rw bare (Keeps-refl w)
    | inl based ↦ elim (Bool-cases ((w.evts i).flags.reg && is_none tv)) [
      | inl again ↦ rw (based, again) (Keeps-refl w)
      | inr go ↦
          let r = map_add_new os ll tl i w in
          rw (based, go)
            (Keeps-trans (map_add_new-Keeps i w) (finish_add-Keeps i tv absolute r.0 r.1))
    ]
  ]

  del_map-Keeps : (i : ℕ) (w : World E C) → Keeps w (del_map os ll tl i w).1
  unfolding del_map clear_reg map_remove event_unregister relink
  del_map-Keeps i w = record {
    active = ground arith;
    call = λ j. ground arith;
    based = λ j. ground arith;
  }

  -- An active event leaves the active list.
  pub record Leaves (i : ℕ) (w w' : World E C) : Type 0 where
    pub active : ll.items w'.base.active ≡ remove i (ll.items w.base.active)
    pub call : (j : ℕ) → call_of (w'.evts j) ≡ call_of (w.evts j)
    pub based : (j : ℕ) → (w'.evts j).based ≡ (w.evts j).based

  pub Leaves-Keeps : {i : ℕ} {u v w : World E C} → Leaves i u v → Keeps v w → Leaves i u w
  Leaves-Keeps a b = record {
    active = ap ll.items b.active ∙ a.active;
    call = λ j. b.call j ∙ a.call j;
    based = λ j. b.based j ∙ a.based j;
  }

  pub remove_active-Leaves :
      (i : ℕ) (w : World E C)
      → Inv ll w
      → (w.evts i).flags.active ≡ true
      → Leaves i w (remove_active os ll tl i w)
  unfolding remove_active
  remove_active-Leaves i w v on = record {
    active = rw on (ll.items-del_init i w.base.active (v.active.listed.has i ∙ on));
    call = λ j. ground arith;
    based = λ j. ground arith;
  }

  active-remove_timeout :
      (i : ℕ) (w : World E C)
      → ((remove_timeout os ll tl i w).evts i).flags.active ≡ (w.evts i).flags.active
  unfolding remove_timeout
  active-remove_timeout i w = ground arith

  -- event_del of an active event takes it out of the active list.
  pub event_del-Leaves :
      (i : ℕ) (w : World E C)
      → Inv ll w
      → (w.evts i).based ≡ true
      → (w.evts i).flags.active ≡ true
      → Leaves i w (event_del os ll tl (some i) w).1
  event_del-Leaves i w v based on =
      let w₁ = remove_timeout os ll tl i w in
      let keeps = remove_timeout-Keeps i w in
      let leaves =
        remove_active-Leaves i w₁ (remove_timeout-Inv os ll tl i w v)
          (active-remove_timeout i w ∙ on) in
      let both = Leaves-Keeps leaves (del_map-Keeps i (remove_active os ll tl i w₁)) in
      let busy : ((w.evts i).flags.reg || (w.evts i).flags.active) ≡ true = ground arith in
      rw (event_del-parts os ll tl i w v based busy) (record {
        active = both.active ∙ ap (λ c. remove i (ll.items c)) keeps.active;
        call = λ j. both.call j ∙ keeps.call j;
        based = λ j. both.based j ∙ keeps.based j;
      })
