-- ===== src/Event/Ops/Inv/Api.antt =====
-- event_add and event_del, and the calls of the header that lead to them, keep the invariant.
use miscellaneous_repo.Prelude.{
  ℕ, ◌≡◌, ap, ◌∙◌, inl, inr, Bool, true, false, ◌&&◌, ◌||◌, Option, none, some, arith, Bool-cases,
}
use miscellaneous_repo.Prelude.Int.{ℤ, pos, negsuc}
use miscellaneous_repo.Event.Time.{Timeval}
use miscellaneous_repo.Event.{World, Os, ListLib, TreeLib}
use miscellaneous_repo.Event.Ops.{
  negative, is_none, set_reg, map_add, event_register, relink, remove_timeout, set_deadline,
  now_or_stale, schedule, remove_active, map_add_new, finish_add, event_add, wba_event_add,
  event_del,
}
use miscellaneous_repo.Event.Ops.Inv.{Inv, env-Inv}
use miscellaneous_repo.Event.Ops.Inv.Active.{remove_active-Inv}
use miscellaneous_repo.Event.Ops.Inv.Time.{add_timeout-Inv, remove_timeout-Inv, new_deadline-Inv}
use miscellaneous_repo.Event.Ops.Inv.Register.{Registers, map_add_new-Registers, del_map-Inv}

module _ {E C : Type 0} (os : Os E C) (ll : ListLib C) (tl : TreeLib) (i : ℕ) where
  flags-remove_timeout :
      (w : World E C)
      → ((remove_timeout os ll tl i w).evts i).flags ≡ record ((w.evts i).flags) { timeout = false }
  unfolding remove_timeout
  flags-remove_timeout w = ground arith

  flags-set_deadline :
      (tv : Timeval) (absolute : Bool) (w : World E C)
      → ((set_deadline os ll tl i tv absolute w).evts i).flags ≡ (w.evts i).flags
  unfolding set_deadline now_or_stale
  flags-set_deadline tv true w = ground arith
  flags-set_deadline tv false w = ground arith

  based-remove_timeout :
      (w : World E C) → ((remove_timeout os ll tl i w).evts i).based ≡ (w.evts i).based
  unfolding remove_timeout
  based-remove_timeout w = ground arith

  based-set_deadline :
      (tv : Timeval) (absolute : Bool) (w : World E C)
      → ((set_deadline os ll tl i tv absolute w).evts i).based ≡ (w.evts i).based
  unfolding set_deadline now_or_stale
  based-set_deadline tv true w = ground arith
  based-set_deadline tv false w = ground arith

  set_deadline-Inv :
      (tv : Timeval) (absolute : Bool) (w : World E C)
      → Inv ll w
      → (w.evts i).flags.timeout ≡ false
      → Inv ll (set_deadline os ll tl i tv absolute w)
  unfolding set_deadline now_or_stale
  set_deadline-Inv tv true w v off = new_deadline-Inv os ll tl i w v (w.evts i).timeout tv off
  set_deadline-Inv tv false w v off =
      let env = (os.clock w.env).1 in
      new_deadline-Inv os ll tl i (record w { env = env }) (env-Inv ll w env v) _ _ off

  schedule-Inv :
      (tv : Timeval) (absolute : Bool) (w : World E C)
      → Inv ll w
      → (w.evts i).flags.reg ≡ true
      → (w.evts i).based ≡ true
      → Inv ll (schedule os ll tl i tv absolute w)
  unfolding schedule
  schedule-Inv tv absolute w v reg based =
      let w₁ = remove_timeout os ll tl i w in
      let v₁ = remove_timeout-Inv os ll tl i w v in
      let f = flags-remove_timeout w in
      let v₂ = set_deadline-Inv tv absolute w₁ v₁ (ap (λ x. x.timeout) f) in
      add_timeout-Inv os ll tl i (set_deadline os ll tl i tv absolute w₁) v₂
        (ap (λ x. x.reg) (flags-set_deadline tv absolute w₁ ∙ f) ∙ reg)
        (based-set_deadline tv absolute w₁ ∙ based-remove_timeout w ∙ based)

  reg-set_reg : (w : World E C) → ((set_reg os ll tl i w).evts i).flags.reg ≡ true
  unfolding set_reg
  reg-set_reg w = ground arith

  based-set_reg : (w : World E C) → ((set_reg os ll tl i w).evts i).based ≡ (w.evts i).based
  unfolding set_reg
  based-set_reg w = ground arith

  evts-map_add_new : (w : World E C) → (map_add_new os ll tl i w).1.evts ≡ w.evts
  unfolding map_add_new map_add event_register relink
  evts-map_add_new w = ground arith

  finish_add-Inv :
      (tv : Option Timeval) (absolute : Bool) (w : World E C) (v : Inv ll w) (r : ℤ × World E C)
      → Registers os ll tl i w v r
      → (r.1.evts i).based ≡ true
      → Inv ll (finish_add os ll tl i tv absolute r.0 r.1).1
  unfolding finish_add
  finish_add-Inv tv absolute w v (negsuc n, w') h based = h
  finish_add-Inv none absolute w v (pos n, w') h based = h
  finish_add-Inv (some d) absolute w v (pos n, w') h based =
      schedule-Inv d absolute (set_reg os ll tl i w') h (reg-set_reg w') (based-set_reg w' ∙ based)

module _ {E C : Type 0} (os : Os E C) (ll : ListLib C) (tl : TreeLib) where
  pub event_add-Inv :
      (evt : Option ℕ) (tv : Option Timeval) (absolute : Bool) (w : World E C)
      → Inv ll w
      → Inv ll (event_add os ll tl evt tv absolute w).1
  unfolding event_add
  event_add-Inv none tv absolute w v = v
  event_add-Inv (some i) tv absolute w v = elim (Bool-cases (w.evts i).based) [
    | inr bare ↦ rw bare v
    | inl based ↦ elim (Bool-cases ((w.evts i).flags.reg && is_none tv)) [
      | inl again ↦ rw (based, again) v
      | inr go ↦
          rw (based, go)
            (finish_add-Inv os ll tl i tv absolute w v (map_add_new os ll tl i w)
              (map_add_new-Registers os ll tl i w v)
              (ap (λ evts. (evts i).based) (evts-map_add_new os ll tl i w) ∙ based))
    ]
  ]

  -- wba_event_add keeps the invariant, whatever it returns.
  pub wba_event_add-Inv :
      (evt : Option ℕ) (tv : Option Timeval) (w : World E C)
      → Inv ll w
      → Inv ll (wba_event_add os ll tl evt tv w).1
  unfolding wba_event_add
  wba_event_add-Inv evt none w v = event_add-Inv evt none false w v
  wba_event_add-Inv evt (some tv) w v = elim (Bool-cases (negative tv.sec || negative tv.usec)) [
    | inl neg ↦ rw neg v
    | inr fine ↦ rw fine (event_add-Inv evt (some tv) false w v)
  ]

  timeout-remove_active :
      (i : ℕ) (w : World E C)
      → ((remove_active os ll tl i w).evts i).flags.timeout ≡ (w.evts i).flags.timeout
  unfolding remove_active
  timeout-remove_active i w = ground arith

  -- event_del keeps the invariant, also where epoll_ctl fails.
  pub event_del-Inv :
      (evt : Option ℕ) (w : World E C) → Inv ll w → Inv ll (event_del os ll tl evt w).1
  unfolding event_del
  event_del-Inv none w v = v
  event_del-Inv (some i) w v = elim (Bool-cases (w.evts i).based) [
    | inr bare ↦ rw bare v
    | inl based ↦ elim (Bool-cases ((w.evts i).flags.reg || (w.evts i).flags.active)) [
      | inr idle ↦ rw (based, idle) v
      | inl busy ↦
          let w₁ = remove_timeout os ll tl i w in
          let v₂ = remove_active-Inv os ll tl i w₁ (remove_timeout-Inv os ll tl i w v) in
          rw (based, busy)
            (del_map-Inv os ll tl i (remove_active os ll tl i w₁) v₂ (
              timeout-remove_active i w₁ ∙ ap (λ x. x.timeout) (flags-remove_timeout os ll tl i w)))
    ]
  ]
