-- ===== src/Event/Ops/Inv/Register.antt =====
-- event_map_add, for an event that is then flagged, and the last part of event_del keep the invariant.
use miscellaneous_repo.Prelude.{ℕ, ◌≡◌, refl, sym, ◌∙◌, inl, inr, true, false, arith, Bool-cases}
use miscellaneous_repo.Prelude.Int.{ℤ, pos, negsuc}
use miscellaneous_repo.Event.{has_io, World, Os, ListLib, TreeLib}
use miscellaneous_repo.Event.Ops.{
  negative, interest, event_register, event_unregister, relink, map_add, map_remove, map_add_new,
  set_reg, clear_reg, del_map,
}
use miscellaneous_repo.Event.Ops.Inv.{Inv, mapped, env-Inv}
use miscellaneous_repo.Event.Ops.Inv.Map.{with_reg, io, flag-Inv, linked-Inv, unlinked-Inv}

module _ {E C : Type 0} (os : Os E C) (ll : ListLib C) (tl : TreeLib) (i : ℕ) (w : World E C)
    (v : Inv ll w) where
  -- After a result that is not -1 the caller sets the flag.
  abbrev pub Registers : ℤ × World E C → Type 0
  Registers (pos n, w') = Inv ll (set_reg os ll tl i w')
  Registers (negsuc n, w') = Inv ll w'

  still-Inv :
      mapped (with_reg os ll tl i w v true) ≡ mapped (w.evts i) → Inv ll (set_reg os ll tl i w)
  unfolding set_reg
  still-Inv same = flag-Inv os ll tl i w v true w.env (λ h. refl) same

  map_add-Registers : (w.evts i).flags.reg ≡ false → Registers (map_add os ll tl i w)
  unfolding map_add event_register
  map_add-Registers off = elim (Bool-cases (negative (w.evts i).fd)) [
    | inl neg ↦ rw neg (still-Inv (ground (arith, neg, off)))
    | inr fd ↦ elim (Bool-cases (has_io (w.evts i).events)) [
      | inr bare ↦ rw (fd, bare) (still-Inv (ground (arith, fd, bare, off)))
      | inl is_io ↦
          rw (fd, is_io)
            (elim (Bool-cases (os.epoll_add (w.evts i).fd (interest (w.evts i).events) w.env).0) [
              | inl ok ↦ rw ok (
                  unfold relink set_reg in
                  linked-Inv os ll tl i w v
                    (os.epoll_add (w.evts i).fd (interest (w.evts i).events) w.env).1 off
                    (rw (fd, is_io)))
              | inr fails ↦
                  rw fails (
                    env-Inv ll w (os.epoll_add (w.evts i).fd (interest (w.evts i).events) w.env).1
                      v)
            ])
    ]
  ]

  pub map_add_new-Registers : Registers (map_add_new os ll tl i w)
  unfolding map_add_new
  map_add_new-Registers = elim (Bool-cases (w.evts i).flags.reg) [
    | inl on ↦ rw on (still-Inv (rw on))
    | inr off ↦ rw off (map_add-Registers off)
  ]

  unflagged-Inv :
      (w.evts i).flags.timeout ≡ false → io os ll tl i w v ≡ false → Inv ll (clear_reg os ll tl i w)
  unfolding clear_reg
  unflagged-Inv off bare =
      flag-Inv os ll tl i w v false w.env (λ h. sym off ∙ h) (ground (arith, bare))

  pub del_map-Inv : (w.evts i).flags.timeout ≡ false → Inv ll (del_map os ll tl i w).1
  unfolding del_map map_remove event_unregister
  del_map-Inv off = elim (Bool-cases (w.evts i).flags.reg) [
    | inr bare ↦ rw bare v
    | inl on ↦ elim (Bool-cases (negative (w.evts i).fd)) [
      | inl neg ↦ rw (on, neg) (unflagged-Inv off (rw neg))
      | inr fd ↦ elim (Bool-cases (has_io (w.evts i).events)) [
        | inr bare ↦ rw (on, fd, bare) (unflagged-Inv off (rw (fd, bare)))
        | inl is_io ↦
            rw (on, fd, is_io)
              (unfold relink clear_reg in
                unlinked-Inv os ll tl i w v (os.epoll_del (w.evts i).fd w.env).1 on off
                  (rw (fd, is_io)))
      ]
    ]
  ]
