-- ===== src/Event/Tests/Rounds.antt =====
-- A round of the loop of the small world, in which one descriptor is reported and one deadline has passed.
use miscellaneous_repo.Prelude.{
  ℕ, ◌≡◌, subst, sym, refl, true, false, some, List, [], ◌∷◌, ◌<◌, length, arith,
}
use miscellaneous_repo.Prelude.Int.{pos, ◌+ℤ◌, ◌*ℤ◌}
use miscellaneous_repo.Event.{inorder, Ready, World, Os}
use miscellaneous_repo.Event.Time.{timecmp}
use miscellaneous_repo.Event.Ops.Inv.{Inv}
use miscellaneous_repo.Event.Poll.{
  expire_from, map_active, activate_from, ready_mask, next_timeout, process_timeout, dispatch,
  loop_from,
}
use miscellaneous_repo.Event.Ops.{
  map_get_slot, add_active, event_del, remove_timeout, remove_active, del_map, map_remove, relink,
  event_unregister, clear_reg,
}
use miscellaneous_repo.Event.Poll.Run.{Calm}
use miscellaneous_repo.Event.Poll.Round.{IsWhole, expired, GoesOn, loop_from-GoesOn}
use miscellaneous_repo.Event.Tests.Simple.{lists, trees, quiet, at, at-Inv}

-- Descriptor 35 is readable: event 0 hangs on its slot.
abbrev report : Ready
report = record { fd = pos 35; into = true; out = false; rdhup = false; broken = false }

abbrev busy : Os ℕ (List ℕ)
busy = record quiet { epoll_wait = λ wait e. (some (report ∷ []), e) }

at-IsWhole : IsWhole busy lists trees (at 7)
at-IsWhole = record { inv = at-Inv 7; based = λ j. ground arith }

busy-Calm : (w : World ℕ (List ℕ)) → Inv lists w → Calm busy lists trees w w
busy-Calm w v = record { inv = v; active = refl; based = λ j h. h }

active_at_once : length (expired busy lists trees (report ∷ []) (at 7)).base.active < 4
unfolding next_timeout process_timeout dispatch inorder expire_from map_active activate_from
    ready_mask map_get_slot add_active event_del remove_timeout remove_active del_map map_remove
    relink event_unregister clear_reg ◌+ℤ◌ ◌*ℤ◌ timecmp
active_at_once = subst (λ n. n < 4) (sym two) (omega arith)
  where
    two : length (expired busy lists trees (report ∷ []) (at 7)).base.active ≡ 2
    two = refl

loop_from-GoesOn_example :
    GoesOn busy lists trees
      (report ∷ [])
      (at 7)
      (loop_from busy lists trees 4 4 (pos 1) (at 7))
      (loop_from busy lists trees 4 3 (pos 1))
unfolding next_timeout process_timeout dispatch inorder
loop_from-GoesOn_example =
    loop_from-GoesOn busy lists trees (λ fn fd res arg. busy-Calm) 4 3 (pos 1) (report ∷ []) (at 7)
      at-IsWhole refl refl active_at_once
