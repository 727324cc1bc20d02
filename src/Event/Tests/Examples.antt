-- ===== src/Event/Tests/Examples.antt =====
-- The theorems on the event loop, applied to the small world.
use mathlib.Core.Path.{fun_ext}
use Prim.Native.Nat.{bit_and}
use miscellaneous_repo.Prelude.{
  ℕ, ◌%◌, ◌⊎◌, ◌≡◌, refl, subst, true, false, not, ◌&&◌, some, List, [], ◌∷◌, ◌≤◌, ltb, arith, ◌==◌,
  if◌then◌else◌, length,
}
use miscellaneous_repo.Prelude.Int.{pos, negsuc, ◌+ℤ◌, ◌*ℤ◌}
use miscellaneous_repo.Event.Members.{member}
use miscellaneous_repo.Event.Time.Laws.{micros, IsNormal, NotAfter}
use miscellaneous_repo.Event.{Mask, Evt, inorder, Base, World}
use miscellaneous_repo.Event.Ops.{
  update, negative, put_evt, slot_of, walk, wba_event_add, event_del,
}
use miscellaneous_repo.Event.Ops.Order.{Sorted, deadline, insert_by, inorder-walk}
use miscellaneous_repo.Event.Ops.Inv.{Inv, in_slot}
use miscellaneous_repo.Event.Ops.Inv.Api.{wba_event_add-Inv, event_del-Inv}
use miscellaneous_repo.Event.Ops.Deleted.{event_del-gone}
use miscellaneous_repo.Event.Poll.{
  map_active, wait_ms, next_deadline, next_timeout, process_timeout, process_active,
}
use miscellaneous_repo.Event.Poll.Wait.{Enough, next_timeout-Enough, wait_ms-overflows}
use miscellaneous_repo.Event.Poll.Due.{later, due}
use miscellaneous_repo.Event.Poll.Rearm.{next_deadline-NotAfter}
use miscellaneous_repo.Event.Poll.Activate.{activated, map_active-slot}
use miscellaneous_repo.Event.Poll.Run.{IsReady, Calm, Served, process_active-Served}
use miscellaneous_repo.Event.Poll.Expire.{fired, process_timeout-fires}
use miscellaneous_repo.Event.Life.{event_new, event_assign, evtbase_new}
use miscellaneous_repo.Event.Life.Laws.{
  IsIdle, IsNew, zeroed, replaced-Inv, event_new-Inv, event_assign-Assigned,
}
use miscellaneous_repo.Event.Life.NewBase.{evtbase_new-Inv}
use miscellaneous_repo.Event.Tests.Simple.{
  lists, trees, quiet, seconds, flagged, an_event, three, at, at-Inv,
}

process_timeout-fires_example :
    let r = process_timeout quiet lists trees (at 7) in
    Inv lists r.1
    × ((j : ℕ)
        → r.1.evts j ≡ (
            if (three j).flags.timeout && not (later (three j).evt_timeout (seconds 7))
            then fired (three j)
            else three j))
    × (r.0 ≡ length (due (deadline three) (seconds 7) (inorder (at 7).base.tree)))
process_timeout-fires_example =
    process_timeout-fires quiet lists trees (at 7) (seconds 7) (at-Inv 7) refl

wba_event_add-Inv_example :
    Inv lists (wba_event_add quiet lists trees (some 2) (some (seconds 3)) (at 7)).1
wba_event_add-Inv_example =
    wba_event_add-Inv quiet lists trees (some 2) (some (seconds 3)) (at 7) (at-Inv 7)

event_del-Inv_example : Inv lists (event_del quiet lists trees (some 0) (at 7)).1
event_del-Inv_example = event_del-Inv quiet lists trees (some 0) (at 7) (at-Inv 7)

event_del-gone_example :
    let w' = (event_del quiet lists trees (some 0) (at 7)).1 in
    ((k : ℕ) → member 0 (w'.base.slots k) ≡ false)
    × (member 0 w'.base.active ≡ false)
    × (member 0 (inorder w'.base.tree) ≡ false)
event_del-gone_example = event_del-gone quiet lists trees 0 (at 7) (at-Inv 7) refl

seconds-IsNormal : (s : ℕ) → IsNormal (seconds s)
seconds-IsNormal s = record { nonneg = omega arith; below = unfold ◌+ℤ◌ in omega arith }

next_timeout-Enough_example :
    Enough (micros (seconds 5)) (micros (seconds 2)) (next_timeout quiet lists trees (at 2)).0
next_timeout-Enough_example =
    next_timeout-Enough quiet lists trees (at 2) 0 (seconds 2) (unfold inorder in refl) refl
      (seconds-IsNormal 5) (seconds-IsNormal 2) (unfold ◌+ℤ◌ ◌*ℤ◌ in omega arith)

wait_ms-overflows_example : negative (wait_ms (record { sec = pos 3000000; usec = pos 5 })) ≡ true
wait_ms-overflows_example = wait_ms-overflows 3000000 5 (omega arith) (omega arith) (omega arith)

idle : (j : ℕ) → (j == 0) ≡ false → (j == 1) ≡ false → (j == 2) ≡ false → IsIdle (three j)
idle j a b c = record { unreg = ground arith; inactive = ground arith; untimed = ground arith }

-- The block of event 5 still holds an event that is in the tree.
abbrev used_block : World ℕ (List ℕ)
used_block = put_evt 5 (three 0) (at 7)

used_block-Inv : Inv lists (put_evt 5 zeroed used_block)
used_block-Inv =
    subst (λ evts. Inv lists (record (at 7) { evts = evts }))
      (fun_ext {f = update three 5 zeroed} {g = update used_block.evts 5 zeroed} λ j. ground arith)
      (replaced-Inv quiet lists trees (at 7) 5 zeroed (at-Inv 7) (idle 5 refl refl refl)
        (record { unreg = refl; inactive = refl; untimed = refl }))

event_new-Inv_example :
    let r =
      event_new quiet lists trees 99
        (some 5)
        true
        (pos 4)
        (three 0).events
        (some 1)
        99
        used_block in
    (r.0 ≡ some 5)
    × IsNew (r.1.evts 5) (pos 4) (three 0).events 1 5
    × ((j : ℕ) → (5 == j) ≡ false → r.1.evts j ≡ used_block.evts j)
    × Inv lists r.1
event_new-Inv_example =
    event_new-Inv quiet lists trees used_block 99 5 (pos 4) (three 0).events 1 99 used_block-Inv

event_assign-Assigned_example :
    let r =
      event_assign quiet lists trees (some 5) true (negsuc 6) (three 0).events (some 1) 6 (at 7) in
    (((three 5).flags.reg ≡ true) × (r ≡ (pos 0, at 7)))
    ⊎ (((three 5).flags.reg ≡ false)
        × (r.0 ≡ pos 1)
        × IsNew (r.1.evts 5) (negsuc 6) (three 0).events 1 6
        × ((j : ℕ) → (5 == j) ≡ false → r.1.evts j ≡ three j)
        × Inv lists r.1)
event_assign-Assigned_example =
    event_assign-Assigned quiet lists trees (at 7) 5 (negsuc 6) (three 0).events 1 6 (at-Inv 7) refl

unused : ℕ → Evt
unused j = an_event (negsuc 0) (flagged false false false) 0

unused-IsIdle : (j : ℕ) → IsIdle (unused j)
unfolding unused
unused-IsIdle j = record { unreg = refl; inactive = refl; untimed = refl }

-- What the array of the list heads holds before the loop.
abbrev junk : ℕ → List ℕ
junk k = if ltb k 32 then 8 ∷ [] else []

evtbase_new-Inv_example :
    (b : Base (List ℕ)) × (evtbase_new quiet lists trees true true true true junk ≡ some b)
    × (b.size ≡ 32)
    × ((n : ℕ) → bit_and n b.sizemask ≡ n % 32)
    × Inv {E = ℕ} lists (record { env = 0; evts = unused; base = b })
evtbase_new-Inv_example =
    evtbase_new-Inv quiet lists trees junk 0 unused (λ k h. outside k h) unused-IsIdle
  where
    outside : (k : ℕ) → 32 ≤ k → junk k ≡ []
    outside k h = let far : ltb k 32 ≡ false = ground arith in rw far refl

three-Sorted : Sorted (deadline three) (inorder (at 0).base.tree)
three-Sorted = (at-Inv 0).time.sorted

inorder-walk_example :
    inorder (walk three (seconds 6) 2 (at 0).base.tree)
    ≡ insert_by (deadline three) (seconds 6) 2 (inorder (at 0).base.tree)
inorder-walk_example = inorder-walk three (seconds 6) 2 (at 0).base.tree three-Sorted

-- An event that should have run every second, at second 7.
next_deadline-NotAfter_example :
    NotAfter
      (seconds 7)
      (next_deadline quiet lists trees (record (three 0) { timeout = seconds 1 }) (seconds 7))
next_deadline-NotAfter_example =
    next_deadline-NotAfter quiet lists trees (record (three 0) { timeout = seconds 1 }) (seconds 7)
      (seconds-IsNormal 7) (seconds-IsNormal 1) (omega arith)

at-IsReady : IsReady quiet lists trees (at 7)
at-IsReady = record { inv = at-Inv 7; based = λ j a. ground arith }

quiet-Calm : (w : World ℕ (List ℕ)) → Inv lists w → Calm quiet lists trees w w
quiet-Calm w v = record { inv = v; active = refl; based = λ j h. h }

process_active-Served_example :
    Served quiet lists trees (at 7) (2 ∷ []) 1 (process_active quiet lists trees 2 (at 7))
process_active-Served_example =
    process_active-Served quiet lists trees (λ fn fd res arg. quiet-Calm) 2 (at 7) at-IsReady
      (omega arith)

-- What is reported of descriptor 35 activates event 0, which waits for descriptor 3: both are in slot 3.
abbrev readable : Mask
readable = record { read = true; write = false; timeout = false; closed = false; persist = false }

map_active-slot_example :
    let w' = map_active quiet lists trees (pos 35) readable (at 7) in
    Inv lists w'
    × ((j : ℕ)
        → w'.evts j ≡ (
            if in_slot 31 (slot_of (pos 35) 31) (three j)
            then activated readable (three j)
            else three j))
map_active-slot_example = map_active-slot quiet lists trees readable 35 (at 7) (at-Inv 7)

other_descriptor : in_slot 31 (slot_of (pos 35) 31) (three 0) ≡ true
other_descriptor = refl
