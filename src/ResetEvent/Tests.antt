-- ===== src/ResetEvent/Tests.antt =====
-- A thread that goes to sleep before the event is set, and one of two that is left behind.
use miscellaneous_repo.Prelude.{ℕ, ◌≡◌, ◌≢◌, refl, ◌⊎◌, true, false, ◌==◌, arith}
use miscellaneous_repo.ResetEvent.{
  outside, checking, asleep, returned, ManualResetEvent, put_waiter, manual_reset_event, set_locked,
  notify, look, is_signaled, calls, looks, sets, times_out,
}
use miscellaneous_repo.ResetEvent.Wait.{Reach, made, next, notify_all_pending, wait-returns}
use miscellaneous_repo.ResetEvent.Returns.{Step-returned}

abbrev start : ManualResetEvent
start = manual_reset_event false

abbrev called : ManualResetEvent
called = put_waiter 0 (checking false) start

called_others : (j : ℕ) → j ≢ 0 → called.waiters j ≡ outside
called_others j h = let other : (0 == j) ≡ false = ground arith in rw other refl

slept_others : (j : ℕ) → j ≢ 0 → (look 0 called).waiters j ≡ outside
unfolding look
slept_others j h = let other : (0 == j) ≡ false = ground arith in rw other refl

set_others : (j : ℕ) → j ≢ 0 → (set_locked (look 0 called)).waiters j ≡ outside
unfolding look set_locked
set_others j h = let other : (0 == j) ≡ false = ground arith in rw other refl

set_once : Reach 0 false (set_locked (look 0 called))
set_once =
    next (look 0 called) (set_locked (look 0 called))
      (next called (look 0 called) (next start called made (calls 0 false refl) called_others)
        (looks 0 false refl) slept_others)
      sets set_others

wait-returns_example :
    Reach 0 false (look 0 (notify_all_pending 0 1 (set_locked (look 0 called))))
    × ((look 0 (notify_all_pending 0 1 (set_locked (look 0 called)))).waiters 0 ≡ returned true)
unfolding set_locked look
wait-returns_example = wait-returns 0 false (set_locked (look 0 called)) set_once refl tt

abbrev late : ManualResetEvent
late = put_waiter 0 (asleep true) start

Step-returned_example :
    (late.waiters 0 ≡ returned false)
    ⊎ (((late.signaled ≡ true) × (false ≡ true))
        ⊎ ((late.waiters 0 ≡ asleep true) × ((late.signaled ≡ false) × (false ≡ false))))
unfolding is_signaled
Step-returned_example =
    Step-returned 0 false late (put_waiter 0 (returned (is_signaled late)) late) (times_out 0 refl)
      refl

-- Two threads sleep when the event is set: set wakes one, and the other sleeps on, though the event is set.
abbrev both_asleep : ManualResetEvent
both_asleep = put_waiter 1 (asleep false) (put_waiter 0 (asleep false) start)

abbrev left_behind : ManualResetEvent
left_behind = look 0 (notify 0 (set_locked both_asleep))

left_behind_asleep :
    (left_behind.signaled ≡ true)
    × (left_behind.pending ≡ 0)
    × (left_behind.waiters 1 ≡ asleep false)
unfolding look notify set_locked
left_behind_asleep = (refl, refl, refl)
