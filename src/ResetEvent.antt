-- ===== src/ResetEvent.antt =====
-- my_lib/ManualResetEvent: an event that stays set, over a mutex and a condition variable of boost.
-- What a thread does while it holds the mutex is one step. The condition variable is outside: which of the
-- threads in its wait notify_one wakes is an argument, it may wake a thread unasked, and timed_wait with a
-- predicate gives the predicate's value when the time is up, as boost documents it.
pub mod Wait
pub mod Returns
mod Tests
use miscellaneous_repo.Prelude.{ℕ, suc, ◌-◌, ◌≤◌, ◌≡◌, ◌≢◌, Bool, true, false, ◌==◌, if◌then◌else◌}

-- A thread and the calls of wait, with a timeout or without: it has not called it, it is about to lock the
-- mutex, it is in the wait of the condition variable, or wait has returned.
pub data Waiter : Type 0 where
  outside : Waiter
  checking : Bool → Waiter
  asleep : Bool → Waiter
  returned : Bool → Waiter

-- `pending` are the calls of set that have unlocked the mutex and have not yet called notify_one.
pub record ManualResetEvent : Type 0 where
  pub signaled : Bool
  pub pending : ℕ
  pub waiters : ℕ → Waiter

abbrev pub put_waiter : ℕ → Waiter → ManualResetEvent → ManualResetEvent
put_waiter i w e = record e { waiters = λ j. if i == j then w else e.waiters j }

abbrev pub manual_reset_event : Bool → ManualResetEvent
manual_reset_event signaled = record { signaled = signaled; pending = 0; waiters = λ j. outside }

pub set_locked : ManualResetEvent → ManualResetEvent
set_locked e = record e { signaled = true; pending = suc e.pending }

abbrev pub woken : Waiter → Waiter
woken (asleep timed) = checking timed
woken outside = outside
woken (checking timed) = checking timed
woken (returned b) = returned b

-- notify_one where it wakes the thread `i`, if that is in the wait.
pub notify : ℕ → ManualResetEvent → ManualResetEvent
notify i e = put_waiter i (woken (e.waiters i)) (record e { pending = e.pending - 1 })

pub reset : ManualResetEvent → ManualResetEvent
reset e = record e { signaled = false }

-- `while (!signaled_)`, with the mutex locked: wait returns, or the thread goes to sleep.
abbrev pub looked : Bool → Waiter → Waiter
looked true (checking timed) = returned true
looked false (checking timed) = asleep timed
looked b outside = outside
looked b (asleep timed) = asleep timed
looked b (returned r) = returned r

pub look : ℕ → ManualResetEvent → ManualResetEvent
look i e = put_waiter i (looked e.signaled (e.waiters i)) e

-- What `is_signaled` gives to timed_wait as its predicate.
pub is_signaled : ManualResetEvent → Bool
is_signaled e = e.signaled

pub data Step (e : ManualResetEvent) : ManualResetEvent → Type 0 where
  sets : Step e (set_locked e)
  notifies :
      (i : ℕ) (timed : Bool) → 1 ≤ e.pending → e.waiters i ≡ asleep timed → Step e (notify i e)
  notifies_nobody :
      (i : ℕ)
      → 1 ≤ e.pending
      → ((j : ℕ) (timed : Bool) → e.waiters j ≢ asleep timed)
      → Step e (notify i e)
  resets : Step e (reset e)
  calls : (i : ℕ) (timed : Bool) → e.waiters i ≡ outside → Step e (put_waiter i (checking timed) e)
  looks : (i : ℕ) (timed : Bool) → e.waiters i ≡ checking timed → Step e (look i e)
  wakes :
      (i : ℕ) (timed : Bool) → e.waiters i ≡ asleep timed → Step e (put_waiter i (checking timed) e)
  times_out :
      (i : ℕ) → e.waiters i ≡ asleep true → Step e (put_waiter i (returned (is_signaled e)) e)
