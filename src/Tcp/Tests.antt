-- ===== src/Tcp/Tests.antt =====
-- Two connections: 5, accepted at time 70, and 6, at time 90.
use miscellaneous_repo.Prelude.{
  ℕ, zero, suc, ◌+◌, ◌*◌, ◌<◌, ◌≡◌, refl, ◌≢◌, Bool, true, false, none, some, [], ◌∷◌, arith, ◌==◌,
  if◌then◌else◌,
}
use miscellaneous_repo.Tcp.{
  fd_age, Fds, set_tm, timer_spec, is_old, timer_handler, is_too_big, enter, visit, sweep,
}
use miscellaneous_repo.Tcp.Sweep.{
  mem, timer_handler-due, timer_handler-is_old, timer_spec-milliseconds,
}
use miscellaneous_repo.Tcp.Age.{
  World, Reach, IsSafe, Reach-IsSafe, Reach-closed, clock, accept, enters, start, step,
}

abbrev two_fds : Fds
two_fds = set_tm 6 90 (set_tm 5 70 (λ i. 0))

abbrev all_close : ℕ → Bool
all_close i = true

timer_handler-due_example :
    ((timer_handler all_close 100 two_fds).0 5 ≡ 0)
    × (mem 5 (timer_handler all_close 100 two_fds).1 ≡ true)
unfolding is_old
timer_handler-due_example = timer_handler-due all_close 100 two_fds 5

timer_handler-is_old_example : is_old 100 (timer_handler all_close 100 two_fds).0 5 ≡ false
timer_handler-is_old_example = timer_handler-is_old all_close 100 two_fds 5 (omega arith) refl

timer_spec-milliseconds_example :
    ((timer_spec 20500).interval_sec * 1000000000 + (timer_spec 20500).interval_nsec ≡ 20500000000)
    × ((timer_spec 20500).interval_nsec < 1000000000)
timer_spec-milliseconds_example = timer_spec-milliseconds 20500

abbrev first : World
first = record {
  now = 70;
  is_open = λ j. false;
  since = λ j. 0;
  fds = λ j. 0;
  con_fd = none;
  pending = none;
}

-- 5 is accepted and entered.
abbrev connected : World
connected = record first {
  con_fd = some 5;
  is_open = λ j. if 5 == j then true else false;
  since = λ j. if 5 == j then 70 else 0;
  fds = λ j. if 5 == j then 70 else 0;
}

first-Reach : Reach first
first-Reach = start (record { empty = λ j. refl; none_pending = refl; past = λ j. omega arith })

connected-Reach : Reach connected
unfolding is_too_big enter
connected-Reach = step (step first-Reach (accept 5 refl refl)) (enters 5 refl refl)

abbrev later : ℕ → World → World
later zero w = w
later (suc n) w = later n (record w { now = w.now + 1 })

later-Reach : (n : ℕ) (w : World) → Reach w → Reach (later n w)
later-Reach zero w r = r
later-Reach (suc n) w r = later-Reach n (record w { now = w.now + 1 }) (step r clock)

Reach-IsSafe_example : IsSafe connected
Reach-IsSafe_example = Reach-IsSafe connected-Reach

closed_5 : mem 5 (timer_handler all_close 95 (later 25 connected).fds).1 ≡ true
unfolding is_old
closed_5 = (timer_handler-due all_close 95 (later 25 connected).fds 5).1

Reach-closed_example :
    ((later 25 connected).is_open 5 ≡ true)
    × (70 + fd_age < 95)
    × ((later 25 connected).pending ≢ some 5)
Reach-closed_example =
    Reach-closed all_close 95 5 (later-Reach 25 connected connected-Reach) (omega arith) closed_5

-- A sweep of the first eight descriptors.
eight : (sweep all_close 100 8 0 (two_fds, [])).1 ≡ 5 ∷ []
unfolding sweep visit is_old
eight = refl
