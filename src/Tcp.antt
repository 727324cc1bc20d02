-- ===== src/Tcp.antt =====
-- network/tcp/inet_server.c: the table of accepted connections, and the timer that closes the old ones.
-- A descriptor is a number, a time is that of time(NULL). The results of close are a parameter.
pub mod Sweep
pub mod Age
mod Tests
use miscellaneous_repo.Prelude.{
  ℕ, zero, suc, ◌+◌, ◌*◌, ◌/◌, ◌%◌, Bool, true, false, ◌&&◌, Option, none, some, List, [], ◌∷◌,
  ◌++◌, ltb, ◌==◌, if◌then◌else◌,
}

abbrev pub fd_age : ℕ
fd_age = 20

abbrev pub max_fd : ℕ
max_fd = 1024

-- fds: the time at which a descriptor was accepted, 0 where there is none.
abbrev pub Fds : Type 0
Fds = ℕ → ℕ

abbrev pub set_tm : ℕ → ℕ → Fds → Fds
set_tm i tm fds = λ j. if i == j then tm else fds j

-- itimerspec, without the parts of it_value below a second.
pub record Itimerspec : Type 0 where
  pub value_sec : ℕ
  pub interval_sec : ℕ
  pub interval_nsec : ℕ

-- What timer_set gives to timer_settime.
unfoldable pub timer_spec : ℕ → Itimerspec
timer_spec milliseconds = record {
  value_sec = 1;
  interval_sec = milliseconds / 1000;
  interval_nsec = milliseconds % 1000 * 1000000;
}

unfoldable pub is_old : ℕ → Fds → ℕ → Bool
is_old now fds i = ltb 0 (fds i) && ltb (fds i + fd_age) now

-- The body of the loop of timer_handler, with the descriptors closed so far.
module _ (closes : ℕ → Bool) (now : ℕ) where
  unfoldable pub visit : ℕ → Fds × List ℕ → Fds × List ℕ
  visit i s = if is_old now s.0 i && closes i then (set_tm i 0 s.0, s.1 ++ (i ∷ [])) else s

  -- The loop from `i` on, with `left` descriptors to go.
  pub sweep : (left i : ℕ) → Fds × List ℕ → Fds × List ℕ
  sweep zero i s = s
  sweep (suc left) i s = sweep left (i + 1) (visit i s)

  unfoldable pub timer_handler : Fds → Fds × List ℕ
  timer_handler fds = sweep (max_fd + 1) 0 (fds, [])

-- What the loop of main does with the result of accept: con_fd, the table, and a descriptor it closes.
unfoldable pub accept_failed : Option ℕ
accept_failed = none

unfoldable pub is_too_big : ℕ → Bool
is_too_big con_fd = ltb max_fd con_fd

unfoldable pub enter : ℕ → ℕ → Fds → Fds
enter con_fd now fds = set_tm con_fd now fds
