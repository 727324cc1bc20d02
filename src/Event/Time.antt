-- ===== src/Event/Time.antt =====
-- The arithmetic on `struct timeval` in network/wba_event/wba_evloop.c.
-- `time_t` and `suseconds_t` are integers; they are far from the ends of their 64-bit range.
pub mod Laws
mod Tests
use miscellaneous_repo.Prelude.{ℕ, ◌/◌, ◌≤◌, ◌+◌, Bool, true, false, suc, if◌then◌else◌, ltb}
use miscellaneous_repo.Prelude.Int.{
  ℤ, pos, negsuc, ◌+ℤ◌, ◌-ℤ◌, ◌*ℤ◌, ◌≤ℤ◌, ltb_ℤ, pos_part, neg_part,
}

pub record Timeval : Type 0 where
  pub sec : ℤ
  pub usec : ℤ

abbrev pub million : ℤ
million = pos 1000000

unfoldable pub timeadd : Timeval → Timeval → Timeval
timeadd a b =
    let sec = a.sec +ℤ b.sec in
    let usec = a.usec +ℤ b.usec in
    if ltb_ℤ usec million
    then record { sec = sec; usec = usec }
    else record { sec = sec +ℤ pos 1; usec = usec -ℤ million }

unfoldable pub timesub : Timeval → Timeval → Timeval
timesub a b =
    let sec = a.sec -ℤ b.sec in
    let usec = a.usec -ℤ b.usec in
    if ltb_ℤ usec (pos 0)
    then record { sec = sec -ℤ pos 1; usec = usec +ℤ million }
    else record { sec = sec; usec = usec }

-- The two fields are unequal where one is below the other.
unfoldable pub timecmp : Timeval → Timeval → ℤ
timecmp a b =
    if ltb_ℤ b.sec a.sec
    then pos 1
    else if ltb_ℤ a.sec b.sec
    then negsuc 0
    else if ltb_ℤ b.usec a.usec
    then pos 1
    else if ltb_ℤ a.usec b.usec
    then negsuc 0
    else pos 0
