-- ===== src/Event/Time/Tests.antt =====
-- Sums, differences and the order of two times.
use miscellaneous_repo.Prelude.{◌≡◌, refl, arith}
use miscellaneous_repo.Prelude.Int.{pos, ◌+ℤ◌, ◌-ℤ◌}
use miscellaneous_repo.Event.Time.{Timeval, timeadd, timesub, timecmp}
use miscellaneous_repo.Event.Time.Laws.{
  micros, IsNormal, timeadd_lem, timesub_lem, Ordered, timecmp_lem,
}

abbrev long : Timeval
long = record { sec = pos 3; usec = pos 400000 }

abbrev short : Timeval
short = record { sec = pos 1; usec = pos 700000 }

long-IsNormal : IsNormal long
unfolding ◌+ℤ◌
long-IsNormal = record { nonneg = omega arith; below = omega arith }

short-IsNormal : IsNormal short
unfolding ◌+ℤ◌
short-IsNormal = record { nonneg = omega arith; below = omega arith }

timeadd_test : timeadd long short ≡ record { sec = pos 5; usec = pos 100000 }
unfolding timeadd ◌+ℤ◌ ◌-ℤ◌
timeadd_test = refl

timesub_test : timesub long short ≡ record { sec = pos 1; usec = pos 700000 }
unfolding timesub ◌+ℤ◌ ◌-ℤ◌
timesub_test = refl

timeadd_lem_example :
    (micros (timeadd long short) ≡ micros long +ℤ micros short) × IsNormal (timeadd long short)
timeadd_lem_example = timeadd_lem long short long-IsNormal short-IsNormal

timesub_lem_example :
    (micros (timesub long short) ≡ micros long -ℤ micros short) × IsNormal (timesub long short)
timesub_lem_example = timesub_lem long short long-IsNormal short-IsNormal

timecmp_lem_example : Ordered long short (timecmp long short)
timecmp_lem_example = timecmp_lem long short long-IsNormal short-IsNormal
