-- ===== src/Console/Stime.antt =====
-- cpp_console/stime.h: durations in milliseconds and times of the day.
-- `none` is undefined behaviour: an int that overflows, a part of a text that is not there, or a text that
-- does not fit its buffer. Sums of a long, and the hours of a duration as an int, are far from the ends.
pub mod Parts
pub mod RoundTrip
mod Tests
use miscellaneous_repo.Prelude.{
  ℕ, suc, ◌+◌, ◌^◌, Bool, true, false, Option, none, some, ◌>>=◌, List, [], ◌∷◌, ◌++◌, ltb, leb,
  if◌then◌else◌, length, get_elem?,
}
use miscellaneous_repo.Prelude.Int.{ℤ, pos, negsuc, ◌+ℤ◌, ◌-ℤ◌, ◌*ℤ◌, ◌/ℤ◌, ◌%ℤ◌}
use miscellaneous_repo.Console.Text.{Text, split, str_to_int, padded}

-- stime_duration.
pub record Duration : Type 0 where
  pub ms : ℤ

-- A result in int.
abbrev pub int : ℤ → Option ℤ
int (pos n) = if ltb n (2 ^ 31) then some (pos n) else none
int (negsuc n) = if ltb n (2 ^ 31) then some (negsuc n) else none

unfoldable pub of_parts : ℤ → ℤ → ℤ → ℤ → Option Duration
of_parts h m s ms = do
  a ← int (h *ℤ pos 60)
  b ← int (a +ℤ m)
  c ← int (b *ℤ pos 60)
  d ← int (c +ℤ s)
  e ← int (d *ℤ pos 1000)
  f ← int (e +ℤ ms)
  some (record { ms = f })

unfoldable pub hours : Duration → ℤ
hours d = d.ms /ℤ 3600000

unfoldable pub minutes : Duration → ℤ
minutes d = d.ms %ℤ 3600000 /ℤ 60000

unfoldable pub seconds : Duration → ℤ
seconds d = d.ms %ℤ 3600000 %ℤ 60000 /ℤ 1000

unfoldable pub milliseconds : Duration → ℤ
milliseconds d = d.ms %ℤ 3600000 %ℤ 60000 %ℤ 1000

unfoldable pub add : Duration → Duration → Duration
add a b = record { ms = a.ms +ℤ b.ms }

unfoldable pub subtract : Duration → Duration → Duration
subtract a b = record { ms = a.ms -ℤ b.ms }

pub record Stime : Type 0 where
  pub hour : ℤ
  pub minute : ℤ
  pub second : ℤ
  pub millisecond : ℤ

abbrev pub colon_and_dot : Text
colon_and_dot = b':' ∷ b'.' ∷ []

-- hh:mm:ss.fff
pub parse : Text → Option Stime
parse time_str =
    let parts = split time_str colon_and_dot true in
    do
      h ← get_elem? parts 0
      m ← get_elem? parts 1
      s ← get_elem? parts 2
      ms ← get_elem? parts 3
      some (record {
        hour = (str_to_int h 10).1;
        minute = (str_to_int m 10).1;
        second = (str_to_int s 10).1;
        millisecond = (str_to_int ms 10).1;
      })

-- What sprintf writes by "%02d:%02d:%02d.%03d".
abbrev pub printed : Stime → Text
printed t =
    padded 2 t.hour
    ++ (b':'
        ∷ (padded 2 t.minute ++ (b':' ∷ (padded 2 t.second ++ (b'.' ∷ padded 3 t.millisecond)))))

-- With the terminator it is to fit 16 bytes.
pub to_string : Stime → Option Text
to_string t = if leb (length (printed t) + 1) 16 then some (printed t) else none

unfoldable pub time_of_day : Stime → Option Duration
time_of_day t = of_parts t.hour t.minute t.second t.millisecond

-- `a - b`
unfoldable pub difference : Stime → Stime → Option Duration
difference a b = do x ← time_of_day a; y ← time_of_day b; some (subtract x y)
