-- ===== src/Console/Stime/Tests.antt =====
-- A time of the day, and durations.
use miscellaneous_repo.Prelude.{◌≡◌, refl, arith, none, some, [], ◌∷◌, length}
use miscellaneous_repo.Prelude.Int.{pos, negsuc, ◌+ℤ◌, ◌-ℤ◌, ◌*ℤ◌}
use miscellaneous_repo.Console.Text.{Text, split}
use miscellaneous_repo.Console.Stime.{
  Duration, Stime, of_parts, hours, minutes, seconds, milliseconds, parse, to_string, difference,
  time_of_day, subtract,
}
use miscellaneous_repo.Console.Stime.Parts.{HasParts, Duration-HasParts, of_parts-parts}
use miscellaneous_repo.Console.Stime.RoundTrip.{parse-to_string}

abbrev late : Stime
late = record { hour = pos 23; minute = pos 5; second = pos 59; millisecond = pos 7 }

parse-to_string_example :
    (text : Text) × (to_string late ≡ some text) × (length text ≡ 12) × (parse text ≡ some late)
parse-to_string_example =
    parse-to_string 23 5 59 7 (omega arith) (omega arith) (omega arith) (omega arith)

of_parts-parts_example :
    (d : Duration) × (of_parts (pos 23) (pos 5) (pos 59) (pos 7) ≡ some d)
    × (hours d ≡ pos 23)
    × (minutes d ≡ pos 5)
    × (seconds d ≡ pos 59)
    × (milliseconds d ≡ pos 7)
of_parts-parts_example =
    of_parts-parts 23 5 59 7 (omega arith) (omega arith) (omega arith) (omega arith)

Duration-HasParts_example : HasParts (record { ms = negsuc 3661000 })
Duration-HasParts_example = Duration-HasParts (record { ms = negsuc 3661000 })

-- From 23:05:59.007 back to a second after midnight.
negative :
    difference (record late { hour = pos 0; minute = pos 0 }) late
    ≡ some (record { ms = negsuc 83099999 })
unfolding difference time_of_day of_parts subtract ◌+ℤ◌ ◌-ℤ◌ ◌*ℤ◌
negative = refl

-- A text without four parts.
short : parse (b'1' ∷ b':' ∷ b'2' ∷ []) ≡ none
unfolding parse split
short = refl
