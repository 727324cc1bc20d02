-- ===== src/Console/Stime/Parts.antt =====
-- A duration and its hours, minutes, seconds and milliseconds.
use miscellaneous_repo.Prelude.{
  ℕ, zero, suc, ◌+◌, ◌*◌, ◌/◌, ◌%◌, ◌^◌, ◌≤◌, ◌<◌, ◌≡◌, refl, ap, ◌∙◌, Bool, true, false, some,
  ◌>>=◌, arith,
}
use miscellaneous_repo.Prelude.Int.{
  ℤ, pos, negsuc, pos_part, neg_part, ◌+ℤ◌, ◌-ℤ◌, ◌*ℤ◌, ◌/ℤ◌, ◌%ℤ◌, int_laws, *ℤ_parts,
}
use miscellaneous_repo.Console.Stime.{
  Duration, int, of_parts, hours, minutes, seconds, milliseconds,
}

-- `n`, or its negation.
abbrev signed : Bool → ℕ → ℤ
signed true n = pos n
signed false n = pos 0 -ℤ pos n

signed-/ : (b : Bool) (n k : ℕ) → signed b n /ℤ k ≡ signed b (n / k)
unfolding ◌/ℤ◌ ◌-ℤ◌
signed-/ true n k = refl
signed-/ false zero k = ground arith
signed-/ false (suc n) k = ground arith

signed-% : (b : Bool) (n k : ℕ) → signed b n %ℤ k ≡ signed b (n % k)
unfolding ◌%ℤ◌ ◌-ℤ◌
signed-% true n k = refl
signed-% false zero k = ground arith
signed-% false (suc n) k = ground arith

signed_cases : (z : ℤ) → (b : Bool) × (n : ℕ) × (z ≡ signed b n)
unfolding ◌-ℤ◌
signed_cases (pos n) = (true, n, refl)
signed_cases (negsuc n) = (false, suc n, ground arith)

-- The size of a number is below `k`.
abbrev pub Below : ℕ → ℤ → Type 0
Below k z = (pos_part z < k) × (neg_part z < k)

signed-Below : (b : Bool) (n k : ℕ) → n < k → Below k (signed b n)
unfolding ◌-ℤ◌
signed-Below true n k h = (h, omega arith)
signed-Below false n k h = ground arith

-- The four numbers of a duration add up to it, and the last three are in size below 60, 60 and 1000.
pub record HasParts (d : Duration) : Type 0 where
  pub sum :
      d.ms
      ≡ hours d *ℤ pos 3600000 +ℤ minutes d *ℤ pos 60000 +ℤ seconds d *ℤ pos 1000 +ℤ milliseconds d
  pub minutes_below : Below 60 (minutes d)
  pub seconds_below : Below 60 (seconds d)
  pub ms_below : Below 1000 (milliseconds d)

module _ (d : Duration) (b : Bool) (n : ℕ) (e : d.ms ≡ signed b n) where
  hours-signed : hours d ≡ signed b (n / 3600000)
  unfolding hours
  hours-signed = ap (λ z. z /ℤ 3600000) e ∙ signed-/ b n 3600000

  hour_rest : d.ms %ℤ 3600000 ≡ signed b (n % 3600000)
  hour_rest = ap (λ z. z %ℤ 3600000) e ∙ signed-% b n 3600000

  minutes-signed : minutes d ≡ signed b (n % 3600000 / 60000)
  unfolding minutes
  minutes-signed = ap (λ z. z /ℤ 60000) hour_rest ∙ signed-/ b (n % 3600000) 60000

  minute_rest : d.ms %ℤ 3600000 %ℤ 60000 ≡ signed b (n % 3600000 % 60000)
  minute_rest = ap (λ z. z %ℤ 60000) hour_rest ∙ signed-% b (n % 3600000) 60000

  seconds-signed : seconds d ≡ signed b (n % 3600000 % 60000 / 1000)
  unfolding seconds
  seconds-signed = ap (λ z. z /ℤ 1000) minute_rest ∙ signed-/ b (n % 3600000 % 60000) 1000

  milliseconds-signed : milliseconds d ≡ signed b (n % 3600000 % 60000 % 1000)
  unfolding milliseconds
  milliseconds-signed = ap (λ z. z %ℤ 1000) minute_rest ∙ signed-% b (n % 3600000 % 60000) 1000

signed-sum :
    (b : Bool) (n : ℕ)
    → signed b n
      ≡ signed b (n / 3600000) *ℤ pos 3600000
        +ℤ signed b (n % 3600000 / 60000) *ℤ pos 60000
        +ℤ signed b (n % 3600000 % 60000 / 1000) *ℤ pos 1000
        +ℤ signed b (n % 3600000 % 60000 % 1000)
signed-sum true n = omega (int_laws, *ℤ_parts)
signed-sum false n = omega (int_laws, *ℤ_parts)

-- The hours, minutes, seconds and milliseconds of a duration, whatever its sign, add up to it, and the
-- last three are in size below 60, 60 and 1000.
pub Duration-HasParts : (d : Duration) → HasParts d
Duration-HasParts d =
    let (b, n, e) = signed_cases d.ms in
    record {
      sum =
          rw
            (
              hours-signed d b n e,
              minutes-signed d b n e,
              seconds-signed d b n e,
              milliseconds-signed d b n e,
            )
            (e ∙ signed-sum b n);
      minutes_below =
          rw (minutes-signed d b n e) (signed-Below b (n % 3600000 / 60000) 60 (omega arith));
      seconds_below =
          rw (seconds-signed d b n e)
            (signed-Below b (n % 3600000 % 60000 / 1000) 60 (omega arith));
      ms_below =
          rw (milliseconds-signed d b n e)
            (signed-Below b (n % 3600000 % 60000 % 1000) 1000 (omega arith));
    }

int-pos : (n : ℕ) → n < 2 ^ 31 → int (pos n) ≡ some (pos n)
int-pos n h = ground arith

mul_pos : (a b : ℕ) → pos a *ℤ pos b ≡ pos (a * b)
unfolding ◌*ℤ◌
mul_pos a b = ground arith

add_pos : (a b : ℕ) → pos a +ℤ pos b ≡ pos (a + b)
unfolding ◌+ℤ◌
add_pos a b = ground arith

-- A duration that is made of at most 595 hours, and of minutes, seconds and milliseconds in their ranges,
-- overflows nothing, and has these parts.
pub of_parts-parts :
    (h m s ms : ℕ)
    → h ≤ 595
    → m < 60
    → s < 60
    → ms < 1000
    → (d : Duration) × (of_parts (pos h) (pos m) (pos s) (pos ms) ≡ some d)
      × (hours d ≡ pos h)
      × (minutes d ≡ pos m)
      × (seconds d ≡ pos s)
      × (milliseconds d ≡ pos ms)
unfolding of_parts hours minutes seconds milliseconds ◌/ℤ◌ ◌%ℤ◌
of_parts-parts h m s ms lh lm ls lms = (
  record { ms = pos (((h * 60 + m) * 60 + s) * 1000 + ms) },
  rw (mul_pos h 60, int-pos (h * 60) (omega arith), ◌>>=◌)
      (rw (add_pos (h * 60) m, int-pos (h * 60 + m) (omega arith), ◌>>=◌)
        (rw (mul_pos (h * 60 + m) 60, int-pos ((h * 60 + m) * 60) (omega arith), ◌>>=◌)
          (rw (add_pos ((h * 60 + m) * 60) s, int-pos ((h * 60 + m) * 60 + s) (omega arith), ◌>>=◌)
            (rw
              (
                mul_pos ((h * 60 + m) * 60 + s) 1000,
                int-pos (((h * 60 + m) * 60 + s) * 1000) (omega arith),
                ◌>>=◌,
              )
              (rw
                (
                  add_pos (((h * 60 + m) * 60 + s) * 1000) ms,
                  int-pos (((h * 60 + m) * 60 + s) * 1000 + ms) (omega arith),
                  ◌>>=◌,
                )
                refl))))),
  ap pos (omega arith),
  ap pos (omega arith),
  ap pos (omega arith),
  ap pos (omega arith),
)
