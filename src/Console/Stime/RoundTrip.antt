-- ===== src/Console/Stime/RoundTrip.antt =====
-- A time that is printed is read back.
use miscellaneous_repo.Prelude.{
  ℕ, suc, ◌-◌, ◌≤◌, ◌<◌, ◌≡◌, refl, ap, ◌∙◌, Bool, true, some, ◌>>=◌, [], ◌∷◌, ◌++◌, arith, ltb,
  if◌then◌else◌, length, length-append, length-replicate, replicate,
}
use miscellaneous_repo.Prelude.Int.{ℤ, pos, negsuc}
use miscellaneous_repo.Str.Token.Words.{Clean}
use miscellaneous_repo.Console.Text.{Text, contains, split, padded, decimal, digits_before}
use miscellaneous_repo.Console.Text.Split.{split-words, words-part, words-last}
use miscellaneous_repo.Console.Text.Decimal.{
  IsInt, Digits, Digits-append, zeros-Digits, decimal-Digits, padded-ne-nil, str_to_int-padded,
}
use miscellaneous_repo.Console.Stime.{Stime, colon_and_dot, parse, printed, to_string}

abbrev is_sep : ℕ → Bool
is_sep = contains colon_and_dot

Digits-Clean : (s : Text) → Digits s → Clean is_sep s
unfolding contains
Digits-Clean [] h = tt
Digits-Clean (c ∷ s) h = (ground (arith, h.0), Digits-Clean s h.1)

padded-Clean : (k : ℕ) (z : ℤ) → Clean is_sep (padded k z)
unfolding padded
padded-Clean k (pos n) = Digits-Clean (padded k (pos n)) (
    Digits-append (replicate (k - length (decimal n)) b'0') (decimal n) (zeros-Digits _)
      (decimal-Digits n))
padded-Clean k (negsuc n) = (
  unfold contains in refl,
  Digits-Clean (replicate (k - suc (length (decimal (suc n)))) b'0' ++ decimal (suc n)) (
      Digits-append (replicate (k - suc (length (decimal (suc n)))) b'0') (decimal (suc n))
        (zeros-Digits _) (decimal-Digits (suc n))),
)

module _ (t : Stime) where
  split-printed :
      split (printed t) colon_and_dot true
      ≡ padded 2 t.hour ∷ padded 2 t.minute ∷ padded 2 t.second ∷ padded 3 t.millisecond ∷ []
  split-printed =
      split-words colon_and_dot (printed t)
      ∙ words-part colon_and_dot (padded 2 t.hour) b':' _ (padded-ne-nil 2 t.hour)
          (padded-Clean 2 t.hour) (unfold contains in refl)
      ∙ ap (◌∷◌ (padded 2 t.hour)) (
          words-part colon_and_dot (padded 2 t.minute) b':' _ (padded-ne-nil 2 t.minute)
            (padded-Clean 2 t.minute) (unfold contains in refl)
          ∙ ap (◌∷◌ (padded 2 t.minute)) (
              words-part colon_and_dot (padded 2 t.second) b'.' _ (padded-ne-nil 2 t.second)
                (padded-Clean 2 t.second) (unfold contains in refl)
              ∙ ap (◌∷◌ (padded 2 t.second)) (
                  words-last colon_and_dot (padded 3 t.millisecond) (padded-ne-nil 3 t.millisecond)
                    (padded-Clean 3 t.millisecond))))

  -- A time whose fields are ints and whose print fits the buffer is read back by parse.
  pub parse-printed :
      IsInt t.hour
      → IsInt t.minute
      → IsInt t.second
      → IsInt t.millisecond
      → parse (printed t) ≡ some t
  unfolding parse
  parse-printed h m s ms =
      rw (split-printed, ◌>>=◌)
        (rw
          (
            str_to_int-padded 2 t.hour h,
            str_to_int-padded 2 t.minute m,
            str_to_int-padded 2 t.second s,
            str_to_int-padded 3 t.millisecond ms,
          )
          refl)

length-decimal :
    (n : ℕ) → n < 1000 → length (decimal n) ≡ (if ltb n 10 then 1 else if ltb n 100 then 2 else 3)
unfolding decimal digits_before
length-decimal n h = ground arith

length-padded : (k n : ℕ) → length (decimal n) ≤ k → length (padded k (pos n)) ≡ k
unfolding padded
length-padded k n h = omega (
  arith,
  length-append (replicate (k - length (decimal n)) b'0') (decimal n),
  length-replicate {A = ℕ} (k - length (decimal n)) b'0',
)

-- A time of two digits for hour, minute and second and of three for the milliseconds, such as each time of
-- the day, is printed in twelve bytes, which fit the buffer, and parse reads the print back.
pub parse-to_string :
    (h m s ms : ℕ)
    → h < 100
    → m < 100
    → s < 100
    → ms < 1000
    → let t : Stime = record {
      hour = pos h;
      minute = pos m;
      second = pos s;
      millisecond = pos ms;
    } in
      (text : Text) × (to_string t ≡ some text) × (length text ≡ 12) × (parse text ≡ some t)
unfolding to_string
parse-to_string h m s ms lh lm ls lms =
    let t : Stime = record { hour = pos h; minute = pos m; second = pos s; millisecond = pos ms } in
    let twelve = length-printed in
    (
      printed t,
      ground (arith, twelve),
      twelve,
      parse-printed t (omega arith) (omega arith) (omega arith) (omega arith),
    )
  where
    two : (n : ℕ) → n < 100 → length (padded 2 (pos n)) ≡ 2
    two n l = length-padded 2 n (ground (arith, length-decimal n))

    three : length (padded 3 (pos ms)) ≡ 3
    three = length-padded 3 ms (ground (arith, length-decimal ms))

    length-printed :
        length
          (printed (record { hour = pos h; minute = pos m; second = pos s; millisecond = pos ms }))
        ≡ 12
    length-printed = omega (
      arith,
      two h lh,
      two m lm,
      two s ls,
      three,
      length-append (padded 2 (pos h))
          (b':' ∷ (padded 2 (pos m) ++ (b':' ∷ (padded 2 (pos s) ++ (b'.' ∷ padded 3 (pos ms)))))),
      length-append (padded 2 (pos m)) (b':' ∷ (padded 2 (pos s) ++ (b'.' ∷ padded 3 (pos ms)))),
      length-append (padded 2 (pos s)) (b'.' ∷ padded 3 (pos ms)),
    )
