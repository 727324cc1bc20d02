-- ===== src/Str/Tests.antt =====
-- Runs of wba_str.c on small inputs, and each theorem at one of them.
use mathlib.Core.Option.{some-injective}
use miscellaneous_repo.Prelude.{
  ℕ, ◌≤◌, ◌≡◌, refl, sym, ap, ◌∙◌, Option, none, some, List, [], ◌∷◌, ◌++◌, arith, length, take,
  replicate, length-append, length-take, length-replicate, take-take, take-append_length,
}
use miscellaneous_repo.Str.{
  Str, ret, Allocator, blit, read, strlen, put, strnewlen, strnew, strnew2, strgrow, str_reserve,
  reserve_put, strncpy, strcpy, strncat, strcat, strcat_vprintf, strclr,
}
use miscellaneous_repo.Str.Spec.{IsValid, Outcome, Holds}
use miscellaneous_repo.Str.Create.{
  Nothing, strnewlen-Outcome, strnew-Outcome, strnew2-Outcome, strcpy-Outcome, strcat-Outcome,
}
use miscellaneous_repo.Str.Append.{
  strncpy-Outcome, strncat-Outcome, strcat_vprintf-Outcome, strclr-Outcome,
}
use miscellaneous_repo.Str.Reserve.{Refused, Grown, reserved_cap, str_reserve-Outcome}

-- An allocator that always has room, and hands out blocks of sevens.
abbrev pub grant : ℕ → ℕ → Option (List ℕ)
grant t n = some (replicate n 7)

abbrev pub regrant : ℕ → List ℕ → ℕ → Option (List ℕ)
regrant t a n = some (take n (a ++ replicate n 7))

pub grant_size : (t n : ℕ) (b : List ℕ) → grant t n ≡ some b → length b ≡ n
grant_size t n b e = ap length (sym (some-injective _ _ e)) ∙ length-replicate n 7

pub regrant_size : (t : ℕ) (a : List ℕ) (n : ℕ) (b : List ℕ) → regrant t a n ≡ some b → length b ≡ n
regrant_size t a n b e =
    ap length (sym (some-injective _ _ e))
    ∙ omega (
      arith,
      length-take n (a ++ replicate n 7),
      length-append a (replicate n 7),
      length-replicate {A = ℕ} n 7,
    )

pub regrant_keeps :
    (t : ℕ) (a : List ℕ) (n : ℕ) (b : List ℕ)
    → length a ≤ n
    → regrant t a n ≡ some b
    → take (length a) b ≡ a
regrant_keeps t a n b le e =
    ap (take (length a)) (sym (some-injective _ _ e))
    ∙ take-take (length a) n (a ++ replicate n 7) le
    ∙ take-append_length (length a) a (replicate n 7) refl

abbrev pub plenty : Allocator
plenty = record {
  malloc = grant;
  realloc = regrant;
  malloc_size = grant_size;
  realloc_size = regrant_size;
  realloc_keeps = regrant_keeps;
}

-- "ab", with room for one byte more.
abbrev ab : Str
ab = record { len = 2; cap = 3; buf = b'a' ∷ b'b' ∷ 0 ∷ 7 ∷ [] }

ab-IsValid : IsValid ab
ab-IsValid = record { within = omega arith; sized = refl; ended = refl; small = omega arith }

abbrev cd : List ℕ
cd = b'c' ∷ b'd' ∷ []

strncat_runs :
    strncat plenty 0 (some ab) (some cd) 2
    ≡ ret (record { len = 4; cap = 8; buf = b'a' ∷ b'b' ∷ b'c' ∷ b'd' ∷ 0 ∷ 7 ∷ 7 ∷ 7 ∷ 7 ∷ [] })
unfolding strncat reserve_put str_reserve strgrow read put blit
strncat_runs = refl

strcpy_of_nothing : strcpy plenty 0 (some ab) (some (0 ∷ [])) ≡ ret ab
unfolding strcpy strncpy strlen
strcpy_of_nothing = refl

strnew_runs : strnew plenty 0 2 ≡ ret (record { len = 0; cap = 2; buf = 0 ∷ 0 ∷ 0 ∷ [] })
unfolding strnew blit
strnew_runs = refl

strnewlen-Outcome_example :
    Outcome (Holds cd 2) (Nothing plenty) (strnewlen plenty 0 (some (b'c' ∷ b'd' ∷ b'e' ∷ [])) 2)
strnewlen-Outcome_example =
    strnewlen-Outcome plenty 0 (some (b'c' ∷ b'd' ∷ b'e' ∷ [])) 2 (omega arith) (omega arith)

strnew-Outcome_example : Outcome (Holds [] 5) (Nothing plenty) (strnew plenty 0 5)
strnew-Outcome_example = strnew-Outcome plenty 0 5 (omega arith)

strnew2-Outcome_example :
    Outcome (Holds cd 2) (Nothing plenty) (strnew2 plenty 0 (some (cd ++ (0 ∷ 9 ∷ []))))
    × Outcome (Holds [] 0) (Nothing plenty) (strnew2 plenty 0 none)
strnew2-Outcome_example = strnew2-Outcome plenty 0 cd (9 ∷ []) (omega arith) (omega arith)

str_reserve-Outcome_example :
    Outcome
      (λ s. Grown ab 9 s × (s.cap ≡ reserved_cap ab 9))
      (Refused plenty ab 9)
      (str_reserve plenty 0 ab 9)
str_reserve-Outcome_example = str_reserve-Outcome plenty 0 ab ab-IsValid 9 (omega arith)

strncpy-Outcome_example :
    Outcome
      (Holds cd (reserved_cap ab 2))
      (Refused plenty ab 2)
      (strncpy plenty 0 (some ab) (some cd) 2)
strncpy-Outcome_example = strncpy-Outcome plenty 0 ab ab-IsValid cd 2 (omega arith) (omega arith)

strncat-Outcome_example :
    Outcome
      (Holds (b'a' ∷ b'b' ∷ cd) (reserved_cap ab 4))
      (Refused plenty ab 4)
      (strncat plenty 0 (some ab) (some cd) 2)
strncat-Outcome_example = strncat-Outcome plenty 0 ab ab-IsValid cd 2 (omega arith) (omega arith)

strcpy-Outcome_example :
    Outcome
      (Holds (b'a' ∷ b'b' ∷ []) (reserved_cap ab 0))
      (Refused plenty ab 0)
      (strcpy plenty 0 (some ab) (some (0 ∷ [])))
strcpy-Outcome_example = strcpy-Outcome plenty 0 ab ab-IsValid [] [] tt (omega arith)

strcat-Outcome_example :
    Outcome
      (Holds (b'a' ∷ b'b' ∷ cd) (reserved_cap ab 4))
      (Refused plenty ab 4)
      (strcat plenty 0 (some ab) (some (b'c' ∷ b'd' ∷ 0 ∷ [])))
strcat-Outcome_example = strcat-Outcome plenty 0 ab ab-IsValid cd [] (omega arith) (omega arith)

strcat_vprintf-Outcome_example :
    Outcome
      (Holds (b'a' ∷ b'b' ∷ cd) (reserved_cap ab 4))
      (Refused plenty ab 4)
      (strcat_vprintf plenty 0 (some ab) (some cd))
strcat_vprintf-Outcome_example = strcat_vprintf-Outcome plenty 0 ab ab-IsValid cd (omega arith)

strclr-Outcome_example : Outcome (Holds [] 3) (λ _. ⊥) (strclr (some ab))
strclr-Outcome_example = strclr-Outcome plenty 0 ab ab-IsValid
