-- ===== src/Console/Text/Decimal.antt =====
-- A number that is printed is read back.
use miscellaneous_repo.Prelude.{
  ℕ, zero, suc, ◌+◌, ◌-◌, ◌*◌, ◌/◌, ◌%◌, ◌^◌, ◌<◌, ◌≡◌, refl, ap, ◌∙◌, ◌≢◌, inl, inr, Bool, true,
  false, ◌&&◌, some, [], ◌∷◌, ◌++◌, arith, ltb, leb, ◌==◌, Bool-cases, length, replicate,
}
use miscellaneous_repo.Prelude.Int.{ℤ, pos, negsuc, sub_ℕ}
use miscellaneous_repo.Console.Text.{
  Text, is_space, skip_leading, skip_trailing, trim, digit_value, scan_digits, scan_number,
  scan_unsigned, extract, str_to_int, digits_before, decimal, padded,
}

abbrev pub is_digit : ℕ → Bool
is_digit c = leb b'0' c && leb c b'9'

abbrev pub Digits : Text → Type 0
Digits [] = Unit {0}
Digits (c ∷ s) = (is_digit c ≡ true) × Digits s

pub Digits-append : (s t : Text) → Digits s → Digits t → Digits (s ++ t)
Digits-append [] t hs ht = ht
Digits-append (c ∷ s) t hs ht = (hs.0, Digits-append s t hs.1 ht)

-- 10 ^ f
limit : ℕ → ℕ
limit zero = 1
limit (suc f) = 10 * limit f

digit_byte : (n : ℕ) → n < 10 → (is_digit (b'0' + n) ≡ true) × (digit_value (b'0' + n) ≡ n)
digit_byte n h = (ground arith, ground arith)

scan_digits-digit :
    (d n : ℕ) (s : Text)
    → d < 10
    → scan_digits 10 ((b'0' + d) ∷ s) n ≡ scan_digits 10 s (n * 10 + d)
unfolding scan_digits
scan_digits-digit d n s h = rw ((digit_byte d h).1) (ground arith)

scan_digits-digits_before :
    (f n : ℕ) (out : Text)
    → n < limit f
    → scan_digits 10 (digits_before f n out) 0 ≡ scan_digits 10 out n
unfolding digits_before limit
scan_digits-digits_before zero n out h = ap (scan_digits 10 out) (omega arith)
scan_digits-digits_before (suc f) n out h = elim (Bool-cases (ltb n 10)) [
  | inl e ↦
      rw (e, digits_before)
        (scan_digits-digit n 0 out (ground arith) ∙ ap (scan_digits 10 out) (omega arith))
  | inr e ↦
      rw (e, digits_before)
        (scan_digits-digits_before f (n / 10) ((b'0' + n % 10) ∷ out) (omega arith)
          ∙ scan_digits-digit (n % 10) (n / 10) out (omega arith)
          ∙ ap (scan_digits 10 out) (omega arith))
]

digits_before-Digits : (f n : ℕ) (out : Text) → Digits out → Digits (digits_before f n out)
unfolding digits_before
digits_before-Digits zero n out h = h
digits_before-Digits (suc f) n out h = elim (Bool-cases (ltb n 10)) [
  | inl e ↦ rw (e, digits_before) ((digit_byte n (ground arith)).0, h)
  | inr e ↦
      rw (e, digits_before)
        (digits_before-Digits f (n / 10) ((b'0' + n % 10) ∷ out)
          ((digit_byte (n % 10) (omega arith)).0, h))
]

digits_before-ne-nil : (f n : ℕ) (out : Text) → out ≢ [] → digits_before f n out ≢ []
unfolding digits_before
digits_before-ne-nil zero n out h = h
digits_before-ne-nil (suc f) n out h = elim (Bool-cases (ltb n 10)) [
  | inl e ↦ rw (e, digits_before) (λ p. cc)
  | inr e ↦
      rw (e, digits_before) (digits_before-ne-nil f (n / 10) ((b'0' + n % 10) ∷ out) (λ p. cc))
]

pub decimal-Digits : (n : ℕ) → Digits (decimal n)
unfolding decimal
decimal-Digits n = digits_before-Digits 10 n [] tt

pub decimal-ne-nil : (n : ℕ) → decimal n ≢ []
unfolding decimal digits_before
decimal-ne-nil n = elim (Bool-cases (ltb n 10)) [
  | inl e ↦ rw (e, digits_before) (λ p. cc)
  | inr e ↦ rw (e, digits_before) (digits_before-ne-nil 9 (n / 10) ((b'0' + n % 10) ∷ []) (λ p. cc))
]

pub zeros-Digits : (k : ℕ) → Digits (replicate k b'0')
zeros-Digits zero = tt
zeros-Digits (suc k) = (refl, zeros-Digits k)

scan_digits-zeros :
    (k : ℕ) (s : Text) → scan_digits 10 (replicate k b'0' ++ s) 0 ≡ scan_digits 10 s 0
scan_digits-zeros zero s = refl
scan_digits-zeros (suc k) s =
    scan_digits-digit 0 0 (replicate k b'0' ++ s) (omega arith) ∙ scan_digits-zeros k s

scan_digits-decimal :
    (k n : ℕ) → n < 2 ^ 32 → scan_digits 10 (replicate k b'0' ++ decimal n) 0 ≡ some n
unfolding decimal
scan_digits-decimal k n h =
    scan_digits-zeros k (decimal n)
    ∙ scan_digits-digits_before 10 n [] (unfold limit in omega arith)
    ∙ unfold scan_digits in refl

-- Digits have no white space around them.
skip_trailing-Digits : (s : Text) → Digits s → skip_trailing s ≡ s
unfolding skip_trailing
skip_trailing-Digits [] h = refl
skip_trailing-Digits (c ∷ []) h = ground (arith, h.0)
skip_trailing-Digits (c ∷ d ∷ s) h = rw (skip_trailing-Digits (d ∷ s) h.1, skip_trailing) refl

trim-Digits : (c : ℕ) (s : Text) → is_space c ≡ false → Digits s → trim (c ∷ s) ≡ c ∷ s
unfolding trim skip_leading
trim-Digits c s e h = rw (e, skip_leading, trim) (ap (◌∷◌ c) (skip_trailing-Digits s h))

scan_unsigned-decimal : (s : Text) → s ≢ [] → scan_unsigned 10 s ≡ scan_digits 10 s 0
unfolding scan_unsigned scan_number
scan_unsigned-decimal [] h = absurd (h refl)
scan_unsigned-decimal (c ∷ []) h = refl
scan_unsigned-decimal (c ∷ d ∷ s) h = refl

-- A text of digits that fit an int is read as their number.
str_to_int-Digits :
    (s : Text) (n : ℕ)
    → s ≢ []
    → Digits s
    → scan_digits 10 s 0 ≡ some n
    → n < 2 ^ 31
    → str_to_int s 10 ≡ (true, pos n)
unfolding str_to_int extract
str_to_int-Digits [] n ne h e lt = absurd (ne refl)
str_to_int-Digits (c ∷ s) n ne h e lt =
    let space : is_space c ≡ false = ground (arith, h.0) in
    let minus : (c == b'-') ≡ false = ground (arith, h.0) in
    let plus : (c == b'+') ≡ false = ground (arith, h.0) in
    let number = scan_unsigned-decimal (c ∷ s) ne ∙ e in
    let fits : ltb n (2 ^ 31) ≡ true = ground arith in
    rw (trim-Digits c s space h.1, minus, plus, number, fits) refl

str_to_int-minus :
    (s : Text) (n : ℕ)
    → s ≢ []
    → Digits s
    → scan_digits 10 s 0 ≡ some (suc n)
    → n < 2 ^ 31
    → str_to_int (b'-' ∷ s) 10 ≡ (true, negsuc n)
unfolding str_to_int extract
str_to_int-minus s n ne h e lt =
    let number = scan_unsigned-decimal s ne ∙ e in
    let fits : leb (suc n) (2 ^ 31) ≡ true = ground arith in
    let value : sub_ℕ 0 (suc n) ≡ negsuc n = ground arith in
    rw (trim-Digits b'-' s refl h, number, fits, value) (rw (trim-Digits b'-' s refl h) refl)

pub padded-ne-nil : (k : ℕ) (z : ℤ) → padded k z ≢ []
unfolding padded
padded-ne-nil k (negsuc n) = λ e. cc
padded-ne-nil k (pos n) =
    append-ne-nil (replicate (k - length (decimal n)) b'0') (decimal n) (decimal-ne-nil n)
  where
    append-ne-nil : (s t : Text) → t ≢ [] → s ++ t ≢ []
    append-ne-nil [] t h = h
    append-ne-nil (c ∷ s) t h = λ e. cc

-- A number that fits an int.
abbrev pub IsInt : ℤ → Type 0
IsInt (pos n) = n < 2 ^ 31
IsInt (negsuc n) = n < 2 ^ 31

-- An int that is printed by `%0kd`, for any `k`, is read back by str_to_int in base 10.
pub str_to_int-padded : (k : ℕ) (z : ℤ) → IsInt z → str_to_int (padded k z) 10 ≡ (true, z)
unfolding padded
str_to_int-padded k (pos n) h =
    str_to_int-Digits (padded k (pos n)) n (padded-ne-nil k (pos n))
      (Digits-append (replicate (k - length (decimal n)) b'0') (decimal n) (zeros-Digits _)
        (decimal-Digits n))
      (scan_digits-decimal (k - length (decimal n)) n (omega arith)) h
str_to_int-padded k (negsuc n) h =
    str_to_int-minus (replicate (k - suc (length (decimal (suc n)))) b'0' ++ decimal (suc n)) n
      (λ e.
        decimal-ne-nil (suc n)
          (tail_nil (replicate (k - suc (length (decimal (suc n)))) b'0') (decimal (suc n)) e))
      (Digits-append (replicate (k - suc (length (decimal (suc n)))) b'0') (decimal (suc n))
        (zeros-Digits _) (decimal-Digits (suc n)))
      (scan_digits-decimal (k - suc (length (decimal (suc n)))) (suc n) (omega arith)) h
  where
    tail_nil : (s t : Text) → s ++ t ≡ [] → t ≡ []
    tail_nil [] t e = e
    tail_nil (c ∷ s) t e = cc
