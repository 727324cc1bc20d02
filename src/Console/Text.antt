-- ===== src/Console/Text.antt =====
-- cpp_console/sstring.h: splitting, trimming and numbers. A char is a byte.
-- `extract` is what `iss >> val` does to an int: an optional sign, then digits of the base, with a prefix
-- 0x for base 16, and a failure where there is no digit or the number does not fit.
pub mod Split
pub mod Decimal
mod Tests
use miscellaneous_repo.Prelude.{
  ℕ, zero, suc, ◌+◌, ◌-◌, ◌*◌, ◌/◌, ◌%◌, ◌^◌, Bool, true, false, not, ◌&&◌, ◌||◌, Option, none,
  some, List, [], ◌∷◌, ◌++◌, ltb, leb, ◌==◌, if◌then◌else◌, length, get_or, replicate,
}
use miscellaneous_repo.Prelude.Int.{ℤ, pos, negsuc, neg_part, pos_part, sub_ℕ}

abbrev pub Text : Type 0
Text = List ℕ

abbrev pub is_empty : Text → Bool
is_empty [] = true
is_empty (c ∷ s) = false

-- `delims.find(c) != npos`
unfoldable pub contains : Text → ℕ → Bool
contains [] c = false
contains (d ∷ delims) c = d == c || contains delims c

-- The current part is pushed unless it is empty and empty parts are not wanted.
pub push_part : Bool → List Text → Text → List Text × Text
push_part remove_empty result sub =
    if not (remove_empty && is_empty sub) then (result ++ (sub ∷ []), []) else (result, sub)

module _ (delims : Text) (remove_empty : Bool) where
  -- The loop of split, and the last part behind it.
  pub split_loop : Text → List Text → Text → List Text
  split_loop [] result sub = (push_part remove_empty result sub).0
  split_loop (c ∷ s) result sub = elim (contains delims c) [
    | false ↦ split_loop s result (sub ++ (c ∷ []))
    | true ↦ let (result', sub') = push_part remove_empty result sub in split_loop s result' sub'
  ]

unfoldable pub split : Text → Text → Bool → List Text
unfolding split_loop push_part contains
split str delims remove_empty =
    if is_empty str then [] else split_loop delims remove_empty str [] []

-- isspace in the C locale.
abbrev pub is_space : ℕ → Bool
is_space c = c == 32 || (leb 9 c && leb c 13)

unfoldable pub skip_leading : Text → Text
skip_leading [] = []
skip_leading (c ∷ s) = if is_space c then skip_leading s else c ∷ s

pub skip_trailing : Text → Text
skip_trailing [] = []
skip_trailing (c ∷ s) = elim (skip_trailing s) [
  | [] ↦ if is_space c then [] else c ∷ []
  | d ∷ t ↦ c ∷ d ∷ t
]

-- The walk from the end stops at the first byte that is left, whatever it is.
unfoldable pub trim : Text → Text
unfolding skip_leading skip_trailing
trim src = elim (skip_leading src) [ [] ↦ [] | c ∷ s ↦ c ∷ skip_trailing s ]

-- The value of a digit, or 99.
abbrev pub digit_value : ℕ → ℕ
digit_value c =
    if leb b'0' c && leb c b'9'
    then c - b'0'
    else if leb b'a' c && leb c b'f'
    then c - b'a' + 10
    else if leb b'A' c && leb c b'F'
    then c - b'A' + 10
    else 99

-- The digits up to the end of the text; `none` where another byte comes first.
pub scan_digits : ℕ → Text → ℕ → Option ℕ
scan_digits base [] n = some n
scan_digits base (c ∷ s) n =
    let rest = scan_digits base s (n * base + digit_value c) in
    if ltb (digit_value c) base then rest else none

-- At least one digit.
pub scan_number : ℕ → Text → Option ℕ
scan_number base [] = none
scan_number base (c ∷ s) = scan_digits base (c ∷ s) 0

abbrev pub is_x : ℕ → Bool
is_x c = c == b'x' || c == b'X'

-- The number behind the sign.
pub scan_unsigned : ℕ → Text → Option ℕ
scan_unsigned base (c ∷ x ∷ s) =
    if base == 16 && (c == b'0' && is_x x) then scan_number base s else scan_number base (c ∷ x ∷ s)
scan_unsigned base s = scan_number base s

abbrev pub in_int : Bool → ℕ → Option ℤ
in_int false n = if ltb n (2 ^ 31) then some (pos n) else none
in_int true n = if leb n (2 ^ 31) then some (sub_ℕ 0 n) else none

pub extract : ℕ → Text → Option ℤ
extract base [] = none
extract base (c ∷ s) =
    if c == b'-'
    then elim (scan_unsigned base s) [ none ↦ none | some n ↦ in_int true n ]
    else elim (scan_unsigned base (if c == b'+' then s else c ∷ s)) [
      | none ↦ none
      | some n ↦ in_int false n
    ]

-- The base that is found where the argument is 0; `off` is 1 behind a sign.
pub detect_base : Text → ℕ
detect_base str =
    let off : ℕ = if get_or str 0 0 == b'+' || get_or str 0 0 == b'-' then 1 else 0 in
    if leb 2 (length str - off) && get_or str off 0 == b'0'
    then if is_x (get_or str (off + 1) 0) then 16 else 8
    else 10

-- A base other than 0, 8 and 16 is read as 10.
abbrev pub stream_base : ℕ → ℕ
stream_base base = if base == 16 then 16 else if base == 8 then 8 else 10

abbrev pub below_zero : ℤ → Bool
below_zero (pos n) = false
below_zero (negsuc n) = true

pub str_to_int : Text → ℕ → Bool × ℤ
str_to_int s base =
    let str = trim s in
    let base' = if base == 0 then detect_base str else base in
    if is_empty str then (false, pos 0) else elim (extract (stream_base base') str) [
      | none ↦ (false, pos 0)
      | some val ↦
          if below_zero val && not (get_or str 0 0 == b'-') then (false, pos 0) else (true, val)
    ]

-- The digits of a number in front of `out`, with `fuel` of them at most.
unfoldable pub digits_before : ℕ → ℕ → Text → Text
digits_before zero n out = out
digits_before (suc fuel) n out =
    let rest = digits_before fuel (n / 10) ((b'0' + n % 10) ∷ out) in
    if ltb n 10 then (b'0' + n) ∷ out else rest

-- `%u` and `%d`; a number of 32 bits has ten digits at most.
unfoldable pub decimal : ℕ → Text
unfolding digits_before
decimal n = digits_before 10 n []

-- `%0kd`: zeros behind the sign fill the number up to `k` bytes.
unfoldable pub padded : ℕ → ℤ → Text
padded k (pos n) = replicate (k - length (decimal n)) b'0' ++ decimal n
padded k (negsuc n) =
    b'-' ∷ (replicate (k - suc (length (decimal (suc n)))) b'0' ++ decimal (suc n))

pub to_string : ℤ → Text
to_string (pos n) = decimal n
to_string (negsuc n) = b'-' ∷ decimal (suc n)

abbrev pub suffix : ℕ → Text
suffix units =
    if units == 1
    then b's' ∷ b't' ∷ []
    else if units == 2
    then b'n' ∷ b'd' ∷ []
    else if units == 3
    then b'r' ∷ b'd' ∷ []
    else b't' ∷ b'h' ∷ []

pub to_ordinal : ℕ → Text
to_ordinal num =
    if num % 100 / 10 == 1
    then decimal num ++ (b't' ∷ b'h' ∷ [])
    else decimal num ++ suffix (num % 10)
