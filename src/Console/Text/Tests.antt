-- ===== src/Console/Text/Tests.antt =====
-- Texts split, trimmed and read.
use miscellaneous_repo.Prelude.{◌≡◌, refl, true, false, arith, [], ◌∷◌}
use miscellaneous_repo.Prelude.Int.{pos, negsuc}
use miscellaneous_repo.Str.Token.Words.{words}
use miscellaneous_repo.Console.Text.{
  Text, contains, split, trim, str_to_int, extract, scan_unsigned, scan_number, scan_digits,
  detect_base, padded, decimal, to_ordinal,
}
use miscellaneous_repo.Console.Text.Split.{split-words, join, join-split}
use miscellaneous_repo.Console.Text.Decimal.{str_to_int-padded}

-- "a,,b"
abbrev csv : Text
csv = b'a' ∷ b',' ∷ b',' ∷ b'b' ∷ []

-- " -0x1F "
abbrev hex : Text
hex = 32 ∷ b'-' ∷ b'0' ∷ b'x' ∷ b'1' ∷ b'F' ∷ 32 ∷ []

split_kept : split csv (b',' ∷ []) false ≡ (b'a' ∷ []) ∷ [] ∷ (b'b' ∷ []) ∷ []
unfolding split
split_kept = refl

read_hex : str_to_int hex 0 ≡ (true, negsuc 30)
unfolding str_to_int extract scan_unsigned scan_number scan_digits detect_base trim
read_hex = refl

too_large : str_to_int (decimal 2147483648) 10 ≡ (false, pos 0)
unfolding str_to_int extract scan_unsigned scan_number scan_digits trim decimal
too_large = refl

ordinals :
    (to_ordinal 11 ≡ b'1' ∷ b'1' ∷ b't' ∷ b'h' ∷ [])
    × (to_ordinal 22 ≡ b'2' ∷ b'2' ∷ b'n' ∷ b'd' ∷ [])
unfolding to_ordinal decimal
ordinals = (refl, refl)

split-words_example : split csv (b',' ∷ []) true ≡ words (contains (b',' ∷ [])) csv
split-words_example = split-words (b',' ∷ []) csv

join-split_example : join b',' (split csv (b',' ∷ []) false) ≡ csv
join-split_example = join-split b',' csv

str_to_int-padded_example : str_to_int (padded 5 (negsuc 41)) 10 ≡ (true, negsuc 41)
str_to_int-padded_example = str_to_int-padded 5 (negsuc 41) (omega arith)
