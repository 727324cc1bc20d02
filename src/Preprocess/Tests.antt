-- ===== src/Preprocess/Tests.antt =====
-- A file of three lines.
use miscellaneous_repo.Prelude.{suc, ◌≡◌, refl, some, [], ◌∷◌, get_elem?, replicate, ◌++◌}
use miscellaneous_repo.Console.Text.{Text, split}
use miscellaneous_repo.Preprocess.{
  src_line, SrcFile, no_lines, read, read_lines, getline, take_line, c_str, push_line, index, begin,
  end_of, print_from, line_count,
}
use miscellaneous_repo.Preprocess.Iterate.{all_tokens, IsSized, index-all_tokens, print_from-all}
use miscellaneous_repo.Preprocess.Read.{lines_of, readable, stored, read-stored, read-IsSized}

-- "a bc", an empty line, and " d".
abbrev contents : Text
contents = b'a' ∷ 32 ∷ b'b' ∷ b'c' ∷ 10 ∷ 10 ∷ 32 ∷ b'd' ∷ []

abbrev name : Text
name = b'f' ∷ []

small : SrcFile
small = read name (some contents) no_lines

small_tokens : all_tokens small.lines ≡ (b'a' ∷ []) ∷ (b'b' ∷ b'c' ∷ []) ∷ (b'd' ∷ []) ∷ []
unfolding small read read_lines getline take_line push_line src_line c_str split
small_tokens = refl

small_lines : line_count small ≡ 3
unfolding small read read_lines getline take_line push_line src_line c_str split line_count
small_lines = refl

-- A line of 256 bytes ends the reading, and what follows it is not seen.
cut_short : (read name (some (replicate 256 b'x' ++ (10 ∷ contents))) no_lines).lines ≡ []
unfolding read read_lines getline take_line
cut_short = refl

read-stored_example :
    (read name (some contents) no_lines).lines ≡ stored name 0 (readable (lines_of contents))
read-stored_example = read-stored name contents

read-IsSized_example : IsSized (read name (some contents) no_lines)
read-IsSized_example = read-IsSized name (some contents) no_lines refl

index-all_tokens_example : index small 2 ≡ get_elem? (all_tokens small.lines) 2
index-all_tokens_example = index-all_tokens small 2

print_from-all_example :
    print_from (λ p. small) (suc small.size) (begin 7) (end_of 7 small)
    ≡ some (all_tokens small.lines)
print_from-all_example = print_from-all (λ p. small) 7 small-IsSized
  where
    small-IsSized : IsSized small
    small-IsSized = unfold small in read-IsSized name (some contents) no_lines refl
