-- ===== src/Preprocess.antt =====
-- preprocess: a source file as lines of tokens (SrcLine, SrcFile), and iterators over the tokens (SrcIter
-- and SrcCIter, which differ in the constness of what they give).
-- A std::list is a List, a std::string its bytes. A file is the bytes of its contents, and `none` where it
-- cannot be opened. A reference is the text that it shows; `none` is a reference past the end.
pub mod Read
pub mod Iterate
mod Tests
use miscellaneous_repo.Prelude.{
  ℕ, zero, suc, ◌+◌, ◌-◌, Bool, true, false, not, ◌&&◌, Option, none, some, ◌>>=◌, List, [], ◌∷◌,
  ◌++◌, ltb, ◌==◌, if◌then◌else◌, length, get_elem?,
}
use miscellaneous_repo.Console.Text.{Text, split}

pub record SrcLine : Type 0 where
  pub line : ℕ
  pub file : Text
  pub tokens : List Text

abbrev pub space : Text
space = 32 ∷ []

pub src_line : Text → Text → ℕ → SrcLine
src_line str file line = record { line = line; file = file; tokens = split str space true }

abbrev pub line_size : SrcLine → ℕ
line_size l = length l.tokens

pub record SrcFile : Type 0 where
  pub size : ℕ
  pub lines : List SrcLine

abbrev pub no_lines : SrcFile
no_lines = record { size = 0; lines = [] }

-- The bytes of a line and the rest of the stream, with room for `n` bytes: `none` where the room ends
-- before the line does.
pub take_line : ℕ → Text → Option (Text × Text)
take_line n [] = some ([], [])
take_line zero (c ∷ s) = if c == 10 then some ([], s) else none
take_line (suc n) (c ∷ s) =
    let rest : Option (Text × Text) = elim (take_line n s) [
      | none ↦ none
      | some (l, s') ↦ some (c ∷ l, s')
    ] in
    if c == 10 then some ([], s) else rest

-- `fs.getline(buf, 256)`; `none` is a failure, also at the end of the stream.
pub getline : Text → Option (Text × Text)
getline [] = none
getline (c ∷ s) = take_line 255 (c ∷ s)

-- The string of a C text, up to its terminator.
pub c_str : Text → Text
c_str [] = []
c_str (c ∷ s) = if c == 0 then [] else c ∷ c_str s

-- `_data.push_back(line); _size += line.size();`
pub push_line : SrcFile → SrcLine → SrcFile
push_line sf l = record { size = sf.size + line_size l; lines = sf.lines ++ (l ∷ []) }

-- The loop of read; each line takes a byte of the stream, so its length is fuel enough.
pub read_lines : ℕ → Text → Text → ℕ → SrcFile → SrcFile
read_lines zero filename stream count sf = sf
read_lines (suc f) filename stream count sf = elim (getline stream) [
  | none ↦ sf
  | some (l, rest) ↦
      read_lines f filename rest (suc count)
        (push_line sf (src_line (c_str l) filename (suc count)))
]

unfoldable pub read : Text → Option Text → SrcFile → SrcFile
read filename none sf = sf
read filename (some stream) sf = read_lines (suc (length stream)) filename stream 0 sf

-- The search for the line and then for the token in it, for operator[].
pub index_lines : List SrcLine → ℕ → Option Text
index_lines [] index = none
index_lines (l ∷ ls) index =
    if ltb index (line_size l)
    then get_elem? l.tokens index
    else index_lines ls (index - line_size l)

unfoldable pub index : SrcFile → ℕ → Option Text
index sf i = index_lines sf.lines i

unfoldable pub line_count : SrcFile → ℕ
line_count sf = length sf.lines

-- `file` is the address of the file, `none` the NULL of a new iterator.
pub record SrcIter : Type 0 where
  pub file : Option ℕ
  pub index : ℕ

abbrev pub same_file : Option ℕ → Option ℕ → Bool
same_file none none = true
same_file none (some q) = false
same_file (some p) none = false
same_file (some p) (some q) = p == q

abbrev pub begin : ℕ → SrcIter
begin file = record { file = some file; index = 0 }

abbrev pub end_of : ℕ → SrcFile → SrcIter
end_of file sf = record { file = some file; index = sf.size }

-- `files` are the files by their addresses.
pub deref : (ℕ → SrcFile) → SrcIter → Option Text
deref files it = do p ← it.file; index (files p) it.index

unfoldable pub equal : SrcIter → SrcIter → Bool
equal a b = same_file a.file b.file && a.index == b.index

unfoldable pub unequal : SrcIter → SrcIter → Bool
unequal a b = not (equal a b)

pub increment : SrcIter → SrcIter
increment it = record it { index = it.index + 1 }

-- `it++` gives the iterator as it was, and the one that it becomes.
pub post_increment : SrcIter → SrcIter × SrcIter
post_increment it = (it, increment it)

-- The loop of main: the tokens that are printed, from `it` on, without the size that stands behind each;
-- `none` is a reference past the end or the end of the fuel.
pub print_from : (ℕ → SrcFile) → ℕ → SrcIter → SrcIter → Option (List Text)
print_from files zero it last = none
print_from files (suc f) it last = elim (unequal it last) [
  | false ↦ some []
  | true ↦ do t ← deref files it; ts ← print_from files f (post_increment it).1 last; some (t ∷ ts)
]
