-- ===== src/Preprocess/Read.antt =====
-- SrcFile::read.
use miscellaneous_repo.Prelude.{
  ℕ, zero, suc, ◌≤◌, ◌<◌, ◌≡◌, refl, sym, ap, ◌∙◌, inl, inr, true, false, Option, none, some, List,
  [], ◌∷◌, ◌++◌, append_assoc, append-nil, arith, leb, ◌==◌, if◌then◌else◌, Bool-cases,
  Option-cases, length, length-append,
}
use miscellaneous_repo.Console.Text.{Text}
use miscellaneous_repo.Preprocess.{
  SrcLine, src_line, SrcFile, no_lines, take_line, getline, c_str, push_line, read_lines, read,
}
use miscellaneous_repo.Preprocess.Iterate.{all_tokens, all_tokens-append, IsSized}

-- The lines of a text; the last one may lack its newline.
pub lines_of : Text → List Text
lines_of [] = []
lines_of (c ∷ s) =
    if c == 10
    then [] ∷ lines_of s
    else elim (lines_of s) [ [] ↦ (c ∷ []) ∷ [] | l ∷ ls ↦ (c ∷ l) ∷ ls ]

-- The lines before the first of more than 255 bytes.
pub readable : List Text → List Text
readable [] = []
readable (l ∷ ls) = if leb (length l) 255 then l ∷ readable ls else []

-- The lines as they are stored, with their numbers from `k` + 1 on.
pub stored : Text → ℕ → List Text → List SrcLine
stored filename k [] = []
stored filename k (l ∷ ls) = src_line (c_str l) filename (suc k) ∷ stored filename (suc k) ls

-- The first line, and what follows its newline.
first : Text → Text
first [] = []
first (c ∷ s) = if c == 10 then [] else c ∷ first s

after : Text → Text
after [] = []
after (c ∷ s) = if c == 10 then s else after s

lines_of-first : (c : ℕ) (s : Text) → lines_of (c ∷ s) ≡ first (c ∷ s) ∷ lines_of (after (c ∷ s))
unfolding lines_of first after
lines_of-first c [] = elim (Bool-cases (c == 10)) [ inl e ↦ rw e refl | inr e ↦ rw e refl ]
lines_of-first c (d ∷ s) = elim (Bool-cases (c == 10)) [
  | inl e ↦ rw e refl
  | inr e ↦ rw (e, lines_of-first d s) refl
]

take_line-first :
    (n : ℕ) (s : Text)
    → take_line n s ≡ (if leb (length (first s)) n then some (first s, after s) else none)
unfolding take_line first after
take_line-first n [] = ground arith
take_line-first zero (c ∷ s) = elim (Bool-cases (c == 10)) [
  | inl e ↦ rw e refl
  | inr e ↦ rw e (ground arith)
]
take_line-first (suc n) (c ∷ s) = elim (Bool-cases (c == 10)) [
  | inl e ↦ rw e (ground arith)
  | inr e ↦ elim (Bool-cases (leb (length (first s)) n)) [
    | inl fits ↦
        let more : leb (suc (length (first s))) (suc n) ≡ true = ground arith in
        rw (e, more, take_line-first n s) (rw fits refl)
    | inr long ↦
        let more : leb (suc (length (first s))) (suc n) ≡ false = ground arith in
        rw (e, more, take_line-first n s) (rw long refl)
  ]
]

getline-first :
    (c : ℕ) (s : Text)
    → getline (c ∷ s)
      ≡ (if leb (length (first (c ∷ s))) 255 then some (first (c ∷ s), after (c ∷ s)) else none)
unfolding getline
getline-first c s = take_line-first 255 (c ∷ s)

length-after : (c : ℕ) (s : Text) → length (after (c ∷ s)) ≤ length s
unfolding after
length-after c [] = ground arith
length-after c (d ∷ s) = elim (Bool-cases (c == 10)) [
  | inl e ↦ rw e (omega arith)
  | inr e ↦ rw e (omega (arith, length-after d s))
]

stored-fits :
    (filename : Text) (k : ℕ) (l : Text) (ls : List Text)
    → leb (length l) 255 ≡ true
    → stored filename k (readable (l ∷ ls))
      ≡ src_line (c_str l) filename (suc k) ∷ stored filename (suc k) (readable ls)
unfolding readable stored
stored-fits filename k l ls e = rw e refl

stored-long :
    (filename : Text) (k : ℕ) (l : Text) (ls : List Text)
    → leb (length l) 255 ≡ false
    → stored filename k (readable (l ∷ ls)) ≡ []
unfolding readable stored
stored-long filename k l ls e = rw e refl

read_lines-stored :
    (f : ℕ) (filename stream : Text) (k : ℕ) (sf : SrcFile)
    → length stream < f
    → (read_lines f filename stream k sf).lines
      ≡ sf.lines ++ stored filename k (readable (lines_of stream))
unfolding read_lines push_line
read_lines-stored zero filename stream k sf h = absurd (omega arith)
read_lines-stored (suc f) filename [] k sf h =
    unfold lines_of readable stored getline in sym (append-nil sf.lines)
read_lines-stored (suc f) filename (c ∷ s) k sf h =
    elim (Bool-cases (leb (length (first (c ∷ s))) 255)) [
      | inl fits ↦
          let l = src_line (c_str (first (c ∷ s))) filename (suc k) in
          let got : getline (c ∷ s) ≡ some (first (c ∷ s), after (c ∷ s)) =
            getline-first c s ∙ rw fits refl in
          rw (got, read_lines, lines_of-first c s)
            (rw (stored-fits filename k (first (c ∷ s)) (lines_of (after (c ∷ s))) fits) (
              read_lines-stored f filename (after (c ∷ s)) (suc k) (push_line sf l)
                (omega (arith, length-after c s))
              ∙ append_assoc sf.lines (l ∷ [])
                  (stored filename (suc k) (readable (lines_of (after (c ∷ s)))))))
      | inr long ↦
          let failed : getline (c ∷ s) ≡ none = getline-first c s ∙ rw long refl in
          rw (failed, read_lines, lines_of-first c s)
            (rw (stored-long filename k (first (c ∷ s)) (lines_of (after (c ∷ s))) long)
              (sym (append-nil sf.lines)))
    ]

-- read of a file, into an empty object: the lines before the first one of more than 255 bytes are stored in
-- order, each split into tokens and with its number; where no line is that long, all of them.
pub read-stored :
    (filename stream : Text)
    → (read filename (some stream) no_lines).lines ≡ stored filename 0 (readable (lines_of stream))
unfolding read
read-stored filename stream =
    read_lines-stored (suc (length stream)) filename stream 0 no_lines (omega arith)

push_line-IsSized : (sf : SrcFile) (l : SrcLine) → IsSized sf → IsSized (push_line sf l)
unfolding push_line
push_line-IsSized sf l v = omega (
  arith,
  v,
  ap length (all_tokens-append sf.lines (l ∷ [])),
  length-append (all_tokens sf.lines) (l.tokens ++ []),
  length-append l.tokens [],
)

read_lines-IsSized :
    (f : ℕ) (filename stream : Text) (k : ℕ) (sf : SrcFile)
    → IsSized sf
    → IsSized (read_lines f filename stream k sf)
unfolding read_lines
read_lines-IsSized zero filename stream k sf v = v
read_lines-IsSized (suc f) filename stream k sf v = elim (Option-cases (getline stream)) [
  | inl e ↦ rw (e, read_lines) v
  | inr ((l, rest), e) ↦
      rw (e, read_lines)
        (read_lines-IsSized f filename rest (suc k)
          (push_line sf (src_line (c_str l) filename (suc k)))
          (push_line-IsSized sf (src_line (c_str l) filename (suc k)) v))
]

-- read keeps `_size` the number of tokens, for every file.
pub read-IsSized :
    (filename : Text) (stream : Option Text) (sf : SrcFile)
    → IsSized sf
    → IsSized (read filename stream sf)
unfolding read
read-IsSized filename none sf v = v
read-IsSized filename (some stream) sf v =
    read_lines-IsSized (suc (length stream)) filename stream 0 sf v
