-- ===== src/Preprocess/Iterate.antt =====
-- Indexing a file, and the iterators over it.
use miscellaneous_repo.Prelude.{
  ℕ, zero, suc, ◌+◌, ◌-◌, ◌<◌, ◌≡◌, refl, sym, ap, ◌∙◌, inl, inr, true, false, not, some, ◌>>=◌,
  List, [], ◌∷◌, ◌++◌, append_assoc, arith, ltb, ◌==◌, if◌then◌else◌, Bool-cases, length,
  length-append, get_elem?, get_elem?-append_length,
}
use miscellaneous_repo.Console.Text.{Text}
use miscellaneous_repo.Preprocess.{
  SrcLine, line_size, SrcFile, index_lines, index, SrcIter, begin, end_of, deref, equal, unequal,
  increment, post_increment, print_from,
}

-- The tokens of the lines, one line after the other.
abbrev pub all_tokens : List SrcLine → List Text
all_tokens [] = []
all_tokens (l ∷ ls) = l.tokens ++ all_tokens ls

pub all_tokens-append :
    (ls ms : List SrcLine) → all_tokens (ls ++ ms) ≡ all_tokens ls ++ all_tokens ms
all_tokens-append [] ms = refl
all_tokens-append (l ∷ ls) ms =
    ap (λ xs. l.tokens ++ xs) (all_tokens-append ls ms)
    ∙ sym (append_assoc l.tokens (all_tokens ls) (all_tokens ms))

-- `_size` counts the tokens.
abbrev pub IsSized : SrcFile → Type 0
IsSized sf = sf.size ≡ length (all_tokens sf.lines)

get_elem?-append :
    (xs ys : List Text) (i : ℕ)
    → get_elem? (xs ++ ys) i
      ≡ (if ltb i (length xs) then get_elem? xs i else get_elem? ys (i - length xs))
get_elem?-append [] ys i =
    let no : ltb i 0 ≡ false = ground arith in
    let same : i ≡ i - 0 = omega arith in rw no (ap (get_elem? ys) same)
get_elem?-append (x ∷ xs) ys zero = ground arith
get_elem?-append (x ∷ xs) ys (suc i) = ground (arith, get_elem?-append xs ys i)

index_lines-all_tokens :
    (ls : List SrcLine) (i : ℕ) → index_lines ls i ≡ get_elem? (all_tokens ls) i
unfolding index_lines
index_lines-all_tokens [] i = refl
index_lines-all_tokens (l ∷ ls) i = elim (Bool-cases (ltb i (line_size l))) [
  | inl e ↦ rw e (sym (get_elem?-append l.tokens (all_tokens ls) i ∙ rw e refl))
  | inr e ↦ rw e (
      index_lines-all_tokens ls (i - line_size l)
      ∙ sym (get_elem?-append l.tokens (all_tokens ls) i ∙ rw e refl))
]

-- operator[] gives the tokens of the whole file by their position, and there is none past the end.
pub index-all_tokens : (sf : SrcFile) (i : ℕ) → index sf i ≡ get_elem? (all_tokens sf.lines) i
unfolding index
index-all_tokens sf i = index_lines-all_tokens sf.lines i

module _ (files : ℕ → SrcFile) (p : ℕ) (sized : IsSized (files p)) where
  abbrev at : ℕ → SrcIter
  at i = record { file = some p; index = i }

  unequal-at : (i j : ℕ) → unequal (at i) (at j) ≡ not (i == j)
  unfolding unequal equal
  unequal-at i j = ground arith

  print_from-rest :
      (f : ℕ) (before rest : List Text)
      → all_tokens (files p).lines ≡ before ++ rest
      → length rest < f
      → print_from files f (at (length before)) (end_of p (files p)) ≡ some rest
  unfolding print_from deref post_increment increment
  print_from-rest zero before rest e h = absurd (omega arith)
  print_from-rest (suc f) before [] e h =
      let last : (length before == (files p).size) ≡ true =
        ground (arith, sized, ap length e, length-append before []) in
      rw (unequal-at (length before) ((files p).size) ∙ ap not last, print_from) refl
  print_from-rest (suc f) before (t ∷ ts) e h =
      let more : (length before == (files p).size) ≡ false =
        ground (arith, sized, ap length e, length-append before (t ∷ ts)) in
      let here : index (files p) (length before) ≡ some t =
        index-all_tokens (files p) (length before)
        ∙ ap (λ xs. get_elem? xs (length before)) e
        ∙ get_elem?-append_length (length before) before t ts refl in
      let next : at (length before + 1) ≡ at (length (before ++ (t ∷ []))) =
        ap at (sym (length-append before (t ∷ []) ∙ omega arith)) in
      let rest =
        print_from-rest f (before ++ (t ∷ [])) ts (e ∙ sym (append_assoc before (t ∷ []) ts))
          (omega arith) in
      rw (unequal-at (length before) ((files p).size) ∙ ap not more, print_from)
        (rw (here, ◌>>=◌)
          (ap (λ it. print_from files f it (end_of p (files p)) >>= λ ts'. some (t ∷ ts')) next
            ∙ ap (λ o. o >>= λ ts'. some (t ∷ ts')) rest))

  -- The loop of main over a file whose `_size` counts its tokens: with one round for each token and one for
  -- the end, it stops at the end, and prints all tokens in order. No reference is past the end.
  pub print_from-all :
      print_from files (suc (files p).size) (begin p) (end_of p (files p))
      ≡ some (all_tokens (files p).lines)
  print_from-all =
      print_from-rest (suc (files p).size) [] (all_tokens (files p).lines) refl (omega arith)
