-- ===== src/Console/Text/Split.antt =====
-- pgr::split: with empty parts removed it gives the words of the text, as wba_strntok does; with them
-- kept it loses nothing.
use miscellaneous_repo.Prelude.{
  ℕ, ◌≡◌, refl, sym, ap, ◌∙◌, ◌≢◌, true, false, inl, inr, List, [], ◌∷◌, ◌++◌, append_assoc,
  append-nil, arith, Bool-cases,
}
use miscellaneous_repo.Str.Token.Words.{words, words_from, flush, Clean}
use miscellaneous_repo.Console.Text.{Text, contains, push_part, split_loop, split}

push_part-flush :
    (result : List Text) (sub : Text) → push_part true result sub ≡ (result ++ flush sub, [])
unfolding push_part
push_part-flush result [] = rw (append-nil result) refl
push_part-flush result (c ∷ s) = refl

module _ (delims : Text) where
  split_loop-words :
      (s : Text) (result : List Text) (sub : Text)
      → split_loop delims true s result sub ≡ result ++ words_from (contains delims) sub s
  unfolding split_loop words_from
  split_loop-words [] result sub = ap (λ p. p.0) (push_part-flush result sub)
  split_loop-words (c ∷ s) result sub = elim (Bool-cases (contains delims c)) [
    | inr e ↦ rw (e, split_loop, words_from) (split_loop-words s result (sub ++ (c ∷ [])))
    | inl e ↦
        rw (e, split_loop, words_from, push_part-flush result sub)
          (split_loop-words s (result ++ flush sub) []
            ∙ append_assoc result (flush sub) (words_from (contains delims) [] s))
  ]

  -- With empty parts removed, split gives the words of the text, of which the delimiters are the
  -- separators: the longest runs of other bytes, in order.
  pub split-words : (str : Text) → split str delims true ≡ words (contains delims) str
  unfolding split words words_from
  split-words [] = refl
  split-words (c ∷ s) = split_loop-words (c ∷ s) [] []

  -- The words behind a part without delimiters.
  pub words_from-Clean :
      (p cur rest : Text)
      → Clean (contains delims) p
      → words_from (contains delims) cur (p ++ rest) ≡ words_from (contains delims) (cur ++ p) rest
  unfolding words_from
  words_from-Clean [] cur rest h = rw (append-nil cur) refl
  words_from-Clean (c ∷ p) cur rest h =
      rw (h.0, words_from)
        (words_from-Clean p (cur ++ (c ∷ [])) rest h.1
          ∙ ap (λ x. words_from (contains delims) x rest) (append_assoc cur (c ∷ []) p))

  flush-cons : (p : Text) → p ≢ [] → flush p ≡ p ∷ []
  flush-cons [] h = absurd (h refl)
  flush-cons (c ∷ p) h = refl

  -- A part, and a delimiter behind it.
  pub words-part :
      (p : Text) (d : ℕ) (rest : Text)
      → p ≢ []
      → Clean (contains delims) p
      → contains delims d ≡ true
      → words (contains delims) (p ++ (d ∷ rest)) ≡ p ∷ words (contains delims) rest
  unfolding words
  words-part p d rest ne h e =
      words_from-Clean p [] (d ∷ rest) h
      ∙ unfold words_from in rw (e, words_from, flush-cons p ne) refl

  -- The last part.
  pub words-last :
      (p : Text) → p ≢ [] → Clean (contains delims) p → words (contains delims) p ≡ p ∷ []
  unfolding words
  words-last p ne h =
      ap (words_from (contains delims) []) (sym (append-nil p))
      ∙ words_from-Clean p [] [] h
      ∙ unfold words_from in flush-cons p ne

-- The parts with one delimiter between two of them.
pub join : ℕ → List Text → Text
join d [] = []
join d (p ∷ []) = p
join d (p ∷ q ∷ ps) = p ++ (d ∷ join d (q ∷ ps))

-- A delimiter behind each.
closed : ℕ → List Text → Text
closed d [] = []
closed d (p ∷ ps) = p ++ (d ∷ closed d ps)

module _ (d : ℕ) where
  join-closed : (ps : List Text) (p : Text) → join d (ps ++ (p ∷ [])) ≡ closed d ps ++ p
  unfolding join closed
  join-closed [] p = refl
  join-closed (q ∷ []) p = sym (append_assoc q (d ∷ []) p)
  join-closed (q ∷ r ∷ ps) p =
      ap (λ x. q ++ (d ∷ x)) (join-closed (r ∷ ps) p)
      ∙ sym (append_assoc q (d ∷ closed d (r ∷ ps)) p)

  closed-snoc :
      (ps : List Text) (p : Text) → closed d (ps ++ (p ∷ [])) ≡ closed d ps ++ (p ++ (d ∷ []))
  unfolding closed
  closed-snoc [] p = refl
  closed-snoc (q ∷ ps) p =
      ap (λ x. q ++ (d ∷ x)) (closed-snoc ps p)
      ∙ sym (append_assoc q (d ∷ closed d ps) (p ++ (d ∷ [])))

  join-split_loop :
      (s : Text) (result : List Text) (sub : Text)
      → join d (split_loop (d ∷ []) false s result sub) ≡ closed d result ++ (sub ++ s)
  unfolding split_loop push_part
  join-split_loop [] result sub =
      join-closed result sub ∙ ap (λ x. closed d result ++ x) (sym (append-nil sub))
  join-split_loop (c ∷ s) result sub = elim (Bool-cases (contains (d ∷ []) c)) [
    | inr e ↦
        rw (e, split_loop)
          (join-split_loop s result (sub ++ (c ∷ []))
            ∙ ap (λ x. closed d result ++ x) (append_assoc sub (c ∷ []) s))
    | inl e ↦
        let same : d ≡ c = unfold contains in ground (arith, e) in
        rw (e, split_loop)
          (join-split_loop s (result ++ (sub ∷ [])) []
            ∙ ap (λ x. x ++ s) (closed-snoc result sub)
            ∙ append_assoc (closed d result) (sub ++ (d ∷ [])) s
            ∙ ap (λ x. closed d result ++ x) (append_assoc sub (d ∷ []) s ∙ rw same refl))
  ]

  -- At one delimiter and with empty parts kept, split loses nothing: the parts with the delimiter
  -- between them are the text.
  pub join-split : (str : Text) → join d (split str (d ∷ []) false) ≡ str
  unfolding split
  join-split [] = unfold join in refl
  join-split (c ∷ s) = join-split_loop (c ∷ s) [] [] ∙ unfold closed in refl
