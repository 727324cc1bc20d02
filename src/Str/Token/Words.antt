-- ===== src/Str/Token/Words.antt =====
-- What splitting a text at separator bytes means: its words are the longest runs of other bytes.
use miscellaneous_repo.Prelude.{
  ℕ, ◌≡◌, refl, sym, ◌∙◌, ◌≢◌, Bool, true, false, List, [], ◌∷◌, ◌++◌, append_assoc, append-nil,
  if◌then◌else◌, Bool-cases, inl, inr,
}

abbrev pub flush : List ℕ → List (List ℕ)
flush [] = []
flush (x ∷ xs) = (x ∷ xs) ∷ []

module _ (sep : ℕ → Bool) where
  -- The words of a text, `cur` being the part of a word that stands before it.
  unfoldable pub words_from : List ℕ → List ℕ → List (List ℕ)
  words_from cur [] = flush cur
  words_from cur (b ∷ bs) = elim (sep b) [
    | true ↦ flush cur ++ words_from [] bs
    | false ↦ words_from (cur ++ (b ∷ [])) bs
  ]

  unfoldable pub words : List ℕ → List (List ℕ)
  words bs = words_from [] bs

  -- The bytes that are no separators.
  pub kept : List ℕ → List ℕ
  kept [] = []
  kept (b ∷ bs) = if sep b then kept bs else b ∷ kept bs

  abbrev pub concat : List (List ℕ) → List ℕ
  concat [] = []
  concat (w ∷ ws) = w ++ concat ws

  -- A word is not empty and has no separator in it.
  abbrev pub Clean : List ℕ → Type 0
  Clean [] = Unit {0}
  Clean (b ∷ bs) = (sep b ≡ false) × Clean bs

  abbrev pub AreWords : List (List ℕ) → Type 0
  AreWords [] = Unit {0}
  AreWords (w ∷ ws) = (w ≢ []) × Clean w × AreWords ws

  concat-append : (vs ws : List (List ℕ)) → concat (vs ++ ws) ≡ concat vs ++ concat ws
  concat-append [] ws = refl
  concat-append (v ∷ vs) ws =
      rw (concat-append vs ws) (sym (append_assoc v (concat vs) (concat ws)))

  concat-flush : (cur : List ℕ) → concat (flush cur) ≡ cur
  concat-flush [] = refl
  concat-flush (x ∷ xs) = append-nil (x ∷ xs)

  concat-words_from : (cur bs : List ℕ) → concat (words_from cur bs) ≡ cur ++ kept bs
  unfolding words_from kept
  concat-words_from cur [] = concat-flush cur ∙ sym (append-nil cur)
  concat-words_from cur (b ∷ bs) = elim (Bool-cases (sep b)) [
    | inl e ↦
        rw (e, words_from)
          (concat-append (flush cur) (words_from [] bs)
            ∙ rw (concat-flush cur, concat-words_from [] bs))
    | inr e ↦
        rw (e, words_from)
          (concat-words_from (cur ++ (b ∷ [])) bs ∙ append_assoc cur (b ∷ []) (kept bs))
  ]

  AreWords-append : (vs ws : List (List ℕ)) → AreWords vs → AreWords ws → AreWords (vs ++ ws)
  AreWords-append [] ws hv hw = hw
  AreWords-append (v ∷ vs) ws hv hw = (hv.0, hv.1, AreWords-append vs ws hv.2 hw)

  Clean-append : (v w : List ℕ) → Clean v → Clean w → Clean (v ++ w)
  Clean-append [] w hv hw = hw
  Clean-append (b ∷ v) w hv hw = (hv.0, Clean-append v w hv.1 hw)

  flush-AreWords : (cur : List ℕ) → Clean cur → AreWords (flush cur)
  flush-AreWords [] h = tt
  flush-AreWords (x ∷ xs) h = ((λ e. cc), h, tt)

  words_from-AreWords : (cur bs : List ℕ) → Clean cur → AreWords (words_from cur bs)
  unfolding words_from
  words_from-AreWords cur [] h = flush-AreWords cur h
  words_from-AreWords cur (b ∷ bs) h = elim (Bool-cases (sep b)) [
    | inl e ↦
        rw (e, words_from)
          (AreWords-append (flush cur) (words_from [] bs) (flush-AreWords cur h)
            (words_from-AreWords [] bs tt))
    | inr e ↦
        rw (e, words_from)
          (words_from-AreWords (cur ++ (b ∷ [])) bs (Clean-append cur (b ∷ []) h (e, tt)))
  ]

  -- The words of a text are not empty, have no separator in them, and are together, in order, the
  -- bytes of the text that are no separators.
  pub words_lem : (bs : List ℕ) → AreWords (words bs) × (concat (words bs) ≡ kept bs)
  unfolding words
  words_lem bs = (words_from-AreWords [] bs tt, concat-words_from [] bs)
