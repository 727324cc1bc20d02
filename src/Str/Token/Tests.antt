-- ===== src/Str/Token/Tests.antt =====
-- A run of wba_strntok on a small text, and the theorems about words at it.
use miscellaneous_repo.Prelude.{ℕ, ◌≡◌, refl, true, some, List, [], ◌∷◌, ◌++◌, arith}
use miscellaneous_repo.Str.{reserve_put, strncpy, str_reserve, strnew, read, put, blit}
use miscellaneous_repo.Str.Tests.{plenty}
use miscellaneous_repo.Str.Token.{
  tokens, is_sep, next_start, next_end, close_last, make_room, make_token, store, emit, scan,
  strntok, strtok,
}
use miscellaneous_repo.Str.Token.Words.{words, words_from, kept, words_lem, AreWords, concat}
use miscellaneous_repo.Str.Token.Steps.{one_of}
use miscellaneous_repo.Str.Token.Split.{Split, strntok-words, strtok-words}

-- ",a,,bc" at ','.
abbrev csv : List ℕ
csv = b',' ∷ b'a' ∷ b',' ∷ b',' ∷ b'b' ∷ b'c' ∷ []

strntok_runs :
    strntok plenty 0 (some csv) 6 (some (b',' ∷ [])) 1 true
    ≡ tokens (
        record { len = 1; cap = 1; buf = b'a' ∷ 0 ∷ [] }
        ∷ record { len = 2; cap = 2; buf = b'b' ∷ b'c' ∷ 0 ∷ [] }
        ∷ [])
unfolding strntok scan is_sep next_start next_end close_last emit store make_room make_token strnew
    strncpy reserve_put str_reserve read put blit
strntok_runs = refl

words_run : words (one_of (b',' ∷ [])) csv ≡ (b'a' ∷ []) ∷ (b'b' ∷ b'c' ∷ []) ∷ []
unfolding words words_from
words_run = refl

words_lem_example :
    AreWords (one_of (b',' ∷ [])) (words (one_of (b',' ∷ [])) csv)
    × (concat (one_of (b',' ∷ [])) (words (one_of (b',' ∷ [])) csv) ≡ kept (one_of (b',' ∷ [])) csv)
words_lem_example = words_lem (one_of (b',' ∷ [])) csv

strntok-words_example :
    Split plenty
      (words (one_of (b',' ∷ [])) csv)
      (strntok plenty 0 (some csv) 6 (some (b',' ∷ [])) 1 true)
strntok-words_example =
    strntok-words plenty 0 csv 6 (b',' ∷ []) 1 (omega arith) (omega arith) (omega arith)
      (omega arith)

strtok-words_example :
    Split plenty
      (words (one_of (b',' ∷ [])) csv)
      (strtok plenty 0 (some (csv ++ (0 ∷ []))) (some (b',' ∷ 0 ∷ [])) true)
strtok-words_example =
    strtok-words plenty 0 csv (b',' ∷ []) [] [] (omega arith) (omega arith) (omega arith)
      (omega arith)
