-- ===== src/Http/Content.antt =====
-- Reading a body that has no chunks.
use miscellaneous_repo.Prelude.{
  ℕ, ◌+◌, ◌≡◌, sym, ap, ◌∙◌, ap₂, List, [], ◌∷◌, ◌++◌, append_assoc, append-nil, arith, length,
}
use miscellaneous_repo.Console.Text.{Text}
use miscellaneous_repo.Http.Client.{
  eof, read_content, done, Client, stop, signal_result, take_content, got_content,
  handle_read_content, handler, complete,
}
use miscellaneous_repo.Http.Body.{waits, run}

abbrev pub total_length : List Text → ℕ
total_length [] = 0
total_length (p ∷ ps) = length p + total_length ps

module _ (c : Client) (content_length : ℕ) where
  run-pieces :
      (pieces content : List Text) (len : ℕ)
      → run pieces (waits c (read_content content_length) [] content len)
        ≡ waits c (read_content content_length) [] (content ++ pieces) (len + total_length pieces)
  unfolding complete handler handle_read_content got_content take_content
  run-pieces [] content len =
      ap₂ (λ xs n. waits c (read_content content_length) [] xs n) (sym (append-nil content))
        (omega arith)
  run-pieces (p ∷ ps) content len =
      run-pieces ps (content ++ (p ∷ [])) (len + length p)
      ∙ ap₂ (λ xs n. waits c (read_content content_length) [] xs n)
          (append_assoc content (p ∷ []) ps) (omega arith)

  -- A client that reads a body with a content length, and has stored `content` of `len` bytes: whatever
  -- pieces then come before the end of the stream, and whatever the content length is, the end of the
  -- stream brings the one result. It is without an error, and has what was stored and the pieces.
  pub run-content :
      (pieces content : List Text) (len : ℕ)
      → (complete 0 eof []
          (run pieces (waits c (read_content content_length) [] content len))).results
        ≡ record {
          err_msg = done;
          content = content ++ pieces;
          content_length = len + total_length pieces;
        }
          ∷ []
  unfolding complete handler handle_read_content signal_result stop
  run-content pieces content len =
      ap (λ d. (complete 0 eof [] d).results) (run-pieces pieces content len)
