-- ===== src/Http/Body.antt =====
-- Reading a chunked body, however it arrives in pieces.
use miscellaneous_repo.Prelude.{
  ℕ, ◌+◌, ◌*◌, ◌<◌, ◌^◌, ◌≡◌, refl, sym, ap, ◌∙◌, true, false, List, [], ◌∷◌, ◌++◌, append_assoc,
  append-nil, ap₂, arith, ltb, ◌==◌, subst, length,
}
use miscellaneous_repo.Console.Text.{Text}
use miscellaneous_repo.Http.Reader.{getline, http_chunk_size}
use miscellaneous_repo.Http.Client.{
  success, Waiting, idle, read_chunk_size, read_chunk_data, done, Client, stop, signal_result,
  remaining, got_chunk_size, got_chunk_data, unless_failed, handler, complete,
}
use miscellaneous_repo.Http.Chunks.{
  Chunk, has_newline, size_in, AreChunks, encode, data_of, total, joined, getline-line, split_front,
  http_chunk_data-bytes, length-encode, piece-enough,
}

-- What asio promises of a completed read: up to a newline, or exactly the bytes that were left.
abbrev pub Serves : Waiting → Text → Text → Type 0
Serves (read_chunk_data size left) held piece = length piece ≡ left
Serves w held piece = has_newline (held ++ piece) ≡ true

abbrev pub run : List Text → Client → Client
run [] c = c
run (p ∷ ps) c = run ps (complete 0 success p c)

abbrev pub AreServed : List Text → Client → Type 0
AreServed [] c = Unit {0}
AreServed (p ∷ ps) c = Serves c.waiting c.response p × AreServed ps (complete 0 success p c)

-- A client that reads a body: its operation, what it holds, and what it has read.
abbrev pub waits : Client → Waiting → Text → List Text → ℕ → Client
waits c w held content len = record c {
  stopped = false;
  response = held;
  content = content;
  content_length = len;
  waiting = w;
  results = [];
}

module _ (c : Client) where
  complete-size :
      (held p line left : Text) (content : List Text) (n len : ℕ)
      → getline (held ++ p) ≡ (line, left)
      → size_in line ≡ n
      → 0 < n
      → complete 0 success p (waits c read_chunk_size held content len)
        ≡ waits c (read_chunk_data n (remaining n (length left))) left content len
  unfolding complete handler unless_failed got_chunk_size http_chunk_size
  complete-size held p line left content n len found size more =
      let some_bytes : ltb 0 n ≡ true = ground arith in rw (found, size, some_bytes) refl

  complete-last :
      (held p line left : Text) (content : List Text) (len : ℕ)
      → getline (held ++ p) ≡ (line, left)
      → size_in line ≡ 0
      → complete 0 success p (waits c read_chunk_size held content len)
        ≡ signal_result done (stop (waits c idle left content len))
  unfolding complete handler unless_failed got_chunk_size http_chunk_size
  complete-last held p line left content len found size = rw (found, size) refl

  complete-bytes :
      (held p bytes extra : Text) (content : List Text) (k len : ℕ)
      → held ++ p ≡ bytes ++ (13 ∷ 10 ∷ extra)
      → complete 0 success p (waits c (read_chunk_data (length bytes) k) held content len)
        ≡ waits c read_chunk_size extra (content ++ (bytes ∷ [])) (len + length bytes)
  unfolding complete handler unless_failed got_chunk_data
  complete-bytes held p bytes extra content k len e =
      let same : (length bytes == length bytes) ≡ true = ground arith in
      rw (e, http_chunk_data-bytes bytes extra, same) refl

  module _ (last tail : Text) (last_line : has_newline last ≡ false) (ends : size_in last ≡ 0) where
    run-chunks :
        (hs : List Chunk) (pieces : List Text) (held later : Text) (content : List Text) (len : ℕ)
        → AreChunks hs
        → length pieces ≡ 2 * length hs + 1
        → held ++ joined pieces later ≡ encode last tail hs
        → length (encode last tail hs) < 2 ^ 31
        → AreServed pieces (waits c read_chunk_size held content len)
        → (left : Text) × (run pieces (waits c read_chunk_size held content len)
            ≡ signal_result done
                (stop (waits c idle left (content ++ data_of hs) (len + total hs))))
    run-chunks [] [] held later content len a k e b s = absurd (omega arith)
    run-chunks [] (p ∷ q ∷ ps) held later content len a k e b s = absurd (omega arith)
    run-chunks (h ∷ hs) [] held later content len a k e b s = absurd (omega arith)
    run-chunks (h ∷ hs) (p ∷ []) held later content len a k e b s = absurd (omega arith)
    run-chunks [] (p ∷ []) held later content len a k e b s =
        let (left, found, behind) =
          getline-line last (held ++ p) later tail last_line s.0 (append_assoc held p later ∙ e) in
        (
          left,
          complete-last held p last left content len found ends
              ∙ ap₂ (λ xs n. signal_result done (stop (waits c idle left xs n)))
                  (sym (append-nil content)) (omega arith),
        )
    run-chunks (h ∷ hs) (p ∷ q ∷ ps) held later content len a k e b s =
        let n = length h.bytes in
        let rest = encode last tail hs in
        let (left, found, behind) =
          getline-line h.line (held ++ p) (q ++ joined ps later) (h.bytes ++ (13 ∷ 10 ∷ rest)) a.0
            s.0 (append_assoc held p (q ++ joined ps later) ∙ e) in
        let sized = complete-size held p h.line left content n len found a.1 a.2 in
        let s₁ : AreServed (q ∷ ps)
            (waits c (read_chunk_data n (remaining n (length left))) left content len) =
          subst (AreServed (q ∷ ps)) sized s.1 in
        let (extra, front, after) =
          split_front (h.bytes ++ (13 ∷ 10 ∷ [])) (left ++ q) (joined ps later) rest
            (append_assoc left q (joined ps later)
              ∙ behind
              ∙ sym (append_assoc h.bytes (13 ∷ 10 ∷ []) rest))
            (piece-enough h.bytes left q (q ++ joined ps later) rest behind
              (omega (arith, b, length-encode last tail h hs)) s₁.0) in
        let stored =
          complete-bytes left q h.bytes extra content (remaining n (length left)) len
            (front ∙ append_assoc h.bytes (13 ∷ 10 ∷ []) extra) in
        let s₂ : AreServed ps
            (waits c read_chunk_size extra (content ++ (h.bytes ∷ [])) (len + n)) =
          subst (AreServed ps) stored s₁.1 in
        let (end, gone) =
          run-chunks hs ps extra later (content ++ (h.bytes ∷ [])) (len + n) a.3 (omega arith) after
            (omega (arith, b, length-encode last tail h hs)) s₂ in
        (
          end,
          ap (run (q ∷ ps)) sized
              ∙ ap (run ps) stored
              ∙ gone
              ∙ ap₂ (λ xs m. signal_result done (stop (waits c idle end xs m)))
                  (append_assoc content (h.bytes ∷ []) (data_of hs)) (omega arith),
        )

    -- A client that has begun to read a chunked body, shorter than 2^31 bytes, of which `held` has already
    -- come: however the body is then cut into pieces, as long as each read gives what asio promises, the
    -- last of the 2 * n + 1 reads of a body of `n` chunks brings the one result. It is without an error, its
    -- content are the chunks in order, and its length is that of all of them.
    pub run-data_of :
        (hs : List Chunk) (pieces : List Text) (held later : Text)
        → AreChunks hs
        → length pieces ≡ 2 * length hs + 1
        → held ++ joined pieces later ≡ encode last tail hs
        → length (encode last tail hs) < 2 ^ 31
        → AreServed pieces (waits c read_chunk_size held [] 0)
        → (run pieces (waits c read_chunk_size held [] 0)).results
          ≡ record { err_msg = done; content = data_of hs; content_length = total hs } ∷ []
    unfolding signal_result stop
    run-data_of hs pieces held later a k e b s =
        ap (λ d. d.results) (run-chunks hs pieces held later [] 0 a k e b s).1
        ∙ ap (λ n. record { err_msg = done; content = data_of hs; content_length = n } ∷ [])
            (omega arith)
