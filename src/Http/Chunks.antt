-- ===== src/Http/Chunks.antt =====
-- A chunked body, and the bytes of it that arrive.
use miscellaneous_repo.Prelude.{
  ℕ, suc, ◌+◌, ◌-◌, ◌<◌, ◌≤◌, ◌^◌, ◌≡◌, refl, sym, ap, ◌∙◌, Bool, true, false, ◌||◌, List, [], ◌∷◌,
  ◌++◌, head-eq_of_cons-eq, tail-eq_of_cons-eq, ap₂, arith, ltb, ◌==◌, length, length-append,
  take-append_length, drop-append_length,
}
use miscellaneous_repo.Console.Text.{Text, skip_leading}
use miscellaneous_repo.Http.Reader.{getline, unsigned, http_chunk_data}
use miscellaneous_repo.Http.Client.{remaining}

-- A chunk: its line up to the newline, and its data.
pub record Chunk : Type 0 where
  pub line : Text
  pub bytes : Text

abbrev pub has_newline : Text → Bool
has_newline [] = false
has_newline (c ∷ s) = c == 10 || has_newline s

abbrev pub size_in : Text → ℕ
size_in line = unsigned 64 16 (skip_leading line)

abbrev pub AreChunks : List Chunk → Type 0
AreChunks [] = Unit {0}
AreChunks (h ∷ hs) =
    (has_newline h.line ≡ false)
    × (size_in h.line ≡ length h.bytes)
    × (0 < length h.bytes)
    × AreChunks hs

-- The body: the chunks, then `last` as the line of the last chunk, and what follows it.
abbrev pub encode : Text → Text → List Chunk → Text
encode last tail [] = last ++ (10 ∷ tail)
encode last tail (h ∷ hs) = h.line ++ (10 ∷ (h.bytes ++ (13 ∷ 10 ∷ encode last tail hs)))

abbrev pub data_of : List Chunk → List Text
data_of [] = []
data_of (h ∷ hs) = h.bytes ∷ data_of hs

abbrev pub total : List Chunk → ℕ
total [] = 0
total (h ∷ hs) = length h.bytes + total hs

abbrev pub joined : List Text → Text → Text
joined [] later = later
joined (p ∷ ps) later = p ++ joined ps later

pub getline-line :
    (line held rest more : Text)
    → has_newline line ≡ false
    → has_newline held ≡ true
    → held ++ rest ≡ line ++ (10 ∷ more)
    → (left : Text) × (getline held ≡ (line, left)) × (left ++ rest ≡ more)
unfolding getline
getline-line line [] rest more n h e = ground arith
getline-line [] (c ∷ s) rest more n h e =
    let nl : (c == 10) ≡ true = ground (arith, head-eq_of_cons-eq e) in
    rw nl (s, refl, tail-eq_of_cons-eq e)
getline-line (d ∷ line) (c ∷ s) rest more n h e =
    let same : d ≡ c = sym (head-eq_of_cons-eq e) in
    let other : (c == 10) ≡ false = ground (arith, same, n) in
    let (left, found, behind) =
      getline-line line s rest more (ground (arith, n)) (ground (arith, h, other))
        (tail-eq_of_cons-eq e) in
    (left, rw (other, found, same) refl, behind)

pub split_front :
    (x u v w : Text)
    → u ++ v ≡ x ++ w
    → length x ≤ length u
    → (extra : Text) × (u ≡ x ++ extra) × (extra ++ v ≡ w)
split_front [] u v w e h = (u, refl, e)
split_front (a ∷ x) [] v w e h = absurd (omega arith)
split_front (a ∷ x) (b ∷ u) v w e h =
    let (extra, front, behind) = split_front x u v w (tail-eq_of_cons-eq e) (omega arith) in
    (extra, ap₂ (λ i is. i ∷ is) (head-eq_of_cons-eq e) front, behind)

remaining-missing : (n held : ℕ) → n + 2 < 2 ^ 31 → held < 2 ^ 31 → remaining n held ≡ n + 2 - held
unfolding remaining
remaining-missing n held a b = ground arith

pub http_chunk_data-bytes :
    (bytes extra : Text)
    → http_chunk_data (length bytes) (bytes ++ (13 ∷ 10 ∷ extra)) ≡ (bytes, extra)
unfolding http_chunk_data getline
http_chunk_data-bytes bytes extra =
    let long : ltb (length (bytes ++ (13 ∷ 10 ∷ extra))) (length bytes) ≡ false =
      ground (arith, length-append bytes (13 ∷ 10 ∷ extra)) in
    rw
      (
        long,
        take-append_length (length bytes) bytes (13 ∷ 10 ∷ extra) refl,
        drop-append_length (length bytes) bytes (13 ∷ 10 ∷ extra) refl,
      )
      refl

pub length-encode :
    (last tail : Text) (h : Chunk) (hs : List Chunk)
    → length h.bytes + 2 + length (encode last tail hs) ≤ length (encode last tail (h ∷ hs))
length-encode last tail h hs = omega (
  arith,
  length-append h.line (10 ∷ (h.bytes ++ (13 ∷ 10 ∷ encode last tail hs))),
  length-append h.bytes (13 ∷ 10 ∷ encode last tail hs),
)

-- With the bytes that were missing, the chunk and its CR LF are there.
pub piece-enough :
    (bytes left q more rest : Text)
    → left ++ more ≡ bytes ++ (13 ∷ 10 ∷ rest)
    → length bytes + 2 + length rest < 2 ^ 31
    → length q ≡ remaining (length bytes) (length left)
    → length (bytes ++ (13 ∷ 10 ∷ [])) ≤ length (left ++ q)
piece-enough bytes left q more rest e b m =
    let whole : length left + length more ≡ length bytes + suc (suc (length rest)) =
      sym (length-append left more) ∙ ap length e ∙ length-append bytes (13 ∷ 10 ∷ rest) in
    let missing = remaining-missing (length bytes) (length left) (omega arith) (omega arith) in
    omega (arith, m, missing, length-append bytes (13 ∷ 10 ∷ []), length-append left q)
