-- ===== src/Http/Reader.antt =====
-- my_lib/http_client/HttpClient.cpp: reading the parts of a response. A std::string is its bytes, and what
-- a function takes from response_ is what it leaves of it.
use miscellaneous_repo.Prelude.{
  ℕ, zero, suc, ◌+◌, ◌-◌, ◌*◌, ◌%◌, ◌^◌, Bool, true, false, ◌&&◌, ◌||◌, [], ◌∷◌, ltb, ◌==◌,
  if◌then◌else◌, length, take, drop,
}
use miscellaneous_repo.Console.Text.{Text, is_empty, is_space, is_x, digit_value, skip_leading}

-- `getline(stream, line)`: the bytes before the first newline, and those behind it.
unfoldable pub getline : Text → Text × Text
getline [] = ([], [])
getline (c ∷ s) = let (line, rest) = getline s in if c == 10 then ([], s) else (c ∷ line, rest)

-- `stream >> word` behind the spaces; no word is a failure.
pub word : Text → Text × Text
word [] = ([], [])
word (c ∷ s) = let (w, rest) = word s in if is_space c then ([], c ∷ s) else (c ∷ w, rest)

abbrev pub next_word : Text → Text × Text
next_word s = word (skip_leading s)

-- The value of the digits at the front of the text, as far as they go.
unfoldable pub scan : ℕ → Text → ℕ → ℕ
scan base [] n = n
scan base (c ∷ s) n =
    let rest = scan base s (n * base + digit_value c) in
    if ltb (digit_value c) base then rest else n

pub behind_digits : ℕ → Text → Text
behind_digits base [] = []
behind_digits base (c ∷ s) = if ltb (digit_value c) base then behind_digits base s else c ∷ s

abbrev pub skip_prefix : ℕ → Text → Text
skip_prefix base (z ∷ x ∷ s) = if base == 16 && (z == b'0' && is_x x) then s else z ∷ x ∷ s
skip_prefix base s = s

-- `stream >> n` into an unsigned number of `w` bits: where it does not fit, the greatest one; a minus sign
-- negates it.
unfoldable pub unsigned : ℕ → ℕ → Text → ℕ
unsigned w base [] = 0
unsigned w base (c ∷ s) =
    if c == b'-'
    then (2 ^ w - fit w (scan base (skip_prefix base s) 0)) % 2 ^ w
    else fit w (scan base (skip_prefix base (if c == b'+' then s else c ∷ s)) 0)
  where
    fit : ℕ → ℕ → ℕ
    fit w n = if ltb n (2 ^ w) then n else 2 ^ w - 1

abbrev pub starts_with : Text → Text → Bool
starts_with [] s = true
starts_with (p ∷ ps) [] = false
starts_with (p ∷ ps) (c ∷ s) = p == c && starts_with ps s

-- `line.find(text) != npos`
pub finds : Text → Text → Bool
finds text [] = is_empty text
finds text (c ∷ s) = starts_with text (c ∷ s) || finds text s

-- http_response_status: the version, the status code and what is left of the response. Where there is no
-- number, the status code is 0 here; the code then tests what it finds in the variable (0 under C++11).
-- The rest of the line is dropped.
unfoldable pub http_response_status : Text → Text × ℕ × Text
http_response_status response =
    let (http_version, rest) = next_word response in
    let number = skip_leading rest in
    (http_version, unsigned 32 10 number, (getline (behind_digits 10 number)).1)

abbrev pub transfer_encoding_name : Text
transfer_encoding_name =
    b'T' ∷ b'r' ∷ b'a' ∷ b'n' ∷ b's' ∷ b'f' ∷ b'e' ∷ b'r' ∷ b'-' ∷ b'E' ∷ b'n' ∷ b'c' ∷ b'o' ∷ b'd'
    ∷ b'i' ∷ b'n' ∷ b'g' ∷ []

abbrev pub content_length_name : Text
content_length_name =
    b'C' ∷ b'o' ∷ b'n' ∷ b't' ∷ b'e' ∷ b'n' ∷ b't' ∷ b'-' ∷ b'L' ∷ b'e' ∷ b'n' ∷ b'g' ∷ b't' ∷ b'h'
    ∷ []

-- A header line: the text or the number behind its first word.
pub header : Text → Text × ℕ → Text × ℕ
header line (encoding, len) =
    let value = skip_leading (next_word line).1 in
    if finds transfer_encoding_name line
    then (if is_empty value then (encoding, len) else ((word value).0, len))
    else if finds content_length_name line
    then (if is_empty value then (encoding, len) else (encoding, unsigned 64 10 value))
    else (encoding, len)

abbrev pub is_end : Text → Bool
is_end [] = false
is_end (c ∷ []) = c == 13
is_end (c ∷ d ∷ s) = false

-- The loop of http_headers; each line takes a byte of the response, so its length is fuel enough.
pub headers_from : ℕ → Text → Text × ℕ → Text × ℕ × Text
headers_from zero response found = (found.0, found.1, response)
headers_from (suc f) [] found = (found.0, found.1, [])
headers_from (suc f) (c ∷ s) found =
    let (line, rest) = getline (c ∷ s) in
    if is_end line then (found.0, found.1, rest) else headers_from f rest (header line found)

unfoldable pub http_headers : Text → Text × ℕ × Text
http_headers response = headers_from (suc (length response)) response ([], 0)

-- http_chunk_size: the size, and what is left of the response.
unfoldable pub http_chunk_size : Text → ℕ × Text
http_chunk_size response =
    let (line, rest) = getline response in (unsigned 64 16 (skip_leading line), rest)

-- http_chunk_data: the bytes for a buffer of `size`, and what is left of the response. A read that comes
-- short fails the stream, and the getline behind it takes nothing.
unfoldable pub http_chunk_data : ℕ → Text → Text × Text
http_chunk_data size response =
    if ltb (length response) size
    then (response, [])
    else (take size response, (getline (drop size response)).1)
