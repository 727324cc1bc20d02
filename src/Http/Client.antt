-- ===== src/Http/Client.antt =====
-- my_lib/http_client/HttpClient.cpp: the handlers. A client waits for one operation at a time, besides its
-- timer; `idle` is a client whose operation has completed and that has started no other. What the
-- operation has received is put behind response_ before its handler runs. A time is in seconds, and the
-- deadline `none` is pos_infin. The request that the builders write is not kept.
use miscellaneous_repo.Prelude.{
  ℕ, ◌+◌, ◌-◌, ◌%◌, ◌^◌, Bool, true, false, not, ◌&&◌, Option, none, some, List, [], ◌∷◌, ◌++◌, ltb,
  leb, ◌==◌, if◌then◌else◌, length,
}
use miscellaneous_repo.Console.Text.{Text}
use miscellaneous_repo.Http.Reader.{
  starts_with, http_response_status, http_headers, http_chunk_size, http_chunk_data,
}

pub record ServerInfo : Type 0 where
  pub endpoint : ℕ
  pub conn_timeout : ℕ
  pub transfer_timeout : ℕ

-- boost::system::error_code: none, the end of the stream, or another one.
pub data ErrorCode : Type 0 where
  success : ErrorCode
  eof : ErrorCode
  failure : ℕ → ErrorCode

-- The operation whose completion is awaited; connect_to has the iterator over the endpoints.
pub data Waiting : Type 0 where
  idle : Waiting
  connect_to : ServerInfo → List ServerInfo → Waiting
  write_request : Waiting
  read_status_line : Waiting
  read_headers : Waiting
  read_content : ℕ → Waiting
  read_chunk_size : Waiting
  read_chunk_data : (size remaining : ℕ) → Waiting

-- The texts of signal_result; `done` is the empty one.
pub data Message : Type 0 where
  done : Message
  no_server : Message
  broken : ErrorCode → Message
  invalid_response : Message
  bad_status : ℕ → Message
  empty_content : Message
  bad_chunk : Message

-- A call of result_sig.
pub record Result : Type 0 where
  pub err_msg : Message
  pub content : List Text
  pub content_length : ℕ

pub record Client : Type 0 where
  pub stopped : Bool
  pub is_open : Bool
  pub deadline : Option ℕ
  pub remote_endpoint : Option ℕ
  pub response : Text
  pub content : List Text
  pub content_length : ℕ
  pub waiting : Waiting
  pub results : List Result

abbrev pub await : Waiting → Client → Client
await w c = record c { waiting = w }

unfoldable pub stop : Client → Client
stop c = record c { stopped = true; is_open = false }

unfoldable pub signal_result : Message → Client → Client
signal_result m c = record c {
  results =
      c.results
      ++ (record { err_msg = m; content = c.content; content_length = c.content_length } ∷ []);
}

-- `stop(); signal_result(...)`
abbrev pub finish : Message → Client → Client
finish m c = signal_result m (stop c)

unfoldable pub start_connect : ℕ → List ServerInfo → Client → Client
start_connect now [] c = finish no_server c
start_connect now (s ∷ iter) c = record c {
  deadline = some (now + s.conn_timeout);
  is_open = true;
  waiting = connect_to s iter;
}

unfoldable pub start : ℕ → List ServerInfo → Client → Client
start now endpoints c = start_connect now endpoints (record c { stopped = false })

-- handle_connect, where the client is not stopped.
unfoldable pub handle_connect : ℕ → ServerInfo → List ServerInfo → ErrorCode → Client → Client
handle_connect now s iter ec c = if not c.is_open then start_connect now iter c else elim ec [
  | success ↦ record c {
    remote_endpoint = some s.endpoint;
    deadline = some (now + s.transfer_timeout);
    waiting = write_request;
  }
  | _ ↦ start_connect now iter (record c { is_open = false })
]

abbrev pub http_name : Text
http_name = b'H' ∷ b'T' ∷ b'T' ∷ b'P' ∷ b'/' ∷ []

abbrev pub chunked : Text
chunked = b'c' ∷ b'h' ∷ b'u' ∷ b'n' ∷ b'k' ∷ b'e' ∷ b'd' ∷ []

abbrev pub is_chunked : Text → Bool
is_chunked encoding = starts_with encoding chunked && length encoding == 7

-- The rest of the handlers, where the client is not stopped and the operation has succeeded.
unfoldable pub got_status_line : Client → Client
got_status_line c =
    let (http_version, status_code, rest) = http_response_status c.response in
    if not (starts_with http_name http_version)
    then finish invalid_response (record c { response = rest })
    else if not (status_code == 200)
    then finish (bad_status status_code) (record c { response = rest })
    else record c { response = rest; waiting = read_headers }

-- `content_.push_back(buffer); content_length_ += count;` for the whole response.
unfoldable pub take_content : Client → Client
take_content c = record c {
  response = [];
  content = c.content ++ (c.response ∷ []);
  content_length = c.content_length + length c.response;
}

unfoldable pub got_headers : Client → Client
got_headers c =
    let (encoding, len, rest) = http_headers c.response in
    if is_chunked encoding
    then record c { response = rest; waiting = read_chunk_size }
    else if ltb 0 len
    then await (read_content len) (
        if ltb 0 (length rest)
        then take_content (record c { response = rest })
        else record c { response = rest })
    else finish empty_content (record c { response = rest })

unfoldable pub got_content : ℕ → Client → Client
got_content len c = await (read_content len) (take_content c)

-- The bytes that are missing of a chunk and the CR LF behind it, by way of an int.
unfoldable pub remaining : (size held : ℕ) → ℕ
remaining size held =
    let diff = (size + 2 + 2 ^ 64 - held) % 2 ^ 32 in if ltb diff (2 ^ 31) then diff else 0

unfoldable pub got_chunk_size : Client → Client
got_chunk_size c =
    let (chunk_size, rest) = http_chunk_size c.response in
    if ltb 0 chunk_size
    then record c {
      response = rest;
      waiting = read_chunk_data chunk_size (remaining chunk_size (length rest));
    }
    else finish done (record c { response = rest })

unfoldable pub got_chunk_data : ℕ → Client → Client
got_chunk_data size c =
    let (buffer, rest) = http_chunk_data size c.response in
    if not (length buffer == size)
    then finish bad_chunk (record c { response = rest })
    else record c {
      response = rest;
      content = c.content ++ (buffer ∷ []);
      content_length = c.content_length + length buffer;
      waiting = read_chunk_size;
    }

-- What a handler does with an error: at the end of the stream, handle_read_content has its result.
unfoldable pub unless_failed : ErrorCode → (Client → Client) → Client → Client
unless_failed success handler c = handler c
unless_failed eof handler c = finish (broken eof) c
unless_failed (failure e) handler c = finish (broken (failure e)) c

unfoldable pub handle_read_content : ℕ → ErrorCode → Client → Client
handle_read_content len eof c = finish done c
handle_read_content len success c = got_content len c
handle_read_content len (failure e) c = finish (broken (failure e)) c

-- The handler of the operation that has completed.
unfoldable pub handler : ℕ → Waiting → ErrorCode → Client → Client
handler now idle ec c = c
handler now (connect_to s iter) ec c = handle_connect now s iter ec c
handler now write_request ec c = unless_failed ec (await read_status_line) c
handler now read_status_line ec c = unless_failed ec got_status_line c
handler now read_headers ec c = unless_failed ec got_headers c
handler now (read_content len) ec c = handle_read_content len ec c
handler now read_chunk_size ec c = unless_failed ec got_chunk_size c
handler now (read_chunk_data size left) ec c = unless_failed ec (got_chunk_data size) c

-- The operation completes; each handler begins with `if (stopped_) return;`.
unfoldable pub complete : ℕ → ErrorCode → Text → Client → Client
complete now ec received c =
    let c' = record c { response = c.response ++ received; waiting = idle } in
    if c.stopped then c' else handler now c.waiting ec c'

abbrev pub is_past : ℕ → Option ℕ → Bool
is_past now none = false
is_past now (some t) = leb t now

unfoldable pub check_deadline : ℕ → Client → Client
check_deadline now c =
    if not c.stopped && is_past now c.deadline
    then record c { deadline = none; is_open = false }
    else c
