-- ===== src/Http/Once.antt =====
-- However completions, the timer and calls of stop are interleaved, a client gives one result at most.
use miscellaneous_repo.Prelude.{
  ℕ, ◌≤◌, ◌≡◌, refl, inl, inr, Bool, true, false, not, ◌&&◌, none, List, [], ◌∷◌, arith, ltb, ◌==◌,
  if◌then◌else◌, Bool-cases, length,
}
use miscellaneous_repo.Console.Text.{Text}
use miscellaneous_repo.Http.Reader.{
  starts_with, http_response_status, http_headers, http_chunk_size, http_chunk_data,
}
use miscellaneous_repo.Http.Client.{
  ServerInfo, ErrorCode, success, eof, failure, Waiting, idle, connect_to, write_request,
  read_status_line, read_headers, read_content, read_chunk_size, read_chunk_data, Message, done,
  no_server, broken, invalid_response, bad_status, empty_content, bad_chunk, Client, stop,
  signal_result, finish, start_connect, start, handle_connect, http_name, is_chunked,
  got_status_line, take_content, got_headers, got_content, got_chunk_size, got_chunk_data,
  unless_failed, handle_read_content, handler, complete, is_past, check_deadline,
}

abbrev pub is_idle : Waiting → Bool
is_idle idle = true
is_idle (connect_to s iter) = false
is_idle write_request = false
is_idle read_status_line = false
is_idle read_headers = false
is_idle (read_content len) = false
is_idle read_chunk_size = false
is_idle (read_chunk_data size left) = false

pub data Step : Client → Client → Type 0 where
  completes :
      {c : Client} (now : ℕ) (ec : ErrorCode) (received : Text)
      → Step c (complete now ec received c)
  ticks : {c : Client} (now : ℕ) → Step c (check_deadline now c)
  stops : {c : Client} → Step c (stop c)

abbrev pub new_client : Client
new_client = record {
  stopped = false;
  is_open = false;
  deadline = none;
  remote_endpoint = none;
  response = [];
  content = [];
  content_length = 0;
  waiting = idle;
  results = [];
}

pub data Reach (endpoints : List ServerInfo) : Client → Type 0 where
  starts : (now : ℕ) → Reach endpoints (start now endpoints new_client)
  step : {c d : Client} → Reach endpoints c → Step c d → Reach endpoints d

pub record IsOnce (c : Client) : Type 0 where
  pub at_most_one : length c.results ≤ 1
  pub live : c.stopped ≡ false → (is_idle c.waiting ≡ false) × (c.results ≡ [])

module _ (c : Client) (none_yet : c.results ≡ []) where
  finish-IsOnce : (m : Message) → IsOnce (finish m c)
  unfolding stop signal_result
  finish-IsOnce m = record { at_most_one = rw none_yet (omega arith); live = λ s. ground arith }

-- A client without a result that awaits an operation.
await-IsOnce : (c : Client) → c.results ≡ [] → is_idle c.waiting ≡ false → IsOnce c
await-IsOnce c e w = record { at_most_one = rw e (omega arith); live = λ s. (w, e) }

module _ (now : ℕ) (c : Client) (e : c.results ≡ []) where
  start_connect-IsOnce : (iter : List ServerInfo) → IsOnce (start_connect now iter c)
  unfolding start_connect
  start_connect-IsOnce [] = finish-IsOnce c e no_server
  start_connect-IsOnce (s ∷ iter) = await-IsOnce _ e refl

if-IsOnce : (b : Bool) {c d : Client} → IsOnce c → IsOnce d → IsOnce (if b then c else d)
if-IsOnce true x y = x
if-IsOnce false x y = y

no_results_if :
    (b : Bool) (c d : Client) → c.results ≡ [] → d.results ≡ [] → (if b then c else d).results ≡ []
no_results_if true c d x y = x
no_results_if false c d x y = y

module _ (c : Client) (e : c.results ≡ []) where
  handle_connect-IsOnce :
      (now : ℕ) (s : ServerInfo) (iter : List ServerInfo) (ec : ErrorCode)
      → IsOnce (handle_connect now s iter ec c)
  unfolding handle_connect
  handle_connect-IsOnce now s iter success =
      if-IsOnce (not c.is_open) (start_connect-IsOnce now c e iter) (await-IsOnce _ e refl)
  handle_connect-IsOnce now s iter eof =
      if-IsOnce (not c.is_open) (start_connect-IsOnce now c e iter)
        (start_connect-IsOnce now _ e iter)
  handle_connect-IsOnce now s iter (failure n) =
      if-IsOnce (not c.is_open) (start_connect-IsOnce now c e iter)
        (start_connect-IsOnce now _ e iter)

  got_status_line-IsOnce : IsOnce (got_status_line c)
  unfolding got_status_line
  got_status_line-IsOnce =
      let (http_version, status_code, rest) = http_response_status c.response in
      if-IsOnce (not (starts_with http_name http_version)) (finish-IsOnce _ e invalid_response) (
        if-IsOnce (not (status_code == 200)) (finish-IsOnce _ e (bad_status status_code))
          (await-IsOnce _ e refl))

  got_headers-IsOnce : IsOnce (got_headers c)
  unfolding got_headers take_content
  got_headers-IsOnce =
      let (encoding, len, rest) = http_headers c.response in
      if-IsOnce (is_chunked encoding) (await-IsOnce _ e refl) (
        if-IsOnce (ltb 0 len)
          (await-IsOnce _
            (no_results_if (ltb 0 (length rest)) (take_content (record c { response = rest }))
              (record c { response = rest }) e e)
            refl)
          (finish-IsOnce _ e empty_content))

  got_content-IsOnce : (len : ℕ) → IsOnce (got_content len c)
  unfolding got_content take_content
  got_content-IsOnce len = await-IsOnce _ e refl

  got_chunk_size-IsOnce : IsOnce (got_chunk_size c)
  unfolding got_chunk_size
  got_chunk_size-IsOnce =
      if-IsOnce (ltb 0 (http_chunk_size c.response).0) (await-IsOnce _ e refl)
        (finish-IsOnce _ e done)

  got_chunk_data-IsOnce : (size : ℕ) → IsOnce (got_chunk_data size c)
  unfolding got_chunk_data
  got_chunk_data-IsOnce size =
      if-IsOnce (not (length (http_chunk_data size c.response).0 == size))
        (finish-IsOnce _ e bad_chunk) (await-IsOnce _ e refl)

  unless_failed-IsOnce :
      (ec : ErrorCode) (run : Client → Client) → IsOnce (run c) → IsOnce (unless_failed ec run c)
  unfolding unless_failed
  unless_failed-IsOnce success run i = i
  unless_failed-IsOnce eof run i = finish-IsOnce c e (broken eof)
  unless_failed-IsOnce (failure n) run i = finish-IsOnce c e (broken (failure n))

  handler-IsOnce :
      (now : ℕ) (w : Waiting) (ec : ErrorCode) → is_idle w ≡ false → IsOnce (handler now w ec c)
  unfolding handler handle_read_content
  handler-IsOnce now idle ec w = ground arith
  handler-IsOnce now (connect_to s iter) ec w = handle_connect-IsOnce now s iter ec
  handler-IsOnce now write_request ec w = unless_failed-IsOnce ec _ (await-IsOnce _ e refl)
  handler-IsOnce now read_status_line ec w = unless_failed-IsOnce ec _ got_status_line-IsOnce
  handler-IsOnce now read_headers ec w = unless_failed-IsOnce ec _ got_headers-IsOnce
  handler-IsOnce now (read_content len) success w = got_content-IsOnce len
  handler-IsOnce now (read_content len) eof w = finish-IsOnce c e done
  handler-IsOnce now (read_content len) (failure n) w = finish-IsOnce c e (broken (failure n))
  handler-IsOnce now read_chunk_size ec w = unless_failed-IsOnce ec _ got_chunk_size-IsOnce
  handler-IsOnce now (read_chunk_data size left) ec w =
      unless_failed-IsOnce ec _ (got_chunk_data-IsOnce size)

-- A client that has stopped keeps its results.
stopped-IsOnce : (c : Client) → length c.results ≤ 1 → c.stopped ≡ true → IsOnce c
stopped-IsOnce c h s = record { at_most_one = h; live = λ s'. ground arith }

complete-IsOnce :
    (now : ℕ) (ec : ErrorCode) (received : Text) (c : Client)
    → IsOnce c
    → IsOnce (complete now ec received c)
unfolding complete
complete-IsOnce now ec received c i = elim (Bool-cases c.stopped) [
  | inl s ↦ rw s (stopped-IsOnce _ i.at_most_one refl)
  | inr s ↦ rw s (handler-IsOnce _ (i.live s).1 now c.waiting ec (i.live s).0)
]

check_deadline-IsOnce : (now : ℕ) (c : Client) → IsOnce c → IsOnce (check_deadline now c)
unfolding check_deadline
check_deadline-IsOnce now c i =
    if-IsOnce (not c.stopped && is_past now c.deadline)
      (record { at_most_one = i.at_most_one; live = i.live }) i

-- In every state that is reached from start, whatever completes and fails, and whenever the timer runs
-- out or stop is called: the client has given one result at most, and while it is not stopped it has given
-- none and awaits an operation, so that it is never left without a way to its result.
pub Reach-IsOnce : {endpoints : List ServerInfo} {c : Client} → Reach endpoints c → IsOnce c
unfolding start stop
Reach-IsOnce {endpoints} (starts now) = start_connect-IsOnce now _ refl endpoints
Reach-IsOnce (step {c} r (completes now ec received)) =
    complete-IsOnce now ec received c (Reach-IsOnce r)
Reach-IsOnce (step {c} r (ticks now)) = check_deadline-IsOnce now c (Reach-IsOnce r)
Reach-IsOnce (step {c} r stops) = stopped-IsOnce (stop c) (Reach-IsOnce r).at_most_one refl
