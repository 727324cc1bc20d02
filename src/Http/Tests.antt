-- ===== src/Http/Tests.antt =====
-- A response in two chunks and pieces that do not fall together with them.
use miscellaneous_repo.Prelude.{◌≡◌, refl, List, [], ◌∷◌, arith}
use miscellaneous_repo.Console.Text.{Text, skip_leading}
use miscellaneous_repo.Http.Reader.{getline, scan, unsigned, http_chunk_size, http_chunk_data}
use miscellaneous_repo.Http.Client.{
  ServerInfo, eof, failure, read_content, read_chunk_size, done, no_server, stop, signal_result,
  start_connect, start, handle_connect, remaining, got_chunk_size, got_chunk_data, unless_failed,
  handler, complete,
}
use miscellaneous_repo.Http.Once.{IsOnce, Reach-IsOnce, new_client, starts, step, completes}
use miscellaneous_repo.Http.Chunks.{Chunk}
use miscellaneous_repo.Http.Content.{run-content}
use miscellaneous_repo.Http.Body.{waits, run, run-data_of}

abbrev hello : Chunk
hello = record { line = b'5' ∷ 13 ∷ []; bytes = b'H' ∷ b'e' ∷ b'l' ∷ b'l' ∷ b'o' ∷ [] }

abbrev bang : Chunk
bang = record { line = b'1' ∷ 13 ∷ []; bytes = b'!' ∷ [] }

abbrev pieces : List Text
pieces =
    (b'5' ∷ 13 ∷ 10 ∷ b'H' ∷ b'e' ∷ [])
    ∷ (b'l' ∷ b'l' ∷ b'o' ∷ 13 ∷ 10 ∷ [])
    ∷ (b'1' ∷ 13 ∷ 10 ∷ b'!' ∷ 13 ∷ 10 ∷ b'0' ∷ [])
    ∷ []
    ∷ (13 ∷ 10 ∷ 13 ∷ 10 ∷ [])
    ∷ []

run-data_of_example :
    (run pieces (waits new_client read_chunk_size [] [] 0)).results
    ≡ record { err_msg = done; content = hello.bytes ∷ bang.bytes ∷ []; content_length = 6 } ∷ []
unfolding complete handler unless_failed got_chunk_size http_chunk_size got_chunk_data
    http_chunk_data getline remaining unsigned scan skip_leading
run-data_of_example =
    run-data_of new_client (b'0' ∷ 13 ∷ []) (13 ∷ 10 ∷ []) refl refl (hello ∷ bang ∷ []) pieces []
      [] (refl, refl, omega arith, (refl, refl, omega arith, tt)) refl refl (omega arith)
      (refl, (refl, (refl, (refl, (refl, tt)))))

abbrev servers : List ServerInfo
servers =
    record { endpoint = 1; conn_timeout = 5; transfer_timeout = 60 }
    ∷ record { endpoint = 2; conn_timeout = 5; transfer_timeout = 60 }
    ∷ []

-- Neither server answers: the first refuses, the second comes too late.
Reach-IsOnce_example :
    IsOnce (complete 6 (failure 1) [] (complete 1 (failure 1) [] (start 0 servers new_client)))
Reach-IsOnce_example =
    Reach-IsOnce (step (step (starts 0) (completes 1 (failure 1) [])) (completes 6 (failure 1) []))

no_answer :
    (complete 6 (failure 1) [] (complete 1 (failure 1) [] (start 0 servers new_client))).results
    ≡ record { err_msg = no_server; content = []; content_length = 0 } ∷ []
unfolding complete handler handle_connect start start_connect stop signal_result
no_answer = refl

-- Three bytes of the seven that were announced.
run-content_example :
    (complete 0 eof [] (
      run
        ((b'a' ∷ b'b' ∷ []) ∷ (b'c' ∷ []) ∷ [])
        (waits new_client (read_content 7) [] [] 0))).results
    ≡ record { err_msg = done; content = (b'a' ∷ b'b' ∷ []) ∷ (b'c' ∷ []) ∷ []; content_length = 3 }
      ∷ []
run-content_example = run-content new_client 7 ((b'a' ∷ b'b' ∷ []) ∷ (b'c' ∷ []) ∷ []) [] 0
