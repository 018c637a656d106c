-- ===== src/Tests/Servers.antt =====
-- Commands, lines of the protocol, routes, the log and the worker process on concrete requests.
use lite_store.Base.{
  ℕ, ◌≤◌, ◌≡◌, ◌≢◌, ◌++◌, ◌↔◌, inr, foldl, ◌+◌, ◌%◌, refl, arith, true, length, List, [], ◌∷◌, none,
  some, pos, ok, ite,
}
use lite_store.Base.Text.{Text, text, text_key, Text-discrete, strip, split_max}
use lite_store.Clock.{Clock, IsRegular}
use lite_store.Types.{
  CommandName, CommandRequest, error, bulk_string, null, response, wrong_arity, PersistRecord,
  WorkerRequest, every_n, never,
}
use lite_store.Interfaces.{memory_store}
use lite_store.Store.{init}
use lite_store.Commands.{execute_command}
use lite_store.Commands.Responses.{Answers, execute_command-Answers}
use lite_store.Protocol.{parse_command, serialize_response}
use lite_store.Protocol.Exchange.{execute_command_serializes, parsed-arity, bulk_null_iff}
use lite_store.Router.{Hashing, routing, make_router}
use lite_store.Persistence.{AofPersistence, JsonLib, append, replay, payload, make_persistence}
use lite_store.Persistence.Durability.{IsLogged, make_persistence-IsLogged, append-IsLogged}
use lite_store.Persistence.Replay.{bare, IsPrinted, IsClosed, replay-append}
use lite_store.ProcessWorker
use lite_store.CountMin.{estimate}
use lite_store.CountMin.Bounds.{counted, occurrences, estimate-between}
use lite_store.ProcessWorker.{
  WorkerProcess, Event, nothing, controlled, requested, start, run_loop, handle_request,
}
use lite_store.ProcessWorker.Runs.{IsWorking, run_loop-IsWorking, start-IsWorking}
use lite_store.ProcessWorker.Answered.{ids, due_ids, run_loop_answers}
use lite_store.Tests.{clock, tick_times, clock-IsRegular, builtins}

abbrev pub c : Clock
c = clock tick_times

abbrev pub regular : IsRegular c
regular = clock-IsRegular tick_times

abbrev pub request_of : CommandName → List Text → CommandRequest
request_of name args = record {
  command = name;
  args = args;
  request_id = some (text "1");
  client_id = none;
}

abbrev pub set_request : CommandRequest
set_request = request_of CommandName.set (text "k" ∷ text "v" ∷ [])

-- An EXPIRE whose seconds are no number.
abbrev pub bad_request : CommandRequest
bad_request = request_of CommandName.expire (text "k" ∷ text "soon" ∷ [])

execute_command-Answers_example :
    Answers
      (some (text "1"))
      (execute_command (memory_store c builtins) builtins set_request (init c)).1
execute_command-Answers_example =
    execute_command-Answers (memory_store c builtins) builtins set_request (init c)

bad_answer :
    (execute_command (memory_store c builtins) builtins bad_request (init c)).1.kind ≡ error
unfolding execute_command
bad_answer = refl

abbrev line : Text
line = text " set k  v "

parsed : parse_command builtins (some (text "1")) none line ≡ ok set_request
unfolding parse_command strip Text-discrete split_max
parsed = refl

parsed-arity_example :
    (execute_command (memory_store c builtins) builtins set_request (init c)).1.error_code
    ≢ some wrong_arity
parsed-arity_example =
    parsed-arity (memory_store c builtins) builtins set_request (init c) line (some (text "1")) none
      parsed

execute_command_serializes_example :
    (reply : Text) × (serialize_response
        (execute_command (memory_store c builtins) builtins bad_request (init c)).1
      ≡ ok reply)
execute_command_serializes_example =
    execute_command_serializes (memory_store c builtins) builtins bad_request (init c)

bulk_null_iff_example :
    (serialize_response (record (response bulk_string none) { value = some (text "-1") })
      ≡ serialize_response (response null none))
    ↔ (text "-1" ≡ text "-1")
bulk_null_iff_example = bulk_null_iff (text "-1") none

-- Any function of a text to bytes will do for a route; this one sums.
abbrev pub hashing : Hashing
hashing = record {
  encode = λ s. s;
  sha256 = λ bytes. foldl (λ n byte. (n + byte) % 256) 0 bytes ∷ [];
}

abbrev workers : List Text
workers = text "worker-0" ∷ text "worker-1" ∷ []

made : make_router workers ≡ ok (routing (text "worker-0") (text "worker-1" ∷ []))
unfolding make_router
made = refl

estimate-between_example :
    (n : ℕ) × (estimate hashing
        (counted hashing 16 2 (text "a" ∷ text "b" ∷ text "a" ∷ []))
        (text "a")
      ≡ some n)
    × (occurrences (text "a") (text "a" ∷ text "b" ∷ text "a" ∷ []) ≤ n)
    × (n ≤ length (text "a" ∷ text "b" ∷ text "a" ∷ []))
estimate-between_example =
    estimate-between hashing 16 (omega arith) 2 (text "a" ∷ text "b" ∷ text "a" ∷ []) (text "a")
      (omega arith)

-- The JSON of one record, as Python prints it.
abbrev pub set_record : PersistRecord
set_record = record { sequence = pos 0; request = set_request }

abbrev pub json_text : Text
json_text = text "{\"sequence\": 0, \"command\": \"SET\", \"args\": [\"k\", \"v\"]}"

-- `json` at the texts of the tests
abbrev pub json : JsonLib
json = record {
  dumps = λ value. json_text;
  loads = λ s. ite (Text-discrete s json_text) (some (payload set_record)) none;
}

pub set_record-IsPrinted : IsPrinted json set_record
unfolding Text-discrete strip
set_record-IsPrinted = record {
  read_back = refl;
  one_line = ground arith;
  stripped = refl;
  visible = λ e. cc;
}

abbrev log : AofPersistence
log = make_persistence json (json_text ++ 10 ∷ []) every_n 2

append-IsLogged_example : IsLogged (append json log set_record)
append-IsLogged_example =
    append-IsLogged json log set_record
      (make_persistence-IsLogged json (json_text ++ 10 ∷ []) every_n 2)

other : (append json log set_record).fsync_policy ≢ never
unfolding append make_persistence
other = λ e. cc

closed : log.content ≡ json_text ++ 10 ∷ []
unfolding make_persistence
closed = refl

replay-append_example :
    (replay json (append json log set_record) ≡ replay json log ++ bare set_record ∷ [])
    × IsClosed (append json log set_record).content
replay-append_example =
    replay-append json log set_record set_record-IsPrinted (inr (json_text, closed))

-- Two requests, one of them bad, between them a pause, and the shutdown.
abbrev pub message : CommandRequest → Text → WorkerRequest
message request id = record {
  request_id = id;
  command = request.command;
  args = request.args;
  client_id = none;
}

abbrev events : List Event
events =
    requested (message set_request (text "a"))
    ∷ nothing
    ∷ requested (message bad_request (text "b"))
    ∷ controlled (record { action = text "shutdown"; request_id = none })
    ∷ []

abbrev pub worker : WorkerProcess
worker = start c builtins json none every_n 2

run_loop-IsWorking_example : IsWorking c (run_loop c builtins json worker events)
run_loop-IsWorking_example =
    run_loop-IsWorking c builtins json regular events worker
      (start-IsWorking c builtins json regular none every_n 2)

pub running : worker.running ≡ true
unfolding start
running = refl

run_loop_answers_example :
    ids (run_loop c builtins json worker events).responses
    ≡ ids worker.responses ++ due_ids c builtins json events
unfolding lite_store.ProcessWorker.Answered.reached ProcessWorker.overflows
run_loop_answers_example = run_loop_answers c builtins json events worker running

worker_answer :
    (execute_command
      (memory_store c builtins)
      builtins
      (ProcessWorker.request_of (message bad_request (text "b")))
      worker.store).1.kind
    ≡ error
unfolding execute_command
worker_answer = refl
