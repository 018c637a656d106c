-- ===== src/Tests/Pools.antt =====
-- The pool of worker processes on two requests.
use lite_store.Base.{◌≡◌, refl, none, some, [], ◌∷◌, ◌++◌, length}
use lite_store.Base.Text.{text, text_key}
use lite_store.Types.{CommandRequest}
use lite_store.ProcessWorker.Answered.{ids}
use lite_store.WorkerPool.{send_request}
use lite_store.WorkerPool.Channels.{Channel, Exchanged, opened, sent, seen}
use lite_store.WorkerPool.Order.{works, WorksOut, works_answer}
use lite_store.WorkerPool.Exchange.{IsQuiet, exchange, exchange_answers, sent_back, after, answer}
use lite_store.Tests.{builtins}
use lite_store.Tests.Servers.{c, set_request, bad_request, json, worker, running}

-- A handle with its process, and two requests that are sent before the first is taken.
abbrev channel : Channel
channel = record {
  handle = record {
    worker_id = text "w0";
    partition_id = 0;
    request_queue = [];
    response_queue = [];
    process = none;
  };
  process = worker;
}

abbrev with_one : Channel
with_one = record channel { handle = send_request channel.handle set_request (text "u") }

abbrev named_later : CommandRequest
named_later = record bad_request { request_id = none }

abbrev with_two : Channel
with_two = record with_one { handle = send_request with_one.handle named_later (text "u") }

abbrev two_sent :
    Exchanged c builtins json worker with_two
      (seen set_request (text "u") ∷ seen named_later (text "u") ∷ [])
      []
two_sent =
    sent named_later (text "u")
      (sent set_request (text "u") (opened channel.handle running refl refl))

works_answer_example :
    WorksOut c builtins json
      (works c builtins json (length with_two.handle.request_queue) with_two)
      (seen set_request (text "u") ∷ seen named_later (text "u") ∷ [])
      []
works_answer_example = works_answer c builtins json two_sent

-- Both are answered, since the EXPIRE has no number.
two_answered :
    ids
      (works c builtins json
        (length with_two.handle.request_queue)
        with_two).0.handle.response_queue
    ≡ text "1" ∷ text "u" ∷ []
unfolding works send_request lite_store.ProcessWorker.overflows lite_store.WorkerPool.Channels.work
    lite_store.ProcessWorker.start lite_store.Commands.execute_command lite_store.Store.set
    lite_store.Store.process_expirations lite_store.Wheel.pop_due lite_store.Wheel.bucket_for_tick
    lite_store.Wheel.cancel lite_store.Base.Dict.lookup
two_answered = refl

channel-IsQuiet : IsQuiet channel
channel-IsQuiet = record { running = running; no_request = refl; no_response = refl }

exchange_answers_example :
    (exchange c builtins json channel set_request (text "u")
      ≡ some (
        record channel { process = after c builtins json set_request (text "u") channel.process },
        sent_back (text "1") (answer c builtins json set_request (text "u") channel.process),
      ))
    × IsQuiet
        (record channel { process = after c builtins json set_request (text "u") channel.process })
exchange_answers_example =
    exchange_answers c builtins json set_request (text "u") channel channel-IsQuiet
