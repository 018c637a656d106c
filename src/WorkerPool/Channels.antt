-- ===== src/WorkerPool/Channels.antt =====
-- The channel between a handle and its worker process, and every exchange on it.
use lite_store.Base.{Bool, false, ◌≡◌, ◌∙◌, true, List, [], ◌∷◌, ◌++◌, if◌then◌else◌}
use lite_store.Base.Text.{Text}
use lite_store.Clock.{Clock}
use lite_store.Builtins.{Builtins}
use lite_store.Persistence.{JsonLib}
use lite_store.Interfaces.{memory_store}
use lite_store.Types.{CommandRequest, CommandResponse, WorkerRequest, WorkerResponse}
use lite_store.Commands.{execute_command}
use lite_store.ProcessWorker
use lite_store.ProcessWorker.{WorkerProcess, Event, nothing, worker_response, request_of}
use lite_store.ProcessWorker.Answered.{expiration_cycle_responses}
use lite_store.WorkerPool.{
  WorkerHandle, Message, requested, controlled, id_or, send_request, command_response,
}

-- the message of `execute`
abbrev pub message_of : CommandRequest → Text → WorkerRequest
message_of request uuid = record {
  request_id = id_or request.request_id uuid;
  command = request.command;
  args = request.args;
  client_id = request.client_id;
}

-- the request as the process sees it
abbrev pub seen : CommandRequest → Text → CommandRequest
seen request uuid = request_of (message_of request uuid)

-- A handle and its process.
pub record Channel : Type 0 where
  pub handle : WorkerHandle
  pub process : WorkerProcess

abbrev event : Message → Event
event (requested msg) = ProcessWorker.requested msg
event (controlled msg) = ProcessWorker.controlled msg

module _ (c : Clock) (b : Builtins) (json : JsonLib) where
  -- One round of the process, which takes what the request queue has first, or finds it empty; what it
  -- puts goes on the response queue.
  unfoldable pub work_on : WorkerHandle → WorkerProcess → List Message → Channel
  unfolding ProcessWorker.round
  work_on handle process [] = record {
    handle = record handle { request_queue = [] };
    process = ProcessWorker.round c b json process nothing;
  }
  work_on handle process (msg ∷ rest) =
      let process' = ProcessWorker.round c b json (record process { responses = [] }) (event msg) in
      record {
        handle = record handle {
          request_queue = rest;
          response_queue = handle.response_queue ++ process'.responses;
        };
        process = process';
      }

  unfoldable pub work : Channel → Channel
  unfolding work_on
  work ch =
      let worked = work_on ch.handle ch.process ch.handle.request_queue in
      if ch.process.running then worked else ch

  abbrev pub first_overflows : WorkerProcess → List Message → Bool
  first_overflows process [] = false
  first_overflows process (msg ∷ rest) = ProcessWorker.overflows c b json process (event msg)

  -- whether the message that the process takes next ends it with an OverflowError
  abbrev pub next_overflows : Channel → Bool
  next_overflows ch = first_overflows ch.process ch.handle.request_queue

  -- What a handle and a running process become from the first request on, while no control message is
  -- sent and the process does not end: the requests that were sent, and the responses that were taken.
  pub data Exchanged (first : WorkerProcess)
      : Channel → List CommandRequest → List CommandResponse → Type 0 where
    opened :
        (handle : WorkerHandle)
        → first.running ≡ true
        → handle.request_queue ≡ []
        → handle.response_queue ≡ []
        → Exchanged first (record { handle = handle; process = first }) [] []
    sent :
        {ch : Channel} {out : List CommandRequest} {back : List CommandResponse}
        → (request : CommandRequest) (uuid : Text) → Exchanged first ch out back
        → Exchanged first
            (record ch { handle = send_request ch.handle request uuid })
            (out ++ seen request uuid ∷ [])
            back
    worked :
        {ch : Channel} {out : List CommandRequest} {back : List CommandResponse}
        → next_overflows ch ≡ false
        → Exchanged first ch out back
        → Exchanged first (work ch) out back
    received :
        {ch : Channel} {out : List CommandRequest} {back : List CommandResponse}
        → (response : WorkerResponse) (rest : List WorkerResponse)
        → ch.handle.response_queue ≡ response ∷ rest
        → Exchanged first ch out back
        → Exchanged first
            (record ch { handle = record ch.handle { response_queue = rest } })
            out
            (back ++ command_response response ∷ [])

  module _ (process : WorkerProcess) (msg : WorkerRequest) where
    -- the process after the request
    abbrev pub after : WorkerProcess
    after =
        ProcessWorker.round c b json (record process { responses = [] })
          (ProcessWorker.requested msg)

    -- what it answers
    abbrev pub answer : CommandResponse
    answer = (execute_command (memory_store c b) b (request_of msg) process.store).1

    pub after_responses : after.responses ≡ worker_response msg.request_id answer ∷ []
    unfolding ProcessWorker.round ProcessWorker.handle_request
    after_responses = (expiration_cycle_responses c b json _).0

    pub after_runs : process.running ≡ true → after.running ≡ true
    unfolding ProcessWorker.round ProcessWorker.handle_request
    after_runs on = (expiration_cycle_responses c b json _).1 ∙ on
