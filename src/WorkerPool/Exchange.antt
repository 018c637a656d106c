-- ===== src/WorkerPool/Exchange.antt =====
-- A request that is sent to a worker process while no other waits, and its response.
use lite_store.Base.{◌≡◌, ◌∙◌, ap, sym, true, Option, none, some, [], if_true}
use lite_store.Base.Text.{Text, text_key}
use lite_store.Clock.{Clock}
use lite_store.Builtins.{Builtins}
use lite_store.Types.{CommandRequest, CommandResponse, WorkerRequest}
use lite_store.Persistence.{JsonLib}
use lite_store.ProcessWorker.{WorkerProcess, worker_response}
use lite_store.WorkerPool.{WorkerHandle, id_or, send_request, receive_response, command_response}
use lite_store.WorkerPool.Channels
use lite_store.WorkerPool.Channels.{
  Channel, work, work_on, message_of, seen, after_responses, after_runs,
}

-- What is left of a response on its way back: all but `values`.
abbrev pub sent_back : Text → CommandResponse → CommandResponse
sent_back id r = command_response (worker_response id r)

-- No request and no response waits, and the process runs.
pub record IsQuiet (ch : Channel) : Type 0 where
  pub running : ch.process.running ≡ true
  pub no_request : ch.handle.request_queue ≡ []
  pub no_response : ch.handle.response_queue ≡ []

abbrev emptied : WorkerHandle → WorkerHandle
emptied handle = record handle { request_queue = []; response_queue = [] }

abbrev received : Channel → Option (Channel × CommandResponse)
received ch = elim (receive_response ch.handle) [
  | none ↦ none
  | some (handle, r) ↦ some (record ch { handle = handle }, r)
]

module _ (c : Clock) (b : Builtins) (json : JsonLib) where
  -- `execute`, with a round of the process between its put and its get
  unfoldable pub exchange : Channel → CommandRequest → Text → Option (Channel × CommandResponse)
  unfolding send_request receive_response work
  exchange ch request uuid =
      received (work c b json (record ch { handle = send_request ch.handle request uuid }))

  module _ (request : CommandRequest) (uuid : Text) where
    abbrev msg : WorkerRequest
    msg = message_of request uuid

    -- the process after the request
    abbrev pub after : WorkerProcess → WorkerProcess
    after process = Channels.after c b json process msg

    -- what it answers
    abbrev pub answer : WorkerProcess → CommandResponse
    answer process = Channels.answer c b json process msg

    exchange-emptied :
        (handle : WorkerHandle) (process : WorkerProcess)
        → process.running ≡ true
        → exchange (record { handle = emptied handle; process = process }) request uuid
          ≡ some (
            record { handle = emptied handle; process = after process },
            sent_back msg.request_id (answer process),
          )
    unfolding exchange work work_on send_request receive_response
    exchange-emptied handle process on =
        ap received (if_true process.running _ _ on)
        ∙ ap
            (λ l. received (record {
              handle = record (emptied handle) { response_queue = l };
              process = after process;
            }))
            (after_responses c b json process msg)

    -- A request that is sent while the worker process runs and nothing waits in its two queues, and whose
    -- response is taken after the process worked: it has the id that was sent and what the execution
    -- answers, but that `values` is empty, and nothing waits in the queues again.
    pub exchange_answers :
        (ch : Channel)
        → IsQuiet ch
        → (exchange ch request uuid
            ≡ some (
              record ch { process = after ch.process },
              sent_back (id_or request.request_id uuid) (answer ch.process),
            ))
          × IsQuiet (record ch { process = after ch.process })
    exchange_answers ch quiet =
        let same : ch.handle ≡ emptied ch.handle = λ i. record ch.handle {
          request_queue = quiet.no_request i;
          response_queue = quiet.no_response i;
        } in
        (
          ap (λ handle. exchange (record ch { handle = handle }) request uuid) same
              ∙ exchange-emptied ch.handle ch.process quiet.running
              ∙ ap
                  (λ handle. some (
                    record { handle = handle; process = after ch.process },
                    sent_back (id_or request.request_id uuid) (answer ch.process),
                  ))
                  (sym same),
          record {
            running = after_runs c b json ch.process msg quiet.running;
            no_request = quiet.no_request;
            no_response = quiet.no_response;
          },
        )
