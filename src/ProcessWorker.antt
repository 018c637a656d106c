-- ===== src/ProcessWorker.antt =====
-- The worker process of src/process_worker.py: one store and one log, driven by messages.
--
-- The queues are lists: what the loop takes from the request queue, with an entry for each time
-- that it was empty, and what it has put on the response queue. The loop ends with the events.
pub mod Runs
pub mod Answered
pub mod Entry
pub mod Logged
pub mod Restart
use lite_store.Base.{
  ℕ, ◌≡◌, Bool, true, false, ◌&&◌, Option, none, some, List, [], ◌∷◌, ◌++◌, foldl, if◌then◌else◌, ℤ,
  pos, ite, ◌==◌,
}
use lite_store.Base.Text.{Text, text, Text-discrete}
use lite_store.Clock.{Time, Clock}
use lite_store.Builtins.{Builtins}
use lite_store.Interfaces.{memory_store}
use lite_store.Types.{
  CommandName, CommandRequest, CommandResponse, ResponseKind, error, bulk_string, FsyncPolicy,
  PersistRecord, WorkerRequest, WorkerResponse, WorkerControl,
}
use lite_store.Store
use lite_store.Store.{MemoryStore}
use lite_store.Commands.{command_raised, execute_command}
use lite_store.Persistence.{
  AofPersistence, JsonLib, make_persistence, append_request, close, replay,
}

-- response.integer == 1
abbrev pub is_one : Option ℤ → Bool
is_one (some (pos n)) = n == 1
is_one _ = false

abbrev pub is_error : ResponseKind → Bool
is_error error = true
is_error _ = false

-- the tests of `_is_write` on the command
abbrev pub writes : CommandName → Option ℤ → Bool
writes CommandName.set n = true
writes CommandName.del n = true
writes CommandName.expire n = is_one n
writes _ n = false

-- _is_write
unfoldable pub is_write : CommandRequest → CommandResponse → Bool
is_write request r = if is_error r.kind then false else writes request.command r.integer

pub record WorkerProcess : Type 0 where
  pub store : MemoryStore
  pub persistence : Option AofPersistence
  pub running : Bool
  pub last_expiration : Time
  pub responses : List WorkerResponse

pub data Event : Type 0 where
  nothing : Event
  controlled : WorkerControl → Event
  requested : WorkerRequest → Event

-- the WorkerResponse of `_handle_request`
abbrev pub worker_response : Text → CommandResponse → WorkerResponse
worker_response id r = record {
  request_id = id;
  kind = r.kind;
  message = r.message;
  value = r.value;
  integer = r.integer;
  error_code = r.error_code;
}

abbrev pub request_of : WorkerRequest → CommandRequest
request_of msg = record {
  command = msg.command;
  args = msg.args;
  request_id = some msg.request_id;
  client_id = msg.client_id;
}

-- `if self._persistence and _is_write(request, response)` with its body
unfoldable pub log_write :
    JsonLib → Option AofPersistence → CommandRequest → CommandResponse → Option AofPersistence
unfolding is_write
log_write json none request r = none
log_write json (some p) request r =
    if is_write request r then some (append_request json p request).0 else some p

module _ (c : Clock) (b : Builtins) (json : JsonLib) where
  unfoldable pub handle_request : WorkerProcess → WorkerRequest → WorkerProcess
  unfolding log_write
  handle_request w msg =
      let (s, r) = execute_command (memory_store c b) b (request_of msg) w.store in
      record w {
        store = s;
        persistence = log_write json w.persistence (request_of msg) r;
        responses = w.responses ++ worker_response msg.request_id r ∷ [];
      }

  abbrev close_log : Option AofPersistence → Option AofPersistence
  close_log none = none
  close_log (some p) = some (close json p)

  abbrev or_snapshot : Option Text → Text
  or_snapshot none = text "__snapshot__"
  or_snapshot (some []) = text "__snapshot__"
  or_snapshot (some (ch ∷ id)) = ch ∷ id

  -- the branches of `_handle_control`
  unfoldable pub shutdown : WorkerProcess → WorkerProcess
  shutdown w = record w { running = false; persistence = close_log w.persistence }

  unfoldable pub answer_snapshot : WorkerProcess → Option Text → WorkerProcess
  answer_snapshot w request_id =
      let (s, d) = Store.snapshot c w.store in
      record w {
        store = s;
        responses =
            w.responses
            ++ record {
              request_id = or_snapshot request_id;
              kind = bulk_string;
              message = some (text "__snapshot__");
              value = some (b.str_of_dict d);
              integer = none;
              error_code = none;
            }
              ∷ [];
      }

  unfoldable pub handle_control : WorkerProcess → WorkerControl → WorkerProcess
  unfolding shutdown answer_snapshot
  handle_control w msg =
      ite (Text-discrete msg.action (text "shutdown")) (shutdown w)
        (ite (Text-discrete msg.action (text "snapshot")) (answer_snapshot w msg.request_id) w)

  -- the expiration cycle at the end of each round of the loop
  unfoldable pub expiration_cycle : WorkerProcess → WorkerProcess
  expiration_cycle w =
      let (s, now) = Store.time_source c w.store in
      if c.overdue now w.last_expiration
      then record w { store = (Store.process_expirations c s none).0; last_expiration = now }
      else record w { store = s }

  -- one round of the loop of `run`
  unfoldable pub round : WorkerProcess → Event → WorkerProcess
  unfolding handle_request handle_control expiration_cycle
  round w nothing = expiration_cycle w
  round w (controlled msg) = expiration_cycle (handle_control w msg)
  round w (requested msg) = expiration_cycle (handle_request w msg)

  -- whether the message ends the process with an OverflowError
  unfoldable pub overflows : WorkerProcess → Event → Bool
  unfolding command_raised
  overflows w (requested msg) =
      elim (command_raised (memory_store c b) b (request_of msg) msg.command w.store msg.args) [
        | none ↦ false
        | some _ ↦ true
      ]
  overflows w _ = false

  -- while self._running; an OverflowError leaves the loop and ends the process, with the log and the
  -- responses that it had
  unfoldable pub run_loop : WorkerProcess → List Event → WorkerProcess
  unfolding round overflows
  run_loop w [] = w
  run_loop w (e ∷ events) =
      let rest = run_loop (round w e) events in
      if w.running then (if overflows w e then w else rest) else w

  -- the replay at the start of `run`
  unfoldable pub replay_all : MemoryStore → List PersistRecord → MemoryStore
  replay_all s [] = s
  replay_all s (r ∷ rest) = replay_all (Store.apply_replay_request c b s r.request) rest

  -- for a log of which no EXPIRE overflows
  unfoldable pub recovered : Option AofPersistence → MemoryStore
  unfolding replay_all
  recovered none = Store.init c
  recovered (some p) = replay_all (Store.init c) (replay json p)

  -- WorkerProcess(…) and `run` up to its loop; the log's file has this content, if there is one
  unfoldable pub start : Option Text → FsyncPolicy → ℕ → WorkerProcess
  unfolding recovered
  start content policy n =
      let p : Option AofPersistence = elim content [
        | none ↦ none
        | some text ↦ some (make_persistence json text policy n)
      ] in
      let (s, now) = Store.time_source c (recovered p) in
      record { store = s; persistence = p; running = true; last_expiration = now; responses = [] }
