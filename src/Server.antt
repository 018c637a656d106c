-- ===== src/Server.antt =====
-- The server of src/server.py with its workers in the same process, and its configuration of
-- src/config.py.
--
-- Nothing is awaited between the reading of a line and the end of its answer, so one line of one
-- connection is one step. What a step takes from outside is an argument: the line, the outcome of
-- the write to the log, and the time that the command took. An exception is a value, with the
-- state that it leaves.
pub mod Start
pub mod Http
pub mod Connection
pub mod Clients
pub mod Serving
pub mod Begun
pub mod Life
pub mod Acknowledged
pub mod Held
pub mod Values
pub mod Replayed
pub mod Started
pub mod Restorable
pub mod Restart
pub mod Visible
pub mod Pooled
use lite_store.Base.{
  ℕ, zero, suc, ◌+◌, Bool, true, false, Option, none, some, List, [], ◌∷◌, ◌++◌, ◌==◌,
  if◌then◌else◌, Result, ok, raised, ℤ, pos,
}
use lite_store.Base.Text.{Text, text, text_key, decimal}
use lite_store.Base.Dict.{Dict, lookup, insert}
use lite_store.Clock.{Time}
use lite_store.Builtins.{Builtins}
use lite_store.Errors.{LiteStoreError}
use lite_store.Interfaces.{StoreInterface}
use lite_store.Types.{
  CommandName, CommandRequest, CommandResponse, ErrorCode, ResponseKind, error, response,
  persistence_error,
}
use lite_store.Protocol.{Raises, parse_command, serialize_response}
use lite_store.Router.{Hashing, Router, route_request}
use lite_store.Persistence.{AofPersistence, JsonLib, append_request}
use lite_store.Worker.{StoreWorker, execute, worker_snapshot}
use lite_store.Metrics.{Floats, MetricsCollector, observe_command, observe_store_snapshot}

-- LiteStoreRuntime with `use_multiprocessing` false
pub record LiteStoreRuntime (S : Type 0) : Type 0 where
  pub router : Router
  pub workers : Dict Text (StoreWorker S)
  pub persistence : AofPersistence
  pub metrics : MetricsCollector
  pub connection_sequence : ℕ

-- The exceptions that leave a step.
pub data Crash : Type 0 where
  key_error : Crash
  runtime_error : Text → Crash
  value_error : Crash
  overflow_error : Crash
  connection_error : Crash
  lite_store_error : LiteStoreError → Crash

-- What the write to the log does: it returns, or it raises an OSError with this text and leaves the
-- log so.
pub data Outcome : Type 0 where
  appended : Outcome
  os_error : Text → AofPersistence → Outcome

-- _error_response
abbrev pub error_response : ErrorCode → Text → Option Text → CommandResponse
error_response code message request_id = record (response error request_id) {
  error_code = some code;
  message = some message;
}

-- _is_persisted_write
unfoldable pub is_persisted_write : ResponseKind → CommandName → Option ℤ → Bool
is_persisted_write error name n = false
is_persisted_write kind CommandName.set n = true
is_persisted_write kind CommandName.del n = true
is_persisted_write kind CommandName.expire (some (pos n)) = n == 1
is_persisted_write kind name n = false

-- d.update(found)
unfoldable pub update : Dict Text Text → Dict Text Text → Dict Text Text
update d [] = d
update d ((key, value) ∷ found) = update (insert key value d) found

-- the name of a connection, by its `peername` and its number
abbrev pub connection_name : Option (Text × ℕ) → ℕ → Text
connection_name none sequence = text "connection:" ++ decimal sequence
connection_name (some (host, port)) sequence =
    host ++ text ":" ++ decimal port ++ text ":" ++ decimal sequence

-- _next_connection_id
unfoldable pub next_connection_id :
    {S : Type 0} → LiteStoreRuntime S → Option (Text × ℕ) → LiteStoreRuntime S × Text
next_connection_id rt peer =
    let sequence = rt.connection_sequence + 1 in
    (record rt { connection_sequence = sequence }, connection_name peer sequence)

module _ {S : Type 0} (store : StoreInterface S) where
  -- the loop of `_refresh_metrics_snapshot`, on the items of `workers`
  unfoldable pub collect_snapshots :
      Dict Text (StoreWorker S) → Dict Text Text → Dict Text (StoreWorker S) × Dict Text Text
  unfolding worker_snapshot update
  collect_snapshots [] aggregated = ([], aggregated)
  collect_snapshots ((worker_id, w) ∷ workers) aggregated =
      let (w', found) = worker_snapshot store w in
      let (workers', all) = collect_snapshots workers (update aggregated found) in
      ((worker_id, w') ∷ workers', all)

module _ {S : Type 0} (store : StoreInterface S) (b : Builtins) (json : JsonLib) (h : Hashing)
    (f : Floats) where
  -- a call of the server that may raise
  abbrev pub Call : Type 0 → Type 0
  Call A = LiteStoreRuntime S × Result Crash A

  -- the `try` of `_dispatch_request`
  unfoldable pub log_request :
      LiteStoreRuntime S → CommandRequest → CommandResponse → Outcome → Call CommandResponse
  log_request rt request r appended =
      (record rt { persistence = (append_request json rt.persistence request).0 }, ok r)
  log_request rt request r (os_error message left) = (
    record rt { persistence = left },
    ok (
        error_response persistence_error (text "Persistence append failed: " ++ message)
          request.request_id),
  )

  -- `_dispatch_request` once the worker has returned or raised
  unfoldable pub dispatch_executed :
      LiteStoreRuntime S
      → CommandRequest
      → Outcome
      → Result Text CommandResponse
      → Call CommandResponse
  unfolding log_request is_persisted_write
  dispatch_executed rt request outcome (raised message) = (rt, raised (runtime_error message))
  dispatch_executed rt request outcome (ok r) =
      if is_persisted_write r.kind request.command r.integer
      then log_request rt request r outcome
      else (rt, ok r)

  -- `_dispatch_request` once the worker is looked up
  unfoldable pub dispatch_worker :
      LiteStoreRuntime S
      → CommandRequest
      → Outcome
      → Text
      → Option (StoreWorker S)
      → Call CommandResponse
  unfolding dispatch_executed execute
  dispatch_worker rt request outcome worker_id none = (rt, raised key_error)
  dispatch_worker rt request outcome worker_id (some w) =
      let (w', r) = execute store b w request in
      dispatch_executed (record rt { workers = insert worker_id w' rt.workers }) request outcome r

  unfoldable pub dispatch_request :
      LiteStoreRuntime S → CommandRequest → Outcome → Call CommandResponse
  unfolding dispatch_worker route_request
  dispatch_request rt request outcome =
      let worker_id = (route_request h rt.router request).worker_id in
      dispatch_worker rt request outcome worker_id (lookup worker_id rt.workers)

  -- `observe_command` on the metrics of the server, before it returns `r`
  abbrev pub metered :
      LiteStoreRuntime S → CommandResponse → Option MetricsCollector → Call CommandResponse
  metered rt r none = (rt, raised value_error)
  metered rt r (some m) = (record rt { metrics = m }, ok r)

  -- the last statements of `_process_command_bytes`
  unfoldable pub measure : CommandRequest → Time → Call CommandResponse → Call CommandResponse
  measure request duration (rt, raised e) = (rt, raised e)
  measure request duration (rt, ok r) =
      metered rt r (observe_command f h rt.metrics request duration)

  -- `_process_command_bytes`, by what `parse_command` does
  unfoldable pub process_parsed :
      LiteStoreRuntime S → Text → Outcome → Time → Raises CommandRequest → Call CommandResponse
  unfolding dispatch_request measure
  process_parsed rt request_id outcome duration (raised e) =
      (rt, ok (error_response e.code e.message (some request_id)))
  process_parsed rt request_id outcome duration (ok request) =
      measure request duration (dispatch_request rt request outcome)

  -- `_process_command_bytes` of a decoded line
  unfoldable pub process_command :
      LiteStoreRuntime S → Text → Text → Text → Outcome → Time → Call CommandResponse
  unfolding process_parsed
  process_command rt decoded connection_id request_id outcome duration =
      process_parsed rt request_id outcome duration
        (parse_command b (some request_id) (some connection_id) decoded)

  -- serialize_response(response), whose error leaves the step
  abbrev pub serialized : Raises Text → Result Crash Text
  serialized (raised e) = raised (lite_store_error e)
  serialized (ok line) = ok line

  abbrev pub write_response : Call CommandResponse → Call Text
  write_response (rt, raised e) = (rt, raised e)
  write_response (rt, ok r) = (rt, serialized (serialize_response r))

  -- the body of the loop of `_handle_client` for its line with this number
  unfoldable pub answer_line : LiteStoreRuntime S → Text → ℕ → Text → Outcome → Time → Call Text
  unfolding process_command serialize_response
  answer_line rt connection_id request_index decoded outcome duration = write_response (
      process_command rt decoded connection_id (connection_id ++ text ":" ++ decimal request_index)
        outcome duration)

  -- `_refresh_metrics_snapshot`, which does nothing without workers
  unfoldable pub refresh_workers :
      LiteStoreRuntime S → Dict Text (StoreWorker S) → LiteStoreRuntime S
  unfolding collect_snapshots observe_store_snapshot
  refresh_workers rt [] = rt
  refresh_workers rt (worker ∷ workers) =
      let (workers', aggregated) = collect_snapshots store (worker ∷ workers) [] in
      record rt { workers = workers'; metrics = observe_store_snapshot h rt.metrics aggregated }

  unfoldable pub refresh_metrics_snapshot : LiteStoreRuntime S → LiteStoreRuntime S
  unfolding refresh_workers
  refresh_metrics_snapshot rt = refresh_workers rt rt.workers
