-- ===== src/Server/Connection.antt =====
-- `_handle_client` of src/server.py: one connection, from its first line to its end, with the exceptions
-- that end it.
use lite_store.Base.{
  ℕ, ◌+◌, Bool, true, false, Option, none, some, List, [], ◌∷◌, Result, ok, raised, ◌++◌,
}
use lite_store.Base.Text.{Text, text, text_key, decimal}
use lite_store.Base.Dict.{lookup, insert}
use lite_store.Clock.{Time}
use lite_store.Builtins.{Builtins}
use lite_store.Interfaces.{StoreInterface}
use lite_store.Types.{CommandRequest}
use lite_store.Protocol.{Raises, parse_command}
use lite_store.Router.{Hashing, route_request}
use lite_store.Persistence.{JsonLib}
use lite_store.Metrics.{Floats}
use lite_store.Worker.{StoreWorker, execute_raised}
use lite_store.Server.{
  LiteStoreRuntime, Crash, value_error, overflow_error, connection_error, Outcome, answer_line,
  next_connection_id,
}

-- What `readline` does: it returns a line, which is empty at the end of the stream, or it raises a
-- ValueError, since the line is longer than the limit of the stream, or an exception of the connection,
-- which is lost.
pub data Incoming : Type 0 where
  received : Text → Incoming
  overlong : Incoming
  broken : Incoming

-- One turn of the loop, with what it takes from outside: the line, the outcome of the write to the log,
-- the time that the command takes, and whether `drain` raises, since the connection is lost.
pub record Turn : Type 0 where
  pub incoming : Incoming
  pub outcome : Outcome
  pub duration : Time
  pub lost : Bool

module _ {S : Type 0} (store : StoreInterface S) (b : Builtins) (h : Hashing) where
  -- the server when the command raises an OverflowError
  abbrev pub lookup_raised :
      LiteStoreRuntime S
      → CommandRequest
      → Text
      → Option (StoreWorker S)
      → Option (LiteStoreRuntime S)
  lookup_raised rt request worker_id none = none
  lookup_raised rt request worker_id (some w) = elim (execute_raised store b w request) [
    | none ↦ none
    | some w' ↦ some (record rt { workers = insert worker_id w' rt.workers })
  ]

  abbrev pub request_raised :
      LiteStoreRuntime S → Raises CommandRequest → Option (LiteStoreRuntime S)
  request_raised rt (raised e) = none
  request_raised rt (ok request) =
      let worker_id = (route_request h rt.router request).worker_id in
      lookup_raised rt request worker_id (lookup worker_id rt.workers)

  -- the server when the line raises one
  unfoldable pub line_raised : LiteStoreRuntime S → Text → ℕ → Text → Option (LiteStoreRuntime S)
  unfolding execute_raised parse_command route_request
  line_raised rt connection_id request_index decoded = request_raised rt (
      parse_command b (some (connection_id ++ text ":" ++ decimal request_index))
        (some connection_id) decoded)

module _ {S : Type 0} (store : StoreInterface S) (b : Builtins) (json : JsonLib) (h : Hashing)
    (f : Floats) where
  -- the state, the texts that are written, and the exception that ends the connection, if one does
  abbrev pub Served : Type 0
  Served = LiteStoreRuntime S × List Text × Option Crash

  -- the turn from the answer to its line on, before the later turns
  abbrev pub written_before : LiteStoreRuntime S → Result Crash Text → Bool → Served → Served
  written_before rt (raised e) lost later = (rt, [], some e)
  written_before rt (ok line) true later = (rt, line ∷ [], some connection_error)
  written_before rt (ok line) false (rt', written, crash) = (rt', line ∷ written, crash)

  abbrev pub turn_before :
      Option (LiteStoreRuntime S) → LiteStoreRuntime S → Result Crash Text → Bool → Served → Served
  turn_before none rt result lost later = written_before rt result lost later
  turn_before (some left) rt result lost later = (left, [], some overflow_error)

  -- the loop of `_handle_client` after `request_index` lines
  unfoldable pub serve_lines : LiteStoreRuntime S → Text → ℕ → List Turn → Served
  unfolding answer_line line_raised
  serve_lines rt connection_id request_index [] = (rt, [], none)
  serve_lines rt connection_id request_index (turn ∷ turns) =
      let n = request_index + 1 in
      elim turn.incoming [
        | overlong ↦ (rt, [], some value_error)
        | broken ↦ (rt, [], some connection_error)
        | received [] ↦ (rt, [], none)
        | received (c ∷ decoded) ↦
            let (rt', result) =
              answer_line store b json h f rt connection_id n (c ∷ decoded) turn.outcome
                turn.duration in
            let later = serve_lines rt' connection_id n turns in
            turn_before (line_raised store b h rt connection_id n (c ∷ decoded)) rt' result
              turn.lost later
      ]

  -- `_handle_client` for a connection with this `peername` that sends these lines; its `finally`, which
  -- closes the connection, is taken to succeed
  unfoldable pub handle_client : LiteStoreRuntime S → Option (Text × ℕ) → List Turn → Served
  unfolding next_connection_id serve_lines
  handle_client rt peer turns =
      let (rt', connection_id) = next_connection_id rt peer in serve_lines rt' connection_id 0 turns
