-- ===== src/Tests/Network.antt =====
-- The server on concrete lines.
use lite_store.Base.{
  true, false, ap, get_or, ℕ, ◌≡◌, ◌≢◌, refl, arith, true, some, List, [], ◌∷◌, ◌++◌, ok, pos,
}
use lite_store.Base.Text.{Text, text, text_key, Text-discrete, decimal}
use lite_store.Base.Dict.{lookup, insert}
use lite_store.Types.{
  CommandName, CommandRequest, CommandResponse, response, simple_string, error, persistence_error,
  every_n,
}
use lite_store.Config.{LiteStoreConfig, default_config}
use lite_store.Interfaces.{StoreInterface, memory_store}
use lite_store.Store.{MemoryStore}
use lite_store.Store
use lite_store.Store.Synced.{IsSynced}
use lite_store.Store.Methods.{init-IsSynced, process_expirations-IsSynced, snapshot-IsSynced}
use lite_store.Commands.{execute_command}
use lite_store.Commands.Keeps.{Keeps, memory_store-Keeps}
use lite_store.Router.{make_router, routing, route_request}
use lite_store.Persistence.{AofPersistence, make_persistence}
use lite_store.Worker.{StoreWorker, execute_started}
use lite_store.Metrics.{make_metrics}
use lite_store.Server.{LiteStoreRuntime, Outcome, appended, os_error, answer_line, dispatch_request}
use lite_store.Server.Connection.{Turn, received, overlong, handle_client}
use lite_store.Server.Replayed.{kept_somewhere}
use lite_store.Server.Start.{init, make_runtime, worker_ids, make_workers, start_workers, start}
use lite_store.Server.Serving.{IsServing, logged-IsServing}
use lite_store.Server.Life.{Lived, started, answered, Lived-IsServing}
use lite_store.Server.Begun.{made-IsServing}
use lite_store.Commands.Contents.{written}
use lite_store.Commands.Writes.{found_response}
use lite_store.Server.Visible.{dispatch_all, asked, get_written}
use lite_store.Server.Clients.{Serves, handle_client-Serves}
use lite_store.Server.Acknowledged.{sets, refused_applied}
use lite_store.Tests.{builtins}
use lite_store.Tests.Servers.{request_of, c, regular, hashing, set_request, json}
use lite_store.Tests.HotKeys.{floats}

abbrev store : StoreInterface MemoryStore
store = memory_store c builtins

abbrev keeps : Keeps store (IsSynced c)
keeps = memory_store-Keeps c builtins regular

-- Two workers and an empty log.
abbrev config : LiteStoreConfig
config = record (default_config floats) { worker_count = pos 2 }

abbrev fresh : ℕ → MemoryStore
fresh i = Store.init c

abbrev made : LiteStoreRuntime MemoryStore
made = record {
  router = routing (text "w" ++ decimal 0) ((text "w" ++ decimal 1) ∷ []);
  workers = make_workers store fresh 0 (worker_ids 0 2) [];
  persistence = make_persistence json [] every_n 100;
  metrics = make_metrics;
  connection_sequence = 0;
}

init_made : init store builtins json hashing floats fresh [] config ≡ ok made
unfolding init make_runtime worker_ids make_router
init_made = refl

abbrev begun : LiteStoreRuntime MemoryStore
begun = (start store builtins json hashing floats made).0

abbrev begun-Lived : Lived store builtins json hashing floats fresh [] config begun
begun-Lived = started init_made

Lived-IsServing_example :
    IsServing hashing
      (IsSynced c)
      (answer_line store builtins json hashing floats begun
        (text "connection:1")
        1
        (text "SET k v")
        appended
        7).0
Lived-IsServing_example =
    Lived-IsServing store builtins json hashing floats keeps
      (process_expirations-IsSynced c regular) (snapshot-IsSynced c regular) fresh
      (λ i. init-IsSynced c regular) [] config
      (answered (text "connection:1") 1 (text "SET k v") appended 7 begun-Lived)

begun-IsServing : IsServing hashing (IsSynced c) begun
begun-IsServing =
    Lived-IsServing store builtins json hashing floats keeps
      (process_expirations-IsSynced c regular) (snapshot-IsSynced c regular) fresh
      (λ i. init-IsSynced c regular) [] config begun-Lived

-- A connection that is lost after its fourth line.
abbrev turns : List Turn
turns =
    record { incoming = received (text "SET k v"); outcome = appended; duration = 7; lost = false }
    ∷ record { incoming = received (text "NO"); outcome = appended; duration = 1; lost = false }
    ∷ record {
      incoming = received (text "GET k");
      outcome = os_error (text "full") begun.persistence;
      duration = 2;
      lost = false;
    }
    ∷ record { incoming = received (text "PING"); outcome = appended; duration = 1; lost = true }
    ∷ record { incoming = overlong; outcome = appended; duration = 1; lost = false }
    ∷ []

abbrev Anything : MemoryStore → Type 0
Anything s = Unit {0}

handle_client-Serves_example :
    Serves builtins hashing Anything turns
      (handle_client store builtins json hashing floats begun (some (text "127.0.0.1", 5000)) turns)
handle_client-Serves_example =
    handle_client-Serves store builtins json hashing floats
      (kept_somewhere c builtins json hashing floats []) (λ s now u. u) (λ s s' key seconds e u. u)
      begun (some (text "127.0.0.1", 5000)) turns
      (Lived-IsServing store builtins json hashing floats
        (kept_somewhere c builtins json hashing floats []) (λ s now u. u) (λ s u. u) fresh (λ i. tt)
        [] config begun-Lived)

-- Requests between the SET of a key and its GET.
abbrev between : List (CommandRequest × Outcome)
between =
    (request_of CommandName.set (text "j" ∷ text "w" ∷ []), appended)
    ∷ (request_of CommandName.expire (text "j" ∷ text "5" ∷ []), appended)
    ∷ (request_of CommandName.del (text "k" ∷ []), appended)
    ∷ (request_of CommandName.set (text "k" ∷ text "x" ∷ []), appended)
    ∷ []

other_key : text "j" ≢ text "k"
other_key = λ e. absurd (omega (arith, ap (λ (l : Text). get_or l 0 0) e))

get_written_example :
    (dispatch_request store builtins json hashing floats
      (dispatch_all store builtins json hashing floats
        (dispatch_request store builtins json hashing floats begun set_request appended).0
        between)
      (request_of CommandName.get (text "k" ∷ []))
      appended).1
    ≡ ok (
        found_response
          (request_of CommandName.get (text "k" ∷ []))
          (written (text "k") (asked between) (some (text "v"))))
get_written_example =
    get_written c builtins json hashing floats (text "k") keeps
      (process_expirations-IsSynced c regular) begun begun-IsServing set_request
      (request_of CommandName.get (text "k" ∷ [])) appended appended (text "v") refl refl between
      (tt, (other_key, (tt, (tt, tt)))) refl refl

-- The server with the workers started, and a log that has no record.
abbrev log : AofPersistence
log = record {
  content = [];
  unsynced = [];
  next_sequence = pos 0;
  fsync_policy = every_n;
  fsync_every_n = 100;
  writes_since_fsync = 0;
}

abbrev workers_started : LiteStoreRuntime MemoryStore
workers_started = record made { workers = start_workers store made.workers }

abbrev empty_log : LiteStoreRuntime MemoryStore
empty_log = record workers_started { persistence = log }

empty_log-IsServing : IsServing hashing (IsSynced c) empty_log
unfolding init
empty_log-IsServing =
    logged-IsServing hashing workers_started
      (made-IsServing store builtins json hashing floats keeps
        (process_expirations-IsSynced c regular) (snapshot-IsSynced c regular) fresh
        (λ i. init-IsSynced c regular) (worker_ids 0 2) [] made init_made)
      log

abbrev other_worker : Text
other_worker = text "w" ++ decimal 0

not_routed : other_worker ≢ (route_request hashing empty_log.router set_request).worker_id
unfolding route_request decimal
not_routed = λ e. absurd (omega (arith, ap (λ (l : Text). get_or l 1 0) e))

abbrev answer : CommandResponse
answer = record (response simple_string (some (text "1"))) { message = some (text "OK") }

abbrev answered_to : LiteStoreRuntime MemoryStore
answered_to = (dispatch_request store builtins json hashing floats empty_log set_request appended).0

abbrev routed_worker : StoreWorker MemoryStore
routed_worker = record {
  worker_id = text "w" ++ decimal 1;
  partition_id = 1;
  store = Store.init c;
  running = true;
  in_flight = 0;
}

routed_there :
    lookup (route_request hashing empty_log.router set_request).worker_id empty_log.workers
    ≡ some routed_worker
unfolding route_request decimal lookup start_workers make_workers worker_ids insert Text-discrete
routed_there = refl

executed_fine : (execute_started store builtins routed_worker set_request).1.kind ≢ error
unfolding execute_started execute_command
executed_fine = λ e. cc

-- The outcome of a full disk.
abbrev full_disk : Outcome
full_disk = os_error (text "No space left on device") log

refused_applied_example :
    (r : CommandResponse) × ((dispatch_request store builtins json hashing floats empty_log
        set_request full_disk).1
      ≡ ok r)
    × (r.error_code ≡ some persistence_error)
    × (lookup
          (route_request hashing empty_log.router set_request).worker_id
          (dispatch_request store builtins json hashing floats empty_log set_request
            full_disk).0.workers
        ≡ some (execute_started store builtins routed_worker set_request).0)
refused_applied_example =
    refused_applied store builtins json hashing floats empty_log empty_log-IsServing set_request
      full_disk (text "No space left on device") log refl routed_worker routed_there executed_fine
      (sets refl)
